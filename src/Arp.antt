-- ===== src/Arp.antt =====
-- kernel/net/arp.c: the cache of hardware addresses.
-- An entry is named by its index in `cache_tbl`, a packet by a number. Addresses are numbers.
pub mod Cache
pub mod Alloc
pub mod Find
pub mod Packet
pub mod Inv
mod Tests
use clean_os.Base.{
  ℕ, zero, suc, ◌+◌, ◌*◌, Bool, true, false, not, Option, none, some, List, [], ◌∷◌, ◌++◌, ltb,
  ◌==◌, if◌then◌else◌, length,
}
use clean_os.Base.Count.{unlink}
use clean_os.Pktbuf.Store.{NetErr, err_need_wait, err_ok, err_none, err_full, err_mem}

-- The states of an entry; `memset` leaves one that has no name.
pub data State : Type 0 where
  cleared resolved waiting : State

-- `arp_entry_t`
pub record Entry : Type 0 where
  pub paddr : ℕ
  pub haddr : ℕ
  pub state : State
  pub tmo : ℕ
  pub rety : ℕ
  pub netif : ℕ
  pub buf_list : List ℕ

-- A frame with its interface and its destination
pub record Frame : Type 0 where
  pub netif : ℕ
  pub dest : ℕ
  pub buf : ℕ

-- The static data of the file, with the frames handed to `ether_raw_out`, the packets freed and the
-- requests made so far.
pub record Arp : Type 0 where
  pub entry : ℕ → Entry
  pub free : List ℕ
  pub cache_list : List ℕ
  pub sent : List Frame
  pub freed : List ℕ
  pub asked : List (ℕ × ℕ)

-- What `ether_raw_out` and `arp_make_request` return once they have been called so far, and the six
-- bytes at the null pointer.
pub record Ether : Type 0 where
  pub raw_out : List Frame → NetErr
  pub make_request : List (ℕ × ℕ) → NetErr
  pub at_null : ℕ

-- A result below 0
abbrev pub fails : NetErr → Bool
fails err_need_wait = false
fails err_ok = false
fails _ = true

unfoldable pub put_entry : (ℕ → Entry) → ℕ → Entry → ℕ → Entry
put_entry entry x e y = if y == x then e else entry y

abbrev pub blank : Entry
blank = record {
  paddr = 0;
  haddr = 0;
  state = cleared;
  tmo = 0;
  rety = 0;
  netif = 0;
  buf_list = [];
}

-- `ARP_CACHE_SIZE` entries
unfoldable pub numbers : ℕ → ℕ → List ℕ
numbers i zero = []
numbers i (suc n) = i ∷ numbers (i + 1) n

unfoldable pub init_arp : Arp
init_arp = record {
  entry = λ x. blank;
  free = numbers 0 50;
  cache_list = [];
  sent = [];
  freed = [];
  asked = [];
}

-- The search of `cache_find`
unfoldable pub find_in : (ℕ → Entry) → ℕ → List ℕ → Option ℕ
find_in entry ip [] = none
find_in entry ip (x ∷ xs) =
    let rest = find_in entry ip xs in if ip == (entry x).paddr then some x else rest

-- The entry that is found comes to the front.
unfoldable pub cache_find : Arp → ℕ → Option ℕ × Arp
cache_find s ip = elim (find_in s.entry ip s.cache_list) [
  | none ↦ (none, s)
  | some x ↦ (some x, record s { cache_list = x ∷ unlink x s.cache_list })
]

unfoldable pub cache_clear_all : Arp → ℕ → Arp
cache_clear_all s x = record s {
  entry = put_entry s.entry x (record (s.entry x) { buf_list = [] });
  freed = s.freed ++ (s.entry x).buf_list;
}

-- `nlist_remove_last`
unfoldable pub remove_last : List ℕ → Option (ℕ × List ℕ)
remove_last [] = none
remove_last (x ∷ xs) = elim (remove_last xs) [
  | none ↦ some (x, [])
  | some (y, ys) ↦ some (y, x ∷ ys)
]

unfoldable pub cache_alloc : Arp → Bool → Option ℕ × Arp
cache_alloc s force = elim s.free [
  | x ∷ rest ↦ (some x, record s { free = rest; entry = put_entry s.entry x blank })
  | [] ↦ if not force then (none, s) else elim (remove_last s.cache_list) [
    | none ↦ (none, s)
    | some (x, rest) ↦
        let s' = cache_clear_all (record s { cache_list = rest }) x in
        (some x, record s' { entry = put_entry s'.entry x blank })
  ]
]

-- The seconds an entry lives
abbrev pub timeout : State → ℕ
timeout resolved = 20 * 60
timeout _ = 3

unfoldable pub cache_entry_set : Arp → ℕ → ℕ → ℕ → ℕ → State → Arp
cache_entry_set s x hw_addr ip_addr netif state = record s {
  entry = put_entry s.entry x (record (s.entry x) {
    haddr = hw_addr;
    paddr = ip_addr;
    state = state;
    netif = netif;
    tmo = timeout state;
    rety = 5;
  });
}

-- The loop of `cache_send_all` over the packets of the entry.
unfoldable pub send_each : Ether → Arp → ℕ → List ℕ → NetErr × Arp
send_each e s x [] = (err_ok, s)
send_each e s x (b ∷ bs) =
    let t = s.entry x in
    let s' = record s {
      entry = put_entry s.entry x (record t { buf_list = bs });
      sent = s.sent ++ (record { netif = t.netif; dest = t.haddr; buf = b } ∷ []);
    } in
    let err = e.raw_out s'.sent in
    let rest = send_each e s' x bs in
    if fails err then (err, record s' { freed = s'.freed ++ (b ∷ []) }) else rest

unfoldable pub cache_send_all : Ether → Arp → ℕ → NetErr × Arp
cache_send_all e s x = send_each e s x (s.entry x).buf_list

-- `cache_insert` with the entry that `cache_alloc` has given
unfoldable pub put_new : ℕ → ℕ → ℕ → Option ℕ → Arp → NetErr × Arp
put_new netif ip_addr hw_addr none s = (err_none, s)
put_new netif ip_addr hw_addr (some x) s =
    let s2 = cache_entry_set s x hw_addr ip_addr netif resolved in
    (err_ok, record s2 { cache_list = x ∷ s2.cache_list })

-- `cache_insert` of an address that is not in the cache
unfoldable pub insert_new : Arp → ℕ → ℕ → ℕ → Bool → NetErr × Arp
insert_new s netif ip_addr hw_addr force =
    let (o, s1) = cache_alloc s force in put_new netif ip_addr hw_addr o s1

-- The entry comes to the front of the list if another one is there.
unfoldable pub to_front : Arp → ℕ → Arp
to_front s x = elim s.cache_list [
  | [] ↦ record s { cache_list = x ∷ [] }
  | y ∷ ys ↦ if y == x then s else record s { cache_list = x ∷ unlink x (y ∷ ys) }
]

-- `cache_insert` of an address whose entry is `x`
unfoldable pub insert_known : Ether → Arp → ℕ → ℕ → ℕ → ℕ → NetErr × Arp
insert_known e s netif ip_addr hw_addr x =
    cache_send_all e (to_front (cache_entry_set s x hw_addr ip_addr netif resolved) x) x

-- `cache_insert` with what `cache_find` has found
unfoldable pub insert_at : Ether → ℕ → ℕ → ℕ → Bool → Option ℕ → Arp → NetErr × Arp
insert_at e netif ip_addr hw_addr force none s = insert_new s netif ip_addr hw_addr force
insert_at e netif ip_addr hw_addr force (some x) s = insert_known e s netif ip_addr hw_addr x

unfoldable pub cache_insert : Ether → Arp → ℕ → ℕ → ℕ → Bool → NetErr × Arp
cache_insert e s netif ip_addr hw_addr force =
    let (o, s1) = cache_find s ip_addr in insert_at e netif ip_addr hw_addr force o s1

-- The hardware address of the entry that is found
unfoldable pub haddr_of : Option ℕ → Arp → Option ℕ
haddr_of none s = none
haddr_of (some x) s = some (s.entry x).haddr

unfoldable pub arp_find : Arp → ℕ → Option ℕ × Arp
arp_find s ip = let (o, s1) = cache_find s ip in (haddr_of o s1, s1)

abbrev pub is_resolved : State → Bool
is_resolved resolved = true
is_resolved _ = false

-- `arp_resolve` of an address whose entry is `x`
unfoldable pub resolve_known : Ether → Arp → ℕ → ℕ → ℕ → NetErr × Arp
resolve_known e s netif buf x =
    let t = s.entry x in
    let s' = record s {
      sent = s.sent ++ (record { netif = netif; dest = t.haddr; buf = buf } ∷ []);
    } in
    if is_resolved t.state
    then (e.raw_out s'.sent, s')
    else if ltb 50 (length t.buf_list)
    then (err_full, s)
    else (
      err_ok,
      record s { entry = put_entry s.entry x (record t { buf_list = buf ∷ t.buf_list }) },
    )

-- `arp_resolve` with the entry that `cache_alloc` has given
unfoldable pub put_waiting : Ether → ℕ → ℕ → ℕ → Option ℕ → Arp → NetErr × Arp
put_waiting e netif addr buf none s = (err_mem, s)
put_waiting e netif addr buf (some x) s =
    let s2 = cache_entry_set s x e.at_null addr netif waiting in
    let s3 = record s2 {
      entry = put_entry s2.entry x (record (s2.entry x) { buf_list = buf ∷ (s2.entry x).buf_list });
      cache_list = s2.cache_list ++ (x ∷ []);
      asked = s2.asked ++ ((netif, addr) ∷ []);
    } in
    (e.make_request s3.asked, s3)

-- `arp_resolve` of an address that is not in the cache
unfoldable pub resolve_new : Ether → Arp → ℕ → ℕ → ℕ → NetErr × Arp
resolve_new e s netif addr buf =
    let (o, s1) = cache_alloc s true in put_waiting e netif addr buf o s1

-- `arp_resolve` with what `cache_find` has found
unfoldable pub resolve_at : Ether → ℕ → ℕ → ℕ → Option ℕ → Arp → NetErr × Arp
resolve_at e netif addr buf none s = resolve_new e s netif addr buf
resolve_at e netif addr buf (some x) s = resolve_known e s netif buf x

unfoldable pub arp_resolve : Ether → Arp → ℕ → ℕ → ℕ → NetErr × Arp
arp_resolve e s netif addr buf = let (o, s1) = cache_find s addr in resolve_at e netif addr buf o s1
