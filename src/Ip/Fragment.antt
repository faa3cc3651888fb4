-- ===== src/Ip/Fragment.antt =====
-- kernel/net/ip.c: fragments that wait for the rest of their packet, and packets that come in.
-- `frag_list` is the list of its nodes in order, `spare` the number of free blocks of
-- `frag_mblock`, `freed` the packets handed to `pktbuf_free` so far, the last first. An answer
-- `none` is an access through a null pointer.
use clean_os.Base.{
  ℕ, ◌+◌, ◌-◌, ◌*◌, ◌%◌, ◌^◌, Bool, true, false, not, Option, none, some, List, [], ◌∷◌, ◌++◌, ltb,
  leb, ◌==◌, if◌then◌else◌, length, drop,
}
use clean_os.Pktbuf.Store.{NetErr, err_ok, err_exist, err_full, err_not_support}
use clean_os.Ip.Header.{Packet, offset_of, more_of, ipv4_hdr_size}

-- `IP_FRAGS_MAX_NR`
abbrev pub ip_frags_max_nr : ℕ
ip_frags_max_nr = 10

-- `ipv4_frag_t`
pub record Frag : Type 0 where
  pub ip : ℕ
  pub id : ℕ
  pub tmo : ℕ
  pub buf_list : List Packet

pub record Frags : Type 0 where
  pub frag_list : List Frag
  pub spare : ℕ
  pub freed : List Packet

-- `frag_list` and `frag_mblock` behind `init_ip`
abbrev pub init_frags : Frags
init_frags = record { frag_list = []; spare = ip_frags_max_nr; freed = [] }

-- What the two upper protocols answer for a sender, a receiver and a packet, and the bytes that
-- `pktbuf_resize` finds behind a packet that it makes longer, if there is room.
pub record Upper : Type 0 where
  pub icmp_in : ℕ → ℕ → Packet → NetErr
  pub udp_in : ℕ → ℕ → Packet → NetErr
  pub behind : List ℕ → ℕ → Option (List ℕ)

unfoldable pub ipv4_normal_in : Upper → ℕ → ℕ → ℕ → Packet → NetErr
ipv4_normal_in upper own src dest pkt =
    if pkt.hdr.protocol == 0x1
    then upper.icmp_in src own pkt
    else if pkt.hdr.protocol == 0x11
    then upper.udp_in src dest pkt
    else err_not_support

-- The first entry of an address, and the list without it
unfoldable pub find_ip : ℕ → List Frag → Option (Frag × List Frag)
find_ip ip [] = none
find_ip ip (f ∷ fs) =
    if ip == f.ip
    then some (f, fs)
    else elim (find_ip ip fs) [ none ↦ none | some (g, gs) ↦ some (g, f ∷ gs) ]

-- Whether there is one; it is then the first of the list.
unfoldable pub frag_find : ℕ → ℕ → Frags → Bool × Frags
unfolding find_ip
frag_find ip id s = elim (find_ip ip s.frag_list) [
  | none ↦ (false, s)
  | some (f, fs) ↦ (true, record s { frag_list = f ∷ fs })
]

-- `frag_free_buf_list`: what has been freed
unfoldable pub frag_free_buf_list : List Packet → List Packet → List Packet
frag_free_buf_list [] freed = freed
frag_free_buf_list (b ∷ bs) freed = frag_free_buf_list bs (b ∷ freed)

unfoldable pub last_frag : List Frag → Option (Frag × List Frag)
last_frag [] = none
last_frag (f ∷ fs) = elim (last_frag fs) [ none ↦ some (f, []) | some (g, gs) ↦ some (g, f ∷ gs) ]

-- Whether the caller gets an entry, which is in no list then. The function has no `return`: the
-- answer is what the code compiled with the flags of CMakeLists.txt, -O0 among them, leaves in the
-- register. That is the entry where a block was free; where none was, the last call is that of
-- `nlist_remove_first` which ends `frag_free_buf_list`, and the answer its null pointer.
unfoldable pub frag_alloc : Frags → Bool × Frags
unfolding frag_free_buf_list last_frag
frag_alloc s =
    if s.spare == 0
    then elim (last_frag s.frag_list) [
      | none ↦ (false, s)
      | some (f, fs) ↦
          (false, record s { frag_list = fs; freed = frag_free_buf_list f.buf_list s.freed })
    ]
    else (true, record s { spare = s.spare - 1 })

-- `IP_FRAG_TMO / IP_FRAG_SCAN_PERIOD` is 5.
unfoldable pub frag_add : ℕ → ℕ → Frags → Frags
frag_add ip id s =
    let f : Frag = record { ip = ip; id = id; tmo = 5; buf_list = [] } in
    record s { frag_list = f ∷ s.frag_list }

-- `frag_free` of the first entry, `f`; `fs` are the others.
unfoldable pub frag_free : Frag → List Frag → Frags → Frags
unfolding frag_free_buf_list
frag_free f fs s = record {
  frag_list = fs;
  spare = s.spare + 1;
  freed = frag_free_buf_list f.buf_list s.freed;
}

-- An `int`; as a 32-bit number, since a header may say less than its own size.
unfoldable pub get_data_size : Packet → ℕ
unfolding ipv4_hdr_size
get_data_size pkt = (pkt.hdr.total_len + 2 ^ 32 - ipv4_hdr_size pkt.hdr) % 2 ^ 32

unfoldable pub get_frag_start : Packet → ℕ
unfolding offset_of
get_frag_start pkt = offset_of pkt.hdr.frag_all * 8 % 2 ^ 16

unfoldable pub get_frag_end : Packet → ℕ
unfolding get_frag_start get_data_size
get_frag_end pkt = (get_frag_start pkt + get_data_size pkt) % 2 ^ 16

-- The loop of `frag_insert`: the new list, or `none` where the start is there already.
unfoldable pub insert_loop : Packet → List Packet → Option (List Packet)
unfolding get_frag_start get_frag_end
insert_loop pkt [] = some (pkt ∷ [])
insert_loop pkt (cur ∷ bufs) =
    let rest : Option (List Packet) = elim (insert_loop pkt bufs) [
      | none ↦ none
      | some l ↦ some (cur ∷ l)
    ] in
    if get_frag_start pkt == get_frag_start cur
    then none
    else if leb (get_frag_end pkt) (get_frag_start cur)
    then some (pkt ∷ cur ∷ bufs)
    else rest

-- `frag_insert` into the first entry
unfoldable pub frag_insert : Frag → List Frag → Packet → Frags → NetErr × Frags
unfolding insert_loop frag_free
frag_insert f fs pkt s =
    if leb ip_frags_max_nr (length f.buf_list)
    then (err_full, frag_free f fs s)
    else elim (insert_loop pkt f.buf_list) [
      | none ↦ (err_exist, s)
      | some l ↦ (err_ok, record s { frag_list = record f { buf_list = l } ∷ fs })
    ]

-- The loop of `frag_all_arrived`; `more` is of the last packet seen.
unfoldable pub arrived_loop : List Packet → ℕ → Bool → Bool
unfolding get_frag_start get_data_size more_of
arrived_loop [] offset more = not more
arrived_loop (pkt ∷ bufs) offset more =
    let rest =
      arrived_loop bufs ((offset + get_data_size pkt) % 2 ^ 32) (more_of pkt.hdr.frag_all) in
    if get_frag_start pkt == offset then rest else false

unfoldable pub frag_all_arrived : Frag → Bool
unfolding arrived_loop
frag_all_arrived f = arrived_loop f.buf_list 0 true

-- The rounds of `frag_join` behind the first: `pktbuf_remove_header` and `pktbuf_join`, which
-- return no error.
unfoldable pub join_loop : List Packet → List ℕ → Option (List ℕ)
unfolding ipv4_hdr_size
join_loop [] target = some target
join_loop (cur ∷ bufs) target =
    let size = ipv4_hdr_size cur.hdr in
    let rest = join_loop bufs (target ++ drop size cur.bytes) in
    if ltb (length cur.bytes) size then none else rest

-- `frag_join` of the first entry: the packet, if there is one, and the entry freed.
unfoldable pub frag_join : Frag → List Frag → Frags → Option (Option Packet × Frags)
unfolding join_loop frag_free
frag_join f fs s = elim f.buf_list [
  | [] ↦ some (none, frag_free f fs s)
  | p ∷ bufs ↦ elim (join_loop bufs p.bytes) [
    | none ↦ none
    | some bytes ↦
        some (some (record p { bytes = bytes }), frag_free (record f { buf_list = [] }) fs s)
  ]
]
