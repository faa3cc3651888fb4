-- ===== src/Arp/Inv.antt =====
-- Every call keeps the cache as it should be.
use clean_os.Base.{
  ℕ, zero, suc, ◌+◌, ◌≤◌, ◌≡◌, refl, sym, ap, subst, ◌∙◌, Bool, true, false, Option, some, List, [],
  ◌∷◌, ◌++◌, ltb, leb, ◌&&◌, ◌==◌, if◌then◌else◌, arith, length, Bool-cases, ==_refl, inl, inr,
}
use clean_os.Base.Count.{count, count-append, unlink}
use clean_os.Arp.{
  resolved, Entry, Arp, Ether, put_entry, numbers, init_arp, cache_find, cache_alloc,
  cache_entry_set, timeout, cache_send_all, to_front, put_new, put_waiting, insert_at, resolve_at,
  insert_new, insert_known, cache_insert, arp_find, is_resolved, resolve_known, resolve_new,
  arp_resolve,
}
use clean_os.Arp.Cache.{
  hits, IsCache, hits-put_entry, hits-append, Looked, lacks, has, cache_find-Looked, front-IsCache,
  Allocated, refused, given,
}
use clean_os.Arp.Alloc.{cache_alloc-Allocated, Sent, send_each-Sent}

pub hits-paddr :
    (f g : ℕ → Entry) (ip : ℕ) (xs : List ℕ)
    → ((y : ℕ) → (g y).paddr ≡ (f y).paddr)
    → hits g ip xs ≡ hits f ip xs
hits-paddr f g ip [] same = refl
hits-paddr f g ip (x ∷ xs) same =
    omega (arith, ap {B = ℕ} (λ a. if ip == a then 1 else 0) (same x), hits-paddr f g ip xs same)

-- Where the lists and the addresses stay, the cache stays as it should be.
pub paddr-IsCache :
    (s t : Arp)
    → IsCache s
    → t.cache_list ≡ s.cache_list
    → t.free ≡ s.free
    → ((y : ℕ) → (t.entry y).paddr ≡ (s.entry y).paddr)
    → IsCache t
paddr-IsCache s t c lists frees same = record {
  once = λ y. omega (arith, c.once y, ap (count y) lists, ap (count y) frees);
  unique = λ ip. omega (
    arith,
    c.unique ip,
    ap (hits t.entry ip) lists,
    hits-paddr s.entry t.entry ip s.cache_list same,
  );
}

-- An entry that is in no list gets an address and is put into the list.
pub added-IsCache :
    (t u : Arp) (x ip : ℕ)
    → IsCache t
    → count x t.cache_list ≡ 0
    → count x t.free ≡ 0
    → hits t.entry ip t.cache_list ≡ 0
    → ((y : ℕ) → count y u.cache_list ≡ (if y == x then 1 else 0) + count y t.cache_list)
    → ((a : ℕ)
        → hits u.entry a u.cache_list ≡ (if a == ip then 1 else 0) + hits t.entry a t.cache_list)
    → u.free ≡ t.free
    → IsCache u
added-IsCache t u x ip c out free new counts sums frees = record {
  once = λ y. ground (arith, c.once y, counts y, ap (count y) frees, out, free);
  unique = λ a. ground (arith, c.unique a, sums a, new);
}

hits-set :
    (entry : ℕ → Entry) (x ip : ℕ) (e : Entry) (xs : List ℕ)
    → count x xs ≡ 0
    → e.paddr ≡ ip
    → (a : ℕ)
    → (hits (put_entry entry x e) a (x ∷ xs) ≡ (if a == ip then 1 else 0) + hits entry a xs)
      × (hits (put_entry entry x e) a (xs ++ (x ∷ []))
          ≡ (if a == ip then 1 else 0) + hits entry a xs)
unfolding put_entry
hits-set entry x ip e xs out p a =
    let same = hits-put_entry entry x e a xs out in
    (
      ground (arith, same, p),
      ground (arith, same, p, hits-append (put_entry entry x e) a xs (x ∷ [])),
    )

insert_new-IsCache :
    (s : Arp) (netif ip hw : ℕ) (force : Bool)
    → IsCache s
    → hits s.entry ip s.cache_list ≡ 0
    → IsCache (insert_new s netif ip hw force).1
unfolding insert_new put_new cache_entry_set
insert_new-IsCache s netif ip hw force c new =
    split (cache_alloc s force) (cache_alloc-Allocated s force c)
  where
    split : (r : Option ℕ × Arp) → Allocated s r → IsCache (put_new netif ip hw r.0 r.1).1
    split _ (refused l) = c
    split _ (given x t ct out free same fewer left) =
        let e = record (t.entry x) {
          haddr = hw;
          paddr = ip;
          state = resolved;
          netif = netif;
          tmo = timeout resolved;
          rety = 5;
        } in
        added-IsCache t _ x ip ct out free (omega (arith, fewer ip, new)) (λ y. refl)
          (λ a. (hits-set t.entry x ip e t.cache_list out refl a).0) refl

resolve_new-IsCache :
    (e : Ether) (s : Arp) (netif ip buf : ℕ)
    → IsCache s
    → hits s.entry ip s.cache_list ≡ 0
    → IsCache (resolve_new e s netif ip buf).1
unfolding resolve_new put_waiting cache_entry_set put_entry
resolve_new-IsCache e s netif ip buf c new =
    split (cache_alloc s true) (cache_alloc-Allocated s true c)
  where
    split : (r : Option ℕ × Arp) → Allocated s r → IsCache (put_waiting e netif ip buf r.0 r.1).1
    split _ (refused l) = c
    split _ (given x t ct out free same fewer left) =
        let u = (put_waiting e netif ip buf (some x) t).1 in
        let w = u.entry x in
        added-IsCache t u x ip ct out free (omega (arith, fewer ip, new))
          (λ y. ground (arith, count-append y t.cache_list (x ∷ [])))
          (λ a.
            hits-paddr (put_entry t.entry x w) u.entry a (t.cache_list ++ (x ∷ []))
              (λ y. ground arith)
            ∙ (hits-set t.entry x ip w t.cache_list out (ground arith) a).1)
          refl

to_front-first : (t : Arp) (x : ℕ) (xs : List ℕ) → t.cache_list ≡ x ∷ xs → to_front t x ≡ t
unfolding to_front
to_front-first t x xs e = rw (e, ==_refl x) refl

-- Setting the entry at the front and sending its packets.
pub insert_known-Sent :
    (e : Ether) (s : Arp) (netif ip hw x : ℕ) (xs : List ℕ)
    → s.cache_list ≡ x ∷ xs
    → Sent (cache_entry_set s x hw ip netif resolved) (insert_known e s netif ip hw x).1
unfolding insert_known cache_entry_set cache_send_all
insert_known-Sent e s netif ip hw x xs front =
    let t = cache_entry_set s x hw ip netif resolved in
    subst (λ u. Sent t (cache_send_all e u x).1) (sym (to_front-first t x xs front))
      (send_each-Sent e (t.entry x).buf_list t x)

-- The entry found has the address that is set again.
insert_known-IsCache :
    (e : Ether) (s : Arp) (netif ip hw x : ℕ) (xs : List ℕ)
    → IsCache s
    → s.cache_list ≡ x ∷ xs
    → (s.entry x).paddr ≡ ip
    → IsCache (insert_known e s netif ip hw x).1
unfolding cache_entry_set put_entry
insert_known-IsCache e s netif ip hw x xs c front p =
    let k = insert_known-Sent e s netif ip hw x xs front in
    paddr-IsCache s (insert_known e s netif ip hw x).1 c k.same_list k.same_free
      (λ y. k.same_paddr y ∙ ground (arith, p))

resolve_known-IsCache :
    (e : Ether) (s : Arp) (netif buf x : ℕ) → IsCache s → IsCache (resolve_known e s netif buf x).1
unfolding resolve_known put_entry
resolve_known-IsCache e s netif buf x c = elim (Bool-cases (is_resolved (s.entry x).state)) [
  | inl there ↦ rw there (paddr-IsCache s _ c refl refl (λ y. refl))
  | inr waits ↦ rw waits (elim (Bool-cases (ltb 50 (length (s.entry x).buf_list))) [
    | inl full ↦ rw full c
    | inr room ↦ rw room (paddr-IsCache s _ c refl refl (λ y. ground arith))
  ])
]

pub cache_insert-IsCache :
    (e : Ether) (s : Arp) (netif ip hw : ℕ) (force : Bool)
    → IsCache s
    → IsCache (cache_insert e s netif ip hw force).1
unfolding cache_insert insert_at
cache_insert-IsCache e s netif ip hw force c = split (cache_find s ip) (cache_find-Looked s ip)
  where
    split : (r : Option ℕ × Arp) → Looked s ip r → IsCache (insert_at e netif ip hw force r.0 r.1).1
    split _ (lacks h) = insert_new-IsCache s netif ip hw force c h
    split _ (has x h p) =
        insert_known-IsCache e _ netif ip hw x (unlink x s.cache_list) (front-IsCache s x c h) refl
          p

arp_resolve-IsCache :
    (e : Ether) (s : Arp) (netif ip buf : ℕ) → IsCache s → IsCache (arp_resolve e s netif ip buf).1
unfolding arp_resolve resolve_at
arp_resolve-IsCache e s netif ip buf c = split (cache_find s ip) (cache_find-Looked s ip)
  where
    split : (r : Option ℕ × Arp) → Looked s ip r → IsCache (resolve_at e netif ip buf r.0 r.1).1
    split _ (lacks h) = resolve_new-IsCache e s netif ip buf c h
    split _ (has x h p) = resolve_known-IsCache e _ netif buf x (front-IsCache s x c h)

arp_find-IsCache : (s : Arp) (ip : ℕ) → IsCache s → IsCache (arp_find s ip).1
unfolding arp_find
arp_find-IsCache s ip c = split (cache_find s ip) (cache_find-Looked s ip)
  where
    split : (r : Option ℕ × Arp) → Looked s ip r → IsCache r.1
    split _ (lacks h) = c
    split _ (has x h p) = front-IsCache s x c h

count-numbers : (x i n : ℕ) → count x (numbers i n) ≡ (if leb i x && ltb x (i + n) then 1 else 0)
unfolding numbers
count-numbers x i zero = ground arith
count-numbers x i (suc n) = ground (arith, count-numbers x (i + 1) n)

init_arp-IsCache : IsCache init_arp
unfolding init_arp
init_arp-IsCache = record {
  once = λ x. at_most (leb 0 x && ltb x 50) (count-numbers x 0 50);
  unique = λ ip. omega arith;
}
  where
    at_most : {n : ℕ} (b : Bool) → n ≡ (if b then 1 else 0) → 0 + n ≤ 1
    at_most true e = omega arith
    at_most false e = omega arith

-- A call of the functions that change the cache
pub data Call : Type 0 where
  inserts : (netif ip hw : ℕ) → Bool → Call
  resolves : (netif ip buf : ℕ) → Call
  finds : (ip : ℕ) → Call

abbrev pub calls : Ether → List Call → Arp → Arp
calls e [] s = s
calls e (inserts netif ip hw force ∷ cs) s = calls e cs (cache_insert e s netif ip hw force).1
calls e (resolves netif ip buf ∷ cs) s = calls e cs (arp_resolve e s netif ip buf).1
calls e (finds ip ∷ cs) s = calls e cs (arp_find s ip).1

calls_from : (e : Ether) (cs : List Call) (s : Arp) → IsCache s → IsCache (calls e cs s)
calls_from e [] s c = c
calls_from e (inserts netif ip hw force ∷ cs) s c =
    calls_from e cs _ (cache_insert-IsCache e s netif ip hw force c)
calls_from e (resolves netif ip buf ∷ cs) s c =
    calls_from e cs _ (arp_resolve-IsCache e s netif ip buf c)
calls_from e (finds ip ∷ cs) s c = calls_from e cs _ (arp_find-IsCache s ip c)

-- After any calls of `cache_insert`, `arp_resolve` and `arp_find` from the start on, whatever sending
-- returns, no entry stands twice in the list of the cache and the list of the free entries together,
-- and no two entries of the cache have the same address.
pub calls-IsCache : (e : Ether) (cs : List Call) → IsCache (calls e cs init_arp)
calls-IsCache e cs = calls_from e cs init_arp init_arp-IsCache
