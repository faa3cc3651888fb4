-- ===== src/Arp/Find.antt =====
-- What arp_find returns after cache_insert.
use clean_os.Base.{
  ℕ, ◌≤◌, ◌<◌, ◌≡◌, ◌≢◌, ◌⊎◌, refl, sym, ap, ◌∙◌, Bool, true, false, Option, none, some, List, [],
  ◌∷◌, ◌==◌, if◌then◌else◌, arith, length, Bool-cases, ==_iff, ==_refl, ne→==, inl, inr,
}
use clean_os.Base.Count.{count, count-unlink, unlink}
use clean_os.Arp.{
  Entry, Arp, Ether, put_entry, cache_find, cache_alloc, cache_entry_set, put_new, insert_at,
  insert_new, insert_known, cache_insert, haddr_of, arp_find,
}
use clean_os.Arp.Cache.{
  hits, IsCache, Looked, lacks, has, cache_find-Looked, Allocated, refused, given,
}
use clean_os.Arp.Alloc.{cache_alloc-Allocated}
use clean_os.Arp.Inv.{insert_known-Sent, cache_insert-IsCache}

-- The hardware address of the first entry that has the address
abbrev value : (ℕ → Entry) → ℕ → List ℕ → Option ℕ
value entry ip [] = none
value entry ip (x ∷ xs) =
    let rest = value entry ip xs in if ip == (entry x).paddr then some (entry x).haddr else rest

value-frame :
    (f g : ℕ → Entry) (x ip : ℕ) (xs : List ℕ)
    → count x xs ≡ 0
    → ((y : ℕ) → (y == x) ≡ false → ((g y).paddr ≡ (f y).paddr) × ((g y).haddr ≡ (f y).haddr))
    → value g ip xs ≡ value f ip xs
value-frame f g x ip [] out same = refl
value-frame f g x ip (y ∷ xs) out same =
    let other : (y == x) ≡ false = ground arith in
    let (p, h) = same y other in rw (p, h, value-frame f g x ip xs (omega arith) same) refl

value-same :
    (f g : ℕ → Entry) (ip : ℕ) (xs : List ℕ)
    → ((y : ℕ) → ((g y).paddr ≡ (f y).paddr) × ((g y).haddr ≡ (f y).haddr))
    → value g ip xs ≡ value f ip xs
value-same f g ip [] same = refl
value-same f g ip (y ∷ xs) same = let (p, h) = same y in rw (p, h, value-same f g ip xs same) refl

value-unlink :
    (entry : ℕ → Entry) (x ip : ℕ) (xs : List ℕ)
    → (ip == (entry x).paddr) ≡ false
    → value entry ip (unlink x xs) ≡ value entry ip xs
unfolding unlink
value-unlink entry x ip [] h = refl
value-unlink entry x ip (y ∷ xs) h = elim (Bool-cases (y == x)) [
  | inl same ↦
      let skipped : (ip == (entry y).paddr) ≡ false =
        ap (λ z. ip == (entry z).paddr) ((==_iff y x).0 same) ∙ h in
      rw (same, skipped) refl
  | inr other ↦ rw (other, value-unlink entry x ip xs h) refl
]

value-missing :
    (entry : ℕ → Entry) (ip : ℕ) (xs : List ℕ) → hits entry ip xs ≡ 0 → value entry ip xs ≡ none
value-missing entry ip [] h = refl
value-missing entry ip (x ∷ xs) h =
    let skipped : (ip == (entry x).paddr) ≡ false = ground arith in
    rw (skipped, value-missing entry ip xs (omega arith)) refl

hits-positive :
    (entry : ℕ → Entry) (x ip : ℕ) (xs : List ℕ)
    → (ip == (entry x).paddr) ≡ true
    → 0 < count x xs
    → 0 < hits entry ip xs
hits-positive entry x ip [] p h = absurd (omega arith)
hits-positive entry x ip (y ∷ xs) p h = elim (Bool-cases (x == y)) [
  | inl same ↦
      let here : (ip == (entry y).paddr) ≡ true =
        ap (λ z. ip == (entry z).paddr) (sym ((==_iff x y).0 same)) ∙ p in
      ground (arith, here)
  | inr other ↦ omega (arith, hits-positive entry x ip xs p (ground (arith, other, h)))
]

value-found :
    (entry : ℕ → Entry) (x ip : ℕ) (xs : List ℕ)
    → (ip == (entry x).paddr) ≡ true
    → 0 < count x xs
    → hits entry ip xs ≤ 1
    → value entry ip xs ≡ some (entry x).haddr
value-found entry x ip [] p h one = absurd (omega arith)
value-found entry x ip (y ∷ xs) p h one = elim (Bool-cases (x == y)) [
  | inl same ↦
      let at : x ≡ y = (==_iff x y).0 same in
      let here : (ip == (entry y).paddr) ≡ true = ap (λ z. ip == (entry z).paddr) (sym at) ∙ p in
      rw here (ap (λ z. some (entry z).haddr) (sym at))
  | inr other ↦
      let deeper : 0 < count x xs = ground (arith, other, h) in
      let taken = hits-positive entry x ip xs p deeper in
      let skipped : (ip == (entry y).paddr) ≡ false = ground (arith, one, taken) in
      rw skipped (value-found entry x ip xs p deeper (ground (arith, one)))
]

-- `arp_find` of a cache.
arp_find-value : (s : Arp) (ip : ℕ) → IsCache s → (arp_find s ip).0 ≡ value s.entry ip s.cache_list
unfolding arp_find haddr_of
arp_find-value s ip c = split (cache_find s ip) (cache_find-Looked s ip)
  where
    split : (r : Option ℕ × Arp) → Looked s ip r → haddr_of r.0 r.1 ≡ value s.entry ip s.cache_list
    split _ (lacks h) = sym (value-missing s.entry ip s.cache_list h)
    split _ (has x h p) =
        sym
          (value-found s.entry x ip s.cache_list (ap (λ a. ip == a) p ∙ ==_refl ip) h (c.unique ip))

-- What the cache says once the address `ip` is at `hw`.
record Learnt (s t : Arp) (ip hw : ℕ) : Type 0 where
  here : value t.entry ip t.cache_list ≡ some hw
  others : (a : ℕ) → (a == ip) ≡ false → value t.entry a t.cache_list ≡ value s.entry a s.cache_list

Learnt-front :
    (s t : Arp) (x ip hw : ℕ) (xs : List ℕ)
    → t.cache_list ≡ x ∷ xs
    → count x xs ≡ 0
    → (t.entry x).paddr ≡ ip
    → (t.entry x).haddr ≡ hw
    → ((y : ℕ)
        → (y == x) ≡ false
        → ((t.entry y).paddr ≡ (s.entry y).paddr) × ((t.entry y).haddr ≡ (s.entry y).haddr))
    → ((a : ℕ) → (a == ip) ≡ false → value s.entry a xs ≡ value s.entry a s.cache_list)
    → Learnt s t ip hw
Learnt-front s t x ip hw xs front out p h same rest = record {
  here = rw (front, p, ==_refl ip, h) refl;
  others = λ a o. rw (front, p, o) (value-frame s.entry t.entry x a xs out same ∙ rest a o);
}

insert_new-Learnt :
    (s : Arp) (netif ip hw : ℕ) (force : Bool)
    → IsCache s
    → 0 < length s.free
    → Learnt s (insert_new s netif ip hw force).1 ip hw
unfolding insert_new put_new cache_entry_set put_entry
insert_new-Learnt s netif ip hw force c some_free =
    split (cache_alloc s force) (cache_alloc-Allocated s force c)
  where
    split : (r : Option ℕ × Arp) → Allocated s r → Learnt s (put_new netif ip hw r.0 r.1).1 ip hw
    split _ (refused l) = absurd (omega (arith, l, some_free))
    split _ (given x t ct out free same fewer left) =
        Learnt-front s _ x ip hw t.cache_list refl out (rw (==_refl x) refl) (rw (==_refl x) refl)
          (λ y o. rw (o, same y o) (refl, refl)) (λ a o. ap (value s.entry a) (left some_free).0)

insert_known-Learnt :
    (e : Ether) (s : Arp) (netif ip hw x : ℕ)
    → IsCache s
    → 0 < count x s.cache_list
    → (s.entry x).paddr ≡ ip
    → Learnt s
        (insert_known e (record s { cache_list = x ∷ unlink x s.cache_list }) netif ip hw x).1
        ip
        hw
unfolding cache_entry_set put_entry
insert_known-Learnt e s netif ip hw x c h p =
    let xs = unlink x s.cache_list in
    let f : Arp = record s { cache_list = x ∷ xs } in
    let k = insert_known-Sent e f netif ip hw x xs refl in
    let out : count x xs ≡ 0 = ground (arith, count-unlink x x s.cache_list, c.once x) in
    Learnt-front s (insert_known e f netif ip hw x).1 x ip hw xs k.same_list out
      (k.same_paddr x ∙ rw (==_refl x) refl) (k.same_haddr x ∙ rw (==_refl x) refl)
      (λ y o. (k.same_paddr y ∙ rw o refl, k.same_haddr y ∙ rw o refl))
      (λ a o. value-unlink s.entry x a s.cache_list (ap (λ b. a == b) p ∙ o))

cache_insert-Learnt :
    (e : Ether) (s : Arp) (netif ip hw : ℕ) (force : Bool)
    → IsCache s
    → (0 < hits s.entry ip s.cache_list) ⊎ (0 < length s.free)
    → Learnt s (cache_insert e s netif ip hw force).1 ip hw
unfolding cache_insert insert_at
cache_insert-Learnt e s netif ip hw force c room = split (cache_find s ip) (cache_find-Looked s ip)
  where
    split :
        (r : Option ℕ × Arp)
        → Looked s ip r
        → Learnt s (insert_at e netif ip hw force r.0 r.1).1 ip hw
    split _ (lacks h) = insert_new-Learnt s netif ip hw force c (free_left room h)
      where
        free_left :
            (0 < hits s.entry ip s.cache_list) ⊎ (0 < length s.free)
            → hits s.entry ip s.cache_list ≡ 0
            → 0 < length s.free
        free_left (inl k) h = absurd (omega (arith, k, h))
        free_left (inr k) h = k
    split _ (has x h p) = insert_known-Learnt e s netif ip hw x c h p

-- Where an entry has the address or one is free, `arp_find` returns the hardware address that
-- `cache_insert` was given, also if sending the packets that wait fails, and returns for every
-- other address what it returned before.
pub arp_find-cache_insert :
    (e : Ether) (s : Arp) (netif ip hw : ℕ) (force : Bool)
    → IsCache s
    → (0 < hits s.entry ip s.cache_list) ⊎ (0 < length s.free)
    → let t = (cache_insert e s netif ip hw force).1 in
      ((arp_find t ip).0 ≡ some hw) × ((a : ℕ) → a ≢ ip → (arp_find t a).0 ≡ (arp_find s a).0)
arp_find-cache_insert e s netif ip hw force c room =
    let t = (cache_insert e s netif ip hw force).1 in
    let ct = cache_insert-IsCache e s netif ip hw force c in
    let l = cache_insert-Learnt e s netif ip hw force c room in
    (
      arp_find-value t ip ct ∙ l.here,
      λ a o. arp_find-value t a ct ∙ l.others a (ne→== a ip o) ∙ sym (arp_find-value s a c),
    )
