-- ===== src/Arp/Alloc.antt =====
-- cache_alloc and cache_send_all: what they leave of the cache.
use clean_os.Base.{
  ℕ, ◌+◌, ◌≤◌, ◌≡◌, ◌⊎◌, refl, ap, ◌∙◌, Bool, true, false, not, Option, none, some, List, [], ◌∷◌,
  ◌++◌, ◌==◌, if◌then◌else◌, arith, length, Bool-cases, inl, inr,
}
use clean_os.Base.Count.{count, count-append}
use clean_os.Arp.{
  Entry, Arp, Ether, fails, put_entry, blank, cache_clear_all, remove_last, cache_alloc, send_each,
}
use clean_os.Arp.Cache.{
  hits, IsCache, hits-put_entry, hits-append, Allocated, refused, given, remove_last_lem,
  alloc_free,
}

put_twice :
    (entry : ℕ → Entry) (x : ℕ) (old : Entry) (y : ℕ)
    → (y == x) ≡ false
    → put_entry (put_entry entry x old) x blank y ≡ entry y
unfolding put_entry
put_twice entry x old y h = rw h refl

count_empty : (x : ℕ) (l : List ℕ) → length l ≡ 0 → count x l ≡ 0
count_empty x [] h = refl
count_empty x (y ∷ l) h = absurd (omega arith)

-- The last entry of the list, whose packets are freed.
abbrev evicted : Arp → ℕ → List ℕ → Arp
evicted s x rest =
    let s' = cache_clear_all (record s { cache_list = rest }) x in
    record s' { entry = put_entry s'.entry x blank }

alloc_last :
    (s : Arp) (x : ℕ) (rest : List ℕ)
    → IsCache s
    → length s.free ≡ 0
    → s.cache_list ≡ rest ++ (x ∷ [])
    → Allocated s (some x, evicted s x rest)
unfolding cache_clear_all
alloc_last s x rest c none_free e =
    let parts : (y : ℕ) → count y s.cache_list ≡ count y rest + (if y == x then 1 else 0) =
      λ y. ground (arith, ap (count y) e, count-append y rest (x ∷ [])) in
    let out : count x rest ≡ 0 = ground (arith, parts x, c.once x) in
    let old = record (s.entry x) { buf_list = [] } in
    let same : (ip : ℕ)
        → hits (put_entry (put_entry s.entry x old) x blank) ip rest ≡ hits s.entry ip rest =
      λ ip.
        hits-put_entry (put_entry s.entry x old) x blank ip rest out
        ∙ hits-put_entry s.entry x old ip rest out in
    let fewer : (ip : ℕ) → hits s.entry ip rest ≤ hits s.entry ip s.cache_list =
      λ ip. omega (arith, ap (hits s.entry ip) e, hits-append s.entry ip rest (x ∷ [])) in
    given x _
      (record {
        once = λ y. omega (arith, c.once y, parts y);
        unique = λ ip. omega (arith, c.unique ip, same ip, fewer ip);
      })
      out (count_empty x s.free none_free) (λ y h. put_twice s.entry x old y h)
      (λ ip. omega (arith, same ip, fewer ip)) (λ l. absurd (omega (arith, none_free)))

pub cache_alloc-Allocated : (s : Arp) (force : Bool) → IsCache s → Allocated s (cache_alloc s force)
unfolding cache_alloc
cache_alloc-Allocated s force c = split s.free refl
  where
    evict :
        (o : Option (ℕ × List ℕ))
        → length s.free ≡ 0
        → (((o ≡ none) × (length s.cache_list ≡ 0))
            ⊎ ((x : ℕ) × (ys : List ℕ) × (o ≡ some (x, ys)) × (s.cache_list ≡ ys ++ (x ∷ []))))
        → Allocated s (elim o [ none ↦ (none, s) | some (x, rest) ↦ (some x, evicted s x rest) ])
    evict o l (inl (e, k)) = rw e (refused l)
    evict o l (inr (x, ys, e, p)) = rw e (alloc_last s x ys c l p)

    split :
        (l : List ℕ)
        → s.free ≡ l
        → Allocated s (elim l [
          | x ∷ rest ↦ (some x, record s { free = rest; entry = put_entry s.entry x blank })
          | [] ↦ if not force then (none, s) else elim (remove_last s.cache_list) [
            | none ↦ (none, s)
            | some (x, rest) ↦ (some x, evicted s x rest)
          ]
        ])
    split (x ∷ rest) e = alloc_free s x rest c e
    split [] e = forced force
      where
        forced :
            (b : Bool)
            → Allocated s (
                if not b then (none, s) else elim (remove_last s.cache_list) [
                  | none ↦ (none, s)
                  | some (x, rest) ↦ (some x, evicted s x rest)
                ])
        forced false = refused (ap length e)
        forced true = evict (remove_last s.cache_list) (ap length e) (remove_last_lem s.cache_list)

-- Sending the packets of an entry changes no address and no list.
pub record Sent (s t : Arp) : Type 0 where
  pub same_list : t.cache_list ≡ s.cache_list
  pub same_free : t.free ≡ s.free
  pub same_paddr : (y : ℕ) → (t.entry y).paddr ≡ (s.entry y).paddr
  pub same_haddr : (y : ℕ) → (t.entry y).haddr ≡ (s.entry y).haddr

pub send_each-Sent : (e : Ether) (bs : List ℕ) (s : Arp) (x : ℕ) → Sent s (send_each e s x bs).1
unfolding send_each put_entry
send_each-Sent e [] s x = record {
  same_list = refl;
  same_free = refl;
  same_paddr = λ y. refl;
  same_haddr = λ y. refl;
}
send_each-Sent e (b ∷ bs) s x =
    let t = s.entry x in
    let s' : Arp = record s {
      entry = put_entry s.entry x (record t { buf_list = bs });
      sent = s.sent ++ (record { netif = t.netif; dest = t.haddr; buf = b } ∷ []);
    } in
    let ih = send_each-Sent e bs s' x in
    elim (Bool-cases (fails (e.raw_out s'.sent))) [
      | inl bad ↦ rw bad (record {
        same_list = refl;
        same_free = refl;
        same_paddr = λ y. ground arith;
        same_haddr = λ y. ground arith;
      })
      | inr fine ↦ rw fine (record {
        same_list = ih.same_list;
        same_free = ih.same_free;
        same_paddr = λ y. ih.same_paddr y ∙ ground arith;
        same_haddr = λ y. ih.same_haddr y ∙ ground arith;
      })
    ]
