-- ===== src/Arp/Cache.antt =====
-- What holds of the cache: the entries in use, and one entry for an address.
use clean_os.Base.{
  ℕ, ◌+◌, ◌≤◌, ◌<◌, ◌≡◌, ◌⊎◌, refl, sym, ap, false, Option, none, some, List, [], ◌∷◌, ◌++◌, ◌==◌,
  if◌then◌else◌, arith, length, Bool-cases, ==_iff, inl, inr,
}
use clean_os.Base.Count.{count, count-unlink, unlink}
use clean_os.Arp.{Entry, Arp, put_entry, blank, find_in, cache_find, remove_last}

-- The entries of a list that have an address
abbrev pub hits : (ℕ → Entry) → ℕ → List ℕ → ℕ
hits entry ip [] = 0
hits entry ip (x ∷ xs) = (if ip == (entry x).paddr then 1 else 0) + hits entry ip xs

-- No entry is in two lists or twice in one, and no two entries in use have the same address.
pub record IsCache (s : Arp) : Type 0 where
  pub once : (x : ℕ) → count x s.cache_list + count x s.free ≤ 1
  pub unique : (ip : ℕ) → hits s.entry ip s.cache_list ≤ 1

pub hits-put_entry :
    (entry : ℕ → Entry) (x : ℕ) (e : Entry) (ip : ℕ) (xs : List ℕ)
    → count x xs ≡ 0
    → hits (put_entry entry x e) ip xs ≡ hits entry ip xs
unfolding put_entry
hits-put_entry entry x e ip [] out = refl
hits-put_entry entry x e ip (y ∷ xs) out = ground (arith, hits-put_entry entry x e ip xs)

pub hits-unlink :
    (entry : ℕ → Entry) (x ip : ℕ) (xs : List ℕ)
    → 0 < count x xs
    → hits entry ip (unlink x xs) + (if ip == (entry x).paddr then 1 else 0) ≡ hits entry ip xs
unfolding unlink
hits-unlink entry x ip [] h = absurd (omega arith)
hits-unlink entry x ip (y ∷ xs) h = elim (Bool-cases (y == x)) [
  | inl same ↦ rw same (
      omega (arith, ap {B = ℕ} (λ z. if ip == (entry z).paddr then 1 else 0) ((==_iff y x).0 same)))
  | inr other ↦ rw other (omega (arith, hits-unlink entry x ip xs (ground (arith, other, h))))
]

pub hits-append :
    (entry : ℕ → Entry) (ip : ℕ) (xs ys : List ℕ)
    → hits entry ip (xs ++ ys) ≡ hits entry ip xs + hits entry ip ys
hits-append entry ip [] ys = omega arith
hits-append entry ip (x ∷ xs) ys = omega (arith, hits-append entry ip xs ys)

-- The entry that is found, or none is there.
pub data Found (entry : ℕ → Entry) (ip : ℕ) (xs : List ℕ) : Option ℕ → Type 0 where
  missing : hits entry ip xs ≡ 0 → Found entry ip xs none
  found : (x : ℕ) → 0 < count x xs → (entry x).paddr ≡ ip → Found entry ip xs (some x)

pub find_in-Found :
    (entry : ℕ → Entry) (ip : ℕ) (xs : List ℕ) → Found entry ip xs (find_in entry ip xs)
unfolding find_in
find_in-Found entry ip [] = missing refl
find_in-Found entry ip (x ∷ xs) = elim (Bool-cases (ip == (entry x).paddr)) [
  | inl here ↦ rw here (found x (ground arith) (sym ((==_iff ip (entry x).paddr).0 here)))
  | inr other ↦ rw other (step (find_in entry ip xs) (find_in-Found entry ip xs) other)
]
  where
    step :
        (o : Option ℕ)
        → Found entry ip xs o
        → (ip == (entry x).paddr) ≡ false
        → Found entry ip (x ∷ xs) o
    step none (missing h) other = missing (ground (arith, h, other))
    step (some y) (found _ h e) other = found y (omega (arith, h)) e

-- `cache_find` by its two outcomes.
pub data Looked (s : Arp) (ip : ℕ) : Option ℕ × Arp → Type 0 where
  lacks : hits s.entry ip s.cache_list ≡ 0 → Looked s ip (none, s)
  has :
      (x : ℕ)
      → 0 < count x s.cache_list
      → (s.entry x).paddr ≡ ip
      → Looked s ip (some x, record s { cache_list = x ∷ unlink x s.cache_list })

pub cache_find-Looked : (s : Arp) (ip : ℕ) → Looked s ip (cache_find s ip)
unfolding cache_find
cache_find-Looked s ip =
    split (find_in s.entry ip s.cache_list) (find_in-Found s.entry ip s.cache_list)
  where
    split :
        (o : Option ℕ)
        → Found s.entry ip s.cache_list o
        → Looked s ip (elim o [
          | none ↦ (none, s)
          | some x ↦ (some x, record s { cache_list = x ∷ unlink x s.cache_list })
        ])
    split none (missing h) = lacks h
    split (some x) (found _ h e) = has x h e

-- Moving an entry to the front keeps the cache as it should be.
pub front-IsCache :
    (s : Arp) (x : ℕ)
    → IsCache s
    → 0 < count x s.cache_list
    → IsCache (record s { cache_list = x ∷ unlink x s.cache_list })
front-IsCache s x c h = record {
  once = λ y. ground (arith, c.once y, count-unlink y x s.cache_list, h);
  unique = λ ip. omega (arith, c.unique ip, hits-unlink s.entry x ip s.cache_list h);
}

-- The entry that `cache_alloc` gives, and what it leaves in use.
pub data Allocated (s : Arp) : Option ℕ × Arp → Type 0 where
  refused : length s.free ≡ 0 → Allocated s (none, s)
  given :
      (x : ℕ) (t : Arp)
      → IsCache t
      → count x t.cache_list ≡ 0
      → count x t.free ≡ 0
      → ((y : ℕ) → (y == x) ≡ false → t.entry y ≡ s.entry y)
      → ((ip : ℕ) → hits t.entry ip t.cache_list ≤ hits s.entry ip s.cache_list)
      → (0 < length s.free → (t.cache_list ≡ s.cache_list) × (0 < count x s.free))
      → Allocated s (some x, t)

pub remove_last_lem :
    (xs : List ℕ)
    → ((remove_last xs ≡ none) × (length xs ≡ 0))
      ⊎ ((x : ℕ) × (ys : List ℕ) × (remove_last xs ≡ some (x, ys)) × (xs ≡ ys ++ (x ∷ [])))
unfolding remove_last
remove_last_lem [] = inl (refl, refl)
remove_last_lem (x ∷ xs) = split (remove_last_lem xs)
  where
    empty : (l : List ℕ) → length l ≡ 0 → l ≡ []
    empty [] h = refl
    empty (z ∷ l) h = absurd (omega arith)

    split :
        ((remove_last xs ≡ none) × (length xs ≡ 0))
          ⊎ ((y : ℕ) × (ys : List ℕ) × (remove_last xs ≡ some (y, ys)) × (xs ≡ ys ++ (y ∷ [])))
        → ((remove_last (x ∷ xs) ≡ none) × (length (x ∷ xs) ≡ 0))
          ⊎ ((y : ℕ) × (ys : List ℕ) × (remove_last (x ∷ xs) ≡ some (y, ys))
              × (x ∷ xs ≡ ys ++ (y ∷ [])))
    split (inl (e, l)) = inr (x, [], rw e refl, ap (λ l. x ∷ l) (empty xs l))
    split (inr (y, ys, e, p)) = inr (y, x ∷ ys, rw e refl, ap (λ l. x ∷ l) p)

-- The first free entry.
pub alloc_free :
    (s : Arp) (x : ℕ) (rest : List ℕ)
    → IsCache s
    → s.free ≡ x ∷ rest
    → Allocated s (some x, record s { free = rest; entry = put_entry s.entry x blank })
unfolding put_entry
alloc_free s x rest c e =
    let parts : (y : ℕ) → count y s.free ≡ (if y == x then 1 else 0) + count y rest =
      λ y. ap (count y) e in
    let out : count x s.cache_list ≡ 0 = ground (arith, c.once x, parts x) in
    let same = λ (ip : ℕ). hits-put_entry s.entry x blank ip s.cache_list out in
    given x _
      (record {
        once = λ y. omega (arith, c.once y, parts y);
        unique = λ ip. omega (arith, c.unique ip, same ip);
      })
      out (ground (arith, c.once x, parts x)) (λ y h. rw h refl) (λ ip. omega (arith, same ip))
      (λ l. (refl, ground (arith, parts x)))
