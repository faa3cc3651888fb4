-- ===== src/Base/Lists.antt =====
-- Lists measured and indexed by native numbers, under the library's names.
use Prim.Native.Nat.{ℕ, zero, suc, ◌+◌, ◌-◌, ◌≤◌, min}
use mathlib.Core.Path.{◌≡◌, refl, sym, ap, ◌∙◌}
use mathlib.Core.Logic.{◌≢◌}
use mathlib.Core.List.{List, [], ◌∷◌, ◌++◌}
use mathlib.Core.Option.{Option, none, some}
use native.Mathlib.Omega.{arith}

module _ {ℓ} {A : Type ℓ} where
  abbrev pub length : List A → ℕ
  length [] = 0
  length (x ∷ xs) = suc (length xs)

  abbrev pub get_elem? : List A → ℕ → Option A
  get_elem? [] i = none
  get_elem? (x ∷ xs) zero = some x
  get_elem? (x ∷ xs) (suc i) = get_elem? xs i

  abbrev pub take : ℕ → List A → List A
  take zero xs = []
  take (suc n) [] = []
  take (suc n) (x ∷ xs) = x ∷ take n xs

  abbrev pub drop : ℕ → List A → List A
  drop zero xs = xs
  drop (suc n) [] = []
  drop (suc n) (x ∷ xs) = drop n xs

  abbrev pub replicate : ℕ → A → List A
  replicate zero a = []
  replicate (suc n) a = a ∷ replicate n a

  pub length-append : (xs ys : List A) → length (xs ++ ys) ≡ length xs + length ys
  length-append [] ys = omega arith
  length-append (x ∷ xs) ys = omega (arith, length-append xs ys)

  pub take-append-drop : (n : ℕ) (xs : List A) → take n xs ++ drop n xs ≡ xs
  take-append-drop zero xs = refl
  take-append-drop (suc n) [] = refl
  take-append-drop (suc n) (x ∷ xs) = ap (λ l. x ∷ l) (take-append-drop n xs)

  pub length-take : (n : ℕ) (xs : List A) → length (take n xs) ≡ min n (length xs)
  length-take zero xs = omega arith
  length-take (suc n) [] = omega arith
  length-take (suc n) (x ∷ xs) = omega (arith, length-take n xs)

  pub length-drop : (n : ℕ) (xs : List A) → length (drop n xs) ≡ length xs - n
  length-drop zero xs = omega arith
  length-drop (suc n) [] = omega arith
  length-drop (suc n) (x ∷ xs) = omega (arith, length-drop n xs)

  pub take_append_of_le : (n : ℕ) (xs ys : List A) → n ≤ length xs → take n (xs ++ ys) ≡ take n xs
  take_append_of_le zero xs ys h = refl
  take_append_of_le (suc n) [] ys h = absurd (omega arith)
  take_append_of_le (suc n) (x ∷ xs) ys h =
      ap (λ l. x ∷ l) (take_append_of_le n xs ys (omega arith))

  pub drop_append_of_le :
      (n : ℕ) (xs ys : List A) → n ≤ length xs → drop n (xs ++ ys) ≡ drop n xs ++ ys
  drop_append_of_le zero xs ys h = refl
  drop_append_of_le (suc n) [] ys h = absurd (omega arith)
  drop_append_of_le (suc n) (x ∷ xs) ys h = drop_append_of_le n xs ys (omega arith)

  pub drop_append_of_ge :
      (n : ℕ) (xs ys : List A) → length xs ≤ n → drop n (xs ++ ys) ≡ drop (n - length xs) ys
  drop_append_of_ge n [] ys h = ap (λ k. drop k ys) (omega arith)
  drop_append_of_ge zero (x ∷ xs) ys h = absurd (omega arith)
  drop_append_of_ge (suc n) (x ∷ xs) ys h =
      drop_append_of_ge n xs ys (omega arith) ∙ ap (λ k. drop k ys) (omega arith)

  pub take_append_of_ge :
      (n : ℕ) (xs ys : List A) → length xs ≤ n → take n (xs ++ ys) ≡ xs ++ take (n - length xs) ys
  take_append_of_ge n [] ys h = ap (λ k. take k ys) (omega arith)
  take_append_of_ge zero (x ∷ xs) ys h = absurd (omega arith)
  take_append_of_ge (suc n) (x ∷ xs) ys h =
      ap (λ l. x ∷ l)
        (take_append_of_ge n xs ys (omega arith) ∙ ap (λ k. xs ++ take k ys) (omega arith))

  pub take_of_le : (n : ℕ) (xs : List A) → length xs ≤ n → take n xs ≡ xs
  take_of_le zero [] h = refl
  take_of_le zero (x ∷ xs) h = absurd (omega arith)
  take_of_le (suc n) [] h = refl
  take_of_le (suc n) (x ∷ xs) h = ap (λ l. x ∷ l) (take_of_le n xs (omega arith))

  pub drop_of_le : (n : ℕ) (xs : List A) → length xs ≤ n → drop n xs ≡ []
  drop_of_le zero [] h = refl
  drop_of_le zero (x ∷ xs) h = absurd (omega arith)
  drop_of_le (suc n) [] h = refl
  drop_of_le (suc n) (x ∷ xs) h = drop_of_le n xs (omega arith)

  pub drop-nil : (n : ℕ) (xs : List A) → xs ≡ [] → drop n xs ≡ []
  drop-nil n xs e = drop_of_le n xs (omega (arith, ap length e))

  pub drop-drop : (m n : ℕ) (xs : List A) → drop m (drop n xs) ≡ drop (n + m) xs
  drop-drop m zero xs = ap (λ k. drop k xs) (omega arith)
  drop-drop m (suc n) [] = drop-nil m [] refl ∙ sym (drop-nil (suc n + m) [] refl)
  drop-drop m (suc n) (x ∷ xs) =
      drop-drop m n xs ∙ ap (λ k. drop k (x ∷ xs)) {x = suc (n + m)} {y = suc n + m} (omega arith)

-- Every member satisfies the predicate.
abbrev pub All {ℓ κ} : {A : Type ℓ} → (A → Type κ) → List A → Type κ
All P [] = Unit
All P (x ∷ xs) = P x × All P xs

-- The address is none of those listed.
abbrev pub NotIn : ℕ → List ℕ → Type 0
NotIn a [] = Unit
NotIn a (x ∷ xs) = (a ≢ x) × NotIn a xs

-- No address is listed twice.
abbrev pub Distinct : List ℕ → Type 0
Distinct [] = Unit
Distinct (x ∷ xs) = NotIn x xs × Distinct xs

pub NotIn-append : (a : ℕ) (xs ys : List ℕ) → NotIn a xs → NotIn a ys → NotIn a (xs ++ ys)
NotIn-append a [] ys h k = k
NotIn-append a (x ∷ xs) ys (ne, h) k = (ne, NotIn-append a xs ys h k)

pub NotIn-of_append : (a : ℕ) (xs ys : List ℕ) → NotIn a (xs ++ ys) → NotIn a xs × NotIn a ys
NotIn-of_append a [] ys h = (tt, h)
NotIn-of_append a (x ∷ xs) ys (ne, h) = let (l, r) = NotIn-of_append a xs ys h in ((ne, l), r)

-- Two lists without repetition and without a common member make one.
pub Distinct-append :
    (xs ys : List ℕ) → Distinct xs → Distinct ys → All (λ x. NotIn x ys) xs → Distinct (xs ++ ys)
Distinct-append [] ys dx dy apart = dy
Distinct-append (x ∷ xs) ys (out, dx) dy (a, apart) =
    (NotIn-append x xs ys out a, Distinct-append xs ys dx dy apart)

-- A member of one list is outside every list that is outside of it.
pub apart_single : (x : ℕ) (xs : List ℕ) → NotIn x xs → All (λ y. NotIn y (x ∷ [])) xs
apart_single x [] out = tt
apart_single x (y ∷ ys) (ne, out) = (((λ e. ne (sym e)), tt), apart_single x ys out)

-- From two predicates to a third, member by member.
pub All-zip {ℓ κ μ ν} :
    {A : Type ℓ} (P : A → Type κ) (Q : A → Type μ) (R : A → Type ν)
    → ((x : A) → P x → Q x → R x)
    → (xs : List A) → All P xs
    → All Q xs
    → All R xs
All-zip P Q R f [] ps qs = tt
All-zip P Q R f (x ∷ xs) (p, ps) (q, qs) = (f x p q, All-zip P Q R f xs ps qs)

pub All-map {ℓ κ μ} :
    {A : Type ℓ} (P : A → Type κ) (Q : A → Type μ)
    → ((x : A) → P x → Q x)
    → (xs : List A) → All P xs
    → All Q xs
All-map P Q f [] ps = tt
All-map P Q f (x ∷ xs) (p, ps) = (f x p, All-map P Q f xs ps)

pub All-append {ℓ κ} :
    {A : Type ℓ} (P : A → Type κ) (xs ys : List A) → All P xs → All P ys → All P (xs ++ ys)
All-append P [] ys ps qs = qs
All-append P (x ∷ xs) ys (p, ps) qs = (p, All-append P xs ys ps qs)

pub All-of_append {ℓ κ} :
    {A : Type ℓ} (P : A → Type κ) (xs ys : List A) → All P (xs ++ ys) → All P xs × All P ys
All-of_append P [] ys ps = (tt, ps)
All-of_append P (x ∷ xs) ys (p, ps) = let (l, r) = All-of_append P xs ys ps in ((p, l), r)

-- A list without repetition is split into two that have no common member.
pub Distinct-of_append :
    (xs ys : List ℕ) → Distinct (xs ++ ys) → Distinct xs × Distinct ys × All (λ x. NotIn x ys) xs
Distinct-of_append [] ys d = (tt, d, tt)
Distinct-of_append (x ∷ xs) ys (out, d) =
    let (dx, dy, a) = Distinct-of_append xs ys d in
    let (ox, oy) = NotIn-of_append x xs ys out in ((ox, dx), dy, (oy, a))

-- If no member of one list is in the other, then neither the other way round.
pub apart_flip : (xs ys : List ℕ) → All (λ x. NotIn x ys) xs → All (λ y. NotIn y xs) ys
apart_flip xs [] h = tt
apart_flip xs (y ∷ ys) h = (first xs h, apart_flip xs ys (others xs h))
  where
    first : (zs : List ℕ) → All (λ z. NotIn z (y ∷ ys)) zs → NotIn y zs
    first [] h = tt
    first (z ∷ zs) ((ne, out), h) = ((λ e. ne (sym e)), first zs h)

    others : (zs : List ℕ) → All (λ z. NotIn z (y ∷ ys)) zs → All (λ z. NotIn z ys) zs
    others [] h = tt
    others (z ∷ zs) ((ne, out), h) = (out, others zs h)
