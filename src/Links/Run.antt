-- ===== src/Links/Run.antt =====
-- Any sequence of operations on a list, as operations on the sequence of its nodes.
use clean_os.Base.{
  ℕ, zero, suc, ◌≤◌, ◌<◌, ◌≡◌, refl, sym, ap, ap₂, subst, ◌∙◌, Option, none, some, List, [], ◌∷◌,
  ◌++◌, append-nil, ltb, ◌==◌, arith, length, length-take, drop, take, take_of_le, drop_of_le,
  get_elem?, min, Bool-cases, inl, inr,
}
use clean_os.Base.Count.{count, unlink}
use clean_os.Links.{Heap, pushl, popl, pushr, popr, add, remove_at, remove}
use clean_os.Links.Refine.{IsList, IsNew}
use clean_os.Links.Ends.{pushl-IsList, pushr-IsList, popl-IsList, popr-IsList, pop_nil, last_of}
use clean_os.Links.Inside.{split_at, add-IsList, add_ends}
use clean_os.Links.Remove.{remove_at-IsList, remove_at_out, remove-IsList}

pub data Op : Type 0 where
  push_left : ℕ → Op
  push_right : ℕ → Op
  pop_left : Op
  pop_right : Op
  put_in : ℕ → ℕ → Op
  take_at : ℕ → Op
  take_out : ℕ → Op

-- The call of the operation, with its result, 0 for none.
abbrev pub call : Op → Heap → ℕ → ℕ × Heap
call (push_left x) h l = (0, pushl h l x)
call (push_right x) h l = (0, pushr h l x)
call pop_left h l = popl h l
call pop_right h l = popr h l
call (put_in i x) h l = add h l i x
call (take_at i) h l = remove_at h l i
call (take_out x) h l = (0, remove h l x)

-- The last element and the others.
abbrev pub unsnoc : List ℕ → ℕ × List ℕ
unsnoc [] = (0, [])
unsnoc (x ∷ []) = (x, [])
unsnoc (x ∷ y ∷ l) = let (z, r) = unsnoc (y ∷ l) in (z, x ∷ r)

abbrev pub uncons : List ℕ → ℕ × List ℕ
uncons [] = (0, [])
uncons (x ∷ l) = (x, l)

abbrev pub or_zero : Option ℕ → ℕ
or_zero none = 0
or_zero (some x) = x

-- What the operation does to a sequence.
abbrev pub meaning : Op → List ℕ → ℕ × List ℕ
meaning (push_left x) xs = (0, x ∷ xs)
meaning (push_right x) xs = (0, xs ++ (x ∷ []))
meaning pop_left xs = uncons xs
meaning pop_right xs = unsnoc xs
meaning (put_in i x) xs = (min i (length xs), take i xs ++ (x ∷ drop i xs))
meaning (take_at i) xs = (or_zero (get_elem? xs i), take i xs ++ drop (suc i) xs)
meaning (take_out x) xs = (0, unlink x xs)

-- A node is put into a list that does not have it, and taken out of the list that has it.
abbrev pub Fits : Op → ℕ → List ℕ → Type 0
Fits (push_left x) l xs = IsNew x l xs
Fits (push_right x) l xs = IsNew x l xs
Fits (put_in i x) l xs = IsNew x l xs
Fits (take_out x) l xs = 0 < count x xs
Fits pop_left l xs = Unit
Fits pop_right l xs = Unit
Fits (take_at i) l xs = Unit

abbrev pub calls : List Op → Heap → ℕ → List ℕ × Heap
calls [] h l = ([], h)
calls (o ∷ os) h l = let (v, h') = call o h l in let (vs, h'') = calls os h' l in (v ∷ vs, h'')

abbrev pub meanings : List Op → List ℕ → List ℕ × List ℕ
meanings [] xs = ([], xs)
meanings (o ∷ os) xs = let (v, ys) = meaning o xs in let (vs, zs) = meanings os ys in (v ∷ vs, zs)

abbrev pub AllFit : List Op → ℕ → List ℕ → Type 0
AllFit [] l xs = Unit
AllFit (o ∷ os) l xs = Fits o l xs × AllFit os l (meaning o xs).1

-- The call has the result and the list of its meaning.
abbrev Meets : ℕ × Heap → ℕ → ℕ × List ℕ → Type 0
Meets (v, h) l (u, xs) = (v ≡ u) × IsList h l xs

unsnoc-append : (xs : List ℕ) (x : ℕ) → unsnoc (xs ++ (x ∷ [])) ≡ (x, xs)
unsnoc-append [] x = refl
unsnoc-append (y ∷ []) x = refl
unsnoc-append (y ∷ z ∷ xs) x = ap (λ (r : ℕ × List ℕ). (r.0, y ∷ r.1)) (unsnoc-append (z ∷ xs) x)

get-append : (us vs : List ℕ) (x : ℕ) → get_elem? (us ++ (x ∷ vs)) (length us) ≡ some x
get-append [] vs x = refl
get-append (u ∷ us) vs x = get-append us vs x

get_beyond : (xs : List ℕ) (i : ℕ) → length xs ≤ i → get_elem? xs i ≡ none
get_beyond [] i h = refl
get_beyond (x ∷ xs) zero h = absurd (omega arith)
get_beyond (x ∷ xs) (suc i) h = get_beyond xs i (omega arith)

take-append :
    (us vs : List ℕ) → (take (length us) (us ++ vs) ≡ us) × (drop (length us) (us ++ vs) ≡ vs)
take-append [] vs = (refl, refl)
take-append (u ∷ us) vs = let (a, b) = take-append us vs in (ap (λ l. u ∷ l) a, b)

-- A list that has a number, taken apart before its first one.
split_first :
    (x : ℕ) (xs : List ℕ)
    → 0 < count x xs
    → (us : List ℕ) × (vs : List ℕ) × (xs ≡ us ++ (x ∷ vs)) × (unlink x xs ≡ us ++ vs)
unfolding unlink
split_first x [] h = absurd (omega arith)
split_first x (y ∷ xs) h = elim (Bool-cases (y == x)) [
  | inl same ↦ ([], xs, ap (λ z. z ∷ xs) (ground (arith, same)), rw same refl)
  | inr other ↦
      let (us, vs, e, e') = split_first x xs (ground (arith, other)) in
      (y ∷ us, vs, ap (λ l. y ∷ l) e, rw other (ap (λ l. y ∷ l) e'))
]

pop_right_lem : (h : Heap) (l : ℕ) (xs : List ℕ) → IsList h l xs → Meets (popr h l) l (unsnoc xs)
pop_right_lem h l [] w = rw (pop_nil h l w).1 (refl, w)
pop_right_lem h l (x ∷ xs) w =
    let (us, p, e) = last_of x xs in
    subst (Meets (popr h l) l) (sym (ap unsnoc e ∙ unsnoc-append us p))
      (popr-IsList h l us p (subst (IsList h l) e w))

add_lem :
    (h : Heap) (l i x : ℕ) (xs : List ℕ)
    → IsList h l xs
    → IsNew x l xs
    → Meets (add h l i x) l (min i (length xs), take i xs ++ (x ∷ drop i xs))
add_lem h l zero x xs w f =
    subst (λ r. Meets r l (min 0 (length xs), x ∷ xs)) (sym (add_ends h l 0 x).0)
      (omega arith, pushl-IsList h l xs x w f)
add_lem h l (suc i) x xs w f = elim (Bool-cases (ltb (suc i) (length xs))) [
  | inl within ↦
      let n : ℕ = suc i in
      let (q, e) = split_at n xs (ground (arith, within)) in
      let at_n : length (take n xs) ≡ n = ground (arith, within, length-take n xs) in
      let rest = (take-append (take n xs) (q ∷ drop (suc n) xs)).1 in
      let behind : drop n xs ≡ q ∷ drop (suc n) xs = ap₂ drop (sym at_n) e ∙ rest in
      let (value, holds) =
        add-IsList h l (take n xs) (drop (suc n) xs) q x (subst (IsList h l) e w)
          (subst (IsNew x l) e f) (omega (arith, at_n)) in
      (
        ap (λ k. (add h l k x).0) (sym at_n) ∙ value ∙ at_n ∙ ground (arith, within),
        subst (λ k. IsList (add h l k x).1 l (take n xs ++ (x ∷ drop n xs))) at_n
            (subst (λ r. IsList (add h l (length (take n xs)) x).1 l (take n xs ++ (x ∷ r)))
              (sym behind) holds),
      )
  | inr beyond ↦
      let n : ℕ = suc i in
      let ends = (add_ends h l n x).1 (omega arith) (ground (arith, beyond, w.sized)) in
      let all : take n xs ++ (x ∷ drop n xs) ≡ xs ++ (x ∷ []) =
        ap₂ (λ a b. a ++ (x ∷ b)) (take_of_le n xs (ground (arith, beyond)))
          (drop_of_le n xs (ground (arith, beyond))) in
      subst (λ r. Meets r l (min n (length xs), take n xs ++ (x ∷ drop n xs))) (sym ends)
        (
          ground (arith, w.sized, beyond),
          subst (IsList (pushr h l x) l) (sym all) (pushr-IsList h l xs x w f),
        )
]

remove_at_lem :
    (h : Heap) (l i : ℕ) (xs : List ℕ)
    → IsList h l xs
    → Meets (remove_at h l i) l (or_zero (get_elem? xs i), take i xs ++ drop (suc i) xs)
remove_at_lem h l i xs w = elim (Bool-cases (ltb i (length xs))) [
  | inl within ↦
      let (x, e) = split_at i xs (ground (arith, within)) in
      let at_i : length (take i xs) ≡ i = ground (arith, within, length-take i xs) in
      let (value, holds) =
        remove_at-IsList h l (take i xs) x (drop (suc i) xs) (subst (IsList h l) e w) in
      let found : get_elem? xs i ≡ some x =
        ap₂ get_elem? e (sym at_i) ∙ get-append (take i xs) (drop (suc i) xs) x in
      (
        ap (λ k. (remove_at h l k).0) (sym at_i) ∙ value ∙ sym (ap or_zero found),
        subst (λ k. IsList (remove_at h l k).1 l (take i xs ++ drop (suc i) xs)) at_i holds,
      )
  | inr beyond ↦
      let out = remove_at_out h l i (ground (arith, beyond, w.sized)) in
      let missing : get_elem? xs i ≡ none = get_beyond xs i (ground (arith, beyond)) in
      let all : take i xs ++ drop (suc i) xs ≡ xs =
        ap₂ (λ a b. a ++ b) (take_of_le i xs (ground (arith, beyond)))
          (drop_of_le (suc i) xs (ground (arith, beyond)))
        ∙ append-nil xs in
      subst (λ r. Meets r l (or_zero (get_elem? xs i), take i xs ++ drop (suc i) xs)) (sym out)
        (sym (ap or_zero missing), subst (IsList h l) (sym all) w)
]

call-meaning :
    (o : Op) (h : Heap) (l : ℕ) (xs : List ℕ)
    → IsList h l xs
    → Fits o l xs
    → Meets (call o h l) l (meaning o xs)
call-meaning (push_left x) h l xs w f = (refl, pushl-IsList h l xs x w f)
call-meaning (push_right x) h l xs w f = (refl, pushr-IsList h l xs x w f)
call-meaning pop_left h l [] w f = rw (pop_nil h l w).0 (refl, w)
call-meaning pop_left h l (x ∷ xs) w f = popl-IsList h l x xs w
call-meaning pop_right h l xs w f = pop_right_lem h l xs w
call-meaning (put_in i x) h l xs w f = add_lem h l i x xs w f
call-meaning (take_at i) h l xs w f = remove_at_lem h l i xs w
call-meaning (take_out x) h l xs w f =
    let (us, vs, e, e') = split_first x xs f in
    (
      refl,
      subst (IsList (remove h l x) l) (sym e') (remove-IsList h l us x vs (subst (IsList h l) e w)),
    )

-- Any sequence of pushes, pops, insertions at an index and removals by index or by node, on a list
-- of nodes that are distinct and not null, has the results that it has on the sequence of nodes,
-- and leaves the list of the nodes that are then in the sequence, linked in order in both directions
-- and counted by its size. Each node put in is not in the list, and each one taken out by itself is.
pub calls-meanings :
    (os : List Op) (h : Heap) (l : ℕ) (xs : List ℕ)
    → IsList h l xs
    → AllFit os l xs
    → ((calls os h l).0 ≡ (meanings os xs).0) × IsList (calls os h l).1 l (meanings os xs).1
calls-meanings [] h l xs w fits = (refl, w)
calls-meanings (o ∷ os) h l xs w (f, fits) =
    let (value, holds) = call-meaning o h l xs w f in
    let (values, end) = calls-meanings os (call o h l).1 l (meaning o xs).1 holds fits in
    (ap₂ (λ v vs. v ∷ vs) value values, end)
