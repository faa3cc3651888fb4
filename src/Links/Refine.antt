-- ===== src/Links/Refine.antt =====
-- The operations of list.c that change the links, as operations on the sequence of nodes.
use clean_os.Base.{
  ℕ, ◌+◌, ◌-◌, ◌≤◌, ◌<◌, ◌≡◌, refl, sym, ap, subst, ◌∙◌, List, [], ◌∷◌, ◌++◌, ◌==◌, if◌then◌else◌,
  arith, length, length-append,
}
use clean_os.Base.Count.{count, count-append}
use clean_os.Links.{Heap, tail}
use clean_os.Links.Linked.{Linked, Inserted, Linked-Inserted, Unlinked, Linked-Unlinked}

-- The nodes of a list with its ends
abbrev pub row : ℕ → List ℕ → List ℕ
row l xs = l ∷ xs ++ (tail l ∷ [])

-- The list at `l` holds the nodes `xs`, none twice, and its size is their number.
pub record IsList (h : Heap) (l : ℕ) (xs : List ℕ) : Type 0 where
  pub chain : Linked h (row l xs)
  pub once : (y : ℕ) → count y (row l xs) ≤ 1
  pub null : count 0 (row l xs) ≡ 0
  pub sized : h.size l ≡ length xs

-- A node that is not in the list
abbrev pub IsNew : ℕ → ℕ → List ℕ → Type 0
IsNew x l xs = (count x (row l xs) ≡ 0) × (0 < x)

pub neighbours :
    (h : Heap) (us vs : List ℕ) (p q : ℕ)
    → Linked h (us ++ (p ∷ q ∷ vs))
    → (h.next p ≡ q) × (h.pre q ≡ p)
neighbours h [] vs p q (a, b, u) = (a, b)
neighbours h (w ∷ []) vs p q (a, b, u) = neighbours h [] vs p q u
neighbours h (w ∷ z ∷ us) vs p q (a, b, u) = neighbours h (z ∷ us) vs p q u

count-insert :
    (y x : ℕ) (us vs : List ℕ)
    → count y (us ++ (x ∷ vs)) ≡ (if y == x then 1 else 0) + count y (us ++ vs)
count-insert y x [] vs = refl
count-insert y x (u ∷ us) vs = omega (arith, count-insert y x us vs)

pub insert_at :
    (h k : Heap) (l : ℕ) (xs ys us vs : List ℕ) (p x q : ℕ)
    → IsList h l xs
    → IsNew x l xs
    → row l xs ≡ us ++ (p ∷ q ∷ vs)
    → row l ys ≡ us ++ (p ∷ x ∷ q ∷ vs)
    → Inserted h k p x q
    → k.size l ≡ h.size l + 1
    → IsList k l ys
insert_at h k l xs ys us vs p x q w (new, nonzero) here there i grown =
    let new' : count x (us ++ (p ∷ q ∷ vs)) ≡ 0 = ap (count x) (sym here) ∙ new in
    let once' : (y : ℕ) → count y (us ++ (p ∷ q ∷ vs)) ≤ 1 =
      λ y. omega (arith, ap (count y) here, w.once y) in
    let more : (y : ℕ) → count y (row l ys) ≡ (if y == x then 1 else 0) + count y (row l xs) = λ y.
      omega (
        arith,
        ap (count y) here,
        ap (count y) there,
        count-append y us (p ∷ q ∷ vs),
        count-append y us (p ∷ x ∷ q ∷ vs),
      ) in
    record {
      chain =
          subst (Linked k) (sym there)
            (Linked-Inserted h k us vs p x q once' new' i (subst (Linked h) here w.chain));
      once = λ y. ground (arith, more y, w.once y, new);
      null = ground (arith, more 0, w.null, nonzero);
      sized = omega (
        arith,
        grown,
        w.sized,
        ap length here,
        ap length there,
        length-append us (p ∷ q ∷ vs),
        length-append us (p ∷ x ∷ q ∷ vs),
        length-append xs (tail l ∷ []),
        length-append ys (tail l ∷ []),
      );
    }

pub unlink_at :
    (h k : Heap) (l : ℕ) (xs ys us vs : List ℕ) (p x q : ℕ)
    → IsList h l xs
    → row l xs ≡ us ++ (p ∷ x ∷ q ∷ vs)
    → row l ys ≡ us ++ (p ∷ q ∷ vs)
    → Unlinked h k p x q
    → k.size l ≡ h.size l - 1
    → IsList k l ys
unlink_at h k l xs ys us vs p x q w here there i shrunk =
    let once' : (y : ℕ) → count y (us ++ (p ∷ x ∷ q ∷ vs)) ≤ 1 =
      λ y. omega (arith, ap (count y) here, w.once y) in
    let more : (y : ℕ) → count y (row l xs) ≡ (if y == x then 1 else 0) + count y (row l ys) = λ y.
      omega (
        arith,
        ap (count y) here,
        ap (count y) there,
        count-append y us (p ∷ q ∷ vs),
        count-append y us (p ∷ x ∷ q ∷ vs),
      ) in
    record {
      chain =
          subst (Linked k) (sym there)
            (Linked-Unlinked h k us vs p x q once' i (subst (Linked h) here w.chain));
      once = λ y. omega (arith, more y, w.once y);
      null = omega (arith, more 0, w.null);
      sized = omega (
        arith,
        shrunk,
        w.sized,
        ap length here,
        ap length there,
        length-append us (p ∷ q ∷ vs),
        length-append us (p ∷ x ∷ q ∷ vs),
        length-append xs (tail l ∷ []),
        length-append ys (tail l ∷ []),
      );
    }
