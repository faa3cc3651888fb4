-- ===== src/Links/Inside.antt =====
-- Nodes found, put in and taken out at a place within a list.
use clean_os.Base.{
  ℕ, zero, suc, ◌+◌, ◌≤◌, ◌<◌, ◌≡◌, refl, sym, ap, subst, ◌∙◌, true, false, List, [], ◌∷◌, ◌++◌,
  append_assoc, leb, ◌==◌, arith, length, length-append, drop, take,
}
use clean_os.Base.Count.{count, count-append}
use clean_os.Base.Ring.{put_at}
use clean_os.Links.{Heap, tail, walk, add, at, pushl, pushr}
use clean_os.Links.Linked.{Linked}
use clean_os.Links.Refine.{row, IsList, IsNew, neighbours, insert_at}
use clean_os.Links.Ends.{last_of}

-- Walking from a node of a row comes to the node so many places on.
walk-Linked :
    (us : List ℕ) (h : Heap) (a p : ℕ) (vs : List ℕ)
    → Linked h (a ∷ us ++ (p ∷ vs))
    → walk (suc (length us)) h a ≡ p
unfolding walk
walk-Linked [] h a p vs (n, b, u) = n
walk-Linked (w ∷ us) h a p vs (n, b, u) =
    ap (walk (suc (length us)) h) n ∙ walk-Linked us h w p vs u

-- A list taken apart at a place.
pub split_at :
    (i : ℕ) (xs : List ℕ) → i < length xs → (x : ℕ) × (xs ≡ take i xs ++ (x ∷ drop (suc i) xs))
split_at i [] h = absurd (omega arith)
split_at zero (x ∷ xs) h = (x, refl)
split_at (suc i) (y ∷ xs) h = let (x, e) = split_at i xs (omega arith) in (x, ap (λ l. y ∷ l) e)

-- `at` finds the node at the index.
pub at-IsList :
    (h : Heap) (l : ℕ) (xs us vs : List ℕ) (x : ℕ)
    → IsList h l xs
    → xs ≡ us ++ (x ∷ vs)
    → at h l (length us) ≡ x
unfolding at walk
at-IsList h l xs us vs x w e =
    let within : leb (h.size l) (length us) ≡ false =
      ground (arith, w.sized, ap length e, length-append us (x ∷ vs)) in
    let here : row l xs ≡ l ∷ us ++ (x ∷ vs ++ (tail l ∷ [])) =
      ap (λ r. l ∷ r ++ (tail l ∷ [])) e
      ∙ ap (λ r. l ∷ r) (append_assoc us (x ∷ vs) (tail l ∷ [])) in
    rw within (walk-Linked us h l x (vs ++ (tail l ∷ [])) (subst (Linked h) here w.chain))

pub add-IsList :
    (h : Heap) (l : ℕ) (us vs : List ℕ) (q x : ℕ)
    → IsList h l (us ++ (q ∷ vs))
    → IsNew x l (us ++ (q ∷ vs))
    → 0 < length us
    → ((add h l (length us) x).0 ≡ length us)
      × IsList (add h l (length us) x).1 l (us ++ (x ∷ q ∷ vs))
unfolding add put_at walk
add-IsList h l us vs q x w new inner =
    let t : ℕ = tail l in
    let (ws, p, e) = last_of l us in
    let rest : List ℕ = vs ++ (t ∷ []) in
    let from_l : row l (us ++ (q ∷ vs)) ≡ l ∷ us ++ (q ∷ rest) =
      ap (λ r. l ∷ r) (append_assoc us (q ∷ vs) (t ∷ [])) in
    let here : row l (us ++ (q ∷ vs)) ≡ ws ++ (p ∷ q ∷ rest) =
      from_l ∙ ap (λ r. r ++ (q ∷ rest)) e ∙ append_assoc ws (p ∷ []) (q ∷ rest) in
    let there : row l (us ++ (x ∷ q ∷ vs)) ≡ ws ++ (p ∷ x ∷ q ∷ rest) =
      ap (λ r. l ∷ r) (append_assoc us (x ∷ q ∷ vs) (t ∷ []))
      ∙ ap (λ r. r ++ (x ∷ q ∷ rest)) e
      ∙ append_assoc ws (p ∷ []) (x ∷ q ∷ rest) in
    let chain : Linked h (ws ++ (p ∷ q ∷ rest)) = subst (Linked h) here w.chain in
    let (n, b) = neighbours h ws rest p q chain in
    let found : walk (length us) h (h.next l) ≡ q =
      walk-Linked us h l q rest (subst (Linked h) from_l w.chain) in
    let out : count x ws + count x (p ∷ q ∷ rest) ≡ 0 =
      sym (count-append x ws (p ∷ q ∷ rest)) ∙ ap (count x) (sym here) ∙ new.0 in
    let differ : count q ws + count q (p ∷ q ∷ rest) ≤ 1 =
      omega (arith, ap (count q) here, w.once q, count-append q ws (p ∷ q ∷ rest)) in
    let first : (length us == 0) ≡ false = ground arith in
    let within : leb (h.size l) (length us) ≡ false =
      ground (arith, w.sized, length-append us (q ∷ vs)) in
    (
      rw (first, within) refl,
      rw (first, within)
          (insert_at h _ l (us ++ (q ∷ vs)) (us ++ (x ∷ q ∷ vs)) ws rest p x q w new here there
            (record {
              nexts = λ y. ground (arith, b, found, out, differ);
              pres = λ y. ground (arith, b, found, out, differ);
            })
            (ground arith)),
    )

-- The node goes to an end where the index is 0, or not within the list.
pub add_ends :
    (h : Heap) (l i x : ℕ)
    → (add h l 0 x ≡ (0, pushl h l x))
      × (0 < i → h.size l ≤ i → add h l i x ≡ (h.size l, pushr h l x))
unfolding add
add_ends h l i x = (
  refl,
  λ p b.
      let first : (i == 0) ≡ false = ground arith in
      let out : leb (h.size l) i ≡ true = ground arith in rw (first, out) refl,
)
