-- ===== src/Links/Ends.antt =====
-- Nodes put at the ends of a list, and taken from there.
use clean_os.Base.{
  ℕ, ◌+◌, ◌≤◌, ◌<◌, ◌≡◌, refl, sym, ap, subst, ◌∙◌, true, false, List, [], ◌∷◌, ◌++◌, append_assoc,
  ◌==◌, arith, length-append,
}
use clean_os.Base.Count.{count, count-append}
use clean_os.Base.Ring.{put_at}
use clean_os.Links.{Heap, tail, init_list, pushl, popl, pushr, popr}
use clean_os.Links.Linked.{Linked}
use clean_os.Links.Refine.{row, IsList, IsNew, neighbours, insert_at, unlink_at}

pub init_list-IsList : (h : Heap) (l : ℕ) → 0 < l → IsList (init_list h l) l []
unfolding init_list put_at
init_list-IsList h l nonzero = record {
  chain = (ground arith, ground arith, tt);
  once = λ y. ground arith;
  null = ground arith;
  sized = ground arith;
}

-- The row from its first inner node on, and up to its last.
pub first_of : (l : ℕ) (xs : List ℕ) → (q : ℕ) × (vs : List ℕ) × (xs ++ (tail l ∷ []) ≡ q ∷ vs)
first_of l [] = (tail l, [], refl)
first_of l (x ∷ xs) = (x, xs ++ (tail l ∷ []), refl)

pub last_of : (x : ℕ) (xs : List ℕ) → (us : List ℕ) × (p : ℕ) × (x ∷ xs ≡ us ++ (p ∷ []))
last_of x [] = ([], x, refl)
last_of x (y ∷ xs) = let (us, p, e) = last_of y xs in (x ∷ us, p, ap (λ l. x ∷ l) e)

pub pushl-IsList :
    (h : Heap) (l : ℕ) (xs : List ℕ) (x : ℕ)
    → IsList h l xs
    → IsNew x l xs
    → IsList (pushl h l x) l (x ∷ xs)
unfolding pushl put_at
pushl-IsList h l xs x w new =
    let (q, vs, e) = first_of l xs in
    let here : row l xs ≡ l ∷ q ∷ vs = ap (λ r. l ∷ r) e in
    let (n, b) = neighbours h [] vs l q (subst (Linked h) here w.chain) in
    let out : count x (l ∷ q ∷ vs) ≡ 0 = ap (count x) (sym here) ∙ new.0 in
    let differ : count q (l ∷ q ∷ vs) ≤ 1 = omega (arith, ap (count q) here, w.once q) in
    insert_at h (pushl h l x) l xs (x ∷ xs) [] vs l x q w new here (ap (λ r. l ∷ x ∷ r) e)
      (record {
        nexts = λ y. ground (arith, n, out, differ);
        pres = λ y. ground (arith, n, out, differ);
      })
      (ground arith)

pub pushr-IsList :
    (h : Heap) (l : ℕ) (xs : List ℕ) (x : ℕ)
    → IsList h l xs
    → IsNew x l xs
    → IsList (pushr h l x) l (xs ++ (x ∷ []))
unfolding pushr put_at
pushr-IsList h l xs x w new =
    let (us, p, e) = last_of l xs in
    let t : ℕ = tail l in
    let here : row l xs ≡ us ++ (p ∷ t ∷ []) =
      ap (λ r. r ++ (t ∷ [])) e ∙ append_assoc us (p ∷ []) (t ∷ []) in
    let there : row l (xs ++ (x ∷ [])) ≡ us ++ (p ∷ x ∷ t ∷ []) =
      append_assoc (l ∷ xs) (x ∷ []) (t ∷ [])
      ∙ ap (λ r. r ++ (x ∷ t ∷ [])) e
      ∙ append_assoc us (p ∷ []) (x ∷ t ∷ []) in
    let (n, b) = neighbours h us [] p t (subst (Linked h) here w.chain) in
    let out : count x us + count x (p ∷ t ∷ []) ≡ 0 =
      sym (count-append x us (p ∷ t ∷ [])) ∙ ap (count x) (sym here) ∙ new.0 in
    let differ : count t us + count t (p ∷ t ∷ []) ≤ 1 =
      omega (arith, ap (count t) here, w.once t, count-append t us (p ∷ t ∷ [])) in
    insert_at h (pushr h l x) l xs (xs ++ (x ∷ [])) us [] p x t w new here there
      (record {
        nexts = λ y. ground (arith, b, out, differ);
        pres = λ y. ground (arith, b, out, differ);
      })
      (ground arith)

pub popl-IsList :
    (h : Heap) (l : ℕ) (x : ℕ) (xs : List ℕ)
    → IsList h l (x ∷ xs)
    → ((popl h l).0 ≡ x) × IsList (popl h l).1 l xs
unfolding popl put_at
popl-IsList h l x xs w =
    let (q, vs, e) = first_of l xs in
    let here : row l (x ∷ xs) ≡ l ∷ x ∷ q ∷ vs = ap (λ r. l ∷ x ∷ r) e in
    let chain : Linked h (l ∷ x ∷ q ∷ vs) = subst (Linked h) here w.chain in
    let (n, b) = neighbours h [] (q ∷ vs) l x chain in
    let (n', b') = neighbours h (l ∷ []) vs x q chain in
    let nonempty : (h.size l == 0) ≡ false = ground (arith, w.sized) in
    let once_l : count l (l ∷ x ∷ q ∷ vs) ≤ 1 = omega (arith, ap (count l) here, w.once l) in
    let once_x : count x (l ∷ x ∷ q ∷ vs) ≤ 1 = omega (arith, ap (count x) here, w.once x) in
    (
      rw nonempty n,
      rw nonempty (
          unlink_at h _ l (x ∷ xs) xs [] vs l x q w here (ap (λ r. l ∷ r) e)
            (record {
              nexts = λ y o. ground (arith, n, n', once_l, once_x);
              pres = λ y o. ground (arith, n, n', once_l, once_x);
            })
            (ground arith)),
    )

pub popr-IsList :
    (h : Heap) (l : ℕ) (ys : List ℕ) (x : ℕ)
    → IsList h l (ys ++ (x ∷ []))
    → ((popr h l).0 ≡ x) × IsList (popr h l).1 l ys
unfolding popr put_at
popr-IsList h l ys x w =
    let (us, p, e) = last_of l ys in
    let t : ℕ = tail l in
    let here : row l (ys ++ (x ∷ [])) ≡ us ++ (p ∷ x ∷ t ∷ []) =
      append_assoc (l ∷ ys) (x ∷ []) (t ∷ [])
      ∙ ap (λ r. r ++ (x ∷ t ∷ [])) e
      ∙ append_assoc us (p ∷ []) (x ∷ t ∷ []) in
    let there : row l ys ≡ us ++ (p ∷ t ∷ []) =
      ap (λ r. r ++ (t ∷ [])) e ∙ append_assoc us (p ∷ []) (t ∷ []) in
    let chain : Linked h (us ++ (p ∷ x ∷ t ∷ [])) = subst (Linked h) here w.chain in
    let (n, b) = neighbours h us (t ∷ []) p x chain in
    let (n', b') =
      neighbours h (us ++ (p ∷ [])) [] x t
        (subst (Linked h) (sym (append_assoc us (p ∷ []) (x ∷ t ∷ []))) chain) in
    let nonempty : (h.size l == 0) ≡ false = ground (arith, w.sized, length-append ys (x ∷ [])) in
    let once_t : count t us + count t (p ∷ x ∷ t ∷ []) ≤ 1 =
      omega (arith, ap (count t) here, w.once t, count-append t us (p ∷ x ∷ t ∷ [])) in
    let once_x : count x us + count x (p ∷ x ∷ t ∷ []) ≤ 1 =
      omega (arith, ap (count x) here, w.once x, count-append x us (p ∷ x ∷ t ∷ [])) in
    (
      rw nonempty b',
      rw nonempty (
          unlink_at h _ l (ys ++ (x ∷ [])) ys us [] p x t w here there
            (record {
              nexts = λ y o. ground (arith, b, b', once_t, once_x);
              pres = λ y o. ground (arith, b, b', once_t, once_x);
            })
            (ground arith)),
    )

-- From an empty list nothing is taken.
pub pop_nil : (h : Heap) (l : ℕ) → IsList h l [] → (popl h l ≡ (0, h)) × (popr h l ≡ (0, h))
unfolding popl popr
pop_nil h l w =
    let empty : (h.size l == 0) ≡ true = ground (arith, w.sized) in (rw empty refl, rw empty refl)
