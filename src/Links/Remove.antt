-- ===== src/Links/Remove.antt =====
-- Nodes taken out by their index, and by themselves.
use clean_os.Base.{
  ℕ, zero, suc, ◌+◌, ◌≤◌, ◌<◌, ◌≡◌, refl, sym, ap, subst, ◌∙◌, true, false, some, List, [], ◌∷◌,
  ◌++◌, append_assoc, leb, ◌==◌, arith, length, length-append,
}
use clean_os.Base.Count.{count, count-append}
use clean_os.Base.Ring.{put_at}
use clean_os.Links.{Heap, tail, at, remove_at, index_from, index, remove}
use clean_os.Links.Linked.{Linked}
use clean_os.Links.Refine.{row, IsList, neighbours, unlink_at}
use clean_os.Links.Ends.{first_of, last_of}
use clean_os.Links.Inside.{at-IsList}

-- The nodes on both sides of a node of the list
record Around (h : Heap) (l : ℕ) (us : List ℕ) (x : ℕ) (vs : List ℕ) : Type 0 where
  p : ℕ
  q : ℕ
  ws : List ℕ
  zs : List ℕ
  here : row l (us ++ (x ∷ vs)) ≡ ws ++ (p ∷ x ∷ q ∷ zs)
  there : row l (us ++ vs) ≡ ws ++ (p ∷ q ∷ zs)
  after_p : h.next p ≡ x
  before_x : h.pre x ≡ p
  after_x : h.next x ≡ q
  before_q : h.pre q ≡ x
  once_p : count p ws + count p (p ∷ x ∷ q ∷ zs) ≤ 1
  once_x : count x ws + count x (p ∷ x ∷ q ∷ zs) ≤ 1
  once_q : count q ws + count q (p ∷ x ∷ q ∷ zs) ≤ 1
  nonzero : count 0 ws + count 0 (p ∷ x ∷ q ∷ zs) ≡ 0

around :
    (h : Heap) (l : ℕ) (us : List ℕ) (x : ℕ) (vs : List ℕ)
    → IsList h l (us ++ (x ∷ vs))
    → Around h l us x vs
around h l us x vs w =
    let t : ℕ = tail l in
    let (ws, p, e) = last_of l us in
    let (q, zs, e') = first_of l vs in
    let here : row l (us ++ (x ∷ vs)) ≡ ws ++ (p ∷ x ∷ q ∷ zs) =
      append_assoc (l ∷ us) (x ∷ vs) (t ∷ [])
      ∙ ap (λ r. l ∷ us ++ (x ∷ r)) e'
      ∙ ap (λ r. r ++ (x ∷ q ∷ zs)) e
      ∙ append_assoc ws (p ∷ []) (x ∷ q ∷ zs) in
    let there : row l (us ++ vs) ≡ ws ++ (p ∷ q ∷ zs) =
      append_assoc (l ∷ us) vs (t ∷ [])
      ∙ ap (λ r. l ∷ us ++ r) e'
      ∙ ap (λ r. r ++ (q ∷ zs)) e
      ∙ append_assoc ws (p ∷ []) (q ∷ zs) in
    let chain : Linked h (ws ++ (p ∷ x ∷ q ∷ zs)) = subst (Linked h) here w.chain in
    let (n, b) = neighbours h ws (q ∷ zs) p x chain in
    let (n', b') =
      neighbours h (ws ++ (p ∷ [])) zs x q
        (subst (Linked h) (sym (append_assoc ws (p ∷ []) (x ∷ q ∷ zs))) chain) in
    let once : (y : ℕ) → count y ws + count y (p ∷ x ∷ q ∷ zs) ≤ 1 =
      λ y. omega (arith, ap (count y) here, w.once y, count-append y ws (p ∷ x ∷ q ∷ zs)) in
    record {
      p = p;
      q = q;
      ws = ws;
      zs = zs;
      here = here;
      there = there;
      after_p = n;
      before_x = b;
      after_x = n';
      before_q = b';
      once_p = once p;
      once_x = once x;
      once_q = once q;
      nonzero = omega (arith, ap (count 0) here, w.null, count-append 0 ws (p ∷ x ∷ q ∷ zs));
    }

pub remove_at-IsList :
    (h : Heap) (l : ℕ) (us : List ℕ) (x : ℕ) (vs : List ℕ)
    → IsList h l (us ++ (x ∷ vs))
    → ((remove_at h l (length us)).0 ≡ x) × IsList (remove_at h l (length us)).1 l (us ++ vs)
unfolding remove_at put_at
remove_at-IsList h l us x vs w =
    let a = around h l us x vs w in
    let found = at-IsList h l (us ++ (x ∷ vs)) us vs x w refl in
    let nonnull : (x == 0) ≡ false = ground (arith, a.nonzero) in
    (
      rw (found, nonnull) refl,
      rw (found, nonnull)
          (unlink_at h _ l (us ++ (x ∷ vs)) (us ++ vs) a.ws a.zs a.p x a.q w a.here a.there
            (record {
              nexts = λ y o. ground (arith, a.before_x, a.after_x, a.once_p, a.once_x, a.once_q);
              pres = λ y o. ground (arith, a.before_x, a.after_x, a.once_p, a.once_x, a.once_q);
            })
            (ground arith)),
    )

-- Nothing is taken from a place behind the list.
pub remove_at_out : (h : Heap) (l i : ℕ) → h.size l ≤ i → remove_at h l i ≡ (0, h)
unfolding remove_at at
remove_at_out h l i b = let out : leb (h.size l) i ≡ true = ground arith in rw out refl

-- The search for a node that stands behind the nodes `us`.
index_from-Linked :
    (us : List ℕ) (fuel : ℕ) (h : Heap) (l x a i : ℕ) (vs : List ℕ)
    → Linked h (a ∷ us ++ (x ∷ vs))
    → count x us ≡ 0
    → count (tail l) (us ++ (x ∷ [])) ≡ 0
    → count 0 (us ++ (x ∷ [])) ≡ 0
    → length us < fuel
    → index_from fuel h l x (h.next a) i ≡ some (i + length us)
unfolding index_from
index_from-Linked us zero h l x a i vs u out before nonzero enough = absurd (omega arith)
index_from-Linked [] (suc fuel) h l x a i vs (n, b, u) out before nonzero enough =
    ground (arith, n, before, nonzero)
index_from-Linked (y ∷ us) (suc fuel) h l x a i vs (n, b, u) out before nonzero enough =
    let rest =
      index_from-Linked us fuel h l x y (i + 1) vs u (omega arith) (omega arith) (omega arith)
        (omega arith) in
    ground (arith, n, before, nonzero, out, rest)

-- `index` of a node of the list.
pub index-IsList :
    (h : Heap) (l : ℕ) (us : List ℕ) (x : ℕ) (vs : List ℕ)
    → IsList h l (us ++ (x ∷ vs))
    → index h l x ≡ some (length us)
unfolding index
index-IsList h l us x vs w =
    let t : ℕ = tail l in
    let here : row l (us ++ (x ∷ vs)) ≡ l ∷ us ++ (x ∷ vs ++ (t ∷ [])) =
      ap (λ r. l ∷ r) (append_assoc us (x ∷ vs) (t ∷ [])) in
    let parts = λ (y : ℕ). count-append y us (x ∷ vs ++ (t ∷ [])) in
    let parts' = λ (y : ℕ). count-append y vs (t ∷ []) in
    let parts'' = λ (y : ℕ). count-append y us (x ∷ []) in
    index_from-Linked us (suc (h.size l)) h l x l 0 (vs ++ (t ∷ [])) (subst (Linked h) here w.chain)
      (ground (arith, ap (count x) here, w.once x, parts x))
      (ground (arith, ap (count t) here, w.once t, parts t, parts' t, parts'' t))
      (ground (arith, ap (count 0) here, w.null, parts 0, parts'' 0))
      (omega (arith, w.sized, length-append us (x ∷ vs)))
    ∙ ap some (omega arith)

pub remove-IsList :
    (h : Heap) (l : ℕ) (us : List ℕ) (x : ℕ) (vs : List ℕ)
    → IsList h l (us ++ (x ∷ vs))
    → IsList (remove h l x) l (us ++ vs)
unfolding remove put_at
remove-IsList h l us x vs w =
    let a = around h l us x vs w in
    let found = index-IsList h l us x vs w in
    let before : (h.pre x == 0) ≡ false = ground (arith, a.before_x, a.nonzero) in
    let after : (h.next x == 0) ≡ false = ground (arith, a.after_x, a.nonzero) in
    rw (found, before, after)
      (unlink_at h _ l (us ++ (x ∷ vs)) (us ++ vs) a.ws a.zs a.p x a.q w a.here a.there
        (record {
          nexts = λ y o. ground (arith, a.before_x, a.after_x, a.once_p, a.once_x, a.once_q);
          pres = λ y o. ground (arith, a.before_x, a.after_x, a.once_p, a.once_x, a.once_q);
        })
        (ground arith))
