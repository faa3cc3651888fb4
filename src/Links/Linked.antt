-- ===== src/Links/Linked.antt =====
-- Rows of linked nodes: a node put between two neighbours, and a node taken out.
use clean_os.Base.{ℕ, ◌≤◌, ◌<◌, ◌≡◌, ◌∙◌, List, [], ◌∷◌, ◌++◌, ◌==◌, if◌then◌else◌, arith, false}
use clean_os.Base.Count.{count, count-append}
use clean_os.Links.{Heap}

-- Each node of the row points to the next one, and that one back.
abbrev pub Linked : Heap → List ℕ → Type 0
Linked h [] = Unit
Linked h (x ∷ []) = Unit
Linked h (x ∷ y ∷ l) = (h.next x ≡ y) × (h.pre y ≡ x) × Linked h (y ∷ l)

-- A row in which the links stay as they are.
frame :
    (h k : Heap) (x : ℕ) (l : List ℕ)
    → ((y : ℕ) → 0 < count y (x ∷ l) → k.next y ≡ h.next y)
    → ((y : ℕ) → 0 < count y l → k.pre y ≡ h.pre y)
    → Linked h (x ∷ l)
    → Linked k (x ∷ l)
frame h k x [] n p u = tt
frame h k x (y ∷ l) n p (a, b, u) = (
  n x (ground arith) ∙ a,
  p y (ground arith) ∙ b,
  frame h k y l (λ z i. n z (omega arith)) (λ z i. p z (omega arith)) u,
)

-- The links around the new node `x` between `p` and `q`
pub record Inserted (h k : Heap) (p x q : ℕ) : Type 0 where
  pub nexts : (y : ℕ) → k.next y ≡ (if y == p then x else if y == x then q else h.next y)
  pub pres : (y : ℕ) → k.pre y ≡ (if y == q then x else if y == x then p else h.pre y)

pub Linked-Inserted :
    (h k : Heap) (us vs : List ℕ) (p x q : ℕ)
    → ((y : ℕ) → count y (us ++ (p ∷ q ∷ vs)) ≤ 1)
    → count x (us ++ (p ∷ q ∷ vs)) ≡ 0
    → Inserted h k p x q
    → Linked h (us ++ (p ∷ q ∷ vs))
    → Linked k (us ++ (p ∷ x ∷ q ∷ vs))
Linked-Inserted h k [] vs p x q once new i (a, b, u) = (
  ground (arith, i.nexts p),
  ground (arith, i.pres x),
  (
    ground (arith, i.nexts x),
    ground (arith, i.pres q),
    frame h k q vs (λ y o. ground (arith, i.nexts y, once y))
        (λ y o. ground (arith, i.pres y, once y)) u,
  ),
)
Linked-Inserted h k (w ∷ []) vs p x q once new i (a, b, u) =
    let rest = Linked-Inserted h k [] vs p x q (λ y. omega (arith, once y)) (omega arith) i u in
    (ground (arith, i.nexts w, once w), ground (arith, i.pres p, once p), rest)
Linked-Inserted h k (w ∷ z ∷ us) vs p x q once new i (a, b, u) =
    let rest =
      Linked-Inserted h k (z ∷ us) vs p x q (λ y. omega (arith, once y)) (omega arith) i u in
    let split = λ (y : ℕ). count-append y us (p ∷ q ∷ vs) in
    (ground (arith, i.nexts w, once w, split w), ground (arith, i.pres z, once z, split z), rest)

-- The links once the node `x` between `p` and `q` is out of the row; its own links do not matter.
pub record Unlinked (h k : Heap) (p x q : ℕ) : Type 0 where
  pub nexts : (y : ℕ) → (y == x) ≡ false → k.next y ≡ (if y == p then q else h.next y)
  pub pres : (y : ℕ) → (y == x) ≡ false → k.pre y ≡ (if y == q then p else h.pre y)

pub Linked-Unlinked :
    (h k : Heap) (us vs : List ℕ) (p x q : ℕ)
    → ((y : ℕ) → count y (us ++ (p ∷ x ∷ q ∷ vs)) ≤ 1)
    → Unlinked h k p x q
    → Linked h (us ++ (p ∷ x ∷ q ∷ vs))
    → Linked k (us ++ (p ∷ q ∷ vs))
Linked-Unlinked h k [] vs p x q once i (a, b, (c, d, u)) = (
  ground (arith, i.nexts p, once p),
  ground (arith, i.pres q, once q),
  frame h k q vs (λ y o. ground (arith, i.nexts y, once y))
      (λ y o. ground (arith, i.pres y, once y)) u,
)
Linked-Unlinked h k (w ∷ []) vs p x q once i (a, b, u) =
    let rest = Linked-Unlinked h k [] vs p x q (λ y. omega (arith, once y)) i u in
    (ground (arith, i.nexts w, once w), ground (arith, i.pres p, once p), rest)
Linked-Unlinked h k (w ∷ z ∷ us) vs p x q once i (a, b, u) =
    let rest = Linked-Unlinked h k (z ∷ us) vs p x q (λ y. omega (arith, once y)) i u in
    let split = λ (y : ℕ). count-append y us (p ∷ x ∷ q ∷ vs) in
    (ground (arith, i.nexts w, once w, split w), ground (arith, i.pres z, once z, split z), rest)
