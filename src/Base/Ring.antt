-- ===== src/Base/Ring.antt =====
-- Ring buffers: the elements from an index on, around the end of the array.
use Prim.Native.Nat.{ℕ, zero, suc, ◌+◌, ◌-◌, ◌<◌}
use mathlib.Core.Path.{◌≡◌, refl, sym, ap, ◌∙◌}
use mathlib.Core.Logic.{◌≢◌}
use mathlib.Core.List.{List, [], ◌∷◌, ◌++◌}
use native.Mathlib.Omega.{arith}
use clean_os.Base.Tests.{leb, ◌==◌, if◌then◌else◌, ==_refl, ne→==}
use clean_os.Base.Lists.{length}

-- The index behind `i` in an array of `size` elements.
abbrev pub next_index : ℕ → ℕ → ℕ
next_index size i = if leb size (i + 1) then 0 else i + 1

-- The index `n` elements behind `i`.
abbrev pub slot : ℕ → ℕ → ℕ → ℕ
slot size i n = if leb size (i + n) then i + n - size else i + n

-- One element of an array overwritten.
unfoldable pub put_at : (ℕ → ℕ) → ℕ → ℕ → ℕ → ℕ
put_at buf i v j = if j == i then v else buf j

-- The `n` elements from `i` on.
abbrev pub collect : ℕ → (ℕ → ℕ) → ℕ → ℕ → List ℕ
collect size buf i zero = []
collect size buf i (suc n) = buf i ∷ collect size buf (next_index size i) n

pub length-collect : (size : ℕ) (buf : ℕ → ℕ) (i n : ℕ) → length (collect size buf i n) ≡ n
length-collect size buf i zero = refl
length-collect size buf i (suc n) = ap suc (length-collect size buf (next_index size i) n)

put_at_self : (buf : ℕ → ℕ) (i v : ℕ) → put_at buf i v i ≡ v
unfolding put_at
put_at_self buf i v = rw (==_refl i) refl

put_at_ne : (buf : ℕ → ℕ) (i v j : ℕ) → j ≢ i → put_at buf i v j ≡ buf j
unfolding put_at
put_at_ne buf i v j h = rw (ne→== j i h) refl

slot-next :
    (size i n : ℕ) → i < size → suc n < size → slot size (next_index size i) n ≡ slot size i (suc n)
slot-next size i n h k = ground arith

slot-other : (size i n : ℕ) → i < size → suc n < size → i ≢ slot size i (suc n)
slot-other size i n h k e = ground arith

-- An element written behind the last is the last.
pub collect-put_at :
    (size : ℕ) (buf : ℕ → ℕ) (i n v : ℕ)
    → i < size
    → n < size
    → collect size (put_at buf (slot size i n) v) i (suc n) ≡ collect size buf i n ++ (v ∷ [])
collect-put_at size buf i zero v h k =
    let e : slot size i 0 ≡ i = ground arith in
    ap (λ s. put_at buf s v i ∷ []) e ∙ ap (λ x. x ∷ []) (put_at_self buf i v)
collect-put_at size buf i (suc n) v h k =
    let rest = collect-put_at size buf (next_index size i) n v (ground arith) (omega arith) in
    let first = put_at_ne buf (slot size i (suc n)) v i (slot-other size i n h k) in
    ap (λ x. x ∷ collect size (put_at buf (slot size i (suc n)) v) (next_index size i) (suc n))
      first
    ∙ ap (λ s. buf i ∷ collect size (put_at buf s v) (next_index size i) (suc n))
        (sym (slot-next size i n h k))
    ∙ ap (λ l. buf i ∷ l) rest
