-- ===== src/Base/Bits.antt =====
-- Laws of the bitwise or of native numbers: its lowest digit, its upper digits, and shifts.
use Prim.Native.Nat.{
  ℕ, zero, suc, ◌+◌, ◌-◌, ◌*◌, ◌/◌, ◌%◌, ◌^◌, ◌≤◌, ◌<◌, max, bit_or, digits, bit_or-bitwise,
}
use mathlib.Core.Path.{◌≡◌, refl, sym, ap, ap₂, ◌∙◌}
use native.Mathlib.Omega.{arith}

-- The digit recursion behind `bit_or`, in so many rounds.
abbrev or_in : ℕ → ℕ → ℕ → ℕ
or_in rounds x y = digits (λ d. d) max rounds x y

-- Once there are enough rounds, one more changes nothing.
spare_round : (y x rounds : ℕ) → x ≤ rounds → or_in (suc rounds) x y ≡ or_in rounds x y
spare_round y zero zero h = refl
spare_round y zero (suc rounds) h = refl
spare_round y (suc x) zero h = absurd (omega arith)
spare_round y (suc x) (suc rounds) h =
    let rest = spare_round (y / 2) (suc x / 2) rounds (omega arith) in omega arith

spare_rounds : (spare x y rounds : ℕ) → rounds ≡ x + spare → or_in rounds x y ≡ or_in x x y
spare_rounds zero x y rounds e = ap (λ n. or_in n x y) (omega arith)
spare_rounds (suc spare) x y zero e = absurd (omega arith)
spare_rounds (suc spare) x y (suc rounds) e =
    spare_round y x rounds (omega arith) ∙ spare_rounds spare x y rounds (omega arith)

-- The lowest digit and the digits above it.
bit_or-digits : (y x : ℕ) → max (x % 2) (y % 2) + 2 * bit_or (x / 2) (y / 2) ≡ bit_or x y
bit_or-digits y zero = omega (arith, bit_or-bitwise 0 (y / 2), bit_or-bitwise 0 y)
bit_or-digits y (suc x) =
    let spare = spare_rounds (x - suc x / 2) (suc x / 2) (y / 2) x (omega arith) in
    omega (arith, bit_or-bitwise (suc x / 2) (y / 2), bit_or-bitwise (suc x) y)

pub bit_or-half : (a b : ℕ) → bit_or a b / 2 ≡ bit_or (a / 2) (b / 2)
bit_or-half a b = omega (arith, bit_or-digits b a)

pub bit_or-low : (a b : ℕ) → bit_or a b % 2 ≡ max (a % 2) (b % 2)
bit_or-low a b = omega (arith, bit_or-digits b a)

-- Or with no digits, for numbers up to a bound.
none_below : (x bound : ℕ) → x ≤ bound → bit_or x 0 ≡ x
none_below zero bound h = refl
none_below (suc x) zero h = absurd (omega arith)
none_below (suc x) (suc bound) h =
    let rest = none_below (suc x / 2) bound (omega arith) in omega (arith, bit_or-digits 0 (suc x))

pub bit_or-zero : (a : ℕ) → bit_or a 0 ≡ a
bit_or-zero a = none_below a a (omega arith)

-- Shifting right by `k` digits.
abbrev halved : ℕ → ℕ → ℕ
halved zero a = a
halved (suc k) a = halved k (a / 2)

bit_or-halved : (k a b : ℕ) → halved k (bit_or a b) ≡ bit_or (halved k a) (halved k b)
bit_or-halved zero a b = refl
bit_or-halved (suc k) a b = ap (halved k) (bit_or-half a b) ∙ bit_or-halved k (a / 2) (b / 2)

halved_page : (a : ℕ) → halved 12 a ≡ a / 2 ^ 12
halved_page a = omega arith

-- The digits from the twelfth on.
pub bit_or-page : (a b : ℕ) → bit_or a b / 2 ^ 12 ≡ bit_or (a / 2 ^ 12) (b / 2 ^ 12)
bit_or-page a b =
    sym (halved_page (bit_or a b))
    ∙ bit_or-halved 12 a b
    ∙ ap₂ bit_or (halved_page a) (halved_page b)

-- Or with flags below 2 ^ 12 leaves the page number alone.
pub bit_or-page_flags : (a b : ℕ) → b < 2 ^ 12 → bit_or a b / 2 ^ 12 ≡ a / 2 ^ 12
bit_or-page_flags a b h =
    bit_or-page a b ∙ ap (bit_or (a / 2 ^ 12)) (omega arith) ∙ bit_or-zero (a / 2 ^ 12)
