-- ===== src/Bitmap/First.antt =====
-- bitmap_scan: the first byte that is not full and the first clear bit.
use clean_os.Base.{
  ℕ, zero, suc, ◌+◌, ◌*◌, ◌/◌, ◌%◌, ◌≤◌, ◌<◌, ◌≡◌, ◌≢◌, ap, ◌∙◌, true, false, ltb, ◌==◌, Bool-cases,
  inl, inr, arith, ltb→lt,
}
use clean_os.Bitmap.{Bitmap, scan_test, skip_full, first_clear}
use clean_os.Bitmap.Bytes.{
  bit_set_full, first_clear-lt, bit_set-first_clear, bit_set-below_first_clear,
}
use clean_os.Bitmap.Update.{IsBytes}

-- All of the `n` bits from `s` on are clear.
abbrev pub Clear : Bitmap → ℕ → ℕ → Type 0
Clear m s n = (i : ℕ) → s ≤ i → i < s + n → scan_test m i ≡ false

-- All of the bits below `s` are set.
abbrev pub SetBelow : Bitmap → ℕ → Type 0
SetBelow m s = (i : ℕ) → i < s → scan_test m i ≡ true

-- Every byte below `k` is 0xff.
abbrev pub FullBelow : Bitmap → ℕ → Type 0
FullBelow m k = (i : ℕ) → i < k → m.bits i ≡ 0xff

-- The first loop stops at the end, or at the first byte that is not 0xff.
pub skip_full_lem :
    (n : ℕ) (m : Bitmap) (k : ℕ)
    → k + n ≡ m.bytes_len
    → FullBelow m k
    → (skip_full n m k ≤ m.bytes_len)
      × FullBelow m (skip_full n m k)
      × (skip_full n m k < m.bytes_len → m.bits (skip_full n m k) ≢ 0xff)
unfolding skip_full
skip_full_lem zero m k e full = (omega arith, full, λ h. absurd (omega arith))
skip_full_lem (suc n) m k e full = elim (Bool-cases (m.bits k == 0xff)) [
  | inl hit ↦
      let here : m.bits k ≡ 0xff = ground arith in
      let inside : ltb k m.bytes_len ≡ true = ground arith in
      rw (hit, inside)
        (skip_full_lem n m (k + 1) (omega arith) λ i h. elim (Bool-cases (i == k)) [
          | inl p ↦ ap m.bits (ground arith) ∙ here
          | inr p ↦ full i (ground arith)
        ])
  | inr miss ↦ rw miss (omega arith, full, λ h. ground arith)
]

pub SetBelow-of_FullBelow : (m : Bitmap) (k : ℕ) → FullBelow m k → SetBelow m (k * 8)
unfolding scan_test
SetBelow-of_FullBelow m k full i h =
    rw (full (i / 8) (omega arith)) (bit_set_full (i % 8) (omega arith))

-- The first clear bit: no bit below it is clear.
pub record IsFirst (m : Bitmap) (first : ℕ) : Type 0 where
  pub inside : first < m.bytes_len * 8
  pub clear : scan_test m first ≡ false
  pub below : SetBelow m first

module _ (m : Bitmap) (bytes : IsBytes m) (k : ℕ) (full : FullBelow m k) (inside : k < m.bytes_len)
    (other : m.bits k ≢ 0xff) where
  abbrev bit_idx : ℕ
  bit_idx = first_clear 8 (m.bits k) 0

  not_full : m.bits k < 255
  not_full = omega (arith, bytes k)

  bit_idx-lt : bit_idx < 8
  bit_idx-lt = first_clear-lt (m.bits k) not_full

  first_below : SetBelow m (k * 8 + bit_idx)
  unfolding scan_test
  first_below i h = elim (Bool-cases (ltb i (k * 8))) [
    | inl p ↦ SetBelow-of_FullBelow m k full i (ltb→lt i (k * 8) p)
    | inr p ↦
        let same : i / 8 ≡ k = ground (arith, bit_idx-lt) in
        rw same (bit_set-below_first_clear (m.bits k) not_full (i % 8) (ground arith))
  ]

  pub IsFirst-intro : IsFirst m (k * 8 + bit_idx)
  unfolding scan_test
  IsFirst-intro = record {
    inside = omega (arith, bit_idx-lt);
    clear =
        let same : (k * 8 + bit_idx) / 8 ≡ k = omega (arith, bit_idx-lt) in
        let rest : (k * 8 + bit_idx) % 8 ≡ bit_idx = omega (arith, bit_idx-lt) in
        rw (same, rest) (bit_set-first_clear (m.bits k) not_full);
    below = first_below;
  }
