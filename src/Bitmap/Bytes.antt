-- ===== src/Bitmap/Bytes.antt =====
-- One byte of a bitmap: its bits after a write, and its lowest clear bit. Each fact is checked for
-- all 256 values.
use clean_os.Base.{
  ℕ, zero, suc, ◌<◌, ◌≡◌, refl, Bool, true, false, not, ltb, ◌==◌, ◌&&◌, ◌||◌, arith,
}
use clean_os.Bitmap.{bit_set, with_bit, without_bit, first_clear}

-- A test at each of the first `n` numbers.
all_below : ℕ → (ℕ → Bool) → Bool
all_below zero test = true
all_below (suc n) test = all_below n test && test n

all_below-at : (test : ℕ → Bool) (n i : ℕ) → i < n → all_below n test ≡ true → test i ≡ true
unfolding all_below
all_below-at test (suc n) i lt h = ground (arith, all_below-at test n i)
all_below-at test zero i lt h = absurd (omega arith)

same : Bool → Bool → Bool
same true b = b
same false b = not b

same_sound : (a b : Bool) → same a b ≡ true → a ≡ b
unfolding same
same_sound a b h = ground arith

-- Three nested ranges: the byte, the bit written and the bit read.
abbrev Checked : (ℕ → ℕ → ℕ → Bool) → Type 0
Checked p = all_below 256 (λ b. all_below 8 (λ k. all_below 8 (λ j. p b k j))) ≡ true

Checked-sound :
    (p : ℕ → ℕ → ℕ → Bool) (b k j : ℕ) → Checked p → b < 256 → k < 8 → j < 8 → p b k j ≡ true
Checked-sound p b k j h hb hk hj =
    all_below-at (λ x. p b k x) 8 j hj
      (all_below-at (λ y. all_below 8 (λ x. p b y x)) 8 k hk
        (all_below-at (λ z. all_below 8 (λ y. all_below 8 (λ x. p z y x))) 256 b hb h))

with_bit_table : Checked (λ b k j. same (bit_set (with_bit b k) j) ((k == j) || bit_set b j))
unfolding all_below same bit_set with_bit
with_bit_table = refl

pub bit_set-with_bit :
    (b k j : ℕ) → b < 256 → k < 8 → j < 8 → bit_set (with_bit b k) j ≡ ((k == j) || bit_set b j)
bit_set-with_bit b k j hb hk hj = same_sound _ _ (Checked-sound _ b k j with_bit_table hb hk hj)

without_bit_table :
    Checked (λ b k j. same (bit_set (without_bit b k) j) (not (k == j) && bit_set b j))
unfolding all_below same bit_set without_bit
without_bit_table = refl

pub bit_set-without_bit :
    (b k j : ℕ)
    → b < 256
    → k < 8
    → j < 8
    → bit_set (without_bit b k) j ≡ (not (k == j) && bit_set b j)
bit_set-without_bit b k j hb hk hj =
    same_sound _ _ (Checked-sound _ b k j without_bit_table hb hk hj)

full_table : all_below 8 (λ k. bit_set 0xff k) ≡ true
unfolding all_below bit_set
full_table = refl

pub bit_set_full : (k : ℕ) → k < 8 → bit_set 0xff k ≡ true
bit_set_full k h = all_below-at _ 8 k h full_table

clear_table : all_below 8 (λ k. not (bit_set 0 k)) ≡ true
unfolding all_below bit_set
clear_table = refl

pub bit_set_clear : (k : ℕ) → k < 8 → bit_set 0 k ≡ false
bit_set_clear k h = ground (arith, all_below-at (λ j. not (bit_set 0 j)) 8 k h clear_table)

first_clear_table :
    all_below 255 (λ b.
      ltb (first_clear 8 b 0) 8
      && not (bit_set b (first_clear 8 b 0))
      && all_below 8 (λ k. not (ltb k (first_clear 8 b 0)) || bit_set b k))
    ≡ true
unfolding all_below bit_set first_clear
first_clear_table = refl

module _ (b : ℕ) (h : b < 255) where
  first_clear_checked :
      (ltb (first_clear 8 b 0) 8
        && not (bit_set b (first_clear 8 b 0))
        && all_below 8 (λ k. not (ltb k (first_clear 8 b 0)) || bit_set b k))
      ≡ true
  first_clear_checked = all_below-at _ 255 b h first_clear_table

  -- A byte other than 0xff has a clear bit, and the search stops at the lowest.
  pub first_clear-lt : first_clear 8 b 0 < 8
  first_clear-lt = ground (arith, first_clear_checked)

  pub bit_set-first_clear : bit_set b (first_clear 8 b 0) ≡ false
  bit_set-first_clear = ground (arith, first_clear_checked)

  pub bit_set-below_first_clear : (k : ℕ) → k < first_clear 8 b 0 → bit_set b k ≡ true
  bit_set-below_first_clear k hk = ground (
    arith,
    first_clear_checked,
    first_clear-lt,
    all_below-at (λ j. not (ltb j (first_clear 8 b 0)) || bit_set b j) 8 k,
  )
