-- ===== src/Bitmap/Tests.antt =====
-- The functions of bitmap.c on small bitmaps, and the theorems at them.
use clean_os.Base.{
  ℕ, zero, suc, ◌+◌, ◌<◌, ◌≡◌, refl, Bool, true, false, none, some, arith, if◌then◌else◌,
}
use clean_os.Bitmap.{Bitmap, set, scan_test, bit_set, with_bit, without_bit, put, scan, foreach}
use clean_os.Bitmap.Update.{IsBytes, scan_test-set}
use clean_os.Bitmap.First.{SetBelow, Clear}
use clean_os.Bitmap.Scan.{Outcome, scan_lem}
use clean_os.Bitmap.Overrun.{scan_past_end}

-- Two bytes, 0xff and 0x1b, in memory that is clear elsewhere.
abbrev memory : ℕ → ℕ
memory zero = 0xff
memory (suc zero) = 0x1b
memory (suc (suc i)) = 0

abbrev sample : Bitmap
sample = record { bytes_len = 2; bits = memory }

-- One byte, 0x7f.
abbrev nearly_full_bits : ℕ → ℕ
nearly_full_bits zero = 0x7f
nearly_full_bits (suc i) = 0

abbrev nearly_full : Bitmap
nearly_full = record { bytes_len = 1; bits = nearly_full_bits }

sample-IsBytes : IsBytes sample
sample-IsBytes zero = omega arith
sample-IsBytes (suc zero) = omega arith
sample-IsBytes (suc (suc i)) = omega arith

nearly_full-IsBytes : IsBytes nearly_full
nearly_full-IsBytes zero = omega arith
nearly_full-IsBytes (suc i) = omega arith

scans :
    (scan sample 1 ≡ some 10)
    × (scan sample 2 ≡ some 13)
    × (scan sample 3 ≡ some 13)
    × (scan sample 4 ≡ some 13)
    × (scan sample 5 ≡ none)
unfolding scan scan_test bit_set
scans = (refl, refl, refl, refl, refl)

updates : (scan (set sample 10 1) 1 ≡ some 13) × (scan (set sample 3 0) 1 ≡ some 3)
unfolding scan scan_test bit_set set put with_bit without_bit
updates = (refl, refl)

abbrev count_set : Bitmap → ℕ → ℕ → ℕ × Bool
count_set m n i = (if scan_test m i then n + 1 else n, true)

counts : foreach (count_set sample) sample true 0 ≡ 12
unfolding foreach scan_test bit_set
counts = refl

nearly_full_below : SetBelow nearly_full 7
unfolding scan_test bit_set
nearly_full_below zero h = refl
nearly_full_below (suc zero) h = refl
nearly_full_below (suc (suc zero)) h = refl
nearly_full_below (suc (suc (suc zero))) h = refl
nearly_full_below (suc (suc (suc (suc zero)))) h = refl
nearly_full_below (suc (suc (suc (suc (suc zero))))) h = refl
nearly_full_below (suc (suc (suc (suc (suc (suc zero)))))) h = refl
nearly_full_below (suc (suc (suc (suc (suc (suc (suc i))))))) h = absurd (omega arith)

nearly_full_end : (scan_test nearly_full 7 ≡ false) × (scan_test nearly_full 8 ≡ false)
unfolding scan_test bit_set
nearly_full_end = (refl, refl)

nearly_full_run : Clear nearly_full 7 2
nearly_full_run i lo hi = ground (arith, nearly_full_end)

scan_test-set_example : scan_test (set sample 10 1) 10 ≡ true
scan_test-set_example = scan_test-set sample 10 1 10 sample-IsBytes

scan_lem_example : Outcome sample 3 (scan sample 3)
scan_lem_example = scan_lem sample 3 (omega arith) (omega arith) sample-IsBytes

scan_past_end_example : (scan nearly_full 2 ≡ some 7) × (8 < 9)
scan_past_end_example =
    scan_past_end nearly_full 7 refl (omega arith) nearly_full-IsBytes nearly_full_below
      nearly_full_run
