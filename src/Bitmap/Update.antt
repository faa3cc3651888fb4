-- ===== src/Bitmap/Update.antt =====
-- bitmap_init and bitmap_set against bitmap_scan_test.
use clean_os.Base.{ℕ, ◌*◌, ◌/◌, ◌%◌, ◌<◌, ◌≡◌, false, not, ◌==◌, if◌then◌else◌, arith}
use clean_os.Bitmap.{Bitmap, put, init, set, scan_test, with_bit, without_bit}
use clean_os.Bitmap.Bytes.{bit_set-with_bit, bit_set-without_bit, bit_set_clear}

-- The memory holds bytes.
abbrev pub IsBytes : Bitmap → Type 0
IsBytes m = (i : ℕ) → m.bits i < 256

mod-lt-eight : (n : ℕ) → n % 8 < 8
mod-lt-eight n = omega arith

-- After `bitmap_init` every bit of the bitmap is clear.
pub scan_test-init : (m : Bitmap) (i : ℕ) → i < m.bytes_len * 8 → scan_test (init m) i ≡ false
unfolding init scan_test
scan_test-init m i h = ground (arith, bit_set_clear (i % 8))

-- `bitmap_set` at one bit sets it to the truth value of its argument, and changes no other bit. The
-- memory holds bytes.
pub scan_test-set :
    (m : Bitmap) (i v j : ℕ)
    → IsBytes m
    → scan_test (set m i v) j ≡ (if i == j then not (v == 0) else scan_test m j)
unfolding set scan_test put
scan_test-set m i v j h = ground (
  arith,
  bit_set-with_bit (m.bits (i / 8)) (i % 8) (j % 8) (h (i / 8)),
  bit_set-without_bit (m.bits (i / 8)) (i % 8) (j % 8) (h (i / 8)),
)

pub set-IsBytes : (m : Bitmap) (i v : ℕ) → IsBytes m → IsBytes (set m i v)
unfolding set put with_bit without_bit
set-IsBytes m i v h j = ground (arith, h j)

pub init-IsBytes : (m : Bitmap) → IsBytes m → IsBytes (init m)
unfolding init
init-IsBytes m h j = ground (arith, h j)
