-- ===== src/Bitmap/Overrun.antt =====
-- bitmap_scan counts the bit behind the bitmap as one of its own when it looks for a run.
use clean_os.Base.{ℕ, ◌+◌, ◌*◌, ◌^◌, ◌<◌, ◌≡◌, Option, none, some, ltb, Bool-cases, inl, inr, arith}
use clean_os.Bitmap.{Bitmap, scan}
use clean_os.Bitmap.Update.{IsBytes}
use clean_os.Bitmap.First.{SetBelow, Clear}
use clean_os.Bitmap.Scan.{Outcome, scan_lem}

-- Where the run found cannot lie lower, the outcome settles the result.
only_run :
    (m : Bitmap) (last : ℕ) (o : Option ℕ)
    → last + 1 ≡ m.bytes_len * 8
    → SetBelow m last
    → Clear m last 2
    → Outcome m 2 o
    → o ≡ some last
only_run m last none e below run none_found = absurd (omega (arith, none_found last run))
only_run m last (some r) e below run (clear, fits, lowest) = elim (Bool-cases (ltb r last)) [
  | inl p ↦ ground (arith, below r, clear r)
  | inr p ↦ ground (arith, lowest last run)
]

-- Where all bits of a bitmap but the last are set, and the last bit and the bit behind the bitmap
-- are clear, `bitmap_scan` for two bits returns the last bit, so its run ends past the bitmap. The
-- memory holds bytes, and the bitmap has fewer than 2 ^ 31 - 1 bits.
pub scan_past_end :
    (m : Bitmap) (last : ℕ)
    → last + 1 ≡ m.bytes_len * 8
    → m.bytes_len * 8 + 1 < 2 ^ 31
    → IsBytes m
    → SetBelow m last
    → Clear m last 2
    → (scan m 2 ≡ some last) × (m.bytes_len * 8 < last + 2)
scan_past_end m last e small bytes below run =
    (only_run m last (scan m 2) e below run (scan_lem m 2 small (omega arith) bytes), omega arith)
