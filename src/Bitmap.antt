-- ===== src/Bitmap.antt =====
-- common/lib/bitmap.c: bitmaps over a byte array that the caller provides.
-- `bits` is a pointer in the source, so the memory behind it is a function of the byte's offset:
-- offsets from `bytes_len` on are memory that does not belong to the bitmap, and the source's
-- reads past the end read it.
pub mod Bytes
pub mod Update
pub mod First
pub mod Scan
pub mod Overrun
mod Tests
use clean_os.Base.{
  ℕ, zero, suc, ◌+◌, ◌-◌, ◌*◌, ◌/◌, ◌%◌, ◌^◌, Bool, true, false, not, Option, none, some, ltb, leb,
  ◌==◌, if◌then◌else◌, ◌&&◌, ◌||◌,
}
use Prim.Native.Nat.{bit_and, bit_or}

-- A result stored in a `uint32_t`.
abbrev pub u32 : ℕ → ℕ
u32 n = n % 2 ^ 32

pub record Bitmap : Type 0 where
  pub bytes_len : ℕ
  pub bits : ℕ → ℕ

-- One byte of memory overwritten.
unfoldable pub put : (ℕ → ℕ) → ℕ → ℕ → ℕ → ℕ
put bits i v j = if j == i then v else bits j

-- `memset(btm->bits, 0, btm->bytes_len)`
unfoldable pub init : Bitmap → Bitmap
init m = record m { bits = λ j. if ltb j m.bytes_len then 0 else m.bits j }

-- `byte & (BITMAP_MASK << k)` as a truth value
unfoldable pub bit_set : ℕ → ℕ → Bool
bit_set byte k = not (bit_and byte (2 ^ k) == 0)

-- `byte |= BITMAP_MASK << k`, stored in a `uint8_t`
unfoldable pub with_bit : ℕ → ℕ → ℕ
with_bit byte k = bit_or byte (2 ^ k) % 256

-- `byte &= ~(BITMAP_MASK << k)`: the complement is that of an `int`
unfoldable pub without_bit : ℕ → ℕ → ℕ
without_bit byte k = bit_and byte (2 ^ 32 - 1 - 2 ^ k) % 256

unfoldable pub scan_test : Bitmap → ℕ → Bool
scan_test m bit_idx = bit_set (m.bits (bit_idx / 8)) (bit_idx % 8)

unfoldable pub set : Bitmap → ℕ → ℕ → Bitmap
set m bit_idx value = record m {
  bits = put m.bits (bit_idx / 8) (
      if value == 0
      then without_bit (m.bits (bit_idx / 8)) (bit_idx % 8)
      else with_bit (m.bits (bit_idx / 8)) (bit_idx % 8));
}

-- `while (bits[byte_idx] == 0xff && byte_idx < bytes_len) byte_idx++`, with the rounds that are
-- left before the second test fails.
unfoldable pub skip_full : ℕ → Bitmap → ℕ → ℕ
skip_full zero m byte_idx = byte_idx
skip_full (suc n) m byte_idx =
    let rest = skip_full n m (byte_idx + 1) in
    if m.bits byte_idx == 0xff && ltb byte_idx m.bytes_len then rest else byte_idx

-- `while (byte & (BITMAP_MASK << bit_idx)) bit_idx++`: a byte has no bit from 8 on.
unfoldable pub first_clear : ℕ → ℕ → ℕ → ℕ
first_clear zero byte bit_idx = bit_idx
first_clear (suc n) byte bit_idx =
    let rest = first_clear n byte (bit_idx + 1) in if bit_set byte bit_idx then rest else bit_idx

-- The loop of `bitmap_scan` that looks for `cnt` clear bits in a row. The first argument is
-- `bit_left`.
unfoldable pub find_run : ℕ → Bitmap → ℕ → ℕ → ℕ → Option ℕ
find_run zero m cnt next_bit find_cnt = none
find_run (suc bit_left) m cnt next_bit find_cnt =
    let found : ℕ = if scan_test m next_bit then 0 else u32 (find_cnt + 1) in
    let rest = find_run bit_left m cnt (u32 (next_bit + 1)) found in
    if found == cnt then some (u32 (next_bit + 2 ^ 32 - cnt + 1)) else rest

-- `bitmap_scan` from the first byte that is not 0xff
unfoldable pub scan_from : Bitmap → ℕ → ℕ → Option ℕ
unfolding first_clear find_run
scan_from m cnt byte_idx =
    let bit_idx = first_clear 8 (m.bits byte_idx) 0 in
    let first = u32 (byte_idx * 8 + bit_idx) in
    if leb m.bytes_len byte_idx
    then none
    else if cnt == 1
    then some first
    else find_run (u32 (u32 (m.bytes_len * 8) + 2 ^ 32 - first)) m cnt (u32 (first + 1)) 1

-- `none` is the result -1.
unfoldable pub scan : Bitmap → ℕ → Option ℕ
unfolding skip_full scan_from
scan m cnt = scan_from m cnt (skip_full m.bytes_len m 0)

module _ {S : Type 0} (visitor : S → ℕ → S × Bool) where
  -- The inner loop of `bitmap_foreach`, with the bits left in the byte. The flag is false once the
  -- visitor has stopped the walk.
  unfoldable pub visit_bits : ℕ → ℕ → S → S × Bool
  visit_bits zero idx_bit s = (s, true)
  visit_bits (suc n) idx_bit s =
      let (s', more) = visitor s idx_bit in
      elim more [ true ↦ visit_bits n (idx_bit + 1) s' | false ↦ (s', false) ]

  -- The outer loop, with the bytes left.
  unfoldable pub visit_bytes : ℕ → (ℕ → ℕ) → Bool → ℕ → S → S
  visit_bytes zero bits fast_value idx_byte s = s
  visit_bytes (suc n) bits fast_value idx_byte s =
      let has_value = ltb 0 (bits idx_byte) in
      let visit = (fast_value && has_value) || (not fast_value && not has_value) in
      let (s', more) : S × Bool = if visit then visit_bits 8 (idx_byte * 8) s else (s, true) in
      elim more [ true ↦ visit_bytes n bits fast_value (idx_byte + 1) s' | false ↦ s' ]

  -- `fast_value` is used as a truth value only.
  unfoldable pub foreach : Bitmap → Bool → S → S
  unfolding visit_bits visit_bytes
  foreach m fast_value s = visit_bytes m.bytes_len m.bits fast_value 0 s
