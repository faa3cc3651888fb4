-- ===== src/Strings/Number.antt =====
-- common/lib/string.c: numbers as decimal strings; common/tool/math.h: powers.
-- An `int` is its 32-bit word: 2 ^ 31 and above is negative.
use clean_os.Base.{
  ℕ, zero, suc, ◌+◌, ◌-◌, ◌*◌, ◌/◌, ◌%◌, ◌^◌, Bool, true, false, Option, none, some, ltb, leb, ◌==◌,
  if◌then◌else◌, ◌&&◌, ◌||◌,
}
use clean_os.Base.Ring.{put_at}
use clean_os.Bitmap.{u32}
use clean_os.Strings.{◌>>=◌, strlen, memcpy, strreverse}

-- The loop of `pow`
unfoldable pub pow_loop : ℕ → ℕ → ℕ → ℕ
pow_loop zero x ret = ret
pow_loop (suc y) x ret = pow_loop y x (u32 (ret * x))

unfoldable pub pow : ℕ → ℕ → ℕ
pow x y = pow_loop y x 1

-- The loop of `is_pow`; `y` is not 0.
unfoldable pub is_pow_loop : ℕ → ℕ → ℕ → Option Bool
is_pow_loop zero x y = none
is_pow_loop (suc rounds) x y =
    let rest = is_pow_loop rounds (x / y) y in
    if x / y == 1 then some true else if x / y == 0 then some false else rest

unfoldable pub is_pow : ℕ → ℕ → ℕ → Option Bool
is_pow rounds x y = if x == 1 then some true else is_pow_loop rounds x y

-- The loop of `str2num` over the `n` first bytes from the last one, with the exponent `j`; `none` is a
-- byte that is no digit.
unfoldable pub read_digits : ℕ → (ℕ → ℕ) → ℕ → ℕ → ℕ → Option ℕ
read_digits zero m str j ret = some ret
read_digits (suc i) m str j ret =
    let ch = m (str + i) in
    let rest = read_digits i m str (j + 1) (u32 (ret + (ch - 48) * pow 10 j)) in
    if ltb ch 48 || ltb 57 ch then none else rest

-- The outer option is fuel; `some none` is the result -1, `some (some n)` is 0 with the number stored.
unfoldable pub str2num : ℕ → (ℕ → ℕ) → ℕ → Option (Option ℕ)
str2num fuel m str = do
  size ← strlen fuel m str
  if ltb size 1
      then some none
      else if m str == 45
      then some (read_digits (size - 1) m (str + 1) 0 0 >>= λ ret. some (u32 (2 ^ 32 - ret)))
      else some (read_digits size m str 0 0)

-- The loop of `num2str` that fills `buf` from the place `i` on.
unfoldable pub write_digits : ℕ → (ℕ → ℕ) → ℕ → ℕ → ℕ → Option (ℕ × (ℕ → ℕ))
write_digits zero m buf i number = none
write_digits (suc rounds) m buf i number =
    let rest =
      write_digits rounds (put_at m (buf + i) (number % 10 + 48)) buf (i + 1) (number / 10) in
    if ltb 0 number && ltb number (2 ^ 31) then rest else some (i, m)

-- `buf` is the array of 64 bytes on the stack, each of which takes a round.
unfoldable pub num2str : ℕ → (ℕ → ℕ) → ℕ → ℕ → Option (ℕ → ℕ)
num2str num m str buf = do
  let negative = leb (2 ^ 31) num
  let number = if negative then u32 (2 ^ 32 - num) else num
  let m1 = if negative then put_at m str 45 else m
  let str1 = if negative then str + 1 else str
  r ← write_digits 64 m1 buf 0 number
  some (memcpy r.0 (strreverse r.1 buf r.0) str1 buf)
