-- ===== src/Strings.antt =====
-- common/lib/string.c: strings that end with a zero byte.
-- Memory is a function from addresses to bytes, and 0 is the null pointer. A loop that runs up to the
-- end of a string takes fuel, one for each byte it looks at; `none` is a loop that goes on.
pub mod Text
pub mod Order
pub mod Token
pub mod Split
pub mod Words
pub mod Run
pub mod Edit
pub mod Number
pub mod Digits
pub mod Moves
pub mod Convert
pub mod RoundTrip
mod Tests
use clean_os.Base.{
  ℕ, zero, suc, ◌+◌, ◌-◌, ◌/◌, ◌^◌, Bool, true, false, not, Option, none, some, ltb, leb, ◌==◌,
  if◌then◌else◌, ◌&&◌,
}
use clean_os.Base.Ring.{put_at}

-- The steps of a call that may not end.
infixl 5 ◌>>=◌
abbrev pub ◌>>=◌ {ℓ κ} : {A : Type ℓ} {B : Type κ} → Option A → (A → Option B) → Option B
none >>= f = none
some a >>= f = f a

-- The result -1 of an `int`
abbrev pub minus_one : ℕ
minus_one = 2 ^ 32 - 1

unfoldable pub memset : ℕ → (ℕ → ℕ) → ℕ → ℕ → ℕ → ℕ
memset zero m dst c = m
memset (suc len) m dst c = memset len (put_at m dst c) (dst + 1) c

unfoldable pub memcpy : ℕ → (ℕ → ℕ) → ℕ → ℕ → ℕ → ℕ
memcpy zero m dst src = m
memcpy (suc size) m dst src = memcpy size (put_at m dst (m src)) (dst + 1) (src + 1)

unfoldable pub memcmp : ℕ → (ℕ → ℕ) → ℕ → ℕ → ℕ
memcmp zero m a b = 0
memcmp (suc size) m a b =
    let rest = memcmp size m (a + 1) (b + 1) in
    if m a == m b then rest else if ltb (m b) (m a) then 1 else minus_one

unfoldable pub strlen : ℕ → (ℕ → ℕ) → ℕ → Option ℕ
strlen zero m p = none
strlen (suc fuel) m p =
    let rest = strlen fuel m (p + 1) in if m p == 0 then some 0 else rest >>= λ n. some (n + 1)

unfoldable pub strcmp : ℕ → (ℕ → ℕ) → ℕ → ℕ → Option ℕ
strcmp fuel m a b = do
  x ← strlen fuel m a
  y ← strlen fuel m b
  some (memcmp (if ltb x y then x else y) m a b)

unfoldable pub strcpy : ℕ → (ℕ → ℕ) → ℕ → ℕ → Option (ℕ → ℕ)
strcpy fuel m dst src = do n ← strlen fuel m src; some (memcpy n m dst src)

-- The second loop of `strcat`, which copies the zero byte too.
unfoldable pub copy_string : ℕ → (ℕ → ℕ) → ℕ → ℕ → Option (ℕ → ℕ)
copy_string zero m dst src = none
copy_string (suc fuel) m dst src =
    let m' = put_at m dst (m src) in
    let rest = copy_string fuel m' (dst + 1) (src + 1) in if m src == 0 then some m' else rest

unfoldable pub strcat : ℕ → (ℕ → ℕ) → ℕ → ℕ → Option (ℕ → ℕ)
strcat fuel m dst src = do n ← strlen fuel m dst; copy_string fuel m (dst + n) src

unfoldable pub trim_strlen : ℕ → (ℕ → ℕ) → ℕ → Option ℕ
trim_strlen zero m p = none
trim_strlen (suc fuel) m p =
    let rest = trim_strlen fuel m (p + 1) in
    if ltb 0 p && not (m p == 32) && not (m p == 0) then (rest >>= λ n. some (n + 1)) else some 0

unfoldable pub strchr : ℕ → (ℕ → ℕ) → ℕ → ℕ → Option ℕ
strchr zero m p ch = none
strchr (suc fuel) m p ch =
    let rest = strchr fuel m (p + 1) ch in
    if m p == 0 then some 0 else if m p == ch then some p else rest

-- The loop of `strrchr` with the last place so far
unfoldable pub strrchr_from : ℕ → (ℕ → ℕ) → ℕ → ℕ → ℕ → Option ℕ
strrchr_from zero m p ch last = none
strrchr_from (suc fuel) m p ch last =
    let rest = strrchr_from fuel m (p + 1) ch (if m p == ch then p else last) in
    if m p == 0 then some last else rest

unfoldable pub strrchr : ℕ → (ℕ → ℕ) → ℕ → ℕ → Option ℕ
strrchr fuel m p ch = strrchr_from fuel m p ch 0

-- The loop of `strchrs`, whose pointer stays where it is.
unfoldable pub strchrs_from : ℕ → (ℕ → ℕ) → ℕ → ℕ → ℕ → Option ℕ
strchrs_from zero m p ch ch_cnt = none
strchrs_from (suc fuel) m p ch ch_cnt =
    let rest = strchrs_from fuel m p ch (if m p == ch then ch_cnt + 1 else ch_cnt) in
    if m p == 0 then some ch_cnt else rest

unfoldable pub strchrs : ℕ → (ℕ → ℕ) → ℕ → ℕ → Option ℕ
strchrs fuel m p ch = strchrs_from fuel m p ch 0

-- The loop of `strreverse` over `n` pairs from the place `i` on.
unfoldable pub reverse_from : ℕ → (ℕ → ℕ) → ℕ → ℕ → ℕ → ℕ → ℕ
reverse_from zero m str size i = m
reverse_from (suc n) m str size i =
    let tmp = m (str + i) in
    let m1 = put_at m (str + i) (m (str + (size - 1 - i))) in
    let m2 = put_at m1 (str + (size - 1 - i)) tmp in reverse_from n m2 str size (i + 1)

unfoldable pub strreverse : (ℕ → ℕ) → ℕ → ℕ → ℕ → ℕ
strreverse m str size = reverse_from (size / 2) m str size 0
