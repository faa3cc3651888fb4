-- ===== src/Fat/Names.antt =====
-- kernel/fs/fat16fs.c: short names, long names and their checksum. A name that is read up to its
-- zero byte is the list of the bytes before it. A `char` is signed.
use clean_os.Base.{
  ℕ, zero, suc, ◌+◌, ◌-◌, ◌*◌, ◌/◌, ◌%◌, Bool, true, not, ◌&&◌, List, [], ◌∷◌, ltb, leb, ◌==◌,
  if◌then◌else◌, length,
}

unfoldable pub put_char : (ℕ → ℕ) → ℕ → ℕ → ℕ → ℕ
put_char buf j c i = if i == j then c else buf i

-- The loop of `to_sfn` at `buf[j]`
unfoldable pub to_sfn_loop : List ℕ → ℕ → (ℕ → ℕ) → ℕ → ℕ
unfolding put_char
to_sfn_loop [] j buf = buf
to_sfn_loop (c ∷ path) j buf =
    let upper : ℕ = if leb b'a' c && leb c b'z' then c - b'a' + b'A' else c in
    to_sfn_loop path (if c == b'.' then 8 else j + 1)
      (if c == b'.' then buf else put_char buf j upper)

unfoldable pub to_sfn : (ℕ → ℕ) → List ℕ → ℕ → ℕ
unfolding to_sfn_loop
to_sfn buf path = to_sfn_loop path 0 (λ i. if ltb i 11 then b' ' else buf i)

-- `!memcmp` of so many bytes
unfoldable pub same_bytes : ℕ → (ℕ → ℕ) → (ℕ → ℕ) → Bool
same_bytes zero a b = true
same_bytes (suc n) a b = a n == b n && same_bytes n a b

-- `stack` is what stands in the variable `sfn` before.
unfoldable pub match_sfn : (ℕ → ℕ) → (ℕ → ℕ) → List ℕ → Bool
unfolding to_sfn same_bytes
match_sfn stack entry_name path = same_bytes 11 entry_name (to_sfn stack path)

-- The loop of `from_lfn`. Its test for 0xff is never met, since a `char` is less.
unfoldable pub from_lfn_loop : ℕ → (ℕ → ℕ) → ℕ → ℕ → ℕ → (ℕ → ℕ) → ℕ → ℕ
unfolding put_char
from_lfn_loop zero lfn size i j dst = dst
from_lfn_loop (suc rounds) lfn size i j dst =
    let low = put_char dst i (lfn j) in
    let wide = not (lfn (j + 1) == 0) in
    let rest =
      from_lfn_loop rounds lfn size (if wide then i + 2 else i + 1) (j + 2)
        (if wide then put_char low (i + 1) (lfn (j + 1)) else low) in
    if ltb j size then rest else dst

-- A round takes two bytes.
unfoldable pub from_lfn : (ℕ → ℕ) → (ℕ → ℕ) → ℕ → ℕ → ℕ
unfolding from_lfn_loop
from_lfn dst lfn size = from_lfn_loop size lfn size 0 0 dst

unfoldable pub bytes_of : List ℕ → ℕ → ℕ
bytes_of [] i = 0
bytes_of (c ∷ cs) i = if i == 0 then c else bytes_of cs (i - 1)

unfoldable pub match_lfn : (ℕ → ℕ) → List ℕ → ℕ → Bool
unfolding from_lfn same_bytes bytes_of
match_lfn name path size =
    let n : ℕ = if ltb 128 (length path) then 128 else length path in
    same_bytes n (from_lfn (λ i. 0) name size) (bytes_of path)

-- One round of the two checksums
unfoldable pub rotate_add : ℕ → ℕ → ℕ
rotate_add sum c = (sum % 2 * 128 + sum / 2 + c) % 256

-- `lfn_checksum`: the pointer moves while `i` counts down.
unfoldable pub lfn_loop : ℕ → (ℕ → ℕ) → ℕ → ℕ → ℕ
unfolding rotate_add
lfn_loop zero name p sum = sum
lfn_loop (suc i) name p sum = lfn_loop i name (p + 1) (rotate_add sum (name p))

unfoldable pub lfn_checksum : (ℕ → ℕ) → ℕ
unfolding lfn_loop
lfn_checksum name = lfn_loop 11 name 0 0

-- The loop of `get_check_sum` from `i` on, with the rounds that are left
unfoldable pub check_sum_loop : ℕ → (ℕ → ℕ) → ℕ → ℕ → ℕ
unfolding rotate_add
check_sum_loop zero short_name i check_sum = check_sum
check_sum_loop (suc n) short_name i check_sum =
    check_sum_loop n short_name (i + 1) (rotate_add check_sum (short_name i))

unfoldable pub get_check_sum : (ℕ → ℕ) → ℕ
unfolding check_sum_loop
get_check_sum short_name = check_sum_loop 11 short_name 0 0

-- `unicode` behind the call
unfoldable pub ascii2unicode : (ℕ → ℕ) → (ℕ → ℕ) → ℕ → ℕ → ℕ
ascii2unicode ascii unicode size i =
    if ltb i (size * 2) then (if i % 2 == 0 then ascii (i / 2) else 0) else unicode i
