-- ===== src/Strings/Edit.antt =====
-- common/lib/string.c: functions that overwrite bytes of a string. Each round measures the string again,
-- so that a byte overwritten by zero ends the loop.
use clean_os.Base.{ℕ, zero, suc, ◌+◌, Option, none, some, ltb, ◌==◌, if◌then◌else◌}
use clean_os.Base.Ring.{put_at}
use clean_os.Strings.{◌>>=◌, strlen}

-- The loop of `replace` from the byte `i` on
unfoldable pub replace_from : ℕ → ℕ → (ℕ → ℕ) → ℕ → ℕ → ℕ → ℕ → Option (ℕ × (ℕ → ℕ))
replace_from zero fuel m str new old i = none
replace_from (suc rounds) fuel m str new old i =
    let rest = replace_from rounds fuel m str new old (i + 1) in
    strlen fuel m str >>= λ n.
    if ltb i n
    then (if m (str + i) == old then some (1, put_at m (str + i) new) else rest)
    else some (0, m)

unfoldable pub replace : ℕ → (ℕ → ℕ) → ℕ → ℕ → ℕ → Option (ℕ × (ℕ → ℕ))
replace fuel m str new old = replace_from fuel fuel m str new old 0

-- The loop of `replace_all` with the number of bytes replaced
unfoldable pub replace_all_from : ℕ → ℕ → (ℕ → ℕ) → ℕ → ℕ → ℕ → ℕ → ℕ → Option (ℕ × (ℕ → ℕ))
replace_all_from zero fuel m str new old i count = none
replace_all_from (suc rounds) fuel m str new old i count =
    let hit = m (str + i) == old in
    let m' = if hit then put_at m (str + i) new else m in
    let rest =
      replace_all_from rounds fuel m' str new old (i + 1) (if hit then count + 1 else count) in
    strlen fuel m str >>= λ n. if ltb i n then rest else some (count, m)

unfoldable pub replace_all : ℕ → (ℕ → ℕ) → ℕ → ℕ → ℕ → Option (ℕ × (ℕ → ℕ))
replace_all fuel m str new old = replace_all_from fuel fuel m str new old 0 0

unfoldable pub trim : ℕ → (ℕ → ℕ) → ℕ → Option (ℕ × (ℕ → ℕ))
trim fuel m str = replace_all fuel m str 0 32

-- The loop of `trim_left`
unfoldable pub trim_left_from : ℕ → ℕ → (ℕ → ℕ) → ℕ → ℕ → Option (ℕ → ℕ)
trim_left_from zero fuel m str i = none
trim_left_from (suc rounds) fuel m str i =
    let rest = trim_left_from rounds fuel (put_at m (str + i) 0) str (i + 1) in
    strlen fuel m str >>= λ n.
    if ltb i n then (if m (str + i) == 32 then rest else some m) else some m

-- Its result does not count.
unfoldable pub trim_left : ℕ → (ℕ → ℕ) → ℕ → Option (ℕ × (ℕ → ℕ))
trim_left fuel m str = trim_left_from fuel fuel m str 0 >>= λ m'. some (0, m')

-- The loop of `trim_right` over the `n` first bytes, from the last one
unfoldable pub trim_right_from : ℕ → (ℕ → ℕ) → ℕ → ℕ → ℕ
trim_right_from zero m str = m
trim_right_from (suc i) m str =
    let rest = trim_right_from i (put_at m (str + i) 0) str in if m (str + i) == 32 then rest else m

unfoldable pub trim_right : ℕ → (ℕ → ℕ) → ℕ → Option (ℕ × (ℕ → ℕ))
trim_right fuel m str = strlen fuel m str >>= λ n. some (0, trim_right_from n m str)
