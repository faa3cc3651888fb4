-- ===== src/Strings/RoundTrip.antt =====
-- str2num reads back what num2str writes.
use clean_os.Base.{
  ℕ, suc, ◌+◌, ◌-◌, ◌^◌, ◌≤◌, ◌<◌, ◌≡◌, ◌≢◌, ◌⊎◌, refl, ap, ◌∙◌, true, false, some, ltb, leb, ◌==◌,
  arith, length, Bool-cases, ==_iff, inl, inr,
}
use clean_os.Base.Ring.{put_at}
use clean_os.Bitmap.{u32}
use clean_os.Strings.{memcpy, strreverse}
use clean_os.Strings.Number.{str2num, num2str}
use clean_os.Strings.Digits.{digits, ten, length-digits}
use clean_os.Strings.Convert.{
  print_lem, Backwards-bytes, strlen_count, read_numeral, length-positive,
}

-- The arrays do not overlap, and the one for the string is cleared.
pub record Room (m : ℕ → ℕ) (str buf : ℕ) : Type 0 where
  pub apart : (buf + 64 ≤ str) ⊎ (str + 13 ≤ buf)
  pub clear : (a : ℕ) → str ≤ a → a < str + 12 → m a ≡ 0

outside :
    (str buf : ℕ)
    → (buf + 64 ≤ str) ⊎ (str + 13 ≤ buf)
    → (a : ℕ) → str ≤ a
    → a < str + 12
    → (a < buf) ⊎ (buf + 64 ≤ a)
outside str buf (inl h) a l u = inr (omega arith)
outside str buf (inr h) a l u = inl (omega arith)

behind :
    (str buf : ℕ)
    → (buf + 64 ≤ str) ⊎ (str + 13 ≤ buf)
    → (buf + 64 ≤ str + 1) ⊎ (str + 1 + 12 ≤ buf)
behind str buf (inl h) = inl (omega arith)
behind str buf (inr h) = inr (omega arith)

near : (str buf : ℕ) → (buf + 64 ≤ str) ⊎ (str + 13 ≤ buf) → (buf + 64 ≤ str) ⊎ (str + 12 ≤ buf)
near str buf (inl h) = inl h
near str buf (inr h) = inr (omega arith)

-- A number without a sign
positive :
    (fuel : ℕ) (m : ℕ → ℕ) (str buf num r : ℕ)
    → Room m str buf
    → 0 < num
    → num < 2 ^ 31
    → num < ten r
    → r ≤ 10
    → 12 < fuel
    → (m' : ℕ → ℕ) × (num2str num m str buf ≡ some m') × (str2num fuel m' str ≡ some (some num))
unfolding num2str str2num
positive fuel m str buf num r room pos word small few enough =
    let (m2, e, printed) = print_lem m str buf num r word small few (near str buf room.apart) in
    let n : ℕ = length (digits r num) in
    let m' = memcpy n (strreverse m2 buf n) str buf in
    let unsigned : leb (2 ^ 31) num ≡ false = ground arith in
    let short = length-digits r num in
    let some_digits = length-positive r num pos small in
    let bytes = Backwards-bytes m' str (digits r num) printed.numeral in
    let stop : m' (str + n) ≡ 0 =
      printed.same (str + n) (inr (omega arith))
        (outside str buf room.apart (str + n) (omega arith) (omega (arith, short, few)))
      ∙ room.clear (str + n) (omega arith) (omega (arith, short, few)) in
    let size =
      strlen_count n fuel m' str (λ a l h. omega (arith, bytes a l h)) stop
        (omega (arith, short, few)) in
    let nonempty : ltb n 1 ≡ false = ground (arith, some_digits) in
    let no_sign : (m' str == 45) ≡ false =
      ground (arith, bytes str (omega arith) (omega (arith, some_digits))) in
    (
      m',
      rw (unsigned, e) refl,
      rw (size, nonempty, no_sign)
          (ap some (read_numeral r num m' str printed.numeral word small few)),
    )

-- A number with a sign, other than the least one
negative :
    (fuel : ℕ) (m : ℕ → ℕ) (str buf num r : ℕ)
    → Room m str buf
    → 2 ^ 31 < num
    → num < 2 ^ 32
    → 2 ^ 32 - num < ten r
    → r ≤ 10
    → 12 < fuel
    → (m' : ℕ → ℕ) × (num2str num m str buf ≡ some m') × (str2num fuel m' str ≡ some (some num))
unfolding num2str str2num put_at
negative fuel m str buf num r room pos word small few enough =
    let w : ℕ = 2 ^ 32 - num in
    let m1 = put_at m str 45 in
    let (m2, e, printed) =
      print_lem m1 (str + 1) buf w r (omega (arith, pos)) small few (behind str buf room.apart) in
    let n : ℕ = length (digits r w) in
    let m' = memcpy n (strreverse m2 buf n) (str + 1) buf in
    let signed : leb (2 ^ 31) num ≡ true = ground arith in
    let magnitude : u32 (2 ^ 32 - num) ≡ w = omega (arith, pos) in
    let short = length-digits r w in
    let some_digits = length-positive r w (omega (arith, word)) small in
    let bytes = Backwards-bytes m' (str + 1) (digits r w) printed.numeral in
    let out = outside str buf room.apart in
    let sign : m' str ≡ 45 =
      printed.same str (inl (omega arith)) (out str (omega arith) (omega arith)) ∙ ground arith in
    let stop : m' (str + suc n) ≡ 0 =
      printed.same (str + suc n) (inr (omega arith))
        (out (str + suc n) (omega arith) (omega (arith, short, few)))
      ∙ ground (arith, room.clear (str + suc n) (omega arith) (omega (arith, short, few))) in
    let size =
      strlen_count (suc n) fuel m' str (λ a l h. inner m' n sign bytes a l h) stop
        (omega (arith, short, few)) in
    let nonempty : ltb (suc n) 1 ≡ false = ground arith in
    let is_sign : (m' str == 45) ≡ true = ground (arith, sign) in
    let less : suc n - 1 ≡ n = omega arith in
    let back : u32 (2 ^ 32 - w) ≡ num = omega (arith, pos, word) in
    (
      m',
      rw (signed, magnitude, e) refl,
      rw
          (
            size,
            nonempty,
            is_sign,
            less,
            read_numeral r w m' (str + 1) printed.numeral (omega (arith, pos)) small few,
          )
          (ap (λ k. some (some k)) back),
    )
  where
    inner :
        (m' : ℕ → ℕ) (n : ℕ)
        → m' str ≡ 45
        → ((a : ℕ) → str + 1 ≤ a → a < str + 1 + n → 48 ≤ m' a)
        → (a : ℕ) → str ≤ a
        → a < str + suc n
        → 0 < m' a
    inner m' n sign bytes a l h = elim (Bool-cases (a == str)) [
      | inl first ↦ omega (arith, ap m' ((==_iff a str).0 first), sign)
      | inr other ↦
          let digit : 48 ≤ m' a = bytes a (ground (arith, other, l)) (omega arith) in
          omega (arith, digit)
    ]

-- A number that is neither 0 nor the least `int`, written by `num2str` to twelve bytes that are zero
-- and do not overlap the 64 bytes of its own array, is read back by `str2num` as the same number.
pub str2num-num2str :
    (fuel : ℕ) (m : ℕ → ℕ) (str buf num : ℕ)
    → Room m str buf
    → num < 2 ^ 32
    → num ≢ 0
    → num ≢ 2 ^ 31
    → 12 < fuel
    → (m' : ℕ → ℕ) × (num2str num m str buf ≡ some m') × (str2num fuel m' str ≡ some (some num))
str2num-num2str fuel m str buf num room word not_zero not_least enough =
    elim (Bool-cases (ltb num (2 ^ 31))) [
      | inl unsigned ↦
          positive fuel m str buf num 10 room (omega arith) (ground (arith, unsigned))
            (ground (arith, unsigned)) (omega arith) enough
      | inr signed ↦
          negative fuel m str buf num 10 room (ground (arith, signed)) word (ground (arith, signed))
            (omega arith) enough
    ]
