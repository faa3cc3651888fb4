-- ===== src/Pktbuf/Sum/Weigh.antt =====
-- checksum16 against a sum of bytes by their position, modulo 2 ^ 16 - 1.
use clean_os.Base.{
  ℕ, zero, suc, ◌+◌, ◌-◌, ◌*◌, ◌%◌, ◌^◌, ◌≤◌, ◌<◌, ◌≡◌, ap, ◌∙◌, true, false, ◌==◌, if◌then◌else◌,
  arith, Bool-cases, inl, inr,
}
use clean_os.Bitmap.{u32}
use clean_os.Pktbuf.Sum.{sum_words, fold, finish, checksum16}

-- The sum of the `n` bytes from `off` on, those at odd offsets in the packet times 256.
abbrev pub weigh : ℕ → (ℕ → ℕ) → ℕ → ℕ → ℕ
weigh offset buf off zero = 0
weigh offset buf off (suc n) =
    (if offset % 2 == 1 then buf off * 256 else buf off) + weigh (offset + 1) buf (off + 1) n

-- The memory holds bytes.
abbrev pub Bytes : (ℕ → ℕ) → Type 0
Bytes buf = (i : ℕ) → buf i < 256

sum_words-weigh :
    (n : ℕ) (offset : ℕ) (buf : ℕ → ℕ) (off s : ℕ)
    → Bytes buf
    → offset % 2 ≡ 0
    → s + n * 2 ^ 16 < 2 ^ 32
    → (sum_words n buf off s ≡ s + weigh offset buf off n) × (weigh offset buf off n ≤ n * 2 ^ 16)
unfolding sum_words
sum_words-weigh zero offset buf off s b e h = (omega arith, omega arith)
sum_words-weigh (suc zero) offset buf off s b e h =
    let odd : (offset % 2 == 1) ≡ false = ground arith in
    rw odd (omega (arith, b off), omega (arith, b off))
sum_words-weigh (suc (suc n)) offset buf off s b e h =
    let w = buf off + 256 * buf (off + 1) in
    let even : (offset % 2 == 1) ≡ false = ground arith in
    let odd : ((offset + 1) % 2 == 1) ≡ true = ground arith in
    let exact : u32 (s + w) ≡ s + w = omega (arith, b off, b (off + 1)) in
    let (sum, bound) =
      sum_words-weigh n (offset + 2) buf (off + 2) (s + w) b (omega arith)
        (omega (arith, b off, b (off + 1))) in
    let o₁ : offset + 1 + 1 ≡ offset + 2 = omega arith in
    let o₂ : off + 1 + 1 ≡ off + 2 = omega arith in
    rw (even, odd, o₁, o₂, exact) (omega (arith, sum), omega (arith, bound, b off, b (off + 1)))

-- Folding gives a number of 16 bits with the same remainder.
fold_lem : (s : ℕ) → s < 2 ^ 32 → (fold 2 s < 2 ^ 16) × (fold 2 s % 65535 ≡ s % 65535)
unfolding fold
fold_lem s h = ground arith

-- A checksum and a sum agree modulo 2 ^ 16 - 1, and the checksum has 16 bits.
abbrev pub Agrees : ℕ → ℕ → Type 0
Agrees checksum sum = (checksum < 2 ^ 16) × (checksum % 65535 ≡ sum % 65535)

finish_lem : (s t : ℕ) → s < 2 ^ 32 → s ≡ t → Agrees (finish false (fold 2 s)) t
unfolding finish
finish_lem s t h e =
    let (small, same) = fold_lem s h in
    let exact : fold 2 s % 2 ^ 16 ≡ fold 2 s = omega arith in
    rw exact (small, same ∙ ap (λ n. n % 65535) e)

-- `checksum16` without complement is a 16-bit number that agrees, modulo 2 ^ 16 - 1, with the initial
-- sum plus the bytes, where a byte at an odd offset in the packet counts 256 times. There are fewer
-- than 2 ^ 16 bytes, at least one where the start is odd, and the initial sum plus 2 ^ 16 times one
-- more than their number is below 2 ^ 32.
pub checksum16-weigh :
    (offset : ℕ) (buf : ℕ → ℕ) (off len pre_sum : ℕ)
    → Bytes buf
    → (offset % 2 ≡ 1 → 0 < len)
    → len < 2 ^ 16
    → pre_sum + (len + 1) * 2 ^ 16 < 2 ^ 32
    → Agrees (checksum16 offset buf off len pre_sum false) (pre_sum + weigh offset buf off len)
unfolding checksum16
checksum16-weigh offset buf off len pre_sum b some_byte short h =
    elim (Bool-cases (offset % 2 == 1)) [
      | inl odd ↦ odd_start len odd (some_byte (ground arith)) short h
      | inr even ↦
          let (sum, bound) =
            sum_words-weigh len offset buf off pre_sum b (ground arith) (omega arith) in
          rw (checksum16, even) (finish_lem _ _ (omega arith) sum)
    ]
  where
    odd_start :
        (n : ℕ)
        → (offset % 2 == 1) ≡ true
        → 0 < n
        → n < 2 ^ 16
        → pre_sum + (n + 1) * 2 ^ 16 < 2 ^ 32
        → Agrees (checksum16 offset buf off n pre_sum false) (pre_sum + weigh offset buf off n)
    odd_start zero odd pos lt k = absurd (omega arith)
    odd_start (suc n) odd pos lt k =
        let rest : (suc n + 2 ^ 16 - 1) % 2 ^ 16 ≡ n = omega arith in
        let exact : u32 (pre_sum + buf off * 256) ≡ pre_sum + buf off * 256 =
          omega (arith, b off) in
        let (sum, bound) =
          sum_words-weigh n (offset + 1) buf (off + 1) (pre_sum + buf off * 256) b (ground arith)
            (omega (arith, b off)) in
        rw (checksum16, odd, rest, exact) (finish_lem _ _ (omega (arith, b off)) (omega arith))

weigh-add :
    (m n offset : ℕ) (buf : ℕ → ℕ) (off : ℕ)
    → weigh offset buf off (m + n) ≡ weigh offset buf off m + weigh (offset + m) buf (off + m) n
weigh-add zero n offset buf off =
    let e₁ : offset + 0 ≡ offset = omega arith in
    let e₂ : off + 0 ≡ off = omega arith in
    let e₃ : 0 + n ≡ n = omega arith in rw (e₁, e₂, e₃) (omega arith)
weigh-add (suc m) n offset buf off =
    let e₁ : suc m + n ≡ suc (m + n) = omega arith in
    let e₂ : offset + suc m ≡ offset + 1 + m = omega arith in
    let e₃ : off + suc m ≡ off + 1 + m = omega arith in
    rw (e₁, e₂, e₃) (omega (arith, weigh-add m n (offset + 1) buf (off + 1)))

-- The checksum of `m + n` bytes agrees, modulo 2 ^ 16 - 1, with the checksum of the last `n` bytes
-- that starts with the checksum of the first `m`, wherever the pieces meet, at an odd offset as at an
-- even one; and it has 16 bits. Each piece has a byte, both together fewer than 2 ^ 15, and the initial
-- sum is below 2 ^ 30.
pub checksum16_pieces :
    (offset : ℕ) (buf : ℕ → ℕ) (off m n pre_sum : ℕ)
    → Bytes buf
    → 0 < m
    → 0 < n
    → m + n < 2 ^ 15
    → pre_sum < 2 ^ 30
    → let whole = checksum16 offset buf off (m + n) pre_sum false in
      let part = checksum16 offset buf off m pre_sum false in
      (checksum16 (offset + m) buf (off + m) n part false % 65535 ≡ whole % 65535)
      × (whole < 2 ^ 16)
checksum16_pieces offset buf off m n pre_sum b pos_m pos_n short small =
    let (w, whole) =
      checksum16-weigh offset buf off (m + n) pre_sum b (λ o. omega arith) (omega arith)
        (omega arith) in
    let (p, part) =
      checksum16-weigh offset buf off m pre_sum b (λ o. omega arith) (omega arith) (omega arith) in
    let (l, last) =
      checksum16-weigh (offset + m) buf (off + m) n (checksum16 offset buf off m pre_sum false) b
        (λ o. omega arith) (omega arith) (omega arith) in
    (omega (arith, weigh-add m n offset buf off), w)
