-- ===== src/Strings/Convert.antt =====
-- num2str and str2num: what one writes the other reads.
use clean_os.Base.{
  ℕ, zero, suc, ◌+◌, ◌-◌, ◌*◌, ◌/◌, ◌^◌, ◌≤◌, ◌<◌, ◌≡◌, ◌⊎◌, refl, sym, ap, ap₂, subst, ◌∙◌, false,
  some, List, [], ◌∷◌, ltb, ◌==◌, ◌||◌, arith, length, Bool-cases, ==_iff, inl, inr, All,
}
use clean_os.Bitmap.{u32}
use clean_os.Strings.{strlen, memcpy, strreverse}
use clean_os.Strings.Number.{pow_loop, pow, read_digits, write_digits}
use clean_os.Strings.Digits.{
  digits, weigh, ten, Written, Backwards, write_digits_lem, length-digits, weigh-digits,
}
use clean_os.Strings.Moves.{memcpy_lem, strreverse_lem}

pow-ten : (j : ℕ) → j < 10 → pow 10 j ≡ ten j
unfolding pow pow_loop
pow-ten zero h = refl
pow-ten (suc zero) h = refl
pow-ten (suc (suc zero)) h = refl
pow-ten (suc (suc (suc zero))) h = refl
pow-ten (suc (suc (suc (suc zero)))) h = refl
pow-ten (suc (suc (suc (suc (suc zero))))) h = refl
pow-ten (suc (suc (suc (suc (suc (suc zero)))))) h = refl
pow-ten (suc (suc (suc (suc (suc (suc (suc zero))))))) h = refl
pow-ten (suc (suc (suc (suc (suc (suc (suc (suc zero)))))))) h = refl
pow-ten (suc (suc (suc (suc (suc (suc (suc (suc (suc zero))))))))) h = refl
pow-ten (suc (suc (suc (suc (suc (suc (suc (suc (suc (suc j)))))))))) h = absurd (omega arith)

abbrev Small : List ℕ → Type 0
Small ds = All (λ d. d < 10) ds

Small-digits : (r n : ℕ) → Small (digits r n)
Small-digits zero n = tt
Small-digits (suc r) n = elim (Bool-cases (n == 0)) [
  | inl done ↦ rw done tt
  | inr more ↦ rw more (omega arith, Small-digits r (n / 10))
]

read_digits_lem :
    (ds : List ℕ) (m : ℕ → ℕ) (str j ret : ℕ)
    → Backwards m str ds
    → Small ds
    → j + length ds ≤ 10
    → ret + weigh (ten j) ds < 2 ^ 32
    → read_digits (length ds) m str j ret ≡ some (ret + weigh (ten j) ds)
unfolding read_digits
read_digits_lem [] m str j ret b small few word = ap some (omega arith)
read_digits_lem (d ∷ ds) m str j ret (e, b) (digit, small) few word =
    let weight = pow-ten j (omega arith) in
    let next : ten (j + 1) ≡ 10 * ten j = ap ten {x = j + 1} {y = suc j} (omega arith) in
    let total : ret + d * ten j + weigh (ten (j + 1)) ds
        ≡ ret + (d * ten j + weigh (10 * ten j) ds) =
      omega (arith, ap (λ w. weigh w ds) next) in
    let value : m (str + length ds) - 48 ≡ d = omega (arith, e) in
    let fits : u32 (ret + d * ten j) ≡ ret + d * ten j = omega (arith, word) in
    let sum : u32 (ret + (m (str + length ds) - 48) * pow 10 j) ≡ ret + d * ten j =
      ap₂ (λ a w. u32 (ret + a * w)) value weight ∙ fits in
    let is_digit : (ltb (m (str + length ds)) 48 || ltb 57 (m (str + length ds))) ≡ false =
      ground (arith, e, digit) in
    let ih =
      read_digits_lem ds m str (j + 1) (ret + d * ten j) b small (omega arith)
        (omega (arith, total, word)) in
    rw (is_digit, sum, ih) (ap some total)

-- What `num2str` leaves of a number whose digits are `ds` at `str`.
pub record Printed (m m' : ℕ → ℕ) (str buf : ℕ) (ds : List ℕ) : Type 0 where
  pub numeral : Backwards m' str ds
  pub same : (a : ℕ) → (a < str) ⊎ (str + length ds ≤ a) → (a < buf) ⊎ (buf + 64 ≤ a) → m' a ≡ m a

-- The digits that stand in `buf` from its place `o` on, turned around and copied to `str`.
turned :
    (m m' : ℕ → ℕ) (str buf k o : ℕ) (ds : List ℕ)
    → ((a : ℕ) → str ≤ a → a < str + k → m' a ≡ m (buf + (k - 1 - (a - str))))
    → o + length ds ≡ k
    → Written m (buf + o) ds
    → Backwards m' str ds
turned m m' str buf k o [] move size w = tt
turned m m' str buf k o (d ∷ ds) move size (e, w) = (
  move (str + length ds) (omega arith) (omega (arith, size)) ∙ ap m (omega (arith, size)) ∙ e,
  turned m m' str buf k (o + 1) ds move (omega (arith, size))
      (subst (λ p. Written m p ds) (omega arith) w),
)

copied :
    (m m2 : ℕ → ℕ) (str buf k : ℕ) (ds : List ℕ)
    → k ≡ length ds
    → k ≤ 10
    → Written m2 buf ds
    → ((a : ℕ) → (a < buf) ⊎ (buf + k ≤ a) → m2 a ≡ m a)
    → (buf + 64 ≤ str) ⊎ (str + 12 ≤ buf)
    → Printed m (memcpy k (strreverse m2 buf k) str buf) str buf ds
copied m m2 str buf k ds size few w same apart =
    let apart' = closer apart in
    record {
      numeral =
          turned m2 (memcpy k (strreverse m2 buf k) str buf) str buf k 0 ds
            (λ a l h.
              let back = strreverse_lem m2 buf k (buf + (a - str)) in
              let last : m2 (buf + (k - 1 - (buf + (a - str) - buf)))
                  ≡ m2 (buf + (k - 1 - (a - str))) =
                ap m2 (omega arith) in
              ground (arith, memcpy_lem k (strreverse m2 buf k) str buf a, apart', back, last))
            (omega (arith, size)) (subst (λ p. Written m2 p ds) (omega arith) w);
      same = λ a out out'.
          let there = same a (beside a out') in
          ground (
            arith,
            memcpy_lem k (strreverse m2 buf k) str buf a,
            apart',
            strreverse_lem m2 buf k a,
            there,
            out,
            out',
            size,
          );
    }
  where
    closer : (buf + 64 ≤ str) ⊎ (str + 12 ≤ buf) → (buf + k ≤ str) ⊎ (str + k ≤ buf)
    closer (inl h) = inl (omega arith)
    closer (inr h) = inr (omega arith)

    beside : (a : ℕ) → (a < buf) ⊎ (buf + 64 ≤ a) → (a < buf) ⊎ (buf + k ≤ a)
    beside a (inl h) = inl h
    beside a (inr h) = inr (omega arith)

-- The part of `num2str` behind the sign
pub print_lem :
    (m : ℕ → ℕ) (str buf n r : ℕ)
    → n < 2 ^ 31
    → n < ten r
    → r ≤ 10
    → (buf + 64 ≤ str) ⊎ (str + 12 ≤ buf)
    → (m2 : ℕ → ℕ) × (write_digits 64 m buf 0 n ≡ some (length (digits r n), m2))
      × Printed m
          (memcpy (length (digits r n)) (strreverse m2 buf (length (digits r n))) str buf)
          str
          buf
          (digits r n)
print_lem m str buf n r word small few apart =
    let (m2, e, w, same) = write_digits_lem r 64 m buf 0 n (omega arith) word small in
    let zero_more : buf + 0 ≡ buf = omega arith in
    (
      m2,
      e ∙ ap (λ c. some (c, m2)) (omega arith),
      copied m m2 str buf (length (digits r n)) (digits r n) refl (omega (arith, length-digits r n))
          (subst (λ p. Written m2 p (digits r n)) zero_more w)
          (λ a h. same a (subst (λ p. (a < p) ⊎ (p + length (digits r n) ≤ a)) (sym zero_more) h))
          apart,
    )

-- The digits of a numeral are not zero bytes, nor a sign.
pub Backwards-bytes :
    (m : ℕ → ℕ) (p : ℕ) (ds : List ℕ)
    → Backwards m p ds
    → (a : ℕ) → p ≤ a
    → a < p + length ds
    → 48 ≤ m a
Backwards-bytes m p [] b a l h = absurd (omega arith)
Backwards-bytes m p (d ∷ ds) (e, b) a l h = elim (Bool-cases (a == p + length ds)) [
  | inl last ↦ omega (arith, ap m ((==_iff a (p + length ds)).0 last), e)
  | inr other ↦ Backwards-bytes m p ds b a l (ground (arith, other, h))
]

pub strlen_count :
    (k fuel : ℕ) (m : ℕ → ℕ) (p : ℕ)
    → ((a : ℕ) → p ≤ a → a < p + k → 0 < m a)
    → m (p + k) ≡ 0
    → k < fuel
    → strlen fuel m p ≡ some k
unfolding strlen
strlen_count k zero m p inner stop enough = absurd (omega arith)
strlen_count zero (suc fuel) m p inner stop enough =
    let here : m p ≡ 0 = ap m (omega arith) ∙ stop in rw here refl
strlen_count (suc k) (suc fuel) m p inner stop enough =
    let more : (m p == 0) ≡ false = ground (arith, inner p (omega arith) (omega arith)) in
    let ih =
      strlen_count k fuel m (p + 1) (λ a l h. inner a (omega arith) (omega arith))
        (ap m (omega arith) ∙ stop) (omega arith) in
    rw (more, ih) (ap some (omega arith))

-- A numeral is read as the number whose digits it has.
pub read_numeral :
    (r n : ℕ) (m : ℕ → ℕ) (str : ℕ)
    → Backwards m str (digits r n)
    → n < 2 ^ 31
    → n < ten r
    → r ≤ 10
    → read_digits (length (digits r n)) m str 0 0 ≡ some n
read_numeral r n m str b word small few =
    let value : weigh 1 (digits r n) ≡ n = weigh-digits r n 1 small ∙ omega arith in
    read_digits_lem (digits r n) m str 0 0 b (Small-digits r n) (omega (arith, length-digits r n))
      (omega (arith, value))
    ∙ ap some (omega (arith, value))

pub length-positive : (r n : ℕ) → 0 < n → n < ten r → 0 < length (digits r n)
length-positive zero n pos small = absurd (omega arith)
length-positive (suc r) n pos small =
    let more : (n == 0) ≡ false = ground arith in rw more (omega arith)
