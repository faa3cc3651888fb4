-- ===== src/Strings/Digits.antt =====
-- The digits of a number: written, turned around, copied and read again.
use clean_os.Base.{
  ℕ, zero, suc, ◌+◌, ◌*◌, ◌/◌, ◌%◌, ◌^◌, ◌≤◌, ◌<◌, ◌≡◌, ◌⊎◌, refl, ap, subst, ◌∙◌, some, List, [],
  ◌∷◌, ◌==◌, if◌then◌else◌, arith, length, Bool-cases, inl, inr,
}
use clean_os.Base.Ring.{put_at}
use clean_os.Strings.Number.{write_digits}

-- The decimal digits, the lowest first.
abbrev pub digits : ℕ → ℕ → List ℕ
digits zero n = []
digits (suc r) n = if n == 0 then [] else (n % 10) ∷ digits r (n / 10)

-- Their sum with the weights `w`, `10 * w` and so on.
abbrev pub weigh : ℕ → List ℕ → ℕ
weigh w [] = 0
weigh w (d ∷ ds) = d * w + weigh (10 * w) ds

abbrev pub ten : ℕ → ℕ
ten zero = 1
ten (suc j) = 10 * ten j

-- The bytes from `p` on are these digits, as characters.
abbrev pub Written : (ℕ → ℕ) → ℕ → List ℕ → Type 0
Written m p [] = Unit
Written m p (d ∷ ds) = (m p ≡ d + 48) × Written m (p + 1) ds

-- The bytes before `p` are these digits, the first one last.
abbrev pub Backwards : (ℕ → ℕ) → ℕ → List ℕ → Type 0
Backwards m p [] = Unit
Backwards m p (d ∷ ds) = (m (p + length ds) ≡ d + 48) × Backwards m p ds

wider :
    (a buf i n : ℕ)
    → (a < buf + i) ⊎ (buf + i + suc n ≤ a)
    → (a < buf + (i + 1)) ⊎ (buf + (i + 1) + n ≤ a)
wider a buf i n (inl h) = inl (omega arith)
wider a buf i n (inr h) = inr (omega arith)

put_outside : (m : ℕ → ℕ) (a b v n : ℕ) → (a < b) ⊎ (b + suc n ≤ a) → put_at m b v a ≡ m a
unfolding put_at
put_outside m a b v n (inl h) = ground arith
put_outside m a b v n (inr h) = ground arith

pub write_digits_lem :
    (r rounds : ℕ) (m : ℕ → ℕ) (buf i n : ℕ)
    → r < rounds
    → n < 2 ^ 31
    → n < ten r
    → (m' : ℕ → ℕ) × (write_digits rounds m buf i n ≡ some (i + length (digits r n), m'))
      × Written m' (buf + i) (digits r n)
      × ((a : ℕ) → (a < buf + i) ⊎ (buf + i + length (digits r n) ≤ a) → m' a ≡ m a)
unfolding write_digits put_at
write_digits_lem r zero m buf i n enough word small = absurd (omega arith)
write_digits_lem zero (suc rounds) m buf i n enough word small =
    (m, ground (arith, small), tt, λ a h. refl)
write_digits_lem (suc r) (suc rounds) m buf i n enough word small = elim (Bool-cases (n == 0)) [
  | inl done ↦ rw done (m, ground (arith, done), tt, λ a h. refl)
  | inr more ↦
      let first = put_at m (buf + i) (n % 10 + 48) in
      let (m', e, w, same) =
        write_digits_lem r rounds first buf (i + 1) (n / 10) (omega arith) (omega arith)
          (omega arith) in
      let count : i + 1 + length (digits r (n / 10)) ≡ i + suc (length (digits r (n / 10))) =
        omega arith in
      rw more (
        m',
        ground (arith, more, e, count),
        (
          same (buf + i) (inl (omega arith)) ∙ ground arith,
          subst (λ p. Written m' p (digits r (n / 10))) (omega arith) w,
        ),
        λ a h.
            same a (wider a buf i (length (digits r (n / 10))) h)
            ∙ put_outside m a (buf + i) (n % 10 + 48) (length (digits r (n / 10))) h,
      )
]

pub length-digits : (r n : ℕ) → length (digits r n) ≤ r
length-digits zero n = omega arith
length-digits (suc r) n = elim (Bool-cases (n == 0)) [
  | inl done ↦ rw done (omega arith)
  | inr more ↦ rw more (omega (arith, length-digits r (n / 10)))
]

weighted : (q r w : ℕ) → r * w + q * (10 * w) ≡ (10 * q + r) * w
weighted q r w = omega arith

zero_weight : (n w : ℕ) → n ≡ 0 → 0 ≡ n * w
zero_weight n w e = omega (arith, ap (λ k. k * w) e)

-- What a number is made of.
split_ten : (n w : ℕ) → (n % 10) * w + (n / 10) * (10 * w) ≡ n * w
split_ten n w = weighted (n / 10) (n % 10) w ∙ ap (λ k. k * w) (omega arith)

pub weigh-digits : (r n w : ℕ) → n < ten r → weigh w (digits r n) ≡ n * w
weigh-digits zero n w small = zero_weight n w (omega arith)
weigh-digits (suc r) n w small = elim (Bool-cases (n == 0)) [
  | inl done ↦ rw done (zero_weight n w (ground (arith, done)))
  | inr more ↦
      rw more (omega (arith, weigh-digits r (n / 10) (10 * w) (omega arith)) ∙ split_ten n w)
]
