-- ===== src/Strings/Order.antt =====
-- strcmp: what it takes for equal.
use clean_os.Base.{
  ℕ, suc, ◌+◌, ◌<◌, ◌≡◌, ◌↔◌, ◌⊎◌, inl, inr, refl, sym, ap₂, some, List, [], ◌∷◌, ◌++◌, ltb, ◌==◌,
  if◌then◌else◌, arith, length, Bool-cases,
}
use clean_os.Strings.{memcmp, strcmp}
use clean_os.Strings.Text.{IsText, strlen-IsText}

abbrev pub IsPrefix : List ℕ → List ℕ → Type 0
IsPrefix s t = (r : List ℕ) × (t ≡ s ++ r)

-- The two agree as far as the shorter one goes.
abbrev Agree : List ℕ → List ℕ → Type 0
Agree s t = IsPrefix s t ⊎ IsPrefix t s

Agree-cons : (c d : ℕ) (s t : List ℕ) → c ≡ d → Agree s t → Agree (c ∷ s) (d ∷ t)
Agree-cons c d s t e (inl (r, p)) = inl (r, ap₂ (λ x l. x ∷ l) (sym e) p)
Agree-cons c d s t e (inr (r, p)) = inr (r, ap₂ (λ x l. x ∷ l) e p)

Agree-tail : (c d : ℕ) (s t : List ℕ) → Agree (c ∷ s) (d ∷ t) → (c ≡ d) × Agree s t
Agree-tail c d s t (inl (r, p)) = (cc, inl (r, cc))
Agree-tail c d s t (inr (r, p)) = (cc, inr (r, cc))

memcmp-Agree :
    (s t : List ℕ) (m : ℕ → ℕ) (a b : ℕ)
    → IsText m a s
    → IsText m b t
    → (memcmp (if ltb (length s) (length t) then length s else length t) m a b ≡ 0) ↔ Agree s t
unfolding memcmp
memcmp-Agree [] [] m a b x y = (λ e. inl ([], refl), λ h. refl)
memcmp-Agree [] (d ∷ t) m a b x y = (λ e. inl (d ∷ t, refl), λ h. ground arith)
memcmp-Agree (c ∷ s) [] m a b x y = (λ e. inr (c ∷ s, refl), λ h. ground arith)
memcmp-Agree (c ∷ s) (d ∷ t) m a b (x, _, xs) (y, _, ys) =
    let (to, from) = memcmp-Agree s t m (a + 1) (b + 1) xs ys in
    let n : ℕ = if ltb (length s) (length t) then length s else length t in
    let one_more : (if ltb (suc (length s)) (suc (length t))
          then suc (length s)
          else suc (length t))
        ≡ suc n =
      ground arith in
    rw one_more (elim (Bool-cases (m a == m b)) [
      | inl same ↦ rw same (
        (λ e. Agree-cons c d s t (ground (arith, x, y, same)) (to e)),
        λ h. from (Agree-tail c d s t h).1,
      )
      | inr other ↦ rw other (
        (λ e. absurd (ground (arith, e))),
        λ h. absurd (ground (arith, x, y, other, (Agree-tail c d s t h).0)),
      )
    ])

-- `strcmp` returns 0 exactly where one of the two strings begins with the other, so that strings of
-- different lengths can count as equal. Its loops come to the end of both strings.
pub strcmp-prefix :
    (fuel : ℕ) (m : ℕ → ℕ) (a b : ℕ) (s t : List ℕ)
    → IsText m a s
    → IsText m b t
    → length s < fuel
    → length t < fuel
    → (r : ℕ) × (strcmp fuel m a b ≡ some r) × ((r ≡ 0) ↔ (IsPrefix s t ⊎ IsPrefix t s))
unfolding strcmp
strcmp-prefix fuel m a b s t x y enough enough' = (
  _,
  rw (strlen-IsText s fuel m a x enough, strlen-IsText t fuel m b y enough') refl,
  memcmp-Agree s t m a b x y,
)
