-- ===== src/Strings/Text.antt =====
-- The string that stands at an address, and what the searches find in it.
use clean_os.Base.{
  ℕ, zero, suc, ◌+◌, ◌<◌, ◌≡◌, refl, ap, Bool, true, false, some, List, [], ◌∷◌, ◌==◌,
  if◌then◌else◌, arith, length, Bool-cases, inl, inr,
}
use clean_os.Strings.{strlen, strchr}

-- The bytes of the string at `p`, which a zero byte ends.
abbrev pub IsText : (ℕ → ℕ) → ℕ → List ℕ → Type 0
IsText m p [] = m p ≡ 0
IsText m p (c ∷ s) = (m p ≡ c) × (0 < c) × IsText m (p + 1) s

pub strlen-IsText :
    (s : List ℕ) (fuel : ℕ) (m : ℕ → ℕ) (p : ℕ)
    → IsText m p s
    → length s < fuel
    → strlen fuel m p ≡ some (length s)
unfolding strlen
strlen-IsText s zero m p t enough = absurd (omega arith)
strlen-IsText [] (suc fuel) m p t enough = rw t refl
strlen-IsText (c ∷ s) (suc fuel) m p (e, nonzero, t) enough =
    let ih = strlen-IsText s fuel m (p + 1) t (omega arith) in
    let more : (m p == 0) ≡ false = ground (arith, e, nonzero) in
    rw (more, ih) (ap some (omega arith))

-- Whether a byte is one of a list.
abbrev pub member : ℕ → List ℕ → Bool
member c [] = false
member c (d ∷ s) = if d == c then true else member c s

-- `strchr` finds a place exactly if the byte is in the string.
pub strchr-IsText :
    (s : List ℕ) (fuel : ℕ) (m : ℕ → ℕ) (p c : ℕ)
    → IsText m p s
    → length s < fuel
    → 0 < p
    → (q : ℕ) × (strchr fuel m p c ≡ some q) × ((q == 0) ≡ (if member c s then false else true))
unfolding strchr
strchr-IsText s zero m p c t enough place = absurd (omega arith)
strchr-IsText [] (suc fuel) m p c t enough place = (0, rw t refl, refl)
strchr-IsText (d ∷ s) (suc fuel) m p c (e, nonzero, t) enough place =
    let (q, ih, found) = strchr-IsText s fuel m (p + 1) c t (omega arith) (omega arith) in
    let more : (m p == 0) ≡ false = ground (arith, e, nonzero) in
    elim (Bool-cases (d == c)) [
      | inl here ↦ (p, rw (more, e, here) refl, ground (arith, here, place))
      | inr other ↦ (q, rw (more, e, other) ih, rw other found)
    ]
