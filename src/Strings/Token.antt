-- ===== src/Strings/Token.antt =====
-- common/lib/string.c: strspn, strcspn and strtok_r.
use clean_os.Base.{
  ℕ, zero, suc, ◌+◌, ◌<◌, ◌≡◌, refl, ap, Bool, true, false, not, Option, none, some, List, [], ◌∷◌,
  ◌++◌, ◌==◌, if◌then◌else◌, arith, length, Bool-cases, inl, inr,
}
use clean_os.Base.Ring.{put_at}
use clean_os.Strings.{◌>>=◌, strchr}
use clean_os.Strings.Text.{IsText, member, strchr-IsText}

-- The loop of `strspn` takes `rounds`, each search of `accept` takes `fuel`.
unfoldable pub strspn : ℕ → ℕ → (ℕ → ℕ) → ℕ → ℕ → Option ℕ
strspn zero fuel m p accept = none
strspn (suc rounds) fuel m p accept =
    let rest = strspn rounds fuel m (p + 1) accept in
    if m p == 0
    then some 0
    else strchr fuel m accept (m p) >>= λ q. if q == 0 then some 0 else (rest >>= λ n. some (n + 1))

unfoldable pub strcspn : ℕ → ℕ → (ℕ → ℕ) → ℕ → ℕ → Option ℕ
strcspn zero fuel m p reject = none
strcspn (suc rounds) fuel m p reject =
    let rest = strcspn rounds fuel m (p + 1) reject in
    if m p == 0
    then some 0
    else strchr fuel m reject (m p) >>= λ q. if q == 0 then (rest >>= λ n. some (n + 1)) else some 0

-- What a call of `strtok_r` leaves: its result, the memory and `*save_ptr`.
pub record Token : Type 0 where
  pub result : ℕ
  pub memory : ℕ → ℕ
  pub save : ℕ

-- `strtok_r` once `str` is the place where it goes on.
unfoldable pub token_at : ℕ → (ℕ → ℕ) → ℕ → ℕ → Option Token
token_at fuel m str delim =
    if m str == 0
    then some (record { result = 0; memory = m; save = str })
    else strspn fuel fuel m str delim >>= λ n.
        if m (str + n) == 0
        then some (record { result = 0; memory = m; save = str + n })
        else strcspn fuel fuel m (str + n) delim >>= λ k.
            if m (str + n + k) == 0
            then some (record { result = str + n; memory = m; save = str + n + k })
            else some (record {
              result = str + n;
              memory = put_at m (str + n + k) 0;
              save = str + n + k + 1;
            })

unfoldable pub strtok_r : ℕ → (ℕ → ℕ) → ℕ → ℕ → ℕ → Option Token
strtok_r fuel m str delim save = token_at fuel m (if str == 0 then save else str) delim

-- The bytes up to the first that fails the test, and the others.
abbrev pub span : (ℕ → Bool) → List ℕ → List ℕ × List ℕ
span f [] = ([], [])
span f (c ∷ s) = let (u, v) = span f s in if f c then (c ∷ u, v) else ([], c ∷ s)

pub strspn-IsText :
    (s : List ℕ) (rounds fuel : ℕ) (m : ℕ → ℕ) (p q : ℕ) (ds : List ℕ)
    → IsText m p s
    → IsText m q ds
    → length s < rounds
    → length ds < fuel
    → 0 < q
    → strspn rounds fuel m p q ≡ some (length (span (λ c. member c ds) s).0)
unfolding strspn
strspn-IsText s zero fuel m p q ds t d enough enough' place = absurd (omega arith)
strspn-IsText [] (suc rounds) fuel m p q ds t d enough enough' place = rw t refl
strspn-IsText (c ∷ s) (suc rounds) fuel m p q ds (e, nonzero, t) d enough enough' place =
    let ih = strspn-IsText s rounds fuel m (p + 1) q ds t d (omega arith) enough' place in
    let more : (c == 0) ≡ false = ground (arith, nonzero) in
    let (r, looks, found) = strchr-IsText ds fuel m q c d enough' place in
    elim (Bool-cases (member c ds)) [
      | inl is_in ↦ rw (e, more, looks, found, is_in, ih) (ap some (omega arith))
      | inr out ↦ rw (e, more, looks, found, out) refl
    ]

pub strcspn-IsText :
    (s : List ℕ) (rounds fuel : ℕ) (m : ℕ → ℕ) (p q : ℕ) (ds : List ℕ)
    → IsText m p s
    → IsText m q ds
    → length s < rounds
    → length ds < fuel
    → 0 < q
    → strcspn rounds fuel m p q ≡ some (length (span (λ c. not (member c ds)) s).0)
unfolding strcspn
strcspn-IsText s zero fuel m p q ds t d enough enough' place = absurd (omega arith)
strcspn-IsText [] (suc rounds) fuel m p q ds t d enough enough' place = rw t refl
strcspn-IsText (c ∷ s) (suc rounds) fuel m p q ds (e, nonzero, t) d enough enough' place =
    let ih = strcspn-IsText s rounds fuel m (p + 1) q ds t d (omega arith) enough' place in
    let more : (c == 0) ≡ false = ground (arith, nonzero) in
    let (r, looks, found) = strchr-IsText ds fuel m q c d enough' place in
    elim (Bool-cases (member c ds)) [
      | inl is_in ↦ rw (e, more, looks, found, is_in) refl
      | inr out ↦ rw (e, more, looks, found, out, ih) (ap some (omega arith))
    ]

-- The two parts of a string: the first part passes the test, the second fails at once.
abbrev pub Fails : (ℕ → Bool) → List ℕ → Type 0
Fails f [] = Unit
Fails f (c ∷ s) = f c ≡ false

abbrev pub Passes : (ℕ → Bool) → List ℕ → Type 0
Passes f [] = Unit
Passes f (c ∷ s) = (f c ≡ true) × Passes f s

pub span_lem :
    (f : ℕ → Bool) (s : List ℕ)
    → (s ≡ (span f s).0 ++ (span f s).1) × Passes f (span f s).0 × Fails f (span f s).1
span_lem f [] = (refl, tt, tt)
span_lem f (c ∷ s) =
    let (e, ps, fs) = span_lem f s in
    elim (Bool-cases (f c)) [
      | inl passes ↦ rw passes (ap (λ l. c ∷ l) e, (passes, ps), fs)
      | inr fails ↦ rw fails (refl, tt, fails)
    ]
