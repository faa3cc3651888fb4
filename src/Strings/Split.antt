-- ===== src/Strings/Split.antt =====
-- strtok_r called until it returns null: the words of a string.
use clean_os.Base.{
  ℕ, zero, suc, ◌+◌, ◌≤◌, ◌≡◌, refl, subst, ◌∙◌, Bool, false, not, Option, none, some, List, [],
  ◌∷◌, ◌++◌, ◌==◌, if◌then◌else◌, arith, length,
}
use clean_os.Base.Ring.{put_at}
use clean_os.Strings.{◌>>=◌}
use clean_os.Strings.Text.{IsText, member}
use clean_os.Strings.Token.{strtok_r, Fails, Passes}

-- A byte put in front of the first word.
abbrev pub glue : ℕ → List (List ℕ) → List (List ℕ)
glue c [] = (c ∷ []) ∷ []
glue c (w ∷ ws) = (c ∷ w) ∷ ws

-- Whether a string goes on with a byte of a word.
abbrev pub in_word : List ℕ → List ℕ → Bool
in_word ds [] = false
in_word ds (c ∷ s) = not (member c ds)

-- The words between the bytes of `ds`.
abbrev pub words : List ℕ → List ℕ → List (List ℕ)
words ds [] = []
words ds (c ∷ s) =
    let rest = words ds s in
    if member c ds then rest else if in_word ds s then glue c rest else (c ∷ []) ∷ rest

-- The strings that stand at some addresses.
abbrev pub Texts : (ℕ → ℕ) → List ℕ → List (List ℕ) → Type 0
Texts m [] [] = Unit
Texts m (p ∷ ps) (w ∷ ws) = IsText m p w × Texts m ps ws
Texts m _ _ = ⊥

-- The calls of `strtok_r`: the first with a string, the others with null.
unfoldable pub tokens : ℕ → ℕ → (ℕ → ℕ) → ℕ → ℕ → ℕ → Option (List ℕ × (ℕ → ℕ))
tokens zero fuel m str delim save = none
tokens (suc calls) fuel m str delim save = do
  t ← strtok_r fuel m str delim save
  let rest = tokens calls fuel t.memory 0 delim t.save
  if t.result == 0 then some ([], t.memory) else (rest >>= λ (ps, m'). some (t.result ∷ ps, m'))

pub IsText-drop :
    (u v : List ℕ) (m : ℕ → ℕ) (p : ℕ) → IsText m p (u ++ v) → IsText m (p + length u) v
IsText-drop [] v m p t = subst (λ a. IsText m a v) (omega arith) t
IsText-drop (c ∷ u) v m p (e, nonzero, t) =
    subst (λ a. IsText m a v) (omega arith) (IsText-drop u v m (p + 1) t)

pub IsText-frame :
    (s : List ℕ) (m m' : ℕ → ℕ) (p : ℕ)
    → ((a : ℕ) → p ≤ a → a ≤ p + length s → m' a ≡ m a)
    → IsText m p s
    → IsText m' p s
IsText-frame [] m m' p same t = same p (omega arith) (omega arith) ∙ t
IsText-frame (c ∷ s) m m' p same (e, nonzero, t) = (
  same p (omega arith) (omega arith) ∙ e,
  nonzero,
  IsText-frame s m m' (p + 1) (λ a l h. same a (omega arith) (omega arith)) t,
)

-- A zero byte behind the first part of a string ends it there.
pub IsText-cut :
    (u v : List ℕ) (m : ℕ → ℕ) (p : ℕ)
    → IsText m p (u ++ v)
    → IsText (put_at m (p + length u) 0) p u
unfolding put_at
IsText-cut [] v m p t = ground arith
IsText-cut (c ∷ u) v m p (e, nonzero, t) =
    let ih = IsText-cut u v m (p + 1) t in
    (ground (arith, e), nonzero, subst (λ a. IsText (put_at m a 0) (p + 1) u) (omega arith) ih)

pub words-skip : (ds u v : List ℕ) → Passes (λ c. member c ds) u → words ds (u ++ v) ≡ words ds v
words-skip ds [] v ps = refl
words-skip ds (c ∷ u) v (here, ps) = rw here (words-skip ds u v ps)

-- A word that ends at the end of the string or before a byte of `ds`.
pub words-word :
    (ds : List ℕ) (c : ℕ) (u v : List ℕ)
    → Passes (λ c. not (member c ds)) (c ∷ u)
    → Fails (λ c. not (member c ds)) v
    → words ds (c ∷ u ++ v) ≡ (c ∷ u) ∷ words ds v
words-word ds c [] [] (here, ps) f = ground (arith, here)
words-word ds c [] (d ∷ v) (here, ps) f = ground (arith, here, f)
words-word ds c (d ∷ u) v (here, ps) f =
    let ih = words-word ds d u v ps f in ground (arith, here, ps.0, ih)
