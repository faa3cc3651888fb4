-- ===== src/Strings/Words.antt =====
-- The words that the calls of strtok_r find, and the memory they leave.
use clean_os.Base.{
  ℕ, suc, ◌+◌, ◌≤◌, ◌<◌, ◌≡◌, ◌⊎◌, refl, sym, ap, subst, ◌∙◌, Bool, false, not, Option, some, List,
  [], ◌∷◌, ◌++◌, ◌==◌, if◌then◌else◌, arith, length, length-append, Bool-cases, inl, inr,
}
use clean_os.Base.Ring.{put_at}
use clean_os.Strings.Text.{IsText, member}
use clean_os.Strings.Token.{
  token_at, strtok_r, span, strspn, strcspn, strspn-IsText, strcspn-IsText, Fails, Passes, span_lem,
}
use clean_os.Strings.Split.{words, Texts, tokens, IsText-drop, IsText-cut, words-skip, words-word}

-- A string taken apart: bytes of `ds`, a word, and the rest.
pub record Parts (ds s : List ℕ) : Type 0 where
  pub gap : List ℕ
  pub word : List ℕ
  pub rest : List ℕ
  pub whole : s ≡ gap ++ (word ++ rest)
  pub skipped : length (span (λ c. member c ds) s).0 ≡ length gap
  pub no_word : length gap ≡ length s → word ++ rest ≡ []
  pub taken : length (span (λ c. not (member c ds)) (word ++ rest)).0 ≡ length word
  pub gap_passes : Passes (λ c. member c ds) gap
  pub word_passes : Passes (λ c. not (member c ds)) word
  pub rest_fails : Fails (λ c. not (member c ds)) rest
  pub starts : Fails (λ c. member c ds) (word ++ rest)

pub parts : (ds s : List ℕ) → Parts ds s
parts ds s =
    let f : ℕ → Bool = λ c. member c ds in
    let g : ℕ → Bool = λ c. not (member c ds) in
    let (e, passes, fails) = span_lem f s in
    let v = (span f s).1 in
    let (e', passes', fails') = span_lem g v in
    record {
      gap = (span f s).0;
      word = (span g v).0;
      rest = (span g v).1;
      whole = e ∙ ap (λ l. (span f s).0 ++ l) e';
      skipped = refl;
      no_word =
          λ h. sym e' ∙ nothing v (omega (arith, h, ap length e, length-append (span f s).0 v));
      taken = ap (λ l. length (span g l).0) (sym e');
      gap_passes = passes;
      word_passes = passes';
      rest_fails = fails';
      starts = subst (Fails f) e' fails;
    }
  where
    nothing : (l : List ℕ) → length l ≡ 0 → l ≡ []
    nothing [] h = refl
    nothing (x ∷ l) h = absurd (omega arith)

-- The outcome of the calls on the string `s` at `p`
pub record Tokenized (m : ℕ → ℕ) (p : ℕ) (s ds : List ℕ) (o : Option (List ℕ × (ℕ → ℕ)))
    : Type 0 where
  pub places : List ℕ
  pub memory : ℕ → ℕ
  pub returns : o ≡ some (places, memory)
  pub texts : Texts memory places (words ds s)
  pub below : (a : ℕ) → a < p → memory a ≡ m a
  pub above : (a : ℕ) → p + length s ≤ a → memory a ≡ m a

-- What the calls are given.
pub record Ready (fuel : ℕ) (m : ℕ → ℕ) (p : ℕ) (s : List ℕ) (q : ℕ) (ds : List ℕ) : Type 0 where
  pub text : IsText m p s
  pub delims : IsText m q ds
  pub enough : length s < fuel
  pub enough_delims : length ds < fuel
  pub place : 0 < p
  pub place_delims : 0 < q
  pub apart : (q + length ds < p) ⊎ (p + length s < q)

pub tokens_end :
    (calls fuel : ℕ) (m m' : ℕ → ℕ) (str q save sv : ℕ)
    → strtok_r fuel m str q save ≡ some (record { result = 0; memory = m'; save = sv })
    → tokens (suc calls) fuel m str q save ≡ some ([], m')
unfolding tokens
tokens_end calls fuel m m' str q save sv e = rw e refl

pub tokens_more :
    (calls fuel : ℕ) (m m' m'' : ℕ → ℕ) (str q save sv r : ℕ) (ps : List ℕ)
    → 0 < r
    → strtok_r fuel m str q save ≡ some (record { result = r; memory = m'; save = sv })
    → tokens calls fuel m' 0 q sv ≡ some (ps, m'')
    → tokens (suc calls) fuel m str q save ≡ some (r ∷ ps, m'')
unfolding tokens
tokens_more calls fuel m m' m'' str q save sv r ps nonzero e e' =
    let more : (r == 0) ≡ false = ground arith in rw (e, more, e') refl

-- The first part of a call, which skips the bytes of `ds`.
pub token_gap :
    (fuel : ℕ) (m : ℕ → ℕ) (p : ℕ) (s : List ℕ) (q : ℕ) (ds : List ℕ)
    → Ready fuel m p s q ds
    → (x : Parts ds s) → strspn fuel fuel m p q ≡ some (length x.gap)
token_gap fuel m p s q ds r x =
    strspn-IsText s fuel fuel m p q ds r.text r.delims r.enough r.enough_delims r.place_delims
    ∙ ap some x.skipped

pub rest-IsText :
    (m : ℕ → ℕ) (p : ℕ) (s ds : List ℕ) (x : Parts ds s)
    → IsText m p s
    → IsText m (p + length x.gap) (x.word ++ x.rest)
rest-IsText m p s ds x t = IsText-drop x.gap (x.word ++ x.rest) m p (subst (IsText m p) x.whole t)

token_word :
    (fuel : ℕ) (m : ℕ → ℕ) (p : ℕ) (s : List ℕ) (q : ℕ) (ds : List ℕ)
    → Ready fuel m p s q ds
    → (x : Parts ds s) → strcspn fuel fuel m (p + length x.gap) q ≡ some (length x.word)
token_word fuel m p s q ds r x =
    strcspn-IsText (x.word ++ x.rest) fuel fuel m (p + length x.gap) q ds
      (rest-IsText m p s ds x r.text) r.delims
      (omega (arith, r.enough, ap length x.whole, length-append x.gap (x.word ++ x.rest)))
      r.enough_delims r.place_delims
    ∙ ap some x.taken

-- The call where no word is left.
pub token_none :
    (fuel : ℕ) (m : ℕ → ℕ) (p : ℕ) (s : List ℕ) (q : ℕ) (ds : List ℕ)
    → Ready fuel m p s q ds
    → (x : Parts ds s) → x.word ++ x.rest ≡ []
    → (sv : ℕ) × (token_at fuel m p q ≡ some (record { result = 0; memory = m; save = sv }))
unfolding token_at
token_none fuel m p s q ds r x e =
    let ends : m (p + length x.gap) ≡ 0 =
      subst (IsText m (p + length x.gap)) e (rest-IsText m p s ds x r.text) in
    elim (Bool-cases (m p == 0)) [
      | inl stop ↦ (p, rw stop refl)
      | inr more ↦ (p + length x.gap, rw (more, token_gap fuel m p s q ds r x, ends) refl)
    ]

nonempty_byte : (m : ℕ → ℕ) (p : ℕ) (s : List ℕ) → IsText m p s → 0 < length s → (m p == 0) ≡ false
nonempty_byte m p [] t h = absurd (omega arith)
nonempty_byte m p (c ∷ s) (e, nonzero, t) h = ground (arith, e, nonzero)

-- The call where a word is left.
module _ (fuel : ℕ) (m : ℕ → ℕ) (p : ℕ) (s : List ℕ) (q : ℕ) (ds : List ℕ)
    (r : Ready fuel m p s q ds) (x : Parts ds s) (some_word : 0 < length x.word) where
  abbrev pub start : ℕ
  start = p + length x.gap

  abbrev pub end : ℕ
  end = p + length x.gap + length x.word

  pub sizes : length s ≡ length x.gap + length x.word + length x.rest
  sizes = omega (
    arith,
    ap length x.whole,
    length-append x.gap (x.word ++ x.rest),
    length-append x.word x.rest,
  )

  pub token_found : token_at fuel m p q ≡ (
      if m end == 0
      then some (record { result = start; memory = m; save = end })
      else some (record { result = start; memory = put_at m end 0; save = end + 1 }))
  unfolding token_at
  token_found =
      let text = rest-IsText m p s ds x r.text in
      let first = nonempty_byte m p s r.text (omega (arith, sizes, some_word)) in
      let here =
        nonempty_byte m start (x.word ++ x.rest) text
          (omega (arith, some_word, length-append x.word x.rest)) in
      rw (first, token_gap fuel m p s q ds r x, here, token_word fuel m p s q ds r x) refl

  pub word-IsText : IsText (put_at m end 0) start x.word
  word-IsText = IsText-cut x.word x.rest m start (rest-IsText m p s ds x r.text)

  pub tail-IsText : IsText m end x.rest
  tail-IsText = IsText-drop x.word x.rest m start (rest-IsText m p s ds x r.text)

-- The words of the whole, if one is left.
pub words-Parts :
    (ds s : List ℕ) (x : Parts ds s) → 0 < length x.word → words ds s ≡ x.word ∷ words ds x.rest
words-Parts ds s x some_word =
    ap (words ds) x.whole
    ∙ words-skip ds x.gap (x.word ++ x.rest) x.gap_passes
    ∙ front x.word some_word x.word_passes
  where
    front :
        (w : List ℕ)
        → 0 < length w
        → Passes (λ c. not (member c ds)) w
        → words ds (w ++ x.rest) ≡ w ∷ words ds x.rest
    front [] h ps = absurd (omega arith)
    front (c ∷ w) h ps = words-word ds c w x.rest ps x.rest_fails
