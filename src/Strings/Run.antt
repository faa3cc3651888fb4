-- ===== src/Strings/Run.antt =====
-- The calls of strtok_r one after another.
use clean_os.Base.{
  ℕ, zero, suc, ◌+◌, ◌≤◌, ◌<◌, ◌≡◌, ◌⊎◌, refl, sym, ap, subst, ◌∙◌, Bool, true, false, not, some,
  List, [], ◌∷◌, ◌++◌, append-nil, ltb, ◌==◌, if◌then◌else◌, arith, length, Bool-cases, inl, inr,
}
use clean_os.Base.Ring.{put_at}
use clean_os.Strings.Text.{IsText, member}
use clean_os.Strings.Token.{token_at, strtok_r, Fails}
use clean_os.Strings.Split.{words, Texts, tokens, IsText-frame, words-skip}
use clean_os.Strings.Words.{
  Parts, parts, Tokenized, Ready, tokens_end, tokens_more, rest-IsText, token_none, start, end,
  sizes, token_found, word-IsText, tail-IsText, words-Parts,
}

-- A word in front of those that the other calls find.
combine :
    (calls fuel : ℕ) (m m1 : ℕ → ℕ) (str q save sv p p' r : ℕ) (s s' w ds : List ℕ)
    → strtok_r fuel m str q save ≡ some (record { result = r; memory = m1; save = sv })
    → Tokenized m1 p' s' ds (tokens calls fuel m1 0 q sv)
    → words ds s ≡ w ∷ words ds s'
    → IsText m1 r w
    → (0 < r)
      × (p ≤ p')
      × (p' + length s' ≤ p + length s)
      × ((r + length w < p') ⊎ ((length s' ≡ 0) × (p' ≡ r + length w)))
    → ((a : ℕ) → a < p → m1 a ≡ m a)
    → ((a : ℕ) → p + length s ≤ a → m1 a ≡ m a)
    → Tokenized m p s ds (tokens (suc calls) fuel m str q save)
combine calls fuel m m1 str q save sv p p' r s s' w ds e t ws text (nonzero, low, high, ends) under
      over =
    record {
      places = r ∷ t.places;
      memory = t.memory;
      returns = tokens_more calls fuel m m1 t.memory str q save sv r t.places nonzero e t.returns;
      texts =
          subst (Texts t.memory (r ∷ t.places)) (sym ws)
            (IsText-frame w m1 t.memory r (kept ends) text, t.texts);
      below = λ a l. t.below a (omega arith) ∙ under a l;
      above = λ a l. t.above a (omega arith) ∙ over a l;
    }
  where
    kept :
        (r + length w < p') ⊎ ((length s' ≡ 0) × (p' ≡ r + length w))
        → (a : ℕ) → r ≤ a
        → a ≤ r + length w
        → t.memory a ≡ m1 a
    kept (inl before) a l h = t.below a (omega arith)
    kept (inr (empty, at)) a l h = elim (Bool-cases (ltb a p')) [
      | inl less ↦ t.below a (ground (arith, less))
      | inr not_less ↦ t.above a (ground (arith, not_less, empty))
    ]

-- Where no word is taken, nothing is left.
no_rest : (ds s : List ℕ) (x : Parts ds s) → length x.word ≡ 0 → x.word ++ x.rest ≡ []
no_rest ds s x h = both x.word x.rest h x.starts x.rest_fails
  where
    both :
        (w v : List ℕ)
        → length w ≡ 0
        → Fails (λ c. member c ds) (w ++ v)
        → Fails (λ c. not (member c ds)) v
        → w ++ v ≡ []
    both [] [] h f g = refl
    both [] (c ∷ v) h f g = absurd (ground (arith, f, g))
    both (c ∷ w) v h f g = absurd (omega arith)

put_other : (m : ℕ → ℕ) (b v a : ℕ) → (a < b) ⊎ (b < a) → put_at m b v a ≡ m a
unfolding put_at
put_other m b v a (inl h) = ground arith
put_other m b v a (inr h) = ground arith

-- A string that the zero byte at `b` does not reach.
IsText-put :
    (m : ℕ → ℕ) (b p : ℕ) (s : List ℕ)
    → (p + length s < b) ⊎ (b < p)
    → IsText m p s
    → IsText (put_at m b 0) p s
IsText-put m b p s (inl h) t =
    IsText-frame s m (put_at m b 0) p (λ a l u. put_other m b 0 a (inl (omega arith))) t
IsText-put m b p s (inr h) t =
    IsText-frame s m (put_at m b 0) p (λ a l u. put_other m b 0 a (inr (omega arith))) t

apart_within :
    (q n p k p' k' : ℕ)
    → (q + n < p) ⊎ (p + k < q)
    → p ≤ p'
    → p' + k' ≤ p + k
    → (q + n < p') ⊎ (p' + k' < q)
apart_within q n p k p' k' (inl h) l u = inl (omega arith)
apart_within q n p k p' k' (inr h) l u = inr (omega arith)

apart_byte : (q n p k b : ℕ) → (q + n < p) ⊎ (p + k < q) → p ≤ b → b < p + k → (q + n < b) ⊎ (b < q)
apart_byte q n p k b (inl h) l u = inl (omega arith)
apart_byte q n p k b (inr h) l u = inr (omega arith)

-- The calls from one that finds a word, where the others do what they should.
tokens_found :
    (calls fuel : ℕ) (m : ℕ → ℕ) (p : ℕ) (s : List ℕ) (q : ℕ) (ds : List ℕ) (str save : ℕ)
    → Ready fuel m p s q ds
    → (if str == 0 then save else str) ≡ p
    → ((m1 : ℕ → ℕ) (p' : ℕ) (s' : List ℕ)
        → Ready fuel m1 p' s' q ds
        → length s' < length s
        → Tokenized m1 p' s' ds (tokens calls fuel m1 0 q p'))
    → (x : Parts ds s) → 0 < length x.word
    → (v : List ℕ) → x.rest ≡ v
    → Tokenized m p s ds (tokens (suc calls) fuel m str q save)
unfolding strtok_r
tokens_found calls fuel m p s q ds str save r at ih x some_word [] e =
    let size = sizes fuel m p s q ds r x some_word in
    let n = start fuel m p s q ds r x some_word in
    let b = end fuel m p s q ds r x some_word in
    let stops : m b ≡ 0 = subst (IsText m b) e (tail-IsText fuel m p s q ds r x some_word) in
    let none_left : length x.rest ≡ 0 = ap length e in
    let next =
      ih m b []
        (record {
          text = stops;
          delims = r.delims;
          enough = omega (arith, r.enough);
          enough_delims = r.enough_delims;
          place = omega (arith, r.place);
          place_delims = r.place_delims;
          apart =
              apart_within q (length ds) p (length s) b 0 r.apart (omega arith)
                (omega (arith, size, none_left));
        })
        (omega arith) in
    combine calls fuel m m str q save b p b n s [] x.word ds
      (ap (λ a. token_at fuel m a q) at ∙ token_found fuel m p s q ds r x some_word ∙ rw stops refl)
      next (words-Parts ds s x some_word ∙ ap (λ l. x.word ∷ words ds l) e)
      (subst (IsText m n) (ap (λ l. x.word ++ l) e ∙ append-nil x.word)
        (rest-IsText m p s ds x r.text))
      (omega (arith, r.place), omega arith, omega (arith, size), inr (refl, refl)) (λ a l. refl)
      (λ a l. refl)
tokens_found calls fuel m p s q ds str save r at ih x some_word (d ∷ v) e =
    let size = sizes fuel m p s q ds r x some_word in
    let n = start fuel m p s q ds r x some_word in
    let b = end fuel m p s q ds r x some_word in
    let (here, nonzero, text) = subst (IsText m b) e (tail-IsText fuel m p s q ds r x some_word) in
    let left : length x.rest ≡ suc (length v) = ap length e in
    let goes_on : (m b == 0) ≡ false = ground (arith, here, nonzero) in
    let is_delim : member d ds ≡ true =
      delim (member d ds) (subst (Fails (λ c. not (member c ds))) e x.rest_fails) in
    let next =
      ih (put_at m b 0) (b + 1) v
        (record {
          text = IsText-put m b (b + 1) v (inr (omega arith)) text;
          delims =
              IsText-put m b q ds
                (apart_byte q (length ds) p (length s) b r.apart (omega arith)
                  (omega (arith, size, left)))
                r.delims;
          enough = omega (arith, r.enough, size, left);
          enough_delims = r.enough_delims;
          place = omega arith;
          place_delims = r.place_delims;
          apart =
              apart_within q (length ds) p (length s) (b + 1) (length v) r.apart (omega arith)
                (omega (arith, size, left));
        })
        (omega (arith, size, left)) in
    combine calls fuel m (put_at m b 0) str q save (b + 1) p (b + 1) n s v x.word ds
      (ap (λ a. token_at fuel m a q) at
        ∙ token_found fuel m p s q ds r x some_word
        ∙ rw goes_on refl)
      next (words-Parts ds s x some_word ∙ ap (λ l. x.word ∷ words ds l) e ∙ rw is_delim refl)
      (word-IsText fuel m p s q ds r x some_word)
      (omega (arith, r.place), omega arith, omega (arith, size, left), inl (omega arith))
      (λ a l. put_other m b 0 a (inl (omega arith)))
      (λ a l. put_other m b 0 a (inr (omega (arith, size, left))))
  where
    delim : (t : Bool) → not t ≡ false → t ≡ true
    delim true h = refl
    delim false h = absurd (cc h)

tokens-words :
    (calls fuel : ℕ) (m : ℕ → ℕ) (p : ℕ) (s : List ℕ) (q : ℕ) (ds : List ℕ) (str save : ℕ)
    → Ready fuel m p s q ds
    → (if str == 0 then save else str) ≡ p
    → length s < calls
    → Tokenized m p s ds (tokens calls fuel m str q save)
unfolding strtok_r
tokens-words zero fuel m p s q ds str save r at enough = absurd (omega arith)
tokens-words (suc calls) fuel m p s q ds str save r at enough =
    let x = parts ds s in
    elim (Bool-cases (ltb 0 (length x.word))) [
      | inr empty ↦
          let nothing = no_rest ds s x (ground (arith, empty)) in
          let (sv, e) = token_none fuel m p s q ds r x nothing in
          let no_words : words ds s ≡ [] =
            ap (words ds) x.whole
            ∙ words-skip ds x.gap (x.word ++ x.rest) x.gap_passes
            ∙ ap (words ds) nothing in
          record {
            places = [];
            memory = m;
            returns =
                tokens_end calls fuel m m str q save sv (ap (λ a. token_at fuel m a q) at ∙ e);
            texts = subst (Texts m []) (sym no_words) tt;
            below = λ a l. refl;
            above = λ a l. refl;
          }
      | inl some_word ↦
          tokens_found calls fuel m p s q ds str save r at
            (λ m1 p' s' r' l.
              tokens-words calls fuel m1 p' s' q ds 0 p' r' refl (omega (arith, l, enough)))
            x (ground (arith, some_word)) x.rest refl
    ]

-- Calls of `strtok_r`, the first with a string and the others with null, return the words of the
-- string that the bytes of `delim` separate, in order, and then null. At the end each word stands
-- at its place as a string of its own, and no byte outside of the string has changed. The two
-- strings do not overlap. Fuel for every byte of them and one call more than the string has bytes
-- are enough.
pub strtok_r-words :
    (calls fuel : ℕ) (m : ℕ → ℕ) (p : ℕ) (s : List ℕ) (q : ℕ) (ds : List ℕ) (save : ℕ)
    → Ready fuel m p s q ds
    → length s < calls
    → Tokenized m p s ds (tokens calls fuel m p q save)
strtok_r-words calls fuel m p s q ds save r enough =
    tokens-words calls fuel m p s q ds p save r (ground (arith, r.place)) enough
