-- ===== src/Strings/Tests.antt =====
-- Short strings in a memory.
use clean_os.Base.{
  ℕ, ◌-◌, ◌^◌, ◌≡◌, ◌↔◌, ◌⊎◌, inr, refl, Option, none, some, List, [], ◌∷◌, ltb, if◌then◌else◌,
  arith, get_elem?,
}
use clean_os.Strings.{strcmp}
use clean_os.Strings.Order.{IsPrefix, strcmp-prefix}
use clean_os.Strings.Split.{tokens}
use clean_os.Strings.Words.{Ready, Tokenized}
use clean_os.Strings.Run.{strtok_r-words}
use clean_os.Strings.Number.{num2str, str2num}
use clean_os.Strings.RoundTrip.{str2num-num2str}

abbrev byte : Option ℕ → ℕ
byte none = 0
byte (some c) = c

-- One string at 10, another one at 20
abbrev both : List ℕ → List ℕ → ℕ → ℕ
both s t a = if ltb a 20 then byte (get_elem? s (a - 10)) else byte (get_elem? t (a - 20))

-- "ab" and "abc"
abbrev ab_abc : ℕ → ℕ
ab_abc = both (97 ∷ 98 ∷ []) (97 ∷ 98 ∷ 99 ∷ [])

strcmp-prefix_example :
    (r : ℕ) × (strcmp 5 ab_abc 10 20 ≡ some r)
    × ((r ≡ 0) ↔ (
        IsPrefix (97 ∷ 98 ∷ []) (97 ∷ 98 ∷ 99 ∷ []) ⊎ IsPrefix (97 ∷ 98 ∷ 99 ∷ []) (97 ∷ 98 ∷ [])))
strcmp-prefix_example =
    strcmp-prefix 5 ab_abc 10 20 (97 ∷ 98 ∷ []) (97 ∷ 98 ∷ 99 ∷ [])
      (refl, omega arith, (refl, omega arith, refl))
      (refl, omega arith, (refl, omega arith, (refl, omega arith, refl))) (omega arith)
      (omega arith)

-- " a b", and a space
abbrev a_b : ℕ → ℕ
a_b = both (32 ∷ 97 ∷ 32 ∷ 98 ∷ []) (32 ∷ [])

a_b-Ready : Ready 6 a_b 10 (32 ∷ 97 ∷ 32 ∷ 98 ∷ []) 20 (32 ∷ [])
a_b-Ready = record {
  text = (refl, omega arith, (refl, omega arith, (refl, omega arith, (refl, omega arith, refl))));
  delims = (refl, omega arith, refl);
  enough = omega arith;
  enough_delims = omega arith;
  place = omega arith;
  place_delims = omega arith;
  apart = inr (omega arith);
}

strtok_r-words_example :
    Tokenized a_b 10 (32 ∷ 97 ∷ 32 ∷ 98 ∷ []) (32 ∷ []) (tokens 5 6 a_b 10 20 0)
strtok_r-words_example =
    strtok_r-words 5 6 a_b 10 (32 ∷ 97 ∷ 32 ∷ 98 ∷ []) 20 (32 ∷ []) 0 a_b-Ready (omega arith)

abbrev cleared : ℕ → ℕ
cleared a = 0

-- The number -105
str2num-num2str_example :
    (m' : ℕ → ℕ) × (num2str (2 ^ 32 - 105) cleared 10 100 ≡ some m')
    × (str2num 13 m' 10 ≡ some (some (2 ^ 32 - 105)))
str2num-num2str_example =
    str2num-num2str 13 cleared 10 100 (2 ^ 32 - 105)
      (record { apart = inr (omega arith); clear = λ a l h. refl }) (omega arith)
      (λ e. absurd (omega (arith, e))) (λ e. absurd (omega (arith, e))) (omega arith)
