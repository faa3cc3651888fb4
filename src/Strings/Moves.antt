-- ===== src/Strings/Moves.antt =====
-- memcpy and strreverse, byte by byte.
use clean_os.Base.{
  ℕ, zero, suc, ◌+◌, ◌-◌, ◌/◌, ◌≤◌, ◌≡◌, ◌⊎◌, ltb, leb, if◌then◌else◌, ◌&&◌, arith, inl, inr,
}
use clean_os.Base.Ring.{put_at}
use clean_os.Strings.{memcpy, reverse_from, strreverse}

pub memcpy_lem :
    (n : ℕ) (m : ℕ → ℕ) (dst src a : ℕ)
    → (src + n ≤ dst) ⊎ (dst + n ≤ src)
    → memcpy n m dst src a ≡ (if leb dst a && ltb a (dst + n) then m (src + (a - dst)) else m a)
unfolding memcpy put_at
memcpy_lem zero m dst src a apart = ground arith
memcpy_lem (suc n) m dst src a apart =
    let ih = memcpy_lem n (put_at m dst (m src)) (dst + 1) (src + 1) a (closer n src dst apart) in
    ground (arith, ih, apart)
  where
    closer :
        (n s d : ℕ) → (s + suc n ≤ d) ⊎ (d + suc n ≤ s) → (s + 1 + n ≤ d + 1) ⊎ (d + 1 + n ≤ s + 1)
    closer n s d (inl h) = inl (omega arith)
    closer n s d (inr h) = inr (omega arith)

reverse_from_lem :
    (n : ℕ) (m : ℕ → ℕ) (str size i a : ℕ)
    → size / 2 ≡ i + n
    → reverse_from n m str size i a ≡ (
        if leb (str + i) a && ltb a (str + (size - i))
        then m (str + (size - 1 - (a - str)))
        else m a)
unfolding reverse_from put_at
reverse_from_lem zero m str size i a h = ground (arith, h)
reverse_from_lem (suc n) m str size i a h =
    let tmp = m (str + i) in
    let m1 = put_at m (str + i) (m (str + (size - 1 - i))) in
    let m2 = put_at m1 (str + (size - 1 - i)) tmp in
    let ih = reverse_from_lem n m2 str size (i + 1) a (omega (arith, h)) in ground (arith, ih, h)

-- `strreverse` turns the bytes around and leaves the others.
pub strreverse_lem :
    (m : ℕ → ℕ) (str size a : ℕ)
    → strreverse m str size a
      ≡ (if leb str a && ltb a (str + size) then m (str + (size - 1 - (a - str))) else m a)
unfolding strreverse
strreverse_lem m str size a =
    ground (arith, reverse_from_lem (size / 2) m str size 0 a (omega arith))
