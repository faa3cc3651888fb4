-- ===== src/Pktbuf/Content.antt =====
-- The bytes that a packet holds: the abstract view of a chain of blocks.
use clean_os.Base.{
  ℕ, zero, suc, ◌+◌, ◌-◌, ◌≤◌, ◌<◌, ◌≡◌, ◌≢◌, refl, sym, ap, ◌∙◌, List, [], ◌∷◌, ◌++◌, append_assoc,
  length, take, drop, length-append, All, NotIn, Distinct, ne→==, ==_refl, arith,
}
use clean_os.Pktbuf.Store.{Blk, Pool, Buf, blk_size, put}
use clean_os.Pktbuf.Access.{slice}

-- The data of one block.
abbrev pub blk_bytes : Blk → List ℕ
blk_bytes b = slice b.payload b.data_off b.size

abbrev pub content : (ℕ → Blk) → List ℕ → List ℕ
content st [] = []
content st (x ∷ xs) = blk_bytes (st x) ++ content st xs

-- The sum of the sizes of some blocks.
abbrev pub sizes : (ℕ → Blk) → List ℕ → ℕ
sizes st [] = 0
sizes st (x ∷ xs) = (st x).size + sizes st xs

-- The data of each block lies in its payload.
abbrev pub Fits : (ℕ → Blk) → List ℕ → Type 0
Fits st = All (λ x. (st x).data_off + (st x).size ≤ blk_size)

-- A packet of these blocks and the pool of free blocks: the size is right, the blocks are well
-- formed, and no block is in the packet twice, free twice, or both.
pub record IsPacket (p : Pool) (total : ℕ) (xs : List ℕ) : Type 0 where
  pub size_right : total ≡ sizes p.blk xs
  pub fits : Fits p.blk xs
  pub distinct : Distinct xs
  pub free_distinct : Distinct p.free_blks
  pub apart : All (λ x. NotIn x p.free_blks) xs

abbrev pub IsValid : Pool → Buf → Type 0
IsValid p buf = IsPacket p buf.total_size buf.blk_list

abbrev pub bytes : Pool → Buf → List ℕ
bytes p buf = content p.blk buf.blk_list

-- The blocks of the pool and of a packet.
abbrev pub block_count : Pool → Buf → ℕ
block_count p buf = length p.free_blks + length buf.blk_list

pub length-slice : (f : ℕ → ℕ) (off n : ℕ) → length (slice f off n) ≡ n
unfolding slice
length-slice f off zero = refl
length-slice f off (suc n) = ap suc (length-slice f (off + 1) n)

pub drop-slice :
    (f : ℕ → ℕ) (off n k : ℕ) → k ≤ n → drop k (slice f off n) ≡ slice f (off + k) (n - k)
unfolding slice
drop-slice f off n zero h =
    ap (λ o. slice f o n) {x = off} {y = off + 0} (omega arith)
    ∙ ap (slice f (off + 0)) {x = n} {y = n - 0} (omega arith)
drop-slice f off zero (suc k) h = absurd (omega arith)
drop-slice f off (suc n) (suc k) h =
    drop-slice f (off + 1) n k (omega arith)
    ∙ ap (λ o. slice f o (n - k)) {x = off + 1 + k} {y = off + suc k} (omega arith)
    ∙ ap (slice f (off + suc k)) {x = n - k} {y = suc n - suc k} (omega arith)

pub take-slice : (f : ℕ → ℕ) (off n k : ℕ) → k ≤ n → take k (slice f off n) ≡ slice f off k
unfolding slice
take-slice f off n zero h = refl
take-slice f off zero (suc k) h = absurd (omega arith)
take-slice f off (suc n) (suc k) h = ap (λ l. f off ∷ l) (take-slice f (off + 1) n k (omega arith))

-- Slices that agree byte by byte are equal.
pub slice_ext :
    (f g : ℕ → ℕ) (a b n : ℕ)
    → ((i : ℕ) → i < n → f (a + i) ≡ g (b + i))
    → slice f a n ≡ slice g b n
unfolding slice
slice_ext f g a b zero h = refl
slice_ext f g a b (suc n) h =
    let here : f a ≡ g b =
      ap f {x = a} {y = a + 0} (omega arith)
      ∙ h 0 (omega arith)
      ∙ ap g {x = b + 0} {y = b} (omega arith) in
    let rest = slice_ext f g (a + 1) (b + 1) n (λ i p.
      ap f {x = a + 1 + i} {y = a + suc i} (omega arith)
      ∙ h (suc i) (omega arith)
      ∙ ap g {x = b + suc i} {y = b + 1 + i} (omega arith)) in
    λ j. here j ∷ rest j

-- Two slices in a row.
pub slice-append :
    (f : ℕ → ℕ) (off m n : ℕ) → slice f off (m + n) ≡ slice f off m ++ slice f (off + m) n
unfolding slice
slice-append f off zero n =
    ap (slice f off) {x = 0 + n} {y = n} (omega arith)
    ∙ ap (λ o. slice f o n) {x = off} {y = off + 0} (omega arith)
slice-append f off (suc m) n =
    ap (slice f off) {x = suc m + n} {y = suc (m + n)} (omega arith)
    ∙ ap (λ l. f off ∷ l)
        (slice-append f (off + 1) m n
          ∙ ap (λ o. slice f (off + 1) m ++ slice f o n) {x = off + 1 + m} {y = off + suc m}
              (omega arith))

pub length-content : (st : ℕ → Blk) (xs : List ℕ) → length (content st xs) ≡ sizes st xs
length-content st [] = refl
length-content st (x ∷ xs) = omega (
  arith,
  length-append (blk_bytes (st x)) (content st xs),
  length-slice (st x).payload (st x).data_off (st x).size,
  length-content st xs,
)

pub put_self : (st : ℕ → Blk) (x : ℕ) (b : Blk) → put st x b x ≡ b
unfolding put
put_self st x b = rw (==_refl x) refl

pub put_ne : (st : ℕ → Blk) (x y : ℕ) (b : Blk) → y ≢ x → put st x b y ≡ st y
unfolding put
put_ne st x y b h = rw (ne→== y x h) refl

-- Blocks that two stores have in common.
abbrev pub Agree : (ℕ → Blk) → (ℕ → Blk) → List ℕ → Type 0
Agree st st' = All (λ x. st' x ≡ st x)

pub Agree-put :
    (st : ℕ → Blk) (x : ℕ) (b : Blk) (xs : List ℕ) → NotIn x xs → Agree st (put st x b) xs
Agree-put st x b [] out = tt
Agree-put st x b (y ∷ ys) (ne, out) = (put_ne st x y b (λ e. ne (sym e)), Agree-put st x b ys out)

pub content-Agree :
    (st st' : ℕ → Blk) (xs : List ℕ) → Agree st st' xs → content st' xs ≡ content st xs
content-Agree st st' [] same = refl
content-Agree st st' (x ∷ xs) (e, same) =
    rw (content-Agree st st' xs same) (ap (λ b. blk_bytes b ++ content st xs) e)

pub sizes-Agree : (st st' : ℕ → Blk) (xs : List ℕ) → Agree st st' xs → sizes st' xs ≡ sizes st xs
sizes-Agree st st' [] same = refl
sizes-Agree st st' (x ∷ xs) (e, same) =
    omega (arith, sizes-Agree st st' xs same, ap (λ (b : Blk). b.size) e)

pub Fits-Agree : (st st' : ℕ → Blk) (xs : List ℕ) → Agree st st' xs → Fits st xs → Fits st' xs
Fits-Agree st st' [] same f = tt
Fits-Agree st st' (x ∷ xs) (e, same) (f, fs) = (rw e f, Fits-Agree st st' xs same fs)

pub content-append :
    (st : ℕ → Blk) (xs ys : List ℕ) → content st (xs ++ ys) ≡ content st xs ++ content st ys
content-append st [] ys = refl
content-append st (x ∷ xs) ys =
    ap (λ l. blk_bytes (st x) ++ l) (content-append st xs ys)
    ∙ sym (append_assoc (blk_bytes (st x)) (content st xs) (content st ys))

pub sizes-append : (st : ℕ → Blk) (xs ys : List ℕ) → sizes st (xs ++ ys) ≡ sizes st xs + sizes st ys
sizes-append st [] ys = omega arith
sizes-append st (x ∷ xs) ys = omega (arith, sizes-append st xs ys)
