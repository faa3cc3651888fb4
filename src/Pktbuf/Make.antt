-- ===== src/Pktbuf/Make.antt =====
-- pktbuf_init and pktbuf_alloc: packets made from the free blocks.
use clean_os.Base.{
  ℕ, zero, suc, ◌+◌, ◌*◌, ◌≤◌, ◌<◌, ◌≡◌, refl, sym, ap, subst, ◌∙◌, true, false, Option, none, some,
  List, [], ◌∷◌, ◌++◌, append_assoc, append-nil, ◌==◌, length, Distinct, NotIn, arith, Bool-cases,
  inl, inr,
}
use clean_os.Pktbuf.Store.{mblock_init, pktbuf_init, Blk, Pool, Buf, blk_size, head, reset_acc}
use clean_os.Pktbuf.Chain.{pktblock_alloc_list, insert_last, insert_blk_list, empty_buf, alloc}
use clean_os.Pktbuf.Content.{sizes, IsValid}
use clean_os.Pktbuf.Insert.{with_blks}
use clean_os.Pktbuf.Draw.{Drawn, Draws, pktblock_alloc_list-Draws}
use clean_os.Pktbuf.Read.{IsPlaced, reset_acc-IsPlaced}

mblock_init-NotIn : (x first cnt : ℕ) → x < first → NotIn x (mblock_init first cnt)
unfolding mblock_init
mblock_init-NotIn x first zero h = tt
mblock_init-NotIn x first (suc cnt) h =
    ((λ e. ground arith), mblock_init-NotIn x (first + 1) cnt (omega arith))

pub mblock_init-Distinct : (first cnt : ℕ) → Distinct (mblock_init first cnt)
unfolding mblock_init
mblock_init-Distinct first zero = tt
mblock_init-Distinct first (suc cnt) =
    (mblock_init-NotIn first (first + 1) cnt (omega arith), mblock_init-Distinct (first + 1) cnt)

pub length-mblock_init : (first cnt : ℕ) → length (mblock_init first cnt) ≡ cnt
unfolding mblock_init
length-mblock_init first zero = refl
length-mblock_init first (suc cnt) = ap suc (length-mblock_init (first + 1) cnt)

-- A chain goes behind the blocks of the packet in order.
insert_last_lem :
    (p : Pool) (buf : Buf) (total : ℕ) (old xs : List ℕ)
    → insert_last p (with_blks buf total old) xs
      ≡ with_blks buf (total + sizes p.blk xs) (old ++ xs)
unfolding insert_last
insert_last_lem p buf total old [] = rw append-nil (ap (λ t. with_blks buf t old) (omega arith))
insert_last_lem p buf total old (x ∷ xs) =
    insert_last_lem p buf (total + (p.blk x).size) (old ++ (x ∷ [])) xs
    ∙ ap (with_blks buf (total + (p.blk x).size + sizes p.blk xs)) (append_assoc old (x ∷ []) xs)
    ∙ ap (λ t. with_blks buf t (old ++ (x ∷ xs))) (omega arith)

-- What `pktbuf_alloc` of `size` bytes is to do.
abbrev pub Allocs : Pool → ℕ → Option Buf × Pool → Type 0
Allocs p size (none, p') =
    (length p.free_blks * blk_size < size)
    × Distinct p'.free_blks
    × (length p'.free_blks ≡ length p.free_blks)
Allocs p size (some buf, p') =
    (buf.total_size ≡ size)
    × IsValid p' buf
    × IsPlaced p' buf
    × (buf.pos ≡ 0)
    × (length p'.free_blks + length buf.blk_list ≡ length p.free_blks)

module _ (p q : Pool) (i size : ℕ) (same : q.free_blks ≡ p.free_blks) (pos : 0 < size) where
  -- The end of `pktbuf_alloc`, with the outcome of the allocation of blocks.
  given : List ℕ × Pool → Option Buf × Pool
  given (chain, p') = elim chain [
    | [] ↦ (none, record p' { free_bufs = p'.free_bufs ++ (i ∷ []) })
    | x ∷ xs ↦ (some (reset_acc p' (insert_blk_list p' (empty_buf i) (x ∷ xs) true)), p')
  ]

  given-Drawn : (c : List ℕ) (p' : Pool) → Drawn q [] size c p' → Allocs p size (given (c, p'))
  unfolding given insert_blk_list reset_acc head
  given-Drawn [] p' r = absurd (omega (arith, r.packet.size_right))
  given-Drawn (x ∷ c) p' r =
      let whole : 0 + sizes p'.blk (x ∷ c) ≡ size = omega (arith, r.packet.size_right) in
      let (placed, _, _) = reset_acc-IsPlaced p' (with_blks (empty_buf i) size (x ∷ c)) in
      rw (insert_last_lem p' (empty_buf i) 0 [] (x ∷ c), whole)
        (refl, r.packet, placed, refl, omega (arith, r.count, ap length same))

  given-Allocs : (o : List ℕ × Pool) → Draws q [] 0 size o → Allocs p size (given o)
  unfolding given
  given-Allocs (c, p') (inl r) =
      let e : 0 + size ≡ size = omega arith in given-Drawn c p' (subst (λ m. Drawn q [] m c p') e r)
  given-Allocs ([], p') (inr r) =
      (omega (arith, r.too_few, ap length same), r.distinct, omega (arith, r.count, ap length same))
  given-Allocs (x ∷ c, p') (inr r) = absurd (omega (arith, ap length r.null))

alloc-given :
    (p : Pool) (i size : ℕ) (rest : List ℕ)
    → p.free_bufs ≡ i ∷ rest
    → (pos : 0 < size) → (size == 0) ≡ false
    → alloc p size
      ≡ given p
          (record p { free_bufs = rest })
          i
          size
          refl
          pos
          (pktblock_alloc_list (record p { free_bufs = rest }) size false)
unfolding given alloc
alloc-given p i size rest e pos h = rw (alloc, e, h) refl

-- `pktbuf_alloc` with a free packet gives a valid packet of exactly `size` bytes whose place is its
-- front, with every block in the packet or in the pool; or it returns null, only where 64 times the
-- number of free blocks is less than `size`, and as many blocks are free as before. No block is free
-- twice before or after.
pub alloc-Allocs :
    (p : Pool) (i size : ℕ) (rest : List ℕ)
    → p.free_bufs ≡ i ∷ rest
    → Distinct p.free_blks
    → Allocs p size (alloc p size)
unfolding alloc reset_acc head
alloc-Allocs p i size rest e d = elim (Bool-cases (size == 0)) [
  | inl none_asked ↦
      let zero_size : 0 ≡ size = ground arith in
      rw (alloc, e, none_asked)
        (
          zero_size,
          record { size_right = refl; fits = tt; distinct = tt; free_distinct = d; apart = tt },
          record { rest = refl; inside = tt },
          refl,
          omega arith,
        )
  | inr asked ↦
      let q : Pool = record p { free_bufs = rest } in
      subst (Allocs p size) (sym (alloc-given p i size rest e (ground arith) asked)) (
        given-Allocs p q i size refl (ground arith) (pktblock_alloc_list q size false)
          (pktblock_alloc_list-Draws q size false d))
]

-- After `pktbuf_init`, `pktbuf_alloc` of at most 6400 bytes gives a valid packet of this size.
pub alloc-pktbuf_init :
    (blk : ℕ → Blk) (size : ℕ)
    → size ≤ 6400
    → (buf : Buf) × (p' : Pool) × (alloc (pktbuf_init blk) size ≡ (some buf, p'))
      × (buf.total_size ≡ size)
      × IsValid p' buf
unfolding pktbuf_init mblock_init
alloc-pktbuf_init blk size h =
    pick (alloc (pktbuf_init blk) size)
      (alloc-Allocs (pktbuf_init blk) 0 size (mblock_init 1 99) refl (mblock_init-Distinct 0 100))
  where
    pick :
        (o : Option Buf × Pool)
        → Allocs (pktbuf_init blk) size o
        → (buf : Buf) × (p' : Pool) × (o ≡ (some buf, p'))
          × (buf.total_size ≡ size)
          × IsValid p' buf
    pick (none, p') (few, _, _) = absurd (omega (arith, length-mblock_init 0 100))
    pick (some buf, p') (e, v, _, _, _) = (buf, p', refl, e, v)
