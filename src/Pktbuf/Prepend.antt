-- ===== src/Pktbuf/Prepend.antt =====
-- pktbuf_add_header puts bytes in front of what the packet holds.
use clean_os.Base.{
  ℕ, ◌+◌, ◌-◌, ◌≤◌, ◌<◌, ◌≡◌, refl, ap, subst, ◌∙◌, Bool, true, false, none, some, List, [], ◌∷◌,
  ◌++◌, ltb, leb, if◌then◌else◌, drop, drop_append_of_le, arith, Bool-cases, inl, inr, ltb→lt, sym,
}
use clean_os.Pktbuf.Store.{Blk, Pool, Buf, err_none, blk_size, set_blk}
use clean_os.Pktbuf.Chain.{pktblock_alloc_list}
use clean_os.Pktbuf.Header.{Outcome, put_front, add_header_to, add_header}
use clean_os.Pktbuf.Access.{slice}
use clean_os.Pktbuf.Content.{content, blk_bytes, IsPacket, IsValid, drop-slice, length-slice}
use clean_os.Pktbuf.Remove.{IsPacket-set_first, content-set_first}
use clean_os.Pktbuf.Draw.{pktblock_alloc_list_none}
use clean_os.Pktbuf.Insert.{with_blks}
use clean_os.Pktbuf.Front.{Prepended, Lacks, Adds, put_front-Adds}

-- The first block gets `n` bytes that were free in front of its data.
abbrev wider : Blk → ℕ → Blk
wider b n = record b { size = b.size + n; data_off = b.data_off - n }

Prepended-first :
    (p : Pool) (t n x : ℕ) (xs : List ℕ)
    → IsPacket p t (x ∷ xs)
    → n ≤ (p.blk x).data_off
    → Prepended p t (x ∷ xs) n (set_blk p x (wider (p.blk x) n)) (t + n) (x ∷ xs)
Prepended-first p t n x xs v h =
    let b = p.blk x in
    let w = wider b n in
    let l = length-slice b.payload w.data_off w.size in
    let e₁ : w.data_off + n ≡ b.data_off = omega arith in
    let e₂ : w.size - n ≡ b.size = omega arith in
    (
      refl,
      ap (drop n) (content-set_first p x w xs v.distinct.0)
          ∙ drop_append_of_le n (blk_bytes w) (content p.blk xs) (omega (arith, l))
          ∙ ap (λ s. s ++ content p.blk xs)
              (drop-slice b.payload w.data_off w.size n (omega arith)
                ∙ ap (λ o. slice b.payload o (w.size - n)) e₁
                ∙ ap (slice b.payload b.data_off) e₂),
      IsPacket-set_first w (t + n) v (omega (arith, v.fits.0)) (omega arith),
      refl,
    )

Prepended-none : (p : Pool) (t : ℕ) (xs : List ℕ) → IsPacket p t xs → Prepended p t xs 0 p t xs
Prepended-none p t xs v = (omega arith, refl, v, refl)

Adds-weaken :
    (p : Pool) (buf : Buf) (s s' k r : ℕ) (cont : Bool) (o : Outcome)
    → s ≡ s'
    → k ≤ r
    → r < s'
    → Adds p buf s cont k o
    → Adds p buf s' cont r o
Adds-weaken p buf s s' k r cont none e le lt h = h
Adds-weaken p buf s s' k r cont (some (err, p', buf')) e le lt (inl (ok, done)) = inl (
  ok,
  subst (λ n. Prepended p buf.total_size buf.blk_list n p' buf'.total_size buf'.blk_list) e done,
)
Adds-weaken p buf s s' k r cont (some (err, p', buf')) e le lt
      (inr (n, refused, h, _, done, lacks)) =
    inr (n, refused, omega arith, lt, done, subst (λ m. Lacks p m cont) e lacks)

add_header_to-Adds :
    (p : Pool) (buf : Buf) (x size : ℕ) (xs : List ℕ) (t : ℕ) (cont : Bool)
    → IsPacket p t (x ∷ xs)
    → Adds p
        (with_blks buf t (x ∷ xs))
        size
        cont
        (p.blk x).data_off
        (add_header_to p (with_blks buf t (x ∷ xs)) x size cont)
unfolding add_header_to
add_header_to-Adds p buf x size xs t cont v = elim (Bool-cases (leb size (p.blk x).data_off)) [
  | inl small ↦ rw small (inl (refl, Prepended-first p t size x xs v (ground arith)))
  | inr large ↦ let over : (p.blk x).data_off < size = ground arith in rw large (split cont over)
]
  where
    old : Buf
    old = with_blks buf t (x ∷ xs)

    resv : ℕ
    resv = (p.blk x).data_off

    split :
        (c : Bool)
        → resv < size
        → Adds p old size c resv (
            if c
            then (if ltb blk_size size
                then some (err_none, p, old)
                else put_front (pktblock_alloc_list p size true) old)
            else put_front
                (pktblock_alloc_list
                  (set_blk p x (record (p.blk x) { size = (p.blk x).size + resv; data_off = 0 }))
                  (size - resv)
                  true)
                (record old { total_size = t + resv }))
    split true over = elim (Bool-cases (ltb blk_size size)) [
      | inl too_large ↦ rw too_large (
          inr (
            0,
            refl,
            omega arith,
            over,
            Prepended-none p t (x ∷ xs) v,
            inr (refl, ltb→lt blk_size size too_large),
          ))
      | inr fits ↦ rw fits (
          Adds-weaken p old (0 + size) size 0 resv true _ (omega arith) (omega arith) over (
            put_front-Adds p p old true 0 size t (x ∷ xs) refl (Prepended-none p t (x ∷ xs) v)
              (omega arith)))
    ]
    split false over =
        let b = p.blk x in
        let none_left : b.data_off - b.data_off ≡ 0 = omega arith in
        let grown =
          subst
            (λ d.
              Prepended p t (x ∷ xs) resv
                (set_blk p x (record b { size = b.size + resv; data_off = d })) (t + resv) (x ∷ xs))
            none_left (Prepended-first p t resv x xs v (omega arith)) in
        Adds-weaken p old (resv + (size - resv)) size resv resv false _ (omega arith) (omega arith)
          over
          (put_front-Adds p _ old false resv (size - resv) (t + resv) (x ∷ xs) refl grown
            (omega arith))

add_header_at :
    (p : Pool) (buf : Buf) (size x : ℕ) (xs ys : List ℕ) (t : ℕ) (cont : Bool)
    → IsPacket p t ys
    → ys ≡ x ∷ xs
    → Adds p
        (with_blks buf t ys)
        size
        cont
        (p.blk x).data_off
        (add_header p (with_blks buf t ys) size cont)
unfolding add_header
add_header_at p buf size x xs ys t cont v e =
    subst
      (λ l.
        IsPacket p t l
        → Adds p (with_blks buf t l) size cont (p.blk x).data_off
            (add_header p (with_blks buf t l) size cont))
      (sym e) (add_header_to-Adds p buf x size xs t cont) v

-- `pktbuf_add_header` on a valid packet whose first block is `x` returns 0 and puts exactly `size`
-- bytes in front of the bytes held, which stay as they are; or it returns NET_ERR_NONE and has put
-- at most the bytes in front of them that were free in `x`, fewer than `size`. It fails only where
-- 64 times the number of free blocks is less than `size`, or more than 64 contiguous bytes are
-- asked for. The packet is valid either way and no block is lost.
pub add_header-Adds :
    (p : Pool) (buf : Buf) (size : ℕ) (cont : Bool) (x : ℕ) (xs : List ℕ)
    → IsValid p buf
    → buf.blk_list ≡ x ∷ xs
    → Adds p buf size cont (p.blk x).data_off (add_header p buf size cont)
add_header-Adds p buf size cont x xs v e =
    add_header_at p buf size x xs buf.blk_list buf.total_size cont v e

-- Where no block is free and more bytes are asked for than are free in front of the first block,
-- `pktbuf_add_header` without `cont` returns NET_ERR_NONE, but the packet has grown by the bytes
-- that were free in front.
pub add_header_partial :
    (p : Pool) (buf : Buf) (size x : ℕ) (xs : List ℕ)
    → buf.blk_list ≡ x ∷ xs
    → p.free_blks ≡ []
    → (p.blk x).data_off < size
    → (p' : Pool) × (buf' : Buf) × (add_header p buf size false ≡ some (err_none, p', buf'))
      × (buf'.total_size ≡ buf.total_size + (p.blk x).data_off)
unfolding add_header add_header_to put_front
add_header_partial p buf size x xs e empty h =
    let b = p.blk x in
    let p' = set_blk p x (record b { size = b.size + b.data_off; data_off = 0 }) in
    (
      p',
      record buf { total_size = buf.total_size + b.data_off },
      ground (arith, pktblock_alloc_list_none p' (size - b.data_off) true (omega arith) empty),
      refl,
    )
