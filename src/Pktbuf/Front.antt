-- ===== src/Pktbuf/Front.antt =====
-- The end of pktbuf_add_header: new blocks in front of a packet.
use clean_os.Base.{
  ℕ, ◌+◌, ◌-◌, ◌≤◌, ◌<◌, ◌≡◌, refl, ap, subst, ◌∙◌, Bool, true, none, some, List, [], ◌∷◌, length,
  drop, drop_append_of_ge, apart_flip, arith, ◌⊎◌, inl, inr, length-append, ◌*◌,
}
use clean_os.Pktbuf.Store.{Pool, Buf, err_ok, err_none, blk_size}
use clean_os.Pktbuf.Chain.{pktblock_alloc_list, insert_blk_list}
use clean_os.Pktbuf.Header.{Outcome, put_front}
use clean_os.Pktbuf.Content.{
  content, sizes, IsPacket, length-content, content-Agree, content-append,
}
use clean_os.Pktbuf.Taken.{IsPacket-append}
use clean_os.Pktbuf.Draw.{Drawn, Refused, Draws, pktblock_alloc_list-Draws}
use clean_os.Pktbuf.Insert.{with_blks, insert_first_lem, Drawn-keeps, Refused-keeps}

-- The packet has `n` more bytes in front of those that it held, and every block is still in it or
-- in the pool.
abbrev pub Prepended : Pool → ℕ → List ℕ → ℕ → Pool → ℕ → List ℕ → Type 0
Prepended p t xs n p' t' xs' =
    (t' ≡ t + n)
    × (drop n (content p'.blk xs') ≡ content p.blk xs)
    × IsPacket p' t' xs'
    × (length p'.free_blks + length xs' ≡ length p.free_blks + length xs)

-- Why `size` bytes cannot be added: too few blocks are free, or they cannot be contiguous.
abbrev pub Lacks : Pool → ℕ → Bool → Type 0
Lacks p size cont = (length p.free_blks * blk_size < size) ⊎ ((cont ≡ true) × (blk_size < size))

-- What `pktbuf_add_header` is to do: on success there are `size` more bytes in front; on failure at
-- most the `resv` bytes that were free in front of the first block.
abbrev pub Adds : Pool → Buf → ℕ → Bool → ℕ → Outcome → Type 0
Adds p buf size cont resv none = ⊥
Adds p buf size cont resv (some (e, p', buf')) =
    ((e ≡ err_ok) × Prepended p buf.total_size buf.blk_list size p' buf'.total_size buf'.blk_list)
    ⊎ ((n : ℕ) × (e ≡ err_none)
        × (n ≤ resv)
        × (resv < size)
        × Prepended p buf.total_size buf.blk_list n p' buf'.total_size buf'.blk_list
        × Lacks p size cont)

-- The end of the function, on a packet that has grown by `k` in the pool `q`.
module _ (p q : Pool) (buf : Buf) (cont : Bool) (k n t : ℕ) (xs : List ℕ)
    (same_free : length q.free_blks ≡ length p.free_blks)
    (grown : Prepended p buf.total_size buf.blk_list k q t xs) (pos : 0 < n) where
  put_front-Drawn :
      (c : List ℕ) (p' : Pool)
      → Drawn q [] n c p'
      → Adds p buf (k + n) cont k (put_front (c, p') (with_blks buf t xs))
  unfolding put_front insert_blk_list
  put_front-Drawn [] p' r = absurd (omega (arith, r.packet.size_right))
  put_front-Drawn (x ∷ c) p' r =
      let (v, same, out) = Drawn-keeps q p' n t (x ∷ c) xs r (grown.2) in
      let l = length-content p'.blk (x ∷ c) in
      let whole = IsPacket-append r.packet v (apart_flip xs (x ∷ c) out) in
      let sum : t + sizes p'.blk (x ∷ c) ≡ n + t = omega (arith, r.packet.size_right) in
      rw (insert_first_lem p' buf t (x ∷ c) xs r.packet.distinct, sum)
        (inl (
          refl,
          (
            omega (arith, grown.0),
            ap (drop (k + n)) (content-append p'.blk (x ∷ c) xs)
                ∙ drop_append_of_ge (k + n) (content p'.blk (x ∷ c)) (content p'.blk xs)
                    (omega (arith, l, r.packet.size_right))
                ∙ ap (λ m. drop m (content p'.blk xs)) {x = k + n - length (content p'.blk (x ∷ c))}
                    {y = k} (omega (arith, l, r.packet.size_right))
                ∙ ap (drop k) (content-Agree q.blk p'.blk xs same)
                ∙ grown.1,
            whole,
            omega (arith, grown.3, r.count, length-append (x ∷ c) xs),
          ),
        ))

  put_front-Refused :
      (c : List ℕ) (p' : Pool)
      → Refused q [] n c p'
      → Adds p buf (k + n) cont k (put_front (c, p') (with_blks buf t xs))
  unfolding put_front
  put_front-Refused [] p' r =
      let (v, same) = Refused-keeps q p' n t [] xs r (grown.2) in
      inr (
        k,
        refl,
        omega arith,
        omega arith,
        (
          grown.0,
          ap (drop k) (content-Agree q.blk p'.blk xs same) ∙ grown.1,
          v,
          omega (arith, grown.3, r.count),
        ),
        inl (omega (arith, r.too_few)),
      )
  put_front-Refused (x ∷ c) p' r = absurd (omega (arith, ap length r.null))

  pub put_front-Adds :
      Adds p buf (k + n) cont k (put_front (pktblock_alloc_list q n true) (with_blks buf t xs))
  put_front-Adds =
      split (pktblock_alloc_list q n true)
        (pktblock_alloc_list-Draws q n true (grown.2).free_distinct)
    where
      split :
          (o : List ℕ × Pool)
          → Draws q [] 0 n o
          → Adds p buf (k + n) cont k (put_front o (with_blks buf t xs))
      split (c, p') (inl r) =
          let e : 0 + n ≡ n = omega arith in
          put_front-Drawn c p' (subst (λ m. Drawn q [] m c p') e r)
      split (c, p') (inr r) = put_front-Refused c p' r
