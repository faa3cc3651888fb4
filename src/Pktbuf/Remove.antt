-- ===== src/Pktbuf/Remove.antt =====
-- pktbuf_remove_header takes bytes off the front of what the packet holds.
use clean_os.Base.{
  ℕ, ◌+◌, ◌-◌, ◌≤◌, ◌<◌, ◌≡◌, refl, sym, ap, ◌∙◌, none, some, List, [], ◌∷◌, ◌++◌, ltb, ◌==◌,
  length, drop, length-append, drop_append_of_le, drop_append_of_ge, NotIn, Distinct-append,
  NotIn-append, All-zip, apart_single, arith, Bool-cases, inl, inr, ltb→lt, ltb→le,
}
use clean_os.Pktbuf.Store.{Blk, Pool, Buf, err_ok, blk_size, put, set_blk, pktblock_free}
use clean_os.Pktbuf.Header.{Outcome, remove_header_loop, remove_header}
use clean_os.Pktbuf.Content.{
  content, blk_bytes, IsPacket, IsValid, bytes, block_count, drop-slice, length-slice, put_self,
  Agree-put, content-Agree, sizes-Agree, Fits-Agree,
}

-- A block of the packet goes to the pool.
pub IsPacket-pktblock_free :
    {p : Pool} {total x : ℕ} {xs : List ℕ}
    → IsPacket p total (x ∷ xs)
    → IsPacket (pktblock_free p x) (total - (p.blk x).size) xs
unfolding pktblock_free
IsPacket-pktblock_free {p} {total} {x} {xs} v = record {
  size_right = omega (arith, v.size_right);
  fits = v.fits.1;
  distinct = v.distinct.1;
  free_distinct =
      Distinct-append p.free_blks (x ∷ []) v.free_distinct (tt, tt)
        (apart_single x p.free_blks v.apart.0);
  apart =
      All-zip (λ y. NotIn y p.free_blks) (λ y. NotIn y (x ∷ [])) _
        (λ y a b. NotIn-append y p.free_blks (x ∷ []) a b) xs v.apart.1
        (apart_single x xs v.distinct.0);
}

-- The first block of a packet is changed in place.
pub IsPacket-set_first :
    {p : Pool} {total x : ℕ} {xs : List ℕ} (b : Blk) (total' : ℕ)
    → IsPacket p total (x ∷ xs)
    → b.data_off + b.size ≤ blk_size
    → total' + (p.blk x).size ≡ total + b.size
    → IsPacket (set_blk p x b) total' (x ∷ xs)
IsPacket-set_first {p} {total} {x} {xs} b total' v h e =
    let same = Agree-put p.blk x b xs v.distinct.0 in
    record {
      size_right = omega (
        arith,
        v.size_right,
        sizes-Agree p.blk (put p.blk x b) xs same,
        ap (λ (c : Blk). c.size) (put_self p.blk x b),
      );
      fits = (rw (put_self p.blk x b) h, Fits-Agree p.blk (put p.blk x b) xs same v.fits.1);
      distinct = v.distinct;
      free_distinct = v.free_distinct;
      apart = v.apart;
    }

pub content-set_first :
    (p : Pool) (x : ℕ) (b : Blk) (xs : List ℕ)
    → NotIn x xs
    → content (put p.blk x b) (x ∷ xs) ≡ blk_bytes b ++ content p.blk xs
content-set_first p x b xs out =
    rw (put_self p.blk x b, content-Agree p.blk (put p.blk x b) xs (Agree-put p.blk x b xs out))
      refl

-- What `pktbuf_remove_header` is to do with `size` bytes.
abbrev pub Removes : Pool → Buf → ℕ → Outcome → Type 0
Removes p buf size none = ⊥
Removes p buf size (some (e, p', buf')) =
    (e ≡ err_ok)
    × (bytes p' buf' ≡ drop size (bytes p buf))
    × (buf'.total_size + size ≡ buf.total_size)
    × (block_count p' buf' ≡ block_count p buf)
    × IsValid p' buf'

abbrev with_blks : Buf → ℕ → List ℕ → Buf
with_blks buf total xs = record buf { blk_list = xs; total_size = total }

-- The first block keeps a part of its data.
remove_part :
    (p : Pool) (buf : Buf) (total size x : ℕ) (xs : List ℕ)
    → IsPacket p total (x ∷ xs)
    → size < (p.blk x).size
    → let b = p.blk x in
      Removes p (with_blks buf total (x ∷ xs)) size (
        some (
          err_ok,
          set_blk p x (record b { size = b.size - size; data_off = b.data_off + size }),
          with_blks buf (total - size) (x ∷ xs),
        ))
remove_part p buf total size x xs v h =
    let b = p.blk x in
    let b' : Blk = record b { size = b.size - size; data_off = b.data_off + size } in
    (
      refl,
      content-set_first p x b' xs v.distinct.0
          ∙ ap (λ l. l ++ content p.blk xs)
              (sym (drop-slice b.payload b.data_off b.size size (omega arith)))
          ∙ sym (
              drop_append_of_le size (blk_bytes b) (content p.blk xs)
                (omega (arith, length-slice b.payload b.data_off b.size))),
      omega (arith, v.size_right),
      refl,
      IsPacket-set_first b' (total - size) v (omega (arith, v.fits.0))
          (omega (arith, v.size_right)),
    )

-- The first block goes, and the rest of the bytes are taken off the blocks behind.
Removes-cons :
    (p : Pool) (buf : Buf) (total size x : ℕ) (xs : List ℕ) (o : Outcome)
    → IsPacket p total (x ∷ xs)
    → (p.blk x).size ≤ size
    → Removes
        (pktblock_free p x)
        (with_blks buf (total - (p.blk x).size) xs)
        (size - (p.blk x).size)
        o
    → Removes p (with_blks buf total (x ∷ xs)) size o
unfolding pktblock_free
Removes-cons p buf total size x xs none v h r = r
Removes-cons p buf total size x xs (some (e, p', buf')) v h (ok, same, sum, count, valid) =
    let b = p.blk x in
    let l = length-slice b.payload b.data_off b.size in
    (
      ok,
      same
          ∙ ap (λ k. drop k (content p.blk xs)) {x = size - b.size}
              {y = size - length (blk_bytes b)} (omega (arith, l))
          ∙ sym (drop_append_of_ge size (blk_bytes b) (content p.blk xs) (omega (arith, l))),
      omega (arith, v.size_right),
      omega (arith, length-append p.free_blks (x ∷ [])),
      valid,
    )

remove_header_loop-Removes :
    (xs : List ℕ) (p : Pool) (buf : Buf) (total size : ℕ)
    → IsPacket p total xs
    → size ≤ total
    → Removes p
        (with_blks buf total xs)
        size
        (remove_header_loop xs p (with_blks buf total xs) size)
unfolding remove_header_loop
remove_header_loop-Removes [] p buf total size v h =
    let e : size ≡ 0 = omega (arith, v.size_right) in rw e (refl, refl, omega arith, refl, v)
remove_header_loop-Removes (x ∷ xs) p buf total size v h = elim (Bool-cases (size == 0)) [
  | inl done ↦ let e : size ≡ 0 = ground arith in rw e (refl, refl, omega arith, refl, v)
  | inr more ↦ elim (Bool-cases (ltb size (p.blk x).size)) [
    | inl part ↦
        rw (more, part) (remove_part p buf total size x xs v (ltb→lt size (p.blk x).size part))
    | inr whole ↦
        let le = ltb→le size (p.blk x).size whole in
        rw (more, whole)
          (Removes-cons p buf total size x xs _ v le (
            remove_header_loop-Removes xs (pktblock_free p x) buf (total - (p.blk x).size)
              (size - (p.blk x).size) (IsPacket-pktblock_free v) (omega arith)))
  ]
]

-- On a valid packet, `pktbuf_remove_header` of at most the packet's size returns 0, drops exactly the first `size`
-- bytes of what the packet holds and leaves a valid packet of the remaining size; every block is
-- then still in the packet or in the pool.
pub remove_header-Removes :
    (p : Pool) (buf : Buf) (size : ℕ)
    → IsValid p buf
    → size ≤ buf.total_size
    → Removes p buf size (remove_header p buf size)
unfolding remove_header
remove_header-Removes p buf size v h =
    remove_header_loop-Removes buf.blk_list p buf buf.total_size size v h
