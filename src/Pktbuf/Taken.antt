-- ===== src/Pktbuf/Taken.antt =====
-- pktblock_alloc_list: a chain of the size that was asked for, or every block back in the pool.
use clean_os.Base.{
  ℕ, ◌+◌, ◌≤◌, ◌≡◌, ◌≢◌, sym, ap, subst, ◌∙◌, List, [], ◌∷◌, ◌++◌, append_assoc, append-nil, All,
  NotIn, Distinct, Distinct-append, All-map, All-append, arith,
}
use clean_os.Pktbuf.Store.{Blk, Pool, blk_size, put, set_blk, pktblock_free, pktblock_free_list}
use clean_os.Pktbuf.Content.{
  IsPacket, put_self, put_ne, Agree, sizes-Agree, Fits-Agree, sizes-append,
}

pub pktblock_free_list_lem :
    (p : Pool) (xs : List ℕ) → pktblock_free_list p xs ≡ record p { free_blks = p.free_blks ++ xs }
unfolding pktblock_free_list pktblock_free
pktblock_free_list_lem p [] = ap (λ l. record p { free_blks = l }) (sym (append-nil p.free_blks))
pktblock_free_list_lem p (x ∷ xs) =
    pktblock_free_list_lem (pktblock_free p x) xs
    ∙ ap (λ l. record p { free_blks = l }) (append_assoc p.free_blks (x ∷ []) xs)

-- Two packets without a common block make one.
pub IsPacket-append :
    {p : Pool} {s t : ℕ} {xs ys : List ℕ}
    → IsPacket p s xs
    → IsPacket p t ys
    → All (λ x. NotIn x ys) xs
    → IsPacket p (s + t) (xs ++ ys)
IsPacket-append {p} {s} {t} {xs} {ys} v w apart = record {
  size_right = omega (arith, v.size_right, w.size_right, sizes-append p.blk xs ys);
  fits = All-append _ xs ys v.fits w.fits;
  distinct = Distinct-append xs ys v.distinct w.distinct apart;
  free_distinct = v.free_distinct;
  apart = All-append _ xs ys v.apart w.apart;
}

-- A packet whose blocks are unchanged, in another pool.
pub IsPacket-Agree :
    {p : Pool} {t : ℕ} {xs : List ℕ} (p' : Pool)
    → IsPacket p t xs
    → Agree p.blk p'.blk xs
    → Distinct p'.free_blks
    → All (λ x. NotIn x p'.free_blks) xs
    → IsPacket p' t xs
IsPacket-Agree {p} {t} {xs} p' v same d apart = record {
  size_right = v.size_right ∙ sym (sizes-Agree p.blk p'.blk xs same);
  fits = Fits-Agree p.blk p'.blk xs same v.fits;
  distinct = v.distinct;
  free_distinct = d;
  apart = apart;
}

-- The pool without its first free block, which is set up.
abbrev pub taken : Pool → ℕ → List ℕ → Blk → Pool
taken p x rest b = set_blk (record p { free_blks = rest }) x b

module _ (p : Pool) (x : ℕ) (rest : List ℕ) (b : Blk) (e : p.free_blks ≡ x ∷ rest)
    (d : Distinct p.free_blks) where
  pub free_parts : NotIn x rest × Distinct rest
  free_parts = subst Distinct e d

  pub NotIn-taken : (y : ℕ) → NotIn y p.free_blks → (y ≢ x) × NotIn y rest
  NotIn-taken y h = subst (NotIn y) e h

  pub taken-keeps : {t : ℕ} {xs : List ℕ} → IsPacket p t xs → IsPacket (taken p x rest b) t xs
  taken-keeps {t} {xs} v =
      IsPacket-Agree (taken p x rest b) v
        (All-map (λ y. NotIn y p.free_blks) (λ y. put p.blk x b y ≡ p.blk y)
          (λ y h. put_ne p.blk x y b ((NotIn-taken y h).0)) xs v.apart)
        free_parts.1
        (All-map (λ y. NotIn y p.free_blks) (λ y. NotIn y rest) (λ y h. (NotIn-taken y h).1) xs
          v.apart)

  pub taken-single : b.data_off + b.size ≤ blk_size → IsPacket (taken p x rest b) b.size (x ∷ [])
  taken-single h = record {
    size_right = omega (arith, ap (λ (c : Blk). c.size) (put_self p.blk x b));
    fits = (rw (put_self p.blk x b) h, tt);
    distinct = (tt, tt);
    free_distinct = free_parts.1;
    apart = (free_parts.0, tt);
  }

  pub taken-apart : {t : ℕ} {xs : List ℕ} → IsPacket p t xs → NotIn x xs
  taken-apart {t} {xs} v = go xs v.apart
    where
      go : (ys : List ℕ) → All (λ y. NotIn y p.free_blks) ys → NotIn x ys
      go [] a = tt
      go (y ∷ ys) (h, a) = ((λ q. (NotIn-taken y h).0 (sym q)), go ys a)
