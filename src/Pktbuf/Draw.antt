-- ===== src/Pktbuf/Draw.antt =====
-- pktblock_alloc_list: a chain of the size that was asked for, or every block back in the pool.
use clean_os.Base.{
  ℕ, zero, suc, ◌+◌, ◌-◌, ◌*◌, ◌≤◌, ◌<◌, ◌≡◌, ◌≢◌, refl, ap, ◌∙◌, Bool, true, false, List, [], ◌∷◌,
  ◌++◌, min, ◌==◌, if◌then◌else◌, length, length-append, NotIn, Distinct, NotIn-append,
  apart_single, arith, Bool-cases, ◌⊎◌, inl, inr,
}
use clean_os.Pktbuf.Store.{Blk, Pool, blk_size, pktblock_free_list}
use clean_os.Pktbuf.Chain.{alloc_loop, pktblock_alloc_list}
use clean_os.Pktbuf.Content.{IsPacket, put_ne}
use clean_os.Pktbuf.Taken.{
  pktblock_free_list_lem, IsPacket-append, taken, NotIn-taken, taken-keeps, taken-single,
  taken-apart,
}

List-cases : (xs : List ℕ) → (xs ≡ []) ⊎ ((x : ℕ) × (rest : List ℕ) × (xs ≡ x ∷ rest))
List-cases [] = inl refl
List-cases (x ∷ rest) = inr (x, rest, refl)

-- A chain has grown from `chain` to `c`, with blocks that were free, to a packet of this size.
pub record Drawn (p : Pool) (chain : List ℕ) (size : ℕ) (c : List ℕ) (p' : Pool) : Type 0 where
  pub packet : IsPacket p' size c
  pub bufs : p'.free_bufs ≡ p.free_bufs
  pub count : length p'.free_blks + length c ≡ length p.free_blks + length chain
  pub keeps :
      (y : ℕ)
      → NotIn y p.free_blks
      → (p'.blk y ≡ p.blk y) × NotIn y p'.free_blks × (NotIn y chain → NotIn y c)

-- There were too few free blocks: those of the chain are free, too.
pub record Refused (p : Pool) (chain : List ℕ) (size : ℕ) (c : List ℕ) (p' : Pool) : Type 0 where
  pub null : c ≡ []
  pub too_few : length p.free_blks * blk_size < size
  pub bufs : p'.free_bufs ≡ p.free_bufs
  pub count : length p'.free_blks ≡ length p.free_blks + length chain
  pub distinct : Distinct p'.free_blks
  pub keeps :
      (y : ℕ) → NotIn y p.free_blks → (p'.blk y ≡ p.blk y) × (NotIn y chain → NotIn y p'.free_blks)

-- What drawing `size` bytes onto a chain of size `t` does.
abbrev pub Draws : Pool → List ℕ → ℕ → ℕ → List ℕ × Pool → Type 0
Draws p chain t size (c, p') = Drawn p chain (t + size) c p' ⊎ Refused p chain size c p'

-- The chain with a new block.
abbrev longer : Bool → List ℕ → ℕ → List ℕ
longer add_front chain x = if add_front then x ∷ chain else chain ++ (x ∷ [])

-- The block that is set up for a round.
abbrev fresh : Bool → Pool → ℕ → ℕ → Blk
fresh add_front p x size = record (p.blk x) {
  size = min size blk_size;
  data_off = if add_front then blk_size - min size blk_size else 0;
}

alloc_loop_step :
    (f : ℕ) (front : Bool) (p : Pool) (size x : ℕ) (chain rest : List ℕ)
    → 0 < size
    → p.free_blks ≡ x ∷ rest
    → alloc_loop (suc f) front p size chain
      ≡ alloc_loop f front
          (taken p x rest (fresh front p x size))
          (size - min size blk_size)
          (longer front chain x)
unfolding alloc_loop
alloc_loop_step f front p size x chain rest pos e = ground arith

alloc_loop_none :
    (f : ℕ) (front : Bool) (p : Pool) (size : ℕ) (chain : List ℕ)
    → 0 < size
    → p.free_blks ≡ []
    → alloc_loop (suc f) front p size chain ≡ ([], pktblock_free_list p chain)
unfolding alloc_loop
alloc_loop_none f front p size chain pos e = ground arith

Drawn-same :
    (p : Pool) (t size : ℕ) (chain : List ℕ)
    → IsPacket p t chain
    → size ≡ 0
    → Drawn p chain (t + size) chain p
Drawn-same p t size chain v e =
    let same : t + size ≡ t = omega arith in
    record { packet = rw same v; bufs = refl; count = refl; keeps = λ y h. (refl, h, λ k. k) }

Refused-empty :
    (p : Pool) (t size : ℕ) (chain : List ℕ)
    → IsPacket p t chain
    → 0 < size
    → p.free_blks ≡ []
    → Refused p chain size [] (pktblock_free_list p chain)
Refused-empty p t size chain v pos e = rw (pktblock_free_list_lem p chain) (record {
  null = refl;
  too_few = omega (arith, ap length e);
  bufs = refl;
  count = length-append p.free_blks chain;
  distinct = rw e v.distinct;
  keeps = λ y h. (refl, λ k. NotIn-append y p.free_blks chain h k);
})

module _ (p : Pool) (x : ℕ) (rest : List ℕ) (e : p.free_blks ≡ x ∷ rest) (t size : ℕ)
    (chain : List ℕ) (v : IsPacket p t chain) where
  -- A round keeps the chain a packet.
  longer-IsPacket :
      (front : Bool)
      → IsPacket
          (taken p x rest (fresh front p x size))
          (t + min size blk_size)
          (longer front chain x)
  longer-IsPacket true =
      let b = fresh true p x size in
      let both =
        IsPacket-append (taken-single p x rest b e v.free_distinct (omega arith))
          (taken-keeps p x rest b e v.free_distinct v)
          (taken-apart p x rest b e v.free_distinct v, tt) in
      let swap : t + min size blk_size ≡ min size blk_size + t = omega arith in rw swap both
  longer-IsPacket false =
      let b = fresh false p x size in
      IsPacket-append (taken-keeps p x rest b e v.free_distinct v)
        (taken-single p x rest b e v.free_distinct (omega arith))
        (apart_single x chain (taken-apart p x rest b e v.free_distinct v))

  NotIn-longer : (front : Bool) (y : ℕ) → y ≢ x → NotIn y chain → NotIn y (longer front chain x)
  NotIn-longer true y ne h = (ne, h)
  NotIn-longer false y ne h = NotIn-append y chain (x ∷ []) h (ne, tt)

  length-longer : (front : Bool) → length (longer front chain x) ≡ length chain + 1
  length-longer true = omega arith
  length-longer false = length-append chain (x ∷ [])

  Draws-step :
      (front : Bool) (o : List ℕ × Pool)
      → 0 < size
      → Draws
          (taken p x rest (fresh front p x size))
          (longer front chain x)
          (t + min size blk_size)
          (size - min size blk_size)
          o
      → Draws p chain t size o
  Draws-step front (c, p') pos (inl r) =
      let sum : t + size ≡ t + min size blk_size + (size - min size blk_size) = omega arith in
      inl (record {
        packet = rw sum r.packet;
        bufs = r.bufs;
        count = omega (arith, r.count, length-longer front, ap length e);
        keeps = λ y h.
            let (ne, out) = NotIn-taken p x rest (fresh front p x size) e v.free_distinct y h in
            let (same, free, chained) = r.keeps y out in
            (
              same ∙ put_ne p.blk x y (fresh front p x size) ne,
              free,
              λ k. chained (NotIn-longer front y ne k),
            );
      })
  Draws-step front (c, p') pos (inr r) = inr (record {
    null = r.null;
    too_few = omega (arith, r.too_few, ap length e);
    bufs = r.bufs;
    count = omega (arith, r.count, length-longer front, ap length e);
    distinct = r.distinct;
    keeps = λ y h.
        let (ne, out) = NotIn-taken p x rest (fresh front p x size) e v.free_distinct y h in
        let (same, freed) = r.keeps y out in
        (same ∙ put_ne p.blk x y (fresh front p x size) ne, λ k. freed (NotIn-longer front y ne k));
  })

alloc_loop-Draws :
    (f : ℕ) (front : Bool) (p : Pool) (t size : ℕ) (chain : List ℕ)
    → IsPacket p t chain
    → size ≤ f
    → Draws p chain t size (alloc_loop f front p size chain)
unfolding alloc_loop
alloc_loop-Draws zero front p t size chain v h = inl (Drawn-same p t size chain v (omega arith))
alloc_loop-Draws (suc f) front p t size chain v h = elim (Bool-cases (size == 0)) [
  | inl done ↦ rw done (inl (Drawn-same p t size chain v (ground arith)))
  | inr more ↦
      let pos : 0 < size = ground arith in
      elim (List-cases p.free_blks) [
        | inl e ↦
            rw (alloc_loop_none f front p size chain pos e)
              (inr (Refused-empty p t size chain v pos e))
        | inr (x, rest, e) ↦ rw (alloc_loop_step f front p size x chain rest pos e) (
            Draws-step p x rest e t size chain v front _ pos (
              alloc_loop-Draws f front (taken p x rest (fresh front p x size))
                (t + min size blk_size) (size - min size blk_size) (longer front chain x)
                (longer-IsPacket p x rest e t size chain v front) (omega arith)))
      ]
]

-- Where no block is free twice, `pktblock_alloc_list` takes blocks that were free and makes of them a well-formed chain of
-- exactly `size` bytes, and changes no other block; or, only where 64 times the number of free
-- blocks is less than `size`, it returns null and every block is free again.
pub pktblock_alloc_list-Draws :
    (p : Pool) (size : ℕ) (front : Bool)
    → Distinct p.free_blks
    → Draws p [] 0 size (pktblock_alloc_list p size front)
unfolding pktblock_alloc_list
pktblock_alloc_list-Draws p size front d =
    alloc_loop-Draws size front p 0 size []
      (record { size_right = refl; fits = tt; distinct = tt; free_distinct = d; apart = tt })
      (omega arith)

-- With no free block, `pktblock_alloc_list` of some bytes returns null and changes nothing.
pub pktblock_alloc_list_none :
    (p : Pool) (size : ℕ) (front : Bool)
    → 0 < size
    → p.free_blks ≡ []
    → pktblock_alloc_list p size front ≡ ([], p)
unfolding pktblock_alloc_list pktblock_free_list
pktblock_alloc_list_none p zero front pos e = absurd (omega arith)
pktblock_alloc_list_none p (suc n) front pos e = alloc_loop_none n front p (suc n) [] pos e
