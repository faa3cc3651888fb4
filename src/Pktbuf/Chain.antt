-- ===== src/Pktbuf/Chain.antt =====
-- kernel/net/pktbuf.c: chains of blocks taken from the pool, and packets made and given back.
use clean_os.Base.{
  ℕ, zero, suc, ◌+◌, ◌-◌, min, Bool, true, false, Option, none, some, List, [], ◌∷◌, ◌++◌, ◌==◌,
  if◌then◌else◌,
}
use clean_os.Pktbuf.Store.{
  Pool, Buf, blk_size, set_blk, pktblock_free_list, insert_after, reset_acc,
}

-- The loop of `pktblock_alloc_list` with the chain built so far; a null chain is `[]`. Each round
-- takes at least one byte off `size`, so `size` rounds are enough.
unfoldable pub alloc_loop : ℕ → Bool → Pool → ℕ → List ℕ → List ℕ × Pool
alloc_loop zero add_front p size chain = (chain, p)
alloc_loop (suc f) add_front p size chain = if size == 0 then (chain, p) else elim p.free_blks [
  | [] ↦ ([], pktblock_free_list p chain)
  | x ∷ rest ↦
      let curr_size = min size blk_size in
      let b = record (p.blk x) {
        size = curr_size;
        data_off = if add_front then blk_size - curr_size else 0;
      } in
      alloc_loop f add_front (set_blk (record p { free_blks = rest }) x b) (size - curr_size)
        (if add_front then x ∷ chain else chain ++ (x ∷ []))
]

unfoldable pub pktblock_alloc_list : Pool → ℕ → Bool → List ℕ × Pool
pktblock_alloc_list p size add_front = alloc_loop size add_front p size []

-- The first loop of `pktbuf_insert_blk_list`.
unfoldable pub insert_last : Pool → Buf → List ℕ → Buf
insert_last p buf [] = buf
insert_last p buf (x ∷ xs) =
    insert_last p
      (record buf {
        blk_list = buf.blk_list ++ (x ∷ []);
        total_size = buf.total_size + (p.blk x).size;
      })
      xs

-- The second loop, once there is a block `pre` to insert behind.
unfoldable pub insert_behind : Pool → Buf → ℕ → List ℕ → Buf
insert_behind p buf pre [] = buf
insert_behind p buf pre (x ∷ xs) =
    insert_behind p
      (record buf {
        blk_list = insert_after pre x buf.blk_list;
        total_size = buf.total_size + (p.blk x).size;
      })
      x xs

unfoldable pub insert_first : Pool → Buf → List ℕ → Buf
insert_first p buf [] = buf
insert_first p buf (x ∷ xs) =
    insert_behind p
      (record buf { blk_list = x ∷ buf.blk_list; total_size = buf.total_size + (p.blk x).size }) x
      xs

unfoldable pub insert_blk_list : Pool → Buf → List ℕ → Bool → Buf
insert_blk_list p buf chain add_last =
    if add_last then insert_last p buf chain else insert_first p buf chain

-- A packet of this index with no block.
abbrev pub empty_buf : ℕ → Buf
empty_buf i = record {
  index = i;
  total_size = 0;
  blk_list = [];
  ref = 1;
  pos = 0;
  curr_blk = none;
  blk_offset = 0;
}

-- `none` is the null pointer.
unfoldable pub alloc : Pool → ℕ → Option Buf × Pool
alloc p size = elim p.free_bufs [
  | [] ↦ (none, p)
  | i ∷ rest ↦
      let p₁ = record p { free_bufs = rest } in
      if size == 0
      then (some (reset_acc p₁ (empty_buf i)), p₁)
      else let (chain, p₂) = pktblock_alloc_list p₁ size false in
        elim chain [
          | [] ↦ (none, record p₂ { free_bufs = p₂.free_bufs ++ (i ∷ []) })
          | x ∷ xs ↦ (some (reset_acc p₂ (insert_blk_list p₂ (empty_buf i) (x ∷ xs) true)), p₂)
        ]
]

-- The packet is dead where its count of references has come to 0.
unfoldable pub free : Pool → Buf → Pool × Buf
free p buf =
    let p' = pktblock_free_list p buf.blk_list in
    let buf' = record buf { ref = buf.ref - 1 } in
    if buf.ref == 1
    then (record p' { free_bufs = p'.free_bufs ++ (buf.index ∷ []) }, buf')
    else (p, buf')

-- The loop of `pktbuf_join` over the blocks of `src`.
unfoldable pub join_loop : Pool → Buf → List ℕ → Buf
join_loop p dest [] = dest
join_loop p dest (x ∷ xs) = join_loop p (insert_blk_list p dest (x ∷ []) true) xs

-- `dest` and `src` are different packets. The result is the pool, `dest` and `src`.
unfoldable pub join : Pool → Buf → Buf → Pool × Buf × Buf
join p dest src =
    let (p', src') = free p (record src { blk_list = [] }) in
    (p', join_loop p dest src.blk_list, src')
