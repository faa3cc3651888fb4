-- ===== src/Pktbuf/Resize.antt =====
-- kernel/net/pktbuf.c: `pktbuf_resize`.
use clean_os.Base.{
  ℕ, ◌+◌, ◌-◌, true, false, Option, none, some, List, [], ◌∷◌, ltb, leb, ◌==◌, if◌then◌else◌,
}
use clean_os.Pktbuf.Store.{
  Pool, Buf, NetErr, err_ok, err_none, err_size, err_mem, blk_size, set_blk, pktblock_free, remove,
  last,
}
use clean_os.Pktbuf.Chain.{pktblock_alloc_list, insert_blk_list}
use clean_os.Pktbuf.Header.{Outcome}

-- The end of the branches that take new blocks, with the result of `pktblock_alloc_list`: on
-- failure the given error, else the tail block grown by `remain_size` and the blocks behind it.
unfoldable pub put_back : List ℕ × Pool → NetErr → (Pool → Pool) → Buf → Buf → Outcome
put_back ([], p) e grow buf grown = some (e, p, buf)
put_back (x ∷ xs, p) e grow buf grown =
    some (err_ok, grow p, insert_blk_list (grow p) grown (x ∷ xs) true)

unfoldable pub grow_tail : ℕ → ℕ → Pool → Pool
grow_tail x n p = let b = p.blk x in set_blk p x (record b { size = b.size + n })

unfoldable pub expand : Pool → Buf → ℕ → Outcome
expand p buf to_size = elim (last buf.blk_list) [
  | none ↦ none
  | some x ↦
      let b = p.blk x in
      let inc_size = to_size - buf.total_size in
      let remain_size = blk_size - b.data_off - b.size in
      if leb inc_size remain_size
      then some
          (err_ok, grow_tail x inc_size p, record buf { total_size = buf.total_size + inc_size })
      else put_back (pktblock_alloc_list p (inc_size - remain_size) false) err_none
          (grow_tail x remain_size) buf (record buf { total_size = buf.total_size + remain_size })
]

-- The walk to the last block that stays: that block and those behind it.
unfoldable pub find_tail : Pool → List ℕ → ℕ → ℕ → Option (ℕ × List ℕ)
find_tail p [] total_size to_size = none
find_tail p (x ∷ xs) total_size to_size =
    let sum = total_size + (p.blk x).size in
    if leb to_size sum then some (x, xs) else find_tail p xs sum to_size

-- The loop that removes the blocks behind, with the sum of their sizes.
unfoldable pub cut : List ℕ → Pool → Buf → ℕ → Pool × Buf × ℕ
cut [] p buf total_size = (p, buf, total_size)
cut (x ∷ xs) p buf total_size =
    cut xs (pktblock_free p x) (record buf { blk_list = remove x buf.blk_list })
      (total_size + (p.blk x).size)

unfoldable pub shrink_tail : Pool → Buf → ℕ → ℕ → ℕ → Pool × Buf
shrink_tail p buf x total_size to_size =
    let b = p.blk x in
    (
      set_blk p x (record b { size = b.size - (buf.total_size - total_size - to_size) }),
      record buf { total_size = to_size },
    )

unfoldable pub shrink : Pool → Buf → ℕ → Outcome
shrink p buf to_size = elim (find_tail p buf.blk_list 0 to_size) [
  | none ↦ some (err_size, p, buf)
  | some (x, rest) ↦
      let (p₁, buf₁, total_size) = cut rest p buf 0 in
      let (p₂, buf₂) = shrink_tail p₁ buf₁ x total_size to_size in some (err_ok, p₂, buf₂)
]

unfoldable pub resize : Pool → Buf → ℕ → Outcome
resize p buf to_size =
    if to_size == buf.total_size
    then some (err_ok, p, buf)
    else if buf.total_size == 0
    then put_back (pktblock_alloc_list p to_size false) err_mem (λ q. q) buf buf
    else if ltb buf.total_size to_size
    then expand p buf to_size
    else shrink p buf to_size
