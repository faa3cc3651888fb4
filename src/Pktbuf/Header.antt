-- ===== src/Pktbuf/Header.antt =====
-- kernel/net/pktbuf.c: adding and removing bytes at the front of a packet, and making its first
-- bytes contiguous. `none` is a fault: a null block is followed.
use clean_os.Base.{
  ℕ, zero, suc, ◌+◌, ◌-◌, min, Bool, true, false, Option, none, some, List, [], ◌∷◌, ltb, leb, ◌==◌,
  if◌then◌else◌, ◌&&◌,
}
use clean_os.Pktbuf.Store.{
  Pool, Buf, NetErr, err_ok, err_none, err_size, blk_size, set_blk, pktblock_free, remove,
}
use clean_os.Pktbuf.Chain.{pktblock_alloc_list, insert_blk_list}

abbrev pub Outcome : Type 0
Outcome = Option (NetErr × Pool × Buf)

-- The end of `pktbuf_add_header`, with the result of `pktblock_alloc_list`.
unfoldable pub put_front : List ℕ × Pool → Buf → Outcome
put_front ([], p) buf = some (err_none, p, buf)
put_front (x ∷ xs, p) buf = some (err_ok, p, insert_blk_list p buf (x ∷ xs) false)

unfoldable pub add_header_to : Pool → Buf → ℕ → ℕ → Bool → Outcome
add_header_to p buf x size cont =
    let b = p.blk x in
    let resv_size = b.data_off in
    let p₁ = set_blk p x (record b { size = b.size + size; data_off = b.data_off - size }) in
    let p₂ = set_blk p x (record b { size = b.size + resv_size; data_off = 0 }) in
    if leb size resv_size
    then some (err_ok, p₁, record buf { total_size = buf.total_size + size })
    else if cont
    then (if ltb blk_size size
        then some (err_none, p, buf)
        else put_front (pktblock_alloc_list p size true) buf)
    else put_front (pktblock_alloc_list p₂ (size - resv_size) true)
        (record buf { total_size = buf.total_size + resv_size })

unfoldable pub add_header : Pool → Buf → ℕ → Bool → Outcome
add_header p buf size cont = elim buf.blk_list [
  | [] ↦ none
  | x ∷ xs ↦ add_header_to p buf x size cont
]

-- The loop of `pktbuf_remove_header` over the blocks of the packet.
unfoldable pub remove_header_loop : List ℕ → Pool → Buf → ℕ → Outcome
remove_header_loop [] p buf size = if size == 0 then some (err_ok, p, buf) else none
remove_header_loop (x ∷ xs) p buf size =
    let b = p.blk x in
    let rest =
      remove_header_loop xs (pktblock_free p x)
        (record buf { blk_list = xs; total_size = buf.total_size - b.size }) (size - b.size) in
    if size == 0
    then some (err_ok, p, buf)
    else if ltb size b.size
    then some (
      err_ok,
      set_blk p x (record b { size = b.size - size; data_off = b.data_off + size }),
      record buf { total_size = buf.total_size - size },
    )
    else rest

unfoldable pub remove_header : Pool → Buf → ℕ → Outcome
remove_header p buf size = remove_header_loop buf.blk_list p buf size

-- `memcpy` of `n` bytes between two payloads, or downwards within one.
unfoldable pub copy_bytes : ℕ → (ℕ → ℕ) → ℕ → (ℕ → ℕ) → ℕ → ℕ → ℕ
copy_bytes n dest to src from i =
    if leb to i && ltb i (to + n) then src (from + (i - to)) else dest i

-- The byte loop that moves the data of the first block to its start; round `i` reads behind what
-- the rounds before it have written.
unfoldable pub shift_down : ℕ → ℕ → ℕ → (ℕ → ℕ) → ℕ → ℕ
shift_down zero i data_off payload = payload
shift_down (suc n) i data_off payload =
    shift_down n (i + 1) data_off (λ j. if j == i then payload (data_off + i) else payload j)

-- The loop of `pktbuf_set_cont` over the blocks behind the first. `dest` points behind the data of
-- the first block, which starts its payload.
unfoldable pub gather : List ℕ → Pool → Buf → ℕ → ℕ → Pool × Buf
gather [] p buf first remain_size = (p, buf)
gather (x ∷ xs) p buf first remain_size =
    let c = p.blk x in
    let f = p.blk first in
    let curr_size = min c.size remain_size in
    let p₁ = set_blk p first (record f {
      payload = copy_bytes curr_size f.payload f.size c.payload c.data_off;
      size = f.size + curr_size;
    }) in
    let p₂ =
      set_blk p₁ x (record c { data_off = c.data_off + curr_size; size = c.size - curr_size }) in
    let rest =
      gather xs (pktblock_free p₂ x) (record buf { blk_list = remove x buf.blk_list }) first
        (remain_size - curr_size) in
    if remain_size == 0 then (p, buf) else if c.size - curr_size == 0 then rest else (p₂, buf)

unfoldable pub set_cont : Pool → Buf → ℕ → Outcome
set_cont p buf size =
    if ltb buf.total_size size
    then some (err_size, p, buf)
    else if ltb blk_size size
    then some (err_size, p, buf)
    else elim buf.blk_list [
      | [] ↦ none
      | x ∷ xs ↦
          let f = p.blk x in
          let p' =
            set_blk p x
              (record f { payload = shift_down f.size 0 f.data_off f.payload; data_off = 0 }) in
          let (p'', buf') = gather xs p' buf x (size - f.size) in
          if leb size f.size then some (err_ok, p, buf) else some (err_ok, p'', buf')
    ]
