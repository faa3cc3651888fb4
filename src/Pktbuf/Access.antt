-- ===== src/Pktbuf/Access.antt =====
-- kernel/net/pktbuf.c: reading, writing and moving the place in a packet. `none` is a fault: a null
-- block is followed, or the place lies behind the data of its block.
use clean_os.Base.{
  ℕ, zero, suc, ◌+◌, ◌-◌, min, Bool, true, false, Option, none, some, List, [], ◌∷◌, ◌++◌, ltb, leb,
  ◌==◌, if◌then◌else◌, ◌||◌, length, take, drop, get_elem?,
}
use clean_os.Pktbuf.Store.{Pool, Buf, NetErr, err_ok, err_param, err_size, set_blk, head, blk_next}

infixl 5 ◌>>=◌
abbrev pub ◌>>=◌ {ℓ κ} : {A : Type ℓ} {B : Type κ} → Option A → (A → Option B) → Option B
none >>= f = none
some a >>= f = f a

-- `total_blk_remain(buf) < size`; the difference can be negative in the source.
abbrev pub short_of : Buf → ℕ → Bool
short_of buf size = ltb buf.total_size (buf.pos + size)

unfoldable pub curr_blk_remain : Pool → Buf → Option ℕ
curr_blk_remain p buf = elim buf.curr_blk [
  | none ↦ some 0
  | some x ↦
      let end = (p.blk x).data_off + (p.blk x).size in
      if ltb end buf.blk_offset then none else some (end - buf.blk_offset)
]

-- The place at the start of a block, or nowhere.
unfoldable pub go_to : Pool → Buf → ℕ → Option ℕ → Buf
go_to p buf pos none = record buf { pos = pos; curr_blk = none; blk_offset = 0 }
go_to p buf pos (some y) = record buf {
  pos = pos;
  curr_blk = some y;
  blk_offset = (p.blk y).data_off;
}

unfoldable pub move_forward : Pool → Buf → ℕ → Option Buf
move_forward p buf size = elim buf.curr_blk [
  | none ↦ none
  | some x ↦
      let off = buf.blk_offset + size in
      if leb ((p.blk x).data_off + (p.blk x).size) off
      then some (go_to p buf (buf.pos + size) (blk_next x buf.blk_list))
      else some (record buf { pos = buf.pos + size; blk_offset = off })
]

-- The `n` bytes of a payload from an offset on.
unfoldable pub slice : (ℕ → ℕ) → ℕ → ℕ → List ℕ
slice payload off zero = []
slice payload off (suc n) = payload off ∷ slice payload (off + 1) n

-- `memcpy` of a list of bytes into the current block.
unfoldable pub write_here : Pool → Buf → List ℕ → Pool
write_here p buf bytes = elim buf.curr_blk [
  | none ↦ p
  | some x ↦ set_blk p x (record (p.blk x) {
    payload = λ i. elim (leb buf.blk_offset i) [
      | false ↦ (p.blk x).payload i
      | true ↦ elim (get_elem? bytes (i - buf.blk_offset)) [
        | none ↦ (p.blk x).payload i
        | some v ↦ v
      ]
    ];
  })
]

-- `memcpy` of `n` bytes out of the current block.
unfoldable pub read_here : Pool → Buf → ℕ → List ℕ
read_here p buf n = elim buf.curr_blk [
  | none ↦ []
  | some x ↦ slice (p.blk x).payload buf.blk_offset n
]

-- The rounds that a loop over `n` bytes can take: each moves a byte or goes to the next block.
abbrev pub rounds : Buf → ℕ → ℕ
rounds buf n = n + length buf.blk_list + 1

-- The list is the rest of `src`, `size` bytes.
unfoldable pub write_loop : ℕ → Pool → Buf → List ℕ → Option (Pool × Buf)
write_loop zero p buf src = none
write_loop (suc f) p buf src =
    if length src == 0
    then some (p, buf)
    else curr_blk_remain p buf >>= λ n.
        let curr_copy = min (length src) n in
        let p' = write_here p buf (take curr_copy src) in
        move_forward p' buf curr_copy >>= λ buf'. write_loop f p' buf' (drop curr_copy src)

-- The source is not null.
unfoldable pub write : Pool → Buf → List ℕ → Option (NetErr × Pool × Buf)
write p buf src =
    if length src == 0
    then some (err_param, p, buf)
    else if short_of buf (length src)
    then some (err_size, p, buf)
    else write_loop (rounds buf (length src)) p buf src >>= λ (p', buf'). some (err_ok, p', buf')

unfoldable pub read_loop : ℕ → Pool → Buf → ℕ → List ℕ → Option (List ℕ × Buf)
read_loop zero p buf size dest = none
read_loop (suc f) p buf size dest =
    if size == 0
    then some (dest, buf)
    else curr_blk_remain p buf >>= λ n.
        let curr_copy = min size n in
        move_forward p buf curr_copy >>= λ buf'.
        read_loop f p buf' (size - curr_copy) (dest ++ read_here p buf curr_copy)

-- The destination is not null. The list is what is stored there.
unfoldable pub read : Pool → Buf → ℕ → Option (NetErr × List ℕ × Buf)
read p buf size =
    if size == 0
    then some (err_ok, [], buf)
    else if short_of buf size
    then some (err_size, [], buf)
    else read_loop (rounds buf size) p buf size [] >>= λ (bytes, buf'). some (err_ok, bytes, buf')

unfoldable pub seek_loop : ℕ → Pool → Buf → ℕ → Option Buf
seek_loop zero p buf move_bytes = none
seek_loop (suc f) p buf move_bytes =
    if move_bytes == 0
    then some buf
    else curr_blk_remain p buf >>= λ n.
        let curr_move = min move_bytes n in
        move_forward p buf curr_move >>= λ buf'. seek_loop f p buf' (move_bytes - curr_move)

unfoldable pub seek : Pool → Buf → ℕ → Option (NetErr × Buf)
seek p buf offset =
    if buf.pos == offset
    then some (err_ok, buf)
    else if leb buf.total_size offset
    then some (err_size, buf)
    else if ltb offset buf.pos
    then elim (head buf.blk_list) [
      | none ↦ none
      | some x ↦ seek_loop (rounds buf offset) p (go_to p buf 0 (some x)) offset >>= λ buf'.
          some (err_ok, buf')
    ]
    else seek_loop (rounds buf (offset - buf.pos)) p buf (offset - buf.pos) >>= λ buf'.
        some (err_ok, buf')

-- Between two different packets; the bytes read are those of the pool before the write.
unfoldable pub copy_loop : ℕ → Pool → Buf → Buf → ℕ → Option (Pool × Buf × Buf)
copy_loop zero p dest src size = none
copy_loop (suc f) p dest src size =
    if size == 0
    then some (p, dest, src)
    else curr_blk_remain p dest >>= λ m. curr_blk_remain p src >>= λ n.
        let copy_size = min size (min m n) in
        let p' = write_here p dest (read_here p src copy_size) in
        move_forward p' dest copy_size >>= λ dest'.
        move_forward p' src copy_size >>= λ src'. copy_loop f p' dest' src' (size - copy_size)

unfoldable pub copy : Pool → Buf → Buf → ℕ → Option (NetErr × Pool × Buf × Buf)
copy p dest src size =
    if short_of dest size || short_of src size
    then some (err_size, p, dest, src)
    else copy_loop (rounds dest size + rounds src size) p dest src size >>= λ (p', dest', src').
        some (err_ok, p', dest', src')
