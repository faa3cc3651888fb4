-- ===== src/Pktbuf/Sum.antt =====
-- kernel/net/pktbuf.c: the Internet checksum over memory and over a packet, and filling a packet.
pub mod Weigh
use clean_os.Base.{
  ℕ, zero, suc, ◌+◌, ◌-◌, ◌*◌, ◌/◌, ◌%◌, ◌^◌, min, Bool, true, false, Option, none, some, List, [],
  ◌∷◌, ◌==◌, ltb, if◌then◌else◌, replicate,
}
use clean_os.Bitmap.{u32}
use clean_os.Pktbuf.Store.{Pool, Buf, NetErr, err_ok, err_param, err_size}
use clean_os.Pktbuf.Access.{◌>>=◌, short_of, curr_blk_remain, move_forward, write_here, rounds}

-- The loop over words and the byte that is left; the bytes from `off` on are `len`. A word is read
-- low byte first.
unfoldable pub sum_words : ℕ → (ℕ → ℕ) → ℕ → ℕ → ℕ
sum_words zero buf off checksum = checksum
sum_words (suc zero) buf off checksum = u32 (checksum + buf off)
sum_words (suc (suc len)) buf off checksum =
    sum_words len buf (off + 2) (u32 (checksum + (buf off + 256 * buf (off + 1))))

-- The loop that folds the upper half in. Two rounds are enough.
unfoldable pub fold : ℕ → ℕ → ℕ
fold zero checksum = checksum
fold (suc n) checksum =
    let rest = fold n (checksum / 2 ^ 16 + checksum % 2 ^ 16) in
    if checksum / 2 ^ 16 == 0 then checksum else rest

-- The end of the functions: a `uint16_t`, inverted where `complement` is not 0.
unfoldable pub finish : Bool → ℕ → ℕ
finish complement checksum =
    if complement then 2 ^ 16 - 1 - checksum % 2 ^ 16 else checksum % 2 ^ 16

-- `checksum16` of the `len` bytes from `off` on, where `offset` is their offset in the packet.
unfoldable pub checksum16 : ℕ → (ℕ → ℕ) → ℕ → ℕ → ℕ → Bool → ℕ
checksum16 offset buf off len pre_sum complement =
    let sum =
      if offset % 2 == 1
      then sum_words ((len + 2 ^ 16 - 1) % 2 ^ 16) buf (off + 1) (u32 (pre_sum + buf off * 256))
      else sum_words len buf off pre_sum in
    finish complement (fold 2 sum)

-- `checksum16` of the `n` bytes of the current block from the place on.
unfoldable pub sum_here : Pool → Buf → ℕ → ℕ → ℕ → Option ℕ
sum_here p buf offset n sum = elim buf.curr_blk [
  | none ↦ none
  | some x ↦ some (checksum16 offset (p.blk x).payload buf.blk_offset n sum false)
]

unfoldable pub checksum_loop : ℕ → Pool → Buf → ℕ → ℕ → ℕ → Option (ℕ × Buf)
checksum_loop zero p buf size sum offset = none
checksum_loop (suc f) p buf size sum offset =
    if size == 0
    then some (sum, buf)
    else curr_blk_remain p buf >>= λ n.
        let curr_size = min size n in
        sum_here p buf offset curr_size sum >>= λ sum'. move_forward p buf curr_size >>= λ buf'.
        checksum_loop f p buf' (size - curr_size) sum' (u32 (offset + curr_size))

unfoldable pub pktbuf_checksum16 : Pool → Buf → ℕ → ℕ → Bool → Option (ℕ × Buf)
pktbuf_checksum16 p buf size pre_sum complement =
    if short_of buf size
    then some (0, buf)
    else checksum_loop (rounds buf size) p buf size pre_sum 0 >>= λ (sum, buf').
        some (finish complement sum, buf')

-- `memset` of `n` bytes of the current block.
unfoldable pub fill_loop : ℕ → Pool → Buf → ℕ → ℕ → Option (Pool × Buf)
fill_loop zero p buf v size = none
fill_loop (suc f) p buf v size =
    if size == 0
    then some (p, buf)
    else curr_blk_remain p buf >>= λ n.
        let curr_fill = min size n in
        let p' = write_here p buf (replicate curr_fill v) in
        move_forward p' buf curr_fill >>= λ buf'. fill_loop f p' buf' v (size - curr_fill)

unfoldable pub fill : Pool → Buf → ℕ → ℕ → Option (NetErr × Pool × Buf)
fill p buf v size =
    if size == 0
    then some (err_param, p, buf)
    else if short_of buf size
    then some (err_size, p, buf)
    else fill_loop (rounds buf size) p buf v size >>= λ (p', buf'). some (err_ok, p', buf')
