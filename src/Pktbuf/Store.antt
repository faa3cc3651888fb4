-- ===== src/Pktbuf/Store.antt =====
-- kernel/net/pktbuf.h, mblock.c: blocks, packets and the pools of free ones.
-- A block is named by its index in `block_buffer`, a packet by its index in `pktbuf_buffer`, and a
-- linked list is the list of the names of its nodes in order. A pointer into a block's payload is
-- an offset. Sizes that callers pass are not negative.
use clean_os.Base.{ℕ, zero, suc, ◌+◌, Option, none, some, List, [], ◌∷◌, ◌++◌, ◌==◌, if◌then◌else◌}

-- `net_err_t`
pub data NetErr : Type 0 where
  err_need_wait err_ok err_param err_exist err_state err_none err_size err_full err_mem : NetErr
  err_io err_not_support err_not_match err_checksum err_unreach err_binded err_close : NetErr
  err_eof err_connected : NetErr

-- `PKTBUF_BLK_SIZE`
abbrev pub blk_size : ℕ
blk_size = 64

-- `pktblk_t`: `data` is the offset of the pointer of that name in `payload`.
pub record Blk : Type 0 where
  pub size : ℕ
  pub data_off : ℕ
  pub payload : ℕ → ℕ

-- `block_list`, `block_buffer` and `pktbuf_list`
pub record Pool : Type 0 where
  pub blk : ℕ → Blk
  pub free_blks : List ℕ
  pub free_bufs : List ℕ

-- `pktbuf_t`, with its own index. `curr_blk` and `blk_offset` are the place for reads and writes.
pub record Buf : Type 0 where
  pub index : ℕ
  pub total_size : ℕ
  pub blk_list : List ℕ
  pub ref : ℕ
  pub pos : ℕ
  pub curr_blk : Option ℕ
  pub blk_offset : ℕ

-- `mblock_init` of blocks with these numbers
unfoldable pub mblock_init : ℕ → ℕ → List ℕ
mblock_init first zero = []
mblock_init first (suc cnt) = first ∷ mblock_init (first + 1) cnt

-- `pktbuf_init`, with `PKTBUF_BLK_CNT` blocks and `PKTBUF_BUF_CNT` packets
unfoldable pub pktbuf_init : (ℕ → Blk) → Pool
pktbuf_init blk = record { blk = blk; free_blks = mblock_init 0 100; free_bufs = mblock_init 0 100 }

-- One block overwritten.
unfoldable pub put : (ℕ → Blk) → ℕ → Blk → ℕ → Blk
put st x b y = if y == x then b else st y

abbrev pub set_blk : Pool → ℕ → Blk → Pool
set_blk p x b = record p { blk = put p.blk x b }

-- `mblock_free` on the list of blocks: to the end.
unfoldable pub pktblock_free : Pool → ℕ → Pool
pktblock_free p x = record p { free_blks = p.free_blks ++ (x ∷ []) }

unfoldable pub pktblock_free_list : Pool → List ℕ → Pool
pktblock_free_list p [] = p
pktblock_free_list p (x ∷ xs) = pktblock_free_list (pktblock_free p x) xs

unfoldable pub head : List ℕ → Option ℕ
head [] = none
head (x ∷ xs) = some x

-- `nlist_last`
unfoldable pub last : List ℕ → Option ℕ
last [] = none
last (x ∷ []) = some x
last (x ∷ y ∷ xs) = last (y ∷ xs)

-- The nodes behind a node of the list.
unfoldable pub after : ℕ → List ℕ → List ℕ
after x [] = []
after x (y ∷ ys) = if y == x then ys else after x ys

-- `pktbuf_blk_next` of a block of the packet
unfoldable pub blk_next : ℕ → List ℕ → Option ℕ
blk_next x xs = head (after x xs)

-- `nlist_remove` of a node of the list
unfoldable pub remove : ℕ → List ℕ → List ℕ
remove x [] = []
remove x (y ∷ ys) = if y == x then ys else y ∷ remove x ys

-- `nlist_insert_after` a node of the list
unfoldable pub insert_after : ℕ → ℕ → List ℕ → List ℕ
insert_after pre x [] = []
insert_after pre x (y ∷ ys) = if y == pre then y ∷ x ∷ ys else y ∷ insert_after pre x ys

unfoldable pub reset_acc : Pool → Buf → Buf
reset_acc p buf = elim (head buf.blk_list) [
  | none ↦ record buf { pos = 0; curr_blk = none; blk_offset = 0 }
  | some x ↦ record buf { pos = 0; curr_blk = some x; blk_offset = (p.blk x).data_off }
]

unfoldable pub inc_ref : Buf → Buf
inc_ref buf = record buf { ref = buf.ref + 1 }
