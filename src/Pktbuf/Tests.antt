-- ===== src/Pktbuf/Tests.antt =====
-- The packet functions on a packet of two blocks, and the theorems at it.
use clean_os.Base.{
  ℕ, zero, suc, ◌+◌, ◌%◌, ◌^◌, ◌<◌, ◌≡◌, refl, true, false, Option, none, some, List, [], ◌∷◌,
  arith,
}
use clean_os.Pktbuf.Store.{Blk, Pool, Buf, NetErr, err_ok, err_none, head, after, blk_next}
use clean_os.Pktbuf.Chain.{pktblock_alloc_list}
use clean_os.Pktbuf.Header.{remove_header, add_header}
use clean_os.Pktbuf.Access.{slice, read, read_loop, curr_blk_remain, move_forward, go_to, read_here}
use clean_os.Pktbuf.Content.{IsValid, bytes}
use clean_os.Pktbuf.Access.{seek}
use clean_os.Pktbuf.Seek.{Seeks, seek-Seeks}
use clean_os.Pktbuf.Sum.{checksum16, sum_words, fold, finish}
use clean_os.Pktbuf.Sum.Weigh.{Bytes, Agrees, weigh, checksum16-weigh, checksum16_pieces}
use clean_os.Pktbuf.Store.{pktbuf_init}
use clean_os.Pktbuf.Chain.{alloc}
use clean_os.Pktbuf.Make.{Allocs, alloc-Allocs, alloc-pktbuf_init}
use clean_os.Pktbuf.Remove.{Removes, remove_header-Removes}
use clean_os.Pktbuf.Read.{IsPlaced, Reads, read-Reads}
use clean_os.Pktbuf.Draw.{Draws, pktblock_alloc_list-Draws}
use clean_os.Pktbuf.Front.{Adds}
use clean_os.Pktbuf.Prepend.{add_header-Adds, add_header_partial}

-- Every payload holds the offsets.
abbrev blocks : ℕ → Blk
blocks zero = record { size = 2; data_off = 3; payload = λ i. i }
blocks (suc zero) = record { size = 3; data_off = 0; payload = λ i. 10 + i }
blocks (suc (suc n)) = record { size = 0; data_off = 0; payload = λ i. 20 + i }

abbrev pool : Pool
pool = record { blk = blocks; free_blks = 2 ∷ 3 ∷ []; free_bufs = 1 ∷ [] }

-- The packet holds 3, 4, 10, 11, 12; its place is behind the first byte.
abbrev packet : Buf
packet = record {
  index = 0;
  total_size = 5;
  blk_list = 0 ∷ 1 ∷ [];
  ref = 1;
  pos = 1;
  curr_blk = some 0;
  blk_offset = 4;
}

-- The same packet with no block left in the pool.
abbrev dry : Pool
dry = record pool { free_blks = [] }

packet-IsValid : IsValid pool packet
packet-IsValid = omega arith

packet-IsPlaced : IsPlaced pool packet
unfolding slice after
packet-IsPlaced = record { rest = refl; inside = omega arith }

packet_bytes : bytes pool packet ≡ 3 ∷ 4 ∷ 10 ∷ 11 ∷ 12 ∷ []
unfolding slice
packet_bytes = refl

-- What a read of three bytes returns: the error and the bytes.
abbrev read_result : Option (NetErr × List ℕ × Buf) → Option (NetErr × List ℕ)
read_result none = none
read_result (some (e, out, b)) = some (e, out)

read_three : read_result (read pool packet 3) ≡ some (err_ok, 4 ∷ 10 ∷ 11 ∷ [])
unfolding read read_loop curr_blk_remain move_forward go_to read_here slice blk_next head after
read_three = refl

remove_header-Removes_example : Removes pool packet 4 (remove_header pool packet 4)
remove_header-Removes_example = remove_header-Removes pool packet 4 packet-IsValid (omega arith)

read-Reads_example : Reads pool packet 3 (read pool packet 3)
read-Reads_example =
    read-Reads pool packet 3 packet-IsValid packet-IsPlaced (omega arith) (omega arith)

pktblock_alloc_list-Draws_example : Draws pool [] 0 100 (pktblock_alloc_list pool 100 true)
pktblock_alloc_list-Draws_example = pktblock_alloc_list-Draws pool 100 true (omega arith)

add_header-Adds_example : Adds pool packet 20 false 3 (add_header pool packet 20 false)
add_header-Adds_example = add_header-Adds pool packet 20 false 0 (1 ∷ []) packet-IsValid refl

add_header_partial_example :
    (p' : Pool) × (buf' : Buf) × (add_header dry packet 20 false ≡ some (err_none, p', buf'))
    × (buf'.total_size ≡ 8)
add_header_partial_example = add_header_partial dry packet 20 0 (1 ∷ []) refl refl (omega arith)

seek-Seeks_example : Seeks pool packet 4 (seek pool packet 4)
seek-Seeks_example = seek-Seeks pool packet 4 packet-IsValid packet-IsPlaced (omega arith)

-- The bytes 1 and 2 by turns.
abbrev stripes : ℕ → ℕ
stripes n = n % 2 + 1

stripes-Bytes : Bytes stripes
stripes-Bytes n = omega arith

sum_of_stripes : checksum16 1 stripes 0 3 7 false ≡ 7 + 256 + 2 + 256
unfolding checksum16 sum_words fold finish
sum_of_stripes = refl

checksum16-weigh_example : Agrees (checksum16 1 stripes 0 3 7 false) (7 + weigh 1 stripes 0 3)
checksum16-weigh_example =
    checksum16-weigh 1 stripes 0 3 7 stripes-Bytes (λ o. omega arith) (omega arith) (omega arith)

checksum16_pieces_example :
    let whole = checksum16 0 stripes 0 8 7 false in
    let part = checksum16 0 stripes 0 3 7 false in
    (checksum16 3 stripes 3 5 part false % 65535 ≡ whole % 65535) × (whole < 2 ^ 16)
checksum16_pieces_example =
    checksum16_pieces 0 stripes 0 3 5 7 stripes-Bytes (omega arith) (omega arith) (omega arith)
      (omega arith)

alloc-Allocs_example : Allocs pool 100 (alloc pool 100)
alloc-Allocs_example = alloc-Allocs pool 1 100 [] refl (omega arith)

-- The largest packet that the blocks hold
largest_packet :
    (buf : Buf) × (p' : Pool) × (alloc (pktbuf_init blocks) 6400 ≡ (some buf, p'))
    × (buf.total_size ≡ 6400)
    × IsValid p' buf
largest_packet = alloc-pktbuf_init blocks 6400 (omega arith)
