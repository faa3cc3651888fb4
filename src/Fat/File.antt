-- ===== src/Fat/File.antt =====
-- kernel/fs/fat16fs.c: reading, writing and seeking in an open file.
-- The caller's buffer is a function of the offset. Words have 32 bits; a negative one stands for
-- itself plus 2 ^ 32. Fuel for a loop over the size is the size: each round moves a byte.
use clean_os.Base.{
  ℕ, zero, suc, ◌+◌, ◌-◌, ◌*◌, ◌/◌, ◌%◌, ◌^◌, Bool, not, ◌&&◌, Option, none, some, ltb, leb, ◌==◌,
  if◌then◌else◌,
}
use clean_os.Paging.Memory.{up2}
use clean_os.Fat.Disk.{
  Bpb, Fat, Code, done, fail, fails, buf_read, buf_write, fat16_bytes_per_cluster,
  fat16_data_sector_idx, copy_in,
}
use clean_os.Fat.Table.{
  is_valid_cluster, get_next_cluster, set_cluster, malloc_free_cluster, count_clusters,
}

-- What the file reads of `file_t`; the three flags of `mode`.
pub record File : Type 0 where
  pub rdonly : Bool
  pub append : Bool
  pub size : ℕ
  pub pos : ℕ
  pub block_start : ℕ
  pub block_cur : ℕ

-- `fat16_file_operate_t`
pub data Operate : Type 0 where
  operate_read operate_write : Operate

-- The file, the caller's buffer and the file system behind a call, with what it returns
pub record Outcome : Type 0 where
  pub total_size : ℕ
  pub file : File
  pub buf : ℕ → ℕ
  pub fat : Fat

unfoldable pub cluster_sector : Bpb → ℕ → ℕ
unfolding fat16_data_sector_idx
cluster_sector bpb block =
    (fat16_data_sector_idx bpb + (block + 2 ^ 32 - 2) * bpb.sectors_per_cluster) % 2 ^ 32

-- The `memcpy` of a round and, on a write, the `buf_write` behind it
unfoldable pub transfer :
    (ℕ → Bool) → Operate → Bpb → ℕ → ℕ → ℕ → ℕ → (ℕ → ℕ) → Fat → Code × (ℕ → ℕ) × Fat
unfolding buf_write copy_in
transfer dev operate_read bpb sector at off n buf s =
    (done, copy_in buf off (λ i. s.cache (at + i)) n, s)
transfer dev operate_write bpb sector at off n buf s =
    let (err, t) =
      buf_write dev sector bpb.sectors_per_cluster
        (record s { cache = copy_in s.cache at (λ i. buf (off + i)) n }) in
    (err, buf, t)

-- The end of a round: the place moves on, to the next cluster at the end of one.
unfoldable pub advance : (ℕ → Bool) → Bpb → ℕ → ℕ → File → Fat → File × Fat
unfolding get_next_cluster fat16_bytes_per_cluster
advance dev bpb at n f s =
    let moved : File = record f { pos = (f.pos + n) % 2 ^ 32 } in
    let (next, t) = get_next_cluster dev bpb (f.block_cur % 2 ^ 16) s in
    if leb (fat16_bytes_per_cluster bpb) ((n + at) % 2 ^ 32)
    then (record moved { block_cur = next }, t)
    else (moved, s)

unfoldable pub operate_loop :
    ℕ → (ℕ → Bool) → Operate → Bpb → ℕ → ℕ → File → (ℕ → ℕ) → Fat → Option Outcome
operate_loop zero dev op bpb size total f buf s = none
operate_loop (suc fuel) dev op bpb size total f buf s =
    let at = f.pos % fat16_bytes_per_cluster bpb in
    let sector = cluster_sector bpb f.block_cur in
    let (err, t) = buf_read dev sector bpb.sectors_per_cluster s in
    let n : ℕ =
      if ltb (fat16_bytes_per_cluster bpb) ((size + at) % 2 ^ 32)
      then fat16_bytes_per_cluster bpb - at
      else size in
    let (wrong, buf', u) = transfer dev op bpb sector at total n buf t in
    let (g, v) = advance dev bpb at n f u in
    let rest = operate_loop fuel dev op bpb (size - n) (total + n) g buf' v in
    if size == 0
    then some (record { total_size = total; file = f; buf = buf; fat = s })
    else if fails err
    then some (record { total_size = total; file = f; buf = buf; fat = t })
    else if fails wrong
    then some (record { total_size = total; file = f; buf = buf'; fat = u })
    else rest

-- The size of a read up to the end of the file; behind the end it wraps around.
unfoldable pub size_to_end : File → ℕ → ℕ
size_to_end f size =
    if ltb f.size ((f.pos + size) % 2 ^ 32) then (f.size + 2 ^ 32 - f.pos) % 2 ^ 32 else size

unfoldable pub fat16_file_operate :
    (ℕ → Bool) → Operate → Bpb → ℕ → File → (ℕ → ℕ) → Fat → Option Outcome
unfolding operate_loop size_to_end
fat16_file_operate dev operate_read bpb size f buf s =
    let n = size_to_end f size in operate_loop (n + 1) dev operate_read bpb n 0 f buf s
fat16_file_operate dev operate_write bpb size f buf s =
    operate_loop (size + 1) dev operate_write bpb size 0 f buf s

-- The same loop, written once more
unfoldable pub fat16_read : (ℕ → Bool) → Bpb → ℕ → File → (ℕ → ℕ) → Fat → Option Outcome
unfolding fat16_file_operate
fat16_read dev bpb size f buf s = fat16_file_operate dev operate_read bpb size f buf s

-- The clusters that a write of this size is given
unfoldable pub cluster_need : ℕ → ℕ → ℕ → ℕ
cluster_need bytes_per_cluster file_size size =
    if file_size % bytes_per_cluster == 0
    then up2 size bytes_per_cluster / bytes_per_cluster
    else up2 (size - (bytes_per_cluster - file_size % bytes_per_cluster)) bytes_per_cluster
      / bytes_per_cluster

unfoldable pub expand_file : ℕ → (ℕ → Bool) → Bpb → ℕ → File → Fat → Option (Code × File × Fat)
unfolding cluster_need malloc_free_cluster set_cluster
expand_file fuel dev bpb size f s =
    let bytes_per_cluster = fat16_bytes_per_cluster bpb in
    let r : Option (Code × File × Fat) =
      elim (malloc_free_cluster fuel dev bpb (cluster_need bytes_per_cluster f.size size) s) [
        | none ↦ none
        | some (start, t) ↦
            if not (is_valid_cluster start)
            then some (fail 2, f, t)
            else if is_valid_cluster f.block_start
            then some (done, f, (set_cluster dev bpb (f.block_cur % 2 ^ 16) start t).1)
            else some (done, record f { block_start = start; block_cur = start }, t)
      ] in
    if not (f.size % bytes_per_cluster == 0)
      && leb size (bytes_per_cluster - f.size % bytes_per_cluster)
    then some (done, f, s)
    else r

-- What `fat16_write` returns, `none` for -1
abbrev pub Written : Type 0
Written = Option ℕ × File × (ℕ → ℕ) × Fat

-- The write itself, and the size behind it
unfoldable pub write_at_pos : (ℕ → Bool) → Bpb → ℕ → File → (ℕ → ℕ) → Fat → Option Written
unfolding fat16_file_operate
write_at_pos dev bpb size f buf s =
    elim (fat16_file_operate dev operate_write bpb size (record f { size = f.pos }) buf s) [
      | none ↦ none
      | some o ↦
          let g = record o.file { size = (o.file.size + o.total_size) % 2 ^ 32 } in
          some (some o.total_size, g, o.buf, o.fat)
    ]

unfoldable pub fat16_write : ℕ → (ℕ → Bool) → Bpb → ℕ → File → (ℕ → ℕ) → Fat → Option Written
unfolding write_at_pos expand_file
fat16_write fuel dev bpb size f buf s =
    let g : File = if f.append then record f { pos = f.size } else f in
    let grown : Option Written = elim (expand_file fuel dev bpb size g s) [
      | none ↦ none
      | some (err, h, t) ↦
          if fails err then some (none, h, buf, t) else write_at_pos dev bpb size h buf t
    ] in
    if f.rdonly
    then some (none, f, buf, s)
    else if ltb g.size ((g.pos + size) % 2 ^ 32)
    then grown
    else write_at_pos dev bpb size g buf s

-- The word that `fat16_seek` returns, with the file. `1 << sizeof(file->pos)` is 16, and the case
-- of SEEK_END runs on into the default one.
unfoldable pub fat16_seek : File → ℕ → ℕ → ℕ × File
fat16_seek f offset whence =
    let set : ℕ = if ltb offset (2 ^ 31) then offset else 0 in
    let moved = (f.pos + offset) % 2 ^ 32 in
    if whence == 0
    then ((set + 2 ^ 32 - f.pos) % 2 ^ 32, record f { pos = set })
    else if whence == 1
    then (if leb 16 moved
        then (2 ^ 32 - 4, f)
        else ((moved + 2 ^ 32 - f.pos) % 2 ^ 32, record f { pos = moved }))
    else if whence == 2
    then (2 ^ 32 - 3, record f { pos = (f.size + offset) % 2 ^ 32 })
    else (2 ^ 32 - 3, f)

unfoldable pub get_file_cluster_count : ℕ → (ℕ → Bool) → Bpb → File → Fat → Option (ℕ × Fat)
unfolding count_clusters
get_file_cluster_count fuel dev bpb f s = count_clusters fuel dev bpb (f.block_start % 2 ^ 16) 0 s
