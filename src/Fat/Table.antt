-- ===== src/Fat/Table.antt =====
-- kernel/fs/fat16fs.c: the table of clusters.
use clean_os.Base.{
  ℕ, zero, suc, ◌+◌, ◌*◌, ◌/◌, ◌%◌, ◌^◌, Bool, true, false, not, ◌&&◌, Option, none, some, ltb, leb,
  ◌==◌, if◌then◌else◌,
}
use clean_os.Fat.Disk.{Bpb, Fat, Code, done, fail, fails, buf_read, buf_write}

-- `INVALID_CLUSTER`
abbrev pub invalid_cluster : ℕ
invalid_cluster = 0xfff8

abbrev pub is_valid_cluster : ℕ → Bool
is_valid_cluster cluster = leb 2 cluster && ltb cluster invalid_cluster

-- A `fat16_cluster_t` in memory
unfoldable pub get_word : (ℕ → ℕ) → ℕ → ℕ
get_word m o = m o + 256 * m (o + 1)

unfoldable pub put_word : (ℕ → ℕ) → ℕ → ℕ → ℕ → ℕ
put_word m o v i = if i == o then v % 256 else if i == o + 1 then v / 256 else m i

-- The loop over the copies of the table, from the copy `i` on; what `buf_write` returns is not
-- read.
unfoldable pub write_copies : ℕ → (ℕ → Bool) → ℕ → ℕ → ℕ → Fat → Fat
unfolding buf_write
write_copies zero dev sector_start stride i s = s
write_copies (suc n) dev sector_start stride i s =
    write_copies n dev sector_start stride (i + 1) (buf_write dev (sector_start + i * stride) 1 s).1

unfoldable pub set_cluster : (ℕ → Bool) → Bpb → ℕ → ℕ → Fat → Code × Fat
unfolding buf_read put_word write_copies
set_cluster dev bpb cur next s =
    let offset = cur * 2 in
    let sector_idx = offset / bpb.bytes_per_sector in
    let sector_start = bpb.reserved_sector_count + sector_idx in
    let (err, t) = buf_read dev sector_start 1 s in
    let sector_offset = offset % bpb.bytes_per_sector in
    let u = record t { cache = put_word t.cache sector_offset next } in
    if not (is_valid_cluster cur)
    then (fail 1, s)
    else if leb bpb.sectors_per_fat sector_idx
    then (fail 2, s)
    else if fails err
    then (err, t)
    else (done, write_copies bpb.fat_count dev sector_start bpb.sectors_per_fat 0 u)

-- The offset is added to the first cluster of the sector.
unfoldable pub get_next_cluster : (ℕ → Bool) → Bpb → ℕ → Fat → ℕ × Fat
unfolding buf_read get_word
get_next_cluster dev bpb cur s =
    let offset = cur * 2 in
    let sector_offset = offset % bpb.bytes_per_sector in
    let sector_idx = offset / bpb.bytes_per_sector in
    let (err, t) = buf_read dev (bpb.reserved_sector_count + sector_idx) 1 s in
    if ltb bpb.sectors_per_fat sector_idx
    then (invalid_cluster, s)
    else if fails err
    then (invalid_cluster, t)
    else ((get_word t.cache 0 + sector_offset) % 2 ^ 16, t)

-- `none` is a loop that goes on. Each cluster is set to the one that follows it already.
unfoldable pub free_cluster_chain : ℕ → (ℕ → Bool) → Bpb → ℕ → Fat → Option Fat
unfolding get_next_cluster set_cluster
free_cluster_chain zero dev bpb cluster s = none
free_cluster_chain (suc fuel) dev bpb cluster s =
    let (next, t) = get_next_cluster dev bpb cluster s in
    let rest = free_cluster_chain fuel dev bpb next (set_cluster dev bpb cluster next t).1 in
    if is_valid_cluster cluster then rest else some s

-- The loop of `malloc_free_cluster`, which goes by `count` alone: the first cluster, the last one,
-- and whether all calls succeeded.
unfoldable pub chain_loop : ℕ → (ℕ → Bool) → Bpb → ℕ → ℕ → ℕ → Fat → (Bool × ℕ × ℕ) × Fat
unfolding set_cluster
chain_loop zero dev bpb cur start pre s = ((true, start, pre), s)
chain_loop (suc count) dev bpb cur start pre s =
    let start' : ℕ = if is_valid_cluster start then start else cur in
    let (err, t) = set_cluster dev bpb pre cur s in
    let linked = is_valid_cluster pre in
    let rest = chain_loop count dev bpb ((cur + 1) % 2 ^ 16) start' cur (if linked then t else s) in
    if linked && fails err then ((false, start', pre), t) else rest

-- The end of `malloc_free_cluster`; `fuel` is for the loop of `free_cluster_chain`.
unfoldable pub malloc_free_cluster : ℕ → (ℕ → Bool) → Bpb → ℕ → Fat → Option (ℕ × Fat)
unfolding chain_loop set_cluster free_cluster_chain
malloc_free_cluster fuel dev bpb count s =
    let ((linked, start, pre), t) = chain_loop count dev bpb 2 invalid_cluster invalid_cluster s in
    let (err, u) = set_cluster dev bpb pre invalid_cluster t in
    let freed = λ (v : Fat).
      let r : Option (ℕ × Fat) = elim (free_cluster_chain fuel dev bpb start v) [
        | none ↦ none
        | some w ↦ some (invalid_cluster, w)
      ] in
      r in
    if not linked then freed t else if fails err then freed u else some (start, u)

-- The loop of `get_file_cluster_count`
unfoldable pub count_clusters : ℕ → (ℕ → Bool) → Bpb → ℕ → ℕ → Fat → Option (ℕ × Fat)
unfolding get_next_cluster
count_clusters zero dev bpb cur n s = none
count_clusters (suc fuel) dev bpb cur n s =
    let (next, t) = get_next_cluster dev bpb cur s in
    let rest = count_clusters fuel dev bpb next (n + 1) t in
    if cur == invalid_cluster then some (n, s) else rest
