-- ===== src/Fat/Disk.antt =====
-- kernel/fs/fat16fs.c: sectors, the one buffer for them, and the entries of directories.
-- A disk gives the byte at an offset of a sector; a sector has 512 bytes. Memory behind a pointer
-- is a function of the offset.
use clean_os.Base.{
  ℕ, zero, suc, ◌+◌, ◌-◌, ◌*◌, ◌/◌, ◌%◌, Bool, true, false, ◌&&◌, ◌||◌, Option, none, some, ltb,
  leb, ◌==◌, if◌then◌else◌,
}

-- What the file reads of `bpb_t`; its last three members are in the state.
pub record Bpb : Type 0 where
  pub bytes_per_sector : ℕ
  pub sectors_per_cluster : ℕ
  pub reserved_sector_count : ℕ
  pub fat_count : ℕ
  pub root_entry_count : ℕ
  pub sectors_per_fat : ℕ

-- The disk, the buffer with the sectors that it holds, and how often the device has been called.
pub record Fat : Type 0 where
  pub disk : ℕ → ℕ → ℕ
  pub cache_sector_start : ℕ
  pub cache_sector_size : ℕ
  pub cache : ℕ → ℕ
  pub calls : ℕ

-- `error`: zero, or a negative number by its amount
pub data Code : Type 0 where
  done : Code
  fail : ℕ → Code

abbrev pub fails : Code → Bool
fails done = false
fails (fail n) = true

-- `device_read` into the buffer of so many sectors
unfoldable pub load : Fat → ℕ → ℕ → ℕ → ℕ
load s sector size i = if ltb i (size * 512) then s.disk (sector + i / 512) (i % 512) else s.cache i

-- `device_write` of so many sectors from the buffer
unfoldable pub store : Fat → ℕ → ℕ → ℕ → ℕ → ℕ
store s sector size a o =
    if leb sector a && ltb a (sector + size) then s.cache ((a - sector) * 512 + o) else s.disk a o

-- `dev` says of each call of the device whether it returns more than 0. A call that does not
-- changes nothing.
unfoldable pub buf_read : (ℕ → Bool) → ℕ → ℕ → Fat → Code × Fat
unfolding load
buf_read dev sector size s =
    if s.cache_sector_start == sector && s.cache_sector_size == size
    then (done, s)
    else if dev s.calls
    then (
      done,
      record s {
        cache = load s sector size;
        cache_sector_start = sector;
        cache_sector_size = size;
        calls = s.calls + 1;
      },
    )
    else (fail 1, record s { calls = s.calls + 1 })

unfoldable pub buf_write : (ℕ → Bool) → ℕ → ℕ → Fat → Code × Fat
unfolding store
buf_write dev sector size s =
    if dev s.calls
    then (done, record s { disk = store s sector size; calls = s.calls + 1 })
    else (fail 1, record s { calls = s.calls + 1 })

unfoldable pub fat16_bytes_per_cluster : Bpb → ℕ
fat16_bytes_per_cluster bpb = bpb.bytes_per_sector * bpb.sectors_per_cluster

unfoldable pub fat16_root_sector_idx : Bpb → ℕ
fat16_root_sector_idx bpb = bpb.reserved_sector_count + bpb.fat_count * bpb.sectors_per_fat

unfoldable pub fat16_data_sector_idx : Bpb → ℕ
unfolding fat16_root_sector_idx
fat16_data_sector_idx bpb =
    fat16_root_sector_idx bpb + bpb.root_entry_count * 32 / bpb.bytes_per_sector

-- Where the entry stands in the buffer. The index is not negative.
unfoldable pub read_dir_entry : (ℕ → Bool) → Bpb → ℕ → ℕ → Fat → Option ℕ × Fat
unfolding buf_read
read_dir_entry dev bpb sector_start idx s =
    let offset = 32 * idx in
    let (err, t) = buf_read dev (sector_start + offset / bpb.bytes_per_sector) 1 s in
    if leb bpb.root_entry_count idx
    then (none, s)
    else if fails err
    then (none, t)
    else (some (offset % bpb.bytes_per_sector), t)

-- `memcpy` to an offset of the buffer
unfoldable pub copy_in : (ℕ → ℕ) → ℕ → (ℕ → ℕ) → ℕ → ℕ → ℕ
copy_in cache at src n i = if leb at i && ltb i (at + n) then src (i - at) else cache i

unfoldable pub write_dir_entry : (ℕ → Bool) → Bpb → (ℕ → ℕ) → ℕ → ℕ → Fat → Code × Fat
unfolding buf_read buf_write copy_in
write_dir_entry dev bpb entry sector_root idx s =
    let offset = 32 * idx in
    let sector_start = offset / bpb.bytes_per_sector + sector_root in
    let (err, t) = buf_read dev sector_start 1 s in
    let sector_offset = offset % bpb.bytes_per_sector in
    let u = record t { cache = copy_in t.cache sector_offset entry 32 } in
    if leb bpb.root_entry_count idx
    then (fail 1, s)
    else if fails err
    then (err, t)
    else buf_write dev sector_start 1 u

-- `attr` is byte 11 of an entry. The loop of `get_dir_entry_count` with the rounds that are left.
unfoldable pub count_entries : ℕ → (ℕ → Bool) → Bpb → ℕ → ℕ → Fat → ℕ × Fat
unfolding read_dir_entry
count_entries zero dev bpb sector i s = (i, s)
count_entries (suc n) dev bpb sector i s =
    let (entry, t) = read_dir_entry dev bpb sector i s in
    let rest = count_entries n dev bpb sector (i + 1) t in
    elim entry [ none ↦ (i, t) | some at ↦ if t.cache (at + 11) == 0 then (i, t) else rest ]

unfoldable pub get_dir_entry_count : (ℕ → Bool) → Bpb → ℕ → Fat → ℕ × Fat
unfolding count_entries
get_dir_entry_count dev bpb node_sector_idx s = count_entries 256 dev bpb node_sector_idx 0 s

-- What to do with an entry: leave the loop, go on, or take it
pub data Handle : Type 0 where
  end_of_dir skip take_entry : Handle

unfoldable pub should_handle_dir_entry : (ℕ → ℕ) → Handle
should_handle_dir_entry entry =
    if entry 0 == 0x0
    then end_of_dir
    else if entry 0 == 0xe5
    then skip
    else if entry 11 == 0x0f || (entry 11 == 0x20 || entry 11 == 0x10)
    then take_entry
    else skip

-- `fat_count` is byte 16 of the boot sector, the name of the file system begins at byte 54.
unfoldable pub validate_bpb : (ℕ → ℕ) → Bool
validate_bpb b =
    b 16 == 2
    && (b 54 == b'F' && (b 55 == b'A' && (b 56 == b'T' && (b 57 == b'1' && b 58 == b'6'))))
