-- ===== src/Fat/Tests.antt =====
-- Runs of the file system, and its theorem at a concrete input.
use clean_os.Base.{
  ℕ, ◌-◌, ◌^◌, ◌≡◌, refl, Bool, true, false, Option, none, some, [], ◌∷◌, map, arith,
}
use clean_os.Fat.Disk.{fat16_bytes_per_cluster, Bpb, Fat}
use clean_os.Fat.Names.{lfn_checksum, get_check_sum, match_sfn, to_sfn, bytes_of}
use clean_os.Fat.Table.{get_word, set_cluster, get_next_cluster, malloc_free_cluster}
use clean_os.Fat.File.{File, cluster_sector, transfer, advance, fat16_read, fat16_write, fat16_seek}
use clean_os.Fat.Entry.{Entered, set_cluster-Mirrors}

-- A disk of 512-byte sectors, one to a cluster, with two copies of a table of one sector
abbrev small : Bpb
small = record {
  bytes_per_sector = 512;
  sectors_per_cluster = 1;
  reserved_sector_count = 1;
  fat_count = 2;
  root_entry_count = 16;
  sectors_per_fat = 1;
}

abbrev blank_disk : Fat
blank_disk = record {
  disk = λ a o. 0;
  cache_sector_start = 0;
  cache_sector_size = 0;
  cache = λ o. 0;
  calls = 0;
}

abbrev working : ℕ → Bool
working n = true

set_cluster-Mirrors_example :
    Entered working small 5 9 blank_disk (λ c. 0) (set_cluster working small 5 9 blank_disk)
unfolding get_word
set_cluster-Mirrors_example =
    set_cluster-Mirrors working small 5 9 blank_disk (λ c. 0) (λ n. refl) refl (omega arith) refl
      (omega arith) (omega arith) (λ j c h k. refl) (λ o one h. refl)

-- The entry of cluster 5 is 9, and 10 more than the first entry is read.
wrong_next : (get_next_cluster working small 5 (set_cluster working small 5 9 blank_disk).1).0 ≡ 10
unfolding get_next_cluster set_cluster
wrong_next = refl

-- What two calls for a cluster each get
abbrev two_calls : Option (ℕ × ℕ)
two_calls = elim (malloc_free_cluster 3 working small 1 blank_disk) [
  | none ↦ none
  | some (a, s) ↦ elim (malloc_free_cluster 3 working small 1 s) [
    | none ↦ none
    | some (b, t) ↦ some (a, b)
  ]
]

same_cluster : two_calls ≡ some (2, 2)
unfolding malloc_free_cluster
same_cluster = refl

short_name :
    map (to_sfn (λ i. 0) (b'a' ∷ b'.' ∷ b't' ∷ b'x' ∷ b't' ∷ [])) (0 ∷ 1 ∷ 7 ∷ 8 ∷ 9 ∷ 10 ∷ 11 ∷ [])
    ≡ b'A' ∷ b' ' ∷ b' ' ∷ b'T' ∷ b'X' ∷ b'T' ∷ 0 ∷ []
unfolding to_sfn
short_name = refl

-- The two checksums of a short name
same_checksum :
    let name = to_sfn (λ i. 0) (b'a' ∷ b'.' ∷ b't' ∷ b'x' ∷ b't' ∷ []) in
    (lfn_checksum name ≡ get_check_sum name)
    × (match_sfn (λ i. 0) name (b'A' ∷ b'.' ∷ b'T' ∷ b'X' ∷ b'T' ∷ []) ≡ true)
unfolding lfn_checksum get_check_sum to_sfn match_sfn
same_checksum = (refl, refl)

abbrev opened : File
opened = record {
  rdonly = false;
  append = false;
  size = 0;
  pos = 0;
  block_start = 0;
  block_cur = 0;
}

-- Two bytes are written to a new file and read again.
abbrev written_and_read : Option (ℕ × ℕ × ℕ)
written_and_read =
    elim (fat16_write 3 working small 2 opened (bytes_of (b'h' ∷ b'i' ∷ [])) blank_disk) [
      | none ↦ none
      | some (n, f, buf, s) ↦ elim (fat16_read working small 9 (record f { pos = 0 }) (λ i. 0) s) [
        | none ↦ none
        | some o ↦ some (o.total_size, o.buf 0, o.buf 1)
      ]
    ]

hi : written_and_read ≡ some (2, b'h', b'i')
unfolding fat16_write fat16_read bytes_of fat16_bytes_per_cluster cluster_sector transfer advance
hi = refl

-- A seek by 16 from the start is an overflow, and one from the end is invalid.
seek_overflow : (fat16_seek opened 16 1).0 ≡ 2 ^ 32 - 4
unfolding fat16_seek
seek_overflow = refl

seek_end : (fat16_seek opened 3 2) ≡ (2 ^ 32 - 3, record opened { pos = 3 })
unfolding fat16_seek
seek_end = refl

abbrev grown : File
grown = record opened { block_start = 2; block_cur = 2 }
