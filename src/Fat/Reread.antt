-- ===== src/Fat/Reread.antt =====
-- kernel/fs/fat16fs.c: what is written into a cluster is read again.
use clean_os.Base.{ℕ, ◌+◌, ◌/◌, ◌%◌, ◌^◌, ◌<◌, ◌≡◌, Bool}
use clean_os.Fat.Disk.{Bpb, Fat, Code, done, fat16_bytes_per_cluster}
use clean_os.Fat.File.{File, cluster_sector}
use clean_os.Fat.Copies.{AllCalls}

-- A read of sectors that succeeds, and leaves the buffer with them
data Held (sector size : ℕ) : Code × Fat → Type 0 where
  held :
      (t : Fat)
      → t.cache_sector_start ≡ sector
      → t.cache_sector_size ≡ size
      → Held sector size (done, t)

module _ (dev : ℕ → Bool) (all : AllCalls dev) (bpb : Bpb) (f : File) (n : ℕ) (some_byte : 0 < n)
    (words : fat16_bytes_per_cluster bpb < 2 ^ 32)
    (inside : f.pos % fat16_bytes_per_cluster bpb + n < fat16_bytes_per_cluster bpb) where
  abbrev pub place : ℕ
  place = f.pos % fat16_bytes_per_cluster bpb

  abbrev pub sector : ℕ
  sector = cluster_sector bpb f.block_cur

  -- The buffer and the disk behind a write of `buf`
  record Wrote (buf : ℕ → ℕ) (u : Fat) : Type 0 where
    pub start : u.cache_sector_start ≡ sector
    pub size : u.cache_sector_size ≡ bpb.sectors_per_cluster
    pub cached : (i : ℕ) → i < n → u.cache (place + i) ≡ buf i
    pub stored : (i : ℕ) → i < n → u.disk (sector + (place + i) / 512) ((place + i) % 512) ≡ buf i
