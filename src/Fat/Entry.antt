-- ===== src/Fat/Entry.antt =====
-- kernel/fs/fat16fs.c: the entry that `set_cluster` writes.
use clean_os.Base.{
  ℕ, ◌+◌, ◌*◌, ◌/◌, ◌%◌, ◌^◌, ◌<◌, ◌≡◌, refl, Bool, true, false, ◌&&◌, ltb, leb, ◌==◌,
  if◌then◌else◌, Bool-cases, ==_iff, ==→ne, inl, inr, arith,
}
use clean_os.Fat.Disk.{Bpb, Fat, Code, done, fails, buf_read}
use clean_os.Fat.Table.{put_word, is_valid_cluster, write_copies, set_cluster}
use clean_os.Fat.Copies.{AllCalls}
use clean_os.Fat.Mirror.{
  Mirrors, IsCoherent, Loaded, loaded, buf_read-Loaded, near, far, outside, coherent,
}

-- The disk has changed in the sectors of the copies at most.
abbrev pub TableOnly : Bpb → (ℕ → ℕ → ℕ) → (ℕ → ℕ → ℕ) → Type 0
TableOnly bpb before after =
    (a o : ℕ)
    → after a o ≡ (
        if leb bpb.reserved_sector_count a
          && ltb a (bpb.reserved_sector_count + bpb.fat_count * bpb.sectors_per_fat)
        then after a o
        else before a o)

module _ (dev : ℕ → Bool) (bpb : Bpb) (cur next : ℕ) (s : Fat) (table : ℕ → ℕ) where
  abbrev pub Entered : Code × Fat → Type 0
  Entered r =
      (r.0 ≡ done)
      × Mirrors bpb r.1.disk (λ c. if c == cur then next else table c)
      × IsCoherent r.1
      × TableOnly bpb s.disk r.1.disk

  -- The part of `set_cluster` behind `buf_read`
  Loaded-Entered :
      (r : Code × Fat)
      → Loaded (bpb.reserved_sector_count + cur * 2 / 512) s r
      → AllCalls dev
      → bpb.bytes_per_sector ≡ 512
      → 0 < bpb.fat_count
      → is_valid_cluster cur ≡ true
      → cur * 2 / 512 < bpb.sectors_per_fat
      → next < 2 ^ 16
      → Mirrors bpb s.disk table
      → Entered (
          if fails r.0 then (r.0, r.1) else (
            done,
            write_copies bpb.fat_count dev
                (bpb.reserved_sector_count + cur * 2 / 512)
                bpb.sectors_per_fat
                0
                (record r.1 { cache = put_word r.1.cache (cur * 2 % 512) next }),
          ))
  Loaded-Entered _ (loaded t same read tag one) all sectors some_copy valid inside word mirror = (
    refl,
    λ j c h k. elim (Bool-cases (c * 2 / 512 == cur * 2 / 512)) [
      | inl here ↦
          near dev all bpb sectors cur next word valid inside s t table mirror same read some_copy
            tag j c h ((==_iff _ _).0 here)
      | inr other ↦
          far dev all bpb sectors cur next word valid inside s t table mirror same read some_copy
            tag j c h k (==→ne _ _ other)
    ],
    coherent dev all bpb sectors cur next word valid inside s t table mirror same read some_copy
        tag,
    outside dev all bpb sectors cur next word valid inside s t table mirror same read some_copy tag,
  )

  -- Sectors have 512 bytes, the disk answers every call, all copies of the table agree, and what the
  -- buffer holds of one sector is what is on the disk. Then `set_cluster` of a cluster that is valid
  -- and in the table succeeds. Every copy then has the new entry of this cluster and the entries it
  -- had of all others, no sector outside the copies has changed, and what the buffer holds of one
  -- sector is again what is on the disk.
  pub set_cluster-Mirrors :
      AllCalls dev
      → bpb.bytes_per_sector ≡ 512
      → 0 < bpb.fat_count
      → is_valid_cluster cur ≡ true
      → cur * 2 / 512 < bpb.sectors_per_fat
      → next < 2 ^ 16
      → Mirrors bpb s.disk table
      → IsCoherent s
      → Entered (set_cluster dev bpb cur next s)
  unfolding set_cluster
  set_cluster-Mirrors all sectors some_copy valid inside word mirror coh =
      let read = buf_read-Loaded dev (bpb.reserved_sector_count + cur * 2 / 512) s all coh in
      let room : leb bpb.sectors_per_fat (cur * 2 / 512) ≡ false = ground (arith, inside) in
      rw (sectors, valid, room)
        (Loaded-Entered (buf_read dev (bpb.reserved_sector_count + cur * 2 / 512) 1 s) read all
          sectors some_copy valid inside word mirror)
