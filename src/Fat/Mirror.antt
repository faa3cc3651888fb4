-- ===== src/Fat/Mirror.antt =====
-- kernel/fs/fat16fs.c: `set_cluster` changes one entry of the table, in every copy of it.
use clean_os.Base.{
  ℕ, ◌+◌, ◌*◌, ◌/◌, ◌%◌, ◌^◌, ◌≤◌, ◌<◌, ◌≡◌, ◌≢◌, refl, sym, ap, ◌∙◌, Bool, true, false, ◌&&◌, ltb,
  leb, ◌==◌, if◌then◌else◌, ltb→lt, ne→==, Bool-cases, inl, inr, arith,
}
use clean_os.Fat.Disk.{Bpb, Fat, Code, done, buf_read, load}
use clean_os.Fat.Table.{get_word, put_word, is_valid_cluster, write_copies}
use clean_os.Fat.Copies.{AllCalls, copies-cache, copies-other, copies-written}

-- The entry of a cluster in a copy of the table
abbrev pub entry_at : Bpb → (ℕ → ℕ → ℕ) → ℕ → ℕ → ℕ
entry_at bpb disk j c =
    get_word (disk (bpb.reserved_sector_count + c * 2 / 512 + j * bpb.sectors_per_fat))
      (c * 2 % 512)

-- The disk has the table, in each of its copies.
abbrev pub Mirrors : Bpb → (ℕ → ℕ → ℕ) → (ℕ → ℕ) → Type 0
Mirrors bpb disk table =
    (j c : ℕ)
    → j < bpb.fat_count
    → c * 2 / 512 < bpb.sectors_per_fat
    → entry_at bpb disk j c ≡ table c

-- What the buffer holds of one sector is what is on the disk.
abbrev pub IsCoherent : Fat → Type 0
IsCoherent s =
    (o : ℕ) → s.cache_sector_size ≡ 1 → o < 512 → s.cache o ≡ s.disk s.cache_sector_start o

-- Multiples of a stride with something less than the stride added
mul_apart : (i j n d e : ℕ) → i < j → d < n → d + i * n ≡ e + j * n → ⊥
mul_apart i j n d e lt h q = grind arith

rows_apart : (r d e i j n : ℕ) → d < n → e < n → d ≢ e → r + d + j * n ≢ r + e + i * n
rows_apart r d e i j n hd he ne q = elim (Bool-cases (ltb i j)) [
  | inl less ↦ mul_apart i j n e d (ltb→lt i j less) he (omega (arith, q))
  | inr more ↦ elim (Bool-cases (ltb j i)) [
    | inl less ↦ mul_apart j i n d e (ltb→lt j i less) hd (omega (arith, q))
    | inr none' ↦
        let same : i ≡ j = ground (arith, more, none') in
        ne (omega (arith, q, ap (λ (k : ℕ). k * n) same))
  ]
]

row_inside : (j m n d : ℕ) → j < 0 + m → d < n → m * n ≤ d + j * n → ⊥
row_inside j m n d lt h q = grind arith

-- One sector read
pub data Loaded (sector : ℕ) (s : Fat) : Code × Fat → Type 0 where
  loaded :
      (t : Fat)
      → t.disk ≡ s.disk
      → ((o : ℕ) → o < 512 → t.cache o ≡ s.disk sector o)
      → t.cache_sector_start ≡ sector
      → t.cache_sector_size ≡ 1
      → Loaded sector s (done, t)

pub buf_read-Loaded :
    (dev : ℕ → Bool) (sector : ℕ) (s : Fat)
    → AllCalls dev
    → IsCoherent s
    → Loaded sector s (buf_read dev sector 1 s)
unfolding buf_read
buf_read-Loaded dev sector s all coh =
    elim (Bool-cases (s.cache_sector_start == sector && s.cache_sector_size == 1)) [
      | inl held ↦
          let at : s.cache_sector_start ≡ sector = ground (arith, held) in
          let one : s.cache_sector_size ≡ 1 = ground (arith, held) in
          rw held (loaded s refl (λ o h. coh o one h ∙ ap (λ (k : ℕ). s.disk k o) at) at one)
      | inr other ↦ rw (other, all s.calls) (loaded _ refl fresh refl refl)
    ]
  where
    fresh : (o : ℕ) → o < 512 → load s sector 1 o ≡ s.disk sector o
    fresh o h =
        let first : sector + o / 512 ≡ sector = omega arith in
        let place : o % 512 ≡ o = omega arith in
        let test : ltb o (1 * 512) ≡ true = ground arith in
        unfold load in rw (test, first, place) refl

-- The words of a sector behind one write
get_word-put_word :
    (m : ℕ → ℕ) (at o v : ℕ)
    → v < 2 ^ 16
    → at % 2 ≡ 0
    → o % 2 ≡ 0
    → get_word (put_word m at v) o ≡ (if o == at then v else get_word m o)
unfolding get_word put_word
get_word-put_word m at o v small a b = ground arith

get_word-ext :
    (m n : ℕ → ℕ) (o : ℕ) → m o ≡ n o → m (o + 1) ≡ n (o + 1) → get_word m o ≡ get_word n o
unfolding get_word
get_word-ext m n o a b = omega arith

module _ (dev : ℕ → Bool) (all : AllCalls dev) (bpb : Bpb) (sectors : bpb.bytes_per_sector ≡ 512)
    (cur next : ℕ) (word : next < 2 ^ 16) (valid : is_valid_cluster cur ≡ true)
    (inside : cur * 2 / 512 < bpb.sectors_per_fat) (s t : Fat) (table : ℕ → ℕ)
    (mirror : Mirrors bpb s.disk table) (same : t.disk ≡ s.disk)
    (read : (o : ℕ) → o < 512 → t.cache o ≡ s.disk (bpb.reserved_sector_count + cur * 2 / 512) o)
    (some_copy : 0 < bpb.fat_count)
    (tag : t.cache_sector_start ≡ bpb.reserved_sector_count + cur * 2 / 512) where
  abbrev pub start : ℕ
  start = bpb.reserved_sector_count + cur * 2 / 512

  abbrev pub changed : Fat
  changed = record t { cache = put_word t.cache (cur * 2 % 512) next }

  abbrev pub behind : Fat
  behind = write_copies bpb.fat_count dev start bpb.sectors_per_fat 0 changed

  -- A cluster whose entry is in the sector that is changed
  pub near :
      (j c : ℕ)
      → j < bpb.fat_count
      → c * 2 / 512 ≡ cur * 2 / 512
      → entry_at bpb behind.disk j c ≡ (if c == cur then next else table c)
  near j c h e =
      let at : bpb.reserved_sector_count + c * 2 / 512 + j * bpb.sectors_per_fat
          ≡ start + j * bpb.sectors_per_fat =
        omega (arith, e) in
      let written = λ (o : ℕ).
        copies-written dev all start bpb.sectors_per_fat bpb.fat_count 0 j changed o (omega arith)
          (omega arith) in
      let old : get_word t.cache (c * 2 % 512) ≡ table c =
        get_word-ext t.cache
          (s.disk (bpb.reserved_sector_count + c * 2 / 512 + 0 * bpb.sectors_per_fat)) (c * 2 % 512)
          (read (c * 2 % 512) (omega arith) ∙ ap (λ k. s.disk k (c * 2 % 512)) (omega (arith, e)))
          (read (c * 2 % 512 + 1) (omega arith)
            ∙ ap (λ k. s.disk k (c * 2 % 512 + 1)) (omega (arith, e)))
        ∙ mirror 0 c some_copy (omega (arith, e)) in
      rw at (
        get_word-ext (behind.disk (start + j * bpb.sectors_per_fat)) changed.cache (c * 2 % 512)
          (written (c * 2 % 512)) (written (c * 2 % 512 + 1))
        ∙ get_word-put_word t.cache (cur * 2 % 512) (c * 2 % 512) next word (omega arith)
            (omega arith)
        ∙ ground (arith, e, old))

  -- A cluster whose entry is in another sector
  pub far :
      (j c : ℕ)
      → j < bpb.fat_count
      → c * 2 / 512 < bpb.sectors_per_fat
      → c * 2 / 512 ≢ cur * 2 / 512
      → entry_at bpb behind.disk j c ≡ (if c == cur then next else table c)
  far j c h k ne =
      let d = c * 2 / 512 in
      let row = bpb.reserved_sector_count + d + j * bpb.sectors_per_fat in
      let kept = λ (o : ℕ).
        copies-other dev all start bpb.sectors_per_fat bpb.fat_count 0 changed row o (λ i low high.
          rows_apart bpb.reserved_sector_count d (cur * 2 / 512) i j bpb.sectors_per_fat k inside
            ne)
        ∙ ap (λ (f : ℕ → ℕ → ℕ). f row o) same in
      let other : (c == cur) ≡ false = ne→== c cur (λ e. ne (omega (arith, e))) in
      rw other (
        get_word-ext (behind.disk row) (s.disk row) (c * 2 % 512) (kept (c * 2 % 512))
          (kept (c * 2 % 512 + 1))
        ∙ mirror j c h k)

  -- Sectors before and behind the copies
  pub outside :
      (a o : ℕ)
      → behind.disk a o ≡ (
          if leb bpb.reserved_sector_count a
            && ltb a (bpb.reserved_sector_count + bpb.fat_count * bpb.sectors_per_fat)
          then behind.disk a o
          else s.disk a o)
  outside a o =
      elim (Bool-cases (
        leb bpb.reserved_sector_count a
        && ltb a (bpb.reserved_sector_count + bpb.fat_count * bpb.sectors_per_fat))) [
          | inl table' ↦ rw table' refl
          | inr other ↦ rw other (
              copies-other dev all start bpb.sectors_per_fat bpb.fat_count 0 changed a o
                (λ j low high e.
                  row_inside j bpb.fat_count bpb.sectors_per_fat (cur * 2 / 512) high inside
                    (ground (arith, other, e)))
              ∙ ap (λ (f : ℕ → ℕ → ℕ). f a o) same)
        ]

  pub coherent : IsCoherent behind
  coherent o one h =
      let (a, b, c) = copies-cache dev all start bpb.sectors_per_fat bpb.fat_count 0 changed in
      let first : start + 0 * bpb.sectors_per_fat ≡ behind.cache_sector_start =
        omega (arith, b ∙ tag) in
      ap (λ (m : ℕ → ℕ). m o) a
      ∙ sym (
          copies-written dev all start bpb.sectors_per_fat bpb.fat_count 0 0 changed o (omega arith)
            (omega arith))
      ∙ ap (λ k. behind.disk k o) first
