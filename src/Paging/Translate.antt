-- ===== src/Paging/Translate.antt =====
-- Mapping, unmapping and translating one page, and what giving back a range of pages does.
use clean_os.Base.{
  ℕ, suc, ◌+◌, ◌-◌, ◌*◌, ◌/◌, ◌%◌, ◌^◌, ◌<◌, ◌≡◌, ◌≢◌, refl, sym, ap, ◌∙◌, true, false,
  if◌then◌else◌, Option-cases, Option, none, some, inl, inr, arith, ne→==, ==_refl,
}
use Prim.Native.Nat.{bit_or}
use clean_os.Base.Bits.{bit_or-low, bit_or-page_flags}
use clean_os.Bitmap.{u32}
use clean_os.Paging.Memory.{
  Memory, ok, failed, page_size, down2, pde_index, pte_index, present, frame, pde_addr, store,
}
use clean_os.Paging.Table.{
  get_pde, table_of, get_pte, vaddr2paddr, find_pte, find_pte_alloc, set_pte, create_mem_map,
  unmap_pages, unmap_mem,
}

-- The address is no entry of the page directory that a 32-bit address leads to.
abbrev pub OutsideDir : ℕ → ℕ → Type 0
OutsideDir page_dir addr = (v : ℕ) → v < 2 ^ 32 → pde_addr page_dir v ≢ addr

word_store_self : (s : Memory) (a x : ℕ) → (store s a x).word a ≡ x
unfolding store
word_store_self s a x = rw (==_refl a) refl

word_store_ne : (s : Memory) (a x b : ℕ) → b ≢ a → (store s a x).word b ≡ s.word b
unfolding store
word_store_ne s a x b h = rw (ne→== b a h) refl

-- A write outside the page directory moves no page table.
get_pte-store :
    (s : Memory) (page_dir a x v : ℕ)
    → OutsideDir page_dir a
    → v < 2 ^ 32
    → get_pte (store s a x) page_dir v ≡ get_pte s page_dir v
unfolding get_pte get_pde table_of
get_pte-store s page_dir a x v out bound =
    ground (arith, word_store_ne s a x (pde_addr page_dir v) (out v bound))

-- The translation of an address whose entry is known.
translated : ℕ → ℕ → Option ℕ
translated entry v = if present entry then some (u32 (frame entry + v % 2 ^ 10)) else none

vaddr2paddr_of_pte :
    (s : Memory) (page_dir v pte : ℕ)
    → get_pte s page_dir v ≡ some pte
    → vaddr2paddr s page_dir v ≡ translated (s.word pte) v
unfolding vaddr2paddr translated
vaddr2paddr_of_pte s page_dir v pte e = rw (e, vaddr2paddr) refl

vaddr2paddr_of_none :
    (s : Memory) (page_dir v : ℕ) → get_pte s page_dir v ≡ none → vaddr2paddr s page_dir v ≡ none
unfolding vaddr2paddr
vaddr2paddr_of_none s page_dir v e = rw (e, vaddr2paddr) refl

-- A write to one entry outside the page directory keeps the translation of every address that does
-- not go through this entry.
vaddr2paddr-store :
    (s : Memory) (page_dir pte x v : ℕ)
    → OutsideDir page_dir pte
    → v < 2 ^ 32
    → get_pte s page_dir v ≢ some pte
    → vaddr2paddr (store s pte x) page_dir v ≡ vaddr2paddr s page_dir v
vaddr2paddr-store s page_dir pte x v out bound ne = elim (Option-cases (get_pte s page_dir v)) [
  | inl e ↦
      vaddr2paddr_of_none _ page_dir v (get_pte-store s page_dir pte x v out bound ∙ e)
      ∙ sym (vaddr2paddr_of_none s page_dir v e)
  | inr (p, e) ↦
      vaddr2paddr_of_pte (store s pte x) page_dir v p
        (get_pte-store s page_dir pte x v out bound ∙ e)
      ∙ ap (λ w. translated w v) (word_store_ne s pte x p (λ q. ne (e ∙ ap some q)))
      ∙ sym (vaddr2paddr_of_pte s page_dir v p e)
]

-- The entry that `create_mem_map` writes is present and holds the page.
entry_present : (paddr perm : ℕ) → present (bit_or (bit_or paddr perm) 1) ≡ true
entry_present paddr perm = ground (arith, bit_or-low (bit_or paddr perm) 1)

entry_frame : (paddr perm : ℕ) → perm < 2 ^ 12 → frame (bit_or (bit_or paddr perm) 1) ≡ frame paddr
entry_frame paddr perm h =
    ap (λ p. p % 2 ^ 20 * 2 ^ 12)
      (bit_or-page_flags (bit_or paddr perm) 1 (omega arith) ∙ bit_or-page_flags paddr perm h)

find_pte_alloc_present :
    (s : Memory) (page_dir v pte : ℕ)
    → get_pte s page_dir v ≡ some pte
    → find_pte_alloc s page_dir v ≡ (some pte, s)
unfolding get_pte get_pde table_of find_pte_alloc
find_pte_alloc_present s page_dir v pte e = ground arith

find_pte_present :
    (s : Memory) (page_dir v pte : ℕ)
    → get_pte s page_dir v ≡ some pte
    → find_pte s page_dir v ≡ some pte
unfolding get_pte get_pde table_of find_pte
find_pte_present s page_dir v pte e = ground arith

create_mem_map_one :
    (s : Memory) (page_dir v pte paddr perm : ℕ)
    → get_pte s page_dir v ≡ some pte
    → present (s.word pte) ≡ false
    → create_mem_map 1 s page_dir v paddr perm ≡ (ok, store s pte (bit_or (bit_or paddr perm) 1))
unfolding create_mem_map set_pte
create_mem_map_one s page_dir v pte paddr perm e free =
    ground (arith, find_pte_alloc_present s page_dir v pte e)

-- Mapping one page where the page table exists, outside the page directory, and the entry is free:
-- `create_mem_map` returns 0, the page's address is translated to the physical page with the low
-- ten bits of the address, and a 32-bit address with another entry is translated as before.
pub create_mem_map-vaddr2paddr :
    (s : Memory) (page_dir v pte paddr perm : ℕ)
    → get_pte s page_dir v ≡ some pte
    → present (s.word pte) ≡ false
    → OutsideDir page_dir pte
    → v < 2 ^ 32
    → perm < 2 ^ 12
    → let (err, s') = create_mem_map 1 s page_dir v paddr perm in
      (err ≡ ok)
      × (vaddr2paddr s' page_dir v ≡ some (u32 (frame paddr + v % 2 ^ 10)))
      × ((u : ℕ)
          → u < 2 ^ 32
          → get_pte s page_dir u ≢ some pte
          → vaddr2paddr s' page_dir u ≡ vaddr2paddr s page_dir u)
unfolding translated
create_mem_map-vaddr2paddr s page_dir v pte paddr perm e free out bound h =
    let x = bit_or (bit_or paddr perm) 1 in
    rw (create_mem_map_one s page_dir v pte paddr perm e free) (
      refl,
      vaddr2paddr_of_pte (store s pte x) page_dir v pte
            (get_pte-store s page_dir pte x v out bound ∙ e)
          ∙ rw (word_store_self s pte x, entry_present paddr perm, entry_frame paddr perm h) refl,
      λ u small ne. vaddr2paddr-store s page_dir pte x u out small ne,
    )

-- A page that is mapped is not mapped again: `create_mem_map` returns -1 and changes nothing.
pub create_mem_map_taken :
    (s : Memory) (n page_dir v pte paddr perm : ℕ)
    → get_pte s page_dir v ≡ some pte
    → present (s.word pte) ≡ true
    → create_mem_map (suc n) s page_dir v paddr perm ≡ (failed, s)
unfolding create_mem_map set_pte
create_mem_map_taken s n page_dir v pte paddr perm e taken =
    ground (arith, find_pte_alloc_present s page_dir v pte e)

down2_pages :
    (v : ℕ)
    → (pde_index (down2 v page_size) ≡ pde_index v) × (pte_index (down2 v page_size) ≡ pte_index v)
down2_pages v = omega arith

get_pte-down2 :
    (s : Memory) (page_dir v : ℕ) → get_pte s page_dir (down2 v page_size) ≡ get_pte s page_dir v
unfolding get_pte get_pde table_of
get_pte-down2 s page_dir v = let (d, t) = down2_pages v in ground arith

not_present : (w : ℕ) → present (w - w % 2) ≡ false
not_present w = ground arith

unmap_mem_one :
    (s : Memory) (page_dir v pte : ℕ)
    → get_pte s page_dir v ≡ some pte
    → unmap_mem s page_dir v 1 ≡ store s pte (s.word pte - s.word pte % 2)
unfolding unmap_mem unmap_pages
unmap_mem_one s page_dir v pte e =
    ground
      (arith, find_pte_present s page_dir (down2 v page_size) pte (get_pte-down2 s page_dir v ∙ e))

-- Unmapping one page whose table lies outside the page directory: the page's address is not
-- translated any more, and a 32-bit address with another entry is translated as before.
pub unmap_mem-vaddr2paddr :
    (s : Memory) (page_dir v pte : ℕ)
    → get_pte s page_dir v ≡ some pte
    → OutsideDir page_dir pte
    → v < 2 ^ 32
    → (vaddr2paddr (unmap_mem s page_dir v 1) page_dir v ≡ none)
      × ((u : ℕ)
          → u < 2 ^ 32
          → get_pte s page_dir u ≢ some pte
          → vaddr2paddr (unmap_mem s page_dir v 1) page_dir u ≡ vaddr2paddr s page_dir u)
unfolding translated
unmap_mem-vaddr2paddr s page_dir v pte e out bound =
    let x = s.word pte - s.word pte % 2 in
    rw (unmap_mem_one s page_dir v pte e) (
      vaddr2paddr_of_pte (store s pte x) page_dir v pte
            (get_pte-store s page_dir pte x v out bound ∙ e)
          ∙ rw (word_store_self s pte x, not_present (s.word pte)) refl,
      λ u small ne. vaddr2paddr-store s page_dir pte x u out small ne,
    )

get_pte_same_page :
    (s : Memory) (page_dir u v : ℕ)
    → u / page_size ≡ v / page_size
    → get_pte s page_dir u ≡ get_pte s page_dir v
unfolding get_pte get_pde table_of
get_pte_same_page s page_dir u v h =
    let d : pde_index u ≡ pde_index v = omega arith in
    let t : pte_index u ≡ pte_index v = omega arith in ground arith

-- Two addresses of a page that are 1024 bytes apart are translated to the same physical address:
-- `vaddr2paddr` keeps ten of the twelve bits of the offset.
pub vaddr2paddr_repeats :
    (s : Memory) (page_dir v : ℕ)
    → v % page_size + 1024 < page_size
    → vaddr2paddr s page_dir (v + 1024) ≡ vaddr2paddr s page_dir v
unfolding vaddr2paddr
vaddr2paddr_repeats s page_dir v h =
    let same : (v + 1024) / page_size ≡ v / page_size = omega arith in
    let low : (v + 1024) % 2 ^ 10 ≡ v % 2 ^ 10 = omega arith in
    ground (arith, get_pte_same_page s page_dir (v + 1024) v same)
