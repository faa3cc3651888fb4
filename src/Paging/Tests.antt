-- ===== src/Paging/Tests.antt =====
-- The page functions on a small memory, and the theorems at it.
use clean_os.Base.{
  ℕ, zero, suc, ◌%◌, ◌^◌, ◌<◌, ◌≡◌, ◌≢◌, refl, none, some, [], ◌∷◌, arith, ◌==◌, if◌then◌else◌,
}
use clean_os.Bitmap
use clean_os.Bitmap.{Bitmap, u32}
use clean_os.Bitmap.Bytes.{bit_set_full}
use clean_os.Paging.Alloc.{
  AddrAlloc, minus_one, alloc_at, alloc_phy_mem, alloc_vir_mem, free_vir_mem,
}
use clean_os.Paging.Memory.{user, Memory, Status, ok, alloc_phy_mem_page}
use clean_os.Paging.Table.{get_pde, table_of, get_pte, vaddr2paddr, create_mem_map, unmap_mem}
use clean_os.Paging.Reserve.{
  used, IsValid, Reserved, alloc_phy_mem-Reserved, free_vir_mem-alloc_vir_mem,
}
use clean_os.Paging.Pages.{Exhausted, alloc_phy_mem_page-Exhausted}
use clean_os.Paging.Translate.{
  OutsideDir, create_mem_map-vaddr2paddr, unmap_mem-vaddr2paddr, vaddr2paddr_repeats,
}

-- Sixteen pages from 0x300000 on, of which the first three are used.
abbrev some_bits : ℕ → ℕ
some_bits zero = 7
some_bits (suc i) = 0

abbrev pages : AddrAlloc
pages = record {
  start = 0x300000;
  page_size = 4096;
  bitmap = record { bytes_len = 2; bits = some_bits };
}

abbrev full_bits : ℕ → ℕ
full_bits i = 0xff

abbrev full_pages : AddrAlloc
full_pages = record pages { bitmap = record { bytes_len = 2; bits = full_bits } }

pages-IsValid : IsValid pages
pages-IsValid = record {
  bytes = bytes;
  positive = omega arith;
  small = omega arith;
  addresses = omega arith;
}
  where
    bytes : (i : ℕ) → some_bits i < 256
    bytes zero = omega arith
    bytes (suc i) = omega arith

full_pages-IsValid : IsValid full_pages
full_pages-IsValid = record {
  bytes = λ i. omega arith;
  positive = omega arith;
  small = omega arith;
  addresses = omega arith;
}

full_pages-Exhausted : Exhausted full_pages
unfolding Bitmap.scan_test
full_pages-Exhausted j h = bit_set_full (j % 8) (omega arith)

-- The page directory is the page at 0x1000. Its entry 1 points to the page table at 0x2000, whose
-- entry 5 maps the page at 0x7000; entry 6 is free.
abbrev words : ℕ → ℕ
words a = if a == 0x1004 then 0x2007 else if a == 0x2014 then 0x7003 else 0

abbrev memory : Memory
memory = record {
  kernel_phy = pages;
  kernel_vir = pages;
  user_phy = full_pages;
  user_vir = pages;
  kernel_page_dir = 0x9000;
  kernel_all_memory = 0x400000;
  user_all_memory = 0xc00000;
  word = words;
}

mapped :
    (get_pte memory 0x1000 0x405123 ≡ some 0x2014)
    × (vaddr2paddr memory 0x1000 0x405123 ≡ some 0x7123)
unfolding get_pte get_pde table_of vaddr2paddr
mapped = (refl, refl)

unmapped : get_pte memory 0x1000 0x406010 ≡ some 0x2018
unfolding get_pte get_pde table_of
unmapped = refl

allocates : (alloc_phy_mem pages 2).0 ≡ 0x303000
unfolding alloc_phy_mem alloc_at Bitmap.scan Bitmap.scan_test Bitmap.bit_set
allocates = refl

alloc_phy_mem-Reserved_example : Reserved pages 2 (alloc_phy_mem pages 2)
alloc_phy_mem-Reserved_example = alloc_phy_mem-Reserved pages 2 pages-IsValid (omega arith)

allocates_vir : (alloc_vir_mem pages 2).0 ≢ minus_one
unfolding alloc_vir_mem alloc_at Bitmap.scan Bitmap.scan_test Bitmap.bit_set
allocates_vir = λ e. omega arith

free_vir_mem-alloc_vir_mem_example :
    used (free_vir_mem (alloc_vir_mem pages 2).1 (alloc_vir_mem pages 2).0 2) 3 ≡ used pages 3
free_vir_mem-alloc_vir_mem_example =
    free_vir_mem-alloc_vir_mem pages 2 3 pages-IsValid (omega arith) allocates_vir

alloc_phy_mem_page-Exhausted_example :
    alloc_phy_mem_page memory user 2 ≡ (some (minus_one ∷ minus_one ∷ []), memory)
alloc_phy_mem_page-Exhausted_example =
    alloc_phy_mem_page-Exhausted memory user 2 (omega arith) full_pages-IsValid full_pages-Exhausted

outside_2018 : OutsideDir 0x1000 0x2018
outside_2018 v h = omega arith

outside_2014 : OutsideDir 0x1000 0x2014
outside_2014 v h = omega arith

-- A page mapped at the address 0x406010.
abbrev mapping : Status × Memory
mapping = create_mem_map 1 memory 0x1000 0x406010 0x8000 6

create_mem_map-vaddr2paddr_example :
    (mapping.0 ≡ ok)
    × (vaddr2paddr mapping.1 0x1000 0x406010 ≡ some 0x8010)
    × ((u : ℕ)
        → u < 2 ^ 32
        → get_pte memory 0x1000 u ≢ some 0x2018
        → vaddr2paddr mapping.1 0x1000 u ≡ vaddr2paddr memory 0x1000 u)
create_mem_map-vaddr2paddr_example =
    create_mem_map-vaddr2paddr memory 0x1000 0x406010 0x2018 0x8000 6 unmapped refl outside_2018
      (omega arith) (omega arith)

unmap_mem-vaddr2paddr_example :
    (vaddr2paddr (unmap_mem memory 0x1000 0x405123 1) 0x1000 0x405123 ≡ none)
    × ((u : ℕ)
        → u < 2 ^ 32
        → get_pte memory 0x1000 u ≢ some 0x2014
        → vaddr2paddr (unmap_mem memory 0x1000 0x405123 1) 0x1000 u ≡ vaddr2paddr memory 0x1000 u)
unmap_mem-vaddr2paddr_example =
    unmap_mem-vaddr2paddr memory 0x1000 0x405123 0x2014 (mapped.0) outside_2014 (omega arith)

vaddr2paddr_repeats_example :
    vaddr2paddr memory 0x1000 0x405523 ≡ vaddr2paddr memory 0x1000 0x405123
vaddr2paddr_repeats_example = vaddr2paddr_repeats memory 0x1000 0x405123 (omega arith)
