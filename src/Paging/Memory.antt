-- ===== src/Paging/Memory.antt =====
-- kernel/memory/paging.c and common/cpu/mmu.h: the kernel's memory, its allocators by zone, and the
-- two-level page tables in it.
use clean_os.Base.{
  ℕ, zero, suc, ◌+◌, ◌-◌, ◌*◌, ◌/◌, ◌%◌, ◌^◌, Bool, Option, none, some, List, [], ◌∷◌, ◌++◌, ltb,
  leb, ◌==◌, ◌&&◌, if◌then◌else◌,
}
use clean_os.Bitmap.{u32}
use clean_os.Paging.Alloc.{
  AddrAlloc, minus_one, alloc_mem_use, alloc_phy_mem, alloc_vir_mem, free_vir_mem,
}

-- Which of the kernel's and the user's allocators.
pub data Zone : Type 0 where
  kernel user : Zone

-- The static data of paging.c with the current process's virtual allocator. `word a` is the 32-bit
-- word at the physical address `a`, which the kernel reads through its identity map.
pub record Memory : Type 0 where
  pub kernel_phy : AddrAlloc
  pub kernel_vir : AddrAlloc
  pub user_phy : AddrAlloc
  pub user_vir : AddrAlloc
  pub kernel_page_dir : ℕ
  pub kernel_all_memory : ℕ
  pub user_all_memory : ℕ
  pub word : ℕ → ℕ

-- A function that returns 0 or -1.
pub data Status : Type 0 where
  ok failed : Status

abbrev pub page_size : ℕ
page_size = 4096

abbrev pub down2 : ℕ → ℕ → ℕ
down2 origin bound = origin - origin % bound

abbrev pub up2 : ℕ → ℕ → ℕ
up2 origin bound = if origin % bound == 0 then origin else u32 (down2 origin bound + bound)

abbrev pub phy : Zone → Memory → AddrAlloc
phy kernel s = s.kernel_phy
phy user s = s.user_phy

abbrev pub set_phy : Zone → Memory → AddrAlloc → Memory
set_phy kernel s a = record s { kernel_phy = a }
set_phy user s a = record s { user_phy = a }

abbrev pub vir : Zone → Memory → AddrAlloc
vir kernel s = s.kernel_vir
vir user s = s.user_vir

abbrev pub set_vir : Zone → Memory → AddrAlloc → Memory
set_vir kernel s a = record s { kernel_vir = a }
set_vir user s a = record s { user_vir = a }

unfoldable pub get_phy_addr_alloc : Memory → ℕ → Zone
get_phy_addr_alloc s paddr = if ltb paddr s.user_phy.start then kernel else user

-- The allocator found is never null, so the result is always 0.
unfoldable pub free_phy_mem : Memory → ℕ → ℕ → Memory
free_phy_mem s paddr page_count =
    let z = get_phy_addr_alloc s paddr in set_phy z s (alloc_mem_use (phy z s) paddr page_count 0)

-- The loops that give back what is allocated so far, page by page.
unfoldable pub free_pages : Memory → List ℕ → Memory
free_pages s [] = s
free_pages s (p ∷ ps) = free_pages (free_phy_mem s p 1) ps

-- The loop that takes `n` physical pages one by one. The third argument is what a failure does
-- before it gives the pages back. `paddr < 0` compares a `uint32_t`.
unfoldable pub take_pages :
    ℕ → Zone → (Memory → Memory) → Memory → List ℕ → Option (List ℕ) × Memory
take_pages zero z undo s paddrs = (some paddrs, s)
take_pages (suc n) z undo s paddrs =
    let (paddr, a) = alloc_phy_mem (phy z s) 1 in
    let s' = set_phy z s a in
    let rest = take_pages n z undo s' (paddrs ++ (paddr ∷ [])) in
    if ltb paddr 0 then (none, free_pages (undo s') paddrs) else rest

-- `MALLOC_MAX_PAGE`
abbrev pub malloc_max_page : ℕ
malloc_max_page = 1024

unfoldable pub alloc_phy_mem_page : Memory → Zone → ℕ → Option (List ℕ) × Memory
alloc_phy_mem_page s z page_count =
    if ltb malloc_max_page page_count then (none, s) else take_pages page_count z (λ s'. s') s []

-- The virtual start and the physical pages; `none` is the result -1.
unfoldable pub alloc_mem_page : Memory → Zone → ℕ → Option (ℕ × List ℕ) × Memory
alloc_mem_page s z page_count =
    let (vaddr, a) = alloc_vir_mem (vir z s) page_count in
    let s' = set_vir z s a in
    let (got, s'') =
      take_pages page_count z (λ t. set_vir z t (free_vir_mem (vir z t) vaddr page_count)) s' [] in
    if ltb vaddr 0
    then (none, s')
    else elim got [ none ↦ (none, s'') | some paddrs ↦ (some (vaddr, paddrs), s'') ]

-- `malloc_mem` on the kernel's allocator, which maps nothing
unfoldable pub alloc_kernel_mem : Memory → ℕ → ℕ × Memory
alloc_kernel_mem s page_count =
    let (got, s') = alloc_mem_page s kernel page_count in
    if ltb malloc_max_page page_count
    then (minus_one, s)
    else elim got [ none ↦ (minus_one, s') | some (vaddr, _) ↦ (vaddr, s') ]

-- `pde_index`, `pte_index`: the high and the middle ten bits
abbrev pub pde_index : ℕ → ℕ
pde_index vaddr = vaddr / 2 ^ 22

abbrev pub pte_index : ℕ → ℕ
pte_index vaddr = vaddr / 2 ^ 12 % 2 ^ 10

-- The bit field `present`.
abbrev pub present : ℕ → Bool
present entry = entry % 2 == 1

-- `pe_phy_addr` of the 20-bit field of an entry
abbrev pub frame : ℕ → ℕ
frame entry = entry / 2 ^ 12 % 2 ^ 20 * 2 ^ 12

-- `page_dir + pde_index(vaddr)`, in bytes
abbrev pub pde_addr : ℕ → ℕ → ℕ
pde_addr page_dir vaddr = page_dir + 4 * pde_index vaddr

-- The entry of the page table at `table`.
abbrev pub pte_addr : ℕ → ℕ → ℕ
pte_addr table vaddr = table + 4 * pte_index vaddr

unfoldable pub store : Memory → ℕ → ℕ → Memory
store s addr v = record s { word = λ a. if a == addr then v else s.word a }

-- `memset((void *)addr, 0, MEM_PAGE_SIZE)`
unfoldable pub clear_page : Memory → ℕ → Memory
clear_page s addr = record s {
  word = λ a. if leb addr a && ltb a (addr + page_size) then 0 else s.word a;
}
