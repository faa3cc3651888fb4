-- ===== src/Paging/Table.antt =====
-- kernel/memory/paging.c and common/cpu/mem_page.c: walking the page tables, mapping and unmapping.
-- A null pointer is `none`; `failed` is the result -1.
use clean_os.Base.{
  ℕ, zero, suc, ◌+◌, ◌-◌, ◌/◌, ◌%◌, ◌^◌, Bool, not, Option, none, some, ltb, ◌==◌, if◌then◌else◌,
}
use Prim.Native.Nat.{bit_or}
use clean_os.Bitmap.{u32}
use clean_os.Paging.Alloc.{minus_one}
use clean_os.Paging.Memory.{
  Memory, Status, ok, failed, page_size, down2, up2, alloc_kernel_mem, present, frame, pde_addr,
  pte_addr, store, clear_page,
}

unfoldable pub get_pde : ℕ → ℕ → Option ℕ
get_pde page_dir vaddr = if page_dir == 0 then none else some (pde_addr page_dir vaddr)

-- The page table that an entry of the page directory points to.
unfoldable pub table_of : Memory → Option ℕ → Option ℕ
table_of s none = none
table_of s (some pde) =
    if not (present (s.word pde))
    then none
    else if frame (s.word pde) == 0
    then none
    else some (frame (s.word pde))

unfoldable pub get_pte : Memory → ℕ → ℕ → Option ℕ
get_pte s page_dir vaddr = elim (table_of s (get_pde page_dir vaddr)) [
  | none ↦ none
  | some table ↦ some (pte_addr table vaddr)
]

-- `none` is `*have == false`.
unfoldable pub vaddr2paddr : Memory → ℕ → ℕ → Option ℕ
vaddr2paddr s page_dir vaddr = elim (get_pte s page_dir vaddr) [
  | none ↦ none
  | some pte ↦
      if present (s.word pte) then some (u32 (frame (s.word pte) + vaddr % 2 ^ 10)) else none
]

-- common/cpu/mem_page.c: `find_pte` with `alloc == 0`.
unfoldable pub find_pte : Memory → ℕ → ℕ → Option ℕ
find_pte s page_dir vaddr =
    let pde = s.word (pde_addr page_dir vaddr) in
    if present pde then some (pte_addr (frame pde) vaddr) else none

-- `find_pte_alloc` with `alloc == 1`: a missing page table is taken from kernel memory. The
-- comparison `addr < 0` is of a `uint32_t`.
unfoldable pub find_pte_alloc : Memory → ℕ → ℕ → Option ℕ × Memory
find_pte_alloc s page_dir vaddr =
    let pde = s.word (pde_addr page_dir vaddr) in
    let (addr, s') = alloc_kernel_mem s 1 in
    if present pde
    then (some (pte_addr (frame pde) vaddr), s)
    else if ltb addr 0
    then (none, s')
    else (
      some (pte_addr addr vaddr),
      clear_page (store s' (pde_addr page_dir vaddr) (bit_or (bit_or (bit_or addr 1) 2) 4)) addr,
    )

-- The body of `create_mem_map`'s loop, with the entry found.
unfoldable pub set_pte : Option ℕ × Memory → ℕ → ℕ → Status × Memory
set_pte (none, s) paddr perm = (failed, s)
set_pte (some pte, s) paddr perm =
    if present (s.word pte) then (failed, s) else (ok, store s pte (bit_or (bit_or paddr perm) 1))

unfoldable pub create_mem_map : ℕ → Memory → ℕ → ℕ → ℕ → ℕ → Status × Memory
create_mem_map zero s page_dir vaddr paddr perm = (ok, s)
create_mem_map (suc n) s page_dir vaddr paddr perm =
    let (err, s') = set_pte (find_pte_alloc s page_dir vaddr) paddr perm in
    elim err [
      | ok ↦ create_mem_map n s' page_dir (u32 (vaddr + page_size)) (u32 (paddr + page_size)) perm
      | failed ↦ (failed, s')
    ]

-- The loop over the 4 MB pages of `create_big_mem_map`.
unfoldable pub map_big_pages : ℕ → Memory → ℕ → ℕ → ℕ → ℕ → Memory
map_big_pages zero s page_dir vaddr paddr perm = s
map_big_pages (suc n) s page_dir vaddr paddr perm =
    map_big_pages n
      (store s (pde_addr page_dir vaddr) (bit_or (bit_or (bit_or paddr 1) (2 ^ 7)) perm)) page_dir
      (u32 (vaddr + 2 ^ 22)) (u32 (paddr + 2 ^ 22)) perm

-- The function returns a value only where the first part fails; no caller reads it.
unfoldable pub create_big_mem_map : Memory → ℕ → ℕ → ℕ → ℕ → ℕ → Memory
create_big_mem_map s page_dir vaddr size paddr perm =
    let offset_n4m = vaddr % 2 ^ 22 in
    let handle_size = 2 ^ 22 - offset_n4m in
    let (err, s') = create_mem_map (handle_size / page_size) s page_dir vaddr paddr perm in
    let size' = u32 (size + 2 ^ 32 - handle_size) in
    if ltb 0 offset_n4m
    then elim err [
      | failed ↦ s'
      | ok ↦
          map_big_pages (up2 size' (2 ^ 22) / 2 ^ 22) s' page_dir (u32 (vaddr + handle_size))
            (u32 (paddr + handle_size)) perm
    ]
    else map_big_pages (up2 size (2 ^ 22) / 2 ^ 22) s page_dir vaddr paddr perm

-- `PTE_W`, with `PTE_U` outside the kernel's page directory.
abbrev pub permit : Memory → ℕ → ℕ
permit s page_dir = if page_dir == s.kernel_page_dir then 2 else 6

-- The loop of `map_mem`; the answer is whether it ran through.
unfoldable pub map_pages : ℕ → Memory → ℕ → ℕ → ℕ → Bool → Status × Memory
map_pages zero s page_dir vaddr paddr override = (ok, s)
map_pages (suc n) s page_dir vaddr paddr override =
    let (err, s') = create_mem_map 1 s page_dir vaddr paddr (permit s page_dir) in
    let rest : Status × Memory = elim err [
      | ok ↦ map_pages n s' page_dir (u32 (vaddr + page_size)) (u32 (paddr + page_size)) override
      | failed ↦ (failed, s')
    ] in
    elim (vaddr2paddr s page_dir vaddr) [
      | some _ ↦ if override then rest else (failed, s)
      | none ↦ rest
    ]

abbrev pub address_or : ℕ → Status × Memory → ℕ × Memory
address_or vaddr (ok, s) = (vaddr, s)
address_or vaddr (failed, s) = (minus_one, s)

unfoldable pub map_mem : Memory → ℕ → ℕ → ℕ → ℕ → Bool → ℕ × Memory
map_mem s page_dir vaddr paddr page_count override =
    address_or (down2 vaddr page_size)
      (map_pages page_count s page_dir (down2 vaddr page_size) (down2 paddr page_size) override)

-- The loop of `unmap_mem`: `pte->present = !PTE_P` in each entry found.
unfoldable pub unmap_pages : ℕ → Memory → ℕ → ℕ → Memory
unmap_pages zero s page_dir vaddr = s
unmap_pages (suc n) s page_dir vaddr =
    let s' : Memory = elim (find_pte s page_dir vaddr) [
      | none ↦ s
      | some pte ↦ store s pte (s.word pte - s.word pte % 2)
    ] in
    unmap_pages n s' page_dir (u32 (vaddr + page_size))

-- The result is not set in the source.
unfoldable pub unmap_mem : Memory → ℕ → ℕ → ℕ → Memory
unmap_mem s page_dir vaddr page_count = unmap_pages page_count s page_dir (down2 vaddr page_size)
