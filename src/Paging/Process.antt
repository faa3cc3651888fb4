-- ===== src/Paging/Process.antt =====
-- kernel/memory/paging.c: what the rest of the kernel calls: memory mapped for a process, given
-- back, and whole address spaces.
use clean_os.Base.{
  ℕ, zero, suc, ◌+◌, ◌-◌, ◌*◌, ◌/◌, Bool, true, false, none, some, List, [], ◌∷◌, ltb, ◌==◌,
  if◌then◌else◌,
}
use clean_os.Bitmap.{u32}
use clean_os.Paging.Alloc.{minus_one, alloc_mem_use, alloc_phy_mem, free_vir_mem}
use clean_os.Paging.Memory.{
  Zone, kernel, user, Memory, Status, ok, failed, page_size, down2, up2, phy, set_phy, vir, set_vir,
  get_phy_addr_alloc, free_phy_mem, alloc_phy_mem_page, alloc_mem_page, alloc_kernel_mem,
  malloc_max_page, pde_index, present, frame, store, clear_page,
}
use clean_os.Paging.Table.{get_pte, vaddr2paddr, create_mem_map, map_mem, unmap_mem}

-- The loop that unmaps the first `j` pages again.
unfoldable pub unmap_first : ℕ → Memory → ℕ → ℕ → Memory
unmap_first zero s page_dir vaddr = s
unmap_first (suc j) s page_dir vaddr =
    unmap_first j (unmap_mem s page_dir vaddr 1) page_dir (u32 (vaddr + page_size))

-- The loop of `map_mem_page` over the pages left, with the number mapped and the first address.
-- `addr < 0` compares a `uint32_t`.
unfoldable pub map_each : List ℕ → ℕ → Memory → ℕ → ℕ → ℕ → Bool → ℕ × Memory
map_each [] done s page_dir vaddr ret_vaddr override = (ret_vaddr, s)
map_each (p ∷ ps) done s page_dir vaddr ret_vaddr override =
    let (addr, s') = map_mem s page_dir vaddr p 1 override in
    let rest = map_each ps (done + 1) s' page_dir (u32 (vaddr + page_size)) ret_vaddr override in
    if ltb addr 0 then (minus_one, unmap_first done s' page_dir ret_vaddr) else rest

-- The list holds the first `page_count` entries of `paddrs`, whose length is `page_count`.
unfoldable pub map_mem_page : Memory → ℕ → ℕ → List ℕ → ℕ → Bool → ℕ × Memory
map_mem_page s page_dir vaddr paddrs page_count override =
    let start = down2 vaddr page_size in
    if ltb malloc_max_page page_count
    then (minus_one, s)
    else map_each paddrs 0 s page_dir start start override

unfoldable pub malloc_mem : Memory → ℕ → Zone → ℕ → ℕ × Memory
malloc_mem s page_dir z page_count =
    let (got, s') = alloc_mem_page s z page_count in
    if ltb malloc_max_page page_count then (minus_one, s) else elim got [
      | none ↦ (minus_one, s')
      | some (vaddr, paddrs) ↦ elim z [
        | user ↦ map_mem_page s' page_dir vaddr paddrs page_count true
        | kernel ↦ (vaddr, s')
      ]
    ]

-- Whether one of the `n` pages from `vaddr` on is mapped.
unfoldable pub any_present : ℕ → Memory → ℕ → ℕ → Bool
any_present zero s page_dir vaddr = false
any_present (suc n) s page_dir vaddr =
    let rest = any_present n s page_dir (u32 (vaddr + page_size)) in
    elim (get_pte s page_dir vaddr) [
      | none ↦ rest
      | some pte ↦ if present (s.word pte) then true else rest
    ]

unfoldable pub malloc_mem_vaddr : Memory → ℕ → Zone → ℕ → ℕ → ℕ × Memory
malloc_mem_vaddr s page_dir z vaddr page_count =
    let start = down2 vaddr page_size in
    let (got, s') = alloc_phy_mem_page s z page_count in
    if any_present page_count s page_dir start
    then (minus_one, s)
    else if ltb malloc_max_page page_count
    then (minus_one, s)
    else elim got [
      | none ↦ (minus_one, s')
      | some paddrs ↦
          map_mem_page (set_vir z s' (alloc_mem_use (vir z s') start page_count 1)) page_dir start
            paddrs page_count true
    ]

-- `free_phy_mem` and `free_vir_mem` always return 0.
unfoldable pub unalloc_mem : Memory → ℕ → Zone → ℕ → ℕ → Status × Memory
unalloc_mem s page_dir z vaddr page_count = elim (vaddr2paddr s page_dir vaddr) [
  | none ↦ (failed, s)
  | some paddr ↦
      let s' = free_phy_mem s paddr page_count in
      (ok, set_vir z s' (free_vir_mem (vir z s') vaddr page_count))
]

-- Where the mapping is removed the source returns what `unmap_mem` leaves unset: `ok` stands for it.
unfoldable pub unmalloc_mem : Memory → ℕ → Zone → ℕ → ℕ → Status × Memory
unmalloc_mem s page_dir z vaddr page_count =
    let (err, s') = unalloc_mem s page_dir z vaddr page_count in
    elim err [
      | failed ↦ (failed, s')
      | ok ↦ (
        ok,
        if page_dir == s'.kernel_page_dir then s' else unmap_mem s' page_dir vaddr page_count,
      )
    ]

unfoldable pub unalloc_kernel_mem : Memory → ℕ → ℕ → Status × Memory
unalloc_kernel_mem s vaddr page_count = unmalloc_mem s s.kernel_page_dir kernel vaddr page_count

-- `create_uvm`'s loop from entry `i - 1` down to 0.
unfoldable pub copy_pdes : ℕ → Memory → ℕ → Memory
copy_pdes zero s page_dir = s
copy_pdes (suc i) s page_dir =
    let entry = s.word (s.kernel_page_dir + 4 * i) in
    copy_pdes i (if present entry then store s (page_dir + 4 * i) entry else s) page_dir

-- `addr < 0` compares a `uint32_t`.
unfoldable pub create_uvm : Memory → ℕ × Memory
create_uvm s =
    let (addr, s') = alloc_kernel_mem s 1 in
    if ltb addr 0
    then (0, s')
    else (addr, copy_pdes (pde_index s'.kernel_all_memory) (clear_page s' addr) addr)

-- The inner loop of `destroy_uvm`, at entry `i` with `n` rounds left: `pte += i` adds up.
unfoldable pub destroy_ptes : ℕ → ℕ → Memory → ℕ → Memory
destroy_ptes zero i s pte = s
destroy_ptes (suc n) i s pte =
    let here = pte + 4 * i in
    destroy_ptes n (i + 1)
      (if present (s.word here) then free_phy_mem s (frame (s.word here)) 1 else s) here

-- The outer loop: `pde += i` adds up.
unfoldable pub destroy_pdes : ℕ → ℕ → Memory → ℕ → Memory
destroy_pdes zero i s pde = s
destroy_pdes (suc n) i s pde =
    let here = pde + 4 * i in
    let entry = s.word here in
    let freed = free_phy_mem (destroy_ptes 1024 0 s (frame entry)) (frame entry) 1 in
    destroy_pdes n (i + 1) (if present entry then (if frame entry == 0 then s else freed) else s)
      here

unfoldable pub destroy_uvm : Memory → ℕ → Memory
destroy_uvm s page_dir =
    let user_pde_start = pde_index s.kernel_all_memory in
    free_phy_mem (destroy_pdes (1024 - user_pde_start) user_pde_start s page_dir) page_dir 1

-- The number of pages that hold `size` bytes.
abbrev pub pages_for : ℕ → ℕ
pages_for size = up2 size page_size / page_size

-- The loop of `alloc_vm_for_page_dir`.
unfoldable pub alloc_vm_pages : ℕ → Zone → Memory → ℕ → ℕ → ℕ → Status × Memory
alloc_vm_pages zero z s page_dir vstart perm = (ok, s)
alloc_vm_pages (suc n) z s page_dir vstart perm =
    let (paddr, a) = alloc_phy_mem (phy z s) 1 in
    let (err, s') = create_mem_map 1 (set_phy z s a) page_dir vstart paddr perm in
    if paddr == 0 then (failed, set_phy z s a) else elim err [
      | failed ↦ (failed, free_phy_mem s' paddr 1)
      | ok ↦ alloc_vm_pages n z s' page_dir (u32 (vstart + page_size)) perm
    ]

unfoldable pub alloc_vm_for_page_dir : Memory → ℕ → ℕ → ℕ → ℕ → Status × Memory
alloc_vm_for_page_dir s page_dir vstart size perm =
    alloc_vm_pages (pages_for size) (if page_dir == s.kernel_page_dir then kernel else user) s
      page_dir vstart perm

-- The loop of `free_vm_for_page_dir`. `err` is the result of `free_phy_mem`, always 0; the source
-- returns where it is 0.
unfoldable pub free_vm_pages : ℕ → Memory → ℕ → ℕ → Status × Memory
free_vm_pages zero s page_dir vstart = (ok, s)
free_vm_pages (suc n) s page_dir vstart = elim (vaddr2paddr s page_dir vstart) [
  | none ↦ (failed, s)
  | some paddr ↦
      let err : Status = ok in
      let s' = free_phy_mem s paddr 1 in
      elim err [
        | ok ↦ (ok, s')
        | failed ↦ elim (get_pte s' page_dir vstart) [
          | none ↦ free_vm_pages n s' page_dir vstart
          | some pte ↦
              if present (s'.word pte)
              then free_vm_pages n (store s' pte 0) page_dir (u32 (vstart + page_size))
              else free_vm_pages n s' page_dir vstart
        ]
      ]
]

unfoldable pub free_vm_for_page_dir : Memory → ℕ → ℕ → ℕ → Status × Memory
free_vm_for_page_dir s page_dir vstart size = free_vm_pages (pages_for size) s page_dir vstart

-- `map_mem_direct` on the current page directory.
unfoldable pub map_mem_direct : Memory → ℕ → ℕ → ℕ → ℕ → ℕ × Memory
map_mem_direct s page_dir vaddr paddr size =
    let page_count = down2 size page_size / page_size in
    let z = get_phy_addr_alloc s paddr in
    let s₁ = set_phy z s (alloc_mem_use (phy z s) paddr page_count 1) in
    let s₂ = set_vir kernel s₁ (alloc_mem_use (vir kernel s₁) vaddr page_count 1) in
    map_mem s₂ page_dir vaddr paddr page_count true
