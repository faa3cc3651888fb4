-- ===== src/Paging/Alloc.antt =====
-- kernel/memory/paging.c: the address allocators, a bitmap with a bit for each page of a range.
-- The bitmaps of two allocators do not overlap in memory, so each has its own here.
use clean_os.Base.{
  ℕ, zero, suc, ◌+◌, ◌-◌, ◌*◌, ◌/◌, ◌^◌, Bool, true, Option, none, some, if◌then◌else◌,
}
use clean_os.Bitmap
use clean_os.Bitmap.{Bitmap, u32}

pub record AddrAlloc : Type 0 where
  pub start : ℕ
  pub page_size : ℕ
  pub bitmap : Bitmap

-- The value -1 in a `uint32_t`.
abbrev pub minus_one : ℕ
minus_one = 2 ^ 32 - 1

unfoldable pub init_addr_alloc : (ℕ → ℕ) → ℕ → ℕ → ℕ → AddrAlloc
init_addr_alloc bits start size page_size = record {
  start = start;
  page_size = page_size;
  bitmap = Bitmap.init (record { bytes_len = u32 (size / page_size + 7) / 8; bits = bits });
}

-- The loop of `alloc_mem_use`, with the pages left. A negative count, like 0, makes no round.
unfoldable pub use_bits : ℕ → ℕ → Bitmap → ℕ → Bitmap
use_bits v zero m bit_idx = m
use_bits v (suc n) m bit_idx = use_bits v n (Bitmap.set m bit_idx v) (bit_idx + 1)

unfoldable pub alloc_mem_use : AddrAlloc → ℕ → ℕ → ℕ → AddrAlloc
alloc_mem_use a addr page_count v = record a {
  bitmap = use_bits v page_count a.bitmap (u32 (addr + 2 ^ 32 - a.start) / a.page_size);
}

-- `alloc_phy_mem` and `alloc_vir_mem` behind the scan, whose -1 is `none`
unfoldable pub alloc_at : AddrAlloc → ℕ → Option ℕ → ℕ × AddrAlloc
alloc_at a page_count none = (minus_one, a)
alloc_at a page_count (some bit_idx) =
    let addr = u32 (a.start + bit_idx * a.page_size) in (addr, alloc_mem_use a addr page_count 1)

unfoldable pub alloc_phy_mem : AddrAlloc → ℕ → ℕ × AddrAlloc
alloc_phy_mem a page_count = alloc_at a page_count (Bitmap.scan a.bitmap page_count)

unfoldable pub alloc_vir_mem : AddrAlloc → ℕ → ℕ × AddrAlloc
alloc_vir_mem a page_count = alloc_at a page_count (Bitmap.scan a.bitmap page_count)

unfoldable pub free_vir_mem : AddrAlloc → ℕ → ℕ → AddrAlloc
free_vir_mem a vaddr page_count = alloc_mem_use a vaddr page_count 0

-- `count_mem_used_visitor`: the count, and to go on.
unfoldable pub count_mem_used_visitor : Bitmap → ℕ → ℕ → ℕ × Bool
count_mem_used_visitor m count idx_bit =
    (if Bitmap.scan_test m idx_bit then u32 (count + 1) else count, true)

unfoldable pub count_mem_used : AddrAlloc → ℕ
count_mem_used a = Bitmap.foreach (count_mem_used_visitor a.bitmap) a.bitmap true 0
