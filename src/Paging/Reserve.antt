-- ===== src/Paging/Reserve.antt =====
-- The page allocators: which pages an allocation takes, and that freeing undoes it.
use clean_os.Base.{
  ℕ, zero, suc, ◌+◌, ◌-◌, ◌*◌, ◌/◌, ◌^◌, ◌≤◌, ◌<◌, ◌≡◌, ◌≢◌, refl, ap, ◌∙◌, Bool, true, not, ltb,
  leb, ◌==◌, ◌&&◌, if◌then◌else◌, Option, none, some, inl, inr, ◌⊎◌, arith,
}
use native.Mathlib.Nat.{mul-div_cancel}
use clean_os.Bitmap
use clean_os.Bitmap.{Bitmap, u32}
use clean_os.Bitmap.Update.{IsBytes, scan_test-set, set-IsBytes}
use clean_os.Bitmap.First.{Clear}
use clean_os.Bitmap.Scan.{Outcome, reach, scan_lem}
use clean_os.Paging.Alloc.{
  AddrAlloc, minus_one, use_bits, alloc_mem_use, alloc_at, alloc_phy_mem, alloc_vir_mem,
  free_vir_mem,
}

-- Whether the page with this number is in use.
abbrev pub used : AddrAlloc → ℕ → Bool
used a page = Bitmap.scan_test a.bitmap page

-- Whether `i` is one of the `n` numbers from `s` on.
abbrev pub within : ℕ → ℕ → ℕ → Bool
within s n i = leb s i && ltb i (s + n)

use_bits-IsBytes : (v n : ℕ) (m : Bitmap) (k : ℕ) → IsBytes m → IsBytes (use_bits v n m k)
unfolding use_bits
use_bits-IsBytes v zero m k h = h
use_bits-IsBytes v (suc n) m k h =
    use_bits-IsBytes v n (Bitmap.set m k v) (k + 1) (set-IsBytes m k v h)

scan_test-use_bits :
    (v n : ℕ) (m : Bitmap) (k j : ℕ)
    → IsBytes m
    → Bitmap.scan_test (use_bits v n m k) j
      ≡ (if within k n j then not (v == 0) else Bitmap.scan_test m j)
unfolding use_bits
scan_test-use_bits v zero m k j h = ground arith
scan_test-use_bits v (suc n) m k j h = ground (
  arith,
  scan_test-use_bits v n (Bitmap.set m k v) (k + 1) j (set-IsBytes m k v h),
  scan_test-set m k v j h,
)

-- An allocator whose pages all have 32-bit addresses.
pub record IsValid (a : AddrAlloc) : Type 0 where
  pub bytes : IsBytes a.bitmap
  pub positive : 0 < a.page_size
  pub small : a.bitmap.bytes_len * 8 + 1 < 2 ^ 31
  pub addresses : a.start + (a.bitmap.bytes_len * 8 + 1) * a.page_size < 2 ^ 32

-- The address of the page with this number.
abbrev pub page_addr : AddrAlloc → ℕ → ℕ
page_addr a page = a.start + page * a.page_size

mul_mono : (a b c : ℕ) → a ≤ b → a * c ≤ b * c
mul_mono a b c h = grind arith

-- The page number that `alloc_mem_use` computes from a page's address.
page_of_addr :
    (a : AddrAlloc) (page : ℕ)
    → IsValid a
    → page ≤ a.bitmap.bytes_len * 8 + 1
    → (page_addr a page < 2 ^ 32) × (u32 (page_addr a page + 2 ^ 32 - a.start) / a.page_size ≡ page)
page_of_addr a page v h =
    let bound : page * a.page_size ≤ (a.bitmap.bytes_len * 8 + 1) * a.page_size =
      mul_mono page (a.bitmap.bytes_len * 8 + 1) a.page_size h in
    let small : page_addr a page < 2 ^ 32 = omega (arith, v.addresses) in
    let exact : u32 (page_addr a page + 2 ^ 32 - a.start) ≡ page * a.page_size = omega arith in
    (small, rw exact (mul-div_cancel page v.positive))

-- What `alloc_phy_mem` of `n` pages has done: nothing, as no `n` free pages are in a row, or it
-- has taken the lowest such row and nothing else.
abbrev pub Reserved : AddrAlloc → ℕ → ℕ × AddrAlloc → Type 0
Reserved a n (addr, a') =
    ((addr ≡ minus_one) × (a' ≡ a) × ((s : ℕ) → Clear a.bitmap s n → reach a.bitmap n < s + n))
    ⊎ ((page : ℕ) × (addr ≡ page_addr a page)
        × (addr < 2 ^ 32)
        × Clear a.bitmap page n
        × (page + n ≤ reach a.bitmap n)
        × ((s : ℕ) → Clear a.bitmap s n → page ≤ s)
        × ((j : ℕ) → used a' j ≡ (if within page n j then true else used a j)))

alloc_at-Reserved :
    (a : AddrAlloc) (n : ℕ) (o : Option ℕ)
    → IsValid a
    → 1 ≤ n
    → Outcome a.bitmap n o
    → Reserved a n (alloc_at a n o)
unfolding alloc_at alloc_mem_use
alloc_at-Reserved a n none v h out = inl (refl, refl, out)
alloc_at-Reserved a n (some page) v h (clear, fits, lowest) =
    let inside : page ≤ a.bitmap.bytes_len * 8 + 1 = ground arith in
    let (small, back) = page_of_addr a page v inside in
    let exact : u32 (page_addr a page) ≡ page_addr a page = omega arith in
    inr (
      page,
      exact,
      omega arith,
      clear,
      fits,
      lowest,
      λ j. rw (exact, back) (scan_test-use_bits 1 n a.bitmap page j v.bytes),
    )

-- On a valid allocator and for at least one page, `alloc_phy_mem` takes the lowest row of `n` free pages, returns the address of its first page and
-- marks exactly these pages as used; it returns -1 and changes nothing exactly where there is no
-- such row. The page behind the bitmap's last counts as one of its own unless `n` is 1.
pub alloc_phy_mem-Reserved :
    (a : AddrAlloc) (n : ℕ) → IsValid a → 1 ≤ n → Reserved a n (alloc_phy_mem a n)
unfolding alloc_phy_mem
alloc_phy_mem-Reserved a n v h =
    alloc_at-Reserved a n (Bitmap.scan a.bitmap n) v h (scan_lem a.bitmap n v.small h v.bytes)

-- An operation that leaves the range of the allocator alone.
abbrev SameRange : AddrAlloc → AddrAlloc → Type 0
SameRange a b =
    (b.start ≡ a.start)
    × (b.page_size ≡ a.page_size)
    × (b.bitmap.bytes_len ≡ a.bitmap.bytes_len)
    × IsBytes b.bitmap

bytes_len-use_bits : (v n : ℕ) (m : Bitmap) (k : ℕ) → (use_bits v n m k).bytes_len ≡ m.bytes_len
unfolding use_bits Bitmap.set
bytes_len-use_bits v zero m k = refl
bytes_len-use_bits v (suc n) m k = bytes_len-use_bits v n (Bitmap.set m k v) (k + 1)

alloc_mem_use-SameRange :
    (a : AddrAlloc) (addr n v : ℕ) → IsBytes a.bitmap → SameRange a (alloc_mem_use a addr n v)
unfolding alloc_mem_use
alloc_mem_use-SameRange a addr n v h =
    (refl, refl, bytes_len-use_bits v n a.bitmap _, use_bits-IsBytes v n a.bitmap _ h)

-- `alloc_mem_use` keeps an allocator valid, whatever it is given.
pub alloc_mem_use-IsValid :
    (a : AddrAlloc) (addr n v : ℕ) → IsValid a → IsValid (alloc_mem_use a addr n v)
alloc_mem_use-IsValid a addr n v h =
    let (s, p, l, b) = alloc_mem_use-SameRange a addr n v h.bytes in
    record {
      bytes = b;
      positive = rw p h.positive;
      small = rw l h.small;
      addresses = rw (s, p, l) h.addresses;
    }

alloc_at-IsValid : (a : AddrAlloc) (n : ℕ) (o : Option ℕ) → IsValid a → IsValid (alloc_at a n o).1
unfolding alloc_at
alloc_at-IsValid a n none v = v
alloc_at-IsValid a n (some page) v = alloc_mem_use-IsValid a _ n 1 v

pub alloc_phy_mem-IsValid : (a : AddrAlloc) (n : ℕ) → IsValid a → IsValid (alloc_phy_mem a n).1
unfolding alloc_phy_mem
alloc_phy_mem-IsValid a n v = alloc_at-IsValid a n (Bitmap.scan a.bitmap n) v

-- `alloc_mem_use` on `n` pages from a page of the allocator marks these pages, and no other.
pub used-alloc_mem_use :
    (a : AddrAlloc) (page n v j : ℕ)
    → IsValid a
    → page ≤ a.bitmap.bytes_len * 8 + 1
    → used (alloc_mem_use a (page_addr a page) n v) j
      ≡ (if within page n j then not (v == 0) else used a j)
unfolding alloc_mem_use
used-alloc_mem_use a page n v j h inside =
    rw ((page_of_addr a page h inside).1) (scan_test-use_bits v n a.bitmap page j h.bytes)

alloc_at-free :
    (a : AddrAlloc) (n page j : ℕ)
    → IsValid a
    → Clear a.bitmap page n
    → (page ≤ a.bitmap.bytes_len * 8 + 1)
    → used (free_vir_mem (alloc_at a n (some page)).1 (alloc_at a n (some page)).0 n) j ≡ used a j
unfolding alloc_at free_vir_mem
alloc_at-free a n page j v clear inside =
    let (small, back) = page_of_addr a page v inside in
    let exact : u32 (page_addr a page) ≡ page_addr a page = omega arith in
    let a' = alloc_mem_use a (page_addr a page) n 1 in
    let (s, p, l, b) = alloc_mem_use-SameRange a (page_addr a page) n 1 v.bytes in
    let same : page_addr a page ≡ page_addr a' page = rw (s, p) refl in
    rw exact (
      ap (λ x. used (alloc_mem_use a' x n 0) j) same
      ∙ ground (
        arith,
        used-alloc_mem_use a' page n 0 j (alloc_mem_use-IsValid a (page_addr a page) n 1 v)
            (rw l inside),
        used-alloc_mem_use a page n 1 j v inside,
        clear j,
      ))

alloc_at-free_any :
    (a : AddrAlloc) (n j : ℕ) (o : Option ℕ)
    → IsValid a
    → Outcome a.bitmap n o
    → o ≢ none
    → used (free_vir_mem (alloc_at a n o).1 (alloc_at a n o).0 n) j ≡ used a j
alloc_at-free_any a n j none v out ne = absurd (ne refl)
alloc_at-free_any a n j (some page) v (clear, fits, lowest) ne =
    alloc_at-free a n page j v clear (ground arith)

alloc_at-minus_one :
    (a : AddrAlloc) (n : ℕ) (o : Option ℕ) → (alloc_at a n o).0 ≢ minus_one → o ≢ none
unfolding alloc_at
alloc_at-minus_one a n o h e = ground arith

-- On a valid allocator, freeing what a successful `alloc_vir_mem` of `n` pages, at least one, returned marks exactly the pages as used
-- that were used before.
pub free_vir_mem-alloc_vir_mem :
    (a : AddrAlloc) (n j : ℕ)
    → IsValid a
    → 1 ≤ n
    → (alloc_vir_mem a n).0 ≢ minus_one
    → used (free_vir_mem (alloc_vir_mem a n).1 (alloc_vir_mem a n).0 n) j ≡ used a j
unfolding alloc_vir_mem
free_vir_mem-alloc_vir_mem a n j v h ne =
    alloc_at-free_any a n j (Bitmap.scan a.bitmap n) v (scan_lem a.bitmap n v.small h v.bytes)
      (alloc_at-minus_one a n (Bitmap.scan a.bitmap n) ne)
