-- ===== src/Paging/Pages.antt =====
-- Allocation page by page: the test for failure is `paddr < 0` on a `uint32_t`, which never holds.
use clean_os.Base.{
  ℕ, zero, suc, ◌+◌, ◌*◌, ◌≤◌, ◌<◌, ◌≡◌, refl, ap, ◌∙◌, true, false, ltb, some, List, [], ◌∷◌, ◌++◌,
  append_assoc, append-nil, inl, inr, length, length-append, replicate, arith, le→ltb,
}
use clean_os.Paging.Alloc.{AddrAlloc, minus_one, alloc_phy_mem}
use clean_os.Paging.Memory.{
  Zone, kernel, user, Memory, phy, set_phy, take_pages, alloc_phy_mem_page, malloc_max_page,
}
use clean_os.Paging.Reserve.{used, IsValid, Reserved, alloc_phy_mem-Reserved}

not_below_zero : (n : ℕ) → ltb n 0 ≡ false
not_below_zero n = le→ltb n 0 (omega arith)

take_pages-some :
    (n : ℕ) (z : Zone) (undo : Memory → Memory) (s : Memory) (ps : List ℕ)
    → (qs : List ℕ) × ((take_pages n z undo s ps).0 ≡ some qs) × (length qs ≡ length ps + n)
unfolding take_pages
take_pages-some zero z undo s ps = (ps, refl, omega arith)
take_pages-some (suc n) z undo s ps =
    let (paddr, a) = alloc_phy_mem (phy z s) 1 in
    let (qs, e, l) = take_pages-some n z undo (set_phy z s a) (ps ++ (paddr ∷ [])) in
    (qs, rw (not_below_zero paddr) e, omega (arith, length-append ps (paddr ∷ [])))

-- `alloc_phy_mem_page` of at most 1024 pages returns 0 with that many addresses, whether or not
-- there was a free page.
pub alloc_phy_mem_page-some :
    (s : Memory) (z : Zone) (n : ℕ)
    → n ≤ malloc_max_page
    → (ps : List ℕ) × ((alloc_phy_mem_page s z n).0 ≡ some ps) × (length ps ≡ n)
unfolding alloc_phy_mem_page
alloc_phy_mem_page-some s z n h =
    let (ps, e, l) = take_pages-some n z (λ t. t) s [] in
    (ps, rw (le→ltb malloc_max_page n h) e, omega arith)

set_phy_self : (z : Zone) (s : Memory) → set_phy z s (phy z s) ≡ s
set_phy_self kernel s = refl
set_phy_self user s = refl

-- Every page of the allocator is in use.
abbrev pub Exhausted : AddrAlloc → Type 0
Exhausted a = (j : ℕ) → j < a.bitmap.bytes_len * 8 → used a j ≡ true

none_left :
    (a : AddrAlloc)
    → Exhausted a
    → Reserved a 1 (alloc_phy_mem a 1)
    → alloc_phy_mem a 1 ≡ (minus_one, a)
none_left a full (inl (e, same, _)) = λ i. (e i, same i)
none_left a full (inr (page, _, _, clear, fits, _, _)) = ground (arith, full page, clear page)

alloc_phy_mem-Exhausted :
    (a : AddrAlloc) → IsValid a → Exhausted a → alloc_phy_mem a 1 ≡ (minus_one, a)
alloc_phy_mem-Exhausted a v full = none_left a full (alloc_phy_mem-Reserved a 1 v (omega arith))

append-replicate :
    (n : ℕ) (ps : List ℕ)
    → (ps ++ (minus_one ∷ [])) ++ replicate n minus_one ≡ ps ++ replicate (suc n) minus_one
append-replicate n ps = append_assoc ps (minus_one ∷ []) (replicate n minus_one)

take_pages-Exhausted :
    (n : ℕ) (z : Zone) (undo : Memory → Memory) (s : Memory) (ps : List ℕ)
    → IsValid (phy z s)
    → Exhausted (phy z s)
    → take_pages n z undo s ps ≡ (some (ps ++ replicate n minus_one), s)
unfolding take_pages
take_pages-Exhausted zero z undo s ps v full = rw append-nil refl
take_pages-Exhausted (suc n) z undo s ps v full =
    rw (alloc_phy_mem-Exhausted (phy z s) v full, set_phy_self)
      (take_pages-Exhausted n z undo s (ps ++ (minus_one ∷ [])) v full
        ∙ ap (λ l. (some l, s)) (append-replicate n ps))

-- Where every page of a valid allocator is in use, `alloc_phy_mem_page` of at most 1024 pages still returns 0, with the
-- address 0xffffffff for each page, and changes nothing.
pub alloc_phy_mem_page-Exhausted :
    (s : Memory) (z : Zone) (n : ℕ)
    → n ≤ malloc_max_page
    → IsValid (phy z s)
    → Exhausted (phy z s)
    → alloc_phy_mem_page s z n ≡ (some (replicate n minus_one), s)
unfolding alloc_phy_mem_page
alloc_phy_mem_page-Exhausted s z n h v full =
    rw (le→ltb malloc_max_page n h) (take_pages-Exhausted n z (λ t. t) s [] v full)
