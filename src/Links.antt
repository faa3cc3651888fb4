-- ===== src/Links.antt =====
-- common/lib/list.c: doubly linked lists whose ends are nodes of the list itself.
-- A pointer is a number, 0 the null pointer. The list at address `l` has its node `head` at `l`, its
-- node `tail` at `l + 8`, and its `size` in the same place of `Heap.size`.
pub mod Linked
pub mod Refine
pub mod Ends
pub mod Inside
pub mod Remove
pub mod Run
mod Tests
use clean_os.Base.{
  ℕ, zero, suc, ◌+◌, ◌-◌, ◌<◌, Bool, true, false, not, Option, none, some, List, [], ◌∷◌, ltb, leb,
  ◌==◌, if◌then◌else◌, ◌&&◌, ◌||◌,
}
use clean_os.Base.Ring.{put_at}

-- The fields of all nodes and lists.
pub record Heap : Type 0 where
  pub pre : ℕ → ℕ
  pub next : ℕ → ℕ
  pub size : ℕ → ℕ

abbrev pub set_pre : Heap → ℕ → ℕ → Heap
set_pre h a v = record h { pre = put_at h.pre a v }

abbrev pub set_next : Heap → ℕ → ℕ → Heap
set_next h a v = record h { next = put_at h.next a v }

abbrev pub set_size : Heap → ℕ → ℕ → Heap
set_size h l n = record h { size = put_at h.size l n }

abbrev pub tail : ℕ → ℕ
tail l = l + 8

unfoldable pub init_list : Heap → ℕ → Heap
init_list h l =
    let h = set_pre h l 0 in
    let h = set_next h l (tail l) in
    let h = set_pre h (tail l) l in let h = set_next h (tail l) 0 in set_size h l 0

unfoldable pub pushl : Heap → ℕ → ℕ → Heap
pushl h l node =
    let h = set_pre h node l in
    let h = set_next h node (h.next l) in
    let h = set_pre h (h.next l) node in let h = set_next h l node in set_size h l (h.size l + 1)

unfoldable pub popl : Heap → ℕ → ℕ × Heap
popl h l =
    let node = h.next l in
    let h1 = set_next h l (h.next node) in
    let h2 = set_pre h1 (h1.next node) l in
    let h3 = set_next (set_pre h2 node 0) node 0 in
    if h.size l == 0 then (0, h) else (node, set_size h3 l (h.size l - 1))

unfoldable pub pushr : Heap → ℕ → ℕ → Heap
pushr h l node =
    let h = set_pre h node (h.pre (tail l)) in
    let h = set_next h node (tail l) in
    let h = set_next h (h.pre (tail l)) node in
    let h = set_pre h (tail l) node in set_size h l (h.size l + 1)

unfoldable pub popr : Heap → ℕ → ℕ × Heap
popr h l =
    let node = h.pre (tail l) in
    let h1 = set_pre h (tail l) (h.pre node) in
    let h2 = set_next h1 (h1.pre node) (tail l) in
    let h3 = set_next (set_pre h2 node 0) node 0 in
    if h.size l == 0 then (0, h) else (node, set_size h3 l (h.size l - 1))

-- `n` nodes on from `p`
unfoldable pub walk : ℕ → Heap → ℕ → ℕ
walk zero h p = p
walk (suc n) h p = walk n h (h.next p)

-- The index is not negative.
unfoldable pub add : Heap → ℕ → ℕ → ℕ → ℕ × Heap
add h l index node =
    let p = walk index h (h.next l) in
    let h1 = set_pre (set_next h node p) node (h.pre p) in
    let h2 = set_next h1 (h1.pre p) node in
    let h3 = set_pre h2 p node in
    if index == 0
    then (0, pushl h l node)
    else if leb (h.size l) index
    then (h.size l, pushr h l node)
    else (index, set_size h3 l (h.size l + 1))

unfoldable pub at : Heap → ℕ → ℕ → ℕ
at h l index = if leb (h.size l) index then 0 else walk index h (h.next l)

unfoldable pub remove_at : Heap → ℕ → ℕ → ℕ × Heap
remove_at h l index =
    let p = at h l index in
    let h1 = set_next h (h.pre p) (h.next p) in
    let h2 = set_pre h1 (h1.next p) (h1.pre p) in
    let h3 = set_next (set_pre h2 p 0) p 0 in
    if p == 0 then (0, h) else (p, set_size h3 l (h.size l - 1))

-- The loop of `index` from the node `p`, whose index is `i`. Fuel bounds the nodes it looks at.
unfoldable pub index_from : ℕ → Heap → ℕ → ℕ → ℕ → ℕ → Option ℕ
index_from zero h l node p i = none
index_from (suc fuel) h l node p i =
    let rest = index_from fuel h l node (h.next p) (i + 1) in
    if (p == tail l) || (p == 0) then none else if p == node then some i else rest

unfoldable pub index : Heap → ℕ → ℕ → Option ℕ
index h l node = index_from (suc (h.size l)) h l node (h.next l) 0

unfoldable pub remove : Heap → ℕ → ℕ → Heap
remove h l node =
    let h1 : Heap = elim (index h l node) [ none ↦ h | some i ↦ set_size h l (h.size l - 1) ] in
    let h2 = set_next h1 (h1.pre node) (h1.next node) in
    let h3 = set_pre h2 (h2.next node) (h2.pre node) in
    if not (h1.pre node == 0) && not (h1.next node == 0) then h3 else h1

-- The loop of `list_find` and of `foreach`, which does not return the node.
unfoldable pub find_from : ℕ → Heap → ℕ → (ℕ → Bool) → ℕ → ℕ
find_from zero h l visitor p = 0
find_from (suc fuel) h l visitor p =
    let rest = find_from fuel h l visitor (h.next p) in
    if (p == tail l) || (p == 0) then 0 else if visitor p then rest else p

unfoldable pub list_find : Heap → ℕ → (ℕ → Bool) → ℕ
list_find h l visitor = find_from (suc (h.size l)) h l visitor (h.next l)
