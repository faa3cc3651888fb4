-- ===== src/Thread/Files.antt =====
-- kernel/thread/thread.c: the table of open files of the current thread.
-- A file is the address of its `file_t`, 0 the null pointer. A descriptor is the 32-bit word of an
-- `int`, so that a negative one is 2 ^ 31 or more; -1 is `none`. A place of the table that is not
-- there is a fault.
use clean_os.Base.{
  ℕ, zero, suc, ◌+◌, ◌≤◌, ◌<◌, ◌≡◌, ◌≢◌, refl, ap, Bool, false, not, Option, none, some, ltb, ◌==◌,
  if◌then◌else◌, ◌&&◌, arith, Bool-cases, ==_iff, inl, inr,
}

-- `TASK_FILE_SIZE`
abbrev pub file_size : ℕ
file_size = 128

unfoldable pub with_file : (ℕ → ℕ) → ℕ → ℕ → ℕ → ℕ
with_file table fd file i = if i == fd then file else table i

-- The loop of `task_alloc_fd` over the `n` places from `i` on.
unfoldable pub first_free : ℕ → ℕ → (ℕ → ℕ) → Option ℕ
first_free zero i table = none
first_free (suc n) i table =
    let rest = first_free n (i + 1) table in if table i == 0 then some i else rest

unfoldable pub task_alloc_fd : (ℕ → ℕ) → ℕ → Option ℕ × (ℕ → ℕ)
task_alloc_fd table file = elim (first_free file_size 0 table) [
  | none ↦ (none, table)
  | some i ↦ (some i, with_file table i file)
]

unfoldable pub task_file : (ℕ → ℕ) → ℕ → ℕ
task_file table fd = if ltb 127 fd then 0 else table fd

-- What `task_set_file` does: it refuses, stores, or writes outside of the table.
pub data Stored : Type 0 where
  refused : Stored
  stored : (ℕ → ℕ) → Stored
  fault : Stored

unfoldable pub task_set_file : (ℕ → ℕ) → ℕ → ℕ → Bool → Stored
task_set_file table fd file override =
    if not (task_file table fd == 0) && not override
    then refused
    else if ltb 127 fd
    then fault
    else stored (with_file table fd file)

unfoldable pub task_free_fd : (ℕ → ℕ) → ℕ → ℕ → ℕ
task_free_fd table fd = if ltb 127 fd then table else with_file table fd 0

-- The lowest place that is null, or none.
record Free (n i : ℕ) (table : ℕ → ℕ) (o : Option ℕ) : Type 0 where
  found :
      (k : ℕ)
      → o ≡ some k
      → (i ≤ k) × (k < i + n) × (table k ≡ 0) × ((j : ℕ) → i ≤ j → j < k → table j ≢ 0)
  full : o ≡ none → (j : ℕ) → i ≤ j → j < i + n → table j ≢ 0

-- Behind a place that is taken.
later : (i : ℕ) (table : ℕ → ℕ) (j : ℕ) → (table i == 0) ≡ false → i ≤ j → table j ≡ 0 → i + 1 ≤ j
later i table j used h z = elim (Bool-cases (j == i)) [
  | inl same ↦ absurd (ground (arith, used, z, ap table ((==_iff j i).0 same)))
  | inr other ↦ ground (arith, other)
]

first_free-Free : (n i : ℕ) (table : ℕ → ℕ) → Free n i table (first_free n i table)
unfolding first_free
first_free-Free zero i table = record {
  found = λ k e. absurd (cc e);
  full = λ e j h l. absurd (omega arith);
}
first_free-Free (suc n) i table =
    let ih = first_free-Free n (i + 1) table in
    elim (Bool-cases (table i == 0)) [
      | inl here ↦ rw here (record {
        found = λ k e.
            let same : i ≡ k = cc in
            (
              omega arith,
              omega arith,
              ground (arith, here, ap table same),
              λ j h l. absurd (omega arith),
            );
        full = λ e. absurd (cc e);
      })
      | inr used ↦ rw used (record {
        found = λ k e.
            let (low, high, free, before) = ih.found k e in
            (omega arith, omega arith, free, λ j h l z. before j (later i table j used h z) l z);
        full = λ e j h l z. ih.full e j (later i table j used h z) (omega arith) z;
      })
    ]

-- How a file is given a descriptor, and where there is none.
pub data Allocated (table : ℕ → ℕ) (file : ℕ) : Option ℕ × (ℕ → ℕ) → Type 0 where
  opened :
      (fd : ℕ) (table' : ℕ → ℕ)
      → fd < 128
      → table fd ≡ 0
      → ((j : ℕ) → j < fd → table j ≢ 0)
      → task_file table' fd ≡ file
      → ((j : ℕ) → j ≢ fd → task_file table' j ≡ task_file table j)
      → ((j : ℕ) → task_free_fd table' fd j ≡ table j)
      → Allocated table file (some fd, table')
  full : ((j : ℕ) → j < 128 → table j ≢ 0) → Allocated table file (none, table)

-- A file gets the lowest descriptor whose place is free, is found under it, and no other place
-- changes; closing the descriptor restores the table. Where there is no descriptor, no place of
-- the table is free, and it stays as it is.
pub task_alloc_fd-Allocated :
    (table : ℕ → ℕ) (file : ℕ) → Allocated table file (task_alloc_fd table file)
unfolding task_alloc_fd task_file task_free_fd with_file
task_alloc_fd-Allocated table file =
    split (first_free file_size 0 table) (first_free-Free file_size 0 table)
  where
    split :
        (o : Option ℕ)
        → Free file_size 0 table o
        → Allocated table file
            (elim o [ none ↦ (none, table) | some i ↦ (some i, with_file table i file) ])
    split none f = full (λ j l. f.full refl j (omega arith) l)
    split (some fd) f =
        let (low, high, free, before) = f.found fd refl in
        opened fd (with_file table fd file) high free (λ j l. before j (omega arith) l)
          (ground (arith, high)) (λ j h. ground (arith, h)) (λ j. ground (arith, free, high))
