-- ===== src/Segment.antt =====
-- kernel/thread/schedule/segment.c: counting semaphores. A thread is its id; what the scheduler does
-- with a thread that blocks or is made ready is not part of it.
use clean_os.Base.{
  ℕ, ◌+◌, ◌-◌, Bool, true, false, Option, none, some, List, [], ◌∷◌, ◌++◌, ◌==◌, ltb, if◌then◌else◌,
}

-- `segment_t`
pub record Segment : Type 0 where
  pub count : ℕ
  pub waiters : List ℕ

unfoldable pub init_segment : ℕ → Segment
init_segment count = record { count = count; waiters = [] }

-- The flag is false where the current thread blocks.
unfoldable pub segment_wait : Segment → ℕ → Bool × Segment
segment_wait seg cur =
    if ltb 0 seg.count
    then (true, record seg { count = seg.count - 1 })
    else (false, record seg { waiters = seg.waiters ++ (cur ∷ []) })

-- The walk with `find_by_pid_visitor`, which leaves the thread in the list.
unfoldable pub find_by_pid : ℕ → List ℕ → Option ℕ
find_by_pid pid [] = none
find_by_pid pid (t ∷ ts) = let rest = find_by_pid pid ts in if t == pid then some t else rest

-- `popl`
unfoldable pub pop_waiter : List ℕ → Option ℕ × List ℕ
pop_waiter [] = (none, [])
pop_waiter (t ∷ ts) = (some t, ts)

unfoldable pub choose : Segment → Option ℕ → Option ℕ × List ℕ
choose seg none = pop_waiter seg.waiters
choose seg (some pid) =
    if pid == 0 then pop_waiter seg.waiters else (find_by_pid pid seg.waiters, seg.waiters)

-- `pid` is the pointer, null or with what it points to. The result is the thread that is made ready,
-- whose id is stored there; `none` is the write through a null pointer.
unfoldable pub segment_wakeup : Segment → Option ℕ → Option (Option ℕ × Segment)
segment_wakeup seg pid =
    let (tag, waiters) = choose seg pid in
    elim tag [
      | none ↦ some (none, record seg { count = seg.count + 1; waiters = waiters })
      | some t ↦ elim pid [ none ↦ none | some v ↦ some (some t, record seg { waiters = waiters }) ]
    ]

unfoldable pub segment_count : Segment → ℕ
segment_count seg = seg.count
