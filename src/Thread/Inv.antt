-- ===== src/Thread/Inv.antt =====
-- The invariant of the scheduler, and that waking sleepers keeps it.
use clean_os.Base.{
  ℕ, ◌+◌, ◌-◌, ◌≤◌, ◌≡◌, refl, false, List, [], ◌∷◌, ◌==◌, if◌then◌else◌, arith, ◌^◌, length,
}
use clean_os.Bitmap.{u32}
use clean_os.Base.Count.{count, count-unlink}
use clean_os.Thread.{
  Status, unknown, running, ready, blocked, sleep, waiting, hanging, died, Task, Sched, put_task,
  is_running, tick_sleepers, wake_all,
}

-- 1 for a thread that can run.
abbrev pub runnable : Status → ℕ
runnable running = 1
runnable ready = 1
runnable _ = 0

-- 1 for a thread that sleeps.
abbrev pub asleep : Status → ℕ
asleep sleep = 1
asleep _ = 0

-- Each thread that can run is the current one or stands in the ready list, once; each thread that
-- sleeps stands in the sleep list, once; no other thread stands in these; and no thread but the
-- current one has the status of a running one.
pub record IsQueued (s : Sched) : Type 0 where
  pub queued :
      (x : ℕ) → count x s.ready_tasks ≡ (if x == s.cur then 0 else runnable (s.task x).status)
  pub sleepers : (x : ℕ) → count x s.sleep_tasks ≡ asleep (s.task x).status
  pub others : (x : ℕ) → (x == s.cur) ≡ false → is_running (s.task x).status ≡ false

pub record IsValid (s : Sched) : Type 0 where
  pub queues : IsQueued s
  pub runs : runnable (s.task s.cur).status ≡ 1

pub runnable-asleep : (st : Status) → runnable st + asleep st ≤ 1
runnable-asleep unknown = omega arith
runnable-asleep running = omega arith
runnable-asleep ready = omega arith
runnable-asleep blocked = omega arith
runnable-asleep sleep = omega arith
runnable-asleep waiting = omega arith
runnable-asleep hanging = omega arith
runnable-asleep died = omega arith

pub tick_sleepers_lem :
    (xs : List ℕ) (tasks : ℕ → Task) (x : ℕ)
    → (count x (tick_sleepers xs tasks).0 ≤ count x xs)
      × (((tick_sleepers xs tasks).1 x).status ≡ (tasks x).status)
unfolding tick_sleepers put_task
tick_sleepers_lem [] tasks x = (omega arith, refl)
tick_sleepers_lem (y ∷ xs) tasks x =
    let left = u32 ((tasks y).sleep_ticks + 2 ^ 32 - 1) in
    ground
      (arith, tick_sleepers_lem xs (put_task tasks y (record (tasks y) { sleep_ticks = left })) x)

-- The lists and the statuses once the threads `w` are woken.
pub record Woken (w : List ℕ) (s t : Sched) : Type 0 where
  pub same_cur : t.cur ≡ s.cur
  pub readied : (x : ℕ) → count x t.ready_tasks ≡ count x w + count x s.ready_tasks
  pub removed : (x : ℕ) → count x t.sleep_tasks ≡ count x s.sleep_tasks - count x w
  pub changed : (x : ℕ) → (t.task x).status ≡ (if count x w == 0 then (s.task x).status else ready)
  pub longer : length t.ready_tasks ≡ length w + length s.ready_tasks

pub wake_all-Woken : (w : List ℕ) (s : Sched) → Woken w s (wake_all w s)
unfolding wake_all put_task
wake_all-Woken [] s = record {
  same_cur = refl;
  readied = λ x. omega arith;
  removed = λ x. omega arith;
  changed = λ x. refl;
  longer = omega arith;
}
wake_all-Woken (y ∷ w) s =
    let ih = wake_all-Woken w _ in
    record {
      same_cur = ih.same_cur;
      readied = λ x. omega (arith, ih.readied x);
      removed = λ x. omega (arith, ih.removed x, count-unlink x y s.sleep_tasks);
      changed = λ x. ground (arith, ih.changed x);
      longer = omega (arith, ih.longer);
    }

-- The threads that the loops of `schedule` wake, and the state between the loops.
abbrev pub woken : Sched → List ℕ
woken s = (tick_sleepers s.sleep_tasks s.task).0

abbrev pub ticked : Sched → Sched
ticked s = record s { task = (tick_sleepers s.sleep_tasks s.task).1 }

-- Waking threads other than the current one keeps every thread in its place.
pub Woken-IsQueued :
    (s t : Sched)
    → IsQueued s
    → count s.cur (woken s) ≡ 0
    → Woken (woken s) (ticked s) t
    → IsQueued t × ((t.task t.cur).status ≡ (s.task s.cur).status)
Woken-IsQueued s t q cur_stays w =
    let same = λ (x : ℕ). tick_sleepers_lem s.sleep_tasks s.task x in
    (
      record {
        queued = λ x. ground (
          arith,
          w.same_cur,
          w.readied x,
          w.changed x,
          same x,
          q.queued x,
          q.sleepers x,
          runnable-asleep (s.task x).status,
        );
        sleepers = λ x. ground (arith, w.removed x, w.changed x, same x, q.sleepers x);
        others = λ x h. ground (arith, w.same_cur, w.changed x, same x, q.others x);
      },
      ground (arith, w.same_cur, w.changed s.cur, same s.cur),
    )

-- The loops of `schedule` keep every thread in its place, if the current one is not woken.
pub wake_all-IsQueued :
    (s : Sched)
    → IsQueued s
    → count s.cur (woken s) ≡ 0
    → let t = wake_all (woken s) (ticked s) in
      IsQueued t × ((t.task t.cur).status ≡ (s.task s.cur).status)
wake_all-IsQueued s q h =
    Woken-IsQueued s (wake_all (woken s) (ticked s)) q h (wake_all-Woken (woken s) (ticked s))
