-- ===== src/Thread.antt =====
-- kernel/thread/thread.c: the queues of threads and the scheduler.
-- A thread is named by the number of its `task_struct`, and a list of threads is the list of their
-- numbers in order. A thread's `general_tag` is in at most one list; in none, its links are null, as
-- `popl` leaves them. `none` is a write past the end of `wake_up_list`.
pub mod Inv
pub mod Dispatch
pub mod Schedule
pub mod Sleep
pub mod Reach
pub mod Rotate
pub mod Due
pub mod Search
pub mod Files
mod Tests
use clean_os.Base.{
  ℕ, zero, suc, ◌+◌, ◌-◌, ◌*◌, ◌/◌, ◌%◌, ◌^◌, Bool, true, false, not, Option, none, some, List, [],
  ◌∷◌, ◌++◌, ltb, ◌==◌, if◌then◌else◌, ◌&&◌, length,
}
use clean_os.Base.Count.{unlink}
use clean_os.Bitmap.{u32}

-- `task_status`
pub data Status : Type 0 where
  unknown running ready blocked sleep waiting hanging died : Status

-- The fields of `task_struct` that the scheduler and the searches use.
pub record Task : Type 0 where
  pub status : Status
  pub priority : ℕ
  pub ticks : ℕ
  pub elapset_ticks : ℕ
  pub sleep_ticks : ℕ
  pub pid : ℕ
  pub parent_pid : ℕ
  pub page_dir : ℕ

-- The lists of threads and the current one, whose stack the processor is on.
pub record Sched : Type 0 where
  pub task : ℕ → Task
  pub ready_tasks : List ℕ
  pub sleep_tasks : List ℕ
  pub all_tasks : List ℕ
  pub cur : ℕ

-- One thread's record overwritten.
unfoldable pub put_task : (ℕ → Task) → ℕ → Task → ℕ → Task
put_task tasks x t y = if y == x then t else tasks y

abbrev pub is_ready : Status → Bool
is_ready ready = true
is_ready _ = false

abbrev pub is_running : Status → Bool
is_running running = true
is_running _ = false

abbrev pub is_sleep : Status → Bool
is_sleep sleep = true
is_sleep _ = false

-- The first loop of `schedule`: the sleepers whose time is over, and the threads.
unfoldable pub tick_sleepers : List ℕ → (ℕ → Task) → List ℕ × (ℕ → Task)
tick_sleepers [] tasks = ([], tasks)
tick_sleepers (x ∷ xs) tasks =
    let left = u32 ((tasks x).sleep_ticks + 2 ^ 32 - 1) in
    let (woken, tasks') =
      tick_sleepers xs (put_task tasks x (record (tasks x) { sleep_ticks = left })) in
    (if left == 0 then x ∷ woken else woken, tasks')

-- The second loop, over `wake_up_list`.
unfoldable pub wake_all : List ℕ → Sched → Sched
wake_all [] s = s
wake_all (x ∷ xs) s = wake_all xs (record s {
  sleep_tasks = unlink x s.sleep_tasks;
  ready_tasks = x ∷ s.ready_tasks;
  task = put_task s.task x (record (s.task x) { status = ready });
})

-- `schedule` once it has taken the thread `x` off the ready list.
unfoldable pub switch : Sched → ℕ → Sched
switch s x =
    let given = put_task s.task x (record (s.task x) { ticks = (s.task x).priority }) in
    let kept = put_task given s.cur (record (given s.cur) { status = ready }) in
    let tasks = if is_running (given s.cur).status then kept else given in
    if s.cur == x then record s { task = given } else record s {
      task = put_task tasks x (record (tasks x) { status = running });
      ready_tasks =
          if is_ready (tasks s.cur).status then s.ready_tasks ++ (s.cur ∷ []) else s.ready_tasks;
      cur = x;
    }

-- `schedule` behind its loops
unfoldable pub dispatch : Sched → Sched
dispatch s =
    let t = s.task s.cur in
    if is_running t.status && ltb 0 t.ticks
    then record s {
      task =
          put_task s.task s.cur
            (record t { elapset_ticks = u32 (t.elapset_ticks + 1); ticks = t.ticks - 1 });
    }
    else elim s.ready_tasks [ [] ↦ s | x ∷ rest ↦ switch (record s { ready_tasks = rest }) x ]

-- `wake_up_list` has ten places.
unfoldable pub schedule : Sched → Option Sched
schedule s =
    let (woken, tasks) = tick_sleepers s.sleep_tasks s.task in
    if ltb 10 (length woken)
    then none
    else some (dispatch (wake_all woken (record s { task = tasks })))

-- `_set_thread_status` before its call of `schedule`. The list that `remove` is given does not matter
-- to it: the thread leaves the list that it is in.
unfoldable pub change_status : Sched → ℕ → Status → Bool → Sched
change_status s x status first =
    let t = s.task x in
    let pushed =
      if not (is_ready t.status) && not (is_running t.status) && is_ready status
      then (if first then x ∷ s.ready_tasks else s.ready_tasks ++ (x ∷ []))
      else s.ready_tasks in
    let left = if is_ready status then s.sleep_tasks else unlink x s.sleep_tasks in
    record s {
      ready_tasks = if is_ready status then pushed else unlink x pushed;
      sleep_tasks = if is_sleep status then left ++ (x ∷ []) else left;
      task = put_task s.task x (record t { status = status });
    }

-- `_set_thread_status`
unfoldable pub set_status : Sched → ℕ → Status → Bool → Bool → Option Sched
set_status s x status need_schedule first =
    let s' = change_status s x status first in if need_schedule then schedule s' else some s'

unfoldable pub set_thread_status : Sched → ℕ → Status → Bool → Option Sched
set_thread_status s x status need_schedule = set_status s x status need_schedule false

unfoldable pub set_cur_thread_status : Sched → Status → Bool → Option Sched
set_cur_thread_status s status need_schedule = set_thread_status s s.cur status need_schedule

unfoldable pub thread_yield : Sched → Option Sched
thread_yield s = set_cur_thread_status s ready true

-- `HZ` is 100.
unfoldable pub thread_sleep : Sched → ℕ → Option Sched
thread_sleep s ms_n =
    let t = record (s.task s.cur) { sleep_ticks = u32 (100 * ms_n) / 1000 } in
    set_cur_thread_status (record s { task = put_task s.task s.cur t }) sleep true

unfoldable pub thread_block : Sched → ℕ → Status → Option Sched
thread_block s x status = set_thread_status s x status true

unfoldable pub thread_ready : Sched → ℕ → Bool → Bool → Option Sched
thread_ready s x need_schedule now = set_status s x ready need_schedule now

-- `init_thread` of a thread other than the main one
unfoldable pub init_thread : ℕ → Task
init_thread priority = record {
  status = ready;
  priority = priority;
  ticks = priority;
  elapset_ticks = 0;
  sleep_ticks = 0;
  pid = 0;
  parent_pid = 0;
  page_dir = 0;
}

-- `thread_start` on the page `x` that `alloc_kernel_mem` has returned; its stack is not modelled.
unfoldable pub thread_start : Sched → ℕ → ℕ → Sched
thread_start s x priority =
    let c = s.task s.cur in
    record s {
      task = put_task s.task x (record (init_thread priority) {
        pid = c.pid;
        parent_pid = c.parent_pid;
        page_dir = c.page_dir;
      });
      ready_tasks = s.ready_tasks ++ (x ∷ []);
      all_tasks = s.all_tasks ++ (x ∷ []);
    }
