-- ===== src/Thread/Tests.antt =====
-- Runs of the scheduler on a few threads.
use clean_os.Base.{
  true, false, ℕ, ◌-◌, ◌^◌, ◌<◌, ◌≡◌, ◌↔◌, refl, Option, none, some, [], ◌∷◌, ltb, ◌==◌,
  if◌then◌else◌, arith, List, leb, ◌&&◌, suc, zero, ◌+◌,
}
use clean_os.Base.Count.{count, unlink}
use clean_os.Thread.{
  Status, unknown, running, ready, sleep, Task, Sched, put_task, init_thread, tick_sleepers,
  wake_all, switch, dispatch, schedule, change_status, set_status, set_thread_status, is_sleep,
  thread_ready, set_cur_thread_status, thread_sleep, thread_yield, thread_start,
}
use clean_os.Thread.Inv.{IsValid}
use clean_os.Thread.Schedule.{IsIdle}
use clean_os.Thread.Reach.{yields, starts, here, next, Reach-IsValid}
use clean_os.Thread.Rotate
use clean_os.Thread.Rotate.{yields-rotate}
use clean_os.Thread.Files.{Allocated, task_alloc_fd, task_alloc_fd-Allocated}
use clean_os.Thread.Due.{schedule-due, thread_sleep-short}

abbrev task_in : Status → ℕ → Task
task_in st sleep_n = record {
  status = st;
  priority = 31;
  ticks = 0;
  elapset_ticks = 0;
  sleep_ticks = sleep_n;
  pid = 0;
  parent_pid = 0;
  page_dir = 0;
}

-- The main thread alone
abbrev main_only : Sched
main_only = record {
  task = λ x. if x == 0 then task_in running 0 else task_in unknown 0;
  ready_tasks = [];
  sleep_tasks = [];
  all_tasks = 0 ∷ [];
  cur = 0;
}

main_only-IsValid : IsValid main_only
main_only-IsValid = record {
  queues = record {
    queued = λ x. ground arith;
    sleepers = λ x. ground arith;
    others = λ x h. ground arith;
  };
  runs = refl;
}

-- The main thread with two others that are ready
abbrev three : Sched
three = record {
  task = λ x.
      if x == 0
      then task_in running 0
      else if x == 1
      then task_in ready 0
      else if x == 2
      then task_in ready 0
      else task_in unknown 0;
  ready_tasks = 1 ∷ 2 ∷ [];
  sleep_tasks = [];
  all_tasks = 0 ∷ 1 ∷ 2 ∷ [];
  cur = 0;
}

three-IsValid : IsValid three
three-IsValid = record {
  queues = record {
    queued = λ x. ground arith;
    sleepers = λ x. ground arith;
    others = λ x h. ground arith;
  };
  runs = refl;
}

-- Two threads are started and the main one gives up the processor.
abbrev started : Sched
started = thread_start (thread_start main_only 1 31) 2 31

abbrev outcome : Option Sched → Sched
outcome none = main_only
outcome (some s) = s

abbrev second_runs : Sched
second_runs = outcome (thread_yield started)

yield_runs : thread_yield started ≡ some second_runs
unfolding thread_yield set_cur_thread_status set_thread_status set_status schedule tick_sleepers
    wake_all dispatch switch change_status unlink thread_start put_task init_thread
yield_runs = refl

second_waits : IsIdle ((thread_start main_only 1 31).task 2).status
unfolding thread_start put_task
second_waits = (refl, refl)

Reach-IsValid_example : IsValid second_runs
Reach-IsValid_example = Reach-IsValid main_only-IsValid (
    next (next (next here (starts 1 31 (refl, refl) refl)) (starts 2 31 second_waits refl))
      (yields yield_runs))

-- The only thread goes to sleep: it goes on as the current one, and stands in the sleep list.
abbrev drowsy : Sched
drowsy = outcome (thread_sleep main_only 1000)

sleep_alone :
    (drowsy.cur ≡ 0) × (is_sleep (drowsy.task 0).status ≡ true) × (drowsy.sleep_tasks ≡ 0 ∷ [])
unfolding thread_sleep set_cur_thread_status set_thread_status set_status schedule tick_sleepers
    wake_all dispatch switch change_status unlink put_task
sleep_alone = (refl, refl, refl)

-- A thread that sleeps is made ready: it stands in both lists.
abbrev woken_early : Sched
woken_early = outcome (thread_ready (outcome (thread_sleep three 1000)) 0 false false)

sleeper_ready : (count 0 woken_early.ready_tasks ≡ 1) × (count 0 woken_early.sleep_tasks ≡ 1)
unfolding thread_ready thread_sleep set_cur_thread_status set_thread_status set_status schedule
    tick_sleepers wake_all dispatch switch change_status unlink put_task
sleeper_ready = (refl, refl)

-- The second ready thread has the processor after two yields.
yields-rotate_example :
    (t : Sched) × (Rotate.yields 2 three ≡ some t) × (t.cur ∷ t.ready_tasks ≡ 2 ∷ 0 ∷ 1 ∷ [])
yields-rotate_example = yields-rotate three 2 three-IsValid refl (omega arith)

-- The `n` numbers from `k` on
abbrev upto : ℕ → ℕ → List ℕ
upto k zero = []
upto k (suc n) = k ∷ upto (k + 1) n

count-upto : (x k n : ℕ) → count x (upto k n) ≡ (if leb k x && ltb x (k + n) then 1 else 0)
count-upto x k zero = ground arith
count-upto x k (suc n) = ground (arith, count-upto x (k + 1) n)

-- `n` threads whose sleep ends at the next tick
abbrev many : ℕ → Sched
many n = record {
  task = λ x.
      if x == 0
      then task_in running 0
      else if ltb x (1 + n)
      then task_in sleep 1
      else task_in unknown 0;
  ready_tasks = [];
  sleep_tasks = upto 1 n;
  all_tasks = upto 0 (suc n);
  cur = 0;
}

many-IsValid : (n : ℕ) → IsValid (many n)
many-IsValid n = record {
  queues = record {
    queued = λ x. ground arith;
    sleepers = λ x. ground (arith, count-upto x 1 n);
    others = λ x h. ground arith;
  };
  runs = refl;
}

schedule-due_example : (schedule (many 11) ≡ none) ↔ (10 < 11)
schedule-due_example = schedule-due (many 11) (many-IsValid 11)

abbrev slept : Sched
slept = outcome (thread_sleep three 5)

sleep_runs : thread_sleep three 5 ≡ some slept
unfolding thread_sleep set_cur_thread_status set_thread_status set_status schedule tick_sleepers
    wake_all dispatch switch change_status unlink put_task
sleep_runs = refl

thread_sleep-short_example :
    (count 0 slept.sleep_tasks ≡ 1) × ((slept.task 0).sleep_ticks ≡ 2 ^ 32 - 1)
thread_sleep-short_example = thread_sleep-short three slept 5 three-IsValid (omega arith) sleep_runs

-- A table whose first place is taken
abbrev one_open : ℕ → ℕ
one_open i = if i == 0 then 5 else 0

task_alloc_fd-Allocated_example : Allocated one_open 7 (task_alloc_fd one_open 7)
task_alloc_fd-Allocated_example = task_alloc_fd-Allocated one_open 7
