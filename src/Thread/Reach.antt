-- ===== src/Thread/Reach.antt =====
-- The calls that change the lists of threads, as steps, and what holds in the states they reach.
use clean_os.Base.{
  ℕ, ◌<◌, ◌≡◌, refl, ap, subst, ◌∙◌, Bool, true, false, Option, some, [], ◌∷◌, arith, length, inr,
}
use clean_os.Base.Count.{count-append}
use clean_os.Thread.{
  Status, Sched, put_task, init_thread, schedule, change_status, set_status, set_thread_status,
  set_cur_thread_status, thread_yield, thread_sleep, thread_block, thread_ready, thread_start,
}
use clean_os.Thread.Inv.{asleep, IsValid}
use clean_os.Thread.Schedule.{
  Keeps, cur_stays, schedule-Keeps, schedule-IsValid, IsIdle, change_status-idle,
  change_status-ready_again, change_status-awake,
}
use clean_os.Thread.Sleep.{thread_sleep-Keeps}

-- One call. The current thread goes to sleep or is blocked only while another one is ready, a thread
-- that is woken does not sleep, and a thread is started on a page that holds none.
pub data Step (s t : Sched) : Type 0 where
  ticks : schedule s ≡ some t → Step s t
  yields : thread_yield s ≡ some t → Step s t
  sleeps : (ms_n : ℕ) → 0 < length s.ready_tasks → thread_sleep s ms_n ≡ some t → Step s t
  blocks :
      (st : Status)
      → IsIdle st
      → 0 < length s.ready_tasks
      → thread_block s s.cur st ≡ some t
      → Step s t
  wakes :
      (x : ℕ) (need_schedule now : Bool)
      → asleep (s.task x).status ≡ 0
      → thread_ready s x need_schedule now ≡ some t
      → Step s t
  starts : (x priority : ℕ) → IsIdle (s.task x).status → thread_start s x priority ≡ t → Step s t

pub data Reach (s : Sched) : Sched → Type 0 where
  here : Reach s s
  next : {t u : Sched} → Reach s t → Step t u → Reach s u

-- The outcome that a call has is the one that keeps the invariant.
kept : (t : Sched) (o : Option Sched) → Keeps o → o ≡ some t → IsValid t
kept t o k e = subst Keeps e k

pub yield-Keeps : (s : Sched) → IsValid s → Keeps (thread_yield s)
unfolding thread_yield set_cur_thread_status set_thread_status set_status
yield-Keeps s v = schedule-IsValid _ (change_status-ready_again s s.cur false v v.runs)

-- The status a thread gets.
change_status_own :
    (s : Sched) (x : ℕ) (st : Status) (first : Bool)
    → ((change_status s x st first).task x).status ≡ st
unfolding change_status put_task
change_status_own s x st first = ground arith

change_status_cur :
    (s : Sched) (x : ℕ) (st : Status) (first : Bool) → (change_status s x st first).cur ≡ s.cur
unfolding change_status
change_status_cur s x st first = refl

block-Keeps :
    (s : Sched) (st : Status)
    → IsValid s
    → IsIdle st
    → 0 < length s.ready_tasks
    → Keeps (thread_block s s.cur st)
unfolding thread_block set_thread_status set_status
block-Keeps s st v idle some_ready =
    let (q, same) = change_status-idle s st false v idle in
    let t = change_status s s.cur st false in
    let awake : asleep (t.task t.cur).status ≡ 0 =
      ap (λ c. asleep (t.task c).status) (change_status_cur s s.cur st false)
      ∙ ap asleep (change_status_own s s.cur st false)
      ∙ idle.1 in
    schedule-Keeps t q (cur_stays t q awake) (inr (omega (arith, ap length same)))

ready-Keeps :
    (s : Sched) (x : ℕ) (need_schedule now : Bool)
    → IsValid s
    → asleep (s.task x).status ≡ 0
    → Keeps (thread_ready s x need_schedule now)
unfolding thread_ready set_status
ready-Keeps s x true now v awake = schedule-IsValid _ (change_status-awake s x now v awake)
ready-Keeps s x false now v awake = change_status-awake s x now v awake

start-IsValid :
    (s : Sched) (x priority : ℕ)
    → IsValid s
    → IsIdle (s.task x).status
    → IsValid (thread_start s x priority)
unfolding thread_start put_task init_thread
start-IsValid s x priority v (stops, awake) = record {
  queues = record {
    queued = λ y.
        ground (arith, v.queues.queued y, stops, v.runs, count-append y s.ready_tasks (x ∷ []));
    sleepers = λ y. ground (arith, v.queues.sleepers y, awake);
    others = λ y h. ground (arith, v.queues.others y);
  };
  runs = ground (arith, v.runs);
}

Step-IsValid : {s t : Sched} → IsValid s → Step s t → IsValid t
Step-IsValid v (ticks e) = kept _ _ (schedule-IsValid _ v) e
Step-IsValid v (yields e) = kept _ _ (yield-Keeps _ v) e
Step-IsValid v (sleeps ms_n r e) = kept _ _ (thread_sleep-Keeps _ ms_n v r) e
Step-IsValid v (blocks st idle r e) = kept _ _ (block-Keeps _ st v idle r) e
Step-IsValid v (wakes x need_schedule now awake e) =
    kept _ _ (ready-Keeps _ x need_schedule now v awake) e
Step-IsValid v (starts x priority idle e) = subst IsValid e (start-IsValid _ x priority v idle)

-- From a state in which it holds, through any sequence of ticks of `schedule`, yields, sleeps and
-- blocks of the current thread, and threads that are woken or started, this holds: every thread that
-- can run is either the current one or stands in the ready list exactly once, every thread that
-- sleeps stands in the sleep list exactly once, no other thread stands in either, and the current
-- thread can run. The conditions on these calls are that the current thread sleeps or is blocked
-- only while another one is ready, that the status it is blocked with is neither that of a thread
-- that can run nor that of one that sleeps, that `thread_ready` is called for a thread that does not
-- sleep, that `thread_start` gets a page that holds no thread which can run or sleeps, and that
-- `schedule` never ends the sleep of more than ten threads at once.
pub Reach-IsValid : {s t : Sched} → IsValid s → Reach s t → IsValid t
Reach-IsValid v here = v
Reach-IsValid v (next r st) = Step-IsValid (Reach-IsValid v r) st
