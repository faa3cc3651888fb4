-- ===== src/Thread/Schedule.antt =====
-- What the calls that reach the scheduler keep.
use clean_os.Base.{
  Bool-cases, ◌==◌, ==_iff, ℕ, ◌+◌, ◌≡◌, refl, ap, ◌∙◌, Bool, true, false, Option, none, some, [],
  ◌∷◌, ltb, if◌then◌else◌, ◌&&◌, not, arith, length, inl, inr,
}
use clean_os.Base.Count.{count, count-append, unlink_absent}
use clean_os.Thread.{
  Status, unknown, running, ready, sleep, Sched, put_task, is_ready, is_running, is_sleep, wake_all,
  dispatch, schedule, change_status,
}
use clean_os.Thread.Inv.{
  runnable, asleep, IsQueued, IsValid, runnable-asleep, tick_sleepers_lem, wake_all-Woken, woken,
  ticked, wake_all-IsQueued,
}
use clean_os.Thread.Dispatch.{HasRunnable, dispatch-IsValid}

-- The outcome of a call: where it returns, the invariant holds.
abbrev pub Keeps : Option Sched → Type 0
Keeps none = Unit
Keeps (some s) = IsValid s

pub schedule_split :
    (s : Sched) → IsValid (dispatch (wake_all (woken s) (ticked s))) → Keeps (schedule s)
unfolding schedule
schedule_split s v = split (ltb 10 (length (woken s)))
  where
    split : (b : Bool) → Keeps (if b then none else some (dispatch (wake_all (woken s) (ticked s))))
    split true = tt
    split false = v

-- A current thread that does not sleep is not woken.
pub cur_stays :
    (s : Sched) → IsQueued s → asleep (s.task s.cur).status ≡ 0 → count s.cur (woken s) ≡ 0
cur_stays s q h = omega (arith, tick_sleepers_lem s.sleep_tasks s.task s.cur, q.sleepers s.cur)

-- `schedule` keeps the invariant where every thread is in its place, some thread can run, and the
-- current thread is not woken.
pub schedule-Keeps :
    (s : Sched) → IsQueued s → count s.cur (woken s) ≡ 0 → HasRunnable s → Keeps (schedule s)
schedule-Keeps s q stays some_runs =
    let (q', same) = wake_all-IsQueued s q stays in
    let w = wake_all-Woken (woken s) (ticked s) in
    schedule_split s
      (dispatch-IsValid (wake_all (woken s) (ticked s)) q' (still w.longer same some_runs))
  where
    t : Sched
    t = wake_all (woken s) (ticked s)

    still :
        length t.ready_tasks ≡ length (woken s) + length s.ready_tasks
        → (t.task t.cur).status ≡ (s.task s.cur).status
        → HasRunnable s
        → HasRunnable t
    still l same (inl r) = inl (ap runnable same ∙ r)
    still l same (inr r) = inr (omega arith)

pub awake_of_runs : (st : Status) → runnable st ≡ 1 → asleep st ≡ 0
awake_of_runs st h = omega (arith, runnable-asleep st)

-- `schedule` keeps the invariant.
pub schedule-IsValid : (s : Sched) → IsValid s → Keeps (schedule s)
schedule-IsValid s v =
    schedule-Keeps s v.queues (cur_stays s v.queues (awake_of_runs (s.task s.cur).status v.runs))
      (inl v.runs)

-- A status in which a thread neither runs nor sleeps.
abbrev pub IsIdle : Status → Type 0
IsIdle st = (runnable st ≡ 0) × (asleep st ≡ 0)

pub not_ready : (st : Status) → runnable st ≡ 0 → (is_ready st ≡ false) × (is_running st ≡ false)
not_ready unknown h = (refl, refl)
not_ready running h = absurd (omega arith)
not_ready ready h = absurd (omega arith)
not_ready st h = (refl, refl)

not_sleep : (st : Status) → asleep st ≡ 0 → is_sleep st ≡ false
not_sleep sleep h = absurd (omega arith)
not_sleep st h = refl

-- The current thread stops to run.
pub change_status-idle :
    (s : Sched) (st : Status) (first : Bool)
    → IsValid s
    → IsIdle st
    → IsQueued (change_status s s.cur st first)
      × ((change_status s s.cur st first).ready_tasks ≡ s.ready_tasks)
unfolding change_status put_task
change_status-idle s st first v (stops, awake) =
    let (unready, unrun) = not_ready st stops in
    let unslept = not_sleep st awake in
    let out : count s.cur s.ready_tasks ≡ 0 = ground (arith, v.queues.queued s.cur) in
    let same = unlink_absent s.cur s.ready_tasks out in
    let out_sleep : count s.cur s.sleep_tasks ≡ 0 =
      omega (arith, v.queues.sleepers s.cur, awake_of_runs (s.task s.cur).status v.runs) in
    let same_sleep = unlink_absent s.cur s.sleep_tasks out_sleep in
    (
      record {
        queued = λ y. ground (arith, v.queues.queued y, unready, same);
        sleepers = λ y.
            ground (arith, v.queues.sleepers y, unready, unslept, awake, same_sleep, out_sleep);
        others = λ y h. ground (arith, v.queues.others y);
      },
      ground (arith, unready, same),
    )

-- A thread that is idle is made ready.
pub change_status-ready :
    (s : Sched) (x : ℕ) (first : Bool)
    → IsValid s
    → IsIdle (s.task x).status
    → IsValid (change_status s x ready first)
unfolding change_status put_task
change_status-ready s x first v (stops, awake) =
    let (unready, unrun) = not_ready (s.task x).status stops in
    record {
      queues = record {
        queued = λ y. ground (
          arith,
          v.queues.queued y,
          unready,
          unrun,
          stops,
          v.runs,
          count-append y s.ready_tasks (x ∷ []),
        );
        sleepers = λ y. ground (arith, v.queues.sleepers y, awake);
        others = λ y h. ground (arith, v.queues.others y);
      };
      runs = ground (arith, v.runs);
    }

-- A thread that is ready or running is made ready: it stays where it is.
pub change_status-ready_again :
    (s : Sched) (x : ℕ) (first : Bool)
    → IsValid s
    → runnable (s.task x).status ≡ 1
    → IsValid (change_status s x ready first)
unfolding change_status put_task
change_status-ready_again s x first v can =
    let quiet = quiet_of_runs (s.task x).status can in
    record {
      queues = record {
        queued = λ y. ground (arith, v.queues.queued y, quiet, can);
        sleepers = λ y. ground (arith, v.queues.sleepers y, awake_of_runs (s.task x).status can);
        others = λ y h. ground (arith, v.queues.others y);
      };
      runs = ground (arith, v.runs);
    }
  where
    quiet_of_runs :
        (st : Status) → runnable st ≡ 1 → (not (is_ready st) && not (is_running st)) ≡ false
    quiet_of_runs running h = refl
    quiet_of_runs ready h = refl
    quiet_of_runs st h = absurd (omega arith)

-- Any thread that does not sleep is made ready.
pub change_status-awake :
    (s : Sched) (x : ℕ) (first : Bool)
    → IsValid s
    → asleep (s.task x).status ≡ 0
    → IsValid (change_status s x ready first)
change_status-awake s x first v awake = elim (Bool-cases (runnable (s.task x).status == 0)) [
  | inl stops ↦ change_status-ready s x first v ((==_iff _ _).0 stops, awake)
  | inr can ↦
      change_status-ready_again s x first v (ground (arith, can, runnable-asleep (s.task x).status))
]
