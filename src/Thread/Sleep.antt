-- ===== src/Thread/Sleep.antt =====
-- thread_sleep: the current thread goes to the end of the sleep list, and may be woken at once.
use clean_os.Base.{
  ℕ, ◌+◌, ◌-◌, ◌*◌, ◌/◌, ◌^◌, ◌<◌, ◌≡◌, refl, sym, ap, ◌∙◌, subst, false, List, [], ◌∷◌, ◌++◌, ◌==◌,
  arith, length, Bool-cases, inl, inr, ◌⊎◌, ==_refl,
}
use clean_os.Base.Count.{count, count-append, unlink_absent}
use clean_os.Bitmap.{u32}
use clean_os.Thread.{
  sleep, Task, Sched, put_task, is_running, switch, tick_sleepers, wake_all, dispatch, schedule,
  change_status, set_status, set_thread_status, set_cur_thread_status, thread_sleep,
}
use clean_os.Thread.Inv.{
  IsQueued, IsValid, runnable-asleep, tick_sleepers_lem, Woken, wake_all-Woken, woken, ticked,
}
use clean_os.Thread.Schedule.{Keeps, schedule_split, schedule-Keeps, awake_of_runs}

tick_sleepers-append :
    (xs ys : List ℕ) (tasks : ℕ → Task)
    → (tick_sleepers (xs ++ ys) tasks).0
      ≡ (tick_sleepers xs tasks).0 ++ (tick_sleepers ys (tick_sleepers xs tasks).1).0
unfolding tick_sleepers
tick_sleepers-append [] ys tasks = refl
tick_sleepers-append (x ∷ xs) ys tasks =
    let left = u32 ((tasks x).sleep_ticks + 2 ^ 32 - 1) in
    ground (
      arith,
      tick_sleepers-append xs ys (put_task tasks x (record (tasks x) { sleep_ticks = left })),
    )

-- One sleeper alone is woken or not.
tick_one :
    (x : ℕ) (tasks : ℕ → Task)
    → ((tick_sleepers (x ∷ []) tasks).0 ≡ []) ⊎ ((tick_sleepers (x ∷ []) tasks).0 ≡ x ∷ [])
unfolding tick_sleepers
tick_one x tasks = elim (Bool-cases (u32 ((tasks x).sleep_ticks + 2 ^ 32 - 1) == 0)) [
  | inl over ↦ inr (rw over refl)
  | inr stays ↦ inl (rw stays refl)
]

-- The thread that is woken last is the first of the ready list.
wake_all_last :
    (w : List ℕ) (x : ℕ) (s : Sched)
    → (wake_all (w ++ (x ∷ [])) s).ready_tasks ≡ x ∷ (wake_all w s).ready_tasks
unfolding wake_all
wake_all_last [] x s = refl
wake_all_last (y ∷ w) x s = wake_all_last w x _

-- Where the current thread is the first of the ready list, it goes on.
again : Sched → List ℕ → Sched
again t r = record t {
  ready_tasks = r;
  task = put_task t.task t.cur (record (t.task t.cur) { ticks = (t.task t.cur).priority });
}

dispatch-again :
    (t : Sched) (r : List ℕ)
    → is_running (t.task t.cur).status ≡ false
    → t.ready_tasks ≡ t.cur ∷ r
    → dispatch t ≡ again t r
unfolding dispatch switch again
dispatch-again t r stops e = rw (dispatch, stops, e, switch, ==_refl t.cur) refl

again-IsValid :
    (s t : Sched) (r : List ℕ)
    → IsQueued s
    → (s.task s.cur).status ≡ sleep
    → 0 < count s.cur (woken s)
    → Woken (woken s) (ticked s) t
    → t.ready_tasks ≡ t.cur ∷ r
    → IsValid (again t r) × (is_running (t.task t.cur).status ≡ false)
unfolding again put_task
again-IsValid s t r q st hit w e =
    let same = λ (x : ℕ). tick_sleepers_lem s.sleep_tasks s.task x in
    (
      record {
        queues = record {
          queued = λ x. ground (
            arith,
            w.same_cur,
            w.readied x,
            w.changed x,
            same x,
            q.queued x,
            q.sleepers x,
            ap (count x) e,
            st,
            runnable-asleep (s.task x).status,
          );
          sleepers =
              λ x. ground (arith, w.same_cur, w.removed x, w.changed x, same x, q.sleepers x);
          others = λ x h. ground (arith, w.same_cur, w.changed x, same x, q.others x);
        };
        runs = ground (arith, w.same_cur, w.changed s.cur, same s.cur);
      },
      ground (arith, w.same_cur, w.changed s.cur, same s.cur),
    )

-- The current thread at the end of the sleep list.
change_status-sleep :
    (s : Sched)
    → IsValid s
    → let t = change_status s s.cur sleep false in
      IsQueued t
      × (t.ready_tasks ≡ s.ready_tasks)
      × (t.sleep_tasks ≡ s.sleep_tasks ++ (s.cur ∷ []))
      × ((t.task s.cur).status ≡ sleep)
unfolding change_status put_task
change_status-sleep s v =
    let out : count s.cur s.ready_tasks ≡ 0 = ground (arith, v.queues.queued s.cur) in
    let same = unlink_absent s.cur s.ready_tasks out in
    let out_sleep : count s.cur s.sleep_tasks ≡ 0 =
      omega (arith, v.queues.sleepers s.cur, awake_of_runs (s.task s.cur).status v.runs) in
    let same_sleep = unlink_absent s.cur s.sleep_tasks out_sleep in
    (
      record {
        queued = λ y. ground (arith, v.queues.queued y, same);
        sleepers = λ y. ground (
          arith,
          v.queues.sleepers y,
          same_sleep,
          out_sleep,
          count-append y s.sleep_tasks (s.cur ∷ []),
        );
        others = λ y h. ground (arith, v.queues.others y);
      },
      ground (arith, same),
      ground (arith, same_sleep),
      ground arith,
    )

-- The schedule of a state whose current thread is the last of the sleep list.
schedule-sleep :
    (s : Sched) (xs : List ℕ)
    → IsQueued s
    → (s.task s.cur).status ≡ sleep
    → s.sleep_tasks ≡ xs ++ (s.cur ∷ [])
    → count s.cur xs ≡ 0
    → 0 < length s.ready_tasks
    → Keeps (schedule s)
schedule-sleep s xs q st e out some_ready = split (tick_one s.cur (tick_sleepers xs s.task).1)
  where
    early : count s.cur (tick_sleepers xs s.task).0 ≡ 0
    early = omega (arith, tick_sleepers_lem xs s.task s.cur)

    parts :
        woken s
        ≡ (tick_sleepers xs s.task).0 ++ (tick_sleepers (s.cur ∷ []) (tick_sleepers xs s.task).1).0
    parts = ap (λ l. (tick_sleepers l s.task).0) e ∙ tick_sleepers-append xs (s.cur ∷ []) s.task

    split :
        ((tick_sleepers (s.cur ∷ []) (tick_sleepers xs s.task).1).0 ≡ [])
          ⊎ ((tick_sleepers (s.cur ∷ []) (tick_sleepers xs s.task).1).0 ≡ s.cur ∷ [])
        → Keeps (schedule s)
    split (inl stays) =
        let w = parts ∙ ap (λ l. (tick_sleepers xs s.task).0 ++ l) stays in
        let none_woken : count s.cur (woken s) ≡ 0 =
          omega
            (arith, ap (count s.cur) w, early, count-append s.cur (tick_sleepers xs s.task).0 []) in
        schedule-Keeps s q none_woken (inr some_ready)
    split (inr over) =
        let w = parts ∙ ap (λ l. (tick_sleepers xs s.task).0 ++ l) over in
        let hit : 0 < count s.cur (woken s) = ground (
          arith,
          ap (count s.cur) w,
          count-append s.cur (tick_sleepers xs s.task).0 (s.cur ∷ []),
        ) in
        let t = wake_all (woken s) (ticked s) in
        let all = wake_all-Woken (woken s) (ticked s) in
        let r = (wake_all (tick_sleepers xs s.task).0 (ticked s)).ready_tasks in
        let first : t.ready_tasks ≡ t.cur ∷ r =
          ap (λ l. (wake_all l (ticked s)).ready_tasks) w
          ∙ wake_all_last (tick_sleepers xs s.task).0 s.cur (ticked s)
          ∙ ap (λ c. c ∷ r) (sym all.same_cur) in
        let (valid, stops) = again-IsValid s t r q st hit all first in
        schedule_split s (subst IsValid (sym (dispatch-again t r stops first)) valid)

-- A new `sleep_ticks` does not matter.
timed :
    (s : Sched) (n : ℕ)
    → IsValid s
    → IsValid
        (record s { task = put_task s.task s.cur (record (s.task s.cur) { sleep_ticks = n }) })
unfolding put_task
timed s n v = record {
  queues = record {
    queued = λ y. ground (arith, v.queues.queued y);
    sleepers = λ y. ground (arith, v.queues.sleepers y);
    others = λ y h. ground (arith, v.queues.others y);
  };
  runs = ground (arith, v.runs);
}

-- `set_cur_thread_status(TASK_SLEEP, true)`
sleep-Keeps :
    (s : Sched)
    → IsValid s
    → 0 < length s.ready_tasks
    → Keeps (schedule (change_status s s.cur sleep false))
unfolding change_status
sleep-Keeps s v some_ready =
    let (q, ready_same, sleeps, st) = change_status-sleep s v in
    let out : count s.cur s.sleep_tasks ≡ 0 =
      omega (arith, v.queues.sleepers s.cur, awake_of_runs (s.task s.cur).status v.runs) in
    schedule-sleep (change_status s s.cur sleep false) s.sleep_tasks q st sleeps out
      (omega (arith, ap length ready_same))

-- `thread_sleep` keeps the invariant where another thread is ready.
pub thread_sleep-Keeps :
    (s : Sched) (ms_n : ℕ) → IsValid s → 0 < length s.ready_tasks → Keeps (thread_sleep s ms_n)
unfolding thread_sleep set_cur_thread_status set_thread_status set_status
thread_sleep-Keeps s ms_n v some_ready =
    sleep-Keeps _ (timed s (u32 (100 * ms_n) / 1000) v) some_ready
