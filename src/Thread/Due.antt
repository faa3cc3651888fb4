-- ===== src/Thread/Due.antt =====
-- The sleepers: how many one call of schedule wakes, and how long a thread sleeps.
use clean_os.Base.{
  ℕ, ◌+◌, ◌-◌, ◌*◌, ◌/◌, ◌^◌, ◌≤◌, ◌<◌, ◌≡◌, ◌↔◌, refl, sym, ap, ◌∙◌, Bool, true, false, none, some,
  List, [], ◌∷◌, ◌++◌, ltb, ◌==◌, if◌then◌else◌, arith, length, ◌&&◌, Bool-cases, inl, inr,
}
use clean_os.Base.Count.{count, count-append, unlink_absent}
use clean_os.Bitmap.{u32}
use clean_os.Thread.{
  sleep, Task, Sched, put_task, is_running, tick_sleepers, wake_all, switch, dispatch, schedule,
  change_status, set_status, set_thread_status, set_cur_thread_status, thread_sleep,
}
use clean_os.Thread.Inv.{IsValid, runnable-asleep, woken, ticked, wake_all-Woken}
use clean_os.Thread.Schedule.{awake_of_runs}

-- The threads of a list whose last tick of sleep comes next.
abbrev pub due : List ℕ → (ℕ → Task) → ℕ
due [] tasks = 0
due (x ∷ xs) tasks = (if u32 (tasks x).sleep_ticks == 1 then 1 else 0) + due xs tasks

due_put :
    (xs : List ℕ) (tasks : ℕ → Task) (y : ℕ) (t : Task)
    → count y xs ≡ 0
    → due xs (put_task tasks y t) ≡ due xs tasks
unfolding put_task
due_put [] tasks y t out = refl
due_put (x ∷ xs) tasks y t out = ground (arith, due_put xs tasks y t)

tick_sleepers-due :
    (xs : List ℕ) (tasks : ℕ → Task)
    → ((x : ℕ) → count x xs ≤ 1)
    → length (tick_sleepers xs tasks).0 ≡ due xs tasks
unfolding tick_sleepers
tick_sleepers-due [] tasks once = refl
tick_sleepers-due (x ∷ xs) tasks once =
    let left = u32 ((tasks x).sleep_ticks + 2 ^ 32 - 1) in
    let t = record (tasks x) { sleep_ticks = left } in
    let ih = tick_sleepers-due xs (put_task tasks x t) (λ y. ground (arith, once y)) in
    let same = due_put xs tasks x t (ground (arith, once x)) in ground (arith, ih, same)

-- `schedule` writes past the end of its array of threads to wake exactly where the sleep of more
-- than ten threads ends at the same tick.
pub schedule-due : (s : Sched) → IsValid s → (schedule s ≡ none) ↔ (10 < due s.sleep_tasks s.task)
unfolding schedule
schedule-due s v =
    let once : (x : ℕ) → count x s.sleep_tasks ≤ 1 =
      λ x. omega (arith, v.queues.sleepers x, runnable-asleep (s.task x).status) in
    let same = tick_sleepers-due s.sleep_tasks s.task once in ground (arith, same)

-- A thread that does not sleep keeps its ticks.
tick_absent :
    (xs : List ℕ) (tasks : ℕ → Task) (x : ℕ)
    → count x xs ≡ 0
    → ((tick_sleepers xs tasks).1 x).sleep_ticks ≡ (tasks x).sleep_ticks
unfolding tick_sleepers put_task
tick_absent [] tasks x h = refl
tick_absent (y ∷ xs) tasks x h =
    let left = u32 ((tasks y).sleep_ticks + 2 ^ 32 - 1) in
    ground (arith, tick_absent xs (put_task tasks y (record (tasks y) { sleep_ticks = left })) x)

-- The last sleeper has one tick less.
tick_last :
    (xs : List ℕ) (tasks : ℕ → Task) (x : ℕ)
    → count x xs ≡ 0
    → let left = u32 ((tasks x).sleep_ticks + 2 ^ 32 - 1) in
      let (w, tasks') = tick_sleepers (xs ++ (x ∷ [])) tasks in
      ((tasks' x).sleep_ticks ≡ left) × (count x w ≡ (if left == 0 then 1 else 0))
unfolding tick_sleepers put_task
tick_last [] tasks x h = (ground arith, ground arith)
tick_last (y ∷ xs) tasks x h =
    let left = u32 ((tasks y).sleep_ticks + 2 ^ 32 - 1) in
    let ih =
      tick_last xs (put_task tasks y (record (tasks y) { sleep_ticks = left })) x (ground arith) in
    (ground (arith, ih), ground (arith, ih))

wake_all_ticks :
    (w : List ℕ) (s : Sched) (x : ℕ) → ((wake_all w s).task x).sleep_ticks ≡ (s.task x).sleep_ticks
unfolding wake_all put_task
wake_all_ticks [] s x = refl
wake_all_ticks (y ∷ w) s x = wake_all_ticks w _ x ∙ ground arith

switch_ticks :
    (s : Sched) (x y : ℕ)
    → (((switch s x).task y).sleep_ticks ≡ (s.task y).sleep_ticks)
      × ((switch s x).sleep_tasks ≡ s.sleep_tasks)
unfolding switch put_task
switch_ticks s x y = (ground arith, ground arith)

dispatch_ticks :
    (s : Sched) (y : ℕ)
    → (((dispatch s).task y).sleep_ticks ≡ (s.task y).sleep_ticks)
      × ((dispatch s).sleep_tasks ≡ s.sleep_tasks)
unfolding dispatch put_task
dispatch_ticks s y =
    elim (Bool-cases (is_running (s.task s.cur).status && ltb 0 (s.task s.cur).ticks)) [
      | inl goes_on ↦ rw goes_on (ground arith, refl)
      | inr stops ↦ rw stops (next s.ready_tasks)
    ]
  where
    next :
        (l : List ℕ)
        → let t : Sched = elim l [
          | [] ↦ s
          | x ∷ rest ↦ switch (record s { ready_tasks = rest }) x
        ] in
          ((t.task y).sleep_ticks ≡ (s.task y).sleep_ticks) × (t.sleep_tasks ≡ s.sleep_tasks)
    next [] = (refl, refl)
    next (x ∷ rest) = switch_ticks (record s { ready_tasks = rest }) x y

-- The state that `thread_sleep` gives to `schedule`.
resting : Sched → ℕ → Sched
resting s n =
    change_status
      (record s { task = put_task s.task s.cur (record (s.task s.cur) { sleep_ticks = n }) }) s.cur
      sleep false

resting_state :
    (s : Sched) (n : ℕ)
    → IsValid s
    → ((resting s n).sleep_tasks ≡ s.sleep_tasks ++ (s.cur ∷ []))
      × (((resting s n).task s.cur).sleep_ticks ≡ n)
unfolding resting change_status put_task
resting_state s n v =
    let out : count s.cur s.sleep_tasks ≡ 0 =
      omega (arith, v.queues.sleepers s.cur, awake_of_runs (s.task s.cur).status v.runs) in
    let same_sleep = unlink_absent s.cur s.sleep_tasks out in
    (ground (arith, same_sleep), ground arith)

schedule_result : (s t : Sched) → schedule s ≡ some t → dispatch (wake_all (woken s) (ticked s)) ≡ t
unfolding schedule
schedule_result s t runs = split (ltb 10 (length (woken s))) runs
  where
    split :
        (b : Bool)
        → (if b then none else some (dispatch (wake_all (woken s) (ticked s)))) ≡ some t
        → dispatch (wake_all (woken s) (ticked s)) ≡ t
    split true e = absurd (cc e)
    split false e = cc

schedule_last :
    (s t : Sched) (x : ℕ) (xs : List ℕ)
    → s.sleep_tasks ≡ xs ++ (x ∷ [])
    → count x xs ≡ 0
    → (u32 ((s.task x).sleep_ticks + 2 ^ 32 - 1) == 0) ≡ false
    → schedule s ≡ some t
    → (count x t.sleep_tasks ≡ 1)
      × ((t.task x).sleep_ticks ≡ u32 ((s.task x).sleep_ticks + 2 ^ 32 - 1))
schedule_last s t x xs e out late runs =
    let (left, stays) = tick_last xs s.task x out in
    let (same_ticks, same_sleep) = dispatch_ticks (wake_all (woken s) (ticked s)) x in
    let w = wake_all-Woken (woken s) (ticked s) in
    let same = schedule_result s t runs in
    let asleep_once : count x s.sleep_tasks ≡ 1 =
      ground (arith, ap (count x) e, count-append x xs (x ∷ [])) in
    let unwoken : count x (woken s) ≡ 0 =
      ap (λ l. count x (tick_sleepers l s.task).0) e ∙ stays ∙ ap (λ b. if b then 1 else 0) late in
    let left_here : ((ticked s).task x).sleep_ticks ≡ u32 ((s.task x).sleep_ticks + 2 ^ 32 - 1) =
      ap (λ l. ((tick_sleepers l s.task).1 x).sleep_ticks) e ∙ left in
    (
      omega (
        arith,
        ap (λ u. count x u.sleep_tasks) same,
        ap (count x) same_sleep,
        w.removed x,
        unwoken,
        asleep_once,
      ),
      ap (λ u. (u.task x).sleep_ticks) (sym same)
          ∙ same_ticks
          ∙ wake_all_ticks (woken s) (ticked s) x
          ∙ left_here,
    )

-- A thread that sleeps for less than ten milliseconds, which is no whole tick, stands in the sleep
-- list afterwards with 2 ^ 32 - 1 ticks to go, where the call returns.
pub thread_sleep-short :
    (s t : Sched) (ms_n : ℕ)
    → IsValid s
    → ms_n < 10
    → thread_sleep s ms_n ≡ some t
    → (count s.cur t.sleep_tasks ≡ 1) × ((t.task s.cur).sleep_ticks ≡ 2 ^ 32 - 1)
unfolding thread_sleep set_cur_thread_status set_thread_status set_status resting
thread_sleep-short s t ms_n v short runs =
    let n = u32 (100 * ms_n) / 1000 in
    let zero_ticks : n ≡ 0 = omega arith in
    let (sleeps, ticks) = resting_state s n v in
    let out : count s.cur s.sleep_tasks ≡ 0 =
      omega (arith, v.queues.sleepers s.cur, awake_of_runs (s.task s.cur).status v.runs) in
    let (stands, left) =
      schedule_last (resting s n) t s.cur s.sleep_tasks sleeps out
        (ground (arith, ticks, zero_ticks)) runs in
    (stands, omega (arith, left, ticks, zero_ticks))
