-- ===== src/Thread/Dispatch.antt =====
-- Taking the next thread off the ready list keeps the invariant.
use clean_os.Base.{
  ℕ, ◌+◌, ◌<◌, ◌≡◌, refl, ap, true, false, List, [], ◌∷◌, ltb, ◌==◌, if◌then◌else◌, ◌&&◌, arith,
  length, Bool-cases, inl, inr, ◌⊎◌,
}
use clean_os.Base.Count.{count, count-append}
use clean_os.Thread.{Status, running, ready, Sched, put_task, is_running, switch, dispatch}
use clean_os.Thread.Inv.{runnable, asleep, IsQueued, IsValid, runnable-asleep}

-- The status of the current thread once another one runs.
abbrev demoted : Status → Status
demoted running = ready
demoted st = st

-- The lists and the statuses once another thread has been switched to.
record Switched (s : Sched) (x : ℕ) (t : Sched) : Type 0 where
  now : t.cur ≡ x
  requeued :
      (y : ℕ)
      → count y t.ready_tasks
        ≡ count y s.ready_tasks + (if y == s.cur then runnable (s.task s.cur).status else 0)
  same_sleep : t.sleep_tasks ≡ s.sleep_tasks
  statuses :
      (y : ℕ)
      → (t.task y).status ≡ (
          if y == x
          then running
          else if y == s.cur
          then demoted (s.task s.cur).status
          else (s.task y).status)

switch_status :
    (s : Sched) (x : ℕ) (other : (s.cur == x) ≡ false) (st : Status)
    → (s.task s.cur).status ≡ st
    → Switched s x (switch s x)
unfolding switch put_task
switch_status s x other running e = record {
  now = ground (arith, other);
  requeued = λ y. ground (arith, other, e, count-append y s.ready_tasks (s.cur ∷ []));
  same_sleep = ground (arith, other);
  statuses = λ y. ground (arith, other, e);
}
switch_status s x other st e = record {
  now = ground (arith, other);
  requeued = λ y. ground (arith, other, e, count-append y s.ready_tasks (s.cur ∷ []));
  same_sleep = ground (arith, other);
  statuses = λ y. ground (arith, other, e);
}

switch-Switched : (s : Sched) (x : ℕ) → (s.cur == x) ≡ false → Switched s x (switch s x)
switch-Switched s x other = switch_status s x other (s.task s.cur).status refl

demoted-runnable :
    (st : Status)
    → (runnable (demoted st) ≡ runnable st)
      × (asleep (demoted st) ≡ asleep st)
      × (is_running (demoted st) ≡ false)
demoted-runnable running = (refl, refl, refl)
demoted-runnable st = (refl, refl, refl)

status_of_runnable : (st : Status) → runnable st ≡ 1 → asleep st ≡ 0
status_of_runnable st h = omega (arith, runnable-asleep st)

-- The first thread of the ready list runs next.
module _ (s : Sched) (q : IsQueued s) (x : ℕ) (rest : List ℕ) (e : s.ready_tasks ≡ x ∷ rest) where
  abbrev popped : Sched
  popped = record s { ready_tasks = rest }

  -- A thread of the ready list can run, is there once and is not the current one.
  first_queued : (count x rest ≡ 0) × ((s.cur == x) ≡ false) × (runnable (s.task x).status ≡ 1)
  first_queued = ground (arith, q.queued x, ap (count x) e, runnable-asleep (s.task x).status)

  Switched-IsValid : (t : Sched) → Switched popped x t → IsValid t
  Switched-IsValid t w =
      let (once, other, can_run) = first_queued in
      let (same, same_sleep, idle) = demoted-runnable (s.task s.cur).status in
      let awake = status_of_runnable (s.task x).status can_run in
      record {
        queues = record {
          queued = λ y. ground (
            arith,
            w.now,
            w.requeued y,
            w.statuses y,
            q.queued y,
            ap (count y) e,
            once,
            other,
            same,
          );
          sleepers = λ y.
              ground
                (arith, ap (count y) w.same_sleep, w.statuses y, q.sleepers y, awake, same_sleep);
          others = λ y h. ground (arith, w.now, w.statuses y, q.others y, idle);
        };
        runs = ground (arith, w.now, w.statuses x);
      }

  pub switch-IsValid : IsValid (switch (record s { ready_tasks = rest }) x)
  switch-IsValid = Switched-IsValid (switch popped x) (switch-Switched popped x first_queued.1)

-- A thread can run: the current one, or one of the ready list.
abbrev pub HasRunnable : Sched → Type 0
HasRunnable s = (runnable (s.task s.cur).status ≡ 1) ⊎ (0 < length s.ready_tasks)

pub dispatch-IsValid : (s : Sched) → IsQueued s → HasRunnable s → IsValid (dispatch s)
unfolding dispatch put_task
dispatch-IsValid s q some_runs =
    elim (Bool-cases (is_running (s.task s.cur).status && ltb 0 (s.task s.cur).ticks)) [
      | inl goes_on ↦ rw goes_on (record {
        queues = record {
          queued = λ y. ground (arith, q.queued y);
          sleepers = λ y. ground (arith, q.sleepers y);
          others = λ y h. ground (arith, q.others y);
        };
        runs = ground (arith, running_runs (s.task s.cur).status);
      })
      | inr stops ↦ rw stops (next s.ready_tasks refl)
    ]
  where
    running_runs : (st : Status) → is_running st ≡ true → runnable st ≡ 1
    running_runs running h = refl
    running_runs st h = cc

    next :
        (l : List ℕ)
        → s.ready_tasks ≡ l
        → IsValid (elim l [ [] ↦ s | x ∷ rest ↦ switch (record s { ready_tasks = rest }) x ])
    next [] e = record { queues = q; runs = still some_runs }
      where
        still : HasRunnable s → runnable (s.task s.cur).status ≡ 1
        still (inl r) = r
        still (inr l) = absurd (omega (arith, ap length e))
    next (x ∷ rest) e = switch-IsValid s q x rest e
