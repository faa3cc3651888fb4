-- ===== src/Thread/Rotate.antt =====
-- thread_yield: the ready threads run in turn.
use clean_os.Base.{
  ℕ, zero, suc, ◌≤◌, ◌<◌, ◌≡◌, refl, sym, ap, ap₂, subst, ◌∙◌, true, false, Option, none, some,
  List, [], ◌∷◌, ◌++◌, append_assoc, append-nil, ◌==◌, arith, length, drop, take, inl, inr, ◌⊎◌,
  length-append, length-take, take-append-drop,
}
use clean_os.Base.Count.{count}
use clean_os.Thread.{
  Status, ready, running, Sched, put_task, is_ready, is_running, tick_sleepers, wake_all, switch,
  dispatch, schedule, change_status, set_status, set_thread_status, set_cur_thread_status,
  thread_yield,
}
use clean_os.Thread.Inv.{runnable, IsValid}
use clean_os.Thread.Schedule.{Keeps}
use clean_os.Thread.Reach.{yield-Keeps}

-- So many threads give up the processor one after another.
abbrev pub yields : ℕ → Sched → Option Sched
yields zero s = some s
yields (suc n) s = elim (thread_yield s) [ none ↦ none | some t ↦ yields n t ]

-- What one yield does to the order, if no thread sleeps.
record Rotated (s t : Sched) (x : ℕ) (rest : List ℕ) : Type 0 where
  valid : IsValid t
  now : t.cur ≡ x
  order : t.ready_tasks ≡ rest ++ (s.cur ∷ [])
  nobody : t.sleep_tasks ≡ []

switch_order :
    (s : Sched) (x : ℕ) (rest : List ℕ)
    → (s.cur == x) ≡ false
    → (s.task s.cur).status ≡ ready
    → s.sleep_tasks ≡ []
    → let t = switch (record s { ready_tasks = rest }) x in
      (t.cur ≡ x) × (t.ready_tasks ≡ rest ++ (s.cur ∷ [])) × (t.sleep_tasks ≡ [])
unfolding switch put_task
switch_order s x rest other st nobody =
    (ground (arith, other), ground (arith, other, st), ground (arith, other, nobody))

schedule_quiet : (s : Sched) → s.sleep_tasks ≡ [] → schedule s ≡ some (dispatch s)
unfolding schedule tick_sleepers wake_all
schedule_quiet s nobody =
    subst
      (λ l.
        schedule (record s { sleep_tasks = l }) ≡ some (dispatch (record s { sleep_tasks = l })))
      (sym nobody) refl

dispatch_ready :
    (s : Sched) (x : ℕ) (rest : List ℕ)
    → (s.task s.cur).status ≡ ready
    → s.ready_tasks ≡ x ∷ rest
    → dispatch s ≡ switch (record s { ready_tasks = rest }) x
unfolding dispatch
dispatch_ready s x rest st e = rw (st, e) refl

yielding : Sched → Sched
yielding s = change_status s s.cur ready false

yielding_state :
    (s : Sched)
    → IsValid s
    → ((yielding s).cur ≡ s.cur)
      × ((yielding s).ready_tasks ≡ s.ready_tasks)
      × ((yielding s).sleep_tasks ≡ s.sleep_tasks)
      × (((yielding s).task (yielding s).cur).status ≡ ready)
unfolding yielding change_status put_task
yielding_state s v = (refl, ground (arith, awake (s.task s.cur).status v.runs), refl, ground arith)
  where
    awake : (st : Status) → runnable st ≡ 1 → (is_ready st ≡ true) ⊎ (is_running st ≡ true)
    awake running h = inr refl
    awake ready h = inl refl
    awake st h = absurd (omega arith)

yield_rotates :
    (s : Sched) (x : ℕ) (rest : List ℕ)
    → IsValid s
    → s.sleep_tasks ≡ []
    → s.ready_tasks ≡ x ∷ rest
    → (thread_yield s ≡ some (switch (record (yielding s) { ready_tasks = rest }) x))
      × Rotated s (switch (record (yielding s) { ready_tasks = rest }) x) x rest
unfolding thread_yield set_cur_thread_status set_thread_status set_status yielding
yield_rotates s x rest v nobody e =
    let (same_cur, same_ready, same_sleep, st) = yielding_state s v in
    let out : (s.cur == x) ≡ false = ground (arith, v.queues.queued x, ap (count x) e) in
    let runs : thread_yield s ≡ some (switch (record (yielding s) { ready_tasks = rest }) x) =
      schedule_quiet (yielding s) (same_sleep ∙ nobody)
      ∙ ap some (dispatch_ready (yielding s) x rest st (same_ready ∙ e)) in
    let (now, order, nobody') =
      switch_order (yielding s) x rest (ap (λ c. c == x) same_cur ∙ out) st (same_sleep ∙ nobody) in
    (
      runs,
      record {
        valid = subst Keeps runs (yield-Keeps s v);
        now = now;
        order = order ∙ ap (λ c. rest ++ (c ∷ [])) same_cur;
        nobody = nobody';
      },
    )

-- A yield as a rotation of the current thread and the ready ones.
yield_next :
    (s : Sched) (l : List ℕ)
    → IsValid s
    → s.sleep_tasks ≡ []
    → s.ready_tasks ≡ l
    → 0 < length l
    → (t : Sched) × (thread_yield s ≡ some t)
      × IsValid t
      × (t.cur ∷ t.ready_tasks ≡ l ++ (s.cur ∷ []))
      × (t.sleep_tasks ≡ [])
yield_next s [] v nobody e h = absurd (omega arith)
yield_next s (x ∷ rest) v nobody e h =
    let (runs, r) = yield_rotates s x rest v nobody e in
    (_, runs, r.valid, ap₂ (λ c l. c ∷ l) r.now r.order, r.nobody)

yields-suc : (n : ℕ) (s t : Sched) → thread_yield s ≡ some t → yields (suc n) s ≡ yields n t
yields-suc n s t e = ap (λ (o : Option Sched). elim o [ none ↦ none | some u ↦ yields n u ]) e

-- So many yields: the threads that have run stand behind the others.
yields_split :
    (ys zs : List ℕ) (x : ℕ) (s : Sched)
    → IsValid s
    → s.sleep_tasks ≡ []
    → s.cur ∷ s.ready_tasks ≡ ys ++ (x ∷ zs)
    → (t : Sched) × (yields (length ys) s ≡ some t) × (t.cur ∷ t.ready_tasks ≡ (x ∷ zs) ++ ys)
yields_split [] zs x s v nobody e = (s, refl, e ∙ sym (append-nil (x ∷ zs)))
yields_split (y ∷ ys) zs x s v nobody e =
    let some_ready : 0 < length (ys ++ (x ∷ zs)) = omega (arith, length-append ys (x ∷ zs)) in
    let (t, runs, valid, order, nobody') =
      yield_next s (ys ++ (x ∷ zs)) v nobody (ap (drop 1) e) some_ready in
    let last : ys ++ (x ∷ zs) ++ (s.cur ∷ []) ≡ ys ++ (x ∷ zs ++ (y ∷ [])) =
      append_assoc ys (x ∷ zs) (s.cur ∷ []) ∙ ap (λ l. ys ++ (x ∷ zs ++ l)) (ap (take 1) e) in
    let (u, more, turned) = yields_split ys (zs ++ (y ∷ [])) x t valid nobody' (order ∙ last) in
    (u, yields-suc (length ys) s t runs ∙ more, turned ∙ append_assoc (x ∷ zs) (y ∷ []) ys)

drop_get : (n : ℕ) (xs : List ℕ) → n < length xs → (x : ℕ) × (drop n xs ≡ x ∷ drop (suc n) xs)
drop_get n [] h = absurd (omega arith)
drop_get zero (x ∷ xs) h = (x, refl)
drop_get (suc n) (x ∷ xs) h = drop_get n xs (omega arith)

-- Where no thread sleeps, threads that give up the processor run in turn: after `n` yields, at most
-- as many as there are ready threads, none of which fails, the current thread and the ready ones
-- are those of the start with the first `n` moved behind the others, in order.
pub yields-rotate :
    (s : Sched) (n : ℕ)
    → IsValid s
    → s.sleep_tasks ≡ []
    → n ≤ length s.ready_tasks
    → (t : Sched) × (yields n s ≡ some t)
      × (t.cur ∷ t.ready_tasks ≡ drop n (s.cur ∷ s.ready_tasks) ++ take n (s.cur ∷ s.ready_tasks))
yields-rotate s n v nobody h =
    let all : List ℕ = s.cur ∷ s.ready_tasks in
    let (x, e) = drop_get n all (omega arith) in
    let parts : all ≡ take n all ++ (x ∷ drop (suc n) all) =
      sym (take-append-drop n all) ∙ ap (λ l. take n all ++ l) e in
    let (t, runs, turned) = yields_split (take n all) (drop (suc n) all) x s v nobody parts in
    (
      t,
      ap (λ k. yields k s) (omega (arith, length-take n all)) ∙ runs,
      turned ∙ ap (λ l. l ++ take n all) (sym e),
    )
