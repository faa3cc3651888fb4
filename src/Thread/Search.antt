-- ===== src/Thread/Search.antt =====
-- kernel/thread/thread.c: the searches among all threads; kernel/thread/process.c: who asks for a pid.
-- A thread that is not found, the null pointer of the source, is `none`.
use clean_os.Base.{
  ℕ, Bool, true, false, not, Option, none, some, List, [], ◌∷◌, ◌==◌, if◌then◌else◌, ◌&&◌, ◌||◌,
}
use clean_os.Thread.{Status, unknown, running, ready, blocked, sleep, waiting, hanging, died, Sched}

-- The number that stands for a status.
abbrev pub code : Status → ℕ
code unknown = 0
code running = 1
code ready = 2
code blocked = 3
code sleep = 4
code waiting = 5
code hanging = 6
code died = 7

-- `foreach` with a visitor that stops at the thread it stores.
unfoldable pub foreach_task : (ℕ → Bool) → List ℕ → Option ℕ
foreach_task visitor [] = none
foreach_task visitor (x ∷ xs) = if visitor x then foreach_task visitor xs else some x

abbrev pub is_hanging : Status → Bool
is_hanging st = code st == 6

abbrev pub is_died : Status → Bool
is_died st = code st == 7

unfoldable pub pid_find_in_all_tasks : Sched → ℕ → ℕ → Bool
pid_find_in_all_tasks s task x =
    let t = s.task x in
    if not (task == x)
      && not (is_hanging t.status)
      && not (is_died t.status)
      && ((s.task task).page_dir == t.page_dir)
    then false
    else true

unfoldable pub has_other_thread : Sched → ℕ → Bool
has_other_thread s task = elim (foreach_task (pid_find_in_all_tasks s task) s.all_tasks) [
  | none ↦ false
  | some x ↦ true
]

unfoldable pub pid2task_visitor : Sched → ℕ → ℕ → Bool
pid2task_visitor s pid x = if (s.task x).pid == pid then false else true

unfoldable pub pid2task : Sched → ℕ → Option ℕ
pid2task s pid = foreach_task (pid2task_visitor s pid) s.all_tasks

unfoldable pub thread_child_visitor : Sched → ℕ → Status → ℕ → Bool
thread_child_visitor s parent_pid status x =
    let t = s.task x in
    if (t.parent_pid == parent_pid) && ((code status == 0) || (code t.status == code status))
    then false
    else true

unfoldable pub thread_child : Sched → ℕ → Status → Option ℕ
thread_child s parent status =
    foreach_task (thread_child_visitor s (s.task parent).pid status) s.all_tasks

-- `process_get_pid` and `process_get_ppid`
unfoldable pub process_get_pid : Sched → ℕ
process_get_pid s = (s.task s.cur).pid

unfoldable pub process_get_ppid : Sched → ℕ
process_get_ppid s = (s.task s.cur).parent_pid
