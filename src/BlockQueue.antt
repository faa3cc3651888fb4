-- ===== src/BlockQueue.antt =====
-- common/lib/block_queue.c: the queue of pointers between the keyboard interrupt and its readers.
-- A pointer is its address, and `null` is 0.
pub mod Fifo
pub mod Run
mod Tests
use clean_os.Base.{
  ℕ, zero, suc, ◌+◌, ◌-◌, ◌%◌, Bool, true, false, not, Option, none, some, List, [], ◌∷◌, leb, ◌==◌,
  ◌&&◌, if◌then◌else◌,
}
use clean_os.Base.Ring.{put_at}

-- `queue_buf_size`
abbrev pub buf_size : ℕ
buf_size = 1024

abbrev pub null : ℕ
null = 0

-- `producer` and `consumer` are the ids of the threads that wait, 0 for none.
pub record Queue : Type 0 where
  pub producer : ℕ
  pub consumer : ℕ
  pub buf : ℕ → ℕ
  pub head : ℕ
  pub tail : ℕ

-- Which of the two fields `wait` is called with.
pub data Side : Type 0 where
  producers consumers : Side

-- The functions are parameters of the operations, so what is left is the two indices and ids.
unfoldable pub init_queue : Queue → Queue
init_queue q = record q { producer = 0; consumer = 0; head = 0; tail = 0 }

unfoldable pub next_pos : ℕ → ℕ
next_pos pos = (pos + 1) % buf_size

unfoldable pub queue_full : Queue → Bool
queue_full q = next_pos q.head == q.tail

unfoldable pub queue_empty : Queue → Bool
queue_empty q = q.head == q.tail

unfoldable pub queue_len : Queue → ℕ
queue_len q = if leb q.tail q.head then q.head - q.tail else buf_size - (q.tail - q.head)

-- The loops `while (test(queue) && queue->wait != NULL) queue->wait(side)`. `wait` is the function
-- pointer: what it does to the queue, with all that other threads do until it returns. `none` is a
-- thread that is still waiting after this many calls.
unfoldable pub wait_while :
    (Queue → Bool) → Option (Side → Queue → Queue) → Side → ℕ → Queue → Option Queue
wait_while test none side n q = some q
wait_while test (some wait) side zero q = if test q then none else some q
wait_while test (some wait) side (suc n) q =
    let rest = wait_while test (some wait) side n (wait side q) in if test q then rest else some q

-- `queue_get` behind its loop: the pointer, the thread that is woken if there is one, and the queue.
unfoldable pub take_tail : Bool → Queue → ℕ × Option ℕ × Queue
take_tail has_wakeup q =
    let q' = record q { tail = next_pos q.tail } in
    if queue_empty q
    then (null, none, q)
    else if not (q.producer == 0) && has_wakeup
    then (q.buf q.tail, some q.producer, record q' { producer = 0 })
    else (q.buf q.tail, none, q')

unfoldable pub queue_get :
    Option (Side → Queue → Queue) → Bool → ℕ → Queue → Option (ℕ × Option ℕ × Queue)
queue_get wait has_wakeup n q = elim (wait_while queue_empty wait consumers n q) [
  | none ↦ none
  | some q' ↦ some (take_tail has_wakeup q')
]

-- `queue_put` behind its loop
unfoldable pub put_head : Bool → Queue → ℕ → Option ℕ × Queue
put_head has_wakeup q value =
    let q' = record q { buf = put_at q.buf q.head value; head = next_pos q.head } in
    if not (q.consumer == 0) && has_wakeup
    then (some q.consumer, record q' { consumer = 0 })
    else (none, q')

unfoldable pub queue_put :
    Option (Side → Queue → Queue) → Bool → ℕ → Queue → ℕ → Option (Option ℕ × Queue)
queue_put wait has_wakeup n q value = elim (wait_while queue_full wait producers n q) [
  | none ↦ none
  | some q' ↦ some (put_head has_wakeup q' value)
]
