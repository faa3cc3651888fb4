-- ===== src/BlockQueue/Tests.antt =====
-- The queue of pointers near the end of its array, and the theorems at it.
use clean_os.Base.{ℕ, ◌+◌, ◌≡◌, refl, true, Option, none, some, List, [], ◌∷◌, length, arith}
use clean_os.Base.Ring.{length-collect, put_at}
use clean_os.BlockQueue.{
  Queue, null, buf_size, queue_put, queue_get, wait_while, queue_empty, queue_full, next_pos,
  take_tail, put_head, queue_len,
}
use clean_os.BlockQueue.Fifo.{IsValid, contents}
use clean_os.BlockQueue.Run.{Op, put, get, run_ops, run_ops-fifo, queue_put_full}

-- Three pointers, over the end of the array; a reader waits.
abbrev wrapped : Queue
wrapped = record { producer = 0; consumer = 7; buf = λ i. i; head = 1; tail = 1022 }

-- 1023 pointers
abbrev full : Queue
full = record { producer = 0; consumer = 0; buf = λ i. i; head = 1023; tail = 0 }

abbrev ops : List Op
ops = get ∷ put 5 ∷ get ∷ get ∷ get ∷ get ∷ put 6 ∷ []

wrapped-IsValid : IsValid wrapped
wrapped-IsValid = record { head_inside = omega arith; tail_inside = omega arith }

full-IsValid : IsValid full
full-IsValid = record { head_inside = omega arith; tail_inside = omega arith }

wrapped-contents : contents wrapped ≡ 1022 ∷ 1023 ∷ 0 ∷ []
unfolding queue_len
wrapped-contents = refl

full-length : length (contents full) + 1 ≡ buf_size
unfolding queue_len
full-length = omega (arith, length-collect buf_size full.buf full.tail (queue_len full))

gets_of_run : (run_ops true wrapped ops).0 ≡ 1022 ∷ 1023 ∷ 0 ∷ 5 ∷ null ∷ []
unfolding run_ops queue_put queue_get wait_while queue_empty queue_full next_pos take_tail put_head
    put_at
gets_of_run = refl

run_ops-fifo_example :
    ((run_ops true wrapped ops).0 ≡ 1022 ∷ 1023 ∷ 0 ∷ 5 ∷ null ∷ [])
    × (contents (run_ops true wrapped ops).1 ≡ 6 ∷ [])
run_ops-fifo_example =
    run_ops-fifo true ops wrapped (1022 ∷ 1023 ∷ 0 ∷ []) wrapped-IsValid wrapped-contents
      (omega arith)

queue_put_full_example :
    (woken : Option ℕ) × (q' : Queue) × (queue_put none true 0 full 9 ≡ some (woken, q'))
    × (contents q' ≡ [])
queue_put_full_example = queue_put_full true 0 full 9 full-IsValid full-length
