-- ===== src/BlockQueue/Run.antt =====
-- Runs of puts and gets without a wait function, against a first-in-first-out list; and what a put
-- on a full queue does.
use clean_os.Base.{
  ℕ, ◌+◌, ◌<◌, ◌≡◌, refl, sym, ap, ◌∙◌, Bool, true, false, Option, none, some, List, [], ◌∷◌, ◌++◌,
  length, arith, ◌==◌, ◌&&◌, not, if◌then◌else◌, drop,
}
use clean_os.Base.Ring.{collect, put_at}
use clean_os.BlockQueue.{
  buf_size, null, Queue, next_pos, queue_empty, queue_len, wait_while, take_tail, queue_get,
  put_head, queue_put,
}
use clean_os.BlockQueue.Fifo.{
  IsValid, contents, length-contents, queue_put-contents, queue_get-contents,
}

pub data Op : Type 0 where
  put : ℕ → Op
  get : Op

-- What the gets of a run return, and the queue at its end.
unfoldable pub run_ops : Bool → Queue → List Op → List ℕ × Queue
run_ops wk q [] = ([], q)
run_ops wk q (put x ∷ ops) = elim (queue_put none wk 0 q x) [
  | none ↦ ([], q)
  | some (woken, q') ↦ run_ops wk q' ops
]
run_ops wk q (get ∷ ops) = elim (queue_get none wk 0 q) [
  | none ↦ ([], q)
  | some (x, woken, q') ↦ let (out, last) = run_ops wk q' ops in (x ∷ out, last)
]

-- The same on a list.
abbrev pub fifo : List ℕ → List Op → List ℕ × List ℕ
fifo xs [] = ([], xs)
fifo xs (put x ∷ ops) = fifo (xs ++ (x ∷ [])) ops
fifo [] (get ∷ ops) = let (out, last) = fifo [] ops in (null ∷ out, last)
fifo (x ∷ xs) (get ∷ ops) = let (out, last) = fifo xs ops in (x ∷ out, last)

-- The run never puts a pointer into a full queue.
abbrev pub NeverFull : List ℕ → List Op → Type 0
NeverFull xs [] = Unit
NeverFull xs (put x ∷ ops) = (length xs + 1 < buf_size) × NeverFull (xs ++ (x ∷ [])) ops
NeverFull xs (get ∷ ops) = NeverFull (drop 1 xs) ops

len_zero : (q : Queue) → IsValid q → queue_len q ≡ 0 → (q.head == q.tail) ≡ true
unfolding queue_len
len_zero q v h = ground (arith, v.head_inside, v.tail_inside)

queue_get_null :
    (wk : Bool) (q : Queue)
    → IsValid q
    → contents q ≡ []
    → queue_get none wk 0 q ≡ some (null, none, q)
unfolding queue_get wait_while take_tail queue_empty
queue_get_null wk q v e =
    let len : queue_len q ≡ 0 = sym (length-contents q) ∙ ap length e in
    let empty : (q.head == q.tail) ≡ true = len_zero q v len in rw empty refl

-- A run of puts and gets on a valid queue without a wait function returns what the same run on the
-- list of its pointers returns, and ends with the pointers of that list, if no put of the run meets a
-- list of 1023 pointers.
pub run_ops-fifo :
    (wk : Bool) (ops : List Op) (q : Queue) (xs : List ℕ)
    → IsValid q
    → contents q ≡ xs
    → NeverFull xs ops
    → ((run_ops wk q ops).0 ≡ (fifo xs ops).0) × (contents (run_ops wk q ops).1 ≡ (fifo xs ops).1)
unfolding run_ops
run_ops-fifo wk [] q xs v e h = (refl, e)
run_ops-fifo wk (put x ∷ ops) q xs v e (room, h) =
    let len : queue_len q ≡ length xs = sym (length-contents q) ∙ ap length e in
    let (woken, q', done, same, valid) = queue_put-contents none wk 0 q x v (omega arith) in
    rw (run_ops, done)
      (run_ops-fifo wk ops q' (xs ++ (x ∷ [])) valid (same ∙ ap (λ l. l ++ (x ∷ [])) e) h)
run_ops-fifo wk (get ∷ ops) q [] v e h =
    let (out, last) = run_ops-fifo wk ops q [] v e h in
    rw (run_ops, queue_get_null wk q v e) (ap (λ l. null ∷ l) out, last)
run_ops-fifo wk (get ∷ ops) q (x ∷ xs) v e h =
    let (woken, q', done, same, valid) = queue_get-contents none wk 0 q x xs v e in
    let (out, last) = run_ops-fifo wk ops q' xs valid same h in
    rw (run_ops, done) (ap (λ l. x ∷ l) out, last)

len_wrap :
    (q : Queue) (b : ℕ → ℕ) (c : ℕ)
    → IsValid q
    → queue_len q + 1 ≡ buf_size
    → queue_len (record q { consumer = c; buf = b; head = next_pos q.head }) ≡ 0
unfolding queue_len next_pos
len_wrap q b c v h = ground (arith, v.head_inside, v.tail_inside)

put_head_full :
    (wk : Bool) (q : Queue) (x : ℕ)
    → IsValid q
    → queue_len q + 1 ≡ buf_size
    → contents (put_head wk q x).1 ≡ []
unfolding put_head
put_head_full wk q x v h =
    ap (collect buf_size (put_head wk q x).1.buf (put_head wk q x).1.tail)
      (wrap (not (q.consumer == 0) && wk))
  where
    wrap :
        (b : Bool)
        → let o : Option ℕ × Queue =
            if b
            then (
              some q.consumer,
              record q { consumer = 0; buf = put_at q.buf q.head x; head = next_pos q.head },
            )
            else (none, record q { buf = put_at q.buf q.head x; head = next_pos q.head }) in
          queue_len o.1 ≡ 0
    wrap true = len_wrap q _ 0 v h
    wrap false = len_wrap q _ q.consumer v h

-- `queue_put` on a valid queue of 1023 pointers without a wait function leaves the queue empty: every
-- pointer is lost.
pub queue_put_full :
    (wk : Bool) (n : ℕ) (q : Queue) (x : ℕ)
    → IsValid q
    → length (contents q) + 1 ≡ buf_size
    → (woken : Option ℕ) × (q' : Queue) × (queue_put none wk n q x ≡ some (woken, q'))
      × (contents q' ≡ [])
unfolding queue_put wait_while
queue_put_full wk n q x v e =
    let len : queue_len q + 1 ≡ buf_size = omega (arith, length-contents q) in
    ((put_head wk q x).0, (put_head wk q x).1, refl, put_head_full wk q x v len)
