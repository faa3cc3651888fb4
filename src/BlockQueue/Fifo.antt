-- ===== src/BlockQueue/Fifo.antt =====
-- The queue as a list: first in, first out, while there is room.
use clean_os.Base.{
  ℕ, zero, suc, ◌+◌, ◌<◌, ◌≡◌, refl, sym, ap, ◌∙◌, Bool, false, Option, none, some, List, [], ◌∷◌,
  ◌++◌, length, arith, ◌==◌, ◌&&◌, not, Bool-cases, inl, inr,
}
use clean_os.Base.Ring.{collect, collect-put_at, length-collect, slot, next_index, put_at}
use clean_os.BlockQueue.{
  buf_size, Queue, Side, producers, consumers, next_pos, queue_full, queue_empty, queue_len,
  wait_while, take_tail, queue_get, put_head, queue_put,
}

-- The indices lie in the array.
pub record IsValid (q : Queue) : Type 0 where
  pub head_inside : q.head < buf_size
  pub tail_inside : q.tail < buf_size

-- The pointers in the queue, the oldest first.
abbrev pub contents : Queue → List ℕ
contents q = collect buf_size q.buf q.tail (queue_len q)

-- `queue_len` is the number of pointers in the queue.
pub length-contents : (q : Queue) → length (contents q) ≡ queue_len q
length-contents q = length-collect buf_size q.buf q.tail (queue_len q)

next_pos-next_index : (i : ℕ) → i < buf_size → next_pos i ≡ next_index buf_size i
unfolding next_pos
next_pos-next_index i h = ground arith

-- A queue with room for another pointer.
abbrev pub HasRoom : Queue → Type 0
HasRoom q = queue_len q + 1 < buf_size

not_full : (q : Queue) → IsValid q → HasRoom q → queue_full q ≡ false
unfolding queue_full queue_len next_pos
not_full q v h = ground (arith, v.head_inside, v.tail_inside)

pub not_empty : (q : Queue) → IsValid q → 0 < queue_len q → queue_empty q ≡ false
unfolding queue_empty queue_len
not_empty q v h = ground (arith, v.head_inside, v.tail_inside)

-- The loop does not wait where the test fails.
wait_while-false :
    (test : Queue → Bool) (wait : Option (Side → Queue → Queue)) (side : Side) (n : ℕ) (q : Queue)
    → test q ≡ false
    → wait_while test wait side n q ≡ some q
unfolding wait_while
wait_while-false test none side n q h = refl
wait_while-false test (some wait) side zero q h = rw h refl
wait_while-false test (some wait) side (suc n) q h = rw h refl

len_put :
    (q : Queue) (c : ℕ) (b : ℕ → ℕ)
    → IsValid q
    → HasRoom q
    → queue_len (record q { consumer = c; head = next_pos q.head; buf = b }) ≡ suc (queue_len q)
unfolding queue_len next_pos
len_put q c b v h = ground (arith, v.head_inside, v.tail_inside)

head-slot : (q : Queue) → IsValid q → HasRoom q → q.head ≡ slot buf_size q.tail (queue_len q)
unfolding queue_len
head-slot q v h = ground (arith, v.head_inside, v.tail_inside)

len_take :
    (q : Queue) (c n : ℕ)
    → IsValid q
    → queue_len q ≡ suc n
    → queue_len (record q { producer = c; tail = next_pos q.tail }) ≡ n
unfolding queue_len next_pos
len_take q c n v h = ground (arith, v.head_inside, v.tail_inside)

-- What a put does to the list.
put_head_lem :
    (wk : Bool) (q : Queue) (x : ℕ)
    → IsValid q
    → HasRoom q
    → (contents (put_head wk q x).1 ≡ contents q ++ (x ∷ [])) × IsValid (put_head wk q x).1
unfolding put_head next_pos
put_head_lem wk q x v h = elim (Bool-cases (not (q.consumer == 0) && wk)) [
  | inl woken ↦ rw woken (same 0, valid 0)
  | inr quiet ↦ rw quiet (same q.consumer, valid q.consumer)
]
  where
    b : ℕ → ℕ
    b = put_at q.buf q.head x

    same :
        (c : ℕ)
        → contents (record q { consumer = c; buf = b; head = next_pos q.head })
          ≡ contents q ++ (x ∷ [])
    same c =
        ap (collect buf_size b q.tail) (len_put q c b v h)
        ∙ ap (λ i. collect buf_size (put_at q.buf i x) q.tail (suc (queue_len q))) (head-slot q v h)
        ∙ collect-put_at buf_size q.buf q.tail (queue_len q) x v.tail_inside (omega arith)

    valid : (c : ℕ) → IsValid (record q { consumer = c; buf = b; head = next_pos q.head })
    valid c = record { head_inside = omega arith; tail_inside = v.tail_inside }

-- What a get does to the list, of a queue that is not empty.
take_tail_lem :
    (wk : Bool) (q : Queue) (n : ℕ)
    → IsValid q
    → queue_len q ≡ suc n
    → (contents q ≡ (take_tail wk q).0 ∷ contents (take_tail wk q).2) × IsValid (take_tail wk q).2
unfolding take_tail next_pos
take_tail_lem wk q n v e =
    let some_left = not_empty q v (omega arith) in
    elim (Bool-cases (not (q.producer == 0) && wk)) [
      | inl woken ↦ rw (some_left, woken) (same 0, valid 0)
      | inr quiet ↦ rw (some_left, quiet) (same q.producer, valid q.producer)
    ]
  where
    same :
        (c : ℕ)
        → contents q ≡ q.buf q.tail ∷ contents (record q { producer = c; tail = next_pos q.tail })
    same c =
        ap (collect buf_size q.buf q.tail) e
        ∙ ap (λ i. q.buf q.tail ∷ collect buf_size q.buf i n)
            (sym (next_pos-next_index q.tail v.tail_inside))
        ∙ ap (λ k. q.buf q.tail ∷ collect buf_size q.buf (next_pos q.tail) k)
            (sym (len_take q c n v e))

    valid : (c : ℕ) → IsValid (record q { producer = c; tail = next_pos q.tail })
    valid c = record { head_inside = v.head_inside; tail_inside = omega arith }

-- `queue_put` on a queue with room does not wait and puts the pointer behind the others.
pub queue_put-contents :
    (wait : Option (Side → Queue → Queue)) (wk : Bool) (n : ℕ) (q : Queue) (x : ℕ)
    → IsValid q
    → HasRoom q
    → (woken : Option ℕ) × (q' : Queue) × (queue_put wait wk n q x ≡ some (woken, q'))
      × (contents q' ≡ contents q ++ (x ∷ []))
      × IsValid q'
unfolding queue_put
queue_put-contents wait wk n q x v h =
    let (same, valid) = put_head_lem wk q x v h in
    (
      (put_head wk q x).0,
      (put_head wk q x).1,
      rw (queue_put, wait_while-false queue_full wait producers n q (not_full q v h)) refl,
      same,
      valid,
    )

-- `queue_get` on a queue that holds a pointer does not wait and takes the oldest one.
pub queue_get-contents :
    (wait : Option (Side → Queue → Queue)) (wk : Bool) (n : ℕ) (q : Queue) (x : ℕ) (xs : List ℕ)
    → IsValid q
    → contents q ≡ x ∷ xs
    → (woken : Option ℕ) × (q' : Queue) × (queue_get wait wk n q ≡ some (x, woken, q'))
      × (contents q' ≡ xs)
      × IsValid q'
unfolding queue_get
queue_get-contents wait wk n q x xs v e =
    let len : queue_len q ≡ suc (length xs) = sym (length-contents q) ∙ ap length e in
    let (same, valid) = take_tail_lem wk q (length xs) v len in
    let split = sym same ∙ e in
    (
      (take_tail wk q).1,
      (take_tail wk q).2,
      rw (queue_get, wait_while-false queue_empty wait consumers n q (not_empty q v (omega arith)))
          (ap (λ y. some (y, (take_tail wk q).1, (take_tail wk q).2)) (ap first split)),
      ap rest split,
      valid,
    )
  where
    first : List ℕ → ℕ
    first [] = 0
    first (y ∷ ys) = y

    rest : List ℕ → List ℕ
    rest [] = []
    rest (y ∷ ys) = ys
