-- ===== src/Fixq/Fifo.antt =====
-- A message queue for which no thread waits is a bounded first-in-first-out list.
use clean_os.Base.{
  ℕ, suc, ◌+◌, ◌-◌, ◌≤◌, ◌<◌, ◌≡◌, refl, sym, ap, ◌∙◌, Bool, true, false, none, some, List, [], ◌∷◌,
  ◌++◌, length, arith, leb, ◌==◌, lt→ltb,
}
use clean_os.Base.Ring.{collect, collect-put_at, length-collect, slot, next_index, put_at}
use clean_os.Pktbuf.Store.{err_ok}
use clean_os.Segment.{Segment, init_segment, segment_wait, segment_wakeup, choose, pop_waiter}
use clean_os.Fixq.{
  Fixq, returned, fixq_init, store_msg, send_waited, recv_waited, fixq_send, fetch_msg, fixq_recv,
}

-- The indices lie in the array and `cnt` messages apart; the semaphores count the free places and
-- the messages, and no thread waits.
pub record IsValid (q : Fixq) : Type 0 where
  pub out_inside : q.out_index < q.size
  pub bounded : q.cnt ≤ q.size
  pub apart : q.in_index ≡ slot q.size q.out_index q.cnt
  pub free_places : q.send_sem.count + q.cnt ≡ q.size
  pub messages : q.receive_sem.count ≡ q.cnt
  pub no_sender : q.send_sem.waiters ≡ []
  pub no_receiver : q.receive_sem.waiters ≡ []

-- The messages in the queue, the oldest first.
abbrev pub contents : Fixq → List ℕ
contents q = collect q.size q.buf q.out_index q.cnt

pub length-contents : (q : Fixq) → length (contents q) ≡ q.cnt
length-contents q = length-collect q.size q.buf q.out_index q.cnt

pub fixq_init-IsValid : (buf : ℕ → ℕ) (size : ℕ) → 0 < size → IsValid (fixq_init buf size)
unfolding fixq_init init_segment
fixq_init-IsValid buf size h = record {
  out_inside = h;
  bounded = omega arith;
  apart = ground arith;
  free_places = omega arith;
  messages = refl;
  no_sender = refl;
  no_receiver = refl;
}

-- A semaphore that nobody waits for is counted up.
segment_wakeup_free :
    (s : Segment)
    → s.waiters ≡ []
    → segment_wakeup s none ≡ some (none, record { count = s.count + 1; waiters = [] })
unfolding segment_wakeup choose pop_waiter
segment_wakeup_free s e = rw e refl

segment_wait_free :
    (s : Segment) (cur : ℕ)
    → 0 < s.count
    → segment_wait s cur ≡ (true, record s { count = s.count - 1 })
unfolding segment_wait
segment_wait_free s cur h = rw (segment_wait, lt→ltb 0 s.count h) refl

-- `fixq_send` on a queue with a free place puts the message behind the others.
pub fixq_send-contents :
    (q : Fixq) (cur msg : ℕ) (no_wait : Bool)
    → IsValid q
    → q.cnt < q.size
    → (q' : Fixq) × (fixq_send q cur msg no_wait ≡ returned err_ok q')
      × (contents q' ≡ contents q ++ (msg ∷ []))
      × IsValid q'
      × (q'.size ≡ q.size)
unfolding fixq_send send_waited store_msg
fixq_send-contents q cur msg no_wait v h =
    let room : leb q.size q.cnt ≡ false = ground arith in
    let wait = segment_wait_free q.send_sem cur (omega (arith, v.free_places)) in
    let wake = segment_wakeup_free q.receive_sem v.no_receiver in
    (
      record q {
        buf = put_at q.buf q.in_index msg;
        in_index = next_index q.size q.in_index;
        cnt = q.cnt + 1;
        send_sem = record q.send_sem { count = q.send_sem.count - 1 };
        receive_sem = record { count = q.receive_sem.count + 1; waiters = [] };
      },
      rw (fixq_send, room, wait, send_waited, store_msg, wake) refl,
      ap (λ i. collect q.size (put_at q.buf i msg) q.out_index (q.cnt + 1)) v.apart
          ∙ ap (collect q.size (put_at q.buf (slot q.size q.out_index q.cnt) msg) q.out_index)
              {x = q.cnt + 1} {y = suc q.cnt} (omega arith)
          ∙ collect-put_at q.size q.buf q.out_index q.cnt msg v.out_inside h,
      record {
        out_inside = v.out_inside;
        bounded = omega arith;
        apart = ground (arith, v.apart, v.out_inside);
        free_places = omega (arith, v.free_places);
        messages = omega (arith, v.messages);
        no_sender = v.no_sender;
        no_receiver = refl;
      },
      refl,
    )

-- `fixq_recv` on a queue with a message takes the oldest one.
pub fixq_recv-contents :
    (q : Fixq) (cur : ℕ) (no_wait : Bool) (x : ℕ) (xs : List ℕ)
    → IsValid q
    → contents q ≡ x ∷ xs
    → (q' : Fixq) × (fixq_recv q cur no_wait ≡ returned x q')
      × (contents q' ≡ xs)
      × IsValid q'
      × (q'.size ≡ q.size)
unfolding fixq_recv recv_waited fetch_msg
fixq_recv-contents q cur no_wait x xs v e =
    let len : q.cnt ≡ suc (length xs) = sym (length-contents q) ∙ ap length e in
    let some_left : (q.cnt == 0) ≡ false = ground arith in
    let wait = segment_wait_free q.receive_sem cur (omega (arith, v.messages)) in
    let wake = segment_wakeup_free q.send_sem v.no_sender in
    let split : q.buf q.out_index ∷ collect q.size q.buf (next_index q.size q.out_index) (length xs)
        ≡ x ∷ xs =
      ap (collect q.size q.buf q.out_index) (sym len) ∙ e in
    (
      record q {
        out_index = next_index q.size q.out_index;
        cnt = q.cnt - 1;
        send_sem = record { count = q.send_sem.count + 1; waiters = [] };
        receive_sem = record q.receive_sem { count = q.receive_sem.count - 1 };
      },
      rw (fixq_recv, some_left, wait, recv_waited, fetch_msg, wake) (ground arith),
      ap (collect q.size q.buf (next_index q.size q.out_index)) {x = q.cnt - 1} {y = length xs}
            (omega arith)
          ∙ ground arith,
      record {
        out_inside = ground (arith, v.out_inside);
        bounded = omega (arith, v.bounded);
        apart = ground (arith, v.apart, v.out_inside, v.bounded);
        free_places = omega (arith, v.free_places);
        messages = omega (arith, v.messages);
        no_sender = refl;
        no_receiver = v.no_receiver;
      },
      refl,
    )
