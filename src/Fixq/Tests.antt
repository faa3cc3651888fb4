-- ===== src/Fixq/Tests.antt =====
-- A message queue of three places, and the theorems at it.
use clean_os.Base.{◌+◌, ◌≡◌, refl, true, false, List, [], ◌∷◌, arith}
use clean_os.Base.Ring.{put_at}
use clean_os.Pktbuf.Store.{err_ok, err_full}
use clean_os.Segment.{segment_wait, segment_wakeup, choose, pop_waiter}
use clean_os.Fixq.{
  Fixq, blocked, fault, fixq_send, fixq_recv, send_waited, recv_waited, store_msg, fetch_msg,
}
use clean_os.Fixq.Fifo.{IsValid, contents}
use clean_os.Fixq.Run.{Op, send, recv, sent, got, run, run-fifo, fixq_recv_fault}

-- Two messages, over the end of the array.
abbrev sample : Fixq
sample = record {
  size = 3;
  buf = λ i. 10 + i;
  in_index = 1;
  out_index = 2;
  cnt = 2;
  send_sem = record { count = 1; waiters = [] };
  receive_sem = record { count = 2; waiters = [] };
}

-- The same with a third message.
abbrev packed : Fixq
packed = record sample {
  in_index = 2;
  cnt = 3;
  send_sem = record { count = 0; waiters = [] };
  receive_sem = record { count = 3; waiters = [] };
}

abbrev ops : List Op
ops = send 4 50 ∷ send 4 60 ∷ recv 5 ∷ recv 5 ∷ recv 5 ∷ recv 5 ∷ send 4 70 ∷ []

sample-IsValid : IsValid sample
sample-IsValid = record {
  out_inside = omega arith;
  bounded = omega arith;
  apart = refl;
  free_places = refl;
  messages = refl;
  no_sender = refl;
  no_receiver = refl;
}

packed-IsValid : IsValid packed
packed-IsValid = record {
  out_inside = omega arith;
  bounded = omega arith;
  apart = refl;
  free_places = refl;
  messages = refl;
  no_sender = refl;
  no_receiver = refl;
}

replies_of_run :
    (run sample ops).0
    ≡ sent err_ok ∷ sent err_full ∷ got 12 ∷ got 10 ∷ got 50 ∷ got 0 ∷ sent err_ok ∷ []
unfolding run fixq_send fixq_recv send_waited recv_waited store_msg fetch_msg segment_wait
    segment_wakeup choose pop_waiter put_at
replies_of_run = refl

run-fifo_example :
    ((run sample ops).0
      ≡ sent err_ok ∷ sent err_full ∷ got 12 ∷ got 10 ∷ got 50 ∷ got 0 ∷ sent err_ok ∷ [])
    × (contents (run sample ops).1 ≡ 70 ∷ [])
run-fifo_example = run-fifo ops sample (12 ∷ 10 ∷ []) sample-IsValid refl

fixq_recv_fault_example :
    (q' : Fixq) × (fixq_send packed 4 80 false ≡ blocked q') × (fixq_recv q' 5 true ≡ fault)
fixq_recv_fault_example = fixq_recv_fault packed 4 80 5 true packed-IsValid refl
