-- ===== src/Fixq.antt =====
-- kernel/net/fixq.c: message queues of a fixed length between threads, on two semaphores.
-- A message is its address. A call runs until it returns or its thread blocks; a timeout is given as
-- whether it is negative, which means not to wait.
pub mod Fifo
pub mod Run
mod Tests
use clean_os.Base.{
  ℕ, ◌+◌, ◌-◌, Bool, true, false, Option, none, some, ◌==◌, leb, ◌&&◌, if◌then◌else◌,
}
use clean_os.Base.Ring.{put_at}
use clean_os.Pktbuf.Store.{NetErr, err_ok, err_full}
use clean_os.Segment.{Segment, init_segment, segment_wait, segment_wakeup}

-- `fixq_t`
pub record Fixq : Type 0 where
  pub size : ℕ
  pub buf : ℕ → ℕ
  pub in_index : ℕ
  pub out_index : ℕ
  pub cnt : ℕ
  pub send_sem : Segment
  pub receive_sem : Segment

-- How a call ends: it returns, its thread blocks, or it writes through a null pointer.
pub data Ends (A : Type 0) : Type 0 where
  returned : A → Fixq → Ends A
  blocked : Fixq → Ends A
  fault : Ends A

unfoldable pub fixq_init : (ℕ → ℕ) → ℕ → Fixq
fixq_init buf size = record {
  size = size;
  buf = buf;
  in_index = 0;
  out_index = 0;
  cnt = 0;
  send_sem = init_segment size;
  receive_sem = init_segment 0;
}

-- `fixq_send` behind its wait
unfoldable pub store_msg : Fixq → ℕ → Ends NetErr
store_msg q msg = elim (segment_wakeup q.receive_sem none) [
  | none ↦ fault
  | some (woken, sem) ↦ returned err_ok (record q {
    buf = put_at q.buf q.in_index msg;
    in_index = if leb q.size (q.in_index + 1) then 0 else q.in_index + 1;
    cnt = q.cnt + 1;
    receive_sem = sem;
  })
]

-- The wait of `fixq_send`, with its outcome, and what follows.
unfoldable pub send_waited : Fixq → ℕ → Bool × Segment → Ends NetErr
send_waited q msg (true, sem) = store_msg (record q { send_sem = sem }) msg
send_waited q msg (false, sem) = blocked (record q { send_sem = sem })

unfoldable pub fixq_send : Fixq → ℕ → ℕ → Bool → Ends NetErr
fixq_send q cur msg no_wait =
    if leb q.size q.cnt && no_wait
    then returned err_full q
    else send_waited q msg (segment_wait q.send_sem cur)

-- `fixq_recv` behind its wait
unfoldable pub fetch_msg : Fixq → Ends ℕ
fetch_msg q = elim (segment_wakeup q.send_sem none) [
  | none ↦ fault
  | some (woken, sem) ↦ returned (q.buf q.out_index) (record q {
    out_index = if leb q.size (q.out_index + 1) then 0 else q.out_index + 1;
    cnt = q.cnt - 1;
    send_sem = sem;
  })
]

unfoldable pub recv_waited : Fixq → Bool × Segment → Ends ℕ
recv_waited q (true, sem) = fetch_msg (record q { receive_sem = sem })
recv_waited q (false, sem) = blocked (record q { receive_sem = sem })

-- The null pointer is 0.
unfoldable pub fixq_recv : Fixq → ℕ → Bool → Ends ℕ
fixq_recv q cur no_wait =
    if q.cnt == 0 && no_wait then returned 0 q else recv_waited q (segment_wait q.receive_sem cur)

unfoldable pub fixq_count : Fixq → ℕ
fixq_count q = q.cnt
