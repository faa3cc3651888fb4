-- ===== src/Fixq/Run.antt =====
-- Runs of sends and receives that do not wait, against a bounded list; and what a sender that waits
-- makes of the next receive.
use clean_os.Base.{
  ℕ, ◌≡◌, refl, sym, ap, ◌∙◌, Bool, true, false, List, [], ◌∷◌, ◌++◌, length, arith, leb, ltb, ◌==◌,
  if◌then◌else◌, Bool-cases, inl, inr,
}
use clean_os.Pktbuf.Store.{NetErr, err_ok, err_full}
use clean_os.Segment.{segment_wait, segment_wakeup, choose, pop_waiter}
use clean_os.Fixq.{
  Fixq, send_waited, recv_waited, returned, blocked, fault, fixq_send, fetch_msg, fixq_recv,
}
use clean_os.Fixq.Fifo.{IsValid, contents, length-contents, fixq_send-contents, fixq_recv-contents}

-- Calls by some thread.
pub data Op : Type 0 where
  send : ℕ → ℕ → Op
  recv : ℕ → Op

pub data Reply : Type 0 where
  sent : NetErr → Reply
  got : ℕ → Reply

-- What the calls of a run return, and the queue at its end. A call that does not return ends the run.
unfoldable pub run : Fixq → List Op → List Reply × Fixq
run q [] = ([], q)
run q (send cur msg ∷ ops) = elim (fixq_send q cur msg true) [
  | returned e q' ↦ let (out, last) = run q' ops in (sent e ∷ out, last)
  | _ ↦ ([], q)
]
run q (recv cur ∷ ops) = elim (fixq_recv q cur true) [
  | returned x q' ↦ let (out, last) = run q' ops in (got x ∷ out, last)
  | _ ↦ ([], q)
]

-- The same on a list of at most `size` messages.
abbrev pub fifo : ℕ → List ℕ → List Op → List Reply × List ℕ
fifo size xs [] = ([], xs)
fifo size xs (send cur msg ∷ ops) =
    let (out, last) = fifo size (if leb size (length xs) then xs else xs ++ (msg ∷ [])) ops in
    (sent (if leb size (length xs) then err_full else err_ok) ∷ out, last)
fifo size [] (recv cur ∷ ops) = let (out, last) = fifo size [] ops in (got 0 ∷ out, last)
fifo size (x ∷ xs) (recv cur ∷ ops) = let (out, last) = fifo size xs ops in (got x ∷ out, last)

fixq_send_full :
    (q : Fixq) (cur msg : ℕ)
    → leb q.size q.cnt ≡ true
    → fixq_send q cur msg true ≡ returned err_full q
unfolding fixq_send
fixq_send_full q cur msg h = rw (fixq_send, h) refl

fixq_recv_empty : (q : Fixq) (cur : ℕ) → q.cnt ≡ 0 → fixq_recv q cur true ≡ returned 0 q
unfolding fixq_recv
fixq_recv_empty q cur h = rw (fixq_recv, h) refl

-- A run of sends and receives that do not wait, on a valid queue for which no
-- thread waits, returns what the same run on the
-- bounded list of its messages returns, NET_ERR_FULL and null pointers included, and ends with the
-- messages of that list. Every call returns.
pub run-fifo :
    (ops : List Op) (q : Fixq) (xs : List ℕ)
    → IsValid q
    → contents q ≡ xs
    → ((run q ops).0 ≡ (fifo q.size xs ops).0) × (contents (run q ops).1 ≡ (fifo q.size xs ops).1)
unfolding run
run-fifo [] q xs v e = (refl, e)
run-fifo (send cur msg ∷ ops) q xs v e =
    let len : length xs ≡ q.cnt = ap length (sym e) ∙ length-contents q in
    elim (Bool-cases (leb q.size q.cnt)) [
      | inl full ↦
          let (out, last) = run-fifo ops q xs v e in
          rw (run, fixq_send_full q cur msg full, len, full) (ap (λ l. sent err_full ∷ l) out, last)
      | inr room ↦
          let (q', done, same, valid, size) = fixq_send-contents q cur msg true v (ground arith) in
          let (out, last) =
            run-fifo ops q' (xs ++ (msg ∷ [])) valid (same ∙ ap (λ l. l ++ (msg ∷ [])) e) in
          rw (run, done, len, room)
            (
              ap (λ l. sent err_ok ∷ l) (out ∙ ap (λ n. (fifo n (xs ++ (msg ∷ [])) ops).0) size),
              last ∙ ap (λ n. (fifo n (xs ++ (msg ∷ [])) ops).1) size,
            )
    ]
run-fifo (recv cur ∷ ops) q [] v e =
    let (out, last) = run-fifo ops q [] v e in
    let none_left : q.cnt ≡ 0 = sym (length-contents q) ∙ ap length e in
    rw (run, fixq_recv_empty q cur none_left) (ap (λ l. got 0 ∷ l) out, last)
run-fifo (recv cur ∷ ops) q (x ∷ xs) v e =
    let (q', done, same, valid, size) = fixq_recv-contents q cur true x xs v e in
    let (out, last) = run-fifo ops q' xs valid same in
    rw (run, done)
      (
        ap (λ l. got x ∷ l) (out ∙ ap (λ n. (fifo n xs ops).0) size),
        last ∙ ap (λ n. (fifo n xs ops).1) size,
      )

-- Where a thread waits to send, the next receive writes through a null pointer.
fetch_msg_fault : (q : Fixq) (cur : ℕ) → q.send_sem.waiters ≡ cur ∷ [] → fetch_msg q ≡ fault
unfolding fetch_msg segment_wakeup choose pop_waiter
fetch_msg_fault q cur e = rw e refl

-- On a full valid queue for which no thread waits a send that may wait blocks its thread, and the next receive, by whichever
-- thread, takes the wake-up's branch that writes the thread id through the null pointer `pid`.
pub fixq_recv_fault :
    (q : Fixq) (cur msg reader : ℕ) (no_wait : Bool)
    → IsValid q
    → q.cnt ≡ q.size
    → (q' : Fixq) × (fixq_send q cur msg false ≡ blocked q') × (fixq_recv q' reader no_wait ≡ fault)
unfolding fixq_send send_waited fixq_recv recv_waited segment_wait
fixq_recv_fault q cur msg reader no_wait v full =
    let q' : Fixq = record q {
      send_sem = record q.send_sem { waiters = q.send_sem.waiters ++ (cur ∷ []) };
    } in
    let no_place : ltb 0 q.send_sem.count ≡ false = ground (arith, v.free_places) in
    let some_msg : (q.cnt == 0) ≡ false = ground (arith, v.out_inside) in
    let ready : ltb 0 q.receive_sem.count ≡ true = ground (arith, v.messages, v.out_inside) in
    (
      q',
      rw (fixq_send, segment_wait, no_place, send_waited) (ground arith),
      rw (fixq_recv, segment_wait, some_msg, ready, recv_waited)
          (fetch_msg_fault _ cur (ap (λ l. l ++ (cur ∷ [])) v.no_sender)),
    )
