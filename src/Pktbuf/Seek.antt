-- ===== src/Pktbuf/Seek.antt =====
-- pktbuf_seek moves the place of a packet to an offset.
use clean_os.Base.{
  ℕ, zero, suc, ◌+◌, ◌-◌, ◌≤◌, ◌<◌, ◌≡◌, refl, sym, ap, ◌∙◌, Option, none, some, List, [], ◌∷◌, min,
  ◌==◌, length, drop, length-drop, drop-drop, Distinct, arith, Bool-cases, inl, inr, false, leb,
  ltb, subst, ==_refl,
}
use clean_os.Pktbuf.Store.{Pool, Buf, NetErr, err_ok, head, after}
use clean_os.Pktbuf.Access.{curr_blk_remain, move_forward, go_to, seek_loop, seek, rounds, ◌>>=◌}
use clean_os.Pktbuf.Content.{content, sizes, bytes, IsValid}
use clean_os.Pktbuf.Place.{tail, left, InBlock, Moved}
use clean_os.Pktbuf.Step.{room, curr_blk_remain-room, move_forward_lem, left_pos}
use clean_os.Pktbuf.Read.{IsPlaced, left-le, length-bytes}

-- What a loop that moves the place by `n` bytes is to do.
abbrev Moves : Pool → Buf → ℕ → Option Buf → Type 0
Moves p buf n none = ⊥
Moves p buf n (some buf') =
    (tail p buf' ≡ drop n (tail p buf))
    × (buf'.pos ≡ buf.pos + n)
    × (buf'.total_size ≡ buf.total_size)
    × (buf'.blk_list ≡ buf.blk_list)
    × InBlock p buf'

Moves-step :
    (p : Pool) (buf buf' : Buf) (n c : ℕ) (o : Option Buf)
    → Moved p buf c (room p buf) buf'
    → c ≤ n
    → Moves p buf' (n - c) o
    → Moves p buf n o
Moves-step p buf buf' n c none m h r = r
Moves-step p buf buf' n c (some last) m h (t, q, s, b, i) = (
  t
      ∙ ap (drop (n - c)) m.rest
      ∙ drop-drop (n - c) c (tail p buf)
      ∙ ap (λ k. drop k (tail p buf)) {x = c + (n - c)} {y = n} (omega arith),
  omega (arith, m.pos),
  s ∙ m.total,
  b ∙ m.blocks,
  i,
)

seek_loop_step :
    (f : ℕ) (p : Pool) (buf buf' : Buf) (n r : ℕ)
    → 0 < n
    → curr_blk_remain p buf ≡ some r
    → move_forward p buf (min n r) ≡ some buf'
    → seek_loop (suc f) p buf n ≡ seek_loop f p buf' (n - min n r)
unfolding seek_loop
seek_loop_step f p buf buf' n r pos e m = ground arith

seek_loop-Moves :
    (f : ℕ) (p : Pool) (buf : Buf) (n : ℕ)
    → Distinct buf.blk_list
    → InBlock p buf
    → n ≤ length (tail p buf)
    → 0 < f
    → (0 < n → left buf < f)
    → Moves p buf n (seek_loop f p buf n)
unfolding seek_loop
seek_loop-Moves zero p buf n d h fits pos fuel = absurd (omega arith)
seek_loop-Moves (suc f) p buf n d h fits pos fuel = elim (Bool-cases (n == 0)) [
  | inl done ↦ let e : n ≡ 0 = ground arith in rw e (refl, omega arith, refl, refl, h)
  | inr more ↦
      let n_pos : 0 < n = ground arith in
      let c = min n (room p buf) in
      let (buf', e, m) = move_forward_lem p buf c d h (omega arith) (omega arith) in
      let some_left = left_pos p buf (omega arith) in
      let enough = fuel n_pos in
      rw (seek_loop_step f p buf buf' n (room p buf) n_pos (curr_blk_remain-room p buf h) e) (
        Moves-step p buf buf' n c _ m (omega arith) (
          seek_loop-Moves f p buf' (n - c) (rw m.blocks d) m.inside
            (omega (arith, ap length m.rest, length-drop c (tail p buf))) (omega arith)
            (λ more_left. omega (arith, m.fewer))))
]

-- What `pktbuf_seek` is to do.
abbrev pub Seeks : Pool → Buf → ℕ → Option (NetErr × Buf) → Type 0
Seeks p buf offset none = ⊥
Seeks p buf offset (some (e, buf')) =
    (e ≡ err_ok)
    × (buf'.pos ≡ offset)
    × (buf'.total_size ≡ buf.total_size)
    × (buf'.blk_list ≡ buf.blk_list)
    × IsPlaced p buf'

-- Moving the place by the bytes that it lacks.
Seeks-Moves :
    (p : Pool) (buf : Buf) (n offset : ℕ) (o : Option Buf)
    → IsPlaced p buf
    → buf.pos + n ≡ offset
    → Moves p buf n o
    → Seeks p buf offset (o >>= λ buf'. some (err_ok, buf'))
Seeks-Moves p buf n offset none v h r = r
Seeks-Moves p buf n offset (some buf') v h (t, q, s, b, i) = (
  refl,
  q ∙ h,
  s,
  b,
  record {
    rest =
        t
        ∙ ap (drop n) v.rest
        ∙ drop-drop n buf.pos (bytes p buf)
        ∙ ap (λ k. drop k (bytes p buf)) (sym q)
        ∙ ap (λ l. drop buf'.pos (content p.blk l)) (sym b);
    inside = i;
  },
)

forward :
    (p : Pool) (buf : Buf) (n offset : ℕ)
    → IsValid p buf
    → IsPlaced p buf
    → buf.pos + n ≡ offset
    → offset < buf.total_size
    → Seeks p buf offset (seek_loop (rounds buf n) p buf n >>= λ buf'. some (err_ok, buf'))
forward p buf n offset v at_place h inside = Seeks-Moves p buf n offset _ at_place h (
    seek_loop-Moves (rounds buf n) p buf n v.distinct at_place.inside
      (omega
        (arith, ap length at_place.rest, length-drop buf.pos (bytes p buf), length-bytes p buf v))
      (omega arith) (λ more. omega (arith, left-le buf buf.curr_blk)))

-- The place at the start of the first block.
go_to-IsPlaced :
    (p : Pool) (buf : Buf) (x : ℕ) (xs : List ℕ)
    → IsPlaced p (go_to p (record buf { blk_list = x ∷ xs }) 0 (some x))
unfolding go_to after
go_to-IsPlaced p buf x xs =
    let b = p.blk x in
    let size : b.data_off + b.size - b.data_off ≡ b.size = omega arith in
    record { rest = rw (size, ==_refl x) refl; inside = omega arith }

backward :
    (p : Pool) (buf : Buf) (offset : ℕ) (ys : List ℕ)
    → IsValid p buf
    → buf.blk_list ≡ ys
    → offset < buf.total_size
    → Seeks p buf offset (elim (head ys) [
      | none ↦ none
      | some x ↦ seek_loop (rounds buf offset) p (go_to p buf 0 (some x)) offset >>= λ buf'.
          some (err_ok, buf')
    ])
unfolding head go_to
backward p buf offset [] v e h = absurd (omega (arith, v.size_right ∙ ap (sizes p.blk) e))
backward p buf offset (x ∷ xs) v e h =
    let first =
      subst (λ l. IsPlaced p (go_to p (record buf { blk_list = l }) 0 (some x))) (sym e)
        (go_to-IsPlaced p buf x xs) in
    forward p (go_to p buf 0 (some x)) offset offset v first (omega arith) h

-- `pktbuf_seek` to an offset inside a valid packet whose place is consistent returns 0 and moves the place there, forwards or
-- backwards: the place is consistent with its new position, and the packet is unchanged.
pub seek-Seeks :
    (p : Pool) (buf : Buf) (offset : ℕ)
    → IsValid p buf
    → IsPlaced p buf
    → offset < buf.total_size
    → Seeks p buf offset (seek p buf offset)
unfolding seek
seek-Seeks p buf offset v at_place h = elim (Bool-cases (buf.pos == offset)) [
  | inl here ↦ rw here (refl, ground arith, refl, refl, at_place)
  | inr away ↦
      let inside : leb buf.total_size offset ≡ false = ground arith in
      elim (Bool-cases (ltb offset buf.pos)) [
        | inl back ↦ rw (away, inside, back) (backward p buf offset buf.blk_list v refl h)
        | inr ahead ↦
            rw (away, inside, ahead)
              (forward p buf (offset - buf.pos) offset v at_place (ground arith) h)
      ]
]
