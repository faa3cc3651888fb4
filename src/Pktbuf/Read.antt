-- ===== src/Pktbuf/Read.antt =====
-- pktbuf_read delivers the bytes at the place and moves behind them.
use clean_os.Base.{
  ℕ, zero, suc, ◌+◌, ◌-◌, ◌≤◌, ◌<◌, ◌≡◌, refl, sym, ap, ◌∙◌, Option, none, some, List, [], ◌∷◌,
  ◌++◌, min, ◌==◌, length, take, drop, length-drop, drop-drop, append_assoc, append-nil, Distinct,
  arith, Bool-cases, inl, inr, false, le→ltb, lt→ltb, take_of_le, ==_refl,
}
use clean_os.Pktbuf.Store.{Pool, Buf, NetErr, err_ok, err_size, head, after, reset_acc}
use clean_os.Pktbuf.Access.{
  curr_blk_remain, move_forward, read_here, read_loop, read, rounds, ◌>>=◌,
}
use clean_os.Pktbuf.Content.{content, bytes, IsValid, length-content}
use clean_os.Pktbuf.Place.{tail, left, InBlock, Moved}
use clean_os.Pktbuf.Step.{
  room, curr_blk_remain-room, at, move_forward_lem, read_here-take, left_pos,
}

-- What a loop that reads `size` bytes is to deliver behind `dest`.
abbrev pub Delivers : Pool → Buf → ℕ → List ℕ → Option (List ℕ × Buf) → Type 0
Delivers p buf size dest none = ⊥
Delivers p buf size dest (some (out, buf')) =
    (out ≡ dest ++ take size (tail p buf))
    × (tail p buf' ≡ drop size (tail p buf))
    × (buf'.pos ≡ buf.pos + size)
    × (buf'.total_size ≡ buf.total_size)
    × (buf'.blk_list ≡ buf.blk_list)
    × InBlock p buf'

take-take-drop :
    (c size : ℕ) (xs : List ℕ) → c ≤ size → take c xs ++ take (size - c) (drop c xs) ≡ take size xs
take-take-drop zero size xs h = ap (λ n. take n xs) (omega arith)
take-take-drop (suc c) zero xs h = absurd (omega arith)
take-take-drop (suc c) (suc n) [] h = take_of_le (suc n - suc c) [] (omega arith)
take-take-drop (suc c) (suc n) (x ∷ xs) h =
    ap (λ l. x ∷ l)
      (ap (λ k. take c xs ++ take k (drop c xs)) {x = suc n - suc c} {y = n - c} (omega arith)
        ∙ take-take-drop c n xs (omega arith))

Delivers-step :
    (p : Pool) (buf buf' : Buf) (size c : ℕ) (dest : List ℕ) (o : Option (List ℕ × Buf))
    → Moved p buf c (room p buf) buf'
    → c ≤ size
    → Delivers p buf' (size - c) (dest ++ take c (tail p buf)) o
    → Delivers p buf size dest o
Delivers-step p buf buf' size c dest none m h r = r
Delivers-step p buf buf' size c dest (some (out, last)) m h (e, t, q, s, b, i) = (
  e
      ∙ append_assoc dest (take c (tail p buf)) (take (size - c) (tail p buf'))
      ∙ ap (λ l. dest ++ (take c (tail p buf) ++ take (size - c) l)) m.rest
      ∙ ap (λ l. dest ++ l) (take-take-drop c size (tail p buf) h),
  t
      ∙ ap (drop (size - c)) m.rest
      ∙ drop-drop (size - c) c (tail p buf)
      ∙ ap (λ k. drop k (tail p buf)) {x = c + (size - c)} {y = size} (omega arith),
  omega (arith, m.pos),
  s ∙ m.total,
  b ∙ m.blocks,
  i,
)

read_loop_step :
    (f : ℕ) (p : Pool) (buf buf' : Buf) (size r : ℕ) (dest : List ℕ)
    → 0 < size
    → curr_blk_remain p buf ≡ some r
    → move_forward p buf (min size r) ≡ some buf'
    → read_loop (suc f) p buf size dest
      ≡ read_loop f p buf' (size - min size r) (dest ++ read_here p buf (min size r))
unfolding read_loop
read_loop_step f p buf buf' size r dest pos e m = ground arith

read_loop-Delivers :
    (f : ℕ) (p : Pool) (buf : Buf) (size : ℕ) (dest : List ℕ)
    → Distinct buf.blk_list
    → InBlock p buf
    → size ≤ length (tail p buf)
    → 0 < f
    → (0 < size → left buf < f)
    → Delivers p buf size dest (read_loop f p buf size dest)
unfolding read_loop
read_loop-Delivers zero p buf size dest d h fits pos fuel = absurd (omega arith)
read_loop-Delivers (suc f) p buf size dest d h fits pos fuel = elim (Bool-cases (size == 0)) [
  | inl done ↦
      let e : size ≡ 0 = ground arith in
      rw e (sym (append-nil dest), refl, omega arith, refl, refl, h)
  | inr more ↦
      let size_pos : 0 < size = ground arith in
      let c = min size (room p buf) in
      let (buf', e, m) = move_forward_lem p buf c d h (omega arith) (omega arith) in
      let some_left = left_pos p buf (omega arith) in
      let enough = fuel size_pos in
      rw
        (
          read_loop_step f p buf buf' size (room p buf) dest size_pos (curr_blk_remain-room p buf h)
              e,
          read_here-take p buf c (omega arith),
        )
        (Delivers-step p buf buf' size c dest _ m (omega arith) (
          read_loop-Delivers f p buf' (size - c) (dest ++ take c (tail p buf)) (rw m.blocks d)
            m.inside (omega (arith, ap length m.rest, length-drop c (tail p buf))) (omega arith)
            (λ more_left. omega (arith, m.fewer))))
]

-- The place of a packet: it is consistent with the position.
pub record IsPlaced (p : Pool) (buf : Buf) : Type 0 where
  pub rest : tail p buf ≡ drop buf.pos (bytes p buf)
  pub inside : InBlock p buf

length-after-le : (x : ℕ) (xs : List ℕ) → length (after x xs) ≤ length xs
unfolding after
length-after-le x [] = omega arith
length-after-le x (y ∷ ys) = ground (arith, length-after-le x ys)

pub left-le : (buf : Buf) (c : Option ℕ) → left (at buf c) ≤ length buf.blk_list + 1
left-le buf none = omega arith
left-le buf (some x) = omega (arith, length-after-le x buf.blk_list)

pub length-bytes : (p : Pool) (buf : Buf) → IsValid p buf → length (bytes p buf) ≡ buf.total_size
length-bytes p buf v = length-content p.blk buf.blk_list ∙ sym v.size_right

-- What `pktbuf_read` of `size` bytes is to do.
abbrev pub Reads : Pool → Buf → ℕ → Option (NetErr × List ℕ × Buf) → Type 0
Reads p buf size none = ⊥
Reads p buf size (some (e, out, buf')) =
    (e ≡ err_ok)
    × (out ≡ take size (drop buf.pos (bytes p buf)))
    × (buf'.pos ≡ buf.pos + size)
    × (buf'.total_size ≡ buf.total_size)
    × (buf'.blk_list ≡ buf.blk_list)
    × IsPlaced p buf'

Reads-Delivers :
    (p : Pool) (buf : Buf) (size : ℕ) (o : Option (List ℕ × Buf))
    → IsPlaced p buf
    → Delivers p buf size [] o
    → Reads p buf size (o >>= λ (out, buf'). some (err_ok, out, buf'))
Reads-Delivers p buf size none v r = r
Reads-Delivers p buf size (some (out, buf')) v (e, t, q, s, b, i) = (
  refl,
  e ∙ ap (take size) v.rest,
  q,
  s,
  b,
  record {
    rest =
        t
        ∙ ap (drop size) v.rest
        ∙ drop-drop size buf.pos (bytes p buf)
        ∙ ap (λ k. drop k (bytes p buf)) (sym q)
        ∙ ap (λ l. drop buf'.pos (content p.blk l)) (sym b);
    inside = i;
  },
)

-- On a valid packet whose place is consistent with its position, `pktbuf_read` of `size` bytes, at
-- least one, that are left behind the place returns 0 and delivers exactly the
-- next `size` bytes of what the packet holds; the position grows by `size`, the place stays
-- consistent, and the packet is unchanged.
pub read-Reads :
    (p : Pool) (buf : Buf) (size : ℕ)
    → IsValid p buf
    → IsPlaced p buf
    → 0 < size
    → buf.pos + size ≤ buf.total_size
    → Reads p buf size (read p buf size)
unfolding read
read-Reads p buf size v at_place pos fits =
    let some_size : (size == 0) ≡ false = ground arith in
    let enough = le→ltb buf.total_size (buf.pos + size) fits in
    rw (some_size, enough)
      (Reads-Delivers p buf size _ at_place (
        read_loop-Delivers (rounds buf size) p buf size [] v.distinct at_place.inside
          (omega (
            arith,
            ap length at_place.rest,
            length-drop buf.pos (bytes p buf),
            length-bytes p buf v,
          ))
          (omega arith) (λ h. omega (arith, left-le buf buf.curr_blk))))

-- Where fewer bytes are left, `pktbuf_read` returns NET_ERR_SIZE and changes nothing.
pub read_short :
    (p : Pool) (buf : Buf) (size : ℕ)
    → 0 < size
    → buf.total_size < buf.pos + size
    → read p buf size ≡ some (err_size, [], buf)
unfolding read
read_short p buf size pos short =
    let some_size : (size == 0) ≡ false = ground arith in
    rw (some_size, lt→ltb buf.total_size (buf.pos + size) short) refl

reset_acc_at :
    (p : Pool) (buf : Buf) (xs : List ℕ)
    → let placed = reset_acc p (record buf { blk_list = xs }) in
      IsPlaced p placed × (placed.pos ≡ 0) × (placed.blk_list ≡ xs)
unfolding reset_acc head after
reset_acc_at p buf [] = (record { rest = refl; inside = tt }, refl, refl)
reset_acc_at p buf (x ∷ xs) =
    let b = p.blk x in
    let size : b.data_off + b.size - b.data_off ≡ b.size = omega arith in
    (record { rest = rw (size, ==_refl x) refl; inside = omega arith }, refl, refl)

-- `pktbuf_reset_acc` sets the place to the front of the packet, and leaves its blocks.
pub reset_acc-IsPlaced :
    (p : Pool) (buf : Buf)
    → IsPlaced p (reset_acc p buf)
      × ((reset_acc p buf).pos ≡ 0)
      × ((reset_acc p buf).blk_list ≡ buf.blk_list)
reset_acc-IsPlaced p buf = reset_acc_at p buf buf.blk_list
