-- ===== src/Pktbuf/Step.antt =====
-- One step of the place: the bytes left in its block, and move_forward within them.
use clean_os.Base.{
  ℕ, ◌+◌, ◌-◌, ◌≤◌, ◌<◌, ◌≡◌, refl, sym, ◌∙◌, Option, none, some, length, take, take_append_of_le,
  Distinct, arith,
}
use clean_os.Pktbuf.Store.{Pool, Buf, after}
use clean_os.Pktbuf.Access.{slice, curr_blk_remain, move_forward, read_here}
use clean_os.Pktbuf.Content.{content, take-slice, length-slice}
use clean_os.Pktbuf.Place.{tail, left, InBlock, Moved, Steps, move_forward-some}

-- The bytes of the current block from the place on.
abbrev pub room : Pool → Buf → ℕ
room p buf = elim buf.curr_blk [
  | none ↦ 0
  | some x ↦ (p.blk x).data_off + (p.blk x).size - buf.blk_offset
]

abbrev pub at : Buf → Option ℕ → Buf
at buf c = record buf { curr_blk = c }

curr_blk_remain-at :
    (p : Pool) (buf : Buf) (c : Option ℕ)
    → InBlock p (at buf c)
    → curr_blk_remain p (at buf c) ≡ some (room p (at buf c))
unfolding curr_blk_remain
curr_blk_remain-at p buf none h = refl
curr_blk_remain-at p buf (some x) h = ground arith

pub curr_blk_remain-room :
    (p : Pool) (buf : Buf) → InBlock p buf → curr_blk_remain p buf ≡ some (room p buf)
curr_blk_remain-room p buf h = curr_blk_remain-at p buf buf.curr_blk h

step_at :
    (p : Pool) (buf : Buf) (n : ℕ) (c : Option ℕ)
    → Distinct buf.blk_list
    → InBlock p (at buf c)
    → 0 < length (tail p (at buf c))
    → n ≤ room p (at buf c)
    → Steps p (at buf c) n (room p (at buf c)) (move_forward p (at buf c) n)
step_at p buf n none d h some_left fits = absurd (omega arith)
step_at p buf n (some x) d h some_left fits = move_forward-some p buf x n d h fits

Steps-some :
    (p : Pool) (buf : Buf) (n r : ℕ) (o : Option Buf)
    → Steps p buf n r o
    → (buf' : Buf) × (o ≡ some buf') × Moved p buf n r buf'
Steps-some p buf n r none h = absurd h
Steps-some p buf n r (some b) h = (b, refl, h)

-- A step inside the current block succeeds.
pub move_forward_lem :
    (p : Pool) (buf : Buf) (n : ℕ)
    → Distinct buf.blk_list
    → InBlock p buf
    → 0 < length (tail p buf)
    → n ≤ room p buf
    → (buf' : Buf) × (move_forward p buf n ≡ some buf') × Moved p buf n (room p buf) buf'
move_forward_lem p buf n d h some_left fits =
    Steps-some p buf n (room p buf) (move_forward p buf n)
      (step_at p buf n buf.curr_blk d h some_left fits)

read_here-at :
    (p : Pool) (buf : Buf) (n : ℕ) (c : Option ℕ)
    → n ≤ room p (at buf c)
    → read_here p (at buf c) n ≡ take n (tail p (at buf c))
unfolding read_here
read_here-at p buf n none h = let e : n ≡ 0 = omega arith in rw e refl
read_here-at p buf n (some x) h =
    let r = (p.blk x).data_off + (p.blk x).size - buf.blk_offset in
    let here = slice (p.blk x).payload buf.blk_offset r in
    sym (take-slice (p.blk x).payload buf.blk_offset r n h)
    ∙ sym (
        take_append_of_le n here (content p.blk (after x buf.blk_list))
          (omega (arith, length-slice (p.blk x).payload buf.blk_offset r)))

left_pos_at :
    (p : Pool) (buf : Buf) (c : Option ℕ) → 0 < length (tail p (at buf c)) → 0 < left (at buf c)
left_pos_at p buf none h = absurd (omega arith)
left_pos_at p buf (some x) h = omega arith

pub left_pos : (p : Pool) (buf : Buf) → 0 < length (tail p buf) → 0 < left buf
left_pos p buf h = left_pos_at p buf buf.curr_blk h

pub read_here-take :
    (p : Pool) (buf : Buf) (n : ℕ) → n ≤ room p buf → read_here p buf n ≡ take n (tail p buf)
read_here-take p buf n h = read_here-at p buf n buf.curr_blk h
