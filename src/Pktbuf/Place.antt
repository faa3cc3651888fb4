-- ===== src/Pktbuf/Place.antt =====
-- The place for reads and writes: what lies behind it, and move_forward.
use clean_os.Base.{
  ℕ, suc, ◌+◌, ◌-◌, ◌≤◌, ◌≡◌, ◌≢◌, refl, sym, ap, ◌∙◌, Option, none, some, List, [], ◌∷◌, ◌++◌, leb,
  ◌==◌, length, drop, drop_append_of_le, drop_append_of_ge, NotIn, Distinct, arith, Bool-cases, inl,
  inr,
}
use clean_os.Pktbuf.Store.{Pool, Buf, head, after, blk_next}
use clean_os.Pktbuf.Access.{slice, go_to, move_forward}
use clean_os.Pktbuf.Content.{content, drop-slice, length-slice}

-- A member of the list behind a node is a member of the list.
after-ne : (x y z : ℕ) (xs ys : List ℕ) → NotIn z xs → after x xs ≡ y ∷ ys → z ≢ y
unfolding after
after-ne x y z [] ys out e = cc
after-ne x y z (w ∷ ws) ys (ne, out) e = elim (Bool-cases (w == x)) [
  | inl hit ↦ first_ne ws out (ground arith)
  | inr miss ↦ after-ne x y z ws ys out (ground arith)
]
  where
    first_ne : (vs : List ℕ) → NotIn z vs → vs ≡ y ∷ ys → z ≢ y
    first_ne [] o q = cc
    first_ne (v ∷ vs) (n, o) q = λ r. n (r ∙ ground arith)

-- Behind the next node lies the rest of what lies behind a node.
after-after : (x y : ℕ) (xs ys : List ℕ) → Distinct xs → after x xs ≡ y ∷ ys → after y xs ≡ ys
unfolding after
after-after x y [] ys d e = cc
after-after x y (z ∷ zs) ys (out, d) e = elim (Bool-cases (z == x)) [
  | inl hit ↦ next_first zs out (ground arith)
  | inr miss ↦
      let rest : after x zs ≡ y ∷ ys = ground arith in
      let ne = after-ne x y z zs ys out rest in ground (arith, after-after x y zs ys d rest)
]
  where
    next_first : (vs : List ℕ) → NotIn z vs → vs ≡ y ∷ ys → after y (z ∷ vs) ≡ ys
    next_first [] o q = cc
    next_first (v ∷ vs) (n, o) q = ground arith

-- The bytes from the place on.
abbrev pub tail : Pool → Buf → List ℕ
tail p buf = elim buf.curr_blk [
  | none ↦ []
  | some x ↦
      slice (p.blk x).payload buf.blk_offset ((p.blk x).data_off + (p.blk x).size - buf.blk_offset)
      ++ content p.blk (after x buf.blk_list)
]

-- The blocks from the place on.
abbrev pub left : Buf → ℕ
left buf = elim buf.curr_blk [ none ↦ 0 | some x ↦ suc (length (after x buf.blk_list)) ]

-- The place does not lie behind the data of its block.
abbrev pub InBlock : Pool → Buf → Type 0
InBlock p buf = elim buf.curr_blk [
  | none ↦ Unit
  | some x ↦ buf.blk_offset ≤ (p.blk x).data_off + (p.blk x).size
]

-- The place has moved `n` bytes on: nothing else is changed, and a block that is used up is left.
pub record Moved (p : Pool) (buf : Buf) (n : ℕ) (room : ℕ) (buf' : Buf) : Type 0 where
  pub rest : tail p buf' ≡ drop n (tail p buf)
  pub pos : buf'.pos ≡ buf.pos + n
  pub total : buf'.total_size ≡ buf.total_size
  pub blocks : buf'.blk_list ≡ buf.blk_list
  pub inside : InBlock p buf'
  pub fewer : room ≤ n → left buf' + 1 ≡ left buf

module _ (p : Pool) (buf : Buf) (x : ℕ) where
  abbrev pub end : ℕ
  end = (p.blk x).data_off + (p.blk x).size

  -- At the end of a block the rest is what the blocks behind hold.
  tail_end :
      (n : ℕ)
      → buf.blk_offset ≤ end
      → n ≡ end - buf.blk_offset
      → content p.blk (after x buf.blk_list)
        ≡ drop n (
            slice (p.blk x).payload buf.blk_offset (end - buf.blk_offset)
            ++ content p.blk (after x buf.blk_list))
  tail_end n h e =
      let here = slice (p.blk x).payload buf.blk_offset (end - buf.blk_offset) in
      let l = length-slice (p.blk x).payload buf.blk_offset (end - buf.blk_offset) in
      sym (
        drop_append_of_ge n here (content p.blk (after x buf.blk_list)) (omega (arith, l))
        ∙ ap (λ k. drop k (content p.blk (after x buf.blk_list))) {x = n - length here} {y = 0}
            (omega (arith, l)))

  tail-go_to :
      (xs ys : List ℕ) (n : ℕ)
      → Distinct xs
      → after x xs ≡ ys
      → (tail p (go_to p (record buf { blk_list = xs }) n (head ys)) ≡ content p.blk ys)
        × InBlock p (go_to p (record buf { blk_list = xs }) n (head ys))
        × (left (go_to p (record buf { blk_list = xs }) n (head ys)) ≡ length ys)
  unfolding go_to head
  tail-go_to xs [] n d e = (refl, tt, refl)
  tail-go_to xs (y ∷ ys) n d e =
      let rest = after-after x y xs ys d e in
      let size : (p.blk y).data_off + (p.blk y).size - (p.blk y).data_off ≡ (p.blk y).size =
        omega arith in
      (rw (rest, size) refl, omega arith, rw rest refl)

go_to_fields :
    (p : Pool) (buf : Buf) (n : ℕ) (o : Option ℕ)
    → ((go_to p buf n o).pos ≡ n)
      × ((go_to p buf n o).total_size ≡ buf.total_size)
      × ((go_to p buf n o).blk_list ≡ buf.blk_list)
unfolding go_to
go_to_fields p buf n none = (refl, refl, refl)
go_to_fields p buf n (some y) = (refl, refl, refl)

-- The outcome of a step that must not fault.
abbrev pub Steps : Pool → Buf → ℕ → ℕ → Option Buf → Type 0
Steps p buf n room none = ⊥
Steps p buf n room (some buf') = Moved p buf n room buf'

pub move_forward-some :
    (p : Pool) (buf : Buf) (x n : ℕ)
    → Distinct buf.blk_list
    → buf.blk_offset ≤ end p buf x
    → n ≤ end p buf x - buf.blk_offset
    → Steps p
        (record buf { curr_blk = some x })
        n
        (end p buf x - buf.blk_offset)
        (move_forward p (record buf { curr_blk = some x }) n)
unfolding move_forward blk_next
move_forward-some p buf x n d inside fits =
    let here = slice (p.blk x).payload buf.blk_offset (end p buf x - buf.blk_offset) in
    let l = length-slice (p.blk x).payload buf.blk_offset (end p buf x - buf.blk_offset) in
    let old : Buf = record buf { curr_blk = some x } in
    elim (Bool-cases (leb (end p buf x) (buf.blk_offset + n))) [
      | inl over ↦
          let whole : n ≡ end p buf x - buf.blk_offset = ground arith in
          let (t, b, q) =
            tail-go_to p old x buf.blk_list (after x buf.blk_list) (buf.pos + n) d refl in
          let (a₁, a₂, a₃) = go_to_fields p old (buf.pos + n) (head (after x buf.blk_list)) in
          rw over (record {
            rest = t ∙ tail_end p buf x n inside whole;
            pos = a₁;
            total = a₂;
            blocks = a₃;
            inside = b;
            fewer = λ h. omega (arith, q);
          })
      | inr within ↦
          let e : end p buf x - (buf.blk_offset + n) ≡ end p buf x - buf.blk_offset - n =
            omega arith in
          rw within (record {
            rest =
                rw e (
                  ap (λ s. s ++ content p.blk (after x buf.blk_list))
                    (sym (
                      drop-slice (p.blk x).payload buf.blk_offset (end p buf x - buf.blk_offset) n
                        fits)))
                ∙ sym (
                    drop_append_of_le n here (content p.blk (after x buf.blk_list))
                      (omega (arith, l)));
            pos = refl;
            total = refl;
            blocks = refl;
            inside = ground arith;
            fewer = λ h. ground arith;
          })
    ]
