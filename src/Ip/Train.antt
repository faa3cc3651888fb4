-- ===== src/Ip/Train.antt =====
-- kernel/net/ip.c: the fragments of one packet, and the loops of `frag_insert`, `frag_all_arrived`
-- and `frag_join` on those of them that have come in.
use clean_os.Base.{
  ℕ, zero, suc, ◌+◌, ◌≤◌, ◌<◌, ◌%◌, ◌^◌, ◌≡◌, refl, ap, ◌∙◌, Bool, true, false, not, ◌&&◌, some,
  List, [], ◌∷◌, ◌++◌, append_assoc, append-nil, sym, le→ltb, if◌then◌else◌, Bool-cases, inl, inr,
  arith, length, drop, get_elem?,
}
use clean_os.Ip.Header.{Packet, more_of, ipv4_hdr_size}
use clean_os.Ip.Fragment.{
  get_data_size, get_frag_start, get_frag_end, insert_loop, arrived_loop, join_loop,
}

abbrev pub null {ℓ} : {A : Type ℓ} → List A → Bool
null [] = true
null (x ∷ xs) = false

-- Packets that follow one another from an offset on, none empty, with `more` on all but the last.
abbrev pub Train : ℕ → List Packet → Type 0
Train off [] = Unit
Train off (p ∷ ps) =
    (get_frag_start p ≡ off)
    × (0 < get_data_size p)
    × (get_frag_end p ≡ off + get_data_size p)
    × (off + get_data_size p < 2 ^ 32)
    × (more_of p.hdr.frag_all ≡ not (null ps))
    × Train (off + get_data_size p) ps

-- Those of the packets whose index is marked
abbrev pub selected : (ℕ → Bool) → List Packet → List Packet
selected mark [] = []
selected mark (p ∷ ps) =
    let rest = selected (λ i. mark (suc i)) ps in if mark 0 then p ∷ rest else rest

-- Whether all are marked
abbrev pub all_marked : (ℕ → Bool) → List Packet → Bool
all_marked mark [] = true
all_marked mark (p ∷ ps) = mark 0 && all_marked (λ i. mark (suc i)) ps

-- The mark of one index added
abbrev pub marked : ℕ → (ℕ → Bool) → ℕ → Bool
marked zero mark zero = true
marked zero mark (suc j) = mark (suc j)
marked (suc i) mark zero = mark 0
marked (suc i) mark (suc j) = marked i (λ k. mark (suc k)) j

-- The first packet of the list starts at the offset or behind it.
abbrev StartsAt : ℕ → List Packet → Type 0
StartsAt off [] = Unit
StartsAt off (p ∷ ps) = off ≤ get_frag_start p

StartsAt-mono : (m n : ℕ) (ps : List Packet) → m ≤ n → StartsAt n ps → StartsAt m ps
StartsAt-mono m n [] le h = tt
StartsAt-mono m n (p ∷ ps) le h = omega arith

selected-StartsAt :
    (mark : ℕ → Bool) (off : ℕ) (ps : List Packet) → Train off ps → StartsAt off (selected mark ps)
selected-StartsAt mark off [] t = tt
selected-StartsAt mark off (p ∷ ps) (start, pos, end, low, more, t) = elim (Bool-cases (mark 0)) [
  | inl here ↦ rw here (omega arith)
  | inr gone ↦
      let rest = selected-StartsAt (λ i. mark (suc i)) (off + get_data_size p) ps t in
      rw gone (
        StartsAt-mono off (off + get_data_size p) (selected (λ i. mark (suc i)) ps) (omega arith)
          rest)
]

-- A packet in front of the others
insert-front :
    (p : Packet) (ps : List Packet)
    → get_frag_start p < get_frag_end p
    → StartsAt (get_frag_end p) ps
    → insert_loop p ps ≡ some (p ∷ ps)
unfolding insert_loop
insert-front p [] pos h = refl
insert-front p (q ∷ ps) pos h = ground arith

-- A packet behind the first
insert-behind :
    (p q : Packet) (ps l : List Packet)
    → get_frag_start q < get_frag_start p
    → get_frag_start p < get_frag_end p
    → insert_loop p ps ≡ some l
    → insert_loop p (q ∷ ps) ≡ some (q ∷ l)
unfolding insert_loop
insert-behind p q ps l before pos e = ground arith

-- A member starts behind the offset of the train.
member_start :
    (off i : ℕ) (p : Packet) (ps : List Packet)
    → Train off ps
    → get_elem? ps i ≡ some p
    → (off ≤ get_frag_start p) × (get_frag_start p < get_frag_end p)
member_start off i p [] t e = ground arith
member_start off zero p (q ∷ ps) (start, pos, end, low, more, t) e =
    ground (arith, ap get_frag_start (some_inj e), ap get_frag_end (some_inj e))
  where
    some_inj : some q ≡ some p → q ≡ p
    some_inj h = cc
member_start off (suc i) p (q ∷ ps) (start, pos, end, low, more, t) e =
    let (le, lt) = member_start (off + get_data_size q) i p ps t e in (omega arith, lt)

-- A member that has not come in is put in its place among those that have.
pub insert_loop-selected :
    (mark : ℕ → Bool) (off i : ℕ) (p : Packet) (ps : List Packet)
    → Train off ps
    → get_elem? ps i ≡ some p
    → mark i ≡ false
    → insert_loop p (selected mark ps) ≡ some (selected (marked i mark) ps)
insert_loop-selected mark off i p [] t e out = ground arith
insert_loop-selected mark off zero p (q ∷ ps) (start, pos, end, low, more, t) e out =
    let same : q ≡ p = some_inj e in
    let others : StartsAt (off + get_data_size q) (selected (λ i. mark (suc i)) ps) =
      selected-StartsAt (λ i. mark (suc i)) (off + get_data_size q) ps t in
    rw (out, ← same)
      (insert-front q (selected (λ i. mark (suc i)) ps) (omega arith) (rw end others))
  where
    some_inj : some q ≡ some p → q ≡ p
    some_inj h = cc
insert_loop-selected mark off (suc i) p (q ∷ ps) (start, pos, end, low, more, t) e out =
    let ih = insert_loop-selected (λ i. mark (suc i)) (off + get_data_size q) i p ps t e out in
    let (le, lt) = member_start (off + get_data_size q) i p ps t e in
    elim (Bool-cases (mark 0)) [
      | inl here ↦ rw here (
          insert-behind p q (selected (λ i. mark (suc i)) ps)
            (selected (λ j. marked (suc i) mark (suc j)) ps) (omega arith) lt ih)
      | inr gone ↦ rw gone ih
    ]

-- Packets that start behind the offset that is waited for have not all arrived.
arrived-late :
    (off : ℕ) (ps : List Packet) → StartsAt (off + 1) ps → arrived_loop ps off true ≡ false
unfolding arrived_loop
arrived-late off [] h = refl
arrived-late off (p ∷ ps) h = ground arith

-- The test finds out whether all members have come in.
pub arrived_loop-selected :
    (mark : ℕ → Bool) (off : ℕ) (more : Bool) (ps : List Packet)
    → Train off ps
    → more ≡ not (null ps)
    → arrived_loop (selected mark ps) off more ≡ all_marked mark ps
unfolding arrived_loop
arrived_loop-selected mark off more [] t e = rw e
arrived_loop-selected mark off more (p ∷ ps) (start, pos, end, low, more', t) e =
    let ih =
      arrived_loop-selected (λ i. mark (suc i)) (off + get_data_size p) (more_of p.hdr.frag_all) ps
        t more' in
    let others = selected-StartsAt (λ i. mark (suc i)) (off + get_data_size p) ps t in
    let late = arrived-late off (selected (λ i. mark (suc i)) ps) (
      StartsAt-mono (off + 1) (off + get_data_size p) (selected (λ i. mark (suc i)) ps)
        (omega arith) others) in
    let sum : (off + get_data_size p) % 2 ^ 32 ≡ off + get_data_size p = omega arith in
    elim (Bool-cases (mark 0)) [
      | inl here ↦ rw (here, sum) (ground (arith, ih))
      | inr gone ↦ rw (gone, e) late
    ]

-- The bytes behind the headers of the packets
abbrev pub contents : List Packet → List ℕ
contents [] = []
contents (p ∷ ps) = drop (ipv4_hdr_size p.hdr) p.bytes ++ contents ps

-- Every packet is as long as its header at least.
abbrev pub Whole : List Packet → Type 0
Whole [] = Unit
Whole (p ∷ ps) = (ipv4_hdr_size p.hdr ≤ length p.bytes) × Whole ps

pub join_loop-contents :
    (ps : List Packet) (target : List ℕ)
    → Whole ps
    → join_loop ps target ≡ some (target ++ contents ps)
unfolding join_loop
join_loop-contents [] target w = ap some (sym (append-nil target))
join_loop-contents (p ∷ ps) target (long, w) =
    rw (le→ltb (length p.bytes) (ipv4_hdr_size p.hdr) long) (
      join_loop-contents ps (target ++ drop (ipv4_hdr_size p.hdr) p.bytes) w
      ∙ ap some (append_assoc target (drop (ipv4_hdr_size p.hdr) p.bytes) (contents ps)))
