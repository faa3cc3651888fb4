-- ===== src/Ip/Order.antt =====
-- kernel/net/ip.c: the fragments of a packet put together, in whatever order they come in.
use clean_os.Base.{
  ℕ, zero, suc, ◌+◌, ◌≤◌, ◌<◌, ◌≡◌, ◌≢◌, refl, ap, subst, ==_iff, ◌∙◌, Bool, true, false, not,
  Option, none, some, List, [], ◌∷◌, ◌++◌, leb, ◌==◌, if◌then◌else◌, Bool-cases, inl, inr, arith,
  length, get_elem?, All, NotIn, Distinct,
}
use clean_os.Pktbuf.Store.{NetErr, err_ok}
use clean_os.Ip.Header.{Packet}
use clean_os.Ip.Fragment.{Frag, Frags, frag_insert, frag_all_arrived, frag_join, frag_free}
use clean_os.Ip.Train.{
  Train, Whole, contents, null, selected, all_marked, marked, insert_loop-selected,
  arrived_loop-selected, join_loop-contents,
}

-- The first entry, where the call has no error
abbrev first_of : NetErr × Frags → Option Frag
first_of (err_ok, s) = elim s.frag_list [ [] ↦ none | f ∷ fs ↦ some f ]
first_of _ = none

-- The entry behind `frag_insert` of the packets with these indices, one by one, none with an error
unfoldable pub deliver : List Packet → List Frag → Frags → Frag → List ℕ → Option Frag
deliver ps fs s f [] = some f
deliver ps fs s f (i ∷ order) = elim (get_elem? ps i) [
  | none ↦ none
  | some p ↦ elim (first_of (frag_insert f fs p s)) [
    | none ↦ none
    | some g ↦ deliver ps fs s g order
  ]
]

-- What `frag_join` gives
abbrev pub joined : List Packet → Option Packet
joined [] = none
joined (p ∷ ps) = some (record p { bytes = p.bytes ++ contents ps })

-- The marks of several indices added
abbrev all_of : List ℕ → (ℕ → Bool) → ℕ → Bool
all_of [] mark = mark
all_of (i ∷ order) mark = all_of order (marked i mark)

marked_ne : (i j : ℕ) (mark : ℕ → Bool) → i ≢ j → mark j ≡ false → marked i mark j ≡ false
marked_ne zero zero mark ne h = absurd (ne refl)
marked_ne zero (suc j) mark ne h = h
marked_ne (suc i) zero mark ne h = h
marked_ne (suc i) (suc j) mark ne h = marked_ne i j (λ k. mark (suc k)) (λ e. ne (omega arith)) h

length-selected :
    (mark : ℕ → Bool) (i : ℕ) (ps : List Packet)
    → i < length ps
    → mark i ≡ false
    → length (selected (marked i mark) ps) ≡ suc (length (selected mark ps))
length-selected mark i [] h out = absurd (omega arith)
length-selected mark zero (p ∷ ps) h out = rw out refl
length-selected mark (suc i) (p ∷ ps) h out =
    ground (arith, length-selected (λ k. mark (suc k)) i ps (omega arith) out)

selected_le : (mark : ℕ → Bool) (ps : List Packet) → length (selected mark ps) ≤ length ps
selected_le mark [] = omega arith
selected_le mark (p ∷ ps) = ground (arith, selected_le (λ k. mark (suc k)) ps)

none_selected : (ps : List Packet) → selected (λ i. false) ps ≡ []
none_selected [] = refl
none_selected (p ∷ ps) = none_selected ps

all_marked-length :
    (mark : ℕ → Bool) (ps : List Packet)
    → all_marked mark ps ≡ (length (selected mark ps) == length ps)
all_marked-length mark [] = refl
all_marked-length mark (p ∷ ps) =
    ground (arith, all_marked-length (λ k. mark (suc k)) ps, selected_le (λ k. mark (suc k)) ps)

all_selected :
    (mark : ℕ → Bool) (ps : List Packet)
    → length (selected mark ps) ≡ length ps
    → selected mark ps ≡ ps
all_selected mark [] h = refl
all_selected mark (p ∷ ps) h =
    ground (arith, all_selected (λ k. mark (suc k)) ps, selected_le (λ k. mark (suc k)) ps)

get_elem?-some {ℓ} :
    {A : Type ℓ} (xs : List A) (i : ℕ) → i < length xs → (x : A) × (get_elem? xs i ≡ some x)
get_elem?-some [] i h = absurd (omega arith)
get_elem?-some (x ∷ xs) zero h = (x, refl)
get_elem?-some (x ∷ xs) (suc i) h = get_elem?-some xs i (omega arith)

module _ (ps : List Packet) (fs : List Frag) (s : Frags) (f : Frag) (t : Train 0 ps)
    (few : length ps ≤ 10) where
  abbrev holding : (ℕ → Bool) → Frag
  holding mark = record f { buf_list = selected mark ps }

  -- One packet that comes in
  insert_one :
      (mark : ℕ → Bool) (i : ℕ) (p : Packet)
      → i < length ps
      → mark i ≡ false
      → get_elem? ps i ≡ some p
      → first_of (frag_insert (holding mark) fs p s) ≡ some (holding (marked i mark))
  unfolding frag_insert
  insert_one mark i p h out e =
      let short : leb 10 (length (selected mark ps)) ≡ false =
        ground (arith, length-selected mark i ps h out, selected_le (marked i mark) ps) in
      rw (short, insert_loop-selected mark 0 i p ps t e out) refl

  deliver-holding :
      (order : List ℕ) (mark : ℕ → Bool)
      → All (λ i. i < length ps) order
      → All (λ i. mark i ≡ false) order
      → Distinct order
      → (deliver ps fs s (holding mark) order ≡ some (holding (all_of order mark)))
        × (length (selected (all_of order mark) ps) ≡ length (selected mark ps) + length order)
  unfolding deliver
  deliver-holding [] mark range out d = (refl, omega arith)
  deliver-holding (i ∷ order) mark (h, range) (out, outs) (apart, d) =
      let (p, e) = get_elem?-some ps i h in
      let (run, count) = deliver-holding order (marked i mark) range (kept order apart outs) d in
      (
        rw (e, deliver, insert_one mark i p h out e, deliver) run,
        omega (arith, count, length-selected mark i ps h out),
      )
    where
      kept :
          (is : List ℕ)
          → NotIn i is
          → All (λ j. mark j ≡ false) is
          → All (λ j. marked i mark j ≡ false) is
      kept [] a o = tt
      kept (j ∷ is) (ne, a) (o, os) = (marked_ne i j mark ne o, kept is a os)

  module _ (whole : Whole ps) where
    -- A list without the packets that are missing
    join-holding :
        (mark : ℕ → Bool)
        → length (selected mark ps) ≡ length ps
        → 0 < length ps
        → frag_join (holding mark) fs s
          ≡ some (joined ps, frag_free (record f { buf_list = [] }) fs s)
    unfolding frag_join
    join-holding mark all pos = rw (all_selected mark ps all) (by ps whole pos)
      where
        by :
            (qs : List Packet)
            → Whole qs
            → 0 < length qs
            → frag_join (record f { buf_list = qs }) fs s
              ≡ some (joined qs, frag_free (record f { buf_list = [] }) fs s)
        by [] w pos = absurd (omega arith)
        by (q ∷ qs) (long, w) pos = rw (join_loop-contents qs q.bytes w, frag_join) refl

-- A packet is cut into at most ten fragments, none empty, and some of them come in, each once and in
-- any order, at an entry that is empty. Then `frag_insert` takes each without an error.
-- `frag_all_arrived` says that the packet is there exactly if all fragments have come in, and
-- `frag_join` then gives the first fragment with the data of the others behind it in the order of
-- their offsets, and frees the entry.
pub frag_join-deliver :
    (ps : List Packet) (fs : List Frag) (s : Frags) (f : Frag) (order : List ℕ)
    → Train 0 ps
    → Whole ps
    → 0 < length ps
    → length ps ≤ 10
    → All (λ i. i < length ps) order
    → Distinct order
    → (g : Frag) × (deliver ps fs s (record f { buf_list = [] }) order ≡ some g)
      × ((if frag_all_arrived g then frag_join g fs s else none) ≡ (
          if length order == length ps
          then some (joined ps, frag_free (record f { buf_list = [] }) fs s)
          else none))
unfolding frag_all_arrived
frag_join-deliver ps fs s f order t whole pos few range d =
    let mark : ℕ → Bool = all_of order (λ i. false) in
    let (run, count) = deliver-holding ps fs s f t few order (λ i. false) range (clear order) d in
    let start : holding ps fs s f t few (λ i. false) ≡ record f { buf_list = [] } =
      ap (λ l. record f { buf_list = l }) (none_selected ps) in
    let size : length (selected mark ps) ≡ length order =
      omega (arith, count, ap length (none_selected ps)) in
    let test : frag_all_arrived (holding ps fs s f t few mark) ≡ (length order == length ps) =
      arrived_loop-selected mark 0 true ps t (more ps pos)
      ∙ all_marked-length mark ps
      ∙ ap (λ n. n == length ps) size in
    (
      holding ps fs s f t few mark,
      subst (λ e. deliver ps fs s e order ≡ some (holding ps fs s f t few mark)) start run,
      elim (Bool-cases (length order == length ps)) [
        | inl all ↦
            rw (test, all)
              (join-holding ps fs s f t few whole mark (omega (arith, size, (==_iff _ _).0 all))
                pos)
        | inr less ↦ rw (test, less) refl
      ],
    )
  where
    clear : (is : List ℕ) → All (λ j. ◌≡◌ {A = Bool} false false) is
    clear [] = tt
    clear (j ∷ is) = (refl, clear is)

    more : (qs : List Packet) → 0 < length qs → true ≡ not (null qs)
    more [] h = absurd (omega arith)
    more (q ∷ qs) h = refl
