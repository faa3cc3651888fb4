-- ===== src/Ip/Inv.antt =====
-- kernel/net/ip.c: the entries for fragments and the free ones, as packets come in.
use clean_os.Base.{
  ℕ, suc, ◌+◌, ◌≤◌, ◌≡◌, ◌<◌, inl, inr, refl, sym, subst, Bool, true, false, Option, none, some,
  List, [], ◌∷◌, ◌==◌, ◌-◌, Bool-cases, ==_iff, arith, length, All,
}
use clean_os.Ip.Fragment.{
  Frag, Frags, find_ip, frag_find, last_frag, frag_alloc, frag_add, frag_free_buf_list,
}
use clean_os.Ip.Train.{Whole}

-- At most ten packets, each as long as its header at least
abbrev pub Small : Frag → Type 0
Small f = (length f.buf_list ≤ 10) × Whole f.buf_list

-- All ten entries are in use or free, and each of those in use is as it should be.
pub record IsFrags (s : Frags) : Type 0 where
  pub blocks : s.spare + length s.frag_list ≡ 10
  pub few : All Small s.frag_list

-- The first entry is the one that was asked for, and there is one.
abbrev pub HasFirst : Frags → Type 0
HasFirst s = 0 < length s.frag_list

-- An entry taken out of a list
data Out (fs : List Frag) : Option (Frag × List Frag) → Type 0 where
  lacks : Out fs none
  out :
      (g : Frag) (gs : List Frag)
      → length fs ≡ suc (length gs)
      → (All Small fs → Small g × All Small gs)
      → Out fs (some (g, gs))

find_ip-Out : (ip : ℕ) (fs : List Frag) → Out fs (find_ip ip fs)
unfolding find_ip
find_ip-Out ip [] = lacks
find_ip-Out ip (f ∷ fs) = elim (Bool-cases (ip == f.ip)) [
  | inl here ↦ rw here (out f fs refl (λ a. a))
  | inr other ↦ rw other (behind (find_ip ip fs) (find_ip-Out ip fs))
]
  where
    behind :
        (o : Option (Frag × List Frag))
        → Out fs o
        → Out (f ∷ fs) (elim o [ none ↦ none | some (g, gs) ↦ some (g, f ∷ gs) ])
    behind none lacks = lacks
    behind (some _) (out g gs e a) =
        out g (f ∷ gs) (omega (arith, e)) (λ (x, xs). let (y, ys) = a xs in (y, (x, ys)))

-- The last entry, which there is in a list that is not empty
data Last (fs : List Frag) : Option (Frag × List Frag) → Type 0 where
  empty : length fs ≡ 0 → Last fs none
  final : (g : Frag) (gs : List Frag) → Out fs (some (g, gs)) → Last fs (some (g, gs))

last_frag-Last : (fs : List Frag) → Last fs (last_frag fs)
unfolding last_frag
last_frag-Last [] = empty refl
last_frag-Last (f ∷ fs) = behind (last_frag fs) (last_frag-Last fs)
  where
    behind :
        (o : Option (Frag × List Frag))
        → Last fs o
        → Last (f ∷ fs) (elim o [ none ↦ some (f, []) | some (g, gs) ↦ some (g, f ∷ gs) ])
    behind none (empty e) = final f [] (out f [] (omega (arith, e)) (λ (x, xs). (x, tt)))
    behind (some _) (final g gs (out _ _ e a)) =
        final g (f ∷ gs)
          (out g (f ∷ gs) (omega (arith, e)) (λ (x, xs). let (y, ys) = a xs in (y, (x, ys))))

-- An entry that was found is the first.
pub data Looked (ip : ℕ) (s : Frags) : Bool × Frags → Type 0 where
  missing : find_ip ip s.frag_list ≡ none → Looked ip s (false, s)
  found : (t : Frags) → IsFrags t → HasFirst t → Looked ip s (true, t)

pub frag_find-Looked : (ip id : ℕ) (s : Frags) → IsFrags s → Looked ip s (frag_find ip id s)
unfolding frag_find
frag_find-Looked ip id s v = split (find_ip ip s.frag_list) (find_ip-Out ip s.frag_list) refl
  where
    split :
        (o : Option (Frag × List Frag))
        → Out s.frag_list o
        → find_ip ip s.frag_list ≡ o
        → Looked ip s
            (elim o [ none ↦ (false, s) | some (f, fs) ↦ (true, record s { frag_list = f ∷ fs }) ])
    split none lacks is = missing is
    split (some _) (out f fs e a) is =
        found (record s { frag_list = f ∷ fs })
          (record { blocks = omega (arith, v.blocks, e); few = a v.few }) (omega arith)

-- All ten blocks are in use: the caller of `frag_alloc` gets none, and one of the ten is lost.
pub record Starved (s : Frags) : Type 0 where
  pub no_block : s.spare ≡ 0
  pub refuses : (frag_alloc s).0 ≡ false
  pub lost : (frag_alloc s).1.spare + length (frag_alloc s).1.frag_list ≡ 9

-- An entry had from `frag_alloc` is the first once it is added.
pub data Had (ip id : ℕ) (s : Frags) : Bool × Frags → Type 0 where
  had :
      (u : Frags) → IsFrags (frag_add ip id u) → HasFirst (frag_add ip id u) → Had ip id s (true, u)
  starves : Starved s → (u : Frags) → Had ip id s (false, u)

abbrev Lost : Bool × Frags → Type 0
Lost r = (r.0 ≡ false) × (r.1.spare + length r.1.frag_list ≡ 9)

frag_alloc-Lost : (s : Frags) → IsFrags s → s.spare ≡ 0 → Lost (frag_alloc s)
unfolding frag_alloc
frag_alloc-Lost s v full =
    rw ((==_iff s.spare 0).1 full) (split (last_frag s.frag_list) (last_frag-Last s.frag_list))
  where
    split :
        (o : Option (Frag × List Frag))
        → Last s.frag_list o
        → Lost (elim o [
          | none ↦ (false, s)
          | some (f, fs) ↦
              (false, record s { frag_list = fs; freed = frag_free_buf_list f.buf_list s.freed })
        ])
    split none (empty e) = absurd (omega (arith, v.blocks, e))
    split (some _) (final f fs (out _ _ e a)) = (refl, omega (arith, v.blocks, e))

frag_alloc-Starved : (s : Frags) → IsFrags s → s.spare ≡ 0 → Starved s
frag_alloc-Starved s v full =
    let (refuses, lost) = frag_alloc-Lost s v full in
    record { no_block = full; refuses = refuses; lost = lost }

frag_alloc-given :
    (ip id : ℕ) (s : Frags) → IsFrags s → (s.spare == 0) ≡ false → Had ip id s (frag_alloc s)
unfolding frag_alloc frag_add
frag_alloc-given ip id s v more = rw more (
    had (record s { spare = s.spare - 1 })
      (record { blocks = ground (arith, v.blocks, more); few = ((omega arith, tt), v.few) })
      (omega arith))

pub frag_alloc-Had : (ip id : ℕ) (s : Frags) → IsFrags s → Had ip id s (frag_alloc s)
frag_alloc-Had ip id s v = elim (Bool-cases (s.spare == 0)) [
  | inl full ↦
      let starved = frag_alloc-Starved s v ((==_iff _ _).0 full) in
      refused starved (frag_alloc s) starved.refuses
  | inr more ↦ frag_alloc-given ip id s v more
]
  where
    refused : Starved s → (r : Bool × Frags) → r.0 ≡ false → Had ip id s r
    refused h (given, u) e = subst (λ b. Had ip id s (b, u)) (sym e) (starves h u)
