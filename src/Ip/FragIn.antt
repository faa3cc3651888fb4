-- ===== src/Ip/FragIn.antt =====
-- kernel/net/ip.c: `ipv4_frag_in` and the entry that it puts a fragment into.
use clean_os.Base.{
  ℕ, ◌<◌, ◌≡◌, refl, Bool, Option, none, ◌⊎◌, some, List, [], ◌∷◌, if◌then◌else◌, inl, inr, arith,
  length,
}
use clean_os.Pktbuf.Store.{NetErr}
use clean_os.Ip.Header.{Packet}
use clean_os.Ip.Fragment.{Frag, Frags, Upper, find_ip, frag_find, frag_alloc, frag_add, frag_insert}
use clean_os.Ip.Input.{finish_if_arrived, ipv4_frag_in}
use clean_os.Ip.Inv.{
  IsFrags, HasFirst, Looked, missing, found, frag_find-Looked, Starved, Had, had, starves,
  frag_alloc-Had,
}
use clean_os.Ip.Safe.{Ends, HeaderFits, frag_insert-Kept, finish_if_arrived-Ends}

-- A fragment of a sender that has no entry, while all ten blocks are in use
abbrev pub Strands : ℕ → Frags → Type 0
Strands src s = (find_ip src s.frag_list ≡ none) × Starved s

-- A call returns, or it writes through the null pointer of `frag_alloc`.
abbrev pub EndsOr : Type 0 → Option (NetErr × Frags) → Type 0
EndsOr stops o = Ends o ⊎ (stops × (o ≡ none))

-- The part of `ipv4_frag_in` behind the entry
insert_and_finish : Upper → ℕ → ℕ → ℕ → Packet → Frags → List Frag → Option (NetErr × Frags)
insert_and_finish upper own src dest pkt v [] = none
insert_and_finish upper own src dest pkt v (f ∷ fs) =
    finish_if_arrived upper own src dest (frag_insert f fs pkt v)

insert_and_finish-Ends :
    (upper : Upper) (own src dest : ℕ) (pkt : Packet) (v : Frags) (l : List Frag)
    → IsFrags v
    → v.frag_list ≡ l
    → 0 < length l
    → HeaderFits pkt
    → Ends (insert_and_finish upper own src dest pkt v l)
unfolding insert_and_finish
insert_and_finish-Ends upper own src dest pkt v [] i e pos h = absurd (omega arith)
insert_and_finish-Ends upper own src dest pkt v (f ∷ fs) i e pos h =
    finish_if_arrived-Ends upper own src dest (frag_insert f fs pkt v)
      (frag_insert-Kept f fs pkt v i e h)

pub ipv4_frag_in-Ends :
    (upper : Upper) (own src dest : ℕ) (pkt : Packet) (s : Frags)
    → IsFrags s
    → HeaderFits pkt
    → EndsOr (Strands src s) (ipv4_frag_in upper own src dest pkt s)
unfolding ipv4_frag_in insert_and_finish
ipv4_frag_in-Ends upper own src dest pkt s v h =
    split (frag_find src pkt.hdr.id s) (frag_find-Looked src pkt.hdr.id s v)
  where
    finish :
        (t : Frags)
        → IsFrags t
        → HasFirst t
        → Ends (elim t.frag_list [
          | [] ↦ none
          | f ∷ fs ↦ finish_if_arrived upper own src dest (frag_insert f fs pkt t)
        ])
    finish t i first = insert_and_finish-Ends upper own src dest pkt t t.frag_list i refl first h

    split :
        (r : Bool × Frags)
        → Looked src s r
        → EndsOr
            (Strands src s)
            (elim (let u : Option Frags =
                if r.0
                then some r.1
                else let q = frag_alloc r.1 in
                  if q.0 then some (frag_add src pkt.hdr.id q.1) else none in
              u) [
                | none ↦ none
                | some v ↦ elim v.frag_list [
                  | [] ↦ none
                  | f ∷ fs ↦ finish_if_arrived upper own src dest (frag_insert f fs pkt v)
                ]
              ])
    split _ (found t i first) = inl (finish t i first)
    split _ (missing absent) = ask (frag_alloc s) (frag_alloc-Had src pkt.hdr.id s v)
      where
        ask :
            (q : Bool × Frags)
            → Had src pkt.hdr.id s q
            → EndsOr
                (Strands src s)
                (elim (let u : Option Frags =
                    if q.0 then some (frag_add src pkt.hdr.id q.1) else none in
                  u) [
                    | none ↦ none
                    | some v ↦ elim v.frag_list [
                      | [] ↦ none
                      | f ∷ fs ↦ finish_if_arrived upper own src dest (frag_insert f fs pkt v)
                    ]
                  ])
        ask _ (had u i first) = inl (finish (frag_add src pkt.hdr.id u) i first)
        ask _ (starves h u) = inr ((absent, h), refl)
