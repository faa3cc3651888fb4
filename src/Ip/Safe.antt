-- ===== src/Ip/Safe.antt =====
-- kernel/net/ip.c: `ipv4_in` on packets that come in one after another.
use clean_os.Base.{
  ℕ, suc, ◌+◌, ◌≤◌, ◌<◌, ◌≡◌, refl, ap, subst, false, Option, none, some, List, [], ◌∷◌, ◌++◌, leb,
  ◌==◌, if◌then◌else◌, Bool-cases, inl, inr, arith, length, All,
}
use clean_os.Pktbuf.Store.{NetErr, err_ok, err_exist}
use clean_os.Arp.{fails}
use clean_os.Ip.Header.{Packet, ipv4_hdr_size}
use clean_os.Ip.Fragment.{
  Frag, Frags, Upper, frag_free, get_frag_start, get_frag_end, insert_loop, frag_insert,
  frag_all_arrived, frag_join, ipv4_normal_in,
}
use clean_os.Ip.Input.{pass_on, finish_if_arrived}
use clean_os.Ip.Train.{Whole, contents, join_loop-contents}
use clean_os.Ip.Inv.{IsFrags, Small, HasFirst}

abbrev pub HeaderFits : Packet → Type 0
HeaderFits pkt = ipv4_hdr_size pkt.hdr ≤ length pkt.bytes

-- The loop of `frag_insert` by its outcomes
data Put (ps : List Packet) : Option (List Packet) → Type 0 where
  twice : Put ps none
  put : (l : List Packet) → length l ≡ suc (length ps) → (Whole ps → Whole l) → Put ps (some l)

insert_loop-Put : (pkt : Packet) (ps : List Packet) → HeaderFits pkt → Put ps (insert_loop pkt ps)
unfolding insert_loop
insert_loop-Put pkt [] h = put (pkt ∷ []) refl (λ w. (h, w))
insert_loop-Put pkt (p ∷ ps) h = elim (Bool-cases (get_frag_start pkt == get_frag_start p)) [
  | inl same ↦ rw same twice
  | inr other ↦ elim (Bool-cases (leb (get_frag_end pkt) (get_frag_start p))) [
    | inl before ↦ rw (other, before) (put (pkt ∷ p ∷ ps) refl (λ w. (h, w)))
    | inr behind ↦ rw (other, behind) (rest (insert_loop pkt ps) (insert_loop-Put pkt ps h))
  ]
]
  where
    rest :
        (o : Option (List Packet))
        → Put ps o
        → Put (p ∷ ps) (elim o [ none ↦ none | some l ↦ some (p ∷ l) ])
    rest none twice = twice
    rest (some _) (put l e w) = put (p ∷ l) (ap suc e) (λ (x, xs). (x, w xs))

-- What a call leaves: a first entry too, where it has no error
abbrev pub Kept : NetErr × Frags → Type 0
Kept (err, t) = IsFrags t × (fails err ≡ false → HasFirst t)

-- The two fields of the invariant, where the list is known
holds_at :
    (s : Frags) (l : List Frag)
    → s.frag_list ≡ l
    → IsFrags s
    → (s.spare + length l ≡ 10) × All Small l
holds_at s l e v = subst (λ k. (s.spare + length k ≡ 10) × All Small k) e (v.blocks, v.few)

pub frag_insert-Kept :
    (f : Frag) (fs : List Frag) (pkt : Packet) (s : Frags)
    → IsFrags s
    → s.frag_list ≡ f ∷ fs
    → HeaderFits pkt
    → Kept (frag_insert f fs pkt s)
unfolding frag_insert frag_free
frag_insert-Kept f fs pkt s v e h = elim (Bool-cases (leb 10 (length f.buf_list))) [
  | inl full ↦
      let (blocks, (small, few)) = holds_at s (f ∷ fs) e v in
      rw full (record { blocks = omega (arith, blocks); few = few }, λ ok. cc)
  | inr room ↦ rw room (split (insert_loop pkt f.buf_list) (insert_loop-Put pkt f.buf_list h) room)
]
  where
    split :
        (o : Option (List Packet))
        → Put f.buf_list o
        → leb 10 (length f.buf_list) ≡ false
        → Kept (elim o [
          | none ↦ (err_exist, s)
          | some l ↦ (err_ok, record s { frag_list = record f { buf_list = l } ∷ fs })
        ])
    split none twice room = (v, λ ok. cc)
    split (some _) (put l n w) room =
        let (blocks, (small, few)) = holds_at s (f ∷ fs) e v in
        (
          record {
            blocks = omega (arith, blocks);
            few = ((ground (arith, n, room), w small.1), few);
          },
          λ ok. omega arith,
        )

-- A call that ends, and keeps the entries as they should be
abbrev pub Ends : Option (NetErr × Frags) → Type 0
Ends r = (err : NetErr) × (t : Frags) × (r ≡ some (err, t)) × IsFrags t

frag_join-returns :
    (f : Frag) (fs : List Frag) (s : Frags)
    → Whole f.buf_list
    → (o : Option Packet) × (g : Frag) × (frag_join f fs s ≡ some (o, frag_free g fs s))
frag_join-returns f fs s w = by f.buf_list w
  where
    by :
        (l : List Packet)
        → Whole l
        → (o : Option Packet) × (g : Frag) × (frag_join (record f { buf_list = l }) fs s
            ≡ some (o, frag_free g fs s))
    by [] w = (none, record f { buf_list = [] }, unfold frag_join in refl)
    by (p ∷ ps) (h, w) = (
      some (record p { bytes = p.bytes ++ contents ps }),
      record f { buf_list = [] },
      unfold frag_join in rw (join_loop-contents ps p.bytes w, frag_join) refl,
    )

pass_on-IsFrags :
    (upper : Upper) (own src dest : ℕ) (o : Option Packet) (t : Frags)
    → IsFrags t
    → IsFrags (pass_on upper own src dest (o, t)).1
unfolding pass_on
pass_on-IsFrags upper own src dest none t v = v
pass_on-IsFrags upper own src dest (some all) t v =
    elim (Bool-cases (fails (ipv4_normal_in upper own src dest all))) [
      | inl bad ↦ rw bad (record { blocks = v.blocks; few = v.few })
      | inr good ↦ rw good v
    ]

pub finish_if_arrived-Ends :
    (upper : Upper) (own src dest : ℕ) (r : NetErr × Frags)
    → Kept r
    → Ends (finish_if_arrived upper own src dest r)
unfolding finish_if_arrived
finish_if_arrived-Ends upper own src dest (err, s) (v, first) = elim (Bool-cases (fails err)) [
  | inl bad ↦ rw bad (err, s, refl, v)
  | inr good ↦ rw good (by s.frag_list refl (first good))
]
  where
    joining :
        (f : Frag) (fs : List Frag)
        → s.frag_list ≡ f ∷ fs
        → Ends
            (elim (frag_join f fs s) [ none ↦ none | some r ↦ some (pass_on upper own src dest r) ])
    joining f fs e =
        let (blocks, (small, few)) = holds_at s (f ∷ fs) e v in
        let (o, g, run) = frag_join-returns f fs s small.1 in
        let left : IsFrags (frag_free g fs s) =
          unfold frag_free in record { blocks = omega (arith, blocks); few = few } in
        rw run (
          (pass_on upper own src dest (o, frag_free g fs s)).0,
          (pass_on upper own src dest (o, frag_free g fs s)).1,
          refl,
          pass_on-IsFrags upper own src dest o (frag_free g fs s) left,
        )

    by :
        (l : List Frag)
        → s.frag_list ≡ l
        → 0 < length l
        → Ends (elim l [
          | [] ↦ none
          | f ∷ fs ↦
              if frag_all_arrived f
              then elim (frag_join f fs s) [
                | none ↦ none
                | some r ↦ some (pass_on upper own src dest r)
              ]
              else some (err_ok, s)
        ])
    by [] e pos = absurd (omega arith)
    by (f ∷ fs) e pos = elim (Bool-cases (frag_all_arrived f)) [
      | inl all ↦ rw all (joining f fs e)
      | inr wait ↦ rw wait (err_ok, s, refl, v)
    ]
