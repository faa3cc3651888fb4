-- ===== src/Ip/Served.antt =====
-- kernel/net/ip.c: `ipv4_in` where the fragments come from few hosts.
use clean_os.Base.{
  ◌-◌, ℕ, ◌≤◌, ◌<◌, ◌≡◌, refl, Bool, true, false, not, ◌||◌, Option, none, some, List, [], ◌∷◌,
  ◌==◌, if◌then◌else◌, Bool-cases, inl, inr, arith, length, subst, All,
}
use clean_os.Base.Count.{count}
use clean_os.Pktbuf.Store.{NetErr}
use clean_os.Ip.Address.{ipaddr_is_match}
use clean_os.Ip.Header.{Packet, offset_of, more_of}
use clean_os.Ip.Fragment.{
  Frag, Frags, Upper, init_frags, find_ip, frag_find, frag_alloc, frag_add, frag_insert, last_frag,
  frag_free_buf_list,
}
use clean_os.Ip.Input.{Taken, refused, got, take_in, finish_if_arrived, ipv4_frag_in, ipv4_in}
use clean_os.Ip.Inv.{IsFrags}
use clean_os.Ip.Senders.{
  senders, length-senders, AtMost, length-AtMost, Within, KeepsWithin, Moved, lacks, out,
  find_ip-Moved, absent-senders, frag_insert-Within, finish_if_arrived-Within,
}
use clean_os.Ip.Arrivals.{Sound, Stops, ipv4_in-Ends, ipv4_in_all}

-- The part of `ipv4_frag_in` behind the entry
insert_to : Upper → ℕ → ℕ → ℕ → Packet → Option Frags → Option (NetErr × Frags)
insert_to upper own src dest pkt none = none
insert_to upper own src dest pkt (some v) = elim v.frag_list [
  | [] ↦ none
  | f ∷ fs ↦ finish_if_arrived upper own src dest (frag_insert f fs pkt v)
]

insert_to-Within :
    (hosts : List ℕ) (upper : Upper) (own src dest : ℕ) (pkt : Packet) (v : Frags)
    → Within hosts v
    → KeepsWithin hosts (insert_to upper own src dest pkt (some v))
unfolding insert_to
insert_to-Within hosts upper own src dest pkt v h = by v.frag_list refl
  where
    by :
        (l : List Frag)
        → v.frag_list ≡ l
        → KeepsWithin hosts (elim l [
          | [] ↦ none
          | f ∷ fs ↦ finish_if_arrived upper own src dest (frag_insert f fs pkt v)
        ])
    by [] e = tt
    by (f ∷ fs) e =
        finish_if_arrived-Within hosts upper own src dest (frag_insert f fs pkt v)
          (frag_insert-Within hosts f fs pkt v e h)

-- An entry is added for a host of the list that had none.
added : ℕ → ℕ → Bool × Frags → Option Frags
added src id q = if q.0 then some (frag_add src id q.1) else none

added-Within :
    (hosts : List ℕ) (upper : Upper) (own src dest : ℕ) (pkt : Packet) (s : Frags)
    → Within hosts s
    → 0 < count src hosts
    → count src (senders s.frag_list) ≡ 0
    → KeepsWithin hosts (insert_to upper own src dest pkt (added src pkt.hdr.id (frag_alloc s)))
unfolding added frag_alloc insert_to frag_add
added-Within hosts upper own src dest pkt s h known absent = elim (Bool-cases (s.spare == 0)) [
  | inl full ↦ rw full (lost (last_frag s.frag_list))
  | inr more ↦ rw more (
      insert_to-Within hosts upper own src dest pkt
        (frag_add src pkt.hdr.id (record s { spare = s.spare - 1 }))
        (λ x. ground (arith, h x, known, absent)))
]
  where
    lost :
        (o : Option (Frag × List Frag))
        → KeepsWithin hosts (
            insert_to upper own src dest pkt (
              added src pkt.hdr.id (elim o [
                | none ↦ (false, s)
                | some (f, fs) ↦ (
                  false,
                  record s { frag_list = fs; freed = frag_free_buf_list f.buf_list s.freed },
                )
              ])))
    lost none = tt
    lost (some _) = tt

ipv4_frag_in-Within :
    (hosts : List ℕ) (upper : Upper) (own src dest : ℕ) (pkt : Packet) (s : Frags)
    → Within hosts s
    → 0 < count src hosts
    → KeepsWithin hosts (ipv4_frag_in upper own src dest pkt s)
unfolding ipv4_frag_in frag_find added insert_to
ipv4_frag_in-Within hosts upper own src dest pkt s h known =
    split (find_ip src s.frag_list) (find_ip-Moved src s.frag_list)
  where
    split :
        (o : Option (Frag × List Frag))
        → Moved src s.frag_list o
        → KeepsWithin hosts (
            let r : Bool × Frags = elim o [
              | none ↦ (false, s)
              | some (f, fs) ↦ (true, record s { frag_list = f ∷ fs })
            ] in
            insert_to upper own src dest pkt
              (if r.0 then some r.1 else added src pkt.hdr.id (frag_alloc r.1)))
    split none (lacks absent) = added-Within hosts upper own src dest pkt s h known absent
    split (some _) (out f fs same) =
        insert_to-Within hosts upper own src dest pkt (record s { frag_list = f ∷ fs })
          (λ x. omega (arith, h x, same x))

-- A fragment for this host is of one of the hosts of the list.
abbrev pub FromHosts : Upper → ℕ → ℕ → List ℕ → List ℕ → Type 0
FromHosts upper own net_mask hosts bytes =
    (pkt : Packet)
    → take_in upper bytes ≡ got pkt
    → ipaddr_is_match pkt.hdr.dest_ip own net_mask ≡ true
    → (more_of pkt.hdr.frag_all || not (offset_of pkt.hdr.frag_all == 0)) ≡ true
    → 0 < count pkt.hdr.src_ip hosts

ipv4_in-Within :
    (upper : Upper) (own net_mask : ℕ) (hosts bytes : List ℕ) (s : Frags)
    → Within hosts s
    → FromHosts upper own net_mask hosts bytes
    → KeepsWithin hosts (ipv4_in upper own net_mask bytes s)
unfolding ipv4_in
ipv4_in-Within upper own net_mask hosts bytes s h from = split (take_in upper bytes) refl
  where
    split :
        (taken : Taken)
        → take_in upper bytes ≡ taken
        → KeepsWithin hosts (ipv4_in upper own net_mask bytes s)
    split (refused err) is = rw (ipv4_in, is) h
    split (got pkt) is = elim (Bool-cases (ipaddr_is_match pkt.hdr.dest_ip own net_mask)) [
      | inl match ↦
          elim (Bool-cases (more_of pkt.hdr.frag_all || not (offset_of pkt.hdr.frag_all == 0))) [
            | inl frag ↦
                rw (ipv4_in, is, match, frag)
                  (ipv4_frag_in-Within hosts upper own pkt.hdr.src_ip pkt.hdr.dest_ip pkt s h
                    (from pkt is match frag))
            | inr whole ↦ rw (ipv4_in, is, match, whole) h
          ]
      | inr other ↦ rw (ipv4_in, is, other) h
    ]

-- With at most ten hosts there is an entry for each of them.
served :
    (upper : Upper) (own net_mask : ℕ) (hosts bytes : List ℕ) (s : Frags)
    → length hosts ≤ 10
    → IsFrags s
    → Within hosts s
    → FromHosts upper own net_mask hosts bytes
    → ¬ (Stops upper own net_mask bytes s)
served upper own net_mask hosts bytes s few i h from stop =
    let src = stop.pkt.hdr.src_ip in
    let absent = absent-senders src s.frag_list stop.absent in
    let known = from stop.pkt stop.taken stop.for_us stop.fragment in
    let one_more : AtMost hosts (src ∷ senders s.frag_list) =
      λ x. ground (arith, h x, known, absent) in
    let bound = length-AtMost hosts (src ∷ senders s.frag_list) one_more in
    absurd (omega (arith, few, bound, length-senders s.frag_list, i.blocks, stop.starved.no_block))

run-served :
    (upper : Upper) (own net_mask : ℕ) (hosts : List ℕ) (packets : List (List ℕ)) (s : Frags)
    → length hosts ≤ 10
    → IsFrags s
    → Within hosts s
    → All (Sound upper) packets
    → All (FromHosts upper own net_mask hosts) packets
    → (t : Frags) × (ipv4_in_all upper own net_mask packets s ≡ some t) × IsFrags t × Within hosts t
unfolding ipv4_in_all
run-served upper own net_mask hosts [] s few i h sound from = (s, refl, i, h)
run-served upper own net_mask hosts (bytes ∷ rest) s few i h (one, others) (its, from) =
    elim (ipv4_in-Ends upper own net_mask bytes s i one) [
      | inl (err, t, run, j) ↦
          let within : Within hosts t =
            subst (KeepsWithin hosts) run (ipv4_in-Within upper own net_mask hosts bytes s h its) in
          let (u, runs, k, last) =
            run-served upper own net_mask hosts rest t few j within others from in
          (u, rw (ipv4_in_all, run) runs, k, last)
      | inr stop ↦ absurd (served upper own net_mask hosts bytes s few i h its stop)
    ]

-- Packets come in one after another from `init_ip` on, the header of none says that it is longer
-- than the packet, and the fragments among them that are for this host come from the hosts of a list
-- of at most ten, in any number and order. Then `ipv4_in` returns from each; in the end all ten
-- entries are in use or free, each in use has at most ten packets, each of these as long as its
-- header at least, and no host has more entries in use than it has places in the list.
pub ipv4_in_all-served :
    (upper : Upper) (own net_mask : ℕ) (hosts : List ℕ) (packets : List (List ℕ))
    → length hosts ≤ 10
    → All (Sound upper) packets
    → All (FromHosts upper own net_mask hosts) packets
    → (t : Frags) × (ipv4_in_all upper own net_mask packets init_frags ≡ some t)
      × IsFrags t
      × Within hosts t
ipv4_in_all-served upper own net_mask hosts packets few sound from =
    run-served upper own net_mask hosts packets init_frags few (record { blocks = refl; few = tt })
      (λ x. omega arith) sound from
