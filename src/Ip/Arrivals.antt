-- ===== src/Ip/Arrivals.antt =====
-- kernel/net/ip.c: `ipv4_in` on packets that come in one after another.
use clean_os.Base.{
  ℕ, ◌≡◌, refl, ap, true, not, ◌||◌, Option, none, ◌⊎◌, ◌++◌, some, List, [], ◌∷◌, ◌==◌, Bool-cases,
  inl, inr, All,
}
use clean_os.Pktbuf.Store.{err_not_match}
use clean_os.Ip.Address.{ipaddr_is_match}
use clean_os.Ip.Header.{Packet, offset_of, more_of}
use clean_os.Ip.Fragment.{Frags, Upper, init_frags, find_ip, ipv4_normal_in}
use clean_os.Ip.Input.{Taken, refused, got, take_in, ipv4_in}
use clean_os.Ip.Inv.{IsFrags, Starved}
use clean_os.Ip.FragIn.{ipv4_frag_in-Ends}
use clean_os.Ip.Safe.{Ends, HeaderFits}

-- Whether a packet's header is as long as it says
abbrev pub Sound : Upper → List ℕ → Type 0
Sound upper bytes = (pkt : Packet) → take_in upper bytes ≡ got pkt → HeaderFits pkt

-- A fragment that is for this host and for which there is no entry: `ipv4_in` does not return.
pub record Stops (upper : Upper) (own net_mask : ℕ) (bytes : List ℕ) (s : Frags) : Type 0 where
  pub pkt : Packet
  pub taken : take_in upper bytes ≡ got pkt
  pub for_us : ipaddr_is_match pkt.hdr.dest_ip own net_mask ≡ true
  pub fragment : (more_of pkt.hdr.frag_all || not (offset_of pkt.hdr.frag_all == 0)) ≡ true
  pub absent : find_ip pkt.hdr.src_ip s.frag_list ≡ none
  pub starved : Starved s
  pub stops : ipv4_in upper own net_mask bytes s ≡ none

pub ipv4_in-Ends :
    (upper : Upper) (own net_mask : ℕ) (bytes : List ℕ) (s : Frags)
    → IsFrags s
    → Sound upper bytes
    → Ends (ipv4_in upper own net_mask bytes s) ⊎ Stops upper own net_mask bytes s
unfolding ipv4_in
ipv4_in-Ends upper own net_mask bytes s v sound = split (take_in upper bytes) refl
  where
    split :
        (taken : Taken)
        → take_in upper bytes ≡ taken
        → Ends (ipv4_in upper own net_mask bytes s) ⊎ Stops upper own net_mask bytes s
    split (refused err) is = inl (err, s, rw (ipv4_in, is) refl, v)
    split (got pkt) is = elim (Bool-cases (ipaddr_is_match pkt.hdr.dest_ip own net_mask)) [
      | inl match ↦
          elim (Bool-cases (more_of pkt.hdr.frag_all || not (offset_of pkt.hdr.frag_all == 0))) [
            | inl frag ↦
                elim (ipv4_frag_in-Ends upper own pkt.hdr.src_ip pkt.hdr.dest_ip pkt s v
                  (sound pkt is)) [
                    | inl ends ↦ inl (rw (ipv4_in, is, match, frag) ends)
                    | inr ((absent, starved), stops) ↦ inr (record {
                      pkt = pkt;
                      taken = is;
                      for_us = match;
                      fragment = frag;
                      absent = absent;
                      starved = starved;
                      stops = rw (ipv4_in, is, match, frag) stops;
                    })
                  ]
            | inr whole ↦ inl (
              ipv4_normal_in upper own pkt.hdr.src_ip pkt.hdr.dest_ip pkt,
              s,
              rw (ipv4_in, is, match, whole) refl,
              v,
            )
          ]
      | inr other ↦ inl (
        err_not_match,
        record s { freed = pkt ∷ s.freed },
        rw (ipv4_in, is, other) refl,
        record { blocks = v.blocks; few = v.few },
      )
    ]

-- `ipv4_in` of one packet after the other
unfoldable pub ipv4_in_all : Upper → ℕ → ℕ → List (List ℕ) → Frags → Option Frags
ipv4_in_all upper own net_mask [] s = some s
ipv4_in_all upper own net_mask (bytes ∷ rest) s = elim (ipv4_in upper own net_mask bytes s) [
  | none ↦ none
  | some (err, t) ↦ ipv4_in_all upper own net_mask rest t
]

-- The first packet at which the calls stop, and what the ones before it have left
pub record StopsIn (upper : Upper) (own net_mask : ℕ) (packets : List (List ℕ)) (s : Frags)
    : Type 0 where
  pub before : List (List ℕ)
  pub bytes : List ℕ
  pub after : List (List ℕ)
  pub divides : packets ≡ before ++ bytes ∷ after
  pub left : Frags
  pub runs : ipv4_in_all upper own net_mask before s ≡ some left
  pub entries : IsFrags left
  pub here : Stops upper own net_mask bytes left

-- The outcome of packets that come in one after another
abbrev pub Outcome : Upper → ℕ → ℕ → List (List ℕ) → Frags → Type 0
Outcome upper own net_mask packets s =
    ((t : Frags) × (ipv4_in_all upper own net_mask packets s ≡ some t) × IsFrags t)
    ⊎ StopsIn upper own net_mask packets s

run-IsFrags :
    (upper : Upper) (own net_mask : ℕ) (packets : List (List ℕ)) (s : Frags)
    → IsFrags s
    → All (Sound upper) packets
    → Outcome upper own net_mask packets s
unfolding ipv4_in_all
run-IsFrags upper own net_mask [] s v sound = inl (s, refl, v)
run-IsFrags upper own net_mask (bytes ∷ rest) s v (one, others) =
    elim (ipv4_in-Ends upper own net_mask bytes s v one) [
      | inl (err, t, run, i) ↦ elim (run-IsFrags upper own net_mask rest t i others) [
        | inl (u, runs, j) ↦ inl (u, rw (ipv4_in_all, run) runs, j)
        | inr h ↦ inr (record {
          before = bytes ∷ h.before;
          bytes = h.bytes;
          after = h.after;
          divides = ap (λ l. bytes ∷ l) h.divides;
          left = h.left;
          runs = rw (ipv4_in_all, run) h.runs;
          entries = h.entries;
          here = h.here;
        })
      ]
      | inr h ↦ inr (record {
        before = [];
        bytes = bytes;
        after = rest;
        divides = refl;
        left = s;
        runs = refl;
        entries = v;
        here = h;
      })
    ]

-- Packets come in one after another from `init_ip` on, whole ones and fragments of any hosts, and
-- the header of none says that it is longer than the packet. Then either `ipv4_in` returns from
-- each, and in the end all ten entries are in use or free, and each in use has at most ten packets,
-- each as long as its header at least. Or it returns from those up to a fragment for this host whose
-- sender has no entry, while all ten are in use: since `frag_alloc`, as it is compiled without
-- optimisation, answers with a null pointer there, `ipv4_in` writes through that pointer, and one
-- of the ten entries is neither in use nor free.
pub ipv4_in_all-IsFrags :
    (upper : Upper) (own net_mask : ℕ) (packets : List (List ℕ))
    → All (Sound upper) packets
    → Outcome upper own net_mask packets init_frags
ipv4_in_all-IsFrags upper own net_mask packets sound =
    run-IsFrags upper own net_mask packets init_frags (record { blocks = refl; few = tt }) sound
