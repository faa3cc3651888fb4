-- ===== src/Ip/Senders.antt =====
-- kernel/net/ip.c: the hosts that have an entry for fragments, and what `ipv4_in` keeps of them.
use clean_os.Base.{
  ℕ, suc, ◌≤◌, ◌<◌, ◌≡◌, refl, false, Option, none, some, List, [], ◌∷◌, ◌==◌, leb, if◌then◌else◌,
  Bool-cases, inl, inr, arith, length, subst,
}
use clean_os.Base.Count.{count, unlink, count-unlink}
use clean_os.Pktbuf.Store.{NetErr, err_ok, err_exist}
use clean_os.Arp.{fails}
use clean_os.Ip.Header.{Packet}
use clean_os.Ip.Fragment.{
  Frag, Frags, Upper, find_ip, frag_free, insert_loop, frag_insert, frag_all_arrived, join_loop,
  frag_join, ipv4_normal_in,
}
use clean_os.Ip.Input.{pass_on, finish_if_arrived}

-- The hosts of a list of entries, one for each
abbrev pub senders : List Frag → List ℕ
senders [] = []
senders (f ∷ fs) = f.ip ∷ senders fs

pub length-senders : (l : List Frag) → length (senders l) ≡ length l
length-senders [] = refl
length-senders (f ∷ fs) = omega (arith, length-senders fs)

-- No number stands more often in the second list than in the first.
abbrev pub AtMost : List ℕ → List ℕ → Type 0
AtMost hosts l = (x : ℕ) → count x l ≤ count x hosts

length-unlink : (x : ℕ) (ys : List ℕ) → 0 < count x ys → suc (length (unlink x ys)) ≡ length ys
unfolding unlink
length-unlink x [] h = absurd (omega arith)
length-unlink x (y ∷ ys) h = ground (arith, length-unlink x ys)

-- There are no more entries than hosts.
pub length-AtMost : (hosts xs : List ℕ) → AtMost hosts xs → length xs ≤ length hosts
length-AtMost hosts [] h = omega arith
length-AtMost hosts (x ∷ xs) h =
    let there : 0 < count x hosts = ground (arith, h x) in
    let rest =
      length-AtMost (unlink x hosts) xs (λ y. ground (arith, h y, count-unlink y x hosts)) in
    omega (arith, rest, length-unlink x hosts there)

-- The list that `find_ip` leaves has the same hosts.
pub data Moved (ip : ℕ) (l : List Frag) : Option (Frag × List Frag) → Type 0 where
  lacks : count ip (senders l) ≡ 0 → Moved ip l none
  out :
      (g : Frag) (gs : List Frag)
      → ((x : ℕ) → count x (senders (g ∷ gs)) ≡ count x (senders l))
      → Moved ip l (some (g, gs))

pub find_ip-Moved : (ip : ℕ) (l : List Frag) → Moved ip l (find_ip ip l)
unfolding find_ip
find_ip-Moved ip [] = lacks refl
find_ip-Moved ip (f ∷ fs) = elim (Bool-cases (ip == f.ip)) [
  | inl here ↦ rw here (out f fs (λ x. refl))
  | inr other ↦ rw other (behind (find_ip ip fs) (find_ip-Moved ip fs) other)
]
  where
    behind :
        (o : Option (Frag × List Frag))
        → Moved ip fs o
        → (ip == f.ip) ≡ false
        → Moved ip (f ∷ fs) (elim o [ none ↦ none | some (g, gs) ↦ some (g, f ∷ gs) ])
    behind none (lacks e) other = lacks (ground (arith, e, other))
    behind (some _) (out g gs same) other = out g (f ∷ gs) (λ x. omega (arith, same x))

-- A host that was not found has no entry.
pub absent-senders : (ip : ℕ) (l : List Frag) → find_ip ip l ≡ none → count ip (senders l) ≡ 0
absent-senders ip l e = split (find_ip ip l) (find_ip-Moved ip l) e
  where
    split : (o : Option (Frag × List Frag)) → Moved ip l o → o ≡ none → count ip (senders l) ≡ 0
    split none (lacks h) e = h
    split (some _) (out g gs same) e = absurd cc

-- No host has more entries in use than it has places in the list.
abbrev pub Within : List ℕ → Frags → Type 0
Within hosts s = AtMost hosts (senders s.frag_list)

abbrev LeavesWithin : List ℕ → NetErr × Frags → Type 0
LeavesWithin hosts r = Within hosts r.1

-- The outcome of a call: where it returns, that still holds.
abbrev pub KeepsWithin : List ℕ → Option (NetErr × Frags) → Type 0
KeepsWithin hosts none = Unit
KeepsWithin hosts (some r) = Within hosts r.1

pub frag_insert-Within :
    (hosts : List ℕ) (f : Frag) (fs : List Frag) (pkt : Packet) (s : Frags)
    → s.frag_list ≡ f ∷ fs
    → Within hosts s
    → Within hosts (frag_insert f fs pkt s).1
unfolding frag_insert frag_free
frag_insert-Within hosts f fs pkt s e h = elim (Bool-cases (leb 10 (length f.buf_list))) [
  | inl full ↦ rw full (λ x. omega (arith, at_list x))
  | inr room ↦ rw room (split (insert_loop pkt f.buf_list))
]
  where
    at_list : AtMost hosts (f.ip ∷ senders fs)
    at_list = subst (λ l. AtMost hosts (senders l)) e h

    split :
        (o : Option (List Packet))
        → LeavesWithin hosts (elim o [
          | none ↦ (err_exist, s)
          | some l ↦ (err_ok, record s { frag_list = record f { buf_list = l } ∷ fs })
        ])
    split none = h
    split (some l) = at_list

pass_on-Within :
    (hosts : List ℕ) (upper : Upper) (own src dest : ℕ) (o : Option Packet) (t : Frags)
    → Within hosts t
    → Within hosts (pass_on upper own src dest (o, t)).1
unfolding pass_on
pass_on-Within hosts upper own src dest none t h = h
pass_on-Within hosts upper own src dest (some all) t h =
    elim (Bool-cases (fails (ipv4_normal_in upper own src dest all))) [
      | inl bad ↦ rw bad h
      | inr good ↦ rw good h
    ]

-- An entry whose packets are put together is free.
frag_join-Within :
    (hosts : List ℕ) (upper : Upper) (own src dest : ℕ) (f : Frag) (fs : List Frag) (s : Frags)
    → AtMost hosts (f.ip ∷ senders fs)
    → KeepsWithin hosts
        (elim (frag_join f fs s) [ none ↦ none | some r ↦ some (pass_on upper own src dest r) ])
unfolding frag_join frag_free
frag_join-Within hosts upper own src dest f fs s h = by f.buf_list
  where
    kept :
        (o : Option Packet) (g : Frag)
        → Within hosts (pass_on upper own src dest (o, frag_free g fs s)).1
    kept o g =
        pass_on-Within hosts upper own src dest o (frag_free g fs s) (λ x. omega (arith, h x))

    joined :
        (p : Packet) (o : Option (List ℕ))
        → KeepsWithin hosts
            (elim (let q : Option (Option Packet × Frags) = elim o [
              | none ↦ none
              | some bytes ↦
                  some
                    (some (record p { bytes = bytes }), frag_free (record f { buf_list = [] }) fs s)
            ] in
              q) [ none ↦ none | some r ↦ some (pass_on upper own src dest r) ])
    joined p none = tt
    joined p (some bytes) = kept (some (record p { bytes = bytes })) (record f { buf_list = [] })

    by :
        (l : List Packet)
        → KeepsWithin hosts (elim (frag_join (record f { buf_list = l }) fs s) [
          | none ↦ none
          | some r ↦ some (pass_on upper own src dest r)
        ])
    by [] = kept none (record f { buf_list = [] })
    by (p ∷ bufs) = joined p (join_loop bufs p.bytes)

pub finish_if_arrived-Within :
    (hosts : List ℕ) (upper : Upper) (own src dest : ℕ) (r : NetErr × Frags)
    → Within hosts r.1
    → KeepsWithin hosts (finish_if_arrived upper own src dest r)
unfolding finish_if_arrived
finish_if_arrived-Within hosts upper own src dest (err, s) h = elim (Bool-cases (fails err)) [
  | inl bad ↦ rw bad h
  | inr good ↦ rw good (by s.frag_list refl)
]
  where
    by :
        (l : List Frag)
        → s.frag_list ≡ l
        → KeepsWithin hosts (elim l [
          | [] ↦ none
          | f ∷ fs ↦
              if frag_all_arrived f
              then elim (frag_join f fs s) [
                | none ↦ none
                | some r ↦ some (pass_on upper own src dest r)
              ]
              else some (err_ok, s)
        ])
    by [] e = tt
    by (f ∷ fs) e = elim (Bool-cases (frag_all_arrived f)) [
      | inl all ↦ rw all (
          frag_join-Within hosts upper own src dest f fs s
            (subst (λ l. AtMost hosts (senders l)) e h))
      | inr wait ↦ rw wait h
    ]
