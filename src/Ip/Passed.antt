-- ===== src/Ip/Passed.antt =====
-- kernel/net/ip.c: the fragments that `ipv4_frag_out` sends, taken in and put together.
use clean_os.Base.{
  ℕ, suc, ◌+◌, ◌*◌, ◌/◌, ◌%◌, ◌^◌, ◌≤◌, ◌<◌, ◌≡◌, refl, sym, ap, subst, ap₂, ◌∙◌, Bool, not, none,
  some, List, [], ◌∷◌, ◌++◌, ◌==◌, if◌then◌else◌, arith, All, Distinct, length, drop,
  drop_append_of_le, length-append,
}
use clean_os.Ip.Header.{Header, Packet, offset_of, more_of, pack_frag, ipv4_hdr_size}
use clean_os.Ip.Fragment.{
  Frag, Frags, frag_all_arrived, frag_join, frag_free, Upper, get_frag_start, get_frag_end,
  get_data_size,
}
use clean_os.Ip.Input.{got, take_in}
use clean_os.Ip.Output.{Netif, make_header, source_of, wire}
use clean_os.Ip.Train.{Train, Whole, contents, null}
use clean_os.Ip.Received.{Fits, arrival, take_in-wire, length-header_bytes, drop-header_bytes}
use clean_os.Ip.Order.{deliver, joined, frag_join-deliver}
use clean_os.Ip.Pieces.{Piece, Pieces, piece_header, whole_of, no_piece}

frag_fields :
    (offset : ℕ) (more : Bool)
    → offset % 8 ≡ 0
    → offset < 2 ^ 16
    → (offset_of (pack_frag (offset / 8) more) * 8 % 2 ^ 16 ≡ offset)
      × (more_of (pack_frag (offset / 8) more) ≡ more)
      × (pack_frag (offset / 8) more < 2 ^ 16)
unfolding pack_frag offset_of more_of
frag_fields offset more eights small = (ground arith, ground arith, ground arith)

-- The packets of a list of bytes, read one by one
abbrev pub TakenAs : Upper → List (List ℕ) → List Packet → Type 0
TakenAs upper [] [] = Unit
TakenAs upper (b ∷ bs) (p ∷ ps) = (take_in upper b ≡ got p) × TakenAs upper bs ps
TakenAs upper _ _ = ⊥

module _ (upper : Upper) (netif : Netif) (protocol dest src id : ℕ) (low : id < 2 ^ 16)
    (to : dest < 2 ^ 32) (from : source_of netif src < 2 ^ 32) where
  abbrev pub header_of : Piece → Header
  header_of p = piece_header netif protocol dest src id p

  abbrev pub wires : List Piece → List (List ℕ)
  wires [] = []
  wires (p ∷ ps) = wire (header_of p) p.content ∷ wires ps

  header-Fits :
      (p : Piece)
      → p.offset % 8 ≡ 0
      → p.offset < 2 ^ 16
      → length p.content + 20 < 2 ^ 16
      → Fits (header_of p)
  unfolding make_header
  header-Fits p eights small size =
      let (o, m, f) = frag_fields p.offset p.more eights small in
      (omega arith, omega arith, low, f, from, to)

  -- What the receiver reads of a piece
  piece_in :
      (p : Piece)
      → p.offset % 8 ≡ 0
      → p.offset + length p.content < 2 ^ 16
      → length p.content + 20 < 2 ^ 16
      → (a : Packet) × (take_in upper (wire (header_of p) p.content) ≡ got a)
        × (get_frag_start a ≡ p.offset)
        × (get_data_size a ≡ length p.content)
        × (get_frag_end a ≡ p.offset + length p.content)
        × (more_of a.hdr.frag_all ≡ p.more)
        × (ipv4_hdr_size a.hdr ≡ 20)
        × (length a.bytes ≡ 20 + length p.content)
        × (drop 20 a.bytes ≡ p.content)
  unfolding make_header get_frag_start get_data_size get_frag_end ipv4_hdr_size
  piece_in p eights end size =
      let (o, m, f) = frag_fields p.offset p.more eights (omega arith) in
      let (c, taken) =
        take_in-wire upper (header_of p) p.content (header-Fits p eights (omega arith) size)
          (omega arith) in
      let k : Header = record (header_of p) { hdr_checksum = c } in
      (
        arrival c (header_of p) p.content,
        taken,
        o,
        omega arith,
        rw o (omega arith),
        m,
        refl,
        length-header_bytes k p.content,
        drop-header_bytes k p.content,
      )

  pub Pieces-Train :
      (offset : ℕ) (ps : List Piece)
      → Pieces netif.mtu offset ps
      → offset + length (whole_of ps) + 20 < 2 ^ 16
      → (pkts : List Packet) × TakenAs upper (wires ps) pkts
        × Train offset pkts
        × Whole pkts
        × (contents pkts ≡ whole_of ps)
        × (length pkts ≡ length ps)
        × (null pkts ≡ no_piece ps)
  Pieces-Train offset [] c h = ([], tt, tt, tt, refl, refl, refl)
  Pieces-Train offset (p ∷ ps) (at, eights, pos, fits, more, c) h =
      let sum = length-append p.content (whole_of ps) in
      let (a, taken, start, size, end, flag, hdr, long, rest) =
        piece_in p (omega (arith, at, eights)) (omega (arith, at, sum)) (omega (arith, sum)) in
      let (pkts, read, train, whole, data', count, last) =
        Pieces-Train (offset + length p.content) ps c (omega (arith, sum)) in
      (
        a ∷ pkts,
        (taken, read),
        (
          start ∙ at,
          omega (arith, size, pos),
          omega (arith, end, at, size),
          omega (arith, size, sum),
          flag ∙ more ∙ ap not (sym last),
          subst (λ n. Train (offset + n) pkts) (sym size) train,
        ),
        (omega (arith, hdr, long), whole),
        ap₂ (λ (u v : List ℕ). u ++ v) (ap (λ n. drop n a.bytes) hdr ∙ rest) data',
        ap suc count,
        refl,
      )

  joined-contents :
      (pkts : List Packet)
      → Whole pkts
      → 0 < length pkts
      → (pkt : Packet) × (joined pkts ≡ some pkt)
        × (drop (ipv4_hdr_size pkt.hdr) pkt.bytes ≡ contents pkts)
  joined-contents [] w pos = absurd (omega arith)
  joined-contents (p ∷ ps) (long, w) pos = (
    record p { bytes = p.bytes ++ contents ps },
    refl,
    drop_append_of_le (ipv4_hdr_size p.hdr) p.bytes (contents ps) long,
  )

  -- A division of a packet's data into at most ten pieces is sent, as `ipv4_frag_out` sends it, and
  -- some of the pieces come in at another host, each once and in any order, at an entry that is
  -- empty. `ipv4_in` reads each as a packet, and `frag_insert` takes each without an error.
  -- `frag_all_arrived` says that the packet is there exactly if all pieces have come in, and
  -- `frag_join` then gives a packet whose bytes behind its header are the data that was sent, and
  -- frees the entry.
  pub frag_join-wires :
      (ps : List Piece) (fs : List Frag) (s : Frags) (f : Frag) (order : List ℕ)
      → Pieces netif.mtu 0 ps
      → 0 < length ps
      → length ps ≤ 10
      → length (whole_of ps) + 20 < 2 ^ 16
      → All (λ i. i < length ps) order
      → Distinct order
      → (pkts : List Packet) × (pkt : Packet) × (g : Frag) × TakenAs upper (wires ps) pkts
        × (deliver pkts fs s (record f { buf_list = [] }) order ≡ some g)
        × ((if frag_all_arrived g then frag_join g fs s else none) ≡ (
            if length order == length ps
            then some (some pkt, frag_free (record f { buf_list = [] }) fs s)
            else none))
        × (drop (ipv4_hdr_size pkt.hdr) pkt.bytes ≡ whole_of ps)
  frag_join-wires ps fs s f order c pos few small range d =
      let (pkts, read, train, whole, data', count, last) = Pieces-Train 0 ps c (omega arith) in
      let (pkt, join, same) = joined-contents pkts whole (rw count pos) in
      let (g, run, test) =
        frag_join-deliver pkts fs s f order train whole (rw count pos) (rw count few)
          (rw count range) d in
      (pkts, pkt, g, read, run, rw (count, join) at test, same ∙ data')
