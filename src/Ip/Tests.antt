-- ===== src/Ip/Tests.antt =====
-- Runs of the Internet protocol, and its theorems at concrete inputs.
use clean_os.Base.{
  ◌<◌, Bool, Option, ◌+◌, ◌++◌, ℕ, ◌≡◌, refl, subst, true, false, sym, ◌∙◌, ◌≤◌, none, some, List,
  [], ◌∷◌, ◌==◌, if◌then◌else◌, arith, length, drop,
}
use clean_os.Pktbuf.Store.{err_ok, err_param, err_unreach}
use clean_os.Ip.Address.{ipaddr_from_str, ipaddr_is_match}
use clean_os.Ip.Header.{Packet, ipv4_hdr_size, header_bytes, read_header, pack_frag}
use clean_os.Ip.Fragment.{Frag, Frags, Upper, init_frags, frag_all_arrived, frag_join, frag_free}
use clean_os.Ip.Input.{got, take_in, ipv4_in}
use clean_os.Ip.Output.{
  Netif, make_header, source_of, next_size, Sent, Link, wire, ipv4_frag_out, ipv4_out,
}
use clean_os.Ip.Order.{deliver}
use clean_os.Ip.Pieces.{Piece, Pieces, whole_of, piece_header, sending, ipv4_frag_out-Pieces}
use clean_os.Ip.Received.{arrival, take_in-wire}
use clean_os.Ip.Passed.{TakenAs, frag_join-wires}
use clean_os.Base.Count.{count}
use clean_os.Ip.Inv.{IsFrags}
use clean_os.Ip.Senders.{Within}
use clean_os.Ip.Served.{FromHosts, ipv4_in_all-served}
use clean_os.Ip.Arrivals.{Sound, Outcome, ipv4_in_all, ipv4_in_all-IsFrags}

-- An interface whose unit has room for 16 bytes behind a header
abbrev narrow : Netif
narrow = record { ip_addr = 0x0a00000a; mtu = 36 }

abbrev sound_link : Link
sound_link = record { alloc = λ n. true; header_room = λ n. err_ok; netif_out = λ n. err_ok }

abbrev letters : List ℕ
letters =
    b'a' ∷ b'b' ∷ b'c' ∷ b'd' ∷ b'e' ∷ b'f' ∷ b'g' ∷ b'h' ∷ b'i' ∷ b'j' ∷ b'k' ∷ b'l' ∷ b'm' ∷ b'n'
    ∷ b'o' ∷ b'p' ∷ b'q' ∷ b'r' ∷ []

abbrev unsent : Sent
unsent = record { out = []; packet_id = 7 }

-- The upper protocols take what comes; a packet that is made longer gets no bytes.
abbrev taker : Upper
taker = record {
  icmp_in = λ src own pkt. err_ok;
  udp_in = λ src dest pkt. if length pkt.bytes == 38 then err_ok else err_param;
  behind = λ bytes n. none;
}

abbrev front : Piece
front = record {
  offset = 0;
  more = true;
  content =
      b'a' ∷ b'b' ∷ b'c' ∷ b'd' ∷ b'e' ∷ b'f' ∷ b'g' ∷ b'h' ∷ b'i' ∷ b'j' ∷ b'k' ∷ b'l' ∷ b'm'
      ∷ b'n' ∷ b'o' ∷ b'p' ∷ [];
}

abbrev back : Piece
back = record { offset = 16; more = false; content = b'q' ∷ b'r' ∷ [] }

abbrev wire_of : Piece → List ℕ
wire_of p = wire (piece_header narrow 0x11 0x0a00000b 0 7 p) p.content

cut_in_two :
    ipv4_frag_out sound_link narrow 0x11 0x0a00000b 0 9 letters unsent
    ≡ some (err_ok, record { out = (9, wire_of back) ∷ (9, wire_of front) ∷ []; packet_id = 8 })
unfolding ipv4_frag_out wire next_size
cut_in_two = refl

-- The second fragment comes first, and the upper protocol takes all 18 bytes.
put_together :
    ipv4_in_all taker 0x0a00000b 0xffffff00 (wire_of back ∷ wire_of front ∷ []) init_frags
    ≡ some init_frags
unfolding ipv4_in_all ipv4_in wire read_header make_header pack_frag
put_together = refl

read_address :
    (ipaddr_from_str [] (b'1' ∷ b'0' ∷ b'.' ∷ b'0' ∷ b'.' ∷ b'2' ∷ b'.' ∷ b'1' ∷ b'5' ∷ []))
    ≡ (err_ok, 10 ∷ 0 ∷ 2 ∷ 15 ∷ [])
unfolding ipaddr_from_str
read_address = refl

-- A broadcast of the interface's own net
broadcast : ipaddr_is_match 0x0a0000ff 0x0a000001 0xffffff00 ≡ true
unfolding ipaddr_is_match
broadcast = refl

no_route : ipv4_out sound_link [] 0x11 0x0a00000b 0 letters unsent ≡ some (err_unreach, unsent)
unfolding ipv4_out
no_route = refl

ipv4_frag_out-Pieces_example :
    (ps : List Piece) × Pieces 36 0 ps
    × (whole_of ps ≡ letters)
    × (ipv4_frag_out sound_link narrow 0x11 0x0a00000b 0 9 letters unsent
        ≡ some (
          err_ok,
          record {
            out =
                sending
                  (λ p. (9, wire (piece_header narrow 0x11 0x0a00000b 0 7 p) p.content))
                  ps
                  [];
            packet_id = 8;
          },
        ))
ipv4_frag_out-Pieces_example =
    ipv4_frag_out-Pieces sound_link narrow 0x11 0x0a00000b 0 9 (omega arith) (omega arith)
      (λ n. refl) (λ n. refl) letters unsent

abbrev waiting : Frag
waiting = record { ip = 0x0a00000a; id = 7; tmo = 5; buf_list = [] }

frag_join-wires_example :
    (pkts : List Packet) × (pkt : Packet) × (g : Frag) × TakenAs taker
      (wire_of front ∷ wire_of back ∷ [])
      pkts
    × (deliver pkts [] init_frags waiting (1 ∷ 0 ∷ []) ≡ some g)
    × ((if frag_all_arrived g then frag_join g [] init_frags else none)
        ≡ some (some pkt, frag_free waiting [] init_frags))
    × (drop (ipv4_hdr_size pkt.hdr) pkt.bytes ≡ letters)
unfolding source_of
frag_join-wires_example =
    frag_join-wires taker narrow 0x11 0x0a00000b 0 7 (omega arith) (omega arith) (omega arith)
      (front ∷ back ∷ []) [] init_frags waiting (1 ∷ 0 ∷ [])
      (refl, refl, omega arith, omega arith, refl, (refl, refl, omega arith, omega arith, refl, tt))
      (omega arith) (omega arith) (omega arith) (omega arith) (omega arith)

-- The first fragment of a packet from one of sixteen hosts
abbrev from : ℕ → List ℕ
from n =
    wire (piece_header (record { ip_addr = 0x0a000010 + n; mtu = 36 }) 0x11 0x0a00000b 0 7 front)
      front.content

abbrev ten_hosts : List (List ℕ)
ten_hosts =
    from 0 ∷ from 1 ∷ from 2 ∷ from 3 ∷ from 4 ∷ from 5 ∷ from 6 ∷ from 7 ∷ from 8 ∷ from 9 ∷ []

abbrev has_value : Option Frags → Bool
has_value none = false
has_value (some s) = true

-- Ten hosts are served, in any number of fragments, and the eleventh is not.
tenth_host :
    has_value (ipv4_in_all taker 0x0a00000b 0xffffff00 (ten_hosts ++ from 3 ∷ []) init_frags) ≡ true
unfolding ipv4_in_all ipv4_in wire read_header make_header pack_frag
tenth_host = refl

eleventh_host :
    ipv4_in_all taker 0x0a00000b 0xffffff00 (ten_hosts ++ from 10 ∷ []) init_frags ≡ none
unfolding ipv4_in_all ipv4_in wire read_header make_header pack_frag
eleventh_host = refl

same_packet : {p q : Packet} → got p ≡ got q → p ≡ q
same_packet s = cc

Sound-of_header :
    (bytes : List ℕ) (p : Packet)
    → take_in taker bytes ≡ got p
    → ipv4_hdr_size p.hdr ≤ length p.bytes
    → Sound taker bytes
Sound-of_header bytes p e h pkt e' =
    let same : got p ≡ got pkt = sym e ∙ e' in
    subst (λ q. ipv4_hdr_size q.hdr ≤ length q.bytes) (same_packet same) h

front-Sound : Sound taker (wire_of front)
unfolding make_header ipv4_hdr_size header_bytes pack_frag
front-Sound =
    let (c, e) =
      take_in-wire taker (piece_header narrow 0x11 0x0a00000b 0 7 front) front.content (omega arith)
        (omega arith) in
    Sound-of_header (wire_of front)
      (arrival c (piece_header narrow 0x11 0x0a00000b 0 7 front) front.content) e (omega arith)

-- The first half comes twice.
ipv4_in_all-IsFrags_example :
    Outcome taker 0x0a00000b 0xffffff00 (wire_of front ∷ wire_of front ∷ []) init_frags
ipv4_in_all-IsFrags_example =
    ipv4_in_all-IsFrags taker 0x0a00000b 0xffffff00 (wire_of front ∷ wire_of front ∷ [])
      (front-Sound, (front-Sound, tt))

front-FromHosts : FromHosts taker 0x0a00000b 0xffffff00 (0x0a00000a ∷ []) (wire_of front)
unfolding make_header ipv4_hdr_size header_bytes pack_frag
front-FromHosts pkt e match frag =
    let (c, taken) =
      take_in-wire taker (piece_header narrow 0x11 0x0a00000b 0 7 front) front.content (omega arith)
        (omega arith) in
    let same : got (arrival c (piece_header narrow 0x11 0x0a00000b 0 7 front) front.content)
        ≡ got pkt =
      sym taken ∙ e in
    subst (λ q. 0 < count q.hdr.src_ip (0x0a00000a ∷ [])) (same_packet same) (omega arith)

ipv4_in_all-served_example :
    (t : Frags) × (ipv4_in_all taker 0x0a00000b 0xffffff00
        (wire_of front ∷ wire_of front ∷ [])
        init_frags
      ≡ some t)
    × IsFrags t
    × Within (0x0a00000a ∷ []) t
ipv4_in_all-served_example =
    ipv4_in_all-served taker 0x0a00000b 0xffffff00 (0x0a00000a ∷ [])
      (wire_of front ∷ wire_of front ∷ []) (omega arith) (front-Sound, (front-Sound, tt))
      (front-FromHosts, (front-FromHosts, tt))
