-- ===== src/Ip/Pieces.antt =====
-- kernel/net/ip.c: the fragments into which `ipv4_frag_out` cuts a packet.
use clean_os.Base.{
  ℕ, zero, suc, ◌+◌, ◌-◌, ◌/◌, ◌%◌, ◌^◌, ◌≤◌, ◌<◌, ◌≡◌, refl, sym, ap, subst, ◌∙◌, Bool, true,
  false, not, some, List, [], ◌∷◌, ◌++◌, ltb, ◌==◌, arith, length, take, drop, take-append-drop,
  length-take, length-append, length-drop,
}
use clean_os.Pktbuf.Store.{err_ok}
use clean_os.Arp.{fails}
use clean_os.Ip.Header.{Header, pack_frag}
use clean_os.Ip.Output.{
  Netif, Sent, Link, make_header, wire, next_size, frag_out_loop, ipv4_frag_out,
}

-- A part of a packet's data, with its offset and whether others follow
pub record Piece : Type 0 where
  pub offset : ℕ
  pub more : Bool
  pub content : List ℕ

abbrev pub no_piece : List Piece → Bool
no_piece [] = true
no_piece (p ∷ ps) = false

-- Pieces that follow one another from an offset on: each has an offset that is a multiple of 8, is
-- not empty, fits the unit with a header of 20 bytes, and all but the last say that others follow.
abbrev pub Pieces : ℕ → ℕ → List Piece → Type 0
Pieces mtu offset [] = Unit
Pieces mtu offset (p ∷ ps) =
    (p.offset ≡ offset)
    × (offset % 8 ≡ 0)
    × (0 < length p.content)
    × (20 + length p.content ≤ mtu)
    × (p.more ≡ not (no_piece ps))
    × Pieces mtu (offset + length p.content) ps

-- The data of the pieces
abbrev pub whole_of : List Piece → List ℕ
whole_of [] = []
whole_of (p ∷ ps) = p.content ++ whole_of ps

-- The header and the bytes that `ipv4_frag_out` makes of a piece
abbrev pub piece_header : Netif → ℕ → ℕ → ℕ → ℕ → Piece → Header
piece_header netif protocol dest src id p =
    make_header netif protocol dest src id (length p.content + 20) (pack_frag (p.offset / 8) p.more)

-- What has been sent behind the pieces, the last first
abbrev pub sending : (Piece → ℕ × List ℕ) → List Piece → List (ℕ × List ℕ) → List (ℕ × List ℕ)
sending packet [] out = out
sending packet (p ∷ ps) out = sending packet ps (packet p ∷ out)

-- The size of a piece, where the unit has room for a header and eight bytes
next_size_bounds :
    (mtu total : ℕ)
    → 28 ≤ mtu
    → mtu < 2 ^ 31
    → 0 < total
    → (0 < next_size mtu total)
      × (next_size mtu total ≤ total)
      × (20 + next_size mtu total ≤ mtu)
      × (next_size mtu total < total → next_size mtu total % 8 ≡ 0)
unfolding next_size
next_size_bounds mtu total h k pos =
    let room : (mtu + 2 ^ 32 - 20) % 2 ^ 32 ≡ mtu - 20 = omega arith in
    rw room (ground arith, ground arith, ground arith, λ lt. ground (arith, lt))

length-take_le {ℓ} : {A : Type ℓ} (n : ℕ) (xs : List A) → n ≤ length xs → length (take n xs) ≡ n
length-take_le n xs h = omega (arith, length-take n xs)

no_piece-whole_of :
    (mtu offset : ℕ) (ps : List Piece)
    → Pieces mtu offset ps
    → not (no_piece ps) ≡ ltb 0 (length (whole_of ps))
no_piece-whole_of mtu offset [] c = refl
no_piece-whole_of mtu offset (p ∷ ps) (at, eights, pos, fits, more, c) =
    ground (arith, length-append p.content (whole_of ps))

module _ (link : Link) (netif : Netif) (protocol dest src next : ℕ) (room : 28 ≤ netif.mtu)
    (bound : netif.mtu < 2 ^ 31) (alloc : (n : ℕ) → link.alloc n ≡ true)
    (out : (n : ℕ) → fails (link.netif_out n) ≡ false) where
  abbrev pub packet_of : ℕ → Piece → ℕ × List ℕ
  packet_of id p = (next, wire (piece_header netif protocol dest src id p) p.content)

  -- The piece that one round sends
  abbrev piece_at : List ℕ → ℕ → Piece
  piece_at bytes offset =
      let n = next_size netif.mtu (length bytes) in
      record { offset = offset; more = ltb n (length bytes); content = take n bytes }

  loop-step :
      (fuel : ℕ) (bytes : List ℕ) (offset : ℕ) (s : Sent)
      → 0 < length bytes
      → frag_out_loop (suc fuel) link netif protocol dest src next bytes offset s
        ≡ frag_out_loop fuel link netif protocol dest src next
            (drop (next_size netif.mtu (length bytes)) bytes)
            (offset + next_size netif.mtu (length bytes))
            (record s { out = packet_of s.packet_id (piece_at bytes offset) ∷ s.out })
  unfolding frag_out_loop
  loop-step fuel bytes offset s pos =
      let (some_byte, le, fits, aligned) =
        next_size_bounds netif.mtu (length bytes) room bound pos in
      let filled = length-take_le (next_size netif.mtu (length bytes)) bytes le in
      let test : (length bytes == 0) ≡ false = ground arith in
      rw (test, alloc (length s.out), out (length s.out), filled) refl

  loop-Pieces :
      (fuel : ℕ) (bytes : List ℕ) (offset : ℕ) (s : Sent)
      → length bytes < fuel
      → (0 < length bytes → offset % 8 ≡ 0)
      → (ps : List Piece) × Pieces netif.mtu offset ps
        × (whole_of ps ≡ bytes)
        × (frag_out_loop fuel link netif protocol dest src next bytes offset s
            ≡ some (
              err_ok,
              record s {
                out = sending (packet_of s.packet_id) ps s.out;
                packet_id = (s.packet_id + 1) % 2 ^ 16;
              },
            ))
  loop-Pieces zero bytes offset s h aligned = absurd (omega arith)
  loop-Pieces (suc fuel) [] offset s h aligned = ([], tt, refl, unfold frag_out_loop in refl)
  loop-Pieces (suc fuel) (b ∷ bs) offset s h aligned =
      let bytes : List ℕ = b ∷ bs in
      let n = next_size netif.mtu (length bytes) in
      let (some_byte, le, fits, eights) =
        next_size_bounds netif.mtu (length bytes) room bound (omega arith) in
      let left : length (drop n bytes) ≡ length bytes - n = length-drop n bytes in
      let here = aligned (omega arith) in
      let filled : length (take n bytes) ≡ n = length-take_le n bytes le in
      let (ps, chain, data', run) =
        loop-Pieces fuel (drop n bytes) (offset + n)
          (record s { out = packet_of s.packet_id (piece_at bytes offset) ∷ s.out })
          (omega (arith, left)) (λ lt. omega (arith, here, eights (omega (arith, left, lt)))) in
      let others : ltb n (length bytes) ≡ not (no_piece ps) =
        ground (arith, no_piece-whole_of netif.mtu (offset + n) ps chain, ap length data', left) in
      (
        piece_at bytes offset ∷ ps,
        (
          refl,
          here,
          rw filled some_byte,
          rw filled fits,
          others,
          subst (λ k. Pieces netif.mtu (offset + k) ps) (sym filled) chain,
        ),
        ap (λ l. take n bytes ++ l) data' ∙ take-append-drop n bytes,
        loop-step fuel bytes offset s (omega arith) ∙ run,
      )

  -- Where the unit of the interface has room for a header and eight bytes at least, and packets are
  -- had and go out without an error, `ipv4_frag_out` ends without an error. It has then sent the
  -- pieces of a division of the data, in order and with one `packet_id`, which it steps: each piece
  -- fits the unit with its header, none is empty, each starts at a multiple of 8 where the piece
  -- before it ends, and all but the last say that others follow.
  pub ipv4_frag_out-Pieces :
      (bytes : List ℕ) (s : Sent)
      → (ps : List Piece) × Pieces netif.mtu 0 ps
        × (whole_of ps ≡ bytes)
        × (ipv4_frag_out link netif protocol dest src next bytes s
            ≡ some (
              err_ok,
              record s {
                out = sending (packet_of s.packet_id) ps s.out;
                packet_id = (s.packet_id + 1) % 2 ^ 16;
              },
            ))
  unfolding ipv4_frag_out
  ipv4_frag_out-Pieces bytes s = loop-Pieces (length bytes + 1) bytes 0 s (omega arith) (λ lt. refl)
