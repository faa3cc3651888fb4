-- ===== src/Arp/Packet.antt =====
-- kernel/net/arp.c: the test of a packet that comes in.
use clean_os.Base.{ℕ, ◌+◌, ◌*◌, ◌/◌, ◌%◌, ◌^◌, not, ltb, ◌==◌, if◌then◌else◌, ◌&&◌, ◌||◌}
use clean_os.Pktbuf.Store.{NetErr, err_ok, err_size, err_not_support}

-- The fields of `arp_pkt_t` that are tested, as they stand in the packet
pub record Packet : Type 0 where
  pub htype : ℕ
  pub ptype : ℕ
  pub hlen : ℕ
  pub plen : ℕ
  pub opcode : ℕ

-- The two bytes swapped
unfoldable pub x_htons : ℕ → ℕ
x_htons n = n % 2 ^ 8 * 2 ^ 8 + n / 2 ^ 8 % 2 ^ 8

-- `sizeof(arp_packet)` is the size of a pointer.
unfoldable pub arp_pkt_check : Packet → ℕ → NetErr
arp_pkt_check p size =
    let opcode = x_htons p.opcode in
    if ltb size 4
    then err_size
    else if not (x_htons p.htype == 1)
        || not (p.hlen == 6)
        || not (x_htons p.ptype == 2048)
        || not (p.plen == 4)
    then err_not_support
    else if not (opcode == 1) && not (opcode == 2)
    then err_not_support
    else err_ok
