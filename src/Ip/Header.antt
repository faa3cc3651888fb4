-- ===== src/Ip/Header.antt =====
-- kernel/net/ip.h: the header of an Internet packet, its fields and its bytes in memory.
-- A bit-field's first member has the lowest bits.
use clean_os.Base.{
  ℕ, ◌+◌, ◌-◌, ◌*◌, ◌/◌, ◌%◌, ◌^◌, Bool, true, false, Option, none, some, List, [], ◌∷◌, ◌++◌, ◌==◌,
  if◌then◌else◌,
}
use clean_os.Pktbuf.Sum.{checksum16, finish}
use clean_os.Arp.Packet.{x_htons}
use clean_os.Ip.Address.{ip_addr_to_buf, number_of}

-- `ipv4_hdr_t` without the union of its flags; the addresses as numbers.
pub record Header : Type 0 where
  pub shdr : ℕ
  pub version : ℕ
  pub service : ℕ
  pub total_len : ℕ
  pub id : ℕ
  pub frag_all : ℕ
  pub ttl : ℕ
  pub protocol : ℕ
  pub hdr_checksum : ℕ
  pub src_ip : ℕ
  pub dest_ip : ℕ

-- `offset: 13` and `more: 1` of `frag_all`
unfoldable pub offset_of : ℕ → ℕ
offset_of frag_all = frag_all % 2 ^ 13

unfoldable pub more_of : ℕ → Bool
more_of frag_all = frag_all / 2 ^ 13 % 2 == 1

-- The two members written into a cleared `frag_all`
unfoldable pub pack_frag : ℕ → Bool → ℕ
pack_frag offset more = offset % 2 ^ 13 + (if more then 2 ^ 13 else 0)

unfoldable pub ipv4_hdr_size : Header → ℕ
ipv4_hdr_size hdr = hdr.shdr * 4

-- The 20 bytes of the header; `service` is the byte of `ds` and `ecn`.
unfoldable pub header_bytes : Header → List ℕ
unfolding ip_addr_to_buf
header_bytes h =
    ((h.shdr + 16 * h.version)
      ∷ h.service
      ∷ (h.total_len % 256)
      ∷ (h.total_len / 256)
      ∷ (h.id % 256)
      ∷ (h.id / 256)
      ∷ (h.frag_all % 256)
      ∷ (h.frag_all / 256)
      ∷ h.ttl
      ∷ h.protocol
      ∷ (h.hdr_checksum % 256)
      ∷ (h.hdr_checksum / 256)
      ∷ [])
    ++ (ip_addr_to_buf h.src_ip ++ ip_addr_to_buf h.dest_ip)

-- The cast of a packet's first bytes to `ipv4_hdr_t`, with the bytes behind them
unfoldable pub read_header : List ℕ → Option (Header × List ℕ)
unfolding number_of
read_header (a ∷ b ∷ c ∷ d ∷ e ∷ f ∷ g ∷ h ∷ i ∷ j ∷ k ∷ l ∷ m ∷ n ∷ o ∷ p ∷ q ∷ r ∷ s ∷ t ∷ body) =
    some (
      record {
        shdr = a % 16;
        version = a / 16;
        service = b;
        total_len = c + 256 * d;
        id = e + 256 * f;
        frag_all = g + 256 * h;
        ttl = i;
        protocol = j;
        hdr_checksum = k + 256 * l;
        src_ip = number_of (m ∷ n ∷ o ∷ p ∷ []);
        dest_ip = number_of (q ∷ r ∷ s ∷ t ∷ []);
      },
      body,
    )
read_header _ = none

unfoldable pub iphdr_htons : Header → Header
unfolding x_htons
iphdr_htons h = record h {
  total_len = x_htons h.total_len;
  id = x_htons h.id;
  frag_all = x_htons h.frag_all;
}

unfoldable pub byte_at : List ℕ → ℕ → ℕ
byte_at [] i = 0
byte_at (b ∷ bs) i = if i == 0 then b else byte_at bs (i - 1)

-- `pktbuf_checksum16` of the 20 bytes of the header, which lie in one block
unfoldable pub header_checksum : Header → ℕ
unfolding checksum16 finish byte_at header_bytes
header_checksum h = finish true (checksum16 0 (byte_at (header_bytes h)) 0 20 0 false)

-- A packet in host order: its header and all its bytes, the header's own first.
pub record Packet : Type 0 where
  pub hdr : Header
  pub bytes : List ℕ
