-- ===== src/Ip/Received.antt =====
-- kernel/net/ip.c: the fragments that `ipv4_frag_out` sends, read by `ipv4_in` and put together.
use clean_os.Base.{
  ℕ, ◌+◌, ◌*◌, ◌/◌, ◌%◌, ◌^◌, ◌<◌, ◌≡◌, refl, ap, false, some, List, ◌++◌, ltb, arith, length, take,
  drop, take_of_le,
}
use clean_os.Arp.Packet.{x_htons}
use clean_os.Ip.Address.{number_of, ip_addr_to_buf}
use clean_os.Ip.Header.{Header, Packet, header_bytes, read_header, iphdr_htons, header_checksum}
use clean_os.Ip.Fragment.{Upper}
use clean_os.Ip.Input.{got, take_in}
use clean_os.Ip.Output.{wire}

-- Fields that fit their places
abbrev pub Fits : Header → Type 0
Fits h =
    (h.shdr < 16)
    × (h.total_len < 2 ^ 16)
    × (h.id < 2 ^ 16)
    × (h.frag_all < 2 ^ 16)
    × (h.src_ip < 2 ^ 32)
    × (h.dest_ip < 2 ^ 32)

swapped : (v : ℕ) → v < 2 ^ 16 → x_htons (x_htons v) ≡ v
unfolding x_htons
swapped v h = omega arith

joined_bytes : (v : ℕ) → v % 256 + 256 * (v / 256) ≡ v
joined_bytes v = omega arith

four_bytes : (a : ℕ) → a < 2 ^ 32 → number_of (ip_addr_to_buf a) ≡ a
unfolding number_of ip_addr_to_buf
four_bytes a h = omega arith

-- Reading the bytes of a header gives the header.
read_header-header_bytes :
    (h : Header) (content : List ℕ)
    → h.shdr < 16
    → h.src_ip < 2 ^ 32
    → h.dest_ip < 2 ^ 32
    → read_header (header_bytes h ++ content) ≡ some (h, content)
unfolding read_header header_bytes
read_header-header_bytes h content small source dest =
    let e₁ : (h.shdr + 16 * h.version) % 16 ≡ h.shdr = omega arith in
    let e₂ : (h.shdr + 16 * h.version) / 16 ≡ h.version = omega arith in
    λ i. some (
      record {
        shdr = e₁ i;
        version = e₂ i;
        service = h.service;
        total_len = joined_bytes h.total_len i;
        id = joined_bytes h.id i;
        frag_all = joined_bytes h.frag_all i;
        ttl = h.ttl;
        protocol = h.protocol;
        hdr_checksum = joined_bytes h.hdr_checksum i;
        src_ip = four_bytes h.src_ip source i;
        dest_ip = four_bytes h.dest_ip dest i;
      },
      content,
    )

iphdr_htons-iphdr_htons : (h : Header) → Fits h → iphdr_htons (iphdr_htons h) ≡ h
unfolding iphdr_htons
iphdr_htons-iphdr_htons h (a, b, c, d, e, f) = λ i. record h {
  total_len = swapped h.total_len b i;
  id = swapped h.id c i;
  frag_all = swapped h.frag_all d i;
}

-- What `ipv4_in` reads of a packet that goes out: the header with a checksum, and the content.
pub read-wire :
    (h : Header) (content : List ℕ)
    → Fits h
    → (c : ℕ) × (raw : Header) × (read_header (wire h content) ≡ some (raw, content))
      × (iphdr_htons raw ≡ record h { hdr_checksum = c })
unfolding wire
read-wire h content (a, b, c, d, e, f) =
    let k : ℕ = header_checksum (iphdr_htons h) in
    let raw : Header = record (iphdr_htons h) { hdr_checksum = k } in
    (
      k,
      raw,
      read_header-header_bytes raw content (unfold iphdr_htons in a) (unfold iphdr_htons in e)
          (unfold iphdr_htons in f),
      unfold iphdr_htons in
          ap (λ (g : Header). record g { hdr_checksum = k })
            (iphdr_htons-iphdr_htons h (a, b, c, d, e, f)),
    )

pub length-header_bytes : (h : Header) (l : List ℕ) → length (header_bytes h ++ l) ≡ 20 + length l
unfolding header_bytes
length-header_bytes h l = omega arith

pub drop-header_bytes : (h : Header) (l : List ℕ) → drop 20 (header_bytes h ++ l) ≡ l
unfolding header_bytes
drop-header_bytes h l = refl

-- A packet with the header and a checksum in front of the content
abbrev pub arrival : ℕ → Header → List ℕ → Packet
arrival c h content =
    let k = record h { hdr_checksum = c } in record { hdr = k; bytes = header_bytes k ++ content }

pub take_in-wire :
    (upper : Upper) (h : Header) (content : List ℕ)
    → Fits h
    → h.total_len ≡ length content + 20
    → (c : ℕ) × (take_in upper (wire h content) ≡ got (arrival c h content))
unfolding take_in
take_in-wire upper h content fits size =
    let (c, raw, read, swap) = read-wire h content fits in
    let whole : length (header_bytes (record h { hdr_checksum = c }) ++ content) ≡ h.total_len =
      omega (arith, size, length-header_bytes (record h { hdr_checksum = c }) content) in
    let all : take h.total_len (header_bytes (record h { hdr_checksum = c }) ++ content)
        ≡ header_bytes (record h { hdr_checksum = c }) ++ content =
      take_of_le h.total_len (header_bytes (record h { hdr_checksum = c }) ++ content)
        (omega (arith, whole)) in
    let short : ltb (length (header_bytes (record h { hdr_checksum = c }) ++ content)) h.total_len
        ≡ false =
      ground (arith, whole) in
    (
      c,
      rw (read, take_in, swap, short, all)
          (ap
            (λ (k : Header).
              got (record {
                hdr = k;
                bytes = header_bytes (record h { hdr_checksum = c }) ++ content;
              }))
            swap),
    )
