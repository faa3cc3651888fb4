-- ===== src/Ip/Output.antt =====
-- kernel/net/ip.c: routes, packets that go out and their division into fragments.
use clean_os.Base.{
  ℕ, zero, suc, ◌+◌, ◌-◌, ◌/◌, ◌%◌, ◌^◌, Bool, not, ◌&&◌, Option, none, some, List, [], ◌∷◌, ◌++◌,
  ltb, ◌==◌, if◌then◌else◌, length, take, drop,
}
use clean_os.Pktbuf.Store.{NetErr, err_ok, err_mem, err_unreach}
use clean_os.Arp.{fails}
use clean_os.Ip.Address.{ipaddr_get_net}
use clean_os.Ip.Header.{Header, header_bytes, iphdr_htons, header_checksum, pack_frag}

-- What the file reads of `netif_t`
pub record Netif : Type 0 where
  pub ip_addr : ℕ
  pub mtu : ℕ

-- The type of a route
pub data RtType : Type 0 where
  rt_local_net rt_netif rt_other : RtType

-- `ip_route_entry_t`
pub record Route : Type 0 where
  pub ip_addr : ℕ
  pub net_mask : ℕ
  pub gateway : ℕ
  pub next_hop : ℕ
  pub netif : Netif
  pub type : RtType

-- `rt_list` behind the call. The test for a null `next_hop` stands behind its use.
unfoldable pub route_add : ℕ → ℕ → ℕ → ℕ → Netif → List Route → List Route
route_add ip_addr net_mask gateway next_hop netif routes =
    routes
    ++ (record {
      ip_addr = ip_addr;
      net_mask = net_mask;
      gateway = gateway;
      next_hop = next_hop;
      netif = netif;
      type = if next_hop == netif.ip_addr then rt_netif else rt_other;
    }
        ∷ [])

-- The loop of `route_find` with its variable `e`
unfoldable pub find_loop : ℕ → List Route → Option Route → Option Route
unfolding ipaddr_get_net
find_loop ip [] e = e
find_loop ip (entry ∷ routes) e = find_loop ip routes (
    if ipaddr_get_net ip entry.net_mask == entry.ip_addr
    then elim e [ none ↦ some entry | some best ↦ some best ]
    else e)

unfoldable pub route_find : ℕ → List Route → Option Route
unfolding find_loop
route_find ip routes = find_loop ip routes none

-- What has been handed to `netif_out` so far, the last first, as the next hop and the bytes, and
-- `packet_id`.
pub record Sent : Type 0 where
  pub out : List (ℕ × List ℕ)
  pub packet_id : ℕ

-- What `pktbuf_alloc`, `pktbuf_add_header` and `netif_out` answer once so many packets have been
-- handed to the interface.
pub record Link : Type 0 where
  pub alloc : ℕ → Bool
  pub header_room : ℕ → NetErr
  pub netif_out : ℕ → NetErr

-- A source address of zero stands for the interface's.
unfoldable pub source_of : Netif → ℕ → ℕ
source_of netif src = if src == 0 then netif.ip_addr else src

-- The fields that `ipv4_frag_out` and `ipv4_out` write
unfoldable pub make_header : Netif → ℕ → ℕ → ℕ → ℕ → ℕ → ℕ → Header
unfolding source_of
make_header netif protocol dest src id total_len frag_all = record {
  shdr = 5;
  version = 4;
  service = 0;
  total_len = total_len % 2 ^ 16;
  id = id;
  frag_all = frag_all;
  ttl = 64;
  protocol = protocol;
  hdr_checksum = 0;
  src_ip = source_of netif src;
  dest_ip = dest;
}

-- The packet as it goes out
unfoldable pub wire : Header → List ℕ → List ℕ
unfolding iphdr_htons header_checksum header_bytes
wire hdr content =
    let h = iphdr_htons hdr in
    header_bytes (record h { hdr_checksum = header_checksum h }) ++ content

-- The size of the next piece; `mtu - sizeof(ipv4_hdr_t)` is unsigned.
unfoldable pub next_size : ℕ → ℕ → ℕ
next_size mtu total =
    let room = (mtu + 2 ^ 32 - 20) % 2 ^ 32 in
    let curr_size = if ltb room total then room else total in
    if ltb curr_size total then curr_size - curr_size % 8 else curr_size

-- The loop of `ipv4_frag_out` over the bytes that are left. `none` is a loop that goes on.
unfoldable pub frag_out_loop :
    ℕ → Link → Netif → ℕ → ℕ → ℕ → ℕ → List ℕ → ℕ → Sent → Option (NetErr × Sent)
frag_out_loop zero link netif protocol dest src next bytes offset s = none
frag_out_loop (suc fuel) link netif protocol dest src next bytes offset s =
    let total = length bytes in
    let curr_size = next_size netif.mtu total in
    let hdr =
      make_header netif protocol dest src s.packet_id (curr_size + 20)
        (pack_frag (offset / 8) (ltb curr_size total)) in
    let t = record s { out = (next, wire hdr (take curr_size bytes)) ∷ s.out } in
    let err = link.netif_out (length s.out) in
    let rest =
      frag_out_loop fuel link netif protocol dest src next (drop curr_size bytes)
        (offset + curr_size) t in
    if total == 0
    then some (err_ok, record s { packet_id = (s.packet_id + 1) % 2 ^ 16 })
    else if not (link.alloc (length s.out))
    then some (err_mem, s)
    else if fails err
    then some (err, t)
    else rest

-- A round for each byte is enough.
unfoldable pub ipv4_frag_out : Link → Netif → ℕ → ℕ → ℕ → ℕ → List ℕ → Sent → Option (NetErr × Sent)
unfolding frag_out_loop
ipv4_frag_out link netif protocol dest src next bytes s =
    frag_out_loop (length bytes + 1) link netif protocol dest src next bytes 0 s

-- `src` is 0 for a null pointer too.
unfoldable pub ipv4_out : Link → List Route → ℕ → ℕ → ℕ → List ℕ → Sent → Option (NetErr × Sent)
unfolding route_find ipv4_frag_out make_header wire
ipv4_out link routes protocol dest src bytes s = elim (route_find dest routes) [
  | none ↦ some (err_unreach, s)
  | some rt ↦
      let next = if rt.next_hop == 0 then dest else rt.next_hop in
      let hdr = make_header rt.netif protocol dest src s.packet_id (length bytes + 20) 0 in
      let t = record s {
        out = (next, wire hdr bytes) ∷ s.out;
        packet_id = (s.packet_id + 1) % 2 ^ 16;
      } in
      if not (rt.netif.mtu == 0) && ltb rt.netif.mtu (length bytes + 20)
      then ipv4_frag_out link rt.netif protocol dest src next bytes s
      else if fails (link.header_room (length s.out))
      then some (link.header_room (length s.out), s)
      else some (link.netif_out (length s.out), t)
]
