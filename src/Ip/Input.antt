-- ===== src/Ip/Input.antt =====
-- kernel/net/ip.c: `ipv4_in` and `ipv4_frag_in`.
use clean_os.Base.{
  ℕ, ◌-◌, not, ◌||◌, Option, none, some, List, [], ◌∷◌, ◌++◌, ltb, ◌==◌, if◌then◌else◌, length,
  take,
}
use clean_os.Pktbuf.Store.{NetErr, err_ok, err_none, err_size, err_not_match}
use clean_os.Arp.{fails}
use clean_os.Ip.Address.{ipaddr_is_match}
use clean_os.Ip.Header.{Packet, offset_of, more_of, read_header, header_bytes, iphdr_htons}
use clean_os.Ip.Fragment.{
  Frags, Upper, ipv4_normal_in, frag_find, frag_alloc, frag_add, frag_insert, frag_all_arrived,
  frag_join,
}

-- The packet put together goes to the upper protocols, and is freed where these fail.
unfoldable pub pass_on : Upper → ℕ → ℕ → ℕ → Option Packet × Frags → NetErr × Frags
unfolding ipv4_normal_in
pass_on upper own src dest (none, s) = (err_ok, s)
pass_on upper own src dest (some all, s) =
    let err = ipv4_normal_in upper own src dest all in
    if fails err then (err, record s { freed = all ∷ s.freed }) else (err_ok, s)

unfoldable pub finish_if_arrived : Upper → ℕ → ℕ → ℕ → NetErr × Frags → Option (NetErr × Frags)
unfolding pass_on frag_all_arrived frag_join
finish_if_arrived upper own src dest (err, s) =
    if fails err then some (err, s) else elim s.frag_list [
      | [] ↦ none
      | f ∷ fs ↦
          if frag_all_arrived f
          then elim (frag_join f fs s) [
            | none ↦ none
            | some r ↦ some (pass_on upper own src dest r)
          ]
          else some (err_ok, s)
    ]

unfoldable pub ipv4_frag_in : Upper → ℕ → ℕ → ℕ → Packet → Frags → Option (NetErr × Frags)
unfolding frag_find frag_alloc frag_add frag_insert finish_if_arrived
ipv4_frag_in upper own src dest pkt s =
    let (found, t) = frag_find src pkt.hdr.id s in
    let u : Option Frags =
      if found
      then some t
      else let (given, v) = frag_alloc t in
        if given then some (frag_add src pkt.hdr.id v) else none in
    elim u [
      | none ↦ none
      | some v ↦ elim v.frag_list [
        | [] ↦ none
        | f ∷ fs ↦ finish_if_arrived upper own src dest (frag_insert f fs pkt v)
      ]
    ]

-- `pktbuf_resize` of a packet's bytes
unfoldable pub resized : Upper → List ℕ → ℕ → Option (List ℕ)
resized upper bytes to_size =
    if ltb (length bytes) to_size
    then elim (upper.behind bytes to_size) [
      | none ↦ none
      | some more ↦ some (bytes ++ take (to_size - length bytes) more)
    ]
    else some (take to_size bytes)

-- A packet that is refused, or the packet in host order
pub data Taken : Type 0 where
  refused : NetErr → Taken
  got : Packet → Taken

-- The start of `ipv4_in`: `pktbuf_set_cont`, `iphdr_htons` and `pktbuf_resize`.
unfoldable pub take_in : Upper → List ℕ → Taken
unfolding resized
take_in upper bytes = elim (read_header bytes) [
  | none ↦ refused err_size
  | some (raw, body) ↦
      let hdr = iphdr_htons raw in
      elim (resized upper (header_bytes hdr ++ body) hdr.total_len) [
        | none ↦ refused err_none
        | some sized ↦ got (record { hdr = hdr; bytes = sized })
      ]
]

-- `own` and `net_mask` are of the interface, `bytes` the packet as it came in.
unfoldable pub ipv4_in : Upper → ℕ → ℕ → List ℕ → Frags → Option (NetErr × Frags)
unfolding take_in ipaddr_is_match ipv4_frag_in ipv4_normal_in
ipv4_in upper own net_mask bytes s = elim (take_in upper bytes) [
  | refused err ↦ some (err, s)
  | got pkt ↦
      let hdr = pkt.hdr in
      if not (ipaddr_is_match hdr.dest_ip own net_mask)
      then some (err_not_match, record s { freed = pkt ∷ s.freed })
      else if more_of hdr.frag_all || not (offset_of hdr.frag_all == 0)
      then ipv4_frag_in upper own hdr.src_ip hdr.dest_ip pkt s
      else some (ipv4_normal_in upper own hdr.src_ip hdr.dest_ip pkt, s)
]
