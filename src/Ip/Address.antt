-- ===== src/Ip/Address.antt =====
-- kernel/net/ip.c: Internet addresses, `ip_addr_t`.
-- `q_addr` is a number below 2 ^ 32, `a_addr` its bytes, the lowest first.
use Prim.Native.Nat.{bit_and}
use clean_os.Base.{
  ℕ, zero, suc, ◌+◌, ◌-◌, ◌*◌, ◌/◌, ◌%◌, ◌^◌, Bool, true, ◌&&◌, Option, none, some, List, [], ◌∷◌,
  leb, ◌==◌, if◌then◌else◌, take,
}
use clean_os.Pktbuf.Store.{NetErr, err_ok, err_param}

-- `IPV4_ADDR_BROADCAST`
abbrev pub ipv4_addr_broadcast : ℕ
ipv4_addr_broadcast = 0xffffffff

-- `~` on 32 bits
unfoldable pub complement : ℕ → ℕ
complement a = 2 ^ 32 - 1 - a % 2 ^ 32

-- The bytes of `a_addr` from one on
bytes_from : ℕ → ℕ → List ℕ
bytes_from zero a = []
bytes_from (suc n) a = a % 256 ∷ bytes_from n (a / 256)

unfoldable pub ip_addr_to_buf : ℕ → List ℕ
unfolding bytes_from
ip_addr_to_buf ip = bytes_from 4 ip

-- The number whose bytes they are
unfoldable pub number_of : List ℕ → ℕ
number_of [] = 0
number_of (b ∷ bs) = b + 256 * number_of bs

unfoldable pub ip_addr_from_buf : List ℕ → ℕ
unfolding number_of
ip_addr_from_buf buf = number_of (take 4 buf)

-- `*p++ = sub_addr`; `s_addr` follows `a_addr`, and a write behind both is left out.
unfoldable pub put_byte : List ℕ → ℕ → ℕ → List ℕ
put_byte [] p v = []
put_byte (b ∷ bs) zero v = v ∷ bs
put_byte (b ∷ bs) (suc p) v = b ∷ put_byte bs p v

-- The scan of `ipaddr_from_str`, at the byte `p` of the address
unfoldable pub from_str_loop : List ℕ → ℕ → ℕ → List ℕ → NetErr × List ℕ
unfolding put_byte
from_str_loop [] p sub_addr dest = (err_ok, put_byte dest p sub_addr)
from_str_loop (c ∷ str) p sub_addr dest = elim (leb b'0' c && leb c b'9') [
  | true ↦ from_str_loop str p ((sub_addr * 10 + (c - b'0')) % 256) dest
  | _ ↦ elim (c == b'.') [
    | true ↦ from_str_loop str (suc p) 0 (put_byte dest p sub_addr)
    | _ ↦ (err_param, dest)
  ]
]

-- `str` is the text before its end; `tail` is `s_addr`.
unfoldable pub ipaddr_from_str : List ℕ → List ℕ → NetErr × List ℕ
unfolding from_str_loop
ipaddr_from_str tail str = from_str_loop str 0 0 (0 ∷ 0 ∷ 0 ∷ 0 ∷ tail)

unfoldable pub ipaddr_get_any : ℕ
ipaddr_get_any = 0

-- A null pointer leaves the address alone.
unfoldable pub ipaddr_copy : Option ℕ → ℕ → ℕ
ipaddr_copy none dest = dest
ipaddr_copy (some src) dest = src

unfoldable pub ipaddr_get_host : ℕ → ℕ → ℕ
unfolding complement
ipaddr_get_host ipaddr netmask = bit_and ipaddr (complement netmask)

unfoldable pub ipaddr_get_net : ℕ → ℕ → ℕ
ipaddr_get_net ipaddr netmask = bit_and ipaddr netmask

unfoldable pub ipaddr_is_direct_broadcast : ℕ → ℕ → Bool
unfolding ipaddr_get_host
ipaddr_is_direct_broadcast ipaddr netmask =
    ipaddr_get_host ipaddr netmask == bit_and ipv4_addr_broadcast (complement netmask)

unfoldable pub ipaddr_is_match : ℕ → ℕ → ℕ → Bool
unfolding ipaddr_is_direct_broadcast ipaddr_get_net
ipaddr_is_match dest src netmask =
    if dest == ipv4_addr_broadcast
    then true
    else if ipaddr_is_direct_broadcast dest netmask
        && ipaddr_get_net dest netmask == ipaddr_get_net src netmask
    then true
    else dest == src
