-- ===== src/AddrSelect/Ip.antt =====
-- `net.IP`, `net.IPAddr` and `netip.Addr`, as far as dns/addrselect uses them. These types are the
-- standard library's; an address without a zone is its bytes.
use Prim.Native.Nat.{bit_and}
use spoof_dpi_turkiye.Prelude.{
  ◌+◌, ◌*◌, Bool, true, false, ◌&&◌, [], ◌∷◌, ◌++◌, Option, none, some, Bytes, bytes_eq, length,
  take, drop, get_or, ◌==◌, if◌then◌else◌,
}

-- `net.IPAddr`
pub record IpAddr : Type 0 where
  pub ip : Bytes
  pub zone : Bytes

-- `netip.Addr`; `undefined` is its zero value.
pub data Addr : Type 0 where
  undefined : Addr
  ip4 : Bytes → Addr
  ip6 : Bytes → Addr

-- ::ffff:0:0/96, under which an IPv6 address stands for an IPv4 address
abbrev pub mapped_prefix : Bytes
mapped_prefix = 0 ∷ 0 ∷ 0 ∷ 0 ∷ 0 ∷ 0 ∷ 0 ∷ 0 ∷ 0 ∷ 0 ∷ 0xff ∷ 0xff ∷ []

abbrev pub zeros : Bytes
zeros = 0 ∷ 0 ∷ 0 ∷ 0 ∷ 0 ∷ 0 ∷ 0 ∷ 0 ∷ 0 ∷ 0 ∷ 0 ∷ 0 ∷ 0 ∷ 0 ∷ 0 ∷ 0 ∷ []

abbrev pub loopback6 : Bytes
loopback6 = 0 ∷ 0 ∷ 0 ∷ 0 ∷ 0 ∷ 0 ∷ 0 ∷ 0 ∷ 0 ∷ 0 ∷ 0 ∷ 0 ∷ 0 ∷ 0 ∷ 0 ∷ 1 ∷ []

-- `netip.AddrFromSlice`, which returns the zero value for another length
unfoldable pub addr_from_slice : Bytes → Addr
addr_from_slice s = if length s == 4 then ip4 s else if length s == 16 then ip6 s else undefined

abbrev pub is_mapped : Bytes → Bool
is_mapped b = bytes_eq (take 12 b) mapped_prefix

-- `net.IP.To4`
unfoldable pub to4 : Bytes → Option Bytes
to4 ip =
    if length ip == 4
    then some ip
    else if length ip == 16 && is_mapped ip
    then some (drop 12 ip)
    else none

abbrev pub is_valid : Addr → Bool
is_valid undefined = false
is_valid (ip4 b) = true
is_valid (ip6 b) = true

abbrev pub is4 : Addr → Bool
is4 undefined = false
is4 (ip4 b) = true
is4 (ip6 b) = false

abbrev pub is6 : Addr → Bool
is6 undefined = false
is6 (ip4 b) = false
is6 (ip6 b) = true

abbrev pub is4_in6 : Addr → Bool
is4_in6 undefined = false
is4_in6 (ip4 b) = false
is4_in6 (ip6 b) = is_mapped b

abbrev pub as16 : Addr → Bytes
as16 undefined = zeros
as16 (ip4 b) = mapped_prefix ++ b
as16 (ip6 b) = b

abbrev pub as_slice : Addr → Bytes
as_slice undefined = []
as_slice (ip4 b) = b
as_slice (ip6 b) = b

abbrev pub unmap : Addr → Addr
unmap undefined = undefined
unmap (ip4 b) = ip4 b
unmap (ip6 b) = if is_mapped b then ip4 (drop 12 b) else ip6 b

loopback_of : Addr → Bool
loopback_of undefined = false
loopback_of (ip4 b) = get_or b 0 0 == 127
loopback_of (ip6 b) = bytes_eq b loopback6

unfoldable pub is_loopback : Addr → Bool
unfolding loopback_of
is_loopback ip = loopback_of (unmap ip)

link_local_of : Addr → Bool
link_local_of undefined = false
link_local_of (ip4 b) = get_or b 0 0 == 169 && get_or b 1 0 == 254
link_local_of (ip6 b) = bit_and (get_or b 0 0 * 256 + get_or b 1 0) 0xffc0 == 0xfe80

unfoldable pub is_link_local_unicast : Addr → Bool
unfolding link_local_of
is_link_local_unicast ip = link_local_of (unmap ip)

multicast_of : Addr → Bool
multicast_of undefined = false
multicast_of (ip4 b) = bit_and (get_or b 0 0) 0xf0 == 0xe0
multicast_of (ip6 b) = get_or b 0 0 == 0xff

unfoldable pub is_multicast : Addr → Bool
unfolding multicast_of
is_multicast ip = multicast_of (unmap ip)
