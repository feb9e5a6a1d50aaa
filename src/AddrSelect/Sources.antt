-- ===== src/AddrSelect/Sources.antt =====
-- The source of each destination: `defaultSrcAddrs` and `isNative` of
-- dns/addrselect/addrselect.go. What the operating system tells is given.
pub mod Totality
use spoof_dpi_turkiye.Prelude.{
  Bool, true, false, not, ◌&&◌, ◌||◌, List, [], ◌∷◌, map, Option, none, some, Bytes, bytes,
  has_prefix, bytes_eq, if◌then◌else◌,
}
use spoof_dpi_turkiye.AddrSelect.Ip.{IpAddr, Addr, undefined, addr_from_slice, is_valid, unmap}
use spoof_dpi_turkiye.AddrSelect.Rules.{SrcInfo}
use spoof_dpi_turkiye.AddrSelect.Flags.{AddrFlags, no_flags, addr_eq, flags_of}

-- `net.Interface`, with the addresses of its `IPNet`s.
pub record Interface : Type 0 where
  pub name : Bytes
  pub is_point_to_point : Bool
  pub addrs : List Bytes

unfoldable pub is_native : Interface → Bool
unfolding has_prefix
is_native iface =
    if iface.is_point_to_point
    then false
    else not (
        has_prefix iface.name (bytes "tun")
        || (has_prefix iface.name (bytes "tap")
            || (has_prefix iface.name (bytes "sit")
                || (has_prefix iface.name (bytes "ip6tnl")
                    || has_prefix iface.name (bytes "he-ipv6")))))

-- An address of the interface is a key of `ipToIface`.
unfoldable pub has_addr : List Bytes → Addr → Bool
has_addr [] a = false
has_addr (ip ∷ addrs) a =
    let key = addr_from_slice ip in is_valid key && addr_eq (unmap key) a || has_addr addrs a

-- The lookup in `ipToIface`: a later interface overwrites an earlier one.
unfoldable pub iface_of : List Interface → Addr → Option Interface
unfolding has_addr
iface_of [] a = none
iface_of (iface ∷ ifaces) a = elim (iface_of ifaces a) [
  | some j ↦ some j
  | none ↦ if has_addr iface.addrs a then some iface else none
]

-- What the operating system tells: the local address of a UDP socket that is connected to a
-- destination, the interfaces, and the flags of addresses.
pub record System : Type 0 where
  pub local_addr : IpAddr → Option Bytes
  pub interfaces : List Interface
  pub addr_flags : Option (List (Addr × AddrFlags))

abbrev pub no_source : SrcInfo
no_source = record { addr = undefined; is_native = false; is_deprecated = false; is_home = false }

abbrev native_of : Option Interface → Bool
native_of none = true
native_of (some iface) = is_native iface

abbrev flags_in : Option (List (Addr × AddrFlags)) → Addr → AddrFlags
flags_in none a = no_flags
flags_in (some m) a = flags_of m a

unfoldable pub src_of : System → IpAddr → SrcInfo
unfolding is_native iface_of flags_of
src_of sys dst = elim (sys.local_addr dst) [
  | none ↦ no_source
  | some ip ↦
      let local = addr_from_slice ip in
      let flags = flags_in sys.addr_flags (unmap local) in
      if not (is_valid local) then no_source else record {
        addr = unmap local;
        is_native = native_of (iface_of sys.interfaces (unmap local));
        is_deprecated = flags.is_deprecated;
        is_home = flags.is_home;
      }
]

unfoldable pub default_src_addrs : System → List IpAddr → List SrcInfo
unfolding src_of
default_src_addrs sys addrs = map (src_of sys) addrs
