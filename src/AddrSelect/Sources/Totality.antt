-- ===== src/AddrSelect/Sources/Totality.antt =====
-- `SortByRFC6724` with its own sources (dns/addrselect/addrselect.go).
use spoof_dpi_turkiye.Prelude.{◌≡◌, List, Perm, some, length-map}
use spoof_dpi_turkiye.AddrSelect.Ip.{IpAddr}
use spoof_dpi_turkiye.AddrSelect.Sort.{sort_by_rfc6724}
use spoof_dpi_turkiye.AddrSelect.Sorting.{sort_by_rfc6724-perm}
use spoof_dpi_turkiye.AddrSelect.Sources.{System, src_of, default_src_addrs}

-- Whatever the operating system tells of sources, interfaces and flags, sorting never panics, loses
-- no address and makes none up.
pub sort_by_rfc6724-default_src_addrs :
    (sys : System) (addrs : List IpAddr)
    → (sorted : List IpAddr) × (sort_by_rfc6724 (default_src_addrs sys) addrs ≡ some sorted)
      × Perm sorted addrs
unfolding default_src_addrs
sort_by_rfc6724-default_src_addrs sys addrs =
    sort_by_rfc6724-perm (default_src_addrs sys) addrs (length-map addrs (src_of sys))
