-- ===== src/AddrSelect/Tests.antt =====
-- Runs of the theorems on the order of addresses (dns/addrselect/addrselect.go): an IPv6 host and
-- an IPv4 host, each with a source.
use spoof_dpi_turkiye.Prelude.{
  bytes, none, ◌<◌, ◌≡◌, refl, Bool, true, false, ◌&&◌, List, [], ◌∷◌, Perm, some, arith, Bytes,
  All, ltb, ltb→lt,
}
use spoof_dpi_turkiye.AddrSelect.Ip.{IpAddr, ip4, ip6, to4, addr_from_slice}
use spoof_dpi_turkiye.AddrSelect.Policy.{
  ip_attr_of, classify, classify_scope, first_match, prefix_contains, same_prefix,
  rfc6724_policy_table,
}
use spoof_dpi_turkiye.AddrSelect.Rules.{
  SrcInfo, Row, common_prefix_len, rule1, rule2, rule3, rule4, rule5, rule6, rule7, rule8, rule9,
  less, row_of,
}
use spoof_dpi_turkiye.AddrSelect.Sort.{
  addrs_of, rows_of, sort_by_rfc6724_with_srcs, sort_by_rfc6724,
}
use spoof_dpi_turkiye.AddrSelect.Mark.{lex}
use spoof_dpi_turkiye.AddrSelect.Key.{key, less-lex}
use spoof_dpi_turkiye.AddrSelect.Sorted.{Ordered, keep}
use spoof_dpi_turkiye.AddrSelect.Sorting.{tied, sort_by_rfc6724_with_srcs_lem}
use spoof_dpi_turkiye.AddrSelect.Sources.{System, default_src_addrs}
use spoof_dpi_turkiye.AddrSelect.Sources.Totality.{sort_by_rfc6724-default_src_addrs}
use spoof_dpi_turkiye.AddrSelect.CommonPrefix.{shared_bits, unmapped, common_prefix_len_lem}

abbrev host6_bytes : Bytes
host6_bytes = 0x26 ∷ 0x06 ∷ 0x47 ∷ 0 ∷ 0 ∷ 0 ∷ 0 ∷ 0 ∷ 0 ∷ 0 ∷ 0 ∷ 0 ∷ 0 ∷ 0 ∷ 0x11 ∷ 0x11 ∷ []

abbrev source6_bytes : Bytes
source6_bytes = 0x26 ∷ 0x06 ∷ 0x40 ∷ 0 ∷ 0 ∷ 0 ∷ 0 ∷ 0 ∷ 0 ∷ 0 ∷ 0 ∷ 0 ∷ 0 ∷ 0 ∷ 0 ∷ 7 ∷ []

abbrev host6 : IpAddr
host6 = record { ip = host6_bytes; zone = [] }

abbrev host4 : IpAddr
host4 = record { ip = 1 ∷ 1 ∷ 1 ∷ 1 ∷ []; zone = [] }

abbrev source6 : SrcInfo
source6 = record {
  addr = ip6 source6_bytes;
  is_native = true;
  is_deprecated = false;
  is_home = false;
}

abbrev source4 : SrcInfo
source4 = record {
  addr = ip4 (192 ∷ 168 ∷ 1 ∷ 2 ∷ []);
  is_native = true;
  is_deprecated = false;
  is_home = false;
}

-- A source that the operating system deprecates.
abbrev old_source6 : SrcInfo
old_source6 = record source6 { is_deprecated = true }

less-lex_example :
    less (row_of host6 source6) (row_of host4 source4)
    ≡ lex (key (row_of host6 source6)) (key (row_of host4 source4))
less-lex_example = less-lex host6 host4 source6 source4

-- The IPv6 host wins over the IPv4 one, and over itself from a deprecated source.
host6-first : less (row_of host6 source6) (row_of host4 source4) ≡ true
unfolding less row_of rule1 rule2 rule3 rule4 rule5 rule6 rule7 rule8 rule9 ip_attr_of classify
    classify_scope addr_from_slice first_match rfc6724_policy_table prefix_contains same_prefix
host6-first = refl

deprecated_last : less (row_of host4 source4) (row_of host6 old_source6) ≡ true
unfolding less row_of rule1 rule2 rule3 rule4 rule5 rule6 rule7 rule8 rule9 ip_attr_of classify
    classify_scope addr_from_slice first_match rfc6724_policy_table prefix_contains same_prefix
deprecated_last = refl

sort_by_rfc6724_with_srcs_lem_example :
    (rows : List Row) × (sort_by_rfc6724_with_srcs (host4 ∷ host6 ∷ []) (source4 ∷ source6 ∷ [])
      ≡ some (addrs_of rows))
    × Perm rows (rows_of (host4 ∷ host6 ∷ []) (source4 ∷ source6 ∷ []))
    × Ordered (λ x y. less y x ≡ false) rows
    × (keep (tied (row_of host6 source6)) rows
        ≡ keep
            (tied (row_of host6 source6))
            (rows_of (host4 ∷ host6 ∷ []) (source4 ∷ source6 ∷ [])))
sort_by_rfc6724_with_srcs_lem_example =
    sort_by_rfc6724_with_srcs_lem (host4 ∷ host6 ∷ []) (source4 ∷ source6 ∷ []) host6 source6 refl

abbrev machine : System
machine = record {
  local_addr = λ dst. some (192 ∷ 168 ∷ 1 ∷ 2 ∷ []);
  interfaces =
      record {
        name = bytes "eth0";
        is_point_to_point = false;
        addrs = (192 ∷ 168 ∷ 1 ∷ 2 ∷ []) ∷ [];
      }
      ∷ [];
  addr_flags = none;
}

sort_by_rfc6724-default_src_addrs_example :
    (sorted : List IpAddr) × (sort_by_rfc6724
        (default_src_addrs machine)
        (host4 ∷ host6 ∷ host4 ∷ [])
      ≡ some sorted)
    × Perm sorted (host4 ∷ host6 ∷ host4 ∷ [])
sort_by_rfc6724-default_src_addrs_example =
    sort_by_rfc6724-default_src_addrs machine (host4 ∷ host6 ∷ host4 ∷ [])

abbrev are_bytes : Bytes → Bool
are_bytes [] = true
are_bytes (x ∷ b) = ltb x 256 && are_bytes b

are_bytes-All : (b : Bytes) → are_bytes b ≡ true → All (λ x. x < 256) b
are_bytes-All [] h = tt
are_bytes-All (x ∷ b) h = (ltb→lt x 256 (ground arith), are_bytes-All b (ground arith))

common_prefix_len_lem_example :
    common_prefix_len (ip6 source6_bytes) host6_bytes
    ≡ shared_bits (unmapped source6_bytes) (unmapped host6_bytes)
unfolding to4
common_prefix_len_lem_example =
    common_prefix_len_lem (ip6 source6_bytes) host6_bytes (refl, refl)
      (are_bytes-All source6_bytes refl) (are_bytes-All host6_bytes refl)
