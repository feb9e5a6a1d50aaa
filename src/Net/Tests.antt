-- ===== src/Net/Tests.antt =====
-- Runs of the definitions of package net.
use spoof_dpi_turkiye.Prelude.{◌≡◌, refl, some, none, [], ◌∷◌, bytes, itoa, split_host_port}
use spoof_dpi_turkiye.Net.{
  parse_ip, by_mark, parse_ipv4, ipv4_fields, parse_ipv6, ipv6_groups, after_group, embedded,
  hex_group,
}
use spoof_dpi_turkiye.Net.Text.{ip_string, string6, dotted, longest_run}
use spoof_dpi_turkiye.AddrSelect.Flags.{hex_digit}
use spoof_dpi_turkiye.AddrSelect.Ip.{to4}
use spoof_dpi_turkiye.Log.{hex_char}

parses_short :
    parse_ip (bytes "2606:4700::1111")
    ≡ some (0x26 ∷ 0x06 ∷ 0x47 ∷ 0 ∷ 0 ∷ 0 ∷ 0 ∷ 0 ∷ 0 ∷ 0 ∷ 0 ∷ 0 ∷ 0 ∷ 0 ∷ 0x11 ∷ 0x11 ∷ [])
unfolding parse_ip by_mark parse_ipv4 ipv4_fields parse_ipv6 ipv6_groups after_group embedded
    hex_group hex_digit
parses_short = refl

prints_short :
    ip_string (0x26 ∷ 0x06 ∷ 0x47 ∷ 0 ∷ 0 ∷ 0 ∷ 0 ∷ 0 ∷ 0 ∷ 0 ∷ 0 ∷ 0 ∷ 0 ∷ 0 ∷ 0x11 ∷ 0x11 ∷ [])
    ≡ bytes "2606:4700::1111"
unfolding ip_string string6 dotted longest_run to4 hex_char
prints_short = refl

parses_mapped : parse_ip (bytes "::ffff:1.2.3.4") ≡ parse_ip (bytes "1.2.3.4")
unfolding parse_ip by_mark parse_ipv4 ipv4_fields parse_ipv6 ipv6_groups after_group embedded
    hex_group hex_digit
parses_mapped = refl

leading_zero : parse_ip (bytes "1.2.3.04") ≡ none
unfolding parse_ip by_mark parse_ipv4 ipv4_fields parse_ipv6 ipv6_groups after_group embedded
    hex_group hex_digit
leading_zero = refl

no_address : parse_ip (bytes "localhost") ≡ none
unfolding parse_ip by_mark parse_ipv4 ipv4_fields parse_ipv6 ipv6_groups after_group embedded
    hex_group hex_digit
no_address = refl

trailing_ellipsis :
    parse_ip (bytes "1:2:3:4:5:6:7::")
    ≡ some (0 ∷ 1 ∷ 0 ∷ 2 ∷ 0 ∷ 3 ∷ 0 ∷ 4 ∷ 0 ∷ 5 ∷ 0 ∷ 6 ∷ 0 ∷ 7 ∷ 0 ∷ 0 ∷ [])
unfolding parse_ip by_mark parse_ipv4 ipv4_fields parse_ipv6 ipv6_groups after_group embedded
    hex_group hex_digit
trailing_ellipsis = refl

trailing_colon : parse_ip (bytes "1:2:3:4:5:6:7:8:") ≡ none
unfolding parse_ip by_mark parse_ipv4 ipv4_fields parse_ipv6 ipv6_groups after_group embedded
    hex_group hex_digit
trailing_colon = refl

prints_ipv4 : ip_string (127 ∷ 0 ∷ 0 ∷ 1 ∷ []) ≡ bytes "127.0.0.1"
unfolding ip_string string6 dotted longest_run to4 hex_char itoa
prints_ipv4 = refl

-- A host in brackets without a port is not split, and is no address with its brackets on.
keeps_brackets : (split_host_port (bytes "[::1]") ≡ none) × (parse_ip (bytes "[::1]") ≡ none)
unfolding split_host_port parse_ip by_mark parse_ipv4 ipv4_fields parse_ipv6 ipv6_groups after_group
    embedded hex_group hex_digit
keeps_brackets = (refl, refl)
