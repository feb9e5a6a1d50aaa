-- ===== src/Net.antt =====
-- `net.ParseIP`, with `netip.ParseAddr`, which proxy/proxy.go and dns/dns.go call.
pub mod Literal
pub mod Octets
pub mod Text
mod Tests
use spoof_dpi_turkiye.Prelude.{
  ℕ, zero, suc, ◌+◌, ◌*◌, ◌-◌, ◌/◌, ◌%◌, Bool, true, false, not, ◌&&◌, ◌||◌, List, [], ◌∷◌, ◌++◌,
  map, Option, none, some, ◌>>=◌, Bytes, bytes, itoa, length, take, drop, ltb, leb, ◌==◌,
  if◌then◌else◌,
}
use spoof_dpi_turkiye.AddrSelect.Ip.{IpAddr, mapped_prefix, zeros, to4}
use spoof_dpi_turkiye.AddrSelect.Flags.{hex_digit}
use spoof_dpi_turkiye.Log.{hex_char}
use spoof_dpi_turkiye.Resolver.Answer.{is_empty}

abbrev pub is_digit : ℕ → Bool
is_digit c = leb b'0' c && leb c b'9'

-- The loop of `parseIPv4Fields`: whether a field begins, `val` and `digLen` of the field, and the
-- fields before it.
unfoldable pub ipv4_fields : Bool → ℕ → ℕ → Bytes → Bytes → Option Bytes
ipv4_fields fresh val dig_len before [] =
    if length before == 3 then some (before ++ val ∷ []) else none
ipv4_fields fresh val dig_len before (c ∷ s) =
    let next = val * 10 + (c - b'0') in
    let digit = ipv4_fields false next (dig_len + 1) before s in
    let dot = ipv4_fields true 0 0 (before ++ val ∷ []) s in
    if is_digit c
    then if dig_len == 1 && val == 0 then none else if ltb 255 next then none else digit
    else if c == b'.'
    then if fresh || is_empty s then none else if length before == 3 then none else dot
    else none

unfoldable pub parse_ipv4 : Bytes → Option Bytes
unfolding ipv4_fields
parse_ipv4 s = ipv4_fields true 0 0 [] s

-- The hexadecimal digits in front, at most four: their number, how many they are, and the rest.
unfoldable pub hex_group : ℕ → ℕ → Bytes → Option (ℕ × ℕ × Bytes)
unfolding hex_digit
hex_group acc off [] = some (acc, off, [])
hex_group acc off (c ∷ s) = elim (hex_digit c) [
  | none ↦ some (acc, off, c ∷ s)
  | some d ↦ let rest = hex_group (acc * 16 + d) (off + 1) s in if ltb 3 off then none else rest
]

abbrev pub split_group : ℕ → Bytes
split_group acc = (acc / 256 % 256) ∷ (acc % 256) ∷ []

-- The address, the place of the ellipsis and the rest of the text behind the loop of `parseIPv6`.
abbrev pub Parsed6 : Type 0
Parsed6 = Bytes × Option ℕ × Bytes

-- An IPv4 address that ends the text.
unfoldable pub embedded : Bytes → Option ℕ → Bytes → Option Parsed6
unfolding parse_ipv4
embedded ip ellipsis s =
    let early : Bool = elim ellipsis [ none ↦ not (length ip == 12) | some e ↦ false ] in
    if early || ltb 12 (length ip)
    then none
    else elim (parse_ipv4 s) [ none ↦ none | some b ↦ some (ip ++ b, ellipsis, []) ]

-- Behind the digits of a group; `loop` is the next round, and `group` the text from the digits on.
unfoldable pub after_group :
    (Bytes → Option ℕ → Bytes → Option Parsed6)
    → Bytes
    → Option ℕ
    → Bytes
    → ℕ
    → Bytes
    → Option Parsed6
unfolding embedded
after_group loop ip ellipsis group acc [] = some (ip ++ split_group acc, ellipsis, [])
after_group loop ip ellipsis group acc (c ∷ []) =
    if c == b'.' then embedded ip ellipsis group else none
after_group loop ip ellipsis group acc (c ∷ d ∷ s) =
    let own = ip ++ split_group acc in
    let next : Option Parsed6 = elim ellipsis [
      | some e ↦ none
      | none ↦
          if is_empty s then some (own, some (length own), []) else loop own (some (length own)) s
    ] in
    if c == b'.'
    then embedded ip ellipsis group
    else if not (c == b':')
    then none
    else if d == b':'
    then next
    else loop own ellipsis (d ∷ s)

-- The loop of `parseIPv6`. A round writes two bytes at least, so eight are enough.
unfoldable pub ipv6_groups : ℕ → Bytes → Option ℕ → Bytes → Option Parsed6
unfolding hex_group after_group
ipv6_groups zero ip ellipsis s = some (ip, ellipsis, s)
ipv6_groups (suc fuel) ip ellipsis s = elim (hex_group 0 0 s) [
  | none ↦ none
  | some (acc, off, rest) ↦
      if off == 0 then none else after_group (ipv6_groups fuel) ip ellipsis s acc rest
]

-- Behind the loop: the ellipsis is filled with zeros.
abbrev pub expand : Parsed6 → Option Bytes
expand (ip, ellipsis, s) =
    let filled : Option Bytes = elim ellipsis [
      | none ↦ none
      | some e ↦ some (take e ip ++ (take (16 - length ip) zeros ++ drop e ip))
    ] in
    let full : Option Bytes = elim ellipsis [ none ↦ some ip | some e ↦ none ] in
    if not (is_empty s) then none else if ltb (length ip) 16 then filled else full

abbrev pub groups_from : Option ℕ → Bytes → Option Bytes
groups_from ellipsis s = elim (ipv6_groups 8 [] ellipsis s) [ none ↦ none | some r ↦ expand r ]

unfoldable pub parse_ipv6 : Bytes → Option Bytes
unfolding ipv6_groups
parse_ipv6 [] = groups_from none []
parse_ipv6 (c ∷ []) = groups_from none (c ∷ [])
parse_ipv6 (c ∷ d ∷ s) =
    if c == b':' && d == b':'
    then if is_empty s then some zeros else groups_from (some 0) s
    else groups_from none (c ∷ d ∷ s)

-- The first of the marks that `ParseAddr` looks for decides.
unfoldable pub by_mark : Bytes → Bytes → Option Bytes
unfolding parse_ipv4 parse_ipv6
by_mark whole [] = none
by_mark whole (c ∷ s) =
    let rest = by_mark whole s in
    if c == b'.'
    then elim (parse_ipv4 whole) [ none ↦ none | some b ↦ some (mapped_prefix ++ b) ]
    else if c == b':'
    then parse_ipv6 whole
    else if c == b'%'
    then none
    else rest

abbrev pub has_zone : Bytes → Bool
has_zone [] = false
has_zone (c ∷ s) = c == b'%' || has_zone s

-- `net.ParseIP`, which takes no address with a zone.
unfoldable pub parse_ip : Bytes → Option Bytes
unfolding by_mark
parse_ip s = if has_zone s then none else by_mark s s
