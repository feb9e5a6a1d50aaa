-- ===== src/AddrSelect/Flags.antt =====
-- The flags of the machine's IPv6 addresses: dns/addrselect/addrselect_linux.go. The lines of
-- /proc/net/if_inet6 are given.
pub mod HexRoundTrip
use Prim.Native.Nat.{bit_and}
use spoof_dpi_turkiye.Prelude.{
  ℕ, ◌+◌, ◌-◌, ◌*◌, ◌^◌, Bool, true, false, not, ◌&&◌, ◌||◌, List, [], ◌∷◌, ◌++◌, Option, none,
  some, Bytes, bytes_eq, length, ltb, leb, ◌==◌, get_or, if◌then◌else◌,
}
use spoof_dpi_turkiye.AddrSelect.Ip.{Addr, undefined, ip4, ip6}

pub record AddrFlags : Type 0 where
  pub is_deprecated : Bool
  pub is_home : Bool

abbrev pub no_flags : AddrFlags
no_flags = record { is_deprecated = false; is_home = false }

-- `==` on addresses without zones.
abbrev pub addr_eq : Addr → Addr → Bool
addr_eq undefined undefined = true
addr_eq (ip4 a) (ip4 b) = bytes_eq a b
addr_eq (ip6 a) (ip6 b) = bytes_eq a b
addr_eq a b = false

-- A Go map from addresses, what was put in last first; a missing key gives the zero value.
unfoldable pub flags_of : List (Addr × AddrFlags) → Addr → AddrFlags
flags_of [] a = no_flags
flags_of ((x, f) ∷ m) a = if addr_eq x a then f else flags_of m a

unfoldable pub hex_digit : ℕ → Option ℕ
hex_digit c =
    if leb b'0' c && leb c b'9'
    then some (c - b'0')
    else if leb b'a' c && leb c b'f'
    then some (c - b'a' + 10)
    else if leb b'A' c && leb c b'F'
    then some (c - b'A' + 10)
    else none

-- The value of hexadecimal digits behind those that make up `n`.
unfoldable pub hex_value : ℕ → Bytes → Option ℕ
unfolding hex_digit
hex_value n [] = some n
hex_value n (c ∷ s) = elim (hex_digit c) [ none ↦ none | some d ↦ hex_value (n * 16 + d) s ]

abbrev within : ℕ → Option ℕ → Option ℕ
within bit_size none = none
within bit_size (some n) = if ltb n (2 ^ bit_size) then some n else none

-- `strconv.ParseUint` in base 16, with `none` for its errors.
unfoldable pub parse_uint16 : Bytes → ℕ → Option ℕ
unfolding hex_value
parse_uint16 [] bit_size = none
parse_uint16 (c ∷ s) bit_size = within bit_size (hex_value 0 (c ∷ s))

-- The loop of `parseIPv6Hex`; a digit without a partner is not there for a text of 32.
unfoldable pub parse_pairs : Bytes → Option Bytes
parse_pairs [] = some []
parse_pairs (c ∷ []) = none
parse_pairs (c ∷ d ∷ s) =
    let rest = parse_pairs s in
    elim (parse_uint16 (c ∷ d ∷ []) 8) [
      | none ↦ none
      | some b ↦ elim rest [ none ↦ none | some ip ↦ some (b ∷ ip) ]
    ]

unfoldable pub parse_ipv6_hex : Bytes → Option Addr
parse_ipv6_hex s =
    if not (length s == 32)
    then none
    else elim (parse_pairs s) [ none ↦ none | some ip ↦ some (ip6 ip) ]

-- `strings.Fields` of an ASCII line, with the field so far.
abbrev is_separator : ℕ → Bool
is_separator c = leb 9 c && leb c 13 || c == 32

abbrev close_field : Bytes → List Bytes → List Bytes
close_field [] fields = fields
close_field (c ∷ field) fields = (c ∷ field) ∷ fields

unfoldable pub fields_of : Bytes → Bytes → List Bytes
fields_of field [] = close_field field []
fields_of field (c ∷ s) =
    let next = fields_of [] s in
    let more = fields_of (field ++ c ∷ []) s in
    if is_separator c then close_field field next else more

-- From the flags of a line on.
unfoldable pub add_flags : List (Addr × AddrFlags) → Bytes → ℕ → List (Addr × AddrFlags)
add_flags m ip flags =
    let is_deprecated = not (bit_and flags 0x20 == 0) in
    let is_home = not (bit_and flags 0x10 == 0) in
    if is_deprecated || is_home
    then elim (parse_ipv6_hex ip) [
      | none ↦ m
      | some addr ↦ (addr, record { is_deprecated = is_deprecated; is_home = is_home }) ∷ m
    ]
    else m

-- One round of the scanner's loop.
unfoldable pub add_line : List (Addr × AddrFlags) → Bytes → List (Addr × AddrFlags)
add_line m line =
    let fields = fields_of [] line in
    if ltb (length fields) 6 then m else elim (parse_uint16 (get_or fields 4 []) 64) [
      | none ↦ m
      | some flags ↦ add_flags m (get_or fields 0 []) flags
    ]

unfoldable pub add_lines : List (Addr × AddrFlags) → List Bytes → List (Addr × AddrFlags)
add_lines m [] = m
add_lines m (line ∷ lines) = add_lines (add_line m line) lines

-- `none` of the lines is a file that does not open, and that of the result the nil map.
unfoldable pub get_addr_flags : Option (List Bytes) → Option (List (Addr × AddrFlags))
unfolding add_lines
get_addr_flags none = none
get_addr_flags (some lines) = some (add_lines [] lines)
