-- ===== src/AddrSelect/Flags/HexRoundTrip.antt =====
-- `parseIPv6Hex` of dns/addrselect/addrselect_linux.go against the text of an address.
use spoof_dpi_turkiye.Prelude.{
  ℕ, ◌+◌, ◌-◌, ◌*◌, ◌/◌, ◌%◌, ◌<◌, ◌≡◌, refl, ap, ◌∙◌, [], ◌∷◌, some, arith, Bytes, length, All,
  ltb, if◌then◌else◌,
}
use spoof_dpi_turkiye.AddrSelect.Ip.{ip6}
use spoof_dpi_turkiye.AddrSelect.Flags.{
  hex_digit, hex_value, parse_uint16, parse_pairs, parse_ipv6_hex,
}

-- The kernel's text: two digits for each byte, in lower case.
abbrev pub digit : ℕ → ℕ
digit d = if ltb d 10 then b'0' + d else b'a' + (d - 10)

abbrev pub hex_of : Bytes → Bytes
hex_of [] = []
hex_of (x ∷ b) = digit (x / 16) ∷ digit (x % 16) ∷ hex_of b

hex_digit-digit : (d : ℕ) → d < 16 → hex_digit (digit d) ≡ some d
unfolding hex_digit
hex_digit-digit d lt = ground arith

parse_uint16_pair :
    (c d h l : ℕ)
    → hex_digit c ≡ some h
    → hex_digit d ≡ some l
    → h * 16 + l < 256
    → parse_uint16 (c ∷ d ∷ []) 8 ≡ some (h * 16 + l)
unfolding parse_uint16 hex_value
parse_uint16_pair c d h l e f lt = ground arith

parse_uint16-digit :
    (x : ℕ) → x < 256 → parse_uint16 (digit (x / 16) ∷ digit (x % 16) ∷ []) 8 ≡ some x
parse_uint16-digit x lt =
    let whole : x / 16 * 16 + x % 16 ≡ x = omega arith in
    parse_uint16_pair _ _ (x / 16) (x % 16) (hex_digit-digit (x / 16) (omega arith))
      (hex_digit-digit (x % 16) (omega arith)) (omega (arith, whole))
    ∙ ap some whole

length-hex_of : (b : Bytes) → length (hex_of b) ≡ 2 * length b
length-hex_of [] = refl
length-hex_of (x ∷ b) = omega (arith, length-hex_of b)

parse_pairs_more :
    (c d b : ℕ) (s ip : Bytes)
    → parse_uint16 (c ∷ d ∷ []) 8 ≡ some b
    → parse_pairs s ≡ some ip
    → parse_pairs (c ∷ d ∷ s) ≡ some (b ∷ ip)
unfolding parse_pairs
parse_pairs_more c d b s ip e f = ground arith

parse_pairs-hex_of : (b : Bytes) → All (λ x. x < 256) b → parse_pairs (hex_of b) ≡ some b
unfolding parse_pairs
parse_pairs-hex_of [] h = refl
parse_pairs-hex_of (x ∷ b) h =
    parse_pairs_more _ _ x _ b (parse_uint16-digit x h.0) (parse_pairs-hex_of b h.1)

-- Sixteen bytes, written as two hexadecimal digits each in lower case, are read back as the
-- IPv6 address of these bytes.
pub parse_ipv6_hex-hex_of :
    (b : Bytes) → length b ≡ 16 → All (λ x. x < 256) b → parse_ipv6_hex (hex_of b) ≡ some (ip6 b)
unfolding parse_ipv6_hex
parse_ipv6_hex-hex_of b len h = ground (arith, length-hex_of b, parse_pairs-hex_of b h)
