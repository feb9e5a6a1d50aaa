-- ===== src/AddrSelect/Rules.antt =====
-- `Less` and `commonPrefixLen` of dns/addrselect/addrselect.go. The four parallel slices of
-- `byRFC6724`, which `Swap` permutes together, are one list of rows.
use Prim.Native.Nat.{bit_xor}
use spoof_dpi_turkiye.Prelude.{
  ℕ, ◌+◌, Bool, true, false, not, ◌&&◌, List, [], ◌∷◌, Option, none, some, Bytes, length, take,
  ◌==◌, ltb, if◌then◌else◌,
}
use spoof_dpi_turkiye.AddrSelect.Ip.{IpAddr, Addr, is_valid, as_slice, addr_from_slice, to4}
use spoof_dpi_turkiye.AddrSelect.Policy.{IpAttr, ip_attr_of}

pub record SrcInfo : Type 0 where
  pub addr : Addr
  pub is_native : Bool
  pub is_deprecated : Bool
  pub is_home : Bool

-- What the slices of `byRFC6724` hold at one index.
pub record Row : Type 0 where
  pub addr : IpAddr
  pub addr_attr : IpAttr
  pub src : SrcInfo
  pub src_attr : IpAttr

-- `bits.LeadingZeros8`: eight less the bit length of a byte.
unfoldable pub leading_zeros8 : ℕ → ℕ
leading_zeros8 x =
    if ltb 127 x
    then 0
    else if ltb 63 x
    then 1
    else if ltb 31 x
    then 2
    else if ltb 15 x
    then 3
    else if ltb 7 x
    then 4
    else if ltb 3 x
    then 5
    else if ltb 1 x
    then 6
    else if ltb 0 x
    then 7
    else 8

-- The loop of `commonPrefixLen`, over slices of one length.
unfoldable pub common_bits : Bytes → Bytes → ℕ
unfolding leading_zeros8
common_bits [] b = 0
common_bits (x ∷ a) [] = 0
common_bits (x ∷ a) (y ∷ b) =
    let rest = common_bits a b in
    let diff = bit_xor x y in if diff == 0 then 8 + rest else leading_zeros8 diff

abbrev to4_or_self : Bytes → Bytes
to4_or_self b = elim (to4 b) [ none ↦ b | some b4 ↦ b4 ]

unfoldable pub common_prefix_len : Addr → Bytes → ℕ
common_prefix_len a b =
    let s = as_slice a in
    let t = to4_or_self b in
    if not (length s == length t)
    then 0
    else if ltb 8 (length s)
    then common_bits (take 8 s) (take 8 t)
    else common_bits s t

-- A rule prefers DA (`some true`), prefers DB (`some false`) or leaves it to the next (`none`).
abbrev pub prefer : Bool → Bool → Option Bool
prefer da db = if da && not db then some true else if not da && db then some false else none

unfoldable pub rule1 : Row → Row → Option Bool
rule1 a b =
    if not (is_valid a.src.addr) && not (is_valid b.src.addr)
    then some false
    else if not (is_valid b.src.addr)
    then some true
    else if not (is_valid a.src.addr)
    then some false
    else none

abbrev pub scope_matches : Row → Bool
scope_matches r = r.addr_attr.scope == r.src_attr.scope

unfoldable pub rule2 : Row → Row → Option Bool
rule2 a b = prefer (scope_matches a) (scope_matches b)

-- Rule 3 prefers DB where DA's source alone is deprecated.
unfoldable pub rule3 : Row → Row → Option Bool
rule3 a b =
    if a.src_attr.is_deprecated && not b.src_attr.is_deprecated
    then some false
    else if not a.src_attr.is_deprecated && b.src_attr.is_deprecated
    then some true
    else none

unfoldable pub rule4 : Row → Row → Option Bool
rule4 a b = prefer a.src_attr.is_home b.src_attr.is_home

abbrev pub label_matches : Row → Bool
label_matches r = r.src_attr.label == r.addr_attr.label

unfoldable pub rule5 : Row → Row → Option Bool
rule5 a b = prefer (label_matches a) (label_matches b)

unfoldable pub rule6 : Row → Row → Option Bool
rule6 a b =
    if ltb b.addr_attr.precedence a.addr_attr.precedence
    then some true
    else if ltb a.addr_attr.precedence b.addr_attr.precedence
    then some false
    else none

unfoldable pub rule7 : Row → Row → Option Bool
rule7 a b = prefer a.src_attr.is_native b.src_attr.is_native

unfoldable pub rule8 : Row → Row → Option Bool
rule8 a b =
    if ltb a.addr_attr.scope b.addr_attr.scope
    then some true
    else if ltb b.addr_attr.scope a.addr_attr.scope
    then some false
    else none

-- `ip.To4() == nil`
abbrev pub not_to4 : Row → Bool
not_to4 r = elim (to4 r.addr.ip) [ none ↦ true | some b ↦ false ]

abbrev pub common_of : Row → ℕ
common_of r = common_prefix_len r.src.addr r.addr.ip

unfoldable pub rule9 : Row → Row → Option Bool
rule9 a b =
    if not_to4 a && not_to4 b
    then if ltb (common_of b) (common_of a)
      then some true
      else if ltb (common_of a) (common_of b)
      then some false
      else none
    else none

-- The first rule that decides; rule 10 leaves the order unchanged.
unfoldable pub decide : List (Option Bool) → Bool
decide [] = false
decide (some v ∷ rest) = v
decide (none ∷ rest) = decide rest

unfoldable pub less : Row → Row → Bool
unfolding decide
less a b = decide (
    rule1 a b
    ∷ rule2 a b
    ∷ rule3 a b
    ∷ rule4 a b
    ∷ rule5 a b
    ∷ rule6 a b
    ∷ rule7 a b
    ∷ rule8 a b
    ∷ rule9 a b
    ∷ [])

-- One round of the loop that fills `addrAttr` and `srcAttr`.
unfoldable pub row_of : IpAddr → SrcInfo → Row
row_of addr src = record {
  addr = addr;
  addr_attr = ip_attr_of (addr_from_slice addr.ip);
  src = src;
  src_attr = record (ip_attr_of src.addr) {
    is_native = src.is_native;
    is_deprecated = src.is_deprecated;
    is_home = src.is_home;
  };
}
