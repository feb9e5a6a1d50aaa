-- ===== src/AddrSelect/Policy.antt =====
-- The policy table and the attributes of an address: dns/addrselect/addrselect.go, from
-- `policyTable` to `classifyScope`, and `ipAttrOf`.
use Prim.Native.Nat.{bit_and}
use spoof_dpi_turkiye.Prelude.{
  ℕ, ◌-◌, ◌/◌, ◌^◌, Bool, true, false, not, ◌&&◌, ◌||◌, List, [], ◌∷◌, Bytes, get_or, ◌==◌, leb,
  if◌then◌else◌,
}
use spoof_dpi_turkiye.AddrSelect.Ip.{
  Addr, undefined, ip4, ip6, zeros, loopback6, is_valid, is4, is6, is4_in6, as16, is_loopback,
  is_link_local_unicast, is_multicast,
}

-- `netip.Prefix`: the address is the table's, always of 16 bytes.
pub record PolicyTableEntry : Type 0 where
  pub prefix : Bytes
  pub bits : ℕ
  pub precedence : ℕ
  pub label : ℕ

-- The first `bits` bits of two addresses are the same.
unfoldable pub same_prefix : ℕ → Bytes → Bytes → Bool
same_prefix bits [] [] = true
same_prefix bits [] (y ∷ ys) = false
same_prefix bits (x ∷ xs) [] = false
same_prefix bits (x ∷ xs) (y ∷ ys) =
    let rest = same_prefix (bits - 8) xs ys in
    if bits == 0
    then true
    else if leb 8 bits
    then x == y && rest
    else x / 2 ^ (8 - bits) == y / 2 ^ (8 - bits)

-- `netip.Prefix.Contains` for a prefix of an IPv6 address: an IPv4 address is in none.
unfoldable pub prefix_contains : PolicyTableEntry → Addr → Bool
prefix_contains ent undefined = false
prefix_contains ent (ip4 b) = false
prefix_contains ent (ip6 b) = same_prefix ent.bits ent.prefix b

abbrev entry : Bytes → ℕ → ℕ → ℕ → PolicyTableEntry
entry prefix bits precedence label = record {
  prefix = prefix;
  bits = bits;
  precedence = precedence;
  label = label;
}

-- An address of two given bytes and fourteen zeros.
abbrev addr_of2 : ℕ → ℕ → Bytes
addr_of2 a b = a ∷ b ∷ 0 ∷ 0 ∷ 0 ∷ 0 ∷ 0 ∷ 0 ∷ 0 ∷ 0 ∷ 0 ∷ 0 ∷ 0 ∷ 0 ∷ 0 ∷ 0 ∷ []

abbrev pub mapped_addr : Bytes
mapped_addr = 0 ∷ 0 ∷ 0 ∷ 0 ∷ 0 ∷ 0 ∷ 0 ∷ 0 ∷ 0 ∷ 0 ∷ 0xff ∷ 0xff ∷ 0 ∷ 0 ∷ 0 ∷ 0 ∷ []

unfoldable pub rfc6724_policy_table : List PolicyTableEntry
rfc6724_policy_table =
    entry loopback6 128 50 0
    ∷ entry mapped_addr 96 35 4
    ∷ entry zeros 96 1 3
    ∷ entry (addr_of2 0x20 0x01) 32 5 5
    ∷ entry (addr_of2 0x20 0x02) 16 30 2
    ∷ entry (addr_of2 0x3f 0xfe) 16 1 12
    ∷ entry (addr_of2 0xfe 0xc0) 10 1 11
    ∷ entry (addr_of2 0xfc 0x00) 7 3 13
    ∷ entry zeros 0 40 1
    ∷ []

-- The zero value of the struct.
abbrev pub no_entry : PolicyTableEntry
no_entry = entry [] 0 0 0

-- The loop of `Classify`.
unfoldable pub first_match : List PolicyTableEntry → Addr → PolicyTableEntry
first_match [] ip = no_entry
first_match (ent ∷ t) ip = if prefix_contains ent ip then ent else first_match t ip

unfoldable pub classify : List PolicyTableEntry → Addr → PolicyTableEntry
classify t ip = first_match t (if is4 ip then ip6 (as16 ip) else ip)

abbrev pub scope_link_local : ℕ
scope_link_local = 0x2

abbrev pub scope_site_local : ℕ
scope_site_local = 0x5

abbrev pub scope_global : ℕ
scope_global = 0xe

unfoldable pub classify_scope : Addr → ℕ
unfolding is_loopback is_link_local_unicast is_multicast
classify_scope ip =
    let ipv6 = is6 ip && not (is4_in6 ip) in
    let b0 = get_or (as16 ip) 0 0 in
    let b1 = get_or (as16 ip) 1 0 in
    if is_loopback ip || is_link_local_unicast ip
    then scope_link_local
    else if ipv6 && is_multicast ip
    then bit_and b1 0xf
    else if ipv6 && (b0 == 0xfe && bit_and b1 0xc0 == 0xc0)
    then scope_site_local
    else scope_global

pub record IpAttr : Type 0 where
  pub scope : ℕ
  pub precedence : ℕ
  pub label : ℕ
  pub is_native : Bool
  pub is_deprecated : Bool
  pub is_home : Bool

unfoldable pub ip_attr_of : Addr → IpAttr
ip_attr_of ip =
    let match = classify rfc6724_policy_table ip in
    if not (is_valid ip)
    then record {
      scope = 0;
      precedence = 0;
      label = 0;
      is_native = false;
      is_deprecated = false;
      is_home = false;
    }
    else record {
      scope = classify_scope ip;
      precedence = match.precedence;
      label = match.label;
      is_native = false;
      is_deprecated = false;
      is_home = false;
    }
