-- ===== src/AddrSelect/Family.antt =====
-- Precedences and address families, for rules 6 and 9 of `Less` (dns/addrselect/addrselect.go).
use spoof_dpi_turkiye.Prelude.{
  ℕ, zero, suc, ◌-◌, ◌*◌, ◌≡◌, refl, sym, ap, ◌∙◌, Bool, true, false, [], ◌∷◌, ◌++◌, none, some,
  inl, inr, arith, Bytes, bytes_eq, bytes_eq→eq, subst, false≢true, length, take, drop,
  take-append-drop, length-drop, ◌==◌, Bool-cases,
}
use spoof_dpi_turkiye.AddrSelect.Ip.{ip6, mapped_prefix, is_mapped, addr_from_slice, to4}
use spoof_dpi_turkiye.AddrSelect.Policy.{
  same_prefix, prefix_contains, mapped_addr, first_match, rfc6724_policy_table, classify,
  ip_attr_of,
}

abbrev pub precedence_of : Bytes → ℕ
precedence_of ip = (ip_attr_of (addr_from_slice ip)).precedence

same_prefix-zero : (xs ys : Bytes) → length xs ≡ length ys → same_prefix 0 xs ys ≡ true
unfolding same_prefix
same_prefix-zero [] [] e = refl
same_prefix-zero [] (y ∷ ys) e = absurd (omega arith)
same_prefix-zero (x ∷ xs) [] e = absurd (omega arith)
same_prefix-zero (x ∷ xs) (y ∷ ys) e = refl

mapped_precedence :
    (b : Bytes)
    → length b ≡ 4
    → (first_match rfc6724_policy_table (ip6 (mapped_prefix ++ b))).precedence ≡ 35
unfolding first_match rfc6724_policy_table prefix_contains same_prefix
mapped_precedence b e = rw (same_prefix-zero (0 ∷ 0 ∷ 0 ∷ 0 ∷ []) b (sym e))

-- A prefix of whole bytes is compared byte by byte.
same_prefix-take :
    (n : ℕ) (xs ys : Bytes)
    → same_prefix (8 * n) xs ys ≡ true
    → bytes_eq (take n ys) (take n xs) ≡ true
unfolding same_prefix
same_prefix-take zero xs ys h = refl
same_prefix-take (suc n) [] [] h = refl
same_prefix-take (suc n) [] (y ∷ ys) h = ground arith
same_prefix-take (suc n) (x ∷ xs) [] h = ground arith
same_prefix-take (suc n) (x ∷ xs) (y ∷ ys) h =
    let less_eight : 8 * suc n - 8 ≡ 8 * n = omega arith in
    ground (arith, less_eight, same_prefix-take n xs ys)

not_in_mapped : (ip : Bytes) → is_mapped ip ≡ false → same_prefix 96 mapped_addr ip ≡ false
not_in_mapped ip h = elim (Bool-cases (same_prefix 96 mapped_addr ip)) [
  | inl e ↦ absurd (false≢true (sym h ∙ same_prefix-take 12 mapped_addr ip e))
  | inr e ↦ e
]

unmapped_precedence :
    (ip : Bytes)
    → is_mapped ip ≡ false
    → ((first_match rfc6724_policy_table (ip6 ip)).precedence == 35) ≡ false
unfolding first_match rfc6724_policy_table prefix_contains
unmapped_precedence ip h = ground (arith, not_in_mapped ip h)

split_mapped : (ip : Bytes) → is_mapped ip ≡ true → mapped_prefix ++ drop 12 ip ≡ ip
split_mapped ip h =
    ap (λ t. t ++ drop 12 ip) (sym (bytes_eq→eq (take 12 ip) mapped_prefix h))
    ∙ take-append-drop 12 ip

abbrev pub is_ipv4 : Bytes → Bool
is_ipv4 ip = elim (to4 ip) [ none ↦ false | some b ↦ true ]

-- The first sixteen bytes of an address decide, or its four.
family_of_16 :
    (ip : Bytes)
    → length ip ≡ 16
    → ((first_match rfc6724_policy_table (ip6 ip)).precedence == 35) ≡ is_mapped ip
family_of_16 ip e = elim (Bool-cases (is_mapped ip)) [
  | inl m ↦
      let short : length (drop 12 ip) ≡ 4 = omega (arith, length-drop 12 ip) in
      subst (λ x. ((first_match rfc6724_policy_table (ip6 x)).precedence == 35) ≡ is_mapped ip)
        (split_mapped ip m) (rw (mapped_precedence (drop 12 ip) short) (sym m))
  | inr m ↦ unmapped_precedence ip m ∙ sym m
]

pub precedence-is_ipv4 : (ip : Bytes) → (precedence_of ip == 35) ≡ is_ipv4 ip
unfolding ip_attr_of addr_from_slice to4 classify
precedence-is_ipv4 ip = ground (arith, mapped_precedence ip, family_of_16 ip)
