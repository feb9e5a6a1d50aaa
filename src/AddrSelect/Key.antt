-- ===== src/AddrSelect/Key.antt =====
-- The rules of `Less` (dns/addrselect/addrselect.go) as the comparison of keys, each rule measured
-- by a mark of the row.
use spoof_dpi_turkiye.Prelude.{
  ℕ, ◌≡◌, ◌≢◌, ℕ_discrete, refl, sym, ap, ◌∙◌, Bool, true, false, not, ◌&&◌, List, [], ◌∷◌, ◌++◌,
  Option, none, some, inl, inr, arith, length, ◌==◌, Bool-cases, if◌then◌else◌,
}
use spoof_dpi_turkiye.AddrSelect.Ip.{IpAddr, is_valid}
use spoof_dpi_turkiye.AddrSelect.Rules.{
  SrcInfo, Row, prefer, scope_matches, label_matches, not_to4, common_of, rule1, rule2, rule3,
  rule4, rule5, rule6, rule7, rule8, rule9, decide, less, row_of,
}
use spoof_dpi_turkiye.AddrSelect.Mark.{Mark, more, fewer, versus, lex, contests, decide-contests}
use spoof_dpi_turkiye.AddrSelect.Family.{precedence-is_ipv4, precedence_of}

abbrev bit : Bool → ℕ
bit true = 1
bit false = 0

-- The criteria of rules 2 to 8.
abbrev criteria : Row → List Mark
criteria r =
    more (bit (scope_matches r))
    ∷ fewer (bit r.src_attr.is_deprecated)
    ∷ more (bit r.src_attr.is_home)
    ∷ more (bit (label_matches r))
    ∷ more r.addr_attr.precedence
    ∷ more (bit r.src_attr.is_native)
    ∷ fewer r.addr_attr.scope
    ∷ []

-- The criterion of rule 9, which does not tell IPv4 addresses apart.
abbrev prefix_mark : Row → Mark
prefix_mark r = more (if not_to4 r then common_of r else 0)

-- An address with no source has the least key, whatever its attributes.
unfoldable pub key : Row → List Mark
key r =
    if is_valid r.src.addr
    then more 1 ∷ criteria r ++ prefix_mark r ∷ []
    else more 0 ∷ more 0 ∷ fewer 0 ∷ more 0 ∷ more 0 ∷ more 0 ∷ more 0 ∷ fewer 0 ∷ more 0 ∷ []

prefer-versus : (p q : Bool) → prefer p q ≡ versus (more (bit p)) (more (bit q))
prefer-versus true true = refl
prefer-versus true false = refl
prefer-versus false true = refl
prefer-versus false false = refl

rule3-versus :
    (a b : Row)
    → rule3 a b
      ≡ versus (fewer (bit a.src_attr.is_deprecated)) (fewer (bit b.src_attr.is_deprecated))
unfolding rule3
rule3-versus a b = go a.src_attr.is_deprecated b.src_attr.is_deprecated
  where
    go :
        (p q : Bool)
        → (if p && not q then some false else if not p && q then some true else none)
          ≡ versus (fewer (bit p)) (fewer (bit q))
    go true true = refl
    go true false = refl
    go false true = refl
    go false false = refl

-- Rules 2 to 8 are contests of the criteria.
rules-contests :
    (a b : Row)
    → rule2 a b ∷ rule3 a b ∷ rule4 a b ∷ rule5 a b ∷ rule6 a b ∷ rule7 a b ∷ rule8 a b ∷ []
      ≡ contests (criteria a) (criteria b)
unfolding rule2 rule4 rule5 rule6 rule7 rule8
rules-contests a b = rw (
  rule3-versus a b,
  prefer-versus (scope_matches a) (scope_matches b),
  prefer-versus a.src_attr.is_home b.src_attr.is_home,
  prefer-versus (label_matches a) (label_matches b),
  prefer-versus a.src_attr.is_native b.src_attr.is_native,
)

rule9-versus :
    (a b : Row) → not_to4 a ≡ not_to4 b → rule9 a b ≡ versus (prefix_mark a) (prefix_mark b)
unfolding rule9
rule9-versus a b h = elim (Bool-cases (not_to4 b)) [ inl e ↦ rw (h, e) | inr e ↦ rw (h, e) ]

decide-cons :
    (o : Option Bool) (r s : List (Option Bool))
    → decide r ≡ decide s
    → decide (o ∷ r) ≡ decide (o ∷ s)
unfolding decide
decide-cons none r s h = h
decide-cons (some v) r s h = refl

-- What stands behind a contest of different numbers does not count.
decide-settled :
    (m n : ℕ) (r s : List (Option Bool))
    → m ≢ n
    → decide (versus (more m) (more n) ∷ r) ≡ decide (versus (more m) (more n) ∷ s)
unfolding decide
decide-settled m n r s h = ground arith

-- The tail behind rule 5: rule 9 is a contest where it counts, since families of one precedence
-- are one family.
tail-contests :
    (a b : Row)
    → (a.addr_attr.precedence ≡ b.addr_attr.precedence → not_to4 a ≡ not_to4 b)
    → decide (
        versus (more a.addr_attr.precedence) (more b.addr_attr.precedence)
        ∷ rule7 a b
        ∷ rule8 a b
        ∷ rule9 a b
        ∷ [])
      ≡ decide (
          versus (more a.addr_attr.precedence) (more b.addr_attr.precedence)
          ∷ rule7 a b
          ∷ rule8 a b
          ∷ versus (prefix_mark a) (prefix_mark b)
          ∷ [])
tail-contests a b h = elim (ℕ_discrete a.addr_attr.precedence b.addr_attr.precedence) [
  | yes e ↦ rw (rule9-versus a b (h e))
  | no d ↦ decide-settled _ _ _ _ d
]

rules-lex :
    (a b : Row)
    → (a.addr_attr.precedence ≡ b.addr_attr.precedence → not_to4 a ≡ not_to4 b)
    → decide (
        rule2 a b
        ∷ rule3 a b
        ∷ rule4 a b
        ∷ rule5 a b
        ∷ rule6 a b
        ∷ rule7 a b
        ∷ rule8 a b
        ∷ rule9 a b
        ∷ [])
      ≡ lex (criteria a ++ prefix_mark a ∷ []) (criteria b ++ prefix_mark b ∷ [])
unfolding rule6
rules-lex a b h =
    decide-cons _ _ _
      (decide-cons _ _ _ (decide-cons _ _ _ (decide-cons _ _ _ (tail-contests a b h))))
    ∙ ap (λ l. decide (l ++ versus (prefix_mark a) (prefix_mark b) ∷ [])) (rules-contests a b)
    ∙ decide-contests (criteria a ++ prefix_mark a ∷ []) (criteria b ++ prefix_mark b ∷ [])

less-lex_rows :
    (a b : Row)
    → (a.addr_attr.precedence ≡ b.addr_attr.precedence → not_to4 a ≡ not_to4 b)
    → less a b ≡ lex (key a) (key b)
unfolding less rule1 key lex
less-lex_rows a b h = elim (Bool-cases (is_valid a.src.addr)) [
  | inl va ↦ elim (Bool-cases (is_valid b.src.addr)) [
    | inl vb ↦ rw (va, vb) (rules-lex a b h)
    | inr nb ↦ rw (va, nb)
  ]
  | inr na ↦ elim (Bool-cases (is_valid b.src.addr)) [ inl vb ↦ rw (na, vb) | inr nb ↦ rw (na, nb) ]
]

-- On the rows that the sort builds from any two addresses with any two sources, `Less` is the
-- lexicographic comparison of two keys, each computed from one row alone.
pub less-lex :
    (da db : IpAddr) (sa sb : SrcInfo)
    → less (row_of da sa) (row_of db sb) ≡ lex (key (row_of da sa)) (key (row_of db sb))
unfolding row_of
less-lex da db sa sb = less-lex_rows (row_of da sa) (row_of db sb) same_family
  where
    family : (d : IpAddr) → not_to4 (row_of d sa) ≡ not (precedence_of d.ip == 35)
    family d = rw (precedence-is_ipv4 d.ip) (ground arith)

    same_family :
        precedence_of da.ip ≡ precedence_of db.ip → not_to4 (row_of da sa) ≡ not_to4 (row_of db sb)
    same_family e = family da ∙ ap (λ p. not (p == 35)) e ∙ sym (family db)

pub length-key : (r : Row) → length (key r) ≡ 9
unfolding key
length-key r = ground arith
