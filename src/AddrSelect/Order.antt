-- ===== src/AddrSelect/Order.antt =====
-- `Less` of dns/addrselect/addrselect.go as an order.
use spoof_dpi_turkiye.Prelude.{
  ◌≡◌, refl, sym, ◌∙◌, ap, true, false, false≢true, inl, inr, Bool-cases,
}
use spoof_dpi_turkiye.AddrSelect.Ip.{IpAddr}
use spoof_dpi_turkiye.AddrSelect.Rules.{SrcInfo, Row, less, row_of}
use spoof_dpi_turkiye.AddrSelect.Mark.{lex, lex_irrefl, lex_asymm, lex-eq, lex_trans}
use spoof_dpi_turkiye.AddrSelect.Key.{key, less-lex, length-key}

-- A row as `sortByRFC6724withSrcs` builds it.
pub record Built (r : Row) : Type 0 where
  pub addr : IpAddr
  pub src : SrcInfo
  pub made : r ≡ row_of addr src

less-lex-Built : (x y : Row) → Built x → Built y → less x y ≡ lex (key x) (key y)
less-lex-Built x y p q = rw (p.made, q.made) (less-lex p.addr q.addr p.src q.src)

pub less_irrefl : (x : Row) → Built x → less x x ≡ false
less_irrefl x p = less-lex-Built x x p p ∙ lex_irrefl (key x)

pub less_asymm : (x y : Row) → Built x → Built y → less x y ≡ true → less y x ≡ false
less_asymm x y p q h =
    less-lex-Built y x q p ∙ lex_asymm (key x) (key y) (sym (less-lex-Built x y p q) ∙ h)

less_trans :
    (x y z : Row)
    → Built x
    → Built y
    → Built z
    → less x y ≡ true
    → less y z ≡ true
    → less x z ≡ true
less_trans x y z p q r h k =
    less-lex-Built x z p r
    ∙ lex_trans (key x) (key y) (key z) (sym (less-lex-Built x y p q) ∙ h)
        (sym (less-lex-Built y z q r) ∙ k)

-- Rows of which neither is better have one key.
tie-key : (x y : Row) → Built x → Built y → less x y ≡ false → less y x ≡ false → key x ≡ key y
tie-key x y p q h k =
    lex-eq (key x) (key y) (length-key x ∙ sym (length-key y)) (sym (less-lex-Built x y p q) ∙ h)
      (sym (less-lex-Built y x q p) ∙ k)

pub not_less_trans-Built :
    (x y z : Row)
    → Built x
    → Built y
    → Built z
    → less y x ≡ false
    → less z y ≡ false
    → less z x ≡ false
not_less_trans-Built x y z p q r h k = elim (Bool-cases (less z x)) [
  | inr e ↦ e
  | inl e ↦ elim (Bool-cases (less x y)) [
    | inl f ↦ absurd (false≢true (sym k ∙ less_trans z x y r p q e f))
    | inr f ↦ absurd (
        false≢true (
          sym k
          ∙ less-lex-Built z y r q
          ∙ ap (lex (key z)) (sym (tie-key x y p q f h))
          ∙ sym (less-lex-Built z x r p)
          ∙ e))
  ]
]

pub built : (d : IpAddr) (s : SrcInfo) → Built (row_of d s)
built d s = record { addr = d; src = s; made = refl }

-- "Not better" is transitive on the rows of any three addresses and sources: if the second is not
-- better than the first and the third not better than the second, the third is not better than the
-- first.
pub not_less_trans :
    (da db dc : IpAddr) (sa sb sc : SrcInfo)
    → less (row_of db sb) (row_of da sa) ≡ false
    → less (row_of dc sc) (row_of db sb) ≡ false
    → less (row_of dc sc) (row_of da sa) ≡ false
not_less_trans da db dc sa sb sc =
    not_less_trans-Built _ _ _ (built da sa) (built db sb) (built dc sc)
