-- ===== src/AddrSelect/Sorting.antt =====
-- What `SortByRFC6724` (dns/addrselect/addrselect.go) leaves in the slice.
use mathlib.Core.List.Perm
use spoof_dpi_turkiye.Prelude.{
  ◌≡◌, refl, sym, subst, true, false, ap, Bool, not, ◌&&◌, List, [], ◌∷◌, Perm, some, arith, length,
  All, ltb, Bool-cases, inl, inr,
}
use spoof_dpi_turkiye.AddrSelect.Ip.{IpAddr}
use spoof_dpi_turkiye.AddrSelect.Rules.{SrcInfo, Row, less, row_of}
use spoof_dpi_turkiye.AddrSelect.Sort.{
  stable_sort, rows_of, addrs_of, sort_by_rfc6724_with_srcs, sort_by_rfc6724,
}
use spoof_dpi_turkiye.AddrSelect.Order.{Built, built, less_asymm, not_less_trans-Built}
use spoof_dpi_turkiye.AddrSelect.Sorted.{
  Ordered, keep, stable_sort-perm, stable_sort-Ordered, keep-stable_sort,
}

rows_of-Built : (addrs : List IpAddr) (srcs : List SrcInfo) → All Built (rows_of addrs srcs)
unfolding rows_of
rows_of-Built [] srcs = tt
rows_of-Built (a ∷ addrs) [] = tt
rows_of-Built (a ∷ addrs) (s ∷ srcs) = (built a s, rows_of-Built addrs srcs)

addrs-rows_of :
    (addrs : List IpAddr) (srcs : List SrcInfo)
    → length addrs ≡ length srcs
    → addrs_of (rows_of addrs srcs) ≡ addrs
unfolding rows_of row_of
addrs-rows_of [] srcs e = refl
addrs-rows_of (a ∷ addrs) [] e = absurd (omega arith)
addrs-rows_of (a ∷ addrs) (s ∷ srcs) e = ap (◌∷◌ a) (addrs-rows_of addrs srcs (omega arith))

-- Neither row is better.
abbrev pub tied : Row → Row → Bool
tied r x = not (less x r) && not (less r x)

tied-level :
    (r : Row)
    → Built r
    → (x y : Row) → Built x
    → Built y
    → tied r x ≡ true
    → tied r y ≡ true
    → less x y ≡ false
tied-level r b x y p q h k = not_less_trans-Built y r x q b p (ground arith) (ground arith)

-- With a source for each address the sort does not panic. What the slice then holds is the
-- addresses of a permutation of the rows (an address stays with its source), no row of which is
-- better than one before it, and in which the rows that tie with any given address and source are
-- in the order in which they came.
pub sort_by_rfc6724_with_srcs_lem :
    (addrs : List IpAddr) (srcs : List SrcInfo) (a : IpAddr) (s : SrcInfo)
    → length addrs ≡ length srcs
    → (rows : List Row) × (sort_by_rfc6724_with_srcs addrs srcs ≡ some (addrs_of rows))
      × Perm rows (rows_of addrs srcs)
      × Ordered (λ x y. less y x ≡ false) rows
      × (keep (tied (row_of a s)) rows ≡ keep (tied (row_of a s)) (rows_of addrs srcs))
unfolding sort_by_rfc6724_with_srcs
sort_by_rfc6724_with_srcs_lem addrs srcs a s e =
    let from = rows_of addrs srcs in
    let all = rows_of-Built addrs srcs in
    (
      stable_sort less from,
      ground arith,
      stable_sort-perm less from,
      stable_sort-Ordered less Built less_asymm not_less_trans-Built from all,
      keep-stable_sort less Built (tied (row_of a s)) (tied-level (row_of a s) (built a s)) from
          all,
    )

-- `SortByRFC6724` loses no address and makes none up, if there is a source for each address.
pub sort_by_rfc6724-perm :
    (src_addrs : List IpAddr → List SrcInfo) (addrs : List IpAddr)
    → length (src_addrs addrs) ≡ length addrs
    → (sorted : List IpAddr) × (sort_by_rfc6724 src_addrs addrs ≡ some sorted) × Perm sorted addrs
unfolding sort_by_rfc6724 sort_by_rfc6724_with_srcs
sort_by_rfc6724-perm src_addrs addrs e = elim (Bool-cases (ltb (length addrs) 2)) [
  | inl short ↦ (addrs, rw short, Perm.refl addrs)
  | inr long ↦
      let rows = rows_of addrs (src_addrs addrs) in
      (
        addrs_of (stable_sort less rows),
        ground arith,
        subst (Perm (addrs_of (stable_sort less rows)))
            (addrs-rows_of addrs (src_addrs addrs) (sym e))
            (Perm.map (λ r. r.addr) (stable_sort-perm less rows)),
      )
]
