-- ===== src/AddrSelect/Sort.antt =====
-- `SortByRFC6724` and `sortByRFC6724withSrcs`. `sort.Stable` is modelled by its insertion sort,
-- which it runs on blocks of up to 20 elements.
use spoof_dpi_turkiye.Prelude.{
  Bool, List, [], ◌∷◌, map, Option, none, some, length, ◌==◌, ltb, if◌then◌else◌,
}
use mathlib.Core.List.{reverse}
use spoof_dpi_turkiye.AddrSelect.Ip.{IpAddr}
use spoof_dpi_turkiye.AddrSelect.Rules.{SrcInfo, Row, less, row_of}

module _ {ℓ} {A : Type ℓ} (lt : A → A → Bool) where
  -- The inner loop `for j := i; j > a && Less(j, j-1); j-- { Swap(j, j-1) }`: the sorted part of
  -- the slice stands reversed, its last element first.
  unfoldable pub insert_back : A → List A → List A
  insert_back x [] = x ∷ []
  insert_back x (y ∷ done) = if lt x y then y ∷ insert_back x done else x ∷ y ∷ done

  -- The outer loop.
  unfoldable pub insert_all : List A → List A → List A
  unfolding insert_back
  insert_all done [] = done
  insert_all done (x ∷ rest) = insert_all (insert_back x done) rest

  unfoldable pub stable_sort : List A → List A
  unfolding insert_all
  stable_sort xs = reverse (insert_all [] xs)

unfoldable pub rows_of : List IpAddr → List SrcInfo → List Row
rows_of [] srcs = []
rows_of (a ∷ addrs) [] = []
rows_of (a ∷ addrs) (s ∷ srcs) = row_of a s ∷ rows_of addrs srcs

abbrev pub addrs_of : List Row → List IpAddr
addrs_of = map λ r. r.addr

-- `none` is the panic on slices of different lengths. The result is what the slice holds after.
unfoldable pub sort_by_rfc6724_with_srcs : List IpAddr → List SrcInfo → Option (List IpAddr)
unfolding rows_of stable_sort
sort_by_rfc6724_with_srcs addrs srcs =
    if length addrs == length srcs
    then some (addrs_of (stable_sort less (rows_of addrs srcs)))
    else none

unfoldable pub sort_by_rfc6724 : (List IpAddr → List SrcInfo) → List IpAddr → Option (List IpAddr)
unfolding sort_by_rfc6724_with_srcs
sort_by_rfc6724 src_addrs addrs =
    if ltb (length addrs) 2 then some addrs else sort_by_rfc6724_with_srcs addrs (src_addrs addrs)
