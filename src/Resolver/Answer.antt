-- ===== src/Resolver/Answer.antt =====
-- What `Resolve` of a resolver returns: addresses and an error, as in Go. An empty list stands for
-- the nil slice and for the empty one, which the code treats alike.
use spoof_dpi_turkiye.Prelude.{ℕ, Bool, true, false, List, [], ◌∷◌, Option, none, some, Bytes}
use spoof_dpi_turkiye.AddrSelect.Ip.{IpAddr}

-- The errors that the packages dns and dns/resolver make. `upstream` stands for those of the
-- network and of the DNS library, by a number each.
mutual
  pub data Error : Type 0 where
    upstream : ℕ → Error
    ctx_error : Error
    no_resolvers : Error
    nxdomain : Error
    doh_http : ℕ → Error
    doh_rcode : ℕ → Error
    wrap : Bytes → Error → Error
    lookup_failed : Bytes → Bytes → Error → Error
    no_addresses : Bytes → Bytes → Error
    joined : Error → Errors → Error

  pub data Errors : Type 0 where
    last : Errors
    also : Error → Errors → Errors

pub record Answer : Type 0 where
  pub addrs : List IpAddr
  pub error : Option Error

abbrev errors_of : List Error → Errors
errors_of [] = last
errors_of (e ∷ es) = also e (errors_of es)

-- `errors.Join` of errors that are not nil: nil for none.
abbrev pub join : List Error → Option Error
join [] = none
join (e ∷ es) = some (joined e (errors_of es))

abbrev pub answer : List IpAddr → Option Error → Answer
answer addrs error = record { addrs = addrs; error = error }

abbrev pub is_empty {ℓ} : {A : Type ℓ} → List A → Bool
is_empty [] = true
is_empty (x ∷ xs) = false
