-- ===== src/Resolver/Lookup/Results.antt =====
-- What `processResults` (dns/resolver/resolver.go) makes of the replies to the query types.
use mathlib.Core.List.{append-nil, append_assoc}
use mathlib.Core.List.Perm
use spoof_dpi_turkiye.Prelude.{
  ◌≡◌, ◌≢◌, ◌∙◌, false, List, [], ◌∷◌, ◌++◌, none, some, map, ok, err, Perm, arith, length, ltb,
  ◌⊎◌, Bool-cases, inl, inr,
}
use spoof_dpi_turkiye.AddrSelect.Ip.{IpAddr}
use spoof_dpi_turkiye.AddrSelect.Rules.{SrcInfo}
use spoof_dpi_turkiye.AddrSelect.Sorting.{sort_by_rfc6724-perm}
use spoof_dpi_turkiye.Resolver.Answer.{Error, ctx_error, answer, join, is_empty}
use spoof_dpi_turkiye.Resolver.Lookup.{
  DnsResult, Event, result, closed, done, returned, parse_addrs_from_msg, return_sorted, process,
  process_results,
}

-- The addresses of the replies, and the errors, each in the order of arrival.
abbrev pub addrs_in : List DnsResult → List IpAddr
addrs_in [] = []
addrs_in (ok msg ∷ rs) = parse_addrs_from_msg msg ++ addrs_in rs
addrs_in (err e ∷ rs) = addrs_in rs

abbrev pub errors_in : List DnsResult → List Error
errors_in [] = []
errors_in (ok msg ∷ rs) = errors_in rs
errors_in (err e ∷ rs) = e ∷ errors_in rs

module _ (src_addrs : List IpAddr → List SrcInfo) where
  -- The loop takes the results one by one.
  process-append :
      (errs : List Error) (addrs : List IpAddr) (rs : List DnsResult) (events : List Event)
      → process src_addrs errs addrs (map result rs ++ events)
        ≡ process src_addrs (errs ++ errors_in rs) (addrs ++ addrs_in rs) events
  unfolding process
  process-append errs addrs [] events = rw (append-nil errs, append-nil addrs)
  process-append errs addrs (ok msg ∷ rs) events =
      process-append errs (addrs ++ parse_addrs_from_msg msg) rs events
      ∙ rw (append_assoc addrs (parse_addrs_from_msg msg) (addrs_in rs))
  process-append errs addrs (err e ∷ rs) events =
      process-append (errs ++ e ∷ []) addrs rs events
      ∙ rw (append_assoc errs (e ∷ []) (errors_in rs))

  pub return_sorted-perm :
      (addrs : List IpAddr)
      → length (src_addrs addrs) ≡ length addrs
      → (sorted : List IpAddr) × (return_sorted src_addrs addrs ≡ returned (answer sorted none))
        × Perm sorted addrs
  unfolding return_sorted
  return_sorted-perm addrs e = elim (Bool-cases (ltb 1 (length addrs))) [
    | inl many ↦
        let (sorted, sort, perm) = sort_by_rfc6724-perm src_addrs addrs e in
        (sorted, rw (many, sort), perm)
    | inr few ↦ (addrs, rw few, Perm.refl addrs)
  ]

  process_last :
      (errs : List Error) (addrs : List IpAddr) (last : Event) (rest : List Event)
      → ((last ≡ closed) ⊎ (last ≡ done))
      → is_empty addrs ≡ false
      → process src_addrs errs addrs (last ∷ rest) ≡ return_sorted src_addrs addrs
  unfolding process
  process_last errs addrs last rest (inl e) h = rw (e, h)
  process_last errs addrs last rest (inr e) h = rw (e, h)

  -- If some reply has addresses, and the address selection has a source for each, then once
  -- the channel is closed or the context done, the answer is a permutation of all the
  -- addresses that have arrived, without an error, whatever other query types have failed.
  pub process_results-found :
      (rs : List DnsResult) (last : Event) (rest : List Event)
      → ((last ≡ closed) ⊎ (last ≡ done))
      → addrs_in rs ≢ []
      → length (src_addrs (addrs_in rs)) ≡ length (addrs_in rs)
      → (sorted : List IpAddr) × (process_results src_addrs (map result rs ++ last ∷ rest)
          ≡ returned (answer sorted none))
        × Perm sorted (addrs_in rs)
  unfolding process_results
  process_results-found rs last rest ends found e =
      let (sorted, sort, perm) = return_sorted-perm (addrs_in rs) e in
      (
        sorted,
        process-append [] [] rs (last ∷ rest)
            ∙ process_last (errors_in rs) (addrs_in rs) last rest ends (ground arith)
            ∙ sort,
        perm,
      )

  -- If no reply has addresses, the closed channel gives the joined errors, and none if no query
  -- failed; the end of the context gives its error.
  process_results-empty :
      (rs : List DnsResult) (rest : List Event)
      → addrs_in rs ≡ []
      → (process_results src_addrs (map result rs ++ closed ∷ rest)
          ≡ returned (answer [] (join (errors_in rs))))
        × (process_results src_addrs (map result rs ++ done ∷ rest)
            ≡ returned (answer [] (some ctx_error)))
  unfolding process_results process
  process_results-empty rs rest e =
      (process-append [] [] rs (closed ∷ rest) ∙ rw e, process-append [] [] rs (done ∷ rest) ∙ rw e)
