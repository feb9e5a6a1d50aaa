-- ===== src/Resolver/Lookup/Arrival.antt =====
-- The order in which the replies to the query types arrive (dns/resolver/resolver.go).
use mathlib.Core.List.{perm_append_comm, append_assoc}
use mathlib.Core.List.Perm
use mathlib.Core.List.Permᴰ.{Permᴰ}
use mathlib.Core.Logic.{∥∥₁_elim, ∥∥₁_prop}
use spoof_dpi_turkiye.Prelude.{
  ℕ, ◌≡◌, ◌≢◌, refl, sym, subst, List, [], ◌∷◌, ◌++◌, map, Option, none, Result, ok, err, Perm,
  Bytes, inl, length-map,
}
use spoof_dpi_turkiye.AddrSelect.Ip.{IpAddr}
use spoof_dpi_turkiye.AddrSelect.Sources.{System, src_of, default_src_addrs}
use spoof_dpi_turkiye.Resolver.Answer.{Error, answer}
use spoof_dpi_turkiye.Resolver.Lookup.{
  Msg, Query, DnsResult, parse_addrs_from_msg, result, closed, returned, exchange, lookup_all_types,
  process_results,
}
use spoof_dpi_turkiye.Resolver.Lookup.Results.{addrs_in, process_results-found}

-- The same result in front of both.
addrs_in-Perm_cons :
    (r : DnsResult) (rs qs : List DnsResult)
    → Perm (addrs_in rs) (addrs_in qs)
    → Perm (addrs_in (r ∷ rs)) (addrs_in (r ∷ qs))
addrs_in-Perm_cons (ok msg) rs qs p = Perm.append_left (parse_addrs_from_msg msg) p
addrs_in-Perm_cons (err e) rs qs p = p

addrs_in-Perm_swap :
    (r q : DnsResult) (rs : List DnsResult) → Perm (addrs_in (r ∷ q ∷ rs)) (addrs_in (q ∷ r ∷ rs))
addrs_in-Perm_swap (ok msg) (ok reply) rs =
    let m = parse_addrs_from_msg msg in
    let n = parse_addrs_from_msg reply in
    subst (λ t. Perm t (n ++ (m ++ addrs_in rs))) (append_assoc m n (addrs_in rs))
      (subst (Perm ((m ++ n) ++ addrs_in rs)) (append_assoc n m (addrs_in rs))
        (Perm.append_right (addrs_in rs) (perm_append_comm m n)))
addrs_in-Perm_swap (ok msg) (err e) rs = Perm.refl _
addrs_in-Perm_swap (err e) (ok reply) rs = Perm.refl _
addrs_in-Perm_swap (err e) (err f) rs = Perm.refl _

-- Each result brings its addresses along.
addrs_in-Permᴰ : {rs qs : List DnsResult} → Permᴰ rs qs → Perm (addrs_in rs) (addrs_in qs)
addrs_in-Permᴰ Permᴰ.nil = Perm.refl []
addrs_in-Permᴰ (Permᴰ.cons {a = r} {b = q} {l₁ = rs} {l₂ = qs} e d) =
    subst (λ t. Perm (addrs_in (r ∷ rs)) (addrs_in (t ∷ qs))) e
      (addrs_in-Perm_cons r rs qs (addrs_in-Permᴰ d))
addrs_in-Permᴰ (Permᴰ.swap {a = r} {b = q} {b' = last} {l = rs} e f) =
    subst (λ t. Perm (addrs_in (r ∷ q ∷ rs)) (addrs_in (t ∷ last ∷ rs))) f
      (subst (λ t. Perm (addrs_in (r ∷ q ∷ rs)) (addrs_in (q ∷ t ∷ rs))) e
        (addrs_in-Perm_swap r q rs))
addrs_in-Permᴰ (Permᴰ.trans d f) = Perm.trans (addrs_in-Permᴰ d) (addrs_in-Permᴰ f)

addrs_in-Perm : (rs qs : List DnsResult) → Perm rs qs → Perm (addrs_in rs) (addrs_in qs)
addrs_in-Perm rs qs p = ∥∥₁_elim p ∥∥₁_prop addrs_in-Permᴰ

module _ (sys : System) (fqdn : Bytes → Bytes) (udp tcp : Query → Result Error (Option Msg)) where
  -- In whatever order the replies to the query types of a host arrive before the context ends, if
  -- some reply has addresses, a plain resolver answers with a permutation of the addresses of all
  -- replies, without an error: sources are found, and nothing panics.
  pub process_results-lookup_all_types :
      (host : Bytes) (q_types : List ℕ) (rs : List DnsResult)
      → Perm rs (lookup_all_types fqdn (exchange udp tcp) host q_types)
      → addrs_in (lookup_all_types fqdn (exchange udp tcp) host q_types) ≢ []
      → (sorted : List IpAddr) × (process_results
            (default_src_addrs sys)
            (map result rs ++ closed ∷ [])
          ≡ returned (answer sorted none))
        × Perm sorted (addrs_in (lookup_all_types fqdn (exchange udp tcp) host q_types))
  unfolding default_src_addrs
  process_results-lookup_all_types host q_types rs p found =
      let wanted = addrs_in (lookup_all_types fqdn (exchange udp tcp) host q_types) in
      let all = addrs_in-Perm rs (lookup_all_types fqdn (exchange udp tcp) host q_types) p in
      let some_found : addrs_in rs ≢ [] =
        λ e. found (sym (Perm.nil-eq (subst (λ t. Perm t wanted) e all))) in
      let (sorted, answers, perm) =
        process_results-found (default_src_addrs sys) rs closed [] (inl refl) some_found
          (length-map (addrs_in rs) (src_of sys)) in
      (sorted, answers, Perm.trans perm all)
