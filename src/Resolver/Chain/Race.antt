-- ===== src/Resolver/Chain/Race.antt =====
-- The race of the upstreams (dns/resolver/chain.go).
use mathlib.Core.List.{append-nil, append_assoc}
use spoof_dpi_turkiye.Prelude.{
  ◌≡◌, ◌≢◌, refl, ap, ◌∙◌, List, [], ◌∷◌, ◌++◌, none, some, map, Bytes, length, if◌then◌else◌,
  Bool-cases, Option-cases, inl, inr,
}
use spoof_dpi_turkiye.AddrSelect.Ip.{IpAddr}
use spoof_dpi_turkiye.Resolver.Answer.{Error, wrap, Answer, answer, join, is_empty}
use spoof_dpi_turkiye.Resolver.Chain.{ChainResult, got, note, receive, chain_resolve}

-- The addresses of the first result that has some.
abbrev pub first_found : List ChainResult → List IpAddr
first_found [] = []
first_found (r ∷ rs) = let rest = first_found rs in if is_empty r.addrs then rest else r.addrs

-- The errors of the results, each with the name of its resolver.
abbrev pub errors : List ChainResult → List Error
errors [] = []
errors (r ∷ rs) = elim r.error [ none ↦ errors rs | some e ↦ wrap r.from e ∷ errors rs ]

abbrev pub expected : List ChainResult → List Error → Answer
expected rs errs =
    if is_empty (first_found rs) then answer [] (join errs) else answer (first_found rs) none

note-errors :
    (errs : List Error) (r : ChainResult) (rs : List ChainResult)
    → note errs r ++ errors rs ≡ errs ++ errors (r ∷ rs)
note-errors errs r rs = elim (Option-cases r.error) [
  | inl e ↦ rw e
  | inr (x, e) ↦ rw e (append_assoc errs (wrap r.from x ∷ []) (errors rs))
]

receive-expected :
    (rs : List ChainResult) (errs : List Error)
    → receive (length rs) errs (map got rs) ≡ some (expected rs (errs ++ errors rs))
unfolding receive
receive-expected [] errs = rw (append-nil errs)
receive-expected (r ∷ rs) errs = elim (Bool-cases (is_empty r.addrs)) [
  | inl e ↦ rw e (
      receive-expected rs (note errs r)
      ∙ ap
          (λ es. some (
            if is_empty (first_found rs)
            then answer [] (join es)
            else answer (first_found rs) none))
          (note-errors errs r rs))
  | inr e ↦ rw (e, e)
]

-- If there are resolvers and each has reported, in whatever order, while the context lasts,
-- the answer is the addresses of the first report that has any, without an error; and if none
-- has, no addresses, and the errors of all that failed, in the order of the reports.
pub chain_resolve-expected :
    (names : List Bytes) (rs : List ChainResult)
    → length rs ≡ length names
    → names ≢ []
    → chain_resolve names (map got rs) ≡ some (expected rs (errors rs))
unfolding chain_resolve
chain_resolve-expected [] rs e h = absurd (h refl)
chain_resolve-expected (x ∷ names) rs e h = rw (← e) (receive-expected rs [])
