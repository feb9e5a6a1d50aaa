-- ===== src/Resolver/Chain.antt =====
-- `ChainResolver.Resolve` of dns/resolver/chain.go. Each resolver runs in a goroutine of its own;
-- what the receiving loop sees is a sequence of signals, in any order: results, and the end of the
-- caller's context. The channel holds as many results as there are resolvers.
pub mod Machine
pub mod Race
use spoof_dpi_turkiye.Prelude.{
  ℕ, zero, suc, Bool, true, false, List, [], ◌∷◌, ◌++◌, Option, none, some, Bytes, length,
  if◌then◌else◌,
}
use spoof_dpi_turkiye.AddrSelect.Ip.{IpAddr}
use spoof_dpi_turkiye.Resolver.Answer.{
  Error, ctx_error, no_resolvers, wrap, Answer, answer, join, is_empty,
}

pub record ChainResult : Type 0 where
  pub addrs : List IpAddr
  pub error : Option Error
  pub from : Bytes

pub data Signal : Type 0 where
  got : ChainResult → Signal
  done : Signal

-- `errs` after a result that brings no addresses
abbrev pub note : List Error → ChainResult → List Error
note errs r = elim r.error [ none ↦ errs | some e ↦ errs ++ wrap r.from e ∷ [] ]

-- The loop `for range c.resolvers`; `none` is a loop that still waits.
unfoldable pub receive : ℕ → List Error → List Signal → Option Answer
receive zero errs signals = some (answer [] (join errs))
receive (suc n) errs [] = none
receive (suc n) errs (done ∷ signals) = some (answer [] (some ctx_error))
receive (suc n) errs (got r ∷ signals) =
    let rest = receive n (note errs r) signals in
    if is_empty r.addrs then rest else some (answer r.addrs none)

-- `names` are those of the configured resolvers.
unfoldable pub chain_resolve : List Bytes → List Signal → Option Answer
unfolding receive
chain_resolve names signals =
    if is_empty names
    then some (answer [] (some no_resolvers))
    else receive (length names) [] signals
