-- ===== src/Resolver/Chain/Machine/Tests.antt =====
-- Runs of the theorems on the race with its goroutines (dns/resolver/chain.go).
use spoof_dpi_turkiye.Prelude.{
  bytes, ◌+◌, ◌≡◌, refl, List, [], ◌∷◌, none, some, arith, Bytes, All, inl,
}
use spoof_dpi_turkiye.AddrSelect.Ip.{IpAddr}
use spoof_dpi_turkiye.Resolver.Answer.{upstream, wrap, answer}
use spoof_dpi_turkiye.Resolver.Chain.{ChainResult, chain_resolve}
use spoof_dpi_turkiye.Resolver.Chain.Machine.{
  Race, start, report, take_result, reports, receives, ticks, Reach, here, next,
}
use spoof_dpi_turkiye.Resolver.Chain.Machine.Invariant.{Allowed}
use spoof_dpi_turkiye.Resolver.Chain.Machine.Refinement.{Reach-chain_resolve}
use spoof_dpi_turkiye.Resolver.Chain.Machine.Timely.{Settles, Reach-returns}

abbrev one : IpAddr
one = record { ip = 1 ∷ 1 ∷ 1 ∷ 1 ∷ []; zone = [] }

abbrev doh : Bytes
doh = bytes "doh"

abbrev plain : Bytes
plain = bytes "1.1.1.1"

abbrev names : List Bytes
names = plain ∷ doh ∷ []

abbrev failing : ChainResult
failing = record { addrs = []; error = some (upstream 1); from = doh }

abbrev good : ChainResult
good = record { addrs = one ∷ []; error = none; from = plain }

abbrev Any : ChainResult → Type 0
Any r = Unit

-- The second goroutine has failed, and the first is still at work.
abbrev first_failed : Race
first_failed = report (start names) failing (plain ∷ [])

first_failed-Reach : Reach Any 1500 names (start names) first_failed
unfolding start report
first_failed-Reach = next here (reports failing (plain ∷ []) [] refl tt (omega arith))

-- The loop gets the failure, then the first goroutine's result.
abbrev won : Race
won =
    take_result (report (take_result first_failed 1 [] failing []) good []) 0
      (wrap doh (upstream 1) ∷ []) good []

won-Reach : Reach Any 1500 names (start names) won
unfolding start report take_result
won-Reach =
    next
      (next (next first_failed-Reach (receives 1 [] failing [] refl refl))
        (reports good [] [] refl tt (omega arith)))
      (receives 0 (wrap doh (upstream 1) ∷ []) good [] refl refl)

Reach-chain_resolve_example :
    (chain_resolve names won.heard ≡ some (answer (one ∷ []) none)) × All (Allowed Any) won.heard
unfolding start report take_result
Reach-chain_resolve_example =
    Reach-chain_resolve Any 1500 names won (answer (one ∷ []) none) won-Reach refl

-- Both have reported, the loop has done nothing, and a long time passes.
abbrev overdue : Race
overdue = let s = report first_failed good [] in record s { clock = s.clock + 1501 }

overdue-Reach : Reach Any 1500 names (start names) overdue
unfolding start report
overdue-Reach =
    next (next first_failed-Reach (reports good [] [] refl tt (omega arith)))
      (ticks 1501 (inl refl))

Reach-returns_example : Settles Any 1500 names overdue
unfolding start report
Reach-returns_example =
    Reach-returns Any 1500 names overdue overdue-Reach (omega arith) (omega arith)
