-- ===== src/Dns/Racing/Tests.antt =====
-- A run of the theorem on the race of the upstreams with all goroutines (dns/dns.go).
use mathlib.Core.List.{mem-cons_self}
use spoof_dpi_turkiye.Prelude.{
  bytes, ℕ, refl, true, List, [], ◌∷◌, none, arith, All, length-map, Option, Result,
}
use spoof_dpi_turkiye.AddrSelect.Ip.{IpAddr}
use spoof_dpi_turkiye.AddrSelect.Sources.{no_source}
use spoof_dpi_turkiye.Resolver.Answer.{Error, answer}
use spoof_dpi_turkiye.Resolver.Chain.{ChainResult}
use spoof_dpi_turkiye.Resolver.Chain.Machine as Racer
use spoof_dpi_turkiye.Resolver.Lookup.{
  Msg, Query, DnsResult, closed, exchange, lookup_type, new_msg, parse_addrs_from_msg,
  parse_records, process, return_sorted,
}
use spoof_dpi_turkiye.Resolver.Lookup.Machine.{
  Collecting, start, report, take_result, leave, reports, closes, receives, drained, Reach, here,
  next,
}
use spoof_dpi_turkiye.Dns.{general}
use spoof_dpi_turkiye.Dns.Clients.{exchange_of, upstream_string}
use spoof_dpi_turkiye.Dns.Provenance.{From}
use spoof_dpi_turkiye.Dns.Racing.{Resolved, racers, Reach-From}
use spoof_dpi_turkiye.Proxy.Tests.{resolvers, wire, no_srcs}

abbrev found : List IpAddr
found = record { ip = bytes "5.6.7.8"; zone = [] } ∷ []

abbrev ex : Query → Result Error (Option Msg)
ex = exchange (wire.udp (bytes "1.1.1.1:53")) (wire.tcp (bytes "1.1.1.1:53"))

abbrev f : ℕ → DnsResult
f = lookup_type wire.fqdn ex (bytes "a")

-- The lookup of the one upstream, from its start to its end.
abbrev looked_up : Collecting
looked_up =
    leave no_srcs
      (take_result (record (report (start (1 ∷ [])) (f 1) []) { is_closed = true }) [] [] (f 1) [])
      [] found closed

looked_up-Reach : Reach no_srcs f (1 ∷ []) (start (1 ∷ [])) looked_up
unfolding start report take_result leave lookup_type exchange new_msg parse_addrs_from_msg
    parse_records
looked_up-Reach =
    next
      (next (next (next here (reports 1 [] [] refl refl (omega arith))) (closes refl refl))
        (receives [] [] (f 1) [] refl refl))
      (drained [] found refl refl refl)

abbrev result : ChainResult
result = record {
  addrs = found;
  error = none;
  from = upstream_string wire (general (bytes "1.1.1.1:53"));
}

result-Resolved : Resolved wire no_srcs resolvers (bytes "a") result
unfolding exchange_of upstream_string leave process return_sorted
result-Resolved =
    (general (bytes "1.1.1.1:53"), ex, looked_up, mem-cons_self, refl, refl, looked_up-Reach, refl)

abbrev pub raced : Racer.Race
raced =
    Racer.take_result (Racer.report (Racer.start (racers wire resolvers)) result []) 0 [] result []

pub raced-Reach :
    Racer.Reach
      (Resolved wire no_srcs resolvers (bytes "a"))
      resolvers.per_try
      (racers wire resolvers)
      (Racer.start (racers wire resolvers))
      raced
unfolding Racer.start Racer.report Racer.take_result
raced-Reach =
    Racer.next
      (Racer.next Racer.here (Racer.reports result [] [] refl result-Resolved (omega arith)))
      (Racer.receives 0 [] result [] refl refl)

Reach-From_example : All (λ x. ∥ From wire no_srcs resolvers (bytes "a") x ∥₁) found
unfolding Racer.start Racer.report Racer.take_result
Reach-From_example =
    Reach-From wire no_srcs resolvers (bytes "a") raced (answer found none)
      (λ xs. length-map xs (λ x. no_source)) raced-Reach refl
