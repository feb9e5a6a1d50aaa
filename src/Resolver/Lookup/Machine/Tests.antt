-- ===== src/Resolver/Lookup/Machine/Tests.antt =====
-- Runs of the theorems on a lookup with its goroutines (dns/resolver/resolver.go).
use spoof_dpi_turkiye.Prelude.{
  bytes, ℕ, ◌≡◌, ◌++◌, refl, true, false, List, [], ◌∷◌, none, Perm, arith,
}
use spoof_dpi_turkiye.AddrSelect.Ip.{IpAddr}
use spoof_dpi_turkiye.AddrSelect.Sources.{default_src_addrs}
use spoof_dpi_turkiye.AddrSelect.Rules.{SrcInfo}
use spoof_dpi_turkiye.Resolver.Answer.{Error, lookup_failed, upstream, answer}
use spoof_dpi_turkiye.Resolver.Lookup.{
  DnsResult, closed, returned, exchange, lookup_type, lookup_all_types, parse_addrs_from_msg,
  parse_records, record_type_id_to_name, process,
}
use spoof_dpi_turkiye.Resolver.Lookup.Results.{addrs_in}
use spoof_dpi_turkiye.Resolver.Lookup.Machine.{
  Collecting, start, report, take_result, leave, Step, reports, closes, receives, drained, Reach,
  here, next,
}
use spoof_dpi_turkiye.Resolver.Lookup.Machine.Answers.{Reach-sends, Reach-lookup_all_types}
use spoof_dpi_turkiye.Resolver.Tests.{one, two, machine, same, udp}

abbrev f : ℕ → DnsResult
f = lookup_type same (exchange udp udp) (bytes "x.com")

abbrev q_types : List ℕ
q_types = 28 ∷ 1 ∷ []

abbrev sources : List IpAddr → List SrcInfo
sources = default_src_addrs machine

-- The reply to type A is in the channel.
abbrev half : Collecting
half = report (start q_types) (f 1) (28 ∷ [])

half-Reach : Reach sources f q_types (start q_types) half
unfolding start report
half-Reach = next here (reports 1 (28 ∷ []) [] refl refl (omega arith))

Reach-sends_example :
    (half.is_closed ≡ false) × Step sources f q_types half (report half (f 28) ([] ++ []))
unfolding start report
Reach-sends_example = Reach-sends sources f q_types half 28 [] [] half-Reach refl

-- Both have reported, and the channel is closed.
abbrev shut : Collecting
shut = record (report half (f 28) []) { is_closed = true }

shut-Reach : Reach sources f q_types (start q_types) shut
unfolding start report
shut-Reach = next (next half-Reach (reports 28 [] [] refl refl (omega arith))) (closes refl refl)

abbrev failure : List Error
failure = lookup_failed (bytes "AAAA") (bytes "x.com") (upstream 2) ∷ []

-- The loop has received both results and the closed channel.
abbrev over : Collecting
over =
    leave sources
      (take_result (take_result shut [] [] (f 1) (f 28 ∷ [])) [] (one ∷ two ∷ []) (f 28) []) failure
      (one ∷ two ∷ []) closed

over-Reach : Reach sources f q_types (start q_types) over
unfolding start report take_result leave lookup_type exchange parse_addrs_from_msg parse_records
    record_type_id_to_name
over-Reach =
    next
      (next (next shut-Reach (receives [] [] (f 1) (f 28 ∷ []) refl refl))
        (receives [] (one ∷ two ∷ []) (f 28) [] refl refl))
      (drained failure (one ∷ two ∷ []) refl refl refl)

Reach-lookup_all_types_example :
    (sorted : List IpAddr) × (process sources failure (one ∷ two ∷ []) (closed ∷ [])
      ≡ returned (answer sorted none))
    × Perm sorted (addrs_in (lookup_all_types same (exchange udp udp) (bytes "x.com") q_types))
unfolding start report take_result leave lookup_all_types lookup_type exchange parse_addrs_from_msg
    parse_records
Reach-lookup_all_types_example =
    Reach-lookup_all_types machine same udp udp (bytes "x.com") q_types over
      (process sources failure (one ∷ two ∷ []) (closed ∷ [])) over-Reach refl refl (λ e. cc)
