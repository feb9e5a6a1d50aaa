-- ===== src/Dns/Provenance.antt =====
-- Where the address of a host comes from (dns/dns.go).
use mathlib.Core.Logic.{∥∥₁_prop}
use mathlib.Core.List.{mem-cons_self, mem-cons_of_mem}
use spoof_dpi_turkiye.Prelude.{
  ℕ, ◌≡◌, sym, List, [], ◌∷◌, Option, some, Result, ok, err, Bytes, All, Mem, All-map, length,
}
use spoof_dpi_turkiye.AddrSelect.Ip.{IpAddr}
use spoof_dpi_turkiye.AddrSelect.Rules.{SrcInfo}
use spoof_dpi_turkiye.Resolver.Answer.{Error, lookup_failed, Answer, answer}
use spoof_dpi_turkiye.Resolver.Lookup.{
  Msg, Query, new_msg, record_type_id_to_name, lookup_type, Event, result, closed, done, returned,
  parse_addrs_from_msg, process_results,
}
use spoof_dpi_turkiye.Resolver.Chain
use spoof_dpi_turkiye.Resolver.Chain.{ChainResult, Signal, got, chain_resolve}
use spoof_dpi_turkiye.Resolver.Origin.{Brings, Signals, process_results-All, chain_resolve-All}
use spoof_dpi_turkiye.Dns.{Upstream, Dns}
use spoof_dpi_turkiye.Dns.Clients.{Wire, exchange_of}

-- An event of the loop in `processResults`: the result of one of the query types, or an end.
abbrev pub Heard :
    (Bytes → Bytes) → (Query → Result Error (Option Msg)) → Bytes → List ℕ → Event → Type 0
Heard fqdn ex host q_types (result r) = (q : ℕ) × Mem q q_types × (r ≡ lookup_type fqdn ex host q)
Heard fqdn ex host q_types closed = Unit
Heard fqdn ex host q_types done = Unit

module _ {ℓ κ} {A : Type ℓ} (P : A → Type κ) where
  All-Mem : (xs : List A) → ((x : A) → Mem x xs → P x) → All P xs
  All-Mem [] f = tt
  All-Mem (x ∷ xs) f = (f x mem-cons_self, All-Mem xs (λ y m. f y (mem-cons_of_mem x m)))

module _ (w : Wire) (src_addrs : List IpAddr → List SrcInfo) (d : Dns) (host : Bytes) where
  -- A result that the race gets is what `Resolve` of one of its upstreams returns for the host, on
  -- some events.
  abbrev pub Reported : ChainResult → Type 0
  Reported r =
      (u : Upstream) × (ex : Query → Result Error (Option Msg)) × (events : List Event) × Mem u
        d.bypass_chain
      × (exchange_of w u ≡ some ex)
      × All (Heard w.fqdn ex host d.q_types) events
      × (process_results src_addrs events ≡ returned (answer r.addrs r.error))

  abbrev pub ReportedSignal : Signal → Type 0
  ReportedSignal (got r) = Reported r
  ReportedSignal Chain.Signal.done = Unit

  -- The address is in a reply of a configured upstream to a query for the host and a wanted type.
  abbrev pub From : IpAddr → Type 0
  From x =
      (u : Upstream) × (ex : Query → Result Error (Option Msg)) × (q : ℕ) × (m : Option Msg) × Mem u
        d.bypass_chain
      × (exchange_of w u ≡ some ex)
      × Mem q d.q_types
      × (ex (new_msg w.fqdn host q) ≡ ok m)
      × Mem x (parse_addrs_from_msg m)

  lookup_type_ok :
      (ex : Query → Result Error (Option Msg)) (q : ℕ) (m : Option Msg)
      → ok m ≡ lookup_type w.fqdn ex host q
      → ex (new_msg w.fqdn host q) ≡ ok m
  unfolding lookup_type
  lookup_type_ok ex q m e = go (ex (new_msg w.fqdn host q)) e
    where
      go :
          (r : Result Error (Option Msg))
          → ok m ≡ (elim r [
            | ok resp ↦ ok resp
            | err x ↦ err (lookup_failed (record_type_id_to_name q) host x)
          ])
          → r ≡ ok m
      go (ok resp) e' = sym e'
      go (err x) e' = absurd (cc e')

  Heard-Brings :
      (u : Upstream) (ex : Query → Result Error (Option Msg))
      → Mem u d.bypass_chain
      → exchange_of w u ≡ some ex
      → (ev : Event) → Heard w.fqdn ex host d.q_types ev
      → Brings (λ x. ∥ From x ∥₁) (λ x. ∥∥₁_prop) ev
  Heard-Brings u ex member own (result (ok m)) (q, wanted, same) =
      All-Mem (λ x. ∥ From x ∥₁) (parse_addrs_from_msg m)
        (λ x within. ∣ (u, ex, q, m, member, own, wanted, lookup_type_ok ex q m same, within) ∣₁)
  Heard-Brings u ex member own (result (err e)) h = tt
  Heard-Brings u ex member own closed h = tt
  Heard-Brings u ex member own done h = tt

  module _ (sized : (xs : List IpAddr) → length (src_addrs xs) ≡ length xs) where
    Reported-All : (r : ChainResult) → Reported r → All (λ x. ∥ From x ∥₁) r.addrs
    Reported-All r (u, ex, events, member, own, heard, ends) =
        process_results-All (λ x. ∥ From x ∥₁) (λ x. ∥∥₁_prop) src_addrs sized events ends
          (All-map (Heard-Brings u ex member own) events heard)

    ReportedSignal-Signals :
        (s : Signal) → ReportedSignal s → Signals (λ x. ∥ From x ∥₁) (λ x. ∥∥₁_prop) s
    ReportedSignal-Signals (got r) h = Reported-All r h
    ReportedSignal-Signals Chain.Signal.done h = tt

    -- What a race gives for the host has only addresses from replies to queries for it.
    pub chain_resolve-From :
        (names : List Bytes) (signals : List Signal) (r : Answer)
        → All ReportedSignal signals
        → chain_resolve names signals ≡ some r
        → All (λ x. ∥ From x ∥₁) r.addrs
    chain_resolve-From names signals r reports raced =
        chain_resolve-All (λ x. ∥ From x ∥₁) (λ x. ∥∥₁_prop) names signals raced
          (All-map ReportedSignal-Signals signals reports)
