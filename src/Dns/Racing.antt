-- ===== src/Dns/Racing.antt =====
-- The race of the upstreams with its goroutines and theirs (dns/dns.go, with dns/resolver/chain.go
-- and resolver.go).
pub mod Tests
use mathlib.Core.Logic.{∥∥₁_prop}
use spoof_dpi_turkiye.Prelude.{
  ℕ, ◌≡◌, subst, List, map, Option, none, some, Result, Bytes, All, All-map, Mem, length,
}
use spoof_dpi_turkiye.AddrSelect.Ip.{IpAddr}
use spoof_dpi_turkiye.AddrSelect.Rules.{SrcInfo}
use spoof_dpi_turkiye.Resolver.Answer.{Error, Answer, answer}
use spoof_dpi_turkiye.Resolver.Chain
use spoof_dpi_turkiye.Resolver.Chain.{ChainResult, Signal, got}
use spoof_dpi_turkiye.Resolver.Chain.Machine as Racer
use spoof_dpi_turkiye.Resolver.Chain.Machine.Invariant.{Allowed}
use spoof_dpi_turkiye.Resolver.Chain.Machine.Refinement.{Reach-chain_resolve}
use spoof_dpi_turkiye.Resolver.Lookup
use spoof_dpi_turkiye.Resolver.Lookup.{
  Msg, Query, lookup_type, Event, result, closed, returned, process_results,
}
use spoof_dpi_turkiye.Resolver.Lookup.Machine.{Collecting, start, ended, Reach}
use spoof_dpi_turkiye.Resolver.Lookup.Machine.Kept.{Agrees}
use spoof_dpi_turkiye.Resolver.Lookup.Machine.Arrived.{Reach-Inv}
use spoof_dpi_turkiye.Resolver.Lookup.Machine.Origins.{AskedEvent, Reach-Origins}
use spoof_dpi_turkiye.Dns.{Upstream, Dns}
use spoof_dpi_turkiye.Dns.Clients.{Wire, exchange_of, upstream_string}
use spoof_dpi_turkiye.Dns.Provenance.{Heard, From, Reported, ReportedSignal, chain_resolve-From}

-- The names of the goroutines of the race.
abbrev pub racers : Wire → Dns → List Bytes
racers w d = map (upstream_string w) d.bypass_chain

module _ (w : Wire) (src_addrs : List IpAddr → List SrcInfo) (d : Dns) (host : Bytes) where
  -- The result is what `Resolve` of one of the upstreams returns, behind an interleaving of the
  -- goroutines of its lookup.
  abbrev pub Resolved : ChainResult → Type 0
  Resolved r =
      (u : Upstream) × (ex : Query → Result Error (Option Msg)) × (s : Collecting) × Mem u
        d.bypass_chain
      × (r.from ≡ upstream_string w u)
      × (exchange_of w u ≡ some ex)
      × Reach src_addrs (lookup_type w.fqdn ex host) d.q_types (start d.q_types) s
      × (s.phase ≡ ended (returned (answer r.addrs r.error)))

  AskedEvent-Heard :
      (ex : Query → Result Error (Option Msg)) (e : Event)
      → AskedEvent src_addrs (lookup_type w.fqdn ex host) d.q_types e
      → Heard w.fqdn ex host d.q_types e
  AskedEvent-Heard ex (result r) h = h
  AskedEvent-Heard ex closed h = tt
  AskedEvent-Heard ex Lookup.Event.done h = tt

  Resolved-Reported : (r : ChainResult) → Resolved r → Reported w src_addrs d host r
  Resolved-Reported r (u, ex, s, member, named, own, reach, ends) =
      let f = lookup_type w.fqdn ex host in
      (
        u,
        ex,
        s.heard,
        member,
        own,
        All-map (AskedEvent-Heard ex) s.heard (Reach-Origins src_addrs f d.q_types reach).received,
        subst (Agrees src_addrs f d.q_types s.heard) ends
            (Reach-Inv src_addrs f d.q_types reach).agrees,
      )

  Allowed-Reported : (e : Signal) → Allowed Resolved e → ReportedSignal w src_addrs d host e
  Allowed-Reported (got r) h = Resolved-Reported r h
  Allowed-Reported Chain.Signal.done h = tt

  -- If the source selector gives a source for each address, then in every interleaving of the
  -- goroutines of the race and of the lookups of its upstreams, and whenever the contexts end, each
  -- address that the race returns is one that a configured upstream has put into a reply to a query
  -- for this host and one of the types that are asked for.
  pub Reach-From :
      (s : Racer.Race) (a : Answer)
      → ((xs : List IpAddr) → length (src_addrs xs) ≡ length xs)
      → Racer.Reach Resolved d.per_try (racers w d) (Racer.start (racers w d)) s
      → s.phase ≡ Racer.returned a
      → All (λ x. ∥ From w src_addrs d host x ∥₁) a.addrs
  Reach-From s a sized reach over =
      let (gives, honest) = Reach-chain_resolve Resolved d.per_try (racers w d) s a reach over in
      chain_resolve-From w src_addrs d host sized (racers w d) s.heard a
        (All-map Allowed-Reported s.heard honest) gives
