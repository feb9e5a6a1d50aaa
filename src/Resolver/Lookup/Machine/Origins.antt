-- ===== src/Resolver/Lookup/Machine/Origins.antt =====
-- Where the results come from that the loop of `processResults` receives
-- (dns/resolver/resolver.go).
use mathlib.Core.List.{mem-cons_self, mem-cons_of_mem}
use spoof_dpi_turkiye.Prelude.{
  ℕ, ◌≡◌, refl, subst, List, [], ◌∷◌, All, All-append, All-map, All-at, All-without, Mem,
}
use spoof_dpi_turkiye.AddrSelect.Ip.{IpAddr}
use spoof_dpi_turkiye.AddrSelect.Rules.{SrcInfo}
use spoof_dpi_turkiye.Resolver.Lookup
use spoof_dpi_turkiye.Resolver.Lookup.{DnsResult, Event, result, closed}
use spoof_dpi_turkiye.Resolver.Lookup.Machine.{
  Collecting, start, report, take_result, leave, Step, reports, abandons, closes, receives, drained,
  stops, expires, Reach, here, next,
}

module _ (src_addrs : List IpAddr → List SrcInfo) (f : ℕ → DnsResult) (q_types : List ℕ) where
  -- The result is what `lookupType` gives for a query type that is asked for.
  abbrev pub Asked : DnsResult → Type 0
  Asked r = (q : ℕ) × Mem q q_types × (r ≡ f q)

  abbrev pub AskedEvent : Event → Type 0
  AskedEvent (result r) = Asked r
  AskedEvent closed = Unit
  AskedEvent Lookup.Event.done = Unit

  pub record Origins (s : Collecting) : Type 0 where
    pub wanted : All (λ q. Mem q q_types) s.running
    pub sent : All Asked s.channel
    pub received : All AskedEvent s.heard

  all-Mem : (xs : List ℕ) → All (λ q. Mem q xs) xs
  all-Mem [] = tt
  all-Mem (x ∷ xs) = (mem-cons_self, All-map (λ q. mem-cons_of_mem x) xs (all-Mem xs))

  start-Origins : Origins (start q_types)
  unfolding start
  start-Origins = record { wanted = all-Mem q_types; sent = tt; received = tt }

  Step-Origins : {s t : Collecting} → Step src_addrs f q_types s t → Origins s → Origins t
  unfolding report take_result leave
  Step-Origins {s} (reports q before after e still_open room) v =
      let wanted = subst (All (λ x. Mem x q_types)) e v.wanted in
      record {
        wanted = All-without (λ x. Mem x q_types) q before after wanted;
        sent =
            All-append Asked s.channel (f q ∷ []) v.sent
              ((q, All-at (λ x. Mem x q_types) q before after wanted, refl), tt);
        received = v.received;
      }
  Step-Origins (abandons q before after e over) v = record {
    wanted =
        All-without (λ x. Mem x q_types) q before after
          (subst (All (λ x. Mem x q_types)) e v.wanted);
    sent = v.sent;
    received = v.received;
  }
  Step-Origins (closes none_runs open_yet) v = record {
    wanted = v.wanted;
    sent = v.sent;
    received = v.received;
  }
  Step-Origins {s} (receives errs addrs r rest loop front) v =
      let sent = subst (All Asked) front v.sent in
      record {
        wanted = v.wanted;
        sent = sent.1;
        received = All-append AskedEvent s.heard (result r ∷ []) v.received (sent.0, tt);
      }
  Step-Origins {s} (drained errs addrs loop empty shut) v = record {
    wanted = v.wanted;
    sent = v.sent;
    received = All-append AskedEvent s.heard (closed ∷ []) v.received (tt, tt);
  }
  Step-Origins {s} (stops errs addrs loop over) v = record {
    wanted = v.wanted;
    sent = v.sent;
    received = All-append AskedEvent s.heard (Lookup.Event.done ∷ []) v.received (tt, tt);
  }
  Step-Origins expires v = record { wanted = v.wanted; sent = v.sent; received = v.received }

  pub Reach-Origins : {s : Collecting} → Reach src_addrs f q_types (start q_types) s → Origins s
  Reach-Origins here = start-Origins
  Reach-Origins (next r st) = Step-Origins st (Reach-Origins r)
