-- ===== src/Resolver/Lookup/Machine/Kept.antt =====
-- The results of a lookup that are received, in the channel and to come
-- (dns/resolver/resolver.go).
use mathlib.Core.List.{append_assoc, perm_middle, map-append}
use mathlib.Core.List.Perm
use spoof_dpi_turkiye.Prelude.{
  ℕ, ◌+◌, ◌≤◌, ◌≡◌, ◌⊎◌, inr, refl, sym, subst, true, List, [], ◌∷◌, ◌++◌, map, Perm, ok, err,
  length, arith,
}
use spoof_dpi_turkiye.AddrSelect.Ip.{IpAddr}
use spoof_dpi_turkiye.AddrSelect.Rules.{SrcInfo}
use spoof_dpi_turkiye.Resolver.Answer.{Error}
use spoof_dpi_turkiye.Resolver.Lookup.{DnsResult, Event, result, closed, process, process_results}
use spoof_dpi_turkiye.Resolver.Lookup.Machine.{
  Phase, collecting, ended, Collecting, start, report, collect, take_result,
}

module _ (src_addrs : List IpAddr → List SrcInfo) (f : ℕ → DnsResult) (q_types : List ℕ) where
  -- What `process_results` makes of the events so far.
  abbrev pub Agrees : List Event → Phase → Type 0
  Agrees heard (collecting errs addrs) =
      (more : List Event)
      → process_results src_addrs (heard ++ more) ≡ process src_addrs errs addrs more
  Agrees heard (ended o) = process_results src_addrs heard ≡ o

  -- The results that the loop has received, those in the channel, and those to come.
  abbrev pub Kept : List DnsResult → Collecting → Type 0
  Kept rs s = Perm (rs ++ (s.channel ++ map f s.running)) (map f q_types)

  -- While the context lasts no result is lost, and the loop ends with the channel, behind them all.
  abbrev pub Complete : Collecting → Phase → Type 0
  Complete s (collecting errs addrs) = (rs : List DnsResult) × (s.heard ≡ map result rs) × Kept rs s
  Complete s (ended o) =
      (rs : List DnsResult) × (s.heard ≡ map result rs ++ closed ∷ []) × Perm rs (map f q_types)

  pub record Inv (s : Collecting) : Type 0 where
    pub agrees : Agrees s.heard s.phase
    pub complete : (s.over ≡ true) ⊎ Complete s s.phase
    pub shut : (s.is_closed ≡ true) → s.running ≡ []
    pub total : length s.channel + length s.running ≤ s.capacity

  pub start-Inv : Inv (start q_types)
  unfolding start process_results
  start-Inv = record {
    agrees = λ more. refl;
    complete = inr ([], refl, Perm.refl (map f q_types));
    shut = λ e. absurd (cc e);
    total = omega arith;
  }

  pub Kept-report :
      (s : Collecting) (rs : List DnsResult) (q : ℕ) (before after : List ℕ)
      → s.running ≡ before ++ q ∷ after
      → Kept rs s
      → Kept rs (report s (f q) (before ++ after))
  unfolding report
  Kept-report s rs q before after e kept = Perm.trans (Perm.append_left rs moved) kept
    where
      later : List DnsResult
      later = map f (before ++ after)

      moved : Perm ((s.channel ++ f q ∷ []) ++ later) (s.channel ++ map f s.running)
      moved = rw (append_assoc s.channel (f q ∷ []) later) (
          Perm.append_left s.channel (
            rw (e, map-append f before after, map-append f before (q ∷ after))
              (Perm.symm (perm_middle (map f before) (map f after)))))

  pub Kept-take_result :
      (s : Collecting) (errs : List Error) (addrs : List IpAddr) (rs : List DnsResult)
      (r : DnsResult) (rest : List DnsResult)
      → s.channel ≡ r ∷ rest
      → Kept rs s
      → Kept (rs ++ r ∷ []) (take_result s errs addrs r rest)
  unfolding take_result
  Kept-take_result s errs addrs rs r rest front kept =
      subst (λ t. Perm t (map f q_types)) (sym (append_assoc rs (r ∷ []) (rest ++ map f s.running)))
        (subst (λ ch. Perm (rs ++ (ch ++ map f s.running)) (map f q_types)) front kept)

  -- What is true before a result is looked at is so behind it, whichever it is.
  pub collect-Agrees :
      (heard : List Event) (errs : List Error) (addrs : List IpAddr) (r : DnsResult)
      → ((more : List Event)
          → process_results src_addrs (heard ++ more)
            ≡ process src_addrs errs addrs (result r ∷ more))
      → Agrees heard (collect errs addrs r)
  unfolding process
  collect-Agrees heard errs addrs (ok msg) h = h
  collect-Agrees heard errs addrs (err e) h = h

  pub collect-Complete :
      (t : Collecting) (errs : List Error) (addrs : List IpAddr) (r : DnsResult)
      → ((rs : List DnsResult) × (t.heard ≡ map result rs) × Kept rs t)
      → Complete t (collect errs addrs r)
  collect-Complete t errs addrs (ok msg) h = h
  collect-Complete t errs addrs (err e) h = h
