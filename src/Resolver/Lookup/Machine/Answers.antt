-- ===== src/Resolver/Lookup/Machine/Answers.antt =====
-- What `Resolve` of a plain resolver answers, with its goroutines in any interleaving
-- (dns/resolver/resolver.go and general.go).
use spoof_dpi_turkiye.Prelude.{
  ℕ, ◌≡◌, ◌≢◌, inl, inr, refl, ap, sym, ◌∙◌, subst, true, false, List, [], ◌∷◌, ◌++◌, Perm, Option,
  none, ok, err, Result, Bytes, length, length-middle, middle-ne-nil, Bool-cases, arith,
}
use spoof_dpi_turkiye.AddrSelect.Ip.{IpAddr}
use spoof_dpi_turkiye.AddrSelect.Rules.{SrcInfo}
use spoof_dpi_turkiye.AddrSelect.Sources.{System, default_src_addrs}
use spoof_dpi_turkiye.Resolver.Answer.{Error, answer}
use spoof_dpi_turkiye.Resolver.Lookup.{
  Msg, Query, DnsResult, closed, Outcome, returned, exchange, lookup_type, lookup_all_types,
  process_results,
}
use spoof_dpi_turkiye.Resolver.Lookup.Results.{addrs_in}
use spoof_dpi_turkiye.Resolver.Lookup.Arrival.{process_results-lookup_all_types}
use spoof_dpi_turkiye.Resolver.Lookup.Machine.{
  Phase, collecting, ended, Collecting, start, collect, report, take_result, leave, Step, reports,
  closes, receives, drained, Reach, here, next,
}
use spoof_dpi_turkiye.Resolver.Lookup.Machine.Kept.{Agrees, Complete}
use spoof_dpi_turkiye.Resolver.Lookup.Machine.Arrived.{Reach-Inv}

-- In whatever order the goroutines go on, one that has its result finds the channel open and can put
-- it there at once: `resCh <- res` neither panics nor waits.
pub Reach-sends :
    (src_addrs : List IpAddr → List SrcInfo) (f : ℕ → DnsResult) (q_types : List ℕ) (s : Collecting)
    (q : ℕ) (before after : List ℕ)
    → Reach src_addrs f q_types (start q_types) s
    → s.running ≡ before ++ q ∷ after
    → (s.is_closed ≡ false) × Step src_addrs f q_types s (report s (f q) (before ++ after))
Reach-sends src_addrs f q_types s q before after reach e =
    let v = Reach-Inv src_addrs f q_types reach in
    let still_open : s.is_closed ≡ false = elim (Bool-cases s.is_closed) [
      | inl shut ↦ absurd (middle-ne-nil q before after e (v.shut shut))
      | inr open_yet ↦ open_yet
    ] in
    (
      still_open,
      reports q before after e still_open
          (omega (arith, v.total, ap length e, length-middle q before after)),
    )

module _ (src_addrs : List IpAddr → List SrcInfo) (f : ℕ → DnsResult) (q_types : List ℕ) where
  Reach-before :
      {s t u : Collecting}
      → Step src_addrs f q_types s t
      → Reach src_addrs f q_types t u
      → Reach src_addrs f q_types s u
  Reach-before st here = next here st
  Reach-before st (next r last) = next (Reach-before st r) last

  abbrev pub Ends : Collecting → Type 0
  Ends s = (t : Collecting) × (o : Outcome) × Reach src_addrs f q_types s t × (t.phase ≡ ended o)

  collect-on :
      (errs : List Error) (addrs : List IpAddr) (r : DnsResult)
      → (errs' : List Error) × (addrs' : List IpAddr) × (collect errs addrs r
          ≡ collecting errs' addrs')
  collect-on errs addrs (ok msg) = (_, _, refl)
  collect-on errs addrs (err e) = (_, _, refl)

  drains :
      (channel : List DnsResult) (errs : List Error) (addrs : List IpAddr) (s : Collecting)
      → s.phase ≡ collecting errs addrs
      → s.channel ≡ channel
      → s.is_closed ≡ true
      → Ends s
  unfolding take_result leave
  drains [] errs addrs s loop empty shut =
      (leave src_addrs s errs addrs closed, _, next here (drained errs addrs loop empty shut), refl)
  drains (r ∷ rest) errs addrs s loop front shut =
      let (errs', addrs', on) = collect-on errs addrs r in
      let (t, o, reach, over) =
        drains rest errs' addrs' (take_result s errs addrs r rest) on refl shut in
      (t, o, Reach-before (receives errs addrs r rest loop front) reach, over)

  -- When no goroutine of `lookupAllTypes` runs any more, the loop of `processResults` can end, with
  -- what the channel holds and with its closing alone.
  pub Reach-Ends : (s : Collecting) → s.running ≡ [] → Ends s
  Reach-Ends s none_runs = go s.phase refl
    where
      shut : (errs : List Error) (addrs : List IpAddr) → s.phase ≡ collecting errs addrs → Ends s
      shut errs addrs loop = elim (Bool-cases s.is_closed) [
        | inl closed_now ↦ drains s.channel errs addrs s loop refl closed_now
        | inr open_yet ↦
            let (t, o, reach, over) =
              drains s.channel errs addrs (record s { is_closed = true }) loop refl refl in
            (t, o, Reach-before (closes none_runs open_yet) reach, over)
      ]

      go : (ph : Phase) → s.phase ≡ ph → Ends s
      go (collecting errs addrs) loop = shut errs addrs loop
      go (ended o) over = (s, o, here, over)

module _ (sys : System) (fqdn : Bytes → Bytes) (udp tcp : Query → Result Error (Option Msg)) where
  -- However the goroutines of a lookup interleave, if its context has not ended and some reply has
  -- addresses, what the loop ends with is an answer without an error, a permutation of the addresses
  -- of all replies: no result is lost, and nothing panics.
  pub Reach-lookup_all_types :
      (host : Bytes) (q_types : List ℕ) (s : Collecting) (o : Outcome)
      → Reach
          (default_src_addrs sys)
          (lookup_type fqdn (exchange udp tcp) host)
          q_types
          (start q_types)
          s
      → s.phase ≡ ended o
      → s.over ≡ false
      → addrs_in (lookup_all_types fqdn (exchange udp tcp) host q_types) ≢ []
      → (sorted : List IpAddr) × (o ≡ returned (answer sorted none))
        × Perm sorted (addrs_in (lookup_all_types fqdn (exchange udp tcp) host q_types))
  unfolding lookup_all_types
  Reach-lookup_all_types host q_types s o reach over lasting found =
      let f = lookup_type fqdn (exchange udp tcp) host in
      let v = Reach-Inv (default_src_addrs sys) f q_types reach in
      elim v.complete [
        | inl late ↦ absurd (cc (late, lasting))
        | inr complete ↦
            let (rs, heard, perm) =
              subst (Complete (default_src_addrs sys) f q_types s) over complete in
            let (sorted, answers, same) =
              process_results-lookup_all_types sys fqdn udp tcp host q_types rs perm found in
            (
              sorted,
              sym (subst (Agrees (default_src_addrs sys) f q_types s.heard) over v.agrees)
                  ∙ ap (process_results (default_src_addrs sys)) heard
                  ∙ answers,
              same,
            )
      ]
