-- ===== src/Resolver/Lookup/Machine/Arrived.antt =====
-- What the loop of `processResults` has received when it ends (dns/resolver/resolver.go).
use mathlib.Core.List.{append-nil, append_assoc, map-append}
use spoof_dpi_turkiye.Prelude.{
  ℕ, ◌≡◌, ◌⊎◌, inl, inr, refl, ap, sym, ◌∙◌, subst, true, List, [], ◌∷◌, ◌++◌, map, Perm, length,
  length-append, length-middle, middle-ne-nil, arith,
}
use spoof_dpi_turkiye.AddrSelect.Ip.{IpAddr}
use spoof_dpi_turkiye.AddrSelect.Rules.{SrcInfo}
use spoof_dpi_turkiye.Resolver.Answer.{Error}
use spoof_dpi_turkiye.Resolver.Lookup
use spoof_dpi_turkiye.Resolver.Lookup.{
  DnsResult, Event, result, closed, Outcome, process, process_results,
}
use spoof_dpi_turkiye.Resolver.Lookup.Machine.{
  Phase, collecting, ended, Collecting, start, report, collect, take_result, leave, Step, reports,
  abandons, closes, receives, drained, stops, expires, Reach, here, next,
}
use spoof_dpi_turkiye.Resolver.Lookup.Machine.Kept.{
  Agrees, Kept, Complete, Inv, start-Inv, Kept-report, Kept-take_result, collect-Agrees,
  collect-Complete,
}

module _ (src_addrs : List IpAddr → List SrcInfo) (f : ℕ → DnsResult) (q_types : List ℕ) where
  module _ (s : Collecting) (v : Inv src_addrs f q_types s) where
    report-Inv :
        (q : ℕ) (before after : List ℕ)
        → s.running ≡ before ++ q ∷ after
        → Inv src_addrs f q_types (report s (f q) (before ++ after))
    unfolding report
    report-Inv q before after e = record {
      agrees = v.agrees;
      complete = complete s.phase v.complete;
      shut = λ shut. absurd (middle-ne-nil q before after e (v.shut shut));
      total = omega (
        arith,
        v.total,
        ap length e,
        length-append s.channel (f q ∷ []),
        length-middle q before after,
      );
    }
      where
        t : Collecting
        t = report s (f q) (before ++ after)

        complete :
            (ph : Phase)
            → (s.over ≡ true) ⊎ Complete src_addrs f q_types s ph
            → (t.over ≡ true) ⊎ Complete src_addrs f q_types t ph
        complete ph (inl over) = inl over
        complete (collecting errs addrs) (inr (rs, heard, kept)) =
            inr (rs, heard, Kept-report src_addrs f q_types s rs q before after e kept)
        complete (ended o) (inr h) = inr h

    abandon-Inv :
        (q : ℕ) (before after : List ℕ)
        → s.running ≡ before ++ q ∷ after
        → s.over ≡ true
        → Inv src_addrs f q_types (record s { running = before ++ after })
    abandon-Inv q before after e over = record {
      agrees = v.agrees;
      complete = inl over;
      shut = λ shut. absurd (middle-ne-nil q before after e (v.shut shut));
      total = omega (arith, v.total, ap length e, length-middle q before after);
    }

    take_result-Inv :
        (errs : List Error) (addrs : List IpAddr) (r : DnsResult) (rest : List DnsResult)
        → s.phase ≡ collecting errs addrs
        → s.channel ≡ r ∷ rest
        → Inv src_addrs f q_types (take_result s errs addrs r rest)
    unfolding take_result
    take_result-Inv errs addrs r rest loop front = record {
      agrees = collect-Agrees src_addrs f q_types t.heard errs addrs r so_far;
      complete =
          complete
            (subst (λ ph. (s.over ≡ true) ⊎ Complete src_addrs f q_types s ph) loop v.complete);
      shut = v.shut;
      total = omega (arith, v.total, ap length front);
    }
      where
        t : Collecting
        t = take_result s errs addrs r rest

        so_far :
            (more : List Event)
            → process_results src_addrs ((s.heard ++ result r ∷ []) ++ more)
              ≡ process src_addrs errs addrs (result r ∷ more)
        so_far more =
            ap (process_results src_addrs) (append_assoc s.heard (result r ∷ []) more)
            ∙ subst (Agrees src_addrs f q_types s.heard) loop v.agrees (result r ∷ more)

        complete :
            (s.over ≡ true) ⊎ Complete src_addrs f q_types s (collecting errs addrs)
            → (s.over ≡ true) ⊎ Complete src_addrs f q_types t (collect errs addrs r)
        complete (inl over) = inl over
        complete (inr (rs, heard, kept)) = inr (
            collect-Complete src_addrs f q_types t errs addrs r (
              rs ++ r ∷ [],
              ap (λ h. h ++ result r ∷ []) heard ∙ sym (map-append result rs (r ∷ [])),
              Kept-take_result src_addrs f q_types s errs addrs rs r rest front kept,
            ))

    leave-Agrees :
        (errs : List Error) (addrs : List IpAddr) (e : Event)
        → s.phase ≡ collecting errs addrs
        → Agrees src_addrs f q_types
            (leave src_addrs s errs addrs e).heard
            (leave src_addrs s errs addrs e).phase
    unfolding leave
    leave-Agrees errs addrs e loop =
        subst (Agrees src_addrs f q_types s.heard) loop v.agrees (e ∷ [])

    drained-Inv :
        (errs : List Error) (addrs : List IpAddr)
        → s.phase ≡ collecting errs addrs
        → s.channel ≡ []
        → s.is_closed ≡ true
        → Inv src_addrs f q_types (leave src_addrs s errs addrs closed)
    unfolding leave
    drained-Inv errs addrs loop empty shut = record {
      agrees = leave-Agrees errs addrs closed loop;
      complete =
          complete
            (subst (λ ph. (s.over ≡ true) ⊎ Complete src_addrs f q_types s ph) loop v.complete);
      shut = v.shut;
      total = v.total;
    }
      where
        t : Collecting
        t = leave src_addrs s errs addrs closed

        all : (rs : List DnsResult) → Kept src_addrs f q_types rs s → Perm rs (map f q_types)
        all rs kept =
            subst (λ xs. Perm xs (map f q_types))
              (ap (λ xs. rs ++ xs) (rw (empty, v.shut shut) refl) ∙ append-nil rs) kept

        complete :
            (s.over ≡ true) ⊎ Complete src_addrs f q_types s (collecting errs addrs)
            → (s.over ≡ true) ⊎ Complete src_addrs f q_types t t.phase
        complete (inl over) = inl over
        complete (inr (rs, heard, kept)) = inr (rs, ap (λ h. h ++ closed ∷ []) heard, all rs kept)

    stop-Inv :
        (errs : List Error) (addrs : List IpAddr)
        → s.phase ≡ collecting errs addrs
        → s.over ≡ true
        → Inv src_addrs f q_types (leave src_addrs s errs addrs Lookup.Event.done)
    unfolding leave
    stop-Inv errs addrs loop over = record {
      agrees = leave-Agrees errs addrs Lookup.Event.done loop;
      complete = inl over;
      shut = v.shut;
      total = v.total;
    }

  Step-Inv :
      {s t : Collecting}
      → Step src_addrs f q_types s t
      → Inv src_addrs f q_types s
      → Inv src_addrs f q_types t
  Step-Inv {s} (reports q before after e still_open room) v = report-Inv s v q before after e
  Step-Inv {s} (abandons q before after e over) v = abandon-Inv s v q before after e over
  Step-Inv {s} (closes none_runs open_yet) v = record {
    agrees = v.agrees;
    complete = go s.phase v.complete;
    shut = λ shut. none_runs;
    total = v.total;
  }
    where
      t : Collecting
      t = record s { is_closed = true }

      go :
          (ph : Phase)
          → (s.over ≡ true) ⊎ Complete src_addrs f q_types s ph
          → (s.over ≡ true) ⊎ Complete src_addrs f q_types t ph
      go ph (inl over) = inl over
      go (collecting errs addrs) (inr h) = inr h
      go (ended o) (inr h) = inr h
  Step-Inv {s} (receives errs addrs r rest loop front) v =
      take_result-Inv s v errs addrs r rest loop front
  Step-Inv {s} (drained errs addrs loop empty shut) v = drained-Inv s v errs addrs loop empty shut
  Step-Inv {s} (stops errs addrs loop over) v = stop-Inv s v errs addrs loop over
  Step-Inv {s} expires v = record {
    agrees = v.agrees;
    complete = inl refl;
    shut = v.shut;
    total = v.total;
  }

  pub Reach-Inv :
      {s : Collecting} → Reach src_addrs f q_types (start q_types) s → Inv src_addrs f q_types s
  Reach-Inv here = start-Inv src_addrs f q_types
  Reach-Inv (next r st) = Step-Inv st (Reach-Inv r)
