-- ===== src/Resolver/Chain/Machine/Invariant.antt =====
-- What holds of the race in every interleaving (dns/resolver/chain.go).
use mathlib.Core.List.{append-nil, append_assoc}
use spoof_dpi_turkiye.Prelude.{
  Bool, ◌||◌, ℕ, suc, ◌+◌, ◌≤◌, ◌≡◌, ◌⊎◌, inl, inr, refl, ap, sym, ◌∙◌, subst, true, false, List,
  [], ◌∷◌, ◌++◌, some, none, Bytes, length, length-append, length-middle, All, All-append, arith,
  Bool-cases, if◌then◌else◌,
}
use spoof_dpi_turkiye.Resolver.Answer.{Error, answer, is_empty}
use spoof_dpi_turkiye.Resolver.Chain
use spoof_dpi_turkiye.Resolver.Chain.{ChainResult, Signal, got, note, receive, chain_resolve}
use spoof_dpi_turkiye.Resolver.Chain.Machine.{
  Phase, receiving, returned, Race, start, is_cancelled, has_returned, report, take_result, stop,
  conclude,
}

-- A signal that is no result, or one of the results that a resolver may return.
abbrev pub Allowed : (ChainResult → Type 0) → Signal → Type 0
Allowed P (got r) = P r
Allowed P Chain.Signal.done = Unit

-- What `chain_resolve` makes of the signals so far.
abbrev pub Agrees : List Bytes → List Signal → Phase → Type 0
Agrees names heard (receiving n errs) =
    (more : List Signal) → chain_resolve names (heard ++ more) ≡ receive n errs more
Agrees names heard (returned a) = chain_resolve names heard ≡ some a

-- The rounds that are left are as many as the results to come, or more after the end of the context.
abbrev pub Counts : ℕ → Race → Phase → Type 0
Counts total s (receiving n errs) =
    (length s.channel + length s.running ≤ n)
    × (n ≤ total)
    × ((s.over ≡ true) ⊎ (length s.channel + length s.running ≡ n))
Counts total s (returned a) = length s.channel + length s.running ≤ total

pub record Inv (P : ChainResult → Type 0) (names : List Bytes) (s : Race) : Type 0 where
  pub agrees : Agrees names s.heard s.phase
  pub counts : Counts (length names) s s.phase
  pub fine : All P s.channel
  pub honest : All (Allowed P) s.heard

-- The effect of a step on the number of results to come.
pub Counts-less :
    (total : ℕ) (s t : Race) (phase : Phase)
    → (length t.channel + length t.running ≤ length s.channel + length s.running)
    → ((t.over ≡ true)
        ⊎ ((t.over ≡ s.over)
            × (length t.channel + length t.running ≡ length s.channel + length s.running)))
    → Counts total s phase
    → Counts total t phase
Counts-less total s t (receiving n errs) le (inl over) (a, b, c) = (omega arith, b, inl over)
Counts-less total s t (receiving n errs) le (inr (same, eq)) (a, b, inl over) =
    (omega arith, b, inl (same ∙ over))
Counts-less total s t (receiving n errs) le (inr (same, eq)) (a, b, inr all) =
    (omega arith, b, inr (omega arith))
Counts-less total s t (returned x) le how c = omega arith

or_false : (b : Bool) → (b || false) ≡ true → b ≡ true
or_false true e = refl
or_false false e = e

pub start-Inv : (P : ChainResult → Type 0) (names : List Bytes) → Inv P names (start names)
unfolding start chain_resolve
start-Inv P [] = record { agrees = refl; counts = omega arith; fine = tt; honest = tt }
start-Inv P (x ∷ names) = record {
  agrees = λ more. refl;
  counts = (omega arith, omega arith, inr (omega arith));
  fine = tt;
  honest = tt;
}

module _ (P : ChainResult → Type 0) (names : List Bytes) (s : Race) (v : Inv P names s) where
  pub report-Inv :
      (r : ChainResult) (before after : List Bytes)
      → s.running ≡ before ++ r.from ∷ after
      → P r
      → Inv P names (report s r (before ++ after))
  unfolding report
  report-Inv r before after e p = record {
    agrees = v.agrees;
    counts =
        Counts-less (length names) s (report s r (before ++ after)) s.phase (omega (arith, eq))
          (inr (refl, eq)) v.counts;
    fine = All-append P s.channel (r ∷ []) v.fine (p, tt);
    honest = v.honest;
  }
    where
      eq :
          length (s.channel ++ r ∷ []) + length (before ++ after)
          ≡ length s.channel + length s.running
      eq = rw e (omega (arith, length-append s.channel (r ∷ []), length-middle r.from before after))

  module _ (n : ℕ) (errs : List Error) (loop : s.phase ≡ receiving n errs) where
    loop-Agrees : (more : List Signal) → chain_resolve names (s.heard ++ more) ≡ receive n errs more
    loop-Agrees = subst (Agrees names s.heard) loop v.agrees

    loop-Counts : Counts (length names) s (receiving n errs)
    loop-Counts = subst (Counts (length names) s) loop v.counts

  -- The results to come never exceed the resolvers.
  pub total-le : length s.channel + length s.running ≤ length names
  total-le = go s.phase v.counts
    where
      go :
          (ph : Phase)
          → Counts (length names) s ph
          → length s.channel + length s.running ≤ length names
      go (receiving n errs) c = omega (arith, c)
      go (returned a) c = c

  pub take_result-Inv :
      (n : ℕ) (errs : List Error) (r : ChainResult) (rest : List ChainResult)
      → s.phase ≡ receiving (suc n) errs
      → s.channel ≡ r ∷ rest
      → Inv P names (take_result s n errs r rest)
  unfolding take_result receive
  take_result-Inv n errs r rest loop front =
      let fine = subst (All P) front v.fine in
      record {
        agrees = agrees;
        counts = counts;
        fine = fine.1;
        honest = All-append (Allowed P) s.heard (got r ∷ []) v.honest (fine.0, tt);
      }
    where
      phase : Phase
      phase = if is_empty r.addrs then receiving n (note errs r) else returned (answer r.addrs none)

      received :
          (more : List Signal)
          → chain_resolve names ((s.heard ++ got r ∷ []) ++ more)
            ≡ receive (suc n) errs (got r ∷ more)
      received more =
          ap (chain_resolve names) (append_assoc s.heard (got r ∷ []) more)
          ∙ loop-Agrees (suc n) errs loop (got r ∷ more)

      agrees : Agrees names (s.heard ++ got r ∷ []) phase
      agrees = elim (Bool-cases (is_empty r.addrs)) [
        | inl empty ↦ rw empty (λ more. received more ∙ rw empty refl)
        | inr found ↦ rw found (loop-Agrees (suc n) errs loop (got r ∷ []) ∙ rw found refl)
      ]

      shorter : length s.channel ≡ suc (length rest)
      shorter = ap length front

      fewer :
          (s.over ≡ true) ⊎ (length s.channel + length s.running ≡ suc n)
          → (s.over ≡ true) ⊎ (length rest + length s.running ≡ n)
      fewer (inl over) = inl over
      fewer (inr all) = inr (omega (arith, all, shorter))

      counts : Counts (length names) (take_result s n errs r rest) phase
      counts =
          let c = loop-Counts (suc n) errs loop in
          elim (Bool-cases (is_empty r.addrs)) [
            | inl empty ↦ rw empty (omega (arith, c, shorter), omega (arith, c), fewer c.2)
            | inr found ↦ rw found (omega (arith, c, shorter))
          ]

  pub stop-Inv :
      (n : ℕ) (errs : List Error) → s.phase ≡ receiving (suc n) errs → Inv P names (stop s)
  unfolding stop receive
  stop-Inv n errs loop = record {
    agrees = loop-Agrees (suc n) errs loop (Chain.Signal.done ∷ []);
    counts = total-le;
    fine = v.fine;
    honest = All-append (Allowed P) s.heard (Chain.Signal.done ∷ []) v.honest (tt, tt);
  }

  pub conclude-Inv :
      (errs : List Error) → s.phase ≡ receiving 0 errs → Inv P names (conclude s errs)
  unfolding conclude receive
  conclude-Inv errs loop = record {
    agrees = ap (chain_resolve names) (sym (append-nil s.heard)) ∙ loop-Agrees 0 errs loop [];
    counts = total-le;
    fine = v.fine;
    honest = v.honest;
  }

  -- A step that leaves the channel and the loop alone, with no more goroutines than before.
  pub idle-Inv :
      (t : Race)
      → (t.channel ≡ s.channel) × (t.phase ≡ s.phase) × (t.heard ≡ s.heard)
      → Counts (length names) t s.phase
      → Inv P names t
  idle-Inv t (channel, phase, heard) counts = record {
    agrees = rw (phase, heard) v.agrees;
    counts = rw phase counts;
    fine = rw channel v.fine;
    honest = rw heard v.honest;
  }

  pub abandon-Inv :
      (name : Bytes) (before after : List Bytes)
      → s.running ≡ before ++ name ∷ after
      → is_cancelled s ≡ true
      → Inv P names (record s { running = before ++ after })
  abandon-Inv name before after e cancelled =
      idle-Inv (record s { running = before ++ after }) (refl, refl, refl)
        (go s.phase v.counts refl)
    where
      go :
          (ph : Phase)
          → Counts (length names) s ph
          → s.phase ≡ ph
          → Counts (length names) (record s { running = before ++ after }) ph
      go (receiving n errs) c same = (
        omega (arith, c, ap length e, length-middle name before after),
        c.1,
        inl (or_false s.over (sym (ap (λ ph. s.over || has_returned ph) same) ∙ cancelled)),
      )
      go (returned a) c same = omega (arith, c, ap length e, length-middle name before after)
