-- ===== src/Resolver/Chain/Machine/Refinement.antt =====
-- The race with its goroutines does what `chain_resolve` says (dns/resolver/chain.go).
use spoof_dpi_turkiye.Prelude.{
  ℕ, ◌+◌, ◌≡◌, inl, inr, refl, subst, true, List, some, Bytes, length, All, arith,
}
use spoof_dpi_turkiye.Resolver.Answer.{Answer}
use spoof_dpi_turkiye.Resolver.Chain.{ChainResult, chain_resolve}
use spoof_dpi_turkiye.Resolver.Chain.Machine.{
  returned, Race, start, Step, reports, abandons, receives, stops, concludes, expires, ticks, Reach,
  here, next,
}
use spoof_dpi_turkiye.Resolver.Chain.Machine.Invariant.{
  Allowed, Agrees, Inv, Counts-less, start-Inv, report-Inv, take_result-Inv, stop-Inv, conclude-Inv,
  idle-Inv, abandon-Inv,
}

pub Step-Inv :
    {P : ChainResult → Type 0} {per_try : ℕ} {names : List Bytes} {s t : Race}
    → Step P per_try names s t
    → Inv P names s
    → Inv P names t
Step-Inv {P} {names = names} {s = s} (reports r before after e p room) v =
    report-Inv P names s v r before after e p
Step-Inv {P} {names = names} {s = s} (abandons name before after e cancelled) v =
    abandon-Inv P names s v name before after e cancelled
Step-Inv {P} {names = names} {s = s} (receives n errs r rest loop front) v =
    take_result-Inv P names s v n errs r rest loop front
Step-Inv {P} {names = names} {s = s} (stops n errs loop over) v = stop-Inv P names s v n errs loop
Step-Inv {P} {names = names} {s = s} (concludes errs loop) v = conclude-Inv P names s v errs loop
Step-Inv {P} {names = names} {s = s} expires v =
    let t = record s { over = true } in
    idle-Inv P names s v t (refl, refl, refl)
      (Counts-less (length names) s t s.phase (omega arith) (inl refl) v.counts)
Step-Inv {P} {names = names} {s = s} (ticks d time) v =
    let t = record s { clock = s.clock + d } in
    idle-Inv P names s v t (refl, refl, refl)
      (Counts-less (length names) s t s.phase (omega arith) (inr (refl, refl)) v.counts)

pub Reach-Inv :
    {P : ChainResult → Type 0} {per_try : ℕ} {names : List Bytes} {s : Race}
    → Reach P per_try names (start names) s
    → Inv P names s
Reach-Inv {P} {names = names} here = start-Inv P names
Reach-Inv (next r st) = Step-Inv st (Reach-Inv r)

-- However the goroutines, the loop, the end of the context and time interleave, what the function
-- returns is what `chain_resolve` makes of the signals that the loop has received, and each of these
-- is the end of the context or a result that a resolver has returned.
pub Reach-chain_resolve :
    (P : ChainResult → Type 0) (per_try : ℕ) (names : List Bytes) (s : Race) (a : Answer)
    → Reach P per_try names (start names) s
    → s.phase ≡ returned a
    → (chain_resolve names s.heard ≡ some a) × All (Allowed P) s.heard
Reach-chain_resolve P per_try names s a reach ended =
    let v = Reach-Inv reach in (subst (Agrees names s.heard) ended v.agrees, v.honest)
