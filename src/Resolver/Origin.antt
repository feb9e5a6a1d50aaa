-- ===== src/Resolver/Origin.antt =====
-- Where the addresses of an answer come from (dns/resolver/resolver.go and dns/resolver/chain.go).
use mathlib.Core.List.Permᴰ.{Permᴰ}
use mathlib.Core.Logic.{∥∥₁_elim}
use spoof_dpi_turkiye.Prelude.{
  ℕ, zero, suc, ◌≡◌, refl, sym, subst, List, [], ◌∷◌, ◌++◌, Option, none, some, ok, err, Perm,
  Bytes, All, if◌then◌else◌, All-append, length, Bool-cases, inl, inr,
}
use spoof_dpi_turkiye.AddrSelect.Ip.{IpAddr}
use spoof_dpi_turkiye.AddrSelect.Rules.{SrcInfo}
use spoof_dpi_turkiye.Resolver.Answer.{Error, ctx_error, Answer, answer, join, is_empty}
use spoof_dpi_turkiye.Resolver.Lookup.{
  Event, result, closed, done, Outcome, returned, waiting, panicked, parse_addrs_from_msg,
  return_sorted, process, process_results,
}
use spoof_dpi_turkiye.Resolver.Lookup.Results.{return_sorted-perm}
use spoof_dpi_turkiye.Resolver.Chain
use spoof_dpi_turkiye.Resolver.Chain.{ChainResult, Signal, got, note, receive, chain_resolve}

module _ (P : IpAddr → Type 0) (proper : (x : IpAddr) → IsProp (P x)) where
  All-prop : (xs : List IpAddr) → IsProp (All P xs)
  All-prop [] h k = refl
  All-prop (x ∷ xs) h k = λ i. (proper x h.0 k.0 i, All-prop xs h.1 k.1 i)

  All-Permᴰ : {xs ys : List IpAddr} → Permᴰ xs ys → All P ys → All P xs
  All-Permᴰ Permᴰ.nil h = tt
  All-Permᴰ (Permᴰ.cons {a = a} {b = b} e d) h = (subst P (sym e) h.0, All-Permᴰ d h.1)
  All-Permᴰ (Permᴰ.swap e f) h =
      let (x, rest) = h in let (y, more) = rest in (subst P (sym e) y, (subst P (sym f) x, more))
  All-Permᴰ (Permᴰ.trans d f) h = All-Permᴰ d (All-Permᴰ f h)

  All-Perm : {xs ys : List IpAddr} → Perm xs ys → All P ys → All P xs
  All-Perm {xs = xs} p h = ∥∥₁_elim p (All-prop xs) (λ d. All-Permᴰ d h)

  -- Every address that a result brings has the property.
  abbrev pub Brings : Event → Type 0
  Brings (result (ok msg)) = All P (parse_addrs_from_msg msg)
  Brings (result (err e)) = Unit
  Brings closed = Unit
  Brings done = Unit

  abbrev pub AllReturned : Outcome → Type 0
  AllReturned waiting = Unit
  AllReturned panicked = Unit
  AllReturned (returned r) = All P r.addrs

  module _ (src_addrs : List IpAddr → List SrcInfo)
      (sized : (xs : List IpAddr) → length (src_addrs xs) ≡ length xs) where
    return_sorted-All :
        (addrs : List IpAddr) → All P addrs → AllReturned (return_sorted src_addrs addrs)
    return_sorted-All addrs h =
        let (sorted, eq, perm) = return_sorted-perm src_addrs addrs (sized addrs) in
        rw eq (All-Perm perm h)

    closing :
        (addrs : List IpAddr) (e : Option Error)
        → All P addrs
        → AllReturned
            (if is_empty addrs then returned (answer [] e) else return_sorted src_addrs addrs)
    closing [] e h = tt
    closing (x ∷ addrs) e h = return_sorted-All (x ∷ addrs) h

    process-All :
        (errs : List Error) (addrs : List IpAddr) (events : List Event)
        → All P addrs
        → All Brings events
        → AllReturned (process src_addrs errs addrs events)
    unfolding process
    process-All errs addrs [] h bring = tt
    process-All errs addrs (closed ∷ events) h bring = closing addrs (join errs) h
    process-All errs addrs (done ∷ events) h bring = closing addrs (some ctx_error) h
    process-All errs addrs (result (err e) ∷ events) h bring =
        process-All (errs ++ e ∷ []) addrs events h bring.1
    process-All errs addrs (result (ok msg) ∷ events) h bring =
        process-All errs (addrs ++ parse_addrs_from_msg msg) events
          (All-append P addrs (parse_addrs_from_msg msg) h bring.0) bring.1

    pub process_results-All :
        (events : List Event) {r : Answer}
        → process_results src_addrs events ≡ returned r
        → All Brings events
        → All P r.addrs
    unfolding process_results
    process_results-All events e bring = subst AllReturned e (process-All [] [] events tt bring)

  abbrev pub Signals : Signal → Type 0
  Signals (got r) = All P r.addrs
  Signals Chain.Signal.done = Unit

  abbrev pub AllAnswer : Option Answer → Type 0
  AllAnswer none = Unit
  AllAnswer (some r) = All P r.addrs

  receive-All :
      (n : ℕ) (errs : List Error) (signals : List Signal)
      → All Signals signals
      → AllAnswer (receive n errs signals)
  unfolding receive
  receive-All zero errs signals h = tt
  receive-All (suc n) errs [] h = tt
  receive-All (suc n) errs (Chain.Signal.done ∷ signals) h = tt
  receive-All (suc n) errs (got r ∷ signals) h = elim (Bool-cases (is_empty r.addrs)) [
    | inl none_in ↦ rw none_in (receive-All n (note errs r) signals h.1)
    | inr some_in ↦ rw some_in h.0
  ]

  pub chain_resolve-All :
      (names : List Bytes) (signals : List Signal) {r : Answer}
      → chain_resolve names signals ≡ some r
      → All Signals signals
      → All P r.addrs
  unfolding chain_resolve
  chain_resolve-All [] signals e h = subst AllAnswer e tt
  chain_resolve-All (x ∷ names) signals e h =
      subst AllAnswer e (receive-All (length (x ∷ names)) [] signals h)
