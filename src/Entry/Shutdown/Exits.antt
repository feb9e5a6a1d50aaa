-- ===== src/Entry/Shutdown/Exits.antt =====
-- How `run` ends (main.go, with `Proxy.Start` of proxy/proxy.go).
use mathlib.Core.List.{append_assoc}
use spoof_dpi_turkiye.Prelude.{
  ℕ, ◌≡◌, ◌⊎◌, inl, inr, refl, ap, sym, ◌∙◌, subst, Bool, true, false, List, [], ◌∷◌, ◌++◌, Option,
  none, some,
}
use spoof_dpi_turkiye.Proxy.{
  Accept, conn, timeout, closed, failed, Started, handles, sleeps, next_delay, accept_loop,
}
use spoof_dpi_turkiye.Entry.{signalled, StartError, exit_code}
use spoof_dpi_turkiye.Entry
use spoof_dpi_turkiye.Entry.Shutdown.{
  Accepting, starting, accepting, asleep, ended, Waiting, selecting, draining, exited, Running,
  launched, accept, doing, goes_on, Returns, Step, signals, takes, opens, refuses, closes, accepts,
  wakes, receives, drains, Reach, here, next,
}

-- What `accept_loop` makes of what `Accept` has returned.
abbrev pub Loops : List Accept → List Started → Accepting → Type 0
Loops accepted done starting = (accepted ≡ []) × (done ≡ [])
Loops accepted done (accepting delay) =
    (more : List Accept) → accept_loop 0 (accepted ++ more) ≡ done ++ accept_loop delay more
Loops accepted done (asleep delay) =
    (more : List Accept) → accept_loop 0 (accepted ++ more) ≡ done ++ accept_loop delay more
Loops accepted done (ended e) = accept_loop 0 accepted ≡ done

-- `Start` returns without an error only from a closed listener.
abbrev pub Closed : Bool → Accepting → Type 0
Closed shut starting = Unit
Closed shut (accepting delay) = Unit
Closed shut (asleep delay) = Unit
Closed shut (ended e) = ((e ≡ none) × (shut ≡ true)) ⊎ (e ≡ some StartError.failed)

abbrev pub HasEnded : Accepting → Type 0
HasEnded start = (e : Option StartError) × (start ≡ ended e)

abbrev pub Waits : Running → Waiting → Type 0
Waits s selecting = s.cancelled ≡ false
Waits s draining = s.cancelled ≡ true
Waits s (exited n) =
    HasEnded s.start
    × (((s.cancelled ≡ true) × (n ≡ 0))
        ⊎ ((s.cancelled ≡ false) × (s.start ≡ ended (some StartError.failed)) × (n ≡ 1)))

pub record Inv (s : Running) : Type 0 where
  pub loops : Loops s.accepted s.done s.start
  pub after : (s.shut ≡ true) → s.cancelled ≡ true
  pub clean : Closed s.shut s.start
  pub waits : Waits s s.main

launched-Inv : Inv launched
unfolding launched
launched-Inv = record { loops = (refl, refl); after = λ e. absurd (cc e); clean = tt; waits = refl }

-- A step of `Start` before its end leaves `run` where it is.
Waits-start :
    (s : Running) (start : Accepting) (accepted : List Accept) (done : List Started) (m : Waiting)
    → ((e : Option StartError) → s.start ≡ ended e → ⊥)
    → Waits s m
    → Waits (record s { start = start; accepted = accepted; done = done }) m
Waits-start s start accepted done selecting runs h = h
Waits-start s start accepted done draining runs h = h
Waits-start s start accepted done (exited n) runs ((e, over), h) = absurd (runs e over)

goes_on-Loops :
    (accepted : List Accept) (done : List Started) (delay : ℕ) (a : Accept)
    → Loops accepted done (accepting delay)
    → Loops (accepted ++ a ∷ []) (done ++ doing delay a ∷ []) (goes_on delay a)
unfolding accept_loop
goes_on-Loops accepted done delay conn h = λ more.
    ap (accept_loop 0) (append_assoc accepted (conn ∷ []) more)
    ∙ h (conn ∷ more)
    ∙ sym (append_assoc done (handles ∷ []) (accept_loop 0 more))
goes_on-Loops accepted done delay timeout h = λ more.
    ap (accept_loop 0) (append_assoc accepted (timeout ∷ []) more)
    ∙ h (timeout ∷ more)
    ∙ sym (append_assoc done (sleeps (next_delay delay) ∷ []) (accept_loop (next_delay delay) more))
goes_on-Loops accepted done delay closed h = h (closed ∷ [])
goes_on-Loops accepted done delay failed h = h (failed ∷ [])

goes_on-Closed :
    (shut : Bool) (delay : ℕ) (a : Accept) → Returns shut a → Closed shut (goes_on delay a)
goes_on-Closed shut delay conn h = tt
goes_on-Closed shut delay timeout h = tt
goes_on-Closed shut delay closed h = inl (refl, h)
goes_on-Closed shut delay failed h = inr refl

Closed-shut : (shut : Bool) (start : Accepting) → Closed shut start → Closed true start
Closed-shut shut starting h = tt
Closed-shut shut (accepting delay) h = tt
Closed-shut shut (asleep delay) h = tt
Closed-shut shut (ended e) (inl (none_in, h)) = inl (none_in, refl)
Closed-shut shut (ended e) (inr h) = inr h

module _ (s : Running) (v : Inv s) where
  accept-Inv :
      (delay : ℕ) (a : Accept)
      → s.start ≡ accepting delay
      → Returns s.shut a
      → Inv (accept s delay a)
  unfolding accept
  accept-Inv delay a at gives = record {
    loops = goes_on-Loops s.accepted s.done delay a (subst (Loops s.accepted s.done) at v.loops);
    after = v.after;
    clean = goes_on-Closed s.shut delay a gives;
    waits =
        Waits-start s (goes_on delay a) (s.accepted ++ a ∷ []) (s.done ++ doing delay a ∷ []) s.main
          (λ e over. cc (at, over)) v.waits;
  }

  -- `run` gets what `Start` has returned, with no signal taken before.
  receives-Waits :
      (e : Option StartError)
      → s.main ≡ selecting
      → s.start ≡ ended e
      → Waits s (exited (exit_code (Entry.Ending.returned e)))
  unfolding exit_code
  receives-Waits none at over = elim (subst (Closed s.shut) over v.clean) [
    | inl (same, shut) ↦ absurd (cc (v.after shut, subst (Waits s) at v.waits))
    | inr error ↦ absurd (cc error)
  ]
  receives-Waits (some x) at over = elim (subst (Closed s.shut) over v.clean) [
    | inl (none_in, shut) ↦ absurd (cc none_in)
    | inr error ↦ (
      (some x, over),
      inr (
        subst (Waits s) at v.waits,
        over ∙ ap ended error,
        ap (λ y. exit_code (Entry.Ending.returned y)) error,
      ),
    )
  ]

  drains-Waits :
      (e : Option StartError)
      → s.main ≡ draining
      → s.start ≡ ended e
      → Waits s (exited (exit_code signalled))
  unfolding exit_code
  drains-Waits e at over = ((e, over), inl (subst (Waits s) at v.waits, refl))

  signals-Waits : (m : Waiting) → Waits s m → Waits (record s { pending = true }) m
  signals-Waits selecting h = h
  signals-Waits draining h = h
  signals-Waits (exited n) h = h

  closes-Waits : (m : Waiting) → Waits s m → Waits (record s { shut = true }) m
  closes-Waits selecting h = h
  closes-Waits draining h = h
  closes-Waits (exited n) h = h

pub Step-Inv : {s t : Running} → Step s t → Inv s → Inv t
unfolding accept_loop
Step-Inv {s} signals v = record {
  loops = v.loops;
  after = v.after;
  clean = v.clean;
  waits = signals-Waits s v s.main v.waits;
}
Step-Inv (takes at there) v = record {
  loops = v.loops;
  after = λ e. refl;
  clean = v.clean;
  waits = refl;
}
Step-Inv {s} (opens at) v = record {
  loops =
      let (none_yet, nothing) = subst (Loops s.accepted s.done) at v.loops in
      λ more. rw (none_yet, nothing) refl;
  after = v.after;
  clean = tt;
  waits = Waits-start s (accepting 0) s.accepted s.done s.main (λ e over. cc (at, over)) v.waits;
}
Step-Inv {s} (refuses at) v = record {
  loops =
      let (none_yet, nothing) = subst (Loops s.accepted s.done) at v.loops in
      rw (none_yet, nothing) refl;
  after = v.after;
  clean = inr refl;
  waits =
      Waits-start s (ended (some StartError.failed)) s.accepted s.done s.main
        (λ e over. cc (at, over)) v.waits;
}
Step-Inv {s} (closes cancelled there unshut) v = record {
  loops = v.loops;
  after = λ e. cancelled;
  clean = Closed-shut s.shut s.start v.clean;
  waits = closes-Waits s v s.main v.waits;
}
Step-Inv {s} (accepts delay a at gives) v = accept-Inv s v delay a at gives
Step-Inv {s} (wakes delay at) v = record {
  loops = subst (Loops s.accepted s.done) at v.loops;
  after = v.after;
  clean = tt;
  waits =
      Waits-start s (accepting delay) s.accepted s.done s.main (λ e over. cc (at, over)) v.waits;
}
Step-Inv {s} (receives e at over) v = record {
  loops = v.loops;
  after = v.after;
  clean = v.clean;
  waits = receives-Waits s v e at over;
}
Step-Inv {s} (drains e at over) v = record {
  loops = v.loops;
  after = v.after;
  clean = v.clean;
  waits = drains-Waits s v e at over;
}

pub Reach-Inv : {s : Running} → Reach launched s → Inv s
Reach-Inv here = launched-Inv
Reach-Inv (next r st) = Step-Inv st (Reach-Inv r)

-- However signals, the closing of the listener, what `Accept` returns and the `select` interleave,
-- `run` ends only behind the end of `Start`, whose loop has done what `accept_loop` does with what
-- `Accept` has returned. The exit code is 0 if the `select` has taken a signal; otherwise, even with a
-- signal that has come and was not taken, it is 1, and an error has ended `Start`.
pub Reach-exited :
    (s : Running) (n : ℕ)
    → Reach launched s
    → s.main ≡ exited n
    → HasEnded s.start
      × (accept_loop 0 s.accepted ≡ s.done)
      × (((s.cancelled ≡ true) × (n ≡ 0))
          ⊎ ((s.cancelled ≡ false) × (s.start ≡ ended (some StartError.failed)) × (n ≡ 1)))
Reach-exited s n reach over =
    let v = Reach-Inv reach in
    let ((e, at), how) = subst (Waits s) over v.waits in
    ((e, at), subst (Loops s.accepted s.done) at v.loops, how)
