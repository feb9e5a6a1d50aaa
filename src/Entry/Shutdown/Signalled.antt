-- ===== src/Entry/Shutdown/Signalled.antt =====
-- That `run` ends behind a signal (main.go, with `Proxy.Start` of proxy/proxy.go).
use spoof_dpi_turkiye.Prelude.{
  ℕ, zero, suc, ◌+◌, ◌≤◌, ◌<◌, ◌≡◌, ◌⊎◌, inl, inr, refl, ap, ◌∙◌, subst, Bool, true, arith,
  if◌then◌else◌, Bool-cases,
}
use spoof_dpi_turkiye.Proxy.{conn, timeout, closed, failed}
use spoof_dpi_turkiye.Entry.{exit_code}
use spoof_dpi_turkiye.Entry.Shutdown.{
  Accepting, starting, accepting, asleep, ended, Waiting, selecting, draining, exited, Running,
  launched, accept, is_listening, Step, signals, takes, opens, refuses, closes, accepts, wakes,
  receives, drains, Reach,
}
use spoof_dpi_turkiye.Entry.Shutdown.Exits.{Waits, Inv, Reach-Inv}

-- The steps of the program itself, without a signal or anything that `Accept` returns from a listener
-- that is open.
abbrev pub IsOwn : {s t : Running} → Step s t → Type 0
IsOwn signals = ⊥
IsOwn (takes at there) = Unit
IsOwn (opens at) = Unit
IsOwn (refuses at) = Unit
IsOwn (closes cancelled there unshut) = Unit
IsOwn (accepts delay conn at gives) = ⊥
IsOwn (accepts delay timeout at gives) = ⊥
IsOwn (accepts delay failed at gives) = ⊥
IsOwn (accepts delay closed at gives) = Unit
IsOwn (wakes delay at) = Unit
IsOwn (receives e at over) = Unit
IsOwn (drains e at over) = Unit

-- `run` ends with this exit code by the program's own steps: it has ended, or the program can go on,
-- and whichever step it takes, `run` ends behind that.
pub data Exits (n : ℕ) : Running → Type 0 where
  has_exited : (s : Running) → s.main ≡ exited n → Exits n s
  goes_on :
      (s t : Running) (st : Step s t)
      → IsOwn st
      → ((u : Running) (other : Step s u) → IsOwn other → Exits n u)
      → Exits n s

-- The steps that `Start` and the closing of the listener have before them, at most.
abbrev rank_of : Accepting → ℕ
rank_of starting = 3
rank_of (asleep delay) = 2
rank_of (accepting delay) = 1
rank_of (ended e) = 0

abbrev open_rank : Bool → ℕ
open_rank shut = if shut then 0 else 1

abbrev rank : Running → ℕ
rank s = rank_of s.start + open_rank s.shut

-- `run` waits for `Start` behind `cancel`.
abbrev Drains : Running → Type 0
Drains s = (s.main ≡ draining) × (s.cancelled ≡ true)

Step-Drains :
    {s t : Running} (st : Step s t)
    → IsOwn st
    → Drains s
    → (t.main ≡ exited 0) ⊎ (Drains t × (rank t < rank s))
unfolding accept exit_code
Step-Drains signals own d = absurd own
Step-Drains (takes at there) own (waits, cancelled) = absurd (cc (at, waits))
Step-Drains (opens at) own d = inr (d, omega (arith, ap rank_of at))
Step-Drains (refuses at) own d = inr (d, omega (arith, ap rank_of at))
Step-Drains (closes cancelled there unshut) own d = inr (d, omega (arith, ap open_rank unshut))
Step-Drains (accepts delay conn at gives) own d = absurd own
Step-Drains (accepts delay timeout at gives) own d = absurd own
Step-Drains (accepts delay failed at gives) own d = absurd own
Step-Drains (accepts delay closed at gives) own d = inr (d, omega (arith, ap rank_of at))
Step-Drains (wakes delay at) own d = inr (d, omega (arith, ap rank_of at))
Step-Drains (receives e at over) own (waits, cancelled) = absurd (cc (at, waits))
Step-Drains (drains e at over) own d = inl refl

abbrev CanGoOn : Running → Type 0
CanGoOn s = (t : Running) × (st : Step s t) × IsOwn st

Drains-CanGoOn : (s : Running) (start : Accepting) → s.start ≡ start → Drains s → CanGoOn s
Drains-CanGoOn s starting now d = (_, opens now, tt)
Drains-CanGoOn s (asleep delay) now d = (_, wakes delay now, tt)
Drains-CanGoOn s (ended e) now d = (_, drains e d.0 now, tt)
Drains-CanGoOn s (accepting delay) now d = elim (Bool-cases s.shut) [
  | inl shut ↦ (_, accepts delay closed now shut, tt)
  | inr unshut ↦ (_, closes d.1 (ap is_listening now) unshut, tt)
]

Drains-Exits : (n : ℕ) (s : Running) → rank s ≤ n → Drains s → Exits 0 s
Drains-Exits zero s few d =
    let (t, st, own) = Drains-CanGoOn s s.start refl d in
    goes_on s t st own (λ u other own'. elim (Step-Drains other own' d) [
      | inl over ↦ has_exited u over
      | inr (d', fewer) ↦ absurd (omega (arith, few, fewer))
    ])
Drains-Exits (suc n) s few d =
    let (t, st, own) = Drains-CanGoOn s s.start refl d in
    goes_on s t st own (λ u other own'. elim (Step-Drains other own' d) [
      | inl over ↦ has_exited u over
      | inr (d', fewer) ↦ Drains-Exits n u (omega (arith, few, fewer)) d'
    ])

-- Once the `select` has taken a signal, `run` ends with exit code 0 by the program's own steps, in
-- whatever order it takes them and wherever its goroutines are, without a connection, a timeout or
-- another signal: the end of the context closes the listener, which ends `Start`, for which `run`
-- waits.
pub Reach-Exits : (s : Running) → Reach launched s → s.cancelled ≡ true → Exits 0 s
Reach-Exits s reach cancelled = go s.main refl
  where
    v : Inv s
    v = Reach-Inv reach

    go : (m : Waiting) → s.main ≡ m → Exits 0 s
    go selecting at = absurd (cc (cancelled, subst (Waits s) at v.waits))
    go draining at = Drains-Exits (rank s) s (omega arith) (at, cancelled)
    go (exited n) at = elim (subst (Waits s) at v.waits).1 [
      | inl (late, code) ↦ has_exited s (at ∙ ap exited code)
      | inr (early, failed_start, code) ↦ absurd (cc (cancelled, early))
    ]
