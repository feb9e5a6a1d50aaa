-- ===== src/Entry/Shutdown/Tests.antt =====
-- Runs of the theorems on the end of `run` (main.go).
use spoof_dpi_turkiye.Prelude.{ℕ, ◌≡◌, ◌⊎◌, refl, true, false, none, some}
use spoof_dpi_turkiye.Proxy.{closed, timeout, next_delay, accept_loop}
use spoof_dpi_turkiye.Entry.{exit_code, StartError}
use spoof_dpi_turkiye.Entry.Shutdown.{
  Running, accepting, ended, draining, exited, launched, accept, signals, takes, opens, closes,
  accepts, wakes, drains, Reach, here, next,
}
use spoof_dpi_turkiye.Entry.Shutdown.Exits.{HasEnded, Reach-exited}
use spoof_dpi_turkiye.Entry.Shutdown.Signalled.{Exits, Reach-Exits}

-- `Start` sleeps behind a timeout, and a signal comes.
abbrev interrupted : Running
interrupted = record (accept (record launched { start = accepting 0 }) 0 timeout) {
  cancelled = true;
  main = draining;
}

interrupted-Reach : Reach launched interrupted
unfolding launched accept
interrupted-Reach =
    next (next (next (next here (opens refl)) (accepts 0 timeout refl refl)) signals)
      (takes refl refl)

Reach-Exits_example : Exits 0 interrupted
unfolding launched accept
Reach-Exits_example = Reach-Exits interrupted interrupted-Reach refl

-- The listener is closed, `Start` returns, and `run` ends.
abbrev over : Running
over = record (accept (record interrupted { shut = true; start = accepting 5 }) 5 closed) {
  main = exited 0;
}

over-Reach : Reach launched over
unfolding launched accept next_delay exit_code
over-Reach =
    next
      (next (next (next interrupted-Reach (wakes 5 refl)) (closes refl refl refl))
        (accepts 5 closed refl refl))
      (drains none refl refl)

Reach-exited_example :
    HasEnded over.start
    × (accept_loop 0 over.accepted ≡ over.done)
    × (((over.cancelled ≡ true) × (◌≡◌ {A = ℕ} 0 0))
        ⊎ ((over.cancelled ≡ false)
            × (over.start ≡ ended (some StartError.failed))
            × (◌≡◌ {A = ℕ} 0 1)))
unfolding launched accept
Reach-exited_example = Reach-exited over 0 over-Reach refl
