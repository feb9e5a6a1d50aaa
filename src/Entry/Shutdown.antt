-- ===== src/Entry/Shutdown.antt =====
-- The end of `run` (main.go) with `Proxy.Start` (proxy/proxy.go): the goroutine that accepts, the one
-- that closes the listener when the context has ended, and the `select` of `run`, in any
-- interleaving. `accepted` and `done` record what `Accept` has returned and what the loop has done,
-- for the statements to speak of.
pub mod Exits
pub mod Signalled
mod Tests
use spoof_dpi_turkiye.Prelude.{ℕ, ◌≡◌, Bool, true, false, List, [], ◌∷◌, ◌++◌, Option, none, some}
use spoof_dpi_turkiye.Proxy.{
  Accept, conn, timeout, closed, failed, Started, handles, sleeps, returns, fails, next_delay,
}
use spoof_dpi_turkiye.Entry.{Ending, signalled, StartError, exit_code}
use spoof_dpi_turkiye.Entry

-- `Start` before it listens, before an `Accept` or asleep, with `tempDelay`, or what it has put into
-- `errCh`.
pub data Accepting : Type 0 where
  starting : Accepting
  accepting asleep : ℕ → Accepting
  ended : Option StartError → Accepting

-- `run` at its `select`, at the receive behind `cancel`, or at its end with the exit code.
pub data Waiting : Type 0 where
  selecting draining : Waiting
  exited : ℕ → Waiting

-- `pending` says that `sigs` holds a signal; `cancelled` is the context, and `shut` the listener.
pub record Running : Type 0 where
  pub pending : Bool
  pub cancelled : Bool
  pub shut : Bool
  pub start : Accepting
  pub main : Waiting
  pub accepted : List Accept
  pub done : List Started

unfoldable pub launched : Running
launched = record {
  pending = false;
  cancelled = false;
  shut = false;
  start = starting;
  main = selecting;
  accepted = [];
  done = [];
}

-- What `Start` does behind an `Accept`, and where it is then, by what that returns.
abbrev pub doing : ℕ → Accept → Started
doing delay conn = handles
doing delay timeout = sleeps (next_delay delay)
doing delay closed = returns
doing delay failed = fails

abbrev pub goes_on : ℕ → Accept → Accepting
goes_on delay conn = accepting 0
goes_on delay timeout = asleep (next_delay delay)
goes_on delay closed = ended none
goes_on delay failed = ended (some StartError.failed)

unfoldable pub accept : Running → ℕ → Accept → Running
accept s delay a = record s {
  start = goes_on delay a;
  accepted = s.accepted ++ a ∷ [];
  done = s.done ++ doing delay a ∷ [];
}

-- `Accept` returns `net.ErrClosed` if the listener is closed, and only then.
abbrev pub Returns : Bool → Accept → Type 0
Returns shut closed = shut ≡ true
Returns shut conn = shut ≡ false
Returns shut timeout = shut ≡ false
Returns shut failed = shut ≡ false

-- The goroutine that closes the listener is there once `Start` listens.
abbrev pub is_listening : Accepting → Bool
is_listening starting = false
is_listening (accepting delay) = true
is_listening (asleep delay) = true
is_listening (ended e) = true

-- What `ListenTCP` and `Accept` return and when a signal comes are the environment's choice, as is
-- what the `select` takes when a signal is there and `Start` has returned.
pub data Step (s : Running) : Running → Type 0 where
  signals : Step s (record s { pending = true })
  takes :
      s.main ≡ selecting
      → s.pending ≡ true
      → Step s (record s { pending = false; cancelled = true; main = draining })
  opens : s.start ≡ starting → Step s (record s { start = accepting 0 })
  refuses : s.start ≡ starting → Step s (record s { start = ended (some StartError.failed) })
  closes :
      s.cancelled ≡ true
      → is_listening s.start ≡ true
      → s.shut ≡ false
      → Step s (record s { shut = true })
  accepts :
      (delay : ℕ) (a : Accept)
      → s.start ≡ accepting delay
      → Returns s.shut a
      → Step s (accept s delay a)
  wakes : (delay : ℕ) → s.start ≡ asleep delay → Step s (record s { start = accepting delay })
  receives :
      (e : Option StartError)
      → s.main ≡ selecting
      → s.start ≡ ended e
      → Step s (record s { main = exited (exit_code (Entry.Ending.returned e)) })
  drains :
      (e : Option StartError)
      → s.main ≡ draining
      → s.start ≡ ended e
      → Step s (record s { main = exited (exit_code signalled) })

pub data Reach (s : Running) : Running → Type 0 where
  here : Reach s s
  next : {t u : Running} → Reach s t → Step t u → Reach s u
