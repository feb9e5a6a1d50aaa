-- ===== src/Resolver/Chain/Machine.antt =====
-- The goroutines of `ChainResolver.Resolve` and its receiving loop (dns/resolver/chain.go), in any
-- interleaving and with their time. `heard` records what the loop has received, for the statements
-- to speak of.
pub mod Invariant
pub mod Refinement
mod Tests
pub mod Timely
use spoof_dpi_turkiye.Prelude.{
  ℕ, suc, ◌+◌, ◌≤◌, ◌<◌, ◌≡◌, ◌⊎◌, Bool, true, false, ◌||◌, List, [], ◌∷◌, ◌++◌, some, none, Bytes,
  length, if◌then◌else◌,
}
use spoof_dpi_turkiye.Resolver.Answer.{
  Error, ctx_error, no_resolvers, Answer, answer, join, is_empty,
}
use spoof_dpi_turkiye.Resolver.Chain
use spoof_dpi_turkiye.Resolver.Chain.{ChainResult, Signal, got, note}

-- The loop with the rounds that are left and `errs`, or what the function has returned.
pub data Phase : Type 0 where
  receiving : ℕ → List Error → Phase
  returned : Answer → Phase

-- `running` has the names of the resolvers whose goroutines have not ended, `channel` is `out`, and
-- `over` says that the caller's context has ended.
pub record Race : Type 0 where
  pub running : List Bytes
  pub channel : List ChainResult
  pub over : Bool
  pub clock : ℕ
  pub phase : Phase
  pub heard : List Signal

unfoldable pub start : List Bytes → Race
start names = record {
  running = names;
  channel = [];
  over = false;
  clock = 0;
  phase =
      if is_empty names
      then returned (answer [] (some no_resolvers))
      else receiving (length names) [];
  heard = [];
}

abbrev pub has_returned : Phase → Bool
has_returned (receiving n errs) = false
has_returned (returned a) = true

-- `cctx` ends with the caller's context, and by the deferred `cancel`.
abbrev pub is_cancelled : Race → Bool
is_cancelled s = s.over || has_returned s.phase

-- A goroutine puts its result into the channel and ends; `running` are the others.
unfoldable pub report : Race → ChainResult → List Bytes → Race
report s r running = record s { running = running; channel = s.channel ++ r ∷ [] }

-- A round of the loop that gets a result; `n` rounds are left and `channel` is what stays in `out`.
unfoldable pub take_result : Race → ℕ → List Error → ChainResult → List ChainResult → Race
take_result s n errs r channel = record s {
  channel = channel;
  phase = if is_empty r.addrs then receiving n (note errs r) else returned (answer r.addrs none);
  heard = s.heard ++ got r ∷ [];
}

-- A round that gets the end of the context.
unfoldable pub stop : Race → Race
stop s = record s {
  phase = returned (answer [] (some ctx_error));
  heard = s.heard ++ Chain.Signal.done ∷ [];
}

-- Behind the loop.
unfoldable pub conclude : Race → List Error → Race
conclude s errs = record s { phase = returned (answer [] (join errs)) }

-- `P` says what a resolver may return. Which goroutine goes on, what its resolver returns, when the
-- caller's context ends and how time passes are the environment's choice, with one bound: a resolver
-- has returned when its own context ends, `per_try` after the start if that is not zero.
pub data Step (P : ChainResult → Type 0) (per_try : ℕ) (names : List Bytes) (s : Race)
    : Race → Type 0 where
  reports :
      (r : ChainResult) (before after : List Bytes)
      → s.running ≡ before ++ r.from ∷ after
      → P r
      → length s.channel < length names
      → Step P per_try names s (report s r (before ++ after))
  abandons :
      (name : Bytes) (before after : List Bytes)
      → s.running ≡ before ++ name ∷ after
      → is_cancelled s ≡ true
      → Step P per_try names s (record s { running = before ++ after })
  receives :
      (n : ℕ) (errs : List Error) (r : ChainResult) (rest : List ChainResult)
      → s.phase ≡ receiving (suc n) errs
      → s.channel ≡ r ∷ rest
      → Step P per_try names s (take_result s n errs r rest)
  stops :
      (n : ℕ) (errs : List Error)
      → s.phase ≡ receiving (suc n) errs
      → s.over ≡ true
      → Step P per_try names s (stop s)
  concludes :
      (errs : List Error) → s.phase ≡ receiving 0 errs → Step P per_try names s (conclude s errs)
  expires : Step P per_try names s (record s { over = true })
  ticks :
      (d : ℕ)
      → (s.running ≡ []) ⊎ (per_try ≡ 0) ⊎ (s.clock + d ≤ per_try)
      → Step P per_try names s (record s { clock = s.clock + d })

pub data Reach (P : ChainResult → Type 0) (per_try : ℕ) (names : List Bytes) (s : Race)
    : Race → Type 0 where
  here : Reach P per_try names s s
  next :
      {t u : Race}
      → Reach P per_try names s t
      → Step P per_try names t u
      → Reach P per_try names s u
