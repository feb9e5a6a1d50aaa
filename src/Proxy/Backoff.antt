-- ===== src/Proxy/Backoff.antt =====
-- The delays of the accept loop (proxy/proxy.go).
use spoof_dpi_turkiye.Prelude.{
  ℕ, zero, suc, ◌*◌, ◌^◌, ◌≤◌, ◌≡◌, refl, ap, List, [], ◌∷◌, min, arith,
}
use spoof_dpi_turkiye.Proxy.{
  Accept, conn, timeout, closed, failed, Started, handles, sleeps, returns, fails, next_delay,
  accept_loop,
}

-- The loop without a delay in its state: `k` timeouts stand directly before.
abbrev pub backoff : ℕ → List Accept → List Started
backoff k [] = []
backoff k (conn ∷ es) = handles ∷ backoff 0 es
backoff k (timeout ∷ es) = sleeps (min 1000 (5 * 2 ^ k)) ∷ backoff (suc k) es
backoff k (closed ∷ es) = returns ∷ []
backoff k (failed ∷ es) = fails ∷ []

abbrev delay_after : ℕ → ℕ
delay_after zero = 0
delay_after (suc k) = min 1000 (5 * 2 ^ k)

next_delay-after : (k : ℕ) → next_delay (delay_after k) ≡ min 1000 (5 * 2 ^ k)
unfolding next_delay
next_delay-after zero = refl
next_delay-after (suc k) = ground (arith, positive k)
  where
    positive : (n : ℕ) → 1 ≤ 2 ^ n
    positive zero = omega arith
    positive (suc n) = let p = positive n in omega arith

accept_loop-after : (k : ℕ) (es : List Accept) → accept_loop (delay_after k) es ≡ backoff k es
unfolding accept_loop
accept_loop-after k [] = refl
accept_loop-after k (conn ∷ es) = ap (handles ∷◌) (accept_loop-after 0 es)
accept_loop-after k (timeout ∷ es) =
    rw (next_delay-after k) (ap (sleeps (min 1000 (5 * 2 ^ k)) ∷◌) (accept_loop-after (suc k) es))
accept_loop-after k (closed ∷ es) = refl
accept_loop-after k (failed ∷ es) = refl

-- Whatever `Accept` returns, a timeout that follows `k` others directly makes the loop sleep for
-- 5·2^k milliseconds, and for a second at most; a connection is handled and starts the delays
-- again; a closed listener ends the loop without an error, and another error ends it with one.
pub accept_loop-backoff : (es : List Accept) → accept_loop 0 es ≡ backoff 0 es
accept_loop-backoff es = accept_loop-after 0 es
