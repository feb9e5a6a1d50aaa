-- ===== src/Resolver/Chain/Machine/Timely.antt =====
-- How long the race takes, and that no goroutine of it waits for ever (dns/resolver/chain.go).
use spoof_dpi_turkiye.Prelude.{
  ℕ, zero, suc, ◌+◌, ◌≤◌, ◌<◌, ◌≡◌, ◌⊎◌, inl, inr, refl, ap, ◌∙◌, subst, true, List, [], some, none,
  ◌∷◌, ◌++◌, Bytes, length, length-middle, middle-ne-nil, List-cases, arith, Bool-cases,
}
use spoof_dpi_turkiye.Resolver.Answer.{Error, ctx_error, Answer, answer, join, is_empty}
use spoof_dpi_turkiye.Resolver.Chain.{ChainResult, note}
use spoof_dpi_turkiye.Resolver.Chain.Machine.{
  Phase, receiving, returned, Race, start, report, take_result, stop, conclude, Step, reports,
  abandons, receives, stops, concludes, expires, ticks, Reach, here, next,
}
use spoof_dpi_turkiye.Resolver.Chain.Machine.Invariant.{Inv, Counts, total-le}
use spoof_dpi_turkiye.Resolver.Chain.Machine.Refinement.{Reach-Inv}

-- A goroutine whose resolver has returned can always put the result into the channel: it never has
-- to wait for the loop, not even when the loop has ended.
pub Reach-room :
    (P : ChainResult → Type 0) (per_try : ℕ) (names : List Bytes) (s : Race) (name : Bytes)
    (before after : List Bytes)
    → Reach P per_try names (start names) s
    → s.running ≡ before ++ name ∷ after
    → length s.channel < length names
Reach-room P per_try names s name before after reach e =
    omega
      (arith, total-le P names s (Reach-Inv reach), ap length e, length-middle name before after)

-- No resolver runs any more, or their time is not over.
abbrev pub Prompt : ℕ → Race → Type 0
Prompt per_try s = (s.running ≡ []) ⊎ (per_try ≡ 0) ⊎ (s.clock ≤ per_try)

module _ {P : ChainResult → Type 0} {per_try : ℕ} {names : List Bytes} where
  Step-Prompt : {s t : Race} → Step P per_try names s t → Prompt per_try s → Prompt per_try t
  unfolding report take_result stop conclude
  Step-Prompt (reports r before after e p room) (inl none_runs) =
      absurd (middle-ne-nil r.from before after e none_runs)
  Step-Prompt (reports r before after e p room) (inr early) = inr early
  Step-Prompt (abandons name before after e cancelled) (inl none_runs) =
      absurd (middle-ne-nil name before after e none_runs)
  Step-Prompt (abandons name before after e cancelled) (inr early) = inr early
  Step-Prompt (receives n errs r rest loop front) h = h
  Step-Prompt (stops n errs loop over) h = h
  Step-Prompt (concludes errs loop) h = h
  Step-Prompt expires h = h
  Step-Prompt (ticks d time) h = time

  Reach-Prompt : {s : Race} → Reach P per_try names (start names) s → Prompt per_try s
  unfolding start
  Reach-Prompt here = inr (inr (omega arith))
  Reach-Prompt (next r st) = Step-Prompt st (Reach-Prompt r)

-- The steps of the receiving loop, which the environment has no part in.
abbrev pub IsLoop :
    {P : ChainResult → Type 0} {per_try : ℕ} {names : List Bytes} {s t : Race}
    → Step P per_try names s t
    → Type 0
IsLoop (reports r before after e p room) = ⊥
IsLoop (abandons name before after e cancelled) = ⊥
IsLoop (receives n errs r rest loop front) = Unit
IsLoop (stops n errs loop over) = Unit
IsLoop (concludes errs loop) = Unit
IsLoop expires = ⊥
IsLoop (ticks d time) = ⊥

-- The loop returns by its own steps: it has returned, or it can go on, and whichever step it takes, it
-- returns behind that.
pub data Settles (P : ChainResult → Type 0) (per_try : ℕ) (names : List Bytes) : Race → Type 0 where
  has_answer : (s : Race) (a : Answer) → s.phase ≡ returned a → Settles P per_try names s
  goes_on :
      (s t : Race) (st : Step P per_try names s t)
      → IsLoop st
      → ((u : Race) (other : Step P per_try names s u) → IsLoop other → Settles P per_try names u)
      → Settles P per_try names s

abbrev rounds_left : Phase → ℕ
rounds_left (receiving n errs) = suc n
rounds_left (returned a) = 0

module _ (P : ChainResult → Type 0) (per_try : ℕ) (names : List Bytes) where
  take_result-Settles :
      (s : Race) (n : ℕ) (errs : List Error) (r : ChainResult) (rest : List ChainResult)
      → ((t : Race)
          → t ≡ take_result s n errs r rest
          → t.phase ≡ receiving n (note errs r)
          → Settles P per_try names t)
      → Settles P per_try names (take_result s n errs r rest)
  unfolding take_result
  take_result-Settles s n errs r rest later = elim (Bool-cases (is_empty r.addrs)) [
    | inl none_in ↦ later (take_result s n errs r rest) refl (rw none_in refl)
    | inr some_in ↦ has_answer (take_result s n errs r rest) (answer r.addrs none) (rw some_in refl)
  ]

  loop_settles :
      (n : ℕ) (errs : List Error) (s : Race)
      → s.phase ≡ receiving n errs
      → (s.over ≡ true) ⊎ (length s.channel ≡ n)
      → Settles P per_try names s
  unfolding stop conclude take_result
  loop_settles zero errs s loop h = goes_on s (conclude s errs) (concludes errs loop) tt others
    where
      others :
          (u : Race) (other : Step P per_try names s u) → IsLoop other → Settles P per_try names u
      others _ (reports r before after e p room) own = absurd own
      others _ (abandons name before after e cancelled) own = absurd own
      others _ (receives n' errs' r rest loop' front) own =
          absurd (omega (arith, ap rounds_left loop, ap rounds_left loop'))
      others _ (stops n' errs' loop' over) own =
          absurd (omega (arith, ap rounds_left loop, ap rounds_left loop'))
      others _ (concludes errs' loop') own =
          has_answer (conclude s errs') (answer [] (join errs')) refl
      others _ expires own = absurd own
      others _ (ticks d time) own = absurd own
  loop_settles (suc n) errs s loop h = first (λ es t. loop_settles n es t) h
    where
      others :
          ((es : List Error) (t : Race)
            → t.phase ≡ receiving n es
            → (t.over ≡ true) ⊎ (length t.channel ≡ n)
            → Settles P per_try names t)
          → (u : Race) (other : Step P per_try names s u) → IsLoop other
          → Settles P per_try names u
      others later _ (reports r before after e p room) own = absurd own
      others later _ (abandons name before after e cancelled) own = absurd own
      others later _ (receives n' errs' r rest loop' front) own =
          take_result-Settles s n' errs' r rest (λ t made on.
            let same : n' ≡ n = omega (arith, ap rounds_left loop, ap rounds_left loop') in
            later (note errs' r) t (on ∙ ap (λ k. receiving k (note errs' r)) same) (elim h [
              | inl over ↦ inl (ap (λ x. x.over) made ∙ over)
              | inr all ↦
                  inr (ap (λ x. length x.channel) made ∙ omega (arith, all, ap length front))
            ]))
      others later _ (stops n' errs' loop' over) own =
          has_answer (stop s) (answer [] (some ctx_error)) refl
      others later _ (concludes errs' loop') own =
          absurd (omega (arith, ap rounds_left loop, ap rounds_left loop'))
      others later _ expires own = absurd own
      others later _ (ticks d time) own = absurd own

      first :
          ((es : List Error) (t : Race)
            → t.phase ≡ receiving n es
            → (t.over ≡ true) ⊎ (length t.channel ≡ n)
            → Settles P per_try names t)
          → (s.over ≡ true) ⊎ (length s.channel ≡ suc n)
          → Settles P per_try names s
      first later (inl over) = goes_on s (stop s) (stops n errs loop over) tt (others later)
      first later (inr all) = elim (List-cases s.channel) [
        | inl empty ↦ absurd (omega (arith, all, ap length empty))
        | inr (r, rest, front) ↦
            goes_on s (take_result s n errs r rest) (receives n errs r rest loop front) tt
              (others later)
      ]

  -- If `per_try` is not zero and has passed since the start, the function returns by the steps of
  -- its loop alone, whichever of them it takes: it waits for no resolver and for no end of its
  -- caller's context. Each resolver is taken to return by the end of its own context.
  pub Reach-returns :
      (s : Race)
      → Reach P per_try names (start names) s
      → 0 < per_try
      → per_try < s.clock
      → Settles P per_try names s
  Reach-returns s reach pos late = go s.phase refl
    where
      v : Inv P names s
      v = Reach-Inv reach

      none_runs : s.running ≡ []
      none_runs = elim (Reach-Prompt reach) [
        | inl nobody ↦ nobody
        | inr (inl zero_time) ↦ absurd (omega arith)
        | inr (inr early) ↦ absurd (omega arith)
      ]

      all_here :
          (n : ℕ)
          → (s.over ≡ true) ⊎ (length s.channel + length s.running ≡ n)
          → (s.over ≡ true) ⊎ (length s.channel ≡ n)
      all_here n (inl over) = inl over
      all_here n (inr all) = inr (omega (arith, ap length none_runs))

      go : (ph : Phase) → s.phase ≡ ph → Settles P per_try names s
      go (receiving n errs) loop =
          loop_settles n errs s loop (all_here n (subst (Counts (length names) s) loop v.counts).2)
      go (returned a) ended = has_answer s a ended
