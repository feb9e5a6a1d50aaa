-- ===== src/System/Outcomes.antt =====
-- `SetOsProxy` by how its commands end (util/os.go).
use mathlib.Core.List.{append_assoc, append-nil}
use spoof_dpi_turkiye.Prelude.{
  ℕ, zero, suc, ◌==◌, ◌≢◌, length, Option-cases, List-cases, false, ◌≡◌, refl, ap, subst, sym, ◌∙◌,
  true, List, [], ◌∷◌, ◌++◌, Option, none, some, ok, err, arith, Bytes, ◌⊎◌, inl, inr,
}
use spoof_dpi_turkiye.Dns.{trim_space}
use spoof_dpi_turkiye.System.{
  runs, World, SystemError, setting, exec, network_command, network_of, get_default_network,
  command_words, network_setup, for_types, get_proxy_types, set_args, Outcome, later, failure_text,
  command, no_networks, not_run, set_proxy, with_network, set_os_proxy, next_outcome,
}
use spoof_dpi_turkiye.System.Commands.{commands, localhost}

-- How the command behind a number of others ends.
abbrev pub outcome_at : ℕ → List Outcome → Outcome
outcome_at n [] = next_outcome []
outcome_at zero (o ∷ os) = o
outcome_at (suc n) (o ∷ os) = outcome_at n os

-- So many commands succeed.
abbrev pub Succeed : ℕ → List Outcome → Type 0
Succeed zero os = Unit
Succeed (suc n) os = ((next_outcome os).failure ≡ none) × Succeed n (later os)

-- The error of a command for a proxy type that has failed with an exit code, if it has one.
abbrev pub failure_of :
    (Bytes → List Bytes)
    → (Bytes → SystemError → SystemError)
    → Bytes
    → Outcome
    → Option ℕ
    → SystemError
failure_of args wrap t o code = wrap t (command (command_words (args t)) (failure_text true o code))

-- By how the commands end: all have succeeded and nothing is left to do, or all but the last one that
-- was done, whose error is the result.
abbrev pub Stops :
    (Bytes → List Bytes)
    → (Bytes → SystemError → SystemError)
    → List Outcome
    → List Bytes
    → List Bytes
    → Option SystemError
    → Type 0
Stops args wrap os did todo result =
    ((result ≡ none) × (todo ≡ []) × Succeed (length did) os)
    ⊎ ((front : List Bytes) × (t : Bytes) × (code : Option ℕ) × (did ≡ front ++ t ∷ [])
        × Succeed (length front) os
        × ((outcome_at (length front) os).failure ≡ some code)
        × (result ≡ some (failure_of args wrap t (outcome_at (length front) os) code)))

-- The commands for the first types have been run, up to the first that fails.
abbrev pub Attempts :
    (Bytes → List Bytes)
    → (Bytes → SystemError → SystemError)
    → List Bytes
    → World
    → World × Option SystemError
    → Type 0
Attempts args wrap types w r =
    (did : List Bytes) × (todo : List Bytes) × (did ++ todo ≡ types)
    × (r.0.log ≡ w.log ++ commands args did)
    × Stops args wrap w.outcomes did todo r.1

outcome_at-later : (n : ℕ) (os : List Outcome) → outcome_at n (later os) ≡ outcome_at (suc n) os
outcome_at-later n [] = refl
outcome_at-later n (o ∷ os) = refl

outcome_at_first : (os : List Outcome) → outcome_at 0 os ≡ next_outcome os
outcome_at_first [] = refl
outcome_at_first (o ∷ os) = refl

network_setup-none :
    (args : List Bytes) (w : World)
    → (next_outcome w.outcomes).failure ≡ none
    → network_setup true args w ≡ ((exec w (command_words args)).0, none)
unfolding network_setup exec
network_setup-none args w good = rw (good, network_setup) refl

network_setup-some :
    (args : List Bytes) (w : World) (code : Option ℕ)
    → (next_outcome w.outcomes).failure ≡ some code
    → network_setup true args w ≡ (
      (exec w (command_words args)).0,
      some (command (command_words args) (failure_text true (next_outcome w.outcomes) code)),
    )
unfolding network_setup exec
network_setup-some args w code failed = rw (failed, network_setup) refl

module _ (args : Bytes → List Bytes) (wrap : Bytes → SystemError → SystemError) where
  -- The loop behind its first command.
  abbrev behind : Bytes → List Bytes → World × Option SystemError → World × Option SystemError
  behind t types r = elim r.1 [
    | none ↦ for_types true args wrap types r.0
    | some e ↦ (r.0, some (wrap t e))
  ]

  attempt :
      (t : Bytes) (types : List Bytes) (w : World)
      → Attempts args wrap types
          (exec w (command_words (args t))).0
          (for_types true args wrap types (exec w (command_words (args t))).0)
      → Attempts args wrap (t ∷ types) w (behind t types (network_setup true (args t) w))
  unfolding exec
  attempt t types w (did, todo, split, log, stops) =
      elim (Option-cases (next_outcome w.outcomes).failure) [
        | inr (code, failed) ↦
            subst (Attempts args wrap (t ∷ types) w)
              (ap (behind t types) (sym (network_setup-some (args t) w code failed)))
              (
                t ∷ [],
                types,
                refl,
                refl,
                inr (
                  [],
                  t,
                  code,
                  refl,
                  tt,
                  ap (λ x. x.failure) (outcome_at_first w.outcomes) ∙ failed,
                  ap (λ x. some (failure_of args wrap t x code))
                      (sym (outcome_at_first w.outcomes)),
                ),
              )
        | inl good ↦
            subst (Attempts args wrap (t ∷ types) w)
              (ap (behind t types) (sym (network_setup-none (args t) w good)))
              (
                t ∷ did,
                todo,
                ap (◌∷◌ t) split,
                log ∙ append_assoc w.log (runs (command_words (args t)) ∷ []) (commands args did),
                elim stops [
                  | inl (fine, whole, all) ↦ inl (fine, whole, (good, all))
                  | inr (front, t', code, last_one, all, failed, result) ↦ inr (
                    t ∷ front,
                    t',
                    code,
                    ap (◌∷◌ t) last_one,
                    (good, all),
                    ap (λ x. x.failure) (sym (outcome_at-later (length front) w.outcomes)) ∙ failed,
                    result
                        ∙ ap (λ x. some (failure_of args wrap t' x code))
                            (outcome_at-later (length front) w.outcomes),
                  )
                ],
              )
      ]

  for_types-Attempts :
      (types : List Bytes) (w : World)
      → Attempts args wrap types w (for_types true args wrap types w)
  unfolding for_types
  for_types-Attempts [] w = ([], [], refl, sym (append-nil w.log), inl (refl, refl, tt))
  for_types-Attempts (t ∷ types) w =
      attempt t types w (for_types-Attempts types (exec w (command_words (args t))).0)

-- What the command that asks for the network has printed names none.
abbrev pub Unnamed : Outcome → SystemError → Type 0
Unnamed o e =
    ((code : Option ℕ) × (o.failure ≡ some code) × (e ≡ not_run code))
    ⊎ ((o.failure ≡ none) × (o.output ≡ []) × (e ≡ no_networks))

-- It has printed the network, with white space around it.
abbrev pub Named : Outcome → Bytes → Type 0
Named o network = (o.failure ≡ none) × (o.output ≢ []) × (network ≡ trim_space o.output)

network_of-cases :
    (o : Outcome)
    → ((e : SystemError) × (network_of o ≡ err e) × Unnamed o e)
      ⊎ ((network : Bytes) × (network_of o ≡ ok network) × Named o network)
unfolding network_of
network_of-cases o = elim (Option-cases o.failure) [
  | inr (code, failed) ↦ inl (not_run code, rw (failed, network_of) refl, inl (code, failed, refl))
  | inl good ↦ elim (List-cases o.output) [
    | inl empty ↦ inl (no_networks, rw (good, empty, network_of) refl, inr (good, empty, refl))
    | inr (x, xs, some_text) ↦ inr (
      trim_space o.output,
      rw (good, network_of)
          (let long : (length o.output == 0) ≡ false =
              ap (λ l. length l == 0) some_text ∙ ground arith in
            rw long refl),
      (good, (λ empty. cc (empty, some_text)), refl),
    )
  ]
]

-- The network in use is asked for. If the answer names one, the commands for it are run; if not, that
-- is the result.
abbrev pub Follows :
    (Bytes → Bytes → List Bytes)
    → (Bytes → SystemError → SystemError)
    → World
    → World × Option SystemError
    → Type 0
Follows args wrap w r =
    ((e : SystemError) × Unnamed (next_outcome w.outcomes) e
      × (r.0 ≡ (exec w network_command).0)
      × (r.1 ≡ some e))
    ⊎ ((network : Bytes) × Named (next_outcome w.outcomes) network
        × Attempts (args network) wrap get_proxy_types (exec w network_command).0 r)

with_network-Follows :
    (args : Bytes → Bytes → List Bytes) (wrap : Bytes → SystemError → SystemError) (w : World)
    → Follows args wrap w (
        with_network
          (λ network. for_types true (args network) wrap get_proxy_types)
          (get_default_network w))
unfolding with_network get_default_network exec
with_network-Follows args wrap w = elim (network_of-cases (next_outcome w.outcomes)) [
  | inl (e, none_in, why) ↦ rw (none_in, with_network) (inl (e, why, refl, refl))
  | inr (network, named, how) ↦
      rw (named, with_network)
        (inr (
          network,
          how,
          for_types-Attempts (args network) wrap get_proxy_types (exec w network_command).0,
        ))
]

-- `SetOsProxy` on macOS asks for the network in use. If that fails or gives no output, this is the
-- error and nothing else is run. Otherwise it points the proxy types of the network that is named,
-- without the white space around the name, at the port one after another, up to the first command
-- that fails, if one does; the error is that of this command, and names its type.
pub set_os_proxy-Follows :
    (port : ℕ) (w : World)
    → Follows (λ network. set_args network localhost port) setting w (set_os_proxy true port w)
unfolding set_os_proxy set_proxy
set_os_proxy-Follows port w =
    with_network-Follows (λ network. set_args network localhost port) setting w
