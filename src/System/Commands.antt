-- ===== src/System/Commands.antt =====
-- The commands of `SetOsProxy` and `UnsetOsProxy` (util/os.go).
use mathlib.Core.List.{append_assoc, append-nil}
use spoof_dpi_turkiye.Prelude.{
  ℕ, ◌≡◌, refl, ap, sym, ◌∙◌, Bool, true, List, [], ◌∷◌, ◌++◌, map, Option, none, some, Result, ok,
  err, arith, Bytes, bytes, ◌⊎◌, inl, inr,
}
use spoof_dpi_turkiye.System.{
  Action, runs, World, SystemError, setting, unsetting, exec, network_command, network_of,
  get_default_network, command_words, network_setup, for_types, get_proxy_types, set_args,
  unset_args, set_proxy, unset_proxy, with_network, set_os_proxy, unset_os_proxy, next_outcome,
}

abbrev pub commands : (Bytes → List Bytes) → List Bytes → List Action
commands args types = map (λ t. runs (command_words (args t))) types

-- All went well and nothing is left to do, or the last one that was done failed, and the error is
-- wrapped with its type.
abbrev pub Stops :
    (Bytes → SystemError → SystemError) → List Bytes → List Bytes → Option SystemError → Type 0
Stops wrap did todo result =
    ((result ≡ none) × (todo ≡ []))
    ⊎ ((front : List Bytes) × (t : Bytes) × (e : SystemError) × (did ≡ front ++ t ∷ [])
        × (result ≡ some (wrap t e)))

-- The commands for the first types have been run, up to the first that fails.
abbrev pub Attempts :
    (Bytes → List Bytes)
    → (Bytes → SystemError → SystemError)
    → List Bytes
    → List Action
    → World × Option SystemError
    → Type 0
Attempts args wrap types log r =
    (did : List Bytes) × (todo : List Bytes) × (did ++ todo ≡ types)
    × (r.0.log ≡ log ++ commands args did)
    × Stops wrap did todo r.1

network_setup-log :
    (is_darwin : Bool) (args : List Bytes) (w : World)
    → (network_setup is_darwin args w).0.log ≡ w.log ++ runs (command_words args) ∷ []
unfolding network_setup exec
network_setup-log is_darwin args w = ground arith

for_types-Attempts :
    (is_darwin : Bool) (args : Bytes → List Bytes) (wrap : Bytes → SystemError → SystemError)
    (types : List Bytes) (w : World)
    → Attempts args wrap types w.log (for_types is_darwin args wrap types w)
unfolding for_types
for_types-Attempts is_darwin args wrap [] w =
    ([], [], refl, sym (append-nil w.log), inl (refl, refl))
for_types-Attempts is_darwin args wrap (t ∷ types) w =
    go (network_setup is_darwin (args t) w) (network_setup-log is_darwin (args t) w)
      (λ w'. for_types-Attempts is_darwin args wrap types w')
  where
    go :
        (r : World × Option SystemError)
        → r.0.log ≡ w.log ++ runs (command_words (args t)) ∷ []
        → ((w' : World) → Attempts args wrap types w'.log (for_types is_darwin args wrap types w'))
        → Attempts args wrap (t ∷ types) w.log (elim r.1 [
          | none ↦ for_types is_darwin args wrap types r.0
          | some e ↦ (r.0, some (wrap t e))
        ])
    go (w', some e) here later = (t ∷ [], types, refl, here, inr ([], t, e, refl, refl))
    go (w', none) here later =
        let (did, todo, split, log, stops) = later w' in
        (
          t ∷ did,
          todo,
          ap (◌∷◌ t) split,
          log
              ∙ ap (λ l. l ++ commands args did) here
              ∙ append_assoc w.log (runs (command_words (args t)) ∷ []) (commands args did),
          elim stops [
            | inl good ↦ inl good
            | inr (front, t', e, last_one, failed) ↦
                inr (t ∷ front, t', e, ap (◌∷◌ t) last_one, failed)
          ],
        )

-- The network in use is asked for; unless that fails, the commands for it are run.
abbrev pub Asks :
    (Bytes → Bytes → List Bytes)
    → (Bytes → SystemError → SystemError)
    → List Action
    → World × Option SystemError
    → Type 0
Asks args wrap log r =
    ((e : SystemError) × (r.0.log ≡ log ++ runs network_command ∷ []) × (r.1 ≡ some e))
    ⊎ ((network : Bytes) × Attempts (args network) wrap get_proxy_types
          (log ++ runs network_command ∷ []) r)

with_network-Asks :
    (args : Bytes → Bytes → List Bytes) (wrap : Bytes → SystemError → SystemError) (w : World)
    → Asks args wrap w.log (
        with_network
          (λ network. for_types true (args network) wrap get_proxy_types)
          (get_default_network w))
unfolding with_network get_default_network exec
with_network-Asks args wrap w = go (network_of (next_outcome w.outcomes))
  where
    asked : World
    asked = (exec w network_command).0

    go :
        (r : Result SystemError Bytes)
        → Asks args wrap w.log (
            with_network (λ network. for_types true (args network) wrap get_proxy_types) (asked, r))
    go (err e) = inl (e, refl, refl)
    go (ok network) =
        inr (network, for_types-Attempts true (args network) wrap get_proxy_types asked)

abbrev pub localhost : Bytes
localhost = bytes "127.0.0.1"

-- `SetOsProxy` on macOS asks for the network in use and, unless that fails, points the proxy types
-- at the port one after another, up to the first command that fails; its error names that type.
pub set_os_proxy-Asks :
    (port : ℕ) (w : World)
    → Asks (λ network. set_args network localhost port) setting w.log (set_os_proxy true port w)
unfolding set_os_proxy set_proxy
set_os_proxy-Asks port w = with_network-Asks (λ network. set_args network localhost port) setting w

pub unset_os_proxy-Asks : (w : World) → Asks unset_args unsetting w.log (unset_os_proxy true w)
unfolding unset_os_proxy unset_proxy
unset_os_proxy-Asks w = with_network-Asks unset_args unsetting w

-- Without an error, the commands for all types have been run.
pub Asks-all :
    (args : Bytes → Bytes → List Bytes) (wrap : Bytes → SystemError → SystemError)
    (log : List Action) (r : World × Option SystemError)
    → Asks args wrap log r
    → r.1 ≡ none
    → (network : Bytes) × (r.0.log
        ≡ log ++ runs network_command ∷ commands (args network) get_proxy_types)
Asks-all args wrap log r (inl (e, asked, failed)) good = absurd (cc (failed, good))
Asks-all args wrap log r
      (inr (network, (did, todo, split, ran, inr (front, t, e, last_one, failed)))) good =
    absurd (cc (failed, good))
Asks-all args wrap log r (inr (network, (did, todo, split, ran, inl (done, whole)))) good =
    let all : did ≡ get_proxy_types = sym (append-nil did) ∙ ap (◌++◌ did) (sym whole) ∙ split in
    (
      network,
      ran
          ∙ ap (λ d. (log ++ runs network_command ∷ []) ++ commands (args network) d) all
          ∙ append_assoc log (runs network_command ∷ []) (commands (args network) get_proxy_types),
    )
