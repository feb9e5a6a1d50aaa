-- ===== src/System.antt =====
-- The proxy settings of macOS (util/os.go). What the program does to its surroundings is a log, and
-- how its commands end is given. Texts are sequences of code points.
pub mod Commands
pub mod Outcomes
mod Tests
use spoof_dpi_turkiye.Prelude.{
  ℕ, Bool, true, false, not, ◌&&◌, List, [], ◌∷◌, ◌++◌, Option, none, some, Result, ok, err, Bytes,
  bytes, itoa, ◌==◌, length, if◌then◌else◌,
}
use spoof_dpi_turkiye.Dns.{trim_space}

-- How a command ends: its output and, for an error, its exit code where it has one.
pub record Outcome : Type 0 where
  pub output : Bytes
  pub failure : Option (Option ℕ)

-- A command with its arguments, the version and the banner that are printed, and the start and the end of `Proxy.Start`.
pub data Action : Type 0 where
  runs : List Bytes → Action
  version banner starts stops : Action

-- Commands behind the last outcome succeed without an output.
pub record World : Type 0 where
  pub log : List Action
  pub outcomes : List Outcome

pub data SystemError : Type 0 where
  no_networks : SystemError
  not_run : Option ℕ → SystemError
  command : List Bytes → Bytes → SystemError
  setting unsetting : Bytes → SystemError → SystemError

abbrev pub act : World → Action → World
act w action = record w { log = w.log ++ action ∷ [] }

abbrev pub next_outcome : List Outcome → Outcome
next_outcome [] = record { output = []; failure = none }
next_outcome (o ∷ os) = o

abbrev pub later : List Outcome → List Outcome
later [] = []
later (o ∷ os) = os

unfoldable pub exec : World → List Bytes → World × Outcome
exec w words = (
  record { log = w.log ++ runs words ∷ []; outcomes = later w.outcomes },
  next_outcome w.outcomes,
)

abbrev get_default_network_cmd : Bytes
get_default_network_cmd =
    bytes "networksetup -listnetworkserviceorder | grep"
    ++ bytes
        " `(route -n get default | grep 'interface' || route -n get -inet6 default | grep 'interface') | cut -d ':' -f2`"
    ++ bytes " -B 1 | head -n 1 | cut -d ' ' -f 2-"

abbrev pub network_command : List Bytes
network_command = bytes "sh" ∷ bytes "-c" ∷ get_default_network_cmd ∷ []

-- From the test of `err` on.
unfoldable pub network_of : Outcome → Result SystemError Bytes
network_of o = elim o.failure [
  | some code ↦ err (not_run code)
  | none ↦ if length o.output == 0 then err no_networks else ok (trim_space o.output)
]

unfoldable pub get_default_network : World → World × Result SystemError Bytes
unfolding exec network_of
get_default_network w = let (w', o) = exec w network_command in (w', network_of o)

abbrev pub permission_error_help_text : Bytes
permission_error_help_text =
    bytes
      "Varsayılan olarak SpoofDPI kendisini sistem genelinde bir proxy sunucusu olarak ayarlamaya çalışır."
    ++ 10 ∷ bytes "Bu işlem kök (root) erişimine ihtiyaç duyabilir:"
    ++ 10 ∷ bytes "'Settings > Privacy & Security > Advanced > Require"
    ++ 10 ∷ bytes " Bir yetkili şifresi girmeniz istenecektir."
    ++ 10 ∷ bytes "SpoofDPI'ın sistem genelinde bir proxy olarak hareket etmesini istemiyorsanız"
    ++ bytes " -system-proxy=false ayarlayınız."

-- The exit code is that of an `exec.ExitError`.
unfoldable pub is_macos_permission_error : Bool → Option ℕ → Bool
is_macos_permission_error is_darwin none = false
is_macos_permission_error is_darwin (some code) = is_darwin && code == 14

abbrev pub failure_text : Bool → Outcome → Option ℕ → Bytes
failure_text is_darwin o code =
    if is_macos_permission_error is_darwin code
    then o.output ++ permission_error_help_text
    else o.output

abbrev pub command_words : List Bytes → List Bytes
command_words args = bytes "networksetup" ∷ args

unfoldable pub network_setup : Bool → List Bytes → World → World × Option SystemError
unfolding exec is_macos_permission_error
network_setup is_darwin args w =
    let (w', o) = exec w (command_words args) in
    elim o.failure [
      | none ↦ (w', none)
      | some code ↦ (w', some (command (command_words args) (failure_text is_darwin o code)))
    ]

-- The loop of `setProxy` and of `unsetProxy`, by the arguments of a proxy type and by what an error
-- is wrapped in.
unfoldable pub for_types :
    Bool
    → (Bytes → List Bytes)
    → (Bytes → SystemError → SystemError)
    → List Bytes
    → World
    → World × Option SystemError
for_types is_darwin args wrap [] w = (w, none)
for_types is_darwin args wrap (proxy_type ∷ types) w =
    let (w', failed) = network_setup is_darwin (args proxy_type) w in
    let rest = for_types is_darwin args wrap types w' in
    elim failed [ none ↦ rest | some e ↦ (w', some (wrap proxy_type e)) ]

abbrev pub get_proxy_types : List Bytes
get_proxy_types = bytes "webproxy" ∷ bytes "securewebproxy" ∷ []

abbrev pub set_args : Bytes → Bytes → ℕ → Bytes → List Bytes
set_args network domain port proxy_type =
    (bytes "-set" ++ proxy_type) ∷ network ∷ domain ∷ itoa port ∷ []

abbrev pub unset_args : Bytes → Bytes → List Bytes
unset_args network proxy_type =
    (bytes "-set" ++ (proxy_type ++ bytes "state")) ∷ network ∷ bytes "off" ∷ []

unfoldable pub set_proxy :
    Bool → List Bytes → Bytes → Bytes → ℕ → World → World × Option SystemError
unfolding for_types
set_proxy is_darwin types network domain port w =
    for_types is_darwin (set_args network domain port) setting types w

unfoldable pub unset_proxy : Bool → List Bytes → Bytes → World → World × Option SystemError
unfolding for_types
unset_proxy is_darwin types network w = for_types is_darwin (unset_args network) unsetting types w

-- From the test of the network's error on.
unfoldable pub with_network :
    (Bytes → World → World × Option SystemError)
    → World × Result SystemError Bytes
    → World × Option SystemError
with_network go (w, err e) = (w, some e)
with_network go (w, ok network) = go network w

unfoldable pub set_os_proxy : Bool → ℕ → World → World × Option SystemError
unfolding set_proxy with_network get_default_network
set_os_proxy is_darwin port w =
    if not is_darwin
    then (w, none)
    else with_network
        (λ network. set_proxy is_darwin get_proxy_types network (bytes "127.0.0.1") port)
        (get_default_network w)

unfoldable pub unset_os_proxy : Bool → World → World × Option SystemError
unfolding unset_proxy with_network get_default_network
unset_os_proxy is_darwin w =
    if not is_darwin
    then (w, none)
    else with_network (unset_proxy is_darwin get_proxy_types) (get_default_network w)
