-- ===== src/Args/Printing.antt =====
-- A command line for given arguments (util/args.go).
use mathlib.Core.List.{append_assoc, append-nil}
use spoof_dpi_turkiye.Prelude.{
  ℕ, ◌≤◌, ◌≡◌, refl, ap, sym, ◌∙◌, Bool, true, false, not, ◌&&◌, ◌||◌, ◌==◌, List, [], ◌∷◌, ◌++◌,
  map, some, ok, err, arith, Bytes, bytes,
}
use spoof_dpi_turkiye.Args.{
  Args, Setter, string_var, uint_var, bool_var, defaults, flags, string_array_set,
}
use spoof_dpi_turkiye.Args.Uint.{max_uint16, uint_string}
use spoof_dpi_turkiye.Args.Uint.Decimal.{uint_set-uint_string}
use spoof_dpi_turkiye.Args.Keeping.{Bounded}
use spoof_dpi_turkiye.Args.Command.{
  ends, fails, done, wants, parse_bool, set_value, lookup, cut, word_of, by_setter, by_name,
  parse_one, parse_flags, fill_fallback, parse_args,
}

abbrev bool_string : Bool → Bytes
bool_string true = bytes "true"
bool_string false = bytes "false"

-- A flag with its value in one word.
abbrev pub assign : Bytes → Bytes → Bytes
assign name value = b'-' ∷ (name ++ b'=' ∷ value)

-- The flags but those that can be given often.
abbrev single_flags : Args → List Bytes → List Bytes
single_flags a words =
    assign (bytes "addr") a.addr
    ∷ assign (bytes "port") (uint_string a.port)
    ∷ assign (bytes "dns-addr") a.dns_addr
    ∷ assign (bytes "dns-port") (uint_string a.dns_port)
    ∷ assign (bytes "enable-doh") (bool_string a.enable_doh)
    ∷ assign (bytes "doh-url") a.doh_url
    ∷ assign (bytes "doh-bootstrap-ip") a.doh_bootstrap_ip
    ∷ assign (bytes "debug") (bool_string a.debug)
    ∷ assign (bytes "silent") (bool_string a.silent)
    ∷ assign (bytes "system-proxy") (bool_string a.system_proxy)
    ∷ assign (bytes "timeout") (uint_string a.timeout)
    ∷ assign (bytes "window-size") (uint_string a.window_size)
    ∷ assign (bytes "v") (bool_string a.version)
    ∷ assign (bytes "dns-ipv4-only") (bool_string a.dns_ipv4_only)
    ∷ words

-- A command line that spells out all arguments.
abbrev pub command_line : Args → List Bytes
command_line a = single_flags a (
    map (assign (bytes "dns-fallback")) a.dns_fallback
    ++ map (assign (bytes "pattern")) a.allowed_pattern)

abbrev has_equals : Bytes → Bool
has_equals [] = false
has_equals (c ∷ s) = c == b'=' || has_equals s

abbrev is_name : Bytes → Bool
is_name [] = false
is_name (c ∷ s) = not (c == b'-') && not (has_equals (c ∷ s))

cut-assign :
    (name value : Bytes) → has_equals name ≡ false → cut (name ++ b'=' ∷ value) ≡ (name, some value)
unfolding cut
cut-assign [] value plain = refl
cut-assign (c ∷ name) value plain =
    let rest = cut-assign name value (ground (arith, plain)) in rw rest (ground (arith, plain))

parse_one-assign :
    (st : Args) (name value : Bytes)
    → is_name name ≡ true
    → parse_one st (assign name value) ≡ by_setter st name (some value) (lookup flags name)
unfolding parse_one by_name
parse_one-assign st [] value good = absurd (ground (arith, good))
parse_one-assign st (c ∷ name) value good =
    let parts = cut-assign (c ∷ name) value (ground (arith, good)) in ground (arith, parts, good)

-- A word that sets a flag is consumed, whether there is another behind it or not.
parse_done :
    (st st' : Args) (s : Bytes) (words : List Bytes)
    → parse_one st s ≡ done st'
    → parse_flags st (s ∷ words) ≡ parse_flags st' words
unfolding parse_flags
parse_done st st' s [] set = rw set refl
parse_done st st' s (value ∷ words) set =
    ap
      (λ w. elim w [
        | ends ↦ ok st
        | fails e ↦ err e
        | done b ↦ parse_flags b (value ∷ words)
        | wants name setter ↦ elim (set_value setter value st) [
          | err e ↦ err e
          | ok b ↦ parse_flags b words
        ]
      ])
      set

-- A flag that is given with its value.
assigned :
    (st : Args) {st' : Args} (name value : Bytes) {setter : Setter} (words : List Bytes)
    → is_name name ≡ true
    → lookup flags name ≡ some setter
    → set_value setter value st ≡ ok st'
    → parse_flags st (assign name value ∷ words) ≡ parse_flags st' words
unfolding by_setter
assigned st {st'} name value {setter} words good known set =
    parse_done st st' (assign name value) words (
      parse_one-assign st name value good
      ∙ ap (by_setter st name (some value)) known
      ∙ ap word_of set)

bool_set :
    (set : Bool → Args → Args) (b : Bool) (st : Args)
    → set_value (bool_var set) (bool_string b) st ≡ ok (set b st)
unfolding set_value parse_bool
bool_set set true st = refl
bool_set set false st = refl

uint_set_small :
    (set : ℕ → Args → Args) (n : ℕ) (st : Args)
    → n ≤ max_uint16
    → set_value (uint_var set) (uint_string n) st ≡ ok (set n st)
unfolding set_value
uint_set_small set n st le = rw (uint_set-uint_string n) (ground (arith, le))

text_set :
    (set : Bytes → Args → Args) (s : Bytes) (st : Args)
    → set_value (string_var set) s st ≡ ok (set s st)
unfolding set_value
text_set set s st = refl

-- `single_flags` leave all but the two arrays as they are in `a`.
abbrev filled : Args → List Bytes → List Bytes → Args
filled a fallback patterns = record a { dns_fallback = fallback; allowed_pattern = patterns }

parse_single_flags :
    (is_darwin : Bool) (a : Args) (words : List Bytes)
    → Bounded a
    → parse_flags (defaults is_darwin) (single_flags a words) ≡ parse_flags (filled a [] []) words
unfolding lookup flags
parse_single_flags is_darwin a words h =
    assigned _ (bytes "addr") a.addr _ refl refl (text_set _ a.addr _)
    ∙ assigned _ (bytes "port") (uint_string a.port) _ refl refl (uint_set_small _ a.port _ h.port)
    ∙ assigned _ (bytes "dns-addr") a.dns_addr _ refl refl (text_set _ a.dns_addr _)
    ∙ assigned _ (bytes "dns-port") (uint_string a.dns_port) _ refl refl
        (uint_set_small _ a.dns_port _ h.dns_port)
    ∙ assigned _ (bytes "enable-doh") _ _ refl refl (bool_set _ a.enable_doh _)
    ∙ assigned _ (bytes "doh-url") a.doh_url _ refl refl (text_set _ a.doh_url _)
    ∙ assigned _ (bytes "doh-bootstrap-ip") a.doh_bootstrap_ip _ refl refl
        (text_set _ a.doh_bootstrap_ip _)
    ∙ assigned _ (bytes "debug") _ _ refl refl (bool_set _ a.debug _)
    ∙ assigned _ (bytes "silent") _ _ refl refl (bool_set _ a.silent _)
    ∙ assigned _ (bytes "system-proxy") _ _ refl refl (bool_set _ a.system_proxy _)
    ∙ assigned _ (bytes "timeout") (uint_string a.timeout) _ refl refl
        (uint_set_small _ a.timeout _ h.timeout)
    ∙ assigned _ (bytes "window-size") (uint_string a.window_size) _ refl refl
        (uint_set_small _ a.window_size _ h.window_size)
    ∙ assigned _ (bytes "v") _ _ refl refl (bool_set _ a.version _)
    ∙ assigned _ (bytes "dns-ipv4-only") _ _ refl refl (bool_set _ a.dns_ipv4_only _)

parse_fallback_flags :
    (a : Args) (before more : List Bytes) (words : List Bytes)
    → parse_flags (filled a before []) (map (assign (bytes "dns-fallback")) more ++ words)
      ≡ parse_flags (filled a (before ++ more) []) words
unfolding lookup flags string_array_set
parse_fallback_flags a before [] words =
    ap (λ l. parse_flags (filled a l []) words) (sym (append-nil before))
parse_fallback_flags a before (s ∷ more) words =
    assigned _ (bytes "dns-fallback") s _ refl refl (text_set _ s _)
    ∙ parse_fallback_flags a (before ++ s ∷ []) more words
    ∙ ap (λ l. parse_flags (filled a l []) words) (append_assoc before (s ∷ []) more)

parse_pattern_flags :
    (a : Args) (fallback before more : List Bytes)
    → parse_flags (filled a fallback before) (map (assign (bytes "pattern")) more)
      ≡ ok (filled a fallback (before ++ more))
unfolding lookup flags string_array_set parse_flags
parse_pattern_flags a fallback before [] =
    ap (λ l. ok (filled a fallback l)) (sym (append-nil before))
parse_pattern_flags a fallback before (s ∷ more) =
    assigned _ (bytes "pattern") s _ refl refl (text_set _ s _)
    ∙ parse_pattern_flags a fallback (before ++ s ∷ []) more
    ∙ ap (λ l. ok (filled a fallback l)) (append_assoc before (s ∷ []) more)

fill_fallback_given :
    (a : Args) (s : Bytes) (fallback : List Bytes)
    → a.dns_fallback ≡ s ∷ fallback
    → fill_fallback a ≡ a
unfolding fill_fallback
fill_fallback_given a s fallback given = ground (arith, given)

-- The command line that spells out all of some arguments is parsed to these arguments, if their
-- numbers are at most 65535 and there is a fallback server.
pub parse_args-command_line :
    (is_darwin : Bool) (a : Args) (s : Bytes) (fallback : List Bytes)
    → Bounded a
    → a.dns_fallback ≡ s ∷ fallback
    → parse_args is_darwin (command_line a) ≡ ok a
unfolding parse_args
parse_args-command_line is_darwin a s fallback h given =
    let patterns = map (assign (bytes "pattern")) a.allowed_pattern in
    let parsed =
      parse_single_flags is_darwin a
        (map (assign (bytes "dns-fallback")) a.dns_fallback ++ patterns) h
      ∙ parse_fallback_flags a [] a.dns_fallback patterns
      ∙ parse_pattern_flags a a.dns_fallback [] a.allowed_pattern in
    rw parsed (ap ok (fill_fallback_given a s fallback given))
