-- ===== src/Args/Tests.antt =====
-- Runs of the theorems on the command line (util/args.go).
use spoof_dpi_turkiye.Prelude.{◌≡◌, ◌≢◌, refl, true, false, List, [], ◌∷◌, ok, arith, Bytes, bytes}
use spoof_dpi_turkiye.Args.{Args, defaults, flags}
use spoof_dpi_turkiye.Args.Uint.{
  digit_value, parse_digits, underscore_from, underscore_ok, checked, parse_uint, uint_set,
}
use spoof_dpi_turkiye.Args.Command.{
  parse_bool, set_value, lookup, cut, by_setter, by_name, parse_one, parse_flags, default_fallback,
  fill_fallback, parse_args,
}
use spoof_dpi_turkiye.Args.Keeping.{Bounded}
use spoof_dpi_turkiye.Args.Bounds.{parse_args-Bounded}
use spoof_dpi_turkiye.Args.Printing.{command_line, parse_args-command_line}

-- A port in base 16, a value in a word of its own, and a bool without one.
abbrev words : List Bytes
words =
    bytes "--port=0x1F90"
    ∷ bytes "-window-size"
    ∷ bytes "1_0"
    ∷ bytes "-debug"
    ∷ bytes "-enable-doh=F"
    ∷ bytes "--"
    ∷ bytes "-v"
    ∷ []

abbrev args : Args
args = record (defaults false) {
  port = 8080;
  window_size = 10;
  debug = true;
  enable_doh = false;
  dns_fallback = default_fallback;
}

parsed : parse_args false words ≡ ok args
unfolding parse_args parse_flags parse_one by_name cut lookup flags by_setter set_value parse_bool
    fill_fallback uint_set parse_uint parse_digits digit_value checked underscore_ok underscore_from
parsed = refl

parse_args-Bounded_example : Bounded args × (args.dns_fallback ≢ [])
parse_args-Bounded_example = parse_args-Bounded false words parsed

args-Bounded : Bounded args
args-Bounded = record {
  port = omega arith;
  dns_port = omega arith;
  timeout = omega arith;
  window_size = omega arith;
}

parse_args-command_line_example : parse_args true (command_line args) ≡ ok args
parse_args-command_line_example =
    parse_args-command_line true args (bytes "8.8.8.8") (bytes "9.9.9.9" ∷ []) args-Bounded refl
