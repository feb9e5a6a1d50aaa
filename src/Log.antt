-- ===== src/Log.antt =====
-- Package log: the values of a context and the fields of a log line (util/log/context.go and
-- util/log/log.go).
pub mod TraceId
pub mod Fields
use spoof_dpi_turkiye.Prelude.{
  ℕ, zero, suc, ◌+◌, ◌/◌, ◌%◌, Bool, true, false, not, ◌&&◌, List, [], ◌∷◌, ◌++◌, Option, none,
  some, Bytes, bytes, find, put, ltb, ◌==◌, if◌then◌else◌,
}

-- The first of the numbers that `rand.Uint64` gives, and those behind it.
abbrev next_random : List ℕ → ℕ
next_random [] = 0
next_random (q ∷ qs) = q

abbrev later_random : List ℕ → List ℕ
later_random [] = []
later_random (q ∷ qs) = qs

-- A digit below 16, in lower case.
unfoldable pub hex_char : ℕ → ℕ
hex_char r = (if ltb 9 r then r + 0x27 else r) + 0x30

-- The rounds of the loop from `i` on.
unfoldable pub trace_from : ℕ → ℕ → ℕ → List ℕ → Bytes
unfolding hex_char
trace_from zero i q randoms = []
trace_from (suc fuel) i q randoms =
    let fresh = i % 15 == 0 in
    let q' = if fresh then next_random randoms else q in
    let rest =
      trace_from fuel (i + 1) (q' / 16) (if fresh then later_random randoms else randoms) in
    hex_char (q' % 16) ∷ (if i % 8 == 7 && not (i == 31) then 0x2d ∷ rest else rest)

-- `generateTraceId`, by the numbers that `rand.Uint64` gives.
unfoldable pub generate_trace_id : List ℕ → Bytes
unfolding trace_from
generate_trace_id randoms = trace_from 32 0 0 randoms

-- The keys of a context, by their types.
pub data Key : Type 0 where
  scope_ctx_key trace_id_ctx_key : Key

abbrev pub is_key : Key → Key → Bool
is_key scope_ctx_key scope_ctx_key = true
is_key scope_ctx_key trace_id_ctx_key = false
is_key trace_id_ctx_key scope_ctx_key = false
is_key trace_id_ctx_key trace_id_ctx_key = true

-- A `context.Context`: what was put into it last stands first.
abbrev pub Context : Type 0
Context = List (Key × Bytes)

-- `ctx.Value`
unfoldable pub value : Context → Key → Option Bytes
value [] k = none
value ((k', v) ∷ ctx) k = if is_key k' k then some v else value ctx k

unfoldable pub get_ctx_with_scope : Context → Bytes → Context
get_ctx_with_scope ctx scope = (scope_ctx_key, scope) ∷ ctx

unfoldable pub get_scope_from_ctx : Context → Option Bytes
unfolding value
get_scope_from_ctx ctx = value ctx scope_ctx_key

unfoldable pub get_ctx_with_trace_id : List ℕ → Context → Context
unfolding generate_trace_id
get_ctx_with_trace_id randoms ctx = (trace_id_ctx_key, generate_trace_id randoms) ∷ ctx

unfoldable pub get_trace_id_from_ctx : Context → Option Bytes
unfolding value
get_trace_id_from_ctx ctx = value ctx trace_id_ctx_key

abbrev pub scope_field_name : Bytes
scope_field_name = bytes "scope"

abbrev pub trace_id_field_name : Bytes
trace_id_field_name = bytes "trace_id"

-- The fields of a line, as a map of the console writer.
abbrev pub Fields : Type 0
Fields = List (Bytes × Bytes)

abbrev pub with_field : Bytes → Option Bytes → Fields → Fields
with_field name none fields = fields
with_field name (some v) fields = put name v fields

-- `ctxHook.Run`
unfoldable pub run_hook : Context → Fields → Fields
unfolding get_scope_from_ctx get_trace_id_from_ctx
run_hook ctx fields =
    with_field trace_id_field_name (get_trace_id_from_ctx ctx)
      (with_field scope_field_name (get_scope_from_ctx ctx) fields)

abbrev pub formatted : (Bytes → Bytes) → Option Bytes → Bytes
formatted format none = []
formatted format (some v) = format v

unfoldable pub format_field_value : Fields → (Bytes → Bytes) → Bytes → Fields
format_field_value vs format name = put name (formatted format (find name vs)) vs

-- `FormatPrepare` of the console writer that `InitLogger` makes.
unfoldable pub format_prepare : Fields → Fields
unfolding format_field_value
format_prepare m =
    let m' = format_field_value m (λ s. s) trace_id_field_name in
    format_field_value m' (λ s. b'[' ∷ s ++ b']' ∷ []) scope_field_name
