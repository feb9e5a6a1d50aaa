-- ===== src/Log/Fields.antt =====
-- What a log line shows of a context (util/log/log.go).
use spoof_dpi_turkiye.Prelude.{
  ℕ, ◌≡◌, refl, subst, List, [], ◌∷◌, ◌++◌, Option, none, some, Bytes, find, delete,
}
use spoof_dpi_turkiye.Log.{
  Context, Fields, get_scope_from_ctx, get_trace_id_from_ctx, scope_field_name, trace_id_field_name,
  run_hook, formatted, with_field, format_field_value, format_prepare, get_ctx_with_scope,
  get_ctx_with_trace_id, generate_trace_id, value,
}

abbrev pub in_brackets : Bytes → Bytes
in_brackets s = b'[' ∷ s ++ b']' ∷ []

-- The line of a trace id and a scope.
abbrev line : Option Bytes → Option Bytes → Fields
line id scope = with_field trace_id_field_name id (with_field scope_field_name scope [])

format_prepare-line :
    (id scope : Option Bytes)
    → (find trace_id_field_name (format_prepare (line id scope)) ≡ some (formatted (λ s. s) id))
      × (find scope_field_name (format_prepare (line id scope))
          ≡ some (formatted in_brackets scope))
unfolding format_prepare format_field_value find delete
format_prepare-line none none = (refl, refl)
format_prepare-line none (some s) = (refl, refl)
format_prepare-line (some t) none = (refl, refl)
format_prepare-line (some t) (some s) = (refl, refl)

-- The parts of a log line that come from its context are the trace id and, in brackets, the scope
-- that were put into it last, and empty where there is none.
pub format_prepare-run_hook :
    (ctx : Context)
    → (find trace_id_field_name (format_prepare (run_hook ctx []))
        ≡ some (formatted (λ s. s) (get_trace_id_from_ctx ctx)))
      × (find scope_field_name (format_prepare (run_hook ctx []))
          ≡ some (formatted in_brackets (get_scope_from_ctx ctx)))
unfolding run_hook
format_prepare-run_hook ctx =
    format_prepare-line (get_trace_id_from_ctx ctx) (get_scope_from_ctx ctx)

-- What `handle` and `Serve` put into a context is what a log line shows: a trace id of its own for
-- every connection, and the scope of the handler.
pub format_prepare-get_ctx_with_scope :
    (ctx : Context) (randoms : List ℕ) (scope : Bytes) (c : Context)
    → get_ctx_with_scope (get_ctx_with_trace_id randoms ctx) scope ≡ c
    → (find trace_id_field_name (format_prepare (run_hook c [])) ≡ some (generate_trace_id randoms))
      × (find scope_field_name (format_prepare (run_hook c [])) ≡ some (in_brackets scope))
unfolding get_ctx_with_scope get_ctx_with_trace_id get_scope_from_ctx get_trace_id_from_ctx value
format_prepare-get_ctx_with_scope ctx randoms scope c made =
    let shown =
      format_prepare-run_hook (get_ctx_with_scope (get_ctx_with_trace_id randoms ctx) scope) in
    subst
      (λ c.
        (find trace_id_field_name (format_prepare (run_hook c []))
          ≡ some (generate_trace_id randoms))
        × (find scope_field_name (format_prepare (run_hook c [])) ≡ some (in_brackets scope)))
      made shown
