-- ===== src/Handler/Pipe/Directions.antt =====
-- What a direction of the tunnel has yet to do (`pipe` of proxy/handler/https.go).
use spoof_dpi_turkiye.Prelude.{ℕ, ◌≡◌, refl, ap, ◌∙◌, Bool, true, List, [], ◌∷◌, arith}
use spoof_dpi_turkiye.Handler.Chunks.{Conn}
use spoof_dpi_turkiye.Handler.Copy.{Round, copy_with_timeout}
use spoof_dpi_turkiye.Handler.Pipe.{
  Phase, copying, close_write, close_read, finished, Side, copy_round, is_readable, is_writable,
  copy_between, advance,
}

-- The connection and the end of a direction that goes on alone from a phase.
abbrev pub outcome : ℕ → Phase → Conn → Conn × Bool
outcome t (copying rounds) c = copy_with_timeout t rounds c
outcome t close_write c = (c, true)
outcome t close_read c = (c, true)
outcome t finished c = (c, true)

copy_round-outcome :
    (t : ℕ) (r : Round) (rounds : List Round) (c : Conn)
    → outcome t (copy_round t r rounds c).1 (copy_round t r rounds c).0
      ≡ copy_with_timeout t (r ∷ rounds) c
unfolding copy_round copy_with_timeout
copy_round-outcome t r rounds c = ground arith

-- A direction that copies reads and writes what is open.
abbrev pub CanCopy : Phase → Side → Side → Type 0
CanCopy (copying rounds) from to = (is_readable from ≡ true) × (is_writable to ≡ true)
CanCopy close_write from to = Unit
CanCopy close_read from to = Unit
CanCopy finished from to = Unit

pub advance-copying :
    (t : ℕ) (r : Round) (rounds : List Round) (from to : Side)
    → CanCopy (copying (r ∷ rounds)) from to
    → advance t (copying (r ∷ rounds)) from to ≡ (
      (copy_round t r rounds to.conn).1,
      from,
      record to { conn = (copy_round t r rounds to.conn).0 },
    )
unfolding advance copy_between
advance-copying t r rounds from to (reads, writes) = rw (reads, writes, advance, copy_between) refl

pub advance-blocked :
    (t : ℕ) (from to : Side)
    → CanCopy (copying []) from to
    → advance t (copying []) from to ≡ (copying [], from, to)
unfolding advance copy_between
advance-blocked t from to (reads, writes) = rw (reads, advance, copy_between) refl

-- A step of a direction leaves its outcome as it is.
pub advance-outcome :
    (t : ℕ) (ph : Phase) (from to : Side)
    → CanCopy ph from to
    → outcome t (advance t ph from to).0 (advance t ph from to).2.conn ≡ outcome t ph to.conn
unfolding advance
advance-outcome t (copying []) from to can =
    ap (λ x. outcome t x.0 x.2.conn) (advance-blocked t from to can)
advance-outcome t (copying (r ∷ rounds)) from to can =
    ap (λ x. outcome t x.0 x.2.conn) (advance-copying t r rounds from to can)
    ∙ copy_round-outcome t r rounds to.conn
advance-outcome t close_write from to can = ground arith
advance-outcome t close_read from to can = ground arith
advance-outcome t finished from to can = refl
