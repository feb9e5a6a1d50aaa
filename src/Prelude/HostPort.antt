-- ===== src/Prelude/HostPort.antt =====
-- `net.JoinHostPort` and `net.SplitHostPort`.
use mathlib.Core.Path.{◌≡◌, refl}
use mathlib.Core.Logic.{inl, inr}
use mathlib.Core.Bool.{Bool, true, false, not, ◌&&◌, ◌||◌}
use mathlib.Core.List.{[], ◌∷◌, ◌++◌}
use mathlib.Core.Option.{Option, none, some}
use native.Mathlib.Omega.{arith}
use Prim.Native.Nat.{ℕ}
use spoof_dpi_turkiye.Prelude.Tests.{◌==◌, if◌then◌else◌, Bool-cases}
use spoof_dpi_turkiye.Prelude.ByteList.{Bytes}

-- `strings.IndexByte(s, c) >= 0`
abbrev pub contains : ℕ → Bytes → Bool
contains c [] = false
contains c (x ∷ s) = x == c || contains c s

-- A host with a colon is put in brackets.
unfoldable pub join_host_port : Bytes → Bytes → Bytes
join_host_port host port =
    if contains b':' host then b'[' ∷ host ++ (b']' ∷ b':' ∷ port) else host ++ b':' ∷ port

-- What stands before and behind the first of a character.
unfoldable pub cut_first : ℕ → Bytes → Option (Bytes × Bytes)
cut_first c [] = none
cut_first c (x ∷ s) =
    let rest = cut_first c s in
    if x == c
    then some ([], s)
    else elim rest [ none ↦ none | some (front, back) ↦ some (x ∷ front, back) ]

-- A port behind a host in brackets; what is not right is an error, `none`.
unfoldable pub bracketed : Option (Bytes × Bytes) → Option (Bytes × Bytes)
bracketed none = none
bracketed (some (host, [])) = none
bracketed (some (host, c ∷ port)) =
    if not (c == b':')
      || contains b':' port
      || contains b'[' (host ++ b']' ∷ c ∷ port)
      || contains b']' port
    then none
    else some (host, port)

unfoldable pub unbracketed : Bytes → Option (Bytes × Bytes) → Option (Bytes × Bytes)
unbracketed s none = none
unbracketed s (some (host, port)) =
    if contains b':' port || contains b'[' s || contains b']' s then none else some (host, port)

unfoldable pub split_host_port : Bytes → Option (Bytes × Bytes)
unfolding bracketed unbracketed cut_first
split_host_port [] = none
split_host_port (c ∷ s) =
    if c == b'[' then bracketed (cut_first b']' s) else unbracketed (c ∷ s) (cut_first b':' (c ∷ s))

cut_first-append :
    (c : ℕ) (front back : Bytes)
    → contains c front ≡ false
    → cut_first c (front ++ c ∷ back) ≡ some (front, back)
unfolding cut_first
cut_first-append c [] back free = ground arith
cut_first-append c (x ∷ front) back free =
    let rest = cut_first-append c front back (ground (arith, free)) in
    rw rest (ground (arith, free))

contains-append :
    (c : ℕ) (front back : Bytes)
    → contains c (front ++ back) ≡ (contains c front || contains c back)
contains-append c [] back = refl
contains-append c (x ∷ front) back = ground (arith, contains-append c front back)

-- A text without a colon and brackets.
abbrev pub is_plain : Bytes → Bool
is_plain s = not (contains b':' s) && not (contains b'[' s) && not (contains b']' s)

split_host_port_plain :
    (host port : Bytes)
    → contains b':' host ≡ false
    → contains b'[' host ≡ false
    → contains b']' host ≡ false
    → is_plain port ≡ true
    → split_host_port (host ++ b':' ∷ port) ≡ some (host, port)
unfolding split_host_port unbracketed cut_first
split_host_port_plain [] port free left right plain = ground (arith, plain)
split_host_port_plain (c ∷ host) port free left right plain =
    rw (cut_first-append b':' (c ∷ host) port free) (
      ground (
        arith,
        contains-append b'[' host (b':' ∷ port),
        contains-append b']' host (b':' ∷ port),
        left,
        right,
        plain,
      ))

-- A host without brackets and a port come apart as they were put together.
pub split_host_port-join_host_port :
    (host port : Bytes)
    → contains b'[' host ≡ false
    → contains b']' host ≡ false
    → is_plain port ≡ true
    → split_host_port (join_host_port host port) ≡ some (host, port)
unfolding split_host_port join_host_port bracketed unbracketed
split_host_port-join_host_port host port left right plain = elim (Bool-cases (contains b':' host)) [
  | inl colon ↦
      rw (colon, cut_first-append b']' host (b':' ∷ port) right)
        (ground (arith, contains-append b'[' host (b']' ∷ b':' ∷ port), left, plain))
  | inr free ↦ rw free (split_host_port_plain host port free left right plain)
]
