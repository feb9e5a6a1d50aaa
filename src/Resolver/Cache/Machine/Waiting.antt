-- ===== src/Resolver/Cache/Machine/Waiting.antt =====
-- The callers that wait for another's lookup (dns/resolver/cache.go).
use spoof_dpi_turkiye.Prelude.{
  All-without, ℕ, ◌≡◌, sym, ◌∙◌, subst, false, List, [], ◌∷◌, ◌++◌, none, some, arith, Bytes,
  bytes_eq, bytes_eq→eq, bytes_eq_refl, All, All-map, find, Distinct, Bool-cases, inl, inr, ◌==◌,
}
use spoof_dpi_turkiye.Resolver.Answer.{Answer}
use spoof_dpi_turkiye.Resolver.Cache.{MapRange}
use spoof_dpi_turkiye.Resolver.Cache.Machine.Pending.{find-removed_ne}
use spoof_dpi_turkiye.Resolver.Cache.Machine.Coalesce.{Inv, begin-Begins, start-Inv, Reach-Inv}
use spoof_dpi_turkiye.Resolver.Cache.Machine.{
  Machine, start, arrive, complete, still_waiting, Step, arrives, completes, gives_up, ticks, Reach,
  here, next,
}

-- The lookup that a caller waits for runs, and looks up the caller's key.
abbrev pub Awaits : List (Bytes × ℕ) → Bytes × ℕ → Type 0
Awaits running (k, q) = find k running ≡ some q

find-middle :
    (key : Bytes) (p : ℕ) (before after : List (Bytes × ℕ))
    → Distinct (before ++ (key, p) ∷ after)
    → find key (before ++ (key, p) ∷ after) ≡ some p
unfolding find
find-middle key p [] after d = ground (arith, bytes_eq_refl key)
find-middle key p ((j, q) ∷ before) after d = elim (Bool-cases (bytes_eq j key)) [
  | inr differ ↦ rw differ (find-middle key p before after d.1)
  | inl same ↦
      let found = find-middle key p before after d.1 in
      let missing =
        subst (λ k. find k (before ++ (key, p) ∷ after) ≡ none) (bytes_eq→eq j key same) d.0 in
      absurd (ground arith)
]

-- A new lookup, for a key that no lookup runs for.
leads-Awaits :
    (key : Bytes) (p : ℕ) (running : List (Bytes × ℕ)) (w : Bytes × ℕ)
    → find key running ≡ none
    → Awaits running w
    → Awaits ((key, p) ∷ running) w
unfolding find
leads-Awaits key p running (k, q) new h = elim (Bool-cases (bytes_eq key k)) [
  | inr differ ↦ rw differ h
  | inl same ↦
      let missing = subst (λ j. find j running ≡ none) (bytes_eq→eq key k same) new in
      absurd (ground arith)
]

-- A lookup that ends, and a caller that waits for another.
ends-Awaits :
    (key : Bytes) (p : ℕ) (before after : List (Bytes × ℕ)) (w : Bytes × ℕ)
    → Distinct (before ++ (key, p) ∷ after)
    → (w.1 == p) ≡ false
    → Awaits (before ++ (key, p) ∷ after) w
    → Awaits (before ++ after) w
ends-Awaits key p before after (k, q) d differs h = elim (Bool-cases (bytes_eq key k)) [
  | inr other ↦ sym (find-removed_ne key p k before after other) ∙ h
  | inl same ↦
      let own =
        subst (λ j. find j (before ++ (key, p) ∷ after) ≡ some p) (bytes_eq→eq key k same)
          (find-middle key p before after d) in
      absurd (ground arith)
]

module _ {κ μ} {P : Bytes × ℕ → Type κ} {Q : Bytes × ℕ → Type μ} where
  still_waiting-All :
      (p : ℕ) (f : (w : Bytes × ℕ) → (w.1 == p) ≡ false → P w → Q w) (waiting : List (Bytes × ℕ))
      → All P waiting
      → All Q (still_waiting p waiting)
  unfolding still_waiting
  still_waiting-All p f [] h = tt
  still_waiting-All p f ((k, q) ∷ waiting) h = elim (Bool-cases (q == p)) [
    | inl woken ↦ rw woken (still_waiting-All p f waiting h.1)
    | inr asleep ↦ rw asleep (f (k, q) asleep h.0, still_waiting-All p f waiting h.1)
  ]

arrive-Awaits :
    (limit : ℕ) (s : Machine) (key : Bytes)
    → Inv limit s
    → All (Awaits s.running) s.waiting
    → All (Awaits (arrive s key).running) (arrive s key).waiting
unfolding arrive
arrive-Awaits limit s key v h = elim (begin-Begins s.cache s.clock key s.next) [
  | inl (e, found, fresh, eq) ↦ rw eq h
  | inr (inl (q, found, eq)) ↦ rw eq (sym (v.tracked key) ∙ found, h)
  | inr (inr (new, eq)) ↦
      let free : find key s.running ≡ none = sym (v.tracked key) ∙ new in
      rw eq (All-map (λ w. leads-Awaits key s.next s.running w free) s.waiting h)
]

complete-Awaits :
    (range : MapRange) (s : Machine) (key : Bytes) (p : ℕ) (r : Answer) (delay : ℕ)
    (before after : List (Bytes × ℕ))
    → s.running ≡ before ++ (key, p) ∷ after
    → Distinct s.running
    → All (Awaits s.running) s.waiting
    → All (Awaits (before ++ after)) (complete range s key p r delay (before ++ after)).waiting
unfolding complete
complete-Awaits range s key p r delay before after e d h =
    still_waiting-All p (λ w. ends-Awaits key p before after w (subst Distinct e d)) s.waiting
      (subst (λ running. All (Awaits running) s.waiting) e h)

Step-Awaits :
    {range : MapRange} {limit : ℕ} {s t : Machine}
    → Step range s t
    → Inv limit s
    → All (Awaits s.running) s.waiting
    → All (Awaits t.running) t.waiting
unfolding complete
Step-Awaits {limit = limit} {s = s} (arrives key) v h = arrive-Awaits limit s key v h
Step-Awaits {range} {s = s} (completes key p r delay before after e) v h =
    complete-Awaits range s key p r delay before after e v.single h
Step-Awaits {s = s} (gives_up w before after e) v h =
    All-without (Awaits s.running) w before after (subst (All (Awaits s.running)) e h)
Step-Awaits (ticks d) v h = h

Reach-Awaits :
    {range : MapRange} {limit : ℕ} {s t : Machine}
    → Inv limit s
    → All (Awaits s.running) s.waiting
    → Reach range s t
    → All (Awaits t.running) t.waiting
Reach-Awaits v h here = h
Reach-Awaits v h (next r st) = Step-Awaits st (Reach-Inv v r) (Reach-Awaits v h r)

-- In whatever order callers arrive and give up, lookups end and time passes, from an empty cache on
-- every caller that waits for a lookup waits for one that still runs, and that looks up the caller's
-- key: none is left waiting for a lookup that has ended.
pub Reach-waiting :
    (range : MapRange) (pos neg size : ℕ) {s : Machine}
    → Reach range (start pos neg size) s
    → All (Awaits s.running) s.waiting
unfolding start
Reach-waiting range pos neg size r = Reach-Awaits (start-Inv pos neg size) tt r
