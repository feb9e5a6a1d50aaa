-- ===== src/Resolver/Cache/Machine/Woken.antt =====
-- The callers that a lookup wakes when it ends (dns/resolver/cache.go).
use spoof_dpi_turkiye.Prelude.{
  All-without, All-at, ℕ, ◌<◌, ◌≡◌, sym, ap, ◌∙◌, subst, false, List, [], ◌∷◌, ◌++◌, some, arith,
  Bytes, bytes_eq, bytes_eq→eq, All, All-map, All-find, find, Bool-cases, inl, inr, ◌==◌,
}
use spoof_dpi_turkiye.Resolver.Answer.{Answer}
use spoof_dpi_turkiye.Resolver.Cache.{MapRange}
use spoof_dpi_turkiye.Resolver.Cache.Machine.Coalesce.{begin-Begins}
use spoof_dpi_turkiye.Resolver.Cache.Machine.Waiting.{Awaits, Reach-waiting}
use spoof_dpi_turkiye.Resolver.Cache.Machine.{
  Machine, start, arrive, complete, joined_answer, wake, Step, arrives, completes, gives_up, ticks,
  Reach, here, next,
}

-- The lookups that run have numbers of their own, below the next.
abbrev UniqueIds : List (Bytes × ℕ) → Type 0
UniqueIds [] = Unit
UniqueIds ((k, p) ∷ m) = All (λ r. (r.1 == p) ≡ false) m × UniqueIds m

record Numbered (s : Machine) : Type 0 where
  unique : UniqueIds s.running
  below : All (λ r. r.1 < s.next) s.running

UniqueIds-without :
    (r : Bytes × ℕ) (before after : List (Bytes × ℕ))
    → UniqueIds (before ++ r ∷ after)
    → UniqueIds (before ++ after)
UniqueIds-without r [] after u = u.1
UniqueIds-without r ((k, p) ∷ before) after u =
    (All-without (λ r. (r.1 == p) ≡ false) r before after u.0, UniqueIds-without r before after u.1)

-- A lookup that is found under its number is the one with that number.
find_unique :
    (k key : Bytes) (p : ℕ) (before after : List (Bytes × ℕ))
    → UniqueIds (before ++ (key, p) ∷ after)
    → find k (before ++ (key, p) ∷ after) ≡ some p
    → k ≡ key
unfolding find
find_unique k key p [] after u found = elim (Bool-cases (bytes_eq key k)) [
  | inl same ↦ sym (bytes_eq→eq key k same)
  | inr differ ↦
      let later : find k after ≡ some p = ground (arith, found, differ) in
      let other = All-find (λ r. (r.1 == p) ≡ false) k after u.0 later in
      absurd (ground (arith, other))
]
find_unique k key p ((j, q) ∷ before) after u found = elim (Bool-cases (bytes_eq j k)) [
  | inl same ↦
      let other = All-at (λ r. (r.1 == q) ≡ false) (key, p) before after u.0 in
      absurd (ground (arith, found, same, other))
  | inr differ ↦ find_unique k key p before after u.1 (ground (arith, found, differ))
]

start-Numbered : (pos neg size : ℕ) → Numbered (start pos neg size)
unfolding start
start-Numbered pos neg size = record { unique = tt; below = tt }

arrive-Numbered : (s : Machine) (key : Bytes) → Numbered s → Numbered (arrive s key)
unfolding arrive
arrive-Numbered s key v = elim (begin-Begins s.cache s.clock key s.next) [
  | inl (e, found, fresh, eq) ↦ rw eq (record { unique = v.unique; below = v.below })
  | inr (inl (q, found, eq)) ↦ rw eq (record { unique = v.unique; below = v.below })
  | inr (inr (new, eq)) ↦ rw eq (record {
    unique = (All-map (λ r lt. ground (arith, lt)) s.running v.below, v.unique);
    below = (omega arith, All-map (λ r lt. omega (arith, lt)) s.running v.below);
  })
]

complete-Numbered :
    (range : MapRange) (s : Machine) (key : Bytes) (p : ℕ) (r : Answer) (delay : ℕ)
    (before after : List (Bytes × ℕ))
    → s.running ≡ before ++ (key, p) ∷ after
    → Numbered s
    → Numbered (complete range s key p r delay (before ++ after))
unfolding complete
complete-Numbered range s key p r delay before after e v = record {
  unique = UniqueIds-without (key, p) before after (subst UniqueIds e v.unique);
  below =
      All-without (λ r. r.1 < s.next) (key, p) before after
        (subst (All (λ r. r.1 < s.next)) e v.below);
}

Step-Numbered : {range : MapRange} {s t : Machine} → Step range s t → Numbered s → Numbered t
Step-Numbered {s = s} (arrives key) v = arrive-Numbered s key v
Step-Numbered {range} {s} (completes key p r delay before after e) v =
    complete-Numbered range s key p r delay before after e v
Step-Numbered (gives_up w before after e) v = record { unique = v.unique; below = v.below }
Step-Numbered (ticks d) v = record { unique = v.unique; below = v.below }

Reach-Numbered : {range : MapRange} {s t : Machine} → Numbered s → Reach range s t → Numbered t
Reach-Numbered v here = v
Reach-Numbered v (next r st) = Step-Numbered st (Reach-Numbered v r)

wake-All :
    (key : Bytes) (p : ℕ) (r : Answer) (before after waiting : List (Bytes × ℕ))
    → UniqueIds (before ++ (key, p) ∷ after)
    → All (Awaits (before ++ (key, p) ∷ after)) waiting
    → All (λ g. g ≡ (key, joined_answer r)) (wake p r waiting)
unfolding wake
wake-All key p r before after [] u h = tt
wake-All key p r before after ((k, q) ∷ waiting) u h = elim (Bool-cases (q == p)) [
  | inr asleep ↦ rw asleep (wake-All key p r before after waiting u h.1)
  | inl woken ↦
      let same : q ≡ p = ground (arith, woken) in
      let found : find k (before ++ (key, p) ∷ after) ≡ some p = h.0 ∙ ap some same in
      let own = find_unique k key p before after u found in
      rw woken (ap (λ j. (j, joined_answer r)) own, wake-All key p r before after waiting u h.1)
]

-- In whatever order callers arrive and give up, lookups end and time passes, from an empty cache on
-- a lookup that ends wakes none but callers that asked for its key, and each of them returns what
-- the lookup has given: its error, or else its addresses.
pub Reach-woken :
    (range : MapRange) (pos neg size : ℕ) {s : Machine} (key : Bytes) (p : ℕ) (r : Answer)
    (before after : List (Bytes × ℕ))
    → Reach range (start pos neg size) s
    → s.running ≡ before ++ (key, p) ∷ after
    → All (λ g. g ≡ (key, joined_answer r)) (wake p r s.waiting)
Reach-woken range pos neg size {s} key p r before after reach e =
    wake-All key p r before after s.waiting
      (subst UniqueIds e (Reach-Numbered (start-Numbered pos neg size) reach).unique)
      (subst (λ running. All (Awaits running) s.waiting) e (Reach-waiting range pos neg size reach))
