-- ===== src/Resolver/Cache/Slices/Served.antt =====
-- What callers do with their slices does not reach the cache (dns/resolver/cache.go).
use spoof_dpi_turkiye.Prelude.{
  ℕ, ◌+◌, ◌<◌, ◌≡◌, ◌⊎◌, refl, ap, ◌∙◌, sym, subst, ◌++◌, Option, none, some, Bytes, find, ltb,
  arith, Bool-cases, Option-cases, inl, inr,
}
use spoof_dpi_turkiye.Resolver.Answer.{Error, Answer, answer}
use spoof_dpi_turkiye.Resolver.Cache.{MapRange, new_cache, hit, answer_of, entry_of, ttl_of, begin}
use spoof_dpi_turkiye.Resolver.Cache.Machine.{
  Finished, start, Step, arrives, completes, gives_up, ticks, Reach, here, next,
}
use spoof_dpi_turkiye.Resolver.Cache.Machine.Served.{In, Reach-hit}
use spoof_dpi_turkiye.Resolver.Cache.Slices.{
  contents, SliceEntry, Memory, give, Returned, enter, new_memory, view_entry, view_entries,
}
use spoof_dpi_turkiye.Resolver.Cache.Slices.Steps.{
  view, SliceStep, enters, settles, wakes, writes, leaves, passes, SliceReach, begins, then_step,
}
use spoof_dpi_turkiye.Resolver.Cache.Slices.View.{find-view_some}
use spoof_dpi_turkiye.Resolver.Cache.Slices.Isolated.{Isolated, contents-clone_addrs}
use spoof_dpi_turkiye.Resolver.Cache.Slices.Kept.{new_memory-Isolated, Reach-Isolated}
use spoof_dpi_turkiye.Resolver.Cache.Slices.Refinement.{
  view-give, view-enter, view-write_array, view-settle,
}

-- A step of the cache with its slices is a step of the cache of addresses, or none.
Step-view :
    {range : MapRange} {s t : Memory}
    → SliceStep range s t
    → Isolated s
    → (view t ≡ view s) ⊎ Step range (view s) (view t)
Step-view {range} {s} (enters key) v =
    inr (subst (Step range (view s)) (sym (view-enter s key v)) (arrives key))
Step-view {range} {s} (settles key p r delay before after e) v = inr (
    subst (Step range (view s)) (sym (view-settle range s key p r delay (before ++ after) v))
      (completes key p r delay before after e))
Step-view {s = s} (wakes d before after e) v = inl (view-give s d.addrs d.error v)
Step-view {s = s} (writes r xs before after e) v = inl (view-write_array s r xs before after v e)
Step-view (leaves w before after e) v = inr (gives_up w before after e)
Step-view (passes d) v = inr (ticks d)

-- Whatever addresses callers put into the slices that they were given, in place of what is there
-- and without a write into the bytes of an address, and in whatever order they, the upstream and
-- time take their steps, the cache with the addresses in place of its slices is one that the steps of
-- the cache of addresses lead to.
pub Reach-view :
    (range : MapRange) (pos neg size : ℕ) {s : Memory}
    → SliceReach range (new_memory pos neg size) s
    → Reach range (start pos neg size) (view s)
unfolding new_memory start new_cache view_entries
Reach-view range pos neg size begins = here
Reach-view range pos neg size (then_step r st) =
    elim (Step-view st (Reach-Isolated (new_memory-Isolated pos neg size) r)) [
      | inl e ↦ subst (Reach range (start pos neg size)) (sym e) (Reach-view range pos neg size r)
      | inr step ↦ next (Reach-view range pos neg size r) step
    ]

-- What a caller is given, as an answer
abbrev pub answer_in : Memory × Returned → Answer
answer_in (s, (a, e)) = answer (contents s.heap a) e

answer_in-give :
    (s : Memory) (x : SliceEntry)
    → answer_in (give s x.addrs x.error) ≡ answer_of (view_entry s.heap x)
answer_in-give s x = go x.error
  where
    go :
        (e : Option Error)
        → answer_in (give s x.addrs e)
          ≡ answer_of (record { addrs = contents s.heap x.addrs; error = e; expires = x.expires })
    go (some e) = refl
    go none = ap (λ xs. answer xs none) (contents-clone_addrs s.heap x.addrs)

-- The result of a call that is known to have one.
abbrev result_or : Returned → Memory × Option Returned → Answer
result_or r (s, none) = answer_in (s, r)
result_or r (s, some q) = answer_in (s, q)

begin-enter :
    (s t : Memory) (key : Bytes) (r : Returned)
    → enter s key ≡ (t, some r)
    → begin (view s).cache s.clock key s.next ≡ ((view s).cache, hit (answer_in (t, r)))
unfolding enter begin
begin-enter s t key r h = elim (Option-cases (find key s.entries)) [
  | inl e ↦ absurd (ground arith)
  | inr (x, e) ↦ elim (Bool-cases (ltb s.clock x.expires)) [
    | inl f ↦
        let gives : enter s key ≡ ((give s x.addrs x.error).0, some (give s x.addrs x.error).1) =
          rw (e, f, enter) refl in
        rw (find-view_some s.heap key s.entries x e, begin, f)
          (ap (λ a. ((view s).cache, hit a))
            (sym (answer_in-give s x) ∙ ap (result_or r) (sym gives ∙ h)))
    | inr f ↦ absurd (ground arith)
  ]
]

-- From an empty cache on, whatever addresses callers put into the slices that they were given, in
-- place of what is there and without a write into the bytes of an address, and in whatever order
-- they, the upstream and time take their steps: an answer that the cache serves has the addresses
-- and the error that an upstream lookup for the same key has given, which ended less than its term
-- ago.
pub Reach-cloned :
    (range : MapRange) (pos neg size : ℕ) {s : Memory} (key : Bytes) {t : Memory} (r : Returned)
    → SliceReach range (new_memory pos neg size) s
    → enter s key ≡ (t, some r)
    → (d : Finished) × In d s.log
      × (d.key ≡ key)
      × (answer_in (t, r) ≡ answer_of (entry_of (new_cache pos neg size) d.answer d.time))
      × (s.clock < d.time + ttl_of (new_cache pos neg size) d.answer)
Reach-cloned range pos neg size {s} key {t} r reached served =
    Reach-hit range pos neg size key (answer_in (t, r)) (Reach-view range pos neg size reached)
      (begin-enter s t key r served)
