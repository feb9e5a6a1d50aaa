-- ===== src/Resolver/Cache/Slices/Kept.antt =====
-- Every step keeps what the cache stores apart from what callers hold (dns/resolver/cache.go).
use spoof_dpi_turkiye.Prelude.{
  ℕ, ◌+◌, ◌-◌, ◌<◌, List, [], ◌∷◌, ◌++◌, Option, none, some, Bytes, put, find, delete-All, ltb, leb,
  All, All-map, arith, Bool-cases, Option-cases, inl, inr, length,
}
use spoof_dpi_turkiye.AddrSelect.Ip.{IpAddr}
use spoof_dpi_turkiye.Resolver.Answer.{Error, Answer}
use spoof_dpi_turkiye.Resolver.Cache.{MapRange}
use spoof_dpi_turkiye.Resolver.Cache.Machine.Served.{drop_excess-All}
use spoof_dpi_turkiye.Resolver.Cache.Slices.{
  Slice, Heap, clone_addrs, upstream_slice, SliceEntry, Memory, hold, give, wait_or_lead, enter,
  drop_expired_slices, evict_slices, term_of, settle, new_memory, view_entries,
}
use spoof_dpi_turkiye.Resolver.Cache.Slices.Steps.{
  SliceStep, enters, settles, wakes, writes, leaves, passes, SliceReach, begins, then_step,
}
use spoof_dpi_turkiye.Resolver.Cache.Slices.Isolated.{
  Private, Made, Own, Isolated, Extends, Extends-trans, clone_addrs-Extends, clone_addrs-Fresh,
  upstream_slice-Extends, upstream_slice-Fresh, Fresh, Made-Extends, hold_made, Own-hold,
}

module _ {κ} (P : Bytes × SliceEntry → Type κ) where
  drop_expired_slices-All :
      (now : ℕ) (m : List (Bytes × SliceEntry)) → All P m → All P (drop_expired_slices now m)
  unfolding drop_expired_slices
  drop_expired_slices-All now [] h = tt
  drop_expired_slices-All now ((k, e) ∷ m) h = elim (Bool-cases (ltb now e.expires)) [
    | inl f ↦ rw f (h.0, drop_expired_slices-All now m h.1)
    | inr f ↦ rw f (drop_expired_slices-All now m h.1)
  ]

  evict_slices-All :
      (range : MapRange) (heap : Heap) (size now : ℕ) (m : List (Bytes × SliceEntry))
      → All P m
      → All P (evict_slices range heap size now m)
  unfolding evict_slices
  evict_slices-All range heap size now m h =
      let live = drop_expired_slices now m in
      let kept = drop_expired_slices-All now m h in
      elim (Bool-cases (leb (length m) size)) [
        | inl f ↦ rw f h
        | inr f ↦ elim (Bool-cases (leb (length live) size)) [
          | inl g ↦ rw (f, g) kept
          | inr g ↦
              rw (f, g)
                (drop_excess-All P (length live - size) (range.keys (view_entries heap live)) live
                  kept)
        ]
      ]

-- The copy is a caller's neither, when the caller is given what was copied.
clone_addrs-Private :
    (h : Heap) (a : Slice) (held : List ℕ)
    → Made h a
    → All (λ r. r < h.used) held
    → Private (clone_addrs h a).0 (hold a held) (clone_addrs h a).1
unfolding clone_addrs
clone_addrs-Private h none held m made = tt
clone_addrs-Private h (some r) held m made =
    (omega arith, (ground (arith, m), All-map (λ q lt. ground arith) held made))

upstream_slice-Made :
    (h : Heap) (xs : List IpAddr) → Made (upstream_slice h xs).0 (upstream_slice h xs).1
upstream_slice-Made h [] = tt
upstream_slice-Made h (x ∷ xs) = omega arith

Fresh-Extends :
    (h : Heap) {h' h'' : Heap} → Extends h' h'' → (a : Slice) → Fresh h h' a → Fresh h h'' a
Fresh-Extends h x none f = tt
Fresh-Extends h x (some r) f = (f.0, let a = x.more in omega (arith, f.1))

give-Isolated : (s : Memory) (a : Slice) (e : Option Error) → Isolated s → Isolated (give s a e).0
give-Isolated s a (some e) v = v
give-Isolated s a none v =
    let x = clone_addrs-Extends s.heap a in
    let f = clone_addrs-Fresh s.heap a in
    let copy = (clone_addrs s.heap a).1 in
    record {
      own = Own-hold x copy s.held s.entries f v.own;
      held_made = hold_made x copy s.held f v.held_made;
      done_made = All-map (λ d. Made-Extends x d.addrs) s.done v.done_made;
    }

wait_or_lead-Isolated : (s : Memory) (key : Bytes) → Isolated s → Isolated (wait_or_lead s key)
wait_or_lead-Isolated s key v = elim (Option-cases (find key s.pending)) [
  | inl e ↦
      rw (e, wait_or_lead)
        (record { own = v.own; held_made = v.held_made; done_made = v.done_made })
  | inr (p, e) ↦
      rw (e, wait_or_lead)
        (record { own = v.own; held_made = v.held_made; done_made = v.done_made })
]

enter-Isolated : (s : Memory) (key : Bytes) → Isolated s → Isolated (enter s key).0
unfolding enter
enter-Isolated s key v = elim (Option-cases (find key s.entries)) [
  | inl e ↦ rw (e, enter) (wait_or_lead-Isolated s key v)
  | inr (x, e) ↦ elim (Bool-cases (ltb s.clock x.expires)) [
    | inl f ↦ rw (e, f, enter) (give-Isolated s x.addrs x.error v)
    | inr f ↦ rw (e, f, enter) (wait_or_lead-Isolated s key v)
  ]
]

settle-Isolated :
    (range : MapRange) (s : Memory) (key : Bytes) (p : ℕ) (r : Answer) (delay : ℕ)
    (running : List (Bytes × ℕ))
    → Isolated s
    → Isolated (settle range s key p r delay running)
unfolding settle
settle-Isolated range s key p r delay running v = elim (Bool-cases (ltb 0 (term_of s r))) [
  | inl stored ↦ rw stored (record {
    own =
        evict_slices-All (Own cloned (hold addrs s.held)) range cloned s.max_size (s.clock + delay)
          (put key entry s.entries)
          (
            clone_addrs-Private h addrs s.held (upstream_slice-Made s.heap r.addrs)
                (hold_made grown none s.held tt v.held_made),
            delete-All (Own cloned (hold addrs s.held)) key s.entries
                (Own-hold both addrs s.held s.entries fresh v.own),
          );
    held_made = hold_made both addrs s.held fresh v.held_made;
    done_made = (
      Made-Extends copied addrs (upstream_slice-Made s.heap r.addrs),
      All-map (λ d. Made-Extends both d.addrs) s.done v.done_made,
    );
  })
  | inr dropped ↦ rw dropped (record {
    own = Own-hold grown addrs s.held s.entries new v.own;
    held_made = hold_made grown addrs s.held new v.held_made;
    done_made = (
      upstream_slice-Made s.heap r.addrs,
      All-map (λ d. Made-Extends grown d.addrs) s.done v.done_made,
    );
  })
]
  where
    h : Heap
    h = (upstream_slice s.heap r.addrs).0

    addrs : Slice
    addrs = (upstream_slice s.heap r.addrs).1

    cloned : Heap
    cloned = (clone_addrs h addrs).0

    entry : SliceEntry
    entry = record {
      addrs = (clone_addrs h addrs).1;
      error = r.error;
      expires = s.clock + term_of s r;
    }

    grown : Extends s.heap h
    grown = upstream_slice-Extends s.heap r.addrs

    copied : Extends h cloned
    copied = clone_addrs-Extends h addrs

    both : Extends s.heap cloned
    both = Extends-trans s.heap h cloned grown copied

    new : Fresh s.heap h addrs
    new = upstream_slice-Fresh s.heap r.addrs

    fresh : Fresh s.heap cloned addrs
    fresh = Fresh-Extends s.heap copied addrs new

pub Step-Isolated :
    {range : MapRange} {s t : Memory} → SliceStep range s t → Isolated s → Isolated t
Step-Isolated {s = s} (enters key) v = enter-Isolated s key v
Step-Isolated {range} {s} (settles key p r delay before after e) v =
    settle-Isolated range s key p r delay (before ++ after) v
Step-Isolated {s = s} (wakes d before after e) v = give-Isolated s d.addrs d.error v
Step-Isolated {s = s} (writes r xs before after e) v = record {
  own = v.own;
  held_made = v.held_made;
  done_made = v.done_made;
}
Step-Isolated (leaves w before after e) v = record {
  own = v.own;
  held_made = v.held_made;
  done_made = v.done_made;
}
Step-Isolated (passes d) v = record {
  own = v.own;
  held_made = v.held_made;
  done_made = v.done_made;
}

pub new_memory-Isolated : (pos neg size : ℕ) → Isolated (new_memory pos neg size)
unfolding new_memory
new_memory-Isolated pos neg size = record { own = tt; held_made = tt; done_made = tt }

pub Reach-Isolated :
    {range : MapRange} {s t : Memory} → Isolated s → SliceReach range s t → Isolated t
Reach-Isolated v begins = v
Reach-Isolated v (then_step r st) = Step-Isolated st (Reach-Isolated v r)
