-- ===== src/Resolver/Cache/Slices/Isolated.antt =====
-- What the cache stores is shared with no caller (dns/resolver/cache.go).
use spoof_dpi_turkiye.Prelude.{
  ℕ, ◌≤◌, ◌<◌, ◌≡◌, refl, ◌∙◌, true, false, List, [], ◌∷◌, none, some, Bytes, ◌==◌, All, All-map,
  arith,
}
use spoof_dpi_turkiye.AddrSelect.Ip.{IpAddr}
use spoof_dpi_turkiye.Resolver.Cache.Slices.{
  Slice, Heap, contents, allocate, clone_addrs, upstream_slice, SliceEntry, Memory, hold,
  view_entries,
}
use spoof_dpi_turkiye.Resolver.Cache.Slices.View.{view_entries-agree}

-- The slice has no array that a caller holds, and one that has been made, if any.
abbrev pub Private : Heap → List ℕ → Slice → Type 0
Private h held none = Unit
Private h held (some r) = (r < h.used) × All (λ q. (r == q) ≡ false) held

abbrev pub Made : Heap → Slice → Type 0
Made h none = Unit
Made h (some r) = r < h.used

abbrev pub Own : Heap → List ℕ → Bytes × SliceEntry → Type 0
Own h held (k, e) = Private h held e.addrs

pub record Isolated (s : Memory) : Type 0 where
  pub own : All (Own s.heap s.held) s.entries
  pub held_made : All (λ r. r < s.heap.used) s.held
  pub done_made : All (λ d. Made s.heap d.addrs) s.done

-- Nothing that has been made has changed.
pub record Extends (h h' : Heap) : Type 0 where
  pub more : h.used ≤ h'.used
  pub same : (r : ℕ) → r < h.used → h.arrays r ≡ h'.arrays r

Extends-refl : (h : Heap) → Extends h h
Extends-refl h = record { more = omega arith; same = λ r lt. refl }

pub Extends-trans : (h h' h'' : Heap) → Extends h h' → Extends h' h'' → Extends h h''
Extends-trans h h' h'' x y = record {
  more = let a = x.more in let b = y.more in omega arith;
  same = λ r lt. x.same r lt ∙ y.same r (let a = x.more in omega arith);
}

allocate-Extends : (h : Heap) (xs : List IpAddr) → Extends h (allocate h xs).0
allocate-Extends h xs = record {
  more = omega arith;
  same = λ r lt. let other : (r == h.used) ≡ false = ground arith in rw other refl;
}

pub clone_addrs-Extends : (h : Heap) (a : Slice) → Extends h (clone_addrs h a).0
unfolding clone_addrs
clone_addrs-Extends h none = Extends-refl h
clone_addrs-Extends h (some r) = allocate-Extends h (h.arrays r)

pub upstream_slice-Extends : (h : Heap) (xs : List IpAddr) → Extends h (upstream_slice h xs).0
upstream_slice-Extends h [] = Extends-refl h
upstream_slice-Extends h (x ∷ xs) = allocate-Extends h (x ∷ xs)

-- A slice with an array that is new, if any.
abbrev pub Fresh : Heap → Heap → Slice → Type 0
Fresh h h' none = Unit
Fresh h h' (some r) = (h.used ≤ r) × (r < h'.used)

pub clone_addrs-Fresh : (h : Heap) (a : Slice) → Fresh h (clone_addrs h a).0 (clone_addrs h a).1
unfolding clone_addrs
clone_addrs-Fresh h none = tt
clone_addrs-Fresh h (some r) = (omega arith, omega arith)

pub upstream_slice-Fresh :
    (h : Heap) (xs : List IpAddr) → Fresh h (upstream_slice h xs).0 (upstream_slice h xs).1
upstream_slice-Fresh h [] = tt
upstream_slice-Fresh h (x ∷ xs) = (omega arith, omega arith)

pub contents-clone_addrs :
    (h : Heap) (a : Slice) → contents (clone_addrs h a).0 (clone_addrs h a).1 ≡ contents h a
unfolding clone_addrs
contents-clone_addrs h none = refl
contents-clone_addrs h (some r) =
    let same : (h.used == h.used) ≡ true = ground arith in rw same refl

pub contents-upstream_slice :
    (h : Heap) (xs : List IpAddr) → contents (upstream_slice h xs).0 (upstream_slice h xs).1 ≡ xs
contents-upstream_slice h [] = refl
contents-upstream_slice h (x ∷ xs) =
    let same : (h.used == h.used) ≡ true = ground arith in rw same refl

module _ {h h' : Heap} (x : Extends h h') where
  pub Made-Extends : (a : Slice) → Made h a → Made h' a
  Made-Extends none m = tt
  Made-Extends (some r) m = let a = x.more in omega arith

  held-Extends : (held : List ℕ) → All (λ r. r < h.used) held → All (λ r. r < h'.used) held
  held-Extends held = All-map (λ r lt. let a = x.more in omega arith) held

  -- A fresh slice is given to a caller.
  pub hold_made :
      (a : Slice) (held : List ℕ)
      → Fresh h h' a
      → All (λ r. r < h.used) held
      → All (λ r. r < h'.used) (hold a held)
  hold_made none held f made = held-Extends held made
  hold_made (some r) held f made = (f.1, held-Extends held made)

  Private-hold :
      (a b : Slice) (held : List ℕ) → Fresh h h' a → Private h held b → Private h' (hold a held) b
  Private-hold a none held f p = tt
  Private-hold none (some r) held f p = (let a = x.more in omega (arith, p.0), p.1)
  Private-hold (some q) (some r) held f p =
      (let a = x.more in omega (arith, p.0), (ground (arith, f.0, p.0), p.1))

  pub Own-hold :
      (a : Slice) (held : List ℕ) (m : List (Bytes × SliceEntry))
      → Fresh h h' a
      → All (Own h held) m
      → All (Own h' (hold a held)) m
  Own-hold a held m f = All-map (λ (k, e) p. Private-hold a e.addrs held f p) m

  contents-Extends : (held : List ℕ) (a : Slice) → Private h held a → contents h a ≡ contents h' a
  contents-Extends held none p = refl
  contents-Extends held (some r) p = x.same r p.0

  pub view_entries-Extends :
      (held : List ℕ) (m : List (Bytes × SliceEntry))
      → All (Own h held) m
      → view_entries h m ≡ view_entries h' m
  view_entries-Extends held m own =
      view_entries-agree h h' m (All-map (λ (k, e) p. contents-Extends held e.addrs p) m own)
