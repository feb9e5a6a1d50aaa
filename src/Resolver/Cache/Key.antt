-- ===== src/Resolver/Cache/Key.antt =====
-- The keys of the cache (`cacheKey` of dns/resolver/cache.go).
use spoof_dpi_turkiye.Prelude.{
  ℕ, ◌*◌, ◌<◌, ◌≡◌, refl, ap, sym, ◌∙◌, List, [], ◌∷◌, ◌++◌, arith, Bytes, length, All, take, drop,
  take-append, drop-append, length-append,
}
use spoof_dpi_turkiye.Resolver.Cache.{type_bytes, cache_key}

length-type_bytes : (qs : List ℕ) → length (type_bytes qs) ≡ 2 * length qs
unfolding type_bytes
length-type_bytes [] = refl
length-type_bytes (q ∷ qs) = omega (arith, length-type_bytes qs)

-- Two splits of one list at one place are the same.
append-eq : (a b c d : Bytes) → length a ≡ length b → a ++ c ≡ b ++ d → (a ≡ b) × (c ≡ d)
append-eq a b c d e h = (
  sym (take-append a c) ∙ ap (take (length a)) h ∙ ap (λ n. take n (b ++ d)) e ∙ take-append b d,
  sym (drop-append a c) ∙ ap (drop (length a)) h ∙ ap (λ n. drop n (b ++ d)) e ∙ drop-append b d,
)

type_bytes_injective :
    (qs rs : List ℕ)
    → All (λ q. q < 65536) qs
    → All (λ q. q < 65536) rs
    → type_bytes qs ≡ type_bytes rs
    → qs ≡ rs
unfolding type_bytes
type_bytes_injective [] [] hq hr e = refl
type_bytes_injective [] (r ∷ rs) hq hr e = cc
type_bytes_injective (q ∷ qs) [] hq hr e = cc
type_bytes_injective (q ∷ qs) (r ∷ rs) hq hr e =
    ground (arith, type_bytes_injective qs rs hq.1 hr.1)

-- Two lookups with the same number of query types, all below 2^16, that have one cache key
-- have the same host and the same query types.
pub cache_key_injective :
    (host other : Bytes) (qs rs : List ℕ)
    → All (λ q. q < 65536) qs
    → All (λ q. q < 65536) rs
    → length qs ≡ length rs
    → cache_key host qs ≡ cache_key other rs
    → (host ≡ other) × (qs ≡ rs)
unfolding cache_key
cache_key_injective host other qs rs hq hr e h =
    let same : length host ≡ length other = omega (
      arith,
      ap length h,
      length-append host (type_bytes qs),
      length-append other (type_bytes rs),
      length-type_bytes qs,
      length-type_bytes rs,
    ) in
    let parts = append-eq host other (type_bytes qs) (type_bytes rs) same h in
    (parts.0, type_bytes_injective qs rs hq hr parts.1)
