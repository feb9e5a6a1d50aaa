-- ===== src/Resolver/Cache/Stored.antt =====
-- A caller behind a lookup that has ended (dns/resolver/cache.go).
use spoof_dpi_turkiye.Prelude.{
  ℕ, ◌+◌, ◌<◌, ◌≡◌, true, arith, Bytes, bytes_eq_refl, length, find, put, length-delete-le, leb,
  le→leb, lt→ltb,
}
use spoof_dpi_turkiye.Resolver.Answer.{Answer}
use spoof_dpi_turkiye.Resolver.Cache.{
  Cache, MapRange, hit, answer_of, ttl_of, entry_of, evict, begin, finish,
}

-- While the cache has fewer entries than its maximum size, a lookup that ends with an answer
-- of positive term is stored: a caller for the same key at a time before the term is over gets
-- that answer from the cache, and the cache does not change.
pub begin-finish :
    (range : MapRange) (c : Cache) (key : Bytes) (r : Answer) (now later t p : ℕ)
    → length c.entries < c.max_size
    → 0 < ttl_of c r
    → t < now + ttl_of c r
    → begin (finish range c key r now later) t key p
      ≡ (finish range c key r now later, hit (answer_of (entry_of c r now)))
unfolding begin finish evict find
begin-finish range c key r now later t p room term early =
    let fits : leb (length (put key (entry_of c r now) c.entries)) c.max_size ≡ true =
      le→leb _ _ (omega (arith, length-delete-le key c.entries)) in
    rw (lt→ltb 0 (ttl_of c r) term, fits)
      (ground (arith, bytes_eq_refl key, lt→ltb t (now + ttl_of c r) early))
