-- ===== src/Dns/Cached/Tests.antt =====
-- Runs of the theorems on cached answers (dns/dns.go with dns/resolver/cache.go).
use spoof_dpi_turkiye.Prelude.{bytes, ◌≡◌, refl, [], All, find, delete, Bytes}
use spoof_dpi_turkiye.Resolver.Answer.{Answer}
use spoof_dpi_turkiye.Resolver.Cache.{
  cache_key, type_bytes, hit, begin, finish, evict, join_or_lead,
}
use spoof_dpi_turkiye.Resolver.Cache.Machine.{
  Machine, start, arrive, complete, arrives, completes, Reach, here, next,
}
use spoof_dpi_turkiye.Resolver.Cache.Tests.{in_order}
use spoof_dpi_turkiye.Dns.Cached.{Raced}
use spoof_dpi_turkiye.Dns.Racing.Tests.{raced, raced-Reach}
use spoof_dpi_turkiye.Resolver.Chain.Machine as Racer
use spoof_dpi_turkiye.Proxy.Tests.{resolvers, wire, no_srcs, found}

abbrev pub key : Bytes
key = cache_key (bytes "a") resolvers.q_types

abbrev pub reply : Answer
reply = found.1 (bytes "a") resolvers.q_types

-- One caller has raced the upstreams, and the answer is in the cache.
abbrev pub filled : Machine
filled =
    complete in_order (arrive (start resolvers.pos_ttl resolvers.neg_ttl resolvers.max_size) key)
      key 0 reply 1 []

pub filled-Reach :
    Reach in_order (start resolvers.pos_ttl resolvers.neg_ttl resolvers.max_size) filled
unfolding arrive start begin join_or_lead find complete delete
filled-Reach = next (next here (arrives key)) (completes key 0 reply 1 [] [] refl)

pub filled-Raced : All (Raced wire no_srcs resolvers) filled.log
unfolding arrive start begin join_or_lead find complete delete cache_key type_bytes Racer.start
    Racer.report Racer.take_result
filled-Raced = ((bytes "a", refl, (raced, raced-Reach, refl)), tt)

pub served : begin filled.cache filled.clock key filled.next ≡ (filled.cache, hit reply)
unfolding arrive start begin join_or_lead find complete delete cache_key type_bytes finish evict
served = refl
