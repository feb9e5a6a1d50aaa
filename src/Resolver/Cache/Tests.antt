-- ===== src/Resolver/Cache/Tests.antt =====
-- Runs of the theorems on the cache (dns/resolver/cache.go).
use spoof_dpi_turkiye.Prelude.{
  bytes, ℕ, ◌≤◌, ◌≡◌, ◌≢◌, refl, inl, inr, List, [], ◌∷◌, none, some, arith, Bytes, bytes_eq,
  bytes_eq_symm, length, All, find, delete, Distinct, Bool-cases, bytes_eq_refl, All-map,
}
use spoof_dpi_turkiye.AddrSelect.Ip.{IpAddr}
use spoof_dpi_turkiye.Resolver.Answer.{upstream, Answer, answer}
use spoof_dpi_turkiye.Resolver.Cache.{
  CacheEntry, MapRange, Absent, DistinctKeys, new_cache, begin, entry_of, join_or_lead,
}
use spoof_dpi_turkiye.Resolver.Cache.Machine.{
  Machine, start, arrive, complete, arrives, completes, Reach, here, next,
}
use spoof_dpi_turkiye.Resolver.Cache.Machine.Coalesce.{Reach-single, Reach-bounded}
use spoof_dpi_turkiye.Resolver.Cache.Machine.Waiting.{Awaits, Reach-waiting}

abbrev one : IpAddr
one = record { ip = 1 ∷ 1 ∷ 1 ∷ 1 ∷ []; zone = [] }

abbrev host : Bytes
host = bytes "discord.com"

abbrev q_types : List ℕ
q_types = 28 ∷ 1 ∷ []

-- The order in which the keys were put in.
abbrev keys_of : List (Bytes × CacheEntry) → List Bytes
keys_of [] = []
keys_of ((k, e) ∷ m) = k ∷ keys_of m

keys_of-Absent :
    (k : Bytes) (m : List (Bytes × CacheEntry)) → find k m ≡ none → Absent k (keys_of m)
unfolding find
keys_of-Absent k [] h = tt
keys_of-Absent k ((j, e) ∷ m) h =
    (ground (arith, bytes_eq_symm k j), keys_of-Absent k m (ground arith))

keys_of-once : (m : List (Bytes × CacheEntry)) → Distinct m → DistinctKeys (keys_of m)
keys_of-once [] d = tt
keys_of-once ((k, e) ∷ m) d = (keys_of-Absent k m d.0, keys_of-once m d.1)

find_further :
    (k j : Bytes) (e : CacheEntry) (m : List (Bytes × CacheEntry))
    → find j m ≢ none
    → find j ((k, e) ∷ m) ≢ none
unfolding find
find_further k j e m h eq = elim (Bool-cases (bytes_eq k j)) [
  | inl same ↦ absurd (ground arith)
  | inr differ ↦ h (ground arith)
]

keys_of-present : (m : List (Bytes × CacheEntry)) → All (λ k. find k m ≢ none) (keys_of m)
unfolding find
keys_of-present [] = tt
keys_of-present ((k, e) ∷ m) = (
  (λ eq. absurd (ground (arith, bytes_eq_refl k))),
  All-map (λ j. find_further k j e m) (keys_of m) (keys_of-present m),
)

length-keys_of : (m : List (Bytes × CacheEntry)) → length (keys_of m) ≡ length m
length-keys_of [] = refl
length-keys_of ((k, e) ∷ m) = omega (arith, length-keys_of m)

pub in_order : MapRange
in_order = record {
  keys = keys_of;
  once = keys_of-once;
  present = λ m d. keys_of-present m;
  all = λ m d. length-keys_of m;
}

abbrev other_host : Bytes
other_host = bytes "gateway.discord.gg"

abbrev found_one : Answer
found_one = answer (one ∷ []) none

abbrev nothing : Answer
nothing = answer [] (some (upstream 3))

abbrev full : List (Bytes × CacheEntry)
full =
    (host, entry_of (new_cache 300 10 1) found_one 0)
    ∷ (other_host, entry_of (new_cache 300 10 1) nothing 0)
    ∷ []

full-Distinct : Distinct full
unfolding find
full-Distinct = (refl, (refl, tt))

-- One caller leads, and a second comes for another host.
abbrev led : Machine
led = arrive (arrive (start 300 10 1) host) other_host

led-Reach : Reach in_order (start 300 10 1) led
led-Reach = next (next here (arrives host)) (arrives other_host)

-- Both lookups end.
abbrev ended : Machine
ended =
    complete in_order (complete in_order led host 0 found_one 1 ((other_host, 1) ∷ [])) other_host 1
      nothing 1 []

ended-Reach : Reach in_order (start 300 10 1) ended
unfolding arrive start begin join_or_lead find complete delete
ended-Reach =
    next (next led-Reach (completes host 0 found_one 1 ((other_host, 1) ∷ []) [] refl))
      (completes other_host 1 nothing 1 [] [] refl)

Reach-single_example : Distinct led.running
Reach-single_example = Reach-single in_order 300 10 1 led-Reach

Reach-bounded_example : length ended.cache.entries ≤ (new_cache 300 10 1).max_size
Reach-bounded_example = Reach-bounded in_order 300 10 1 ended-Reach

-- A third caller joins the first.
abbrev joined : Machine
joined = arrive led host

joined-Reach : Reach in_order (start 300 10 1) joined
joined-Reach = next led-Reach (arrives host)

Reach-waiting_example : All (Awaits joined.running) joined.waiting
Reach-waiting_example = Reach-waiting in_order 300 10 1 joined-Reach
