-- ===== src/Resolver/Cache/Slices/Tests.antt =====
-- Runs of the theorems on the slices of the cache (dns/resolver/cache.go).
use spoof_dpi_turkiye.Prelude.{◌+◌, ◌<◌, ◌≡◌, refl, [], ◌∷◌, some, none, Bytes, bytes, find, delete}
use spoof_dpi_turkiye.Resolver.Answer.{Answer, answer}
use spoof_dpi_turkiye.Resolver.Cache.{new_cache, answer_of, entry_of, ttl_of}
use spoof_dpi_turkiye.Resolver.Cache.Machine.{Finished, Reach, start, still_waiting}
use spoof_dpi_turkiye.Resolver.Cache.Machine.Served.{In}
use spoof_dpi_turkiye.Resolver.Cache.Tests.{in_order}
use spoof_dpi_turkiye.Resolver.Cache.Slices.{
  Memory, Returned, clone_addrs, write_array, enter, evict_slices, settle, new_memory,
}
use spoof_dpi_turkiye.Resolver.Cache.Slices.Steps.{
  view, SliceReach, enters, settles, writes, begins, then_step,
}
use spoof_dpi_turkiye.Resolver.Cache.Slices.Served.{answer_in, Reach-view, Reach-cloned}

abbrev host : Bytes
host = bytes "discord.com"

abbrev found : Answer
found = answer (record { ip = 1 ∷ 2 ∷ 3 ∷ 4 ∷ []; zone = [] } ∷ []) none

abbrev led : Memory
led = (enter (new_memory 300 10 1) host).0

-- The caller that leads is given the upstream's slice.
abbrev ended : Memory
ended = settle in_order led host 0 found 1 []

-- It writes into this slice.
abbrev written : Memory
written = record ended { heap = write_array ended.heap 0 [] }

written-Reach : SliceReach in_order (new_memory 300 10 1) written
unfolding new_memory enter find delete settle clone_addrs evict_slices still_waiting
written-Reach =
    then_step (then_step (then_step begins (enters host)) (settles host 0 found 1 [] [] refl))
      (writes 0 [] [] [] refl)

Reach-view_example : Reach in_order (start 300 10 1) (view written)
Reach-view_example = Reach-view in_order 300 10 1 written-Reach

-- A second caller is given a copy of what is stored.
abbrev copied : Memory
copied = (enter written host).0

abbrev copy : Returned
copy = (some 2, none)

enter-written : enter written host ≡ (copied, some copy)
unfolding new_memory enter find delete settle clone_addrs evict_slices still_waiting
enter-written = refl

answer_in-copied : answer_in (copied, copy) ≡ found
unfolding new_memory enter find delete settle clone_addrs evict_slices still_waiting
answer_in-copied = refl

Reach-cloned_example :
    (d : Finished) × In d written.log
    × (d.key ≡ host)
    × (answer_in (copied, copy) ≡ answer_of (entry_of (new_cache 300 10 1) d.answer d.time))
    × (written.clock < d.time + ttl_of (new_cache 300 10 1) d.answer)
Reach-cloned_example = Reach-cloned in_order 300 10 1 host copy written-Reach enter-written
