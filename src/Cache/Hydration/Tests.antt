-- ===== src/Cache/Hydration/Tests.antt =====
-- The tests of hydration.rs, and the theorems at concrete inputs.
use smfs.Prelude.{List, [], ◌∷◌, ◌≡◌, refl}
use smfs.Prelude.Eq.{bytes}
use smfs.Prelude.Map.{get, insert, remove}
use smfs.Cache.Hydration.{
  HydrationKey, exact, prefix, Inner, empty, negative_ttl, retain, enqueue, complete, pending_len,
}
use smfs.Cache.Hydration.Calls.{Call, run}
use smfs.Cache.Hydration.Invariant.{IsScheduled, run-IsScheduled}

abbrev docs : HydrationKey
docs = prefix (bytes "/docs/")

abbrev file_a : HydrationKey
file_a = exact (bytes "/a.md")

abbrev misses : List Call
misses = Call.miss docs 0 ∷ Call.miss file_a 1 ∷ Call.miss docs 2 ∷ []

abbrev two_queued : Inner
two_queued = run negative_ttl misses empty

enqueue_dedupes : pending_len two_queued ≡ 2
unfolding enqueue retain get insert pending_len
enqueue_dedupes = refl

negative_ttl_expires :
    pending_len (enqueue file_a 5000000000 negative_ttl (complete file_a 1 empty)) ≡ 1
unfolding enqueue complete retain get insert remove pending_len
negative_ttl_expires = refl

run-IsScheduled_example : IsScheduled (run negative_ttl misses empty)
run-IsScheduled_example = run-IsScheduled negative_ttl misses
