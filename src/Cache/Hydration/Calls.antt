-- ===== src/Cache/Hydration/Calls.antt =====
-- Sequences of calls of the hydration scheduler (crates/smfs-core/src/cache/hydration.rs): the file
-- system enqueues, the worker claims and completes.
use smfs.Prelude.{ℕ, zero, suc, List, [], ◌∷◌, none, some}
use smfs.Cache.Hydration.{HydrationKey, Inner, enqueue, claim_next, complete}

pub data Call : Type 0 where
  miss done_with : HydrationKey → ℕ → Call
  claim : Call

abbrev pub step : ℕ → Call → Inner → Inner
step ttl (Call.miss key now) s = enqueue key now ttl s
step ttl Call.claim s = (claim_next s).0
step ttl (Call.done_with key now) s = complete key now s

abbrev pub run : ℕ → List Call → Inner → Inner
run ttl [] s = s
run ttl (c ∷ calls) s = run ttl calls (step ttl c s)

-- the keys of `n` claims in a row, of those that return one
abbrev pub claims : ℕ → Inner → List HydrationKey
claims zero s = []
claims (suc n) s =
    let rest = claims n (claim_next s).0 in
    elim (claim_next s).1 [ none ↦ rest | some key ↦ key ∷ rest ]

abbrev pub after_claims : ℕ → Inner → Inner
after_claims zero s = s
after_claims (suc n) s = after_claims n (claim_next s).0
