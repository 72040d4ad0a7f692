-- ===== src/Cache/Hydration/Invariant.antt =====
-- The three collections of the hydration scheduler (crates/smfs-core/src/cache/hydration.rs) agree.
use smfs.Prelude.{
  ℕ, ◌+◌, ◌≤◌, ◌||◌, List, [], ◌∷◌, ◌++◌, ◌≡◌, refl, arith, inl, inr, Bool-cases, is_some,
  if◌then◌else◌,
}
use smfs.Prelude.Eq.{◌==◌}
use smfs.Prelude.Map.{Map, get, get-insert, get-remove}
use smfs.Cache.Hydration.{
  HydrationKey, key_eq, key_beq_iff, Inner, empty, retain, enqueue, claim_head, claim_next,
  complete,
}
use smfs.Cache.Hydration.Calls.{Call, step, run}

-- how often a key is queued, and whether a set holds it
abbrev pub queued : HydrationKey → List HydrationKey → ℕ
queued k [] = 0
queued k (j ∷ rest) = (if j == k then 1 else 0) + queued k rest

abbrev pub held : HydrationKey → Map HydrationKey (Unit {0}) → ℕ
held k set = if is_some (get k set) then 1 else 0

-- Each key is queued at most once, and not while it is inflight; the pending set is the queue's.
abbrev pub IsScheduled : Inner → Type 0
IsScheduled s =
    (k : HydrationKey)
    → (queued k s.queue + held k s.inflight ≤ 1) × (held k s.pending ≡ queued k s.queue)

queued-append :
    (k : HydrationKey) (xs : List HydrationKey) (j : HydrationKey)
    → queued k (xs ++ j ∷ []) ≡ queued k xs + (if j == k then 1 else 0)
queued-append k [] j = omega arith
queued-append k (x ∷ xs) j = omega (arith, queued-append k xs j)

enqueue-IsScheduled :
    (key : HydrationKey) (now ttl : ℕ) (s : Inner)
    → IsScheduled s
    → IsScheduled (enqueue key now ttl s)
unfolding enqueue
enqueue-IsScheduled key now ttl s h k =
    elim (Bool-cases (is_some (get key (retain now ttl s.recent)))) [
      | inl seen ↦ rw seen (h k)
      | inr old ↦
          rw old (elim (Bool-cases (is_some (get key s.pending) || is_some (get key s.inflight))) [
            | inl busy ↦ rw busy (h k)
            | inr free ↦
                rw (free, queued-append k s.queue key, get-insert key k tt s.pending)
                  (ground (arith, h k, key_beq_iff key k))
          ])
    ]

claim_head-IsScheduled :
    (q : List HydrationKey) (s : Inner)
    → IsScheduled (record s { queue = q })
    → IsScheduled (claim_head q (record s { queue = q })).0
claim_head-IsScheduled [] s h k = h k
claim_head-IsScheduled (key ∷ rest) s h k =
    ground
      (arith, h k, key_beq_iff key k, get-remove key k s.pending, get-insert key k tt s.inflight)

complete-IsScheduled :
    (key : HydrationKey) (now : ℕ) (s : Inner) → IsScheduled s → IsScheduled (complete key now s)
unfolding complete
complete-IsScheduled key now s h k =
    ground (arith, h k, key_beq_iff key k, get-remove key k s.inflight)

step-IsScheduled : (ttl : ℕ) (c : Call) (s : Inner) → IsScheduled s → IsScheduled (step ttl c s)
unfolding claim_next
step-IsScheduled ttl (Call.miss key now) s h = enqueue-IsScheduled key now ttl s h
step-IsScheduled ttl Call.claim s h = claim_head-IsScheduled s.queue s h
step-IsScheduled ttl (Call.done_with key now) s h = complete-IsScheduled key now s h

run_from-IsScheduled :
    (ttl : ℕ) (calls : List Call) (s : Inner) → IsScheduled s → IsScheduled (run ttl calls s)
run_from-IsScheduled ttl [] s h = h
run_from-IsScheduled ttl (c ∷ calls) s h =
    run_from-IsScheduled ttl calls (step ttl c s) (step-IsScheduled ttl c s h)

-- After any sequence of misses, claims and completions on a new scheduler, each key is queued at
-- most once and never while a fetch of it is inflight, and the pending set holds exactly the keys
-- of the queue.
pub run-IsScheduled : (ttl : ℕ) (calls : List Call) → IsScheduled (run ttl calls empty)
unfolding get
run-IsScheduled ttl calls = run_from-IsScheduled ttl calls empty (λ k. (omega arith, refl))
