-- ===== src/Cache/Hydration/Order.antt =====
-- In which order keys are fetched, and when a fetch is repeated
-- (crates/smfs-core/src/cache/hydration.rs).
use smfs.Prelude.{
  ℕ, zero, suc, ◌-◌, ◌<◌, some, List, [], ◌∷◌, ◌≡◌, refl, ap, ◌∙◌, arith, inl, inr, Bool-cases, ltb,
  take, drop,
}
use smfs.Prelude.Eq.{beq_refl}
use smfs.Prelude.Map.{Map, get, insert, remove}
use smfs.Cache.Hydration.{
  HydrationKey, key_eq, key_beq, Inner, retain, enqueue, claim_next, complete,
}
use smfs.Cache.Hydration.Calls.{claims, after_claims}

take_nil : (m : ℕ) → take {A = HydrationKey} m [] ≡ []
take_nil zero = refl
take_nil (suc m) = refl

drop_nil : (m : ℕ) → drop {A = HydrationKey} m [] ≡ []
drop_nil zero = refl
drop_nil (suc m) = refl

claims-queue :
    (n : ℕ) (q : List HydrationKey) (s : Inner)
    → (claims n (record s { queue = q }) ≡ take n q)
      × ((after_claims n (record s { queue = q })).queue ≡ drop n q)
unfolding claim_next
claims-queue zero q s = (refl, refl)
claims-queue (suc n) [] s = let ih = claims-queue n [] s in (ih.0 ∙ take_nil n, ih.1 ∙ drop_nil n)
claims-queue (suc n) (key ∷ rest) s =
    let next : Inner = record s {
      pending = remove key s.pending;
      inflight = insert key tt s.inflight;
    } in
    let ih = claims-queue n rest next in (ap (λ ks. key ∷ ks) ih.0, ih.1)

-- Claims return the queued keys from the front, in the order in which they were enqueued, and leave
-- the others in that order.
pub claims_in_order :
    (n : ℕ) (s : Inner)
    → (claims n s ≡ take n s.queue) × ((after_claims n s).queue ≡ drop n s.queue)
claims_in_order n s = claims-queue n s.queue s

get-retain :
    (now ttl : ℕ) (k : HydrationKey) (t : ℕ) (recent : Map HydrationKey ℕ)
    → now - t < ttl
    → get k (retain now ttl (insert k t recent)) ≡ some t
unfolding retain get insert
get-retain now ttl k t [] young = ground (arith, beq_refl k)
get-retain now ttl k t ((j, u) ∷ rest) young =
    let ih = get-retain now ttl k t rest young in
    elim (Bool-cases (key_beq j k)) [
      | inl same ↦ rw same (ground (arith, beq_refl k))
      | inr other ↦ rw other (elim (Bool-cases (ltb (now - u) ttl)) [
        | inl kept ↦ rw (kept, other) ih
        | inr dropped ↦ rw dropped ih
      ])
    ]

-- A key whose fetch has completed less than the time to live ago is not enqueued again.
pub enqueue_after_complete :
    (key : HydrationKey) (done now ttl : ℕ) (s : Inner)
    → now - done < ttl
    → (enqueue key now ttl (complete key done s)).queue ≡ s.queue
unfolding enqueue complete
enqueue_after_complete key done now ttl s young =
    rw (get-retain now ttl key done s.recent young) refl
