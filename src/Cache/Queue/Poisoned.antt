-- ===== src/Cache/Queue/Poisoned.antt =====
-- Rows that the server has rejected.
use smfs.Prelude.{
  ℕ, Bool, true, false, Option, none, some, List, [], ◌∷◌, ◌≡◌, ◌≢◌, refl, arith, inl, inr,
  Option-cases, Bool-cases, All,
}
use smfs.Prelude.Eq.{Text, text_eq, text_beq_iff, beq_refl}
use smfs.Prelude.Map.{get, update, remove, get-remove, get-update, UniqueKeys-remove}
use smfs.Cache.Op.{PushOp}
use smfs.Cache.Noise.{is_macos_noise_path}
use smfs.Cache.Queue.{
  Row, PushQueue, PushJob, rebind, claimable, upsert, retarget_pending_create, claim_next,
  set_remote_id, finalize_failure, drop_row, poison, forget_remote_id, start, next_row,
}
use smfs.Cache.Queue.Trace.{Call, step, run}
use smfs.Cache.Queue.Keys.{HasUniqueRows, step-HasUniqueRows, get-rekey}
use smfs.Cache.Queue.Effects.{get-upsert, get-finalize_success}
use smfs.Cache.Queue.Claim.{claim_next-IsClaim}

abbrev poisoned_row : Option Row → Bool
poisoned_row none = false
poisoned_row (some r) = r.poisoned

abbrev pub IsPoisoned : Text → PushQueue → Type 0
IsPoisoned fp q = poisoned_row (get fp q.rows) ≡ true

-- The calls that leave the row of `fp` in the table: no end of a job of `fp`, which the worker
-- reports only for a job that it has claimed, and no rename from or to `fp`.
abbrev pub Spares : Text → Call → Type 0
Spares fp (Call.retarget_pending_create old new id now) = (old ≢ fp) × (new ≢ fp)
Spares fp (Call.finalize_success k now) = k ≢ fp
Spares fp (Call.drop_row k) = k ≢ fp
Spares fp _ = Unit

upsert-IsPoisoned :
    (fp k : Text) (op : PushOp) (ino : Option ℕ) (to id : Option Text) (now : ℕ) (q : PushQueue)
    → IsPoisoned fp q
    → IsPoisoned fp (upsert k op ino to id now q)
upsert-IsPoisoned fp k op ino to id now q p = elim (Bool-cases (is_macos_noise_path k)) [
  | inl noise ↦ unfold upsert in ground arith
  | inr real ↦ ground (arith, get-upsert k fp op ino to id now q real, text_beq_iff k fp)
]

retarget-IsPoisoned :
    (fp old new : Text) (id : Option Text) (now : ℕ) (q : PushQueue)
    → HasUniqueRows q
    → old ≢ fp
    → new ≢ fp
    → IsPoisoned fp q
    → IsPoisoned fp (retarget_pending_create old new id now q).0
unfolding retarget_pending_create
retarget-IsPoisoned fp old new id now q u a b p = ground (
  arith,
  UniqueKeys-remove new q.rows u,
  get-remove new new q.rows,
  get-remove new fp q.rows,
  beq_refl new,
  text_beq_iff new fp,
  text_beq_iff old fp,
  get-rekey old new fp (rebind id now) (remove new q.rows),
)

update-IsPoisoned :
    (fp k : Text) (f : Row → Row) (q : PushQueue) (n : Bool)
    → ((r : Row) → r.poisoned ≡ true → (f r).poisoned ≡ true)
    → IsPoisoned fp q
    → IsPoisoned fp (record { rows = update k f q.rows; notified = n })
update-IsPoisoned fp k f q n keep p = elim (Option-cases (get fp q.rows)) [
  | inl missing ↦ absurd (ground arith)
  | inr (r, found) ↦ ground (arith, get-update k fp f q.rows, keep r)
]

claim_next-IsPoisoned :
    (fp : Text) (now : ℕ) (q : PushQueue) → IsPoisoned fp q → IsPoisoned fp (claim_next now q).0
unfolding claim_next
claim_next-IsPoisoned fp now q p = elim (Option-cases (next_row now q.rows)) [
  | inl idle ↦ ground arith
  | inr ((k, r), found) ↦ ground (arith, update-IsPoisoned fp k (start now) q q.notified (λ r p. p))
]

step-IsPoisoned :
    (fp : Text) (c : Call) (q : PushQueue)
    → HasUniqueRows q
    → Spares fp c
    → IsPoisoned fp q
    → IsPoisoned fp (step c q)
unfolding step set_remote_id finalize_failure drop_row poison forget_remote_id
step-IsPoisoned fp (Call.upsert k op ino to id now) q u s p =
    upsert-IsPoisoned fp k op ino to id now q p
step-IsPoisoned fp (Call.retarget_pending_create old new id now) q u s p =
    retarget-IsPoisoned fp old new id now q u s.0 s.1 p
step-IsPoisoned fp (Call.claim_next now) q u s p = claim_next-IsPoisoned fp now q p
step-IsPoisoned fp (Call.set_remote_id k id) q u s p =
    update-IsPoisoned fp k _ q q.notified (λ r p. p) p
step-IsPoisoned fp (Call.finalize_success k now) q u s p =
    ground (arith, get-finalize_success k fp now q, text_beq_iff k fp)
step-IsPoisoned fp (Call.finalize_failure k error now backoff) q u s p =
    update-IsPoisoned fp k _ q q.notified (λ r p. p) p
step-IsPoisoned fp (Call.drop_row k) q u s p =
    ground (arith, get-remove k fp q.rows, text_beq_iff k fp)
step-IsPoisoned fp (Call.poison k status reason now) q u s p =
    update-IsPoisoned fp k _ q q.notified (λ r p. refl) p
step-IsPoisoned fp (Call.forget_remote_id k) q u s p =
    update-IsPoisoned fp k _ q q.notified (λ r p. p) p

run-IsPoisoned :
    (fp : Text) (calls : List Call) (q : PushQueue)
    → HasUniqueRows q
    → All (Spares fp) calls
    → IsPoisoned fp q
    → HasUniqueRows (run calls q) × IsPoisoned fp (run calls q)
unfolding run
run-IsPoisoned fp [] q u s p = (u, p)
run-IsPoisoned fp (c ∷ calls) q u s p =
    run-IsPoisoned fp calls (step c q) (step-HasUniqueRows c q u) s.1
      (step-IsPoisoned fp c q u s.0 p)

-- Once a row is poisoned, no sequence of calls that neither ends a job of its filepath nor renames
-- from or to it makes the row claimable: enqueueing the file again, any number of times and at any
-- later time, never sends it.
pub poisoned_never_sent :
    (fp : Text) (calls : List Call) (q q' : PushQueue) (now : ℕ) (job : PushJob)
    → HasUniqueRows q
    → All (Spares fp) calls
    → IsPoisoned fp q
    → claim_next now (run calls q) ≡ (q', some job)
    → job.filepath ≢ fp
poisoned_never_sent fp calls q q' now job u s p e same =
    let (u', p') = run-IsPoisoned fp calls q u s p in
    let (row, c) = claim_next-IsClaim now (run calls q) q' job u' e in
    unfold claimable in ground (arith, c.earliest.found, c.earliest.ready)
