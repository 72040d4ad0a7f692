-- ===== src/Cache/Queue/Effects.antt =====
-- The row that a push-queue operation leaves at a filepath, for proofs where the operation is shut.
use mathlib.Core.Option
use smfs.Prelude.{
  ℕ, ◌+◌, false, Option, none, some, ◌≡◌, arith, inl, inr, Option-cases, if◌then◌else◌,
}
use smfs.Prelude.Eq.{Text, text_eq, text_beq_iff, ◌==◌}
use smfs.Prelude.Map.{get, get-insert, get-remove, get-update}
use smfs.Cache.Noise.{is_macos_noise_path}
use smfs.Cache.Op.{PushOp, as_str}
use smfs.Cache.Queue.{
  Row, PushQueue, is_inflight, pending_at, fresh_row, park, coalesce, promote, upsert,
  finalize_success, finalize_failure,
}

-- the row of an enqueued filepath, from the row that was there
abbrev pub upserted : Text → Option ℕ → Option Text → Option Text → ℕ → Option Row → Row
upserted op ino to id now none = fresh_row op ino to id now
upserted op ino to id now (some r) =
    if is_inflight r then park op ino to now r else coalesce op ino to id now r

pub get-upsert :
    (fp k : Text) (op : PushOp) (ino : Option ℕ) (to id : Option Text) (now : ℕ) (q : PushQueue)
    → is_macos_noise_path fp ≡ false
    → get k (upsert fp op ino to id now q).rows ≡ (
        if fp == k then some (upserted (as_str op) ino to id now (get fp q.rows)) else get k q.rows)
unfolding upsert
get-upsert fp k op ino to id now q real = ground (
  arith,
  get-insert fp k (fresh_row (as_str op) ino to id now) q.rows,
  get-update fp k (park (as_str op) ino to now) q.rows,
  get-update fp k (coalesce (as_str op) ino to id now) q.rows,
  text_beq_iff fp k,
)

abbrev pub failed : Text → ℕ → Row → Row
failed error wake r = record r {
  inflight_started_at = none;
  attempt = r.attempt + 1;
  last_error = some error;
  updated_at = wake;
}

pub get-finalize_failure :
    (fp k error : Text) (now backoff : ℕ) (q : PushQueue)
    → get k (finalize_failure fp error now backoff q).rows
      ≡ (if fp == k then Option.map (failed error (now + backoff)) (get k q.rows) else get k q.rows)
unfolding finalize_failure
get-finalize_failure fp k error now backoff q =
    get-update fp k (failed error (now + backoff)) q.rows

abbrev pub succeeded : ℕ → Option Row → Option Row
succeeded now none = none
succeeded now (some r) = Option.map (λ op. promote op now r) r.pending_op

pub get-finalize_success :
    (fp k : Text) (now : ℕ) (q : PushQueue)
    → get k (finalize_success fp now q).rows
      ≡ (if fp == k then succeeded now (get fp q.rows) else get k q.rows)
unfolding finalize_success
get-finalize_success fp k now q = elim (Option-cases (pending_at fp q.rows)) [
  | inl bare ↦ ground (arith, get-remove fp k q.rows, text_beq_iff fp k)
  | inr (op, parked) ↦ ground (arith, get-update fp k (promote op now) q.rows, text_beq_iff fp k)
]
