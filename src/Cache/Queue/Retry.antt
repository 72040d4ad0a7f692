-- ===== src/Cache/Queue/Retry.antt =====
-- Waiting: the debounce of a flush, and the backoff after a failed attempt.
use smfs.Prelude.{ℕ, ◌+◌, ◌≤◌, false, Option, some, ◌≡◌, arith}
use smfs.Prelude.Eq.{Text, text_eq, beq_refl}
use smfs.Cache.Noise.{is_macos_noise_path}
use smfs.Cache.Op.{PushOp, as_str-injective}
use smfs.Cache.Queue.{PushQueue, PushJob, claimable, claim_next, upsert, finalize_failure}
use smfs.Cache.Queue.Keys.{HasUniqueRows, upsert-HasUniqueRows, finalize_failure-HasUniqueRows}
use smfs.Cache.Queue.Effects.{get-upsert, get-finalize_failure}
use smfs.Cache.Queue.Claim.{claim_next-IsClaim}

-- After a failed attempt the filepath is not claimed before its backoff has elapsed.
pub claim_after_failure :
    (fp error : Text) (now backoff t : ℕ) (q q' : PushQueue) (job : PushJob)
    → HasUniqueRows q
    → claim_next t (finalize_failure fp error now backoff q) ≡ (q', some job)
    → job.filepath ≡ fp
    → now + backoff ≤ t
unfolding claimable
claim_after_failure fp error now backoff t q q' job u e same =
    let q₁ = finalize_failure fp error now backoff q in
    let (row, c) =
      claim_next-IsClaim t q₁ q' job (finalize_failure-HasUniqueRows fp error now backoff q u) e in
    ground (
      arith,
      c.earliest.found,
      c.earliest.ready,
      get-finalize_failure fp fp error now backoff q,
      beq_refl fp,
    )

-- A write that is enqueued for the time `wake` on a filepath that is not being sent is not claimed
-- before `wake`, whatever was queued for it: each flush starts the debounce again.
pub claim_after_upsert :
    (fp : Text) (op : PushOp) (ino : Option ℕ) (to id : Option Text) (wake t : ℕ) (q q' : PushQueue)
    (job : PushJob)
    → HasUniqueRows q
    → is_macos_noise_path fp ≡ false
    → claim_next t (upsert fp op ino to id wake q) ≡ (q', some job)
    → job.filepath ≡ fp
    → (wake ≤ t)
      × (job.op ≡ op)
      × (job.content_ino ≡ ino)
      × (job.rename_to ≡ to)
      × (job.attempt ≡ 0)
unfolding claimable
claim_after_upsert fp op ino to id wake t q q' job u real e same =
    let q₁ = upsert fp op ino to id wake q in
    let (row, c) =
      claim_next-IsClaim t q₁ q' job (upsert-HasUniqueRows fp op ino to id wake q u) e in
    ground (
      arith,
      c.earliest.found,
      c.earliest.ready,
      c.same_op,
      c.sends,
      as_str-injective job.op op,
      get-upsert fp fp op ino to id wake q real,
      beq_refl fp,
    )
