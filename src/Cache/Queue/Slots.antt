-- ===== src/Cache/Queue/Slots.antt =====
-- Latest-wins coalescing: the main and the pending slot of a row.
use mathlib.Core.Option
use smfs.Prelude.{
  ℕ, true, false, Option, none, some, ◌≡◌, arith, inl, inr, Option-cases, if◌then◌else◌,
}
use smfs.Prelude.Eq.{Text, text_eq, beq_refl, ◌==◌}
use smfs.Prelude.Map.{get}
use smfs.Cache.Noise.{is_macos_noise_path}
use smfs.Cache.Op.{PushOp, as_str, as_str-injective}
use smfs.Cache.Queue.{
  Row, PushQueue, PushJob, is_inflight, inflight_at, upsert, claim_next, finalize_success,
  finalize_failure,
}
use smfs.Cache.Queue.Keys.{HasUniqueRows, upsert-HasUniqueRows, finalize_failure-HasUniqueRows}
use smfs.Cache.Queue.Effects.{get-upsert, get-finalize_success, get-finalize_failure}
use smfs.Cache.Queue.Claim.{claim_next-IsClaim}

-- What is to be sent for a filepath.
pub record Write : Type 0 where
  pub op : Text
  pub content_ino : Option ℕ
  pub rename_to : Option Text

-- the pending slot where it is filled, else the main one
abbrev pub newest : Row → Write
newest r = elim r.pending_op [
  | none ↦ record { op = r.op; content_ino = r.content_ino; rename_to = r.rename_to }
  | some op ↦ record {
    op = op;
    content_ino = r.pending_content_ino;
    rename_to = r.pending_rename_to;
  }
]

abbrev pub queued : Text → PushQueue → Option Write
queued fp q = Option.map newest (get fp q.rows)

-- Only a row that is being sent has a filled pending slot.
abbrev pub IsSettled : Row → Type 0
IsSettled r = is_inflight r ≡ false → r.pending_op ≡ none

-- An enqueued write is the newest of its filepath, if a pending slot is filled only while the row
-- is being sent; what is queued for other filepaths stays.
pub queued-upsert :
    (fp k : Text) (op : PushOp) (ino : Option ℕ) (to id : Option Text) (now : ℕ) (q : PushQueue)
    → is_macos_noise_path fp ≡ false
    → ((r : Row) → get fp q.rows ≡ some r → IsSettled r)
    → queued k (upsert fp op ino to id now q) ≡ (
        if fp == k
        then some (record { op = as_str op; content_ino = ino; rename_to = to })
        else queued k q)
queued-upsert fp k op ino to id now q real settled = elim (Option-cases (get fp q.rows)) [
  | inl missing ↦ ground (arith, get-upsert fp k op ino to id now q)
  | inr (r, found) ↦ ground (arith, get-upsert fp k op ino to id now q, settled r)
]

-- A write that was parked behind a failed attempt is sent after a newer one: with `fp` being sent,
-- a first write is parked, the attempt fails, a second write is enqueued, claimed and sent; then
-- the first write is what the queue holds for `fp`.
pub stale-overtakes :
    (fp : Text) (q q' : PushQueue) (op₁ op₂ : PushOp) (ino₁ ino₂ : Option ℕ)
    (to₁ to₂ id₁ id₂ : Option Text) (error : Text) (t₁ t₂ t₃ t₄ t₅ backoff : ℕ) (job : PushJob)
    → HasUniqueRows q
    → is_macos_noise_path fp ≡ false
    → inflight_at fp q.rows ≡ true
    → claim_next t₄ (
        upsert fp op₂ ino₂ to₂ id₂ t₃
          (finalize_failure fp error t₂ backoff (upsert fp op₁ ino₁ to₁ id₁ t₁ q)))
      ≡ (q', some job)
    → job.filepath ≡ fp
    → (job.op ≡ op₂)
      × (queued fp (finalize_success fp t₅ q')
          ≡ some (record { op = as_str op₁; content_ino = ino₁; rename_to = to₁ }))
stale-overtakes fp q q' op₁ op₂ ino₁ ino₂ to₁ to₂ id₁ id₂ error t₁ t₂ t₃ t₄ t₅ backoff job u real
      busy claim same =
    let q₁ = upsert fp op₁ ino₁ to₁ id₁ t₁ q in
    let q₂ = finalize_failure fp error t₂ backoff q₁ in
    let q₃ = upsert fp op₂ ino₂ to₂ id₂ t₃ q₂ in
    let (row, c) =
      claim_next-IsClaim t₄ q₃ q' job
        (upsert-HasUniqueRows fp op₂ ino₂ to₂ id₂ t₃ q₂ (
          finalize_failure-HasUniqueRows fp error t₂ backoff q₁
            (upsert-HasUniqueRows fp op₁ ino₁ to₁ id₁ t₁ q u)))
        claim in
    ground (
      arith,
      get-upsert fp fp op₁ ino₁ to₁ id₁ t₁ q,
      get-finalize_failure fp fp error t₂ backoff q₁,
      get-upsert fp fp op₂ ino₂ to₂ id₂ t₃ q₂,
      get-finalize_success fp fp t₅ q',
      beq_refl fp,
      c.earliest.found,
      c.same_op,
      c.started,
      as_str-injective job.op op₂,
    )
