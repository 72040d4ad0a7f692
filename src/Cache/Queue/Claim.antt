-- ===== src/Cache/Queue/Claim.antt =====
-- `push_queue_claim_next`: which row the worker gets.
use smfs.Prelude.{ℕ, ◌≤◌, true, false, none, some, ◌∷◌, [], ◌≡◌, ◌≢◌, arith, inl, inr, Option-cases}
use smfs.Prelude.Eq.{Text, text_eq, text_beq_iff}
use smfs.Prelude.Map.{Map, get, update, get-update, UniqueKeys}
use smfs.Cache.Op.{as_str, parse_iff}
use smfs.Cache.Queue.{Row, PushQueue, PushJob, claimable, next_row, claim_next, start, job_of}
use smfs.Cache.Queue.Keys.{HasUniqueRows}

-- `r`, under `fp`, is claimable, and no claimable row has an earlier time.
pub record IsEarliest (now : ℕ) (rows : Map Text Row) (fp : Text) (r : Row) : Type 0 where
  pub found : get fp rows ≡ some r
  pub ready : claimable now r ≡ true
  pub first :
      (k : Text) (s : Row)
      → get k rows ≡ some s
      → claimable now s ≡ true
      → r.updated_at ≤ s.updated_at

pub next_row-eq-none :
    (now : ℕ) (rows : Map Text Row) (k : Text) (s : Row)
    → next_row now rows ≡ none
    → get k rows ≡ some s
    → claimable now s ≡ false
unfolding next_row get
next_row-eq-none now [] k s e g = cc
next_row-eq-none now ((fp, r) ∷ rows) k s e g = ground (arith, next_row-eq-none now rows k s)

pub next_row-IsEarliest :
    (now : ℕ) (rows : Map Text Row) (fp : Text) (r : Row)
    → UniqueKeys rows
    → next_row now rows ≡ some (fp, r)
    → IsEarliest now rows fp r
unfolding next_row get
next_row-IsEarliest now [] fp r u e = cc
next_row-IsEarliest now ((fp', r') ∷ rows) fp r u e = elim (Option-cases (next_row now rows)) [
  | inl idle ↦ record {
    found = ground (arith, text_beq_iff fp' fp);
    ready = ground arith;
    first = λ k s g c. ground (arith, next_row-eq-none now rows k s idle, text_beq_iff fp' k);
  }
  | inr ((fp'', r''), e') ↦
      let ih = next_row-IsEarliest now rows fp'' r'' u.1 e' in
      record {
        found = ground (arith, text_beq_iff fp' fp, ih.found, u.0);
        ready = ground (arith, ih.ready);
        first = λ k s g c. ground (arith, ih.first k s, text_beq_iff fp' k);
      }
]

claimable-elim :
    (now : ℕ) (r : Row)
    → claimable now r ≡ true
    → (r.inflight_started_at ≡ none) × (r.poisoned ≡ false) × (r.updated_at ≤ now)
unfolding claimable
claimable-elim now r h = elim (Option-cases r.inflight_started_at) [
  | inl idle ↦ ground (arith, idle)
  | inr (t, busy) ↦ absurd (ground (arith, busy))
]

-- What a claim does: the job is the earliest claimable row, that row is now being sent, and every
-- other row is as it was.
pub record IsClaim (now : ℕ) (q q' : PushQueue) (job : PushJob) (row : Row) : Type 0 where
  pub earliest : IsEarliest now q.rows job.filepath row
  pub idle : row.inflight_started_at ≡ none
  pub healthy : row.poisoned ≡ false
  pub due : row.updated_at ≤ now
  pub same_op : row.op ≡ as_str job.op
  pub sends : job ≡ job_of job.filepath job.op row
  pub updated : q'.rows ≡ update job.filepath (start now) q.rows
  pub started : get job.filepath q'.rows ≡ some (start now row)
  pub others : (k : Text) → k ≢ job.filepath → get k q'.rows ≡ get k q.rows

-- On a queue with one row for each filepath, a claim that returns a job returns the earliest row
-- that is neither inflight nor poisoned nor waiting, marks it inflight, and changes no other row.
pub claim_next-IsClaim :
    (now : ℕ) (q q' : PushQueue) (job : PushJob)
    → HasUniqueRows q
    → claim_next now q ≡ (q', some job)
    → (row : Row) × IsClaim now q q' job row
unfolding claim_next
claim_next-IsClaim now q q' job u e = elim (Option-cases (next_row now q.rows)) [
  | inl idle ↦ absurd (ground arith)
  | inr ((fp, r), found) ↦
      let ih = next_row-IsEarliest now q.rows fp r u found in
      let claim = claimable-elim now r ih.ready in
      let same : job.filepath ≡ fp = ground (arith, ih.found) in
      (
        r,
        record {
          earliest = rw same ih;
          idle = claim.0;
          healthy = claim.1;
          due = claim.2;
          same_op = ground (arith, parse_iff r.op job.op, ih.found);
          sends = ground (arith, ih.found);
          updated = ground (arith, ih.found);
          started =
              ground (arith, ih.found, get-update fp fp (start now) q.rows, text_beq_iff fp fp);
          others = λ k ne.
              ground (arith, ih.found, get-update fp k (start now) q.rows, text_beq_iff fp k);
        },
      )
]
