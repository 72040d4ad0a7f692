-- ===== src/Cache/Queue/Idle.antt =====
-- When `push_queue_claim_next` returns no job.
use smfs.Prelude.{ℕ, true, false, none, some, ◌≡◌, arith, ◌↔◌, is_some, inl, inr, Option-cases}
use smfs.Prelude.Eq.{Text, text_eq}
use smfs.Prelude.Map.{get, AllValues-get}
use smfs.Cache.Queue.{Row, PushQueue, claimable, next_row, claim_next}
use smfs.Cache.Queue.Keys.{HasUniqueRows}
use smfs.Cache.Queue.Ops.{AllValidOps, HasValidOps}
use smfs.Cache.Queue.Claim.{next_row-IsEarliest, next_row-eq-none}

abbrev pub NothingClaimable : ℕ → PushQueue → Type 0
NothingClaimable now q = (fp : Text) (r : Row) → get fp q.rows ≡ some r → claimable now r ≡ false

claim_next-next_row :
    (now : ℕ) (q : PushQueue) (fp : Text) (r : Row)
    → HasUniqueRows q
    → AllValidOps q
    → next_row now q.rows ≡ some (fp, r)
    → is_some (claim_next now q).1 ≡ true
unfolding claim_next claimable
claim_next-next_row now q fp r u v e =
    let first = next_row-IsEarliest now q.rows fp r u e in
    ground (arith, first.found, first.ready, AllValues-get HasValidOps fp r q.rows first.found v)

-- With one row for each filepath and valid texts in the `op` columns, the worker gets no job
-- exactly when no row is claimable.
pub claim_next-eq-none_iff :
    (now : ℕ) (q : PushQueue)
    → HasUniqueRows q
    → AllValidOps q
    → ((claim_next now q).1 ≡ none) ↔ NothingClaimable now q
unfolding claim_next
claim_next-eq-none_iff now q u v = elim (Option-cases (next_row now q.rows)) [
  | inl idle ↦ (λ e fp r g. next_row-eq-none now q.rows fp r idle g, λ h. ground arith)
  | inr ((fp, r), found) ↦
      let first = next_row-IsEarliest now q.rows fp r u found in
      let some_job = claim_next-next_row now q fp r u v found in
      (λ e. absurd (ground arith), λ h. absurd (ground (arith, h fp r, first.found, first.ready)))
]
