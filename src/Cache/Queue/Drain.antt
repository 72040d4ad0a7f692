-- ===== src/Cache/Queue/Drain.antt =====
-- Emptying the push queue, as an unmount waits for (`push_queue_len` of crates/smfs-core/src/cache/db.rs):
-- each claimed job succeeds.
use mathlib.Core.Path.{subst}
use smfs.Prelude.{
  ℕ, zero, suc, ◌+◌, ◌*◌, ◌≤◌, ◌<◌, true, Option, none, some, List, [], ◌∷◌, ◌≡◌, refl, arith, ap,
  sym, inl, inr, Option-cases, is_some, if◌then◌else◌, length,
}
use smfs.Prelude.Eq.{Text, text_eq, text_beq_iff, beq_refl, ◌==◌}
use smfs.Prelude.Map.{
  Map, get, update, get-update, remove, get-remove, UniqueKeys, AllValues, AllValues-update,
  AllValues-remove,
}
use smfs.Cache.Queue.{
  Row, PushQueue, PushJob, claimable, start, promote, claim_next, finalize_success, queue_len,
}
use smfs.Cache.Queue.Trace.{Call, step}
use smfs.Cache.Queue.Keys.{HasUniqueRows, step-HasUniqueRows}
use smfs.Cache.Queue.Ops.{AllValidOps, step-AllValidOps}
use smfs.Cache.Queue.Claim.{claim_next-IsClaim}
use smfs.Cache.Queue.Idle.{claim_next-eq-none_iff}

-- the requests that a row still wants
abbrev pub sends : Row → ℕ
sends r = if is_some r.pending_op then 2 else 1

abbrev pub work : Map Text Row → ℕ
work [] = 0
work ((fp, r) ∷ rows) = sends r + work rows

-- the requests that the row at a filepath still wants
abbrev pub sends_at : Text → Map Text Row → ℕ
sends_at fp rows = elim (get fp rows) [ none ↦ 0 | some r ↦ sends r ]

-- how many jobs are for a filepath
abbrev pub jobs_for : Text → List PushJob → ℕ
jobs_for fp [] = 0
jobs_for fp (job ∷ jobs) =
    let others = jobs_for fp jobs in if job.filepath == fp then others + 1 else others

abbrev op_or : Option Text → Text
op_or none = []
op_or (some op) = op

-- Claim and finish jobs until none is left; the jobs in the order of their requests.
unfoldable pub drain : ℕ → ℕ → PushQueue → List PushJob × PushQueue
drain zero now q = ([], q)
drain (suc fuel) now q =
    let (q', claimed) = claim_next now q in
    elim claimed [
      | none ↦ ([], q')
      | some job ↦
          let rest = drain fuel now (finalize_success job.filepath now q') in (job ∷ rest.0, rest.1)
    ]

-- A queue whose rows can all be sent at `now`.
pub record IsReady (now : ℕ) (q : PushQueue) : Type 0 where
  pub unique : HasUniqueRows q
  pub valid : AllValidOps q
  pub ready : AllValues (λ r. claimable now r ≡ true) q.rows

work-update :
    (fp : Text) (f : Row → Row) (r : Row) (rows : Map Text Row)
    → get fp rows ≡ some r
    → work (update fp f rows) + sends r ≡ work rows + sends (f r)
unfolding get update
work-update fp f r [] g = cc
work-update fp f r ((k, s) ∷ rows) g = ground (arith, work-update fp f r rows)

remove-absent : (fp : Text) (rows : Map Text Row) → get fp rows ≡ none → remove fp rows ≡ rows
unfolding get remove
remove-absent fp [] g = refl
remove-absent fp ((k, s) ∷ rows) g = ground (arith, remove-absent fp rows)

work-remove :
    (fp : Text) (r : Row) (rows : Map Text Row)
    → UniqueKeys rows
    → get fp rows ≡ some r
    → work (remove fp rows) + sends r ≡ work rows
unfolding get remove
work-remove fp r [] u g = cc
work-remove fp r ((k, s) ∷ rows) u g =
    ground (arith, work-remove fp r rows u.1, remove-absent fp rows, text_beq_iff k fp, u.0)

update-update :
    (fp : Text) (f g : Row → Row) (rows : Map Text Row)
    → update fp g (update fp f rows) ≡ update fp (λ r. g (f r)) rows
unfolding update
update-update fp f g [] = refl
update-update fp f g ((k, s) ∷ rows) = ground (arith, update-update fp f g rows)

remove-update :
    (fp : Text) (f : Row → Row) (rows : Map Text Row)
    → UniqueKeys rows
    → remove fp (update fp f rows) ≡ remove fp rows
unfolding update remove
remove-update fp f [] u = refl
remove-update fp f ((k, s) ∷ rows) u = ground (arith, remove-update fp f rows u.1)

-- One job of the row `r` at `fp`, claimed and finished.
module _ (now : ℕ) (q q' : PushQueue) (fp : Text) (r : Row) (found : get fp q.rows ≡ some r) where
  served : Option Text → Map Text Row
  served none = remove fp q.rows
  served (some op) = update fp (λ s. promote op now (start now s)) q.rows

  serve-rows :
      UniqueKeys q.rows
      → q'.rows ≡ update fp (start now) q.rows
      → (finalize_success fp now q').rows ≡ served r.pending_op
  unfolding finalize_success served
  serve-rows u e = ground (
    arith,
    get-update fp fp (start now) q.rows,
    beq_refl fp,
    remove-update fp (start now) q.rows u,
    update-update fp (start now) (λ (s : Row). promote (op_or r.pending_op) now s) q.rows,
  )

  serve-work : UniqueKeys q.rows → work (served r.pending_op) + 1 ≡ work q.rows
  unfolding served
  serve-work u = ground (
    arith,
    work-remove fp r q.rows u found,
    work-update fp (λ (s : Row). promote (op_or r.pending_op) now (start now s)) r q.rows found,
  )

  serve-sends_at :
      (k : Text) → sends_at k (served r.pending_op) + (if fp == k then 1 else 0) ≡ sends_at k q.rows
  unfolding served
  serve-sends_at k = ground (
    arith,
    found,
    text_beq_iff fp k,
    get-remove fp k q.rows,
    get-update fp k (λ (s : Row). promote (op_or r.pending_op) now (start now s)) q.rows,
  )

  serve-AllValues :
      (P : Row → Type 0) (o : Option Text)
      → AllValues P q.rows
      → ((op : Text) (s : Row) → o ≡ some op → P s → P (promote op now (start now s)))
      → AllValues P (served o)
  unfolding served
  serve-AllValues P none h keep = AllValues-remove P fp q.rows h
  serve-AllValues P (some op) h keep =
      AllValues-update P fp (λ s. promote op now (start now s)) q.rows h (λ s. keep op s refl)

promote-claimable :
    (now : ℕ) (op : Text) (r : Row)
    → claimable now r ≡ true
    → claimable now (promote op now (start now r)) ≡ true
unfolding claimable
promote-claimable now op r c = ground arith

-- The state after one job is ready again, with one request less to send, for the job's filepath.
serve-IsReady :
    (now : ℕ) (q q' : PushQueue) (job : PushJob)
    → IsReady now q
    → claim_next now q ≡ (q', some job)
    → IsReady now (finalize_success job.filepath now q')
      × (work (finalize_success job.filepath now q').rows + 1 ≡ work q.rows)
      × ((fp : Text)
          → sends_at fp (finalize_success job.filepath now q').rows
              + (if job.filepath == fp then 1 else 0)
            ≡ sends_at fp q.rows)
unfolding step
serve-IsReady now q q' job x e =
    let (row, c) = claim_next-IsClaim now q q' job x.unique e in
    let u' : HasUniqueRows q' =
      subst HasUniqueRows (ap (λ (p : PushQueue × Option PushJob). p.0) e)
        (step-HasUniqueRows (Call.claim_next now) q x.unique) in
    let v' : AllValidOps q' =
      subst AllValidOps (ap (λ (p : PushQueue × Option PushJob). p.0) e)
        (step-AllValidOps (Call.claim_next now) q x.valid) in
    let rows = serve-rows now q q' job.filepath row c.earliest.found x.unique c.updated in
    (
      record {
        unique = step-HasUniqueRows (Call.finalize_success job.filepath now) q' u';
        valid = step-AllValidOps (Call.finalize_success job.filepath now) q' v';
        ready = subst (AllValues (λ r. claimable now r ≡ true)) (sym rows) (
            serve-AllValues now q q' job.filepath row c.earliest.found (λ r. claimable now r ≡ true)
              row.pending_op x.ready (λ op s _ h. promote-claimable now op s h));
      },
      omega (arith, ap work rows, serve-work now q q' job.filepath row c.earliest.found x.unique),
      λ fp. omega (
        arith,
        ap (sends_at fp) rows,
        serve-sends_at now q q' job.filepath row c.earliest.found fp,
      ),
    )

claim_next-unchanged :
    (now : ℕ) (q : PushQueue) → (claim_next now q).1 ≡ none → (claim_next now q).0 ≡ q
unfolding claim_next
claim_next-unchanged now q e = ground arith

IsReady-empty :
    (now : ℕ) (q : PushQueue) → IsReady now q → (claim_next now q).1 ≡ none → q.rows ≡ []
unfolding get
IsReady-empty now q x e = no_rows q.rows refl
  where
    no_rows : (rows : Map Text Row) → q.rows ≡ rows → q.rows ≡ []
    no_rows [] same = same
    no_rows ((fp, r) ∷ rows) same =
        let idle = (claim_next-eq-none_iff now q x.unique x.valid).0 e fp r in
        let h = subst (AllValues (λ s. claimable now s ≡ true)) same x.ready in
        absurd (ground (arith, idle, ap (get fp) same, beq_refl fp, h.0))

-- The jobs of a drain: as many as the queue has requests, and for each filepath those of its row.
drain-work :
    (fuel now : ℕ) (q : PushQueue) (fp : Text)
    → IsReady now q
    → work q.rows < fuel
    → ((drain fuel now q).1.rows ≡ [])
      × (length (drain fuel now q).0 ≡ work q.rows)
      × (jobs_for fp (drain fuel now q).0 ≡ sends_at fp q.rows)
unfolding drain get
drain-work zero now q fp x h = absurd (omega arith)
drain-work (suc fuel) now q fp x h = elim (Option-cases (claim_next now q).1) [
  | inl idle ↦
      let empty = IsReady-empty now q x idle in
      ground (arith, idle, claim_next-unchanged now q idle, empty, ap (sends_at fp) empty)
  | inr (job, claimed) ↦
      let q' = (claim_next now q).0 in
      let (x', less, for_path) = serve-IsReady now q q' job x (λ i. (q', claimed i)) in
      ground (
        arith,
        claimed,
        less,
        for_path fp,
        drain-work fuel now (finalize_success job.filepath now q') fp x',
      )
]

sends_at-le : (fp : Text) (rows : Map Text Row) → sends_at fp rows ≤ 2
sends_at-le fp rows = ground arith

work-le : (rows : Map Text Row) → work rows ≤ 2 * length rows
work-le [] = omega arith
work-le ((fp, r) ∷ rows) = ground (arith, work-le rows)

-- Where every job succeeds, and the queue has one row for each filepath, with an operation that the
-- worker knows, which can be sent at the time of the rounds, the queue is emptied in as many rounds
-- as it has requests to send, and one more. It sends the requests of each filepath's
-- row, one or, with a parked operation, two, and none for a filepath without a row; so it sends at
-- most twice as many requests as there are rows.
pub drain_empties :
    (fuel now : ℕ) (q : PushQueue) (fp : Text)
    → IsReady now q
    → work q.rows < fuel
    → ((drain fuel now q).1.rows ≡ [])
      × (length (drain fuel now q).0 ≡ work q.rows)
      × (jobs_for fp (drain fuel now q).0 ≡ sends_at fp q.rows)
      × (jobs_for fp (drain fuel now q).0 ≤ 2)
      × (length (drain fuel now q).0 ≤ 2 * queue_len q)
unfolding queue_len
drain_empties fuel now q fp x h =
    let (empty, total, own) = drain-work fuel now q fp x h in
    (
      empty,
      total,
      own,
      omega (arith, own, sends_at-le fp q.rows),
      omega (arith, total, work-le q.rows),
    )
