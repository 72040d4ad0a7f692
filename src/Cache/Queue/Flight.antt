-- ===== src/Cache/Queue/Flight.antt =====
-- The push worker's jobs in flight (`run_push_worker` of crates/smfs-core/src/sync/push.rs runs up to
-- `PUSH_CONCURRENCY` of them): claims, ends of jobs and the file system's calls, interleaved.
use mathlib.Core.Path.{subst}
use smfs.Prelude.{
  ℕ, ◌+◌, ◌≤◌, true, false, Option, none, some, List, [], ◌∷◌, ◌≡◌, refl, ap, arith, inl, inr,
  Option-cases, Bool-cases, if◌then◌else◌, length, ◌<◌, ◌↔◌,
}
use smfs.Prelude.Eq.{Text, text_eq, text_beq_iff, beq_refl, ◌==◌}
use smfs.Prelude.Map.{Map, get, update, remove, get-remove, get-update, UniqueKeys-remove}
use smfs.Cache.Op.{PushOp}
use smfs.Cache.Noise.{is_macos_noise_path}
use smfs.Cache.Queue.{
  Row, PushQueue, PushJob, is_inflight, claimable, rebind, inflight_at, upsert,
  retarget_pending_create, claim_next, set_remote_id, finalize_success, finalize_failure, drop_row,
  poison, forget_remote_id,
}
use smfs.Cache.Queue.Trace.{Call, step}
use smfs.Cache.Queue.Keys.{HasUniqueRows, step-HasUniqueRows, get-rekey}
use smfs.Cache.Queue.Effects.{get-upsert, get-finalize_success}
use smfs.Cache.Queue.Claim.{claim_next-IsClaim}

abbrev pub push_concurrency : ℕ
push_concurrency = 8

-- The queue and the filepaths of the running jobs.
pub record Worker : Type 0 where
  pub queue : PushQueue
  pub running : List Text

abbrev pub count : Text → List Text → ℕ
count fp [] = 0
count fp (k ∷ ks) = (if k == fp then 1 else 0) + count fp ks

-- the end of one task: its permit is free again
unfoldable pub leave : Text → List Text → List Text
leave fp [] = []
leave fp (k ∷ ks) = if k == fp then ks else k ∷ leave fp ks

-- A step of the mount, while no rename goes onto a filepath that is being sent.
pub data Step : Worker → Worker → Type 0 where
  enqueue :
      (w : Worker) (fp : Text) (op : PushOp) (ino : Option ℕ) (to id : Option Text) (now : ℕ)
      → Step w (record w { queue = upsert fp op ino to id now w.queue })
  retarget :
      (w : Worker) (old new : Text) (id : Option Text) (now : ℕ)
      → inflight_at new w.queue.rows ≡ false
      → Step w (record w { queue = (retarget_pending_create old new id now w.queue).0 })
  claim :
      (w : Worker) (now : ℕ) (q : PushQueue) (job : PushJob)
      → length w.running < push_concurrency
      → claim_next now w.queue ≡ (q, some job)
      → Step w (record { queue = q; running = job.filepath ∷ w.running })
  stamp : (w : Worker) (fp id : Text) → Step w (record w { queue = set_remote_id fp id w.queue })
  forget : (w : Worker) (fp : Text) → Step w (record w { queue = forget_remote_id fp w.queue })
  success :
      (w : Worker) (fp : Text) (now : ℕ)
      → 0 < count fp w.running
      → Step w (record { queue = finalize_success fp now w.queue; running = leave fp w.running })
  failure :
      (w : Worker) (fp error : Text) (now backoff : ℕ)
      → 0 < count fp w.running
      → Step w (record {
        queue = finalize_failure fp error now backoff w.queue;
        running = leave fp w.running;
      })
  reject :
      (w : Worker) (fp : Text) (status : ℕ) (reason : Text) (now : ℕ)
      → 0 < count fp w.running
      → Step w
          (record { queue = poison fp status reason now w.queue; running = leave fp w.running })
  discard :
      (w : Worker) (fp : Text)
      → 0 < count fp w.running
      → Step w (record { queue = drop_row fp w.queue; running = leave fp w.running })

pub data Reach (w : Worker) : Worker → Type 0 where
  here : Reach w w
  next : {v u : Worker} → Reach w v → Step v u → Reach w u

-- The running jobs are the inflight rows, each once.
pub record IsExclusive (w : Worker) : Type 0 where
  pub unique : HasUniqueRows w.queue
  pub inflight : (fp : Text) → count fp w.running ≡ (if inflight_at fp w.queue.rows then 1 else 0)

count-leave :
    (fp k : Text) (ks : List Text)
    → 0 < count fp ks
    → count k ks ≡ (if fp == k then 1 else 0) + count k (leave fp ks)
unfolding leave
count-leave fp k [] h = absurd (omega arith)
count-leave fp k (j ∷ ks) h =
    ground (arith, text_beq_iff j fp, text_beq_iff j k, text_beq_iff fp k, count-leave fp k ks)

inflight-update :
    (fp k : Text) (f : Row → Row) (rows : Map Text Row)
    → inflight_at k (update fp f rows) ≡ (
        if fp == k
        then elim (get k rows) [ none ↦ false | some r ↦ is_inflight (f r) ]
        else inflight_at k rows)
inflight-update fp k f rows = ground (arith, get-update fp k f rows)

upsert-inflight :
    (fp k : Text) (op : PushOp) (ino : Option ℕ) (to id : Option Text) (now : ℕ) (q : PushQueue)
    → inflight_at k (upsert fp op ino to id now q).rows ≡ inflight_at k q.rows
upsert-inflight fp k op ino to id now q = elim (Bool-cases (is_macos_noise_path fp)) [
  | inl noise ↦ unfold upsert in ground arith
  | inr real ↦ ground (arith, get-upsert fp k op ino to id now q real, text_beq_iff fp k)
]

-- A moved row was idle and is idle.
retarget-inflight :
    (old new k : Text) (id : Option Text) (now : ℕ) (q : PushQueue)
    → HasUniqueRows q
    → inflight_at new q.rows ≡ false
    → inflight_at k (retarget_pending_create old new id now q).0.rows ≡ inflight_at k q.rows
unfolding retarget_pending_create
retarget-inflight old new k id now q u idle = ground (
  arith,
  UniqueKeys-remove new q.rows u,
  get-remove new new q.rows,
  get-remove new old q.rows,
  get-remove new k q.rows,
  beq_refl new,
  text_beq_iff new k,
  text_beq_iff new old,
  text_beq_iff old k,
  get-rekey old new k (rebind id now) (remove new q.rows),
)

module _ (w : Worker) (x : IsExclusive w) where
  keeps_unique : (c : Call) → HasUniqueRows (step c w.queue)
  keeps_unique c = step-HasUniqueRows c w.queue x.unique

  update-IsExclusive :
      (fp : Text) (f : Row → Row)
      → ((r : Row) → is_inflight (f r) ≡ is_inflight r)
      → (k : Text) → count k w.running ≡ (if inflight_at k (update fp f w.queue.rows) then 1 else 0)
  update-IsExclusive fp f same k = elim (Option-cases (get k w.queue.rows)) [
    | inl missing ↦ ground (arith, inflight-update fp k f w.queue.rows, x.inflight k)
    | inr (r, found) ↦ ground (arith, inflight-update fp k f w.queue.rows, x.inflight k, same r)
  ]

  -- the end of a job, whose row leaves the table or is idle again
  end-IsExclusive :
      (fp : Text) (rows : Map Text Row)
      → 0 < count fp w.running
      → ((k : Text) → inflight_at k rows ≡ (if fp == k then false else inflight_at k w.queue.rows))
      → (k : Text) → count k (leave fp w.running) ≡ (if inflight_at k rows then 1 else 0)
  end-IsExclusive fp rows run h k =
      ground (arith, count-leave fp k w.running run, h k, x.inflight k, text_beq_iff fp k)

  success-inflight :
      (fp : Text) (now : ℕ) (k : Text)
      → inflight_at k (finalize_success fp now w.queue).rows
        ≡ (if fp == k then false else inflight_at k w.queue.rows)
  success-inflight fp now k =
      ground (arith, get-finalize_success fp k now w.queue, text_beq_iff fp k)

  drop-inflight :
      (fp k : Text)
      → inflight_at k (remove fp w.queue.rows)
        ≡ (if fp == k then false else inflight_at k w.queue.rows)
  drop-inflight fp k = ground (arith, get-remove fp k w.queue.rows)

  idle-inflight :
      (fp : Text) (f : Row → Row)
      → ((r : Row) → is_inflight (f r) ≡ false)
      → (k : Text)
      → inflight_at k (update fp f w.queue.rows)
        ≡ (if fp == k then false else inflight_at k w.queue.rows)
  idle-inflight fp f stopped k = elim (Option-cases (get k w.queue.rows)) [
    | inl missing ↦ ground (arith, inflight-update fp k f w.queue.rows)
    | inr (r, found) ↦ ground (arith, inflight-update fp k f w.queue.rows, stopped r)
  ]

  claim-IsExclusive :
      (now : ℕ) (q : PushQueue) (job : PushJob)
      → claim_next now w.queue ≡ (q, some job)
      → IsExclusive (record { queue = q; running = job.filepath ∷ w.running })
  unfolding step claimable
  claim-IsExclusive now q job e =
      let (row, c) = claim_next-IsClaim now w.queue q job x.unique e in
      record {
        unique =
            subst HasUniqueRows (ap (λ (p : PushQueue × Option PushJob). p.0) e)
              (keeps_unique (Call.claim_next now));
        inflight = λ k. elim (Bool-cases (job.filepath == k)) [
          | inl same ↦ ground (
            arith,
            same,
            text_beq_iff job.filepath k,
            x.inflight k,
            c.earliest.found,
            c.earliest.ready,
            c.started,
          )
          | inr other ↦ ground (
            arith,
            other,
            text_beq_iff job.filepath k,
            text_beq_iff k job.filepath,
            x.inflight k,
            c.others k,
          )
        ];
      }

Step-IsExclusive : {w v : Worker} → Step w v → IsExclusive w → IsExclusive v
unfolding step set_remote_id forget_remote_id finalize_failure drop_row poison
Step-IsExclusive (enqueue w fp op ino to id now) x = record {
  unique = keeps_unique w x (Call.upsert fp op ino to id now);
  inflight = λ k. ground (arith, upsert-inflight fp k op ino to id now w.queue, x.inflight k);
}
Step-IsExclusive (retarget w old new id now idle) x = record {
  unique = keeps_unique w x (Call.retarget_pending_create old new id now);
  inflight =
      λ k. ground (arith, retarget-inflight old new k id now w.queue x.unique idle, x.inflight k);
}
Step-IsExclusive (claim w now q job room e) x = claim-IsExclusive w x now q job e
Step-IsExclusive (stamp w fp id) x = record {
  unique = keeps_unique w x (Call.set_remote_id fp id);
  inflight = update-IsExclusive w x fp _ (λ r. refl);
}
Step-IsExclusive (forget w fp) x = record {
  unique = keeps_unique w x (Call.forget_remote_id fp);
  inflight = update-IsExclusive w x fp _ (λ r. refl);
}
Step-IsExclusive (success w fp now run) x = record {
  unique = keeps_unique w x (Call.finalize_success fp now);
  inflight = end-IsExclusive w x fp _ run (success-inflight w x fp now);
}
Step-IsExclusive (failure w fp error now backoff run) x = record {
  unique = keeps_unique w x (Call.finalize_failure fp error now backoff);
  inflight = end-IsExclusive w x fp _ run (idle-inflight w x fp _ (λ r. refl));
}
Step-IsExclusive (reject w fp status reason now run) x = record {
  unique = keeps_unique w x (Call.poison fp status reason now);
  inflight = end-IsExclusive w x fp _ run (idle-inflight w x fp _ (λ r. refl));
}
Step-IsExclusive (discard w fp run) x = record {
  unique = keeps_unique w x (Call.drop_row fp);
  inflight = end-IsExclusive w x fp _ run (drop-inflight w x fp);
}

Reach-IsExclusive : {w v : Worker} → Reach w v → IsExclusive w → IsExclusive v
Reach-IsExclusive here x = x
Reach-IsExclusive (next r s) x = Step-IsExclusive s (Reach-IsExclusive r x)

-- Whatever the interleaving of enqueues, renames onto idle filepaths, claims and ends of jobs, from
-- a state whose running jobs are its inflight rows: no filepath has two running jobs, and a
-- filepath has one exactly while its row is inflight.
pub Reach-single_flight :
    {w v : Worker}
    → IsExclusive w
    → Reach w v
    → (fp : Text)
    → (count fp v.running ≤ 1) × ((count fp v.running ≡ 1) ↔ (inflight_at fp v.queue.rows ≡ true))
Reach-single_flight x r fp = ground (arith, (Reach-IsExclusive r x).inflight fp)
