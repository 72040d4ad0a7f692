-- ===== src/Sync/Push/Settles.antt =====
-- No branch of `process_job` (crates/smfs-core/src/sync/push.rs) leaves its row inflight.
use smfs.Prelude.{
  ℕ, ◌≤◌, false, Option, none, some, List, [], ◌∷◌, ◌≡◌, refl, arith, inl, inr, Bool-cases,
  Option-cases,
}
use smfs.Prelude.Eq.{Text, text_eq, nat_eq, beq_refl}
use smfs.Prelude.Map.{Map, get, update, remove, get-update, get-remove}
use smfs.Cache.Op.{PushOp}
use smfs.Cache.Queue.{
  Row, PushQueue, PushJob, inflight_at, pending_at, promote, drop_row, finalize_success,
  finalize_failure, poison,
}
use smfs.Sync.Db.{Db, read_all_content}
use smfs.Sync.Api.{
  network, auth, not_found, conflict, rate_limited, rejected, server, Answer, answered, failed,
  ApiClient,
}
use smfs.Sync.Push.{
  backoff_ms, process_job, process, send_content, send_text, upload, send_delete, send_rename,
  rename_found, after_create, after_patch, after_delete, after_rename, process_binary_upload,
  poison_with_sibling,
}
use smfs.Sync.Mime.{is_utf8}

-- No row of `fp` is inflight.
abbrev pub IsIdle : Text → Db → Type 0
IsIdle fp s = inflight_at fp s.queue.rows ≡ false

idle-update :
    (fp : Text) (f : Row → Row) (rows : Map Text Row)
    → ((r : Row) → (f r).inflight_started_at ≡ none)
    → inflight_at fp (update fp f rows) ≡ false
idle-update fp f rows h = elim (Option-cases (get fp rows)) [
  | inl gone ↦ rw (inflight_at, get-update fp fp f rows, beq_refl fp, gone) refl
  | inr (r, here) ↦ rw (inflight_at, get-update fp fp f rows, beq_refl fp, here, h r) refl
]

idle-remove : (fp : Text) (rows : Map Text Row) → inflight_at fp (remove fp rows) ≡ false
idle-remove fp rows = rw (inflight_at, get-remove fp fp rows, beq_refl fp) refl

idle-success :
    (fp : Text) (now : ℕ) (q : PushQueue) → inflight_at fp (finalize_success fp now q).rows ≡ false
unfolding finalize_success
idle-success fp now q = elim (Option-cases (pending_at fp q.rows)) [
  | inl last ↦ rw (finalize_success, last) (idle-remove fp q.rows)
  | inr (op, parked) ↦
      rw (finalize_success, parked) (idle-update fp (promote op now) q.rows (λ r. refl))
]

idle-failure :
    (fp error : Text) (now backoff : ℕ) (q : PushQueue)
    → inflight_at fp (finalize_failure fp error now backoff q).rows ≡ false
unfolding finalize_failure
idle-failure fp error now backoff q = idle-update fp _ q.rows (λ r. refl)

idle-poison :
    (fp : Text) (status : ℕ) (reason : Text) (now : ℕ) (q : PushQueue)
    → inflight_at fp (poison fp status reason now q).rows ≡ false
unfolding poison
idle-poison fp status reason now q = idle-update fp _ q.rows (λ r. refl)

idle-drop : (fp : Text) (q : PushQueue) → inflight_at fp (drop_row fp q).rows ≡ false
unfolding drop_row
idle-drop fp q = idle-remove fp q.rows

poison_with_sibling-IsIdle :
    (fp : Text) (status : ℕ) (body : Text) (now : ℕ) (s : Db)
    → IsIdle fp (poison_with_sibling fp status body now s)
unfolding poison_with_sibling
poison_with_sibling-IsIdle fp status body now s = idle-poison fp status body now s.queue

module _ (api : ApiClient) (meanwhile : ℕ → Db → Db) (now : ℕ) where
  after_create-IsIdle :
      (job : PushJob) (ino : ℕ) (r : Answer Text) (s : Db)
      → IsIdle job.filepath (after_create api meanwhile now job ino r s)
  after_create-IsIdle job ino (answered id) s = idle-success job.filepath now _
  after_create-IsIdle job ino (failed (rejected status body)) s =
      poison_with_sibling-IsIdle job.filepath status body now s
  after_create-IsIdle job ino (failed (network e)) s = idle-failure job.filepath _ now _ s.queue
  after_create-IsIdle job ino (failed auth) s = idle-failure job.filepath _ now _ s.queue
  after_create-IsIdle job ino (failed not_found) s = idle-failure job.filepath _ now _ s.queue
  after_create-IsIdle job ino (failed (conflict e)) s = idle-failure job.filepath _ now _ s.queue
  after_create-IsIdle job ino (failed rate_limited) s = idle-failure job.filepath _ now _ s.queue
  after_create-IsIdle job ino (failed (server c e)) s = idle-failure job.filepath _ now _ s.queue

  upload-IsIdle :
      (job : PushJob) (ino : ℕ) (content : List ℕ) (s : Db)
      → IsIdle job.filepath (process_binary_upload api meanwhile now job ino content s)
  unfolding process_binary_upload
  upload-IsIdle job ino content s = after_create-IsIdle job ino _ (meanwhile 0 s)

  after_patch-IsIdle :
      (job : PushJob) (ino : ℕ) (id : Text) (r : Answer (Unit {0})) (s : Db)
      → IsIdle job.filepath (after_patch api meanwhile now job ino id r s)
  after_patch-IsIdle job ino id (answered _) s = idle-success job.filepath now _
  after_patch-IsIdle job ino id (failed (rejected status body)) s =
      poison_with_sibling-IsIdle job.filepath status body now s
  after_patch-IsIdle job ino id (failed (network e)) s = idle-failure job.filepath _ now _ s.queue
  after_patch-IsIdle job ino id (failed auth) s = idle-failure job.filepath _ now _ s.queue
  after_patch-IsIdle job ino id (failed not_found) s = idle-failure job.filepath _ now _ _
  after_patch-IsIdle job ino id (failed (conflict e)) s = idle-failure job.filepath _ now _ s.queue
  after_patch-IsIdle job ino id (failed rate_limited) s = idle-failure job.filepath _ now _ s.queue
  after_patch-IsIdle job ino id (failed (server c e)) s = idle-failure job.filepath _ now _ s.queue

  send_text-IsIdle :
      (job : PushJob) (ino : ℕ) (text : List ℕ) (id : Option Text) (s : Db)
      → IsIdle job.filepath (send_text api meanwhile now job ino text id s)
  send_text-IsIdle job ino text (some id) s = after_patch-IsIdle job ino id _ _
  send_text-IsIdle job ino text none s = after_create-IsIdle job ino _ _

  send_content-IsIdle :
      (job : PushJob) (ino : Option ℕ) (s : Db)
      → IsIdle job.filepath (send_content api meanwhile now job ino s)
  send_content-IsIdle job none s = idle-drop job.filepath s.queue
  send_content-IsIdle job (some ino) s = elim (Bool-cases (is_utf8 (read_all_content ino s))) [
    | inl text ↦
        rw (send_content, text) (send_text-IsIdle job ino (read_all_content ino s) job.remote_id s)
    | inr binary ↦ rw (send_content, binary) (upload-IsIdle job ino (read_all_content ino s) s)
  ]

  after_delete-IsIdle :
      (job : PushJob) (r : Answer ℕ) (s : Db)
      → IsIdle job.filepath (after_delete api meanwhile now job r s)
  after_delete-IsIdle job (answered n) s = idle-success job.filepath now s.queue
  after_delete-IsIdle job (failed (rejected status body)) s =
      idle-poison job.filepath status body now s.queue
  after_delete-IsIdle job (failed (network e)) s = idle-failure job.filepath _ now _ s.queue
  after_delete-IsIdle job (failed auth) s = idle-failure job.filepath _ now _ s.queue
  after_delete-IsIdle job (failed not_found) s = idle-failure job.filepath _ now _ s.queue
  after_delete-IsIdle job (failed (conflict e)) s = idle-failure job.filepath _ now _ s.queue
  after_delete-IsIdle job (failed rate_limited) s = idle-failure job.filepath _ now _ s.queue
  after_delete-IsIdle job (failed (server c e)) s = idle-failure job.filepath _ now _ s.queue

  after_rename-IsIdle :
      (job : PushJob) (r : Answer (Unit {0})) (s : Db)
      → IsIdle job.filepath (after_rename api meanwhile now job r s)
  after_rename-IsIdle job (answered _) s = idle-success job.filepath now _
  after_rename-IsIdle job (failed (rejected status body)) s =
      idle-poison job.filepath status body now s.queue
  after_rename-IsIdle job (failed (network e)) s = idle-failure job.filepath _ now _ s.queue
  after_rename-IsIdle job (failed auth) s = idle-failure job.filepath _ now _ s.queue
  after_rename-IsIdle job (failed not_found) s = idle-failure job.filepath _ now _ s.queue
  after_rename-IsIdle job (failed (conflict e)) s = idle-failure job.filepath _ now _ s.queue
  after_rename-IsIdle job (failed rate_limited) s = idle-failure job.filepath _ now _ s.queue
  after_rename-IsIdle job (failed (server c e)) s = idle-failure job.filepath _ now _ s.queue

  rename_found-IsIdle :
      (job : PushJob) (to : Text) (r : Answer (List Text)) (s : Db)
      → IsIdle job.filepath (rename_found api meanwhile now job to r s)
  rename_found-IsIdle job to (answered []) s = idle-success job.filepath now s.queue
  rename_found-IsIdle job to (answered (id ∷ ids)) s = after_rename-IsIdle job _ _
  rename_found-IsIdle job to (failed e) s = idle-failure job.filepath _ now _ s.queue

  send_rename-IsIdle :
      (job : PushJob) (to id : Option Text) (s : Db)
      → IsIdle job.filepath (send_rename api meanwhile now job to id s)
  send_rename-IsIdle job none id s = idle-drop job.filepath s.queue
  send_rename-IsIdle job (some to) (some id) s = after_rename-IsIdle job _ _
  send_rename-IsIdle job (some to) none s = rename_found-IsIdle job to _ _

  send_delete-IsIdle :
      (job : PushJob) (id : Option Text) (s : Db)
      → IsIdle job.filepath (send_delete api meanwhile now job id s)
  send_delete-IsIdle job (some id) s = after_delete-IsIdle job _ _
  send_delete-IsIdle job none s = after_delete-IsIdle job _ _

  upload_job-IsIdle :
      (job : PushJob) (ino : Option ℕ) (s : Db)
      → IsIdle job.filepath (upload api meanwhile now job ino s)
  upload_job-IsIdle job none s = idle-drop job.filepath s.queue
  upload_job-IsIdle job (some ino) s = upload-IsIdle job ino _ s

  process-IsIdle :
      (job : PushJob) (op : PushOp) (s : Db)
      → IsIdle job.filepath (process api meanwhile now job op s)
  process-IsIdle job PushOp.create s = send_content-IsIdle job job.content_ino s
  process-IsIdle job PushOp.update s = send_content-IsIdle job job.content_ino s
  process-IsIdle job PushOp.upload_binary s = upload_job-IsIdle job job.content_ino s
  process-IsIdle job PushOp.delete s = send_delete-IsIdle job job.remote_id s
  process-IsIdle job PushOp.rename s = send_rename-IsIdle job job.rename_to job.remote_id s

-- Whatever the server answers and whatever the other tasks do at the awaits of a job, when the job
-- ends no row of its filepath is inflight.
pub process_job-IsIdle :
    (api : ApiClient) (meanwhile : ℕ → Db → Db) (now : ℕ) (job : PushJob) (s : Db)
    → IsIdle job.filepath (process_job api meanwhile now job s)
unfolding process_job
process_job-IsIdle api meanwhile now job s = process-IsIdle api meanwhile now job job.op s

-- The delay after a failed attempt does not shrink from one attempt to a later one, and lies
-- between half a second and a minute.
pub backoff_ms-monotone :
    (a b : ℕ)
    → a ≤ b
    → (backoff_ms a ≤ backoff_ms b) × (500 ≤ backoff_ms a) × (backoff_ms b ≤ 60000)
unfolding backoff_ms
backoff_ms-monotone a b h = ground arith
