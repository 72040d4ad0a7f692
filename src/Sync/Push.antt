-- ===== src/Sync/Push.antt =====
-- `process_job` of crates/smfs-core/src/sync/push.rs: what one job of the push worker does to the
-- tables. The server's answers are an argument. So is `meanwhile`: at the n-th await of the job the
-- other tasks of the mount change the tables by `meanwhile n`. `now` is the time at which the job
-- writes its result, in epoch milliseconds. Waiting until a document is `done` changes no table.
pub mod Settles
pub mod Dirty
mod Tests
use smfs.Prelude.{
  ℕ, ◌+◌, ltb, leb, Bool, true, false, Option, none, some, List, [], ◌∷◌, ◌++◌, if◌then◌else◌,
}
use smfs.Prelude.Eq.{Text, bytes, nat_eq, ◌==◌}
use smfs.Prelude.Text.{split, last}
use smfs.Cache.Op.{PushOp, create, update, delete, rename, upload_binary}
use smfs.Cache.Queue.{PushQueue, PushJob, drop_row, finalize_success, finalize_failure, poison}
use smfs.Cache.Queue
use smfs.Sync.Db.{
  Db, on_queue, set_remote_id, set_dirty_since, set_mirrored_state, clear_remote_id_after_404,
  read_all_content,
}
use smfs.Sync.Api.{
  ApiError, not_found, rejected, to_string, decimal, Answer, answered, failed, ApiClient,
}
use smfs.Sync.Mime.{guess_mime, is_utf8}

unfoldable pub backoff_ms : ℕ → ℕ
backoff_ms attempt =
    if attempt == 0
    then 500
    else if attempt == 1
    then 1000
    else if attempt == 2
    then 2000
    else if attempt == 3
    then 5000
    else if attempt == 4
    then 15000
    else if attempt == 5
    then 30000
    else 60000

-- `push_notify().notify_one()`
abbrev pub notify : Db → Db
notify s = on_queue (λ q. record q { notified = true }) s

abbrev pub succeed : Text → ℕ → Db → Db
succeed fp now s = notify (on_queue (finalize_success fp now) s)

-- any other error: the row waits for its next attempt
abbrev pub retry : PushJob → ApiError → ℕ → Db → Db
retry job e now s =
    on_queue (finalize_failure job.filepath (to_string e) now (backoff_ms job.attempt)) s

abbrev pub poison_row : Text → ℕ → Text → ℕ → Db → Db
poison_row fp status body now s = on_queue (poison fp status body now) s

unfoldable pub poison_with_sibling : Text → ℕ → Text → ℕ → Db → Db
poison_with_sibling fp status body now s =
    let t = poison_row fp status body now s in
    record t {
      siblings =
          (
            fp ++ bytes ".smfs-error.txt",
            bytes "smfs: server rejected this file (HTTP "
                ++ (decimal 5 status
                    ++ (bytes ").\n\nreason: "
                        ++ (body
                            ++ bytes
                                "\n\nTo retry, delete this error file and re-copy the source.\n"))),
          )
          ∷ t.siblings;
    }

-- the document is `done`: the inode's watermark goes, and the row is finished
abbrev pub settle : ℕ → Text → ℕ → Db → Db
settle ino fp now s =
    succeed fp now
      (set_dirty_since ino none (set_mirrored_state ino none (some (bytes "done")) (some now) s))

-- the new document's id goes into both tables before the wait
abbrev pub stamp : ℕ → Text → Text → Db → Db
stamp ino fp id s = on_queue (Queue.set_remote_id fp id) (set_remote_id ino id s)

module _ (api : ApiClient) (meanwhile : ℕ → Db → Db) (now : ℕ) where
  abbrev pub after_create : PushJob → ℕ → Answer Text → Db → Db
  after_create job ino (answered id) s =
      settle ino job.filepath now (meanwhile 1 (stamp ino job.filepath id s))
  after_create job ino (failed (rejected status body)) s =
      poison_with_sibling job.filepath status body now s
  after_create job ino (failed e) s = retry job e now s

  unfoldable pub process_binary_upload : PushJob → ℕ → List ℕ → Db → Db
  process_binary_upload job ino content s =
      let filename = last (split b'/' job.filepath) in
      after_create job ino
        (api.create_document_multipart content job.filepath (guess_mime filename) filename)
        (meanwhile 0 s)

  abbrev pub after_patch : PushJob → ℕ → Text → Answer (Unit {0}) → Db → Db
  after_patch job ino id (answered _) s = settle ino job.filepath now (meanwhile 2 s)
  after_patch job ino id (failed not_found) s = notify (
      on_queue (finalize_failure job.filepath (bytes "patch_404_retry_create") now 0)
        (clear_remote_id_after_404 job.filepath id s))
  after_patch job ino id (failed (rejected status body)) s =
      poison_with_sibling job.filepath status body now s
  after_patch job ino id (failed e) s = retry job e now s

  -- a text: PATCH where the document is known, else POST
  abbrev pub send_text : PushJob → ℕ → List ℕ → Option Text → Db → Db
  send_text job ino text (some id) s =
      after_patch job ino id (api.update_document id (some job.filepath) (some text))
        (meanwhile 1 (meanwhile 0 s))
  send_text job ino text none s =
      after_create job ino (api.create_document text job.filepath) (meanwhile 0 s)

  abbrev pub send_content : PushJob → Option ℕ → Db → Db
  send_content job none s = on_queue (drop_row job.filepath) s
  send_content job (some ino) s =
      let content = read_all_content ino s in
      if is_utf8 content
      then send_text job ino content job.remote_id s
      else process_binary_upload job ino content s

  abbrev pub upload : PushJob → Option ℕ → Db → Db
  upload job none s = on_queue (drop_row job.filepath) s
  upload job (some ino) s = process_binary_upload job ino (read_all_content ino s) s

  abbrev pub after_delete : PushJob → Answer ℕ → Db → Db
  after_delete job (answered n) s = succeed job.filepath now s
  after_delete job (failed (rejected status body)) s = poison_row job.filepath status body now s
  after_delete job (failed e) s = retry job e now s

  abbrev pub send_delete : PushJob → Option Text → Db → Db
  send_delete job (some id) s =
      after_delete job (api.delete_documents_by_ids (id ∷ [])) (meanwhile 0 s)
  send_delete job none s = after_delete job (api.delete_documents job.filepath) (meanwhile 0 s)

  abbrev pub after_rename : PushJob → Answer (Unit {0}) → Db → Db
  after_rename job (answered _) s = succeed job.filepath now (meanwhile 3 s)
  after_rename job (failed (rejected status body)) s = poison_row job.filepath status body now s
  after_rename job (failed e) s = retry job e now s

  abbrev pub rename_document : PushJob → Text → Text → Db → Db
  rename_document job to id s =
      after_rename job (api.update_document id (some to) none) (meanwhile 2 (meanwhile 1 s))

  -- the document to rename, looked up by its path where the job does not carry it
  abbrev pub rename_found : PushJob → Text → Answer (List Text) → Db → Db
  rename_found job to (answered []) s = succeed job.filepath now s
  rename_found job to (answered (id ∷ ids)) s = rename_document job to id s
  rename_found job to (failed e) s =
      on_queue
        (finalize_failure job.filepath (bytes "rename lookup: " ++ to_string e) now
          (backoff_ms job.attempt))
        s

  abbrev pub send_rename : PushJob → Option Text → Option Text → Db → Db
  send_rename job none id s = on_queue (drop_row job.filepath) s
  send_rename job (some to) (some id) s = rename_document job to id s
  send_rename job (some to) none s =
      rename_found job to (api.list_documents (some job.filepath)) (meanwhile 0 s)

  abbrev pub process : PushJob → PushOp → Db → Db
  process job PushOp.create s = send_content job job.content_ino s
  process job PushOp.update s = send_content job job.content_ino s
  process job PushOp.upload_binary s = upload job job.content_ino s
  process job PushOp.delete s = send_delete job job.remote_id s
  process job PushOp.rename s = send_rename job job.rename_to job.remote_id s

  unfoldable pub process_job : PushJob → Db → Db
  process_job job s = process job job.op s

pub data StuckTier : Type 0 where
  fine info warn stop : StuckTier

unfoldable pub stuck_tier : ℕ → StuckTier
stuck_tier age_ms =
    if ltb age_ms 60000
    then fine
    else if ltb age_ms 300000
    then info
    else if ltb age_ms 3600000
    then warn
    else stop
