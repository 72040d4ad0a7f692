-- ===== src/Sync/Push/Dirty.antt =====
-- The dirty watermark of an inode and a write that arrives while its file is being sent
-- (`process_job` of crates/smfs-core/src/sync/push.rs).
use smfs.Prelude.{ℕ, true, Option, none, some, ◌≡◌, refl, inl, inr, Option-cases}
use mathlib.Core.Option
use smfs.Prelude.Eq.{Text, bytes, text_eq, nat_eq, beq_refl}
use smfs.Prelude.Map.{get, get-update}
use smfs.Cache.File.{FileRows}
use smfs.Cache.Op.{PushOp}
use smfs.Cache.Queue.{Row, PushQueue, PushJob, pending_at, promote, finalize_success}
use smfs.Sync.Db.{
  Db, dirty_of, with_dirty, set_mirrored_state, get_dirty_since, set_dirty_since, read_all_content,
}
use smfs.Sync.Api.{answered, ApiClient}
use smfs.Sync.Push.{process_job, stamp, settle, send_content, send_text}
use smfs.Sync.Mime.{is_utf8}

cleared : (o : Option FileRows) → dirty_of (Option.map (with_dirty none) o) ≡ none
cleared none = refl
cleared (some f) = elim (Option-cases f.inode) [
  | inl gone ↦ rw (dirty_of, with_dirty, gone) refl
  | inr (n, here) ↦ rw (dirty_of, with_dirty, here) refl
]

dirty-clear : (ino : ℕ) (s : Db) → get_dirty_since ino (set_dirty_since ino none s) ≡ none
unfolding get_dirty_since set_dirty_since
dirty-clear ino s =
    rw (get-update ino ino (with_dirty none) s.files, beq_refl ino) (cleared (get ino s.files))

promoted :
    (fp op : Text) (now : ℕ) (q : PushQueue) (r : Row)
    → get fp q.rows ≡ some r
    → r.pending_op ≡ some op
    → get fp (finalize_success fp now q).rows ≡ some (promote op now r)
unfolding finalize_success
promoted fp op now q r here parked =
    let slot : pending_at fp q.rows ≡ some op = rw (pending_at, here) parked in
    rw (finalize_success, slot)
      (rw (get-update fp fp (promote op now) q.rows, beq_refl fp, here) refl)

abbrev pub text_job : Text → ℕ → ℕ → PushJob
text_job fp ino attempt = record {
  filepath = fp;
  op = PushOp.update;
  content_ino = some ino;
  rename_to = none;
  remote_id = none;
  attempt = attempt;
}

-- An update of a text file without a remote id whose creation the server answers with an id: an
-- operation that another task has parked for the filepath by the time the document is processed is
-- the row's operation when the job ends, but the file's inode is no longer dirty.
pub parked_write_not_dirty :
    (api : ApiClient) (meanwhile : ℕ → Db → Db) (now : ℕ) (fp : Text) (ino attempt : ℕ) (s : Db)
    (id op : Text) (r : Row)
    → is_utf8 (read_all_content ino s) ≡ true
    → api.create_document (read_all_content ino s) fp ≡ answered id
    → get fp (meanwhile 1 (stamp ino fp id (meanwhile 0 s))).queue.rows ≡ some r
    → r.pending_op ≡ some op
    → (get fp (process_job api meanwhile now (text_job fp ino attempt) s).queue.rows
        ≡ some (promote op now r))
      × (get_dirty_since ino (process_job api meanwhile now (text_job fp ino attempt) s) ≡ none)
unfolding process_job set_dirty_since set_mirrored_state get_dirty_since
parked_write_not_dirty api meanwhile now fp ino attempt s id op r text done here parked =
    let m : Db = meanwhile 1 (stamp ino fp id (meanwhile 0 s)) in
    let settled : process_job api meanwhile now (text_job fp ino attempt) s ≡ settle ino fp now m =
      rw (send_content, text, send_text, done) refl in
    rw settled (
      promoted fp op now m.queue r here parked,
      dirty-clear ino (set_mirrored_state ino none (some (bytes "done")) (some now) m),
    )
