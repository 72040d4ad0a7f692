-- ===== src/Sync/Push/Tests.antt =====
-- The theorems on the push worker at concrete jobs.
use smfs.Prelude.{ℕ, true, false, none, some, [], ◌∷◌, ◌≡◌, refl, if◌then◌else◌}
use smfs.Prelude.Eq.{Text, text_eq, nat_eq, bytes, ◌==◌}
use smfs.Prelude.Map.{get, insert, update}
use smfs.Prelude.Int.{pos}
use smfs.Vfs.Types.{from_secs}
use smfs.Cache.File.{FileRows}
use smfs.Cache.File
use smfs.Cache.Noise.{is_macos_noise_path, is_noise_root, is_noise_basename}
use smfs.Cache.Op.{PushOp, as_str, parse}
use smfs.Cache.Queue.{Row, PushQueue, PushJob, promote, upsert, claim_next, claimable, next_row}
use smfs.Cache.Queue
use smfs.Sync.Db.{Db, on_queue, set_dirty_since, get_dirty_since, set_remote_id, read_all_content}
use smfs.Sync.Api.{answered, ApiClient}
use smfs.Sync.Mime.{is_utf8, utf8_rest, guess_mime}
use smfs.Sync.Push.{process_job, stamp}
use smfs.Sync.Push.Settles.{IsIdle, process_job-IsIdle}
use smfs.Sync.Push.Dirty.{text_job, parked_write_not_dirty}

abbrev doc : Text
doc = bytes "/a.md"

-- A server that takes everything.
abbrev kind : ApiClient
kind = record {
  update_document = λ id fp content. answered tt;
  create_document = λ content fp. answered (bytes "d1");
  create_document_multipart = λ content fp mime filename. answered (bytes "d1");
  delete_documents_by_ids = λ ids. answered 1;
  delete_documents = λ fp. answered 1;
  list_documents = λ fp. answered [];
}

abbrev stored : FileRows
stored = record {
  inode = some (record {
    size = 2;
    mtime = from_secs (pos 5);
    ctime = from_secs (pos 5);
    dirty_since = some 5000;
  });
  chunks = (0, 104 ∷ 105 ∷ []) ∷ [];
}

-- The row of `/a.md` is being sent.
abbrev sending : Db
sending = record {
  queue =
      (claim_next 6000 (
        upsert doc PushOp.update (some 7) none none 5500
          (record { rows = []; notified = false }))).0;
  remote = [];
  files = (7, stored) ∷ [];
  siblings = [];
}

-- While the job waits for the document to be done, the file is written again.
abbrev write_again : ℕ → Db → Db
write_again n s =
    if n == 1
    then on_queue (upsert doc PushOp.update (some 7) none none 6500)
        (set_dirty_since 7 (some 6400) s)
    else s

abbrev parked_row : Row
parked_row = record {
  op = bytes "update";
  content_ino = some 7;
  rename_to = none;
  remote_id = some (bytes "d1");
  inflight_started_at = some 6000;
  pending_op = some (bytes "update");
  pending_content_ino = some 7;
  pending_rename_to = none;
  last_error = none;
  attempt = 0;
  updated_at = 6500;
  poisoned = false;
  last_status = none;
}

sending_text : is_utf8 (read_all_content 7 sending) ≡ true
unfolding read_all_content File.read_all_content get utf8_rest
sending_text = refl

parked_there :
    get doc (write_again 1 (stamp 7 doc (bytes "d1") (write_again 0 sending))).queue.rows
    ≡ some parked_row
unfolding get insert update upsert claim_next claimable next_row set_dirty_since set_remote_id
    Queue.set_remote_id is_macos_noise_path is_noise_root is_noise_basename as_str parse
parked_there = refl

parked_write_not_dirty_example :
    (get doc (process_job kind write_again 7000 (text_job doc 7 0) sending).queue.rows
      ≡ some (promote (bytes "update") 7000 parked_row))
    × (get_dirty_since 7 (process_job kind write_again 7000 (text_job doc 7 0) sending) ≡ none)
parked_write_not_dirty_example =
    parked_write_not_dirty kind write_again 7000 doc 7 0 sending (bytes "d1") (bytes "update")
      parked_row sending_text refl parked_there refl

process_job-IsIdle_example :
    IsIdle doc (process_job kind write_again 7000 (text_job doc 7 0) sending)
process_job-IsIdle_example = process_job-IsIdle kind write_again 7000 (text_job doc 7 0) sending

mime_of_scan : guess_mime (bytes "Scan.JPeg") ≡ bytes "image/jpeg"
unfolding guess_mime
mime_of_scan = refl

surrogate_is_not_text : is_utf8 (237 ∷ 160 ∷ 128 ∷ []) ≡ false
unfolding utf8_rest
surrogate_is_not_text = refl

accent_is_text : is_utf8 (99 ∷ 195 ∷ 169 ∷ []) ≡ true
unfolding utf8_rest
accent_is_text = refl
