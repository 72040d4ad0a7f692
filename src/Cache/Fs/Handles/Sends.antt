-- ===== src/Cache/Fs/Handles/Sends.antt =====
-- What a write and a flush of an open file leave for the push worker: `SqliteFile` of
-- crates/smfs-core/src/cache/file.rs, with the push queue and `read_all_content` of
-- crates/smfs-core/src/cache/db.rs.
use smfs.Prelude.{
  ℕ, ◌+◌, ◌≤◌, true, false, none, some, List, ◌≡◌, refl, sym, ap, ◌∙◌, arith, length,
}
use smfs.Prelude.Eq.{Text, text_eq, nat_eq, ◌==◌, beq_refl}
use smfs.Prelude.Map.{get, get-insert, get-update}
use smfs.Cache.Noise.{is_macos_noise_path}
use smfs.Cache.Op.{as_str}
use smfs.Cache.Queue
use smfs.Cache.Queue.Slots.{queued, IsSettled, queued-upsert}
use smfs.Cache.File
use smfs.Cache.File.{FileRows, Inode, max_file_size}
use smfs.Cache.File.Read.{Holds}
use smfs.Cache.File.Write.{overwrite, length-overwrite, write-Holds}
use smfs.Cache.File.Whole.{read_all_content_lem}
use smfs.Sync.Db.{remote_id_of}
use smfs.Cache.Fs.{Row, LruCache, Fs, Clock, rows_of, set_rows, inode_of, with_inode}
use smfs.Cache.Fs.Handles.{
  write_file, truncate_file, flush, flush_op, push_content, push_debounce_ms, size_at,
}

module _ ⦃lru : LruCache⦄ where
  -- The rows of an inode are those that were stored.
  rows_of-set_rows :
      (i : ℕ) (f : FileRows) (n : Inode) (s : Fs) (r : Row)
      → f.inode ≡ some n
      → get i s.inodes ≡ some r
      → rows_of i (set_rows i f s) ≡ f
  rows_of-set_rows i f n s r found row =
      let stored : get i (set_rows i f s).inodes ≡ some (with_inode n r) =
        rw (found) (get-update i i (with_inode n) s.inodes ∙ rw (beq_refl i, row) refl) in
      let blob : get i (set_rows i f s).blobs ≡ some f.chunks =
        get-insert i i f.chunks s.blobs ∙ rw (beq_refl i) refl in
      rw (stored, blob, sym found) refl

  -- The flush of a file that is not empty is one job; it changes no content.
  flush-queue :
      (fp : Text) (i ms : ℕ) (s : Fs) (n : ℕ)
      → size_at (get i s.inodes) ≡ n
      → 1 ≤ n
      → flush true (some fp) i ms s ≡ record s {
        queue =
            Queue.upsert fp
              (flush_op (get i s.remote))
              (some i)
              none
              (remote_id_of (get i s.remote))
              (ms + push_debounce_ms)
              s.queue;
      }
  unfolding flush
  flush-queue fp i ms s n sized some_bytes =
      let more : (size_at (get i s.inodes) == 0) ≡ false = rw sized (ground (arith, some_bytes)) in
      rw (push_content, more) refl

  -- After a write of a byte or more to a file that holds a content, at or before its end and below the size limit, and
  -- the flush, the newest job for the file's path is the sending of that file, as a new document
  -- where it has no remote id, and what the worker then reads is the content with the bytes written
  -- over it. The path is no noise of macOS, and only a row that is being sent has a pending slot.
  pub flush_sends_written :
      (fp : Text) (i offset : ℕ) (d : List ℕ) (clock : Clock) (s : Fs) (c : List ℕ) (r : Row)
      → get i s.inodes ≡ some r
      → Holds (rows_of i s) c
      → offset ≤ length c
      → offset + length d ≤ max_file_size
      → 1 ≤ length d
      → is_macos_noise_path fp ≡ false
      → ((q : Queue.Row) → get fp s.queue.rows ≡ some q → IsSettled q)
      → (queued fp (flush true (some fp) i clock.ms (write_file i offset d clock s).0).queue
          ≡ some (record {
            op = as_str (flush_op (get i s.remote));
            content_ino = some i;
            rename_to = none;
          }))
        × (File.read_all_content
              (rows_of i (flush true (some fp) i clock.ms (write_file i offset d clock s).0))
            ≡ overwrite offset d c)
  unfolding write_file
  flush_sends_written fp i offset d clock s c r row held inside fits some_bytes real settled =
      let f = (File.write offset d clock.now clock.ms (rows_of i s)).0 in
      let t = set_rows i f s in
      let written : Holds f (overwrite offset d c) =
        (write-Holds offset d clock.now clock.ms (rows_of i s) c held inside fits).1 in
      let stored : rows_of i t ≡ f = rows_of-set_rows i f written.node s r written.found row in
      let inode : get i t.inodes ≡ some (with_inode written.node r) =
        rw (written.found)
          (get-update i i (with_inode written.node) s.inodes ∙ rw (beq_refl i, row) refl) in
      let sized : size_at (get i t.inodes) ≡ length (overwrite offset d c) =
        ap size_at inode ∙ written.sized in
      let long : 1 ≤ length (overwrite offset d c) =
        omega (arith, length-overwrite offset d c inside, some_bytes) in
      let sent = flush-queue fp i clock.ms t (length (overwrite offset d c)) sized long in
      (
        ap (λ (u : Fs). queued fp u.queue) sent
            ∙ (queued-upsert fp fp (flush_op (get i s.remote)) (some i) none
                  (remote_id_of (get i s.remote)) (clock.ms + push_debounce_ms) s.queue real settled
                ∙ rw (beq_refl fp) refl),
        ap (λ (u : Fs). File.read_all_content (rows_of i u)) sent
            ∙ (ap File.read_all_content stored
                ∙ read_all_content_lem f (overwrite offset d c) written),
      )

  -- A file that is truncated to nothing is not sent by the flush: no job is queued for it, and it is
  -- marked as written only if it was before.
  pub emptied_file_not_sent :
      (fp : Text) (i : ℕ) (clock : Clock) (s : Fs) (r : Row)
      → get i s.inodes ≡ some r
      → ((flush true (some fp) i clock.ms (truncate_file i 0 clock s)).queue ≡ s.queue)
        × (get i (flush true (some fp) i clock.ms (truncate_file i 0 clock s)).inodes
            ≡ some (record r { size = 0; mtime = clock.now; ctime = clock.now }))
  unfolding flush truncate_file File.truncate
  emptied_file_not_sent fp i clock s r row =
      let n : Inode = record (inode_of r) { size = 0; mtime = clock.now; ctime = clock.now } in
      let inode : get i (truncate_file i 0 clock s).inodes
          ≡ some (record r { size = 0; mtime = clock.now; ctime = clock.now }) =
        rw row (get-update i i (with_inode n) s.inodes ∙ rw (beq_refl i, row) refl) in
      let nothing : size_at (get i (truncate_file i 0 clock s).inodes) ≡ 0 = ap size_at inode in
      rw (flush, push_content, nothing) (refl, inode)
