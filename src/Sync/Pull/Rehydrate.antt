-- ===== src/Sync/Pull/Rehydrate.antt =====
-- The download of a raw file in crates/smfs-core/src/sync/pull.rs.
use smfs.Prelude.{ℕ, false, Option, some, List, ◌≡◌, refl, ◌∙◌, length}
use smfs.Prelude.Eq.{Text, nat_eq, beq_refl}
use smfs.Prelude.Map.{get, get-insert, get-update}
use smfs.Cache.File
use smfs.Cache.File.{Inode}
use smfs.Cache.Fs.{Row, LruCache, Fs, Clock, rows_of, set_rows, inode_of, with_inode}
use smfs.Cache.Fs.Reconcile.{Document, ino_by_remote_id}
use smfs.Cache.Fs.Siblings.{all_chunks}
use smfs.Sync.Pull.{Response, is_oversized, write_response, rehydrate_if_possible}

module _ ⦃lru : LruCache⦄ where
  set_rows-row :
      (i : ℕ) (b : List ℕ) (clock : Clock) (s : Fs) (r : Row)
      → get i s.inodes ≡ some r
      → (get i (set_rows i (File.rehydrate_raw_bytes b clock.now (rows_of i s)) s).blobs
          ≡ some (all_chunks b))
        × (get i (set_rows i (File.rehydrate_raw_bytes b clock.now (rows_of i s)) s).inodes
            ≡ some (record r { size = length b; mtime = clock.now }))
  unfolding File.rehydrate_raw_bytes
  set_rows-row i b clock s r row = rw row (
    get-insert i i (all_chunks b) s.blobs ∙ rw (beq_refl i) refl,
    get-update i i (with_inode (record (inode_of r) { size = length b; mtime = clock.now }))
          s.inodes
        ∙ rw (beq_refl i, row) refl,
  )

  -- A file whose raw content is fetched, within the size limit, has the fetched bytes and their
  -- length afterwards, whatever other tasks have written to it during the download, and is marked
  -- as written if they have.
  pub rehydrate_overwrites :
      (clock : Clock) (fetch : Text → Option Response) (meanwhile : Fs → Fs) (doc : Document)
      (s : Fs) (url : Text) (i : ℕ) (resp : Response) (b : List ℕ) (r : Row)
      → doc.url ≡ some url
      → ino_by_remote_id doc.id s.remote ≡ some i
      → fetch url ≡ some resp
      → is_oversized resp.content_length ≡ false
      → resp.body ≡ some b
      → get i (meanwhile s).inodes ≡ some r
      → (get i (rehydrate_if_possible clock fetch meanwhile doc s).blobs ≡ some (all_chunks b))
        × (get i (rehydrate_if_possible clock fetch meanwhile doc s).inodes
            ≡ some (record r { size = length b; mtime = clock.now }))
  unfolding rehydrate_if_possible
  rehydrate_overwrites clock fetch meanwhile doc s url i resp b r raw known answer small body row =
      rw (rehydrate_if_possible, raw, known, answer, write_response, small, body)
        (set_rows-row i b clock (meanwhile s) r row)
