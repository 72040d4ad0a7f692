-- ===== src/Cache/Fs/Handles.antt =====
-- The open files of `SupermemoryFs`: `SqliteFile` of crates/smfs-core/src/cache/file.rs on the
-- tables, and `import_file` of crates/smfs-core/src/cache/fs.rs, which writes one.
pub mod Sends
use smfs.Prelude.{
  ℕ, ◌+◌, Bool, true, false, Option, none, some, List, [], ◌∷◌, is_some, if◌then◌else◌,
}
use mathlib.Core.Option
use smfs.Prelude.Eq.{Text, nat_eq, ◌==◌}
use smfs.Prelude.Text.{is_empty}
use smfs.Prelude.Map.{Map, get}
use smfs.Vfs.Types.{FileAttr}
use smfs.Vfs.Error.{VfsError, not_found, already_exists, Result, ok, err}
use smfs.Cache.Op.{PushOp}
use smfs.Cache.File
use smfs.Cache.File.{Outcome, done, failed, panicked}
use smfs.Sync.Db.{Remote, remote_id_of}
use smfs.Cache.Fs.{Row, LruCache, Fs, Clock, ok_or, rows_of, set_rows}
use smfs.Cache.Fs.Change.{push_queue_upsert}
use smfs.Cache.Fs.Query.{attr_of, Handle, sqlite_file}
use smfs.Cache.Fs.Ops.{create_file}
use smfs.Cache.Fs.Siblings.{split_last, dir_of, ensure_dirs}

abbrev pub push_debounce_ms : ℕ
push_debounce_ms = 500

-- `unwrap_or(0)` of the query for the size
abbrev pub size_at : Option Row → ℕ
size_at none = 0
size_at (some r) = r.size

abbrev pub flush_op : Option Remote → PushOp
flush_op none = PushOp.create
flush_op (some r) = PushOp.update

module _ ⦃lru : LruCache⦄ where
  unfoldable pub write_file : ℕ → ℕ → List ℕ → Clock → Fs → Fs × Outcome ℕ
  write_file i offset payload clock s =
      let r = File.write offset payload clock.now clock.ms (rows_of i s) in (set_rows i r.0 s, r.1)

  unfoldable pub truncate_file : ℕ → ℕ → Clock → Fs → Fs
  truncate_file i size clock s = set_rows i (File.truncate size clock.now (rows_of i s)) s

  -- A file that is empty is not sent.
  abbrev pub push_content : Text → ℕ → ℕ → Fs → Fs
  push_content fp i ms s =
      if size_at (get i s.inodes) == 0
      then s
      else push_queue_upsert fp (flush_op (get i s.remote)) (some i) none
          (remote_id_of (get i s.remote)) (ms + push_debounce_ms) s

  -- with an API client, and a path known when the file was opened
  unfoldable pub flush : Bool → Option Text → ℕ → ℕ → Fs → Fs
  flush false fp i ms s = s
  flush true none i ms s = s
  flush true (some fp) i ms s = push_content fp i ms s

  abbrev pub getattr_file : ℕ → Fs → Result FileAttr
  getattr_file i s = ok_or not_found (attr_of i s.inodes)

  abbrev pub flush_written : Bool → ℕ → Option Text → ℕ → Fs × Outcome ℕ → Fs × Option Bool
  flush_written api i fp ms (s, done n) = (flush api fp i ms s, some true)
  flush_written api i fp ms (s, failed e) = (s, none)
  flush_written api i fp ms (s, panicked) = (s, none)

  abbrev pub fill_handle : Bool → List ℕ → Clock → Handle → Fs → Fs × Option Bool
  fill_handle api contents clock Handle.profile_file s = (s, none)
  fill_handle api contents clock (sqlite_file i fp) s =
      if is_empty contents
      then (flush api fp i clock.ms s, some true)
      else flush_written api i fp clock.ms (write_file i 0 contents clock s)

  abbrev pub fill_created :
      Bool → List ℕ → Clock → Fs → Result ((FileAttr × Handle) × Fs) → Fs × Option Bool
  fill_created api contents clock s (ok ((a, handle), t)) = fill_handle api contents clock handle t
  fill_created api contents clock s (err VfsError.already_exists) = (s, some false)
  fill_created api contents clock s (err e) = (s, none)

  -- `none` for an error; its message is left out.
  unfoldable pub import_file : Bool → Text → List ℕ → Clock → Fs → Fs × Option Bool
  import_file api filepath contents clock s = elim (split_last filepath) [
    | none ↦ (s, none)
    | some (dir, name) ↦
        let r = ensure_dirs clock.now (dir_of dir) s in
        if is_empty name
        then (s, none)
        else fill_created api contents clock r.1 (create_file r.0 name 0o644 0 0 clock.now r.1)
  ]
