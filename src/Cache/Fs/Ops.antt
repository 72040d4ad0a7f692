-- ===== src/Cache/Fs/Ops.antt =====
-- The operations of `SupermemoryFs` that change the tables (crates/smfs-core/src/cache/fs.rs). Every
-- error is returned before the first change, or its transaction is rolled back.
use smfs.Prelude.{
  ℕ, ◌+◌, ◌-◌, max, leb, Bool, true, false, not, ◌&&◌, Option, none, some, length, is_some,
  if◌then◌else◌,
}
use mathlib.Core.Option
use smfs.Prelude.Eq.{Text, text_eq, nat_eq, ◌==◌}
use smfs.Prelude.Text.{is_empty}
use smfs.Prelude.Map.{Map, get, insert, remove}
use smfs.Vfs.Types.{
  Timestamp, FileAttr, SetAttr, TimeOrNow, new_file_with, new_dir_with, new_symlink,
  default_symlink_mode, with_permissions, type_bits, s_ifdir, s_ifreg,
}
use smfs.Vfs.Error.{
  not_found, already_exists, is_a_directory, not_a_directory, not_empty, permission_denied,
  not_supported, Result, ok, err, ◌>>=◌,
}
use smfs.Vfs.Path.{validate_name}
use smfs.Vfs.Mem.{get_time, or_keep}
use smfs.Cache.Op.{PushOp}
use smfs.Cache.Queue
use smfs.Cache.File
use smfs.Sync.Db.{remote_id_of}
use smfs.Cache.Fs.{
  Row, LruCache, Fs, Clock, new_row, touch_row, no_row, is_dir, is_symlink, filepath_in, ok_or,
  guard, rows_of, set_rows,
}
use smfs.Cache.Fs.Table.{Key, key_eq, at, names_in}
use smfs.Cache.Fs.Change.{
  add_inode, change_inode, add_dentry, drop_dentry, move_dentry, drop_inode, drop_links,
  set_remote_id, push_queue_upsert,
}
use smfs.Cache.Fs.Query.{parent_row, attr_of, is_profile, Handle, sqlite_file}
use smfs.Cache.Fs.Siblings.{cascade_unlink_derived_siblings, cascade_rename_derived_siblings}

abbrev pub check_free : Key → Map Key ℕ → Result (Unit {0})
check_free k dentries = guard (not (is_some (get k dentries))) already_exists

abbrev pub add_nlink : Timestamp → Row → Row
add_nlink now r = touch_row now (record r { nlink = r.nlink + 1 })

-- `MAX(nlink - 1, 2)`
abbrev pub less_nlink : Timestamp → Row → Row
less_nlink now r = touch_row now (record r { nlink = max (r.nlink - 1) 2 })

abbrev pub less_link : Timestamp → Row → Row
less_link now r = record r { nlink = r.nlink - 1; ctime = now }

abbrev pub more_link : Timestamp → Row → Row
more_link now r = record r { nlink = r.nlink + 1; ctime = now }

abbrev pub new_ctime : Timestamp → Row → Row
new_ctime now r = record r { ctime = now }

-- The UPDATEs of `apply_metadata_updates`; the type bits of the mode stay.
unfoldable pub set_fields : Timestamp → SetAttr → Row → Row
set_fields now a r = record r {
  mode =
      or_keep r.mode
        (Option.map {A = ℕ} {B = ℕ} (λ m. type_bits r.mode + (m - type_bits m)) a.mode);
  uid = or_keep r.uid a.uid;
  gid = or_keep r.gid a.gid;
  atime = or_keep r.atime (Option.map {A = TimeOrNow} {B = Timestamp} (get_time now) a.atime);
  mtime = or_keep r.mtime (Option.map {A = TimeOrNow} {B = Timestamp} (get_time now) a.mtime);
  ctime = now;
}

-- what a rename allows for the entry that stands under its new name
unfoldable pub check_replace : Bool → Bool → Bool → Result (Unit {0})
check_replace src_is_dir dst_is_dir dst_empty =
    if src_is_dir && not dst_is_dir
    then err not_a_directory
    else if not src_is_dir && dst_is_dir
    then err is_a_directory
    else if src_is_dir && not dst_empty
    then err not_empty
    else ok tt

module _ ⦃lru : LruCache⦄ where
  unfoldable pub mkdir : ℕ → Text → ℕ → ℕ → ℕ → Timestamp → Fs → Result (FileAttr × Fs)
  mkdir parent_ino name mode uid gid now s = do
    _ ← validate_name name
    _ ← parent_row parent_ino s.inodes
    _ ← check_free (at parent_ino name) s.dentries
    let m = with_permissions s_ifdir mode
    ok (
      new_dir_with s.next_ino m uid gid now,
      change_inode parent_ino (add_nlink now)
          (add_inode (at parent_ino name) (new_row m 2 uid gid 0 now) s),
    )

  unfoldable pub rmdir : ℕ → Text → Timestamp → Fs → Result Fs
  rmdir parent_ino name now s = do
    _ ← validate_name name
    i ← ok_or not_found (get (at parent_ino name) s.dentries)
    r ← ok_or not_found (get i s.inodes)
    _ ← guard (is_dir r) not_a_directory
    _ ← guard (is_empty (names_in i s.dentries)) not_empty
    let t = drop_dentry (at parent_ino name) s
    ok (change_inode parent_ino (less_nlink now) (record t { inodes = remove i t.inodes }))

  unfoldable pub create_file :
      ℕ → Text → ℕ → ℕ → ℕ → Timestamp → Fs → Result ((FileAttr × Handle) × Fs)
  create_file parent_ino name mode uid gid now s = do
    _ ← validate_name name
    _ ← parent_row parent_ino s.inodes
    _ ← check_free (at parent_ino name) s.dentries
    let m = with_permissions s_ifreg mode
    let t =
        change_inode parent_ino (touch_row now)
          (add_inode (at parent_ino name) (new_row m 1 uid gid 0 now) s)
    ok (
      (
        new_file_with s.next_ino m uid gid now,
        sqlite_file s.next_ino (filepath_in parent_ino name t.dentries),
      ),
      t,
    )

  -- after the last link the rows of the inode go
  abbrev pub drop_unlinked : ℕ → Option Row → Fs → Fs
  drop_unlinked i none s = s
  drop_unlinked i (some r) s = if leb r.nlink 0 then drop_links i (drop_inode i s) else s

  abbrev pub without_name : ℕ → Text → ℕ → Timestamp → Fs → Fs
  without_name parent_ino name i now s =
      change_inode i (less_link now)
        (change_inode parent_ino (touch_row now) (drop_dentry (at parent_ino name) s))

  abbrev pub remove_name : ℕ → Text → ℕ → Timestamp → Fs → Fs
  remove_name parent_ino name i now s =
      drop_unlinked i (get i (without_name parent_ino name i now s).inodes)
        (without_name parent_ino name i now s)

  -- the id is read after `fs_remote` has lost its row, where the last link went
  abbrev pub push_delete : Bool → Option Text → ℕ → ℕ → Fs → Fs
  push_delete false fp i ms s = s
  push_delete true none i ms s = s
  push_delete true (some fp) i ms s =
      push_queue_upsert fp PushOp.delete none none (remote_id_of (get i s.remote)) ms s

  unfoldable pub unlink : Option FileAttr → ℕ → Text → Clock → Fs → Result Fs
  unlink profile parent_ino name clock s = do
    _ ← validate_name name
    _ ← guard (not (is_profile parent_ino name)) permission_denied
    i ← ok_or not_found (get (at parent_ino name) s.dentries)
    r ← ok_or not_found (get i s.inodes)
    _ ← guard (not (is_dir r)) is_a_directory
    ok (
        cascade_unlink_derived_siblings parent_ino name (
          push_delete (is_some profile) (filepath_in parent_ino name s.dentries) i clock.ms
            (remove_name parent_ino name i clock.now s)))

  unfoldable pub symlink_at : ℕ → Text → Text → ℕ → ℕ → Timestamp → Fs → Result (FileAttr × Fs)
  symlink_at parent_ino name target uid gid now s = do
    _ ← validate_name name
    _ ← parent_row parent_ino s.inodes
    _ ← check_free (at parent_ino name) s.dentries
    let t = change_inode parent_ino (touch_row now) (
        add_inode (at parent_ino name) (new_row default_symlink_mode 1 uid gid (length target) now)
          s)
    ok (
      new_symlink s.next_ino (length target) uid gid now,
      record t { symlinks = insert s.next_ino target t.symlinks },
    )

  unfoldable pub link : ℕ → ℕ → Text → Timestamp → Fs → Result (FileAttr × Fs)
  link i new_parent_ino new_name now s = do
    _ ← validate_name new_name
    r ← ok_or not_found (get i s.inodes)
    _ ← guard (not (is_dir r)) is_a_directory
    _ ← parent_row new_parent_ino s.inodes
    _ ← check_free (at new_parent_ino new_name) s.dentries
    let t =
        change_inode new_parent_ino (touch_row now)
          (add_dentry (at new_parent_ino new_name) i (change_inode i (more_link now) s))
    a ← ok_or not_found (attr_of i t.inodes)
    ok (a, t)

  -- the rows of the entry that a rename replaces
  abbrev pub replace_dst : Key → ℕ → Fs → Fs
  replace_dst new j s = drop_links j (drop_inode j (record s { dentries = remove new s.dentries }))

  -- the move itself, where the new name is free in the table
  abbrev pub move_entry : Key → Key → ℕ → Timestamp → Fs → Fs
  move_entry old new i now s =
      let t = change_inode old.parent_ino (touch_row now) (
        change_inode i (new_ctime now)
          (move_dentry old new i (lru.pop new (lru.pop old s.cache)) s)) in
      if new.parent_ino == old.parent_ino then t else change_inode new.parent_ino (touch_row now) t

  abbrev pub rebind_remote : ℕ → Option Text → Fs → Fs
  rebind_remote i none s = s
  rebind_remote i (some id) s = set_remote_id i id s

  -- the DELETE of an overwritten document
  abbrev pub push_overwritten : Bool → Option Text → ℕ → Fs → Fs
  push_overwritten false fp ms s = s
  push_overwritten true none ms s = s
  push_overwritten true (some fp) ms s = push_queue_upsert fp PushOp.delete none none none ms s

  abbrev pub push_rename : Text → Text → ℕ → ℕ → Fs → Fs
  push_rename old_fp new_fp i ms s =
      push_queue_upsert old_fp PushOp.rename none (some new_fp) (remote_id_of (get i s.remote)) ms s

  -- the end of a rename on the push queue: a pending create is moved, else a rename is queued
  abbrev pub push_moved :
      Option Text → Option Text → Option Text → Bool → Option Text → ℕ → ℕ → Fs → Fs
  push_moved none new_fp dst_fp did_overwrite dst_remote_id i ms s = s
  push_moved (some old_fp) none dst_fp did_overwrite dst_remote_id i ms s = s
  push_moved (some old_fp) (some new_fp) dst_fp did_overwrite dst_remote_id i ms s =
      let r = Queue.retarget_pending_create old_fp new_fp dst_remote_id ms s.queue in
      let t = record s { queue = r.0 } in
      if r.1
      then rebind_remote i dst_remote_id t
      else push_rename old_fp new_fp i ms (push_overwritten did_overwrite dst_fp ms t)

  abbrev pub finish_rename :
      Option FileAttr → Key → Key → ℕ → Bool → Option Text → Clock → Map Key ℕ → Fs → Fs
  finish_rename profile old new i did_overwrite dst_remote_id clock before s =
      let t = move_entry old new i clock.now s in
      cascade_rename_derived_siblings old.parent_ino old.name new.parent_ino new.name (
        if is_some profile
        then push_moved (filepath_in old.parent_ino old.name before)
            (filepath_in new.parent_ino new.name t.dentries)
            (filepath_in new.parent_ino new.name before) did_overwrite dst_remote_id i clock.ms t
        else t)

  unfoldable pub rename : Option FileAttr → ℕ → Text → ℕ → Text → Clock → Fs → Result Fs
  rename profile old_parent old_name new_parent new_name clock s = do
    let old = at old_parent old_name
    let new = at new_parent new_name
    _ ← validate_name old_name
    _ ← validate_name new_name
    i ← ok_or not_found (get old s.dentries)
    _ ← parent_row new_parent s.inodes
    src ← ok_or no_row (get i s.inodes)
    elim (get new s.dentries) [
      | none ↦ ok (finish_rename profile old new i false none clock s.dentries s)
      | some j ↦ if j == i then ok s else (do
        dst ← ok_or no_row (get j s.inodes)
        _ ← check_replace (is_dir src) (is_dir dst) (is_empty (names_in j s.dentries))
        ok (
            finish_rename profile old new i true (remote_id_of (get j s.remote)) clock s.dentries
              (replace_dst new j s)))
    ]

  abbrev pub resize_file : Option ℕ → ℕ → Row → Timestamp → Fs → Result Fs
  resize_file none i r now s = ok s
  resize_file (some size) i r now s = do
    _ ← guard (not (is_dir r)) is_a_directory
    _ ← guard (not (is_symlink r)) not_supported
    ok (set_rows i (File.truncate size now (rows_of i s)) s)

  unfoldable pub setattr : ℕ → SetAttr → Timestamp → Fs → Result (FileAttr × Fs)
  setattr i a now s = do
    r ← ok_or not_found (get i s.inodes)
    sized ← resize_file a.size i r now s
    let t = change_inode i (set_fields now a) sized
    result ← ok_or not_found (attr_of i t.inodes)
    ok (result, t)
