-- ===== src/Cache/Fs/Change.antt =====
-- The changes of the tables and of the dentry cache of which the operations of `SupermemoryFs`
-- (crates/smfs-core/src/cache/fs.rs) are made.
use smfs.Prelude.{ℕ, ◌+◌, Option, some}
use smfs.Prelude.Eq.{Text, nat_eq}
use smfs.Prelude.Map.{insert, remove, update}
use smfs.Cache.Op.{PushOp}
use smfs.Cache.Queue
use smfs.Sync.Db.{new_remote, mirror}
use smfs.Cache.File.{Chunks}
use smfs.Cache.Fs.{Row, LruCache, Fs}
use smfs.Cache.Fs.Table.{Key, key_eq, rekey}

module _ ⦃lru : LruCache⦄ where
  -- INSERT INTO `fs_inode`
  unfoldable pub insert_inode : Row → Fs → Fs
  insert_inode r s = record s { inodes = insert s.next_ino r s.inodes; next_ino = s.next_ino + 1 }

  -- INSERT INTO `fs_inode` and `fs_dentry`
  unfoldable pub add_inode : Key → Row → Fs → Fs
  add_inode k r s = record s {
    inodes = insert s.next_ino r s.inodes;
    next_ino = s.next_ino + 1;
    dentries = insert k s.next_ino s.dentries;
    cache = lru.put k s.next_ino s.cache;
  }

  unfoldable pub change_inode : ℕ → (Row → Row) → Fs → Fs
  change_inode i f s = record s { inodes = update i f s.inodes }

  unfoldable pub add_dentry : Key → ℕ → Fs → Fs
  add_dentry k i s = record s { dentries = insert k i s.dentries; cache = lru.put k i s.cache }

  unfoldable pub drop_dentry : Key → Fs → Fs
  drop_dentry k s = record s { dentries = remove k s.dentries; cache = lru.pop k s.cache }

  -- The new name is free; `cache` is the cache without the old one.
  unfoldable pub move_dentry : Key → Key → ℕ → lru.Cache → Fs → Fs
  move_dentry old new i cache s = record s {
    dentries = rekey old new s.dentries;
    cache = lru.put new i cache;
  }

  -- DELETE FROM `fs_inode` and the tables of an inode's content
  unfoldable pub drop_inode : ℕ → Fs → Fs
  drop_inode i s = record s { inodes = remove i s.inodes; blobs = remove i s.blobs }

  abbrev pub drop_links : ℕ → Fs → Fs
  drop_links i s = record s { symlinks = remove i s.symlinks; remote = remove i s.remote }

  abbrev pub put_blob : ℕ → Chunks → Fs → Fs
  put_blob i chunks s = record s { blobs = insert i chunks s.blobs }

  abbrev pub set_remote_id : ℕ → Text → Fs → Fs
  set_remote_id i id s = record s { remote = insert i (new_remote id) s.remote }

  abbrev pub set_mirrored_state : ℕ → Option ℕ → Text → ℕ → Fs → Fs
  set_mirrored_state i mirrored status ms s = record s {
    remote = update i (mirror mirrored (some status) (some ms)) s.remote;
  }

  abbrev pub push_queue_upsert : Text → PushOp → Option ℕ → Option Text → Option Text → ℕ → Fs → Fs
  push_queue_upsert fp op content_ino rename_to remote_id ms s = record s {
    queue = Queue.upsert fp op content_ino rename_to remote_id ms s.queue;
  }
