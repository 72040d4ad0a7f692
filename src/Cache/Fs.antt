-- ===== src/Cache/Fs.antt =====
-- The state of `SupermemoryFs` (crates/smfs-core/src/cache/fs.rs): the tables of
-- crates/smfs-core/src/cache/schema.sql by their keys, in the order of their row ids, the dentry
-- cache and the hydration queue. `AUTOINCREMENT` never gives an inode number twice. A statement of
-- SQL is a change of its table, and fails only where it violates a constraint.
pub mod Table
pub mod Change
pub mod Query
pub mod Siblings
pub mod Ops
pub mod Reconcile
pub mod Coherence
pub mod Lookup
pub mod Filepath
pub mod Dirty
pub mod Entries
pub mod Agree
pub mod Deletes
pub mod Below
pub mod Handles
pub mod Iso
pub mod Sample
mod Tests
use smfs.Prelude.{
  ℕ, zero, suc, length, ◌+◌, ◌-◌, ◌/◌, ◌^◌, Bool, true, false, ◌&&◌, Option, none, some, List, [],
  ◌∷◌, ◌++◌, ◌≡◌, if◌then◌else◌,
}
use mathlib.Core.Option
use smfs.Prelude.Eq.{Text, text_eq, nat_eq, bytes, ◌==◌}
use smfs.Prelude.Map.{Map, get, insert, update}
use smfs.Vfs.Types.{Timestamp, FileAttr, preferred_block_size, type_bits, s_ifdir, s_iflnk}
use smfs.Vfs.Error.{VfsError, io, Result, ok, err}
use smfs.Cache.Queue.{PushQueue}
use smfs.Cache.Hydration
use smfs.Cache.File.{Chunks, FileRows, Inode}
use smfs.Sync.Db.{Remote}
use smfs.Cache.Fs.Table.{Key, key_eq, name_of}

abbrev pub root_ino : ℕ
root_ino = 1

-- profile.rs
abbrev pub profile_ino : ℕ
profile_ino = 2 ^ 64 - 2

abbrev pub profile_name : Text
profile_name = bytes "profile.md"

-- A row of `fs_inode` without its key.
pub record Row : Type 0 where
  pub mode : ℕ
  pub nlink : ℕ
  pub uid : ℕ
  pub gid : ℕ
  pub size : ℕ
  pub atime : Timestamp
  pub mtime : Timestamp
  pub ctime : Timestamp
  pub rdev : ℕ
  pub dirty_since : Option ℕ
  pub derived : Bool

-- `LruCache` of the `lru` crate, from the names in directories to inode numbers: `get` returns
-- `find k c` and leaves `touch k c`; `put` may drop other entries.
pub record LruCache : Type 1 where
  pub Cache : Type 0
  pub find : Key → Cache → Option ℕ
  pub empty : Cache
  pub touch : Key → Cache → Cache
  pub put : Key → ℕ → Cache → Cache
  pub pop : Key → Cache → Cache
  pub find-empty : (k : Key) → find k empty ≡ none
  pub find-touch : (k j : Key) (c : Cache) → find j (touch k c) ≡ find j c
  pub find-put :
      (k : Key) (i : ℕ) (j : Key) (c : Cache) (l : ℕ)
      → find j (put k i c) ≡ some l
      → if k == j then i ≡ l else find j c ≡ some l
  pub find-pop : (k j : Key) (c : Cache) → find j (pop k c) ≡ (if k == j then none else find j c)

pub record Fs ⦃lru : LruCache⦄ : Type 0 where
  pub inodes : Map ℕ Row
  pub next_ino : ℕ
  pub dentries : Map Key ℕ
  pub blobs : Map ℕ Chunks
  pub symlinks : Map ℕ Text
  pub remote : Map ℕ Remote
  pub queue : PushQueue
  pub cache : lru.Cache
  pub hydration : Hydration.Inner

-- The readings of the clocks during an operation: `Timestamp::now`, `now_ms` and `Instant::now`.
pub record Clock : Type 0 where
  pub now : Timestamp
  pub ms : ℕ
  pub instant : ℕ

-- `Db::row_to_attr`
unfoldable pub row_to_attr : ℕ → Row → FileAttr
row_to_attr ino r = record {
  ino = ino;
  mode = r.mode;
  nlink = r.nlink;
  uid = r.uid;
  gid = r.gid;
  size = r.size;
  blocks = (r.size + 511) / 512;
  atime = r.atime;
  mtime = r.mtime;
  ctime = r.ctime;
  rdev = r.rdev;
  blksize = preferred_block_size;
}

-- the row of an INSERT into `fs_inode`
abbrev pub new_row : ℕ → ℕ → ℕ → ℕ → ℕ → Timestamp → Row
new_row mode nlink uid gid size now = record {
  mode = mode;
  nlink = nlink;
  uid = uid;
  gid = gid;
  size = size;
  atime = now;
  mtime = now;
  ctime = now;
  rdev = 0;
  dirty_since = none;
  derived = false;
}

abbrev pub touch_row : Timestamp → Row → Row
touch_row now r = record r { mtime = now; ctime = now }

-- The messages are those of rusqlite and of SQLite.
abbrev pub sql_err : Text → VfsError
sql_err message = io message

abbrev pub no_row : VfsError
no_row = sql_err (bytes "Query returned no rows")

abbrev pub not_unique : VfsError
not_unique = sql_err (bytes "UNIQUE constraint failed: fs_dentry.parent_ino, fs_dentry.name")

-- `s.ends_with('/')`
abbrev pub ends_with_slash : Text → Bool
ends_with_slash [] = false
ends_with_slash (c ∷ []) = c == b'/'
ends_with_slash (c ∷ d ∷ s) = ends_with_slash (d ∷ s)

abbrev pub as_dir : Text → Text
as_dir p = if ends_with_slash p then p else p ++ b'/' ∷ []

-- the path of a name in the directory with a given path
abbrev pub join_path : Text → Text → Text
join_path p name = as_dir p ++ name

-- `(mode & S_IFMT) == S_IFDIR`
abbrev pub is_dir : Row → Bool
is_dir r = type_bits r.mode == s_ifdir

abbrev pub is_symlink : Row → Bool
is_symlink r = type_bits r.mode == s_iflnk

-- The loop of `resolve_filepath` ends at the root or at an inode without an entry. `fuel` bounds
-- its rounds; a loop that uses it up has not ended.
pub data Walk : Type 0 where
  reached : List Text → Walk
  broken : Walk
  unfinished : Walk

abbrev pub push_name : Text → Walk → Walk
push_name name (reached parts) = reached (parts ++ name ∷ [])
push_name name broken = broken
push_name name unfinished = unfinished

-- the names from the root down to an inode
unfoldable pub walk : ℕ → ℕ → Map Key ℕ → Walk
walk zero ino dentries = unfinished
walk (suc fuel) ino dentries = if ino == root_ino then reached [] else elim (name_of ino dentries) [
  | none ↦ broken
  | some k ↦ push_name k.name (walk fuel k.parent_ino dentries)
]

-- `parts.join("/")`, after a slash
abbrev pub path_of : List Text → Text
path_of [] = bytes "/"
path_of (w ∷ []) = b'/' ∷ w
path_of (w ∷ v ∷ ws) = b'/' ∷ (w ++ path_of (v ∷ ws))

abbrev pub walked : Walk → Option Text
walked (reached parts) = some (path_of parts)
walked broken = none
walked unfinished = none

-- No walk without a cycle takes more rounds than there are entries.
unfoldable pub resolve_filepath : ℕ → Map Key ℕ → Option Text
resolve_filepath ino dentries = walked (walk (length dentries + 1) ino dentries)

-- `as_dir` of the parent's path and the name, as `unlink` and `rename` compute it
abbrev pub filepath_in : ℕ → Text → Map Key ℕ → Option Text
filepath_in parent_ino name dentries =
    Option.map {A = Text} {B = Text} (λ p. join_path p name) (resolve_filepath parent_ino dentries)

abbrev pub ok_or {ℓ} : {A : Type ℓ} → VfsError → Option A → Result A
ok_or e none = err e
ok_or e (some a) = ok a

abbrev pub guard : Bool → VfsError → Result (Unit {0})
guard test e = if test then ok tt else err e

-- `SqliteFile` works on the rows of one inode number.
abbrev pub blob_of : Option Chunks → Chunks
blob_of none = []
blob_of (some c) = c

abbrev pub inode_of : Row → Inode
inode_of r = record { size = r.size; mtime = r.mtime; ctime = r.ctime; dirty_since = r.dirty_since }

abbrev pub with_inode : Inode → Row → Row
with_inode n r = record r {
  size = n.size;
  mtime = n.mtime;
  ctime = n.ctime;
  dirty_since = n.dirty_since;
}

abbrev pub rows_of : ⦃lru : LruCache⦄ → ℕ → Fs → FileRows
rows_of ino s = record {
  inode = Option.map {A = Row} {B = Inode} inode_of (get ino s.inodes);
  chunks = blob_of (get ino s.blobs);
}

abbrev pub set_inode : Option Inode → ℕ → Map ℕ Row → Map ℕ Row
set_inode none ino inodes = inodes
set_inode (some n) ino inodes = update ino (with_inode n) inodes

abbrev pub set_rows : ⦃lru : LruCache⦄ → ℕ → FileRows → Fs → Fs
set_rows ino f s = record s {
  inodes = set_inode f.inode ino s.inodes;
  blobs = insert ino f.chunks s.blobs;
}
