-- ===== src/Vfs/Types.antt =====
-- crates/smfs-core/src/vfs/types.rs and crates/smfs-core/src/vfs/mode.rs. The bit operations on a
-- mode are written by division: `m & S_IFMT` is bits 12 to 15 of a `u32`, and the or of values
-- without a common bit is their sum.
use smfs.Prelude.{ℕ, ◌+◌, ◌*◌, ◌/◌, ◌%◌, Option, if◌then◌else◌}
use smfs.Prelude.Eq.{nat_eq, ◌==◌, Text}
use smfs.Prelude.Int.{ℤ}

abbrev pub s_ifreg : ℕ
s_ifreg = 0o100000

abbrev pub s_ifdir : ℕ
s_ifdir = 0o040000

abbrev pub s_iflnk : ℕ
s_iflnk = 0o120000

abbrev pub default_file_mode : ℕ
default_file_mode = s_ifreg + 0o644

abbrev pub default_dir_mode : ℕ
default_dir_mode = s_ifdir + 0o755

abbrev pub default_symlink_mode : ℕ
default_symlink_mode = s_iflnk + 0o777

abbrev pub preferred_block_size : ℕ
preferred_block_size = 4096

-- `m & S_IFMT`
abbrev pub type_bits : ℕ → ℕ
type_bits m = (m / 4096 % 16) * 4096

-- `S_IFDIR | (mode & 0o7777)` and `S_IFREG | (mode & 0o7777)`
abbrev pub with_permissions : ℕ → ℕ → ℕ
with_permissions kind mode = kind + mode % 4096

pub record Timestamp : Type 0 where
  pub sec : ℤ
  pub nsec : ℕ

-- `Timestamp::ZERO` and `Timestamp::from_secs`
abbrev pub from_secs : ℤ → Timestamp
from_secs sec = record { sec = sec; nsec = 0 }

pub data FileType : Type 0 where
  regular directory symlink : FileType

pub record FileAttr : Type 0 where
  pub ino : ℕ
  pub mode : ℕ
  pub nlink : ℕ
  pub uid : ℕ
  pub gid : ℕ
  pub size : ℕ
  pub blocks : ℕ
  pub atime : Timestamp
  pub mtime : Timestamp
  pub ctime : Timestamp
  pub rdev : ℕ
  pub blksize : ℕ

-- The constructors with an explicit mode and time; the ones without take the default mode and the
-- current time.
unfoldable pub new_file_with : ℕ → ℕ → ℕ → ℕ → Timestamp → FileAttr
new_file_with ino mode uid gid ts = record {
  ino = ino;
  mode = mode;
  nlink = 1;
  uid = uid;
  gid = gid;
  size = 0;
  blocks = 0;
  atime = ts;
  mtime = ts;
  ctime = ts;
  rdev = 0;
  blksize = preferred_block_size;
}

unfoldable pub new_dir_with : ℕ → ℕ → ℕ → ℕ → Timestamp → FileAttr
new_dir_with ino mode uid gid ts = record {
  ino = ino;
  mode = mode;
  nlink = 2;
  uid = uid;
  gid = gid;
  size = 0;
  blocks = 0;
  atime = ts;
  mtime = ts;
  ctime = ts;
  rdev = 0;
  blksize = preferred_block_size;
}

abbrev pub new_file : ℕ → ℕ → ℕ → Timestamp → FileAttr
new_file ino uid gid now = new_file_with ino default_file_mode uid gid now

abbrev pub new_dir : ℕ → ℕ → ℕ → Timestamp → FileAttr
new_dir ino uid gid now = new_dir_with ino default_dir_mode uid gid now

unfoldable pub new_symlink : ℕ → ℕ → ℕ → ℕ → Timestamp → FileAttr
new_symlink ino target_len uid gid now = record {
  ino = ino;
  mode = default_symlink_mode;
  nlink = 1;
  uid = uid;
  gid = gid;
  size = target_len;
  blocks = 0;
  atime = now;
  mtime = now;
  ctime = now;
  rdev = 0;
  blksize = preferred_block_size;
}

unfoldable pub file_type : FileAttr → FileType
file_type a =
    if type_bits a.mode == s_ifreg
    then regular
    else if type_bits a.mode == s_ifdir
    then directory
    else if type_bits a.mode == s_iflnk
    then symlink
    else regular

pub record DirEntry : Type 0 where
  pub name : Text
  pub attr : FileAttr

pub record FilesystemStats : Type 0 where
  pub inodes : ℕ
  pub bytes_used : ℕ

pub data TimeOrNow : Type 0 where
  now : TimeOrNow
  time : Timestamp → TimeOrNow

pub record SetAttr : Type 0 where
  pub mode : Option ℕ
  pub uid : Option ℕ
  pub gid : Option ℕ
  pub size : Option ℕ
  pub atime : Option TimeOrNow
  pub mtime : Option TimeOrNow
