-- ===== src/Vfs/Mem.antt =====
-- `MemFs` of crates/smfs-core/src/vfs/mem.rs: the nodes by inode number, and one function per
-- operation. Each operation holds the one lock, so it is atomic. Every error is returned before
-- the first change of the state, so an error carries no state. `now` is the time of the clock,
-- which is taken not to move during an operation; counters are taken not to overflow.
pub mod Query
pub mod Handle
pub mod Sound
pub mod Calls
pub mod Invariant
pub mod Entries
pub mod Replaced
pub mod Content
pub mod Changes
pub mod Listing
pub mod Cycle
mod Tests
use smfs.Prelude.{
  ℕ, zero, suc, ◌+◌, ◌-◌, ◌*◌, ◌/◌, ◌%◌, Bool, true, false, not, ◌&&◌, Option, none, some, List, [],
  ◌∷◌, ltb, leb, length, if◌then◌else◌, is_some,
}
use mathlib.Core.Option
use smfs.Prelude.Eq.{Text, text_eq, nat_eq, ◌==◌}
use smfs.Prelude.Map.{Map, get, insert, remove, update}
use smfs.Prelude.Vec.{resize}
use smfs.Prelude.Text.{is_empty}
use smfs.Vfs.Error.{
  VfsError, not_found, already_exists, not_a_directory, is_a_directory, not_a_symlink, not_empty,
  not_supported, Result, ok, err, ◌>>=◌,
}
use smfs.Vfs.Path.{validate_name}
use smfs.Vfs.Types.{
  Timestamp, FileAttr, new_file, new_dir, new_symlink, DirEntry, FilesystemStats, TimeOrNow,
  SetAttr, type_bits, with_permissions, s_ifdir, s_ifreg,
}

abbrev pub root_ino : ℕ
root_ino = 1

abbrev pub Children : Type 0
Children = Map Text ℕ

pub data Node : Type 0 where
  file : FileAttr → List ℕ → Node
  directory : FileAttr → Children → Node
  symlink : FileAttr → Text → Node

pub record Inner : Type 0 where
  pub nodes : Map ℕ Node
  pub next_ino : ℕ

-- `Node::attr`
abbrev pub attr : Node → FileAttr
attr (file a content) = a
attr (directory a children) = a
attr (symlink a target) = a

-- a change through `Node::attr_mut`
abbrev pub attr_mut : (FileAttr → FileAttr) → Node → Node
attr_mut f (file a content) = file (f a) content
attr_mut f (directory a children) = directory (f a) children
attr_mut f (symlink a target) = symlink (f a) target

abbrev pub is_directory : Node → Bool
is_directory (directory a children) = true
is_directory _ = false

unfoldable pub blocks_for : ℕ → ℕ
blocks_for size = (size + 511) / 512

-- `MemFs::new`
unfoldable pub new : Timestamp → Inner
new now = record {
  nodes = (root_ino, directory (new_dir root_ino 0 0 now) []) ∷ [];
  next_ino = root_ino + 1;
}

-- The entries of a directory, or the error of an operation whose parent is not one.
abbrev pub children_of : Option Node → Result Children
children_of none = err not_found
children_of (some (directory a children)) = ok children
children_of (some _) = err not_a_directory

-- a name that an operation removes or moves
abbrev pub child_of : Text → Children → Result ℕ
child_of name children = elim (get name children) [ none ↦ err not_found | some i ↦ ok i ]

-- a name that an operation adds
abbrev pub check_free : Text → Children → Result (Unit {0})
check_free name children = if is_some (get name children) then err already_exists else ok tt

-- The change that an operation makes to its parent directory's node.
abbrev pub touch : Timestamp → FileAttr → FileAttr
touch now a = record a { mtime = now; ctime = now }

abbrev pub set_nlink : (ℕ → ℕ) → FileAttr → FileAttr
set_nlink f a = record a { nlink = f a.nlink }

abbrev pub change_dir : (FileAttr → FileAttr) → (Children → Children) → Node → Node
change_dir f g (directory a children) = directory (f a) (g children)
change_dir f g node = node

-- `setattr`: the size first, which only a file has
unfoldable pub set_size : Option ℕ → Node → Result Node
set_size none node = ok node
set_size (some size) (file a content) =
    ok (file (record a { size = size; blocks = blocks_for size }) (resize size content))
set_size (some size) (directory a children) = err is_a_directory
set_size (some size) (symlink a target) = err not_supported

abbrev pub get_time : Timestamp → TimeOrNow → Timestamp
get_time now TimeOrNow.now = now
get_time now (TimeOrNow.time t) = t

abbrev pub or_keep {ℓ} : {A : Type ℓ} → A → Option A → A
or_keep old none = old
or_keep old (some new_value) = new_value

-- the other fields; the mode's type bits stay
unfoldable pub set_fields : Timestamp → SetAttr → FileAttr → FileAttr
set_fields now r a = record a {
  mode =
      or_keep a.mode
        (Option.map {A = ℕ} {B = ℕ} (λ m. type_bits a.mode + (m - type_bits m)) r.mode);
  uid = or_keep a.uid r.uid;
  gid = or_keep a.gid r.gid;
  atime = or_keep a.atime (Option.map {A = TimeOrNow} {B = Timestamp} (get_time now) r.atime);
  mtime = or_keep a.mtime (Option.map {A = TimeOrNow} {B = Timestamp} (get_time now) r.mtime);
  ctime = now;
}

abbrev pub ok_or {ℓ} : {A : Type ℓ} → VfsError → Option A → Result A
ok_or e none = err e
ok_or e (some a) = ok a

unfoldable pub setattr : ℕ → SetAttr → Timestamp → Inner → Result (FileAttr × Inner)
setattr ino r now s = do
  node ← ok_or not_found (get ino s.nodes)
  sized ← set_size r.size node
  let changed = attr_mut (set_fields now r) sized
  ok (attr changed, record s { nodes = insert ino changed s.nodes })

-- The new node under the next inode number, and its name in the parent.
abbrev pub link_new : ℕ → Text → Node → (FileAttr → FileAttr) → Inner → Inner
link_new parent_ino name node f s = record {
  nodes =
      update parent_ino (change_dir f (insert name s.next_ino)) (insert s.next_ino node s.nodes);
  next_ino = s.next_ino + 1;
}

unfoldable pub mkdir : ℕ → Text → ℕ → ℕ → ℕ → Timestamp → Inner → Result (FileAttr × Inner)
mkdir parent_ino name mode uid gid now s = do
  _ ← validate_name name
  children ← children_of (get parent_ino s.nodes)
  _ ← check_free name children
  let a = record (new_dir s.next_ino uid gid now) { mode = with_permissions s_ifdir mode }
  ok (a, link_new parent_ino name (directory a []) (λ p. set_nlink (λ n. n + 1) (touch now p)) s)

-- an empty directory, or the error for any other node
abbrev pub check_empty_dir : Option Node → Result (Unit {0})
check_empty_dir none = err not_found
check_empty_dir (some (directory a children)) = if is_empty children then ok tt else err not_empty
check_empty_dir (some _) = err not_a_directory

unfoldable pub rmdir : ℕ → Text → Timestamp → Inner → Result Inner
rmdir parent_ino name now s = do
  _ ← validate_name name
  children ← children_of (get parent_ino s.nodes)
  i ← child_of name children
  _ ← check_empty_dir (get i s.nodes)
  ok (record s {
    nodes = remove i (
        update parent_ino
          (change_dir (λ p. set_nlink (λ n. if ltb 2 n then n - 1 else n) (touch now p))
            (remove name))
          s.nodes);
  })

unfoldable pub create_file :
    ℕ → Text → ℕ → ℕ → ℕ → Timestamp → Inner → Result ((FileAttr × ℕ) × Inner)
create_file parent_ino name mode uid gid now s = do
  _ ← validate_name name
  children ← children_of (get parent_ino s.nodes)
  _ ← check_free name children
  let a = record (new_file s.next_ino uid gid now) { mode = with_permissions s_ifreg mode }
  ok ((a, s.next_ino), link_new parent_ino name (file a []) (touch now) s)

abbrev pub check_not_dir : Option Node → Result Node
check_not_dir none = err not_found
check_not_dir (some (directory a children)) = err is_a_directory
check_not_dir (some node) = ok node

-- one link less, and no node after the last
abbrev pub drop_link : Timestamp → ℕ → Node → Map ℕ Node → Map ℕ Node
drop_link now i node nodes =
    if ltb 1 (attr node).nlink
    then update i (attr_mut (λ a. record a { nlink = a.nlink - 1; ctime = now })) nodes
    else remove i nodes

unfoldable pub unlink : ℕ → Text → Timestamp → Inner → Result Inner
unlink parent_ino name now s = do
  _ ← validate_name name
  children ← children_of (get parent_ino s.nodes)
  i ← child_of name children
  node ← check_not_dir (get i s.nodes)
  ok (record s {
    nodes = drop_link now i node (update parent_ino (change_dir (touch now) (remove name)) s.nodes);
  })

unfoldable pub symlink_at : ℕ → Text → Text → ℕ → ℕ → Timestamp → Inner → Result (FileAttr × Inner)
symlink_at parent_ino name target uid gid now s = do
  _ ← validate_name name
  children ← children_of (get parent_ino s.nodes)
  _ ← check_free name children
  let a = new_symlink s.next_ino (length target) uid gid now
  ok (a, link_new parent_ino name (symlink a target) (touch now) s)

unfoldable pub link : ℕ → ℕ → Text → Timestamp → Inner → Result (FileAttr × Inner)
link ino new_parent_ino new_name now s = do
  _ ← validate_name new_name
  node ← check_not_dir (get ino s.nodes)
  children ← children_of (get new_parent_ino s.nodes)
  _ ← check_free new_name children
  let linked = attr_mut (λ a. record a { nlink = a.nlink + 1; ctime = now }) node
  ok (
    attr linked,
    record s {
      nodes =
          update new_parent_ino (change_dir (touch now) (insert new_name ino))
            (insert ino linked s.nodes);
    },
  )

abbrev pub node_is_directory : Option Node → Bool
node_is_directory none = false
node_is_directory (some node) = is_directory node

abbrev pub dir_is_empty : Option Node → Bool
dir_is_empty (some (directory a children)) = is_empty children
dir_is_empty _ = true

-- what a rename does with the node that has the new name
unfoldable pub check_replace : Option Node → Option Node → Result (Unit {0})
check_replace src dst =
    if node_is_directory src && not (node_is_directory dst)
    then err not_a_directory
    else if not (node_is_directory src) && node_is_directory dst
    then err is_a_directory
    else if not (dir_is_empty dst)
    then err not_empty
    else ok tt

-- the move itself, after the node at the new name is gone
unfoldable pub move : ℕ → Text → ℕ → Text → ℕ → Timestamp → Map ℕ Node → Map ℕ Node
move old_parent old_name new_parent new_name i now nodes =
    update i (attr_mut (λ a. record a { ctime = now })) (
      update new_parent (change_dir (touch now) (insert new_name i))
        (update old_parent (change_dir (touch now) (remove old_name)) nodes))

unfoldable pub rename : ℕ → Text → ℕ → Text → Timestamp → Inner → Result Inner
rename old_parent old_name new_parent new_name now s = do
  _ ← validate_name old_name
  _ ← validate_name new_name
  sources ← children_of (get old_parent s.nodes)
  i ← child_of old_name sources
  targets ← children_of (get new_parent s.nodes)
  elim (get new_name targets) [
    | none ↦ ok (record s { nodes = move old_parent old_name new_parent new_name i now s.nodes })
    | some j ↦ if j == i then ok s else (do
      _ ← check_replace (get i s.nodes) (get j s.nodes)
      ok (record s {
        nodes = move old_parent old_name new_parent new_name i now (remove j s.nodes);
      }))
  ]
