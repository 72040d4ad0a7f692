-- ===== src/Vfs/Mem/Handle.antt =====
-- `MemFile`, the handle of crates/smfs-core/src/vfs/mem.rs: an inode number, and the shared state.
-- Offsets and lengths are taken to stay below 2 ^ 64.
use smfs.Prelude.{
  ℕ, ◌+◌, ◌-◌, min, Option, none, some, List, ltb, length, take, drop, if◌then◌else◌,
}
use smfs.Prelude.Eq.{nat_eq}
use smfs.Prelude.Map.{get, insert}
use smfs.Prelude.Vec.{resize, copy_from_slice}
use smfs.Vfs.Error.{not_found, is_a_directory, not_supported, Result, ok, err, ◌>>=◌}
use smfs.Vfs.Types.{Timestamp, FileAttr}
use smfs.Vfs.Mem.{Node, file, directory, symlink, Inner, attr, blocks_for, ok_or}

-- a handle works on a file only
abbrev pub file_of : Option Node → Result (FileAttr × List ℕ)
file_of none = err not_found
file_of (some (file a content)) = ok (a, content)
file_of (some (directory a children)) = err is_a_directory
file_of (some (symlink a target)) = err not_supported

-- `data[start..end]`
unfoldable pub read : ℕ → ℕ → ℕ → Inner → Result (List ℕ)
read ino offset size s = do
  (a, content) ← file_of (get ino s.nodes)
  let start = min offset (length content)
  let stop = min (start + size) (length content)
  ok (take (stop - start) (drop start content))

abbrev pub set_content : Timestamp → ℕ → FileAttr → FileAttr
set_content now size a = record a {
  size = size;
  blocks = blocks_for size;
  mtime = now;
  ctime = now;
}

abbrev pub written : ℕ → List ℕ → List ℕ → List ℕ
written offset payload content = copy_from_slice offset payload (
    if ltb (length content) (offset + length payload)
    then resize (offset + length payload) content
    else content)

unfoldable pub write : ℕ → ℕ → List ℕ → Timestamp → Inner → Result (ℕ × Inner)
write ino offset payload now s = do
  (a, content) ← file_of (get ino s.nodes)
  let after = written offset payload content
  ok (
    length payload,
    record s { nodes = insert ino (file (set_content now (length after) a) after) s.nodes },
  )

unfoldable pub truncate : ℕ → ℕ → Timestamp → Inner → Result Inner
truncate ino size now s = do
  (a, content) ← file_of (get ino s.nodes)
  ok (record s { nodes = insert ino (file (set_content now size a) (resize size content)) s.nodes })

unfoldable pub getattr : ℕ → Inner → Result FileAttr
getattr ino s = do node ← ok_or not_found (get ino s.nodes); ok (attr node)
