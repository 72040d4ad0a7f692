-- ===== src/Vfs/Mem/Query.antt =====
-- The operations of `MemFs` that change nothing (crates/smfs-core/src/vfs/mem.rs).
use smfs.Prelude.{
  ℕ, ◌+◌, Bool, true, false, Option, none, some, List, [], ◌∷◌, ltb, length, if◌then◌else◌,
}
use mathlib.Core.Option
use smfs.Prelude.Eq.{Text, text_eq, nat_eq, ◌==◌}
use smfs.Prelude.Map.{Map, get}
use smfs.Vfs.Error.{not_found, is_a_directory, not_a_symlink, not_supported, Result, ok, err, ◌>>=◌}
use smfs.Vfs.Path.{validate_name}
use smfs.Vfs.Types.{FileAttr, DirEntry, FilesystemStats}
use smfs.Vfs.Mem.{Node, file, directory, symlink, Inner, Children, attr, children_of}

unfoldable pub lookup : ℕ → Text → Inner → Result (Option FileAttr)
lookup parent_ino name s = do
  _ ← validate_name name
  children ← children_of (get parent_ino s.nodes)
  ok (elim (get name children) [
    | none ↦ none
    | some i ↦ Option.map {A = Node} {B = FileAttr} attr (get i s.nodes)
  ])

unfoldable pub getattr : ℕ → Inner → Option FileAttr
getattr ino s = Option.map {A = Node} {B = FileAttr} attr (get ino s.nodes)

-- `String`'s order, on bytes
unfoldable pub text_leb : Text → Text → Bool
text_leb [] t = true
text_leb (c ∷ s) [] = false
text_leb (c ∷ s) (d ∷ t) =
    let rest = text_leb s t in if ltb c d then true else if c == d then rest else false

module _ {ℓ} {A : Type ℓ} (key : A → Text) where
  unfoldable pub insert_sorted : A → List A → List A
  insert_sorted x [] = x ∷ []
  insert_sorted x (y ∷ ys) =
      let rest = insert_sorted x ys in if text_leb (key x) (key y) then x ∷ y ∷ ys else y ∷ rest

  unfoldable pub sort : List A → List A
  sort [] = []
  sort (x ∷ xs) = insert_sorted x (sort xs)

abbrev pub keys : Children → List Text
keys [] = []
keys ((name, i) ∷ rest) = name ∷ keys rest

unfoldable pub readdir : ℕ → Inner → Option (List Text)
readdir ino s = elim (get ino s.nodes) [
  | none ↦ none
  | some (directory a children) ↦ some (sort (λ name. name) (keys children))
  | some _ ↦ none
]

unfoldable pub entries_of : Map ℕ Node → Children → List DirEntry
entries_of nodes [] = []
entries_of nodes ((name, i) ∷ rest) =
    let others = entries_of nodes rest in
    elim (get i nodes) [
      | none ↦ others
      | some node ↦ record { name = name; attr = attr node } ∷ others
    ]

unfoldable pub readdir_plus : ℕ → Inner → Option (List DirEntry)
readdir_plus ino s = elim (get ino s.nodes) [
  | none ↦ none
  | some (directory a children) ↦ some (sort (λ d. d.name) (entries_of s.nodes children))
  | some _ ↦ none
]

-- `MemFs::open`; a handle is the inode number
unfoldable pub open_file : ℕ → Inner → Result ℕ
open_file ino s = elim (get ino s.nodes) [
  | none ↦ err not_found
  | some (file a content) ↦ ok ino
  | some (directory a children) ↦ err is_a_directory
  | some (symlink a target) ↦ err not_supported
]

unfoldable pub readlink : ℕ → Inner → Result (Option Text)
readlink ino s = elim (get ino s.nodes) [
  | none ↦ ok none
  | some (symlink a target) ↦ ok (some target)
  | some _ ↦ err not_a_symlink
]

abbrev pub bytes_of : Map ℕ Node → ℕ
bytes_of [] = 0
bytes_of ((i, file a content) ∷ rest) = length content + bytes_of rest
bytes_of ((i, symlink a target) ∷ rest) = length target + bytes_of rest
bytes_of ((i, directory a children) ∷ rest) = bytes_of rest

unfoldable pub statfs : Inner → FilesystemStats
statfs s = record { inodes = length s.nodes; bytes_used = bytes_of s.nodes }
