-- ===== src/Cache/Fs/Siblings.antt =====
-- Directories that a path needs, and the derived files beside a document
-- (crates/smfs-core/src/cache/fs.rs).
use smfs.Prelude.{
  ℕ, ◌+◌, Bool, true, Option, none, some, List, [], ◌∷◌, ◌++◌, length, if◌then◌else◌,
}
use smfs.Prelude.Eq.{Text, text_eq, nat_eq, bytes, ◌==◌}
use smfs.Prelude.Text.{is_empty, split}
use smfs.Prelude.Map.{Map, get, remove}
use smfs.Vfs.Types.{Timestamp, s_ifdir, s_ifreg}
use smfs.Vfs.Error.{already_exists, invalid_path, Result, ok, err}
use smfs.Cache.File.{chunks_from}
use smfs.Cache.Fs.{root_ino, Row, LruCache, Fs, new_row, not_unique}
use smfs.Cache.Fs.Table.{Key, key_eq, at, count_ino}
use smfs.Cache.Fs.Change.{
  insert_inode, add_inode, change_inode, drop_dentry, move_dentry, drop_inode, put_blob,
}

abbrev pub non_empty : List Text → List Text
non_empty [] = []
non_empty (w ∷ ws) = if is_empty w then non_empty ws else w ∷ non_empty ws

-- `s.rfind('/')`, as what stands before and after it
abbrev pub split_last : Text → Option (Text × Text)
split_last [] = none
split_last (c ∷ s) = elim (split_last s) [
  | some (d, f) ↦ some (c ∷ d, f)
  | none ↦ if c == b'/' then some ([], s) else none
]

abbrev pub dir_of : Text → Text
dir_of d = if is_empty d then bytes "/" else d

-- the chunks of a whole content
abbrev pub all_chunks : List ℕ → List (ℕ × List ℕ)
all_chunks content = chunks_from (length content) 0 content

abbrev pub derived_at : Option ℕ → Map ℕ Row → Option (ℕ × Bool)
derived_at none inodes = none
derived_at (some i) inodes = elim (get i inodes) [ none ↦ none | some r ↦ some (i, r.derived) ]

abbrev pub transcription_suffixes : List Text
transcription_suffixes =
    bytes ".image-transcription.md"
    ∷ bytes ".pdf-transcription.md"
    ∷ bytes ".video-transcription.md"
    ∷ bytes ".audio-transcription.md"
    ∷ bytes ".webpage-transcription.md"
    ∷ []

abbrev pub error_suffix : Text
error_suffix = bytes ".smfs-error.txt"

-- DERIVED_SIBLING_SUFFIXES
abbrev pub derived_sibling_suffixes : List Text
derived_sibling_suffixes = transcription_suffixes ++ error_suffix ∷ []

module _ ⦃lru : LruCache⦄ where
  -- one component of a path: its entry, whatever it is, or a new directory
  unfoldable pub enter_dir : Timestamp → ℕ → Text → Fs → ℕ × Fs
  enter_dir now parent_ino part s = elim (get (at parent_ino part) s.dentries) [
    | some i ↦ (i, s)
    | none ↦ (
      s.next_ino,
      change_inode parent_ino (λ r. record r { nlink = r.nlink + 1 })
          (add_inode (at parent_ino part) (new_row (s_ifdir + 0o755) 2 0 0 0 now) s),
    )
  ]

  unfoldable pub enter_dirs : Timestamp → List Text → ℕ → Fs → ℕ × Fs
  enter_dirs now [] parent_ino s = (parent_ino, s)
  enter_dirs now (part ∷ rest) parent_ino s =
      enter_dirs now rest (enter_dir now parent_ino part s).0 (enter_dir now parent_ino part s).1

  unfoldable pub ensure_dirs : Timestamp → Text → Fs → ℕ × Fs
  ensure_dirs now path s = enter_dirs now (non_empty (split b'/' path)) root_ino s

  -- `SELECT d.ino, i.derived` from the join of `fs_dentry` and `fs_inode`
  abbrev pub find_derived : Key → Fs → Option (ℕ × Bool)
  find_derived k s = derived_at (get k s.dentries) s.inodes

  unfoldable pub remove_derived_sibling : Key → Fs → Fs
  remove_derived_sibling k s = elim (find_derived k s) [
    | none ↦ s
    | some (i, derived) ↦ if derived then drop_inode i (drop_dentry k s) else s
  ]

  unfoldable pub unlink_siblings : ℕ → Text → List Text → Fs → Fs
  unlink_siblings parent_ino name [] s = s
  unlink_siblings parent_ino name (suffix ∷ rest) s =
      unlink_siblings parent_ino name rest
        (remove_derived_sibling (at parent_ino (name ++ suffix)) s)

  abbrev pub cascade_unlink_derived_siblings : ℕ → Text → Fs → Fs
  cascade_unlink_derived_siblings parent_ino name s =
      unlink_siblings parent_ino name derived_sibling_suffixes s

  -- The UPDATE is by inode number. An inode with several entries violates the uniqueness of names,
  -- so the table stays; the cache is changed all the same.
  abbrev pub move_derived : Key → Key → ℕ → Fs → Fs
  move_derived old new i s =
      if count_ino i s.dentries == 1
      then move_dentry old new i (lru.pop old s.cache) s
      else record s { cache = lru.put new i (lru.pop old s.cache) }

  unfoldable pub rename_derived_sibling : Key → Key → Fs → Fs
  rename_derived_sibling old new s = elim (find_derived old s) [
    | none ↦ s
    | some (i, derived) ↦
        if derived
        then move_derived old new i (record s { dentries = remove new s.dentries })
        else s
  ]

  unfoldable pub rename_siblings : ℕ → Text → ℕ → Text → List Text → Fs → Fs
  rename_siblings old_parent old_name new_parent new_name [] s = s
  rename_siblings old_parent old_name new_parent new_name (suffix ∷ rest) s =
      rename_siblings old_parent old_name new_parent new_name rest (
        rename_derived_sibling (at old_parent (old_name ++ suffix))
          (at new_parent (new_name ++ suffix)) s)

  abbrev pub cascade_rename_derived_siblings : ℕ → Text → ℕ → Text → Fs → Fs
  cascade_rename_derived_siblings old_parent old_name new_parent new_name s =
      rename_siblings old_parent old_name new_parent new_name derived_sibling_suffixes s

  -- the size and the time of a content that replaces another
  abbrev pub resized : List ℕ → Timestamp → Row → Row
  resized content now r = record r { size = length content; mtime = now }

  -- `rewrite_file_content`, and the rewriting of a derived file
  unfoldable pub rewrite_file_content : ℕ → List ℕ → Timestamp → Fs → Fs
  rewrite_file_content i content now s =
      change_inode i (resized content now) (put_blob i (all_chunks content) s)

  abbrev pub derived_row : List ℕ → Timestamp → Row
  derived_row content now = record (new_row (s_ifreg + 0o444) 1 0 0 (length content) now) {
    derived = true;
  }

  -- the content and the size of a derived file that is there, and its entry in the cache
  unfoldable pub rewrite_derived : Key → ℕ → List ℕ → Timestamp → Fs → Fs
  rewrite_derived k i content now s =
      let t = rewrite_file_content i content now s in record t { cache = lru.put k i t.cache }

  abbrev pub put_derived : Key → List ℕ → Timestamp → Fs → Fs × Result ℕ
  put_derived k content now s = elim (find_derived k s) [
    | some (i, derived) ↦
        if derived then (rewrite_derived k i content now s, ok i) else (s, err already_exists)
    -- A name may stand for an inode that is gone: the new entry is refused, after its inode.
    | none ↦ elim (get k s.dentries) [
      | none ↦ (
        put_blob s.next_ino (all_chunks content) (add_inode k (derived_row content now) s),
        ok s.next_ino,
      )
      | some _ ↦ (insert_inode (derived_row content now) s, err not_unique)
    ]
  ]

  abbrev pub put_derived_in : Text → List ℕ → Timestamp → ℕ × Fs → Fs × Result ℕ
  put_derived_in name content now (parent_ino, s) = put_derived (at parent_ino name) content now s

  unfoldable pub create_derived_sibling : Text → List ℕ → Timestamp → Fs → Fs × Result ℕ
  create_derived_sibling filepath content now s = elim (split_last filepath) [
    | none ↦ (s, err (invalid_path (bytes "derived sibling needs path")))
    | some (dir, name) ↦
        if is_empty name
        then (s, err (invalid_path (bytes "derived sibling needs filename")))
        else put_derived_in name content now (ensure_dirs now (dir_of dir) s)
  ]
