-- ===== src/Cache/Fs/Query.antt =====
-- The operations of `SupermemoryFs` that only read the tables (crates/smfs-core/src/cache/fs.rs);
-- `lookup`, `readdir` and `readdir_plus` may change the dentry cache and the hydration queue.
-- `profile` has the attributes of the virtual file `profile.md` where the mount has an API client.
use smfs.Prelude.{
  ℕ, ◌+◌, Bool, true, false, not, ◌&&◌, Option, none, some, List, [], ◌∷◌, ◌++◌, any, length,
  is_some, if◌then◌else◌,
}
use mathlib.Core.Option
use smfs.Prelude.Eq.{Text, text_eq, nat_eq, ◌==◌}
use smfs.Prelude.Text.{is_empty}
use smfs.Prelude.Map.{Map, get}
use smfs.Vfs.Types.{FileAttr, DirEntry, FilesystemStats}
use smfs.Vfs.Error.{
  not_found, not_a_directory, is_a_directory, not_a_symlink, not_supported, Result, ok, err, ◌>>=◌,
}
use smfs.Vfs.Path.{validate_name}
use smfs.Vfs.Mem.Query.{sort}
use smfs.Cache.Hydration
use smfs.Cache.Hydration.{HydrationKey, negative_ttl}
use smfs.Cache.Fs.{
  root_ino, profile_ino, profile_name, Row, LruCache, Fs, row_to_attr, is_dir, is_symlink, as_dir,
  filepath_in, resolve_filepath, ok_or, guard,
}
use smfs.Cache.Fs.Table.{Key, key_eq, at, names_in}

-- the row of a parent, which has to be a directory
abbrev pub parent_row : ℕ → Map ℕ Row → Result Row
parent_row ino inodes = do
  r ← ok_or not_found (get ino inodes)
  _ ← guard (is_dir r) not_a_directory
  ok r

abbrev pub attr_of : ℕ → Map ℕ Row → Option FileAttr
attr_of ino inodes = Option.map {A = Row} {B = FileAttr} (row_to_attr ino) (get ino inodes)

abbrev pub is_profile : ℕ → Text → Bool
is_profile parent_ino name = parent_ino == root_ino && name == profile_name

-- `hydration.enqueue`, where the mount has an API client and the path is known
abbrev pub hydrate : ⦃lru : LruCache⦄ → Bool → Option HydrationKey → ℕ → Fs → Fs
hydrate false key instant s = s
hydrate true none instant s = s
hydrate true (some key) instant s = record s {
  hydration = Hydration.enqueue key instant negative_ttl s.hydration;
}

module _ ⦃lru : LruCache⦄ (profile : Option FileAttr) where
  -- the entry as the table has it, and the cache after it
  abbrev pub find_dentry : ℕ → Text → ℕ → Fs → Option FileAttr × Fs
  find_dentry parent_ino name instant s = elim (get (at parent_ino name) s.dentries) [
    | none ↦ (
      none,
      hydrate (is_some profile)
          (Option.map {A = Text} {B = HydrationKey} HydrationKey.exact
            (filepath_in parent_ino name s.dentries))
          instant s,
    )
    | some i ↦ (attr_of i s.inodes, record s { cache = lru.put (at parent_ino name) i s.cache })
  ]

  abbrev pub find_entry : ℕ → Text → ℕ → Fs → Option FileAttr × Fs
  find_entry parent_ino name instant s =
      let touched = record s { cache = lru.touch (at parent_ino name) s.cache } in
      elim (lru.find (at parent_ino name) s.cache) [
        | some i ↦ (attr_of i s.inodes, touched)
        | none ↦ find_dentry parent_ino name instant touched
      ]

  unfoldable pub lookup : ℕ → Text → ℕ → Fs → Result (Option FileAttr × Fs)
  lookup parent_ino name instant s = do
    _ ← validate_name name
    (if is_profile parent_ino name && is_some profile
        then ok (profile, s)
        else (do _ ← parent_row parent_ino s.inodes; ok (find_entry parent_ino name instant s)))

  unfoldable pub getattr : ℕ → Fs → Option FileAttr
  getattr ino s = if ino == profile_ino && is_some profile then profile else attr_of ino s.inodes

  -- the names of a directory of the tables
  abbrev pub dir_names : ℕ → Fs → Option (List Text)
  dir_names ino s = elim (get ino s.inodes) [
    | none ↦ none
    | some r ↦ if is_dir r then some (sort (λ name. name) (names_in ino s.dentries)) else none
  ]

  abbrev pub add_profile : ℕ → List Text → List Text
  add_profile ino names =
      if ino == root_ino && (is_some profile && not (any (λ w. w == profile_name) names))
      then names ++ profile_name ∷ []
      else names

  abbrev pub dir_key : ℕ → Fs → Option HydrationKey
  dir_key ino s =
      Option.map {A = Text} {B = HydrationKey} (λ p. HydrationKey.prefix (as_dir p))
        (resolve_filepath ino s.dentries)

  -- an empty listing is queued for hydration
  unfoldable pub readdir : ℕ → ℕ → Fs → Option (List Text) × Fs
  readdir ino instant s = elim (dir_names ino s) [
    | none ↦ (none, s)
    | some names ↦ (
      some (add_profile ino names),
      if is_empty names then hydrate (is_some profile) (dir_key ino s) instant s else s,
    )
  ]

  -- `query_dir_entries`: the join with `fs_inode` drops a name without a row
  unfoldable pub entries_of : ℕ → Map ℕ Row → Map Key ℕ → List DirEntry
  entries_of p inodes [] = []
  entries_of p inodes ((k, i) ∷ rest) =
      let others = entries_of p inodes rest in
      if k.parent_ino == p
      then elim (get i inodes) [
        | none ↦ others
        | some r ↦ record { name = k.name; attr = row_to_attr i r } ∷ others
      ]
      else others

  abbrev pub append_profile : ℕ → List DirEntry → List DirEntry
  append_profile ino entries =
      if ino == root_ino && not (any (λ d. d.name == profile_name) entries)
      then elim profile [
        | none ↦ entries
        | some a ↦ entries ++ record { name = profile_name; attr = a } ∷ []
      ]
      else entries

  unfoldable pub readdir_plus : ℕ → ℕ → Fs → Option (List DirEntry) × Fs
  readdir_plus ino instant s = elim (get ino s.inodes) [
    | none ↦ (none, s)
    | some r ↦
        let entries = sort (λ d. d.name) (entries_of ino s.inodes s.dentries) in
        if not (is_dir r) then (none, s) else (
          some (append_profile ino entries),
          if is_empty entries then hydrate (is_some profile) (dir_key ino s) instant s else s,
        )
  ]

-- What `open` returns: the virtual file, or a `SqliteFile` by its inode number and its path.
pub data Handle : Type 0 where
  profile_file : Handle
  sqlite_file : ℕ → Option Text → Handle

module _ ⦃lru : LruCache⦄ where
  unfoldable pub open_file : Option FileAttr → ℕ → Fs → Result Handle
  open_file profile ino s =
      if ino == profile_ino
      then (if is_some profile then ok profile_file else err not_found)
      else (do
        r ← ok_or not_found (get ino s.inodes)
        _ ← guard (not (is_dir r)) is_a_directory
        _ ← guard (not (is_symlink r)) not_supported
        ok (sqlite_file ino (resolve_filepath ino s.dentries)))

  unfoldable pub readlink : ℕ → Fs → Result (Option Text)
  readlink ino s = elim (get ino s.inodes) [
    | none ↦ ok none
    | some r ↦
        if is_symlink r
        then elim (get ino s.symlinks) [ none ↦ err not_found | some target ↦ ok (some target) ]
        else err not_a_symlink
  ]

  -- `SUM(size)` over the inodes that are not directories
  abbrev pub bytes_of : Map ℕ Row → ℕ
  bytes_of [] = 0
  bytes_of ((i, r) ∷ rest) = (if is_dir r then 0 else r.size) + bytes_of rest

  unfoldable pub statfs : Fs → FilesystemStats
  statfs s = record { inodes = length s.inodes; bytes_used = bytes_of s.inodes }
