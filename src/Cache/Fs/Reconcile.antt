-- ===== src/Cache/Fs/Reconcile.antt =====
-- What the pull does to the tables with one document of the server: `reconcile_one` and
-- `apply_deletion` of crates/smfs-core/src/cache/fs.rs. A document's `updated_at` is parsed by
-- `parse_iso`, an argument here; times are epoch milliseconds that are not negative.
use smfs.Prelude.{
  ℕ, ◌+◌, ltb, leb, Bool, true, false, not, ◌&&◌, ◌||◌, Option, none, some, [], ◌∷◌, ◌++◌, any,
  length, is_some, if◌then◌else◌,
}
use smfs.Prelude.Eq.{Text, text_eq, nat_eq, bytes, ◌==◌}
use smfs.Prelude.Text.{is_empty, contains}
use smfs.Prelude.Map.{Map, get, remove}
use smfs.Vfs.Types.{s_ifreg}
use smfs.Vfs.Error.{Result, ok, err}
use smfs.Cache.Queue
use smfs.Sync.Db.{Remote}
use smfs.Cache.Fs.{
  Row, LruCache, Fs, Clock, new_row, no_row, not_unique, ends_with_slash, resolve_filepath,
}
use smfs.Cache.Fs.Table.{Key, key_eq, at, name_of, remove_ino, count_ino}
use smfs.Cache.Fs.Change.{
  add_inode, move_dentry, drop_inode, put_blob, set_remote_id, set_mirrored_state,
}
use smfs.Cache.Fs.Siblings.{
  split_last, dir_of, all_chunks, error_suffix, ensure_dirs, create_derived_sibling,
  rewrite_file_content,
}

-- `Document` of api/dto.rs, the fields that are read
pub record Document : Type 0 where
  pub id : Text
  pub filepath : Option Text
  pub content : Option Text
  pub status : Text
  pub updated_at : Text
  pub type_ : Option Text
  pub url : Option Text

pub data ReconcileOutcome : Type 0 where
  created attached updated unchanged skipped_dirty deferred_processing needs_rehydrate :
      ReconcileOutcome

-- The document's path; without a usable one, `/<id>.md`.
unfoldable pub filepath_of : Document → Text
filepath_of doc =
    let synth = b'/' ∷ (doc.id ++ bytes ".md") in
    elim doc.filepath [
      | none ↦ synth
      | some fp ↦ if contains b'/' fp && not (ends_with_slash fp) then fp else synth
    ]

-- `filepath[..pos]` and `filepath[pos + 1..]`
abbrev pub dir_part : Option (Text × Text) → Text
dir_part none = bytes "/"
dir_part (some (dir, name)) = dir_of dir

abbrev pub name_part : Option (Text × Text) → Text
name_part none = []
name_part (some (dir, name)) = name

abbrev pub is_done : Document → Bool
is_done doc = doc.status == bytes "done"

abbrev pub is_failed : Document → Bool
is_failed doc = doc.status == bytes "failed"

abbrev pub has_type : Document → Text → Bool
has_type doc kind = elim doc.type_ [ none ↦ false | some t ↦ t == kind ]

abbrev pub is_binary_type : Document → Bool
is_binary_type doc =
    any (has_type doc)
      (bytes "image" ∷ bytes "pdf" ∷ bytes "video" ∷ bytes "audio" ∷ bytes "webpage" ∷ [])

abbrev pub transcription_suffix : Document → Option Text
transcription_suffix doc =
    if has_type doc (bytes "image")
    then some (bytes ".image-transcription.md")
    else if has_type doc (bytes "pdf")
    then some (bytes ".pdf-transcription.md")
    else if has_type doc (bytes "video")
    then some (bytes ".video-transcription.md")
    else if has_type doc (bytes "audio")
    then some (bytes ".audio-transcription.md")
    else if has_type doc (bytes "webpage")
    then some (bytes ".webpage-transcription.md")
    else none

abbrev pub or_empty : Option Text → Text
or_empty none = []
or_empty (some s) = s

abbrev pub error_reason : Document → Text
error_reason doc =
    bytes "smfs: server-side extraction failed for this file.\n\ntype: "
    ++ ((elim doc.type_ [ none ↦ bytes "<unknown>" | some t ↦ t ])
        ++ (bytes "\ndoc id: "
            ++ (doc.id
                ++ bytes
                    "\n\nThe file is stored on the server but could not be processed.\nTo retry, delete this error file and re-copy the source.\n")))

abbrev pub smaller : ℕ → Option ℕ → ℕ
smaller i none = i
smaller i (some j) = if ltb j i then j else i

-- `ino_by_remote_id`: the table is read in the order of its key, so the smallest inode number wins
unfoldable pub ino_by_remote_id : Text → Map ℕ Remote → Option ℕ
ino_by_remote_id id [] = none
ino_by_remote_id id ((i, r) ∷ rest) =
    let others = ino_by_remote_id id rest in
    if r.remote_id == id then some (smaller i others) else others

abbrev pub dirty_at : Option Row → Option ℕ
dirty_at none = none
dirty_at (some r) = r.dirty_since

abbrev pub mirrored_at : Option Remote → Option ℕ
mirrored_at none = none
mirrored_at (some r) = r.mirrored_updated_at

-- a local write that is newer than the document
abbrev pub is_newer : Option ℕ → Option ℕ → Bool
is_newer (some dirty_since) (some ms) = ltb ms dirty_since
is_newer _ _ = false

-- this version of the document has been mirrored
abbrev pub is_mirrored : Option ℕ → Option ℕ → Bool
is_mirrored (some m) (some u) = leb u m
is_mirrored _ _ = false

module _ ⦃lru : LruCache⦄ (clock : Clock) where
  -- errors are only logged
  unfoldable pub sync_error_sibling : Document → Text → Fs → Fs
  sync_error_sibling doc filepath s =
      if is_failed doc
      then (create_derived_sibling (filepath ++ error_suffix) (error_reason doc) clock.now s).0
      else s

  abbrev pub transcribe : Option Text → Text → Text → Fs → Fs
  transcribe none filepath content s = s
  transcribe (some suffix) filepath content s =
      (create_derived_sibling (filepath ++ suffix) content clock.now s).0

  unfoldable pub sync_transcription_sibling : Document → Text → Fs → Fs
  sync_transcription_sibling doc filepath s =
      if is_done doc && not (is_empty (or_empty doc.content))
      then transcribe (transcription_suffix doc) filepath (or_empty doc.content) s
      else s

  -- The UPDATE is by inode number: it fails where the inode has several entries, or another row has
  -- the new name.
  abbrev pub is_taken : Key → Key → ℕ → Map Key ℕ → Bool
  is_taken old new i dentries =
      not (count_ino i dentries == 1) || (is_some (get new dentries) && not (old == new))

  abbrev pub move_to : Key → ℕ → Fs → Fs × Result (Unit {0})
  move_to new i s = elim (name_of i s.dentries) [
    | none ↦ (s, err no_row)
    | some old ↦
        if is_taken old new i s.dentries
        then (s, err not_unique)
        else if old == new
        then (record s { cache = lru.put new i (lru.pop old s.cache) }, ok tt)
        else (move_dentry old new i (lru.pop old s.cache) s, ok tt)
  ]

  unfoldable pub apply_rename_to : ℕ → Text → Text → Fs → Fs × Result (Unit {0})
  apply_rename_to i new_dir new_name s =
      let r = ensure_dirs clock.now new_dir s in move_to (at r.0 new_name) i r.1

  -- the content of a text document, where the answer carries it
  abbrev pub rewrite : Document → ℕ → Fs → Fs
  rewrite doc i s =
      if is_binary_type doc
      then s
      else elim doc.content [ none ↦ s | some c ↦ rewrite_file_content i c clock.now s ]

  abbrev pub mirror_doc : Document → Text → Option ℕ → ℕ → Fs → Fs
  mirror_doc doc filepath updated_ms i s =
      if is_done doc
      then sync_transcription_sibling doc filepath
          (set_mirrored_state i updated_ms doc.status clock.ms (rewrite doc i s))
      else sync_error_sibling doc filepath (set_mirrored_state i none doc.status clock.ms s)

  abbrev pub after_rename :
      Document → Text → Option ℕ → ℕ → Fs × Result (Unit {0}) → Fs × Result ReconcileOutcome
  after_rename doc filepath updated_ms i (s, err e) = (s, err e)
  after_rename doc filepath updated_ms i (s, ok _) =
      (mirror_doc doc filepath updated_ms i s, ok updated)

  abbrev pub same_path : Option Text → Text → Bool
  same_path none filepath = false
  same_path (some p) filepath = p == filepath

  -- a document that an inode is mapped to
  abbrev pub update_known : Document → Text → Option ℕ → ℕ → Fs → Fs × Result ReconcileOutcome
  update_known doc filepath updated_ms i s =
      if is_newer (dirty_at (get i s.inodes)) updated_ms
      then (s, ok skipped_dirty)
      else if is_mirrored (mirrored_at (get i s.remote)) updated_ms && is_done doc
      then (
        sync_error_sibling doc filepath (sync_transcription_sibling doc filepath s),
        ok unchanged,
      )
      else after_rename doc filepath updated_ms i (
          if same_path (resolve_filepath i s.dentries) filepath
          then (s, ok tt)
          else apply_rename_to i (dir_part (split_last filepath)) (name_part (split_last filepath))
              s)

  -- the document's id goes to an entry that already has its name
  abbrev pub attach : Document → Text → Option ℕ → ℕ → Fs → Fs × Result ReconcileOutcome
  attach doc filepath updated_ms i s =
      let t = set_remote_id i doc.id s in
      if is_newer (dirty_at (get i s.inodes)) updated_ms
      then (record t { queue = Queue.set_remote_id filepath doc.id t.queue }, ok skipped_dirty)
      else (
        set_mirrored_state i updated_ms doc.status clock.ms
            (sync_transcription_sibling doc filepath (rewrite doc i t)),
        ok attached,
      )

  abbrev pub stub_at : Key → Fs → Fs × ℕ
  stub_at k s = elim (get k s.dentries) [
    | some i ↦ (s, i)
    | none ↦ (add_inode k (new_row (s_ifreg + 0o644) 1 0 0 0 clock.now) s, s.next_ino)
  ]

  -- `create_raw_stub`, whose path has a slash and does not end with one
  unfoldable pub create_raw_stub : Text → Fs → Fs × ℕ
  create_raw_stub filepath s =
      let r = ensure_dirs clock.now (dir_part (split_last filepath)) s in
      stub_at (at r.0 (name_part (split_last filepath))) r.1

  abbrev pub map_stub : Document → Option ℕ → Fs × ℕ → Fs
  map_stub doc updated_ms (s, i) =
      set_mirrored_state i updated_ms doc.status clock.ms (set_remote_id i doc.id s)

  abbrev pub create_binary : Document → Text → Option ℕ → Fs → Fs × Result ReconcileOutcome
  create_binary doc filepath updated_ms s =
      let t = sync_error_sibling doc filepath (sync_transcription_sibling doc filepath s) in
      if is_some doc.url
      then (map_stub doc updated_ms (create_raw_stub filepath t), ok needs_rehydrate)
      else (t, ok deferred_processing)

  abbrev pub create_text : Document → Text → Option ℕ → Key → Fs → Fs × Result ReconcileOutcome
  create_text doc filepath updated_ms k s =
      let content = or_empty doc.content in
      let t =
        put_blob s.next_ino (all_chunks content)
          (add_inode k (new_row (s_ifreg + 0o644) 1 0 0 (length content) clock.now) s) in
      (
        sync_transcription_sibling doc filepath (
            set_mirrored_state s.next_ino updated_ms doc.status clock.ms
              (set_remote_id s.next_ino doc.id t)),
        ok created,
      )

  abbrev pub create_at : Document → Text → Option ℕ → Key → Fs → Fs × Result ReconcileOutcome
  create_at doc filepath updated_ms k s = elim (get k s.dentries) [
    | some i ↦ attach doc filepath updated_ms i s
    | none ↦
        if is_binary_type doc
        then create_binary doc filepath updated_ms s
        else create_text doc filepath updated_ms k s
  ]

  -- a document that no inode is mapped to
  abbrev pub create_new : Document → Text → Option ℕ → Fs → Fs × Result ReconcileOutcome
  create_new doc filepath updated_ms s =
      let r = ensure_dirs clock.now (dir_part (split_last filepath)) s in
      if is_done doc
      then create_at doc filepath updated_ms (at r.0 (name_part (split_last filepath))) r.1
      else (sync_error_sibling doc filepath s, ok deferred_processing)

  unfoldable pub reconcile_one : (Text → Option ℕ) → Document → Fs → Fs × Result ReconcileOutcome
  reconcile_one parse_iso doc s = elim (ino_by_remote_id doc.id s.remote) [
    | some i ↦ update_known doc (filepath_of doc) (parse_iso doc.updated_at) i s
    | none ↦ create_new doc (filepath_of doc) (parse_iso doc.updated_at) s
  ]

module _ ⦃lru : LruCache⦄ where
  -- all entries of the inode go, and one of them leaves the cache
  abbrev pub delete_ino : Key → ℕ → Fs → Fs
  delete_ino k i s =
      let t = drop_inode i s in
      record t {
        dentries = remove_ino i s.dentries;
        remote = remove i s.remote;
        cache = lru.pop k s.cache;
      }

  unfoldable pub apply_deletion : Text → Fs → Fs × Bool
  apply_deletion remote_id s = elim (ino_by_remote_id remote_id s.remote) [
    | none ↦ (s, false)
    | some i ↦
        if is_some (dirty_at (get i s.inodes))
        then (s, false)
        else elim (name_of i s.dentries) [ none ↦ (s, false) | some k ↦ (delete_ino k i s, true) ]
  ]
