-- ===== src/Cache/Fs/Below.antt =====
-- Where `SupermemoryFs::reconcile_one` (crates/smfs-core/src/cache/fs.rs) puts a new document.
use smfs.Prelude.{ℕ, true, false, Option, none, some, [], ◌∷◌, ◌≡◌, refl, sym, ap, ◌∙◌, arith}
use mathlib.Core.Path.{subst}
use smfs.Prelude.Eq.{Text, text_eq, nat_eq, beq_refl}
use smfs.Prelude.Text.{split}
use smfs.Prelude.Map.{get, get-insert}
use smfs.Vfs.Error.{Result, ok}
use smfs.Cache.Fs.{root_ino, LruCache, Fs, Clock}
use smfs.Cache.Fs.Table.{Key, key_eq, at}
use smfs.Cache.Fs.Change.{add_inode}
use smfs.Cache.Fs.Siblings.{non_empty, split_last, enter_dir, enter_dirs, ensure_dirs}
use smfs.Cache.Fs.Reconcile.{
  Document, filepath_of, dir_part, name_part, is_done, is_binary_type, transcription_suffix,
  ino_by_remote_id, sync_transcription_sibling, create_at, create_text, create_new, reconcile_one,
  ReconcileOutcome, created,
}

transcription_suffix-text :
    (doc : Document) → is_binary_type doc ≡ false → transcription_suffix doc ≡ none
transcription_suffix-text doc text = ground arith

module _ ⦃lru : LruCache⦄ where
  sync_transcription_sibling-text :
      (clock : Clock) (doc : Document) (fp : Text) (s : Fs)
      → is_binary_type doc ≡ false
      → sync_transcription_sibling clock doc fp s ≡ s
  unfolding sync_transcription_sibling
  sync_transcription_sibling-text clock doc fp s text =
      let plain = transcription_suffix-text doc text in rw plain (ground arith)

  -- A directory part with one component that has an entry is that entry's inode.
  enters_one :
      (clock : Clock) (dir w : Text) (j : ℕ) (s : Fs)
      → non_empty (split b'/' dir) ≡ w ∷ []
      → get (at root_ino w) s.dentries ≡ some j
      → ensure_dirs clock.now dir s ≡ (j, s)
  unfolding ensure_dirs enter_dirs enter_dir
  enters_one clock dir w j s parts entry = rw (ensure_dirs, parts, enter_dir, entry) refl

  abbrev IsCreatedAt : Key → ℕ → Fs × Result ReconcileOutcome → Type 0
  IsCreatedAt k i r = (get k r.0.dentries ≡ some i) × (r.1 ≡ ok created)

  created_at :
      (clock : Clock) (doc : Document) (fp : Text) (u : Option ℕ) (k : Key) (s : Fs)
      → is_binary_type doc ≡ false
      → get k s.dentries ≡ none
      → IsCreatedAt k s.next_ino (create_at clock doc fp u k s)
  unfolding add_inode
  created_at clock doc fp u k s text free =
      rw (create_at, free, text, create_text)
        (
          ap (λ (t : Fs). get k t.dentries) (sync_transcription_sibling-text clock doc fp _ text)
              ∙ (get-insert k k s.next_ino s.dentries ∙ rw (beq_refl k) refl),
          refl,
        )

  -- A new text document whose path has one directory component, which has an entry in the root, and
  -- whose file name is free there, gets a new inode with that file name under that entry, and the
  -- pull reports it as created. The entry may be a regular file.
  pub pull_enters_any_entry :
      (clock : Clock) (parse_iso : Text → Option ℕ) (doc : Document) (w : Text) (j : ℕ) (s : Fs)
      → ino_by_remote_id doc.id s.remote ≡ none
      → is_done doc ≡ true
      → is_binary_type doc ≡ false
      → non_empty (split b'/' (dir_part (split_last (filepath_of doc)))) ≡ w ∷ []
      → get (at root_ino w) s.dentries ≡ some j
      → get (at j (name_part (split_last (filepath_of doc)))) s.dentries ≡ none
      → (get
            (at j (name_part (split_last (filepath_of doc))))
            (reconcile_one clock parse_iso doc s).0.dentries
          ≡ some s.next_ino)
        × ((reconcile_one clock parse_iso doc s).1 ≡ ok created)
  unfolding reconcile_one
  pull_enters_any_entry clock parse_iso doc w j s unknown done text parts entry free =
      let name = name_part (split_last (filepath_of doc)) in
      let dir = enters_one clock (dir_part (split_last (filepath_of doc))) w j s parts entry in
      let made =
        created_at clock doc (filepath_of doc) (parse_iso doc.updated_at) (at j name) s text free in
      rw (reconcile_one, unknown, create_new, done)
        (subst
          (λ (r : ℕ × Fs).
            IsCreatedAt (at j name) s.next_ino
              (create_at clock doc (filepath_of doc) (parse_iso doc.updated_at) (at r.0 name) r.1))
          (sym dir) made)
