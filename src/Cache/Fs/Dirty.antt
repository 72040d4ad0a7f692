-- ===== src/Cache/Fs/Dirty.antt =====
-- The pull and local writes: `reconcile_one` (crates/smfs-core/src/cache/fs.rs) leaves the content of
-- a file alone that has been written after the version of the document.
pub mod Documents
use smfs.Prelude.{
  ℕ, ◌<◌, true, false, not, ◌&&◌, Option, none, some, List, [], ◌∷◌, ◌≡◌, inl, inr, refl, ap, ◌∙◌,
  arith, eqb_iff, is_some, Bool-cases, Option-cases,
}
use smfs.Prelude.Text.{is_empty}
use smfs.Prelude.Eq.{Text, text_eq, nat_eq, ◌==◌}
use smfs.Prelude.Map.{Map, get, insert, get-insert, get-update}
use smfs.Vfs.Types.{Timestamp}
use smfs.Vfs.Error.{Result, ok, err}
use smfs.Cache.File.{Chunks}
use smfs.Cache.Queue.{PushQueue}
use smfs.Sync.Db.{Remote}
use smfs.Cache.Fs.{Row, LruCache, Fs, Clock, resolve_filepath}
use smfs.Cache.Fs.Table.{Key, key_eq, at, name_of}
use smfs.Cache.Fs.Change.{
  insert_inode, add_inode, change_inode, move_dentry, put_blob, set_mirrored_state, set_remote_id,
}
use smfs.Cache.Fs.Siblings.{
  enter_dir, enter_dirs, ensure_dirs, find_derived, rewrite_file_content, rewrite_derived,
  put_derived, create_derived_sibling, split_last, all_chunks,
}
use smfs.Cache.Fs.Reconcile.{
  Document, filepath_of, is_done, is_failed, is_binary_type, or_empty, transcription_suffix,
  ino_by_remote_id, dirty_at, mirrored_at, is_newer, is_mirrored, sync_error_sibling, transcribe,
  sync_transcription_sibling, is_taken, move_to, apply_rename_to, rewrite, mirror_doc, after_rename,
  same_path, update_known, attach, stub_at, create_raw_stub, create_binary, create_text, create_at,
  create_new, reconcile_one,
}
use smfs.Cache.Fs.Coherence.Siblings.{found_derived}

-- Inode `i` has the stored chunks `b`, the size `n` and the watermark `d`, and is no derived file.
abbrev pub KeptRow : ℕ → ℕ → Row → Type 0
KeptRow n d r = (r.derived ≡ false) × (r.size ≡ n) × (r.dirty_since ≡ some d)

pub record HasContent ⦃lru : LruCache⦄ (i : ℕ) (b : Option Chunks) (n d : ℕ) (s : Fs) : Type 0 where
  pub low : i < s.next_ino
  pub blob : get i s.blobs ≡ b
  pub row : (r : Row) × (get i s.inodes ≡ some r) × KeptRow n d r

module _ ⦃lru : LruCache⦄ (i : ℕ) (b : Option Chunks) (n d : ℕ) where
  abbrev Has : Fs → Type 0
  Has s = HasContent i b n d s

  pub rest-Has :
      (m : Map Key ℕ) (y : Map ℕ Text) (w : Map ℕ Remote) (q : PushQueue) (c : lru.Cache) (s : Fs)
      → Has s
      → Has (record s { dentries = m; symlinks = y; remote = w; queue = q; cache = c })
  rest-Has m y w q c s h = record { low = h.low; blob = h.blob; row = h.row }

  pub old_apart : (s : Fs) → Has s → (s.next_ino == i) ≡ false
  old_apart s h = ground (arith, h.low, eqb_iff s.next_ino i)

  insert_inode-Has : (r : Row) (s : Fs) → Has s → Has (insert_inode r s)
  unfolding insert_inode
  insert_inode-Has r s h = record {
    low = omega (arith, h.low);
    blob = h.blob;
    row = (h.row.0, get-insert s.next_ino i r s.inodes ∙ rw (old_apart s h) h.row.1, h.row.2);
  }

  pub add_inode-Has : (k : Key) (r : Row) (s : Fs) → Has s → Has (add_inode k r s)
  unfolding add_inode insert_inode
  add_inode-Has k r s h =
      let t = insert_inode r s in
      rest-Has (insert k s.next_ino s.dentries) t.symlinks t.remote t.queue
        (lru.put k s.next_ino s.cache) t (insert_inode-Has r s h)

  pub put_blob-Has : (j : ℕ) (c : Chunks) (s : Fs) → (j == i) ≡ false → Has s → Has (put_blob j c s)
  put_blob-Has j c s other h = record {
    low = h.low;
    blob = get-insert j i c s.blobs ∙ rw other h.blob;
    row = h.row;
  }

  -- A change of another row, or of none of the three columns.
  pub other_row-Has :
      (j : ℕ) (f : Row → Row) (s : Fs) → (j == i) ≡ false → Has s → Has (change_inode j f s)
  unfolding change_inode
  other_row-Has j f s other h = record {
    low = h.low;
    blob = h.blob;
    row = (h.row.0, get-update j i f s.inodes ∙ rw other h.row.1, h.row.2);
  }

  pub change_inode-Has :
      (j : ℕ) (f : Row → Row) (s : Fs)
      → ((r : Row) → KeptRow n d r → KeptRow n d (f r))
      → Has s
      → Has (change_inode j f s)
  unfolding change_inode
  change_inode-Has j f s keeps h = elim (Bool-cases (j == i)) [
    | inr other ↦ other_row-Has j f s other h
    | inl same ↦ record {
      low = h.low;
      blob = h.blob;
      row = (f h.row.0, get-update j i f s.inodes ∙ rw (same, h.row.1) refl, keeps h.row.0 h.row.2);
    }
  ]

  pub enter_dirs-Has :
      (now : Timestamp) (parts : List Text) (p : ℕ) (s : Fs)
      → Has s
      → Has (enter_dirs now parts p s).1
  unfolding enter_dirs enter_dir
  enter_dirs-Has now [] p s h = h
  enter_dirs-Has now (part ∷ rest) p s h =
      enter_dirs-Has now rest _ _ (elim (Option-cases (get (at p part) s.dentries)) [
        | inl free ↦
            rw (enter_dir, free)
              (change_inode-Has p _ _ (λ r k. k) (add_inode-Has (at p part) _ s h))
        | inr (j, here) ↦ rw (enter_dir, here) h
      ])

  pub ensure_dirs-Has :
      (now : Timestamp) (path : Text) (s : Fs) → Has s → Has (ensure_dirs now path s).1
  unfolding ensure_dirs
  ensure_dirs-Has now path s h = enter_dirs-Has now _ _ s h

  pub rewrite_file_content-Has :
      (j : ℕ) (content : List ℕ) (now : Timestamp) (s : Fs)
      → (j == i) ≡ false
      → Has s
      → Has (rewrite_file_content j content now s)
  unfolding rewrite_file_content
  rewrite_file_content-Has j content now s other h =
      other_row-Has j _ _ other (put_blob-Has j (all_chunks content) s other h)

  rewrite_derived-Has :
      (k : Key) (j : ℕ) (content : List ℕ) (now : Timestamp) (s : Fs)
      → (j == i) ≡ false
      → Has s
      → Has (rewrite_derived k j content now s)
  unfolding rewrite_derived
  rewrite_derived-Has k j content now s other h =
      let t = rewrite_file_content j content now s in
      rest-Has t.dentries t.symlinks t.remote t.queue (lru.put k j t.cache) t
        (rewrite_file_content-Has j content now s other h)

  -- A derived file is another inode.
  pub derived_apart :
      (k : Key) (j : ℕ) (s : Fs) → Has s → find_derived k s ≡ some (j, true) → (j == i) ≡ false
  derived_apart k j s h found = elim (Bool-cases (j == i)) [
    | inr other ↦ other
    | inl same ↦
        let (r, row, derived) = (found_derived (get k s.dentries) j s.inodes found).1 in
        let value : j ≡ i = (eqb_iff j i).0 same in
        let both = ap (λ l. get l s.inodes) value in
        let equal : r ≡ h.row.0 = cc (row, both, h.row.1) in absurd (cc (equal, derived, h.row.2.0))
  ]

  pub put_derived-Has :
      (k : Key) (content : List ℕ) (now : Timestamp) (s : Fs)
      → Has s
      → Has (put_derived k content now s).0
  put_derived-Has k content now s h = elim (Option-cases (find_derived k s)) [
    | inr ((j, true), found) ↦
        rw (put_derived, found)
          (rewrite_derived-Has k j content now s (derived_apart k j s h found) h)
    | inr ((j, false), found) ↦ rw (put_derived, found) h
    | inl gone ↦ elim (Option-cases (get k s.dentries)) [
      | inl free ↦
          rw (put_derived, gone, free)
            (put_blob-Has s.next_ino _ _ (old_apart s h) (add_inode-Has k _ s h))
      | inr (j, here) ↦ rw (put_derived, gone, here) (insert_inode-Has _ s h)
    ]
  ]

  pub create_derived_sibling-Has :
      (filepath : Text) (content : List ℕ) (now : Timestamp) (s : Fs)
      → Has s
      → Has (create_derived_sibling filepath content now s).0
  unfolding create_derived_sibling
  create_derived_sibling-Has filepath content now s h = elim (Option-cases (split_last filepath)) [
    | inl none_there ↦ rw (create_derived_sibling, none_there) h
    | inr ((dir, name), parts) ↦ elim (Bool-cases (is_empty name)) [
      | inl empty ↦ rw (create_derived_sibling, parts, empty) h
      | inr named ↦
          rw (create_derived_sibling, parts, named)
            (put_derived-Has _ content now _ (ensure_dirs-Has now _ s h))
    ]
  ]
  -- A document whose version is older than the local write of `i`.
