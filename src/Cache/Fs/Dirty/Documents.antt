-- ===== src/Cache/Fs/Dirty/Documents.antt =====
-- A pulled document leaves a newer local write alone: `reconcile_one` of
-- crates/smfs-core/src/cache/fs.rs.
use smfs.Prelude.{
  ℕ, true, false, not, ◌&&◌, Option, none, some, ◌≡◌, inl, inr, ap, ◌∙◌, eqb_iff, is_some,
  Bool-cases, Option-cases,
}
use smfs.Prelude.Text.{is_empty}
use smfs.Prelude.Eq.{Text, text_eq, nat_eq, ◌==◌}
use smfs.Prelude.Map.{get}
use smfs.Vfs.Error.{Result, ok, err}
use smfs.Cache.File.{Chunks}
use smfs.Cache.Fs.{LruCache, Fs, Clock, resolve_filepath}
use smfs.Cache.Fs.Table.{Key, key_eq, name_of}
use smfs.Cache.Fs.Change.{move_dentry, set_mirrored_state, set_remote_id}
use smfs.Cache.Fs.Reconcile.{
  Document, filepath_of, is_done, is_failed, is_binary_type, or_empty, transcription_suffix,
  ino_by_remote_id, dirty_at, mirrored_at, is_newer, is_mirrored, sync_error_sibling, transcribe,
  sync_transcription_sibling, is_taken, move_to, apply_rename_to, rewrite, mirror_doc, after_rename,
  same_path, update_known, attach, stub_at, create_raw_stub, create_binary, create_text, create_at,
  create_new, reconcile_one,
}
use smfs.Cache.Fs.Dirty.{
  old_apart, add_inode-Has, put_blob-Has, HasContent, rest-Has, ensure_dirs-Has,
  rewrite_file_content-Has, create_derived_sibling-Has,
}

module _ ⦃lru : LruCache⦄ (i : ℕ) (b : Option Chunks) (n d : ℕ) (clock : Clock) (doc : Document)
    (u : Option ℕ) (older : is_newer (some d) u ≡ true) where
  sync_error_sibling-Has :
      (fp : Text) (s : Fs)
      → HasContent i b n d s
      → HasContent i b n d (sync_error_sibling clock doc fp s)
  unfolding sync_error_sibling
  sync_error_sibling-Has fp s h = elim (Bool-cases (is_failed doc)) [
    | inl failed ↦
        rw (sync_error_sibling, failed) (create_derived_sibling-Has i b n d _ _ clock.now s h)
    | inr other ↦ rw (sync_error_sibling, other) h
  ]

  transcribe-Has :
      (suffix : Option Text) (fp content : Text) (s : Fs)
      → HasContent i b n d s
      → HasContent i b n d (transcribe clock suffix fp content s)
  transcribe-Has none fp content s h = h
  transcribe-Has (some suffix) fp content s h =
      create_derived_sibling-Has i b n d _ content clock.now s h

  sync_transcription_sibling-Has :
      (fp : Text) (s : Fs)
      → HasContent i b n d s
      → HasContent i b n d (sync_transcription_sibling clock doc fp s)
  unfolding sync_transcription_sibling
  sync_transcription_sibling-Has fp s h =
      elim (Bool-cases (is_done doc && not (is_empty (or_empty doc.content)))) [
        | inl extracted ↦
            rw (sync_transcription_sibling, extracted)
              (transcribe-Has (transcription_suffix doc) fp _ s h)
        | inr other ↦ rw (sync_transcription_sibling, other) h
      ]

  move_to-Has :
      (new : Key) (j : ℕ) (s : Fs)
      → HasContent i b n d s
      → HasContent i b n d (move_to clock new j s).0
  unfolding move_dentry
  move_to-Has new j s h = elim (Option-cases (name_of j s.dentries)) [
    | inl unnamed ↦ rw (move_to, unnamed) h
    | inr (old, named) ↦ elim (Bool-cases (is_taken clock old new j s.dentries)) [
      | inl taken ↦ rw (move_to, named, taken) h
      | inr free ↦ elim (Bool-cases (old == new)) [
        | inl same ↦
            rw (move_to, named, free, same)
              (rest-Has i b n d s.dentries s.symlinks s.remote s.queue _ s h)
        | inr differ ↦
            rw (move_to, named, free, differ) (rest-Has i b n d _ s.symlinks s.remote s.queue _ s h)
      ]
    ]
  ]

  mirrored-Has :
      (j : ℕ) (w : Option ℕ) (s : Fs)
      → HasContent i b n d s
      → HasContent i b n d (set_mirrored_state j w doc.status clock.ms s)
  mirrored-Has j w s h = rest-Has i b n d s.dentries s.symlinks _ s.queue s.cache s h

  mapped-Has :
      (j : ℕ) (s : Fs) → HasContent i b n d s → HasContent i b n d (set_remote_id j doc.id s)
  mapped-Has j s h = rest-Has i b n d s.dentries s.symlinks _ s.queue s.cache s h

  rewrite-Has :
      (j : ℕ) (s : Fs)
      → (j == i) ≡ false
      → HasContent i b n d s
      → HasContent i b n d (rewrite clock doc j s)
  rewrite-Has j s other h = elim (Bool-cases (is_binary_type doc)) [
    | inl binary ↦ rw (rewrite, binary) h
    | inr text ↦ elim (Option-cases doc.content) [
      | inl missing ↦ rw (rewrite, text, missing) h
      | inr (c, present) ↦
          rw (rewrite, text, present) (rewrite_file_content-Has i b n d j c clock.now s other h)
    ]
  ]

  mirror_doc-Has :
      (fp : Text) (j : ℕ) (s : Fs)
      → (j == i) ≡ false
      → HasContent i b n d s
      → HasContent i b n d (mirror_doc clock doc fp u j s)
  mirror_doc-Has fp j s other h = elim (Bool-cases (is_done doc)) [
    | inl done ↦
        rw (mirror_doc, done)
          (sync_transcription_sibling-Has fp _ (mirrored-Has j u _ (rewrite-Has j s other h)))
    | inr waits ↦ rw (mirror_doc, waits) (sync_error_sibling-Has fp _ (mirrored-Has j none s h))
  ]

  after_rename-Has :
      (fp : Text) (j : ℕ) (r : Fs × Result (Unit {0}))
      → (j == i) ≡ false
      → HasContent i b n d r.0
      → HasContent i b n d (after_rename clock doc fp u j r).0
  after_rename-Has fp j (s, err e) other h = h
  after_rename-Has fp j (s, ok _) other h = mirror_doc-Has fp j s other h

  -- The inode of a newer local write is skipped.
  skips :
      (j : ℕ) (s : Fs)
      → HasContent i b n d s
      → is_newer (dirty_at (get j s.inodes)) u ≡ false
      → (j == i) ≡ false
  skips j s h test = elim (Bool-cases (j == i)) [
    | inr other ↦ other
    | inl same ↦
        let value : j ≡ i = (eqb_iff j i).0 same in
        let dirty : dirty_at (get j s.inodes) ≡ some d =
          ap (λ l. dirty_at (get l s.inodes)) value ∙ ap dirty_at h.row.1 ∙ h.row.2.2 in
        let newer = ap (λ o. is_newer o u) dirty in absurd (cc (newer, older, test))
  ]

  update_known-Has :
      (fp : Text) (j : ℕ) (s : Fs)
      → HasContent i b n d s
      → HasContent i b n d (update_known clock doc fp u j s).0
  unfolding apply_rename_to
  update_known-Has fp j s h = elim (Bool-cases (is_newer (dirty_at (get j s.inodes)) u)) [
    | inl newer ↦ rw (update_known, newer) h
    | inr test ↦
        let other = skips j s h test in
        elim (Bool-cases (is_mirrored (mirrored_at (get j s.remote)) u && is_done doc)) [
          | inl known ↦
              rw (update_known, test, known)
                (sync_error_sibling-Has fp _ (sync_transcription_sibling-Has fp s h))
          | inr changed ↦ elim (Bool-cases (same_path clock (resolve_filepath j s.dentries) fp)) [
            | inl stays ↦
                rw (update_known, test, changed, stays) (after_rename-Has fp j (s, ok tt) other h)
            | inr moves ↦
                rw (update_known, test, changed, moves)
                  (after_rename-Has fp j _ other
                    (move_to-Has _ j _ (ensure_dirs-Has i b n d clock.now _ s h)))
          ]
        ]
  ]

  attach-Has :
      (fp : Text) (j : ℕ) (s : Fs)
      → HasContent i b n d s
      → HasContent i b n d (attach clock doc fp u j s).0
  attach-Has fp j s h = elim (Bool-cases (is_newer (dirty_at (get j s.inodes)) u)) [
    | inl newer ↦ rw (attach, newer) (rest-Has i b n d s.dentries s.symlinks _ _ s.cache s h)
    | inr test ↦
        rw (attach, test)
          (mirrored-Has j u _ (
            sync_transcription_sibling-Has fp _
              (rewrite-Has j _ (skips j s h test) (mapped-Has j s h))))
  ]

  create_binary-Has :
      (fp : Text) (s : Fs)
      → HasContent i b n d s
      → HasContent i b n d (create_binary clock doc fp u s).0
  unfolding create_raw_stub
  create_binary-Has fp s h =
      let kept = sync_error_sibling-Has fp _ (sync_transcription_sibling-Has fp s h) in
      elim (Bool-cases (is_some doc.url)) [
        | inl raw ↦
            rw (create_binary, raw)
              (mirrored-Has _ u _
                (mapped-Has _ _ (stub_at-Has _ _ (ensure_dirs-Has i b n d clock.now _ _ kept))))
        | inr missing ↦ rw (create_binary, missing) kept
      ]
    where
      stub_at-Has :
          (k : Key) (s : Fs) → HasContent i b n d s → HasContent i b n d (stub_at clock k s).0
      stub_at-Has k s h = elim (Option-cases (get k s.dentries)) [
        | inl free ↦ rw (stub_at, free) (add_inode-Has i b n d k _ s h)
        | inr (j, here) ↦ rw (stub_at, here) h
      ]

  create_text-Has :
      (fp : Text) (k : Key) (s : Fs)
      → HasContent i b n d s
      → HasContent i b n d (create_text clock doc fp u k s).0
  create_text-Has fp k s h = sync_transcription_sibling-Has fp _ (
      mirrored-Has s.next_ino u _ (
        mapped-Has s.next_ino _ (
          put_blob-Has i b n d s.next_ino _ _ (old_apart i b n d s h)
            (add_inode-Has i b n d k _ s h))))

  create_at-Has :
      (fp : Text) (k : Key) (s : Fs)
      → HasContent i b n d s
      → HasContent i b n d (create_at clock doc fp u k s).0
  create_at-Has fp k s h = elim (Option-cases (get k s.dentries)) [
    | inr (j, here) ↦ rw (create_at, here) (attach-Has fp j s h)
    | inl free ↦ elim (Bool-cases (is_binary_type doc)) [
      | inl binary ↦ rw (create_at, free, binary) (create_binary-Has fp s h)
      | inr text ↦ rw (create_at, free, text) (create_text-Has fp k s h)
    ]
  ]

  create_new-Has :
      (fp : Text) (s : Fs)
      → HasContent i b n d s
      → HasContent i b n d (create_new clock doc fp u s).0
  create_new-Has fp s h = elim (Bool-cases (is_done doc)) [
    | inl done ↦
        rw (create_new, done) (create_at-Has fp _ _ (ensure_dirs-Has i b n d clock.now _ s h))
    | inr waits ↦ rw (create_new, waits) (sync_error_sibling-Has fp s h)
  ]

module _ ⦃lru : LruCache⦄ where
  -- Whatever document is pulled, a file that is not derived, and that was written locally after the
  -- document's version, keeps its stored bytes, its size and its mark as written.
  pub reconcile_keeps_newer_write :
      (i : ℕ) (b : Option Chunks) (n d : ℕ) (clock : Clock) (parse_iso : Text → Option ℕ)
      (doc : Document) (s : Fs)
      → HasContent i b n d s
      → is_newer (some d) (parse_iso doc.updated_at) ≡ true
      → HasContent i b n d (reconcile_one clock parse_iso doc s).0
  unfolding reconcile_one
  reconcile_keeps_newer_write i b n d clock parse_iso doc s h older =
      let u = parse_iso doc.updated_at in
      elim (Option-cases (ino_by_remote_id doc.id s.remote)) [
        | inr (j, known) ↦
            rw (reconcile_one, known)
              (update_known-Has i b n d clock doc u older (filepath_of doc) j s h)
        | inl unknown ↦
            rw (reconcile_one, unknown)
              (create_new-Has i b n d clock doc u older (filepath_of doc) s h)
      ]
