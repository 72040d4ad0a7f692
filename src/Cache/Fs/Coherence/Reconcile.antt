-- ===== src/Cache/Fs/Coherence/Reconcile.antt =====
-- The pull keeps the dentry cache of `SupermemoryFs` (crates/smfs-core/src/cache/fs.rs) coherent.
use smfs.Prelude.{
  ℕ, ◌<◌, not, ◌&&◌, Option, none, some, ◌≡◌, inl, inr, refl, sym, ap, ◌∙◌, arith, eqb_iff, is_some,
  Bool-cases, Option-cases,
}
use smfs.Prelude.Text.{is_empty}
use smfs.Prelude.Eq.{Text, text_eq, nat_eq, ◌==◌, beq_refl}
use smfs.Prelude.Map.{get, AllValues-get, AllRows-remove, get-remove}
use smfs.Vfs.Error.{Result, ok, err}
use smfs.Cache.Fs.{LruCache, Fs, Clock, resolve_filepath}
use smfs.Cache.Fs.Table.{
  Key, key_eq, key_beq_iff, name_of, get-name_of, get-remove_ino, UniqueKeys-remove_ino,
  AllValues-remove_ino, count-remove_ino,
}
use smfs.Cache.Fs.Change.{drop_inode, set_mirrored_state, set_remote_id}
use smfs.Cache.Fs.Reconcile.{
  Document, filepath_of, is_done, is_failed, is_binary_type, or_empty, transcription_suffix,
  ino_by_remote_id, dirty_at, mirrored_at, is_newer, is_mirrored, sync_error_sibling, transcribe,
  sync_transcription_sibling, is_taken, move_to, apply_rename_to, rewrite, mirror_doc, after_rename,
  same_path, update_known, attach, stub_at, create_raw_stub, create_binary, create_text, create_at,
  create_new, reconcile_one, delete_ino, apply_deletion,
}
use smfs.Cache.Fs.Coherence.{
  IsCoherent, IsGone-remove, get-removed, add_inode-IsCoherent, move_dentry-IsCoherent,
  recache-IsCoherent, rest-IsCoherent,
}
use smfs.Cache.Fs.Coherence.Siblings.{
  ensure_dirs-IsCoherent, create_derived_sibling-IsCoherent, rewrite_file_content-IsCoherent,
  put_blob-IsCoherent, popped,
}

module _ ⦃lru : LruCache⦄ (clock : Clock) where
  sync_error_sibling-IsCoherent :
      (doc : Document) (fp : Text) (s : Fs)
      → IsCoherent s
      → IsCoherent (sync_error_sibling clock doc fp s)
  unfolding sync_error_sibling
  sync_error_sibling-IsCoherent doc fp s h = elim (Bool-cases (is_failed doc)) [
    | inl failed ↦
        rw (sync_error_sibling, failed) (create_derived_sibling-IsCoherent _ _ clock.now s h)
    | inr other ↦ rw (sync_error_sibling, other) h
  ]

  transcribe-IsCoherent :
      (suffix : Option Text) (fp content : Text) (s : Fs)
      → IsCoherent s
      → IsCoherent (transcribe clock suffix fp content s)
  transcribe-IsCoherent none fp content s h = h
  transcribe-IsCoherent (some suffix) fp content s h =
      create_derived_sibling-IsCoherent _ content clock.now s h

  sync_transcription_sibling-IsCoherent :
      (doc : Document) (fp : Text) (s : Fs)
      → IsCoherent s
      → IsCoherent (sync_transcription_sibling clock doc fp s)
  unfolding sync_transcription_sibling
  sync_transcription_sibling-IsCoherent doc fp s h =
      elim (Bool-cases (is_done doc && not (is_empty (or_empty doc.content)))) [
        | inl extracted ↦
            rw (sync_transcription_sibling, extracted)
              (transcribe-IsCoherent (transcription_suffix doc) fp _ s h)
        | inr other ↦ rw (sync_transcription_sibling, other) h
      ]

  -- The inode has one entry, and no other inode has the new name.
  move_to-IsCoherent :
      (new : Key) (i : ℕ) (s : Fs) → IsCoherent s → IsCoherent (move_to clock new i s).0
  move_to-IsCoherent new i s h = elim (Option-cases (name_of i s.dentries)) [
    | inl unnamed ↦ rw (move_to, unnamed) h
    | inr (old, named) ↦ elim (Bool-cases (is_taken clock old new i s.dentries)) [
      | inl taken ↦ rw (move_to, named, taken) h
      | inr free ↦ elim (Bool-cases (old == new)) [
        | inl same ↦
            rw (move_to, named, free, same)
              (recache-IsCoherent s h (lru.put new i (lru.pop old s.cache)) (λ k j e.
                let law = lru.find-put new i k (lru.pop old s.cache) j e in
                elim (Bool-cases (new == k)) [
                  | inl there ↦
                      let value : i ≡ j = rw there at law in
                      let key : old ≡ k =
                        (key_beq_iff old new).0 same ∙ (key_beq_iff new k).0 there in
                      inr (
                        ap (λ l. get l s.dentries) (sym key)
                        ∙ get-name_of i old s.dentries h.unique named
                        ∙ ap some value)
                  | inr elsewhere ↦ inl (popped old k j s (rw elsewhere at law)).1
                ]))
        | inr differ ↦
            rw (move_to, named, free, differ)
              (move_dentry-IsCoherent s h old new i s.dentries (lru.pop old s.cache) h.unique
                h.names_low (λ j. omega arith) (get-name_of i old s.dentries h.unique named)
                (ground (arith, free, differ)) (λ j other. refl)
                (λ j l e other. popped old j l s e))
      ]
    ]
  ]

  apply_rename_to-IsCoherent :
      (i : ℕ) (dir name : Text) (s : Fs)
      → IsCoherent s
      → IsCoherent (apply_rename_to clock i dir name s).0
  unfolding apply_rename_to
  apply_rename_to-IsCoherent i dir name s h =
      move_to-IsCoherent _ i _ (ensure_dirs-IsCoherent clock.now dir s h)

  set_mirrored_state-IsCoherent :
      (i : ℕ) (u : Option ℕ) (status : Text) (ms : ℕ) (s : Fs)
      → IsCoherent s
      → IsCoherent (set_mirrored_state i u status ms s)
  set_mirrored_state-IsCoherent i u status ms s h =
      rest-IsCoherent s h s.blobs s.symlinks _ s.queue s.hydration

  set_remote_id-IsCoherent :
      (i : ℕ) (id : Text) (s : Fs) → IsCoherent s → IsCoherent (set_remote_id i id s)
  set_remote_id-IsCoherent i id s h = rest-IsCoherent s h s.blobs s.symlinks _ s.queue s.hydration

  rewrite-IsCoherent :
      (doc : Document) (i : ℕ) (s : Fs) → IsCoherent s → IsCoherent (rewrite clock doc i s)
  rewrite-IsCoherent doc i s h = elim (Bool-cases (is_binary_type doc)) [
    | inl binary ↦ rw (rewrite, binary) h
    | inr text ↦ elim (Option-cases doc.content) [
      | inl missing ↦ rw (rewrite, text, missing) h
      | inr (c, present) ↦
          rw (rewrite, text, present) (rewrite_file_content-IsCoherent i c clock.now s h)
    ]
  ]

  mirror_doc-IsCoherent :
      (doc : Document) (fp : Text) (u : Option ℕ) (i : ℕ) (s : Fs)
      → IsCoherent s
      → IsCoherent (mirror_doc clock doc fp u i s)
  mirror_doc-IsCoherent doc fp u i s h = elim (Bool-cases (is_done doc)) [
    | inl done ↦
        rw (mirror_doc, done)
          (sync_transcription_sibling-IsCoherent doc fp _ (
            set_mirrored_state-IsCoherent i u doc.status clock.ms _ (rewrite-IsCoherent doc i s h)))
    | inr other ↦
        rw (mirror_doc, other)
          (sync_error_sibling-IsCoherent doc fp _
            (set_mirrored_state-IsCoherent i none doc.status clock.ms s h))
  ]

  after_rename-IsCoherent :
      (doc : Document) (fp : Text) (u : Option ℕ) (i : ℕ) (r : Fs × Result (Unit {0}))
      → IsCoherent r.0
      → IsCoherent (after_rename clock doc fp u i r).0
  after_rename-IsCoherent doc fp u i (s, err e) h = h
  after_rename-IsCoherent doc fp u i (s, ok _) h = mirror_doc-IsCoherent doc fp u i s h

  update_known-IsCoherent :
      (doc : Document) (fp : Text) (u : Option ℕ) (i : ℕ) (s : Fs)
      → IsCoherent s
      → IsCoherent (update_known clock doc fp u i s).0
  update_known-IsCoherent doc fp u i s h =
      elim (Bool-cases (is_newer (dirty_at (get i s.inodes)) u)) [
        | inl newer ↦ rw (update_known, newer) h
        | inr older ↦
            elim (Bool-cases (is_mirrored (mirrored_at (get i s.remote)) u && is_done doc)) [
              | inl known ↦
                  rw (update_known, older, known)
                    (sync_error_sibling-IsCoherent doc fp _
                      (sync_transcription_sibling-IsCoherent doc fp s h))
              | inr changed ↦
                  elim (Bool-cases (same_path clock (resolve_filepath i s.dentries) fp)) [
                    | inl stays ↦
                        rw (update_known, older, changed, stays)
                          (after_rename-IsCoherent doc fp u i (s, ok tt) h)
                    | inr moves ↦
                        rw (update_known, older, changed, moves)
                          (after_rename-IsCoherent doc fp u i _
                            (apply_rename_to-IsCoherent i _ _ s h))
                  ]
            ]
      ]

  attach-IsCoherent :
      (doc : Document) (fp : Text) (u : Option ℕ) (i : ℕ) (s : Fs)
      → IsCoherent s
      → IsCoherent (attach clock doc fp u i s).0
  attach-IsCoherent doc fp u i s h =
      let t = set_remote_id i doc.id s in
      let kept = set_remote_id-IsCoherent i doc.id s h in
      elim (Bool-cases (is_newer (dirty_at (get i s.inodes)) u)) [
        | inl newer ↦
            rw (attach, newer) (rest-IsCoherent t kept t.blobs t.symlinks t.remote _ t.hydration)
        | inr older ↦
            rw (attach, older)
              (set_mirrored_state-IsCoherent i u doc.status clock.ms _
                (sync_transcription_sibling-IsCoherent doc fp _ (rewrite-IsCoherent doc i t kept)))
      ]

  stub_at-IsCoherent : (k : Key) (s : Fs) → IsCoherent s → IsCoherent (stub_at clock k s).0
  stub_at-IsCoherent k s h = elim (Option-cases (get k s.dentries)) [
    | inl free ↦ rw (stub_at, free) (add_inode-IsCoherent s h k _)
    | inr (i, here) ↦ rw (stub_at, here) h
  ]

  create_binary-IsCoherent :
      (doc : Document) (fp : Text) (u : Option ℕ) (s : Fs)
      → IsCoherent s
      → IsCoherent (create_binary clock doc fp u s).0
  unfolding create_raw_stub
  create_binary-IsCoherent doc fp u s h =
      let kept =
        sync_error_sibling-IsCoherent doc fp _ (sync_transcription_sibling-IsCoherent doc fp s h) in
      elim (Bool-cases (is_some doc.url)) [
        | inl raw ↦
            rw (create_binary, raw)
              (set_mirrored_state-IsCoherent _ u doc.status clock.ms _ (
                set_remote_id-IsCoherent _ doc.id _
                  (stub_at-IsCoherent _ _ (ensure_dirs-IsCoherent clock.now _ _ kept))))
        | inr missing ↦ rw (create_binary, missing) kept
      ]

  create_text-IsCoherent :
      (doc : Document) (fp : Text) (u : Option ℕ) (k : Key) (s : Fs)
      → IsCoherent s
      → IsCoherent (create_text clock doc fp u k s).0
  create_text-IsCoherent doc fp u k s h = sync_transcription_sibling-IsCoherent doc fp _ (
      set_mirrored_state-IsCoherent s.next_ino u doc.status clock.ms _ (
        set_remote_id-IsCoherent s.next_ino doc.id _
          (put_blob-IsCoherent s.next_ino (or_empty doc.content) _ (add_inode-IsCoherent s h k _))))

  create_at-IsCoherent :
      (doc : Document) (fp : Text) (u : Option ℕ) (k : Key) (s : Fs)
      → IsCoherent s
      → IsCoherent (create_at clock doc fp u k s).0
  create_at-IsCoherent doc fp u k s h = elim (Option-cases (get k s.dentries)) [
    | inr (i, here) ↦ rw (create_at, here) (attach-IsCoherent doc fp u i s h)
    | inl free ↦ elim (Bool-cases (is_binary_type doc)) [
      | inl binary ↦ rw (create_at, free, binary) (create_binary-IsCoherent doc fp u s h)
      | inr text ↦ rw (create_at, free, text) (create_text-IsCoherent doc fp u k s h)
    ]
  ]

  create_new-IsCoherent :
      (doc : Document) (fp : Text) (u : Option ℕ) (s : Fs)
      → IsCoherent s
      → IsCoherent (create_new clock doc fp u s).0
  create_new-IsCoherent doc fp u s h = elim (Bool-cases (is_done doc)) [
    | inl done ↦
        rw (create_new, done)
          (create_at-IsCoherent doc fp u _ _ (ensure_dirs-IsCoherent clock.now _ s h))
    | inr waits ↦ rw (create_new, waits) (sync_error_sibling-IsCoherent doc fp s h)
  ]

  pub reconcile_one-IsCoherent :
      (parse_iso : Text → Option ℕ) (doc : Document) (s : Fs)
      → IsCoherent s
      → IsCoherent (reconcile_one clock parse_iso doc s).0
  unfolding reconcile_one
  reconcile_one-IsCoherent parse_iso doc s h =
      elim (Option-cases (ino_by_remote_id doc.id s.remote)) [
        | inr (i, known) ↦ rw (reconcile_one, known) (update_known-IsCoherent doc _ _ i s h)
        | inl unknown ↦
            rw (reconcile_one, unknown)
              (create_new-IsCoherent doc (filepath_of doc) (parse_iso doc.updated_at) s h)
      ]

module _ ⦃lru : LruCache⦄ where
  delete_ino-IsCoherent :
      (k : Key) (i : ℕ) (s : Fs)
      → IsCoherent s
      → get k s.dentries ≡ some i
      → IsCoherent (delete_ino k i s)
  unfolding drop_inode
  delete_ino-IsCoherent k i s h here = record {
    unique = UniqueKeys-remove_ino i s.dentries h.unique;
    names_low = AllValues-remove_ino (λ j. j < s.next_ino) i s.dentries h.names_low;
    inodes_low = AllRows-remove (λ j r. j < s.next_ino) i s.inodes h.inodes_low;
    cached = λ l j e.
        let now = get-remove_ino i l s.dentries h.unique in
        elim (h.cached l j (popped k l j s e).1) [
          | inr (free, gone) ↦ inr (now ∙ rw free refl, IsGone-remove j i s.next_ino s.inodes gone)
          | inl there ↦ elim (Bool-cases (j == i)) [
            | inr other ↦ inl (now ∙ rw (there, other) refl)
            | inl same ↦
                let value : j ≡ i = (eqb_iff j i).0 same in
                let low = AllValues-get (λ m. m < s.next_ino) k i s.dentries here h.names_low in
                inr (
                  now ∙ rw (there, same) refl,
                  (rw value low, get-remove i j s.inodes ∙ rw (value, beq_refl i) refl),
                )
          ]
        ];
    once = λ j q found derived. omega (
      arith,
      h.once j q (get-removed i j q s.inodes found) derived,
      count-remove_ino j i s.dentries,
    );
  }

  pub apply_deletion-IsCoherent :
      (id : Text) (s : Fs) → IsCoherent s → IsCoherent (apply_deletion id s).0
  unfolding apply_deletion
  apply_deletion-IsCoherent id s h = elim (Option-cases (ino_by_remote_id id s.remote)) [
    | inl unknown ↦ rw (apply_deletion, unknown) h
    | inr (i, known) ↦ elim (Bool-cases (is_some (dirty_at (get i s.inodes)))) [
      | inl dirty ↦ rw (apply_deletion, known, dirty) h
      | inr clean ↦ elim (Option-cases (name_of i s.dentries)) [
        | inl unnamed ↦ rw (apply_deletion, known, clean, unnamed) h
        | inr (k, named) ↦
            rw (apply_deletion, known, clean, named)
              (delete_ino-IsCoherent k i s h (get-name_of i k s.dentries h.unique named))
      ]
    ]
  ]
