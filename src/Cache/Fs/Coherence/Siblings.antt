-- ===== src/Cache/Fs/Coherence/Siblings.antt =====
-- The directories of a path and the derived files of `SupermemoryFs`
-- (crates/smfs-core/src/cache/fs.rs) keep the dentry cache coherent.
use smfs.Prelude.{
  ℕ, ◌<◌, true, false, Option, none, some, List, [], ◌∷◌, ◌++◌, ◌≡◌, inl, inr, refl, sym, ap, ◌∙◌,
  arith, Bool-cases, Option-cases,
}
use mathlib.Core.List.{append_cancel_right}
use smfs.Prelude.Eq.{Text, nat_eq, ◌==◌, beq_refl}
use smfs.Prelude.Map.{Map, get, insert, remove, get-remove, UniqueKeys-remove, AllValues-remove}
use smfs.Vfs.Types.{Timestamp}
use smfs.Prelude.Text.{is_empty}
use smfs.Cache.Fs.{Row, LruCache, Fs}
use smfs.Cache.Fs.Table.{Key, key_eq, key_beq_iff, at, count_ino, count-remove, count_found}
use smfs.Cache.Fs.Change.{put_blob, change_inode}
use smfs.Cache.Fs.Siblings.{
  enter_dir, enter_dirs, ensure_dirs, find_derived, derived_at, remove_derived_sibling,
  unlink_siblings, rename_derived_sibling, rename_siblings, rewrite_file_content, rewrite_derived,
  create_derived_sibling, put_derived, all_chunks, split_last,
}
use smfs.Cache.Fs.Coherence.{
  IsCoherent, insert_inode-IsCoherent, add_inode-IsCoherent, change_inode-IsCoherent,
  drop_dentry-IsCoherent, drop_inode-IsCoherent, move_dentry-IsCoherent, recache_entry-IsCoherent,
  rest-IsCoherent,
}

-- Two names stay apart under one suffix.
still_apart :
    (p : ℕ) (n : Text) (q : ℕ) (m suffix : Text)
    → (at q m == at p n) ≡ false
    → (at q (m ++ suffix) == at p (n ++ suffix)) ≡ false
still_apart p n q m suffix apart = elim (Bool-cases (at q (m ++ suffix) == at p (n ++ suffix))) [
  | inr differ ↦ differ
  | inl same ↦
      let keys = (key_beq_iff (at q (m ++ suffix)) (at p (n ++ suffix))).0 same in
      let parents : q ≡ p = ap (λ (k : Key). k.parent_ino) keys in
      let names : m ≡ n = append_cancel_right m n suffix (ap (λ (k : Key). k.name) keys) in
      let alike : at q m ≡ at p n = cc (parents, names) in
      let equal = (key_beq_iff (at q m) (at p n)).1 alike in absurd (cc (equal, apart))
]

module _ ⦃lru : LruCache⦄ where
  pub popped :
      (old j : Key) (l : ℕ) (s : Fs)
      → lru.find j (lru.pop old s.cache) ≡ some l
      → ((old == j) ≡ false) × (lru.find j s.cache ≡ some l)
  popped old j l s e = elim (Bool-cases (old == j)) [
    | inl gone ↦
        let none_there : lru.find j (lru.pop old s.cache) ≡ none =
          lru.find-pop old j s.cache ∙ rw gone refl in
        absurd (cc (none_there, e))
    | inr other ↦ (other, sym (lru.find-pop old j s.cache ∙ rw other refl) ∙ e)
  ]

  pub put_blob-IsCoherent :
      (i : ℕ) (content : List ℕ) (s : Fs)
      → IsCoherent s
      → IsCoherent (put_blob i (all_chunks content) s)
  put_blob-IsCoherent i content s h =
      rest-IsCoherent s h (insert i (all_chunks content) s.blobs) s.symlinks s.remote s.queue
        s.hydration

  enter_dir-IsCoherent :
      (now : Timestamp) (p : ℕ) (part : Text) (s : Fs)
      → IsCoherent s
      → IsCoherent (enter_dir now p part s).1
  unfolding enter_dir
  enter_dir-IsCoherent now p part s h = elim (Option-cases (get (at p part) s.dentries)) [
    | inl free ↦
        rw (enter_dir, free)
          (change_inode-IsCoherent _ (add_inode-IsCoherent s h (at p part) _) p _ (λ r. refl))
    | inr (i, here) ↦ rw (enter_dir, here) h
  ]

  enter_dirs-IsCoherent :
      (now : Timestamp) (parts : List Text) (p : ℕ) (s : Fs)
      → IsCoherent s
      → IsCoherent (enter_dirs now parts p s).1
  unfolding enter_dirs
  enter_dirs-IsCoherent now [] p s h = h
  enter_dirs-IsCoherent now (part ∷ rest) p s h =
      enter_dirs-IsCoherent now rest _ _ (enter_dir-IsCoherent now p part s h)

  pub ensure_dirs-IsCoherent :
      (now : Timestamp) (path : Text) (s : Fs)
      → IsCoherent s
      → IsCoherent (ensure_dirs now path s).1
  unfolding ensure_dirs
  ensure_dirs-IsCoherent now path s h = enter_dirs-IsCoherent now _ _ s h

  remove_derived_sibling-IsCoherent :
      (k : Key) (s : Fs) → IsCoherent s → IsCoherent (remove_derived_sibling k s)
  unfolding remove_derived_sibling
  remove_derived_sibling-IsCoherent k s h = elim (Option-cases (find_derived k s)) [
    | inl gone ↦ rw (remove_derived_sibling, gone) h
    | inr ((i, true), found) ↦
        rw (remove_derived_sibling, found)
          (drop_inode-IsCoherent _ (drop_dentry-IsCoherent s h k) i)
    | inr ((i, false), found) ↦ rw (remove_derived_sibling, found) h
  ]

  pub unlink_siblings-IsCoherent :
      (p : ℕ) (n : Text) (suffixes : List Text) (s : Fs)
      → IsCoherent s
      → IsCoherent (unlink_siblings p n suffixes s)
  unfolding unlink_siblings
  unlink_siblings-IsCoherent p n [] s h = h
  unlink_siblings-IsCoherent p n (suffix ∷ rest) s h =
      unlink_siblings-IsCoherent p n rest _ (remove_derived_sibling-IsCoherent _ s h)

  -- A derived file has one name, so its UPDATE is that of its row.
  pub found_derived :
      (o : Option ℕ) (i : ℕ) (inodes : Map ℕ Row)
      → derived_at o inodes ≡ some (i, true)
      → (o ≡ some i) × ((r : Row) × (get i inodes ≡ some r) × (r.derived ≡ true))
  found_derived none i inodes e = cc
  found_derived (some j) i inodes e = elim (Option-cases (get j inodes)) [
    | inl gone ↦ absurd (ground (arith, gone))
    | inr (r, found) ↦
        let known : some (j, r.derived) ≡ some (i, true) = rw (derived_at, found) at e in
        let same : j ≡ i = cc known in
        let derived : r.derived ≡ true = cc known in
        (ap some same, (r, ap (λ l. get l inodes) (sym same) ∙ found, derived))
  ]

  rename_derived_sibling-IsCoherent :
      (old new : Key) (s : Fs)
      → IsCoherent s
      → (new == old) ≡ false
      → IsCoherent (rename_derived_sibling old new s)
  unfolding rename_derived_sibling
  rename_derived_sibling-IsCoherent old new s h apart = elim (Option-cases (find_derived old s)) [
    | inl gone ↦ rw (rename_derived_sibling, gone) h
    | inr ((i, false), found) ↦ rw (rename_derived_sibling, found) h
    | inr ((i, true), found) ↦
        let known = found_derived (get old s.dentries) i s.inodes found in
        let (r, row, derived) = known.1 in
        let names = remove new s.dentries in
        let source : get old names ≡ some i = get-remove new old s.dentries ∙ rw apart known.0 in
        let one : (count_ino i names == 1) ≡ true = ground (
          arith,
          h.once i r row derived,
          count-remove i new s.dentries,
          count_found i old names source,
        ) in
        rw (rename_derived_sibling, found, one)
          (move_dentry-IsCoherent s h old new i names (lru.pop old s.cache)
            (UniqueKeys-remove new s.dentries h.unique)
            (AllValues-remove (λ i. i < s.next_ino) new s.dentries h.names_low)
            (λ j. count-remove j new s.dentries) source
            (get-remove new new s.dentries ∙ rw (beq_refl new) refl)
            (λ j other. get-remove new j s.dentries ∙ rw other refl)
            (λ j l e other. popped old j l s e))
  ]

  pub rename_siblings-IsCoherent :
      (p : ℕ) (n : Text) (q : ℕ) (m : Text) (suffixes : List Text) (s : Fs)
      → IsCoherent s
      → (at q m == at p n) ≡ false
      → IsCoherent (rename_siblings p n q m suffixes s)
  unfolding rename_siblings
  rename_siblings-IsCoherent p n q m [] s h apart = h
  rename_siblings-IsCoherent p n q m (suffix ∷ rest) s h apart =
      rename_siblings-IsCoherent p n q m rest _
        (rename_derived_sibling-IsCoherent _ _ s h (still_apart p n q m suffix apart)) apart

  pub rewrite_file_content-IsCoherent :
      (i : ℕ) (content : List ℕ) (now : Timestamp) (s : Fs)
      → IsCoherent s
      → IsCoherent (rewrite_file_content i content now s)
  unfolding rewrite_file_content
  rewrite_file_content-IsCoherent i content now s h =
      change_inode-IsCoherent _ (put_blob-IsCoherent i content s h) i _ (λ r. refl)

  rewrite_derived-IsCoherent :
      (k : Key) (i : ℕ) (content : List ℕ) (now : Timestamp) (s : Fs)
      → get k s.dentries ≡ some i
      → IsCoherent s
      → IsCoherent (rewrite_derived k i content now s)
  unfolding rewrite_derived rewrite_file_content change_inode
  rewrite_derived-IsCoherent k i content now s here h =
      recache_entry-IsCoherent _ (rewrite_file_content-IsCoherent i content now s h) k i here

  put_derived-IsCoherent :
      (k : Key) (content : List ℕ) (now : Timestamp) (s : Fs)
      → IsCoherent s
      → IsCoherent (put_derived k content now s).0
  put_derived-IsCoherent k content now s h = elim (Option-cases (find_derived k s)) [
    | inr ((i, true), found) ↦
        rw (put_derived, found)
          (rewrite_derived-IsCoherent k i content now s
            (found_derived (get k s.dentries) i s.inodes found).0 h)
    | inr ((i, false), found) ↦ rw (put_derived, found) h
    | inl gone ↦ elim (Option-cases (get k s.dentries)) [
      | inl free ↦
          rw (put_derived, gone, free)
            (put_blob-IsCoherent s.next_ino content _ (add_inode-IsCoherent s h k _))
      | inr (i, here) ↦ rw (put_derived, gone, here) (insert_inode-IsCoherent s h _)
    ]
  ]

  pub create_derived_sibling-IsCoherent :
      (filepath : Text) (content : List ℕ) (now : Timestamp) (s : Fs)
      → IsCoherent s
      → IsCoherent (create_derived_sibling filepath content now s).0
  unfolding create_derived_sibling
  create_derived_sibling-IsCoherent filepath content now s h =
      elim (Option-cases (split_last filepath)) [
        | inl none_there ↦ rw (create_derived_sibling, none_there) h
        | inr ((dir, name), parts) ↦ elim (Bool-cases (is_empty name)) [
          | inl empty ↦ rw (create_derived_sibling, parts, empty) h
          | inr named ↦
              rw (create_derived_sibling, parts, named)
                (put_derived-IsCoherent _ content now _ (ensure_dirs-IsCoherent now _ s h))
        ]
      ]
