-- ===== src/Cache/Fs/Entries.antt =====
-- `SupermemoryFs` (crates/smfs-core/src/cache/fs.rs) against `MemFs` (crates/smfs-core/src/vfs/mem.rs):
-- where both succeed, their directories change in the same way.
use smfs.Prelude.{
  ℕ, leb, Bool, true, false, Option, none, some, List, [], ◌∷◌, ◌++◌, ◌≡◌, inl, inr, refl, ap, ◌∙◌,
  is_some, Bool-cases, Option-cases,
}
use smfs.Prelude.Eq.{Text, text_eq, nat_eq, ◌==◌}
use smfs.Prelude.Map.{Map, get, remove, AllRows, AllRows-remove, AllRows-update, AllRows-get}
use smfs.Vfs.Types.{Timestamp, FileAttr}
use smfs.Vfs.Error.{OnOk, OnOk-bind}
use smfs.Vfs.Mem.{Inner}
use smfs.Vfs.Mem.Entries.{entry, moved}
use smfs.Cache.Queue.{retarget_pending_create}
use smfs.Cache.Fs.{Row, LruCache, Fs, Clock, touch_row}
use smfs.Cache.Fs.Table.{Key, key_eq, at, rekey}
use smfs.Cache.Fs.Change.{change_inode, drop_dentry, drop_inode, move_dentry}
use smfs.Cache.Fs.Siblings.{
  find_derived, remove_derived_sibling, unlink_siblings, rename_derived_sibling, rename_siblings,
  derived_sibling_suffixes,
}
use smfs.Cache.Fs.Ops.{
  unlink, remove_name, drop_unlinked, without_name, push_delete, move_entry, less_link, new_ctime,
  rebind_remote, push_overwritten, push_moved, finish_rename,
}
use smfs.Cache.Fs.Coherence.Siblings.{found_derived}
use smfs.Cache.Fs.Coherence.Ops.{ok_or-get}

-- No file is derived.
abbrev pub NoDerived : Map ℕ Row → Type 0
NoDerived inodes = AllRows (λ i r. r.derived ≡ false) inodes

-- Every directory has the same entries.
abbrev pub SameEntries : ⦃lru : LruCache⦄ → Inner → Fs → Type 0
SameEntries m s = (p : ℕ) (w : Text) → entry p w m.nodes ≡ get (at p w) s.dentries

module _ ⦃lru : LruCache⦄ where
  not_derived :
      (k : Key) (i : ℕ) (s : Fs) → NoDerived s.inodes → find_derived k s ≡ some (i, true) → ⊥
  not_derived k i s h found =
      let (r, row, derived) = (found_derived (get k s.dentries) i s.inodes found).1 in
      let plain = AllRows-get (λ i r. r.derived ≡ false) i r s.inodes row h in
      absurd (cc (derived, plain))

  unlink_siblings_none :
      (p : ℕ) (n : Text) (suffixes : List Text) (s : Fs)
      → NoDerived s.inodes
      → unlink_siblings p n suffixes s ≡ s
  unfolding unlink_siblings remove_derived_sibling
  unlink_siblings_none p n [] s h = refl
  unlink_siblings_none p n (suffix ∷ rest) s h =
      elim (Option-cases (find_derived (at p (n ++ suffix)) s)) [
        | inl gone ↦ rw (remove_derived_sibling, gone) (unlink_siblings_none p n rest s h)
        | inr ((i, false), found) ↦
            rw (remove_derived_sibling, found) (unlink_siblings_none p n rest s h)
        | inr ((i, true), found) ↦ absurd (not_derived (at p (n ++ suffix)) i s h found)
      ]

  rename_siblings_none :
      (p : ℕ) (n : Text) (q : ℕ) (m : Text) (suffixes : List Text) (s : Fs)
      → NoDerived s.inodes
      → rename_siblings p n q m suffixes s ≡ s
  unfolding rename_siblings rename_derived_sibling
  rename_siblings_none p n q m [] s h = refl
  rename_siblings_none p n q m (suffix ∷ rest) s h =
      elim (Option-cases (find_derived (at p (n ++ suffix)) s)) [
        | inl gone ↦ rw (rename_derived_sibling, gone) (rename_siblings_none p n q m rest s h)
        | inr ((i, false), found) ↦
            rw (rename_derived_sibling, found) (rename_siblings_none p n q m rest s h)
        | inr ((i, true), found) ↦ absurd (not_derived (at p (n ++ suffix)) i s h found)
      ]

  NoDerived-change :
      (i : ℕ) (f : Row → Row) (s : Fs)
      → ((r : Row) → (f r).derived ≡ r.derived)
      → NoDerived s.inodes
      → NoDerived (change_inode i f s).inodes
  unfolding change_inode
  NoDerived-change i f s keeps h =
      AllRows-update (λ i r. r.derived ≡ false) i f s.inodes h (λ j r plain. keeps r ∙ plain)

  -- What an operation leaves: the names, and that no file is derived.
  abbrev Leaves : Map Key ℕ → Fs → Type 0
  Leaves names t = (t.dentries ≡ names) × NoDerived t.inodes

  push_delete-Leaves :
      (api : Bool) (fp : Option Text) (i ms : ℕ) (names : Map Key ℕ) (s : Fs)
      → Leaves names s
      → Leaves names (push_delete api fp i ms s)
  push_delete-Leaves false fp i ms names s h = h
  push_delete-Leaves true none i ms names s h = h
  push_delete-Leaves true (some fp) i ms names s h = h

  remove_name-Leaves :
      (p : ℕ) (n : Text) (i : ℕ) (now : Timestamp) (s : Fs)
      → NoDerived s.inodes
      → Leaves (remove (at p n) s.dentries) (remove_name p n i now s)
  unfolding change_inode drop_dentry drop_inode
  remove_name-Leaves p n i now s h =
      let t = without_name p n i now s in
      let plain : NoDerived t.inodes =
        NoDerived-change i (less_link now) (change_inode p (touch_row now) (drop_dentry (at p n) s))
          (λ r. refl) (NoDerived-change p (touch_row now) (drop_dentry (at p n) s) (λ r. refl) h) in
      elim (Option-cases (get i t.inodes)) [
        | inl gone ↦ rw (remove_name, gone) (refl, plain)
        | inr (r, found) ↦ elim (Bool-cases (leb r.nlink 0)) [
          | inl last ↦
              rw (remove_name, found, drop_unlinked, last)
                (refl, AllRows-remove (λ i r. r.derived ≡ false) i t.inodes plain)
          | inr more ↦ rw (remove_name, found, drop_unlinked, more) (refl, plain)
        ]
      ]

  pub unlink-dentries :
      (profile : Option FileAttr) (p : ℕ) (n : Text) (clock : Clock) (s : Fs)
      → NoDerived s.inodes
      → OnOk
          (λ t.
            (is_some (get (at p n) s.dentries) ≡ true) × (t.dentries ≡ remove (at p n) s.dentries))
          (unlink profile p n clock s)
  unfolding unlink OnOk
  unlink-dentries profile p n clock s h = OnOk-bind _ _ _ (λ _ valid. OnOk-bind _ _ _ (λ _ real.
      OnOk-bind _ _ _ (λ i here. OnOk-bind _ _ _ (λ r found. OnOk-bind _ _ _ (λ _ file.
        let left =
          push_delete-Leaves (is_some profile) _ i clock.ms _ (remove_name p n i clock.now s)
            (remove_name-Leaves p n i clock.now s h) in
        (
          ap is_some (ok_or-get _ _ i here),
          ap (λ (t : Fs). t.dentries) (unlink_siblings_none p n derived_sibling_suffixes _ left.1)
              ∙ left.0,
        ))))))

  move_entry-Leaves :
      (old new : Key) (i : ℕ) (now : Timestamp) (s : Fs)
      → NoDerived s.inodes
      → Leaves (rekey old new s.dentries) (move_entry old new i now s)
  unfolding change_inode move_dentry
  move_entry-Leaves old new i now s h =
      let t = move_dentry old new i (lru.pop new (lru.pop old s.cache)) s in
      let moved = NoDerived-change i (new_ctime now) t (λ r. refl) h in
      let u = change_inode i (new_ctime now) t in
      let touched = NoDerived-change old.parent_ino (touch_row now) u (λ r. refl) moved in
      let v = change_inode old.parent_ino (touch_row now) u in
      elim (Bool-cases (new.parent_ino == old.parent_ino)) [
        | inl same ↦ rw (move_entry, same) (refl, touched)
        | inr differ ↦
            rw (move_entry, differ)
              (refl, NoDerived-change new.parent_ino (touch_row now) v (λ r. refl) touched)
      ]

  rebind_remote-Leaves :
      (i : ℕ) (id : Option Text) (names : Map Key ℕ) (s : Fs)
      → Leaves names s
      → Leaves names (rebind_remote i id s)
  rebind_remote-Leaves i none names s h = h
  rebind_remote-Leaves i (some w) names s h = h

  push_overwritten-Leaves :
      (b : Bool) (fp : Option Text) (ms : ℕ) (names : Map Key ℕ) (s : Fs)
      → Leaves names s
      → Leaves names (push_overwritten b fp ms s)
  push_overwritten-Leaves false fp ms names s h = h
  push_overwritten-Leaves true none ms names s h = h
  push_overwritten-Leaves true (some fp) ms names s h = h

  push_moved-Leaves :
      (old_fp new_fp dst_fp : Option Text) (b : Bool) (id : Option Text) (i ms : ℕ)
      (names : Map Key ℕ) (s : Fs)
      → Leaves names s
      → Leaves names (push_moved old_fp new_fp dst_fp b id i ms s)
  push_moved-Leaves none new_fp dst_fp b id i ms names s h = h
  push_moved-Leaves (some fp) none dst_fp b id i ms names s h = h
  push_moved-Leaves (some fp) (some to) dst_fp b id i ms names s h =
      let r = retarget_pending_create fp to id ms s.queue in
      let t : Fs = record s { queue = r.0 } in
      elim (Bool-cases r.1) [
        | inl moved ↦ rw (push_moved, moved) (rebind_remote-Leaves i id names t h)
        | inr other ↦ rw (push_moved, other) (push_overwritten-Leaves b dst_fp ms names t h)
      ]

  pub finish_rename-dentries :
      (profile : Option FileAttr) (old new : Key) (i : ℕ) (b : Bool) (id : Option Text)
      (clock : Clock) (before : Map Key ℕ) (s : Fs)
      → NoDerived s.inodes
      → (finish_rename profile old new i b id clock before s).dentries ≡ rekey old new s.dentries
  finish_rename-dentries profile old new i b id clock before s h =
      let left = move_entry-Leaves old new i clock.now s h in
      elim (Bool-cases (is_some profile)) [
        | inl api ↦
            let pushed = push_moved-Leaves _ _ _ b id i clock.ms _ _ left in
            rw (finish_rename, api)
              (ap (λ (t : Fs). t.dentries)
                  (rename_siblings_none _ _ _ _ derived_sibling_suffixes _ pushed.1)
                ∙ pushed.0)
        | inr offline ↦
            rw (finish_rename, offline)
              (ap (λ (t : Fs). t.dentries)
                  (rename_siblings_none _ _ _ _ derived_sibling_suffixes _ left.1)
                ∙ left.0)
      ]
