-- ===== src/Cache/Fs/Coherence/Rename.antt =====
-- A rename of `SupermemoryFs` (crates/smfs-core/src/cache/fs.rs) keeps the dentry cache coherent.
use smfs.Prelude.{
  ℕ, ◌<◌, ◌≤◌, Bool, true, false, Option, none, some, ◌≡◌, inl, inr, refl, sym, ◌∙◌, arith, is_some,
  Bool-cases, Option-cases,
}
use smfs.Prelude.Eq.{Text, nat_eq, ◌==◌, beq_refl}
use smfs.Prelude.Map.{
  Map, get, remove, get-remove, UniqueKeys-remove, AllValues-remove, UniqueKeys, AllValues,
}
use smfs.Vfs.Types.{Timestamp, FileAttr}
use smfs.Vfs.Error.{OnOk, OnOk-bind}
use smfs.Cache.Queue.{retarget_pending_create}
use smfs.Cache.Fs.{LruCache, Fs, Clock}
use smfs.Cache.Fs.Table.{Key, key_eq, at, count_ino, count-remove}
use smfs.Cache.Fs.Change.{drop_inode, drop_links}
use smfs.Cache.Fs.Siblings.{derived_sibling_suffixes}
use smfs.Cache.Fs.Ops.{
  rename, move_entry, push_moved, rebind_remote, finish_rename, push_overwritten,
}
use smfs.Cache.Fs.Coherence.{
  IsCoherent, change_inode-IsCoherent, drop_inode-IsCoherent, move_dentry-IsCoherent,
  rest-IsCoherent,
}
use smfs.Cache.Fs.Coherence.Siblings.{rename_siblings-IsCoherent, popped}
use smfs.Cache.Fs.Coherence.Ops.{ok_or-get, names_apart, taken_apart}

module _ ⦃lru : LruCache⦄ where
  -- The move of an entry, in a table that lacks the new name and is otherwise the one before.
  move_entry-IsCoherent :
      (old new : Key) (i : ℕ) (now : Timestamp) (names : Map Key ℕ) (s : Fs)
      → IsCoherent s
      → UniqueKeys names
      → AllValues (λ i. i < s.next_ino) names
      → ((j : ℕ) → count_ino j names ≤ count_ino j s.dentries)
      → get old names ≡ some i
      → get new names ≡ none
      → ((j : Key) → (new == j) ≡ false → get j names ≡ get j s.dentries)
      → IsCoherent (move_entry old new i now (record s { dentries = names }))
  move_entry-IsCoherent old new i now names s h unique low fewer source free same_names =
      let t : Fs = record s { dentries = names } in
      let moved =
        move_dentry-IsCoherent s h old new i names (lru.pop new (lru.pop old s.cache)) unique low
          fewer source free same_names
          (λ j l e other.
            popped old j l s
              (sym (lru.find-pop new j (lru.pop old s.cache) ∙ rw other refl) ∙ e)) in
      let touched =
        change_inode-IsCoherent _ (change_inode-IsCoherent _ moved i _ (λ r. refl)) old.parent_ino _
          (λ r. refl) in
      elim (Bool-cases (new.parent_ino == old.parent_ino)) [
        | inl same ↦ rw (move_entry, same) touched
        | inr differ ↦
            rw (move_entry, differ) (change_inode-IsCoherent _ touched new.parent_ino _ (λ r. refl))
      ]

  rebind_remote-IsCoherent :
      (i : ℕ) (id : Option Text) (s : Fs) → IsCoherent s → IsCoherent (rebind_remote i id s)
  rebind_remote-IsCoherent i none s h = h
  rebind_remote-IsCoherent i (some w) s h =
      rest-IsCoherent s h s.blobs s.symlinks _ s.queue s.hydration

  push_overwritten-IsCoherent :
      (b : Bool) (fp : Option Text) (ms : ℕ) (s : Fs)
      → IsCoherent s
      → IsCoherent (push_overwritten b fp ms s)
  push_overwritten-IsCoherent false fp ms s h = h
  push_overwritten-IsCoherent true none ms s h = h
  push_overwritten-IsCoherent true (some fp) ms s h =
      rest-IsCoherent s h s.blobs s.symlinks s.remote _ s.hydration

  push_moved-IsCoherent :
      (old_fp new_fp dst_fp : Option Text) (b : Bool) (id : Option Text) (i ms : ℕ) (s : Fs)
      → IsCoherent s
      → IsCoherent (push_moved old_fp new_fp dst_fp b id i ms s)
  push_moved-IsCoherent none new_fp dst_fp b id i ms s h = h
  push_moved-IsCoherent (some fp) none dst_fp b id i ms s h = h
  push_moved-IsCoherent (some fp) (some to) dst_fp b id i ms s h =
      let r = retarget_pending_create fp to id ms s.queue in
      let t : Fs = record s { queue = r.0 } in
      let kept : IsCoherent t = rest-IsCoherent s h s.blobs s.symlinks s.remote r.0 s.hydration in
      let pushed = push_overwritten-IsCoherent b dst_fp ms t kept in
      elim (Bool-cases r.1) [
        | inl moved ↦ rw (push_moved, moved) (rebind_remote-IsCoherent i id t kept)
        | inr other ↦
            rw (push_moved, other)
              (rest-IsCoherent (push_overwritten b dst_fp ms t) pushed _ _ _ _ _)
      ]

  finish_rename-IsCoherent :
      (profile : Option FileAttr) (old new : Key) (i : ℕ) (b : Bool) (id : Option Text)
      (clock : Clock) (before names : Map Key ℕ) (s : Fs)
      → IsCoherent s
      → UniqueKeys names
      → AllValues (λ i. i < s.next_ino) names
      → ((j : ℕ) → count_ino j names ≤ count_ino j s.dentries)
      → get old names ≡ some i
      → get new names ≡ none
      → ((j : Key) → (new == j) ≡ false → get j names ≡ get j s.dentries)
      → IsCoherent
          (finish_rename profile old new i b id clock before (record s { dentries = names }))
  finish_rename-IsCoherent profile old new i b id clock before names s h unique low fewer source
        free same_names =
      let moved =
        move_entry-IsCoherent old new i clock.now names s h unique low fewer source free
          same_names in
      let apart : (new == old) ≡ false = names_apart old new i names source free in
      elim (Bool-cases (is_some profile)) [
        | inl api ↦
            rw (finish_rename, api)
              (rename_siblings-IsCoherent _ _ _ _ derived_sibling_suffixes _
                (push_moved-IsCoherent _ _ _ b id i clock.ms _ moved) apart)
        | inr offline ↦
            rw (finish_rename, offline)
              (rename_siblings-IsCoherent _ _ _ _ derived_sibling_suffixes _ moved apart)
      ]

  pub rename-IsCoherent :
      (profile : Option FileAttr) (p : ℕ) (n : Text) (q : ℕ) (m : Text) (clock : Clock) (s : Fs)
      → IsCoherent s
      → OnOk IsCoherent (rename profile p n q m clock s)
  unfolding rename OnOk drop_inode
  rename-IsCoherent profile p n q m clock s h = OnOk-bind _ _ _ (λ _ valid.
      OnOk-bind _ _ _ (λ _ ok_new. OnOk-bind _ _ _ (λ i here. OnOk-bind _ _ _ (λ _ dir.
        OnOk-bind _ _ _ (λ r found.
          let source = ok_or-get _ _ i here in
          elim (Option-cases (get (at q m) s.dentries)) [
            | inl free ↦ rw free (
                finish_rename-IsCoherent profile (at p n) (at q m) i false none clock s.dentries
                  s.dentries s h h.unique h.names_low (λ j. omega arith) source free
                  (λ j other. refl))
            | inr (j, taken) ↦ rw taken (elim (Bool-cases (j == i)) [
              | inl same ↦ rw same h
              | inr differ ↦ rw differ (
                  OnOk-bind _ _ _ (λ r_dst found_dst. OnOk-bind _ _ _ (λ _ replaces.
                    let less = drop_inode-IsCoherent s h j in
                    let s_less = drop_links j (drop_inode j s) in
                    let kept : IsCoherent s_less =
                      rest-IsCoherent (drop_inode j s) less _ _ _ _ _ in
                    let names = remove (at q m) s.dentries in
                    let apart = taken_apart s (at p n) (at q m) i j source taken differ in
                    finish_rename-IsCoherent profile (at p n) (at q m) i true _ clock s.dentries
                      names s_less kept (UniqueKeys-remove (at q m) s.dentries h.unique)
                      (AllValues-remove (λ i. i < s.next_ino) (at q m) s.dentries h.names_low)
                      (λ l. count-remove l (at q m) s.dentries)
                      (get-remove (at q m) (at p n) s.dentries ∙ rw apart source)
                      (get-remove (at q m) (at q m) s.dentries ∙ rw (beq_refl (at q m)) refl)
                      (λ k other. get-remove (at q m) k s.dentries ∙ rw other refl))))
            ])
          ])))))
