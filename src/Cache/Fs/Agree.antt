-- ===== src/Cache/Fs/Agree.antt =====
-- `SupermemoryFs` (crates/smfs-core/src/cache/fs.rs) implements the directories of `MemFs`
-- (crates/smfs-core/src/vfs/mem.rs).
mod Tests
use smfs.Prelude.{
  ℕ, ◌+◌, Bool, true, false, ◌&&◌, Option, none, some, ◌≡◌, inl, inr, refl, sym, ap, ◌∙◌, arith,
  eqb_iff, is_some, if◌then◌else◌, Bool-cases, Option-cases,
}
use smfs.Prelude.Eq.{Text, text_eq, nat_eq, ◌==◌, beq_refl}
use smfs.Prelude.Map.{Map, get, insert, remove, get-insert, get-remove, AllRows-remove}
use smfs.Vfs.Types.{Timestamp, FileAttr}
use smfs.Vfs.Error.{ok, OnOk, OnOk-bind, OnOk-get}
use smfs.Vfs.Mem
use smfs.Vfs.Mem.{Inner}
use smfs.Vfs.Mem.Sound.{IsSound}
use smfs.Vfs.Mem.Entries.{entry, moved, rename_moves}
use smfs.Vfs.Mem.Changes.{added, create_file_adds, unlink_removes}
use smfs.Cache.Fs.{LruCache, Fs, Clock}
use smfs.Cache.Fs.Table.{Key, key_eq, key_beq_iff, at, rekey, get-rekey}
use smfs.Cache.Fs.Change.{add_inode, change_inode, drop_inode, drop_links}
use smfs.Cache.Fs.Query.{Handle}
use smfs.Cache.Fs.Ops.{create_file, unlink, rename, replace_dst}
use smfs.Cache.Fs.Coherence.Ops.{ok_or-get, names_apart, taken_apart}
use smfs.Cache.Fs.Entries.{NoDerived, SameEntries, unlink-dentries, finish_rename-dentries}

module _ ⦃lru : LruCache⦄ where
  source_of :
      (p : ℕ) (n : Text) (s : Fs)
      → is_some (get (at p n) s.dentries) ≡ true
      → (i : ℕ) × (get (at p n) s.dentries ≡ some i)
  source_of p n s here = elim (Option-cases (get (at p n) s.dentries)) [
    | inl gone ↦ absurd (ground (arith, gone))
    | inr found ↦ found
  ]

  -- Where both file systems remove the same name, in states that have the same entries and no
  -- derived file, they are left with the same entries.
  pub unlink_agrees :
      (profile : Option FileAttr) (p : ℕ) (n : Text) (clock : Clock) (m m' : Inner) (s t : Fs)
      → SameEntries m s
      → NoDerived s.inodes
      → Mem.unlink p n clock.now m ≡ ok m'
      → unlink profile p n clock s ≡ ok t
      → SameEntries m' t
  unlink_agrees profile p n clock m m' s t same plain mem_done done q w =
      let (here, names) = OnOk-get _ _ t done (unlink-dentries profile p n clock s plain) in
      let (i, found) = source_of p n s here in
      let left = (unlink_removes p n clock.now m m' i q w mem_done (same p n ∙ found)).0 in
      let old = same q w in
      left
      ∙ rw old refl
      ∙ sym (get-remove (at p n) (at q w) s.dentries)
      ∙ ap (get (at q w)) (sym names)

  create_file-dentries :
      (p : ℕ) (n : Text) (mode uid gid : ℕ) (now : Timestamp) (s : Fs)
      → OnOk
          (λ r. r.1.dentries ≡ insert (at p n) s.next_ino s.dentries)
          (create_file p n mode uid gid now s)
  unfolding create_file OnOk add_inode change_inode
  create_file-dentries p n mode uid gid now s =
      OnOk-bind _ _ _ (λ _ valid. OnOk-bind _ _ _ (λ r dir. OnOk-bind _ _ _ (λ _ free. refl)))

  -- Where both file systems create the same file, in states that have the same entries and the same
  -- next inode number, they are left with the same entries.
  pub create_file_agrees :
      (p : ℕ) (n : Text) (mode uid gid : ℕ) (now : Timestamp) (m m' : Inner) (s t : Fs)
      (a : FileAttr) (h : ℕ) (r : FileAttr × Handle)
      → IsSound m
      → m.next_ino ≡ s.next_ino
      → SameEntries m s
      → Mem.create_file p n mode uid gid now m ≡ ok ((a, h), m')
      → create_file p n mode uid gid now s ≡ ok (r, t)
      → SameEntries m' t
  create_file_agrees p n mode uid gid now m m' s t a h r sound next same mem_done done q w =
      let names =
        OnOk-get (λ x. x.1.dentries ≡ insert (at p n) s.next_ino s.dentries) _ (r, t) done
          (create_file-dentries p n mode uid gid now s) in
      let (_, _, left) = create_file_adds p n mode uid gid now m m' a h q w sound mem_done in
      let old = same q w in
      left
      ∙ rw (old, next) refl
      ∙ sym (get-insert (at p n) (at q w) s.next_ino s.dentries)
      ∙ ap (get (at q w)) (sym names)

  abbrev IsRenamed : ℕ → Text → ℕ → Text → Fs → Fs → Type 0
  IsRenamed p n q m s t =
      (is_some (get (at p n) s.dentries) ≡ true)
      × ((i : ℕ)
          → get (at p n) s.dentries ≡ some i
          → ¬ (get (at q m) s.dentries ≡ some i)
          → (d : ℕ) (w : Text)
          → get (at d w) t.dentries ≡ moved p n q m i d w (get (at d w) s.dentries))

  -- The move of an entry in a table that lacks the new name and is otherwise the one before.
  rekey-moved :
      (p : ℕ) (n : Text) (q : ℕ) (m : Text) (i d : ℕ) (w : Text) (names before : Map Key ℕ)
      → get (at p n) names ≡ some i
      → get (at q m) names ≡ none
      → ((k : Key) → (at q m == k) ≡ false → get k names ≡ get k before)
      → get (at d w) (rekey (at p n) (at q m) names) ≡ moved p n q m i d w (get (at d w) before)
  rekey-moved p n q m i d w names before source free others = elim (Bool-cases (at q m == at d w)) [
    | inl new ↦ get-rekey (at p n) (at q m) (at d w) names free ∙ rw (new, source) refl
    | inr other ↦
        get-rekey (at p n) (at q m) (at d w) names free ∙ rw (other, others (at d w) other) refl
  ]

  rename-IsRenamed :
      (profile : Option FileAttr) (p : ℕ) (n : Text) (q : ℕ) (m : Text) (clock : Clock) (s : Fs)
      → NoDerived s.inodes
      → OnOk (IsRenamed p n q m s) (rename profile p n q m clock s)
  unfolding rename OnOk drop_inode
  rename-IsRenamed profile p n q m clock s h = OnOk-bind _ _ _ (λ _ valid.
      OnOk-bind _ _ _ (λ _ ok_new. OnOk-bind _ _ _ (λ i here. OnOk-bind _ _ _ (λ _ dir.
        OnOk-bind _ _ _ (λ r found.
          let source = ok_or-get _ _ i here in
          elim (Option-cases (get (at q m) s.dentries)) [
            | inl free ↦ rw free (
              ap is_some source,
              λ k e_src other d w.
                  let names =
                    finish_rename-dentries profile (at p n) (at q m) i false none clock s.dentries s
                      h in
                  ap (get (at d w)) names
                  ∙ rekey-moved p n q m k d w s.dentries s.dentries e_src free (λ k other. refl),
            )
            | inr (j, taken) ↦ rw taken (elim (Bool-cases (j == i)) [
              | inl same ↦ rw same (
                ap is_some source,
                λ k e_src other d w.
                    let ji : j ≡ i = (eqb_iff j i).0 same in
                    absurd (other (taken ∙ ap some ji ∙ sym source ∙ e_src)),
              )
              | inr differ ↦ rw differ (
                  OnOk-bind _ _ _ (λ r_dst found_dst. OnOk-bind _ _ _ (λ _ replaces. (
                    ap is_some source,
                    λ k e_src other d w.
                        let apart = taken_apart s (at p n) (at q m) i j source taken differ in
                        let t = replace_dst (at q m) j s in
                        let plain : NoDerived t.inodes =
                          AllRows-remove (λ i r. r.derived ≡ false) j s.inodes h in
                        let names =
                          finish_rename-dentries profile (at p n) (at q m) i true _ clock s.dentries
                            t plain in
                        ap (get (at d w)) names
                        ∙ rekey-moved p n q m k d w (remove (at q m) s.dentries) s.dentries
                            (get-remove (at q m) (at p n) s.dentries ∙ rw apart e_src)
                            (get-remove (at q m) (at q m) s.dentries ∙ rw (beq_refl (at q m)) refl)
                            (λ k other. get-remove (at q m) k s.dentries ∙ rw other refl),
                  ))))
            ])
          ])))))

  -- Where both file systems rename the same entry, in states that have the same entries and no
  -- derived file, and the two names do not already stand for one inode, they are left with the same
  -- entries.
  pub rename_agrees :
      (profile : Option FileAttr) (p : ℕ) (n : Text) (q : ℕ) (w : Text) (clock : Clock)
      (m m' : Inner) (s t : Fs)
      → SameEntries m s
      → NoDerived s.inodes
      → ¬ (get (at q w) s.dentries ≡ get (at p n) s.dentries)
      → Mem.rename p n q w clock.now m ≡ ok m'
      → rename profile p n q w clock s ≡ ok t
      → SameEntries m' t
  rename_agrees profile p n q w clock m m' s t same plain apart mem_done done d name =
      let (here, names) =
        OnOk-get (IsRenamed p n q w s) _ t done (rename-IsRenamed profile p n q w clock s plain) in
      let (i, found) = source_of p n s here in
      let other : ¬ (get (at q w) s.dentries ≡ some i) = λ e. apart (e ∙ sym found) in
      let left =
        rename_moves p n q w clock.now m m' i d name mem_done (same p n ∙ found)
          (λ e. other (sym (same q w) ∙ e)) in
      let old = same d name in left ∙ rw old refl ∙ sym (names i found other d name)
