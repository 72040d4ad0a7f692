-- ===== src/Cache/Fs/Coherence/Ops.antt =====
-- The operations of `SupermemoryFs` (crates/smfs-core/src/cache/fs.rs) keep the dentry cache
-- coherent.
use smfs.Prelude.{
  ℕ, ◌<◌, leb, Bool, true, false, Option, none, some, ◌≡◌, inl, inr, refl, sym, ap, ◌∙◌, eqb_iff,
  is_some, Bool-cases, Option-cases,
}
use mathlib.Core.Option
use smfs.Prelude.Eq.{Text, nat_eq, ◌==◌, beq_refl}
use smfs.Prelude.Map.{Map, get, get-update, AllRows-get}
use smfs.Vfs.Types.{Timestamp, FileAttr, SetAttr}
use smfs.Vfs.Error.{ok, OnOk, OnOk-bind, OnOk-get}
use smfs.Cache.File.{Inode}
use smfs.Cache.Fs.{Row, LruCache, Fs, Clock, set_inode, set_rows, rows_of, touch_row}
use smfs.Cache.Fs.Table.{Key, key_eq, key_beq_iff, at}
use smfs.Cache.Fs.Change.{change_inode, drop_dentry, drop_inode}
use smfs.Cache.Fs.Siblings.{derived_sibling_suffixes}
use smfs.Cache.Fs.Ops.{
  mkdir, rmdir, create_file, unlink, symlink_at, link, setattr, drop_unlinked, remove_name,
  push_delete, resize_file, set_fields, without_name, less_link, more_link,
}
use smfs.Cache.Fs.Coherence.{
  IsCoherent, add_inode-IsCoherent, change_inode-IsCoherent, add_dentry-IsCoherent,
  drop_dentry-IsCoherent, drop_inode-IsCoherent, rest-IsCoherent, derived_before,
}
use smfs.Cache.Fs.Coherence.Siblings.{unlink_siblings-IsCoherent}

pub ok_or-get {ℓ} :
    {A : Type ℓ} (e : smfs.Vfs.Error.VfsError) (o : Option A) (a : A)
    → smfs.Cache.Fs.ok_or e o ≡ ok a
    → o ≡ some a
ok_or-get e none a h = cc
ok_or-get e (some b) a h = cc

pub names_apart :
    (old new : Key) (i : ℕ) (names : Map Key ℕ)
    → get old names ≡ some i
    → get new names ≡ none
    → (new == old) ≡ false
names_apart old new i names source free = elim (Bool-cases (new == old)) [
  | inr differ ↦ differ
  | inl same ↦
      let keys : new ≡ old = (key_beq_iff new old).0 same in
      let both = ap (λ k. get k names) keys in absurd (cc (both, source, free))
]

module _ ⦃lru : LruCache⦄ where
  pub taken_apart :
      (s : Fs) (old new : Key) (i j : ℕ)
      → get old s.dentries ≡ some i
      → get new s.dentries ≡ some j
      → (j == i) ≡ false
      → (new == old) ≡ false
  taken_apart s old new i j source taken differ = elim (Bool-cases (new == old)) [
    | inr other ↦ other
    | inl same ↦
        let keys : new ≡ old = (key_beq_iff new old).0 same in
        let both = ap (λ k. get k s.dentries) keys in
        let equal : j ≡ i = cc (both, source, taken) in
        let test = (eqb_iff j i).1 equal in absurd (cc (test, differ))
  ]

  pub mkdir-IsCoherent :
      (p : ℕ) (n : Text) (mode uid gid : ℕ) (now : Timestamp) (s : Fs)
      → IsCoherent s
      → OnOk (λ r. IsCoherent r.1) (mkdir p n mode uid gid now s)
  unfolding mkdir OnOk
  mkdir-IsCoherent p n mode uid gid now s h = OnOk-bind _ _ _ (λ _ valid. OnOk-bind _ _ _ (λ _ dir.
      OnOk-bind _ _ _ (λ _ free.
        change_inode-IsCoherent _ (add_inode-IsCoherent s h (at p n) _) p _ (λ r. refl))))

  pub rmdir-IsCoherent :
      (p : ℕ) (n : Text) (now : Timestamp) (s : Fs)
      → IsCoherent s
      → OnOk IsCoherent (rmdir p n now s)
  unfolding rmdir OnOk drop_inode
  rmdir-IsCoherent p n now s h = OnOk-bind _ _ _ (λ _ valid. OnOk-bind _ _ _ (λ i here.
      OnOk-bind _ _ _ (λ r found. OnOk-bind _ _ _ (λ _ dir. OnOk-bind _ _ _ (λ _ empty.
        let t = drop_dentry (at p n) s in
        let less = drop_inode-IsCoherent t (drop_dentry-IsCoherent s h (at p n)) i in
        change_inode-IsCoherent _
          (rest-IsCoherent (drop_inode i t) less t.blobs t.symlinks t.remote t.queue t.hydration) p
          _ (λ r. refl))))))

  pub create_file-IsCoherent :
      (p : ℕ) (n : Text) (mode uid gid : ℕ) (now : Timestamp) (s : Fs)
      → IsCoherent s
      → OnOk (λ r. IsCoherent r.1) (create_file p n mode uid gid now s)
  unfolding create_file OnOk
  create_file-IsCoherent p n mode uid gid now s h = OnOk-bind _ _ _ (λ _ valid.
      OnOk-bind _ _ _ (λ _ dir. OnOk-bind _ _ _ (λ _ free.
        change_inode-IsCoherent _ (add_inode-IsCoherent s h (at p n) _) p _ (λ r. refl))))

  pub symlink_at-IsCoherent :
      (p : ℕ) (n target : Text) (uid gid : ℕ) (now : Timestamp) (s : Fs)
      → IsCoherent s
      → OnOk (λ r. IsCoherent r.1) (symlink_at p n target uid gid now s)
  unfolding symlink_at OnOk
  symlink_at-IsCoherent p n target uid gid now s h = OnOk-bind _ _ _ (λ _ valid.
      OnOk-bind _ _ _ (λ _ dir. OnOk-bind _ _ _ (λ _ free.
        let more =
          change_inode-IsCoherent _ (add_inode-IsCoherent s h (at p n) _) p _ (λ r. refl) in
        rest-IsCoherent _ more _ _ _ _ _)))

  drop_unlinked-IsCoherent :
      (i : ℕ) (o : Option Row) (s : Fs) → IsCoherent s → IsCoherent (drop_unlinked i o s)
  drop_unlinked-IsCoherent i none s h = h
  drop_unlinked-IsCoherent i (some r) s h = elim (Bool-cases (leb r.nlink 0)) [
    | inl last ↦
        rw (drop_unlinked, last) (rest-IsCoherent _ (drop_inode-IsCoherent s h i) _ _ _ _ _)
    | inr more ↦ rw (drop_unlinked, more) h
  ]

  push_delete-IsCoherent :
      (api : Bool) (fp : Option Text) (i ms : ℕ) (s : Fs)
      → IsCoherent s
      → IsCoherent (push_delete api fp i ms s)
  push_delete-IsCoherent false fp i ms s h = h
  push_delete-IsCoherent true none i ms s h = h
  push_delete-IsCoherent true (some fp) i ms s h =
      rest-IsCoherent s h s.blobs s.symlinks s.remote _ s.hydration

  remove_name-IsCoherent :
      (p : ℕ) (n : Text) (i : ℕ) (now : Timestamp) (s : Fs)
      → IsCoherent s
      → IsCoherent (remove_name p n i now s)
  remove_name-IsCoherent p n i now s h =
      drop_unlinked-IsCoherent i (get i (without_name p n i now s).inodes)
        (without_name p n i now s)
        (change_inode-IsCoherent _
          (change_inode-IsCoherent _ (drop_dentry-IsCoherent s h (at p n)) p (touch_row now)
            (λ r. refl))
          i (less_link now) (λ r. refl))

  pub unlink-IsCoherent :
      (profile : Option FileAttr) (p : ℕ) (n : Text) (clock : Clock) (s : Fs)
      → IsCoherent s
      → OnOk IsCoherent (unlink profile p n clock s)
  unfolding unlink OnOk
  unlink-IsCoherent profile p n clock s h = OnOk-bind _ _ _ (λ _ valid. OnOk-bind _ _ _ (λ _ real.
      OnOk-bind _ _ _ (λ i here. OnOk-bind _ _ _ (λ r found. OnOk-bind _ _ _ (λ _ file.
        unlink_siblings-IsCoherent p n derived_sibling_suffixes _ (
          push_delete-IsCoherent (is_some profile) _ i clock.ms _
            (remove_name-IsCoherent p n i clock.now s h)))))))

  -- A hard link to a derived file is left out: the file would have two names.
  pub link-IsCoherent :
      (i p : ℕ) (n : Text) (now : Timestamp) (s : Fs)
      → IsCoherent s
      → ((r : Row) → get i s.inodes ≡ some r → r.derived ≡ false)
      → OnOk (λ r. IsCoherent r.1) (link i p n now s)
  unfolding link OnOk change_inode
  link-IsCoherent i p n now s h plain = OnOk-bind _ _ _ (λ _ valid. OnOk-bind _ _ _ (λ r found.
      OnOk-bind _ _ _ (λ _ file. OnOk-bind _ _ _ (λ _ dir. OnOk-bind _ _ _ (λ _ free.
        OnOk-bind _ _ _ (λ a there.
          let low =
            AllRows-get (λ i r. i < s.next_ino) i r s.inodes (ok_or-get _ _ r found) h.inodes_low in
          let linked : Row → Row = more_link now in
          let one = change_inode-IsCoherent s h i linked (λ r. refl) in
          change_inode-IsCoherent _
            (add_dentry-IsCoherent (change_inode i linked s) one (at p n) i low (λ q row.
              let changed : Option.map linked (get i s.inodes) ≡ some q =
                sym (get-update i i linked s.inodes ∙ rw (beq_refl i) refl) ∙ row in
              let (b, before, kept) =
                derived_before linked (get i s.inodes) q (λ r. refl) changed in
              sym kept ∙ plain b before))
            p _ (λ r. refl)))))))

  set_rows-IsCoherent :
      (i : ℕ) (f : smfs.Cache.File.FileRows) (s : Fs) → IsCoherent s → IsCoherent (set_rows i f s)
  unfolding change_inode
  set_rows-IsCoherent i f s h = elim (Option-cases f.inode) [
    | inl gone ↦ rw (set_rows, gone) (rest-IsCoherent s h _ s.symlinks s.remote s.queue s.hydration)
    | inr (n, kept) ↦
        rw (set_rows, kept)
          (rest-IsCoherent _
            (change_inode-IsCoherent s h i (smfs.Cache.Fs.with_inode n) (λ r. refl)) _ s.symlinks
            s.remote s.queue s.hydration)
  ]

  resize_file-IsCoherent :
      (size : Option ℕ) (i : ℕ) (r : Row) (now : Timestamp) (s : Fs)
      → IsCoherent s
      → OnOk IsCoherent (resize_file size i r now s)
  unfolding OnOk
  resize_file-IsCoherent none i r now s h = h
  resize_file-IsCoherent (some size) i r now s h =
      OnOk-bind _ _ _ (λ _ file. OnOk-bind _ _ _ (λ _ plain. set_rows-IsCoherent i _ s h))

  pub setattr-IsCoherent :
      (i : ℕ) (a : SetAttr) (now : Timestamp) (s : Fs)
      → IsCoherent s
      → OnOk (λ r. IsCoherent r.1) (setattr i a now s)
  unfolding setattr set_fields OnOk
  setattr-IsCoherent i a now s h = OnOk-bind _ _ _ (λ r found. OnOk-bind _ _ _ (λ t sized.
      OnOk-bind _ _ _ (λ b there.
        change_inode-IsCoherent t
          (OnOk-get IsCoherent _ t sized (resize_file-IsCoherent a.size i r now s h)) i _
          (λ r. refl))))
