-- ===== src/Sync/Scan/Removes.antt =====
-- What the deletion scan of crates/smfs-core/src/sync/scan.rs removes.
use smfs.Prelude.{
  ℕ, true, false, none, some, List, [], ◌∷◌, ◌≡◌, inl, inr, refl, sym, ap, ◌∙◌, arith, eqb_iff,
  is_some, Bool-cases, Option-cases,
}
use mathlib.Core.Path.{subst}
use smfs.Prelude.Eq.{Text, text_eq, text_beq_iff, nat_eq, ◌==◌, beq_refl}
use smfs.Prelude.Map.{Map, get, remove, get-remove, UniqueKeys, UniqueKeys-remove}
use smfs.Sync.Db.{Remote}
use smfs.Sync.Listing.{Server, returned}
use smfs.Cache.Fs.{LruCache, Fs}
use smfs.Cache.Fs.Table.{Key, key_eq, name_of, remove_ino}
use smfs.Cache.Fs.Change.{drop_inode}
use smfs.Cache.Fs.Reconcile.{ino_by_remote_id, dirty_at, apply_deletion}
use smfs.Sync.Scan.{is_listed, local_ids, remove_unlisted, deletion_scan, listed_ids, count_removed}
use smfs.Sync.Scan.Laws.{found_row, ino_by_remote_id-remove, delete_other, apply_deletion-cases}

found_id :
    (id : Text) (i : ℕ) (m : Map ℕ Remote)
    → ino_by_remote_id id m ≡ some i
    → is_listed (local_ids m) id ≡ true
unfolding ino_by_remote_id
found_id id i [] h = cc
found_id id i ((j, q) ∷ m) h = ground (arith, h, found_id id i m)

name_of-remove_ino_self : (i : ℕ) (m : Map Key ℕ) → name_of i (remove_ino i m) ≡ none
unfolding name_of remove_ino
name_of-remove_ino_self i [] = refl
name_of-remove_ino_self i ((k, j) ∷ m) = ground (arith, name_of-remove_ino_self i m)

name_of-remove_ino-none :
    (i j : ℕ) (m : Map Key ℕ) → name_of i m ≡ none → name_of i (remove_ino j m) ≡ none
unfolding name_of remove_ino
name_of-remove_ino-none i j [] h = refl
name_of-remove_ino-none i j ((k, l) ∷ m) h = ground (arith, h, name_of-remove_ino-none i j m)

get-remove_self {ℓ} : {V : Type ℓ} → (i : ℕ) (m : Map ℕ V) → get i (remove i m) ≡ none
get-remove_self i m = get-remove i i m ∙ rw (beq_refl i) refl

get-remove-none {ℓ} :
    {V : Type ℓ} → (i j : ℕ) (m : Map ℕ V) → get i m ≡ none → get i (remove j m) ≡ none
get-remove-none i j m gone =
    get-remove j i m
    ∙ elim (Bool-cases (j == i)) [ inl here ↦ rw here refl | inr apart ↦ rw apart gone ]

module _ ⦃lru : LruCache⦄ where
  -- No table has the inode: no row, no content, no document and no entry in any directory.
  abbrev pub IsRemoved : ℕ → Fs → Type 0
  IsRemoved i s =
      (get i s.inodes ≡ none)
      × (get i s.blobs ≡ none)
      × (get i s.remote ≡ none)
      × (name_of i s.dentries ≡ none)

  -- An inode that a scan removes: it stands for a document, is clean, and has a name.
  record IsRemovable (id : Text) (i : ℕ) (s : Fs) : Type 0 where
    known : ino_by_remote_id id s.remote ≡ some i
    clean : is_some (dirty_at (get i s.inodes)) ≡ false
    named : is_some (name_of i s.dentries) ≡ true
    unique : UniqueKeys s.remote

  deletion-gone : (id : Text) (i : ℕ) (s : Fs) → IsRemoved i s → IsRemoved i (apply_deletion id s).0
  unfolding drop_inode
  deletion-gone id i s gone = elim (apply_deletion-cases id s) [
    | inl same ↦ subst (IsRemoved i) (sym same) gone
    | inr (j, k, known, clean, deleted) ↦ subst (IsRemoved i) (sym deleted) (
      get-remove-none i j s.inodes gone.0,
      get-remove-none i j s.blobs gone.1,
      get-remove-none i j s.remote gone.2,
      name_of-remove_ino-none i j s.dentries gone.3,
    )
  ]

  remove_unlisted-gone :
      (listed ids : List Text) (n i : ℕ) (s : Fs)
      → IsRemoved i s
      → IsRemoved i (remove_unlisted listed ids n s).0
  unfolding remove_unlisted
  remove_unlisted-gone listed [] n i s gone = gone
  remove_unlisted-gone listed (id ∷ ids) n i s gone = elim (Bool-cases (is_listed listed id)) [
    | inl here ↦ rw (remove_unlisted, here) (remove_unlisted-gone listed ids n i s gone)
    | inr unlisted ↦
        rw (remove_unlisted, unlisted)
          (remove_unlisted-gone listed ids (count_removed (apply_deletion id s).1 n) i _
            (deletion-gone id i s gone))
  ]

  deletion-removes :
      (id : Text) (i : ℕ) (s : Fs) → IsRemovable id i s → IsRemoved i (apply_deletion id s).0
  unfolding apply_deletion drop_inode
  deletion-removes id i s h = elim (Option-cases (name_of i s.dentries)) [
    | inl nameless ↦ let named = h.named in absurd (ground (arith, nameless, named))
    | inr (k, named) ↦
        rw (apply_deletion, h.known, h.clean, named)
          (
            get-remove_self i s.inodes,
            get-remove_self i s.blobs,
            get-remove_self i s.remote,
            name_of-remove_ino_self i s.dentries,
          )
  ]

  -- The deletion of another document leaves the inode removable.
  deletion-IsRemovable :
      (id other : Text) (i : ℕ) (s : Fs)
      → (other == id) ≡ false
      → IsRemovable id i s
      → IsRemovable id i (apply_deletion other s).0
  unfolding drop_inode
  deletion-IsRemovable id other i s differ h = elim (apply_deletion-cases other s) [
    | inl same ↦ subst (IsRemovable id i) (sym same) h
    | inr (j, k, known, clean, deleted) ↦
        let (q, row, q_id) = found_row other j s.remote h.unique known in
        let (r, own, r_id) = found_row id i s.remote h.unique h.known in
        let apart : (j == i) ≡ false = elim (Bool-cases (j == i)) [
          | inr differs ↦ differs
          | inl same ↦
              let here : j ≡ i = (eqb_iff j i).0 same in
              let moved = ap (λ l. get l s.remote) here in
              let rows : q ≡ r = cc (row, own, moved) in
              let ids : other ≡ id = sym q_id ∙ ap (λ (x : Remote). x.remote_id) rows ∙ r_id in
              let test = (text_beq_iff other id).1 ids in absurd (cc (test, differ))
        ] in
        let kept = delete_other k i j s apart in
        subst (IsRemovable id i) (sym deleted) (record {
          known = ino_by_remote_id-remove id i j s.remote h.known apart;
          clean = ap (λ o. is_some (dirty_at o)) kept.0 ∙ h.clean;
          named = ap is_some (kept.3) ∙ h.named;
          unique = UniqueKeys-remove j s.remote h.unique;
        })
  ]

  remove_unlisted-removes :
      (listed ids : List Text) (n : ℕ) (id : Text) (i : ℕ) (s : Fs)
      → is_listed listed id ≡ false
      → is_listed ids id ≡ true
      → IsRemovable id i s
      → IsRemoved i (remove_unlisted listed ids n s).0
  unfolding remove_unlisted
  remove_unlisted-removes listed [] n id i s unlisted member h = cc
  remove_unlisted-removes listed (other ∷ ids) n id i s unlisted member h =
      elim (Bool-cases (other == id)) [
        | inl same ↦
            let here : other ≡ id = (text_beq_iff other id).0 same in
            let not_listed : is_listed listed other ≡ false =
              ap (is_listed listed) here ∙ unlisted in
            rw (remove_unlisted, not_listed)
              (remove_unlisted-gone listed ids (count_removed (apply_deletion other s).1 n) i _
                (deletion-removes other i s (subst (λ w. IsRemovable w i s) (sym here) h)))
        | inr differ ↦
            let later : is_listed ids id ≡ true = rw differ at member in
            elim (Bool-cases (is_listed listed other)) [
              | inl kept ↦
                  rw (remove_unlisted, kept)
                    (remove_unlisted-removes listed ids n id i s unlisted later h)
              | inr gone ↦
                  rw (remove_unlisted, gone)
                    (remove_unlisted-removes listed ids (count_removed (apply_deletion other s).1 n)
                      id i _ unlisted later (deletion-IsRemovable id other i s differ h))
            ]
      ]

  -- Where the listing ends well and, once it is over, `ino_by_remote_id` finds an inode for an id
  -- that the listing lacks, and the inode has a name and no unsent write, the scan removes it: no
  -- row of `fs_inode`, `fs_data` and `fs_remote` is left of it, and no entry in any directory. That
  -- holds whatever other tasks did during the listing, also if they uploaded the document then.
  -- (`fs_remote` has at most one row for each inode.)
  pub scan_removes :
      (fuel : ℕ) (server : Server) (meanwhile : Fs → Fs) (s : Fs) (listed : List Text) (id : Text)
      (i : ℕ)
      → listed_ids fuel server 1 ≡ returned listed
      → is_listed listed id ≡ false
      → UniqueKeys (meanwhile s).remote
      → ino_by_remote_id id (meanwhile s).remote ≡ some i
      → is_some (dirty_at (get i (meanwhile s).inodes)) ≡ false
      → is_some (name_of i (meanwhile s).dentries) ≡ true
      → IsRemoved i (deletion_scan fuel (some server) meanwhile s).0
  unfolding deletion_scan
  scan_removes fuel server meanwhile s listed id i ends unlisted u known clean named =
      let t = meanwhile s in
      rw (deletion_scan, ends)
        (remove_unlisted-removes listed (local_ids t.remote) 0 id i t unlisted
          (found_id id i t.remote known)
          (record { known = known; clean = clean; named = named; unique = u }))
