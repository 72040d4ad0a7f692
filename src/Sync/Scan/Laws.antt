-- ===== src/Sync/Scan/Laws.antt =====
-- What the deletion scan of crates/smfs-core/src/sync/scan.rs removes and what it keeps.
use smfs.Prelude.{
  ℕ, ◌≤◌, true, false, Option, none, some, List, [], ◌∷◌, ◌≡◌, ◌⊎◌, inl, inr, refl, sym, ap, ◌∙◌,
  arith, eqb_iff, is_some, Bool-cases, Option-cases,
}
use mathlib.Core.Path.{subst}
use smfs.Prelude.Eq.{Text, text_eq, text_beq_iff, nat_eq, ◌==◌, beq_refl}
use smfs.Prelude.Map.{Map, get, remove, get-remove, UniqueKeys, UniqueKeys-remove}
use smfs.Sync.Db.{Remote}
use smfs.Sync.Listing.{Server, returned}
use smfs.Cache.Fs.{Row, LruCache, Fs}
use smfs.Cache.Fs.Table.{Key, key_eq, name_of}
use smfs.Cache.Fs.Change.{drop_inode}
use smfs.Cache.Fs.Reconcile.{ino_by_remote_id, dirty_at, delete_ino, apply_deletion}
use smfs.Cache.Fs.Filepath.{name_of-remove_ino}
use smfs.Sync.Scan.{is_listed, local_ids, remove_unlisted, deletion_scan, listed_ids, count_removed}

-- An id is found in the first row or in a later one.
first_or_later :
    (id : Text) (i j : ℕ) (q : Remote) (m : Map ℕ Remote)
    → ino_by_remote_id id ((j, q) ∷ m) ≡ some i
    → ((j ≡ i) × ((q.remote_id == id) ≡ true)) ⊎ (ino_by_remote_id id m ≡ some i)
unfolding ino_by_remote_id
first_or_later id i j q m h = elim (Option-cases (ino_by_remote_id id m)) [
  | inl no_more ↦ ground (arith, h, no_more)
  | inr (k, later) ↦ ground (arith, h, later)
]

-- The row that an id is found in has that id.
pub found_row :
    (id : Text) (i : ℕ) (m : Map ℕ Remote)
    → UniqueKeys m
    → ino_by_remote_id id m ≡ some i
    → (r : Remote) × (get i m ≡ some r) × (r.remote_id ≡ id)
unfolding ino_by_remote_id get
found_row id i [] u h = cc
found_row id i ((j, q) ∷ m) u h = elim (first_or_later id i j q m h) [
  | inl (here, same) ↦ (q, rw (here, beq_refl i) refl, (text_beq_iff q.remote_id id).0 same)
  | inr later ↦
      let (r, found, id_same) = found_row id i m u.1 later in
      elim (Bool-cases (j == i)) [
        | inr apart ↦ (r, rw apart found, id_same)
        | inl same ↦
            let here : j ≡ i = (eqb_iff j i).0 same in
            let gone = u.0 in let twice = ap (λ k. get k m) here in absurd (cc (gone, twice, found))
      ]
]

-- no inode number below `i`
abbrev IsFrom : ℕ → Option ℕ → Type 0
IsFrom i none = Unit
IsFrom i (some j) = i ≤ j

IsFrom-remove :
    (id : Text) (i j : ℕ) (m : Map ℕ Remote)
    → IsFrom i (ino_by_remote_id id m)
    → IsFrom i (ino_by_remote_id id (remove j m))
unfolding ino_by_remote_id remove
IsFrom-remove id i j [] h = tt
IsFrom-remove id i j ((l, q) ∷ m) h = ground (arith, h, IsFrom-remove id i j m)

-- The removal of another inode leaves an id where it is.
pub ino_by_remote_id-remove :
    (id : Text) (i j : ℕ) (m : Map ℕ Remote)
    → ino_by_remote_id id m ≡ some i
    → (j == i) ≡ false
    → ino_by_remote_id id (remove j m) ≡ some i
unfolding ino_by_remote_id remove
ino_by_remote_id-remove id i j [] h apart = cc
ino_by_remote_id-remove id i j ((l, q) ∷ m) h apart = ground (
  arith,
  h,
  apart,
  eqb_iff l j,
  eqb_iff j i,
  ino_by_remote_id-remove id i j m,
  IsFrom-remove id i j m,
)

module _ ⦃lru : LruCache⦄ where
  -- What the tables have on an inode: its row, its content, its document and its first name.
  abbrev pub IsKept : ℕ → Fs → Fs → Type 0
  IsKept i s t =
      (get i t.inodes ≡ get i s.inodes)
      × (get i t.blobs ≡ get i s.blobs)
      × (get i t.remote ≡ get i s.remote)
      × (name_of i t.dentries ≡ name_of i s.dentries)

  pub delete_other : (k : Key) (i j : ℕ) (s : Fs) → (j == i) ≡ false → IsKept i s (delete_ino k j s)
  unfolding drop_inode
  delete_other k i j s apart = (
    get-remove j i s.inodes ∙ rw apart refl,
    get-remove j i s.blobs ∙ rw apart refl,
    get-remove j i s.remote ∙ rw apart refl,
    name_of-remove_ino i j s.dentries apart,
  )

  abbrev pub Deletes : Text → Fs → Fs → Type 0
  Deletes id s t =
      (j : ℕ) × (k : Key) × (ino_by_remote_id id s.remote ≡ some j)
      × (is_some (dirty_at (get j s.inodes)) ≡ false)
      × (t ≡ delete_ino k j s)

  pub apply_deletion-cases :
      (id : Text) (s : Fs) → ((apply_deletion id s).0 ≡ s) ⊎ Deletes id s (apply_deletion id s).0
  unfolding apply_deletion
  apply_deletion-cases id s = elim (Option-cases (ino_by_remote_id id s.remote)) [
    | inl unknown ↦ inl (rw (apply_deletion, unknown) refl)
    | inr (j, known) ↦ elim (Bool-cases (is_some (dirty_at (get j s.inodes)))) [
      | inl dirty ↦ inl (rw (apply_deletion, known, dirty) refl)
      | inr clean ↦ elim (Option-cases (name_of j s.dentries)) [
        | inl nameless ↦ inl (rw (apply_deletion, known, clean, nameless) refl)
        | inr (k, named) ↦ inr (j, k, known, clean, rw (apply_deletion, known, clean, named) refl)
      ]
    ]
  ]

  abbrev pub IsProtected : List Text → Remote → Option Row → Type 0
  IsProtected listed r row = (is_listed listed r.remote_id ≡ true) ⊎ (is_some (dirty_at row) ≡ true)

  -- A deletion by an id that is not listed is of another inode.
  deletes_other :
      (listed : List Text) (id : Text) (i j : ℕ) (r : Remote) (s : Fs)
      → UniqueKeys s.remote
      → get i s.remote ≡ some r
      → IsProtected listed r (get i s.inodes)
      → is_listed listed id ≡ false
      → ino_by_remote_id id s.remote ≡ some j
      → is_some (dirty_at (get j s.inodes)) ≡ false
      → (j == i) ≡ false
  deletes_other listed id i j r s u row protected unlisted known clean =
      elim (Bool-cases (j == i)) [
        | inr apart ↦ apart
        | inl same ↦
            let here : j ≡ i = (eqb_iff j i).0 same in
            let (q, found, q_id) = found_row id j s.remote u known in
            let moved = ap (λ l. get l s.remote) here in
            let rows : q ≡ r = cc (found, row, moved) in
            let ids : r.remote_id ≡ id = ap (λ (x : Remote). x.remote_id) (sym rows) ∙ q_id in
            let inodes = ap (λ l. is_some (dirty_at (get l s.inodes))) here in
            elim protected [
              | inl listed_r ↦
                  let same_test = ap (is_listed listed) ids in
                  absurd (cc (same_test, listed_r, unlisted))
              | inr dirty ↦ absurd (cc (inodes, dirty, clean))
            ]
      ]

  deletion-IsKept :
      (listed : List Text) (id : Text) (i : ℕ) (r : Remote) (s : Fs)
      → UniqueKeys s.remote
      → get i s.remote ≡ some r
      → IsProtected listed r (get i s.inodes)
      → is_listed listed id ≡ false
      → IsKept i s (apply_deletion id s).0 × UniqueKeys (apply_deletion id s).0.remote
  deletion-IsKept listed id i r s u row protected unlisted = elim (apply_deletion-cases id s) [
    | inl same ↦
        subst (λ t. IsKept i s t × UniqueKeys t.remote) (sym same) ((refl, refl, refl, refl), u)
    | inr (j, k, known, clean, deleted) ↦
        let apart = deletes_other listed id i j r s u row protected unlisted known clean in
        subst (λ t. IsKept i s t × UniqueKeys t.remote) (sym deleted)
          (delete_other k i j s apart, UniqueKeys-remove j s.remote u)
  ]

  pub remove_unlisted-IsKept :
      (listed ids : List Text) (n i : ℕ) (r : Remote) (s : Fs)
      → UniqueKeys s.remote
      → get i s.remote ≡ some r
      → IsProtected listed r (get i s.inodes)
      → IsKept i s (remove_unlisted listed ids n s).0
  unfolding remove_unlisted
  remove_unlisted-IsKept listed [] n i r s u row protected = (refl, refl, refl, refl)
  remove_unlisted-IsKept listed (id ∷ ids) n i r s u row protected =
      elim (Bool-cases (is_listed listed id)) [
        | inl here ↦
            rw (remove_unlisted, here) (remove_unlisted-IsKept listed ids n i r s u row protected)
        | inr unlisted ↦
            let t = (apply_deletion id s).0 in
            let (kept, unique) = deletion-IsKept listed id i r s u row protected unlisted in
            let rest =
              remove_unlisted-IsKept listed ids (count_removed (apply_deletion id s).1 n) i r t
                unique (kept.2 ∙ row) (subst (IsProtected listed r) (sym kept.0) protected) in
            rw (remove_unlisted, unlisted)
              (rest.0 ∙ kept.0, rest.1 ∙ kept.1, rest.2 ∙ kept.2, rest.3 ∙ kept.3)
      ]

  -- Whatever the other tasks have done in the meantime: an inode with a document whose id the server
  -- has listed, or with a local write that is not sent yet, keeps its row, its content, its document
  -- and its name through a deletion scan.
  pub scan_keeps :
      (fuel : ℕ) (server : Server) (meanwhile : Fs → Fs) (s : Fs) (listed : List Text) (i : ℕ)
      (r : Remote)
      → listed_ids fuel server 1 ≡ returned listed
      → UniqueKeys (meanwhile s).remote
      → get i (meanwhile s).remote ≡ some r
      → IsProtected listed r (get i (meanwhile s).inodes)
      → IsKept i (meanwhile s) (deletion_scan fuel (some server) meanwhile s).0
  unfolding deletion_scan
  scan_keeps fuel server meanwhile s listed i r ends u row protected =
      rw (deletion_scan, ends)
        (remove_unlisted-IsKept listed (local_ids (meanwhile s).remote) 0 i r (meanwhile s) u row
          protected)
