-- ===== src/Cache/Fs/Coherence.antt =====
-- The dentry cache of `SupermemoryFs` (crates/smfs-core/src/cache/fs.rs) agrees with the tables: a
-- cached name is an entry of `fs_dentry` with that inode number, or has no entry any more and its
-- inode is gone for good.
pub mod Siblings
pub mod Ops
pub mod Rename
pub mod Reconcile
pub mod Calls
use smfs.Prelude.{
  ℕ, ◌+◌, ◌<◌, ◌≤◌, Bool, true, false, Option, none, some, ◌≡◌, ◌⊎◌, inl, inr, refl, sym, ap, ◌∙◌,
  arith, eqb_iff, if◌then◌else◌, Bool-cases, Option-cases,
}
use mathlib.Core.Path.{subst}
use mathlib.Core.Option
use smfs.Prelude.Eq.{Text, nat_eq, ◌==◌, beq_refl}
use smfs.Prelude.Map.{
  Map, get, insert, remove, update, get-insert, get-remove, get-update, UniqueKeys,
  UniqueKeys-insert, UniqueKeys-remove, AllValues, AllValues-insert, AllValues-remove,
  AllValues-get, AllValues-weaken, AllRows, AllRows-insert, AllRows-remove, AllRows-update,
  AllRows-get, AllRows-weaken,
}
use smfs.Cache.File.{Chunks}
use smfs.Cache.Queue.{PushQueue}
use smfs.Cache.Hydration
use smfs.Sync.Db.{Remote}
use smfs.Cache.Fs.{Row, LruCache, Fs}
use smfs.Cache.Fs.Table.{
  Key, key_eq, key_beq_iff, rekey, get-rekey, UniqueKeys-rekey, AllValues-rekey, count_ino,
  count-insert, count-remove, count-rekey, count_fresh,
}
use smfs.Cache.Fs.Change.{
  insert_inode, add_inode, change_inode, add_dentry, drop_dentry, move_dentry, drop_inode,
}

-- `i` was given out, and has no row.
abbrev pub IsGone : ℕ → ℕ → Map ℕ Row → Type 0
IsGone i next inodes = (i < next) × (get i inodes ≡ none)

abbrev pub IsCached : Key → ℕ → ℕ → Map ℕ Row → Map Key ℕ → Type 0
IsCached k i next inodes dentries =
    (get k dentries ≡ some i) ⊎ ((get k dentries ≡ none) × IsGone i next inodes)

-- A derived file has no second name.
abbrev pub DerivedOnce : Map ℕ Row → Map Key ℕ → Type 0
DerivedOnce inodes dentries =
    (i : ℕ) (r : Row) → get i inodes ≡ some r → r.derived ≡ true → count_ino i dentries ≤ 1

pub record IsCoherent ⦃lru : LruCache⦄ (s : Fs) : Type 0 where
  pub unique : UniqueKeys s.dentries
  pub names_low : AllValues (λ i. i < s.next_ino) s.dentries
  pub inodes_low : AllRows (λ i r. i < s.next_ino) s.inodes
  pub cached :
      (k : Key) (i : ℕ) → lru.find k s.cache ≡ some i → IsCached k i s.next_ino s.inodes s.dentries
  pub once : DerivedOnce s.inodes s.dentries

IsGone-insert :
    (i next : ℕ) (r : Row) (inodes : Map ℕ Row)
    → IsGone i next inodes
    → IsGone i (next + 1) (insert next r inodes)
IsGone-insert i next r inodes g =
    (omega (arith, g.0), get-insert next i r inodes ∙ ground (arith, g.0, g.1, eqb_iff next i))

IsGone-update :
    (i j next : ℕ) (f : Row → Row) (inodes : Map ℕ Row)
    → IsGone i next inodes
    → IsGone i next (update j f inodes)
IsGone-update i j next f inodes g = (g.0, get-update j i f inodes ∙ rw g.1 (ground arith))

pub IsGone-remove :
    (i j next : ℕ) (inodes : Map ℕ Row) → IsGone i next inodes → IsGone i next (remove j inodes)
IsGone-remove i j next inodes g = (g.0, get-remove j i inodes ∙ ground (arith, g.1))

pub get-removed :
    (j i : ℕ) (q : Row) (inodes : Map ℕ Row)
    → get i (remove j inodes) ≡ some q
    → get i inodes ≡ some q
get-removed j i q inodes found = ground (arith, get-remove j i inodes)

pub derived_before :
    (f : Row → Row) (o : Option Row) (q : Row)
    → ((r : Row) → (f r).derived ≡ r.derived)
    → Option.map f o ≡ some q
    → (r : Row) × (o ≡ some r) × (r.derived ≡ q.derived)
derived_before f none q keeps e = cc
derived_before f (some r) q keeps e = (r, refl, ground (arith, keeps r, e))

DerivedOnce-update :
    (j : ℕ) (f : Row → Row) (inodes : Map ℕ Row) (dentries : Map Key ℕ)
    → ((r : Row) → (f r).derived ≡ r.derived)
    → DerivedOnce inodes dentries
    → DerivedOnce (update j f inodes) dentries
DerivedOnce-update j f inodes dentries keeps h i q found derived = elim (Bool-cases (j == i)) [
  | inl same ↦
      let changed : Option.map f (get i inodes) ≡ some q =
        sym (get-update j i f inodes ∙ rw same refl) ∙ found in
      let (r, before, kept) = derived_before f (get i inodes) q keeps changed in
      h i r before (kept ∙ derived)
  | inr other ↦ h i q (sym (get-update j i f inodes ∙ rw other refl) ∙ found) derived
]

-- The changes of the names, and what the cache then has.
module _ ⦃lru : LruCache⦄ (next : ℕ) (inodes : Map ℕ Row) (dentries : Map Key ℕ) (c : lru.Cache)
    (h : (k : Key) (i : ℕ) → lru.find k c ≡ some i → IsCached k i next inodes dentries) where
  IsCached-put :
      (k : Key) (i : ℕ) (j : Key) (l : ℕ)
      → lru.find j (lru.put k i c) ≡ some l
      → IsCached j l next inodes (insert k i dentries)
  IsCached-put k i j l e =
      let law = lru.find-put k i j c l e in
      elim (Bool-cases (k == j)) [
        | inl same ↦
            let here : i ≡ l = rw same at law in
            inl (get-insert k j i dentries ∙ rw same (ap some here))
        | inr other ↦
            let before : lru.find j c ≡ some l = rw other at law in
            elim (h j l before) [
              | inl here ↦ inl (get-insert k j i dentries ∙ rw other here)
              | inr (free, gone) ↦ inr (get-insert k j i dentries ∙ rw other free, gone)
            ]
      ]

  IsCached-pop :
      (k j : Key) (l : ℕ)
      → lru.find j (lru.pop k c) ≡ some l
      → IsCached j l next inodes (remove k dentries)
  IsCached-pop k j l e = elim (Bool-cases (k == j)) [
    | inl same ↦
        let gone : none ≡ some l = sym (lru.find-pop k j c ∙ rw same refl) ∙ e in absurd (cc gone)
    | inr other ↦
        let before : lru.find j c ≡ some l = sym (lru.find-pop k j c ∙ rw other refl) ∙ e in
        elim (h j l before) [
          | inl here ↦ inl (get-remove k j dentries ∙ rw other here)
          | inr (free, gone) ↦ inr (get-remove k j dentries ∙ rw other free, gone)
        ]
  ]

module _ ⦃lru : LruCache⦄ (s : Fs) (h : IsCoherent s) where
  more_names : AllValues (λ i. i < s.next_ino + 1) s.dentries
  more_names =
      AllValues-weaken (λ i. i < s.next_ino) (λ i. i < s.next_ino + 1) s.dentries
        (λ i low. omega (arith, low)) h.names_low

  more_inodes : (r : Row) → AllRows (λ i q. i < s.next_ino + 1) (insert s.next_ino r s.inodes)
  more_inodes r =
      AllRows-insert (λ i q. i < s.next_ino + 1) s.next_ino r s.inodes
        (AllRows-weaken (λ i q. i < s.next_ino) (λ i q. i < s.next_ino + 1) s.inodes
          (λ i q low. omega (arith, low)) h.inodes_low)
        (omega arith)

  more-IsCached :
      (r : Row) (k : Key) (i : ℕ)
      → lru.find k s.cache ≡ some i
      → IsCached k i (s.next_ino + 1) (insert s.next_ino r s.inodes) s.dentries
  more-IsCached r k i e = elim (h.cached k i e) [
    | inl here ↦ inl here
    | inr (free, gone) ↦ inr (free, IsGone-insert i s.next_ino r s.inodes gone)
  ]

  -- A row that is not the new one was there before.
  old_row :
      (r q : Row) (i : ℕ)
      → (s.next_ino == i) ≡ false
      → get i (insert s.next_ino r s.inodes) ≡ some q
      → get i s.inodes ≡ some q
  old_row r q i other found = sym (get-insert s.next_ino i r s.inodes ∙ rw other refl) ∙ found

  pub insert_inode-IsCoherent : (r : Row) → IsCoherent (insert_inode r s)
  unfolding insert_inode
  insert_inode-IsCoherent r = record {
    unique = h.unique;
    names_low = more_names;
    inodes_low = more_inodes r;
    cached = more-IsCached r;
    once = λ i q found derived. elim (Bool-cases (s.next_ino == i)) [
      | inl same ↦
          let here : s.next_ino ≡ i = (eqb_iff s.next_ino i).0 same in
          rw (sym here) (omega (arith, count_fresh s.next_ino s.dentries h.names_low))
      | inr other ↦ h.once i q (old_row r q i other found) derived
    ];
  }

  pub add_inode-IsCoherent : (k : Key) (r : Row) → IsCoherent (add_inode k r s)
  unfolding add_inode
  add_inode-IsCoherent k r = record {
    unique = UniqueKeys-insert k s.next_ino s.dentries h.unique;
    names_low =
        AllValues-insert (λ i. i < s.next_ino + 1) k s.next_ino s.dentries more_names (omega arith);
    inodes_low = more_inodes r;
    cached =
        IsCached-put (s.next_ino + 1) (insert s.next_ino r s.inodes) s.dentries s.cache
          (more-IsCached r) k s.next_ino;
    once = λ i q found derived. elim (Bool-cases (s.next_ino == i)) [
      | inl same ↦
          let here : s.next_ino ≡ i = (eqb_iff s.next_ino i).0 same in
          rw (sym here) (
            omega (
              arith,
              count_fresh s.next_ino s.dentries h.names_low,
              (rw (beq_refl s.next_ino) at (count-insert s.next_ino k s.next_ino s.dentries)),
            ))
      | inr other ↦ omega (
        arith,
        h.once i q (old_row r q i other found) derived,
        (rw other at (count-insert i k s.next_ino s.dentries)),
      )
    ];
  }

  pub change_inode-IsCoherent :
      (i : ℕ) (f : Row → Row)
      → ((r : Row) → (f r).derived ≡ r.derived)
      → IsCoherent (change_inode i f s)
  unfolding change_inode
  change_inode-IsCoherent i f keeps = record {
    unique = h.unique;
    names_low = h.names_low;
    inodes_low = AllRows-update (λ i r. i < s.next_ino) i f s.inodes h.inodes_low (λ j r low. low);
    cached = λ j l e. elim (h.cached j l e) [
      | inl here ↦ inl here
      | inr (free, gone) ↦ inr (free, IsGone-update l i s.next_ino f s.inodes gone)
    ];
    once = DerivedOnce-update i f s.inodes s.dentries keeps h.once;
  }

  pub add_dentry-IsCoherent :
      (k : Key) (i : ℕ)
      → i < s.next_ino
      → ((r : Row) → get i s.inodes ≡ some r → r.derived ≡ false)
      → IsCoherent (add_dentry k i s)
  unfolding add_dentry
  add_dentry-IsCoherent k i low plain = record {
    unique = UniqueKeys-insert k i s.dentries h.unique;
    names_low = AllValues-insert (λ i. i < s.next_ino) k i s.dentries h.names_low low;
    inodes_low = h.inodes_low;
    cached = IsCached-put s.next_ino s.inodes s.dentries s.cache h.cached k i;
    once = λ j q found derived. elim (Bool-cases (i == j)) [
      | inl same ↦
          let here : i ≡ j = (eqb_iff i j).0 same in
          let not_derived = plain q (ap (λ l. get l s.inodes) here ∙ found) in
          absurd (cc (derived, not_derived))
      | inr other ↦
          omega (arith, h.once j q found derived, (rw other at (count-insert j k i s.dentries)))
    ];
  }

  pub drop_dentry-IsCoherent : (k : Key) → IsCoherent (drop_dentry k s)
  unfolding drop_dentry
  drop_dentry-IsCoherent k = record {
    unique = UniqueKeys-remove k s.dentries h.unique;
    names_low = AllValues-remove (λ i. i < s.next_ino) k s.dentries h.names_low;
    inodes_low = h.inodes_low;
    cached = IsCached-pop s.next_ino s.inodes s.dentries s.cache h.cached k;
    once =
        λ j q found derived. omega (arith, h.once j q found derived, count-remove j k s.dentries);
  }

  pub drop_inode-IsCoherent : (i : ℕ) → IsCoherent (drop_inode i s)
  unfolding drop_inode
  drop_inode-IsCoherent i = record {
    unique = h.unique;
    names_low = h.names_low;
    inodes_low = AllRows-remove (λ i r. i < s.next_ino) i s.inodes h.inodes_low;
    cached = λ j l e. elim (h.cached j l e) [
      | inl here ↦ inl here
      | inr (free, gone) ↦ inr (free, IsGone-remove l i s.next_ino s.inodes gone)
    ];
    once = λ j q found derived. h.once j q (get-removed i j q s.inodes found) derived;
  }

  -- The cache may lose entries, and gain one that the table has.
  pub recache-IsCoherent :
      (c : lru.Cache)
      → ((k : Key) (i : ℕ)
          → lru.find k c ≡ some i
          → (lru.find k s.cache ≡ some i) ⊎ (get k s.dentries ≡ some i))
      → IsCoherent (record s { cache = c })
  recache-IsCoherent c keeps = record {
    unique = h.unique;
    names_low = h.names_low;
    inodes_low = h.inodes_low;
    cached = λ j l e. elim (keeps j l e) [ inl before ↦ h.cached j l before | inr here ↦ inl here ];
    once = h.once;
  }

  -- The cache may gain an entry of the table.
  pub recache_entry-IsCoherent :
      (k : Key) (i : ℕ)
      → get k s.dentries ≡ some i
      → IsCoherent (record s { cache = lru.put k i s.cache })
  recache_entry-IsCoherent k i here = recache-IsCoherent (lru.put k i s.cache) (λ j l e.
      let law = lru.find-put k i j s.cache l e in
      elim (Bool-cases (k == j)) [
        | inl same ↦
            let value : i ≡ l = rw same at law in
            let key : k ≡ j = (key_beq_iff k j).0 same in
            inr (ap (λ m. get m s.dentries) (sym key) ∙ here ∙ ap some value)
        | inr other ↦ inl (rw other at law)
      ])

  -- Where the table `names` differs from the one before at the new name only, which it lacks, and
  -- the cache has no old name.
  pub move_dentry-IsCoherent :
      (old new : Key) (i : ℕ) (names : Map Key ℕ) (c : lru.Cache)
      → UniqueKeys names
      → AllValues (λ i. i < s.next_ino) names
      → ((j : ℕ) → count_ino j names ≤ count_ino j s.dentries)
      → get old names ≡ some i
      → get new names ≡ none
      → ((j : Key) → (new == j) ≡ false → get j names ≡ get j s.dentries)
      → ((j : Key) (l : ℕ)
          → lru.find j c ≡ some l
          → (new == j) ≡ false
          → ((old == j) ≡ false) × (lru.find j s.cache ≡ some l))
      → IsCoherent (move_dentry old new i c (record s { dentries = names }))
  unfolding move_dentry
  move_dentry-IsCoherent old new i names c unique low fewer source free same_names less = record {
    unique = UniqueKeys-rekey old new names free unique;
    names_low = AllValues-rekey (λ i. i < s.next_ino) old new names low;
    inodes_low = h.inodes_low;
    cached = λ j l e.
        let law = lru.find-put new i j c l e in
        let moved = get-rekey old new j names free in
        elim (Bool-cases (new == j)) [
          | inl same ↦
              let here : i ≡ l = rw same at law in inl (moved ∙ rw same (source ∙ ap some here))
          | inr other ↦
              let (elsewhere, before) = less j l (rw other at law) other in
              elim (h.cached j l before) [
                | inl here ↦ inl (moved ∙ rw (other, elsewhere) (same_names j other ∙ here))
                | inr (none_before, gone) ↦
                    inr (moved ∙ rw (other, elsewhere) (same_names j other ∙ none_before), gone)
              ]
        ];
    once = λ j q found derived.
        omega (arith, h.once j q found derived, fewer j, count-rekey j old new names);
  }

  -- The other tables, the push queue and the hydration queue do not matter.
  pub rest-IsCoherent :
      (b : Map ℕ Chunks) (y : Map ℕ Text) (m : Map ℕ Remote) (q : PushQueue) (w : Hydration.Inner)
      → IsCoherent (record s { blobs = b; symlinks = y; remote = m; queue = q; hydration = w })
  rest-IsCoherent b y m q w = record {
    unique = h.unique;
    names_low = h.names_low;
    inodes_low = h.inodes_low;
    cached = h.cached;
    once = h.once;
  }
