-- ===== src/Cache/Fs/Lookup.antt =====
-- `lookup` of `SupermemoryFs` (crates/smfs-core/src/cache/fs.rs) against the tables.
use smfs.Prelude.{
  ℕ, Bool, true, false, ◌&&◌, Option, none, some, ◌≡◌, inl, inr, refl, sym, ◌∙◌, is_some,
  if◌then◌else◌, Bool-cases, Option-cases,
}
use smfs.Prelude.Eq.{Text, nat_eq}
use smfs.Prelude.Map.{Map, get}
use smfs.Vfs.Types.{FileAttr}
use smfs.Vfs.Error.{ok, OnOk, OnOk-bind, OnOk-get, OnOk-map}
use smfs.Cache.Hydration.{HydrationKey}
use smfs.Cache.Fs.{Row, LruCache, Fs}
use smfs.Cache.Fs.Table.{Key, key_eq, at}
use smfs.Cache.Fs.Query.{lookup, find_entry, find_dentry, hydrate, attr_of, is_profile}
use smfs.Cache.Fs.Coherence.{
  IsCoherent, IsCached, recache-IsCoherent, recache_entry-IsCoherent, rest-IsCoherent,
}

abbrev table_attr : Option ℕ → Map ℕ Row → Option FileAttr
table_attr none inodes = none
table_attr (some i) inodes = attr_of i inodes

-- What a lookup without a cache finds.
abbrev pub table_lookup : ⦃lru : LruCache⦄ → Option FileAttr → ℕ → Text → Fs → Option FileAttr
table_lookup profile p n s =
    if is_profile p n && is_some profile
    then profile
    else table_attr (get (at p n) s.dentries) s.inodes

-- Every table is as before, the push queue included.
abbrev pub SameTables : ⦃lru : LruCache⦄ → Fs → Fs → Type 0
SameTables s t =
    (t.dentries ≡ s.dentries)
    × (t.inodes ≡ s.inodes)
    × (t.next_ino ≡ s.next_ino)
    × (t.blobs ≡ s.blobs)
    × (t.symlinks ≡ s.symlinks)
    × (t.remote ≡ s.remote)
    × (t.queue ≡ s.queue)

module _ ⦃lru : LruCache⦄ where
  SameTables-refl : (s : Fs) → SameTables s s
  SameTables-refl s = (refl, refl, refl, refl, refl, refl, refl)

  hydrate_keeps :
      (api : Bool) (key : Option HydrationKey) (instant : ℕ) (s : Fs)
      → IsCoherent s
      → IsCoherent (hydrate api key instant s) × SameTables s (hydrate api key instant s)
  hydrate_keeps false key instant s h = (h, SameTables-refl s)
  hydrate_keeps true none instant s h = (h, SameTables-refl s)
  hydrate_keeps true (some key) instant s h =
      (rest-IsCoherent s h s.blobs s.symlinks s.remote s.queue _, SameTables-refl s)

  abbrev Finds : Fs → Option FileAttr → Option FileAttr × Fs → Type 0
  Finds s found r = (r.0 ≡ found) × IsCoherent r.1 × SameTables s r.1

  find_dentry_lem :
      (profile : Option FileAttr) (p : ℕ) (n : Text) (instant : ℕ) (s : Fs)
      → IsCoherent s
      → Finds s (table_attr (get (at p n) s.dentries) s.inodes) (find_dentry profile p n instant s)
  find_dentry_lem profile p n instant s h = elim (Option-cases (get (at p n) s.dentries)) [
    | inl free ↦
        rw (find_dentry, free)
          (let kept = hydrate_keeps (is_some profile) _ instant s h in (refl, kept.0, kept.1))
    | inr (i, here) ↦
        rw (find_dentry, here)
          (refl, recache_entry-IsCoherent s h (at p n) i here, SameTables-refl s)
  ]

  -- A cached inode number leads to what the entry leads to.
  cached_attr :
      (k : Key) (i : ℕ) (s : Fs)
      → IsCached k i s.next_ino s.inodes s.dentries
      → attr_of i s.inodes ≡ table_attr (get k s.dentries) s.inodes
  cached_attr k i s (inl here) = rw here refl
  cached_attr k i s (inr (free, gone)) = rw (free, gone.1) refl

  find_entry_lem :
      (profile : Option FileAttr) (p : ℕ) (n : Text) (instant : ℕ) (s : Fs)
      → IsCoherent s
      → Finds s (table_attr (get (at p n) s.dentries) s.inodes) (find_entry profile p n instant s)
  find_entry_lem profile p n instant s h =
      let touched : Fs = record s { cache = lru.touch (at p n) s.cache } in
      let kept : IsCoherent touched =
        recache-IsCoherent s h (lru.touch (at p n) s.cache)
          (λ k i e. inl (sym (lru.find-touch (at p n) k s.cache) ∙ e)) in
      elim (Option-cases (lru.find (at p n) s.cache)) [
        | inl miss ↦ rw (find_entry, miss) (find_dentry_lem profile p n instant touched kept)
        | inr (i, hit) ↦
            rw (find_entry, hit)
              (cached_attr (at p n) i s (h.cached (at p n) i hit), kept, SameTables-refl s)
      ]

  abbrev Answers : Option FileAttr → ℕ → Text → Fs → Option FileAttr × Fs → Type 0
  Answers profile p n s r = Finds s (table_lookup profile p n s) r

  lookup-Answers :
      (profile : Option FileAttr) (p : ℕ) (n : Text) (instant : ℕ) (s : Fs)
      → IsCoherent s
      → OnOk (Answers profile p n s) (lookup profile p n instant s)
  unfolding lookup OnOk
  lookup-Answers profile p n instant s h = OnOk-bind _ _ _ (λ _ valid.
      elim (Bool-cases (is_profile p n && is_some profile)) [
        | inl virtual ↦ rw virtual (rw (table_lookup, virtual) refl, h, SameTables-refl s)
        | inr plain ↦ rw plain (
            OnOk-bind _ _ _ (λ _ dir.
              let found = find_entry_lem profile p n instant s h in
              (found.0 ∙ rw (table_lookup, plain) refl, found.1, found.2)))
      ])

  pub lookup-IsCoherent :
      (profile : Option FileAttr) (p : ℕ) (n : Text) (instant : ℕ) (s : Fs)
      → IsCoherent s
      → OnOk (λ r. IsCoherent r.1) (lookup profile p n instant s)
  lookup-IsCoherent profile p n instant s h =
      OnOk-map (Answers profile p n s) (λ r. IsCoherent r.1) _ (λ r found. found.1)
        (lookup-Answers profile p n instant s h)

  -- Where the cache agrees with the tables, a lookup answers what the tables say, whichever entries
  -- the cache has dropped, and changes no row of the
  -- tables and of the push queue (only the cache and the hydration queue); the cache then agrees with them again.
  pub lookup_lem :
      (profile : Option FileAttr) (p : ℕ) (n : Text) (instant : ℕ) (s t : Fs) (a : Option FileAttr)
      → IsCoherent s
      → lookup profile p n instant s ≡ ok (a, t)
      → (a ≡ table_lookup profile p n s) × IsCoherent t × SameTables s t
  lookup_lem profile p n instant s t a h done =
      OnOk-get (Answers profile p n s) _ (a, t) done (lookup-Answers profile p n instant s h)
