-- ===== src/Sync/Scan.antt =====
-- The deletion scan of crates/smfs-core/src/sync/scan.rs. `meanwhile` is what other tasks do to the
-- file system between the last answer of the server and the reading of `fs_remote`.
pub mod Laws
pub mod Removes
pub mod Ends
use smfs.Prelude.{
  ℕ, zero, suc, ◌+◌, leb, Bool, true, false, not, Option, none, some, List, [], ◌∷◌, ◌++◌, map, any,
  if◌then◌else◌,
}
use smfs.Prelude.Eq.{Text, text_eq, ◌==◌}
use smfs.Prelude.Text.{is_empty}
use smfs.Prelude.Map.{Map}
use smfs.Sync.Db.{Remote}
use smfs.Sync.Listing.{Page, Server, Ran, returned, failed, unfinished}
use smfs.Cache.Fs.{LruCache, Fs}
use smfs.Cache.Fs.Reconcile.{Document, apply_deletion}

abbrev pub ids_of : List Document → List Text
ids_of [] = []
ids_of (d ∷ docs) = d.id ∷ ids_of docs

abbrev pub add_ids : List Text → Ran (List Text) → Ran (List Text)
add_ids ids (returned more) = returned (ids ++ more)
add_ids ids failed = failed
add_ids ids unfinished = unfinished

-- The ids of all pages from a page on, in at most `fuel` rounds; they are only looked up.
unfoldable pub listed_ids : ℕ → Server → ℕ → Ran (List Text)
listed_ids zero server page = unfinished
listed_ids (suc fuel) server page =
    let rest = listed_ids fuel server (page + 1) in
    elim (server page) [
      | none ↦ failed
      | some resp ↦
          if is_empty resp.memories
          then returned []
          else if leb resp.total_pages page
          then returned (ids_of resp.memories)
          else add_ids (ids_of resp.memories) rest
    ]

-- `remote_ids.contains(&id)`
abbrev pub is_listed : List Text → Text → Bool
is_listed ids id = any (λ listed. listed == id) ids

-- `SELECT remote_id FROM fs_remote`
abbrev pub local_ids : Map ℕ Remote → List Text
local_ids [] = []
local_ids ((i, r) ∷ rest) = r.remote_id ∷ local_ids rest

module _ ⦃lru : LruCache⦄ where
  abbrev pub count_removed : Bool → ℕ → ℕ
  count_removed gone n = if gone then n + 1 else n

  unfoldable pub remove_unlisted : List Text → List Text → ℕ → Fs → Fs × ℕ
  remove_unlisted listed [] removed s = (s, removed)
  remove_unlisted listed (id ∷ ids) removed s =
      if is_listed listed id
      then remove_unlisted listed ids removed s
      else remove_unlisted listed ids (count_removed (apply_deletion id s).1 removed)
          (apply_deletion id s).0

  abbrev pub compare_ids : Ran (List Text) → (Fs → Fs) → Fs → Fs × Ran ℕ
  compare_ids (returned listed) meanwhile s =
      let t = meanwhile s in
      let r = remove_unlisted listed (local_ids t.remote) 0 t in (r.0, returned r.1)
  compare_ids failed meanwhile s = (s, failed)
  compare_ids unfinished meanwhile s = (s, unfinished)

  unfoldable pub deletion_scan : ℕ → Option Server → (Fs → Fs) → Fs → Fs × Ran ℕ
  deletion_scan fuel none meanwhile s = (s, returned 0)
  deletion_scan fuel (some server) meanwhile s = compare_ids (listed_ids fuel server 1) meanwhile s
