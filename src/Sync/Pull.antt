-- ===== src/Sync/Pull.antt =====
-- The pull of crates/smfs-core/src/sync/pull.rs. The server and the answers to a GET of a raw file
-- are arguments; `meanwhile` is what other tasks do to the file system during a GET.
pub mod Order
pub mod Again
pub mod Rehydrate
use smfs.Prelude.{
  ℕ, zero, suc, ◌+◌, ◌*◌, ltb, leb, Bool, true, false, not, ◌&&◌, ◌||◌, Option, none, some, List,
  [], ◌∷◌, if◌then◌else◌,
}
use smfs.Prelude.Eq.{Text, text_eq, nat_eq, bytes, ◌==◌}
use smfs.Prelude.Text.{is_empty}
use smfs.Prelude.Map.{Map, get, insert}
use smfs.Vfs.Error.{Result, ok, err}
use smfs.Cache.File
use smfs.Cache.Fs.{LruCache, Fs, Clock, rows_of, set_rows}
use smfs.Cache.Fs.Reconcile.{
  Document, ReconcileOutcome, needs_rehydrate, or_empty, ino_by_remote_id, reconcile_one,
}
use smfs.Sync.Listing.{Page, Server, Ran, returned, failed, unfinished}

-- `a <= b` on `str`, bytewise
abbrev pub text_leb : Text → Text → Bool
text_leb [] b = true
text_leb (c ∷ a) [] = false
text_leb (c ∷ a) (d ∷ b) = ltb c d || c == d && text_leb a b

abbrev pub last_seen_updated_at : Text
last_seen_updated_at = bytes "last_seen_updated_at"

-- the table `sync_meta`
abbrev pub Meta : Type 0
Meta = Map Text Text

abbrev pub sync_meta_get : Text → Meta → Option Text
sync_meta_get key meta = get key meta

abbrev pub sync_meta_set : Text → Text → Meta → Meta
sync_meta_set key value meta = insert key value meta

-- the answer to a GET, where it succeeds; `body` is `none` where its reading fails
pub record Response : Type 0 where
  pub content_length : Option ℕ
  pub body : Option (List ℕ)

abbrev pub rehydrate_size_cap : ℕ
rehydrate_size_cap = 20 * 1024 * 1024

abbrev pub is_oversized : Option ℕ → Bool
is_oversized none = false
is_oversized (some len) = ltb rehydrate_size_cap len

abbrev pub wants_rehydrate : Result ReconcileOutcome → Bool
wants_rehydrate (ok needs_rehydrate) = true
wants_rehydrate _ = false

abbrev pub newer_of : Text → Text → Text
newer_of updated_at newest_seen =
    if text_leb updated_at newest_seen then newest_seen else updated_at

module _ ⦃lru : LruCache⦄ where
  pub record Progress : Type 0 where
    pub fs : Fs
    pub newest_seen : Text
    pub reconciled : ℕ

  pub record Synced : Type 0 where
    pub fs : Fs
    pub meta : Meta

  abbrev pub start : Text → Synced → Progress
  start newest_seen s = record { fs = s.fs; newest_seen = newest_seen; reconciled = 0 }

  -- The watermark is written only after the last page.
  abbrev pub finish : Text → Meta → Progress × Ran (Unit {0}) → Synced × Ran ℕ
  finish last_seen meta (p, returned _) = (
    record {
      fs = p.fs;
      meta =
          if not (is_empty p.newest_seen) && not (p.newest_seen == last_seen)
          then sync_meta_set last_seen_updated_at p.newest_seen meta
          else meta;
    },
    returned p.reconciled,
  )
  finish last_seen meta (p, failed) = (record { fs = p.fs; meta = meta }, failed)
  finish last_seen meta (p, unfinished) = (record { fs = p.fs; meta = meta }, unfinished)

  module _ (clock : Clock) (fetch : Text → Option Response) (meanwhile : Fs → Fs) where
    abbrev pub write_response : ℕ → Option Response → Fs → Fs
    write_response i none s = s
    write_response i (some resp) s =
        if is_oversized resp.content_length then s else elim resp.body [
          | none ↦ s
          | some b ↦ set_rows i (File.rehydrate_raw_bytes b clock.now (rows_of i s)) s
        ]

    -- The inode is looked up before the GET and written after it.
    unfoldable pub rehydrate_if_possible : Document → Fs → Fs
    rehydrate_if_possible doc s = elim doc.url [
      | none ↦ s
      | some url ↦ elim (ino_by_remote_id doc.id s.remote) [
        | none ↦ s
        | some i ↦ write_response i (fetch url) (meanwhile s)
      ]
    ]

  module _ (clock : Clock) (parse_iso : Text → Option ℕ) (fetch : Text → Option Response)
      (meanwhile : Fs → Fs) where
    -- An error of `reconcile_one` counts like a success.
    unfoldable pub pull_document : Document → Progress → Progress
    pull_document doc p =
        let r = reconcile_one clock parse_iso doc p.fs in
        record {
          fs =
              if wants_rehydrate r.1
              then rehydrate_if_possible clock fetch meanwhile doc r.0
              else r.0;
          newest_seen = newer_of doc.updated_at p.newest_seen;
          reconciled = p.reconciled + 1;
        }

    -- the documents of a page, and whether the watermark stopped it
    unfoldable pub pull_page : Text → List Document → Progress → Progress × Bool
    pull_page last_seen [] p = (p, false)
    pull_page last_seen (doc ∷ docs) p =
        if not (is_empty last_seen) && text_leb doc.updated_at last_seen
        then (p, true)
        else pull_page last_seen docs (pull_document doc p)

    unfoldable pub pull_pages : ℕ → Server → Text → ℕ → Progress → Progress × Ran (Unit {0})
    pull_pages zero server last_seen page p = (p, unfinished)
    pull_pages (suc fuel) server last_seen page p = elim (server page) [
      | none ↦ (p, failed)
      | some resp ↦
          if is_empty resp.memories
          then (p, returned tt)
          else if (pull_page last_seen resp.memories p).1 || leb resp.total_pages page
          then ((pull_page last_seen resp.memories p).0, returned tt)
          else pull_pages fuel server last_seen (page + 1) (pull_page last_seen resp.memories p).0
    ]

    unfoldable pub delta_pull : ℕ → Option Server → Synced → Synced × Ran ℕ
    delta_pull fuel none s = (s, returned 0)
    delta_pull fuel (some server) s =
        let last_seen = or_empty (sync_meta_get last_seen_updated_at s.meta) in
        finish last_seen s.meta (pull_pages fuel server last_seen 1 (start last_seen s))

    -- A full pull has no watermark, and writes every one that is not empty.
    unfoldable pub full_pull : ℕ → Option Server → Synced → Synced × Ran ℕ
    full_pull fuel none s = (s, returned 0)
    full_pull fuel (some server) s = finish [] s.meta (pull_pages fuel server [] 1 (start [] s))
