-- ===== src/Sync/Engine/Initial.antt =====
-- The intervals, and the two forms of the initial pull, of crates/smfs-core/src/sync/mod.rs.
use smfs.Prelude.{
  ℕ, suc, ◌≤◌, true, Option, some, List, [], ◌∷◌, ◌≡◌, ◌≢◌, ◌⊎◌, inl, inr, refl, arith, Bool-cases,
}
use smfs.Prelude.Eq.{Text}
use smfs.Prelude.Text.{is_empty}
use smfs.Cache.Fs.{LruCache, Fs, Clock}
use smfs.Sync.Listing.{Server, Ran, returned, failed, unfinished, HasPages}
use smfs.Sync.Scan.{listed_ids, remove_unlisted, compare_ids, deletion_scan}
use smfs.Sync.Scan.Ends.{listed_ids-ends}
use smfs.Sync.Pull.{Response, Synced}
use smfs.Sync.Engine.{jittered, adaptive_interval, initial_pull, initial_pull_with_progress}

-- Where the base interval is between 15 and 60 seconds, as the default of 30 is, a round of the delta
-- loop waits between 5 and 65 seconds, after any number of empty pulls.
pub adaptive_interval-bounds :
    (base empty_streak nanos : ℕ)
    → 15 ≤ base
    → base ≤ 60
    → (5 ≤ adaptive_interval base empty_streak nanos)
      × (adaptive_interval base empty_streak nanos ≤ 65)
unfolding adaptive_interval jittered
adaptive_interval-bounds base empty_streak nanos low high = ground arith

module _ ⦃lru : LruCache⦄ where
  -- A scan that ends, of tables without a document, changes nothing.
  scan_of_none :
      (listed : Ran (List Text)) (s : Fs)
      → s.remote ≡ []
      → listed ≢ unfinished
      → (compare_ids listed (λ t. t) s ≡ (s, returned 0))
        ⊎ (compare_ids listed (λ t. t) s ≡ (s, failed))
  unfolding remove_unlisted
  scan_of_none (returned listed) s none_there ends = inl (rw none_there refl)
  scan_of_none failed s none_there ends = inr refl
  scan_of_none unfinished s none_there ends = absurd (ends refl)

  none_of : {A : Type 0} (xs : List A) → is_empty xs ≡ true → xs ≡ []
  none_of [] h = refl
  none_of (x ∷ xs) h = cc

  -- Where the server has no more pages than there are rounds, and no other task runs during the
  -- deletion scan, the initial pull that skips the scan on tables without a document does the same
  -- as the one that does not.
  pub initial_pull_with_progress_lem :
      (n : ℕ) (server : Server) (clock : Clock) (parse_iso : Text → Option ℕ)
      (fetch : Text → Option Response) (meanwhile : Fs → Fs) (s : Synced)
      → HasPages n server
      → initial_pull_with_progress (suc n) (some server) clock parse_iso fetch meanwhile (λ t. t) s
        ≡ initial_pull (suc n) (some server) clock parse_iso fetch meanwhile (λ t. t) s
  unfolding initial_pull_with_progress initial_pull deletion_scan
  initial_pull_with_progress_lem n server clock parse_iso fetch meanwhile s few =
      elim (Bool-cases (is_empty s.fs.remote)) [
        | inr some_there ↦ rw (initial_pull_with_progress, some_there) refl
        | inl nothing ↦
            let ends = listed_ids-ends n n 1 server few (omega arith) in
            elim (scan_of_none (listed_ids (suc n) server 1) s.fs (none_of s.fs.remote nothing)
              ends) [
                | inl done ↦ rw (initial_pull_with_progress, nothing, done) refl
                | inr refused ↦ rw (initial_pull_with_progress, nothing, refused) refl
              ]
      ]
