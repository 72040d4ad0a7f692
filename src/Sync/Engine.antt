-- ===== src/Sync/Engine.antt =====
-- The initial pull and the intervals of crates/smfs-core/src/sync/mod.rs. Intervals are in seconds;
-- `nanos` is the reading of the system clock that `jittered` takes.
pub mod Initial
use smfs.Prelude.{
  ℕ, ◌+◌, ◌-◌, ◌*◌, ◌/◌, ◌%◌, ◌^◌, ◌≤◌, min, max, leb, Bool, true, false, Option, none, some, List,
  [], ◌∷◌, ◌≡◌, inl, inr, arith, if◌then◌else◌, Bool-cases, leb_iff, eqb_iff,
}
use smfs.Prelude.Eq.{Text, nat_eq, ◌==◌}
use smfs.Prelude.Text.{is_empty}
use smfs.Cache.Fs.{LruCache, Fs, Clock}
use smfs.Sync.Listing.{Server, Ran, returned, failed, unfinished}
use smfs.Sync.Scan.{deletion_scan}
use smfs.Sync.Pull.{Response, Synced, full_pull}

-- `(base + jitter).max(1)`; a sum below zero is 0 here, which `max` turns into 1 as well.
unfoldable pub jittered : ℕ → ℕ → ℕ → ℕ
jittered base max_jitter_secs nanos =
    max (base + nanos % (2 * max_jitter_secs + 1) - max_jitter_secs) 1

unfoldable pub adaptive_interval : ℕ → ℕ → ℕ → ℕ
adaptive_interval base empty_streak nanos =
    jittered
      (if empty_streak == 0
        then max (base / 3) 10
        else if leb 3 empty_streak
        then min (base * 2) 60
        else base)
      5 nanos

-- what `run_delta_loop` makes of a pull, with `saturating_add` on `u32`
unfoldable pub next_streak : Ran ℕ → ℕ → ℕ
next_streak (returned n) empty_streak = if n == 0 then min (empty_streak + 1) (2 ^ 32 - 1) else 0
next_streak failed empty_streak = empty_streak
next_streak unfinished empty_streak = empty_streak

module _ ⦃lru : LruCache⦄ (fuel : ℕ) (api : Option Server) (clock : Clock)
    (parse_iso : Text → Option ℕ) (fetch : Text → Option Response) (meanwhile : Fs → Fs) where
  abbrev pub with_removed : ℕ → Synced × Ran ℕ → Synced × Ran (ℕ × ℕ)
  with_removed removed (s, returned n) = (s, returned (removed, n))
  with_removed removed (s, failed) = (s, failed)
  with_removed removed (s, unfinished) = (s, unfinished)

  abbrev pub pull_after : ℕ → Synced → Synced × Ran (ℕ × ℕ)
  pull_after removed s = with_removed removed (full_pull clock parse_iso fetch meanwhile fuel api s)

  -- A failed scan counts as one that removed nothing.
  abbrev pub after_scan : Fs × Ran ℕ → Synced → Synced × Ran (ℕ × ℕ)
  after_scan (t, returned removed) s = pull_after removed (record s { fs = t })
  after_scan (t, failed) s = pull_after 0 (record s { fs = t })
  after_scan (t, unfinished) s = (record s { fs = t }, unfinished)

  unfoldable pub initial_pull : (Fs → Fs) → Synced → Synced × Ran (ℕ × ℕ)
  initial_pull during_scan s = after_scan (deletion_scan fuel api during_scan s.fs) s

  -- `remote_count` is the number of rows of `fs_remote`.
  unfoldable pub initial_pull_with_progress : (Fs → Fs) → Synced → Synced × Ran (ℕ × ℕ)
  initial_pull_with_progress during_scan s =
      if is_empty s.fs.remote then pull_after 0 s else initial_pull during_scan s
