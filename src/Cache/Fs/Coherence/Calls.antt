-- ===== src/Cache/Fs/Coherence/Calls.antt =====
-- Sequences of calls of `SupermemoryFs` (crates/smfs-core/src/cache/fs.rs), and of the pull.
use smfs.Prelude.{ℕ, ◌+◌, arith, Option, some, List, [], ◌∷◌, ◌≡◌, false}
use smfs.Prelude.Eq.{Text, nat_eq}
use smfs.Prelude.Map.{get}
use smfs.Vfs.Types.{Timestamp, FileAttr, SetAttr, new_dir_with}
use smfs.Vfs.Error.{Result, ok, err, OnOk}
use smfs.Cache.Hydration
use smfs.Cache.Fs.{Row, LruCache, Fs, Clock, new_row, root_ino}
use smfs.Cache.Fs.Query.{lookup}
use smfs.Cache.Fs.Ops.{mkdir, rmdir, create_file, unlink, symlink_at, link, rename, setattr}
use smfs.Cache.Fs.Reconcile.{Document, reconcile_one, apply_deletion}
use smfs.Cache.Fs.Lookup.{lookup-IsCoherent}
use smfs.Cache.Fs.Coherence.{IsCoherent}
use smfs.Cache.Fs.Coherence.Ops.{
  mkdir-IsCoherent, rmdir-IsCoherent, create_file-IsCoherent, unlink-IsCoherent,
  symlink_at-IsCoherent, link-IsCoherent, setattr-IsCoherent,
}
use smfs.Cache.Fs.Coherence.Rename.{rename-IsCoherent}
use smfs.Cache.Fs.Coherence.Reconcile.{reconcile_one-IsCoherent, apply_deletion-IsCoherent}

pub data Call : Type 0 where
  look_up : ℕ → Text → Call
  set_attr : ℕ → SetAttr → Call
  make_dir : ℕ → Text → ℕ → ℕ → ℕ → Call
  remove_dir : ℕ → Text → Call
  make_file : ℕ → Text → ℕ → ℕ → ℕ → Call
  remove_file : ℕ → Text → Call
  make_symlink : ℕ → Text → Text → ℕ → ℕ → Call
  make_link : ℕ → ℕ → Text → Call
  move_name : ℕ → Text → ℕ → Text → Call
  pull_document : Document → Call
  pull_deletion : Text → Call

module _ ⦃lru : LruCache⦄ where
  -- an error leaves the state as it was
  abbrev pub state_after : Fs → Result Fs → Fs
  state_after s (ok t) = t
  state_after s (err e) = s

  abbrev pub state_with {ℓ} : {A : Type ℓ} → Fs → Result (A × Fs) → Fs
  state_with s (ok r) = r.1
  state_with s (err e) = s

  -- The mount has an API client where `profile` is there; `parse_iso` reads a document's time.
  unfoldable pub call : Option FileAttr → (Text → Option ℕ) → Call → Clock → Fs → Fs
  call profile parse_iso (look_up p n) clock s = state_with s (lookup profile p n clock.instant s)
  call profile parse_iso (set_attr i a) clock s = state_with s (setattr i a clock.now s)
  call profile parse_iso (make_dir p n mode uid gid) clock s =
      state_with s (mkdir p n mode uid gid clock.now s)
  call profile parse_iso (remove_dir p n) clock s = state_after s (rmdir p n clock.now s)
  call profile parse_iso (make_file p n mode uid gid) clock s =
      state_with s (create_file p n mode uid gid clock.now s)
  call profile parse_iso (remove_file p n) clock s = state_after s (unlink profile p n clock s)
  call profile parse_iso (make_symlink p n target uid gid) clock s =
      state_with s (symlink_at p n target uid gid clock.now s)
  call profile parse_iso (make_link i p n) clock s = state_with s (link i p n clock.now s)
  call profile parse_iso (move_name p n q m) clock s =
      state_after s (rename profile p n q m clock s)
  call profile parse_iso (pull_document doc) clock s = (reconcile_one clock parse_iso doc s).0
  call profile parse_iso (pull_deletion id) clock s = (apply_deletion id s).0

  unfoldable pub run : Option FileAttr → (Text → Option ℕ) → List (Call × Clock) → Fs → Fs
  run profile parse_iso [] s = s
  run profile parse_iso ((c, clock) ∷ rest) s =
      run profile parse_iso rest (call profile parse_iso c clock s)

  -- No derived file gets a second name.
  abbrev pub IsAllowed : Call → Fs → Type 0
  IsAllowed (make_link i p n) s = (r : Row) → get i s.inodes ≡ some r → r.derived ≡ false
  IsAllowed _ s = Unit

  abbrev pub AllAllowed : Option FileAttr → (Text → Option ℕ) → List (Call × Clock) → Fs → Type 0
  AllAllowed profile parse_iso [] s = Unit
  AllAllowed profile parse_iso ((c, clock) ∷ rest) s =
      IsAllowed c s × AllAllowed profile parse_iso rest (call profile parse_iso c clock s)

  -- a new database
  abbrev pub new : Timestamp → Fs
  new now = record {
    inodes = (root_ino, new_row (smfs.Vfs.Types.default_dir_mode) 2 0 0 0 now) ∷ [];
    next_ino = root_ino + 1;
    dentries = [];
    blobs = [];
    symlinks = [];
    remote = [];
    queue = record { rows = []; notified = false };
    cache = lru.empty;
    hydration = Hydration.empty;
  }

  new-IsCoherent : (now : Timestamp) → IsCoherent (new now)
  unfolding get smfs.Cache.Fs.Table.count_ino
  new-IsCoherent now = record {
    unique = tt;
    names_low = tt;
    inodes_low = (omega arith, tt);
    cached = λ k i e. absurd (cc (lru.find-empty k, e));
    once = λ i r found derived. omega arith;
  }

  after : (s : Fs) (m : Result Fs) → IsCoherent s → OnOk IsCoherent m → IsCoherent (state_after s m)
  unfolding OnOk
  after s (ok t) h k = k
  after s (err e) h k = h

  after_with {ℓ} :
      {A : Type ℓ} (s : Fs) (m : Result (A × Fs))
      → IsCoherent s
      → OnOk (λ r. IsCoherent r.1) m
      → IsCoherent (state_with s m)
  unfolding OnOk
  after_with s (ok r) h k = k
  after_with s (err e) h k = h

  call-IsCoherent :
      (profile : Option FileAttr) (parse_iso : Text → Option ℕ) (c : Call) (clock : Clock) (s : Fs)
      → IsCoherent s
      → IsAllowed c s
      → IsCoherent (call profile parse_iso c clock s)
  unfolding call
  call-IsCoherent profile parse_iso (look_up p n) clock s h a =
      after_with s _ h (lookup-IsCoherent profile p n clock.instant s h)
  call-IsCoherent profile parse_iso (set_attr i b) clock s h a =
      after_with s _ h (setattr-IsCoherent i b clock.now s h)
  call-IsCoherent profile parse_iso (make_dir p n mode uid gid) clock s h a =
      after_with s _ h (mkdir-IsCoherent p n mode uid gid clock.now s h)
  call-IsCoherent profile parse_iso (remove_dir p n) clock s h a =
      after s _ h (rmdir-IsCoherent p n clock.now s h)
  call-IsCoherent profile parse_iso (make_file p n mode uid gid) clock s h a =
      after_with s _ h (create_file-IsCoherent p n mode uid gid clock.now s h)
  call-IsCoherent profile parse_iso (remove_file p n) clock s h a =
      after s _ h (unlink-IsCoherent profile p n clock s h)
  call-IsCoherent profile parse_iso (make_symlink p n target uid gid) clock s h a =
      after_with s _ h (symlink_at-IsCoherent p n target uid gid clock.now s h)
  call-IsCoherent profile parse_iso (make_link i p n) clock s h a =
      after_with s _ h (link-IsCoherent i p n clock.now s h a)
  call-IsCoherent profile parse_iso (move_name p n q m) clock s h a =
      after s _ h (rename-IsCoherent profile p n q m clock s h)
  call-IsCoherent profile parse_iso (pull_document doc) clock s h a =
      reconcile_one-IsCoherent clock parse_iso doc s h
  call-IsCoherent profile parse_iso (pull_deletion id) clock s h a =
      apply_deletion-IsCoherent id s h

  run-keeps :
      (profile : Option FileAttr) (parse_iso : Text → Option ℕ) (calls : List (Call × Clock))
      (s : Fs)
      → IsCoherent s
      → AllAllowed profile parse_iso calls s
      → IsCoherent (run profile parse_iso calls s)
  unfolding run
  run-keeps profile parse_iso [] s h a = h
  run-keeps profile parse_iso ((c, clock) ∷ rest) s h a =
      run-keeps profile parse_iso rest _ (call-IsCoherent profile parse_iso c clock s h a.0) a.1

  -- On a new database, after any sequence of calls and pulled documents and deletions that gives no
  -- derived file a second name by a hard link: every name in the dentry cache is an entry with
  -- that inode number, or has no entry any more and its inode number will not be used again; no
  -- entry stands twice, and no derived file has two.
  pub run-IsCoherent :
      (profile : Option FileAttr) (parse_iso : Text → Option ℕ) (calls : List (Call × Clock))
      (now : Timestamp)
      → AllAllowed profile parse_iso calls (new now)
      → IsCoherent (run profile parse_iso calls (new now))
  run-IsCoherent profile parse_iso calls now a =
      run-keeps profile parse_iso calls (new now) (new-IsCoherent now) a
