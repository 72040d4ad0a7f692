-- ===== src/Vfs/Mem/Calls.antt =====
-- The calls of `MemFs` and of its handles (crates/smfs-core/src/vfs/mem.rs) that change the state,
-- as the mount server issues them one after the other.
use smfs.Prelude.{ℕ, List, [], ◌∷◌}
use smfs.Prelude.Eq.{Text}
use smfs.Vfs.Error.{Result, ok, err}
use smfs.Vfs.Types.{Timestamp, SetAttr}
use smfs.Vfs.Mem.{Inner, setattr, mkdir, rmdir, create_file, unlink, symlink_at, link, rename}
use smfs.Vfs.Mem.Handle.{write, truncate}

pub data Call : Type 0 where
  set_attributes : ℕ → SetAttr → Call
  make_dir make_file : ℕ → Text → ℕ → ℕ → ℕ → Call
  remove_dir remove_file : ℕ → Text → Call
  make_symlink : ℕ → Text → Text → ℕ → ℕ → Call
  make_link : ℕ → ℕ → Text → Call
  move_entry : ℕ → Text → ℕ → Text → Call
  write_file : ℕ → ℕ → List ℕ → Call
  truncate_file : ℕ → ℕ → Call

-- the state after a call that succeeds
abbrev pub state_of {ℓ} : {A : Type ℓ} → Result (A × Inner) → Result Inner
state_of (ok r) = ok r.1
state_of (err e) = err e

unfoldable pub call : Call → Timestamp → Inner → Result Inner
call (Call.set_attributes ino r) now s = state_of (setattr ino r now s)
call (Call.make_dir p name mode uid gid) now s = state_of (mkdir p name mode uid gid now s)
call (Call.make_file p name mode uid gid) now s = state_of (create_file p name mode uid gid now s)
call (Call.remove_dir p name) now s = rmdir p name now s
call (Call.remove_file p name) now s = unlink p name now s
call (Call.make_symlink p name target uid gid) now s =
    state_of (symlink_at p name target uid gid now s)
call (Call.make_link ino p name) now s = state_of (link ino p name now s)
call (Call.move_entry p name q other) now s = rename p name q other now s
call (Call.write_file ino offset payload) now s = state_of (write ino offset payload now s)
call (Call.truncate_file ino size) now s = truncate ino size now s

-- an error leaves the state as it is
abbrev pub after : Inner → Result Inner → Inner
after s (ok t) = t
after s (err e) = s

abbrev pub run : List (Call × Timestamp) → Inner → Inner
run [] s = s
run ((c, now) ∷ calls) s = run calls (after s (call c now s))
