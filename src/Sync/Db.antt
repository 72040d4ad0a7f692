-- ===== src/Sync/Db.antt =====
-- The tables of crates/smfs-core/src/cache/db.rs that the push worker works on, and the operations
-- on `fs_remote` and on the dirty watermark.
use smfs.Prelude.{ℕ, Option, none, some, List, [], ◌∷◌, or_else, if◌then◌else◌}
use mathlib.Core.Option
use smfs.Prelude.Eq.{Text, text_eq, nat_eq, ◌==◌}
use smfs.Prelude.Map.{Map, get, insert, remove, update}
use smfs.Cache.File
use smfs.Cache.File.{FileRows, Inode}
use smfs.Cache.Queue.{PushQueue, forget_remote_id}

-- a row of `fs_remote`
pub record Remote : Type 0 where
  pub remote_id : Text
  pub mirrored_updated_at : Option ℕ
  pub last_status : Option Text
  pub last_status_at : Option ℕ

-- `siblings` are the files that the worker has asked `create_derived_sibling` for, the last first.
pub record Db : Type 0 where
  pub queue : PushQueue
  pub remote : Map ℕ Remote
  pub files : Map ℕ FileRows
  pub siblings : List (Text × Text)

abbrev pub on_queue : (PushQueue → PushQueue) → Db → Db
on_queue f s = record s { queue = f s.queue }

abbrev pub remote_id_of : Option Remote → Option Text
remote_id_of none = none
remote_id_of (some r) = some r.remote_id

-- `INSERT OR REPLACE INTO fs_remote (ino, remote_id)`: the other columns become NULL
abbrev pub new_remote : Text → Remote
new_remote id = record {
  remote_id = id;
  mirrored_updated_at = none;
  last_status = none;
  last_status_at = none;
}

-- the SET of `set_mirrored_state`
abbrev pub mirror : Option ℕ → Option Text → Option ℕ → Remote → Remote
mirror mirrored status at r = record r {
  mirrored_updated_at = or_else mirrored r.mirrored_updated_at;
  last_status = or_else status r.last_status;
  last_status_at = or_else at r.last_status_at;
}

unfoldable pub get_remote_id : ℕ → Db → Option Text
get_remote_id ino s = remote_id_of (get ino s.remote)

unfoldable pub set_remote_id : ℕ → Text → Db → Db
set_remote_id ino id s = record s { remote = insert ino (new_remote id) s.remote }

unfoldable pub delete_remote_id : ℕ → Db → Db
delete_remote_id ino s = record s { remote = remove ino s.remote }

abbrev pub with_dirty : Option ℕ → FileRows → FileRows
with_dirty at f = record f {
  inode = Option.map {A = Inode} {B = Inode} (λ n. record n { dirty_since = at }) f.inode;
}

unfoldable pub set_dirty_since : ℕ → Option ℕ → Db → Db
set_dirty_since ino at s = record s { files = update ino (with_dirty at) s.files }

abbrev pub dirty_of : Option FileRows → Option ℕ
dirty_of none = none
dirty_of (some f) = elim f.inode [ none ↦ none | some n ↦ n.dirty_since ]

unfoldable pub get_dirty_since : ℕ → Db → Option ℕ
get_dirty_since ino s = dirty_of (get ino s.files)

unfoldable pub set_mirrored_state : ℕ → Option ℕ → Option Text → Option ℕ → Db → Db
set_mirrored_state ino mirrored status at s = record s {
  remote = update ino (mirror mirrored status at) s.remote;
}

-- `DELETE FROM fs_remote WHERE remote_id = id`
unfoldable pub remove_remote : Text → Map ℕ Remote → Map ℕ Remote
remove_remote id [] = []
remove_remote id ((ino, r) ∷ rest) =
    let others = remove_remote id rest in if r.remote_id == id then others else (ino, r) ∷ others

unfoldable pub clear_remote_id_after_404 : Text → Text → Db → Db
clear_remote_id_after_404 fp id s = record s {
  queue = forget_remote_id fp s.queue;
  remote = remove_remote id s.remote;
}

unfoldable pub read_all_content : ℕ → Db → List ℕ
read_all_content ino s = elim (get ino s.files) [ none ↦ [] | some f ↦ File.read_all_content f ]
