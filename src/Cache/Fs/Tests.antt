-- ===== src/Cache/Fs/Tests.antt =====
-- The theorems on `SupermemoryFs` at a small file system.
use smfs.Prelude.{ℕ, ◌+◌, Option, none, some, [], ◌∷◌, ◌≡◌, ◌≢◌, refl, arith, true, false}
use smfs.Prelude.Eq.{Text, text_eq, nat_eq, bytes}
use smfs.Prelude.Map.{Map, get, insert, remove, update}
use smfs.Vfs.Error.{ok, ◌>>=◌}
use smfs.Vfs.Types.{FileAttr}
use smfs.Vfs.Path.{validate_name}
use smfs.Vfs.Path.Components.{IsValidName}
use smfs.Cache.Queue
use smfs.Cache.Queue.Slots.{queued, IsSettled}
use smfs.Cache.Noise.{is_macos_noise_path, is_noise_root, is_noise_basename}
use smfs.Cache.Op.{PushOp, as_str}
use smfs.Cache.File
use smfs.Cache.File.{Inode}
use smfs.Cache.File.Read.{Holds}
use smfs.Cache.File.Write.{overwrite}
use smfs.Cache.File.Whole.{rehydrate_raw_bytes-Holds}
use smfs.Cache.Fs.Iso.{civil_days}
use smfs.Cache.Fs.Iso.Calendar.{civil_days-next_month}
use smfs.Cache.Fs.Handles.{write_file, truncate_file, flush}
use smfs.Cache.Fs.Handles.Sends.{flush_sends_written, emptied_file_not_sent}
use smfs.Sync.Db.{new_remote}
use smfs.Cache.Fs.{
  rows_of, Fs, Row, row_to_attr, new_row, walk, unfinished, filepath_in, resolve_filepath,
}
use smfs.Cache.Fs.Table.{Key, key_eq, at, name_of, count_ino}
use smfs.Cache.Fs.Change.{add_inode, change_inode, drop_dentry, drop_inode}
use smfs.Cache.Fs.Siblings
use smfs.Cache.Fs.Query.{lookup}
use smfs.Cache.Fs.Ops.{mkdir, create_file, unlink, rename, finish_rename, move_entry}
use smfs.Cache.Fs.Reconcile.{Document, filepath_of, ino_by_remote_id, reconcile_one, created}
use smfs.Cache.Fs.Lookup.{table_lookup, SameTables, lookup_lem}
use smfs.Cache.Fs.Filepath.{walk-ends, rename_into_itself_hangs}
use smfs.Cache.Fs.Dirty.{HasContent}
use smfs.Cache.Fs.Dirty.Documents.{reconcile_keeps_newer_write}
use smfs.Cache.Fs.Deletes.{queued_id, unlink_forgets_remote_id}
use smfs.Cache.Fs.Below.{pull_enters_any_entry}
use smfs.Cache.Fs.Coherence.{IsCoherent}
use smfs.Cache.Fs.Coherence.Calls.{call, run, new, state_after, run-IsCoherent}
use smfs.Cache.Fs.Sample.{table_cache, noon, clock, calls, no_time, tree}

run-IsCoherent_example : IsCoherent (run none no_time calls (new noon))
run-IsCoherent_example = run-IsCoherent none no_time calls noon (tt, (tt, (tt, tt)))

abbrev attr_a : FileAttr
attr_a = row_to_attr 3 (new_row 0o100644 1 0 0 0 noon)

a_found : lookup none 1 (bytes "a.md") 8 tree ≡ ok (some attr_a, tree)
unfolding lookup row_to_attr call run mkdir create_file add_inode change_inode validate_name get
    insert update ◌>>=◌
a_found = refl

lookup_lem_example :
    (some attr_a ≡ table_lookup none 1 (bytes "a.md") tree) × IsCoherent tree × SameTables tree tree
lookup_lem_example =
    lookup_lem none 1 (bytes "a.md") 8 tree tree (some attr_a)
      (run-IsCoherent none no_time calls noon (tt, (tt, (tt, tt)))) a_found

abbrev paths : Map Key ℕ
paths = (at 1 (bytes "d"), 2) ∷ (at 2 (bytes "b.md"), 4) ∷ []

walk-ends_example : walk 3 4 paths ≢ unfinished
walk-ends_example = walk-ends (λ i. i) 3 4 paths (omega arith, (omega arith, tt)) (omega arith)

abbrev row_d : Row
row_d = record (new_row 0o040755 2 0 0 0 noon) { nlink = 2 }

d_valid : IsValidName (bytes "d")
unfolding validate_name
d_valid = refl

e_valid : IsValidName (bytes "e")
unfolding validate_name
e_valid = refl

d_entry : get (at 1 (bytes "d")) tree.dentries ≡ some 2
unfolding call run mkdir create_file add_inode change_inode validate_name get insert update ◌>>=◌
d_entry = refl

d_once : count_ino 2 tree.dentries ≡ 1
unfolding call run mkdir create_file add_inode change_inode validate_name get insert update ◌>>=◌
    count_ino
d_once = refl

d_row : get 2 tree.inodes ≡ some row_d
unfolding call run mkdir create_file add_inode change_inode validate_name get insert update ◌>>=◌
d_row = refl

e_free : get (at 2 (bytes "e")) tree.dentries ≡ none
unfolding call run mkdir create_file add_inode change_inode validate_name get insert update ◌>>=◌
e_free = refl

rename_into_itself_hangs_example :
    (rename none 1 (bytes "d") 2 (bytes "e") clock tree
      ≡ ok (
          finish_rename none
            (at 1 (bytes "d"))
            (at 2 (bytes "e"))
            2
            false
            none
            clock
            tree.dentries
            tree))
    × (walk 100 2 (move_entry (at 1 (bytes "d")) (at 2 (bytes "e")) 2 noon tree).dentries
        ≡ unfinished)
rename_into_itself_hangs_example =
    rename_into_itself_hangs none 1 (bytes "d") 2 (bytes "e") clock tree row_d 100 d_valid e_valid
      d_entry d_once d_row refl e_free refl

-- `a.md` with a local write at 900 that the server has not got
abbrev written : Fs
written = record tree {
  inodes = update 3 (λ r. record r { size = 2; dirty_since = some 900 }) tree.inodes;
  blobs = (3, (0, bytes "hi") ∷ []) ∷ [];
  remote = (3, new_remote (bytes "doc1")) ∷ [];
}

abbrev doc : Document
doc = record {
  id = bytes "doc1";
  filepath = some (bytes "/a.md");
  content = some (bytes "old");
  status = bytes "done";
  updated_at = bytes "800";
  type_ = some (bytes "text");
  url = none;
}

abbrev at_800 : Text → Option ℕ
at_800 w = some 800

written_content : HasContent 3 (some ((0, bytes "hi") ∷ [])) 2 900 written
unfolding call run mkdir create_file add_inode change_inode validate_name get insert update ◌>>=◌
written_content = record {
  low = omega arith;
  blob = refl;
  row =
      (record (new_row 0o100644 1 0 0 2 noon) { dirty_since = some 900 }, refl, (refl, refl, refl));
}

reconcile_keeps_newer_write_example :
    HasContent 3 (some ((0, bytes "hi") ∷ [])) 2 900 (reconcile_one clock at_800 doc written).0
reconcile_keeps_newer_write_example =
    reconcile_keeps_newer_write 3 (some ((0, bytes "hi") ∷ [])) 2 900 clock at_800 doc written
      written_content refl

abbrev unlinked : Fs
unlinked = state_after written (unlink (some attr_a) 1 (bytes "a.md") clock written)

unlinked_done : unlink (some attr_a) 1 (bytes "a.md") clock written ≡ ok unlinked
unfolding unlink call run mkdir create_file add_inode change_inode drop_dentry drop_inode
    validate_name get insert update remove ◌>>=◌ resolve_filepath walk name_of
    Siblings.unlink_siblings Siblings.remove_derived_sibling
unlinked_done = refl

a_entry : get (at 1 (bytes "a.md")) written.dentries ≡ some 3
unfolding call run mkdir create_file add_inode change_inode validate_name get insert update ◌>>=◌
a_entry = refl

abbrev row_a : Row
row_a = record (new_row 0o100644 1 0 0 2 noon) { dirty_since = some 900 }

a_row : get 3 written.inodes ≡ some row_a
unfolding call run mkdir create_file add_inode change_inode validate_name get insert update ◌>>=◌
a_row = refl

a_path : filepath_in 1 (bytes "a.md") written.dentries ≡ some (bytes "/a.md")
unfolding call run mkdir create_file add_inode change_inode validate_name get insert update ◌>>=◌
    resolve_filepath walk name_of
a_path = refl

unlink_forgets_remote_id_example :
    (unlinked.queue
      ≡ Queue.upsert (bytes "/a.md") PushOp.delete none none none 43200000 written.queue)
    × (queued_id (bytes "/a.md") unlinked.queue ≡ queued_id (bytes "/a.md") written.queue)
unlink_forgets_remote_id_example =
    unlink_forgets_remote_id attr_a 1 (bytes "a.md") clock written unlinked 3 row_a (bytes "/a.md")
      unlinked_done a_entry a_row (omega arith) a_path

-- a document below the file `a.md`
abbrev below : Document
below = record {
  id = bytes "doc2";
  filepath = some (bytes "/a.md/x.md");
  content = some (bytes "new");
  status = bytes "done";
  updated_at = bytes "800";
  type_ = some (bytes "text");
  url = none;
}

below_path : filepath_of below ≡ bytes "/a.md/x.md"
unfolding filepath_of
below_path = refl

x_free : get (at 3 (bytes "x.md")) written.dentries ≡ none
unfolding call run mkdir create_file add_inode change_inode validate_name get insert update ◌>>=◌
x_free = refl

below_unknown : ino_by_remote_id (bytes "doc2") written.remote ≡ none
unfolding ino_by_remote_id
below_unknown = refl

-- two inodes of one document, the later one inserted first
smallest_ino :
    ino_by_remote_id
      (bytes "doc2")
      ((9, new_remote (bytes "doc2")) ∷ (4, new_remote (bytes "doc2")) ∷ [])
    ≡ some 4
unfolding ino_by_remote_id
smallest_ino = refl

pull_enters_any_entry_example :
    (get (at 3 (bytes "x.md")) (reconcile_one clock at_800 below written).0.dentries
      ≡ some written.next_ino)
    × ((reconcile_one clock at_800 below written).1 ≡ ok created)
unfolding filepath_of
pull_enters_any_entry_example =
    pull_enters_any_entry clock at_800 below (bytes "a.md") 3 written below_unknown refl refl refl
      a_entry x_free

abbrev node_a : Inode
node_a = record { size = 0; mtime = noon; ctime = noon; dirty_since = some 900 }

written-Holds : Holds (rows_of 3 written) (bytes "hi")
unfolding call run mkdir create_file add_inode change_inode validate_name get insert update ◌>>=◌
    File.rehydrate_raw_bytes File.chunks_from
written-Holds =
    rehydrate_raw_bytes-Holds (bytes "hi") noon (record { inode = some node_a; chunks = [] }) node_a
      refl

a_queue_empty : (q : Queue.Row) → get (bytes "/a.md") written.queue.rows ≡ some q → IsSettled q
unfolding call run mkdir create_file add_inode change_inode validate_name get insert update ◌>>=◌
a_queue_empty q e = absurd (cc e)

a_real : is_macos_noise_path (bytes "/a.md") ≡ false
unfolding is_macos_noise_path is_noise_root is_noise_basename
a_real = refl

flush_sends_written_example :
    (queued
        (bytes "/a.md")
        (flush true
          (some (bytes "/a.md"))
          3
          43200000
          (write_file 3 1 (bytes "ey") clock written).0).queue
      ≡ some (record { op = bytes "update"; content_ino = some 3; rename_to = none }))
    × (File.read_all_content (
          rows_of 3 (
            flush true
              (some (bytes "/a.md"))
              3
              43200000
              (write_file 3 1 (bytes "ey") clock written).0))
        ≡ overwrite 1 (bytes "ey") (bytes "hi"))
unfolding as_str get
flush_sends_written_example =
    flush_sends_written (bytes "/a.md") 3 1 (bytes "ey") clock written (bytes "hi") row_a a_row
      written-Holds (omega arith) (omega arith) (omega arith) a_real a_queue_empty

emptied_file_not_sent_example :
    ((flush true (some (bytes "/a.md")) 3 43200000 (truncate_file 3 0 clock written)).queue
      ≡ written.queue)
    × (get 3 (flush true (some (bytes "/a.md")) 3 43200000 (truncate_file 3 0 clock written)).inodes
        ≡ some (record row_a { size = 0; mtime = noon; ctime = noon }))
emptied_file_not_sent_example = emptied_file_not_sent (bytes "/a.md") 3 clock written row_a a_row

-- from December to January
civil_days-next_month_example : civil_days 2024 1 1 ≡ civil_days 2023 12 1 + 31
civil_days-next_month_example = civil_days-next_month 2023 12 (omega arith) (omega arith)
