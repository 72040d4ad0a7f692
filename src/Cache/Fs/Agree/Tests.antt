-- ===== src/Cache/Fs/Agree/Tests.antt =====
-- `SupermemoryFs` and `MemFs` side by side, from new file systems.
use smfs.Prelude.{none, some, [], ◌≡◌, refl, arith}
use smfs.Prelude.Eq.{Text, text_eq, nat_eq, bytes}
use smfs.Prelude.Map.{get, insert, remove, update}
use smfs.Vfs.Error.{ok, ◌>>=◌}
use smfs.Vfs.Types.{FileAttr, new_file_with}
use smfs.Vfs.Path.{validate_name}
use smfs.Vfs.Mem
use smfs.Vfs.Mem.{Inner}
use smfs.Vfs.Mem.Calls
use smfs.Vfs.Mem.Sound.{IsSound}
use smfs.Vfs.Mem.Invariant.{run-IsSound}
use smfs.Vfs.Mem.Entries.{entry}
use smfs.Cache.Fs.{Fs, resolve_filepath, walk}
use smfs.Cache.Fs.Table.{key_eq, at, name_of, rekey}
use smfs.Cache.Fs.Change.{add_inode, change_inode, drop_dentry, drop_inode, move_dentry}
use smfs.Cache.Fs.Siblings
use smfs.Cache.Fs.Query.{Handle}
use smfs.Cache.Fs.Ops.{create_file, unlink, rename}
use smfs.Cache.Fs.Coherence.Calls.{new, state_after, state_with}
use smfs.Cache.Fs.Entries.{NoDerived, SameEntries}
use smfs.Cache.Fs.Agree.{unlink_agrees, create_file_agrees, rename_agrees}
use smfs.Cache.Fs.Sample.{table_cache, noon, clock}

abbrev name : Text
name = bytes "a.md"

abbrev other : Text
other = bytes "b.md"

new_same : SameEntries (Mem.new noon) (new noon)
unfolding entry Mem.new get
new_same p w = ground arith

abbrev mem_made : Inner
mem_made =
    Calls.after (Mem.new noon)
      (Calls.state_of (Mem.create_file 1 name 0o644 0 0 noon (Mem.new noon)))

abbrev made : Fs
made = state_with (new noon) (create_file 1 name 0o644 0 0 noon (new noon))

abbrev attr : FileAttr
attr = new_file_with 2 0o100644 0 0 noon

mem_made_done : Mem.create_file 1 name 0o644 0 0 noon (Mem.new noon) ≡ ok ((attr, 2), mem_made)
unfolding Mem.create_file Mem.new new_file_with validate_name get insert remove update ◌>>=◌
mem_made_done = refl

made_done :
    create_file 1 name 0o644 0 0 noon (new noon)
    ≡ ok ((attr, Handle.sqlite_file 2 (some (bytes "/a.md"))), made)
unfolding create_file add_inode change_inode new_file_with validate_name get insert update ◌>>=◌
    resolve_filepath walk name_of
made_done = refl

new_sound : IsSound (Mem.new noon)
new_sound = run-IsSound noon []

next_same : (Mem.new noon).next_ino ≡ (new noon).next_ino
unfolding Mem.new
next_same = refl

create_file_agrees_example : entry 1 name mem_made.nodes ≡ get (at 1 name) made.dentries
create_file_agrees_example =
    create_file_agrees 1 name 0o644 0 0 noon (Mem.new noon) mem_made (new noon) made attr 2
      (attr, Handle.sqlite_file 2 (some (bytes "/a.md"))) new_sound next_same new_same mem_made_done
      made_done 1 name

made_same : SameEntries mem_made made
made_same =
    create_file_agrees 1 name 0o644 0 0 noon (Mem.new noon) mem_made (new noon) made attr 2
      (attr, Handle.sqlite_file 2 (some (bytes "/a.md"))) new_sound next_same new_same mem_made_done
      made_done

made_plain : NoDerived made.inodes
unfolding create_file add_inode change_inode validate_name get insert update ◌>>=◌
made_plain = (refl, (refl, tt))

abbrev mem_left : Inner
mem_left = Calls.after mem_made (Mem.unlink 1 name noon mem_made)

abbrev left : Fs
left = state_after made (unlink none 1 name clock made)

mem_left_done : Mem.unlink 1 name noon mem_made ≡ ok mem_left
unfolding Mem.unlink Mem.create_file Mem.new new_file_with validate_name get insert remove update
    ◌>>=◌
mem_left_done = refl

left_done : unlink none 1 name clock made ≡ ok left
unfolding unlink create_file add_inode change_inode drop_dentry drop_inode validate_name get insert
    update remove ◌>>=◌ Siblings.unlink_siblings Siblings.remove_derived_sibling
left_done = refl

unlink_agrees_example : entry 1 name mem_left.nodes ≡ get (at 1 name) left.dentries
unlink_agrees_example =
    unlink_agrees none 1 name clock mem_made mem_left made left made_same made_plain mem_left_done
      left_done 1 name

abbrev mem_moved : Inner
mem_moved = Calls.after mem_made (Mem.rename 1 name 1 other noon mem_made)

abbrev moved : Fs
moved = state_after made (rename none 1 name 1 other clock made)

mem_moved_done : Mem.rename 1 name 1 other noon mem_made ≡ ok mem_moved
unfolding Mem.rename Mem.move Mem.check_replace Mem.create_file Mem.new new_file_with validate_name
    get insert remove update ◌>>=◌
mem_moved_done = refl

moved_done : rename none 1 name 1 other clock made ≡ ok moved
unfolding rename create_file add_inode change_inode move_dentry drop_inode validate_name get insert
    update remove ◌>>=◌ rekey Siblings.rename_siblings Siblings.rename_derived_sibling
moved_done = refl

names_differ : ¬ (get (at 1 other) made.dentries ≡ get (at 1 name) made.dentries)
unfolding create_file add_inode change_inode validate_name get insert update ◌>>=◌
names_differ = λ e. cc e

rename_agrees_example : entry 1 other mem_moved.nodes ≡ get (at 1 other) moved.dentries
rename_agrees_example =
    rename_agrees none 1 name 1 other clock mem_made mem_moved made moved made_same made_plain
      names_differ mem_moved_done moved_done 1 other
