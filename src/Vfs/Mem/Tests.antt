-- ===== src/Vfs/Mem/Tests.antt =====
-- The theorems on `MemFs` at a small file system.
use smfs.Prelude.{ℕ, none, some, List, [], ◌∷◌, ◌≡◌, refl, arith}
use smfs.Prelude.Eq.{text_eq, nat_eq, bytes}
use smfs.Prelude.Map.{get, insert, remove, update}
use smfs.Prelude.Int.{pos}
use smfs.Vfs.Error.{ok, ◌>>=◌}
use smfs.Vfs.Path.{validate_name}
use smfs.Vfs.Types.{Timestamp, FileAttr, new_file_with, new_dir_with, from_secs, with_permissions}
use smfs.Vfs.Mem.{file, Inner, new, mkdir, create_file, unlink, link, rename, move, check_replace}
use smfs.Vfs.Mem.Cycle.{rename_into_itself}
use smfs.Vfs.Path.Components.{IsValidName}
use smfs.Vfs.Mem.{Children, directory, children_of}
use smfs.Vfs.Mem.Replaced.{rename_over_hard_link_dangles}
use smfs.Vfs.Mem.Calls.{Call, call, run, after, state_of}
use smfs.Vfs.Mem.Sound.{IsSound}
use smfs.Vfs.Mem.Invariant.{run-IsSound}
use smfs.Vfs.Mem.Entries.{entry, moved, rename_moves}

abbrev noon : Timestamp
noon = from_secs (pos 43200)

-- A directory 2 `a`; a file 3, which has the names `f` and `a/g`; and a file 4 `h`.
abbrev calls : List (Call × Timestamp)
calls =
    (Call.make_dir 1 (bytes "a") 493 0 0, noon)
    ∷ (Call.make_file 1 (bytes "f") 420 0 0, noon)
    ∷ (Call.make_link 3 2 (bytes "g"), noon)
    ∷ (Call.make_file 1 (bytes "h") 420 0 0, noon)
    ∷ []

abbrev tree : Inner
tree = run calls (new noon)

run-IsSound_example : IsSound (run calls (new noon))
run-IsSound_example = run-IsSound noon calls

abbrev replaced : Inner
replaced = after tree (rename 1 (bytes "h") 1 (bytes "f") noon tree)

replaced_done : rename 1 (bytes "h") 1 (bytes "f") noon tree ≡ ok replaced
unfolding rename move check_replace call new mkdir create_file link new_file_with new_dir_with
    validate_name get insert remove update ◌>>=◌
replaced_done = refl

entry_f : entry 1 (bytes "f") tree.nodes ≡ some 3
unfolding entry call new mkdir create_file link new_file_with new_dir_with validate_name get insert
    remove update ◌>>=◌
entry_f = refl

entry_g : entry 2 (bytes "g") tree.nodes ≡ some 3
unfolding entry call new mkdir create_file link new_file_with new_dir_with validate_name get insert
    remove update ◌>>=◌
entry_g = refl

entry_h : entry 1 (bytes "h") tree.nodes ≡ some 4
unfolding entry call new mkdir create_file link new_file_with new_dir_with validate_name get insert
    remove update ◌>>=◌
entry_h = refl

differ : ¬ (entry 1 (bytes "f") tree.nodes ≡ some 4)
differ e = cc (e, entry_f)

rename_moves_example :
    entry 1 (bytes "f") replaced.nodes
    ≡ moved 1 (bytes "h") 1 (bytes "f") 4 1 (bytes "f") (entry 1 (bytes "f") tree.nodes)
rename_moves_example =
    rename_moves 1 (bytes "h") 1 (bytes "f") noon tree replaced 4 1 (bytes "f") replaced_done
      entry_h differ

three_not_four : ¬ (◌≡◌ {A = ℕ} 3 4)
three_not_four e = omega arith

one_not_two : ¬ ((◌≡◌ {A = ℕ} 1 2) × (bytes "f" ≡ bytes "g"))
one_not_two p = omega (arith, p.0)

rename_over_hard_link_dangles_example :
    (entry 2 (bytes "g") replaced.nodes ≡ some 3) × (get 3 replaced.nodes ≡ none)
rename_over_hard_link_dangles_example =
    rename_over_hard_link_dangles 1 (bytes "h") 1 (bytes "f") noon tree replaced 4 3 2 (bytes "g")
      replaced_done entry_h entry_f three_not_four entry_g one_not_two

abbrev attr_3 : FileAttr
attr_3 = record (new_file_with 3 (with_permissions 0o100000 420) 0 0 noon) { nlink = 2 }

file_3_found : get 3 tree.nodes ≡ some (file attr_3 [])
unfolding call new mkdir create_file link new_file_with new_dir_with validate_name get insert remove
    update ◌>>=◌
file_3_found = refl

abbrev created : Inner
created = after tree (state_of (create_file 2 (bytes "n") 420 0 0 noon tree))

abbrev attr_5 : FileAttr
attr_5 = record (new_file_with 5 (with_permissions 0o100000 420) 0 0 noon) { nlink = 1 }

created_done : create_file 2 (bytes "n") 420 0 0 noon tree ≡ ok ((attr_5, 5), created)
unfolding call new mkdir create_file link new_file_with new_dir_with validate_name get insert remove
    update ◌>>=◌
created_done = refl

abbrev made : Inner
made = after tree (state_of (mkdir 2 (bytes "d") 448 5 6 noon tree))

abbrev attr_dir : FileAttr
attr_dir = new_dir_with 5 (with_permissions 0o040000 448) 5 6 noon

made_done : mkdir 2 (bytes "d") 448 5 6 noon tree ≡ ok (attr_dir, made)
unfolding call new mkdir create_file link new_file_with new_dir_with validate_name get insert remove
    update ◌>>=◌
made_done = refl

abbrev unlinked : Inner
unlinked = after tree (unlink 1 (bytes "f") noon tree)

unlinked_done : unlink 1 (bytes "f") noon tree ≡ ok unlinked
unfolding unlink call new mkdir create_file link new_file_with new_dir_with validate_name get insert
    remove update ◌>>=◌
unlinked_done = refl

abbrev root_children : Children
root_children = (bytes "a", 2) ∷ (bytes "f", 3) ∷ (bytes "h", 4) ∷ []

abbrev children_a : Children
children_a = (bytes "g", 3) ∷ []

root_has : children_of (get 1 tree.nodes) ≡ ok root_children
unfolding call new mkdir create_file link new_file_with new_dir_with validate_name get insert remove
    update ◌>>=◌
root_has = refl

a_has : children_of (get 2 tree.nodes) ≡ ok children_a
unfolding call new mkdir create_file link new_file_with new_dir_with validate_name get insert remove
    update ◌>>=◌
a_has = refl

a_valid : IsValidName (bytes "a")
unfolding validate_name
a_valid = refl

b_valid : IsValidName (bytes "b")
unfolding validate_name
b_valid = refl

a_in_root : get (bytes "a") root_children ≡ some 2
unfolding get
a_in_root = refl

b_free : get (bytes "b") children_a ≡ none
unfolding get
b_free = refl

root_not_a : ¬ (◌≡◌ {A = ℕ} 1 2)
root_not_a e = omega arith

rename_into_itself_example :
    (t : Inner) × (rename 1 (bytes "a") 2 (bytes "b") noon tree ≡ ok t)
    × (entry 2 (bytes "b") t.nodes ≡ some 2)
    × (entry 1 (bytes "a") t.nodes ≡ none)
rename_into_itself_example =
    rename_into_itself 1 (bytes "a") 2 (bytes "b") noon tree root_children children_a a_valid
      b_valid root_has a_in_root a_has b_free root_not_a

abbrev attr_a : FileAttr
attr_a = record (new_dir_with 2 (with_permissions 0o040000 493) 0 0 noon) { nlink = 2 }

a_found : get 2 tree.nodes ≡ some (directory attr_a children_a)
unfolding call new mkdir create_file link new_file_with new_dir_with validate_name get insert remove
    update ◌>>=◌
a_found = refl
