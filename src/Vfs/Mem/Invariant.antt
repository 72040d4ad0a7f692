-- ===== src/Vfs/Mem/Invariant.antt =====
-- Every operation of `MemFs` (crates/smfs-core/src/vfs/mem.rs) keeps its state sound.
use smfs.Prelude.{
  ℕ, ◌+◌, ◌-◌, ◌<◌, Option, none, some, List, [], ◌∷◌, ◌≡◌, inl, inr, refl, sym, arith, ltb,
  Bool-cases, Option-cases,
}
use smfs.Prelude.Eq.{Text, text_eq, nat_eq, ◌==◌}
use smfs.Prelude.Map.{Map, get, insert, AllRows-get}
use smfs.Prelude.Vec.{length-resize}
use smfs.Vfs.Error.{Result, ok, err, OnOk, OnOk-bind, OnOk-get, not_found}
use smfs.Vfs.Path.Components.{IsValidName}
use smfs.Vfs.Types.{
  Timestamp, FileAttr, SetAttr, file_type, type_bits, with_permissions, s_ifdir, s_ifreg,
  new_file_with, new_dir_with, new_symlink,
}
use smfs.Vfs.Mem.{
  Node, file, directory, symlink, Children, Inner, attr, new, touch, set_fields, set_size, link_new,
  mkdir, rmdir, create_file, unlink, symlink_at, link, rename, setattr, move, drop_link,
  children_of, child_of, check_not_dir, ok_or,
}
use smfs.Vfs.Mem.Handle.{file_of, write, truncate}
use smfs.Vfs.Mem.Calls.{Call, state_of, call, after, run}
use smfs.Vfs.Mem.Sound.{
  IsSoundNode, IsSound, IsSoundTable, IsEntry, one_more, new-IsSound, attr_mut_sound, put, cut,
  add_entry, drop_entry, change_attr, node_at,
}

abbrev table : (s : Inner) → IsSound s → IsSoundTable s.next_ino s.nodes
table s h = (h.unique, h.rows)

-- The inode number that a directory has under a name was given out before.
child_low :
    (s : Inner) (p i : ℕ) (name : Text) (c : Children)
    → IsSound s
    → children_of (get p s.nodes) ≡ ok c
    → child_of name c ≡ ok i
    → i < s.next_ino
child_low s p i name c h hc hi = elim (Option-cases (get p s.nodes)) [
  | inl gone ↦ absurd (ground (arith, gone))
  | inr (file a content, found) ↦ absurd (ground (arith, found))
  | inr (symlink a target, found) ↦ absurd (ground (arith, found))
  | inr (directory a children, found) ↦
      let same : children ≡ c = ground (arith, found) in
      let here : get name c ≡ some i = ground (arith, hi) in
      (AllRows-get (IsEntry s.next_ino) name i c here
        (rw (sym same) (node_at s.next_ino s.nodes (table s h) p (directory a children) found).4)).1
]

abbrev sound :
    (next : ℕ) (nodes : Map ℕ Node)
    → IsSoundTable next nodes
    → IsSound (record { nodes = nodes; next_ino = next })
sound next nodes t = record { unique = t.0; rows = t.1 }

link_new-IsSound :
    (p : ℕ) (name : Text) (node : Node) (f : FileAttr → FileAttr) (s : Inner)
    → IsSound s
    → IsValidName name
    → ((a : FileAttr) → ((f a).ino ≡ a.ino) × ((f a).mode ≡ a.mode))
    → IsSoundNode (s.next_ino + 1) s.next_ino node
    → IsSound (link_new p name node f s)
link_new-IsSound p name node f s h valid keeps n =
    let next = s.next_ino + 1 in
    let more = put next s.nodes (one_more s.next_ino s.nodes (table s h)) s.next_ino node n in
    sound next _ (
      add_entry next (insert s.next_ino node s.nodes) more p f name s.next_ino keeps valid
        (omega arith))

-- The type of a mode that a caller gave is the one of the operation.
dir_mode : (m : ℕ) → type_bits (with_permissions s_ifdir m) ≡ s_ifdir
dir_mode m = omega arith

file_mode : (m : ℕ) → type_bits (with_permissions s_ifreg m) ≡ s_ifreg
file_mode m = omega arith

mkdir-IsSound :
    (p : ℕ) (name : Text) (mode uid gid : ℕ) (now : Timestamp) (s : Inner)
    → IsSound s
    → OnOk (λ r. IsSound r.1) (mkdir p name mode uid gid now s)
unfolding mkdir OnOk new_dir_with file_type
mkdir-IsSound p name mode uid gid now s h = OnOk-bind _ _ _ (λ _ valid. OnOk-bind _ _ _ (λ c found.
    OnOk-bind _ _ _ (λ _ free.
      link_new-IsSound p name _ _ s h valid (λ a. (refl, refl))
        (omega arith, refl, rw (dir_mode mode) refl, tt, tt))))

create_file-IsSound :
    (p : ℕ) (name : Text) (mode uid gid : ℕ) (now : Timestamp) (s : Inner)
    → IsSound s
    → OnOk (λ r. IsSound r.1) (create_file p name mode uid gid now s)
unfolding create_file OnOk new_file_with file_type
create_file-IsSound p name mode uid gid now s h = OnOk-bind _ _ _ (λ _ valid.
    OnOk-bind _ _ _ (λ c found. OnOk-bind _ _ _ (λ _ free.
      link_new-IsSound p name _ _ s h valid (λ a. (refl, refl))
        (omega arith, refl, rw (file_mode mode) refl, refl))))

symlink_at-IsSound :
    (p : ℕ) (name target : Text) (uid gid : ℕ) (now : Timestamp) (s : Inner)
    → IsSound s
    → OnOk (λ r. IsSound r.1) (symlink_at p name target uid gid now s)
unfolding symlink_at OnOk new_symlink file_type
symlink_at-IsSound p name target uid gid now s h = OnOk-bind _ _ _ (λ _ valid.
    OnOk-bind _ _ _ (λ c found. OnOk-bind _ _ _ (λ _ free.
      link_new-IsSound p name _ _ s h valid (λ a. (refl, refl)) (omega arith, refl, refl, refl))))

rmdir-IsSound :
    (p : ℕ) (name : Text) (now : Timestamp) (s : Inner)
    → IsSound s
    → OnOk IsSound (rmdir p name now s)
unfolding rmdir OnOk
rmdir-IsSound p name now s h = OnOk-bind _ _ _ (λ _ valid. OnOk-bind _ _ _ (λ c found.
    OnOk-bind _ _ _ (λ i here. OnOk-bind _ _ _ (λ _ empty. sound s.next_ino _ (
      cut s.next_ino _ (drop_entry s.next_ino s.nodes (table s h) p _ name (λ a. (refl, refl)))
        i)))))

drop_link-sound :
    (next : ℕ) (nodes : Map ℕ Node) (now : Timestamp) (i : ℕ) (node : Node)
    → IsSoundTable next nodes
    → IsSoundTable next (drop_link now i node nodes)
unfolding file_type
drop_link-sound next nodes now i node h = elim (Bool-cases (ltb 1 (attr node).nlink)) [
  | inl more ↦ rw more (change_attr next nodes h i _ (λ a. (refl, refl, refl)))
  | inr last ↦ rw last (cut next nodes h i)
]

unlink-IsSound :
    (p : ℕ) (name : Text) (now : Timestamp) (s : Inner)
    → IsSound s
    → OnOk IsSound (unlink p name now s)
unfolding unlink OnOk
unlink-IsSound p name now s h = OnOk-bind _ _ _ (λ _ valid. OnOk-bind _ _ _ (λ c found.
    OnOk-bind _ _ _ (λ i here. OnOk-bind _ _ _ (λ node kind. sound s.next_ino _ (
      drop_link-sound s.next_ino _ now i node
        (drop_entry s.next_ino s.nodes (table s h) p _ name (λ a. (refl, refl))))))))

-- A node that is not a directory, as `check_not_dir` gives it.
pub not_dir_get : (o : Option Node) (node : Node) → check_not_dir o ≡ ok node → o ≡ some node
not_dir_get none node h = cc
not_dir_get (some (file a content)) node h = cc
not_dir_get (some (directory a children)) node h = cc
not_dir_get (some (symlink a target)) node h = cc

pub node_low : (next i : ℕ) (node : Node) → IsSoundNode next i node → i < next
node_low next i (file a content) h = h.0
node_low next i (directory a children) h = h.0
node_low next i (symlink a target) h = h.0

link-IsSound :
    (ino p : ℕ) (name : Text) (now : Timestamp) (s : Inner)
    → IsSound s
    → OnOk (λ r. IsSound r.1) (link ino p name now s)
unfolding link file_type OnOk
link-IsSound ino p name now s h = OnOk-bind _ _ _ (λ _ valid. OnOk-bind _ _ _ (λ node kind.
    OnOk-bind _ _ _ (λ c found. OnOk-bind _ _ _ (λ _ free.
      let next = s.next_ino in
      let here = node_at next s.nodes (table s h) ino node (not_dir_get _ node kind) in
      sound next _ (
        add_entry next _
          (put next s.nodes (table s h) ino _
            (attr_mut_sound next _ ino node (λ a. (refl, refl, refl)) here))
          p (touch now) name ino (λ a. (refl, refl)) valid (node_low next ino node here))))))

move-sound :
    (next : ℕ) (nodes : Map ℕ Node) (p : ℕ) (name : Text) (q : ℕ) (other : Text) (i : ℕ)
    (now : Timestamp)
    → IsSoundTable next nodes
    → IsValidName other
    → i < next
    → IsSoundTable next (move p name q other i now nodes)
unfolding move file_type
move-sound next nodes p name q other i now h valid low =
    let less = drop_entry next nodes h p (touch now) name (λ a. (refl, refl)) in
    let more = add_entry next _ less q (touch now) other i (λ a. (refl, refl)) valid low in
    change_attr next _ more i _ (λ a. (refl, refl, refl))

rename-IsSound :
    (p : ℕ) (name : Text) (q : ℕ) (other : Text) (now : Timestamp) (s : Inner)
    → IsSound s
    → OnOk IsSound (rename p name q other now s)
unfolding rename OnOk
rename-IsSound p name q other now s h = OnOk-bind _ _ _ (λ _ valid.
    OnOk-bind _ _ _ (λ _ valid_other. OnOk-bind _ _ _ (λ c found. OnOk-bind _ _ _ (λ i here.
      OnOk-bind _ _ _ (λ d target.
        let low = child_low s p i name c h found here in
        elim (Option-cases (get other d)) [
          | inl free ↦ rw free (
              sound s.next_ino _
                (move-sound s.next_ino s.nodes p name q other i now (table s h) valid_other low))
          | inr (j, taken) ↦ rw taken (elim (Bool-cases (j == i)) [
            | inl same ↦ rw same h
            | inr differ ↦ rw differ (
                OnOk-bind _ _ _ (λ _ replaces. sound s.next_ino _ (
                  move-sound s.next_ino _ p name q other i now
                    (cut s.next_ino s.nodes (table s h) j) valid_other low)))
          ])
        ])))))

-- The type of a file stays under a change of its mode.
type_bits-kept : (a m : ℕ) → type_bits (type_bits a + (m - type_bits m)) ≡ type_bits a
type_bits-kept a m = omega arith

set_fields-IsKind :
    (now : Timestamp) (r : SetAttr) (a : FileAttr)
    → ((set_fields now r a).ino ≡ a.ino)
      × (file_type (set_fields now r a) ≡ file_type a)
      × ((set_fields now r a).size ≡ a.size)
unfolding set_fields file_type
set_fields-IsKind now r a = elim (Option-cases r.mode) [
  | inl keep ↦ rw keep (refl, refl, refl)
  | inr (m, change) ↦ rw (change, type_bits-kept a.mode m) (refl, refl, refl)
]

set_size_sound :
    (next i : ℕ) (size : Option ℕ) (node : Node)
    → IsSoundNode next i node
    → OnOk (IsSoundNode next i) (set_size size node)
unfolding set_size file_type OnOk
set_size_sound next i none node h = h
set_size_sound next i (some n) (file a content) h = (h.0, h.1, h.2, sym (length-resize n content))
set_size_sound next i (some n) (directory a children) h = tt
set_size_sound next i (some n) (symlink a target) h = tt

ok_or_get : (o : Option Node) (node : Node) → ok_or not_found o ≡ ok node → o ≡ some node
ok_or_get none node h = cc
ok_or_get (some n) node h = cc

setattr-IsSound :
    (ino : ℕ) (r : SetAttr) (now : Timestamp) (s : Inner)
    → IsSound s
    → OnOk (λ t. IsSound t.1) (setattr ino r now s)
unfolding setattr OnOk
setattr-IsSound ino r now s h = OnOk-bind _ _ _ (λ node found. OnOk-bind _ _ _ (λ sized resized.
    let next = s.next_ino in
    let here = node_at next s.nodes (table s h) ino node (ok_or_get _ node found) in
    let kept =
      OnOk-get (IsSoundNode next ino) _ sized resized (set_size_sound next ino r.size node here) in
    sound next _ (
      put next s.nodes (table s h) ino _
        (attr_mut_sound next (set_fields now r) ino sized (set_fields-IsKind now r) kept))))

pub file_of_get :
    (o : Option Node) (a : FileAttr) (content : List ℕ)
    → file_of o ≡ ok (a, content)
    → o ≡ some (file a content)
file_of_get none a content h = cc
file_of_get (some (file b other)) a content h = cc
file_of_get (some (directory b children)) a content h = cc
file_of_get (some (symlink b target)) a content h = cc

write-IsSound :
    (ino offset : ℕ) (payload : List ℕ) (now : Timestamp) (s : Inner)
    → IsSound s
    → OnOk (λ t. IsSound t.1) (write ino offset payload now s)
unfolding write file_type OnOk
write-IsSound ino offset payload now s h = OnOk-bind _ _ _ (λ p found.
    let next = s.next_ino in
    let here = node_at next s.nodes (table s h) ino (file p.0 p.1) (file_of_get _ p.0 p.1 found) in
    sound next _ (put next s.nodes (table s h) ino _ (here.0, here.1, here.2, refl)))

truncate-IsSound :
    (ino size : ℕ) (now : Timestamp) (s : Inner)
    → IsSound s
    → OnOk IsSound (truncate ino size now s)
unfolding truncate file_type OnOk
truncate-IsSound ino size now s h = OnOk-bind _ _ _ (λ p found.
    let next = s.next_ino in
    let here = node_at next s.nodes (table s h) ino (file p.0 p.1) (file_of_get _ p.0 p.1 found) in
    sound next _
      (put next s.nodes (table s h) ino _ (here.0, here.1, here.2, sym (length-resize size p.1))))

state_of-OnOk :
    {A : Type 0} (m : Result (A × Inner)) → OnOk (λ t. IsSound t.1) m → OnOk IsSound (state_of m)
unfolding OnOk
state_of-OnOk (ok t) h = h
state_of-OnOk (err e) h = tt

call-IsSound : (c : Call) (now : Timestamp) (s : Inner) → IsSound s → OnOk IsSound (call c now s)
unfolding call
call-IsSound (Call.set_attributes ino r) now s h = state_of-OnOk _ (setattr-IsSound ino r now s h)
call-IsSound (Call.make_dir p name mode uid gid) now s h =
    state_of-OnOk _ (mkdir-IsSound p name mode uid gid now s h)
call-IsSound (Call.make_file p name mode uid gid) now s h =
    state_of-OnOk _ (create_file-IsSound p name mode uid gid now s h)
call-IsSound (Call.remove_dir p name) now s h = rmdir-IsSound p name now s h
call-IsSound (Call.remove_file p name) now s h = unlink-IsSound p name now s h
call-IsSound (Call.make_symlink p name target uid gid) now s h =
    state_of-OnOk _ (symlink_at-IsSound p name target uid gid now s h)
call-IsSound (Call.make_link ino p name) now s h = state_of-OnOk _ (link-IsSound ino p name now s h)
call-IsSound (Call.move_entry p name q other) now s h = rename-IsSound p name q other now s h
call-IsSound (Call.write_file ino offset payload) now s h =
    state_of-OnOk _ (write-IsSound ino offset payload now s h)
call-IsSound (Call.truncate_file ino size) now s h = truncate-IsSound ino size now s h

after-IsSound : (s : Inner) (m : Result Inner) → IsSound s → OnOk IsSound m → IsSound (after s m)
unfolding OnOk
after-IsSound s (ok t) h ht = ht
after-IsSound s (err e) h ht = h

run-sound : (calls : List (Call × Timestamp)) (s : Inner) → IsSound s → IsSound (run calls s)
run-sound [] s h = h
run-sound ((c, now) ∷ calls) s h =
    run-sound calls _ (after-IsSound s (call c now s) h (call-IsSound c now s h))

-- After any sequence of calls on a new file system, whichever of them fail, the nodes have
-- different inode numbers that were all given out; each node carries its own inode number and the
-- type of its kind in its mode; the size of a file or a symbolic link is the length of its content
-- or target; and a directory has each name once, under which stands an inode number that was
-- given out, and every name is valid.
pub run-IsSound :
    (start : Timestamp) (calls : List (Call × Timestamp)) → IsSound (run calls (new start))
run-IsSound start calls = run-sound calls (new start) (new-IsSound start)
