-- ===== src/Vfs/Mem/Changes.antt =====
-- What creating and removing a name does to the entries of `MemFs`
-- (crates/smfs-core/src/vfs/mem.rs).
use smfs.Prelude.{
  ℕ, ◌-◌, false, ◌&&◌, Option, none, some, ◌≡◌, inl, inr, refl, sym, ap, ◌∙◌, arith, ltb, eqb_iff,
  if◌then◌else◌, Bool-cases, Option-cases,
}
use smfs.Prelude.Eq.{Text, text_eq, nat_eq, ◌==◌, beq_refl}
use smfs.Prelude.Map.{Map, get, insert, remove, update, get-insert, get-remove, get-update}
use smfs.Vfs.Error.{ok, OnOk, OnOk-bind, OnOk-get}
use smfs.Vfs.Types.{Timestamp, FileAttr, new_file_with, new_dir_with}
use smfs.Vfs.Mem.{
  Node, file, directory, symlink, Children, Inner, attr, attr_mut, change_dir, touch, link_new,
  mkdir, create_file, unlink, drop_link, children_of, check_free, check_not_dir,
}
use smfs.Vfs.Mem.Sound.{IsSound, node_at}
use smfs.Vfs.Mem.Entries.{
  entry, entry_of, entry-add, entry-drop, entry-change_attr, entry-remove, entry_of-children,
  child_of-get,
}
use smfs.Vfs.Mem.Invariant.{not_dir_get, node_low}

-- No node stands under the next inode number.
fresh : (s : Inner) → IsSound s → get s.next_ino s.nodes ≡ none
fresh s h = elim (Option-cases (get s.next_ino s.nodes)) [
  | inl free ↦ free
  | inr (node, taken) ↦ absurd (
      omega (
        arith,
        node_low s.next_ino s.next_ino node
            (node_at s.next_ino s.nodes (h.unique, h.rows) s.next_ino node taken),
      ))
]

entry-insert :
    (i : ℕ) (node : Node) (nodes : Map ℕ Node) (at : ℕ) (name : Text)
    → get i nodes ≡ none
    → entry_of (some node) name ≡ none
    → entry at name (insert i node nodes) ≡ entry at name nodes
unfolding entry
entry-insert i node nodes at name free no_entry = elim (Bool-cases (i == at)) [
  | inr other ↦ rw (get-insert i at node nodes, other) refl
  | inl same ↦
      let here : i ≡ at = (eqb_iff i at).0 same in
      let none_before : get at nodes ≡ none = ap (λ j. get j nodes) (sym here) ∙ free in
      rw (get-insert i at node nodes, same, none_before) no_entry
]

abbrev pub added : ℕ → Text → ℕ → ℕ → Text → Option ℕ → Option ℕ
added p n i at name before = if (p == at) && (n == name) then some i else before

link_new-entry :
    (p : ℕ) (n : Text) (node : Node) (f : FileAttr → FileAttr) (s : Inner) (c : Children) (at : ℕ)
    (name : Text)
    → IsSound s
    → entry_of (some node) name ≡ none
    → children_of (get p s.nodes) ≡ ok c
    → entry at name (link_new p n node f s).nodes
      ≡ added p n s.next_ino at name (entry at name s.nodes)
link_new-entry p n node f s c at name h no_entry dir =
    let free = fresh s h in
    let other : (s.next_ino == p) ≡ false = elim (Bool-cases (s.next_ino == p)) [
      | inr differ ↦ differ
      | inl same ↦
          let here : s.next_ino ≡ p = (eqb_iff s.next_ino p).0 same in
          absurd (cc (dir, ap (λ j. children_of (get j s.nodes)) here, ap children_of free))
    ] in
    let kept : children_of (get p (insert s.next_ino node s.nodes)) ≡ ok c =
      rw (get-insert s.next_ino p node s.nodes, other) dir in
    entry-add p f n s.next_ino (insert s.next_ino node s.nodes) c at name kept
    ∙ ap (added p n s.next_ino at name) (entry-insert s.next_ino node s.nodes at name free no_entry)

abbrev IsAdded : ℕ → Text → Inner → FileAttr → Inner → Type 0
IsAdded p n s a t =
    (at : ℕ) (name : Text)
    → (a.ino ≡ s.next_ino)
      × (entry p n s.nodes ≡ none)
      × (entry at name t.nodes ≡ added p n s.next_ino at name (entry at name s.nodes))

free_get : (n : Text) (c : Children) → check_free n c ≡ ok tt → get n c ≡ none
free_get n c h = elim (Option-cases (get n c)) [
  | inl free ↦ free
  | inr (j, taken) ↦ absurd (ground (arith, taken))
]

create_file-IsAdded :
    (p : ℕ) (n : Text) (mode uid gid : ℕ) (now : Timestamp) (s : Inner)
    → IsSound s
    → OnOk (λ r. IsAdded p n s r.0.0 r.1) (create_file p n mode uid gid now s)
unfolding create_file new_file_with OnOk entry
create_file-IsAdded p n mode uid gid now s h = OnOk-bind _ _ _ (λ _ valid. OnOk-bind _ _ _ (λ c dir.
    OnOk-bind _ _ _ (λ _ free. λ at name. (
      refl,
      entry_of-children _ c n dir ∙ free_get n c free,
      link_new-entry p n _ _ s c at name h refl dir,
    ))))

mkdir-IsAdded :
    (p : ℕ) (n : Text) (mode uid gid : ℕ) (now : Timestamp) (s : Inner)
    → IsSound s
    → OnOk (λ r. IsAdded p n s r.0 r.1) (mkdir p n mode uid gid now s)
unfolding mkdir new_dir_with OnOk entry get
mkdir-IsAdded p n mode uid gid now s h = OnOk-bind _ _ _ (λ _ valid. OnOk-bind _ _ _ (λ c dir.
    OnOk-bind _ _ _ (λ _ free. λ at name. (
      refl,
      entry_of-children _ c n dir ∙ free_get n c free,
      link_new-entry p n _ _ s c at name h refl dir,
    ))))

-- Creating a file adds one entry, which had no entry before, with an inode number that is new, and
-- which the returned attributes carry; every other entry of every directory is as before.
pub create_file_adds :
    (p : ℕ) (n : Text) (mode uid gid : ℕ) (now : Timestamp) (s t : Inner) (a : FileAttr)
    (handle at : ℕ) (name : Text)
    → IsSound s
    → create_file p n mode uid gid now s ≡ ok ((a, handle), t)
    → (a.ino ≡ s.next_ino)
      × (entry p n s.nodes ≡ none)
      × (entry at name t.nodes ≡ added p n s.next_ino at name (entry at name s.nodes))
create_file_adds p n mode uid gid now s t a handle at name h done =
    OnOk-get (λ r. IsAdded p n s r.0.0 r.1) _ ((a, handle), t) done
      (create_file-IsAdded p n mode uid gid now s h) at name

-- Making a directory adds one entry in the same way.
pub mkdir_adds :
    (p : ℕ) (n : Text) (mode uid gid : ℕ) (now : Timestamp) (s t : Inner) (a : FileAttr) (at : ℕ)
    (name : Text)
    → IsSound s
    → mkdir p n mode uid gid now s ≡ ok (a, t)
    → (a.ino ≡ s.next_ino)
      × (entry p n s.nodes ≡ none)
      × (entry at name t.nodes ≡ added p n s.next_ino at name (entry at name s.nodes))
mkdir_adds p n mode uid gid now s t a at name h done =
    OnOk-get (λ r. IsAdded p n s r.0 r.1) _ (a, t) done (mkdir-IsAdded p n mode uid gid now s h) at
      name

abbrev pub nlink_after : Option Node → Option ℕ
nlink_after none = none
nlink_after (some node) = if ltb 1 (attr node).nlink then some ((attr node).nlink - 1) else none

abbrev pub nlink_of : Option Node → Option ℕ
nlink_of none = none
nlink_of (some node) = some (attr node).nlink

abbrev IsUnlinked : ℕ → Text → Inner → Inner → Type 0
IsUnlinked p n s t =
    (i at : ℕ) (name : Text)
    → entry p n s.nodes ≡ some i
    → (entry at name t.nodes ≡ (if (p == at) && (n == name) then none else entry at name s.nodes))
      × (nlink_of (get i t.nodes) ≡ nlink_after (get i s.nodes))

entry-drop_link :
    (now : Timestamp) (i : ℕ) (node : Node) (nodes : Map ℕ Node) (at : ℕ) (name : Text)
    → check_not_dir (get i nodes) ≡ ok node
    → entry at name (drop_link now i node nodes) ≡ entry at name nodes
unfolding entry
entry-drop_link now i node nodes at name kind = elim (Bool-cases (ltb 1 (attr node).nlink)) [
  | inl more ↦ rw more (entry-change_attr i _ nodes at name)
  | inr last ↦ rw last (elim (Bool-cases (i == at)) [
    | inr other ↦ entry-remove i nodes at name ∙ rw other refl
    | inl same ↦
        let here : i ≡ at = (eqb_iff i at).0 same in
        entry-remove i nodes at name
        ∙ rw same (
            sym (
              no_entries (get at nodes) node name
                (ap (λ j. check_not_dir (get j nodes)) (sym here) ∙ kind)))
  ])
]
  where
    no_entries :
        (o : Option Node) (m : Node) (w : Text) → check_not_dir o ≡ ok m → entry_of o w ≡ none
    no_entries none m w h = refl
    no_entries (some (file a content)) m w h = refl
    no_entries (some (directory a children)) m w h = cc
    no_entries (some (symlink a target)) m w h = refl

nlink-drop_link :
    (now : Timestamp) (i : ℕ) (node : Node) (nodes : Map ℕ Node)
    → get i nodes ≡ some node
    → nlink_of (get i (drop_link now i node nodes)) ≡ nlink_after (some node)
nlink-drop_link now i node nodes found = elim (Bool-cases (ltb 1 (attr node).nlink)) [
  | inl more ↦
      let f : Node → Node = attr_mut (λ a. record a { nlink = a.nlink - 1; ctime = now }) in
      rw more (rw (get-update i i f nodes, beq_refl i, found) (less node))
  | inr last ↦ rw last (rw (get-remove i i nodes, beq_refl i) refl)
]
  where
    less :
        (m : Node)
        → nlink_of (some (attr_mut (λ a. record a { nlink = a.nlink - 1; ctime = now }) m))
          ≡ some ((attr m).nlink - 1)
    less (file a content) = refl
    less (directory a children) = refl
    less (symlink a target) = refl

dir_not_file :
    (nodes : Map ℕ Node) (p i : ℕ) (c : Children) (node : Node)
    → children_of (get p nodes) ≡ ok c
    → check_not_dir (get i nodes) ≡ ok node
    → (p == i) ≡ false
dir_not_file nodes p i c node dir kind = elim (Bool-cases (p == i)) [
  | inr differ ↦ differ
  | inl same ↦
      let here : p ≡ i = (eqb_iff p i).0 same in
      absurd (clash (get i nodes) (ap (λ j. children_of (get j nodes)) (sym here) ∙ dir) kind)
]
  where
    clash : (o : Option Node) → children_of o ≡ ok c → check_not_dir o ≡ ok node → ⊥
    clash none d k = cc
    clash (some (file a content)) d k = cc
    clash (some (directory a children)) d k = cc
    clash (some (symlink a target)) d k = cc

unlink-IsUnlinked :
    (p : ℕ) (n : Text) (now : Timestamp) (s : Inner) → OnOk (IsUnlinked p n s) (unlink p n now s)
unfolding unlink OnOk entry
unlink-IsUnlinked p n now s = OnOk-bind _ _ _ (λ _ valid. OnOk-bind _ _ _ (λ c dir.
    OnOk-bind _ _ _ (λ k here. OnOk-bind _ _ _ (λ node kind. λ i at name e.
      let source : entry p n s.nodes ≡ some k =
        entry_of-children _ c n dir ∙ child_of-get n c k here in
      let same : k ≡ i = cc (source, e) in
      let g : Node → Node = change_dir (touch now) (remove n) in
      let less = update p g s.nodes in
      let before = not_dir_get (get k s.nodes) node kind in
      let other = dir_not_file s.nodes p k c node dir kind in
      let found : get k less ≡ some node = rw (get-update p k g s.nodes, other) before in
      let kind_less : check_not_dir (get k less) ≡ ok node =
        ap check_not_dir (found ∙ sym before) ∙ kind in
      (
        entry-drop_link now k node less at name kind_less
            ∙ entry-drop p (touch now) n s.nodes at name,
        rw (sym same) (nlink-drop_link now k node less found ∙ ap nlink_after (sym before)),
      )))))

-- Removing a name removes that entry and no other of any directory, and leaves its node one link
-- less, or no node where that was the last link.
pub unlink_removes :
    (p : ℕ) (n : Text) (now : Timestamp) (s t : Inner) (i at : ℕ) (name : Text)
    → unlink p n now s ≡ ok t
    → entry p n s.nodes ≡ some i
    → (entry at name t.nodes ≡ (if (p == at) && (n == name) then none else entry at name s.nodes))
      × (nlink_of (get i t.nodes) ≡ nlink_after (get i s.nodes))
unlink_removes p n now s t i at name done source =
    OnOk-get (IsUnlinked p n s) _ t done (unlink-IsUnlinked p n now s) i at name source
