-- ===== src/Vfs/Mem/Entries.antt =====
-- What the operations of `MemFs` (crates/smfs-core/src/vfs/mem.rs) do to the entries of all
-- directories.
use smfs.Prelude.{
  ℕ, false, ◌&&◌, Option, none, some, [], ◌∷◌, ◌≡◌, inl, inr, refl, sym, ap, ◌∙◌, arith, eqb_iff,
  if◌then◌else◌, Bool-cases, Option-cases,
}
use mathlib.Core.Option
use smfs.Prelude.Eq.{Text, text_eq, nat_eq, ◌==◌}
use smfs.Prelude.Map.{Map, get, insert, remove, update, get-insert, get-remove, get-update}
use smfs.Vfs.Error.{ok, OnOk, OnOk-bind, OnOk-get}
use smfs.Vfs.Types.{Timestamp, FileAttr}
use smfs.Vfs.Mem.{
  Node, file, directory, symlink, Children, Inner, attr_mut, change_dir, touch, rename, move,
  children_of, child_of, check_replace, node_is_directory,
}

abbrev pub entry_of : Option Node → Text → Option ℕ
entry_of (some (directory a children)) name = get name children
entry_of _ name = none

-- The inode number under a name in a directory.
unfoldable pub entry : ℕ → Text → Map ℕ Node → Option ℕ
entry p name nodes = entry_of (get p nodes) name

pub entry-change_attr :
    (i : ℕ) (f : FileAttr → FileAttr) (nodes : Map ℕ Node) (p : ℕ) (name : Text)
    → entry p name (update i (attr_mut f) nodes) ≡ entry p name nodes
unfolding entry
entry-change_attr i f nodes p name = elim (Bool-cases (i == p)) [
  | inr other ↦ rw (get-update i p (attr_mut f) nodes, other) refl
  | inl same ↦
      rw (get-update i p (attr_mut f) nodes, same)
        (elim (get p nodes) as (λ o. entry_of (Option.map (attr_mut f) o) name ≡ entry_of o name) [
          | none ↦ refl
          | some (file a content) ↦ refl
          | some (directory a children) ↦ refl
          | some (symlink a target) ↦ refl
        ])
]

pub entry-drop :
    (q : ℕ) (f : FileAttr → FileAttr) (m : Text) (nodes : Map ℕ Node) (p : ℕ) (name : Text)
    → entry p name (update q (change_dir f (remove m)) nodes)
      ≡ (if (q == p) && (m == name) then none else entry p name nodes)
unfolding entry
entry-drop q f m nodes p name = elim (Bool-cases (q == p)) [
  | inr other ↦ rw (get-update q p (change_dir f (remove m)) nodes, other) refl
  | inl same ↦
      rw (get-update q p (change_dir f (remove m)) nodes, same)
        (elim (get p nodes)
          as (λ o.
            entry_of (Option.map (change_dir f (remove m)) o) name
            ≡ (if m == name then none else entry_of o name)) [
              | none ↦ ground arith
              | some (file a content) ↦ ground arith
              | some (directory a children) ↦ get-remove m name children
              | some (symlink a target) ↦ ground arith
            ])
]

entry_of-insert :
    (f : FileAttr → FileAttr) (m : Text) (i : ℕ) (o : Option Node) (d : Children) (name : Text)
    → children_of o ≡ ok d
    → entry_of (Option.map (change_dir f (insert m i)) o) name
      ≡ (if m == name then some i else entry_of o name)
entry_of-insert f m i none d name h = cc
entry_of-insert f m i (some (file a content)) d name h = cc
entry_of-insert f m i (some (directory a children)) d name h = get-insert m name i children
entry_of-insert f m i (some (symlink a target)) d name h = cc

pub entry-add :
    (q : ℕ) (f : FileAttr → FileAttr) (m : Text) (i : ℕ) (nodes : Map ℕ Node) (d : Children) (p : ℕ)
    (name : Text)
    → children_of (get q nodes) ≡ ok d
    → entry p name (update q (change_dir f (insert m i)) nodes)
      ≡ (if (q == p) && (m == name) then some i else entry p name nodes)
unfolding entry
entry-add q f m i nodes d p name dir = elim (Bool-cases (q == p)) [
  | inr other ↦ rw (get-update q p (change_dir f (insert m i)) nodes, other) refl
  | inl same ↦
      let at : q ≡ p = (eqb_iff q p).0 same in
      rw (get-update q p (change_dir f (insert m i)) nodes, same)
        (entry_of-insert f m i (get p nodes) d name
          (ap (λ j. children_of (get j nodes)) (sym at) ∙ dir))
]

-- A directory stays one under a change of its entries, and under a change of another node.
still_dir :
    (f : FileAttr → FileAttr) (g : Children → Children) (o : Option Node) (d : Children)
    → children_of o ≡ ok d
    → (e : Children) × (children_of (Option.map (change_dir f g) o) ≡ ok e)
still_dir f g none d h = cc
still_dir f g (some (file a content)) d h = cc
still_dir f g (some (directory a children)) d h = (g children, refl)
still_dir f g (some (symlink a target)) d h = cc

dir-update :
    (p q : ℕ) (f : FileAttr → FileAttr) (g : Children → Children) (nodes : Map ℕ Node)
    (d : Children)
    → children_of (get q nodes) ≡ ok d
    → (e : Children) × (children_of (get q (update p (change_dir f g) nodes)) ≡ ok e)
dir-update p q f g nodes d h = elim (Bool-cases (p == q)) [
  | inl same ↦ rw (get-update p q (change_dir f g) nodes, same) (still_dir f g (get q nodes) d h)
  | inr other ↦ rw (get-update p q (change_dir f g) nodes, other) (d, h)
]

-- What a table of entries is after an entry has moved.
abbrev pub moved : ℕ → Text → ℕ → Text → ℕ → ℕ → Text → Option ℕ → Option ℕ
moved p n q m i at name before =
    if (q == at) && (m == name) then some i else if (p == at) && (n == name) then none else before

pub move-entry :
    (p : ℕ) (n : Text) (q : ℕ) (m : Text) (i : ℕ) (now : Timestamp) (nodes : Map ℕ Node)
    (d : Children) (at : ℕ) (name : Text)
    → children_of (get q nodes) ≡ ok d
    → entry at name (move p n q m i now nodes) ≡ moved p n q m i at name (entry at name nodes)
unfolding move
move-entry p n q m i now nodes d at name h =
    let less = update p (change_dir (touch now) (remove n)) nodes in
    let (e, he) = dir-update p q (touch now) (remove n) nodes d h in
    entry-change_attr i _ (update q (change_dir (touch now) (insert m i)) less) at name
    ∙ entry-add q (touch now) m i less e at name he
    ∙ rw (entry-drop p (touch now) n nodes at name) refl

pub entry-remove :
    (j : ℕ) (nodes : Map ℕ Node) (at : ℕ) (name : Text)
    → entry at name (remove j nodes) ≡ (if j == at then none else entry at name nodes)
unfolding entry
entry-remove j nodes at name = elim (Bool-cases (j == at)) [
  | inr other ↦ rw (get-remove j at nodes, other) refl
  | inl same ↦ rw (get-remove j at nodes, same) refl
]

-- A node that a rename replaces has no entries.
replaced_empty :
    (src dst : Option Node) (name : Text) → check_replace src dst ≡ ok tt → entry_of dst name ≡ none
unfolding check_replace get
replaced_empty src none name h = refl
replaced_empty src (some (file a content)) name h = refl
replaced_empty src (some (directory a [])) name h = refl
replaced_empty src (some (directory a (e ∷ rest))) name h =
    absurd (elim (Bool-cases (node_is_directory src)) [
      | inl dir ↦ ground (arith, dir)
      | inr not_dir ↦ ground (arith, not_dir)
    ])
replaced_empty src (some (symlink a target)) name h = refl

removed-entry :
    (src : Option Node) (j : ℕ) (nodes : Map ℕ Node) (at : ℕ) (name : Text)
    → check_replace src (get j nodes) ≡ ok tt
    → entry at name (remove j nodes) ≡ entry at name nodes
unfolding entry
removed-entry src j nodes at name h = elim (Bool-cases (j == at)) [
  | inr other ↦ rw (get-remove j at nodes, other) refl
  | inl same ↦
      let here : j ≡ at = (eqb_iff j at).0 same in
      rw (get-remove j at nodes, same)
        (sym (
          replaced_empty src (get at nodes) name
            (ap (λ k. check_replace src (get k nodes)) (sym here) ∙ h)))
]

pub entry_of-children :
    (o : Option Node) (c : Children) (name : Text)
    → children_of o ≡ ok c
    → entry_of o name ≡ get name c
entry_of-children none c name h = cc
entry_of-children (some (file a content)) c name h = cc
entry_of-children (some (directory a children)) c name h =
    let same : children ≡ c = cc h in ap (get name) same
entry_of-children (some (symlink a target)) c name h = cc

pub child_of-get :
    (name : Text) (c : Children) (i : ℕ) → child_of name c ≡ ok i → get name c ≡ some i
child_of-get name c i h = elim (Option-cases (get name c)) [
  | inl gone ↦ absurd (ground (arith, gone))
  | inr (j, found) ↦ ground (arith, found)
]

abbrev IsMoved : ℕ → Text → ℕ → Text → Inner → Inner → Type 0
IsMoved p n q m s t =
    (i : ℕ)
    → entry p n s.nodes ≡ some i
    → ¬ (entry q m s.nodes ≡ some i)
    → (at : ℕ) (name : Text)
    → entry at name t.nodes ≡ moved p n q m i at name (entry at name s.nodes)

rename-IsMoved :
    (p : ℕ) (n : Text) (q : ℕ) (m : Text) (now : Timestamp) (s : Inner)
    → OnOk (IsMoved p n q m s) (rename p n q m now s)
unfolding rename OnOk entry
rename-IsMoved p n q m now s = OnOk-bind _ _ _ (λ _ valid. OnOk-bind _ _ _ (λ _ valid_other.
    OnOk-bind _ _ _ (λ c found. OnOk-bind _ _ _ (λ k here. OnOk-bind _ _ _ (λ d target.
      let source : entry p n s.nodes ≡ some k =
        entry_of-children _ c n found ∙ child_of-get n c k here in
      let dest = entry_of-children (get q s.nodes) d m target in
      elim (Option-cases (get m d)) [
        | inl free ↦ rw free (λ i e_src other at name.
            let same : k ≡ i = cc (source, e_src) in
            rw (sym same) (move-entry p n q m k now s.nodes d at name target))
        | inr (j, taken) ↦ rw taken (elim (Bool-cases (j == k)) [
          | inl same ↦ rw same (λ i e_src other at name.
              let jk : j ≡ k = (eqb_iff j k).0 same in
              absurd (other (dest ∙ taken ∙ ap some jk ∙ sym source ∙ e_src)))
          | inr differ ↦ rw differ (
              OnOk-bind _ _ _ (λ _ replaces. λ i e_src other at name.
                let same : k ≡ i = cc (source, e_src) in
                let apart : ¬ (j ≡ q) = λ jq.
                  let empty = replaced_empty (get k s.nodes) (get j s.nodes) m replaces in
                  let there = dest ∙ taken in cc (jq, empty, there) in
                let elsewhere : (j == q) ≡ false = ground (arith, apart) in
                let kept : children_of (get q (remove j s.nodes)) ≡ ok d =
                  rw (get-remove j q s.nodes, elsewhere) target in
                rw (sym same) (
                  move-entry p n q m k now (remove j s.nodes) d at name kept
                  ∙ ap (moved p n q m k at name)
                      (removed-entry (get k s.nodes) j s.nodes at name replaces))))
        ])
      ])))))

-- A rename that succeeds, of an entry that does not already stand under the new name too, moves
-- exactly that entry: the new name has the old name's inode number, the old name is free, and
-- every other entry of every directory is as before.
pub rename_moves :
    (p : ℕ) (n : Text) (q : ℕ) (m : Text) (now : Timestamp) (s t : Inner) (i at : ℕ) (name : Text)
    → rename p n q m now s ≡ ok t
    → entry p n s.nodes ≡ some i
    → ¬ (entry q m s.nodes ≡ some i)
    → entry at name t.nodes ≡ moved p n q m i at name (entry at name s.nodes)
rename_moves p n q m now s t i at name done source other =
    OnOk-get (IsMoved p n q m s) _ t done (rename-IsMoved p n q m now s) i source other at name
