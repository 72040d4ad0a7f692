-- ===== src/Vfs/Mem/Sound.antt =====
-- The state of `MemFs` (crates/smfs-core/src/vfs/mem.rs) is sound: every node knows its own inode
-- number, type and size, and every directory entry has a valid name.
use smfs.Prelude.{ℕ, ◌+◌, ◌<◌, some, ◌≡◌, refl, ◌∙◌, arith, length}
use smfs.Prelude.Eq.{Text, text_eq, nat_eq}
use smfs.Prelude.Map.{
  Map, get, insert, remove, update, UniqueKeys, UniqueKeys-insert, UniqueKeys-remove,
  UniqueKeys-update, AllRows, AllRows-insert, AllRows-remove, AllRows-update, AllRows-get,
  AllRows-weaken,
}
use smfs.Vfs.Path.Components.{IsValidName}
use smfs.Vfs.Types.{Timestamp, FileAttr, FileType, regular, file_type, new_dir_with}
use smfs.Vfs.Mem.{Node, file, directory, symlink, Children, Inner, attr_mut, new, change_dir}

abbrev pub IsEntry : ℕ → Text → ℕ → Type 0
IsEntry next name i = IsValidName name × (i < next)

abbrev pub IsSoundNode : ℕ → ℕ → Node → Type 0
IsSoundNode next i (file a content) =
    (i < next) × (a.ino ≡ i) × (file_type a ≡ regular) × (a.size ≡ length content)
IsSoundNode next i (directory a children) =
    (i < next)
    × (a.ino ≡ i)
    × (file_type a ≡ FileType.directory)
    × UniqueKeys children
    × AllRows (IsEntry next) children
IsSoundNode next i (symlink a target) =
    (i < next) × (a.ino ≡ i) × (file_type a ≡ FileType.symlink) × (a.size ≡ length target)

pub record IsSound (s : Inner) : Type 0 where
  pub unique : UniqueKeys s.nodes
  pub rows : AllRows (IsSoundNode s.next_ino) s.nodes

IsSoundNode-weaken :
    (next i : ℕ) (node : Node) → IsSoundNode next i node → IsSoundNode (next + 1) i node
IsSoundNode-weaken next i (file a content) h = (omega arith, h.1, h.2, h.3)
IsSoundNode-weaken next i (directory a children) h = (
  omega arith,
  h.1,
  h.2,
  h.3,
  AllRows-weaken (IsEntry next) (IsEntry (next + 1)) children
      (λ name j e. (e.0, omega (arith, e.1))) h.4,
)
IsSoundNode-weaken next i (symlink a target) h = (omega arith, h.1, h.2, h.3)

pub new-IsSound : (now : Timestamp) → IsSound (new now)
unfolding new new_dir_with file_type get
new-IsSound now = record { unique = (refl, tt); rows = ((omega arith, refl, refl, tt, tt), tt) }

-- A change of the parent's entries and times keeps its node sound.
change_dir_sound :
    (next : ℕ) (f : FileAttr → FileAttr) (g : Children → Children) (i : ℕ) (node : Node)
    → ((a : FileAttr) → ((f a).ino ≡ a.ino) × ((f a).mode ≡ a.mode))
    → ((c : Children)
        → UniqueKeys c
        → AllRows (IsEntry next) c
        → UniqueKeys (g c) × AllRows (IsEntry next) (g c))
    → IsSoundNode next i node
    → IsSoundNode next i (change_dir f g node)
unfolding file_type
change_dir_sound next f g i (file a content) hf hg h = h
change_dir_sound next f g i (directory a children) hf hg h =
    (h.0, (hf a).0 ∙ h.1, rw ((hf a).1) h.2, (hg children h.3 h.4).0, (hg children h.3 h.4).1)
change_dir_sound next f g i (symlink a target) hf hg h = h

-- What a change of attributes has to keep.
abbrev IsKind : (FileAttr → FileAttr) → Type 0
IsKind f =
    (a : FileAttr) → ((f a).ino ≡ a.ino) × (file_type (f a) ≡ file_type a) × ((f a).size ≡ a.size)

pub attr_mut_sound :
    (next : ℕ) (f : FileAttr → FileAttr) (i : ℕ) (node : Node)
    → IsKind f
    → IsSoundNode next i node
    → IsSoundNode next i (attr_mut f node)
attr_mut_sound next f i (file a content) k h = (h.0, (k a).0 ∙ h.1, (k a).1 ∙ h.2, (k a).2 ∙ h.3)
attr_mut_sound next f i (directory a children) k h = (h.0, (k a).0 ∙ h.1, (k a).1 ∙ h.2, h.3, h.4)
attr_mut_sound next f i (symlink a target) k h = (h.0, (k a).0 ∙ h.1, (k a).1 ∙ h.2, (k a).2 ∙ h.3)

insert-IsEntry :
    (next : ℕ) (name : Text) (i : ℕ)
    → IsValidName name
    → i < next
    → (c : Children) → UniqueKeys c
    → AllRows (IsEntry next) c
    → UniqueKeys (insert name i c) × AllRows (IsEntry next) (insert name i c)
insert-IsEntry next name i valid low c u h =
    (UniqueKeys-insert name i c u, AllRows-insert (IsEntry next) name i c h (valid, low))

remove-IsEntry :
    (next : ℕ) (name : Text) (c : Children)
    → UniqueKeys c
    → AllRows (IsEntry next) c
    → UniqueKeys (remove name c) × AllRows (IsEntry next) (remove name c)
remove-IsEntry next name c u h =
    (UniqueKeys-remove name c u, AllRows-remove (IsEntry next) name c h)

-- The three changes of the table of nodes.
abbrev pub IsSoundTable : ℕ → Map ℕ Node → Type 0
IsSoundTable next nodes = UniqueKeys nodes × AllRows (IsSoundNode next) nodes

module _ (next : ℕ) (nodes : Map ℕ Node) (h : IsSoundTable next nodes) where
  pub put :
      (i : ℕ) (node : Node) → IsSoundNode next i node → IsSoundTable next (insert i node nodes)
  put i node s =
      (UniqueKeys-insert i node nodes h.0, AllRows-insert (IsSoundNode next) i node nodes h.1 s)

  pub cut : (i : ℕ) → IsSoundTable next (remove i nodes)
  cut i = (UniqueKeys-remove i nodes h.0, AllRows-remove (IsSoundNode next) i nodes h.1)

  pub add_entry :
      (p : ℕ) (f : FileAttr → FileAttr) (name : Text) (i : ℕ)
      → ((a : FileAttr) → ((f a).ino ≡ a.ino) × ((f a).mode ≡ a.mode))
      → IsValidName name
      → i < next
      → IsSoundTable next (update p (change_dir f (insert name i)) nodes)
  add_entry p f name i keeps valid low = (
    UniqueKeys-update p (change_dir f (insert name i)) nodes h.0,
    AllRows-update (IsSoundNode next) p (change_dir f (insert name i)) nodes h.1 (λ j node.
        change_dir_sound next f (insert name i) j node keeps
          (insert-IsEntry next name i valid low)),
  )

  pub drop_entry :
      (p : ℕ) (f : FileAttr → FileAttr) (name : Text)
      → ((a : FileAttr) → ((f a).ino ≡ a.ino) × ((f a).mode ≡ a.mode))
      → IsSoundTable next (update p (change_dir f (remove name)) nodes)
  drop_entry p f name keeps = (
    UniqueKeys-update p (change_dir f (remove name)) nodes h.0,
    AllRows-update (IsSoundNode next) p (change_dir f (remove name)) nodes h.1
        (λ j node. change_dir_sound next f (remove name) j node keeps (remove-IsEntry next name)),
  )

  pub change_attr :
      (i : ℕ) (f : FileAttr → FileAttr) → IsKind f → IsSoundTable next (update i (attr_mut f) nodes)
  change_attr i f k = (
    UniqueKeys-update i (attr_mut f) nodes h.0,
    AllRows-update (IsSoundNode next) i (attr_mut f) nodes h.1
        (λ j node. attr_mut_sound next f j node k),
  )

  pub node_at : (i : ℕ) (node : Node) → get i nodes ≡ some node → IsSoundNode next i node
  node_at i node found = AllRows-get (IsSoundNode next) i node nodes found h.1

  pub one_more : IsSoundTable (next + 1) nodes
  one_more = (
    h.0,
    AllRows-weaken (IsSoundNode next) (IsSoundNode (next + 1)) nodes (IsSoundNode-weaken next) h.1,
  )
