-- ===== src/Cache/Fs/Filepath.antt =====
-- The loop of `resolve_filepath` (crates/smfs-core/src/cache/fs.rs) walks from an inode up to the
-- root.
use smfs.Prelude.{
  ℕ, zero, suc, ◌<◌, ◌≤◌, true, false, Option, none, some, [], ◌∷◌, ◌≡◌, ◌≢◌, inl, inr, refl, sym,
  ap, ◌∙◌, arith, eqb_iff, length, Bool-cases, Option-cases,
}
use smfs.Prelude.Eq.{Text, nat_eq, ◌==◌}
use smfs.Prelude.Map.{Map, get, AllRows}
use smfs.Vfs.Types.{Timestamp, FileAttr}
use smfs.Vfs.Error.{ok, ◌>>=◌}
use smfs.Vfs.Path.Components.{IsValidName}
use smfs.Cache.Fs.{
  Row, LruCache, Fs, Clock, Walk, reached, broken, unfinished, push_name, walk, root_ino, is_dir,
}
use smfs.Cache.Fs.Table.{
  Key, key_eq, key_beq_iff, at, name_of, remove_ino, rekey, count_ino, count_found,
}
use smfs.Cache.Fs.Change.{change_inode, move_dentry}
use smfs.Cache.Fs.Ops.{rename, finish_rename, move_entry}

-- Every directory ranks below its entries, so that the entries have no cycle.
abbrev pub IsTree : (ℕ → ℕ) → Map Key ℕ → Type 0
IsTree rank dentries = AllRows (λ k i. rank k.parent_ino < rank i) dentries

name_of-rank :
    (rank : ℕ → ℕ) (i : ℕ) (k : Key) (m : Map Key ℕ)
    → IsTree rank m
    → name_of i m ≡ some k
    → rank k.parent_ino < rank i
unfolding name_of
name_of-rank rank i k [] h e = cc
name_of-rank rank i k ((l, j) ∷ m) h e = elim (Bool-cases (j == i)) [
  | inl same ↦
      let value : j ≡ i = (eqb_iff j i).0 same in
      let first : some l ≡ some k = rw same at e in
      let key : l ≡ k = cc first in rw (sym key, sym value) h.0
  | inr other ↦ name_of-rank rank i k m h.1 (rw other at e)
]

pub name_of-remove_ino :
    (i j : ℕ) (m : Map Key ℕ) → (j == i) ≡ false → name_of i (remove_ino j m) ≡ name_of i m
unfolding name_of remove_ino
name_of-remove_ino i j [] h = refl
name_of-remove_ino i j ((l, v) ∷ m) h =
    ground (arith, eqb_iff v i, eqb_iff v j, eqb_iff j i, name_of-remove_ino i j m h)

IsTree-remove_ino :
    (rank : ℕ → ℕ) (i : ℕ) (m : Map Key ℕ) → IsTree rank m → IsTree rank (remove_ino i m)
unfolding remove_ino
IsTree-remove_ino rank i [] h = tt
IsTree-remove_ino rank i ((l, v) ∷ m) h = elim (Bool-cases (v == i)) [
  | inl gone ↦ rw gone (IsTree-remove_ino rank i m h.1)
  | inr kept ↦ rw kept (h.0, IsTree-remove_ino rank i m h.1)
]

length-remove_ino : (i : ℕ) (m : Map Key ℕ) → length (remove_ino i m) ≤ length m
unfolding remove_ino
length-remove_ino i [] = omega arith
length-remove_ino i ((l, v) ∷ m) = ground (arith, length-remove_ino i m)

length-remove_ino_lt :
    (i : ℕ) (k : Key) (m : Map Key ℕ) → name_of i m ≡ some k → length (remove_ino i m) < length m
unfolding name_of remove_ino
length-remove_ino_lt i k [] e = cc
length-remove_ino_lt i k ((l, v) ∷ m) e =
    ground (arith, length-remove_ino i m, length-remove_ino_lt i k m)

-- A walk that starts below an inode does not meet its entries.
walk-remove_ino :
    (rank : ℕ → ℕ) (fuel i j : ℕ) (m : Map Key ℕ)
    → IsTree rank m
    → rank i < rank j
    → walk fuel i (remove_ino j m) ≡ walk fuel i m
unfolding walk
walk-remove_ino rank zero i j m h low = refl
walk-remove_ino rank (suc fuel) i j m h low =
    let apart : (j == i) ≡ false = elim (Bool-cases (j == i)) [
      | inr other ↦ other
      | inl same ↦ absurd (omega (arith, low, ap rank ((eqb_iff j i).0 same)))
    ] in
    elim (Option-cases (name_of i m)) [
      | inl none_there ↦ rw (name_of-remove_ino i j m apart, none_there) refl
      | inr (k, named) ↦
          let below = name_of-rank rank i k m h named in
          let rest = walk-remove_ino rank fuel k.parent_ino j m h (omega (arith, low, below)) in
          rw (name_of-remove_ino i j m apart, named, rest) refl
    ]

push_name-ends : (w : Text) (r : Walk) → r ≢ unfinished → push_name w r ≢ unfinished
push_name-ends w (reached parts) h = λ e. cc e
push_name-ends w broken h = λ e. cc e
push_name-ends w unfinished h = λ e. h refl

-- Where the entries have no cycle, the walk from any inode ends, in at most one round more than
-- there are entries.
pub walk-ends :
    (rank : ℕ → ℕ) (fuel i : ℕ) (dentries : Map Key ℕ)
    → IsTree rank dentries
    → length dentries < fuel
    → walk fuel i dentries ≢ unfinished
unfolding walk
walk-ends rank zero i m h low = absurd (omega (arith, low))
walk-ends rank (suc fuel) i m h low = elim (Bool-cases (i == root_ino)) [
  | inl root ↦ rw root (λ e. cc e)
  | inr inner ↦ elim (Option-cases (name_of i m)) [
    | inl none_there ↦ rw (inner, none_there) (λ e. cc e)
    | inr (k, named) ↦
        let below = name_of-rank rank i k m h named in
        let same = walk-remove_ino rank fuel k.parent_ino i m h below in
        let fewer = length-remove_ino_lt i k m named in
        let rest =
          walk-ends rank fuel k.parent_ino (remove_ino i m) (IsTree-remove_ino rank i m h)
            (omega (arith, low, fewer)) in
        rw (inner, named) (push_name-ends k.name (walk fuel k.parent_ino m) (λ e. rest (same ∙ e)))
  ]
]

-- An inode that is its own parent is walked round for ever.
walk_cycle :
    (fuel i : ℕ) (w : Text) (m : Map Key ℕ)
    → (i == root_ino) ≡ false
    → name_of i m ≡ some (at i w)
    → walk fuel i m ≡ unfinished
unfolding walk
walk_cycle zero i w m inner named = refl
walk_cycle (suc fuel) i w m inner named = rw (inner, named, walk_cycle fuel i w m inner named) refl

-- The one entry of an inode moves.
name_of-rekey :
    (old new : Key) (i : ℕ) (m : Map Key ℕ)
    → get old m ≡ some i
    → count_ino i m ≡ 1
    → name_of i (rekey old new m) ≡ some new
unfolding name_of rekey get count_ino
name_of-rekey old new i [] here one = cc
name_of-rekey old new i ((l, v) ∷ m) here one = ground (
  arith,
  key_beq_iff l old,
  eqb_iff v i,
  eqb_iff i i,
  count_found i old m,
  name_of-rekey old new i m,
)

module _ ⦃lru : LruCache⦄ where
  dentries-move_entry :
      (old new : Key) (i : ℕ) (now : Timestamp) (s : Fs)
      → (move_entry old new i now s).dentries ≡ rekey old new s.dentries
  unfolding change_inode move_dentry
  dentries-move_entry old new i now s = elim (Bool-cases (new.parent_ino == old.parent_ino)) [
    | inl same ↦ rw (move_entry, same) refl
    | inr differ ↦ rw (move_entry, differ) refl
  ]

  -- The rename of a directory, not the root, with one entry, to a free name in that directory itself
  -- gets to the point where the entry has moved and the new path is resolved. That walk never ends.
  pub rename_into_itself_hangs :
      (profile : Option FileAttr) (p : ℕ) (n : Text) (i : ℕ) (m : Text) (clock : Clock) (s : Fs)
      (r : Row) (fuel : ℕ)
      → IsValidName n
      → IsValidName m
      → get (at p n) s.dentries ≡ some i
      → count_ino i s.dentries ≡ 1
      → get i s.inodes ≡ some r
      → is_dir r ≡ true
      → get (at i m) s.dentries ≡ none
      → (i == root_ino) ≡ false
      → (rename profile p n i m clock s
          ≡ ok (finish_rename profile (at p n) (at i m) i false none clock s.dentries s))
        × (walk fuel i (move_entry (at p n) (at i m) i clock.now s).dentries ≡ unfinished)
  unfolding rename ◌>>=◌ change_inode move_dentry
  rename_into_itself_hangs profile p n i m clock s r fuel valid_n valid_m here one row dir free
        inner =
      (
        rw (rename, valid_n, valid_m, here, row, dir, free) refl,
        walk_cycle fuel i m _ inner (
            ap (name_of i) (dentries-move_entry (at p n) (at i m) i clock.now s)
            ∙ name_of-rekey (at p n) (at i m) i s.dentries here one),
      )
