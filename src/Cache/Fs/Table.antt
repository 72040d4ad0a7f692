-- ===== src/Cache/Fs/Table.antt =====
-- The table `fs_dentry` of crates/smfs-core/src/cache/schema.sql, and its statements in
-- crates/smfs-core/src/cache/fs.rs: from a parent and a name, which are unique, to an inode number.
use smfs.Prelude.{
  ℕ, ◌+◌, ◌≤◌, ◌<◌, refl, inl, inr, Bool-cases, Bool, true, ◌&&◌, Option, none, some, List, [], ◌∷◌,
  ◌≡◌, ◌↔◌, arith, eqb, eqb_iff, if◌then◌else◌,
}
use smfs.Prelude.Eq.{Eq, Text, text_beq, text_beq_iff, nat_eq, ◌==◌}
use smfs.Prelude.Map.{Map, get, insert, remove, UniqueKeys, AllValues}

pub record Key : Type 0 where
  pub parent_ino : ℕ
  pub name : Text

abbrev pub key_beq : Key → Key → Bool
key_beq a b = eqb a.parent_ino b.parent_ino && text_beq a.name b.name

pub key_beq_iff : (a b : Key) → (key_beq a b ≡ true) ↔ (a ≡ b)
key_beq_iff a b = ground (arith, eqb_iff a.parent_ino b.parent_ino, text_beq_iff a.name b.name)

instance abbrev pub key_eq : Eq Key
key_eq = record { is_same = key_beq; same_iff = key_beq_iff }

abbrev pub at : ℕ → Text → Key
at parent_ino name = record { parent_ino = parent_ino; name = name }

-- `SELECT name, parent_ino … WHERE ino = i`, the first row
unfoldable pub name_of : ℕ → Map Key ℕ → Option Key
name_of i [] = none
name_of i ((k, j) ∷ rest) = if j == i then some k else name_of i rest

-- `DELETE … WHERE ino = i`
unfoldable pub remove_ino : ℕ → Map Key ℕ → Map Key ℕ
remove_ino i [] = []
remove_ino i ((k, j) ∷ rest) =
    let others = remove_ino i rest in if j == i then others else (k, j) ∷ others

-- `UPDATE … SET parent_ino, name = new … WHERE parent_ino, name = old`: the rows keep their places
unfoldable pub rekey : Key → Key → Map Key ℕ → Map Key ℕ
rekey old new [] = []
rekey old new ((k, i) ∷ rest) = (if k == old then new else k, i) ∷ rekey old new rest

-- `SELECT name … WHERE parent_ino = p`
unfoldable pub names_in : ℕ → Map Key ℕ → List Text
names_in p [] = []
names_in p ((k, i) ∷ rest) =
    let others = names_in p rest in if k.parent_ino == p then k.name ∷ others else others

-- `SELECT COUNT(*) … WHERE ino = i`
unfoldable pub count_ino : ℕ → Map Key ℕ → ℕ
count_ino i [] = 0
count_ino i ((k, j) ∷ rest) = let others = count_ino i rest in if j == i then others + 1 else others

pub get-rekey :
    (old new k : Key) (m : Map Key ℕ)
    → get new m ≡ none
    → get k (rekey old new m) ≡ (if new == k then get old m else if old == k then none else get k m)
unfolding get rekey
get-rekey old new k [] h = ground arith
get-rekey old new k ((j, i) ∷ m) h = ground (
  arith,
  key_beq_iff j new,
  key_beq_iff j old,
  key_beq_iff j k,
  key_beq_iff new k,
  key_beq_iff old k,
  get-rekey old new k m,
)

pub UniqueKeys-rekey :
    (old new : Key) (m : Map Key ℕ) → get new m ≡ none → UniqueKeys m → UniqueKeys (rekey old new m)
unfolding get rekey
UniqueKeys-rekey old new [] h u = tt
UniqueKeys-rekey old new ((j, i) ∷ m) h u = ground (
  arith,
  key_beq_iff j new,
  key_beq_iff j old,
  key_beq_iff new new,
  key_beq_iff new j,
  key_beq_iff old j,
  get-rekey old new new m,
  get-rekey old new j m,
  UniqueKeys-rekey old new m,
)

pub AllValues-rekey {ℓ} :
    (P : ℕ → Type ℓ) (old new : Key) (m : Map Key ℕ) → AllValues P m → AllValues P (rekey old new m)
unfolding rekey
AllValues-rekey P old new [] h = tt
AllValues-rekey P old new ((j, i) ∷ m) h = (h.0, AllValues-rekey P old new m h.1)

-- How many entries an inode has, after each statement.
pub count-insert :
    (i : ℕ) (k : Key) (j : ℕ) (m : Map Key ℕ)
    → count_ino i (insert k j m) ≤ count_ino i m + (if j == i then 1 else 0)
unfolding count_ino insert
count-insert i k j [] = ground arith
count-insert i k j ((l, v) ∷ m) = ground (arith, count-insert i k j m)

pub count-remove : (i : ℕ) (k : Key) (m : Map Key ℕ) → count_ino i (remove k m) ≤ count_ino i m
unfolding count_ino remove
count-remove i k [] = omega arith
count-remove i k ((l, v) ∷ m) = ground (arith, count-remove i k m)

pub count-rekey :
    (i : ℕ) (old new : Key) (m : Map Key ℕ) → count_ino i (rekey old new m) ≡ count_ino i m
unfolding count_ino rekey
count-rekey i old new [] = refl
count-rekey i old new ((l, v) ∷ m) = ground (arith, count-rekey i old new m)

pub count-remove_ino : (i j : ℕ) (m : Map Key ℕ) → count_ino i (remove_ino j m) ≤ count_ino i m
unfolding count_ino remove_ino
count-remove_ino i j [] = omega arith
count-remove_ino i j ((l, v) ∷ m) = ground (arith, count-remove_ino i j m)

pub count_fresh : (i : ℕ) (m : Map Key ℕ) → AllValues (λ j. j < i) m → count_ino i m ≡ 0
unfolding count_ino
count_fresh i [] h = refl
count_fresh i ((l, v) ∷ m) h = ground (arith, h.0, eqb_iff v i, count_fresh i m h.1)

pub count_found : (i : ℕ) (k : Key) (m : Map Key ℕ) → get k m ≡ some i → 1 ≤ count_ino i m
unfolding count_ino get
count_found i k [] h = cc
count_found i k ((l, v) ∷ m) h = ground (arith, eqb_iff v i, count_found i k m)

get-remove_ino-none :
    (i : ℕ) (k : Key) (m : Map Key ℕ) → get k m ≡ none → get k (remove_ino i m) ≡ none
unfolding get remove_ino
get-remove_ino-none i k [] h = refl
get-remove_ino-none i k ((l, v) ∷ m) h = ground (arith, get-remove_ino-none i k m)

pub UniqueKeys-remove_ino : (i : ℕ) (m : Map Key ℕ) → UniqueKeys m → UniqueKeys (remove_ino i m)
unfolding remove_ino
UniqueKeys-remove_ino i [] u = tt
UniqueKeys-remove_ino i ((l, v) ∷ m) u =
    ground (arith, get-remove_ino-none i l m u.0, UniqueKeys-remove_ino i m u.1)

pub AllValues-remove_ino {ℓ} :
    (P : ℕ → Type ℓ) (i : ℕ) (m : Map Key ℕ) → AllValues P m → AllValues P (remove_ino i m)
unfolding remove_ino
AllValues-remove_ino P i [] h = tt
AllValues-remove_ino P i ((l, v) ∷ m) h = elim (Bool-cases (v == i)) [
  | inl gone ↦ rw gone (AllValues-remove_ino P i m h.1)
  | inr kept ↦ rw kept (h.0, AllValues-remove_ino P i m h.1)
]

-- The entry that an inode's entries leave behind.
abbrev pub unless : ℕ → Option ℕ → Option ℕ
unless i none = none
unless i (some j) = if j == i then none else some j

pub get-remove_ino :
    (i : ℕ) (k : Key) (m : Map Key ℕ) → UniqueKeys m → get k (remove_ino i m) ≡ unless i (get k m)
unfolding get remove_ino
get-remove_ino i k [] u = refl
get-remove_ino i k ((l, v) ∷ m) u =
    ground (arith, key_beq_iff l k, get-remove_ino-none i k m, get-remove_ino i k m u.1)

pub get-name_of :
    (i : ℕ) (k : Key) (m : Map Key ℕ) → UniqueKeys m → name_of i m ≡ some k → get k m ≡ some i
unfolding get name_of
get-name_of i k [] u h = cc
get-name_of i k ((l, v) ∷ m) u h =
    ground (arith, key_beq_iff l k, eqb_iff v i, get-name_of i k m u.1)
