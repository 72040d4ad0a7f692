-- ===== src/Prelude/Map.antt =====
-- Finite maps as association lists: Rust's `HashMap`, and SQL tables by their primary key. An
-- insertion under a present key replaces its row in place, any other goes to the end.
use smfs.Prelude.Tests.{if◌then◌else◌, Bool-cases}
use smfs.Prelude.Eq.{Eq, ◌==◌}
use mathlib.Core.Path.{◌≡◌, refl, subst}
use mathlib.Core.Logic.{inl, inr}
use mathlib.Core.Option
use mathlib.Core.Option.{Option, none, some}
use mathlib.Core.List.{List, [], ◌∷◌}
use native.Mathlib.Omega.{arith}

abbrev pub Map {ℓ κ} : Type ℓ → Type κ → Type (ℓ ⊔ κ)
Map K V = List (K × V)

module _ {ℓ κ} {K : Type ℓ} {V : Type κ} ⦃e : Eq K⦄ where
  unfoldable pub get : K → Map K V → Option V
  get k [] = none
  get k ((j, v) ∷ m) = if j == k then some v else get k m

  unfoldable pub insert : K → V → Map K V → Map K V
  insert k v [] = (k, v) ∷ []
  insert k v ((j, w) ∷ m) = if j == k then (k, v) ∷ m else (j, w) ∷ insert k v m

  unfoldable pub remove : K → Map K V → Map K V
  remove k [] = []
  remove k ((j, v) ∷ m) = let rest = remove k m in if j == k then rest else (j, v) ∷ rest

  -- `UPDATE … WHERE key = k`, `get_mut`: no change where the key is missing.
  unfoldable pub update : K → (V → V) → Map K V → Map K V
  update k f [] = []
  update k f ((j, v) ∷ m) = if j == k then (j, f v) ∷ m else (j, v) ∷ update k f m

  pub get-insert :
      (k j : K) (v : V) (m : Map K V) → get j (insert k v m) ≡ (if k == j then some v else get j m)
  unfolding get insert
  get-insert k j v [] = refl
  get-insert k j v ((i, w) ∷ m) =
      ground (arith, e.same_iff k j, e.same_iff i k, e.same_iff i j, get-insert k j v m)

  pub get-remove : (k j : K) (m : Map K V) → get j (remove k m) ≡ (if k == j then none else get j m)
  unfolding get remove
  get-remove k j [] = ground arith
  get-remove k j ((i, w) ∷ m) =
      ground (arith, e.same_iff k j, e.same_iff i k, e.same_iff i j, get-remove k j m)

  pub get-update :
      (k j : K) (f : V → V) (m : Map K V)
      → get j (update k f m) ≡ (if k == j then Option.map f (get j m) else get j m)
  unfolding get update
  get-update k j f [] = ground arith
  get-update k j f ((i, w) ∷ m) =
      ground (arith, e.same_iff k j, e.same_iff i k, e.same_iff i j, get-update k j f m)

  -- `PRIMARY KEY`: no key stands twice.
  abbrev pub UniqueKeys : Map K V → Type κ
  UniqueKeys [] = Unit
  UniqueKeys ((k, v) ∷ m) = (get k m ≡ none) × UniqueKeys m

  pub UniqueKeys-insert : (k : K) (v : V) (m : Map K V) → UniqueKeys m → UniqueKeys (insert k v m)
  unfolding get insert
  UniqueKeys-insert k v [] u = (refl, tt)
  UniqueKeys-insert k v ((i, w) ∷ m) u =
      ground
        (arith, e.same_iff i k, e.same_iff k i, get-insert k i v m, UniqueKeys-insert k v m u.1)

  pub UniqueKeys-remove : (k : K) (m : Map K V) → UniqueKeys m → UniqueKeys (remove k m)
  unfolding get remove
  UniqueKeys-remove k [] u = tt
  UniqueKeys-remove k ((i, w) ∷ m) u = ground (arith, get-remove k i m, UniqueKeys-remove k m u.1)

  pub UniqueKeys-update :
      (k : K) (f : V → V) (m : Map K V) → UniqueKeys m → UniqueKeys (update k f m)
  unfolding get update
  UniqueKeys-update k f [] u = tt
  UniqueKeys-update k f ((i, w) ∷ m) u =
      ground (arith, get-update k i f m, UniqueKeys-update k f m u.1)

-- A predicate of every stored value.
module _ {ℓ κ μ} {K : Type ℓ} {V : Type κ} (P : V → Type μ) ⦃e : Eq K⦄ where
  abbrev pub AllValues : Map K V → Type μ
  AllValues [] = Unit
  AllValues ((k, v) ∷ m) = P v × AllValues m

  pub AllValues-insert :
      (k : K) (v : V) (m : Map K V) → AllValues m → P v → AllValues (insert k v m)
  unfolding insert
  AllValues-insert k v [] h p = (p, tt)
  AllValues-insert k v ((i, w) ∷ m) h p = ground (arith, AllValues-insert k v m h.1 p)

  pub AllValues-remove : (k : K) (m : Map K V) → AllValues m → AllValues (remove k m)
  unfolding remove
  AllValues-remove k [] h = tt
  AllValues-remove k ((i, w) ∷ m) h = ground (arith, AllValues-remove k m h.1)

  pub AllValues-update :
      (k : K) (f : V → V) (m : Map K V)
      → AllValues m
      → ((v : V) → P v → P (f v))
      → AllValues (update k f m)
  unfolding update
  AllValues-update k f [] h p = tt
  AllValues-update k f ((i, w) ∷ m) h p = ground (arith, p w, AllValues-update k f m h.1 p)

  pub AllValues-get : (k : K) (v : V) (m : Map K V) → get k m ≡ some v → AllValues m → P v
  unfolding get
  AllValues-get k v [] g h = cc
  AllValues-get k v ((i, w) ∷ m) g h = elim (Bool-cases (i == k)) [
    | inl same ↦ let found : w ≡ v = ground (arith, same) in subst P found h.0
    | inr other ↦ AllValues-get k v m (ground arith) h.1
  ]

-- A predicate of every row, the key included.
module _ {ℓ κ μ} {K : Type ℓ} {V : Type κ} (P : K → V → Type μ) where
  abbrev pub AllRows : Map K V → Type μ
  AllRows [] = Unit
  AllRows ((k, v) ∷ m) = P k v × AllRows m

module _ {ℓ κ μ} {K : Type ℓ} {V : Type κ} (P : K → V → Type μ) ⦃e : Eq K⦄ where
  pub AllRows-insert :
      (k : K) (v : V) (m : Map K V) → AllRows P m → P k v → AllRows P (insert k v m)
  unfolding insert
  AllRows-insert k v [] h p = (p, tt)
  AllRows-insert k v ((i, w) ∷ m) h p = elim (Bool-cases (i == k)) [
    | inl same ↦ rw same (p, h.1)
    | inr other ↦ rw other (h.0, AllRows-insert k v m h.1 p)
  ]

  pub AllRows-remove : (k : K) (m : Map K V) → AllRows P m → AllRows P (remove k m)
  unfolding remove
  AllRows-remove k [] h = tt
  AllRows-remove k ((i, w) ∷ m) h = elim (Bool-cases (i == k)) [
    | inl same ↦ rw same (AllRows-remove k m h.1)
    | inr other ↦ rw other (h.0, AllRows-remove k m h.1)
  ]

  pub AllRows-update :
      (k : K) (f : V → V) (m : Map K V)
      → AllRows P m
      → ((i : K) (v : V) → P i v → P i (f v))
      → AllRows P (update k f m)
  unfolding update
  AllRows-update k f [] h p = tt
  AllRows-update k f ((i, w) ∷ m) h p = elim (Bool-cases (i == k)) [
    | inl same ↦ rw same (p i w h.0, h.1)
    | inr other ↦ rw other (h.0, AllRows-update k f m h.1 p)
  ]

  pub AllRows-get : (k : K) (v : V) (m : Map K V) → get k m ≡ some v → AllRows P m → P k v
  unfolding get
  AllRows-get k v [] g h = cc
  AllRows-get k v ((i, w) ∷ m) g h = elim (Bool-cases (i == k)) [
    | inl same ↦
        let found : w ≡ v = ground (arith, same) in
        subst (λ j. P j v) ((e.same_iff i k).0 same) (subst (P i) found h.0)
    | inr other ↦ AllRows-get k v m (ground arith) h.1
  ]

module _ {ℓ κ μ ν} {K : Type ℓ} {V : Type κ} (P : K → V → Type μ) (Q : K → V → Type ν) where
  pub AllRows-weaken : (m : Map K V) → ((k : K) (v : V) → P k v → Q k v) → AllRows P m → AllRows Q m
  AllRows-weaken [] f h = tt
  AllRows-weaken ((k, v) ∷ m) f h = (f k v h.0, AllRows-weaken m f h.1)

module _ {ℓ κ μ ν} {K : Type ℓ} {V : Type κ} (P : V → Type μ) (Q : V → Type ν) ⦃e : Eq K⦄ where
  pub AllValues-weaken : (m : Map K V) → ((v : V) → P v → Q v) → AllValues P m → AllValues Q m
  AllValues-weaken [] f h = tt
  AllValues-weaken ((k, v) ∷ m) f h = (f v h.0, AllValues-weaken m f h.1)
