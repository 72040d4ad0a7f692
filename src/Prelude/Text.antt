-- ===== src/Prelude/Text.antt =====
-- Rust's `str` methods on UTF-8 bytes. The patterns that the program looks for are ASCII, so a
-- search over bytes finds what a search over characters does.
use smfs.Prelude.Tests.{if◌then◌else◌}
use smfs.Prelude.Eq.{Text, nat_eq, ◌==◌}
use Prim.Native.Nat.{ℕ}
use mathlib.Core.Bool.{Bool, true, false, ◌&&◌, ◌||◌}
use mathlib.Core.List.{List, [], ◌∷◌}

abbrev pub is_empty {ℓ} : {A : Type ℓ} → List A → Bool
is_empty [] = true
is_empty (c ∷ s) = false

abbrev pub contains : ℕ → Text → Bool
contains c [] = false
contains c (d ∷ s) = d == c || contains c s

abbrev pub starts_with : Text → Text → Bool
starts_with [] s = true
starts_with (c ∷ p) [] = false
starts_with (c ∷ p) (d ∷ s) = c == d && starts_with p s

-- `s.trim_start_matches(c)`
abbrev pub trim_start : ℕ → Text → Text
trim_start c [] = []
trim_start c (d ∷ s) = if d == c then trim_start c s else d ∷ s

abbrev pub cons_first : ℕ → List Text → List Text
cons_first d [] = (d ∷ []) ∷ []
cons_first d (w ∷ ws) = (d ∷ w) ∷ ws

-- `s.split(c)`, never empty
abbrev pub split : ℕ → Text → List Text
split c [] = [] ∷ []
split c (d ∷ s) = if d == c then [] ∷ split c s else cons_first d (split c s)

-- `it.next().unwrap_or("")`
abbrev pub first : List Text → Text
first [] = []
first (w ∷ ws) = w

-- what `rsplit(c).next().unwrap_or("")` gives, from the parts of `split(c)`
abbrev pub last : List Text → Text
last [] = []
last (w ∷ []) = w
last (w ∷ v ∷ ws) = last (v ∷ ws)
