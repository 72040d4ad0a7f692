-- ===== src/Vfs/Path/Components.antt =====
-- What the components of a normalised path are.
use smfs.Prelude.{
  ℕ, Bool, true, false, not, ◌&&◌, ◌||◌, some, List, [], ◌∷◌, ◌++◌, ◌≡◌, refl, arith, ltb, All,
  All-append, length, inl, inr, Bool-cases, Option-cases,
}
use smfs.Prelude.Eq.{Text, nat_eq, text_eq, bytes, ◌==◌}
use smfs.Prelude.Text.{is_empty, contains, split}
use smfs.Vfs.Error.{ok}
use smfs.Vfs.Path.{max_name_len, pop, init, normalize_from, normalize, validate_name}

-- No part of a split holds the separator.
split-All : (c : ℕ) (s : Text) → All (λ w. contains c w ≡ false) (split c s)
split-All c [] = (refl, tt)
split-All c (d ∷ s) = elim (Bool-cases (d == c)) [
  | inl same ↦ ground (arith, same, split-All c s)
  | inr other ↦ ground (arith, other, split-All c s)
]

All-pop :
    (P : Text → Type 0) (xs ys : List Text) (y : Text)
    → All P xs
    → pop xs ≡ some (ys, y)
    → All P ys × P y
All-pop P [] ys y h e = cc
All-pop P (x ∷ xs) ys y h e = elim (Option-cases (pop xs)) [
  | inl last ↦ ground (arith, last)
  | inr ((zs, z), more) ↦ ground (arith, more, All-pop P xs zs z h.1 more)
]

All-init : (P : Text → Type 0) (xs : List Text) → All P xs → All P (init xs)
All-init P xs h = elim (Option-cases (pop xs)) [
  | inl last ↦ ground (arith, last)
  | inr ((ys, y), more) ↦ ground (arith, more, All-pop P xs ys y h more)
]

abbrev pub IsValidName : Text → Type 0
IsValidName w = validate_name w ≡ ok tt

-- what the loop tests of a component before it pushes it
abbrev is_kept : Text → Bool
is_kept w =
    not (is_empty w || w == bytes ".")
    && (not (w == bytes "..") && (not (contains 0 w) && not (ltb max_name_len (length w))))

is_kept-valid : (w : Text) → is_kept w ≡ true → contains b'/' w ≡ false → IsValidName w
unfolding validate_name
is_kept-valid w k s = ground arith

normalize_from-valid :
    (path : Text) (result rest : List Text) (out : List Text)
    → All IsValidName result
    → All (λ w. contains b'/' w ≡ false) rest
    → normalize_from path result rest ≡ ok out
    → All IsValidName out
unfolding normalize_from
normalize_from-valid path result [] out h s e = ground arith
normalize_from-valid path result (w ∷ rest) out h s e = ground (
  arith,
  normalize_from-valid path result rest out h s.1,
  normalize_from-valid path (init result) rest out (All-init IsValidName result h) s.1,
  λ (k : is_kept w ≡ true).
      normalize_from-valid path (result ++ w ∷ []) rest out
        (All-append IsValidName result (w ∷ []) h (is_kept-valid w k s.0, tt)) s.1,
)

-- Every component of a normalised path is a name that the file systems accept: not empty, not "."
-- or "..", with no slash and no NUL, and of at most 255 bytes.
pub normalize-valid :
    (path : Text) (out : List Text) → normalize path ≡ ok out → All IsValidName out
unfolding normalize
normalize-valid path out e =
    normalize_from-valid path [] (split b'/' path) out tt (split-All b'/' path) e
