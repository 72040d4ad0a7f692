-- ===== src/Vfs/Path.antt =====
-- crates/smfs-core/src/vfs/path.rs, and `validate_name`, which crates/smfs-core/src/vfs/mem.rs and
-- crates/smfs-core/src/cache/fs.rs share. A path is the list of its UTF-8 bytes.
pub mod Components
pub mod Normal
mod Tests
use smfs.Prelude.{
  ℕ, ◌+◌, ◌-◌, ◌/◌, ◌%◌, Bool, ◌||◌, Option, none, some, List, [], ◌∷◌, ◌++◌, ltb, length,
  if◌then◌else◌,
}
use smfs.Prelude.Eq.{Text, text_eq, nat_eq, bytes, ◌==◌}
use smfs.Prelude.Text.{is_empty, contains, split}
use smfs.Vfs.Error.{VfsError, invalid_path, name_too_long, root_operation, Result, ok, err, ◌>>=◌}

-- mode.rs
abbrev pub max_name_len : ℕ
max_name_len = 255

-- `Vec::pop`
abbrev pub pop {ℓ} : {A : Type ℓ} → List A → Option (List A × A)
pop [] = none
pop (x ∷ xs) = elim (pop xs) [ none ↦ some ([], x) | some p ↦ some (x ∷ p.0, p.1) ]

abbrev init {ℓ} : {A : Type ℓ} → List A → List A
init xs = elim (pop xs) [ none ↦ [] | some p ↦ p.0 ]

-- the loop of `normalize` over the components that are left
unfoldable pub normalize_from : Text → List Text → List Text → Result (List Text)
normalize_from path result [] = ok result
normalize_from path result (component ∷ rest) =
    let skipped = normalize_from path result rest in
    let popped = normalize_from path (init result) rest in
    let pushed = normalize_from path (result ++ component ∷ []) rest in
    if is_empty component || component == bytes "."
    then skipped
    else if component == bytes ".."
    then (if is_empty result
        then err (invalid_path (bytes "path escapes root: " ++ path))
        else popped)
    else if contains 0 component
    then err (invalid_path (bytes "NUL byte in component: " ++ component))
    else if ltb max_name_len (length component)
    then err (name_too_long (length component))
    else pushed

unfoldable pub normalize : Text → Result (List Text)
normalize path = normalize_from path [] (split b'/' path)

abbrev pub last_or_root : Option (List Text × Text) → Result (List Text × Text)
last_or_root none = err root_operation
last_or_root (some p) = ok p

unfoldable pub parent_and_name : Text → Result (List Text × Text)
parent_and_name path = do components ← normalize path; last_or_root (pop components)

abbrev hex_digit : ℕ → ℕ
hex_digit n = if ltb n 10 then b'0' + n else b'a' + (n - 10)

-- `char::escape_debug` on an ASCII character
abbrev escape_debug : ℕ → Text
escape_debug c =
    if c == 0
    then bytes "\\0"
    else if c == 9
    then bytes "\\t"
    else if c == 10
    then bytes "\\n"
    else if c == 13
    then bytes "\\r"
    else if c == b'"' || c == b'\\'
    then b'\\' ∷ c ∷ []
    else if ltb c 16
    then bytes "\\u{" ++ hex_digit c ∷ bytes "}"
    else if ltb c 32 || c == 127
    then bytes "\\u{" ++ hex_digit (c / 16) ∷ hex_digit (c % 16) ∷ bytes "}"
    else c ∷ []

abbrev escape_all : Text → Text
escape_all [] = []
escape_all (c ∷ s) = escape_debug c ++ escape_all s

-- `{name:?}`; characters beyond ASCII stand as they are, also those that are not printable
abbrev debug : Text → Text
debug s = bytes "\"" ++ (escape_all s ++ bytes "\"")

unfoldable pub validate_name : Text → Result (Unit {0})
validate_name name =
    if is_empty name || (name == bytes "." || name == bytes "..")
    then err (invalid_path (bytes "invalid name: " ++ debug name))
    else if ltb max_name_len (length name)
    then err (name_too_long (length name))
    else if contains b'/' name || contains 0 name
    then err (invalid_path (bytes "invalid name: " ++ debug name))
    else ok tt
