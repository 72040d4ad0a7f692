-- ===== src/Vfs/Path/Tests.antt =====
-- The tests of path.rs, and the theorems at concrete inputs.
use smfs.Prelude.{[], ◌∷◌, ◌≡◌, refl, All, replicate}
use smfs.Prelude.Eq.{bytes}
use smfs.Vfs.Error.{ok, err, invalid_path, name_too_long, ◌>>=◌}
use smfs.Vfs.Path.{normalize_from, normalize, parent_and_name, validate_name}
use smfs.Vfs.Path.Components.{IsValidName, normalize-valid}

normalize_dots : normalize (bytes "/a/./b//c/../../d") ≡ ok (bytes "a" ∷ bytes "d" ∷ [])
unfolding normalize normalize_from
normalize_dots = refl

normalize_escape :
    normalize (bytes "/foo/../../bar")
    ≡ err (invalid_path (bytes "path escapes root: /foo/../../bar"))
unfolding normalize normalize_from
normalize_escape = refl

normalize_long : normalize (b'/' ∷ replicate 256 b'a') ≡ err (name_too_long 256)
unfolding normalize normalize_from
normalize_long = refl

invalid_name_quoted :
    validate_name (b'a' ∷ b'/' ∷ b'\\' ∷ 0 ∷ 27 ∷ [])
    ≡ err (invalid_path (bytes "invalid name: \"a/\\\\\\0\\u{1b}\""))
unfolding validate_name
invalid_name_quoted = refl

parent_and_name_simple :
    parent_and_name (bytes "/foo/bar.txt") ≡ ok (bytes "foo" ∷ [], bytes "bar.txt")
unfolding parent_and_name normalize normalize_from ◌>>=◌
parent_and_name_simple = refl

names_valid : All IsValidName (bytes "a" ∷ bytes "d" ∷ [])
unfolding validate_name
names_valid = (refl, (refl, tt))

normalize-valid_example : All IsValidName (bytes "a" ∷ bytes "d" ∷ [])
normalize-valid_example =
    normalize-valid (bytes "/a/./b//c/../../d") (bytes "a" ∷ bytes "d" ∷ []) normalize_dots
