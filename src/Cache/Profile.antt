-- ===== src/Cache/Profile.antt =====
-- `ProfileFile` of crates/smfs-core/src/cache/profile.rs, the virtual read-only `profile.md`. Its
-- state is the text of the last profile that the server has sent.
pub mod Read
mod Tests
use smfs.Prelude.{
  ℕ, zero, suc, ◌+◌, ◌-◌, ◌/◌, min, leb, Bool, true, false, Option, none, some, List, [], ◌∷◌, ◌++◌,
  ◌≡◌, refl, arith, take, drop, length, if◌then◌else◌, Bool-cases, inl, inr,
}
use smfs.Prelude.Eq.{Text, nat_eq, bytes, ◌==◌}
use smfs.Prelude.Text.{is_empty}
use smfs.Vfs.Types.{Timestamp, FileAttr, s_ifreg}
use smfs.Vfs.Error.{VfsError, permission_denied, Result, ok, err}
use smfs.Cache.Fs.{profile_ino}

-- `Profile` of api/dto.rs
pub record Profile : Type 0 where
  pub static_memories : Option (List Text)
  pub dynamic : Option (List Text)

-- the cache of a `ProfileFile`
abbrev pub ProfileCache : Type 0
ProfileCache = Option (List ℕ)

abbrev pub newline : ℕ
newline = 10

abbrev pub profile_header : Text
profile_header =
    bytes "# Memory Profile\n# This file is auto-generated from your memories.\n"
    ++ bytes
        "# It is not editable. To update, modify the source files\n# that contain this information.\n\n"

abbrev pub item_lines : List Text → Text
item_lines [] = []
item_lines (w ∷ ws) = bytes "- " ++ (w ++ newline ∷ item_lines ws)

-- a heading, its items and what follows them; nothing where there is no item
abbrev pub section_of : Text → Text → Option (List Text) → Text
section_of heading end none = []
section_of heading end (some memories) =
    if is_empty memories then [] else heading ++ (item_lines memories ++ end)

-- `s.lines().count()`; `begun` says whether a line has begun
abbrev pub line_count : Bool → Text → ℕ
line_count begun [] = if begun then 1 else 0
line_count begun (c ∷ s) =
    let rest = line_count false s in
    let same = line_count true s in if c == newline then rest + 1 else same

abbrev pub fill_profile : Text → Text
fill_profile out =
    if leb (line_count false out) 4
    then out ++ bytes "(No memories yet. Write files to generate memories.)\n"
    else out

unfoldable pub format_profile : Profile → Text
format_profile p = fill_profile (
    profile_header
    ++ (section_of (bytes "## Core Knowledge\n") (bytes "\n") p.static_memories
        ++ section_of (bytes "## Recent Context\n") [] p.dynamic))

-- `answer` is `none` where the request fails.
abbrev pub warm : Option Profile → ProfileCache → ProfileCache
warm none cache = cache
warm (some p) cache = some (format_profile p)

abbrev pub content_of : ProfileCache → List ℕ
content_of none = []
content_of (some content) = content

unfoldable pub profile_attr : Timestamp → ProfileCache → FileAttr
profile_attr now cache =
    let size = length (content_of cache) in
    record {
      ino = profile_ino;
      mode = s_ifreg + 0o444;
      nlink = 1;
      uid = 0;
      gid = 0;
      size = size;
      blocks = (size + 511) / 512;
      atime = now;
      mtime = now;
      ctime = now;
      rdev = 0;
      blksize = 4096;
    }

unfoldable pub read : ℕ → ℕ → ProfileCache → List ℕ
read offset size none = []
read offset size (some content) =
    if leb (length content) offset
    then []
    else take (min (offset + size) (length content) - offset) (drop offset content)

abbrev pub write : ℕ → List ℕ → Result ℕ
write offset payload = err permission_denied

abbrev pub truncate : ℕ → Result (Unit {0})
truncate size = err permission_denied
