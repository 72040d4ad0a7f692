-- ===== src/Cache/File.antt =====
-- `SqliteFile` of crates/smfs-core/src/cache/file.rs: the content of one inode, in the rows of
-- `fs_data` in the order of their chunk indices, and the columns of its `fs_inode` row that the
-- handle reads and writes. `Db::configure_and_init` sets every database's chunk size to 4096.
-- Each operation holds the connection's lock, and SQLite does not fail.
pub mod Layout
pub mod Read
pub mod Write
pub mod Truncate
pub mod Whole
pub mod Sparse
pub mod Edits
mod Tests
use smfs.Prelude.{
  ℕ, zero, suc, ◌+◌, ◌-◌, ◌*◌, ◌/◌, ◌%◌, min, max, Bool, true, false, not, ◌&&◌, Option, none, some,
  List, [], ◌∷◌, ◌++◌, ltb, leb, eqb, length, take, drop, replicate, if◌then◌else◌,
}
use mathlib.Core.Option
use smfs.Prelude.Eq.{Text, nat_eq, bytes, ◌==◌}
use smfs.Prelude.Map.{Map, get}
use smfs.Prelude.Vec.{resize, copy_from_slice}
use smfs.Vfs.Types.{Timestamp}
use smfs.Vfs.Error.{VfsError, not_found, invalid_path}

-- DEFAULT_CHUNK_SIZE
abbrev pub chunk_size : ℕ
chunk_size = 4096

abbrev pub max_file_size : ℕ
max_file_size = 100 * 1024 * 1024

abbrev pub Chunks : Type 0
Chunks = Map ℕ (List ℕ)

pub record Inode : Type 0 where
  pub size : ℕ
  pub mtime : Timestamp
  pub ctime : Timestamp
  pub dirty_since : Option ℕ

-- The rows of one inode number; `none` after the inode has been removed.
pub record FileRows : Type 0 where
  pub inode : Option Inode
  pub chunks : Chunks

-- A call returns a value or an error, or its task panics.
pub data Outcome {ℓ} (A : Type ℓ) : Type ℓ where
  done : A → Outcome A
  failed : VfsError → Outcome A
  panicked : Outcome A

-- `INSERT OR REPLACE INTO fs_data`
unfoldable pub put_chunk : ℕ → List ℕ → Chunks → Chunks
put_chunk i payload [] = (i, payload) ∷ []
put_chunk i payload ((j, old) ∷ rows) =
    if i == j
    then (i, payload) ∷ rows
    else if ltb i j
    then (i, payload) ∷ (j, old) ∷ rows
    else (j, old) ∷ put_chunk i payload rows

-- `WHERE chunk_index >= first AND chunk_index <= last`
unfoldable pub between : ℕ → ℕ → Chunks → Chunks
between first last [] = []
between first last ((j, payload) ∷ rows) =
    let rest = between first last rows in
    if leb first j && leb j last then (j, payload) ∷ rest else rest

-- the zeros for `rounds` missing chunks from `next` on
unfoldable pub fill_gap : ℕ → ℕ → ℕ → ℕ → ℕ → List ℕ → List ℕ
fill_gap start skip read_size zero next result = result
fill_gap start skip read_size (suc rounds) next result =
    let skipped = if next == start then skip else 0 in
    let zeros = min (chunk_size - skipped) (read_size - length result) in
    let filled =
      fill_gap start skip read_size rounds (next + 1) (resize (length result + zeros) result) in
    if ltb (length result) read_size then filled else result

-- the loop of `read` over the selected rows; slicing past the end of a chunk panics
unfoldable pub read_rows : ℕ → ℕ → ℕ → Chunks → ℕ → List ℕ → Outcome (List ℕ)
read_rows start skip read_size [] next result = done result
read_rows start skip read_size ((i, payload) ∷ rows) next result =
    let filled = fill_gap start skip read_size (i - next) next result in
    let skipped = if i == start then skip else 0 in
    let taken = min (length payload - skipped) (read_size - length filled) in
    let more =
      read_rows start skip read_size rows (i + 1) (filled ++ take taken (drop skipped payload)) in
    if leb read_size (length filled)
    then done filled
    else if leb (skipped + taken) (length payload)
    then more
    else panicked

-- the zeros after the last row
abbrev pub fill_end : ℕ → Outcome (List ℕ) → Outcome (List ℕ)
fill_end read_size (done result) =
    done (if ltb (length result) read_size then resize read_size result else result)
fill_end read_size (failed e) = failed e
fill_end read_size panicked = panicked

abbrev pub read_size_of : ℕ → ℕ → ℕ → ℕ
read_size_of offset size file_size = min size (file_size - offset)

unfoldable pub read_chunks : ℕ → ℕ → Chunks → Outcome (List ℕ)
read_chunks offset read_size chunks =
    let start = offset / chunk_size in
    let last = (offset + read_size - 1) / chunk_size in
    fill_end read_size
      (read_rows start (offset % chunk_size) read_size (between start last chunks) start [])

unfoldable pub read : ℕ → ℕ → FileRows → Outcome (List ℕ)
read offset size f = elim f.inode [
  | none ↦ failed not_found
  | some n ↦
      if leb n.size offset
      then done []
      else read_chunks offset (read_size_of offset size n.size) f.chunks
]

-- one chunk of `write`: read, modify, write, except where the whole chunk is written
abbrev pub existing_or_empty : ℕ → Chunks → List ℕ
existing_or_empty i chunks = elim (get i chunks) [ none ↦ [] | some old ↦ old ]

unfoldable pub chunk_data : ℕ → List ℕ → List ℕ → List ℕ
chunk_data at piece old =
    if length piece == chunk_size
    then piece
    else copy_from_slice at piece
        (if ltb (length old) (at + length piece) then resize (at + length piece) old else old)

-- the loop of `write`: `fuel` rounds at most, `data` is what is not written yet, for `offset`
unfoldable pub write_chunks : ℕ → ℕ → List ℕ → Chunks → Chunks
write_chunks zero offset payload chunks = chunks
write_chunks (suc fuel) offset payload chunks =
    let i = offset / chunk_size in
    let at = offset % chunk_size in
    let to_write = min (chunk_size - at) (length payload) in
    let rest =
      write_chunks fuel (offset + to_write) (drop to_write payload)
        (put_chunk i (chunk_data at (take to_write payload) (existing_or_empty i chunks)) chunks) in
    if length payload == 0 then chunks else rest

abbrev pub too_large : VfsError
too_large = invalid_path (bytes "file exceeds 100 MB cap")

-- `now` and `dirty_ms` are the clock's; a round writes a byte or more, so `length data` suffices
unfoldable pub write : ℕ → List ℕ → Timestamp → ℕ → FileRows → FileRows × Outcome ℕ
write offset payload now dirty_ms f =
    if length payload == 0
    then (f, done 0)
    else if ltb max_file_size (offset + length payload)
    then (f, failed too_large)
    else elim f.inode [
      | none ↦ (f, failed not_found)
      | some n ↦ (
        record {
          inode = some (record {
            size = max n.size (offset + length payload);
            mtime = now;
            ctime = now;
            dirty_since = some dirty_ms;
          });
          chunks = write_chunks (length payload) offset payload f.chunks;
        },
        done (length payload),
      )
    ]

-- `DELETE … WHERE chunk_index > last`
unfoldable pub keep_to : ℕ → Chunks → Chunks
keep_to last [] = []
keep_to last ((j, payload) ∷ rows) =
    let rest = keep_to last rows in if leb j last then (j, payload) ∷ rest else rest

abbrev pub trim_chunk : ℕ → ℕ → Chunks → Chunks
trim_chunk last remainder chunks = elim (get last chunks) [
  | none ↦ chunks
  | some payload ↦
      if ltb remainder (length payload)
      then put_chunk last (take remainder payload) chunks
      else chunks
]

unfoldable pub truncate_chunks : ℕ → Chunks → Chunks
truncate_chunks size chunks =
    if size == 0
    then []
    else (let last = (size - 1) / chunk_size in
        let kept = keep_to last chunks in
        if ltb 0 (size % chunk_size) then trim_chunk last (size % chunk_size) kept else kept)

-- the UPDATE changes no row where the inode is gone
unfoldable pub truncate : ℕ → Timestamp → FileRows → FileRows
truncate size now f = record {
  inode =
      Option.map {A = Inode} {B = Inode} (λ n. record n { size = size; mtime = now; ctime = now })
        f.inode;
  chunks = truncate_chunks size f.chunks;
}

-- `bytes.chunks(chunk_size).enumerate()`, from chunk `i` on
unfoldable pub chunks_from : ℕ → ℕ → List ℕ → Chunks
chunks_from zero i content = []
chunks_from (suc fuel) i content =
    let rest = chunks_from fuel (i + 1) (drop chunk_size content) in
    if length content == 0 then [] else (i, take chunk_size content) ∷ rest

-- `rehydrate_raw_bytes` and `rewrite_file_content` of crates/smfs-core/src/cache/fs.rs
unfoldable pub rehydrate_raw_bytes : List ℕ → Timestamp → FileRows → FileRows
rehydrate_raw_bytes content now f = record {
  inode =
      Option.map {A = Inode} {B = Inode} (λ n. record n { size = length content; mtime = now })
        f.inode;
  chunks = chunks_from (length content) 0 content;
}

abbrev pub concat_chunks : Chunks → List ℕ
concat_chunks [] = []
concat_chunks ((i, payload) ∷ rows) = payload ++ concat_chunks rows

-- `Db::read_all_content` of crates/smfs-core/src/cache/db.rs, what the push worker sends
unfoldable pub read_all_content : FileRows → List ℕ
read_all_content f = elim f.inode [
  | none ↦ []
  | some n ↦ if n.size == 0 then [] else take n.size (concat_chunks f.chunks)
]
