-- ===== src/Cache/File/Edits.antt =====
-- A file over its lifetime: `SqliteFile::write` and `truncate` of crates/smfs-core/src/cache/file.rs
-- and `rehydrate_raw_bytes` of crates/smfs-core/src/cache/fs.rs in any order, against plain bytes.
use smfs.Prelude.{
  ℕ, ◌+◌, ◌<◌, ◌≤◌, true, List, [], ◌∷◌, ◌≡◌, inl, inr, refl, arith, ltb, length, take, drop,
  if◌then◌else◌, Bool-cases,
}
use smfs.Prelude.Eq.{nat_eq, ◌==◌}
use smfs.Prelude.Map.{get}
use smfs.Vfs.Types.{Timestamp}
use smfs.Cache.File.{
  FileRows, max_file_size, done, read, write, truncate, rehydrate_raw_bytes, read_all_content,
}
use smfs.Cache.File.Read.{Holds, read_lem}
use smfs.Cache.File.Write.{overwrite, write-Holds}
use smfs.Cache.File.Truncate.{truncate-Holds}
use smfs.Cache.File.Whole.{rehydrate_raw_bytes-Holds, read_all_content_lem}
use smfs.Cache.File.Sparse.{empty_file}

-- A call that changes a file, with the readings of the clocks.
pub data Edit : Type 0 where
  write_at : ℕ → List ℕ → Timestamp → ℕ → Edit
  truncate_to : ℕ → Timestamp → Edit
  rehydrate : List ℕ → Timestamp → Edit

abbrev pub edit : Edit → FileRows → FileRows
edit (write_at offset d now dirty_ms) f = (write offset d now dirty_ms f).0
edit (truncate_to size now) f = truncate size now f
edit (rehydrate content now) f = rehydrate_raw_bytes content now f

abbrev pub run_edits : List Edit → FileRows → FileRows
run_edits [] f = f
run_edits (e ∷ es) f = run_edits es (edit e f)

-- The same on plain bytes; a write that would end past the size limit is refused.
abbrev pub edited : Edit → List ℕ → List ℕ
edited (write_at offset d now dirty_ms) c =
    if ltb max_file_size (offset + length d) then c else overwrite offset d c
edited (truncate_to size now) c = take size c
edited (rehydrate content now) c = content

abbrev pub all_edited : List Edit → List ℕ → List ℕ
all_edited [] c = c
all_edited (e ∷ es) c = all_edited es (edited e c)

-- No write starts past the end, and no truncation makes the file longer.
abbrev pub LeavesNoHole : Edit → List ℕ → Type 0
LeavesNoHole (write_at offset d now dirty_ms) c = offset ≤ length c
LeavesNoHole (truncate_to size now) c = size ≤ length c
LeavesNoHole (rehydrate content now) c = Unit

abbrev pub LeaveNoHole : List Edit → List ℕ → Type 0
LeaveNoHole [] c = Unit
LeaveNoHole (e ∷ es) c = LeavesNoHole e c × LeaveNoHole es (edited e c)

refused_keeps :
    (offset : ℕ) (d : List ℕ) (now : Timestamp) (dirty_ms : ℕ) (f : FileRows)
    → ltb max_file_size (offset + length d) ≡ true
    → (write offset d now dirty_ms f).0 ≡ f
unfolding write
refused_keeps offset d now dirty_ms f large = elim (Bool-cases (length d == 0)) [
  | inl nothing ↦ rw (write, nothing) refl
  | inr more ↦ rw (write, more, large) refl
]

edit-Holds :
    (e : Edit) (f : FileRows) (c : List ℕ)
    → Holds f c
    → LeavesNoHole e c
    → Holds (edit e f) (edited e c)
edit-Holds (write_at offset d now dirty_ms) f c held inside =
    elim (Bool-cases (ltb max_file_size (offset + length d))) [
      | inl large ↦ rw (large, refused_keeps offset d now dirty_ms f large) held
      | inr small ↦
          rw small (write-Holds offset d now dirty_ms f c held inside (ground (arith, small))).1
    ]
edit-Holds (truncate_to size now) f c held shorter = truncate-Holds size now f c held shorter
edit-Holds (rehydrate content now) f c held u =
    rehydrate_raw_bytes-Holds content now f held.node held.found

run_edits-Holds :
    (es : List Edit) (f : FileRows) (c : List ℕ)
    → Holds f c
    → LeaveNoHole es c
    → Holds (run_edits es f) (all_edited es c)
run_edits-Holds [] f c held fits = held
run_edits-Holds (e ∷ es) f c held fits =
    run_edits-Holds es (edit e f) (edited e c) (edit-Holds e f c held fits.0) fits.1

empty_file-Holds : (now : Timestamp) → Holds (empty_file now) []
unfolding get
empty_file-Holds now = record {
  node = _;
  found = refl;
  sized = refl;
  rows = record { sorted = tt; chunk = λ i. ground arith };
}

-- A new file after any sequence of writes, truncations and rehydrations, of which no write starts past
-- the end of the file and no truncation makes it longer: every read of a byte or more returns the
-- bytes that the same changes of a plain byte sequence leave there, the refused writes left out, and
-- `read_all_content` returns all of them.
pub run_edits-reads :
    (es : List Edit) (now : Timestamp) (offset size : ℕ)
    → LeaveNoHole es []
    → 0 < size
    → (read offset size (run_edits es (empty_file now))
        ≡ done (take size (drop offset (all_edited es []))))
      × (read_all_content (run_edits es (empty_file now)) ≡ all_edited es [])
run_edits-reads es now offset size fits some_bytes =
    let held = run_edits-Holds es (empty_file now) [] (empty_file-Holds now) fits in
    (
      read_lem offset size _ (all_edited es []) held some_bytes,
      read_all_content_lem _ (all_edited es []) held,
    )
