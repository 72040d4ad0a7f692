-- ===== src/Cache/File/Tests.antt =====
-- The file's theorems at small contents.
use smfs.Prelude.{ℕ, none, List, [], ◌∷◌, ◌≡◌, refl, arith}
use smfs.Cache.File.{
  FileRows, Inode, done, panicked, read, write, truncate, rehydrate_raw_bytes, read_all_content,
}
use smfs.Prelude.Int.{pos}
use smfs.Vfs.Types.{Timestamp}
use smfs.Cache.File.Read.{Holds, read_lem}
use smfs.Cache.File.Write.{overwrite, write-Holds}
use smfs.Cache.File.Edits.{Edit, run_edits, LeaveNoHole, run_edits-reads}
use smfs.Cache.File.Truncate.{truncate-Holds}
use smfs.Cache.File.Whole.{rehydrate_raw_bytes-Holds}
use smfs.Cache.File.Sparse.{
  empty_file, two_writes, read_all_content-two_writes, read_past_short_chunk_panics,
}

abbrev noon : Timestamp
noon = record { sec = pos 43200; nsec = 7 }

abbrev fresh : Inode
fresh = record { size = 0; mtime = noon; ctime = noon; dirty_since = none }

abbrev abcde : List ℕ
abcde = 97 ∷ 98 ∷ 99 ∷ 100 ∷ 101 ∷ []

abbrev stored : FileRows
stored = rehydrate_raw_bytes abcde noon (empty_file noon)

stored-Holds : Holds stored abcde
stored-Holds = rehydrate_raw_bytes-Holds abcde noon (empty_file noon) fresh refl

read_lem_example : read 3 4 stored ≡ done (100 ∷ 101 ∷ [])
read_lem_example = read_lem 3 4 stored abcde stored-Holds (omega arith)

write-Holds_example :
    ((write 4 (7 ∷ 8 ∷ []) noon 5 stored).1 ≡ done 2)
    × Holds (write 4 (7 ∷ 8 ∷ []) noon 5 stored).0 (overwrite 4 (7 ∷ 8 ∷ []) abcde)
write-Holds_example =
    write-Holds 4 (7 ∷ 8 ∷ []) noon 5 stored abcde stored-Holds (omega arith) (omega arith)

-- a new file with the bytes 1 to 5, of which it keeps 4 and has two replaced
abbrev edits : List Edit
edits =
    Edit.write_at 0 (1 ∷ 2 ∷ 3 ∷ 4 ∷ 5 ∷ []) noon 5
    ∷ Edit.truncate_to 4 noon
    ∷ Edit.write_at 1 (7 ∷ 8 ∷ []) noon 6
    ∷ []

edits-LeaveNoHole : LeaveNoHole edits []
unfolding overwrite
edits-LeaveNoHole = (omega arith, (omega arith, (omega arith, tt)))

run_edits-reads_example :
    (read 2 9 (run_edits edits (empty_file noon)) ≡ done (8 ∷ 4 ∷ []))
    × (read_all_content (run_edits edits (empty_file noon)) ≡ 1 ∷ 7 ∷ 8 ∷ 4 ∷ [])
unfolding overwrite
run_edits-reads_example = run_edits-reads edits noon 2 9 edits-LeaveNoHole (omega arith)

truncate-Holds_example : Holds (truncate 2 noon stored) (97 ∷ 98 ∷ [])
truncate-Holds_example = truncate-Holds 2 noon stored abcde stored-Holds (omega arith)

read_all_content-two_writes_example :
    read_all_content (two_writes noon 5 (1 ∷ 2 ∷ []) (3 ∷ [])) ≡ 1 ∷ 2 ∷ 3 ∷ []
read_all_content-two_writes_example =
    read_all_content-two_writes noon 5 1 (2 ∷ []) 3 [] (omega arith) (omega arith)

read_past_short_chunk_panics_example :
    read 50 10 (truncate 100 noon (write 0 (1 ∷ 2 ∷ []) noon 5 (empty_file noon)).0) ≡ panicked
read_past_short_chunk_panics_example =
    read_past_short_chunk_panics 50 10 100 noon 5 1 (2 ∷ []) (omega arith) (omega arith)
      (omega arith) (omega arith)
