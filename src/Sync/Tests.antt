-- ===== src/Sync/Tests.antt =====
-- The pull and the deletion scan at a small file system and a small server.
use smfs.Prelude.{
  ◌≤◌, Option, none, some, [], ◌∷◌, ◌≡◌, ◌≢◌, inl, refl, sym, arith, is_some, true, false,
}
use smfs.Prelude.Eq.{Text, text_eq, nat_eq, bytes}
use smfs.Prelude.Map.{get, insert, update, UniqueKeys}
use smfs.Vfs.Error.{◌>>=◌}
use smfs.Vfs.Path.{validate_name}
use smfs.Sync.Db.{new_remote}
use smfs.Sync.Listing.{Page, Server, returned, unfinished, HasPages}
use smfs.Sync.Scan.{listed_ids, deletion_scan}
use smfs.Sync.Scan.Laws.{IsKept, scan_keeps}
use smfs.Sync.Scan.Removes.{IsRemoved, scan_removes}
use smfs.Sync.Scan.Ends.{listed_ids-ends}
use smfs.Sync.Pull.{
  Response, Synced, delta_pull, pull_pages, pull_page, pull_document, rehydrate_if_possible,
}
use smfs.Sync.Pull.Again.{delta_pull_again}
use smfs.Sync.Pull.Rehydrate.{rehydrate_overwrites}
use smfs.Sync.Engine.{adaptive_interval, initial_pull, initial_pull_with_progress}
use smfs.Sync.Engine.Initial.{adaptive_interval-bounds, initial_pull_with_progress_lem}
use smfs.Cache.Fs.{Fs, Row, new_row}
use smfs.Cache.Fs.Table.{name_of}
use smfs.Cache.Fs.Change.{add_inode, change_inode}
use smfs.Cache.Fs.Ops.{mkdir, create_file}
use smfs.Cache.Fs.Siblings.{all_chunks}
use smfs.Cache.Fs.Reconcile.{Document, ino_by_remote_id, dirty_at}
use smfs.Cache.Fs.Coherence.Calls.{call, run}
use smfs.Cache.Fs.Sample.{table_cache, noon, clock, no_time, tree}

abbrev doc : Document
doc = record {
  id = bytes "doc1";
  filepath = some (bytes "/n.md");
  content = some (bytes "text");
  status = bytes "done";
  updated_at = bytes "2025-01-02";
  type_ = some (bytes "text");
  url = none;
}

-- a server with one page of one document
abbrev page : Page
page = record { memories = doc ∷ []; total_pages = 1 }

abbrev server : Server
server i = some page

server_pages : HasPages 1 server
server_pages i p e = of_page e
  where
    of_page : some page ≡ some p → p.total_pages ≤ 1
    of_page e = let same : page ≡ p = cc e in rw (sym same) (omega arith)

listed : listed_ids 2 server 1 ≡ returned (bytes "doc1" ∷ [])
unfolding listed_ids
listed = refl

listed_ids-ends_example : listed_ids 2 server 1 ≢ unfinished
listed_ids-ends_example = listed_ids-ends 1 1 1 server server_pages (omega arith)

-- The file 3 has the listed document, and the file 4 is uploaded while the server answers.
abbrev synced : Fs
synced = record tree { remote = (3, new_remote (bytes "doc1")) ∷ [] }

abbrev upload : Fs → Fs
upload s = record s { remote = insert 4 (new_remote (bytes "doc2")) s.remote }

rows_unique : UniqueKeys (upload synced).remote
unfolding get insert
rows_unique = (refl, (refl, tt))

row_kept : get 3 (upload synced).remote ≡ some (new_remote (bytes "doc1"))
unfolding get insert
row_kept = refl

scan_keeps_example : IsKept 3 (upload synced) (deletion_scan 2 (some server) upload synced).0
scan_keeps_example =
    scan_keeps 2 server upload synced (bytes "doc1" ∷ []) 3 (new_remote (bytes "doc1")) listed
      rows_unique row_kept (inl refl)

upload_known : ino_by_remote_id (bytes "doc2") (upload synced).remote ≡ some 4
unfolding ino_by_remote_id get insert
upload_known = refl

upload_clean : is_some (dirty_at (get 4 (upload synced).inodes)) ≡ false
unfolding call run mkdir create_file add_inode change_inode validate_name get insert update ◌>>=◌
upload_clean = refl

upload_named : is_some (name_of 4 (upload synced).dentries) ≡ true
unfolding call run mkdir create_file add_inode change_inode validate_name get insert update ◌>>=◌
    name_of
upload_named = refl

scan_removes_example : IsRemoved 4 (deletion_scan 2 (some server) upload synced).0
scan_removes_example =
    scan_removes 2 server upload synced (bytes "doc1" ∷ []) (bytes "doc2") 4 listed refl rows_unique
      upload_known upload_clean upload_named

abbrev no_fetch : Text → Option Response
no_fetch url = none

abbrev before : Synced
before = record { fs = tree; meta = [] }

abbrev pulled : Synced
pulled = (delta_pull clock no_time no_fetch (λ s. s) 1 (some server) before).0

pulled_done :
    delta_pull clock no_time no_fetch (λ s. s) 1 (some server) before ≡ (pulled, returned 1)
unfolding delta_pull pull_pages pull_page pull_document get
pulled_done = refl

delta_pull_again_example :
    delta_pull clock no_time no_fetch (λ s. s) 1 (some server) pulled ≡ (pulled, returned 0)
delta_pull_again_example =
    delta_pull_again clock no_time no_fetch (λ s. s) 0 0 server server before pulled 1 page page doc
      [] [] refl refl refl refl refl pulled_done

abbrev raw : Document
raw = record doc { type_ = some (bytes "pdf"); url = some (bytes "u") }

abbrev response : Response
response = record { content_length = some 3; body = some (1 ∷ 2 ∷ 3 ∷ []) }

abbrev fetch : Text → Option Response
fetch url = some response

-- a local write during the download
abbrev write : Fs → Fs
write s = record s {
  inodes = update 3 (λ r. record r { size = 2; dirty_since = some 900 }) s.inodes;
  blobs = insert 3 ((0, bytes "hi") ∷ []) s.blobs;
}

abbrev row_3 : Row
row_3 = record (new_row 0o100644 1 0 0 2 noon) { dirty_since = some 900 }

raw_known : ino_by_remote_id (bytes "doc1") synced.remote ≡ some 3
unfolding ino_by_remote_id
raw_known = refl

write_row : get 3 (write synced).inodes ≡ some row_3
unfolding call run mkdir create_file add_inode change_inode validate_name get insert update ◌>>=◌
write_row = refl

rehydrate_overwrites_example :
    (get 3 (rehydrate_if_possible clock fetch write raw synced).blobs
      ≡ some (all_chunks (1 ∷ 2 ∷ 3 ∷ [])))
    × (get 3 (rehydrate_if_possible clock fetch write raw synced).inodes
        ≡ some (record row_3 { size = 3; mtime = noon }))
rehydrate_overwrites_example =
    rehydrate_overwrites clock fetch write raw synced (bytes "u") 3 response (1 ∷ 2 ∷ 3 ∷ []) row_3
      refl raw_known refl refl refl write_row

adaptive_interval-bounds_example :
    (5 ≤ adaptive_interval 30 0 123456789) × (adaptive_interval 30 0 123456789 ≤ 65)
adaptive_interval-bounds_example =
    adaptive_interval-bounds 30 0 123456789 (omega arith) (omega arith)

initial_pull_with_progress_lem_example :
    initial_pull_with_progress 2 (some server) clock no_time no_fetch (λ s. s) (λ s. s) before
    ≡ initial_pull 2 (some server) clock no_time no_fetch (λ s. s) (λ s. s) before
initial_pull_with_progress_lem_example =
    initial_pull_with_progress_lem 1 server clock no_time no_fetch (λ s. s) before server_pages
