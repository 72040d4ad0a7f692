-- ===== src/Lib.antt =====
-- A verification library of smfs, a file system that caches a remote document store in SQLite and
-- pushes local changes to it.
--
-- The parts of the program, and how they interact. A mount server calls the operations of a file
-- system (crates/smfs-core/src/vfs): MemFs, the in-memory reference, or SupermemoryFs, whose state
-- is a SQLite database (crates/smfs-core/src/cache). A SupermemoryFs stores the content of a file
-- in chunks (cache/file.rs) and enqueues each change in the push queue (cache/db.rs). The push
-- worker (crates/smfs-core/src/sync/push.rs) claims a job, reads the whole content, sends it to the
-- server, and finishes the row, while the file system goes on enqueueing. In the other direction,
-- the delta pull (sync/pull.rs) hands the documents that have changed on the server to
-- SupermemoryFs::reconcile_one, and the deletion scan (sync/scan.rs) hands the ids that the server
-- no longer lists to SupermemoryFs::apply_deletion.
--
-- The files. Every definition is executable.
--   Prelude     texts as lists of bytes, finite maps, lists by their elements, byte vectors
--   Cache/Op    PushOp of crates/smfs-core/src/cache/db.rs
--   Cache/Noise, Cache/Basename  is_macos_noise_path of crates/smfs-core/src/cache/db.rs
--   Cache/Queue the table push_queue: one function for each push_queue_ operation of
--               crates/smfs-core/src/cache/db.rs, under the name without that prefix (drop is
--               drop_row; clear_remote_id_after_404 is forget_remote_id). Trace has the
--               sequences of calls, Flight the interleavings of the worker's jobs with the file
--               system's calls
--   Cache/File  SqliteFile of crates/smfs-core/src/cache/file.rs (read, write, truncate),
--               rehydrate_raw_bytes of crates/smfs-core/src/cache/fs.rs and read_all_content of
--               crates/smfs-core/src/cache/db.rs, over the rows of one inode in fs_data. Layout
--               says when rows hold a content: full chunks, and a last one that may be shorter;
--               Edits has the sequences of changes of a file
--   Vfs/Error, Vfs/Path, Vfs/Types  crates/smfs-core/src/vfs/error.rs, path.rs, types.rs and
--               mode.rs
--   Vfs/Mem     MemFs of crates/smfs-core/src/vfs/mem.rs, with MemFile in Mem/Handle. Calls has
--               the sequences of calls that change the state, Entries and Changes say what an
--               operation does to the entries of all directories, Content what a write does to a
--               content, Query has the operations that change nothing, Listing is about readdir,
--               Replaced and Cycle about rename
--   Cache/Fs    SupermemoryFs of crates/smfs-core/src/cache/fs.rs: the record Fs has the tables
--               of crates/smfs-core/src/cache/schema.sql that it works on, the push queue, the
--               dentry cache and the hydration queue. Fs/Table has fs_dentry, Fs/Change the
--               statements that change tables and cache, Fs/Query the operations that only read
--               the tables (open is open_file, query_dir_entries is entries_of), Fs/Ops those
--               that change them (symlink is symlink_at, apply_metadata_updates is set_fields),
--               Fs/Handles the open files and import_file, Fs/Siblings ensure_dirs and the
--               derived files, Fs/Reconcile reconcile_one and apply_deletion, Fs/Iso
--               parse_iso_to_ms. The properties stand in Fs/Coherence, where Calls has the
--               sequences of calls, and in Fs/Lookup, Fs/Filepath, Fs/Dirty, Fs/Entries,
--               Fs/Agree (with MemFs), Fs/Deletes and Fs/Below
--   Cache/Profile  ProfileFile of crates/smfs-core/src/cache/profile.rs
--   Cache/Hydration  HydrationScheduler of crates/smfs-core/src/cache/hydration.rs
--   Sync/Db     the tables of crates/smfs-core/src/cache/db.rs that the push worker changes
--   Sync/Api    ApiError of crates/smfs-core/src/api/error.rs, and the answers of the server
--   Sync/Push   process_job of crates/smfs-core/src/sync/push.rs with all its branches,
--               backoff_ms and stuck_tier; Sync/Mime has guess_mime
--   Sync/Listing  the pages of the server's list of documents
--   Sync/Pull   delta_pull, full_pull and rehydrate_if_possible of
--               crates/smfs-core/src/sync/pull.rs
--   Sync/Scan   deletion_scan of crates/smfs-core/src/sync/scan.rs
--   Sync/Engine the initial pull and the intervals of crates/smfs-core/src/sync/mod.rs
--
-- Conventions. A statement of SQL or a call under a lock is one function from the state to the
-- state; a row of a table or of a HashMap is found by its key in an association list. The time of
-- the clock is an argument, and does not move during an operation. SQLite does not fail, and
-- numbers do not reach 2 ^ 64 (a mode is a u32, and its bit operations are written by division).
-- Recursion is structural or on fuel: a round of SqliteFile::write writes a byte or more, so that
-- the number of bytes to write is enough fuel; the rounds that empty the push queue are counted by
-- the requests it still has to send. The walk of resolve_filepath has one round more than there are
-- entries, which is enough where the entries have no cycle; a loop over the pages of the server has
-- a number of rounds as an argument, and a round reads one page.
--
-- Code of other packages. The dentry cache is an interface, Cache.Fs.LruCache, with the laws that
-- the code relies on: an entry that is put in may push out any other. The times of documents are
-- read by an argument parse_iso, in milliseconds that are not negative, the attributes of the
-- virtual file profile.md are an argument too, and so are the answers of the server and what other
-- tasks do while a request is under way. The messages of errors of SQLite are written out as
-- rusqlite gives them.
--
-- Not modelled: the set-up of the database, the spawning of the loops of the workers, the HTTP
-- client, the FUSE and NFS adapters, the daemon's sockets, the configuration files, the agent hint
-- and the command line. They are input and output, or code of other packages, or not yet part of
-- the library.
pub mod Cache
pub mod Prelude
pub mod Sync
pub mod Vfs
