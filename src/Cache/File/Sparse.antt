-- ===== src/Cache/File/Sparse.antt =====
-- Files with a short chunk that is not the last one, and reads past the end of a short chunk:
-- `SqliteFile::read` of crates/smfs-core/src/cache/file.rs and `Db::read_all_content` of
-- crates/smfs-core/src/cache/db.rs do not give the bytes that were written.
use smfs.Prelude.{
  ℕ, zero, suc, ◌+◌, ◌-◌, ◌*◌, ◌/◌, ◌%◌, ◌<◌, ◌≤◌, min, max, false, none, some, List, [], ◌∷◌, ◌++◌,
  ◌≡◌, inl, inr, refl, ap, ◌∙◌, arith, Bool-cases, ltb, leb, eqb, length, length-append,
}
use smfs.Prelude.Eq.{nat_eq}
use smfs.Prelude.Map.{get}
use smfs.Prelude.Seq.{get_elem?-ext, get_elem?-length, take_all, drop_all}
use smfs.Cache.File.{
  chunk_size, max_file_size, Chunks, FileRows, Inode, panicked, put_chunk, chunk_data,
  existing_or_empty, write_chunks, write, read, truncate, truncate_chunks, keep_to,
  read_all_content, read_chunks, read_rows, between, fill_gap,
}
use smfs.Vfs.Types.{Timestamp}
use smfs.Cache.File.Write.{overlay, get_elem?-chunk_data}

chunk_data-new : (d : List ℕ) → length d ≤ chunk_size → chunk_data 0 d [] ≡ d
unfolding overlay
chunk_data-new d small = get_elem?-ext _ _ (λ k. ground (
  arith,
  get_elem?-chunk_data 0 d [] k (omega arith) (omega arith) (omega arith),
  get_elem?-length d k,
))

write_chunks-nil : (fuel off : ℕ) (rows : Chunks) → write_chunks fuel off [] rows ≡ rows
unfolding write_chunks
write_chunks-nil zero off rows = refl
write_chunks-nil (suc fuel) off rows = refl

-- One round stores a piece that is at most a chunk, at the start of a chunk with no row.
write_new_chunk :
    (fuel i : ℕ) (x : ℕ) (d : List ℕ) (rows : Chunks)
    → length (x ∷ d) ≤ chunk_size
    → get i rows ≡ none
    → write_chunks (suc fuel) (i * chunk_size) (x ∷ d) rows ≡ put_chunk i (x ∷ d) rows
unfolding write_chunks
write_new_chunk fuel i x d rows small fresh =
    let row : i * chunk_size / chunk_size ≡ i = omega arith in
    let start : i * chunk_size % chunk_size ≡ 0 = omega arith in
    let all_of_it : min (chunk_size - 0) (suc (length d)) ≡ suc (length d) = omega arith in
    let more : eqb (suc (length d)) 0 ≡ false = ground arith in
    rw
      (
        more,
        row,
        start,
        all_of_it,
        existing_or_empty,
        fresh,
        take_all (length d) d (omega arith),
        drop_all (length d) d (omega arith),
        chunk_data-new (x ∷ d) small,
      )
      (write_chunks-nil fuel _ _)

write_new :
    (i x : ℕ) (d : List ℕ) (t : Timestamp) (now_ms : ℕ) (f : FileRows) (n : Inode)
    → f.inode ≡ some n
    → length (x ∷ d) ≤ chunk_size
    → i * chunk_size + length (x ∷ d) ≤ max_file_size
    → get i f.chunks ≡ none
    → (write (i * chunk_size) (x ∷ d) t now_ms f).0 ≡ record {
      inode = some (record {
        size = max n.size (i * chunk_size + length (x ∷ d));
        mtime = t;
        ctime = t;
        dirty_since = some now_ms;
      });
      chunks = put_chunk i (x ∷ d) f.chunks;
    }
unfolding write
write_new i x d t now_ms f n found small cap fresh =
    let more : eqb (suc (length d)) 0 ≡ false = ground arith in
    let below : ltb max_file_size (i * chunk_size + suc (length d)) ≡ false = ground arith in
    rw (more, below, found, write_new_chunk (length d) i x d f.chunks small fresh) refl

-- A file with no bytes and no rows, as `create_file` leaves it.
abbrev pub empty_file : Timestamp → FileRows
empty_file t = record {
  inode = some (record { size = 0; mtime = t; ctime = t; dirty_since = none });
  chunks = [];
}

-- The file after the bytes `x ∷ d` at 0 and `y ∷ e` at the start of the next chunk.
abbrev pub two_writes : Timestamp → ℕ → List ℕ → List ℕ → FileRows
two_writes t now_ms d e = (write chunk_size e t now_ms (write 0 d t now_ms (empty_file t)).0).0

two_writes_lem :
    (t : Timestamp) (now_ms x : ℕ) (d : List ℕ) (y : ℕ) (e : List ℕ)
    → length (x ∷ d) ≤ chunk_size
    → length (y ∷ e) ≤ chunk_size
    → two_writes t now_ms (x ∷ d) (y ∷ e) ≡ record {
      inode = some (record {
        size = chunk_size + length (y ∷ e);
        mtime = t;
        ctime = t;
        dirty_since = some now_ms;
      });
      chunks = (0, x ∷ d) ∷ (1, y ∷ e) ∷ [];
    }
unfolding put_chunk get
two_writes_lem t now_ms x d y e small_d small_e =
    let size : max (max 0 (0 * chunk_size + length (x ∷ d))) (chunk_size + length (y ∷ e))
        ≡ chunk_size + length (y ∷ e) =
      omega arith in
    ap (λ f. (write (1 * chunk_size) (y ∷ e) t now_ms f).0)
      (write_new 0 x d t now_ms (empty_file t) _ refl small_d (omega arith) refl)
    ∙ write_new 1 y e t now_ms _ _ refl small_e (omega arith) refl
    ∙ rw size refl

append_nil : (xs : List ℕ) → xs ++ [] ≡ xs
append_nil [] = refl
append_nil (x ∷ xs) = ap (λ ys. x ∷ ys) (append_nil xs)

-- When a file's first chunk is shorter than a chunk and the next chunk has been written, the push
-- worker is given the two pieces without the zeros between them.
pub read_all_content-two_writes :
    (t : Timestamp) (now_ms x : ℕ) (d : List ℕ) (y : ℕ) (e : List ℕ)
    → length (x ∷ d) ≤ chunk_size
    → length (y ∷ e) ≤ chunk_size
    → read_all_content (two_writes t now_ms (x ∷ d) (y ∷ e)) ≡ (x ∷ d) ++ (y ∷ e)
unfolding read_all_content
read_all_content-two_writes t now_ms x d y e small_d small_e =
    let more : eqb (chunk_size + suc (length e)) 0 ≡ false = ground arith in
    ap read_all_content (two_writes_lem t now_ms x d y e small_d small_e)
    ∙ rw (more, append_nil e)
        (take_all (chunk_size + length (y ∷ e)) ((x ∷ d) ++ (y ∷ e))
          (omega (arith, length-append (x ∷ d) (y ∷ e))))

-- A truncation that makes a one-chunk file longer stores no zeros.
truncate_chunks-longer :
    (size : ℕ) (d : List ℕ)
    → length d ≤ size
    → 0 < size
    → size ≤ chunk_size
    → truncate_chunks size ((0, d) ∷ []) ≡ (0, d) ∷ []
unfolding truncate_chunks keep_to get
truncate_chunks-longer size d short some_bytes one =
    let more : eqb size 0 ≡ false = ground arith in
    let row : (size - 1) / chunk_size ≡ 0 = omega arith in
    elim (Bool-cases (ltb 0 (size % chunk_size))) [
      | inr whole ↦ rw (more, row, whole) refl
      | inl part ↦
          let same : ltb (size % chunk_size) (length d) ≡ false = ground arith in
          rw (more, row, part, same) refl
    ]

read_rows-past :
    (off n : ℕ) (d : List ℕ)
    → length d < off
    → 0 < n
    → read_rows 0 off n ((0, d) ∷ []) 0 [] ≡ panicked
unfolding read_rows fill_gap
read_rows-past off n d past some_bytes =
    let more : leb n 0 ≡ false = ground arith in
    let outside : leb (off + min (length d - off) (n - 0)) (length d) ≡ false = ground arith in
    rw (more, outside) refl

read_chunks-past :
    (off n : ℕ) (d : List ℕ)
    → length d < off
    → 0 < n
    → off + n ≤ chunk_size
    → read_chunks off n ((0, d) ∷ []) ≡ panicked
unfolding read_chunks between
read_chunks-past off n d past some_bytes one =
    let first : off / chunk_size ≡ 0 = omega arith in
    let skip : off % chunk_size ≡ off = omega arith in
    let last : (off + n - 1) / chunk_size ≡ 0 = omega arith in
    rw (first, skip, last, read_rows-past off n d past some_bytes) refl

-- A file of one chunk that a truncation has made longer, still in its first chunk: a read that
-- starts past the bytes that were written panics.
pub read_past_short_chunk_panics :
    (off n size : ℕ) (t : Timestamp) (now_ms x : ℕ) (d : List ℕ)
    → length (x ∷ d) < off
    → off < size
    → size ≤ chunk_size
    → 0 < n
    → read off n (truncate size t (write 0 (x ∷ d) t now_ms (empty_file t)).0) ≡ panicked
unfolding read truncate put_chunk get
read_past_short_chunk_panics off n size t now_ms x d past before one some_bytes =
    let inside : leb size off ≡ false = ground arith in
    ap (λ f. read off n (truncate size t f))
      (write_new 0 x d t now_ms (empty_file t) _ refl (omega arith) (omega arith) refl)
    ∙ rw (inside, truncate_chunks-longer size (x ∷ d) (omega arith) (omega arith) one)
        (read_chunks-past off (min n (size - off)) (x ∷ d) past (omega arith) (omega arith))
