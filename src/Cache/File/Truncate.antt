-- ===== src/Cache/File/Truncate.antt =====
-- `SqliteFile::truncate` of crates/smfs-core/src/cache/file.rs on the rows of a content: to a size
-- that is not larger, it keeps the content's first bytes.
use smfs.Prelude.{
  ℕ, zero, suc, ◌+◌, ◌-◌, ◌*◌, ◌/◌, ◌%◌, ◌<◌, ◌≤◌, false, none, some, List, ◌≡◌, ◌⊎◌, inl, inr,
  refl, ap, ◌∙◌, arith, Bool-cases, ltb, length, take, length-take, if◌then◌else◌,
}
use smfs.Prelude.Eq.{nat_eq, ◌==◌}
use smfs.Prelude.Map.{get}
use smfs.Prelude.Seq.{get_elem?-take, get_elem?-ext, take_all}
use smfs.Cache.File.{
  chunk_size, Chunks, FileRows, put_chunk, keep_to, trim_chunk, truncate_chunks, truncate,
}
use smfs.Vfs.Types.{Timestamp}
use smfs.Cache.File.Layout.{
  chunk_at, IsContent, get_elem?-chunk_at, length-chunk_at, get-put_chunk, IsSorted-put_chunk,
  get-keep_to, IsSorted-keep_to,
}
use smfs.Cache.File.Read.{Holds}

chunk_at-take :
    (n : ℕ) (c : List ℕ) (j : ℕ) → chunk_at (take n c) j ≡ take (n - j * chunk_size) (chunk_at c j)
chunk_at-take n c j = get_elem?-ext _ _ (λ k. ground (
  arith,
  get_elem?-chunk_at (take n c) j k,
  get_elem?-take n c (j * chunk_size + k),
  get_elem?-take (n - j * chunk_size) (chunk_at c j) k,
  get_elem?-chunk_at c j k,
))

chunk_at-kept :
    (n : ℕ) (c : List ℕ) (j : ℕ)
    → length (chunk_at c j) ≤ n - j * chunk_size
    → chunk_at (take n c) j ≡ chunk_at c j
chunk_at-kept n c j h = chunk_at-take n c j ∙ take_all (n - j * chunk_size) (chunk_at c j) h

module _ (n : ℕ) (c : List ℕ) (rows : Chunks) (held : IsContent rows c) (shorter : n ≤ length c)
    (some_bytes : 0 < n) where
  last_row : ℕ
  last_row = (n - 1) / chunk_size

  trimmed : Chunks
  trimmed = trim_chunk last_row (n % chunk_size) (keep_to last_row rows)

  last_chunk : get last_row (keep_to last_row rows) ≡ some (chunk_at c last_row)
  unfolding last_row
  last_chunk = ground (arith, get-keep_to last_row last_row rows, held.chunk last_row)

  trim_cases :
      ((length (chunk_at c last_row) ≤ n % chunk_size) × (trimmed ≡ keep_to last_row rows))
      ⊎ ((n % chunk_size < length (chunk_at c last_row))
          × (trimmed
              ≡ put_chunk last_row
                  (take (n % chunk_size) (chunk_at c last_row))
                  (keep_to last_row rows)))
  unfolding trimmed
  trim_cases = elim (Bool-cases (ltb (n % chunk_size) (length (chunk_at c last_row)))) [
    | inl longer ↦ inr (ground arith, rw (trim_chunk, last_chunk, longer) refl)
    | inr small ↦ inl (ground arith, rw (trim_chunk, last_chunk, small) refl)
  ]

  kept_chunk :
      (j : ℕ)
      → get j (keep_to last_row rows)
        ≡ (if ltb (j * chunk_size) n then some (chunk_at c j) else none)
  unfolding last_row
  kept_chunk j = ground (arith, get-keep_to last_row j rows, held.chunk j)

  length-kept : length (take n c) ≡ n
  length-kept = omega (arith, length-take n c)

  kept_IsContent :
      (length (chunk_at c last_row) ≤ n - last_row * chunk_size)
      → IsContent (keep_to last_row rows) (take n c)
  unfolding last_row
  kept_IsContent h = record {
    sorted = IsSorted-keep_to last_row rows held.sorted;
    chunk =
        λ j. ground (arith, kept_chunk j, length-kept, h, length-chunk_at c j, chunk_at-kept n c j);
  }

  cut_IsContent :
      0 < n % chunk_size
      → IsContent
          (put_chunk last_row (take (n % chunk_size) (chunk_at c last_row)) (keep_to last_row rows))
          (take n c)
  unfolding last_row
  cut_IsContent h =
      let there : n - last_row * chunk_size ≡ n % chunk_size = omega arith in
      let cut = take (n % chunk_size) (chunk_at c last_row) in
      let last_cut : chunk_at (take n c) last_row ≡ cut =
        chunk_at-take n c last_row ∙ ap (λ m. take m (chunk_at c last_row)) there in
      record {
        sorted =
            IsSorted-put_chunk last_row cut (keep_to last_row rows)
              (IsSorted-keep_to last_row rows held.sorted);
        chunk = λ j. ground (
          arith,
          get-put_chunk last_row j cut (keep_to last_row rows),
          kept_chunk j,
          length-kept,
          last_cut,
          length-chunk_at c j,
          chunk_at-kept n c j,
        );
      }

  shorter_IsContent : IsContent (truncate_chunks n rows) (take n c)
  unfolding truncate_chunks trimmed last_row
  shorter_IsContent =
      let size = length-chunk_at c last_row in
      let more : (n == 0) ≡ false = ground arith in
      elim (Bool-cases (ltb 0 (n % chunk_size))) [
        | inr whole ↦ rw (more, whole) (kept_IsContent (ground (arith, size)))
        | inl cuts ↦
            rw (more, cuts)
              (elim trim_cases [
                | inl same ↦ rw same.1 (kept_IsContent (ground (arith, size, same.0)))
                | inr less ↦ rw less.1 (cut_IsContent (ground arith))
              ])
      ]

truncate_chunks-IsContent :
    (n : ℕ) (c : List ℕ) (rows : Chunks)
    → IsContent rows c
    → n ≤ length c
    → IsContent (truncate_chunks n rows) (take n c)
unfolding truncate_chunks get
truncate_chunks-IsContent zero c rows held shorter = record {
  sorted = tt;
  chunk = λ i. ground arith;
}
truncate_chunks-IsContent (suc n) c rows held shorter =
    shorter_IsContent (suc n) c rows held shorter (omega arith)

-- Truncating a file that holds `c` to a size that `c` has leaves a file that holds the first
-- `size` bytes of `c`.
pub truncate-Holds :
    (size : ℕ) (now : Timestamp) (f : FileRows) (c : List ℕ)
    → Holds f c
    → size ≤ length c
    → Holds (truncate size now f) (take size c)
unfolding truncate
truncate-Holds size now f c held shorter = record {
  node = record held.node { size = size; mtime = now; ctime = now };
  found = rw held.found refl;
  sized = omega (arith, length-take size c);
  rows = truncate_chunks-IsContent size c f.chunks held.rows shorter;
}
