-- ===== src/Cache/File/Write.antt =====
-- `SqliteFile::write` of crates/smfs-core/src/cache/file.rs on the rows of a content: it puts the
-- bytes in place, if the offset is in the content or at its end.
use smfs.Prelude.{
  ℕ, zero, suc, ◌+◌, ◌-◌, ◌*◌, ◌/◌, ◌%◌, ◌<◌, ◌≤◌, min, max, false, Option, none, List, [], ◌∷◌,
  ◌++◌, ◌≡◌, inl, inr, refl, sym, arith, Bool-cases, ltb, length, get_elem?, take, drop, replicate,
  length-take, length-drop, length-append, if◌then◌else◌,
}
use smfs.Prelude.Eq.{nat_eq, ◌==◌}
use smfs.Prelude.Seq.{
  get_elem?-take, get_elem?-drop, get_elem?-append, get_elem?-ext, get_elem?-replicate,
  get_elem?-length,
}
use smfs.Cache.File.{
  chunk_size, max_file_size, Chunks, FileRows, done, put_chunk, chunk_data, existing_or_empty,
  write_chunks, write,
}
use smfs.Vfs.Types.{Timestamp}
use smfs.Prelude.Vec.{resize, copy_from_slice, length-resize}
use smfs.Cache.File.Layout.{
  chunk_at, IsContent, get_elem?-chunk_at, length-chunk_at, get-put_chunk, IsSorted-put_chunk,
}
use smfs.Cache.File.Read.{Holds}

-- The content with `d` over the bytes from `off` on, and longer where `d` ends past it.
unfoldable pub overwrite : ℕ → List ℕ → List ℕ → List ℕ
overwrite off d c = take off c ++ (d ++ drop (off + length d) c)

unfoldable pub overlay : ℕ → List ℕ → List ℕ → ℕ → Option ℕ
overlay off d c k =
    if ltb k off
    then get_elem? c k
    else if ltb k (off + length d)
    then get_elem? d (k - off)
    else get_elem? c k

get_elem?-overwrite :
    (off : ℕ) (d c : List ℕ) (k : ℕ)
    → off ≤ length c
    → get_elem? (overwrite off d c) k ≡ overlay off d c k
unfolding overwrite overlay
get_elem?-overwrite off d c k inside = ground (
  arith,
  length-take off c,
  get_elem?-append (take off c) (d ++ drop (off + length d) c) k,
  get_elem?-append d (drop (off + length d) c) (k - off),
  get_elem?-take off c k,
  get_elem?-drop (off + length d) c (k - off - length d),
)

pub length-overwrite :
    (off : ℕ) (d c : List ℕ)
    → off ≤ length c
    → length (overwrite off d c) ≡ max (length c) (off + length d)
unfolding overwrite
length-overwrite off d c inside = omega (
  arith,
  length-take off c,
  length-append (take off c) (d ++ drop (off + length d) c),
  length-append d (drop (off + length d) c),
  length-drop (off + length d) c,
)

get_elem?-copy_from_slice :
    (at : ℕ) (piece buf : List ℕ) (k : ℕ)
    → at ≤ length buf
    → get_elem? (copy_from_slice at piece buf) k ≡ overlay at piece buf k
unfolding copy_from_slice overlay
get_elem?-copy_from_slice at piece buf k inside = ground (
  arith,
  length-take at buf,
  length-append (take at buf) piece,
  get_elem?-append (take at buf ++ piece) (drop (at + length piece) buf) k,
  get_elem?-append (take at buf) piece k,
  get_elem?-take at buf k,
  get_elem?-drop (at + length piece) buf (k - at - length piece),
)

overlay-resize :
    (at : ℕ) (piece old : List ℕ) (k : ℕ)
    → at ≤ length old
    → length old < at + length piece
    → overlay at piece (resize (at + length piece) old) k ≡ overlay at piece old k
unfolding overlay resize
overlay-resize at piece old k inside grows = ground (
  arith,
  get_elem?-append old (replicate (at + length piece - length old) 0) k,
  get_elem?-replicate {A = ℕ} (at + length piece - length old) 0 (k - length old),
  get_elem?-length old k,
)

-- The buffer of one round: what was there, with the piece over it.
pub get_elem?-chunk_data :
    (at : ℕ) (piece old : List ℕ) (k : ℕ)
    → at ≤ length old
    → length old ≤ chunk_size
    → at + length piece ≤ chunk_size
    → get_elem? (chunk_data at piece old) k ≡ overlay at piece old k
unfolding chunk_data overlay
get_elem?-chunk_data at piece old k inside small fits =
    let whole : length piece ≡ chunk_size → get_elem? piece k ≡ overlay at piece old k =
      λ e. ground (arith, e, get_elem?-length old k, get_elem?-length piece k) in
    let grown : List ℕ = resize (at + length piece) old in
    ground (
      arith,
      whole,
      get_elem?-copy_from_slice at piece old k,
      get_elem?-copy_from_slice at piece grown k,
      overlay-resize at piece old k,
      length-resize (at + length piece) old,
    )

-- What a chunk of the content holds, whether it has a row or not.
existing_or_empty_lem :
    (c : List ℕ) (i : ℕ) (rows : Chunks)
    → IsContent rows c
    → existing_or_empty i rows ≡ (if ltb (i * chunk_size) (length c) then chunk_at c i else [])
existing_or_empty_lem c i rows held = elim (Bool-cases (ltb (i * chunk_size) (length c))) [
  | inl inside ↦ rw (existing_or_empty, held.chunk i, inside) refl
  | inr past ↦ rw (existing_or_empty, held.chunk i, past) refl
]

length-existing_or_empty :
    (c : List ℕ) (i : ℕ) (rows : Chunks)
    → IsContent rows c
    → length (existing_or_empty i rows) ≡ min chunk_size (length c - i * chunk_size)
length-existing_or_empty c i rows held =
    rw (existing_or_empty_lem c i rows held) (ground (arith, length-chunk_at c i))

get_elem?-existing_or_empty :
    (c : List ℕ) (i k : ℕ) (rows : Chunks)
    → IsContent rows c
    → get_elem? (existing_or_empty i rows) k
      ≡ (if ltb k chunk_size then get_elem? c (i * chunk_size + k) else none)
get_elem?-existing_or_empty c i k rows held =
    rw (existing_or_empty_lem c i rows held)
      (ground (arith, get_elem?-chunk_at c i k, get_elem?-length c (i * chunk_size + k)))

module _ (off : ℕ) (piece c : List ℕ) (rows : Chunks) (held : IsContent rows c)
    (inside : off ≤ length c) (some_bytes : 0 < length piece)
    (fits : off % chunk_size + length piece ≤ chunk_size) where
  round_data : List ℕ
  round_data = chunk_data (off % chunk_size) piece (existing_or_empty (off / chunk_size) rows)

  round_here : round_data ≡ chunk_at (overwrite off piece c) (off / chunk_size)
  unfolding round_data overlay
  round_here =
      let i = off / chunk_size in
      let at = off % chunk_size in
      let old = existing_or_empty i rows in
      let size = length-existing_or_empty c i rows held in
      get_elem?-ext _ _ (λ k. ground (
        arith,
        size,
        get_elem?-chunk_data at piece old k (omega (arith, size)) (omega (arith, size)) fits,
        get_elem?-existing_or_empty c i k rows held,
        get_elem?-chunk_at (overwrite off piece c) i k,
        get_elem?-overwrite off piece c (i * chunk_size + k) inside,
      ))

  round_elsewhere :
      (j : ℕ) → ¬ (j ≡ off / chunk_size) → chunk_at (overwrite off piece c) j ≡ chunk_at c j
  unfolding overlay
  round_elsewhere j other = get_elem?-ext _ _ (λ k. ground (
    arith,
    other,
    get_elem?-chunk_at (overwrite off piece c) j k,
    get_elem?-chunk_at c j k,
    get_elem?-overwrite off piece c (j * chunk_size + k) inside,
  ))

  round_IsContent : IsContent (put_chunk (off / chunk_size) round_data rows) (overwrite off piece c)
  round_IsContent = record {
    sorted = IsSorted-put_chunk (off / chunk_size) round_data rows held.sorted;
    chunk = λ j. ground (
      arith,
      get-put_chunk (off / chunk_size) j round_data rows,
      held.chunk j,
      length-overwrite off piece c inside,
      round_here,
      round_elsewhere j,
    );
  }

overwrite-nil : (off : ℕ) (c : List ℕ) → off ≤ length c → overwrite off [] c ≡ c
unfolding overlay
overwrite-nil off c inside =
    get_elem?-ext _ _ (λ k. ground (arith, get_elem?-overwrite off [] c k inside))

overwrite-overwrite :
    (off n : ℕ) (d c : List ℕ)
    → off ≤ length c
    → n ≤ length d
    → overwrite (off + n) (drop n d) (overwrite off (take n d) c) ≡ overwrite off d c
unfolding overlay
overwrite-overwrite off n d c inside within =
    let mid : List ℕ = overwrite off (take n d) c in
    let first = length-take n d in
    get_elem?-ext _ _ (λ k. ground (
      arith,
      first,
      length-drop n d,
      length-overwrite off (take n d) c inside,
      get_elem?-overwrite (off + n) (drop n d) mid k
          (omega (arith, first, length-overwrite off (take n d) c inside)),
      get_elem?-overwrite off (take n d) c k inside,
      get_elem?-overwrite off d c k inside,
      get_elem?-take n d (k - off),
      get_elem?-drop n d (k - (off + n)),
    ))

write_chunks-IsContent :
    (fuel off : ℕ) (d c : List ℕ) (rows : Chunks)
    → length d ≤ fuel
    → off ≤ length c
    → IsContent rows c
    → IsContent (write_chunks fuel off d rows) (overwrite off d c)
unfolding write_chunks round_data
write_chunks-IsContent zero off [] c rows enough inside held = rw (overwrite-nil off c inside) held
write_chunks-IsContent zero off (x ∷ d) c rows enough inside held = absurd (omega arith)
write_chunks-IsContent (suc fuel) off [] c rows enough inside held =
    rw (overwrite-nil off c inside) held
write_chunks-IsContent (suc fuel) off (x ∷ d) c rows enough inside held =
    let n = min (chunk_size - off % chunk_size) (length (x ∷ d)) in
    let piece : List ℕ = take n (x ∷ d) in
    let size = length-take n (x ∷ d) in
    let more : (length (x ∷ d) == 0) ≡ false = ground arith in
    rw (more, sym (overwrite-overwrite off n (x ∷ d) c inside (omega arith)))
      (write_chunks-IsContent fuel (off + n) (drop n (x ∷ d)) (overwrite off piece c) _
        (omega (arith, length-drop n (x ∷ d)))
        (omega (arith, size, length-overwrite off piece c inside))
        (round_IsContent off piece c rows held inside (omega (arith, size)) (omega (arith, size))))

-- A write that starts in the content or at its end, and ends below the size limit, accepts every
-- byte, and the file then holds the content with those bytes over the ones from `offset` on.
pub write-Holds :
    (offset : ℕ) (d : List ℕ) (now : Timestamp) (dirty_ms : ℕ) (f : FileRows) (c : List ℕ)
    → Holds f c
    → offset ≤ length c
    → offset + length d ≤ max_file_size
    → ((write offset d now dirty_ms f).1 ≡ done (length d))
      × Holds (write offset d now dirty_ms f).0 (overwrite offset d c)
unfolding write
write-Holds offset [] now dirty_ms f c held inside fits =
    (refl, rw (overwrite-nil offset c inside) held)
write-Holds offset (x ∷ d) now dirty_ms f c held inside fits =
    let small : ltb max_file_size (offset + length (x ∷ d)) ≡ false = ground arith in
    let more : (length (x ∷ d) == 0) ≡ false = ground arith in
    rw (more, small, held.found)
      (
        refl,
        record {
          node = _;
          found = refl;
          sized = omega (arith, held.sized, length-overwrite offset (x ∷ d) c inside);
          rows =
              write_chunks-IsContent (length (x ∷ d)) offset (x ∷ d) c f.chunks (omega arith) inside
                held.rows;
        },
      )
