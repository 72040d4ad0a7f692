-- ===== src/Cache/File/Read.antt =====
-- `SqliteFile::read` of crates/smfs-core/src/cache/file.rs on the rows of a content: it returns
-- that content's bytes, whatever the offset and the size.
use smfs.Prelude.{
  ℕ, ◌+◌, ◌-◌, ◌*◌, ◌/◌, ◌%◌, ◌<◌, ◌≤◌, min, true, false, ◌&&◌, none, some, List, [], ◌∷◌, ◌++◌,
  ◌≡◌, inl, inr, refl, sym, ap, ◌∙◌, arith, Bool-cases, ltb, leb, length, take, drop, length-take,
  length-drop, if◌then◌else◌,
}
use smfs.Prelude.Eq.{nat_eq, ◌==◌}
use smfs.Prelude.Map.{get}
use smfs.Prelude.Seq.{
  get_elem?-take, get_elem?-drop, get_elem?-append, get_elem?-ext, get_elem?-length,
}
use smfs.Cache.File.{
  chunk_size, Chunks, FileRows, Inode, done, between, fill_gap, read_rows, read_chunks,
  read_size_of, read,
}
use smfs.Cache.File.Layout.{
  IsSorted, chunk_at, IsContent, get_elem?-chunk_at, length-chunk_at, get-Above, get-between,
  IsSorted-between,
}

-- what the loop has collected before row `next`
abbrev upto : ℕ → ℕ → ℕ → ℕ
upto off size next = min size (next * chunk_size - off)

abbrev skip_of : ℕ → ℕ → ℕ
skip_of off i = if i == off / chunk_size then off % chunk_size else 0

-- The bytes that row `i` adds.
next_piece :
    (c : List ℕ) (off size i : ℕ)
    → off + size ≤ length c
    → off / chunk_size ≤ i
    → i * chunk_size < off + size
    → take (upto off size i) (drop off c)
        ++ take
            (min (length (chunk_at c i) - skip_of off i) (size - upto off size i))
            (drop (skip_of off i) (chunk_at c i))
      ≡ take (upto off size (i + 1)) (drop off c)
next_piece c off size i fits from to = get_elem?-ext _ _ (λ k. ground (
  arith,
  length-chunk_at c i,
  length-take (upto off size i) (drop off c),
  length-drop off c,
  get_elem?-append (take (upto off size i) (drop off c))
      (take (min (length (chunk_at c i) - skip_of off i) (size - upto off size i))
        (drop (skip_of off i) (chunk_at c i)))
      k,
  get_elem?-take (upto off size i) (drop off c) k,
  get_elem?-take (upto off size (i + 1)) (drop off c) k,
  get_elem?-drop off c k,
  get_elem?-take (min (length (chunk_at c i) - skip_of off i) (size - upto off size i))
      (drop (skip_of off i) (chunk_at c i)) (k - upto off size i),
  get_elem?-drop (skip_of off i) (chunk_at c i) (k - upto off size i),
  get_elem?-chunk_at c i (skip_of off i + (k - upto off size i)),
))

-- The row that the loop meets is the next one.
pub head_row :
    (c : List ℕ) (next last i : ℕ) (p : List ℕ) (rows : Chunks)
    → IsSorted ((i, p) ∷ rows)
    → next ≤ last
    → ((j : ℕ)
        → get j ((i, p) ∷ rows) ≡ (if leb next j && leb j last then some (chunk_at c j) else none))
    → (i ≡ next)
      × (i ≤ last)
      × (p ≡ chunk_at c i)
      × ((j : ℕ) → get j rows ≡ (if leb (i + 1) j && leb j last then some (chunk_at c j) else none))
unfolding get
head_row c next last i p rows s more h =
    let here : (next ≤ i) × (i ≤ last) × (p ≡ chunk_at c i) = ground (arith, h i) in
    let first : i ≡ next = ground (arith, here, h next, get-Above i next rows) in
    (first, here.1, here.2, λ j. ground (arith, h j, get-Above i j rows))

-- One round of the loop, at the row that is expected next.
read_row :
    (c : List ℕ) (off size i : ℕ) (rows : Chunks)
    → 0 < size
    → off + size ≤ length c
    → off / chunk_size ≤ i
    → i * chunk_size < off + size
    → read_rows
        (off / chunk_size)
        (off % chunk_size)
        size
        ((i, chunk_at c i) ∷ rows)
        i
        (take (upto off size i) (drop off c))
      ≡ read_rows
          (off / chunk_size)
          (off % chunk_size)
          size
          rows
          (i + 1)
          (take (upto off size (i + 1)) (drop off c))
unfolding read_rows fill_gap
read_row c off size i rows some_bytes fits from to =
    let none_missing : i - i ≡ 0 = omega arith in
    let len : length (take (upto off size i) (drop off c)) ≡ upto off size i =
      omega (arith, length-take (upto off size i) (drop off c), length-drop off c) in
    rw (none_missing, len)
      (let short : leb size (upto off size i) ≡ false = ground arith in
        let inside : leb
              (skip_of off i + min (length (chunk_at c i) - skip_of off i) (size - upto off size i))
              (length (chunk_at c i))
            ≡ true =
          ground (arith, length-chunk_at c i) in
        rw (short, inside, next_piece c off size i fits from to) refl)

last_of : ℕ → ℕ → ℕ
last_of off size = (off + size - 1) / chunk_size

-- The loop of `read`, from row `next` to the end.
read_rows_lem :
    (c : List ℕ) (off size : ℕ) (rows : Chunks) (next : ℕ)
    → 0 < size
    → off + size ≤ length c
    → off / chunk_size ≤ next
    → IsSorted rows
    → ((j : ℕ)
        → get j rows
          ≡ (if leb next j && leb j (last_of off size) then some (chunk_at c j) else none))
    → read_rows
        (off / chunk_size)
        (off % chunk_size)
        size
        rows
        next
        (take (upto off size next) (drop off c))
      ≡ done (take size (drop off c))
unfolding get read_rows last_of
read_rows_lem c off size [] next some_bytes fits from s h =
    let past : size ≡ upto off size next = ground (arith, h next) in
    ap (λ n. done (take n (drop off c))) (sym past)
read_rows_lem c off size ((i, p) ∷ rows) next some_bytes fits from s h =
    elim (Bool-cases (leb next (last_of off size))) [
      | inr past ↦ absurd (ground (arith, h i))
      | inl more ↦
          let (e, inside, ep, hs) =
            head_row c next (last_of off size) i p rows s (ground arith) h in
          rw (ep, e)
            (read_row c off size next rows some_bytes fits from (ground arith)
              ∙ read_rows_lem c off size rows (next + 1) some_bytes fits (omega arith) s.1
                  (λ j. rw (sym e) (hs j)))
    ]

-- A file whose rows hold `c`, with the size of `c`.
pub record Holds (f : FileRows) (c : List ℕ) : Type 0 where
  pub node : Inode
  pub found : f.inode ≡ some node
  pub sized : node.size ≡ length c
  pub rows : IsContent f.chunks c

read_chunks_lem :
    (c : List ℕ) (off size : ℕ) (chunks : Chunks)
    → IsContent chunks c
    → 0 < size
    → off + size ≤ length c
    → read_chunks off size chunks ≡ done (take size (drop off c))
unfolding read_chunks last_of
read_chunks_lem c off size chunks held some_bytes fits =
    let start = off / chunk_size in
    let last = last_of off size in
    let none_yet : upto off size start ≡ 0 = omega arith in
    let whole =
      read_rows_lem c off size (between start last chunks) start some_bytes fits (omega arith)
        (IsSorted-between start last chunks held.sorted)
        (λ j. ground (arith, held.chunk j, get-between start last j chunks)) in
    let all_bytes : length (take size (drop off c)) ≡ size =
      omega (arith, length-take size (drop off c), length-drop off c) in
    let stops : ltb (length (take size (drop off c))) size ≡ false = ground arith in
    rw
      (
        ap
              (λ n.
                read_rows start (off % chunk_size) size (between start last chunks) start
                  (take n (drop off c)))
              (sym none_yet)
            ∙ whole,
        stops,
      )
      refl

take_past : (n : ℕ) (xs : List ℕ) → take n xs ≡ take (min n (length xs)) xs
take_past n xs = get_elem?-ext _ _ (λ k.
    ground (
      arith,
      get_elem?-take n xs k,
      get_elem?-take (min n (length xs)) xs k,
      get_elem?-length xs k,
    ))

take-drop_end : (off size : ℕ) (c : List ℕ) → length c ≤ off → take size (drop off c) ≡ []
take-drop_end off size c h = get_elem?-ext _ _ (λ k. ground (
  arith,
  get_elem?-take size (drop off c) k,
  get_elem?-drop off c k,
  get_elem?-length c (off + k),
))

-- A read of a file that holds `c` returns exactly the bytes of `c` from `offset` on, as many as
-- `size` asks for and the content has, and none at or past its end.
pub read_lem :
    (offset size : ℕ) (f : FileRows) (c : List ℕ)
    → Holds f c
    → 0 < size
    → read offset size f ≡ done (take size (drop offset c))
unfolding read
read_lem offset size f c held some_bytes = rw held.found (
    rw held.sized (elim (Bool-cases (leb (length c) offset)) [
      | inl past ↦ rw (past, take-drop_end offset size c (ground arith)) refl
      | inr before ↦
          rw
            (
              before,
              read_chunks_lem c offset (read_size_of offset size (length c)) f.chunks held.rows
                  (ground arith) (ground arith),
            )
            (ap done (
              sym (
                take_past size (drop offset c)
                ∙ ap (λ n. take (min size n) (drop offset c)) (length-drop offset c))))
    ]))
