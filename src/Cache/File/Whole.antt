-- ===== src/Cache/File/Whole.antt =====
-- A content as a whole: `rehydrate_raw_bytes` of crates/smfs-core/src/cache/fs.rs stores it, and
-- `Db::read_all_content` of crates/smfs-core/src/cache/db.rs gives it to the push worker.
use smfs.Prelude.{
  ℕ, zero, suc, ◌+◌, ◌-◌, ◌*◌, ◌/◌, ◌<◌, ◌≤◌, false, ◌&&◌, none, some, List, [], ◌∷◌, ◌++◌, ◌≡◌,
  inl, inr, refl, sym, ap, ◌∙◌, arith, Bool-cases, ltb, leb, length, get_elem?, drop, length-drop,
  if◌then◌else◌,
}
use smfs.Prelude.Eq.{nat_eq, ◌==◌}
use smfs.Prelude.Map.{get}
use smfs.Prelude.Seq.{get_elem?-drop, get_elem?-append, get_elem?-ext, get_elem?-length, take_all}
use smfs.Cache.File.{
  chunk_size, Chunks, FileRows, Inode, chunks_from, rehydrate_raw_bytes, concat_chunks,
  read_all_content,
}
use smfs.Vfs.Types.{Timestamp}
use smfs.Cache.File.Layout.{
  Above, IsSorted, chunk_at, IsContent, get_elem?-chunk_at, length-chunk_at,
}
use smfs.Cache.File.Read.{Holds, head_row}

drop-chunk :
    (i : ℕ) (c : List ℕ) → drop chunk_size (drop (i * chunk_size) c) ≡ drop ((i + 1) * chunk_size) c
drop-chunk i c = get_elem?-ext _ _ (λ k.
    let e : (i + 1) * chunk_size + k ≡ i * chunk_size + (chunk_size + k) = omega arith in
    get_elem?-drop chunk_size (drop (i * chunk_size) c) k
    ∙ get_elem?-drop (i * chunk_size) c (chunk_size + k)
    ∙ sym (get_elem?-drop ((i + 1) * chunk_size) c k ∙ ap (get_elem? c) e))

Above-chunks_from : (fuel i k : ℕ) (c : List ℕ) → k < i → Above k (chunks_from fuel i c)
unfolding chunks_from
Above-chunks_from zero i k c h = tt
Above-chunks_from (suc fuel) i k c h = elim (Bool-cases (length c == 0)) [
  | inl done ↦ rw done tt
  | inr more ↦ rw more (h, Above-chunks_from fuel (i + 1) k (drop chunk_size c) (omega arith))
]

IsSorted-chunks_from : (fuel i : ℕ) (c : List ℕ) → IsSorted (chunks_from fuel i c)
unfolding chunks_from
IsSorted-chunks_from zero i c = tt
IsSorted-chunks_from (suc fuel) i c = elim (Bool-cases (length c == 0)) [
  | inl done ↦ rw done tt
  | inr more ↦ rw more (
    Above-chunks_from fuel (i + 1) i (drop chunk_size c) (omega arith),
    IsSorted-chunks_from fuel (i + 1) (drop chunk_size c),
  )
]

get-first_row :
    (i j : ℕ) (c : List ℕ) (rest : Chunks)
    → i * chunk_size < length c
    → get j rest
      ≡ (if leb (i + 1) j && ltb (j * chunk_size) (length c) then some (chunk_at c j) else none)
    → get j ((i, chunk_at c i) ∷ rest)
      ≡ (if leb i j && ltb (j * chunk_size) (length c) then some (chunk_at c j) else none)
unfolding get
get-first_row i j c rest inside h = ground arith

get-chunks_from :
    (fuel i j : ℕ) (c : List ℕ)
    → length c - i * chunk_size ≤ fuel
    → get j (chunks_from fuel i (drop (i * chunk_size) c))
      ≡ (if leb i j && ltb (j * chunk_size) (length c) then some (chunk_at c j) else none)
unfolding chunks_from get chunk_at
get-chunks_from zero i j c h = ground arith
get-chunks_from (suc fuel) i j c h =
    let left = length-drop (i * chunk_size) c in
    elim (Bool-cases (length (drop (i * chunk_size) c) == 0)) [
      | inl over ↦ rw over (ground (arith, left))
      | inr more ↦
          rw (more, drop-chunk i c)
            (get-first_row i j c (chunks_from fuel (i + 1) (drop ((i + 1) * chunk_size) c))
              (ground (arith, left)) (get-chunks_from fuel (i + 1) j c (omega arith)))
    ]

-- The rows of a stored content are its chunks.
chunks_from-IsContent : (c : List ℕ) → IsContent (chunks_from (length c) 0 c) c
chunks_from-IsContent c = record {
  sorted = IsSorted-chunks_from (length c) 0 c;
  chunk = λ j. ground (arith, get-chunks_from (length c) 0 j c (omega arith));
}

chunk_at-drop :
    (c : List ℕ) (i : ℕ) → chunk_at c i ++ drop ((i + 1) * chunk_size) c ≡ drop (i * chunk_size) c
chunk_at-drop c i = get_elem?-ext _ _ (λ k. ground (
  arith,
  length-chunk_at c i,
  get_elem?-chunk_at c i k,
  get_elem?-append (chunk_at c i) (drop ((i + 1) * chunk_size) c) k,
  get_elem?-drop ((i + 1) * chunk_size) c (k - length (chunk_at c i)),
  get_elem?-drop (i * chunk_size) c k,
  get_elem?-length c (i * chunk_size + k),
  get_elem?-length c ((i + 1) * chunk_size + (k - length (chunk_at c i))),
))

concat_chunks_lem :
    (c : List ℕ) (i : ℕ) (rows : Chunks)
    → IsSorted rows
    → ((j : ℕ)
        → get j rows
          ≡ (if leb i j && leb j ((length c - 1) / chunk_size) then some (chunk_at c j) else none))
    → 0 < length c
    → concat_chunks rows ≡ drop (i * chunk_size) c
unfolding get
concat_chunks_lem c i [] s h some_bytes = sym (
    get_elem?-ext _ _ (λ k.
      get_elem?-drop (i * chunk_size) c k
      ∙ get_elem?-length c (i * chunk_size + k) (ground (arith, h i))))
concat_chunks_lem c i ((k, p) ∷ rows) s h some_bytes =
    let last = (length c - 1) / chunk_size in
    let (e, inside, ep, hs) = head_row c i last k p rows s (ground (arith, h k)) h in
    rw (ep, e)
      (ap (λ more. chunk_at c i ++ more)
          (concat_chunks_lem c (i + 1) rows s.1 (λ j. rw (sym e) (hs j)) some_bytes)
        ∙ chunk_at-drop c i)

-- The push worker is given exactly the content that a file holds.
pub read_all_content_lem : (f : FileRows) (c : List ℕ) → Holds f c → read_all_content f ≡ c
unfolding read_all_content
read_all_content_lem f [] held = rw (held.found, held.sized) refl
read_all_content_lem f (x ∷ c) held =
    let more : (length (x ∷ c) == 0) ≡ false = ground arith in
    let whole : concat_chunks f.chunks ≡ x ∷ c =
      concat_chunks_lem (x ∷ c) 0 f.chunks held.rows.sorted (λ j. ground (arith, held.rows.chunk j))
        (omega arith) in
    rw (held.found, held.sized, more, whole) (take_all (length (x ∷ c)) (x ∷ c) (omega arith))

-- Rehydrating a file with fetched bytes makes it hold them, whatever its rows were.
pub rehydrate_raw_bytes-Holds :
    (content : List ℕ) (now : Timestamp) (f : FileRows) (node : Inode)
    → f.inode ≡ some node
    → Holds (rehydrate_raw_bytes content now f) content
unfolding rehydrate_raw_bytes
rehydrate_raw_bytes-Holds content now f node found = record {
  node = record node { size = length content; mtime = now };
  found = rw found refl;
  sized = refl;
  rows = chunks_from-IsContent content;
}
