-- ===== src/Cache/File/Layout.antt =====
-- The rows of a file that holds a given content: full chunks, and a shorter last one.
use smfs.Prelude.{
  ℕ, ◌+◌, ◌-◌, ◌*◌, ◌<◌, ◌≤◌, min, ◌&&◌, none, some, List, [], ◌∷◌, ◌≡◌, refl, arith, ltb, leb,
  length, get_elem?, take, drop, All, length-take, length-drop, if◌then◌else◌,
}
use smfs.Prelude.Eq.{nat_eq, ◌==◌}
use smfs.Prelude.Map.{get}
use smfs.Prelude.Seq.{get_elem?-take, get_elem?-drop}
use smfs.Cache.File.{chunk_size, Chunks, put_chunk, between, keep_to}

abbrev pub Above : ℕ → Chunks → Type 0
Above i rows = All (λ p. i < p.0) rows

abbrev pub IsSorted : Chunks → Type 0
IsSorted [] = Unit
IsSorted ((i, d) ∷ rows) = Above i rows × IsSorted rows

-- bytes `i * chunk_size ..` of the content, a chunk's worth at most
unfoldable pub chunk_at : List ℕ → ℕ → List ℕ
chunk_at c i = take chunk_size (drop (i * chunk_size) c)

pub get_elem?-chunk_at :
    (c : List ℕ) (i k : ℕ)
    → get_elem? (chunk_at c i) k
      ≡ (if ltb k chunk_size then get_elem? c (i * chunk_size + k) else none)
unfolding chunk_at
get_elem?-chunk_at c i k = ground (
  arith,
  get_elem?-take chunk_size (drop (i * chunk_size) c) k,
  get_elem?-drop (i * chunk_size) c k,
)

pub length-chunk_at :
    (c : List ℕ) (i : ℕ) → length (chunk_at c i) ≡ min chunk_size (length c - i * chunk_size)
unfolding chunk_at
length-chunk_at c i =
    omega (arith, length-take chunk_size (drop (i * chunk_size) c), length-drop (i * chunk_size) c)

-- The rows are in order, and hold exactly the chunks of `c`.
pub record IsContent (rows : Chunks) (c : List ℕ) : Type 0 where
  pub sorted : IsSorted rows
  pub chunk :
      (i : ℕ) → get i rows ≡ (if ltb (i * chunk_size) (length c) then some (chunk_at c i) else none)

pub get-put_chunk :
    (i j : ℕ) (d : List ℕ) (rows : Chunks)
    → get j (put_chunk i d rows) ≡ (if i == j then some d else get j rows)
unfolding get put_chunk
get-put_chunk i j d [] = refl
get-put_chunk i j d ((k, e) ∷ rows) = ground (arith, get-put_chunk i j d rows)

Above-put_chunk :
    (k i : ℕ) (d : List ℕ) (rows : Chunks) → k < i → Above k rows → Above k (put_chunk i d rows)
unfolding put_chunk
Above-put_chunk k i d [] h a = (h, tt)
Above-put_chunk k i d ((j, e) ∷ rows) h a = ground (arith, Above-put_chunk k i d rows)

Above-weaken : (i j : ℕ) (rows : Chunks) → i ≤ j → Above j rows → Above i rows
Above-weaken i j [] h a = tt
Above-weaken i j ((k, e) ∷ rows) h a = (omega arith, Above-weaken i j rows h a.1)

pub IsSorted-put_chunk :
    (i : ℕ) (d : List ℕ) (rows : Chunks) → IsSorted rows → IsSorted (put_chunk i d rows)
unfolding put_chunk
IsSorted-put_chunk i d [] s = (tt, tt)
IsSorted-put_chunk i d ((j, e) ∷ rows) s =
    ground (arith, IsSorted-put_chunk i d rows, Above-put_chunk j i d rows, Above-weaken i j rows)

pub get-Above : (i j : ℕ) (rows : Chunks) → Above i rows → j ≤ i → get j rows ≡ none
unfolding get
get-Above i j [] a h = refl
get-Above i j ((k, e) ∷ rows) a h = ground (arith, get-Above i j rows)

-- The two selections by a range of indices.
pub get-between :
    (first last i : ℕ) (rows : Chunks)
    → get i (between first last rows) ≡ (if leb first i && leb i last then get i rows else none)
unfolding get between
get-between first last i [] = ground arith
get-between first last i ((k, e) ∷ rows) = ground (arith, get-between first last i rows)

Above-between :
    (k first last : ℕ) (rows : Chunks) → Above k rows → Above k (between first last rows)
unfolding between
Above-between k first last [] a = tt
Above-between k first last ((j, e) ∷ rows) a = ground (arith, Above-between k first last rows)

pub IsSorted-between :
    (first last : ℕ) (rows : Chunks) → IsSorted rows → IsSorted (between first last rows)
unfolding between
IsSorted-between first last [] s = tt
IsSorted-between first last ((j, e) ∷ rows) s =
    ground (arith, IsSorted-between first last rows, Above-between j first last rows)

pub get-keep_to :
    (last i : ℕ) (rows : Chunks)
    → get i (keep_to last rows) ≡ (if leb i last then get i rows else none)
unfolding get keep_to
get-keep_to last i [] = ground arith
get-keep_to last i ((k, e) ∷ rows) = ground (arith, get-keep_to last i rows)

Above-keep_to : (k last : ℕ) (rows : Chunks) → Above k rows → Above k (keep_to last rows)
unfolding keep_to
Above-keep_to k last [] a = tt
Above-keep_to k last ((j, e) ∷ rows) a = ground (arith, Above-keep_to k last rows)

pub IsSorted-keep_to : (last : ℕ) (rows : Chunks) → IsSorted rows → IsSorted (keep_to last rows)
unfolding keep_to
IsSorted-keep_to last [] s = tt
IsSorted-keep_to last ((j, e) ∷ rows) s =
    ground (arith, IsSorted-keep_to last rows, Above-keep_to j last rows)
