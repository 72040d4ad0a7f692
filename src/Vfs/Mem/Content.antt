-- ===== src/Vfs/Mem/Content.antt =====
-- The bytes of a file behind a handle of `MemFs` (crates/smfs-core/src/vfs/mem.rs).
use smfs.Prelude.{
  ℕ, ◌+◌, ◌-◌, ◌≤◌, min, Option, none, some, List, ◌++◌, ◌≡◌, refl, ◌∙◌, arith, ltb, length,
  get_elem?, take, drop, if◌then◌else◌, length-take, length-append, Bool-cases, false, inl, inr,
}
use smfs.Prelude.Eq.{nat_eq, ◌==◌, beq_refl}
use smfs.Prelude.Map.{get, insert, get-insert}
use smfs.Prelude.Vec.{resize, copy_from_slice, length-resize, get_elem?-resize}
use smfs.Prelude.Seq.{get_elem?-take, get_elem?-drop, get_elem?-append, get_elem?-length}
use smfs.Vfs.Error.{ok, ◌>>=◌}
use smfs.Vfs.Types.{Timestamp, FileAttr}
use smfs.Vfs.Mem.{Node, file, Inner}
use smfs.Vfs.Mem.Handle.{read, write, written, set_content}

-- The byte of a file at `k`, after `d` was written at `off` into the content `c`: a byte of `d`
-- where `d` is, zero between the old end and `off`, and else the byte that was there.
unfoldable pub byte_after : ℕ → List ℕ → List ℕ → ℕ → Option ℕ
byte_after off d c k =
    if ltb k off
    then (if ltb k (length c)
        then get_elem? c k
        else if ltb (length c) (off + length d)
        then some 0
        else none)
    else if ltb k (off + length d)
    then get_elem? d (k - off)
    else get_elem? c k

get_elem?-copied :
    (off : ℕ) (d buf : List ℕ) (k : ℕ)
    → off + length d ≤ length buf
    → get_elem? (copy_from_slice off d buf) k ≡ (
        if ltb k off
        then get_elem? buf k
        else if ltb k (off + length d)
        then get_elem? d (k - off)
        else get_elem? buf k)
unfolding copy_from_slice
get_elem?-copied off d buf k fits = ground (
  arith,
  length-take off buf,
  length-append (take off buf) d,
  get_elem?-append (take off buf ++ d) (drop (off + length d) buf) k,
  get_elem?-append (take off buf) d k,
  get_elem?-take off buf k,
  get_elem?-drop (off + length d) buf (k - off - length d),
)

get_elem?-written :
    (off : ℕ) (d c : List ℕ) (k : ℕ) → get_elem? (written off d c) k ≡ byte_after off d c k
unfolding byte_after
get_elem?-written off d c k = elim (Bool-cases (ltb (length c) (off + length d))) [
  | inr fits ↦ rw fits (ground (arith, get_elem?-copied off d c k (ground arith)))
  | inl grows ↦ rw grows (
      ground (
        arith,
        length-resize (off + length d) c,
        get_elem?-copied off d (resize (off + length d) c) k
            (omega (arith, length-resize (off + length d) c)),
        get_elem?-resize (off + length d) c k,
        get_elem?-length c k,
      ))
]

get_elem?-read :
    (ino at size k : ℕ) (s : Inner) (a : FileAttr) (c : List ℕ)
    → get ino s.nodes ≡ some (file a c)
    → (bytes : List ℕ) × (read ino at size s ≡ ok bytes)
      × (get_elem? bytes k ≡ (if ltb k size then get_elem? c (at + k) else none))
unfolding read ◌>>=◌
get_elem?-read ino at size k s a c found =
    let start = min at (length c) in
    let stop = min (start + size) (length c) in
    (
      take (stop - start) (drop start c),
      rw found refl,
      ground (
        arith,
        get_elem?-take (stop - start) (drop start c) k,
        get_elem?-drop start c k,
        get_elem?-length c (at + k),
      ),
    )

-- A write to a file succeeds and takes every byte, at any offset. A read then returns, at each
-- place it covers, the byte written there, a zero in a gap that the write left, and else the byte
-- that was there before. No other node changes.
pub write_lem :
    (ino off : ℕ) (d : List ℕ) (now : Timestamp) (s : Inner) (a : FileAttr) (c : List ℕ)
    → get ino s.nodes ≡ some (file a c)
    → (t : Inner) × (write ino off d now s ≡ ok (length d, t))
      × ((at size k : ℕ)
          → (bytes : List ℕ) × (read ino at size t ≡ ok bytes)
            × (get_elem? bytes k ≡ (if ltb k size then byte_after off d c (at + k) else none)))
      × ((j : ℕ) → ¬ (ino ≡ j) → get j t.nodes ≡ get j s.nodes)
unfolding write ◌>>=◌
write_lem ino off d now s a c found =
    let after = written off d c in
    let node : Node = file (set_content now (length after) a) after in
    let t = record s { nodes = insert ino node s.nodes } in
    let here : get ino t.nodes ≡ some node =
      rw (get-insert ino ino node s.nodes, beq_refl ino) refl in
    (
      t,
      rw found refl,
      (λ at size k.
          let (bytes, done, byte) = get_elem?-read ino at size k t _ after here in
          (bytes, done, byte ∙ rw (get_elem?-written off d c (at + k)) refl)),
      (λ j other.
          let elsewhere : (ino == j) ≡ false = ground (arith, other) in
          rw (get-insert ino j node s.nodes, elsewhere) refl),
    )
