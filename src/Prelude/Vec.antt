-- ===== src/Prelude/Vec.antt =====
-- Rust's `Vec` operations on bytes.
use Prim.Native.Nat.{ℕ, ◌+◌, ◌-◌}
use mathlib.Core.Path.{◌≡◌}
use mathlib.Core.Option.{none, some}
use mathlib.Core.List.{List, ◌++◌}
use native.Mathlib.Omega.{arith}
use smfs.Prelude.Tests.{ltb, leb, if◌then◌else◌}
use smfs.Prelude.Lists.{
  length, get_elem?, take, drop, replicate, length-take, length-append, length-replicate,
}
use smfs.Prelude.Seq.{get_elem?-take, get_elem?-append, get_elem?-replicate, get_elem?-length}

-- `Vec::resize(n, 0)`
unfoldable pub resize : ℕ → List ℕ → List ℕ
resize n buf = if leb n (length buf) then take n buf else buf ++ replicate (n - length buf) 0

-- `buf[at..at + payload.len()].copy_from_slice(payload)`
unfoldable pub copy_from_slice : ℕ → List ℕ → List ℕ → List ℕ
copy_from_slice at payload buf = take at buf ++ payload ++ drop (at + length payload) buf

pub length-resize : (n : ℕ) (buf : List ℕ) → length (resize n buf) ≡ n
unfolding resize
length-resize n buf = ground (
  arith,
  length-take n buf,
  length-append buf (replicate (n - length buf) 0),
  length-replicate {A = ℕ} (n - length buf) 0,
)

pub get_elem?-resize :
    (n : ℕ) (buf : List ℕ) (k : ℕ)
    → get_elem? (resize n buf) k
      ≡ (if ltb k n then (if ltb k (length buf) then get_elem? buf k else some 0) else none)
unfolding resize
get_elem?-resize n buf k = ground (
  arith,
  get_elem?-take n buf k,
  get_elem?-append buf (replicate (n - length buf) 0) k,
  get_elem?-replicate {A = ℕ} (n - length buf) 0 (k - length buf),
  get_elem?-length buf k,
)
