-- ===== src/Cache/Profile/Read.antt =====
-- Reads of `profile.md` (crates/smfs-core/src/cache/profile.rs) in pieces.
use smfs.Prelude.{
  ℕ, ◌+◌, ◌-◌, ◌≤◌, min, ltb, leb, true, none, some, List, ◌++◌, ◌≡◌, refl, sym, ◌∙◌, arith, drop,
  length, length-take, length-drop, get_elem?, inl, inr, Bool-cases, if◌then◌else◌,
}
use smfs.Prelude.Seq.{
  get_elem?-length, get_elem?-take, get_elem?-drop, get_elem?-append, get_elem?-ext,
}
use smfs.Cache.Profile.{read}

get_elem?-read :
    (offset size k : ℕ) (c : List ℕ)
    → get_elem? (read offset size (some c)) k
      ≡ (if ltb k size then get_elem? c (offset + k) else none)
unfolding read
get_elem?-read offset size k c = elim (Bool-cases (leb (length c) offset)) [
  | inl past ↦ rw past (ground (arith, get_elem?-length c (offset + k), past))
  | inr inside ↦ rw inside (
      ground (
        arith,
        get_elem?-take (min (offset + size) (length c) - offset) (drop offset c) k,
        get_elem?-drop offset c k,
        get_elem?-length c (offset + k),
      ))
]

length-read :
    (offset size : ℕ) (c : List ℕ)
    → length (read offset size (some c)) ≡ min size (length c - offset)
unfolding read
length-read offset size c = elim (Bool-cases (leb (length c) offset)) [
  | inl past ↦ rw past (ground (arith, past))
  | inr inside ↦ rw inside (
      omega (
        arith,
        length-take (min (offset + size) (length c) - offset) (drop offset c),
        length-drop offset c,
      ))
]

-- The byte behind the first read.
get_elem?-second :
    (offset m n k l : ℕ) (c : List ℕ)
    → l ≡ min m (length c - offset)
    → l ≤ k
    → (if ltb (k - l) n then get_elem? c (offset + m + (k - l)) else none)
      ≡ (if ltb k (m + n) then get_elem? c (offset + k) else none)
get_elem?-second offset m n k l c sized behind = elim (Bool-cases (leb m (length c - offset))) [
  | inl whole ↦
      let all_read : l ≡ m = ground (arith, sized, whole) in
      let here : offset + m + (k - l) ≡ offset + k = omega (arith, all_read, behind) in
      rw here (ground (arith, all_read, behind))
  | inr part ↦
      let first : length c ≤ offset + k = ground (arith, sized, part, behind) in
      let second : length c ≤ offset + m + (k - l) = ground (arith, sized, part, behind) in
      rw (get_elem?-length c (offset + k) first, get_elem?-length c (offset + m + (k - l)) second)
        (ground arith)
]

-- A read of a number of bytes is a read of the first of them and a read of the others.
pub read-append :
    (offset m n : ℕ) (c : List ℕ)
    → read offset (m + n) (some c) ≡ read offset m (some c) ++ read (offset + m) n (some c)
read-append offset m n c = get_elem?-ext _ _ (λ k.
    get_elem?-read offset (m + n) k c
    ∙ sym (
        get_elem?-append (read offset m (some c)) (read (offset + m) n (some c)) k
        ∙ elim (Bool-cases (ltb k (length (read offset m (some c))))) [
          | inl early ↦
              let low : ltb k m ≡ true = ground (arith, early, length-read offset m c) in
              let lower : ltb k (m + n) ≡ true = ground (arith, low) in
              rw (early, lower) (get_elem?-read offset m k c ∙ rw low refl)
          | inr late ↦
              let l = length (read offset m (some c)) in
              let behind : l ≤ k = ground (arith, late) in
              rw late (
                get_elem?-read (offset + m) n (k - l) c
                ∙ get_elem?-second offset m n k l c (length-read offset m c) behind)
        ]))
