-- ===== src/Cache/Basename.antt =====
-- Noise files in any directory.
use smfs.Prelude.{
  ℕ, true, false, List, [], ◌∷◌, ◌++◌, ◌≡◌, refl, ap, ◌∙◌, arith, inl, inr, Bool-cases, ◌⊎◌, Option,
}
use smfs.Prelude.Eq.{Text, nat_eq, text_eq, ◌==◌}
use smfs.Prelude.Text.{is_empty, contains, trim_start, split, last}
use smfs.Cache.Noise.{is_noise_basename, is_macos_noise_path}
use smfs.Cache.Op.{PushOp}
use smfs.Cache.Queue.{PushQueue, upsert}

split-plain : (c : ℕ) (s : Text) → contains c s ≡ false → split c s ≡ s ∷ []
split-plain c [] h = refl
split-plain c (d ∷ s) h = ground (arith, split-plain c s)

-- The parts of a text that has a separator, with the last one.
split-append :
    (c : ℕ) (s t : Text)
    → contains c t ≡ false
    → (w v : Text) × (ws : List Text) × (split c (s ++ c ∷ t) ≡ w ∷ v ∷ ws) × (last (v ∷ ws) ≡ t)
split-append c [] t h = ([], t, [], ground (arith, split-plain c t h), refl)
split-append c (d ∷ s) t h =
    let (w, v, ws, e, l) = split-append c s t h in
    elim (Bool-cases (d == c)) [
      | inl same ↦ ([], w, v ∷ ws, ground (arith, same, e), l)
      | inr other ↦ (d ∷ w, v, ws, ground (arith, other, e), l)
    ]

trim-plain : (c : ℕ) (t : Text) → contains c t ≡ false → trim_start c t ≡ t
trim-plain c [] h = refl
trim-plain c (d ∷ t) h = ground arith

trim-append :
    (c : ℕ) (s t : Text)
    → contains c t ≡ false
    → (trim_start c (s ++ c ∷ t) ≡ t) ⊎ ((s' : Text) × (trim_start c (s ++ c ∷ t) ≡ s' ++ c ∷ t))
trim-append c [] t h = inl (ground (arith, trim-plain c t h))
trim-append c (d ∷ s) t h = elim (Bool-cases (d == c)) [
  | inl same ↦ rw same (trim-append c s t h)
  | inr other ↦ inr (d ∷ s, ground (arith, other))
]

is_empty-last : (c d : ℕ) (s name : Text) → last (split c s) ≡ d ∷ name → is_empty s ≡ false
is_empty-last c d [] name e = cc
is_empty-last c d (b ∷ s) name e = refl

basename-noise :
    (path name : Text)
    → is_noise_basename name ≡ true
    → last (split b'/' (trim_start b'/' path)) ≡ name
    → is_macos_noise_path path ≡ true
basename-noise path [] noise e = unfold is_noise_basename in cc
basename-noise path (c ∷ name) noise e =
    unfold is_macos_noise_path in
    ground (arith, noise, is_empty-last b'/' c (trim_start b'/' path) name e)

-- A file whose name is one of macOS's metadata names is never enqueued, whatever its directory:
-- the queue stays as it was, and the worker is not woken.
pub upsert_noise :
    (dir name : Text) (op : PushOp) (ino : Option ℕ) (to id : Option Text) (now : ℕ) (q : PushQueue)
    → contains b'/' name ≡ false
    → is_noise_basename name ≡ true
    → upsert (dir ++ b'/' ∷ name) op ino to id now q ≡ q
unfolding upsert
upsert_noise dir name op ino to id now q plain noise = ground (arith, noisy)
  where
    noisy : is_macos_noise_path (dir ++ b'/' ∷ name) ≡ true
    noisy = elim (trim-append b'/' dir name plain) [
      | inl bare ↦
          basename-noise (dir ++ b'/' ∷ name) name noise
            (rw bare (ap last (split-plain b'/' name plain)))
      | inr (dir', longer) ↦
          let (w, v, ws, parts, l) = split-append b'/' dir' name plain in
          basename-noise (dir ++ b'/' ∷ name) name noise (rw longer (ap last parts ∙ l))
    ]
