-- ===== src/Vfs/Mem/Listing.antt =====
-- `readdir` of `MemFs` (crates/smfs-core/src/vfs/mem.rs): all names, in order.
use mathlib.Core.Path.{subst}
use smfs.Prelude.{
  ℕ, Bool, true, false, ◌||◌, some, List, [], ◌∷◌, ◌≡◌, refl, ◌∙◌, arith, inl, inr, any, is_some,
  Bool-cases, if◌then◌else◌,
}
use smfs.Prelude.Eq.{Text, text_eq, nat_eq, ◌==◌}
use smfs.Prelude.Map.{get}
use smfs.Vfs.Types.{FileAttr}
use smfs.Vfs.Mem.{Children, Inner, directory}
use smfs.Vfs.Mem.Query.{text_leb, insert_sorted, sort, keys, readdir}

abbrev id : Text → Text
id w = w

-- Every name is at most its successor.
abbrev pub IsOrdered : List Text → Type 0
IsOrdered [] = Unit
IsOrdered (v ∷ []) = Unit
IsOrdered (v ∷ w ∷ ws) = (text_leb v w ≡ true) × IsOrdered (w ∷ ws)

text_leb_total : (v w : Text) → text_leb v w ≡ false → text_leb w v ≡ true
unfolding text_leb
text_leb_total [] w h = cc
text_leb_total (c ∷ v) [] h = refl
text_leb_total (c ∷ v) (d ∷ w) h = ground (arith, text_leb_total v w)

insert_sorted-IsOrdered :
    (v : Text) (ws : List Text) → IsOrdered ws → IsOrdered (insert_sorted id v ws)
unfolding insert_sorted
insert_sorted-IsOrdered v [] h = tt
insert_sorted-IsOrdered v (w ∷ []) h = elim (Bool-cases (text_leb v w)) [
  | inl before ↦ rw before (before, tt)
  | inr after ↦ rw after (text_leb_total v w after, tt)
]
insert_sorted-IsOrdered v (w ∷ x ∷ ws) h = elim (Bool-cases (text_leb v w)) [
  | inl before ↦ rw before (before, h)
  | inr after ↦
      let ih = insert_sorted-IsOrdered v (x ∷ ws) h.1 in
      elim (Bool-cases (text_leb v x)) [
        | inl first ↦ rw (after, first) (text_leb_total v w after, (first, h.1))
        | inr later ↦
            rw (after, later)
              (
                h.0,
                subst (λ b. IsOrdered (if b then v ∷ x ∷ ws else x ∷ insert_sorted id v ws)) later
                    ih,
              )
      ]
]

sort-IsOrdered : (ws : List Text) → IsOrdered (sort id ws)
unfolding sort
sort-IsOrdered [] = tt
sort-IsOrdered (w ∷ ws) = insert_sorted-IsOrdered w (sort id ws) (sort-IsOrdered ws)

any-insert_sorted :
    (p : Text → Bool) (v : Text) (ws : List Text)
    → any p (insert_sorted id v ws) ≡ (p v || any p ws)
unfolding insert_sorted
any-insert_sorted p v [] = refl
any-insert_sorted p v (w ∷ ws) = ground (arith, any-insert_sorted p v ws)

any-sort : (p : Text → Bool) (ws : List Text) → any p (sort id ws) ≡ any p ws
unfolding sort
any-sort p [] = refl
any-sort p (w ∷ ws) = ground (arith, any-insert_sorted p w (sort id ws), any-sort p ws)

any-keys : (w : Text) (c : Children) → any (λ v. v == w) (keys c) ≡ is_some (get w c)
unfolding get
any-keys w [] = refl
any-keys w ((v, i) ∷ rest) = ground (arith, any-keys w rest)

-- Listing a directory gives exactly the names under which it has an entry, in byte order.
pub readdir_lem :
    (ino : ℕ) (s : Inner) (a : FileAttr) (c : Children)
    → get ino s.nodes ≡ some (directory a c)
    → (names : List Text) × (readdir ino s ≡ some names)
      × IsOrdered names
      × ((w : Text) → any (λ v. v == w) names ≡ is_some (get w c))
unfolding readdir
readdir_lem ino s a c found = (
  sort id (keys c),
  rw (readdir, found) refl,
  sort-IsOrdered (keys c),
  λ w. any-sort (λ v. v == w) (keys c) ∙ any-keys w c,
)
