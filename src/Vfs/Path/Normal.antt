-- ===== src/Vfs/Path/Normal.antt =====
-- Normal forms of paths, and the split into parent and name.
use mathlib.Core.List.{append-nil, append_assoc}
use smfs.Prelude.{
  false, none, some, List, [], ◌∷◌, ◌++◌, ◌≡◌, ◌↔◌, refl, ap, ◌∙◌, arith, All, inl, inr,
  Option-cases,
}
use smfs.Prelude.Eq.{Text, nat_eq, text_eq}
use smfs.Prelude.Text.{contains, split}
use smfs.Vfs.Error.{VfsError, root_operation, Result, ok, err, Result-cases, ◌>>=◌}
use smfs.Vfs.Path.{pop, last_or_root, normalize_from, normalize, parent_and_name, validate_name}
use smfs.Vfs.Path.Components.{IsValidName}

-- the components, each behind a slash
abbrev pub join : List Text → Text
join [] = []
join (w ∷ ws) = b'/' ∷ (w ++ join ws)

valid-slash : (w : Text) → IsValidName w → contains b'/' w ≡ false
unfolding validate_name
valid-slash w v = ground arith

split-join :
    (w : Text) (ws : List Text)
    → contains b'/' w ≡ false
    → All IsValidName ws
    → split b'/' (w ++ join ws) ≡ w ∷ ws
split-join [] [] c v = refl
split-join [] (w ∷ ws) c v = ground (arith, split-join w ws (valid-slash w v.0) v.1)
split-join (d ∷ w) ws c v = ground (arith, split-join w ws)

normalize_from-kept :
    (path : Text) (result : List Text) (w : Text) (rest : List Text)
    → IsValidName w
    → normalize_from path result (w ∷ rest) ≡ normalize_from path (result ++ w ∷ []) rest
unfolding normalize_from validate_name
normalize_from-kept path result w rest v = ground arith

normalize_from-append :
    (path : Text) (result ws : List Text)
    → All IsValidName ws
    → normalize_from path result ws ≡ ok (result ++ ws)
normalize_from-append path result [] v = unfold normalize_from in rw append-nil
normalize_from-append path result (w ∷ ws) v =
    normalize_from-kept path result w ws v.0
    ∙ normalize_from-append path (result ++ w ∷ []) ws v.1
    ∙ ap ok (append_assoc result (w ∷ []) ws)

-- Any list of valid names, each behind a slash, is a path that normalises to that list.
pub normalize-join : (ws : List Text) → All IsValidName ws → normalize (join ws) ≡ ok ws
unfolding normalize normalize_from
normalize-join [] v = refl
normalize-join (w ∷ ws) v =
    rw (split-join w ws (valid-slash w v.0) v.1)
      (normalize_from-append (join (w ∷ ws)) [] (w ∷ ws) v)

pop-append : (xs : List Text) (x : Text) → pop (xs ++ x ∷ []) ≡ some (xs, x)
pop-append [] x = refl
pop-append (y ∷ xs) x = ground (arith, pop-append xs x)

pop-none : (xs : List Text) → pop xs ≡ none → xs ≡ []
pop-none [] e = refl
pop-none (x ∷ xs) e = ground arith

append-pop : (xs ys : List Text) (y : Text) → pop xs ≡ some (ys, y) → xs ≡ ys ++ y ∷ []
append-pop [] ys y e = cc
append-pop (x ∷ xs) ys y e = elim (Option-cases (pop xs)) [
  | inl last ↦ ground (arith, last, pop-none xs last)
  | inr ((zs, z), more) ↦ ground (arith, more, append-pop xs zs z more)
]

last_or_root_iff :
    (cs ps : List Text) (n : Text)
    → (last_or_root (pop cs) ≡ ok (ps, n))
      ↔ (◌≡◌ {A = Result (List Text)} (ok cs) (ok (ps ++ n ∷ [])))
last_or_root_iff cs ps n = elim (Option-cases (pop cs)) [
  | inl bare ↦ ground (arith, bare, pop-none cs bare, pop-append ps n)
  | inr ((qs, m), found) ↦ ground (arith, found, append-pop cs qs m found, pop-append ps n)
]

-- A path splits into a parent and a name exactly when its components are those of the parent and
-- then the name; the root is refused, and an error of `normalize` is passed on.
pub parent_and_name_iff :
    (path : Text)
    → ((ps : List Text) (n : Text)
        → (parent_and_name path ≡ ok (ps, n)) ↔ (normalize path ≡ ok (ps ++ n ∷ [])))
      × ((normalize path ≡ ok []) → parent_and_name path ≡ err root_operation)
      × ((e : VfsError) → normalize path ≡ err e → parent_and_name path ≡ err e)
unfolding parent_and_name ◌>>=◌
parent_and_name_iff path = (splits, λ e. rw e, λ f e. rw e)
  where
    splits :
        (ps : List Text) (n : Text)
        → (parent_and_name path ≡ ok (ps, n)) ↔ (normalize path ≡ ok (ps ++ n ∷ []))
    splits ps n = elim (Result-cases (normalize path)) [
      | inl (cs, done) ↦ rw done (last_or_root_iff cs ps n)
      | inr (f, refused) ↦ rw refused (λ e. cc, λ e. cc)
    ]
