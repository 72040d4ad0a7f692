-- ===== src/Vfs/Mem/Replaced.antt =====
-- What a rename does with the node under the new name (`MemFs::rename` of
-- crates/smfs-core/src/vfs/mem.rs).
use smfs.Prelude.{ℕ, none, some, ◌≡◌, inl, inr, refl, ◌∙◌, arith, eqb_iff, Bool-cases, Option-cases}
use smfs.Prelude.Eq.{Text, text_eq, text_beq_iff, nat_eq, ◌==◌}
use smfs.Prelude.Map.{Map, get, insert, remove, update, get-remove, get-update}
use smfs.Vfs.Error.{ok, OnOk, OnOk-bind, OnOk-get}
use smfs.Vfs.Types.{Timestamp}
use smfs.Vfs.Mem.{Node, Inner, attr_mut, change_dir, touch, rename, move}
use smfs.Vfs.Mem.Entries.{entry, entry_of-children, child_of-get, rename_moves}

node-move :
    (p : ℕ) (n : Text) (q : ℕ) (m : Text) (i j : ℕ) (now : Timestamp) (nodes : Map ℕ Node)
    → get j nodes ≡ none
    → get j (move p n q m i now nodes) ≡ none
unfolding move
node-move p n q m i j now nodes h =
    let less = update p (change_dir (touch now) (remove n)) nodes in
    let more = update q (change_dir (touch now) (insert m i)) less in
    let f : Node → Node = attr_mut (λ a. record a { ctime = now }) in
    let g : Node → Node = change_dir (touch now) (insert m i) in
    let k : Node → Node = change_dir (touch now) (remove n) in
    let a : get j less ≡ none = rw (get-update p j k nodes, h) (ground arith) in
    let b : get j more ≡ none = rw (get-update q j g less, a) (ground arith) in
    rw (get-update i j f more, b) (ground arith)

abbrev IsReplaced : ℕ → Text → ℕ → Text → Inner → Inner → Type 0
IsReplaced p n q m s t =
    (i j : ℕ)
    → entry p n s.nodes ≡ some i
    → entry q m s.nodes ≡ some j
    → ¬ (j ≡ i)
    → get j t.nodes ≡ none

rename-IsReplaced :
    (p : ℕ) (n : Text) (q : ℕ) (m : Text) (now : Timestamp) (s : Inner)
    → OnOk (IsReplaced p n q m s) (rename p n q m now s)
unfolding rename OnOk entry
rename-IsReplaced p n q m now s = OnOk-bind _ _ _ (λ _ valid. OnOk-bind _ _ _ (λ _ valid_other.
    OnOk-bind _ _ _ (λ c found. OnOk-bind _ _ _ (λ k here. OnOk-bind _ _ _ (λ d target.
      let source : entry p n s.nodes ≡ some k =
        entry_of-children _ c n found ∙ child_of-get n c k here in
      let dest = entry_of-children (get q s.nodes) d m target in
      elim (Option-cases (get m d)) [
        | inl free ↦ rw free (λ i j e_src e_dst other. absurd (cc (dest, free, e_dst)))
        | inr (l, taken) ↦ rw taken (elim (Bool-cases (l == k)) [
          | inl same ↦ rw same (λ i j e_src e_dst other.
              let lk : l ≡ k = (eqb_iff l k).0 same in
              absurd (other (cc (dest, taken, e_dst, source, e_src, lk))))
          | inr differ ↦ rw differ (
              OnOk-bind _ _ _ (λ _ replaces. λ i j e_src e_dst other.
                let same : l ≡ j = cc (dest, taken, e_dst) in
                node-move p n q m k j now (remove l s.nodes)
                  (rw (get-remove l j s.nodes, (eqb_iff l j).1 same) refl)))
        ])
      ])))))

-- A rename over a name whose inode has another name leaves that other name without a node: its
-- directory still lists it, and no node stands under its inode number.
pub rename_over_hard_link_dangles :
    (p : ℕ) (n : Text) (q : ℕ) (m : Text) (now : Timestamp) (s t : Inner) (i j at : ℕ) (name : Text)
    → rename p n q m now s ≡ ok t
    → entry p n s.nodes ≡ some i
    → entry q m s.nodes ≡ some j
    → ¬ (j ≡ i)
    → entry at name s.nodes ≡ some j
    → ¬ ((q ≡ at) × (m ≡ name))
    → (entry at name t.nodes ≡ some j) × (get j t.nodes ≡ none)
rename_over_hard_link_dangles p n q m now s t i j at name done source dest other linked elsewhere =
    let differ : ¬ (entry q m s.nodes ≡ some i) = λ e. other (cc (e, dest)) in
    let same_entry : ¬ ((p ≡ at) × (n ≡ name)) = λ e. other (cc (e.0, e.1, source, linked)) in
    (
      rename_moves p n q m now s t i at name done source differ
          ∙ ground (arith, linked, elsewhere, same_entry, text_beq_iff m name, text_beq_iff n name),
      OnOk-get (IsReplaced p n q m s) _ t done (rename-IsReplaced p n q m now s) i j source dest
          other,
    )
