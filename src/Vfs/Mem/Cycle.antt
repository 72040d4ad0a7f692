-- ===== src/Vfs/Mem/Cycle.antt =====
-- A rename of a directory into itself (`MemFs::rename` of crates/smfs-core/src/vfs/mem.rs).
use smfs.Prelude.{ℕ, false, none, some, ◌≡◌, refl, ◌∙◌, arith}
use smfs.Prelude.Eq.{Text, text_eq, nat_eq, ◌==◌, beq_refl}
use smfs.Prelude.Map.{get}
use smfs.Vfs.Error.{ok, ◌>>=◌}
use smfs.Vfs.Path.Components.{IsValidName}
use smfs.Vfs.Types.{Timestamp}
use smfs.Vfs.Mem.{Children, Inner, rename, move, children_of, child_of}
use smfs.Vfs.Mem.Entries.{entry, move-entry}

-- A rename of a directory, an entry of another directory, to a free name in that directory itself
-- succeeds when both names are valid. The directory then has an entry for itself, and the entry in
-- the other directory is gone.
pub rename_into_itself :
    (p : ℕ) (n : Text) (i : ℕ) (m : Text) (now : Timestamp) (s : Inner) (c d : Children)
    → IsValidName n
    → IsValidName m
    → children_of (get p s.nodes) ≡ ok c
    → get n c ≡ some i
    → children_of (get i s.nodes) ≡ ok d
    → get m d ≡ none
    → ¬ (p ≡ i)
    → (t : Inner) × (rename p n i m now s ≡ ok t)
      × (entry i m t.nodes ≡ some i)
      × (entry p n t.nodes ≡ none)
unfolding rename ◌>>=◌
rename_into_itself p n i m now s c d valid_n valid_m parent here dir free apart =
    let t : Inner = record s { nodes = move p n i m i now s.nodes } in
    let other : (i == p) ≡ false = ground (arith, apart) in
    (
      t,
      rw (valid_n, valid_m, parent, child_of, here, dir) (rw (◌>>=◌, free) refl),
      move-entry p n i m i now s.nodes d i m dir ∙ rw (beq_refl i, beq_refl m) refl,
      move-entry p n i m i now s.nodes d p n dir ∙ rw (other, beq_refl p, beq_refl n) refl,
    )
