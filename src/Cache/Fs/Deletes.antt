-- ===== src/Cache/Fs/Deletes.antt =====
-- The job that `SupermemoryFs::unlink` (crates/smfs-core/src/cache/fs.rs) puts on the push queue.
use smfs.Prelude.{
  ℕ, ◌-◌, ◌≤◌, leb, true, false, Option, none, some, List, [], ◌∷◌, ◌++◌, ◌≡◌, inl, inr, refl, ap,
  ◌∙◌, arith, Bool-cases, Option-cases, leb_iff,
}
use smfs.Prelude.Eq.{Text, text_eq, nat_eq, ◌==◌, beq_refl}
use smfs.Prelude.Map.{get, update, get-update, get-remove}
use smfs.Vfs.Types.{Timestamp, FileAttr}
use smfs.Vfs.Error.{ok, OnOk, OnOk-bind, OnOk-get}
use smfs.Cache.Op.{PushOp}
use smfs.Cache.Noise.{is_macos_noise_path}
use smfs.Cache.Queue
use smfs.Cache.Queue.Effects.{get-upsert}
use smfs.Cache.Fs.{Row, LruCache, Fs, Clock, filepath_in, touch_row}
use smfs.Cache.Fs.Table.{key_eq, at}
use smfs.Cache.Fs.Change.{change_inode, drop_dentry, drop_inode}
use smfs.Cache.Fs.Siblings.{
  find_derived, remove_derived_sibling, unlink_siblings, derived_sibling_suffixes,
}
use smfs.Cache.Fs.Ops.{unlink, remove_name, drop_unlinked, without_name, push_delete, less_link}
use smfs.Cache.Fs.Coherence.Ops.{ok_or-get}

-- the remote id of the row that a filepath has in the queue
abbrev pub queued_id : Text → Queue.PushQueue → Option Text
queued_id fp q = elim (get fp q.rows) [ none ↦ none | some r ↦ r.remote_id ]

-- An operation that is queued without an id leaves the row with the id it had.
queued_id-upsert :
    (fp : Text) (op : PushOp) (now : ℕ) (q : Queue.PushQueue)
    → queued_id fp (Queue.upsert fp op none none none now q) ≡ queued_id fp q
unfolding Queue.upsert
queued_id-upsert fp op now q = elim (Bool-cases (is_macos_noise_path fp)) [
  | inl noise ↦ rw (Queue.upsert, noise) refl
  | inr real ↦
      let after = get-upsert fp fp op none none none now q real in
      ground (arith, after, beq_refl fp)
]

module _ ⦃lru : LruCache⦄ where
  unlink_siblings-queue :
      (p : ℕ) (n : Text) (suffixes : List Text) (s : Fs)
      → (unlink_siblings p n suffixes s).queue ≡ s.queue
  unfolding unlink_siblings remove_derived_sibling drop_dentry drop_inode
  unlink_siblings-queue p n [] s = refl
  unlink_siblings-queue p n (suffix ∷ rest) s =
      unlink_siblings-queue p n rest (remove_derived_sibling (at p (n ++ suffix)) s)
      ∙ (elim (Option-cases (find_derived (at p (n ++ suffix)) s)) [
        | inl gone ↦ rw (remove_derived_sibling, gone) refl
        | inr ((i, false), found) ↦ rw (remove_derived_sibling, found) refl
        | inr ((i, true), found) ↦ rw (remove_derived_sibling, found) refl
      ])

  -- The row of an unlinked inode, as the second UPDATE leaves it.
  row_after :
      (p : ℕ) (n : Text) (i : ℕ) (now : Timestamp) (s : Fs) (r : Row)
      → get i s.inodes ≡ some r
      → (q : Row) × (get i (without_name p n i now s).inodes ≡ some q) × (q.nlink ≡ r.nlink - 1)
  unfolding change_inode drop_dentry
  row_after p n i now s r found = elim (Bool-cases (p == i)) [
    | inl same ↦ (
      less_link now (touch_row now r),
      get-update i i (less_link now) (update p (touch_row now) s.inodes)
          ∙ rw (beq_refl i, get-update p i (touch_row now) s.inodes, same, found) refl,
      refl,
    )
    | inr other ↦ (
      less_link now r,
      get-update i i (less_link now) (update p (touch_row now) s.inodes)
          ∙ rw (beq_refl i, get-update p i (touch_row now) s.inodes, other, found) refl,
      refl,
    )
  ]

  -- After the last link, no remote id is left and the queue is as before.
  removed_last :
      (p : ℕ) (n : Text) (i : ℕ) (now : Timestamp) (s : Fs) (r : Row)
      → get i s.inodes ≡ some r
      → r.nlink ≤ 1
      → (get i (remove_name p n i now s).remote ≡ none)
        × ((remove_name p n i now s).queue ≡ s.queue)
  unfolding change_inode drop_dentry drop_inode
  removed_last p n i now s r found low =
      let (q, row, links) = row_after p n i now s r found in
      let last : leb q.nlink 0 ≡ true = (leb_iff q.nlink 0).1 (rw links (omega (arith, low))) in
      rw (remove_name, row, drop_unlinked, last)
        (get-remove i i s.remote ∙ rw (beq_refl i) refl, refl)

  push_delete-queue :
      (fp : Text) (i ms : ℕ) (s : Fs)
      → get i s.remote ≡ none
      → (push_delete true (some fp) i ms s).queue
        ≡ Queue.upsert fp PushOp.delete none none none ms s.queue
  push_delete-queue fp i ms s gone = rw (push_delete, gone) refl

  abbrev QueuesNoId : ℕ → Text → Clock → Fs → Fs → Type 0
  QueuesNoId p n clock s t =
      (i : ℕ) (r : Row) (fp : Text)
      → get (at p n) s.dentries ≡ some i
      → get i s.inodes ≡ some r
      → r.nlink ≤ 1
      → filepath_in p n s.dentries ≡ some fp
      → t.queue ≡ Queue.upsert fp PushOp.delete none none none clock.ms s.queue

  unlink-QueuesNoId :
      (attr : FileAttr) (p : ℕ) (n : Text) (clock : Clock) (s : Fs)
      → OnOk (QueuesNoId p n clock s) (unlink (some attr) p n clock s)
  unfolding unlink OnOk
  unlink-QueuesNoId attr p n clock s = OnOk-bind _ _ _ (λ _ valid. OnOk-bind _ _ _ (λ _ real.
      OnOk-bind _ _ _ (λ j here. OnOk-bind _ _ _ (λ q row. OnOk-bind _ _ _ (λ _ file.
        λ i r fp entry found low path.
          let e = ok_or-get _ _ j here in
          let same : j ≡ i = cc (e, entry) in
          let there : get j s.inodes ≡ some r = ap (λ k. get k s.inodes) same ∙ found in
          let (gone, kept) = removed_last p n j clock.now s r there low in
          unlink_siblings-queue p n derived_sibling_suffixes _
          ∙ ap (λ o. (push_delete true o j clock.ms (remove_name p n j clock.now s)).queue) path
          ∙ push_delete-queue fp j clock.ms (remove_name p n j clock.now s) gone
          ∙ ap (Queue.upsert fp PushOp.delete none none none clock.ms) kept)))))

  -- On a mount with an API client, where the last name of a file is removed and its filepath is known,
  -- the deletion is enqueued without a remote id, even if the file has one in `fs_remote`. The queue's
  -- row for the filepath then has the id that it had before, and none where there was no row.
  pub unlink_forgets_remote_id :
      (attr : FileAttr) (p : ℕ) (n : Text) (clock : Clock) (s t : Fs) (i : ℕ) (r : Row) (fp : Text)
      → unlink (some attr) p n clock s ≡ ok t
      → get (at p n) s.dentries ≡ some i
      → get i s.inodes ≡ some r
      → r.nlink ≤ 1
      → filepath_in p n s.dentries ≡ some fp
      → (t.queue ≡ Queue.upsert fp PushOp.delete none none none clock.ms s.queue)
        × (queued_id fp t.queue ≡ queued_id fp s.queue)
  unlink_forgets_remote_id attr p n clock s t i r fp done entry found low path =
      let queue =
        OnOk-get (QueuesNoId p n clock s) _ t done (unlink-QueuesNoId attr p n clock s) i r fp entry
          found low path in
      (queue, ap (queued_id fp) queue ∙ queued_id-upsert fp PushOp.delete clock.ms s.queue)
