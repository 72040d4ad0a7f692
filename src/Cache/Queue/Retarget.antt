-- ===== src/Cache/Queue/Retarget.antt =====
-- `push_queue_retarget_pending_create`: an editor's save by a rename of a new file.
use smfs.Prelude.{ℕ, true, false, Option, none, some, List, ◌≡◌, ◌≢◌, arith, if◌then◌else◌}
use smfs.Prelude.Eq.{Text, text_eq, text_beq_iff, beq_refl, ◌==◌}
use smfs.Prelude.Map.{get, remove, get-remove, UniqueKeys-remove}
use smfs.Cache.Queue.{
  Row, PushQueue, rebind, retargetable, inflight_at, retarget_pending_create, finalize_success,
}
use smfs.Cache.Queue.Keys.{HasUniqueRows, get-rekey}
use smfs.Cache.Queue.Flight.{IsExclusive, count}
use smfs.Cache.Queue.Effects.{get-finalize_success}

module _ (old new : Text) (id : Option Text) (now : ℕ) (q : PushQueue) (r : Row)
    (u : HasUniqueRows q) (distinct : old ≢ new) (found : get old q.rows ≡ some r)
    (eligible : retargetable r ≡ true) where
  -- A queued create that is not being sent moves to its new filepath with its content, whatever
  -- row was there; the old filepath has no row, and every other row is as it was.
  pub retarget_moves :
      ((retarget_pending_create old new id now q).1 ≡ true)
      × ((k : Text)
          → get k (retarget_pending_create old new id now q).0.rows ≡ (
              if new == k then some (rebind id now r) else if old == k then none else get k q.rows))
  unfolding retarget_pending_create
  retarget_moves = (
    ground (arith, get-remove new old q.rows, text_beq_iff new old),
    λ k. ground (
      arith,
      UniqueKeys-remove new q.rows u,
      get-remove new new q.rows,
      get-remove new old q.rows,
      get-remove new k q.rows,
      beq_refl new,
      text_beq_iff new old,
      get-rekey old new k (rebind id now) (remove new q.rows),
    ),
  )

  row_at_new : get new (retarget_pending_create old new id now q).0.rows ≡ some (rebind id now r)
  row_at_new = ground (arith, retarget_moves.1 new, beq_refl new)

  row_at_old : get old (retarget_pending_create old new id now q).0.rows ≡ none
  row_at_old = ground (arith, retarget_moves.1 old, beq_refl old, text_beq_iff new old)

  -- In a queue with one row for each filepath, whose running jobs are its inflight rows: where a
  -- queued create without a pending slot is moved to another filepath that is being sent, the row
  -- there is replaced by the moved one, which is not inflight, while the one job of the filepath
  -- still runs. If that job then ends with success, no row is left at either filepath.
  pub retarget_onto_inflight_loses :
      (running : List Text) (t : ℕ)
      → IsExclusive (record { queue = q; running = running })
      → inflight_at new q.rows ≡ true
      → r.pending_op ≡ none
      → let q' = (retarget_pending_create old new id now q).0 in
        (count new running ≡ 1)
        × (inflight_at new q'.rows ≡ false)
        × (get new (finalize_success new t q').rows ≡ none)
        × (get old (finalize_success new t q').rows ≡ none)
  retarget_onto_inflight_loses running t x busy bare =
      let q' = (retarget_pending_create old new id now q).0 in
      (
        ground (arith, x.inflight new),
        ground (arith, row_at_new),
        ground (arith, row_at_new, beq_refl new, get-finalize_success new new t q'),
        ground (arith, row_at_old, text_beq_iff new old, get-finalize_success new old t q'),
      )
