-- ===== src/Cache/Queue/Ops.antt =====
-- The texts in the `op` and `pending_op` columns of `push_queue`.
use smfs.Prelude.{
  ℕ, true, Option, none, some, List, [], ◌∷◌, ◌≡◌, arith, is_some, inl, inr, Option-cases,
}
use smfs.Prelude.Eq.{Text, text_eq}
use smfs.Prelude.Map.{
  Map, get, remove, update, AllValues, AllValues-insert, AllValues-remove, AllValues-update,
  AllValues-get,
}
use smfs.Cache.Op.{PushOp, as_str, parse, parse-as_str}
use smfs.Cache.Queue.{
  rebind, Row, PushQueue, rekey, park, coalesce, fresh_row, upsert, retarget_pending_create,
  claim_next, set_remote_id, finalize_success, finalize_failure, drop_row, poison, forget_remote_id,
  start, promote, pending_at, next_row,
}
use smfs.Cache.Queue.Trace.{Call, step, run, run-invariant}

abbrev pub ParsesOrNull : Option Text → Type 0
ParsesOrNull none = Unit
ParsesOrNull (some s) = is_some (parse s) ≡ true

-- Both `op` columns of a row hold the text form of an operation.
pub record HasValidOps (r : Row) : Type 0 where
  pub main : is_some (parse r.op) ≡ true
  pub pending : ParsesOrNull r.pending_op

abbrev pub AllValidOps : PushQueue → Type 0
AllValidOps q = AllValues HasValidOps q.rows

as_str-parses : (op : PushOp) → is_some (parse (as_str op)) ≡ true
as_str-parses op = rw (parse-as_str op)

AllValidOps-rekey :
    (old new : Text) (id : Option Text) (now : ℕ) (rows : Map Text Row)
    → AllValues HasValidOps rows
    → AllValues HasValidOps (rekey old new (rebind id now) rows)
unfolding rekey
AllValidOps-rekey old new id now [] h = tt
AllValidOps-rekey old new id now ((fp, r) ∷ rows) h =
    ground (arith, AllValidOps-rekey old new id now rows h.1)

module _ (q : PushQueue) (h : AllValidOps q) where
  update-AllValidOps :
      (fp : Text) (f : Row → Row)
      → ((r : Row) → HasValidOps r → HasValidOps (f r))
      → AllValues HasValidOps (update fp f q.rows)
  update-AllValidOps fp f keep = AllValues-update HasValidOps fp f q.rows h keep

  upsert-AllValidOps :
      (fp : Text) (op : PushOp) (ino : Option ℕ) (to id : Option Text) (now : ℕ)
      → AllValidOps (upsert fp op ino to id now q)
  unfolding upsert
  upsert-AllValidOps fp op ino to id now = ground (
    arith,
    update-AllValidOps fp (park (as_str op) ino to now)
        (λ r v. record { main = v.main; pending = as_str-parses op }),
    update-AllValidOps fp (coalesce (as_str op) ino to id now)
        (λ r v. record { main = as_str-parses op; pending = v.pending }),
    AllValues-insert HasValidOps fp (fresh_row (as_str op) ino to id now) q.rows h
        (record { main = as_str-parses op; pending = tt }),
  )

  retarget-AllValidOps :
      (old new : Text) (id : Option Text) (now : ℕ)
      → AllValidOps (retarget_pending_create old new id now q).0
  unfolding retarget_pending_create
  retarget-AllValidOps old new id now = ground (
    arith,
    AllValues-remove HasValidOps new q.rows h,
    AllValidOps-rekey old new id now (remove new q.rows),
  )

  claim_next-AllValidOps : (now : ℕ) → AllValidOps (claim_next now q).0
  unfolding claim_next
  claim_next-AllValidOps now = elim (Option-cases (next_row now q.rows)) [
    | inl idle ↦ ground arith
    | inr ((fp, r), found) ↦ ground (
      arith,
      update-AllValidOps fp (start now) (λ r v. record { main = v.main; pending = v.pending }),
    )
  ]

  pending_at-parses : (fp op : Text) → pending_at fp q.rows ≡ some op → is_some (parse op) ≡ true
  pending_at-parses fp op e = elim (Option-cases (get fp q.rows)) [
    | inl missing ↦ ground arith
    | inr (r, found) ↦ ground (arith, AllValues-get HasValidOps fp r q.rows found h)
  ]

  finalize_success-AllValidOps : (fp : Text) (now : ℕ) → AllValidOps (finalize_success fp now q)
  unfolding finalize_success
  finalize_success-AllValidOps fp now = elim (Option-cases (pending_at fp q.rows)) [
    | inl none_pending ↦ ground (arith, AllValues-remove HasValidOps fp q.rows h)
    | inr (op, parked) ↦ ground (
      arith,
      update-AllValidOps fp (promote op now)
          (λ r v. record { main = pending_at-parses fp op parked; pending = tt }),
    )
  ]

-- Every call keeps valid texts in the `op` columns.
pub step-AllValidOps : (c : Call) (q : PushQueue) → AllValidOps q → AllValidOps (step c q)
unfolding step set_remote_id finalize_failure drop_row poison forget_remote_id
step-AllValidOps (Call.upsert fp op ino to id now) q h = upsert-AllValidOps q h fp op ino to id now
step-AllValidOps (Call.retarget_pending_create old new id now) q h =
    retarget-AllValidOps q h old new id now
step-AllValidOps (Call.claim_next now) q h = claim_next-AllValidOps q h now
step-AllValidOps (Call.finalize_success fp now) q h = finalize_success-AllValidOps q h fp now
step-AllValidOps (Call.drop_row fp) q h = AllValues-remove HasValidOps fp q.rows h
step-AllValidOps (Call.set_remote_id fp id) q h =
    update-AllValidOps q h fp _ (λ r v. record { main = v.main; pending = v.pending })
step-AllValidOps (Call.finalize_failure fp error now backoff) q h =
    update-AllValidOps q h fp _ (λ r v. record { main = v.main; pending = v.pending })
step-AllValidOps (Call.poison fp status reason now) q h =
    update-AllValidOps q h fp _ (λ r v. record { main = v.main; pending = v.pending })
step-AllValidOps (Call.forget_remote_id fp) q h =
    update-AllValidOps q h fp _ (λ r v. record { main = v.main; pending = v.pending })

pub run-AllValidOps :
    (calls : List Call) (q : PushQueue) → AllValidOps q → AllValidOps (run calls q)
run-AllValidOps calls q h = run-invariant AllValidOps step-AllValidOps calls q h
