-- ===== src/Cache/Queue/Keys.antt =====
-- The primary key of `push_queue`, and the text in its `op` columns.
use smfs.Prelude.{ℕ, Option, none, List, [], ◌∷◌, ◌≡◌, arith, if◌then◌else◌}
use mathlib.Core.Option
use smfs.Prelude.Eq.{Text, text_eq, text_beq_iff, beq_refl, ◌==◌}
use smfs.Prelude.Map.{
  Map, get, remove, get-remove, UniqueKeys, UniqueKeys-insert, UniqueKeys-remove, UniqueKeys-update,
}
use smfs.Cache.Op.{PushOp}
use smfs.Cache.Queue.{
  rebind, Row, PushQueue, rekey, upsert, retarget_pending_create, claim_next, set_remote_id,
  finalize_success, finalize_failure, drop_row, poison, forget_remote_id,
}
use smfs.Cache.Queue.Trace.{Call, step, run, run-invariant}

-- Every filepath has at most one row.
abbrev pub HasUniqueRows : PushQueue → Type 0
HasUniqueRows q = UniqueKeys q.rows

-- the rows after moving `old` onto a free key `new`
pub get-rekey :
    (old new k : Text) (f : Row → Row) (rows : Map Text Row)
    → UniqueKeys rows
    → get new rows ≡ none
    → get k (rekey old new f rows)
      ≡ (if new == k then Option.map f (get old rows) else if old == k then none else get k rows)
unfolding rekey get
get-rekey old new k f [] u h = ground arith
get-rekey old new k f ((fp, r) ∷ rows) u h = ground (
  arith,
  text_beq_iff fp old,
  text_beq_iff fp new,
  text_beq_iff fp k,
  text_beq_iff old k,
  text_beq_iff new k,
  get-rekey old new k f rows u.1,
)

UniqueKeys-rekey :
    (old new : Text) (f : Row → Row) (rows : Map Text Row)
    → UniqueKeys rows
    → get new rows ≡ none
    → UniqueKeys (rekey old new f rows)
unfolding rekey get
UniqueKeys-rekey old new f [] u h = tt
UniqueKeys-rekey old new f ((fp, r) ∷ rows) u h = ground (
  arith,
  text_beq_iff fp old,
  text_beq_iff fp new,
  text_beq_iff new fp,
  text_beq_iff old fp,
  get-rekey old new fp f rows u.1,
  UniqueKeys-rekey old new f rows u.1,
)

pub upsert-HasUniqueRows :
    (fp : Text) (op : PushOp) (ino : Option ℕ) (to id : Option Text) (now : ℕ) (q : PushQueue)
    → HasUniqueRows q
    → HasUniqueRows (upsert fp op ino to id now q)
unfolding upsert
upsert-HasUniqueRows fp op ino to id now q u = grind (arith, UniqueKeys-insert, UniqueKeys-update)

retarget-HasUniqueRows :
    (old new : Text) (id : Option Text) (now : ℕ) (q : PushQueue)
    → HasUniqueRows q
    → HasUniqueRows (retarget_pending_create old new id now q).0
unfolding retarget_pending_create
retarget-HasUniqueRows old new id now q u = ground (
  arith,
  UniqueKeys-remove new q.rows u,
  get-remove new new q.rows,
  beq_refl new,
  UniqueKeys-rekey old new (rebind id now) (remove new q.rows),
)

claim_next-HasUniqueRows :
    (now : ℕ) (q : PushQueue) → HasUniqueRows q → HasUniqueRows (claim_next now q).0
unfolding claim_next
claim_next-HasUniqueRows now q u = grind (arith, UniqueKeys-update)

pub finalize_failure-HasUniqueRows :
    (fp error : Text) (now backoff : ℕ) (q : PushQueue)
    → HasUniqueRows q
    → HasUniqueRows (finalize_failure fp error now backoff q)
unfolding finalize_failure
finalize_failure-HasUniqueRows fp error now backoff q u = UniqueKeys-update fp _ q.rows u

-- Every call keeps the primary key: one row for each filepath.
pub step-HasUniqueRows : (c : Call) (q : PushQueue) → HasUniqueRows q → HasUniqueRows (step c q)
unfolding step set_remote_id finalize_success finalize_failure drop_row poison forget_remote_id
step-HasUniqueRows (Call.upsert fp op ino to id now) q u =
    upsert-HasUniqueRows fp op ino to id now q u
step-HasUniqueRows (Call.retarget_pending_create old new id now) q u =
    retarget-HasUniqueRows old new id now q u
step-HasUniqueRows (Call.claim_next now) q u = claim_next-HasUniqueRows now q u
step-HasUniqueRows (Call.finalize_success fp now) q u =
    grind (arith, UniqueKeys-remove, UniqueKeys-update)
step-HasUniqueRows _ q u = grind (arith, UniqueKeys-remove, UniqueKeys-update)

-- Whatever the calls and their order, a queue that has one row for each filepath keeps that.
pub run-HasUniqueRows :
    (calls : List Call) (q : PushQueue) → HasUniqueRows q → HasUniqueRows (run calls q)
run-HasUniqueRows calls q u = run-invariant HasUniqueRows step-HasUniqueRows calls q u
