-- ===== src/Cache/Queue/Trace.antt =====
-- Sequences of push-queue calls, in the order in which the connection's lock serialises them: the
-- file system's enqueues and renames, the worker's claims, and the ends of its jobs.
use smfs.Prelude.{ℕ, Option, List, [], ◌∷◌}
use smfs.Prelude.Eq.{Text}
use smfs.Cache.Op.{PushOp}
use smfs.Cache.Queue
use smfs.Cache.Queue.{PushQueue}

pub data Call : Type 0 where
  upsert : Text → PushOp → Option ℕ → Option Text → Option Text → ℕ → Call
  retarget_pending_create : Text → Text → Option Text → ℕ → Call
  claim_next : ℕ → Call
  set_remote_id : Text → Text → Call
  finalize_success : Text → ℕ → Call
  finalize_failure : Text → Text → ℕ → ℕ → Call
  drop_row : Text → Call
  poison : Text → ℕ → Text → ℕ → Call
  forget_remote_id : Text → Call

unfoldable pub step : Call → PushQueue → PushQueue
step (upsert fp op content_ino rename_to remote_id now) q =
    Queue.upsert fp op content_ino rename_to remote_id now q
step (retarget_pending_create old_fp new_fp remote_id now) q =
    (Queue.retarget_pending_create old_fp new_fp remote_id now q).0
step (claim_next now) q = (Queue.claim_next now q).0
step (set_remote_id fp remote_id) q = Queue.set_remote_id fp remote_id q
step (finalize_success fp now) q = Queue.finalize_success fp now q
step (finalize_failure fp error now backoff) q = Queue.finalize_failure fp error now backoff q
step (drop_row fp) q = Queue.drop_row fp q
step (poison fp http_status reason now) q = Queue.poison fp http_status reason now q
step (forget_remote_id fp) q = Queue.forget_remote_id fp q

unfoldable pub run : List Call → PushQueue → PushQueue
run [] q = q
run (c ∷ calls) q = run calls (step c q)

-- Induction over a sequence of calls.
pub run-invariant :
    (P : PushQueue → Type 0)
    → ((c : Call) (q : PushQueue) → P q → P (step c q))
    → (calls : List Call) (q : PushQueue) → P q
    → P (run calls q)
unfolding run
run-invariant P keep [] q h = h
run-invariant P keep (c ∷ calls) q h = run-invariant P keep calls (step c q) (keep c q h)
