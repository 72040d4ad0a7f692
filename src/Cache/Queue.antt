-- ===== src/Cache/Queue.antt =====
-- The push queue of crates/smfs-core/src/cache/db.rs (table `push_queue` of schema.sql): the state,
-- and the `push_queue_*` operations. The table is a map from its primary key, `filepath`, in the
-- order of the row ids. The connection's lock makes each operation one step. SQLite itself does not
-- fail, and epoch milliseconds and attempts are not negative.
pub mod Trace
pub mod Keys
pub mod Ops
pub mod Claim
pub mod Idle
pub mod Effects
pub mod Slots
pub mod Poisoned
pub mod Flight
pub mod Retarget
pub mod Drain
pub mod Retry
mod Tests
use smfs.Prelude.{
  ℕ, ◌+◌, Bool, true, false, not, ◌&&◌, ◌||◌, Option, none, some, [], ◌∷◌, leb, length, is_some,
  or_else, if◌then◌else◌,
}
use smfs.Prelude.Eq.{Text, text_eq, ◌==◌}
use smfs.Prelude.Map.{Map, get, insert, remove, update}
use smfs.Cache.Noise.{is_macos_noise_path}
use smfs.Cache.Op.{PushOp, create, upload_binary, as_str, parse}

-- A row of `push_queue` without its key; `some` in `inflight_started_at` marks a row being sent.
pub record Row : Type 0 where
  pub op : Text
  pub content_ino : Option ℕ
  pub rename_to : Option Text
  pub remote_id : Option Text
  pub inflight_started_at : Option ℕ
  pub pending_op : Option Text
  pub pending_content_ino : Option ℕ
  pub pending_rename_to : Option Text
  pub last_error : Option Text
  pub attempt : ℕ
  pub updated_at : ℕ
  pub poisoned : Bool
  pub last_status : Option ℕ

-- The table, and the permit that `push_notify.notify_one()` leaves for the push worker.
pub record PushQueue : Type 0 where
  pub rows : Map Text Row
  pub notified : Bool

pub record PushJob : Type 0 where
  pub filepath : Text
  pub op : PushOp
  pub content_ino : Option ℕ
  pub rename_to : Option Text
  pub remote_id : Option Text
  pub attempt : ℕ

abbrev pub is_inflight : Row → Bool
is_inflight r = is_some r.inflight_started_at

abbrev pub inflight_at : Text → Map Text Row → Bool
inflight_at fp rows = elim (get fp rows) [ none ↦ false | some r ↦ is_inflight r ]

-- the INSERT of `push_queue_upsert`; a column that it does not name takes its default
abbrev pub fresh_row : Text → Option ℕ → Option Text → Option Text → ℕ → Row
fresh_row op content_ino rename_to remote_id now = record {
  op = op;
  content_ino = content_ino;
  rename_to = rename_to;
  remote_id = remote_id;
  inflight_started_at = none;
  pending_op = none;
  pending_content_ino = none;
  pending_rename_to = none;
  last_error = none;
  attempt = 0;
  updated_at = now;
  poisoned = false;
  last_status = none;
}

-- the UPDATE of an inflight row
abbrev pub park : Text → Option ℕ → Option Text → ℕ → Row → Row
park op content_ino rename_to now r = record r {
  pending_op = some op;
  pending_content_ino = content_ino;
  pending_rename_to = rename_to;
  updated_at = now;
}

-- `ON CONFLICT(filepath) DO UPDATE`
abbrev pub coalesce : Text → Option ℕ → Option Text → Option Text → ℕ → Row → Row
coalesce op content_ino rename_to remote_id now r = record r {
  op = op;
  content_ino = content_ino;
  rename_to = rename_to;
  remote_id = or_else remote_id r.remote_id;
  attempt = 0;
  last_error = none;
  updated_at = now;
}

abbrev pub put_main :
    Text → Text → Option ℕ → Option Text → Option Text → ℕ → Map Text Row → Map Text Row
put_main fp op content_ino rename_to remote_id now rows = elim (get fp rows) [
  | none ↦ insert fp (fresh_row op content_ino rename_to remote_id now) rows
  | some _ ↦ update fp (coalesce op content_ino rename_to remote_id now) rows
]

unfoldable pub upsert :
    Text → PushOp → Option ℕ → Option Text → Option Text → ℕ → PushQueue → PushQueue
upsert fp op content_ino rename_to remote_id now q = if is_macos_noise_path fp then q else record {
  rows =
      if inflight_at fp q.rows
      then update fp (park (as_str op) content_ino rename_to now) q.rows
      else put_main fp (as_str op) content_ino rename_to remote_id now q.rows;
  notified = true;
}

-- `op IN ('create','upload_binary') AND inflight_started_at IS NULL`
abbrev pub is_idle_create : Row → Bool
is_idle_create r = (r.op == as_str create || r.op == as_str upload_binary) && not (is_inflight r)

abbrev pub retargetable : Row → Bool
retargetable r = is_idle_create r && not (is_some r.remote_id)

-- the SET of the retargeting UPDATE
abbrev pub rebind : Option Text → ℕ → Row → Row
rebind remote_id now r = record r {
  remote_id = or_else remote_id r.remote_id;
  attempt = 0;
  last_error = none;
  updated_at = now;
}

-- `UPDATE … SET filepath = new … WHERE filepath = old`: the row keeps its place.
unfoldable pub rekey : Text → Text → (Row → Row) → Map Text Row → Map Text Row
rekey old new f [] = []
rekey old new f ((fp, r) ∷ rows) =
    if fp == old then (new, f r) ∷ rows else (fp, r) ∷ rekey old new f rows

unfoldable pub retarget_pending_create :
    Text → Text → Option Text → ℕ → PushQueue → PushQueue × Bool
retarget_pending_create old_fp new_fp rebind_remote_id now q = elim (get old_fp q.rows) [
  | none ↦ (q, false)
  | some r ↦
      if not (retargetable r)
      then (q, false)
      else (let cleared = remove new_fp q.rows in
          elim (get old_fp cleared) [
            | none ↦ (record q { rows = cleared }, false)
            | some _ ↦ (
              record {
                rows = rekey old_fp new_fp (rebind rebind_remote_id now) cleared;
                notified = true;
              },
              true,
            )
          ])
]

unfoldable pub claimable : ℕ → Row → Bool
claimable now r = not (is_inflight r) && (not r.poisoned && leb r.updated_at now)

abbrev pub earlier : Text × Row → Option (Text × Row) → Option (Text × Row)
earlier (fp, r) none = some (fp, r)
earlier (fp, r) (some (fp', r')) =
    if leb r.updated_at r'.updated_at then some (fp, r) else some (fp', r')

-- `… WHERE claimable ORDER BY updated_at ASC LIMIT 1`; of equal times the first row
unfoldable pub next_row : ℕ → Map Text Row → Option (Text × Row)
next_row now [] = none
next_row now ((fp, r) ∷ rows) =
    let rest = next_row now rows in if claimable now r then earlier (fp, r) rest else rest

abbrev pub start : ℕ → Row → Row
start now r = record r { inflight_started_at = some now }

abbrev pub job_of : Text → PushOp → Row → PushJob
job_of fp op r = record {
  filepath = fp;
  op = op;
  content_ino = r.content_ino;
  rename_to = r.rename_to;
  remote_id = r.remote_id;
  attempt = r.attempt;
}

unfoldable pub claim_next : ℕ → PushQueue → PushQueue × Option PushJob
claim_next now q = elim (next_row now q.rows) [
  | none ↦ (q, none)
  | some (fp, r) ↦ elim (parse r.op) [
    | none ↦ (q, none)
    | some op ↦
        if inflight_at fp q.rows
        then (q, none)
        else (record q { rows = update fp (start now) q.rows }, some (job_of fp op r))
  ]
]

unfoldable pub set_remote_id : Text → Text → PushQueue → PushQueue
set_remote_id fp remote_id q = record q {
  rows = update fp (λ r. record r { remote_id = some remote_id }) q.rows;
}

-- the UPDATE of `push_queue_finalize_success`, which moves the pending slot to the main one
abbrev pub promote : Text → ℕ → Row → Row
promote op now r = record r {
  op = op;
  content_ino = r.pending_content_ino;
  rename_to = r.pending_rename_to;
  pending_op = none;
  pending_content_ino = none;
  pending_rename_to = none;
  inflight_started_at = none;
  attempt = 0;
  last_error = none;
  updated_at = now;
}

abbrev pub pending_at : Text → Map Text Row → Option Text
pending_at fp rows = elim (get fp rows) [ none ↦ none | some r ↦ r.pending_op ]

unfoldable pub finalize_success : Text → ℕ → PushQueue → PushQueue
finalize_success fp now q = elim (pending_at fp q.rows) [
  | none ↦ record q { rows = remove fp q.rows }
  | some op ↦ record q { rows = update fp (promote op now) q.rows }
]

unfoldable pub finalize_failure : Text → Text → ℕ → ℕ → PushQueue → PushQueue
finalize_failure fp error now backoff q = record q {
  rows =
      update fp
        (λ r. record r {
          inflight_started_at = none;
          attempt = r.attempt + 1;
          last_error = some error;
          updated_at = now + backoff;
        })
        q.rows;
}

unfoldable pub drop_row : Text → PushQueue → PushQueue
drop_row fp q = record q { rows = remove fp q.rows }

unfoldable pub poison : Text → ℕ → Text → ℕ → PushQueue → PushQueue
poison fp http_status reason now q = record q {
  rows =
      update fp
        (λ r. record r {
          poisoned = true;
          inflight_started_at = none;
          last_error = some reason;
          last_status = some http_status;
          updated_at = now;
        })
        q.rows;
}

-- the `push_queue` half of `clear_remote_id_after_404`
unfoldable pub forget_remote_id : Text → PushQueue → PushQueue
forget_remote_id fp q = record q { rows = update fp (λ r. record r { remote_id = none }) q.rows }

unfoldable pub queue_len : PushQueue → ℕ
queue_len q = length q.rows
