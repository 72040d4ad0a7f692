-- ===== src/Cache/Queue/Tests.antt =====
-- Runs of the push queue, and its theorems at concrete inputs.
use smfs.Prelude.{
  ◌≤◌, true, false, none, some, List, [], ◌∷◌, ◌≡◌, ◌≢◌, ◌↔◌, refl, sym, arith, length, ◌*◌,
}
use smfs.Prelude.Eq.{Text, text_eq, text_beq_iff, bytes}
use smfs.Prelude.Map.{get, insert, update}
use smfs.Cache.Noise.{is_macos_noise_path, is_noise_root, is_noise_basename}
use smfs.Cache.Op.{PushOp, create, delete, as_str, parse}
use smfs.Cache.Queue.{
  Row, PushQueue, PushJob, retargetable, queue_len, upsert, retarget_pending_create, claim_next,
  finalize_success, finalize_failure, inflight_at, fresh_row, start, next_row, claimable,
}
use smfs.Cache.Queue.Trace.{Call, step, run}
use smfs.Cache.Queue.Keys.{HasUniqueRows}
use smfs.Cache.Queue.Ops.{AllValidOps}
use smfs.Cache.Queue.Claim.{IsClaim, claim_next-IsClaim}
use smfs.Cache.Queue.Idle.{NothingClaimable, claim_next-eq-none_iff}
use smfs.Cache.Queue.Slots.{queued, queued-upsert, stale-overtakes}
use smfs.Cache.Queue.Poisoned.{IsPoisoned, poisoned_never_sent}
use smfs.Cache.Queue.Flight.{
  Worker, IsExclusive, Reach, here, next, claim, count, Reach-single_flight,
}
use smfs.Cache.Queue.Retarget.{retarget_onto_inflight_loses}
use smfs.Cache.Queue.Drain.{IsReady, drain, work, sends_at, jobs_for, drain_empties}

abbrev empty : PushQueue
empty = record { rows = []; notified = false }

abbrev draft : Text
draft = bytes "/a.md"

abbrev final : Text
final = bytes "/b.md"

-- one created file, written at 500
abbrev one : PushQueue
one = record {
  rows = (draft, fresh_row (bytes "create") (some 7) none none 500) ∷ [];
  notified = true;
}

upsert_first : upsert draft create (some 7) none none 500 empty ≡ one
unfolding upsert is_macos_noise_path is_noise_root is_noise_basename get as_str insert
upsert_first = refl

-- the same file while it is being sent
abbrev one_inflight : PushQueue
one_inflight = record {
  rows = (draft, start 600 (fresh_row (bytes "create") (some 7) none none 500)) ∷ [];
  notified = true;
}

abbrev one_job : PushJob
one_job = record {
  filepath = draft;
  op = create;
  content_ino = some 7;
  rename_to = none;
  remote_id = none;
  attempt = 0;
}

one_claimed : claim_next 600 one ≡ (one_inflight, some one_job)
unfolding claim_next next_row claimable parse update get
one_claimed = refl

one_unique : HasUniqueRows one
unfolding get
one_unique = (refl, tt)

inflight_unique : HasUniqueRows one_inflight
unfolding get
inflight_unique = (refl, tt)

draft_real : is_macos_noise_path draft ≡ false
unfolding is_macos_noise_path is_noise_root is_noise_basename
draft_real = refl

claim_next-IsClaim_example : (row : Row) × IsClaim 600 one one_inflight one_job row
claim_next-IsClaim_example = claim_next-IsClaim 600 one one_inflight one_job one_unique one_claimed

one_valid : AllValidOps one
unfolding parse
one_valid = (record { main = refl; pending = tt }, tt)

claim_next-eq-none_iff_example : ((claim_next 499 one).1 ≡ none) ↔ NothingClaimable 499 one
claim_next-eq-none_iff_example = claim_next-eq-none_iff 499 one one_unique one_valid

one_settled : (r : Row) → get draft one.rows ≡ some r → r.pending_op ≡ none
unfolding get
one_settled r found = ground arith

queued-upsert_example :
    queued draft (upsert draft delete none none none 600 one)
    ≡ some (record { op = as_str delete; content_ino = none; rename_to = none })
queued-upsert_example =
    queued-upsert draft draft delete none none none 600 one draft_real
      (λ r found idle. one_settled r found)

-- A delete is parked behind a create that fails; the file is created again, and sent; the delete
-- then follows it.
abbrev error_text : Text
error_text = bytes "503"

abbrev recreated : PushQueue
recreated = upsert draft create (some 9) none none 900 (
    finalize_failure draft error_text 800 100 (upsert draft delete none none none 700 one_inflight))

abbrev recreated_inflight : PushQueue
recreated_inflight = record {
  rows =
      (
        draft,
        start 1000 (record (fresh_row (bytes "create") (some 9) none none 900) {
          pending_op = some (bytes "delete");
        }),
      )
      ∷ [];
  notified = true;
}

abbrev recreated_job : PushJob
recreated_job = record one_job { content_ino = some 9 }

inflight_busy : inflight_at draft one_inflight.rows ≡ true
unfolding get
inflight_busy = refl

recreated_claimed : claim_next 1000 recreated ≡ (recreated_inflight, some recreated_job)
unfolding claim_next next_row claimable parse update get upsert finalize_failure is_macos_noise_path
    is_noise_root is_noise_basename as_str
recreated_claimed = refl

stale-overtakes_example :
    (create ≡ create)
    × (queued draft (finalize_success draft 1100 recreated_inflight)
        ≡ some (record { op = as_str delete; content_ino = none; rename_to = none }))
stale-overtakes_example =
    stale-overtakes draft one_inflight recreated_inflight delete create none (some 9) none none none
      none error_text 700 800 900 1000 1100 100 recreated_job inflight_unique draft_real
      inflight_busy recreated_claimed refl

-- Two files; the first one was rejected by the server, and is saved again.
abbrev rejected : PushQueue
rejected = record {
  rows =
      (draft, record (fresh_row (bytes "create") (some 7) none none 500) { poisoned = true })
      ∷ (final, fresh_row (bytes "create") (some 8) none none 600)
      ∷ [];
  notified = true;
}

abbrev saved_again : List Call
saved_again =
    Call.upsert draft PushOp.update (some 7) none none 700
    ∷ Call.upsert draft delete none none none 800
    ∷ []

rejected_unique : HasUniqueRows rejected
unfolding get
rejected_unique = (refl, (refl, tt))

abbrev final_job : PushJob
final_job = record one_job { filepath = final; content_ino = some 8 }

rejected_claimed :
    claim_next 900 (run saved_again rejected)
    ≡ ((claim_next 900 (run saved_again rejected)).0, some final_job)
unfolding claim_next next_row claimable parse update get upsert is_macos_noise_path is_noise_root
    is_noise_basename as_str run step
rejected_claimed = refl

draft_ne_final : final ≢ draft
draft_ne_final e = ground (arith, text_beq_iff final draft)

rejected-IsPoisoned : IsPoisoned draft rejected
unfolding get
rejected-IsPoisoned = refl

poisoned_never_sent_example : final ≢ draft
poisoned_never_sent_example =
    poisoned_never_sent draft saved_again rejected (claim_next 900 (run saved_again rejected)).0 900
      final_job rejected_unique (tt, (tt, tt)) rejected-IsPoisoned rejected_claimed

abbrev idle_worker : Worker
idle_worker = record { queue = one; running = [] }

one_idle : (fp : Text) → inflight_at fp one.rows ≡ false
unfolding get
one_idle fp = ground arith

idle-IsExclusive : IsExclusive idle_worker
idle-IsExclusive = record { unique = one_unique; inflight = λ fp. rw (one_idle fp) }

abbrev busy_worker : Worker
busy_worker = record { queue = one_inflight; running = draft ∷ [] }

busy_reached : Reach idle_worker busy_worker
busy_reached = next here (claim idle_worker 600 one_inflight one_job (omega arith) one_claimed)

Reach-single_flight_example :
    (count draft busy_worker.running ≤ 1)
    × ((count draft busy_worker.running ≡ 1) ↔ (inflight_at draft one_inflight.rows ≡ true))
Reach-single_flight_example = Reach-single_flight idle-IsExclusive busy_reached draft

-- A draft is ready, and the final name is being sent.
abbrev saving : PushQueue
saving = record {
  rows =
      (final, start 400 (fresh_row (bytes "update") (some 3) none (some (bytes "d1")) 300))
      ∷ (draft, fresh_row (bytes "create") (some 7) none none 500)
      ∷ [];
  notified = true;
}

abbrev draft_row : Row
draft_row = fresh_row (bytes "create") (some 7) none none 500

saving_unique : HasUniqueRows saving
unfolding get
saving_unique = (refl, (refl, tt))

draft_found : get draft saving.rows ≡ some draft_row
unfolding get
draft_found = refl

draft_eligible : retargetable draft_row ≡ true
unfolding as_str
draft_eligible = refl

saving-IsExclusive : IsExclusive (record { queue = saving; running = final ∷ [] })
unfolding get
saving-IsExclusive = record { unique = saving_unique; inflight = λ fp. ground arith }

saving_busy : inflight_at final saving.rows ≡ true
unfolding get
saving_busy = refl

retarget_onto_inflight_loses_example :
    let q' = (retarget_pending_create draft final none 700 saving).0 in
    (count final (final ∷ []) ≡ 1)
    × (inflight_at final q'.rows ≡ false)
    × (get final (finalize_success final 800 q').rows ≡ none)
    × (get draft (finalize_success final 800 q').rows ≡ none)
retarget_onto_inflight_loses_example =
    retarget_onto_inflight_loses draft final none 700 saving draft_row saving_unique
      (λ e. draft_ne_final (sym e)) draft_found draft_eligible (final ∷ []) 800 saving-IsExclusive
      saving_busy refl

one-IsReady : IsReady 600 one
unfolding claimable
one-IsReady = record { unique = one_unique; valid = one_valid; ready = (refl, tt) }

drain_empties_example :
    ((drain 2 600 one).1.rows ≡ [])
    × (length (drain 2 600 one).0 ≡ work one.rows)
    × (jobs_for draft (drain 2 600 one).0 ≡ sends_at draft one.rows)
    × (jobs_for draft (drain 2 600 one).0 ≤ 2)
    × (length (drain 2 600 one).0 ≤ 2 * queue_len one)
drain_empties_example = drain_empties 2 600 one draft one-IsReady (omega arith)

abbrev failed_once : PushQueue
failed_once = finalize_failure draft error_text 800 500 one_inflight

failed_claimed :
    claim_next 1300 failed_once
    ≡ ((claim_next 1300 failed_once).0, some (record one_job { attempt = 1 }))
unfolding claim_next next_row claimable parse update get finalize_failure
failed_claimed = refl

abbrev flushed : PushQueue
flushed = upsert draft PushOp.update (some 7) none none 1200 one

abbrev flushed_job : PushJob
flushed_job = record one_job { op = PushOp.update }

flushed_claimed : claim_next 1200 flushed ≡ ((claim_next 1200 flushed).0, some flushed_job)
unfolding claim_next next_row claimable parse update get upsert is_macos_noise_path is_noise_root
    is_noise_basename as_str
flushed_claimed = refl

ds_store_noise : is_noise_basename (bytes ".DS_Store") ≡ true
unfolding is_noise_basename
ds_store_noise = refl

noise_roots_matched :
    (is_macos_noise_path (bytes "/.Spotlight-V100/Store-V2/foo") ≡ true)
    × (is_macos_noise_path (bytes "/notes/foo.md") ≡ false)
unfolding is_macos_noise_path is_noise_root is_noise_basename
noise_roots_matched = (refl, refl)
