-- ===== src/Cache/Hydration.antt =====
-- `HydrationScheduler` of crates/smfs-core/src/cache/hydration.rs: the queue of paths to fetch. A
-- `HashSet` is a map to `Unit`. `Instant`s are numbers of nanoseconds; a duration to a later
-- instant is 0.
pub mod Calls
pub mod Invariant
pub mod Order
mod Tests
use smfs.Prelude.{
  ℕ, ◌+◌, ◌-◌, ◌*◌, Bool, true, false, ◌&&◌, ◌||◌, Option, none, some, List, [], ◌∷◌, ◌++◌, ◌≡◌,
  ◌↔◌, arith, ltb, length, is_some, if◌then◌else◌,
}
use smfs.Prelude.Eq.{Eq, Text, text_beq, text_beq_iff, ◌==◌}
use smfs.Prelude.Map.{Map, get, insert, remove}

-- NEGATIVE_TTL
abbrev pub negative_ttl : ℕ
negative_ttl = 2 * 1000000000

pub data HydrationKey : Type 0 where
  exact prefix : Text → HydrationKey

abbrev pub path : HydrationKey → Text
path (exact p) = p
path (prefix p) = p

abbrev pub key_beq : HydrationKey → HydrationKey → Bool
key_beq (exact p) (exact q) = text_beq p q
key_beq (exact p) (prefix q) = false
key_beq (prefix p) (exact q) = false
key_beq (prefix p) (prefix q) = text_beq p q

pub key_beq_iff : (a b : HydrationKey) → (key_beq a b ≡ true) ↔ (a ≡ b)
key_beq_iff (exact p) (exact q) = ground (arith, text_beq_iff p q)
key_beq_iff (exact p) (prefix q) = ground arith
key_beq_iff (prefix p) (exact q) = ground arith
key_beq_iff (prefix p) (prefix q) = ground (arith, text_beq_iff p q)

instance abbrev pub key_eq : Eq HydrationKey
key_eq = record { is_same = key_beq; same_iff = key_beq_iff }

pub record Inner : Type 0 where
  pub queue : List HydrationKey
  pub pending : Map HydrationKey (Unit {0})
  pub inflight : Map HydrationKey (Unit {0})
  pub recent : Map HydrationKey ℕ

abbrev pub empty : Inner
empty = record { queue = []; pending = []; inflight = []; recent = [] }

-- `recent.retain(…)`
unfoldable pub retain : ℕ → ℕ → Map HydrationKey ℕ → Map HydrationKey ℕ
retain now ttl [] = []
retain now ttl ((k, t) ∷ rest) =
    let kept = retain now ttl rest in if ltb (now - t) ttl then (k, t) ∷ kept else kept

-- `ttl` is the scheduler's `negative_ttl`
unfoldable pub enqueue : HydrationKey → ℕ → ℕ → Inner → Inner
enqueue key now ttl s =
    let kept = retain now ttl s.recent in
    if is_some (get key kept)
    then record s { recent = kept }
    else if is_some (get key s.pending) || is_some (get key s.inflight)
    then record s { recent = kept }
    else record s { recent = kept; pending = insert key tt s.pending; queue = s.queue ++ key ∷ [] }

abbrev pub claim_head : List HydrationKey → Inner → Inner × Option HydrationKey
claim_head [] s = (s, none)
claim_head (key ∷ rest) s = (
  record s { queue = rest; pending = remove key s.pending; inflight = insert key tt s.inflight },
  some key,
)

unfoldable pub claim_next : Inner → Inner × Option HydrationKey
claim_next s = claim_head s.queue s

unfoldable pub complete : HydrationKey → ℕ → Inner → Inner
complete key now s = record s { inflight = remove key s.inflight; recent = insert key now s.recent }

unfoldable pub pending_len : Inner → ℕ
pending_len s = length s.queue

unfoldable pub inflight_len : Inner → ℕ
inflight_len s = length s.inflight
