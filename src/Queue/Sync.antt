-- ===== src/Queue/Sync.antt =====
-- A consumer of the queue resumes at a sync boundary after a drop, and retiring is exact.
use nginx_media.Base.{ℕ, ◌≤◌, ◌<◌, ◌≡◌, true, false, Option, none, some, ◌⊎◌}
use nginx_media.Queue.{Queue, Burst, slot_of, answer}

abbrev pub unit_at : Queue → ℕ → Burst
unit_at q s = q.units (slot_of q.capacity s)

-- `s` is the first sync boundary of the queue from `from` on, or there is none and `s` is the head.
record FirstSync (q : Queue) (from s : ℕ) : Type 0 where
  from_le : from ≤ s
  below : s ≤ q.head
  passed : (k : ℕ) → from ≤ k → k < s → (unit_at q k).keyframe ≡ false
  found : (s ≡ q.head) ⊎ ((unit_at q s).keyframe ≡ true)

-- the unit at `s` is offered
pub record Offered (q : Queue) (start s : ℕ) (answer : Option Burst) : Type 0 where
  pub from_start : start ≤ s
  pub retained : s < q.head
  pub unit : answer ≡ some (unit_at q s)
  pub own : (unit_at q s).sequence ≡ s
  pub synced : q.resync ≡ true → (unit_at q s).keyframe ≡ true
  pub skipped : (k : ℕ) → start ≤ k → k < s → (q.resync ≡ true) × ((unit_at q k).keyframe ≡ false)

pub record Nothing (q : Queue) (start : ℕ) (answer : Option Burst) : Type 0 where
  pub answered : answer ≡ none
  pub skipped :
      (k : ℕ) → start ≤ k → k < q.head → (q.resync ≡ true) × ((unit_at q k).keyframe ≡ false)
