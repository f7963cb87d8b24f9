-- ===== src/Queue/Valid.antt =====
-- The invariant of the queue, and what one eviction does to it.
use native.Mathlib.Decide.{dec_lt}
use native.Mathlib.Nat.{add-mod_right}
use nginx_media.Base.{
  ℕ, ◌+◌, ◌-◌, ◌^◌, ◌≤◌, ◌<◌, ◌≡◌, ◌≢◌, refl, sym, ap, ap₂, ◌∙◌, Bool, true, false, List, [], ◌∷◌,
  ◌++◌, arith, inc64, update,
}
use nginx_media.Buffer.{Refs, is_set}
use nginx_media.Ring.{window, window-cons, window-clear, idx-ne}
use nginx_media.Queue.{Queue, Burst, slot_of, released, retire}

-- the retained units, oldest first
abbrev pub contents : Queue → List Burst
contents q = window (slot_of q.capacity) q.units q.tail (q.head - q.tail)

abbrev pub total : List Burst → ℕ
total [] = 0
total (u ∷ w) = u.len + total w

pub total-snoc : (w : List Burst) (u : Burst) → total (w ++ (u ∷ [])) ≡ total w + u.len
total-snoc [] u = omega arith
total-snoc (x ∷ w) u = omega (arith, total-snoc w u)

pub record IsValid (q : Queue) : Type 0 where
  pub room : 0 < q.capacity
  pub ordered : q.tail ≤ q.head
  pub bounded : q.head ≤ q.tail + q.capacity
  pub small : q.head < 2 ^ 64
  pub counted : q.bytes ≡ total (contents q)
  pub bytes_small : q.bytes < 2 ^ 64
  -- a retained unit has its burst and its own number
  pub held :
      (s : ℕ) → q.tail ≤ s → s < q.head → is_set (q.units (slot_of q.capacity s)).burst ≡ true
  pub numbered : (s : ℕ) → q.tail ≤ s → s < q.head → (q.units (slot_of q.capacity s)).sequence ≡ s
  -- a slot that no retained unit uses has no burst
  pub idle :
      (s : ℕ)
      → q.head ≤ s
      → s < q.tail + q.capacity
      → is_set (q.units (slot_of q.capacity s)).burst ≡ false

module _ (q : Queue) (r : Refs) (v : IsValid q) (more : q.tail < q.head) where
  oldest : Burst
  oldest = q.units (slot_of q.capacity q.tail)

  pub contents-retire : contents q ≡ q.units (slot_of q.capacity q.tail) ∷ contents (retire q r).0
  unfolding retire
  contents-retire =
      window-cons (slot_of q.capacity) q.units q.tail (q.head - q.tail) (omega arith)
      ∙ ap (◌∷◌ (q.units (slot_of q.capacity q.tail))) (
          sym (
            window-clear (slot_of q.capacity) q.capacity v.room (λ i. refl) q.units
              (released (q.units (slot_of q.capacity q.tail))) q.tail (q.head - q.tail - 1)
              (omega (arith, v.bounded)))
          ∙ ap₂
              (window (slot_of q.capacity) (
                update q.units (slot_of q.capacity q.tail)
                  (released (q.units (slot_of q.capacity q.tail)))))
              {x = q.tail + 1} {y = inc64 q.tail} (omega (arith, v.small)) (omega (arith, v.small)))

  bytes-retire : (retire q r).0.bytes ≡ total (contents (retire q r).0)
  unfolding retire
  bytes-retire =
      rw (v.held q.tail (omega arith) more) omega
        (arith, v.counted, v.bytes_small, ap total contents-retire)

  other :
      (s : ℕ)
      → q.tail + 1 ≤ s
      → s < q.tail + q.capacity
      → slot_of q.capacity q.tail ≢ slot_of q.capacity s
  other s a b e =
      idx-ne (slot_of q.capacity) q.capacity v.room (λ i. refl) q.tail (s - q.tail) (omega arith)
        (omega arith) (ap (slot_of q.capacity) (omega arith) ∙ sym e)

  untouched :
      (s : ℕ)
      → q.tail + 1 ≤ s
      → s < q.tail + q.capacity
      → (retire q r).0.units (slot_of q.capacity s) ≡ q.units (slot_of q.capacity s)
  unfolding retire
  untouched s a b = ground (arith, other s a b)

  same_slot : (s : ℕ) → s ≡ q.tail + q.capacity → slot_of q.capacity q.tail ≡ slot_of q.capacity s
  same_slot s e = sym (ap (slot_of q.capacity) e ∙ add-mod_right q.tail q.capacity)

  idle-retire :
      (s : ℕ)
      → q.head ≤ s
      → s < q.tail + 1 + q.capacity
      → is_set ((retire q r).0.units (slot_of q.capacity s)).burst ≡ false
  unfolding retire
  idle-retire s h k = elim (dec_lt s (q.tail + q.capacity)) [
    | yes near ↦ ground (arith, v.idle s h near)
    | no far ↦ ground (arith, same_slot s (omega arith))
  ]

  pub bytes-retire_le : (retire q r).0.bytes ≤ q.bytes
  bytes-retire_le = omega (arith, bytes-retire, v.counted, ap total contents-retire)

  -- Retiring the oldest unit keeps the queue well formed.
  pub retire-IsValid : IsValid (retire q r).0
  unfolding retire
  retire-IsValid = record {
    room = v.room;
    ordered = omega (arith, v.small);
    bounded = omega (arith, v.bounded, v.small);
    small = v.small;
    counted = bytes-retire;
    bytes_small = omega (arith, bytes-retire_le, v.bytes_small);
    held = λ s a b.
        ap (λ (u : Burst). is_set u.burst)
          (untouched s (omega (arith, v.small)) (omega (arith, v.bounded)))
        ∙ v.held s (omega (arith, v.small)) b;
    numbered = λ s a b.
        ap (λ (u : Burst). u.sequence)
          (untouched s (omega (arith, v.small)) (omega (arith, v.bounded)))
        ∙ v.numbered s (omega (arith, v.small)) b;
    idle = λ s a b. idle-retire s a (omega (arith, v.small));
  }

-- The counters and the flag are no part of the ring.
pub IsValid-counters :
    (q : Queue) (d p : ℕ) (b : Bool)
    → IsValid q
    → IsValid (record q { dropped = d; pushed = p; resync = b })
IsValid-counters q d p b v = record {
  room = v.room;
  ordered = v.ordered;
  bounded = v.bounded;
  small = v.small;
  counted = v.counted;
  bytes_small = v.bytes_small;
  held = v.held;
  numbered = v.numbered;
  idle = v.idle;
}
