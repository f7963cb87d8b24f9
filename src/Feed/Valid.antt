-- ===== src/Feed/Valid.antt =====
-- The invariant of the feed's ring, and what one eviction does to it.
use native.Mathlib.Decide.{dec_lt}
use native.Mathlib.Nat.{add-mod_right}
use nginx_media.Base.{
  ap₂, inc64, ℕ, zero, suc, ◌+◌, ◌-◌, ◌%◌, ◌^◌, ◌≤◌, ◌<◌, ◌≡◌, sym, ap, ◌∙◌, ◌⊎◌, inl, inr, true,
  Option, none, some, drop, List, [], ◌∷◌, arith, update,
}
use nginx_media.Buffer.{Buf, Refs, payload_len}
use nginx_media.Ring.{window, window-cons, window-clear}
use nginx_media.Feed.Hist.{Histogram}
use nginx_media.Feed.{Feed, Slot, slot_of, empty_slot, less_payload, evict}

-- What a consumer can see: the retained units, oldest first.
abbrev pub contents : Feed → List Slot
contents f = window (slot_of f.capacity) f.slots f.tail (f.head - f.tail)

abbrev pub slot_len : Slot → ℕ
slot_len s = payload_len s.frame.payload

abbrev pub total : List Slot → ℕ
total [] = 0
total (s ∷ w) = slot_len s + total w

pub total-drop : (k : ℕ) (w : List Slot) → total (drop k w) ≤ total w
total-drop zero w = omega arith
total-drop (suc k) [] = omega arith
total-drop (suc k) (s ∷ w) = omega (arith, total-drop k w)

pub record IsValid (f : Feed) : Type 0 where
  pub live : f.allocated ≡ true
  pub ring : (i : ℕ) → slot_of f.capacity i ≡ i % f.capacity
  pub room : f.max_units ≤ f.capacity
  pub nonzero : 0 < f.max_units
  pub ordered : f.tail ≤ f.head
  pub bounded : f.head ≤ f.tail + f.max_units
  pub small : f.head < 2 ^ 64
  pub counted : f.bytes ≡ total (contents f)
  pub bytes_small : f.bytes < 2 ^ 64
  -- every slot that no retained unit uses has no payload
  pub idle :
      (s : ℕ)
      → f.head ≤ s
      → s < f.tail + f.capacity
      → (f.slots (slot_of f.capacity s)).frame.payload ≡ none
  -- more bytes than the ceiling are retained only as one single unit
  pub byte_limit : (f.max_bytes ≡ 0) ⊎ (f.bytes ≤ f.max_bytes) ⊎ (f.head ≡ f.tail + 1)

less_payload_lem :
    (p : Option Buf) (b rest : ℕ) → b ≡ payload_len p + rest → b < 2 ^ 64 → less_payload p b ≡ rest
less_payload_lem none b rest e h = omega arith
less_payload_lem (some x) b rest e h = omega arith

module _ (f : Feed) (r : Refs) (v : IsValid f) (more : f.tail < f.head) where
  pub left-evict : (evict f r).0.head - (evict f r).0.tail ≡ f.head - f.tail - 1
  unfolding evict
  left-evict = omega arith

  next_tail : inc64 f.tail ≡ f.tail + 1
  next_tail = omega arith

  -- Eviction takes the oldest unit off, and nothing else.
  pub contents-evict : contents f ≡ f.slots (slot_of f.capacity f.tail) ∷ contents (evict f r).0
  unfolding evict
  contents-evict =
      window-cons (slot_of f.capacity) f.slots f.tail (f.head - f.tail) (omega arith)
      ∙ ap (◌∷◌ (f.slots (slot_of f.capacity f.tail))) (
          sym (
            window-clear (slot_of f.capacity) f.capacity (omega arith) v.ring f.slots empty_slot
              f.tail (f.head - f.tail - 1) (omega arith))
          ∙ ap₂
              (window (slot_of f.capacity) (update f.slots (slot_of f.capacity f.tail) empty_slot))
              (sym next_tail) (omega arith))

  pub bytes-evict : (evict f r).0.bytes ≡ total (contents (evict f r).0)
  unfolding evict
  bytes-evict =
      less_payload_lem (f.slots (slot_of f.capacity f.tail)).frame.payload f.bytes _
        (v.counted ∙ ap total contents-evict) v.bytes_small

  idle-evict :
      (s : ℕ)
      → f.head ≤ s
      → s < f.tail + 1 + f.capacity
      → ((evict f r).0.slots (slot_of f.capacity s)).frame.payload ≡ none
  unfolding evict
  idle-evict s h k = elim (dec_lt s (f.tail + f.capacity)) [
    | yes near ↦ ground (arith, v.idle s h near)
    | no far ↦ ground (arith, same (omega arith))
  ]
    where
      same : s ≡ f.tail + f.capacity → slot_of f.capacity f.tail ≡ slot_of f.capacity s
      same e = rw (v.ring f.tail, v.ring s, e) (sym (add-mod_right f.tail f.capacity))

  pub bytes-evict-le : (evict f r).0.bytes ≤ f.bytes
  bytes-evict-le = omega (arith, bytes-evict, v.counted, ap total contents-evict)

  bytes-evict_last : f.head ≡ f.tail + 1 → (evict f r).0.bytes ≡ 0
  unfolding evict
  bytes-evict_last e =
      let none_left : f.head - inc64 f.tail ≡ 0 = omega arith in
      bytes-evict
      ∙ ap (λ n. total (window (slot_of f.capacity) (evict f r).0.slots (inc64 f.tail) n)) none_left

  byte_limit-evict :
      (f.max_bytes ≡ 0) ⊎ ((evict f r).0.bytes ≤ f.max_bytes) ⊎ (f.head ≡ (evict f r).0.tail + 1)
  byte_limit-evict = elim v.byte_limit [
    | inl z ↦ inl z
    | inr (inl le) ↦ inr (inl (omega (arith, bytes-evict-le)))
    | inr (inr one) ↦ inr (inl (omega (arith, bytes-evict_last one)))
  ]

  -- Eviction keeps the ring well formed.
  pub evict-IsValid : IsValid (evict f r).0
  unfolding evict
  evict-IsValid = record {
    live = v.live;
    ring = v.ring;
    room = v.room;
    nonzero = v.nonzero;
    ordered = omega arith;
    bounded = omega arith;
    small = v.small;
    counted = bytes-evict;
    bytes_small = omega (arith, bytes-evict-le, v.bytes_small);
    idle = λ s h k. idle-evict s h (omega arith);
    byte_limit = byte_limit-evict;
  }

-- The counters and the histogram are no part of the ring.
pub IsValid-counters :
    (f : Feed) (o m : ℕ) (h : Histogram)
    → IsValid f
    → IsValid (record f { overruns = o; generation_mismatches = m; fanout = h })
IsValid-counters f o m h v = record {
  live = v.live;
  ring = v.ring;
  room = v.room;
  nonzero = v.nonzero;
  ordered = v.ordered;
  bounded = v.bounded;
  small = v.small;
  counted = v.counted;
  bytes_small = v.bytes_small;
  idle = v.idle;
  byte_limit = v.byte_limit;
}
