-- ===== src/Feed/Prune.antt =====
-- `ngx_media_feed_prune` against a list: the oldest units go while a ceiling is exceeded.
use nginx_media.Base.{
  ℕ, zero, suc, ◌+◌, ◌-◌, ◌%◌, ◌^◌, ◌≤◌, ◌<◌, ◌≡◌, refl, sym, ap, ap₂, ◌∙◌, drop, Bool, true, false,
  ◌&&◌, ◌||◌, List, [], ◌∷◌, arith, ltb, leb, ◌/=◌, if◌then◌else◌, sub64, length, Bool-cases, inl,
  inr, lt→ltb,
}
use nginx_media.Buffer.{Refs}
use nginx_media.Ring.{length-window, window}
use nginx_media.Feed.{Feed, Slot, slot_of, evict, over_limits, prune_loop, prune}
use nginx_media.Feed.Valid.{
  IsValid, contents, total, contents-evict, evict-IsValid, bytes-evict-le, left-evict,
}

pub record Limits : Type 0 where
  pub max_units : ℕ
  pub max_bytes : ℕ
  pub max_age : ℕ

abbrev pub limits : Feed → Limits
limits f = record { max_units = f.max_units; max_bytes = f.max_bytes; max_age = f.max_age }

-- The ceilings, said of the list of retained units.
abbrev pub exceeds : Limits → ℕ → ℕ → List Slot → Bool
exceeds l now incoming [] = false
exceeds l now incoming (s ∷ w) =
    leb l.max_units (length (s ∷ w))
    || (l.max_bytes /= 0 && ltb l.max_bytes (total (s ∷ w) + incoming))
    || (l.max_age /= 0 && ltb l.max_age (sub64 now s.publish_time))

pub trim : Limits → ℕ → ℕ → List Slot → List Slot
trim l now incoming [] = []
trim l now incoming (s ∷ w) =
    if exceeds l now incoming (s ∷ w) then trim l now incoming w else s ∷ w

-- Trimming only drops from the front.
pub trim-drop :
    (l : Limits) (now incoming : ℕ) (w : List Slot)
    → (k : ℕ) × (trim l now incoming w ≡ drop k w) × (length (trim l now incoming w) + k ≡ length w)
unfolding trim
trim-drop l now incoming [] = (0, refl, refl)
trim-drop l now incoming (s ∷ w) = elim (Bool-cases (exceeds l now incoming (s ∷ w))) [
  | inl over ↦
      let (k, e, n) = trim-drop l now incoming w in (suc k, rw over e, rw over (omega (arith, n)))
  | inr under ↦ (0, rw under, rw under (omega arith))
]

module _ (now incoming : ℕ) where
  trim_under :
      (l : Limits) (w : List Slot) → exceeds l now incoming w ≡ false → w ≡ trim l now incoming w
  unfolding trim
  trim_under l [] h = refl
  trim_under l (s ∷ w) h = rw h

  -- On a ring that retains something, the code's test is the list's.
  over_limits-exceeds :
      (f : Feed) (r : Refs)
      → IsValid f
      → f.tail < f.head
      → f.bytes + incoming < 2 ^ 64
      → over_limits f now incoming
        ≡ exceeds
            (limits f)
            now
            incoming
            (f.slots (slot_of f.capacity f.tail) ∷ contents (evict f r).0)
  unfolding over_limits
  over_limits-exceeds f r v more small =
      let s = f.slots (slot_of f.capacity f.tail) in
      let units : sub64 f.head f.tail ≡ length (s ∷ contents (evict f r).0) = omega (
        arith,
        length-window (slot_of f.capacity) f.slots f.tail (f.head - f.tail),
        ap length (contents-evict f r v more),
        v.small,
      ) in
      let bytes : (f.bytes + incoming) % 2 ^ 64 ≡ total (s ∷ contents (evict f r).0) + incoming =
        omega (arith, v.counted, ap total (contents-evict f r v more)) in
      ap₂
        (λ n b.
          leb f.max_units n
          || (f.max_bytes /= 0 && ltb f.max_bytes b)
          || (f.max_age /= 0 && ltb f.max_age (sub64 now s.publish_time)))
        units bytes

  -- What the loop of `prune` does, on the rounds that are left.
  pub record Pruned (f g : Feed) : Type 0 where
    pub valid : IsValid g
    pub same_head : g.head ≡ f.head
    pub same_limits : limits g ≡ limits f
    pub kept : contents g ≡ trim (limits f) now incoming (contents f)
    pub stops : exceeds (limits f) now incoming (contents g) ≡ false
    pub bytes_le : g.bytes ≤ f.bytes

  module _ (f : Feed) (r : Refs) (v : IsValid f) (more : f.tail < f.head) where
    oldest : Slot
    oldest = f.slots (slot_of f.capacity f.tail)

    evicted-Pruned :
        (g : Feed)
        → exceeds (limits f) now incoming (oldest ∷ contents (evict f r).0) ≡ true
        → Pruned (evict f r).0 g
        → Pruned f g
    unfolding evict trim oldest
    evicted-Pruned g over p = record {
      valid = p.valid;
      same_head = p.same_head;
      same_limits = p.same_limits;
      kept = rw (contents-evict f r v more, over) p.kept;
      stops = p.stops;
      bytes_le = omega (arith, p.bytes_le, bytes-evict-le f r v more);
    }

    kept-Pruned :
        exceeds (limits f) now incoming (oldest ∷ contents (evict f r).0) ≡ false → Pruned f f
    unfolding trim oldest
    kept-Pruned under = record {
      valid = v;
      same_head = refl;
      same_limits = refl;
      kept = trim_under (limits f) (contents f) exceeds_f;
      stops = exceeds_f;
      bytes_le = omega arith;
    }
      where
        exceeds_f : exceeds (limits f) now incoming (contents f) ≡ false
        exceeds_f = rw (contents-evict f r v more) under

  drained-Pruned : (f : Feed) → IsValid f → contents f ≡ [] → Pruned f f
  unfolding trim
  drained-Pruned f v e = record {
    valid = v;
    same_head = refl;
    same_limits = refl;
    kept = rw e;
    stops = rw e;
    bytes_le = omega arith;
  }

  prune_loop-Pruned :
      (fuel : ℕ) (f : Feed) (r : Refs)
      → f.head - f.tail ≡ fuel
      → IsValid f
      → f.bytes + incoming < 2 ^ 64
      → Pruned f (prune_loop fuel f r now incoming).0
  unfolding prune_loop oldest
  prune_loop-Pruned zero f r e v small =
      drained-Pruned f v (ap (window (slot_of f.capacity) f.slots f.tail) e)
  prune_loop-Pruned (suc fuel) f r e v small =
      let more : f.tail < f.head = omega arith in
      let test = over_limits-exceeds f r v more small in
      elim (Bool-cases (over_limits f now incoming)) [
        | inl over ↦
            rw (lt→ltb f.tail f.head more, over)
              (evicted-Pruned f r v more _ (sym test ∙ over) (
                prune_loop-Pruned fuel (evict f r).0 (evict f r).1
                  (omega (arith, left-evict f r v more)) (evict-IsValid f r v more)
                  (omega (arith, bytes-evict-le f r v more))))
        | inr under ↦
            rw (lt→ltb f.tail f.head more, under) (kept-Pruned f r v more (sym test ∙ under))
      ]

pub prune-Pruned :
    (f : Feed) (r : Refs) (now incoming : ℕ)
    → IsValid f
    → f.bytes + incoming < 2 ^ 64
    → Pruned now incoming f (prune f r now incoming).0
unfolding prune
prune-Pruned f r now incoming v small =
    prune_loop-Pruned now incoming (f.head - f.tail) f r refl v small
