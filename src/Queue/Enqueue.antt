-- ===== src/Queue/Enqueue.antt =====
-- A burst is queued last, within the ceilings.
use native.Mathlib.Decide.{dec_lt}
use nginx_media.Base.{
  ℕ, suc, ◌+◌, ◌-◌, ◌^◌, ◌≤◌, ◌<◌, ◌≡◌, ◌≢◌, refl, sym, ap, subst, ◌∙◌, Bool, true, false, ◌&&◌,
  some, List, [], ◌∷◌, ◌++◌, arith, length, add64, update, ltb, ◌==◌, ◌/=◌, inl, inr, ◌⊎◌, ok,
}
use nginx_media.Buffer.{Buf, Refs, is_set}
use nginx_media.Ring.{window, length-window, window-push_at, idx-ne}
use nginx_media.Queue.{Queue, Burst, slot_of, make_room, displace, enqueue, push}
use nginx_media.Queue.Valid.{IsValid, contents, total, total-snoc}
use nginx_media.Queue.Push.{Trimmed, too_many, trim, trim-fits, make_room-Trimmed}

module _ (q : Queue) (u : Burst) (v : IsValid q) (own : u.sequence ≡ q.head)
    (full : is_set u.burst ≡ true) (space : q.head < q.tail + q.capacity)
    (fits : q.head + 1 < 2 ^ 64) (bytes : q.bytes + u.len < 2 ^ 64) where
  pub contents-enqueue : contents (enqueue q u) ≡ contents q ++ (u ∷ [])
  unfolding enqueue
  contents-enqueue =
      ap (window (slot_of q.capacity) (update q.units (slot_of q.capacity q.head) u) q.tail)
        {y = suc (q.head - q.tail)} (omega (arith, v.ordered))
      ∙ window-push_at (slot_of q.capacity) q.capacity v.room (λ i. refl) q.units u q.tail
          (q.head - q.tail) q.head (omega (arith, v.ordered)) (omega (arith, v.room))

  here : (s : ℕ) → s ≡ q.head → (enqueue q u).units (slot_of q.capacity s) ≡ u
  unfolding enqueue
  here s e = ground (arith, ap (slot_of q.capacity) e)

  before :
      (s : ℕ)
      → q.tail ≤ s
      → s < q.head
      → (enqueue q u).units (slot_of q.capacity s) ≡ q.units (slot_of q.capacity s)
  unfolding enqueue
  before s a b = ground (arith, ne)
    where
      ne : slot_of q.capacity q.head ≢ slot_of q.capacity s
      ne e =
          idx-ne (slot_of q.capacity) q.capacity v.room (λ i. refl) s (q.head - s) (omega arith)
            (omega arith) (ap (slot_of q.capacity) (omega arith) ∙ e)

  after :
      (s : ℕ)
      → q.head < s
      → s < q.tail + q.capacity
      → (enqueue q u).units (slot_of q.capacity s) ≡ q.units (slot_of q.capacity s)
  unfolding enqueue
  after s a b = ground (arith, ne)
    where
      ne : slot_of q.capacity q.head ≢ slot_of q.capacity s
      ne e =
          idx-ne (slot_of q.capacity) q.capacity v.room (λ i. refl) q.head (s - q.head)
            (omega arith) (omega (arith, v.ordered)) (ap (slot_of q.capacity) (omega arith) ∙ sym e)

  pub enqueue-IsValid : IsValid (enqueue q u)
  unfolding enqueue
  enqueue-IsValid = record {
    room = v.room;
    ordered = omega (arith, v.ordered);
    bounded = omega arith;
    small = omega arith;
    counted = omega (arith, v.counted, ap total contents-enqueue, total-snoc (contents q) u);
    bytes_small = omega arith;
    held = λ s a b. elim (dec_lt s q.head) [
      | yes old ↦ ap (λ (x : Burst). is_set x.burst) (before s a old) ∙ v.held s a old
      | no new ↦ ap (λ (x : Burst). is_set x.burst) (here s (omega arith)) ∙ full
    ];
    numbered = λ s a b. elim (dec_lt s q.head) [
      | yes old ↦ ap (λ (x : Burst). x.sequence) (before s a old) ∙ v.numbered s a old
      | no new ↦ omega (arith, ap (λ (x : Burst). x.sequence) (here s (omega arith)), own)
    ];
    idle = λ s a b.
        ap (λ (x : Burst). is_set x.burst) (after s (omega arith) b) ∙ v.idle s (omega arith) b;
  }

-- The unit that the code builds for a burst.
abbrev pub unit_of : Queue → Buf → ℕ → Bool → ℕ → Burst
unit_of q burst len keyframe now = record {
  burst = some burst;
  len = len;
  sequence = q.head;
  enqueue_msec = now;
  keyframe = keyframe;
}

pub record Queued (u : Burst) (p q : Queue) : Type 0 where
  pub valid : IsValid q
  pub kept : contents q ≡ trim p.capacity p.max_bytes u.len (contents p) ++ (u ∷ [])
  pub bytes : (p.max_bytes ≡ 0) ⊎ (q.bytes ≤ p.max_bytes)
  pub dropped : p.dropped + (q.tail - p.tail) < 2 ^ 64 → q.dropped ≡ p.dropped + (q.tail - p.tail)
  pub waits : ((q.tail ≡ p.tail) × (q.resync ≡ p.resync)) ⊎ (q.resync ≡ true)

within_units : (c m len : ℕ) (w : List Burst) → too_many c m len w ≡ false → length w < c
within_units c m len w h = ground arith

within_bytes :
    (c m len : ℕ) (w : List Burst) → too_many c m len w ≡ false → (m ≡ 0) ⊎ (total w + len ≤ m)
within_bytes c m len w h = ground arith

module _ (p g : Queue) (len : ℕ) (t : Trimmed len p g) where
  -- Trimming has made room for the burst.
  space-Trimmed : g.head < g.tail + g.capacity
  space-Trimmed = elim (trim-fits p.capacity p.max_bytes len (contents p)) [
    | inl none ↦ omega (
      arith,
      ap length (t.kept ∙ none),
      length-window (slot_of g.capacity) g.units g.tail (g.head - g.tail),
      t.valid.room,
      t.valid.ordered,
    )
    | inr fits ↦ omega (
      arith,
      within_units p.capacity p.max_bytes len _ fits,
      ap length t.kept,
      length-window (slot_of g.capacity) g.units g.tail (g.head - g.tail),
      t.capacity,
      t.valid.ordered,
    )
  ]

  bytes-Trimmed :
      (p.max_bytes ≡ 0) ⊎ (len ≤ p.max_bytes) → (p.max_bytes ≡ 0) ⊎ (g.bytes + len ≤ p.max_bytes)
  bytes-Trimmed (inl z) = inl z
  bytes-Trimmed (inr le) = elim (trim-fits p.capacity p.max_bytes len (contents p)) [
    | inl none ↦ inr (omega (arith, le, t.valid.counted, ap total (t.kept ∙ none)))
    | inr fits ↦ elim (within_bytes p.capacity p.max_bytes len _ fits) [
      | inl z ↦ inl z
      | inr le' ↦ inr (omega (arith, le', t.valid.counted, ap total t.kept))
    ]
  ]

  -- The slot to be written is free: nothing is displaced.
  displace-Trimmed : (r : Refs) → displace g r ≡ (g, r)
  unfolding displace
  displace-Trimmed r = simp (t.valid.idle g.head (omega arith) space-Trimmed) refl

  enqueue-Queued :
      (burst : Buf) (keyframe : Bool) (now : ℕ)
      → (p.max_bytes ≡ 0) ⊎ (len ≤ p.max_bytes)
      → p.head + 1 < 2 ^ 64
      → p.bytes + len < 2 ^ 64
      → Queued (unit_of g burst len keyframe now) p (enqueue g (unit_of g burst len keyframe now))
  unfolding enqueue
  enqueue-Queued burst keyframe now l h b =
      let u = unit_of g burst len keyframe now in
      let h' : g.head + 1 < 2 ^ 64 = omega (arith, t.head) in
      let b' : g.bytes + len < 2 ^ 64 = omega (arith, t.bytes) in
      record {
        valid = enqueue-IsValid g u t.valid refl refl space-Trimmed h' b';
        kept =
            contents-enqueue g u t.valid refl refl space-Trimmed h' b'
            ∙ ap (λ w. w ++ (u ∷ [])) t.kept;
        bytes = limit (bytes-Trimmed l) b';
        dropped = t.dropped;
        waits = t.waits;
      }
    where
      limit :
          (p.max_bytes ≡ 0) ⊎ (g.bytes + len ≤ p.max_bytes)
          → g.bytes + len < 2 ^ 64
          → (p.max_bytes ≡ 0) ⊎ (add64 g.bytes len ≤ p.max_bytes)
      limit (inl z) b = inl z
      limit (inr le) b = inr (omega arith)

-- Pushing a burst that is not empty and within the byte ceiling, on a well-formed queue whose
-- counters do not wrap: the call succeeds, the oldest units go exactly while a ceiling is broken,
-- the burst is queued last with the next number, the queue stays well formed and within its byte
-- ceiling, every unit that went is counted, and if any went the consumer waits for a keyframe.
pub push-Queued :
    (q : Queue) (r : Refs) (burst : Buf) (len : ℕ) (keyframe : Bool) (now : ℕ)
    → IsValid q
    → 0 < len
    → ((q.max_bytes ≡ 0) ⊎ (len ≤ q.max_bytes))
    → q.head + 1 < 2 ^ 64
    → q.bytes + len < 2 ^ 64
    → ((push q r burst len keyframe now).0 ≡ ok)
      × Queued (unit_of q burst len keyframe now) q (push q r burst len keyframe now).1
unfolding push enqueue
push-Queued q r burst len keyframe now v p l h b =
    let g = (make_room q r len).0 in
    let t = make_room-Trimmed q r len v b in
    simp (nonzero, small l, displace-Trimmed q g len t (make_room q r len).1)
      (
        refl,
        subst
            (λ n.
              Queued
                (record {
                  burst = some burst;
                  len = len;
                  sequence = n;
                  enqueue_msec = now;
                  keyframe = keyframe;
                })
                q (enqueue g (unit_of g burst len keyframe now)))
            t.head (enqueue-Queued q g len t burst keyframe now l h b),
      )
  where
    nonzero : (len == 0) ≡ false
    nonzero = ground arith

    small :
        (q.max_bytes ≡ 0) ⊎ (len ≤ q.max_bytes) → (q.max_bytes /= 0 && ltb q.max_bytes len) ≡ false
    small (inl z) = ground arith
    small (inr le) = ground arith
