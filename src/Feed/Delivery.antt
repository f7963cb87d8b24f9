-- ===== src/Feed/Delivery.antt =====
-- What `ngx_media_feed_read` hands to a consumer.
use nginx_media.Base.{
  ℕ, zero, suc, ◌+◌, ◌-◌, ◌^◌, ◌≤◌, ◌<◌, ◌≡◌, refl, sym, ap, ap₂, ◌∙◌, Bool, ◌&&◌, List, [], ◌∷◌,
  arith, length, take, drop, drop-drop, map-drop, map-take, length-map, ltb, ◌/=◌, ◌==◌, inc64,
  add64, if◌then◌else◌, Bool-cases, inl, inr, lt→ltb,
}
use nginx_media.Buffer.{Refs, Frame, buf_ref}
use nginx_media.Ring.{window, drop-window}
use nginx_media.Feed.{Feed, Slot, Cursor, slot_of}
use nginx_media.Feed.Hist.{Histogram}
use nginx_media.Feed.Read.{
  Taken, read_loop, read, deliver, delivered, batch, empty, ReadResult, note_delay,
}
use nginx_media.Feed.Valid.{IsValid, contents, total, slot_len, total-drop}
use nginx_media.Feed.Budget.{budgeted, budgeted-take}
use nginx_media.Feed.Log.{Records, frames_of}

module _ (f : Feed) (max_units max_bytes now : ℕ) (small : f.head < 2 ^ 64) where
  abbrev pub available : ℕ → ℕ → List Slot
  available seq n = window (slot_of f.capacity) f.slots seq n

  abbrev over : ℕ → ℕ → Slot → Bool
  over count bytes s = ltb 0 count && (max_bytes /= 0 && ltb max_bytes (bytes + slot_len s))

  -- What the loop leaves, from `seq` on with `count` units of `bytes` bytes already taken.
  pub record Batch (seq count bytes fuel : ℕ) (t : Taken) : Type 0 where
    pub taken : t.frames ≡ frames_of (budgeted max_units max_bytes count bytes (available seq fuel))
    pub advanced : t.seq ≡ seq + length t.frames

  pub read_loop-Batch :
      (fuel seq count bytes : ℕ) (hist : Histogram) (r : Refs)
      → seq + fuel ≡ f.head
      → count + fuel < 2 ^ 64
      → bytes + total (available seq fuel) < 2 ^ 64
      → Batch seq count bytes fuel (read_loop fuel f max_units max_bytes now seq count bytes hist r)
  unfolding read_loop budgeted
  read_loop-Batch zero seq count bytes hist r e c b = record {
    taken = refl;
    advanced = omega arith;
  }
  read_loop-Batch (suc fuel) seq count bytes hist r e c b =
      let s = f.slots (slot_of f.capacity seq) in
      let sum : add64 bytes (slot_len s) ≡ bytes + slot_len s = omega arith in
      let next : inc64 seq ≡ seq + 1 = omega arith in
      let more : inc64 count ≡ count + 1 = omega arith in
      let rest =
        read_loop-Batch fuel (seq + 1) (count + 1) (bytes + slot_len s)
          (note_delay hist now s.publish_time) (buf_ref s.frame.payload r) (omega arith)
          (omega arith) (omega arith) in
      rw (sum, next, more, lt→ltb seq f.head (omega arith))
        (elim (Bool-cases (ltb count max_units)) [
          | inr full ↦ rw full (record { taken = rw full refl; advanced = omega arith })
          | inl room ↦ elim (Bool-cases (over count bytes s)) [
            | inl big ↦
                rw (room, big) (record { taken = rw (room, big) refl; advanced = omega arith })
            | inr fits ↦
                rw (room, fits)
                  (record {
                    taken = rw (room, fits) (ap (◌∷◌ s.frame) rest.taken);
                    advanced = omega (arith, rest.advanced);
                  })
          ]
        ])

module _ (f : Feed) (c : Cursor) (max_units max_bytes now : ℕ) (r : Refs) (v : IsValid f)
    (current : c.generation ≡ f.generation) (retained : f.tail ≤ c.next_sequence)
    (reached : c.next_sequence ≤ f.head) where
  ahead :
      drop (c.next_sequence - f.tail) (contents f)
      ≡ window (slot_of f.capacity) f.slots c.next_sequence (f.head - c.next_sequence)
  ahead =
      drop-window (slot_of f.capacity) f.slots (c.next_sequence - f.tail) f.tail (f.head - f.tail)
      ∙ ap₂ (window (slot_of f.capacity) f.slots) {x = f.tail + (c.next_sequence - f.tail)}
          {y = c.next_sequence} {u = f.head - f.tail - (c.next_sequence - f.tail)}
          {v = f.head - c.next_sequence} (omega arith) (omega arith)

  taken : Taken
  taken =
      read_loop (f.head - c.next_sequence) f max_units max_bytes now c.next_sequence 0 0 f.fanout r

  taken-Batch :
      Batch f max_units max_bytes now v.small c.next_sequence 0 0 (f.head - c.next_sequence) taken
  unfolding taken
  taken-Batch =
      read_loop-Batch f max_units max_bytes now v.small (f.head - c.next_sequence) c.next_sequence 0
        0 f.fanout r (omega arith) (omega (arith, v.small))
        (omega (
          arith,
          ap total ahead,
          total-drop (c.next_sequence - f.tail) (contents f),
          v.counted,
          v.bytes_small,
        ))

  read-delivered : read f c max_units max_bytes now r ≡ delivered f c taken
  unfolding read taken
  read-delivered = ground (arith, v.live)

-- What a consumer gets: the next frames of the log, and a cursor moved past exactly those.
pub record Delivers (f : Feed) (c : Cursor) (mu mb : ℕ) (log : List Frame) (res : ReadResult)
    : Type 0 where
  pub budget :
      res.frames ≡ frames_of (budgeted mu mb 0 0 (drop (c.next_sequence - f.tail) (contents f)))
  pub from_log : res.frames ≡ take (length res.frames) (drop c.next_sequence log)
  pub advanced : res.cursor.next_sequence ≡ c.next_sequence + length res.frames
  pub same_generation : res.cursor.generation ≡ c.generation
  pub outcome : res.outcome ≡ (if length res.frames == 0 then empty else batch)
  pub unchanged : contents res.feed ≡ contents f
  pub hist : Histogram
  pub feed_after : res.feed ≡ record f { fanout = hist }

record Delivered (w : List Frame) (f : Feed) (c : Cursor) (res : ReadResult) : Type 0 where
  frames : res.frames ≡ w
  advanced : res.cursor.next_sequence ≡ c.next_sequence + length w
  generation : res.cursor.generation ≡ c.generation
  outcome : res.outcome ≡ (if length w == 0 then empty else batch)
  kept : contents res.feed ≡ contents f
  hist : Histogram
  feed_after : res.feed ≡ record f { fanout = hist }

deliver-Delivered :
    (w : List Frame) (f : Feed) (c : Cursor) (t : Taken)
    → t.seq ≡ c.next_sequence + length w
    → Delivered w f c (deliver w f c t)
deliver-Delivered [] f c t e = record {
  frames = refl;
  advanced = omega arith;
  generation = refl;
  outcome = refl;
  kept = refl;
  hist = t.fanout;
  feed_after = refl;
}
deliver-Delivered (x ∷ w) f c t e = record {
  frames = refl;
  advanced = e;
  generation = refl;
  outcome = ground arith;
  kept = refl;
  hist = t.fanout;
  feed_after = refl;
}

module _ (f : Feed) (c : Cursor) (mu mb now : ℕ) (r : Refs) (log : List Frame) (v : IsValid f)
    (rec : Records f log) (current : c.generation ≡ f.generation)
    (retained : f.tail ≤ c.next_sequence) (reached : c.next_sequence ≤ f.head) where
  batch_slots : List Slot
  batch_slots = budgeted mu mb 0 0 (drop (c.next_sequence - f.tail) (contents f))

  frames_ahead : frames_of (drop (c.next_sequence - f.tail) (contents f)) ≡ drop c.next_sequence log
  frames_ahead =
      map-drop _ (c.next_sequence - f.tail) (contents f)
      ∙ ap (drop (c.next_sequence - f.tail)) rec.suffix
      ∙ drop-drop f.tail (c.next_sequence - f.tail) log
      ∙ ap (λ n. drop n log) {x = f.tail + (c.next_sequence - f.tail)} {y = c.next_sequence}
          (omega arith)

  batch_from_log :
      frames_of batch_slots ≡ take (length (frames_of batch_slots)) (drop c.next_sequence log)
  unfolding batch_slots
  batch_from_log =
      ap frames_of (budgeted-take mu mb 0 0 (drop (c.next_sequence - f.tail) (contents f)))
      ∙ map-take _ (length batch_slots) (drop (c.next_sequence - f.tail) (contents f))
      ∙ ap₂ take (sym (length-map _ batch_slots)) frames_ahead

  -- Reading at a retained position of the current generation returns the next frames of the log,
  -- as many as the unit and byte budgets cut from the retained list, moves the cursor past exactly
  -- those, and leaves the retained units for others; the outcome is EMPTY exactly when no frame is
  -- returned.
  pub read-Delivers : Delivers f c mu mb log (read f c mu mb now r)
  unfolding batch_slots
  read-Delivers =
      let t = taken f c mu mb now r v current retained reached in
      let b = taken-Batch f c mu mb now r v current retained reached in
      let d = deliver-Delivered t.frames f c t b.advanced in
      let chosen : t.frames ≡ frames_of batch_slots =
        b.taken
        ∙ ap (λ w. frames_of (budgeted mu mb 0 0 w))
            (sym (ahead f c mu mb now r v current retained reached)) in
      rw (read-delivered f c mu mb now r v current retained reached) (record {
        budget = d.frames ∙ chosen;
        from_log = rw (d.frames, chosen) batch_from_log;
        advanced = rw d.frames d.advanced;
        same_generation = d.generation;
        outcome = rw d.frames d.outcome;
        unchanged = d.kept;
        hist = d.hist;
        feed_after = d.feed_after;
      })
