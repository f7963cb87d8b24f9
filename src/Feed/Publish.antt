-- ===== src/Feed/Publish.antt =====
-- `ngx_media_feed_publish` against the list of retained units.
use nginx_media.Base.{
  ℕ, suc, ◌+◌, ◌-◌, ◌^◌, ◌≤◌, ◌<◌, ◌≡◌, ◌≢◌, refl, sym, ap, ◌∙◌, false, List, [], ◌∷◌, ◌++◌, arith,
  add64, inc64, update, length, ◌⊎◌, inl, inr, ok, none,
}
use nginx_media.Buffer.{Refs, Frame, payload_len, frame_copy}
use nginx_media.Ring.{length-window, window, window-push_at, idx-ne}
use nginx_media.Feed.{Feed, Slot, slot_of, store, place, prune, publish}
use nginx_media.Feed.Valid.{IsValid, contents, total, slot_len, total-drop}
use nginx_media.Feed.Prune.{Limits, limits, exceeds, trim, Pruned, prune-Pruned, trim-drop}

abbrev pub new_slot : Frame → ℕ → Slot
new_slot frame now = record { frame = frame; publish_time = now }

pub total-snoc : (w : List Slot) (s : Slot) → total (w ++ (s ∷ [])) ≡ total w + slot_len s
total-snoc [] s = omega arith
total-snoc (x ∷ w) s = omega (arith, total-snoc w s)

module _ (f : Feed) (frame : Frame) (now : ℕ) (v : IsValid f)
    (space : f.head < f.tail + f.max_units) (fits : f.head + 1 < 2 ^ 64)
    (bytes : f.bytes + payload_len frame.payload < 2 ^ 64) where
  entry : Slot
  entry = new_slot frame now

  pub contents-store :
      contents (store f frame now (payload_len frame.payload))
      ≡ contents f ++ (new_slot frame now ∷ [])
  unfolding store entry
  contents-store =
      let grown : inc64 f.head - f.tail ≡ suc (f.head - f.tail) = omega (arith, v.ordered) in
      ap (window (slot_of f.capacity) (update f.slots (slot_of f.capacity f.head) entry) f.tail)
        grown
      ∙ window-push_at (slot_of f.capacity) f.capacity (omega (arith, v.room, v.nonzero)) v.ring
          f.slots entry f.tail (f.head - f.tail) f.head (omega (arith, v.ordered))
          (omega (arith, v.room, v.nonzero))

  idle-store :
      (s : ℕ)
      → f.head + 1 ≤ s
      → s < f.tail + f.capacity
      → ((store f frame now (payload_len frame.payload)).slots (slot_of f.capacity s)).frame.payload
        ≡ none
  unfolding store entry
  idle-store s h k = ground (arith, v.idle s (omega arith) k, other)
    where
      other : slot_of f.capacity f.head ≢ slot_of f.capacity s
      other e =
          idx-ne (slot_of f.capacity) f.capacity (omega (arith, v.room, v.nonzero)) v.ring f.head
            (s - f.head) (omega arith) (omega (arith, v.ordered))
            (ap (slot_of f.capacity) (omega arith) ∙ sym e)

  -- The unit is retained last, with the ring still well formed.
  pub store-IsValid :
      ((f.max_bytes ≡ 0) ⊎ (f.bytes + payload_len frame.payload ≤ f.max_bytes) ⊎ (f.head ≡ f.tail))
      → IsValid (store f frame now (payload_len frame.payload))
  unfolding store entry
  store-IsValid limit = record {
    live = v.live;
    ring = v.ring;
    room = v.room;
    nonzero = v.nonzero;
    ordered = omega (arith, v.ordered);
    bounded = omega (arith, v.ordered);
    small = omega arith;
    counted = counts;
    bytes_small = omega arith;
    idle = λ s h k. idle-store s (omega arith) k;
    byte_limit = within limit;
  }
    where
      counts :
          add64 f.bytes (payload_len frame.payload)
          ≡ total (contents (store f frame now (payload_len frame.payload)))
      counts = omega (arith, v.counted, ap total contents-store, total-snoc (contents f) entry)

      within :
          (f.max_bytes ≡ 0)
            ⊎ (f.bytes + payload_len frame.payload ≤ f.max_bytes)
            ⊎ (f.head ≡ f.tail)
          → (f.max_bytes ≡ 0)
            ⊎ (add64 f.bytes (payload_len frame.payload) ≤ f.max_bytes)
            ⊎ (inc64 f.head ≡ f.tail + 1)
      within (inl z) = inl z
      within (inr (inl le)) = inr (inl (omega arith))
      within (inr (inr e)) = inr (inr (omega arith))

-- What publishing leaves: nothing retained before is changed, the oldest units that a ceiling
-- drives out are gone, and the new one is last.
pub record Published (f : Feed) (frame : Frame) (now : ℕ) (g : Feed) : Type 0 where
  pub valid : IsValid g
  pub kept :
      contents g
      ≡ trim (limits f) now (payload_len frame.payload) (contents f) ++ (new_slot frame now ∷ [])
  pub next_head : g.head ≡ f.head + 1

module _ (now incoming : ℕ) (l : Limits) where
  exceeds_room :
      (w : List Slot) → 0 < l.max_units → exceeds l now incoming w ≡ false → length w < l.max_units
  exceeds_room [] p h = p
  exceeds_room (s ∷ w) p h = ground arith

  exceeds_bytes :
      (w : List Slot)
      → exceeds l now incoming w ≡ false
      → (l.max_bytes ≡ 0) ⊎ (total w + incoming ≤ l.max_bytes) ⊎ (length w ≡ 0)
  exceeds_bytes [] h = inr (inr refl)
  exceeds_bytes (s ∷ w) h = ground arith

-- The second half of `publish`, on what pruning has left.
module _ (f g : Feed) (frame : Frame) (now : ℕ) (p : Pruned now (payload_len frame.payload) f g)
    (v : IsValid f) (fits : f.head + 1 < 2 ^ 64)
    (bytes : f.bytes + payload_len frame.payload < 2 ^ 64) where
  -- Pruning has made room for one more unit.
  space : g.head < g.tail + g.max_units
  space = omega (
    arith,
    exceeds_room now (payload_len frame.payload) (limits f) (contents g) (omega (arith, v.nonzero))
        p.stops,
    length-window (slot_of g.capacity) g.slots g.tail (g.head - g.tail),
    p.valid.ordered,
    ap (λ (l : Limits). l.max_units) p.same_limits,
  )

  within :
      (g.max_bytes ≡ 0) ⊎ (g.bytes + payload_len frame.payload ≤ g.max_bytes) ⊎ (g.head ≡ g.tail)
  within = elim (exceeds_bytes now (payload_len frame.payload) (limits f) (contents g) p.stops) [
    | inl z ↦ inl (ceiling ∙ z)
    | inr (inl le) ↦ inr (inl (omega (arith, ceiling, p.valid.counted)))
    | inr (inr e) ↦ inr (
        inr (
          omega (
            arith,
            length-window (slot_of g.capacity) g.slots g.tail (g.head - g.tail),
            p.valid.ordered,
          )))
  ]
    where
      ceiling : g.max_bytes ≡ f.max_bytes
      ceiling = ap (λ (l : Limits). l.max_bytes) p.same_limits

  head_fits : g.head + 1 < 2 ^ 64
  head_fits = omega (arith, p.same_head)

  bytes_fit : g.bytes + payload_len frame.payload < 2 ^ 64
  bytes_fit = omega (arith, p.bytes_le)

  place-Published :
      (r : Refs)
      → ((place g r frame now (payload_len frame.payload)).0 ≡ ok)
        × Published f frame now (place g r frame now (payload_len frame.payload)).1
  unfolding place store frame_copy
  place-Published r = rw (p.valid.idle g.head (omega arith) (omega (arith, space, p.valid.room))) (
    refl,
    record {
      valid = store-IsValid g frame now p.valid space head_fits bytes_fit within;
      kept =
          contents-store g frame now p.valid space head_fits bytes_fit
          ∙ ap (λ w. w ++ (new_slot frame now ∷ [])) p.kept;
      next_head = omega (arith, p.same_head);
    },
  )

-- Publishing on a well-formed feed whose counters do not wrap succeeds, keeps it well formed, and
-- leaves exactly the retained units that the unit, byte and age ceilings allow, oldest dropped
-- first, with the new unit last.
pub publish-Published :
    (f : Feed) (r : Refs) (frame : Frame) (now : ℕ)
    → IsValid f
    → f.head + 1 < 2 ^ 64
    → f.bytes + payload_len frame.payload < 2 ^ 64
    → ((publish f r frame now).0 ≡ ok) × Published f frame now (publish f r frame now).1
unfolding publish
publish-Published f r frame now v fits bytes = simp v.live (
    place-Published f (prune f r now (payload_len frame.payload)).0 frame now
      (prune-Pruned f r now (payload_len frame.payload) v bytes) v fits bytes
      (prune f r now (payload_len frame.payload)).1)

-- Publishing adds at most the bytes of the new unit.
pub bytes-publish-le :
    {f g : Feed} {frame : Frame} {now : ℕ}
    → IsValid f
    → Published f frame now g
    → g.bytes ≤ f.bytes + payload_len frame.payload
bytes-publish-le {f} {g} {frame} {now} v p =
    let (k, e, n) = trim-drop (limits f) now (payload_len frame.payload) (contents f) in
    omega (
      arith,
      p.valid.counted,
      v.counted,
      ap total p.kept,
      total-snoc (trim (limits f) now (payload_len frame.payload) (contents f))
          (new_slot frame now),
      ap total e,
      total-drop k (contents f),
    )
