-- ===== src/Preroll/Push.antt =====
-- `ngx_media_source_preroll_push` against the list of cached frames.
use nginx_media.Base.{
  ℕ, suc, ◌+◌, ◌-◌, ◌%◌, ◌^◌, ◌<◌, ◌≡◌, ◌≢◌, refl, sym, ap, ap₂, subst, ◌∙◌, Bool, true, false,
  ◌&&◌, ◌||◌, ltb, leb, if◌then◌else◌, List, [], ◌∷◌, ◌++◌, arith, length, sub64, update, Status,
  ok, again, Bool-cases, inl, inr, ltb-false,
}
use nginx_media.Buffer.{Refs, Frame, payload_len, frame_copy}
use nginx_media.Ring.{window, length-window, window-push_at}
use nginx_media.Preroll.{Preroll, slot_of, reset, over, overflow, append, cache, is_video, push}
use nginx_media.Preroll.Valid.{
  IsValid, Static, SameShape, cached, total, total-snoc, reset-IsValid, reset-SameShape,
}

-- The cache as the group of pictures that it holds: closed, or open with its frames.
pub record Gop : Type 0 where
  pub open_ : Bool
  pub frames : List Frame

abbrev pub closed_gop : Gop
closed_gop = record { open_ = false; frames = [] }

abbrev pub view : Preroll → Gop
view p = record { open_ = p.have_boundary; frames = cached p }

-- a group is kept while both ceilings hold, and is given up whole otherwise
abbrev pub too_large : ℕ → ℕ → List Frame → Bool
too_large max_units max_bytes fs = ltb max_units (length fs) || ltb max_bytes (total fs)

abbrev pub keep : ℕ → ℕ → List Frame → Status × Gop
keep max_units max_bytes fs =
    if too_large max_units max_bytes fs
    then (again, closed_gop)
    else (ok, record { open_ = true; frames = fs })

abbrev pub next : Bool → ℕ → ℕ → Gop → Frame → Status × Gop
next has_video max_units max_bytes g frame =
    if is_video frame && frame.keyframe
    then keep max_units max_bytes (frame ∷ [])
    else if g.open_
    then keep max_units max_bytes (g.frames ++ (frame ∷ []))
    else if is_video frame || has_video
    then (ok, g)
    else keep max_units max_bytes (g.frames ++ (frame ∷ []))

-- The code's answer and state stand for the list's.
pub record Refines (q : Status × Preroll × Refs) (s : Status × Gop) (p : Preroll) : Type 0 where
  pub valid : IsValid q.1
  pub status : q.0 ≡ s.0
  pub seen : view q.1 ≡ s.1
  pub shape : SameShape p q.1

or_false : (a b : Bool) → (a || b) ≡ false → (a ≡ false) × (b ≡ false)
or_false false b h = (refl, h)
or_false true b h = absurd (ground arith)

pub true-ne-false : true ≢ false
true-ne-false e = ground arith

shape-Static : (p c : Preroll) → IsValid p → SameShape p c → Static c
shape-Static p c v s = record {
  live = s.live ∙ v.live;
  ring = subst (λ n. (i : ℕ) → slot_of n i ≡ i % n) (sym s.capacity) v.ring;
  room = omega (arith, v.room, s.max_units, s.capacity);
  small = omega (arith, v.small, s.max_units);
}

reset-closed : (c : Preroll) (r : Refs) → view (reset c r).0 ≡ closed_gop
unfolding reset
reset-closed c r = refl

reset-Refines :
    (p c : Preroll) (r : Refs)
    → IsValid p
    → SameShape p c
    → Refines (again, (reset c r).0, (reset c r).1) (again, closed_gop) p
reset-Refines p c r v s =
    let t = reset-SameShape c r in
    record {
      valid = reset-IsValid c r (shape-Static p c v s);
      status = refl;
      seen = reset-closed c r;
      shape = record {
        live = t.live ∙ s.live;
        capacity = t.capacity ∙ s.capacity;
        max_units = t.max_units ∙ s.max_units;
        max_bytes = t.max_bytes ∙ s.max_bytes;
      };
    }

module _ (p : Preroll) (r : Refs) (frame : Frame) (v : IsValid p) (b : p.have_boundary ≡ true)
    (fits : p.max_bytes + payload_len frame.payload < 2 ^ 64) where
  grown : Preroll
  grown = append p frame (payload_len frame.payload)

  cached-grown : cached grown ≡ cached p ++ (frame ∷ [])
  unfolding grown append
  cached-grown =
      ap (window (slot_of p.capacity) (update p.units (slot_of p.capacity p.head) frame) p.tail)
        {y = suc (p.head - p.tail)} (omega (arith, v.start, v.bounded, v.small))
      ∙ window-push_at (slot_of p.capacity) p.capacity (omega (arith, v.room)) v.ring p.units frame
          p.tail (p.head - p.tail) p.head (omega (arith, v.start))
          (omega (arith, v.bounded, v.room))

  grown_bytes : grown.bytes ≡ total (cached p ++ (frame ∷ []))
  unfolding grown append
  grown_bytes = omega (arith, v.counted, v.byte_limit, total-snoc (cached p) frame)

  grown_units : sub64 grown.head grown.tail ≡ length (cached p ++ (frame ∷ []))
  unfolding grown append
  grown_units = omega (
    arith,
    v.start,
    v.bounded,
    v.small,
    ap length cached-grown,
    length-window (slot_of p.capacity) grown.units p.tail (grown.head - p.tail),
  )

  over-grown : over grown ≡ too_large p.max_units p.max_bytes (cached p ++ (frame ∷ []))
  unfolding over grown append
  over-grown = ap₂ (λ n m. ltb p.max_units n || ltb p.max_bytes m) grown_units grown_bytes

  -- The ring is never full: the defensive branch of the code is not taken.
  not_full : leb p.capacity (sub64 p.head p.tail) ≡ false
  not_full = ground (arith, v.start, v.bounded, v.room, v.small)

  cache-over : over grown ≡ true → cache p r frame ≡ overflow grown (frame_copy frame r).1
  unfolding cache grown
  cache-over o = rw (not_full, o) refl

  cache_kept : over grown ≡ false → cache p r frame ≡ (ok, grown, (frame_copy frame r).1)
  unfolding cache grown frame_copy
  cache_kept o = rw (not_full, o) refl

  overflow-Refines : (r' : Refs) → Refines (overflow grown r') (again, closed_gop) p
  unfolding overflow grown append
  overflow-Refines r' =
      reset-Refines p _ r' v
        (record { live = refl; capacity = refl; max_units = refl; max_bytes = refl })

  grown-Refines :
      (r' : Refs)
      → over grown ≡ false
      → Refines (ok, grown, r') (ok, record { open_ = true; frames = cached p ++ (frame ∷ []) }) p
  unfolding over grown append
  grown-Refines r' o =
      let (units, bytes) =
        or_false (ltb p.max_units (sub64 grown.head grown.tail)) (ltb p.max_bytes grown.bytes) o in
      record {
        valid = record {
          live = v.live;
          ring = v.ring;
          start = v.start;
          bounded = omega (arith, ltb-false _ _ units, v.start, v.bounded, v.small);
          room = v.room;
          small = v.small;
          counted = grown_bytes ∙ ap total (sym cached-grown);
          byte_limit = ltb-false _ _ bytes;
          closed = λ e. absurd (true-ne-false (sym b ∙ e));
        };
        status = refl;
        seen = ap₂ (λ o fs. record { open_ = o; frames = fs }) b cached-grown;
        shape = record { live = refl; capacity = refl; max_units = refl; max_bytes = refl };
      }

  pub cache-Refines :
      Refines (cache p r frame) (keep p.max_units p.max_bytes (cached p ++ (frame ∷ []))) p
  cache-Refines = elim (Bool-cases (over grown)) [
    | inl o ↦ rw (sym over-grown ∙ o) (
        subst (λ q. Refines q (again, closed_gop) p) (sym (cache-over o))
          (overflow-Refines (frame_copy frame r).1))
    | inr o ↦ rw (sym over-grown ∙ o) (
        subst (λ q. Refines q (ok, record { open_ = true; frames = cached p ++ (frame ∷ []) }) p)
          (sym (cache_kept o)) (grown-Refines (frame_copy frame r).1 o))
  ]

Refines-shape :
    {q : Status × Preroll × Refs} {s : Status × Gop} {c p : Preroll}
    → SameShape p c
    → Refines q s c
    → Refines q s p
Refines-shape h t = record {
  valid = t.valid;
  status = t.status;
  seen = t.seen;
  shape = record {
    live = t.shape.live ∙ h.live;
    capacity = t.shape.capacity ∙ h.capacity;
    max_units = t.shape.max_units ∙ h.max_units;
    max_bytes = t.shape.max_bytes ∙ h.max_bytes;
  };
}

module _ (p : Preroll) (r : Refs) (frame : Frame) (v : IsValid p)
    (fits : p.max_bytes + payload_len frame.payload < 2 ^ 64) where
  -- the cache that a keyframe finds
  emptied : Preroll
  emptied = record (reset p r).0 { have_boundary = true }

  emptied-IsValid : IsValid emptied
  unfolding emptied reset
  emptied-IsValid =
      let u =
        reset-IsValid p r
          (record { live = v.live; ring = v.ring; room = v.room; small = v.small }) in
      record {
        live = u.live;
        ring = u.ring;
        start = refl;
        bounded = omega arith;
        room = u.room;
        small = u.small;
        counted = refl;
        byte_limit = omega arith;
        closed = λ e. refl;
      }

  key-Refines :
      Refines (cache emptied (reset p r).1 frame) (keep p.max_units p.max_bytes (frame ∷ [])) p
  unfolding emptied reset
  key-Refines =
      let s = reset-SameShape p r in
      Refines-shape
        (record {
          live = s.live;
          capacity = s.capacity;
          max_units = s.max_units;
          max_bytes = s.max_bytes;
        })
        (subst (λ k. Refines (cache emptied (reset p r).1 frame) k emptied)
          (ap₂ (λ m b. keep m b (frame ∷ [])) s.max_units s.max_bytes)
          (cache-Refines emptied (reset p r).1 frame emptied-IsValid refl
            (omega (arith, fits, s.max_bytes))))

  opened : Preroll
  opened = record p { allocated = true; have_boundary = true }

  opened-Refines :
      Refines (cache opened r frame) (keep p.max_units p.max_bytes (cached p ++ (frame ∷ []))) p
  unfolding opened
  opened-Refines =
      Refines-shape
        (record { live = sym v.live; capacity = refl; max_units = refl; max_bytes = refl })
        (cache-Refines opened r frame
          (record {
            live = refl;
            ring = v.ring;
            start = v.start;
            bounded = v.bounded;
            room = v.room;
            small = v.small;
            counted = v.counted;
            byte_limit = v.byte_limit;
            closed = λ e. absurd (true-ne-false e);
          })
          refl fits)

  waits :
      (b : Bool)
      → p.have_boundary ≡ b
      → Refines (ok, p, r) (ok, record { open_ = b; frames = cached p }) p
  waits b e = record {
    valid = v;
    status = refl;
    seen = ap (λ o. record { open_ = o; frames = cached p }) e;
    shape = record { live = refl; capacity = refl; max_units = refl; max_bytes = refl };
  }

-- Pushing a frame on a well-formed cache does exactly what the list says, in the answer and in
-- what is cached, and keeps the cache well formed, while the bytes do not wrap.
pub push-Refines :
    (has_video : Bool) (p : Preroll) (r : Refs) (frame : Frame)
    → IsValid p
    → p.max_bytes + payload_len frame.payload < 2 ^ 64
    → Refines (push has_video p r frame) (next has_video p.max_units p.max_bytes (view p) frame) p
unfolding push emptied opened
push-Refines has_video p r frame v fits =
    simp v.live (elim (Bool-cases (is_video frame && frame.keyframe)) [
      | inl key ↦ simp key (key-Refines p r frame v fits)
      | inr other ↦ simp other (elim (Bool-cases p.have_boundary) [
        | inl b ↦ simp b (cache-Refines p r frame v b fits)
        | inr b ↦ simp b (elim (Bool-cases (is_video frame || has_video)) [
          | inl w ↦ simp w (waits p r frame v fits false b)
          | inr w ↦ simp w (opened-Refines p r frame v fits)
        ])
      ])
    ])
