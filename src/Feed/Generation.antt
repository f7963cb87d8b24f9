-- ===== src/Feed/Generation.antt =====
-- `ngx_media_feed_publish` leaves the generation to `ngx_media_feed_discontinuity`.
use nginx_media.Base.{ℕ, zero, suc, ◌-◌, ◌≡◌, refl, ◌∙◌, ◌&&◌, ltb, Bool-cases, inl, inr}
use nginx_media.Buffer.{Refs, Frame, payload_len, is_set}
use nginx_media.Feed.{Feed, slot_of, evict, over_limits, prune_loop, prune, place, store, publish}

prune-generation :
    (n : ℕ) (f : Feed) (r : Refs) (now len : ℕ)
    → (prune_loop n f r now len).0.generation ≡ f.generation
unfolding prune_loop evict
prune-generation zero f r now len = refl
prune-generation (suc n) f r now len =
    elim (Bool-cases (ltb f.tail f.head && over_limits f now len)) [
      | inl over ↦ simp over (prune-generation n (evict f r).0 (evict f r).1 now len)
      | inr stop ↦ simp stop refl
    ]

place-generation :
    (f : Feed) (r : Refs) (frame : Frame) (now len : ℕ)
    → (place f r frame now len).1.generation ≡ f.generation
unfolding place store
place-generation f r frame now len =
    elim (Bool-cases (is_set (f.slots (slot_of f.capacity f.head)).frame.payload)) [
      | inl used ↦ simp used refl
      | inr free ↦ simp free refl
    ]

-- Publishing never changes the feed's generation.
pub publish-generation :
    (f : Feed) (r : Refs) (frame : Frame) (now : ℕ)
    → (publish f r frame now).1.generation ≡ f.generation
unfolding publish prune
publish-generation f r frame now = elim (Bool-cases f.allocated) [
  | inl a ↦
      let len = payload_len frame.payload in
      simp a (
        place-generation (prune f r now len).0 (prune f r now len).1 frame now len
        ∙ prune-generation (f.head - f.tail) f r now len)
  | inr a ↦ simp a refl
]
