-- ===== src/Preroll/Valid.antt =====
-- The invariant of the standby cache, and what a reset leaves.
use nginx_media.Base.{
  ℕ, zero, suc, ◌+◌, ◌-◌, ◌%◌, ◌^◌, ◌≤◌, ◌<◌, ◌≡◌, refl, sym, subst, ◌∙◌, true, false, List, [],
  ◌∷◌, ◌++◌, arith, inc64, update,
}
use nginx_media.Buffer.{Refs, Frame, payload_len, frame_release}
use nginx_media.Ring.{window}
use nginx_media.Preroll.{Preroll, slot_of, release_loop, reset}

-- the cached frames, oldest first
abbrev pub cached : Preroll → List Frame
cached p = window (slot_of p.capacity) p.units p.tail (p.head - p.tail)

abbrev pub total : List Frame → ℕ
total [] = 0
total (f ∷ fs) = payload_len f.payload + total fs

pub total-snoc :
    (fs : List Frame) (f : Frame) → total (fs ++ (f ∷ [])) ≡ total fs + payload_len f.payload
total-snoc [] f = omega arith
total-snoc (x ∷ fs) f = omega (arith, total-snoc fs f)

pub record IsValid (p : Preroll) : Type 0 where
  pub live : p.allocated ≡ true
  pub ring : (i : ℕ) → slot_of p.capacity i ≡ i % p.capacity
  pub start : p.tail ≡ 0
  pub bounded : p.head ≤ p.max_units
  pub room : p.max_units < p.capacity
  pub small : p.max_units + 1 < 2 ^ 64
  pub counted : p.bytes ≡ total (cached p)
  pub byte_limit : p.bytes ≤ p.max_bytes
  pub closed : p.have_boundary ≡ false → p.head ≡ 0

-- What a reset does not touch.
pub record SameShape (p q : Preroll) : Type 0 where
  pub live : q.allocated ≡ p.allocated
  pub capacity : q.capacity ≡ p.capacity
  pub max_units : q.max_units ≡ p.max_units
  pub max_bytes : q.max_bytes ≡ p.max_bytes

release_loop-SameShape : (n : ℕ) (p : Preroll) (r : Refs) → SameShape p (release_loop n p r).0
unfolding release_loop
release_loop-SameShape zero p r = record {
  live = refl;
  capacity = refl;
  max_units = refl;
  max_bytes = refl;
}
release_loop-SameShape (suc n) p r =
    let i = slot_of p.capacity p.tail in
    let (cleared, r') = frame_release (p.units i) r in
    let s =
      release_loop-SameShape n (record p { units = update p.units i cleared; tail = inc64 p.tail })
        r' in
    record {
      live = s.live;
      capacity = s.capacity;
      max_units = s.max_units;
      max_bytes = s.max_bytes;
    }

pub reset-SameShape : (p : Preroll) (r : Refs) → SameShape p (reset p r).0
unfolding reset
reset-SameShape p r =
    let s = release_loop-SameShape (p.head - p.tail) p r in
    record {
      live = s.live;
      capacity = s.capacity;
      max_units = s.max_units;
      max_bytes = s.max_bytes;
    }

pub cached-reset : (p : Preroll) (r : Refs) → cached (reset p r).0 ≡ []
unfolding reset
cached-reset p r = refl

pub record Static (p : Preroll) : Type 0 where
  pub live : p.allocated ≡ true
  pub ring : (i : ℕ) → slot_of p.capacity i ≡ i % p.capacity
  pub room : p.max_units < p.capacity
  pub small : p.max_units + 1 < 2 ^ 64

pub reset-IsValid : (p : Preroll) (r : Refs) → Static p → IsValid (reset p r).0
unfolding reset
reset-IsValid p r v = record {
  live = (reset-SameShape p r).live ∙ v.live;
  ring = subst (λ c. (i : ℕ) → slot_of c i ≡ i % c) (sym (reset-SameShape p r).capacity) v.ring;
  start = refl;
  bounded = omega arith;
  room = omega (arith, v.room, (reset-SameShape p r).max_units, (reset-SameShape p r).capacity);
  small = omega (arith, v.small, (reset-SameShape p r).max_units);
  counted = refl;
  byte_limit = omega arith;
  closed = λ e. refl;
}
