-- ===== src/Feed.antt =====
-- src/core/ngx_media_feed.c: the bounded program feed, a single-producer ring of frames that
-- consumers read by cursor.
--
-- `Feed` is `ngx_media_feed_t`, with the slot array as a function of the index and `allocated` for
-- `slots != NULL`. Every call also passes the payload counts `Refs` through. The pointers that the
-- code tests for NULL are present here.
pub mod Hist
pub mod Read
pub mod Valid
pub mod Prune
pub mod Publish
pub mod Log
pub mod Budget
pub mod Refusal
pub mod Init
pub mod Keyframe
pub mod Ownership
pub mod Percentile
mod Tests
pub mod Session
pub mod Generation
pub mod Delivery
use nginx_media.Base.{
  ℕ, zero, suc, ◌+◌, ◌-◌, ◌/◌, ◌*◌, ◌^◌, Bool, true, false, ◌&&◌, ◌||◌, Option, none, some, ltb,
  leb, ◌==◌, ◌/=◌, if◌then◌else◌, inc64, add64, sub64, update, bit_and, Status, ok, error,
}
use nginx_media.Base.Pow2.{pow2}
use nginx_media.Buffer.{
  Buf, Refs, Frame, frame_init, frame_copy, frame_release, payload_len, is_set,
}
use Hist.{Histogram, empty_hist}

pub record Slot : Type 0 where
  pub frame : Frame
  pub publish_time : ℕ

abbrev pub empty_slot : Slot
empty_slot = record { frame = frame_init; publish_time = 0 }

pub record Conf : Type 0 where
  pub max_units : ℕ
  pub max_bytes : ℕ
  pub max_age : ℕ

pub record Cursor : Type 0 where
  pub generation : ℕ
  pub next_sequence : ℕ

pub record Feed : Type 0 where
  pub slots : ℕ → Slot
  pub allocated : Bool
  pub capacity : ℕ
  pub max_units : ℕ
  pub max_bytes : ℕ
  pub max_age : ℕ
  pub generation : ℕ
  pub head : ℕ
  pub tail : ℕ
  pub last_keyframe : ℕ
  pub bytes : ℕ
  pub high_water_units : ℕ
  pub high_water_bytes : ℕ
  pub evictions : ℕ
  pub overruns : ℕ
  pub generation_mismatches : ℕ
  pub publish_errors : ℕ
  pub has_keyframe : Bool
  pub fanout : Histogram

-- memset to zero
abbrev pub zero_feed : Feed
zero_feed = record {
  slots = λ i. empty_slot;
  allocated = false;
  capacity = 0;
  max_units = 0;
  max_bytes = 0;
  max_age = 0;
  generation = 0;
  head = 0;
  tail = 0;
  last_keyframe = 0;
  bytes = 0;
  high_water_units = 0;
  high_water_bytes = 0;
  evictions = 0;
  overruns = 0;
  generation_mismatches = 0;
  publish_errors = 0;
  has_keyframe = false;
  fanout = empty_hist;
}

-- sizeof(ngx_media_feed_slot_t) on an LP64 platform
abbrev pub slot_size : ℕ
slot_size = 72

-- `alloc` says whether ngx_alloc finds that many bytes.
unfoldable pub init : (ℕ → Bool) → Conf → Feed → Status × Feed
init alloc conf feed =
    if conf.max_units == 0
    then (error, feed)
    else let cap = pow2 conf.max_units in
      if cap == 0
      then (error, zero_feed)
      else if ltb ((2 ^ 64 - 1) / slot_size) cap
      then (error, record zero_feed { capacity = cap })
      else if alloc (cap * slot_size)
      then (
        ok,
        record zero_feed {
          allocated = true;
          capacity = cap;
          max_units = conf.max_units;
          max_bytes = conf.max_bytes;
          max_age = conf.max_age;
          generation = 1;
        },
      )
      else (error, zero_feed)

-- `seq & (feed->capacity - 1)`
abbrev pub slot_of : ℕ → ℕ → ℕ
slot_of capacity seq = bit_and seq (capacity - 1)

-- `if (payload != NULL) bytes -= payload->len;`
abbrev pub less_payload : Option Buf → ℕ → ℕ
less_payload none bytes = bytes
less_payload (some b) bytes = sub64 bytes b.len

unfoldable pub evict : Feed → Refs → Feed × Refs
unfolding frame_release
evict f r =
    let i = slot_of f.capacity f.tail in
    let s = f.slots i in
    let (cleared, r') = frame_release s.frame r in
    (
      record f {
        slots = update f.slots i (record { frame = cleared; publish_time = 0 });
        bytes = less_payload s.frame.payload f.bytes;
        tail = inc64 f.tail;
        evictions = inc64 f.evictions;
      },
      r',
    )

-- The three ceilings of `ngx_media_feed_prune`, tested in its order.
unfoldable pub over_limits : Feed → ℕ → ℕ → Bool
over_limits f now incoming =
    leb f.max_units (sub64 f.head f.tail)
    || (f.max_bytes /= 0 && ltb f.max_bytes (add64 f.bytes incoming))
    || (f.max_age /= 0
        && ltb f.max_age (sub64 now (f.slots (slot_of f.capacity f.tail)).publish_time))

prune_loop : ℕ → Feed → Refs → ℕ → ℕ → Feed × Refs
prune_loop zero f r now incoming = (f, r)
prune_loop (suc fuel) f r now incoming =
    let rest = prune_loop fuel (evict f r).0 (evict f r).1 now incoming in
    if ltb f.tail f.head && over_limits f now incoming then rest else (f, r)

-- Each round evicts one retained unit, so there are at most `head - tail` rounds.
unfoldable pub prune : Feed → Refs → ℕ → ℕ → Feed × Refs
unfolding prune_loop
prune f r now incoming = prune_loop (f.head - f.tail) f r now incoming

-- The part of `ngx_media_feed_publish` below the slot test.
unfoldable pub store : Feed → Frame → ℕ → ℕ → Feed
store f frame now len =
    let head' = inc64 f.head in
    let bytes' = add64 f.bytes len in
    record f {
      slots =
          update f.slots (slot_of f.capacity f.head) (record { frame = frame; publish_time = now });
      bytes = bytes';
      has_keyframe = if frame.keyframe then true else f.has_keyframe;
      last_keyframe = if frame.keyframe then f.head else f.last_keyframe;
      head = head';
      high_water_units =
          if ltb f.high_water_units (sub64 head' f.tail)
          then sub64 head' f.tail
          else f.high_water_units;
      high_water_bytes = if ltb f.high_water_bytes bytes' then bytes' else f.high_water_bytes;
    }

-- `ngx_media_frame_copy` cannot fail on two frames that are present.
unfoldable pub place : Feed → Refs → Frame → ℕ → ℕ → Status × Feed × Refs
unfolding store frame_copy
place f r frame now len =
    if is_set (f.slots (slot_of f.capacity f.head)).frame.payload
    then (error, record f { publish_errors = inc64 f.publish_errors }, r)
    else let (copied, r') = frame_copy frame r in (ok, store f copied now len, r')

unfoldable pub publish : Feed → Refs → Frame → ℕ → Status × Feed × Refs
publish f r frame now =
    let len = payload_len frame.payload in
    let pruned = prune f r now len in
    if f.allocated then place pruned.0 pruned.1 frame now len else (error, f, r)

-- `while (head > tail) evict; free; memzero`
unfoldable pub evict_all : ℕ → Feed → Refs → Feed × Refs
evict_all zero f r = (f, r)
evict_all (suc n) f r = evict_all n (evict f r).0 (evict f r).1

unfoldable pub destroy : Feed → Refs → Feed × Refs
unfolding evict_all
destroy f r = if f.allocated then (zero_feed, (evict_all (f.head - f.tail) f r).1) else (f, r)

unfoldable pub discontinuity : Feed → Feed
discontinuity f = record f { generation = inc64 f.generation }

unfoldable pub units : Feed → ℕ
units f = sub64 f.head f.tail
