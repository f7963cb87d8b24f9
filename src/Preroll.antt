-- ===== src/Preroll.antt =====
-- src/core/ngx_media_source.c: the standby cache of one complete group of pictures.
--
-- `Preroll` is `ngx_media_preroll_t`, with the frame array as a function of the index and
-- `allocated` for `units != NULL`. The source contributes its `has_video` flag. The payload counts
-- `Refs` pass through every call. The pointers that the code tests for NULL are present.
pub mod Valid
pub mod Push
pub mod Whole
pub mod Init
mod Tests
use nginx_media.Base.{
  ℕ, zero, suc, ◌+◌, ◌-◌, ◌/◌, ◌*◌, ◌^◌, Bool, true, false, ◌&&◌, ◌||◌, not, ltb, leb, ◌==◌,
  if◌then◌else◌, inc64, add64, sub64, update, bit_and, Status, ok, error, again, List, [], ◌∷◌,
}
use nginx_media.Base.Pow2.{pow2}
use nginx_media.Buffer.{
  Buf, Refs, Frame, frame_init, frame_copy, frame_release, payload_len, media_video,
}

pub record Preroll : Type 0 where
  pub units : ℕ → Frame
  pub allocated : Bool
  pub capacity : ℕ
  pub max_units : ℕ
  pub max_bytes : ℕ
  pub head : ℕ
  pub tail : ℕ
  pub bytes : ℕ
  pub overflows : ℕ
  pub unit_overflows : ℕ
  pub byte_overflows : ℕ
  pub high_water_units : ℕ
  pub high_water_bytes : ℕ
  pub have_boundary : Bool

-- memset to zero
abbrev pub zero_preroll : Preroll
zero_preroll = record {
  units = λ i. frame_init;
  allocated = false;
  capacity = 0;
  max_units = 0;
  max_bytes = 0;
  head = 0;
  tail = 0;
  bytes = 0;
  overflows = 0;
  unit_overflows = 0;
  byte_overflows = 0;
  high_water_units = 0;
  high_water_bytes = 0;
  have_boundary = false;
}

-- sizeof(ngx_media_frame_t) on an LP64 platform
abbrev pub frame_size : ℕ
frame_size = 64

-- `alloc` says whether ngx_alloc finds that many bytes.
unfoldable pub preroll_init : (ℕ → Bool) → ℕ → ℕ → Preroll → Status × Preroll
preroll_init alloc max_units max_bytes p =
    if (max_units == 0) || (max_bytes == 0)
    then (error, p)
    else let cap = pow2 (inc64 max_units) in
      if (cap == 0) || ltb ((2 ^ 64 - 1) / frame_size) cap
      then (error, record zero_preroll { capacity = cap })
      else if alloc (cap * frame_size)
      then (
        ok,
        record zero_preroll {
          allocated = true;
          capacity = cap;
          max_units = max_units;
          max_bytes = max_bytes;
        },
      )
      else (error, zero_preroll)

-- `seq & (preroll->capacity - 1)`
abbrev pub slot_of : ℕ → ℕ → ℕ
slot_of capacity seq = bit_and seq (capacity - 1)

release_loop : ℕ → Preroll → Refs → Preroll × Refs
unfolding frame_release
release_loop zero p r = (p, r)
release_loop (suc n) p r =
    let i = slot_of p.capacity p.tail in
    let (cleared, r') = frame_release (p.units i) r in
    release_loop n (record p { units = update p.units i cleared; tail = inc64 p.tail }) r'

-- `while (tail < head)`: one round for each cached frame.
unfoldable pub reset : Preroll → Refs → Preroll × Refs
unfolding release_loop
reset p r =
    let (q, r') = release_loop (p.head - p.tail) p r in
    (record q { head = 0; tail = 0; bytes = 0; have_boundary = false }, r')

unfoldable pub preroll_destroy : Preroll → Refs → Preroll × Refs
preroll_destroy p r = if p.allocated then (zero_preroll, (reset p r).1) else (p, r)

-- The overflow tests after a frame has been stored.
unfoldable pub over : Preroll → Bool
over p = ltb p.max_units (sub64 p.head p.tail) || ltb p.max_bytes p.bytes

-- `preroll->overflows++ ... reset; return NGX_AGAIN;`
unfoldable pub overflow : Preroll → Refs → Status × Preroll × Refs
overflow p r =
    let counted = record p {
      overflows = inc64 p.overflows;
      unit_overflows =
          if ltb p.max_units (sub64 p.head p.tail)
          then inc64 p.unit_overflows
          else p.unit_overflows;
      byte_overflows = if ltb p.max_bytes p.bytes then inc64 p.byte_overflows else p.byte_overflows;
    } in
    let (cleared, r') = reset counted r in (again, cleared, r')

-- The frame in its slot, and the counters.
unfoldable pub append : Preroll → Frame → ℕ → Preroll
append p frame len =
    let head' = inc64 p.head in
    let bytes' = add64 p.bytes len in
    record p {
      units = update p.units (slot_of p.capacity p.head) frame;
      head = head';
      bytes = bytes';
      high_water_units =
          if ltb p.high_water_units (sub64 head' p.tail)
          then sub64 head' p.tail
          else p.high_water_units;
      high_water_bytes = if ltb p.high_water_bytes bytes' then bytes' else p.high_water_bytes;
    }

-- The part of `ngx_media_source_preroll_push` below the boundary tests. `ngx_media_frame_copy`
-- cannot fail on two frames that are present.
unfoldable pub cache : Preroll → Refs → Frame → Status × Preroll × Refs
unfolding frame_copy
cache p r frame =
    let full = record p {
      overflows = inc64 p.overflows;
      unit_overflows = inc64 p.unit_overflows;
    } in
    let (emptied, freed) = reset full r in
    let (copied, r') = frame_copy frame r in
    let q = append p copied (payload_len frame.payload) in
    if leb p.capacity (sub64 p.head p.tail)
    then (again, emptied, freed)
    else if over q
    then overflow q r'
    else (ok, q, r')

-- `frame->media_type == NGX_MEDIA_TYPE_VIDEO`
abbrev pub is_video : Frame → Bool
is_video frame = frame.media_type == media_video

unfoldable pub push : Bool → Preroll → Refs → Frame → Status × Preroll × Refs
push has_video p r frame =
    let opened = record p { have_boundary = true } in
    let (cleared, r') = reset p r in
    if not p.allocated
    then (error, p, r)
    else if is_video frame && frame.keyframe
    then cache (record cleared { have_boundary = true }) r' frame
    else if p.have_boundary
    then cache p r frame
    else if is_video frame || has_video
    then (ok, p, r)
    else cache opened r frame

replay_loop : ℕ → ℕ → Preroll → List Frame
replay_loop zero seq p = []
replay_loop (suc n) seq p = p.units (slot_of p.capacity seq) ∷ replay_loop n (seq + 1) p

-- The frames that `ngx_media_source_preroll_replay` hands to its callback, in order.
unfoldable pub replay : Preroll → List Frame
unfolding replay_loop
replay p = replay_loop (p.head - p.tail) p.tail p

unfoldable pub ready : Preroll → Bool
ready p = p.allocated && (p.have_boundary && ltb p.tail p.head)
