-- ===== src/Buffer.antt =====
-- src/core/ngx_media_buffer.c and src/core/ngx_media_frame.c: reference-counted payloads and the
-- frames that own one reference each.
--
-- A payload pointer is a `Buf`: an identity, and the length and capacity that the header holds
-- (the code never changes them once the payload is shared). The counts, which every holder of a
-- payload changes, are the explicit store `Refs`; a count of 0 is a freed allocation.
use nginx_media.Base.{
  ℕ, ◌+◌, ◌^◌, Bool, true, false, Option, none, some, ltb, leb, if◌then◌else◌, inc64, sub64, update,
  Status, ok, error,
}
use nginx_media.Base.Int.{ℤ, pos}

pub record Buf : Type 0 where
  pub id : ℕ
  pub len : ℕ
  pub capacity : ℕ

abbrev pub Refs : Type 0
Refs = ℕ → ℕ

-- sizeof(ngx_media_buf_t) on an LP64 platform
abbrev pub header_size : ℕ
header_size = 32

-- `mem` is what ngx_alloc returns for that many bytes: the identity of a fresh allocation, or none.
unfoldable pub buf_alloc : (ℕ → Option ℕ) → ℕ → Refs → Option (Buf × Refs)
buf_alloc mem capacity r =
    if leb (2 ^ 64) (header_size + capacity) then none else elim (mem (header_size + capacity)) [
      | none ↦ none
      | some id ↦ some (record { id = id; len = 0; capacity = capacity }, update r id 1)
    ]

unfoldable pub buf_freeze : Buf → ℕ → Status × Buf
buf_freeze b len = if ltb b.capacity len then (error, b) else (ok, record b { len = len })

unfoldable pub buf_ref : Option Buf → Refs → Refs
buf_ref none r = r
buf_ref (some b) r = update r b.id (inc64 (r b.id))

unfoldable pub buf_unref : Option Buf → Refs → Refs
buf_unref none r = r
buf_unref (some b) r = update r b.id (sub64 (r b.id) 1)

pub record Frame : Type 0 where
  pub media_type : ℕ
  pub codec : ℕ
  pub payload_format : ℕ
  pub track_index : ℕ
  pub pts : ℤ
  pub dts : ℤ
  pub keyframe : Bool
  pub config : Bool
  pub payload : Option Buf

-- ngx_media_frame_init: a zeroed frame.
abbrev pub frame_init : Frame
frame_init = record {
  media_type = 0;
  codec = 0;
  payload_format = 0;
  track_index = 0;
  pts = pos 0;
  dts = pos 0;
  keyframe = false;
  config = false;
  payload = none;
}

unfoldable pub frame_adopt : Frame → Option Buf → Refs → Frame × Refs
frame_adopt f b r = (record f { payload = b }, buf_unref f.payload r)

-- What the destination holds afterwards, and the counts.
unfoldable pub frame_copy : Frame → Refs → Frame × Refs
frame_copy src r = (src, buf_ref src.payload r)

unfoldable pub frame_release : Frame → Refs → Frame × Refs
frame_release f r = (frame_init, buf_unref f.payload r)

-- `frame->payload != NULL ? frame->payload->len : 0`
abbrev pub payload_len : Option Buf → ℕ
payload_len none = 0
payload_len (some b) = b.len

abbrev pub is_set {ℓ} : {A : Type ℓ} → Option A → Bool
is_set none = false
is_set (some a) = true

abbrev pub media_video : ℕ
media_video = 1

abbrev pub media_audio : ℕ
media_audio = 2
