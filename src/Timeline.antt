-- ===== src/Timeline.antt =====
-- src/core/ngx_media_timeline.c: the map from a source's timestamps to the program's.
--
-- `Timeline` is `ngx_media_timeline_t`. Timestamps are integers; a signed overflow is undefined in
-- C, and Timeline/Bounds shows that 33-bit source timestamps do not come near one. The pointers
-- that the code tests for NULL are present.
pub mod Order
pub mod Bounds
mod Tests
use nginx_media.Base.{ℕ, ◌+◌, Bool, true, false, ◌&&◌, ◌==◌, if◌then◌else◌, inc64}
use nginx_media.Base.Int.{ℤ, pos, ◌+ℤ◌, ◌-ℤ◌, leb_ℤ}

pub record Timeline : Type 0 where
  -- program_dts = source_dts + offset
  pub offset : ℤ
  pub last_program_dts : ℤ
  pub last_program_pts : ℤ
  pub switches : ℕ
  pub resyncs : ℕ
  pub anchored : Bool
  pub has_program : Bool

-- ngx_media_timeline_init
abbrev pub timeline_init : Timeline
timeline_init = record {
  offset = pos 0;
  last_program_dts = pos 0;
  last_program_pts = pos 0;
  switches = 0;
  resyncs = 0;
  anchored = false;
  has_program = false;
}

unfoldable pub timeline_discontinuity : Timeline → Timeline
timeline_discontinuity t = record t { switches = inc64 t.switches; anchored = false }

-- `last_program_dts + 1 - source_dts`: the next program timestamp is one past the last.
abbrev pub follow : Timeline → ℤ → ℤ
follow t dts = t.last_program_dts +ℤ pos 1 -ℤ dts

-- `if (!timeline->anchored) { ... }`
unfoldable pub anchor : Timeline → ℤ → Timeline
anchor t dts =
    if t.anchored
    then t
    else (if t.switches == 0
        then record t { offset = pos 0 -ℤ dts; anchored = true }
        else record t { offset = follow t dts; anchored = true })

-- `if (timeline->has_program && dts <= timeline->last_program_dts) { ... }`
unfoldable pub resync_clock : Timeline → ℤ → Timeline
resync_clock t dts =
    if t.has_program && leb_ℤ (dts +ℤ t.offset) t.last_program_dts
    then record t { offset = follow t dts; resyncs = inc64 t.resyncs }
    else t

pub record Stamp : Type 0 where
  pub pts : ℤ
  pub dts : ℤ

-- The two results that the code writes through pointers, and the timeline.
unfoldable pub timeline_map : Timeline → Stamp → Stamp × Timeline
unfolding anchor resync_clock
timeline_map t s =
    let t' = resync_clock (anchor t s.dts) s.dts in
    let dts = s.dts +ℤ t'.offset in
    let pts = s.pts +ℤ t'.offset in
    (
      record { pts = pts; dts = dts },
      record t' { last_program_dts = dts; last_program_pts = pts; has_program = true },
    )
