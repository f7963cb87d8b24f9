-- ===== src/Stream/Tests.antt =====
-- A stream with a main and a spare source, and the theorems about it.
use nginx_media.Base.{◌≡◌, refl, true, false, none, some, List, [], ◌∷◌}
use nginx_media.Buffer.{Refs, Frame, frame_init, frame_copy, frame_release, buf_ref, buf_unref}
use nginx_media.Timeline.{timeline_init, timeline_map, timeline_discontinuity, anchor, resync_clock}
use nginx_media.Feed.{
  over_limits, publish as feed_publish, discontinuity as feed_discontinuity, prune, place, store,
}
use nginx_media.Feed.Init.{fresh as fresh_feed}
use nginx_media.Preroll.{
  push as preroll_push, cache, append, over, overflow, replay, reset as preroll_reset,
  ready as preroll_ready,
}
use nginx_media.Preroll.Init.{fresh as fresh_preroll}
use nginx_media.Stream.{
  standby, Source, Stream, State, written, write_program, replay_frames, demote_old, activate,
  splice, switch_now, promote, resolve_loop, switch_resolve, lease, lease_begin, release, lease_end,
  count_in, publish_active, publish_standby, publish,
}
use nginx_media.Stream.Single.{Single, Event, published, promoted, step, run, run-Single}

abbrev source : Source
source = record {
  stream = 1;
  state = standby;
  last_media = 0;
  preroll = fresh_preroll 8 4 1000;
  writers = 0;
  references = 1;
  frames_in = 0;
  payload_bytes_in = 0;
  frames_out = 0;
  active = false;
  has_video = true;
  pending_switch = false;
  pending_remove = false;
}

abbrev stream : Stream
stream = record {
  self = 1;
  sources = λ i. source;
  queue = 0 ∷ 1 ∷ [];
  active = none;
  timeline = timeline_init;
  program_feed = fresh_feed 8 (record { max_units = 8; max_bytes = 1000; max_age = 0 });
  generation = 1;
  switches = 0;
  program_frames = 0;
  running = true;
}

abbrev counts : Refs
counts b = 1

abbrev key_frame : Frame
key_frame = record frame_init { media_type = 1; keyframe = true }

-- The spare is promoted while it has nothing cached, and its next keyframe completes the switch.
abbrev events : List Event
events =
    published 0 key_frame 10
    ∷ promoted 0
    ∷ published 0 key_frame 20
    ∷ promoted 1
    ∷ published 1 key_frame 30
    ∷ []

abbrev final : State
final = run (stream, counts) events

switched :
    (final.0.active ≡ some 1)
    × (final.0.generation ≡ 2)
    × (final.0.program_feed.generation ≡ 2)
    × (final.0.program_frames ≡ 3)
unfolding run step publish count_in publish_active publish_standby promote switch_now activate
    demote_old splice replay_frames write_program written lease_begin lease lease_end release
    switch_resolve resolve_loop feed_publish feed_discontinuity prune place store preroll_push cache
    append over overflow replay preroll_reset preroll_ready timeline_map anchor resync_clock
    timeline_discontinuity frame_copy frame_release buf_ref buf_unref over_limits
switched = (refl, refl, refl, refl)

run-Single_example : Single (run (stream, counts) events).0
run-Single_example = run-Single (stream, counts) events (λ j. refl)

-- the main source is active and has a frame in flight
abbrev busy : Stream
busy = record stream { active = some 0; sources = λ i. record source { writers = 1 } }
