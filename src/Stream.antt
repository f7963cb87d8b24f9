-- ===== src/Stream.antt =====
-- src/core/ngx_media_stream.c: the switch of one stream between its sources.
--
-- `Stream` is `ngx_media_stream_t` and `Source` is `ngx_media_source_t`, with the fields that
-- publishing, promotion, leases and removal read or write. A source pointer is its number in the
-- store `sources`, and `queue` is the stream's source queue. The payload counts `Refs` pass through
-- every call that publishes. The pointers that the code tests for NULL are present, the wake-up of
-- the runtime is left out, and an atomic operation is one step.
pub mod Single
pub mod Switch
mod Tests
use nginx_media.Base.{
  ℕ, zero, suc, ◌+◌, ◌-◌, ◌^◌, Bool, true, false, ◌&&◌, ◌||◌, not, Option, none, some, List, [],
  ◌∷◌, ltb, ◌==◌, ◌/=◌, if◌then◌else◌, inc64, add64, sub64, update, Status, ok, error, again,
}
use nginx_media.Buffer.{Buf, Refs, Frame, payload_len}
use nginx_media.Feed.{Feed, publish as feed_publish, discontinuity as feed_discontinuity}
use nginx_media.Timeline.{Timeline, Stamp, timeline_map, timeline_discontinuity}
use nginx_media.Preroll.{
  Preroll, push as preroll_push, replay, reset as preroll_reset, ready as preroll_ready,
  preroll_destroy,
}

-- NGX_MEDIA_SOURCE_STANDBY, _AWAITING_SYNC, _ACTIVE, _DRAINING
pub data Gate : Type 0 where
  standby awaiting_sync activated draining : Gate

abbrev pub is_activated : Gate → Bool
is_activated activated = true
is_activated _ = false

abbrev pub is_awaiting : Gate → Bool
is_awaiting awaiting_sync = true
is_awaiting _ = false

pub record Source : Type 0 where
  -- the stream that the source belongs to
  pub stream : ℕ
  pub state : Gate
  pub last_media : ℕ
  pub preroll : Preroll
  pub writers : ℕ
  pub references : ℕ
  pub frames_in : ℕ
  pub payload_bytes_in : ℕ
  pub frames_out : ℕ
  pub active : Bool
  pub has_video : Bool
  pub pending_switch : Bool
  pub pending_remove : Bool

pub record Stream : Type 0 where
  pub self : ℕ
  pub sources : ℕ → Source
  pub queue : List ℕ
  pub active : Option ℕ
  pub timeline : Timeline
  pub program_feed : Feed
  pub generation : ℕ
  pub switches : ℕ
  pub program_frames : ℕ
  pub running : Bool

abbrev pub State : Type 0
State = Stream × Refs

abbrev pub is_at : Option ℕ → ℕ → Bool
is_at none i = false
is_at (some j) i = j == i

abbrev pub with_source : Stream → ℕ → Source → Stream
with_source s i x = record s { sources = update s.sources i x }

-- `if (publish != NGX_OK) return NGX_ERROR; frames_out++; program_frames++;`
unfoldable pub written : Status → Stream → Refs → ℕ → Status × State
written ok s r i =
    let x = s.sources i in
    (
      ok,
      (
        record s {
          sources = update s.sources i (record x { frames_out = inc64 x.frames_out });
          program_frames = inc64 s.program_frames;
        },
        r,
      ),
    )
written _ s r i = (error, (s, r))

unfoldable pub write_program : State → ℕ → Frame → ℕ → Status × State
write_program (s, r) i frame now =
    let (stamp, timeline) = timeline_map s.timeline (record { pts = frame.pts; dts = frame.dts }) in
    let mapped = record frame { pts = stamp.pts; dts = stamp.dts } in
    let (status, feed, r') = feed_publish s.program_feed r mapped now in
    written status (record s { timeline = timeline; program_feed = feed }) r' i

-- `ngx_media_stream_replay_frame` for each cached frame; what it answers is ignored.
unfoldable pub replay_frames : List Frame → State → ℕ → ℕ → State
replay_frames [] t i now = t
replay_frames (f ∷ fs) t i now = replay_frames fs (write_program t i f now).1 i now

-- `if (old != NULL) { ... }`: a real change of source is announced.
unfoldable pub demote_old : Option ℕ → Stream → Stream
demote_old none s = s
demote_old (some o) s = record s {
  sources = update s.sources o (record (s.sources o) { state = standby; active = false });
  timeline = timeline_discontinuity s.timeline;
  program_feed = feed_discontinuity s.program_feed;
  generation = inc64 s.generation;
  switches = inc64 s.switches;
}

abbrev pub demote : Stream → Stream
demote s = demote_old s.active s

unfoldable pub activate : Stream → ℕ → Stream
activate s i = record s {
  sources =
      update s.sources i
        (record (s.sources i) { state = activated; active = true; pending_switch = false });
  active = some i;
}

-- `ngx_media_source_preroll_replay` and `ngx_media_source_preroll_reset` at the end of a switch.
unfoldable pub splice : State → ℕ → ℕ → State
splice (s, r) i now =
    let (played, r') = replay_frames (replay (s.sources i).preroll) (s, r) i now in
    let x = played.sources i in
    let (cleared, r'') = preroll_reset x.preroll r' in
    (with_source played i (record x { preroll = cleared }), r'')

-- `old != NULL && old->writers > 0`
abbrev pub old_writes : Stream → Bool
old_writes s = elim s.active [ none ↦ false | some o ↦ ltb 0 (s.sources o).writers ]

unfoldable pub switch_now : State → ℕ → ℕ → Status × State
switch_now (s, r) i now =
    if is_at s.active i
    then (ok, (with_source s i (record (s.sources i) { pending_switch = false }), r))
    else if old_writes s
    then (again, (s, r))
    else (ok, splice (activate (demote s) i, r) i now)

-- The source belongs to this stream, the stream runs, and the source is not being removed.
abbrev pub accepts : Stream → ℕ → Bool
accepts s i = ((s.sources i).stream == s.self) && (s.running && not (s.sources i).pending_remove)

-- `pending_switch = 1; state = AWAITING_SYNC`
abbrev pub hold : Stream → ℕ → Stream
hold s i = with_source s i (record (s.sources i) { pending_switch = true; state = awaiting_sync })

unfoldable pub promote : State → ℕ → Status × State
promote (s, r) i =
    let x = s.sources i in
    if not (accepts s i)
    then (error, (s, r))
    else if is_at s.active i
    then (ok, (with_source s i (record x { pending_switch = false }), r))
    else if preroll_ready x.preroll
    then switch_now (hold s i, r) i x.last_media
    else (ok, (hold s i, r))

-- `source->pending_switch && source->state == AWAITING_SYNC && preroll_ready(source)`
abbrev pub waits : Stream → ℕ → Bool
waits s i =
    let x = s.sources i in x.pending_switch && (is_awaiting x.state && preroll_ready x.preroll)

unfoldable pub resolve_loop : List ℕ → State → State
resolve_loop [] t = t
resolve_loop (i ∷ is) (s, r) =
    let x = s.sources i in
    let switched = resolve_loop is (switch_now (s, r) i x.last_media).1 in
    let rest = resolve_loop is (s, r) in if waits s i then switched else rest

unfoldable pub switch_resolve : State → State
switch_resolve (s, r) = resolve_loop s.queue (s, r)

-- `ngx_media_source_lease_begin`, and the reference that it takes
unfoldable pub lease : Source → Source
lease x = record x { writers = inc64 x.writers; references = inc64 x.references }

unfoldable pub lease_begin : Stream → ℕ → Status × Stream
lease_begin s i = if accepts s i then (ok, with_source s i (lease (s.sources i))) else (error, s)

-- `ngx_media_source_release`: the last reference frees the cache.
unfoldable pub release : Source → Refs → Source × Refs
release x r =
    let left = record x { references = x.references - 1 } in
    let (cleared, r') = preroll_destroy x.preroll r in
    if x.references == 0
    then (x, r)
    else if x.references == 1
    then (record left { preroll = cleared }, r')
    else (left, r)

abbrev pub unleased : Source → Source
unleased x = record x { writers = x.writers - 1 }

unfoldable pub lease_end : State → ℕ → State
lease_end (s, r) i =
    let x = s.sources i in
    let (y, r') = release (unleased x) r in
    if ltb 0 x.writers then (with_source s i y, r') else (s, r)

-- `frames_in`, `payload_bytes_in` and `last_media`
unfoldable pub count_in : Source → Frame → ℕ → Source
count_in x frame now = record x {
  frames_in = inc64 x.frames_in;
  payload_bytes_in = add64 x.payload_bytes_in (payload_len frame.payload);
  last_media = now;
}

-- An active source writes under a lease, and switches that waited for the lease are resolved.
unfoldable pub publish_active : State → ℕ → Frame → ℕ → Status × State
publish_active (s, r) i frame now =
    let leased = (lease_begin s i).1 in
    let (status, written) = write_program (leased, r) i frame now in
    (status, switch_resolve (lease_end written i))

-- A standby source feeds its cache, and a keyframe completes a switch that waits for it.
unfoldable pub publish_standby : State → ℕ → Frame → ℕ → Status × State
publish_standby (s, r) i frame now =
    let x = s.sources i in
    let (status, cached, r') = preroll_push x.has_video x.preroll r frame in
    let kept = with_source s i (record x { preroll = cached }) in
    if is_awaiting x.state && frame.keyframe then switch_now (kept, r') i now else (ok, (kept, r'))

unfoldable pub publish : State → ℕ → Frame → ℕ → Status × State
publish (s, r) i frame now =
    let counted = with_source s i (count_in (s.sources i) frame now) in
    let written = publish_active (counted, r) i frame now in
    let cached = publish_standby (counted, r) i frame now in
    if not (accepts s i)
    then (error, (s, r))
    else if is_activated (s.sources i).state
    then written
    else cached

unfoldable pub remove_from : ℕ → List ℕ → List ℕ
remove_from i [] = []
remove_from i (j ∷ js) = if j == i then js else j ∷ remove_from i js

-- `if (stream->active == source) { ... }`: the program idles until a source is promoted.
unfoldable pub idle : Stream → ℕ → Stream
idle s i =
    if is_at s.active i
    then record s {
      active = none;
      sources = update s.sources i (record (s.sources i) { active = false; state = standby });
      timeline = timeline_discontinuity s.timeline;
      program_feed = feed_discontinuity s.program_feed;
      generation = inc64 s.generation;
    }
    else s

unfoldable pub source_remove : State → ℕ → State
source_remove (s, r) i =
    let x = s.sources i in
    let marked = with_source s i (record x { pending_remove = true }) in
    let idled = idle marked i in
    let (y, r') = release (idled.sources i) r in
    if (x.stream == s.self) && not x.pending_remove
    then (record (with_source idled i y) { queue = remove_from i s.queue }, r')
    else (s, r)
