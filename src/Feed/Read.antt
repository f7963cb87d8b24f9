-- ===== src/Feed/Read.antt =====
-- The consumer's side of src/core/ngx_media_feed.c: cursors, `ngx_media_feed_read` and
-- `ngx_media_feed_resync`.
use nginx_media.Base.{
  ℕ, zero, suc, ◌-◌, ◌^◌, Bool, ◌&&◌, List, [], ◌∷◌, ltb, leb, ◌/=◌, if◌then◌else◌, inc64, add64,
  Status, ok, error,
}
use nginx_media.Buffer.{Refs, Frame, buf_ref, payload_len}
use nginx_media.Feed.{Feed, Cursor, slot_of}
use nginx_media.Feed.Hist.{Histogram, record_delay}

-- What `ngx_media_feed_read` returns.
pub data Outcome : Type 0 where
  feed_error batch empty overrun generation_mismatch : Outcome

-- What the read loop leaves: the frames copied out, the next sequence number, the histogram, the
-- payload counts.
pub record Taken : Type 0 where
  pub frames : List Frame
  pub seq : ℕ
  pub fanout : Histogram
  pub refs : Refs

-- `if (now >= slot->publish_time) ngx_media_feed_hist_record(...)`
abbrev pub note_delay : Histogram → ℕ → ℕ → Histogram
note_delay h now time = if leb time now then record_delay h (now - time) else h

abbrev pub with_frame : Frame → Taken → Taken
with_frame frame t = record t { frames = frame ∷ t.frames }

unfoldable pub read_loop : ℕ → Feed → ℕ → ℕ → ℕ → ℕ → ℕ → ℕ → Histogram → Refs → Taken
read_loop zero f max_units max_bytes now seq count bytes hist r = record {
  frames = [];
  seq = seq;
  fanout = hist;
  refs = r;
}
read_loop (suc fuel) f max_units max_bytes now seq count bytes hist r =
    let s = f.slots (slot_of f.capacity seq) in
    let len = payload_len s.frame.payload in
    let rest = with_frame s.frame (
      read_loop fuel f max_units max_bytes now (inc64 seq) (inc64 count) (add64 bytes len)
        (note_delay hist now s.publish_time) (buf_ref s.frame.payload r)) in
    let stop : Taken = record { frames = []; seq = seq; fanout = hist; refs = r } in
    if ltb count max_units && ltb seq f.head
    then (if ltb 0 count && (max_bytes /= 0 && ltb max_bytes (add64 bytes len)) then stop else rest)
    else stop

pub record ReadResult : Type 0 where
  pub outcome : Outcome
  pub feed : Feed
  pub cursor : Cursor
  pub frames : List Frame
  pub refs : Refs

abbrev pub refused : Outcome → Feed → Cursor → Refs → ReadResult
refused o f c r = record { outcome = o; feed = f; cursor = c; frames = []; refs = r }

-- EMPTY leaves the cursor alone; a batch moves it behind the last frame that was copied.
abbrev pub deliver : List Frame → Feed → Cursor → Taken → ReadResult
deliver [] f c t = record {
  outcome = empty;
  feed = record f { fanout = t.fanout };
  cursor = c;
  frames = [];
  refs = t.refs;
}
deliver (x ∷ xs) f c t = record {
  outcome = batch;
  feed = record f { fanout = t.fanout };
  cursor = record c { next_sequence = t.seq };
  frames = x ∷ xs;
  refs = t.refs;
}

abbrev pub delivered : Feed → Cursor → Taken → ReadResult
delivered f c t = deliver t.frames f c t

-- The loop ends when the sequence number reaches the head, at most `head - next_sequence` rounds.
unfoldable pub read : Feed → Cursor → ℕ → ℕ → ℕ → Refs → ReadResult
read f c max_units max_bytes now r =
    if f.allocated
    then (if c.generation /= f.generation
        then refused generation_mismatch
            (record f { generation_mismatches = inc64 f.generation_mismatches }) c r
        else if ltb c.next_sequence f.tail
        then refused overrun (record f { overruns = inc64 f.overruns }) c r
        else if ltb f.head c.next_sequence
        then refused generation_mismatch
            (record f { generation_mismatches = inc64 f.generation_mismatches }) c r
        else delivered f c (
            read_loop (f.head - c.next_sequence) f max_units max_bytes now c.next_sequence 0 0
              f.fanout r))
    else refused feed_error f c r

unfoldable pub cursor_init : Feed → Cursor
cursor_init f = record { generation = f.generation; next_sequence = f.head }

pub data ResyncMode : Type 0 where
  resync_latest resync_keyframe resync_other : ResyncMode

-- `feed->has_keyframe && last_keyframe >= tail && last_keyframe < head`
abbrev pub retains_keyframe : Feed → Bool
retains_keyframe f = f.has_keyframe && (leb f.tail f.last_keyframe && ltb f.last_keyframe f.head)

abbrev pub cursor_at : Feed → ℕ → Cursor
cursor_at f seq = record { generation = f.generation; next_sequence = seq }

resync_present : Feed → Cursor → ResyncMode → Status × Cursor
resync_present f c resync_latest = (ok, cursor_at f f.head)
resync_present f c resync_keyframe =
    (ok, cursor_at f (if retains_keyframe f then f.last_keyframe else f.head))
resync_present f c resync_other = (error, c)

unfoldable pub resync : Feed → Cursor → ResyncMode → Status × Cursor
unfolding resync_present
resync f c mode = if f.allocated then resync_present f c mode else (error, c)

abbrev pub no_keyframe : ℕ
no_keyframe = 2 ^ 64 - 1

unfoldable pub last_keyframe_of : Feed → ℕ
last_keyframe_of f = if retains_keyframe f then f.last_keyframe else no_keyframe
