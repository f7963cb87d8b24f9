-- ===== src/Ts/Demux/Assembly.antt =====
-- src/mpegts/ngx_media_ts_demux.c: the assembly of access units, and the frames emitted.
--
-- A function of a track takes the demultiplexer and the track, and returns both; its caller puts
-- the track back into its place.
use nginx_media.Base.{
  ℕ, zero, suc, ◌+◌, ◌*◌, ◌^◌, min, Bool, true, false, not, ◌&&◌, ◌||◌, Option, none, some, List,
  [], ◌∷◌, ◌++◌, length, ltb, leb, ◌==◌, if◌then◌else◌, inc64,
}
use nginx_media.Ts.Demux.{
  Descriptor, Emitted, on_tracks, on_frame, Es, Core, count_overflow, emit_event,
}

abbrev pub payload_annexb : ℕ
payload_annexb = 1

abbrev pub payload_adts : ℕ
payload_adts = 3

abbrev pub payload_raw : ℕ
payload_raw = 4

-- `memcmp` of two buffers of the same length, the test of the lengths included
unfoldable pub same_bytes : List ℕ → List ℕ → Bool
same_bytes [] [] = true
same_bytes [] (b ∷ q) = false
same_bytes (a ∷ p) [] = false
same_bytes (a ∷ p) (b ∷ q) = a == b && same_bytes p q

-- ngx_media_buf_alloc: the header's 32 bytes are added
abbrev pub buf_fits : (ℕ → Bool) → ℕ → Bool
buf_fits mem len = ltb (32 + len) (2 ^ 64) && mem (32 + len)

-- `while (cap < need) cap <<= 1`
unfoldable pub grow : ℕ → ℕ → ℕ → ℕ
grow zero cap need = cap
grow (suc fuel) cap need = let rest = grow fuel (cap * 2) need in if ltb cap need then rest else cap

abbrev pub overflowed : Core → Es → Core × Es
overflowed d t = (count_overflow d, record t { au = []; au_overflow = true })

abbrev pub au_capacity : Core → Es → ℕ → ℕ
au_capacity d t need = min (grow 64 (if t.au_cap == 0 then 8192 else t.au_cap) need) d.max_au_bytes

unfoldable pub au_append : (ℕ → Bool) → Core → Es → List ℕ → Core × Es
au_append mem d t [] = (d, t)
au_append mem d t (b ∷ p) =
    let need = length t.au + length (b ∷ p) in
    let cap = au_capacity d t need in
    if leb (2 ^ 64) need || ltb d.max_au_bytes need
    then overflowed d t
    else if leb need t.au_cap
    then (d, record t { au = t.au ++ b ∷ p })
    else if mem cap
    then (d, record t { au = t.au ++ b ∷ p; au_cap = cap })
    else overflowed d t

-- What the callers of `ngx_media_ts_emit` say of a frame.
pub record Mark : Type 0 where
  pub pts : ℕ
  pub dts : ℕ
  pub keyframe : Bool
  pub config : Bool
  pub payload_format : ℕ

abbrev pub emitted : Es → List ℕ → Mark → Emitted
emitted t p m = record {
  media_type = t.descriptor.track.media_type;
  codec = t.codec;
  payload_format = m.payload_format;
  track_index = t.track_index;
  pts = m.pts;
  dts = m.dts;
  keyframe = m.keyframe;
  config = m.config;
  payload = p;
}

abbrev pub count_out : Bool → Core → Core
count_out true d = record d {
  stats = record d.stats { config_frames_out = inc64 d.stats.config_frames_out };
}
count_out false d = record d { stats = record d.stats { frames_out = inc64 d.stats.frames_out } }

-- The result of `ngx_media_ts_emit` is ignored by all callers, and is not modelled.
unfoldable pub emit : (ℕ → Bool) → Core → Es → List ℕ → Mark → Core
emit mem d t [] m = d
emit mem d t (b ∷ p) m =
    if ltb d.max_au_bytes (length (b ∷ p))
    then count_overflow d
    else if buf_fits mem (length (b ∷ p))
    then count_out m.config (emit_event (on_frame (emitted t (b ∷ p) m)) d)
    else d

-- The entry at an index is replaced, if there is one.
abbrev pub set_config : List ℕ → ℕ → List Descriptor → List Descriptor
set_config p i [] = []
set_config p zero (x ∷ xs) = record x { config = some p } ∷ xs
set_config p (suc i) (x ∷ xs) = x ∷ set_config p i xs

abbrev pub same_config : Option (List ℕ) → List ℕ → Bool
same_config none p = false
same_config (some q) p = same_bytes q p

abbrev pub tell_tracks : Core → Core
tell_tracks d = if d.tracks_ready then emit_event (on_tracks d.trackset) d else d

unfoldable pub emit_config : (ℕ → Bool) → Core → Es → List ℕ → ℕ → Core × Es
emit_config mem d t [] format = (d, t)
emit_config mem d t (b ∷ p) format =
    let t' : Es = record t {
      config = some (b ∷ p);
      descriptor = record t.descriptor { config = some (b ∷ p) };
    } in
    let d' : Core = record d { trackset = set_config (b ∷ p) t.track_index d.trackset } in
    let mark : Mark = record {
      pts = t.pts;
      dts = t.dts;
      keyframe = true;
      config = true;
      payload_format = format;
    } in
    if same_config t.config (b ∷ p) || not (buf_fits mem (length (b ∷ p)))
    then (d, t)
    else (tell_tracks (emit mem d' t' (b ∷ p) mark), t')
