-- ===== src/Ts/Demux/Flush.antt =====
-- src/mpegts/ngx_media_ts_demux.c: the flush of an access unit into frames.
--
-- The loops over units and over ADTS frames are on fuel, for which the number of bytes is enough,
-- since each pass leaves fewer.
use nginx_media.Base.{
  ℕ, zero, suc, ◌+◌, ◌*◌, ◌/◌, ◌^◌, Bool, true, false, ◌&&◌, ◌||◌, Option, none, some, List, [],
  ◌∷◌, ◌++◌, length, take, drop, get_elem?, ltb, leb, ◌==◌, ◌/=◌, if◌then◌else◌,
}
use nginx_media.Compat.{Track}
use nginx_media.Aac.{Adts, header_min, adts_parse, audio_specific_config}
use nginx_media.Nal.{
  Codec, h264, h265, Found, out_of_fuel, ended, unit, iter_next, nal_type, is_vcl, is_config,
  is_keyframe,
}
use nginx_media.Ts.{codec_h265, codec_aac}
use nginx_media.Ts.Demux.{Descriptor, Es, Core, pes_error}
use nginx_media.Ts.Demux.Assembly.{
  payload_annexb, payload_adts, payload_raw, grow, Mark, emit, emit_config, tell_tracks,
}

-- A unit that is appended to the configuration of an access unit, behind a start code; none is the
-- `break` on a failed allocation. `cfg` is present once `cfg_cap` is not 0.
pub record Scan : Type 0 where
  pub cfg : List ℕ
  pub cfg_cap : ℕ
  pub have_config : Bool
  pub vcl : Bool
  pub keyframe : Bool

abbrev pub scan_init : Scan
scan_init = record { cfg = []; cfg_cap = 0; have_config = false; vcl = false; keyframe = false }

abbrev pub with_config : Scan → List ℕ → ℕ → Scan
with_config s nal cap = record s {
  cfg = s.cfg ++ 0 ∷ 0 ∷ 0 ∷ 1 ∷ nal;
  cfg_cap = cap;
  have_config = true;
}

unfoldable pub scan_config : (ℕ → Bool) → Scan → List ℕ → Option Scan
scan_config mem s nal =
    let need = length s.cfg + 4 + length nal in
    let cap = grow 64 (if s.cfg_cap == 0 then 256 else s.cfg_cap) need in
    if leb (2 ^ 64) need
    then none
    else if leb need s.cfg_cap
    then some (with_config s nal s.cfg_cap)
    else if mem cap
    then some (with_config s nal cap)
    else none

-- `codec == NGX_MEDIA_CODEC_H265`, the only codec that the NAL functions ask for
abbrev pub nal_codec : ℕ → Codec
nal_codec codec = if codec == codec_h265 then h265 else h264

abbrev pub flagged : Codec → ℕ → Scan → Scan
flagged codec kind s = record s {
  vcl = s.vcl || is_vcl codec kind;
  keyframe = s.keyframe || is_keyframe codec kind;
}

abbrev pub flagged_some : Codec → ℕ → Option Scan → Option Scan
flagged_some codec kind none = none
flagged_some codec kind (some s) = some (flagged codec kind s)

unfoldable pub scan_nal : (ℕ → Bool) → Codec → Scan → List ℕ → Option Scan
scan_nal mem codec s nal =
    let kind = nal_type codec nal in
    if is_config codec kind
    then flagged_some codec kind (scan_config mem s nal)
    else some (flagged codec kind s)

abbrev pub scan_on : (Scan → Scan) → Scan → Option Scan → Scan
scan_on again s none = s
scan_on again s (some s') = again s'

abbrev pub scan_found : (List ℕ → Scan → Scan) → (List ℕ → Option Scan) → Scan → Found → Scan
scan_found again step s out_of_fuel = s
scan_found again step s ended = s
scan_found again step s (unit nal rest) = scan_on (again rest) s (step nal)

unfoldable pub scan_units : (ℕ → Bool) → Codec → ℕ → List ℕ → Scan → Scan
scan_units mem codec zero p s = s
scan_units mem codec (suc fuel) p s =
    scan_found (λ rest s'. scan_units mem codec fuel rest s') (scan_nal mem codec s) s (iter_next p)

abbrev pub cleared : Es → Es
cleared t = record t { au = []; has_pts = false; has_dts = false }

abbrev pub current_pts : Es → ℕ
current_pts t = if t.has_pts then t.pts else t.last_pts

unfoldable pub video_picture : (ℕ → Bool) → Scan → Core × Es → Core × Es
video_picture mem s (d, t) =
    let pts = current_pts t in
    let mark : Mark = record {
      pts = pts;
      dts = if t.has_dts then t.dts else pts;
      keyframe = s.keyframe;
      config = false;
      payload_format = payload_annexb;
    } in
    if s.vcl
    then (emit mem d t t.au mark, cleared (record t { last_pts = pts }))
    else (d, cleared t)

unfoldable pub video_flush : (ℕ → Bool) → Core → Es → Core × Es
video_flush mem d t =
    let s = scan_units mem (nal_codec t.codec) (length t.au) t.au scan_init in
    video_picture mem s (if s.have_config then emit_config mem d t s.cfg payload_annexb else (d, t))

abbrev pub asc_config : (ℕ → Bool) → Core → Es → Option (List ℕ) → Core × Es
asc_config mem d t none = (d, t)
asc_config mem d t (some asc) = emit_config mem d t asc payload_raw

abbrev pub reshaped : Track → Adts → Bool
reshaped x a =
    (x.sample_rate /= a.sample_rate) || ((x.channels /= a.channels) || (x.profile /= a.object_type))

-- Storing equal values is no change, so the store stands outside the test.
abbrev pub with_shape : Es → Adts → Es
with_shape t a = record t {
  descriptor = record t.descriptor {
    track = record t.descriptor.track {
      sample_rate = a.sample_rate;
      channels = a.channels;
      profile = a.object_type;
    };
  };
}

-- One ADTS frame at the start of `p`; the Boolean is `meta_changed`.
unfoldable pub audio_frame : (ℕ → Bool) → Adts → List ℕ → Core × Es → Core × Es × Bool
audio_frame mem a p (d, t) =
    let t' = with_shape t a in
    let mark : Mark = record {
      pts = t.last_pts;
      dts = t.last_pts;
      keyframe = true;
      config = false;
      payload_format = payload_adts;
    } in
    (
      emit mem d t' (take a.frame_len p) mark,
      record t' { last_pts = t.last_pts + 1024 * 90000 / a.sample_rate },
      reshaped t.descriptor.track a,
    )

abbrev pub audio_parsed :
    (List ℕ → Core × Es × Bool → Core × Es × Bool)
    → (ℕ → Bool)
    → List ℕ
    → Core × Es × Bool
    → Option Adts
    → Core × Es × Bool
audio_parsed again mem p (d, t, changed) none = (pes_error d, t, changed)
audio_parsed again mem p (d, t, changed) (some a) =
    let (d', t', changed') = audio_frame mem a p (asc_config mem d t (audio_specific_config a 2)) in
    let rest = again (drop a.frame_len p) (d', t', changed || changed') in
    if ltb (length p) a.frame_len then (pes_error d, t, changed) else rest

unfoldable pub audio_loop : (ℕ → Bool) → ℕ → List ℕ → Core × Es × Bool → Core × Es × Bool
audio_loop mem zero p r = r
audio_loop mem (suc fuel) p r =
    let next = audio_parsed (λ q r'. audio_loop mem fuel q r') mem p r (adts_parse p) in
    if ltb (length p) header_min then r else next

abbrev pub put_es : ℕ → Es → List Es → List Es
put_es i t [] = []
put_es zero t (x ∷ xs) = t ∷ xs
put_es (suc i) t (x ∷ xs) = x ∷ put_es i t xs

abbrev pub set_descriptor : ℕ → Descriptor → List Descriptor → List Descriptor
set_descriptor i x [] = []
set_descriptor zero x (y ∷ ys) = x ∷ ys
set_descriptor (suc i) x (y ∷ ys) = y ∷ set_descriptor i x ys

unfoldable pub sync_tracks : List Es → List Descriptor → List Descriptor
sync_tracks [] set = set
sync_tracks (t ∷ ts) set = sync_tracks ts (set_descriptor t.track_index t.descriptor set)

-- The end of `ngx_media_ts_audio_flush`; `i` is the track's place among the tracks.
unfoldable pub audio_done : ℕ → Core × Es × Bool → Core × Es
audio_done i (d, t, changed) =
    let d' : Core = record d { trackset = sync_tracks (put_es i t d.tracks) d.trackset } in
    (if changed && d.tracks_ready then tell_tracks d' else d, cleared t)

unfoldable pub audio_flush : (ℕ → Bool) → ℕ → Core → Es → Core × Es
audio_flush mem i d t =
    let t' : Es = record t { last_pts = current_pts t } in
    audio_done i (audio_loop mem (length t.au) t.au (d, t', false))

unfoldable pub au_flush : (ℕ → Bool) → ℕ → Core → Es → Core × Es
au_flush mem i d t =
    if length t.au == 0
    then (d, record (cleared t) { au_overflow = false })
    else if t.au_overflow
    then (d, record (cleared t) { au_overflow = false })
    else if t.codec == codec_aac
    then audio_flush mem i d t
    else video_flush mem d t

abbrev pub put_back : ℕ → Core × Es → Core
put_back i (d, t) = record d { tracks = put_es i t d.tracks }

-- `ngx_media_ts_demux_flush`: the tracks from place `i` on
abbrev pub flush_at : (ℕ → Bool) → ℕ → Core → Option Es → Core
flush_at mem i d none = d
flush_at mem i d (some t) = put_back i (au_flush mem i d t)

unfoldable pub flush_from : (ℕ → Bool) → ℕ → ℕ → Core → Core
flush_from mem zero i d = d
flush_from mem (suc n) i d = flush_from mem n (i + 1) (flush_at mem i d (get_elem? d.tracks i))

unfoldable pub demux_flush : (ℕ → Bool) → Core → Core
demux_flush mem d = flush_from mem (length d.tracks) 0 d
