-- ===== src/Ts/Demux/Section.antt =====
-- src/mpegts/ngx_media_ts_demux.c: program tables, from the bytes of a packet to the tracks.
--
-- The assembly that a packet feeds is the one for PAT or the one for PMT; a table of either kind may
-- arrive on both, so `Which` names it and its fields are read again after a section.
use nginx_media.Base.{
  ℕ, zero, suc, ◌+◌, ◌-◌, ◌*◌, ◌%◌, ◌^◌, Bool, true, false, not, ◌&&◌, ◌||◌, none, List, [], ◌∷◌,
  ◌++◌, length, take, drop, get_or, ltb, leb, ◌==◌, ◌/=◌, if◌then◌else◌, inc64,
}
use nginx_media.Buffer.{media_video, media_audio}
use nginx_media.Compat.{Track}
use nginx_media.Ts.{
  codec_none, codec_h264, codec_h265, codec_aac, stream_h264, stream_h265, stream_aac_adts, crc32,
}
use nginx_media.Ts.Demux.{Descriptor, on_tracks, Es, Psi, Core, track_size, psi_error, emit_event}
use nginx_media.Ts.Demux.Assembly.{payload_annexb, payload_adts}

-- A field of 13 or 12 bits: the low bits of a byte and the next byte.
abbrev pub field_at : ℕ → List ℕ → ℕ → ℕ
field_at m s p = get_or s p 0 % m * 256 + get_or s (p + 1) 0

unfoldable pub codec_of : ℕ → ℕ
codec_of kind =
    if kind == stream_h264
    then codec_h264
    else if kind == stream_h265
    then codec_h265
    else if kind == stream_aac_adts
    then codec_aac
    else codec_none

-- The PMT is followed from now on, and a section of another PMT is forgotten.
abbrev pub follow_pmt : Core → ℕ → Core
follow_pmt d pid =
    if not d.pat_valid || (d.pmt_pid /= pid)
    then record d {
      pmt_pid = pid;
      pmt = record d.pmt { pid = pid; assembling = false; buf = []; expected = 0 };
      pat_valid = true;
      pmt_valid = false;
    }
    else record d { pat_valid = true }

-- The loop over the programs of a PAT, from `p` on.
unfoldable pub pat_loop : ℕ → Core → List ℕ → ℕ → Core
pat_loop zero d s p = psi_error d
pat_loop (suc fuel) d s p =
    let rest = pat_loop fuel d s (p + 4) in
    if ltb (length s - 4) (p + 4)
    then psi_error d
    else if field_at 256 s p == 0
    then rest
    else follow_pmt d (field_at 32 s (p + 2))

unfoldable pub parse_pat : Core → List ℕ → Core
parse_pat d s = if ltb (length s) 12 then psi_error d else pat_loop (length s) d s 8

-- The streams of a PMT as (pid, stream type), and how many were not supported. `end` is a position.
unfoldable pub pmt_loop : ℕ → ℕ → List ℕ → ℕ → List (ℕ × ℕ) × ℕ → List (ℕ × ℕ) × ℕ
pmt_loop zero max s p r = r
pmt_loop (suc fuel) max s p (streams, bad) =
    let kind = get_or s p 0 in
    let next : List (ℕ × ℕ) × ℕ =
      if codec_of kind == codec_none
      then (streams, inc64 bad)
      else if ltb (length streams) max
      then (streams ++ (field_at 32 s (p + 1), kind) ∷ [], bad)
      else (streams, bad) in
    let rest = pmt_loop fuel max s (p + 5 + field_at 16 s (p + 3)) next in
    if leb (p + 5) (length s - 4) && ltb (length streams) 32 then rest else (streams, bad)

unfoldable pub same_streams : List Es → List (ℕ × ℕ) → Bool
same_streams [] [] = true
same_streams [] (x ∷ streams) = false
same_streams (t ∷ ts) [] = false
same_streams (t ∷ ts) ((pid, kind) ∷ streams) =
    t.pid == pid && (t.stream_type == kind && same_streams ts streams)

abbrev pub no_track : Track
no_track = record {
  media_type = 0;
  codec = 0;
  payload_format = 0;
  profile = 0;
  level = 0;
  width = 0;
  height = 0;
  frame_rate_num = 0;
  frame_rate_den = 0;
  sample_rate = 0;
  channels = 0;
}

unfoldable pub es_init : ℕ → ℕ × ℕ → Es
es_init i (pid, kind) =
    let codec = codec_of kind in
    record {
      pid = pid;
      stream_type = kind;
      codec = codec;
      track_index = i;
      cc = 0;
      cc_valid = false;
      au = [];
      au_cap = 0;
      au_overflow = false;
      pts = 0;
      dts = 0;
      has_pts = false;
      has_dts = false;
      last_pts = 0;
      pes_remaining = 0;
      config = none;
      descriptor = record {
        track = record no_track {
          media_type = if codec == codec_aac then media_audio else media_video;
          codec = codec;
          payload_format = if codec == codec_aac then payload_adts else payload_annexb;
        };
        config = none;
      };
    }

unfoldable pub tracks_from : ℕ → List (ℕ × ℕ) → List Es
tracks_from i [] = []
tracks_from i (x ∷ streams) = es_init i x ∷ tracks_from (i + 1) streams

-- ngx_media_trackset_add, for all tracks in turn
unfoldable pub add_tracks : ℕ → List Es → List Descriptor → List Descriptor
add_tracks max [] set = set
add_tracks max (t ∷ ts) set =
    add_tracks max ts (if leb max (length set) then set else set ++ t.descriptor ∷ [])

-- ngx_media_trackset_init succeeds
abbrev pub trackset_fits : (ℕ → Bool) → ℕ → Bool
trackset_fits mem max = ltb 0 max && (ltb (max * track_size) (2 ^ 64) && mem (max * track_size))

unfoldable pub tracks_build : (ℕ → Bool) → Core → Core
tracks_build mem d =
    let set = add_tracks d.max_tracks d.tracks [] in
    if trackset_fits mem d.max_tracks
    then emit_event (on_tracks set) (record d { trackset = set; tracks_ready = true })
    else record d { trackset = [] }

abbrev pub with_streams : (ℕ → Bool) → Core → List (ℕ × ℕ) × ℕ → Core
with_streams mem d (streams, bad) =
    let d' : Core = record d {
      stats = record d.stats { unsupported_streams = bad };
      pmt_valid = true;
    } in
    if same_streams d.tracks streams
    then d'
    else tracks_build mem
        (record d' { trackset = []; tracks_ready = false; tracks = tracks_from 0 streams })

unfoldable pub parse_pmt : (ℕ → Bool) → Core → List ℕ → Core
parse_pmt mem d s =
    let p = 12 + field_at 16 s 10 in
    let d' : Core = record d { pcr_pid = field_at 32 s 8 } in
    if ltb (length s) 16
    then psi_error d
    else if ltb (length s - 4) p
    then psi_error d'
    else with_streams mem d'
        (pmt_loop (length s) d.max_tracks s p ([], d.stats.unsupported_streams))

unfoldable pub parse_section : (ℕ → Bool) → Core → List ℕ → Core
parse_section mem d s =
    if crc32 s /= 0
    then record d { stats = record d.stats { crc_errors = inc64 d.stats.crc_errors } }
    else if get_or s 0 0 == 0
    then parse_pat d s
    else if get_or s 0 0 == 2
    then parse_pmt mem d s
    else d

pub data Which : Type 0 where
  of_pat of_pmt : Which

abbrev pub psi_of : Which → Core → Psi
psi_of of_pat d = d.pat
psi_of of_pmt d = d.pmt

abbrev pub set_psi : Which → Core → Psi → Core
set_psi of_pat d x = record d { pat = x }
set_psi of_pmt d x = record d { pmt = x }

-- `psi->assembling = assembling; psi->len = 0`
abbrev pub drop_section : Which → Core → Core
drop_section w d = set_psi w d (record (psi_of w d) { assembling = false; buf = [] })

-- NGX_MEDIA_TS_SECTION_MAX
abbrev pub section_max : ℕ
section_max = 1024

-- The section's bytes after the header was taken in: whole, it is parsed; else more are awaited.
unfoldable pub fill_section : (ℕ → Bool) → Which → Core → List ℕ → Core
fill_section mem w d p =
    let x = psi_of w d in
    let buf = x.buf ++ take (x.expected - length x.buf) p in
    let d' = parse_section mem d buf in
    if length buf == x.expected
    then set_psi w d' (record (psi_of w d') { buf = []; expected = 0; assembling = false })
    else set_psi w d (record x { buf = buf; assembling = true })

-- The bytes that complete a header of three bytes, and what becomes of them: the state, and the
-- bytes that are left. Where the code returns, none are.
unfoldable pub psi_head : (ℕ → Bool) → Which → Core → List ℕ → Core × List ℕ
psi_head mem w d p =
    let x = psi_of w d in
    let head = x.buf ++ take (3 - length x.buf) p in
    let after_head = drop (3 - length x.buf) p in
    let section_length = field_at 16 head 1 in
    let headed : Psi = record x { buf = head; expected = 3 + section_length } in
    if ltb (length head) 3
    then (set_psi w d (record x { buf = head; assembling = true }), [])
    else if get_or head 0 0 == 255
    then (drop_section w d, [])
    else if ltb section_max (3 + section_length) || ltb section_length 4
    then (psi_error (drop_section w d), [])
    else (fill_section mem w (set_psi w d headed) after_head, drop section_length after_head)

-- One pass of the loop of `ngx_media_ts_psi_feed`.
unfoldable pub psi_step : (ℕ → Bool) → Which → Core → List ℕ → Core × List ℕ
psi_step mem w d p =
    let x = psi_of w d in
    if leb 3 (length x.buf)
    then (fill_section mem w d p, drop (x.expected - length x.buf) p)
    else psi_head mem w d p

-- The loop over the bytes of a packet; each pass takes in some.
unfoldable pub psi_loop : (ℕ → Bool) → Which → ℕ → Core → List ℕ → Core
psi_loop mem w zero d p = d
psi_loop mem w (suc fuel) d [] = d
psi_loop mem w (suc fuel) d (b ∷ p) =
    let (d', rest) = psi_step mem w d (b ∷ p) in psi_loop mem w fuel d' rest

-- With a pointer field: `payload` is the rest of the packet.
abbrev pub psi_start : (ℕ → Bool) → Which → Core → List ℕ → Core
psi_start mem w d [] = psi_error d
psi_start mem w d (pointer ∷ p) =
    if ltb (length p) pointer
    then psi_error (drop_section w d)
    else psi_loop mem w (length p)
        (set_psi w d (record (psi_of w d) { assembling = false; buf = []; expected = 0 }))
        (drop pointer p)

unfoldable pub psi_feed : (ℕ → Bool) → Which → Core → Bool → List ℕ → Core
psi_feed mem w d pusi payload =
    if pusi
    then psi_start mem w d payload
    else if (psi_of w d).assembling
    then psi_loop mem w (length payload) d payload
    else d
