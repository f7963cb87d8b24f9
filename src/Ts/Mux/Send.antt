-- ===== src/Ts/Mux/Send.antt =====
-- src/mpegts/ngx_media_ts_mux.c: `ngx_media_ts_mux_write_frame`, one frame as one PES.
--
-- The loop over the packets is on fuel, for which the size of the PES is enough, since each packet
-- carries at least one byte of it. When the burst is full, the state at that point is kept, because
-- the code rolls it back.
use nginx_media.Base.{
  ℕ, zero, suc, ◌+◌, ◌-◌, ◌/◌, ◌%◌, Bool, true, false, not, ◌&&◌, Option, none, some, List, [], ◌∷◌,
  ◌++◌, length, take, ltb, leb, ◌==◌, if◌then◌else◌, inc64, add64, Status, ok, error, again,
}
use nginx_media.Buffer.{Buf, Frame, is_set, media_audio}
use nginx_media.Ts.{put_ts}
use nginx_media.Ts.Mux.{Mux, TsBurst, max_slices, payload_capacity, copy_pes, unsigned, mux_packet}

-- `frame->pts == frame->dts`
abbrev pub same_ts : Frame → Bool
same_ts f = unsigned f.pts == unsigned f.dts

-- The length that the header announces; 0 leaves the PES unbounded.
abbrev pub pes_length : Bool → ℕ → ℕ → ℕ
pes_length bounded header_len payload_len =
    if bounded then 3 + (header_len - 9) + payload_len else 0

unfoldable pub pes_header : ℕ → Bool → Frame → ℕ → List ℕ
pes_header stream_id bounded f payload_len =
    let header_len = if same_ts f then 14 else 19 in
    let n = pes_length bounded header_len payload_len in
    0
    ∷ 0
    ∷ 1
    ∷ (stream_id % 256)
    ∷ (n / 256 % 256)
    ∷ (n % 256)
    ∷ 128
    ∷ (if same_ts f then 128 else 192)
    ∷ (header_len - 9)
    ∷ (put_ts (if same_ts f then 2 else 3) (unsigned f.pts)
        ++ (if same_ts f then [] else put_ts 1 (unsigned f.dts)))

-- What is the same for all packets of a PES.
pub record Pes : Type 0 where
  pub pid : ℕ
  pub header : List ℕ
  pub payload : List ℕ
  -- the frame's dts
  pub base : ℕ

abbrev pub pes_total : Pes → ℕ
pes_total x = length x.header + length x.payload

pub data Sent : Type 0 where
  full : Mux → TsBurst → Sent
  sent : Mux → TsBurst → ℕ → Sent

abbrev pub next_packet :
    (Mux → TsBurst → ℕ → Sent) → Mux → TsBurst → Option (Mux × TsBurst × ℕ) → Sent
next_packet more m b none = full m b
next_packet more m b (some (m', b', cc')) = more m' b' cc'

-- The packets from place `off` of the PES on; the first one has the PCR if `pcr` is set.
unfoldable pub send_loop : ℕ → Pes → Bool → Bool → ℕ → Mux → TsBurst → ℕ → Sent
send_loop zero x pcr first off m b cc = sent m b cc
send_loop (suc fuel) x pcr first off m b cc =
    let n = payload_capacity (pes_total x - off) (first && pcr) in
    let part = copy_pes n x.header x.payload off in
    let next =
      next_packet (λ m' b' cc'. send_loop fuel x pcr false (off + n) m' b' cc') m b
        (mux_packet m b x.pid cc first (first && pcr) x.base part) in
    if ltb off (pes_total x) then next else sent m b cc

abbrev pub is_audio : Frame → Bool
is_audio f = f.media_type == media_audio

abbrev pub pes_of : Mux → Frame → List ℕ → Pes
pes_of m f payload = record {
  pid = if is_audio f then m.conf.audio_pid else m.conf.video_pid;
  header = pes_header (if is_audio f then 192 else 224) (is_audio f) f (length payload);
  payload = payload;
  base = unsigned f.dts;
}

abbrev pub frame_cc : Mux → Frame → ℕ
frame_cc m f = if is_audio f then m.cc_audio else m.cc_video

abbrev pub with_cc : Mux → Frame → ℕ → Mux
with_cc m f cc = if is_audio f then record m { cc_audio = cc } else record m { cc_video = cc }

-- The end of `write_frame`; `m` and `b` are what it started from.
abbrev pub frame_done : Mux → TsBurst → Frame → List ℕ → Sent → Status × Mux × TsBurst
frame_done m b f payload (full m' b') = (
  again,
  record m' {
    packets = m.packets;
    pcr_packets = m.pcr_packets;
    frame_drops = inc64 m'.frame_drops;
  },
  record b' { written = take (length b.written) b'.written },
)
frame_done m b f payload (sent m' b' cc) = (
  ok,
  with_cc (record m' { frame_bytes = add64 m'.frame_bytes (length payload) }) f cc,
  record b' {
    slices =
        b'.slices
        ++ record {
          offset = length b.written;
          len = length b'.written - length b.written;
          pts = f.pts;
          dts = f.dts;
          media_type = f.media_type;
          codec = f.codec;
          keyframe = f.keyframe;
        }
          ∷ [];
  },
)

abbrev pub frame_sent : Mux → TsBurst → Frame → Bool → List ℕ → Status × Mux × TsBurst
frame_sent m b f pcr payload =
    let x = pes_of m f payload in
    frame_done m b f payload (send_loop (pes_total x) x pcr true 0 m b (frame_cc m f))

-- `bytes` is the contents of a payload.
abbrev pub frame_payload :
    (Buf → List ℕ) → Mux → TsBurst → Frame → Bool → Option Buf → Status × Mux × TsBurst
frame_payload bytes m b f pcr none = (ok, m, b)
frame_payload bytes m b f pcr (some buf) =
    if not m.tracks_ready
    then (ok, m, b)
    else if leb max_slices (length b.slices)
    then (again, m, b)
    else frame_sent m b f pcr (bytes buf)

unfoldable pub write_frame : (Buf → List ℕ) → Mux → TsBurst → Frame → Bool → Status × Mux × TsBurst
write_frame bytes m b f pcr =
    if is_set b.backing then frame_payload bytes m b f pcr f.payload else (error, m, b)
