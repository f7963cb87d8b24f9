-- ===== src/Ts/Mux.antt =====
-- src/mpegts/ngx_media_ts_mux.c: frames into bursts of transport packets.
--
-- `written` is the bytes between the burst's data and its cursor; what stands behind the cursor is
-- never read. A packet is written with the payload that the caller copies into the area it is given.
-- `bytes` is the contents of a payload. The fields `cc_pcr` and `psi_ready`, which nothing reads, are
-- left out. `mem` is what ngx_alloc returns for that many bytes. Pointers are present.
pub mod Packets
pub mod Send
pub mod Write
pub mod Receiver
pub mod Header
pub mod Received
pub mod Arrival
pub mod Parse
mod Tests
use nginx_media.Base.{
  ℕ, zero, suc, ◌+◌, ◌-◌, ◌*◌, ◌/◌, ◌%◌, ◌^◌, Bool, true, false, ◌&&◌, ◌||◌, Option, none, some,
  List, [], ◌∷◌, ◌++◌, length, take, drop, ltb, leb, ◌==◌, if◌then◌else◌, inc64, add64, Status, ok,
  error, again,
}
use nginx_media.Base.Int.{ℤ, pos, negsuc}
use nginx_media.Buffer.{
  Buf, Refs, Frame, buf_alloc, buf_freeze, buf_unref, media_audio, media_video,
}
use nginx_media.Compat.{Track}
use nginx_media.Ts.{
  packet_size, payload_area, codec_h264, codec_h265, codec_aac, stream_h264, stream_h265,
  stream_aac_adts, put_ts, crc32, crc_bytes,
}

pub record MuxConf : Type 0 where
  pub pmt_pid : ℕ
  pub pcr_pid : ℕ
  pub video_pid : ℕ
  pub audio_pid : ℕ
  pub default_burst_bytes : ℕ
  pub max_burst_bytes : ℕ

pub record Mux : Type 0 where
  pub conf : MuxConf
  pub cc_pat : ℕ
  pub cc_pmt : ℕ
  pub cc_video : ℕ
  pub cc_audio : ℕ
  pub video_stream_type : ℕ
  pub audio_stream_type : ℕ
  pub tracks_ready : Bool
  pub bursts : ℕ
  pub packets : ℕ
  pub bytes : ℕ
  pub psi_packets : ℕ
  pub pcr_packets : ℕ
  pub frame_bytes : ℕ
  pub frame_drops : ℕ

pub record Slice : Type 0 where
  pub offset : ℕ
  pub len : ℕ
  pub pts : ℤ
  pub dts : ℤ
  pub media_type : ℕ
  pub codec : ℕ
  pub keyframe : Bool

-- ngx_media_ts_burst_t
pub record TsBurst : Type 0 where
  pub backing : Option Buf
  pub written : List ℕ
  pub capacity : ℕ
  pub psi_len : ℕ
  pub slices : List Slice

-- NGX_MEDIA_TS_MUX_MAX_SLICES
abbrev pub max_slices : ℕ
max_slices = 256

abbrev pub conf_default : MuxConf
conf_default = record {
  pmt_pid = 4096;
  pcr_pid = 4113;
  video_pid = 4113;
  audio_pid = 4352;
  default_burst_bytes = 512 * 1024;
  max_burst_bytes = 4 * 1024 * 1024;
}

abbrev pub conf_given : Option MuxConf → MuxConf
conf_given none = conf_default
conf_given (some c) = c

unfoldable pub mux_init : Option MuxConf → Mux
mux_init conf =
    let c = conf_given conf in
    let default = if c.default_burst_bytes == 0 then 512 * 1024 else c.default_burst_bytes in
    let most = if ltb c.max_burst_bytes default then default else c.max_burst_bytes in
    record {
      conf = record c { default_burst_bytes = default; max_burst_bytes = most };
      cc_pat = 0;
      cc_pmt = 0;
      cc_video = 0;
      cc_audio = 0;
      video_stream_type = 0;
      audio_stream_type = 0;
      tracks_ready = false;
      bursts = 0;
      packets = 0;
      bytes = 0;
      psi_packets = 0;
      pcr_packets = 0;
      frame_bytes = 0;
      frame_drops = 0;
    }

-- The stream types (video, audio) of a track set.
unfoldable pub stream_types : List Track → ℕ × ℕ → ℕ × ℕ
stream_types [] r = r
stream_types (t ∷ ts) (video, audio) = stream_types ts (
    if t.media_type == media_video && t.codec == codec_h264
    then (stream_h264, audio)
    else if t.media_type == media_video && t.codec == codec_h265
    then (stream_h265, audio)
    else if t.media_type == media_audio && t.codec == codec_aac
    then (video, stream_aac_adts)
    else (video, audio))

unfoldable pub set_tracks : Mux → List Track → Status × Mux
set_tracks m tracks =
    let (video, audio) = stream_types tracks (0, 0) in
    if video == 0 && audio == 0 then (error, m) else (
      ok,
      record m { video_stream_type = video; audio_stream_type = audio; tracks_ready = true },
    )

unfoldable pub payload_capacity : ℕ → Bool → ℕ
payload_capacity remain with_pcr =
    let min_af = if with_pcr then 8 else 0 in
    if ltb (remain + min_af) payload_area then remain else payload_area - min_af

-- `n` bytes from place `off` of a PES; the fuel `n` is enough, since each pass copies some.
unfoldable pub copy_loop : ℕ → ℕ → List ℕ → List ℕ → ℕ → List ℕ
copy_loop zero n header payload off = []
copy_loop (suc fuel) n header payload off =
    let src =
      if ltb off (length header) then drop off header else drop (off - length header) payload in
    let part = take n src in
    let rest = copy_loop fuel (n - length part) header payload (off + length part) in
    if n == 0 then [] else part ++ rest

unfoldable pub copy_pes : ℕ → List ℕ → List ℕ → ℕ → List ℕ
copy_pes n header payload off = copy_loop n n header payload off

abbrev pub fill : ℕ → List ℕ
fill zero = []
fill (suc n) = 255 ∷ fill n

-- The bytes of the adaptation field, its length byte included.
unfoldable pub af_bytes : ℕ → Bool → ℕ
af_bytes payload_len with_pcr =
    let min_af = if with_pcr then 8 else 0 in
    if ltb (payload_len + min_af) payload_area then payload_area - payload_len else min_af

abbrev pub pcr_bytes : ℕ → List ℕ
pcr_bytes base =
    (base / 2 ^ 25 % 256)
    ∷ (base / 2 ^ 17 % 256)
    ∷ (base / 2 ^ 9 % 256)
    ∷ (base / 2 % 256)
    ∷ (base % 2 * 128 + 126)
    ∷ 0
    ∷ []

abbrev pub adaptation : ℕ → Bool → ℕ → List ℕ
adaptation zero with_pcr base = []
adaptation (suc zero) with_pcr base = 0 ∷ []
adaptation (suc (suc n)) true base = suc n ∷ 16 ∷ (pcr_bytes base ++ fill (n - 6))
adaptation (suc (suc n)) false base = suc n ∷ 0 ∷ fill n

-- A cast of int64_t to uint64_t
abbrev pub unsigned : ℤ → ℕ
unsigned (pos n) = n % 2 ^ 64
unsigned (negsuc n) = 2 ^ 64 - 1 - n % 2 ^ 64

-- `with_pcr` carries the base that it is written with.
abbrev pub head_bytes : ℕ → ℕ → Bool → ℕ → List ℕ
head_bytes pid cc pusi af =
    71
    ∷ ((if pusi then 64 else 0) + pid / 256 % 32)
    ∷ (pid % 256)
    ∷ ((if af == 0 then 16 else 48) + cc % 16)
    ∷ []

unfoldable pub packet_bytes : ℕ → ℕ → Bool → Bool → ℕ → List ℕ → List ℕ
packet_bytes pid cc pusi with_pcr base payload =
    let af = af_bytes (length payload) with_pcr in
    head_bytes pid cc pusi af ++ (adaptation af with_pcr (base % 2 ^ 33) ++ payload)

-- None is NGX_AGAIN: the burst has no room for a packet.
unfoldable pub mux_packet :
    Mux → TsBurst → ℕ → ℕ → Bool → Bool → ℕ → List ℕ → Option (Mux × TsBurst × ℕ)
mux_packet m b pid cc pusi with_pcr base payload =
    let m' : Mux = record m {
      packets = inc64 m.packets;
      pcr_packets = if with_pcr then inc64 m.pcr_packets else m.pcr_packets;
    } in
    let b' : TsBurst = record b {
      written = b.written ++ packet_bytes pid cc pusi with_pcr base payload;
    } in
    if ltb (b.capacity - length b.written) packet_size then none else some (m', b', (cc + 1) % 16)

abbrev pub section_sent : Mux → TsBurst → ℕ → Option (Mux × TsBurst × ℕ) → Mux × TsBurst × ℕ
section_sent m b cc none = (m, b, cc)
section_sent m b cc (some (m', b', cc')) =
    (record m' { psi_packets = inc64 m'.psi_packets }, b', cc')

unfoldable pub mux_section : Mux → TsBurst → ℕ → ℕ → List ℕ → Mux × TsBurst × ℕ
mux_section m b pid cc section =
    let part = take (payload_area - 1) section in
    let payload = 0 ∷ (part ++ fill (payload_area - 1 - length part)) in
    section_sent m b cc (mux_packet m b pid cc true false 0 payload)

-- Two bytes with a pid in their low 13 bits and ones above.
abbrev pub pid_bytes : ℕ → List ℕ
pid_bytes pid = (224 + pid / 256 % 32) ∷ (pid % 256) ∷ []

abbrev pub with_crc : List ℕ → List ℕ
with_crc s = s ++ crc_bytes (crc32 s)

unfoldable pub mux_pat : Mux → List ℕ
mux_pat m = with_crc (0 ∷ 176 ∷ 13 ∷ 0 ∷ 1 ∷ 193 ∷ 0 ∷ 0 ∷ 0 ∷ 1 ∷ pid_bytes m.conf.pmt_pid)

abbrev pub stream_entry : ℕ → ℕ → List ℕ
stream_entry kind pid = if kind == 0 then [] else (kind % 256) ∷ (pid_bytes pid ++ 240 ∷ 0 ∷ [])

unfoldable pub mux_pmt : Mux → List ℕ
mux_pmt m =
    let entries =
      stream_entry m.video_stream_type m.conf.video_pid
      ++ stream_entry m.audio_stream_type m.conf.audio_pid in
    let n = 9 + length entries + 4 in
    with_crc (
      2
      ∷ (176 + n / 256 % 16)
      ∷ (n % 256)
      ∷ 0
      ∷ 1
      ∷ 193
      ∷ 0
      ∷ 0
      ∷ (pid_bytes m.conf.pcr_pid ++ 240 ∷ 0 ∷ entries))

-- PAT and PMT at the start of a burst
unfoldable pub burst_psi : Mux → TsBurst → Mux × TsBurst
burst_psi m b =
    let (m1, b1, cc1) = mux_section m b 0 m.cc_pat (mux_pat m) in
    let m1' : Mux = record m1 { cc_pat = cc1 } in
    let (m2, b2, cc2) = mux_section m1' b1 m.conf.pmt_pid m1'.cc_pmt (mux_pmt m1') in
    if m.tracks_ready
    then (record m2 { cc_pmt = cc2 }, record b2 { psi_len = length b2.written })
    else (m, b)

abbrev pub burst_capacity : MuxConf → ℕ → ℕ
burst_capacity c asked =
    let n = if asked == 0 then c.default_burst_bytes else asked in
    if ltb c.max_burst_bytes n then c.max_burst_bytes else n

abbrev pub burst_start : Mux → ℕ → Option (Buf × Refs) → Option (Mux × TsBurst × Refs)
burst_start m capacity none = none
burst_start m capacity (some (buf, r)) =
    let b : TsBurst = record {
      backing = some buf;
      written = [];
      capacity = capacity;
      psi_len = 0;
      slices = [];
    } in
    let (m', b') = burst_psi (record m { bursts = inc64 m.bursts }) b in some (m', b', r)

-- None is NGX_ERROR; the burst is then zeroed, and the multiplexer as it was.
unfoldable pub burst_init : (ℕ → Option ℕ) → Mux → ℕ → Refs → Option (Mux × TsBurst × Refs)
burst_init mem m asked r =
    let capacity = burst_capacity m.conf asked in burst_start m capacity (buf_alloc mem capacity r)

abbrev pub no_burst : TsBurst
no_burst = record { backing = none; written = []; capacity = 0; psi_len = 0; slices = [] }

unfoldable pub burst_destroy : TsBurst → Refs → TsBurst × Refs
burst_destroy b r = (no_burst, buf_unref b.backing r)

unfoldable pub burst_size : TsBurst → ℕ
burst_size b = elim b.backing [ none ↦ 0 | some buf ↦ length b.written ]

abbrev pub frozen : Mux → TsBurst → Status × Buf → Status × Mux × TsBurst
frozen m b (ok, buf) =
    (ok, record m { bytes = add64 m.bytes (length b.written) }, record b { backing = some buf })
frozen m b (s, buf) = (error, m, b)

unfoldable pub burst_end : Mux → TsBurst → Status × Mux × TsBurst
burst_end m b = elim b.backing [
  | none ↦ (error, m, b)
  | some buf ↦ frozen m b (buf_freeze buf (length b.written))
]
