-- ===== src/Ts/Demux.antt =====
-- src/mpegts/ngx_media_ts_demux.c: the demultiplexer's state.
--
-- An array and its length are a list: the access unit in assembly, the section in assembly (its
-- first `len` bytes), the tail of a packet. The tracks are the list of the first `ntracks`; a track
-- is named by its index. `Core` is what the processing of a packet reads and writes, and `Demux`
-- adds the fields that only `ngx_media_ts_demux_feed` touches. The two callbacks of the sink are
-- present, and their calls are listed in `out`, oldest first, with the bytes of each frame. `mem`
-- is whether ngx_alloc succeeds for that many bytes. The counts of the configuration's references
-- are not kept. Timestamps are not negative.
pub mod Assembly
pub mod Flush
pub mod Section
pub mod Packet
pub mod Feed
pub mod Valid
pub mod Chunks
mod Tests
use nginx_media.Base.{
  ℕ, ◌+◌, ◌*◌, ◌<◌, ◌^◌, Bool, true, false, ◌&&◌, Option, none, some, List, [], ◌∷◌, ◌++◌, length,
  ltb, leb, ◌==◌, if◌then◌else◌, inc64,
}
use nginx_media.Compat.{Track}
use nginx_media.Ts.{pid_null}

-- A track of a track set, with its codec configuration.
pub record Descriptor : Type 0 where
  pub track : Track
  pub config : Option (List ℕ)

pub record Emitted : Type 0 where
  pub media_type : ℕ
  pub codec : ℕ
  pub payload_format : ℕ
  pub track_index : ℕ
  pub pts : ℕ
  pub dts : ℕ
  pub keyframe : Bool
  pub config : Bool
  pub payload : List ℕ

pub data TsEvent : Type 0 where
  on_tracks : List Descriptor → TsEvent
  on_frame : Emitted → TsEvent

-- ngx_media_ts_track_t
pub record Es : Type 0 where
  pub pid : ℕ
  pub stream_type : ℕ
  pub codec : ℕ
  pub track_index : ℕ
  pub cc : ℕ
  pub cc_valid : Bool
  pub au : List ℕ
  pub au_cap : ℕ
  pub au_overflow : Bool
  pub pts : ℕ
  pub dts : ℕ
  pub has_pts : Bool
  pub has_dts : Bool
  pub last_pts : ℕ
  pub pes_remaining : ℕ
  pub config : Option (List ℕ)
  pub descriptor : Descriptor

pub record Psi : Type 0 where
  pub pid : ℕ
  pub buf : List ℕ
  pub expected : ℕ
  pub cc : ℕ
  pub cc_valid : Bool
  pub assembling : Bool

pub record Stats : Type 0 where
  pub packets : ℕ
  pub frames_out : ℕ
  pub config_frames_out : ℕ
  pub transport_errors : ℕ
  pub continuity_errors : ℕ
  pub psi_errors : ℕ
  pub crc_errors : ℕ
  pub pes_errors : ℕ
  pub au_overflows : ℕ
  pub unsupported_streams : ℕ
  pub last_pcr : ℕ
  pub has_pcr : Bool

pub record Core : Type 0 where
  pub max_tracks : ℕ
  pub max_au_bytes : ℕ
  pub tracks : List Es
  pub trackset : List Descriptor
  pub tracks_ready : Bool
  pub pat : Psi
  pub pmt : Psi
  pub pmt_pid : ℕ
  pub pat_valid : Bool
  pub pmt_valid : Bool
  pub pcr_pid : ℕ
  pub stats : Stats
  pub out : List TsEvent

pub record Demux : Type 0 where
  pub core : Core
  pub tail : List ℕ
  pub bytes : ℕ
  pub sync_errors : ℕ
  pub skipped_bytes : ℕ

-- A zeroed section assembly.
abbrev pub psi_init : ℕ → Psi
psi_init pid = record {
  pid = pid;
  buf = [];
  expected = 0;
  cc = 0;
  cc_valid = false;
  assembling = false;
}

abbrev pub stats_init : Stats
stats_init = record {
  packets = 0;
  frames_out = 0;
  config_frames_out = 0;
  transport_errors = 0;
  continuity_errors = 0;
  psi_errors = 0;
  crc_errors = 0;
  pes_errors = 0;
  au_overflows = 0;
  unsupported_streams = 0;
  last_pcr = 0;
  has_pcr = false;
}

-- sizeof(ngx_media_ts_track_t) and sizeof(ngx_media_track_t) on an LP64 platform
abbrev pub es_size : ℕ
es_size = 240

abbrev pub track_size : ℕ
track_size = 96

-- `conf` is (max_tracks, max_au_bytes).
abbrev pub conf_tracks : Option (ℕ × ℕ) → ℕ
conf_tracks none = 8
conf_tracks (some (tracks, au)) = if tracks == 0 then 8 else tracks

abbrev pub conf_au_bytes : Option (ℕ × ℕ) → ℕ
conf_au_bytes none = 4 * 1024 * 1024
conf_au_bytes (some (tracks, au)) = if au == 0 then 4 * 1024 * 1024 else au

unfoldable pub demux_init : (ℕ → Bool) → Option (ℕ × ℕ) → Option Demux
demux_init mem conf =
    let bytes = conf_tracks conf * es_size in
    let core : Core = record {
      max_tracks = conf_tracks conf;
      max_au_bytes = conf_au_bytes conf;
      tracks = [];
      trackset = [];
      tracks_ready = false;
      pat = psi_init 0;
      pmt = psi_init pid_null;
      pmt_pid = 0;
      pat_valid = false;
      pmt_valid = false;
      pcr_pid = 0;
      stats = stats_init;
      out = [];
    } in
    if leb (2 ^ 64) bytes
    then none
    else if mem bytes
    then some (record { core = core; tail = []; bytes = 0; sync_errors = 0; skipped_bytes = 0 })
    else none

-- `stats.pes_errors++` and its like
abbrev pub pes_error : Core → Core
pes_error d = record d { stats = record d.stats { pes_errors = inc64 d.stats.pes_errors } }

abbrev pub psi_error : Core → Core
psi_error d = record d { stats = record d.stats { psi_errors = inc64 d.stats.psi_errors } }

abbrev pub count_overflow : Core → Core
count_overflow d = record d { stats = record d.stats { au_overflows = inc64 d.stats.au_overflows } }

abbrev pub transport_error : Core → Core
transport_error d = record d {
  stats = record d.stats { transport_errors = inc64 d.stats.transport_errors };
}

abbrev pub emit_event : TsEvent → Core → Core
emit_event e d = record d { out = d.out ++ e ∷ [] }
