-- ===== src/Ts/Mux/Tests.antt =====
-- A key picture of four bytes, written to an empty burst for ten packets.
use nginx_media.Base.{drop, Status, ℕ, true, false, ◌≡◌, refl, some, List, [], ◌∷◌, ◌++◌, arith, ok}
use nginx_media.Base.Int.{pos}
use nginx_media.Buffer.{Buf, Frame, media_video}
use nginx_media.Ts.{crc32, crc_loop, crc_bits, crc_bit, crc_bytes}
use nginx_media.Ts.Crc.{crc32_zero}
use nginx_media.Ts.Demux.{Es, Demux, psi_init, stats_init}
use nginx_media.Ts.Demux.Section.{es_init, codec_of}
use nginx_media.Ts.Demux.Packet.{track_by_pid}
use nginx_media.Ts.Demux.Feed.{demux_feed}
use nginx_media.Ts.Mux.Received.{Arrived}
use nginx_media.Ts.Mux.Arrival.{Listening, demux_feed-write_frame}
use nginx_media.Ts.Mux.{unsigned, Mux, TsBurst, conf_default}
use nginx_media.Ts.Mux.Send.{write_frame}
use nginx_media.Ts.Mux.Write.{MuxValid, Open, write_frame_ok}

abbrev mux : Mux
mux = record {
  conf = conf_default;
  cc_pat = 1;
  cc_pmt = 1;
  cc_video = 15;
  cc_audio = 0;
  video_stream_type = 27;
  audio_stream_type = 0;
  tracks_ready = true;
  bursts = 1;
  packets = 2;
  bytes = 0;
  psi_packets = 2;
  pcr_packets = 0;
  frame_bytes = 0;
  frame_drops = 0;
}

abbrev burst : TsBurst
burst = record {
  backing = some (record { id = 1; len = 0; capacity = 1880 });
  written = [];
  capacity = 1880;
  psi_len = 0;
  slices = [];
}

abbrev picture : Buf
picture = record { id = 2; len = 4; capacity = 4 }

abbrev frame : Frame
frame = record {
  media_type = media_video;
  codec = 1;
  payload_format = 1;
  track_index = 0;
  pts = pos 8589934595;
  dts = pos 8589934592;
  keyframe = true;
  config = false;
  payload = some picture;
}

abbrev contents : Buf → List ℕ
contents buf = 0 ∷ 0 ∷ 1 ∷ 101 ∷ []

mux-MuxValid : MuxValid mux
mux-MuxValid = record {
  video_pid = omega arith;
  audio_pid = omega arith;
  cc_video = omega arith;
  cc_audio = omega arith;
}

burst_Open : Open mux burst
burst_Open = record { ready = refl; backed = refl; slice = omega arith; room = omega arith }

write_frame_ok_example : (write_frame contents mux burst frame true).0 ≡ ok
write_frame_ok_example =
    write_frame_ok contents mux burst frame true picture mux-MuxValid burst_Open refl (omega arith)

-- The section of a program association table, without its checksum.
abbrev section : List ℕ
section = 0 ∷ 176 ∷ 13 ∷ 0 ∷ 1 ∷ 193 ∷ 0 ∷ 0 ∷ 0 ∷ 1 ∷ 240 ∷ 0 ∷ []

section_crc : crc32 section ≡ 716244146
unfolding crc32 crc_loop crc_bits crc_bit
section_crc = refl

crc32_zero_example : crc32 (section ++ crc_bytes (crc32 section)) ≡ 0
crc32_zero_example = crc32_zero section

-- A demultiplexer that has read the tables, and its track of pictures.
abbrev pictures : Es
pictures = record (es_init 0 (4113, 27)) { cc = 14; cc_valid = true }

abbrev listener : Demux
listener = record {
  core = record {
    max_tracks = 8;
    max_au_bytes = 4194304;
    tracks = pictures ∷ [];
    trackset = [];
    tracks_ready = true;
    pat = psi_init 0;
    pmt = psi_init 4096;
    pmt_pid = 4096;
    pat_valid = true;
    pmt_valid = true;
    pcr_pid = 4113;
    stats = stats_init;
    out = [];
  };
  tail = [];
  bytes = 376;
  sync_errors = 0;
  skipped_bytes = 0;
}

listener_listens : Listening listener 4113 0 pictures
unfolding track_by_pid es_init codec_of
listener_listens = record {
  no_tail = refl;
  no_table = λ h. ground (arith, h);
  no_pmt = refl;
  found = refl;
  no_unit = refl;
}

abbrev result : Status × Mux × TsBurst
result = write_frame contents mux burst frame true

demux_feed-write_frame_example :
    Arrived 4113
      (demux_feed (λ n. true) listener (drop 0 result.2.written)).core
      0
      (unsigned frame.pts)
      (unsigned frame.dts)
      (contents picture)
demux_feed-write_frame_example =
    demux_feed-write_frame (λ n. true) (λ n. refl) contents mux burst frame true picture result.1
      result.2 mux-MuxValid burst_Open refl refl
      (λ i. (write_frame_ok_example i, result.1, result.2)) listener 0 pictures listener_listens
      (omega arith) (omega arith)
