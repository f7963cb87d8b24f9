-- ===== src/Ts/Demux/Tests.antt =====
-- A demultiplexer that is fed two null packets, in pieces, and bytes of no packet.
use nginx_media.Base.{
  ℕ, zero, suc, Bool, true, false, ◌≡◌, refl, none, some, List, [], ◌∷◌, ◌++◌, take, drop, arith,
}
use nginx_media.Ts.{pid_null}
use nginx_media.Ts.Demux.{Demux, demux_init, psi_init, stats_init}
use nginx_media.Ts.Demux.Feed.{Call, feed, flush, run, demux_feed, feed_all, join}
use nginx_media.Ts.Demux.Valid.Packets.{DemuxValid, run-Valid}
use nginx_media.Ts.Demux.Chunks.{Aligned, feed_all-join}

abbrev mem : ℕ → Bool
mem n = true

abbrev start : Demux
start = record {
  core = record {
    max_tracks = 8;
    max_au_bytes = 4194304;
    tracks = [];
    trackset = [];
    tracks_ready = false;
    pat = psi_init 0;
    pmt = psi_init pid_null;
    pmt_pid = 0;
    pat_valid = false;
    pmt_valid = false;
    pcr_pid = 0;
    stats = stats_init;
    out = [];
  };
  tail = [];
  bytes = 0;
  sync_errors = 0;
  skipped_bytes = 0;
}

started : demux_init mem none ≡ some start
unfolding demux_init
started = refl

abbrev zeros : ℕ → List ℕ
zeros zero = []
zeros (suc n) = 0 ∷ zeros n

abbrev null_packet : List ℕ
null_packet = 71 ∷ 31 ∷ 255 ∷ 16 ∷ zeros 184

abbrev calls : List Call
calls = feed (take 100 null_packet) ∷ feed (drop 100 null_packet) ∷ feed (1 ∷ 2 ∷ []) ∷ flush ∷ []

run-Valid_example : DemuxValid mem 4194304 8 (run mem start calls)
run-Valid_example = run-Valid mem none start calls started

abbrev first_piece : List ℕ
first_piece = null_packet ++ 71 ∷ []

abbrev second_piece : List ℕ
second_piece = 31 ∷ 255 ∷ 16 ∷ zeros 184

two_packets-Aligned : Aligned (join (first_piece ∷ second_piece ∷ []))
unfolding Aligned join
two_packets-Aligned zero h = refl
two_packets-Aligned (suc zero) h = refl
two_packets-Aligned (suc (suc k)) h = absurd (omega (arith, h))

feed_all-join_example :
    feed_all mem start (first_piece ∷ second_piece ∷ [])
    ≡ demux_feed mem start (join (first_piece ∷ second_piece ∷ []))
feed_all-join_example =
    feed_all-join mem start first_piece (second_piece ∷ []) two_packets-Aligned (omega arith)
