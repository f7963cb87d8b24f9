-- ===== src/Lib.antt =====
-- nginx-media: a verification library beside the NGINX media subsystem.
--
-- The program merges redundant sources of one stream into a single program and fans it out. A
-- source is judged by its health (health), held hot in a standby cache of one complete group of
-- pictures (source), and mapped to program time when it is active (timeline); how far its tracks
-- match the program's is a class of its own (compat); the stream switches between them and replays
-- the cache of the source that it switches to. Program frames go into a bounded ring with one
-- writer (feed), which consumers read with cursors of their own; payloads are shared by reference
-- count (buffer, frame). An SRT destination has a bounded queue of prepared bursts
-- (srt_output_queue), and a worker refuses replicated operations that a deletion has overtaken
-- (tombstone). The feed, the cache, the stream and the queue meet the payload counts as one
-- explicit store, which every operation takes and returns. A frame enters the program through the
-- MPEG-TS ingest queue (ts_ingest) and the demultiplexer (ts_demux), which reassembles tables and
-- access units from packets and reads the units of a picture (nal) and the headers of audio frames
-- (aac), and leaves through the multiplexer (ts_mux), which cuts it into the packets of a burst.
--
-- Files and code:
--   Base.antt, Base/      64-bit words with their wrap, Boolean tests, lists, integers, masks, and the
--                         power-of-two loop of src/core/ngx_media_feed.c and ngx_media_source.c
--   Ring.antt             an array, an index for each sequence number, and the list between them
--   Buffer.antt           src/core/ngx_media_buffer.c, src/core/ngx_media_frame.c
--   Feed.antt, Feed/      src/core/ngx_media_feed.c: init, publish (place, store), prune, evict, read
--                         (read_loop, deliver), resync, destroy, and the fan-out histogram
--   Timeline.antt, Timeline/    src/core/ngx_media_timeline.c: timeline_map (anchor, resync_clock)
--   Health.antt, Health/        src/core/ngx_media_health.c: evaluate (refresh, covers, decide), and the
--                               handlers transport, media, container, tracks
--   Tombstone.antt, Tombstone/  src/core/ngx_media_tombstone.c: add, has
--   Preroll.antt, Preroll/      src/core/ngx_media_source.c: the functions named preroll
--   Queue.antt, Queue/          src/srt/ngx_media_srt_output_queue.c: push (make_room, displace,
--                               enqueue), next, advance
--   Stream.antt, Stream/        src/core/ngx_media_stream.c: publish (publish_active, publish_standby),
--                               promote, switch_now (demote_old, activate, splice), switch_resolve,
--                               source_remove; and the leases and release of ngx_media_source.c
--   Compat.antt, Compat/        src/core/ngx_media_compat.c: classify (match_all, match_track)
--   Aac.antt, Aac/        src/codec/ngx_media_aac.c: adts_parse, adts_write, audio_specific_config
--   Nal.antt, Nal/        src/codec/ngx_media_nal.c: iter_next (next_loop, pass) and the unit kinds
--   Ts.antt, Ts/Time.antt    the 33-bit times of a PES header: put_ts and pes_ts
--   Ts/Crc.antt           src/mpegts/ngx_media_ts_crc.c
--   Ts/Demux.antt, Ts/Demux/    src/mpegts/ngx_media_ts_demux.c: state and init; Assembly (au_append,
--                               emit), Flush (au_flush, audio_flush, flush), Section (the tables),
--                               Packet (process_packet, pes_start), Feed (feed with its tail)
--   Ts/Ingest.antt, Ts/Ingest/  src/mpegts/ngx_media_ts_ingest.c: init, write, read, release, pending,
--                               destroy
--   Ts/Mux.antt, Ts/Mux/        src/mpegts/ngx_media_ts_mux.c: state, init, set_tracks, packets, tables
--                               and the burst; Send (write_frame); Parse, Packets and Write say what is
--                               written, Receiver, Header, Received and Arrival how it is read back
-- In each component the module of its name holds the state and the operations, and its children
-- hold the proofs, named for what they prove; Tests holds runs on small inputs.
--
-- How the code is rendered. A pointer to a structure that the code tests for NULL is present,
-- since the models pass values; a pointer inside a structure is an Option, and an allocated array
-- is a function of the index with a flag. Unsigned 64-bit arithmetic wraps, and so does a
-- difference of two times. Signed timestamps are integers, with a theorem that bounds them. Bit
-- masks and bit fields are records of Booleans. The allocator is a parameter: an operation that
-- allocates takes what it answers, and the demultiplexer a test of the size. The calls of the
-- demultiplexer's sink are a list of events, the contents of a payload that the multiplexer reads
-- are a function of the buffer, and byte strings are lists of numbers, so that cutting and joining
-- them is the work of list functions. Structure sizes are those of an LP64 platform. A source
-- pointer is a number in the store of the stream, so that two operations on one source see the
-- same source. An atomic operation is one step, and the wake-up of the runtime is left out.
--
-- Loops. The loops that evict, release, read or search run on fuel that is the distance between
-- two sequence numbers, at most the number of retained units, and each round moves one of them by
-- one; the theorems are about the calls with that fuel. A read of the ingest queue has one round
-- for each chunk that its caller has room for. The power-of-two loop passes bit 63 within 64
-- rounds, where its guard returns. The histogram's loops have 16 buckets. The iterator over units
-- has one round for each byte and one more, and a theorem says that it ends with a unit or with
-- none; the loops of the demultiplexer have one round for each byte that they are given, of which
-- each round takes at least one; the loop over a frame's packets has one round for each byte of
-- the frame and its header, and a packet takes at least one.
--
-- Not modelled: the creation and retirement of streams and sources, the selector, the runtime, the
-- API, the graph and its replication, the protocol modules (RTMP, SRT, HLS), recording, and the
-- key and track functions of ngx_media_source.c. The glue to NGINX, sockets and files is input and
-- output and has no model here.
pub mod Base
pub mod Buffer
pub mod Ring
pub mod Feed
pub mod Timeline
pub mod Health
pub mod Tombstone
pub mod Preroll
pub mod Queue
pub mod Stream
pub mod Compat
pub mod Aac
pub mod Nal
pub mod Ts
