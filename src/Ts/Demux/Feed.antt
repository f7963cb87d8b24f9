-- ===== src/Ts/Demux/Feed.antt =====
-- src/mpegts/ngx_media_ts_demux.c: the cut of a byte stream into packets.
--
-- The search for a sync byte is structural recursion; the loop over the packets is on fuel, for
-- which the number of bytes is enough, since each pass takes in at least one.
use nginx_media.Base.{
  ℕ, zero, suc, ◌-◌, Bool, ◌&&◌, ◌||◌, List, [], ◌∷◌, ◌++◌, length, take, drop, get_or, ltb, leb,
  ◌==◌, if◌then◌else◌, inc64, add64,
}
use nginx_media.Ts.{packet_size, sync_byte}
use nginx_media.Ts.Demux.{Demux}
use nginx_media.Ts.Demux.Flush.{demux_flush}
use nginx_media.Ts.Demux.Packet.{process_packet}

-- How many bytes stand before a sync byte that is 188 bytes away from the next one.
unfoldable pub resync_skip : List ℕ → ℕ
resync_skip [] = 0
resync_skip (b ∷ p) =
    let rest = resync_skip p in
    if b == sync_byte
      && (leb (length (b ∷ p)) packet_size || (get_or (b ∷ p) packet_size 0 == sync_byte))
    then 0
    else suc rest

abbrev pub skip_bytes : Demux → ℕ → Demux
skip_bytes d n = record d {
  sync_errors = inc64 d.sync_errors;
  skipped_bytes = add64 d.skipped_bytes n;
}

abbrev pub process : (ℕ → Bool) → Demux → List ℕ → Demux
process mem d p = record d { core = process_packet mem d.core p }

unfoldable pub feed_loop : (ℕ → Bool) → ℕ → Demux → List ℕ → Demux
feed_loop mem zero d p = record d { tail = p }
feed_loop mem (suc fuel) d p =
    let skip = suc (resync_skip (drop 1 p)) in
    let resynced = feed_loop mem fuel (skip_bytes d skip) (drop skip p) in
    let next = feed_loop mem fuel (process mem d (take packet_size p)) (drop packet_size p) in
    if ltb (length p) packet_size
    then record d { tail = p }
    else if get_or p 0 0 == sync_byte
    then next
    else resynced

-- The packet that the tail has become.
abbrev pub tail_packet : (ℕ → Bool) → Demux → List ℕ → Demux
tail_packet mem d p =
    if get_or p 0 0 == sync_byte
    then record (process mem d p) { tail = [] }
    else record d { sync_errors = inc64 d.sync_errors; tail = [] }

unfoldable pub demux_feed : (ℕ → Bool) → Demux → List ℕ → Demux
demux_feed mem d p =
    let d' : Demux = record d { bytes = add64 d.bytes (length p) } in
    let need = packet_size - length d.tail in
    let tail = d.tail ++ take need p in
    if length d.tail == 0
    then feed_loop mem (length p) d' p
    else if ltb (length tail) packet_size
    then record d' { tail = tail }
    else feed_loop mem (length p) (tail_packet mem d' tail) (drop need p)

-- What a client calls, and the calls in turn.
pub data Call : Type 0 where
  feed : List ℕ → Call
  flush : Call

abbrev pub do_call : (ℕ → Bool) → Demux → Call → Demux
do_call mem d (feed p) = demux_feed mem d p
do_call mem d flush = record d { core = demux_flush mem d.core }

unfoldable pub run : (ℕ → Bool) → Demux → List Call → Demux
run mem d [] = d
run mem d (c ∷ cs) = run mem (do_call mem d c) cs

unfoldable pub feed_all : (ℕ → Bool) → Demux → List (List ℕ) → Demux
feed_all mem d [] = d
feed_all mem d (p ∷ ps) = feed_all mem (demux_feed mem d p) ps

unfoldable pub join : List (List ℕ) → List ℕ
join [] = []
join (p ∷ ps) = p ++ join ps
