-- ===== src/Ts/Demux/Packet.antt =====
-- src/mpegts/ngx_media_ts_demux.c: one packet of 188 bytes, and the start of a PES.
use nginx_media.Base.{
  ℕ, ◌+◌, ◌-◌, ◌*◌, ◌/◌, ◌%◌, ◌^◌, min, Bool, true, false, not, ◌&&◌, ◌||◌, Option, none, some,
  List, [], ◌∷◌, length, take, drop, get_or, ltb, leb, ◌==◌, ◌/=◌, if◌then◌else◌, inc64,
}
use nginx_media.Ts.{pid_null, pes_ts}
use nginx_media.Ts.Demux.{Es, Core, pes_error, transport_error}
use nginx_media.Ts.Demux.Assembly.{au_append}
use nginx_media.Ts.Demux.Flush.{au_flush, put_back}
use nginx_media.Ts.Demux.Section.{Which, of_pat, of_pmt, psi_of, set_psi, psi_feed}

-- Whether the counter is declined, when the track's is valid.
unfoldable pub cc_declined : ℕ → Bool → ℕ → Bool → Bool
cc_declined cc valid new_cc has_payload = valid && (has_payload && (new_cc /= (cc + 1) % 16))

-- The bytes that a PES header announces for the payload.
abbrev pub announced : List ℕ → ℕ
announced p = get_or p 4 0 * 256 + get_or p 5 0

-- The payload of a PES whose header was read: `off` bytes are the header.
unfoldable pub pes_payload : (ℕ → Bool) → ℕ → Core → Es → List ℕ → Core × Es
pes_payload mem i d t p =
    let off = 9 + get_or p 8 0 in
    let body = drop off p in
    let bound = announced p - 3 - get_or p 8 0 in
    let append = min (length body) bound in
    let (d', t') =
      au_append mem d (record t { pes_remaining = bound - append }) (take append body) in
    if announced p == 0
    then au_append mem d t body
    else if ltb (announced p) (3 + get_or p 8 0)
    then (pes_error d, t)
    else if t'.pes_remaining == 0
    then au_flush mem i d' t'
    else (d', t')

-- `flags & 0x80` and `(flags & 0xC0) == 0xC0`
abbrev pub pts_flag : List ℕ → Bool
pts_flag p = get_or p 7 0 / 128 % 2 == 1

abbrev pub dts_flag : List ℕ → Bool
dts_flag p = get_or p 7 0 / 64 % 4 == 3

abbrev pub no_pes : List ℕ → Bool
no_pes p =
    ltb (length p) 9
    || (get_or p 0 0 /= 0
        || (get_or p 1 0 /= 0 || (get_or p 2 0 /= 1 || (get_or p 6 0 / 64 % 4 /= 2))))

abbrev pub fresh : Es → Es
fresh t = record t { has_pts = false; has_dts = false; pes_remaining = 0 }

abbrev pub with_pts : Es → List ℕ → Es
with_pts t p = if pts_flag p then record t { pts = pes_ts p 9; has_pts = true } else t

abbrev pub with_dts : Es → List ℕ → Es
with_dts t p = if dts_flag p then record t { dts = pes_ts p 14; has_dts = true } else t

unfoldable pub pes_start : (ℕ → Bool) → ℕ → Core → Es → List ℕ → Core × Es
pes_start mem i d t p =
    if no_pes p
    then (pes_error d, fresh t)
    else if ltb (length p) (9 + get_or p 8 0)
    then (pes_error d, fresh t)
    else if pts_flag p && ltb (length p) 14
    then (pes_error d, fresh t)
    else if dts_flag p && ltb (length p) 19
    then (pes_error d, with_pts (fresh t) p)
    else pes_payload mem i d (with_dts (with_pts (fresh t) p) p) p

-- What a packet's header and adaptation field say.
pub record Parsed : Type 0 where
  pub pid : ℕ
  pub pusi : Bool
  pub cc : ℕ
  pub has_payload : Bool
  pub discontinuity : Bool
  pub pcr : Option ℕ
  pub payload : List ℕ

pub data Verdict : Type 0 where
  bad_packet : Verdict
  null_packet : Verdict
  good_packet : Parsed → Verdict

abbrev pub packet_pid : List ℕ → ℕ
packet_pid p = get_or p 1 0 % 32 * 256 + get_or p 2 0

abbrev pub packet_afc : List ℕ → ℕ
packet_afc p = get_or p 3 0 / 16 % 4

-- The PCR base, when the adaptation field holds one.
abbrev pub packet_pcr : List ℕ → Option ℕ
packet_pcr p =
    if ltb 0 (get_or p 4 0) && (get_or p 5 0 / 16 % 2 == 1 && leb 7 (get_or p 4 0))
    then some (
        get_or p 6 0 * 2 ^ 25
        + get_or p 7 0 * 2 ^ 17
        + get_or p 8 0 * 2 ^ 9
        + get_or p 9 0 * 2
        + get_or p 10 0 / 128)
    else none

abbrev pub parsed : List ℕ → Bool → Option ℕ → Bool → List ℕ → Parsed
parsed p discontinuity pcr has_payload payload = record {
  pid = packet_pid p;
  pusi = get_or p 1 0 / 64 % 2 == 1;
  cc = get_or p 3 0 % 16;
  has_payload = has_payload;
  discontinuity = discontinuity;
  pcr = pcr;
  payload = if has_payload then payload else [];
}

unfoldable pub parse_packet : List ℕ → Verdict
parse_packet p =
    let afc = packet_afc p in
    let af_len = get_or p 4 0 in
    let has_payload = afc % 2 == 1 in
    if get_or p 1 0 / 128 % 2 == 1
    then bad_packet
    else if packet_pid p == pid_null
    then null_packet
    else if get_or p 3 0 / 64 % 4 /= 0
    then bad_packet
    else if afc == 0
    then bad_packet
    else if afc / 2 % 2 == 0
    then good_packet (parsed p false none has_payload (drop 4 p))
    else if ltb 183 af_len
    then bad_packet
    else good_packet (
        parsed p (ltb 0 af_len && (get_or p 5 0 / 128 % 2 == 1)) (packet_pcr p) has_payload
          (drop (5 + af_len) p))

abbrev pub continuity_error : Bool → Core → Core
continuity_error declined d =
    if declined
    then record d { stats = record d.stats { continuity_errors = inc64 d.stats.continuity_errors } }
    else d

abbrev pub see_pcr : Option ℕ → Core → Core
see_pcr none d = d
see_pcr (some base) d = record d { stats = record d.stats { last_pcr = base; has_pcr = true } }

-- A packet with a table.
unfoldable pub psi_packet : (ℕ → Bool) → Which → Core → Parsed → Core
psi_packet mem w d x =
    let psi = psi_of w d in
    let d' =
      continuity_error (cc_declined psi.cc psi.cc_valid x.cc x.has_payload)
        (set_psi w d (record psi { cc = x.cc; cc_valid = true })) in
    if x.has_payload then psi_feed mem w d' x.pusi x.payload else d'

-- More of an access unit, up to the end of a PES of a known length.
unfoldable pub pes_more : (ℕ → Bool) → ℕ → Core → Es → List ℕ → Core × Es
pes_more mem i d t p =
    let append = if t.pes_remaining == 0 then length p else min (length p) t.pes_remaining in
    let (d', t') = au_append mem d t (take append p) in
    let t'' : Es = record t' { pes_remaining = t.pes_remaining - append } in
    if t.pes_remaining == 0
    then (d', t')
    else if t''.pes_remaining == 0
    then au_flush mem i d' t''
    else (d', t'')

abbrev pub pes_first : (ℕ → Bool) → ℕ → List ℕ → Core × Es → Core × Es
pes_first mem i p (d, t) = pes_start mem i d t p

-- A packet of a track.
unfoldable pub track_packet : (ℕ → Bool) → ℕ → Core → Es → Parsed → Core × Es
track_packet mem i d t x =
    let declined = cc_declined t.cc t.cc_valid x.cc x.has_payload && not x.discontinuity in
    let d' = continuity_error declined d in
    let t' : Es = record t { cc = x.cc; cc_valid = true } in
    if not x.has_payload
    then (d', t')
    else if x.pusi
    then pes_first mem i x.payload (au_flush mem i d' t')
    else if ltb 0 (length t.au) || (t.au_overflow || ltb 0 t.pes_remaining)
    then pes_more mem i d' t' x.payload
    else (d', t')

-- ngx_media_ts_track_by_pid: the first track of the pid, with its place counted from `i`
unfoldable pub track_by_pid : ℕ → ℕ → List Es → Option (ℕ × Es)
track_by_pid pid i [] = none
track_by_pid pid i (t ∷ ts) =
    let rest = track_by_pid pid (i + 1) ts in if t.pid == pid then some (i, t) else rest

abbrev pub on_track : (ℕ → Bool) → Core → Parsed → Option (ℕ × Es) → Core
on_track mem d x none = d
on_track mem d x (some (i, t)) = put_back i (track_packet mem i d t x)

unfoldable pub dispatch : (ℕ → Bool) → Core → Parsed → Core
dispatch mem d x =
    if x.pid == 0
    then psi_packet mem of_pat d x
    else if d.pat_valid && (x.pid == d.pmt_pid)
    then psi_packet mem of_pmt d x
    else on_track mem d x (track_by_pid x.pid 0 d.tracks)

abbrev pub count_packet : Core → Core
count_packet d = record d { stats = record d.stats { packets = inc64 d.stats.packets } }

abbrev pub act_on : (ℕ → Bool) → Core → Verdict → Core
act_on mem d bad_packet = transport_error d
act_on mem d null_packet = d
act_on mem d (good_packet x) = dispatch mem (see_pcr x.pcr d) x

unfoldable pub process_packet : (ℕ → Bool) → Core → List ℕ → Core
process_packet mem d p = act_on mem (count_packet d) (parse_packet p)
