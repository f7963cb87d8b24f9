-- ===== src/Ts.antt =====
-- src/mpegts: what the multiplexer and the demultiplexer share, and src/mpegts/ngx_media_ts_crc.c.
--
-- A buffer is the list of its bytes; shifts and masks are products, quotients and remainders by
-- powers of two, and an or of fields that do not overlap is a sum. A cast to u_char is `% 256`.
pub mod Time
pub mod Crc
pub mod Demux
pub mod Mux
pub mod Ingest
use nginx_media.Base.{
  ℕ, zero, suc, ◌+◌, ◌*◌, ◌/◌, ◌%◌, ◌^◌, bit_xor, Bool, true, false, List, [], ◌∷◌, get_or, ◌==◌,
  if◌then◌else◌,
}

abbrev pub packet_size : ℕ
packet_size = 188

-- NGX_MEDIA_TS_PAYLOAD
abbrev pub payload_area : ℕ
payload_area = 184

-- NGX_MEDIA_TS_SYNC_BYTE
abbrev pub sync_byte : ℕ
sync_byte = 71

-- NGX_MEDIA_TS_PID_NULL
abbrev pub pid_null : ℕ
pid_null = 8191

-- NGX_MEDIA_CODEC_*, and the ITU-T stream types that carry them
abbrev pub codec_none : ℕ
codec_none = 0

abbrev pub codec_h264 : ℕ
codec_h264 = 1

abbrev pub codec_h265 : ℕ
codec_h265 = 2

abbrev pub codec_aac : ℕ
codec_aac = 3

abbrev pub stream_h264 : ℕ
stream_h264 = 27

abbrev pub stream_h265 : ℕ
stream_h265 = 36

abbrev pub stream_aac_adts : ℕ
stream_aac_adts = 15

-- The five bytes of a timestamp, of which 33 bits are kept.
unfoldable pub put_ts : ℕ → ℕ → List ℕ
put_ts prefix v =
    (prefix % 16 * 16 + v / 2 ^ 30 % 8 * 2 + 1)
    ∷ (v / 2 ^ 22 % 256)
    ∷ (v / 2 ^ 15 % 128 * 2 + 1)
    ∷ (v / 2 ^ 7 % 256)
    ∷ (v % 128 * 2 + 1)
    ∷ []

-- The timestamp whose first byte stands at `at`.
unfoldable pub pes_ts : List ℕ → ℕ → ℕ
pes_ts p at =
    get_or p at 0 / 2 % 8 * 2 ^ 30
    + get_or p (at + 1) 0 * 2 ^ 22
    + get_or p (at + 2) 0 / 2 % 128 * 2 ^ 15
    + get_or p (at + 3) 0 * 2 ^ 7
    + get_or p (at + 4) 0 / 2

unfoldable pub crc_bit : ℕ → ℕ
crc_bit crc =
    if crc / 2 ^ 31 % 2 == 1 then bit_xor (crc * 2 % 2 ^ 32) 79764919 else crc * 2 % 2 ^ 32

unfoldable pub crc_bits : ℕ → ℕ → ℕ
crc_bits zero crc = crc
crc_bits (suc n) crc = crc_bits n (crc_bit crc)

unfoldable pub crc_loop : List ℕ → ℕ → ℕ
crc_loop [] crc = crc
crc_loop (b ∷ p) crc = crc_loop p (crc_bits 8 (bit_xor crc (b * 2 ^ 24 % 2 ^ 32)))

unfoldable pub crc32 : List ℕ → ℕ
crc32 p = crc_loop p 4294967295

-- The checksum as a section carries it.
abbrev pub crc_bytes : ℕ → List ℕ
crc_bytes crc = (crc / 2 ^ 24 % 256) ∷ (crc / 2 ^ 16 % 256) ∷ (crc / 2 ^ 8 % 256) ∷ (crc % 256) ∷ []
