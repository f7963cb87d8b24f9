-- ===== src/Aac.antt =====
-- src/codec/ngx_media_aac.c: ADTS headers and the AudioSpecificConfig.
--
-- A buffer is the list of its bytes. A shift is a product or a quotient by a power of two, a mask of
-- low bits a remainder, and an or of fields that do not overlap a sum. An answer of NGX_ERROR is
-- `none`; what the code has written to its results by then is not read. Pointers are present.
pub mod RoundTrip
mod Tests
use nginx_media.Base.{
  ℕ, suc, ◌+◌, ◌-◌, ◌*◌, ◌/◌, ◌%◌, Bool, ◌||◌, Option, none, some, List, [], ◌∷◌, length, get_or,
  ltb, leb, ◌==◌, ◌/=◌, if◌then◌else◌,
}

pub record Adts : Type 0 where
  -- of the whole frame, header included
  pub frame_len : ℕ
  pub header_len : ℕ
  pub object_type : ℕ
  pub sample_rate : ℕ
  pub channels : ℕ

abbrev pub sample_rates : List ℕ
sample_rates =
    96000 ∷ 88200 ∷ 64000 ∷ 48000 ∷ 44100 ∷ 32000 ∷ 24000 ∷ 22050 ∷ 16000 ∷ 12000 ∷ 11025 ∷ 8000
    ∷ 7350 ∷ []

-- NGX_MEDIA_ADTS_HEADER_MIN
abbrev pub header_min : ℕ
header_min = 7

-- The fields of a header whose tests have passed so far.
abbrev pub fields : List ℕ → Adts
fields p = record {
  frame_len = get_or p 3 0 % 4 * 2048 + get_or p 4 0 * 8 + get_or p 5 0 / 32 % 8;
  header_len = if get_or p 1 0 % 2 == 0 then 9 else 7;
  object_type = get_or p 2 0 / 64 % 4 + 1;
  sample_rate = get_or sample_rates (get_or p 2 0 / 4 % 16) 0;
  channels = get_or p 2 0 % 2 * 4 + get_or p 3 0 / 64 % 4;
}

-- `p[0] != 0xFF || (p[1] & 0xF0) != 0xF0`
abbrev pub no_sync : List ℕ → Bool
no_sync p = get_or p 0 0 /= 255 || (get_or p 1 0 / 16 % 16 /= 15)

unfoldable pub adts_parse : List ℕ → Option Adts
adts_parse p =
    if ltb (length p) header_min
    then none
    else if no_sync p
    then none
    else if ltb (length p) (fields p).header_len
    then none
    else if leb (length sample_rates) (get_or p 2 0 / 4 % 16)
    then none
    else if (fields p).channels == 0
    then none
    else if ltb (fields p).frame_len (fields p).header_len
    then none
    else some (fields p)

-- The search for a sample rate: its index, counted from `i`, or none.
unfoldable pub rate_index : List ℕ → ℕ → ℕ → Option ℕ
rate_index [] i rate = none
rate_index (r ∷ rs) i rate =
    let rest = rate_index rs (i + 1) rate in if r == rate then some i else rest

-- `room` is the room in the caller's buffer; the two bytes are the result.
unfoldable pub audio_specific_config : Adts → ℕ → Option (List ℕ)
audio_specific_config a room =
    if ltb room 2 || (a.sample_rate == 0)
    then none
    else elim (rate_index sample_rates 0 a.sample_rate) [
      | none ↦ none
      | some index ↦
          some (
            (a.object_type % 32 * 8 + index / 2 % 8) ∷ (index % 2 * 128 + a.channels % 16 * 8) ∷ [])
    ]

-- The tests of `ngx_media_adts_write` on its argument.
abbrev pub unfit_adts : Adts → ℕ → Bool
unfit_adts a room =
    ltb room header_min
    || (ltb 8191 a.frame_len
        || (ltb a.object_type 1 || (ltb 4 a.object_type || (ltb a.channels 1 || ltb 7 a.channels))))

abbrev pub header_bytes : Adts → ℕ → List ℕ
header_bytes a index =
    255
    ∷ 241
    ∷ ((a.object_type - 1) * 64 + index * 4 + a.channels / 4 % 2)
    ∷ (a.channels % 4 * 64 + a.frame_len / 2048 % 4)
    ∷ (a.frame_len / 8 % 256)
    ∷ (a.frame_len % 8 * 32 + 31)
    ∷ 252
    ∷ []

unfoldable pub adts_write : Adts → ℕ → Option (List ℕ)
adts_write a room =
    if unfit_adts a room then none else elim (rate_index sample_rates 0 a.sample_rate) [
      | none ↦ none
      | some index ↦ some (header_bytes a index)
    ]
