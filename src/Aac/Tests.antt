-- ===== src/Aac/Tests.antt =====
-- Headers of the source's streams, evaluated.
use nginx_media.Base.{◌≡◌, refl, List, [], ◌∷◌, ◌++◌, some, ℕ, arith}
use nginx_media.Aac.{Adts, adts_parse, adts_write, rate_index, audio_specific_config}
use nginx_media.Aac.RoundTrip.{adts_parse-write}

abbrev stereo : Adts
stereo = record {
  frame_len = 371;
  header_len = 7;
  object_type = 2;
  sample_rate = 44100;
  channels = 2;
}

abbrev sent_header : List ℕ
sent_header = 255 ∷ 241 ∷ 80 ∷ 128 ∷ 46 ∷ 127 ∷ 252 ∷ []

write_stereo : adts_write stereo 7 ≡ some sent_header
unfolding adts_write rate_index
write_stereo = refl

config_stereo : audio_specific_config stereo 2 ≡ some (18 ∷ 16 ∷ [])
unfolding audio_specific_config rate_index
config_stereo = refl

adts_parse-write_example :
    adts_parse (sent_header ++ 33 ∷ []) ≡ some (record stereo { header_len = 7 })
adts_parse-write_example =
    adts_parse-write stereo 7 sent_header (33 ∷ []) write_stereo (omega arith)
