-- ===== src/Compat/Tests.antt =====
-- A program of video and audio, and the theorem about it.
use nginx_media.Base.{ℕ, ◌≡◌, refl, [], ◌∷◌, some}
use nginx_media.Compat.{
  Track, compat_degraded, worst, compat_track, match_track, match_all, reshape, classify,
}
use nginx_media.Compat.Classes.{is_incompatible, any_track, unfit, classify_incompatible}

abbrev video : ℕ → ℕ → Track
video codec height = record {
  media_type = 1;
  codec = codec;
  payload_format = 1;
  profile = 100;
  level = 40;
  width = 1280;
  height = height;
  frame_rate_num = 25;
  frame_rate_den = 1;
  sample_rate = 0;
  channels = 0;
}

abbrev audio : Track
audio = record (video 5 0) { media_type = 2; width = 0; sample_rate = 48000; channels = 2 }

smaller_degrades :
    classify (some (video 1 720 ∷ audio ∷ [])) (some (audio ∷ video 1 480 ∷ [])) ≡ compat_degraded
unfolding classify match_all match_track worst compat_track reshape
smaller_degrades = refl

classify_incompatible_example :
    is_incompatible (classify (some (video 1 720 ∷ audio ∷ [])) (some (video 2 720 ∷ audio ∷ [])))
    ≡ any_track (unfit (video 2 720 ∷ audio ∷ [])) (video 1 720 ∷ audio ∷ [])
classify_incompatible_example =
    classify_incompatible (video 1 720 ∷ audio ∷ []) (video 2 720 ∷ audio ∷ [])
