-- ===== src/Nal/Tests.antt =====
-- An H.264 stream of two units, one of them after an empty one, and the kinds of its units.
use nginx_media.Base.{ℕ, Bool, true, false, ◌≡◌, refl, List, [], ◌∷◌}
use nginx_media.Nal.{
  h264, h265, long_code, short_code, start_code, trim_zeros, pass, unit, ended, next_loop,
  iter_next, nal_type, is_vcl, is_config, is_keyframe,
}
use nginx_media.Nal.Units.{IsUnit, Search, iter_next-Search}
use nginx_media.Nal.Split.{annex_b, annex_b-Reads, Reads}

-- The start code, an empty unit, a parameter set with a trailing zero, and a key picture.
abbrev stream : List ℕ
stream = 0 ∷ 0 ∷ 1 ∷ 0 ∷ 0 ∷ 0 ∷ 1 ∷ 103 ∷ 66 ∷ 0 ∷ 0 ∷ 0 ∷ 1 ∷ 101 ∷ 136 ∷ []

first_unit : iter_next stream ≡ unit (103 ∷ 66 ∷ []) (0 ∷ 0 ∷ 0 ∷ 1 ∷ 101 ∷ 136 ∷ [])
unfolding iter_next next_loop pass start_code long_code short_code trim_zeros
first_unit = refl

no_unit : iter_next (0 ∷ 0 ∷ 1 ∷ 0 ∷ []) ≡ ended
unfolding iter_next next_loop pass start_code long_code short_code trim_zeros
no_unit = refl

key_picture : is_keyframe h264 (nal_type h264 (101 ∷ 136 ∷ [])) ≡ true
unfolding is_keyframe nal_type
key_picture = refl

parameter_set : is_config h265 (nal_type h265 (64 ∷ 1 ∷ [])) ≡ true
unfolding is_config nal_type
parameter_set = refl

not_a_slice : is_vcl h264 (nal_type h264 (103 ∷ 66 ∷ [])) ≡ false
unfolding is_vcl nal_type
not_a_slice = refl

parameters_IsUnit : IsUnit (103 ∷ 66 ∷ [])
unfolding start_code long_code short_code
parameters_IsUnit = record { data_end = refl; no_code = refl }

picture_IsUnit : IsUnit (101 ∷ 136 ∷ [])
unfolding start_code long_code short_code
picture_IsUnit = record { data_end = refl; no_code = refl }

iter_next-Search_example : Search stream (iter_next stream)
iter_next-Search_example = iter_next-Search stream

abbrev two_units : List (Bool × List ℕ)
two_units = (true, 103 ∷ 66 ∷ []) ∷ (false, 101 ∷ 136 ∷ []) ∷ []

annex_b-Reads_example : Reads (annex_b two_units) ((103 ∷ 66 ∷ []) ∷ (101 ∷ 136 ∷ []) ∷ [])
annex_b-Reads_example = annex_b-Reads two_units (parameters_IsUnit, (picture_IsUnit, tt))
