-- ===== src/Preroll/Tests.antt =====
-- A cache of three units that fills, overflows and opens again, and the theorems about it.
use nginx_media.Base.{ℕ, ◌≡◌, refl, Bool, true, false, List, [], ◌∷◌, ◌++◌, some, arith}
use nginx_media.Base.Pow2.{pow2}
use nginx_media.Buffer.{Refs, Frame, frame_init, frame_copy, frame_release}
use nginx_media.Preroll.{
  Preroll, zero_preroll, preroll_init, release_loop, reset, over, overflow, append, cache, push,
  replay_loop, replay,
}
use nginx_media.Preroll.Valid.{IsValid}
use nginx_media.Preroll.Init.{fresh, preroll_init-IsValid}
use nginx_media.Preroll.Push.{view, next, Refines, push-Refines}
use nginx_media.Preroll.Whole.{pushes, OneGop, pushes-OneGop}

abbrev enough : ℕ → Bool
enough bytes = true

abbrev key_frame : Frame
key_frame = record frame_init {
  media_type = 1;
  keyframe = true;
  payload = some (record { id = 7; len = 4; capacity = 4 });
}

abbrev delta_frame : Frame
delta_frame = record frame_init {
  media_type = 1;
  payload = some (record { id = 8; len = 5; capacity = 8 });
}

abbrev counts : Refs
counts b = 1

abbrev empty : Preroll
empty = fresh 4 3 12

empty-IsValid : IsValid empty × (empty.have_boundary ≡ false)
unfolding preroll_init pow2
empty-IsValid = preroll_init-IsValid enough 3 12 zero_preroll refl (omega arith)

abbrev frames : List Frame
frames =
    delta_frame ∷ key_frame ∷ delta_frame ∷ delta_frame ∷ delta_frame ∷ key_frame ∷ delta_frame ∷ []

-- Fourteen bytes are over the ceiling, so the first group is given up; the second is kept.
second_group :
    (replay (pushes true empty counts frames).0 ≡ key_frame ∷ delta_frame ∷ [])
    × ((pushes true empty counts frames).0.byte_overflows ≡ 1)
unfolding pushes push cache reset release_loop append over overflow replay replay_loop frame_copy
    frame_release
second_group = (refl, refl)

push-Refines_example :
    Refines (push true empty counts key_frame) (next true 3 12 (view empty) key_frame) empty
push-Refines_example = push-Refines true empty counts key_frame empty-IsValid.0 (omega arith)

preroll_init-IsValid_example :
    IsValid (preroll_init enough 3 12 zero_preroll).1
    × ((preroll_init enough 3 12 zero_preroll).1.have_boundary ≡ false)
unfolding preroll_init pow2
preroll_init-IsValid_example = preroll_init-IsValid enough 3 12 zero_preroll refl (omega arith)

pushes-OneGop_example :
    ((before : List Frame) × (frames ≡ before ++ replay (pushes true empty counts frames).0))
    × OneGop (replay (pushes true empty counts frames).0)
pushes-OneGop_example = pushes-OneGop empty counts frames empty-IsValid.0 empty-IsValid.1 (
  omega arith,
  (omega arith, (omega arith, (omega arith, (omega arith, (omega arith, (omega arith, tt)))))),
)
