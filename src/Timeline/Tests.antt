-- ===== src/Timeline/Tests.antt =====
-- A program of three frames with a source switch, and the theorems about it.
use nginx_media.Base.{ℕ, ◌^◌, ◌≤◌, ◌≡◌, refl, List, [], ◌∷◌, All, arith}
use nginx_media.Base.Int.{pos, ◌+ℤ◌, ◌-ℤ◌}
use nginx_media.Timeline.{
  Stamp, timeline_init, timeline_discontinuity, timeline_map, anchor, resync_clock,
}
use nginx_media.Timeline.Order.{
  Event, frame, switched, run, sources, Increasing, SameOffsets, run-Increasing,
}
use nginx_media.Timeline.Bounds.{Within, Fits, run-Fits}

abbrev stamp : ℕ → ℕ → Stamp
stamp pts dts = record { pts = pos pts; dts = pos dts }

-- The new source starts far behind the old one.
abbrev events : List Event
events = frame (stamp 9000 6000) ∷ frame (stamp 9500 9000) ∷ switched ∷ frame (stamp 120 100) ∷ []

program : run timeline_init events ≡ stamp 3000 0 ∷ stamp 3500 3000 ∷ stamp 3021 3001 ∷ []
unfolding run timeline_map anchor resync_clock timeline_discontinuity ◌+ℤ◌ ◌-ℤ◌
program = refl

run-Increasing_example :
    Increasing (run timeline_init events) × SameOffsets (sources events) (run timeline_init events)
run-Increasing_example = run-Increasing timeline_init events

range : (k : ℕ) → k ≤ 2 ^ 33 → Within (2 ^ 33) (pos k)
range k h = (h, omega arith)

run-Fits_example : All Fits (run timeline_init events)
run-Fits_example =
    run-Fits events
      (
        (range 9000 (omega arith), range 6000 (omega arith)),
        (
          (range 9500 (omega arith), range 9000 (omega arith)),
          ((range 120 (omega arith), range 100 (omega arith)), tt),
        ),
      )
      (omega arith)
