-- ===== src/Timeline/Order.antt =====
-- Program time only moves forward, and each frame keeps its composition offset.
use nginx_media.Base.{
  ◌≡◌, refl, sym, subst, ◌∙◌, List, [], ◌∷◌, true, Bool-cases, inl, inr, ◌==◌, leb-false,
}
use nginx_media.Base.Int.{ℤ, pos, ◌+ℤ◌, ◌-ℤ◌, ◌<ℤ◌, leb_ℤ, int_laws}
use nginx_media.Timeline.{
  Timeline, Stamp, timeline_init, timeline_discontinuity, anchor, resync_clock, timeline_map,
}

-- The stretch of one frame's composition offset.
pub map_composition :
    (t : Timeline) (s : Stamp)
    → (timeline_map t s).0.pts -ℤ (timeline_map t s).0.dts ≡ s.pts -ℤ s.dts
unfolding timeline_map
map_composition t s = omega int_laws

pub resync_advances :
    (t : Timeline) (dts : ℤ)
    → t.has_program ≡ true
    → t.last_program_dts <ℤ dts +ℤ (resync_clock t dts).offset
unfolding resync_clock
resync_advances t dts h = elim (Bool-cases (leb_ℤ (dts +ℤ t.offset) t.last_program_dts)) [
  | inl behind ↦ rw (h, behind) omega int_laws
  | inr ahead ↦ rw (h, ahead) omega (int_laws, leb-false _ _ ahead)
]

pub anchor_kept :
    (t : Timeline) (dts : ℤ)
    → ((anchor t dts).last_program_dts ≡ t.last_program_dts)
      × ((anchor t dts).has_program ≡ t.has_program)
unfolding anchor
anchor_kept t dts = elim (Bool-cases t.anchored) [
  | inl a ↦ simp a (refl, refl)
  | inr a ↦ simp a (elim (Bool-cases (t.switches == 0)) [
    | inl z ↦ simp z (refl, refl)
    | inr z ↦ simp z (refl, refl)
  ])
]

-- A frame's program time is past the one before.
pub map_advances :
    (t : Timeline) (s : Stamp)
    → t.has_program ≡ true
    → t.last_program_dts <ℤ (timeline_map t s).0.dts
unfolding timeline_map
map_advances t s h =
    let (last, program) = anchor_kept t s.dts in
    subst (λ l. l <ℤ s.dts +ℤ (resync_clock (anchor t s.dts) s.dts).offset) last
      (resync_advances (anchor t s.dts) s.dts (program ∙ h))

pub map_last :
    (t : Timeline) (s : Stamp) → (timeline_map t s).1.last_program_dts ≡ (timeline_map t s).0.dts
unfolding timeline_map
map_last t s = refl

map_program : (t : Timeline) (s : Stamp) → (timeline_map t s).1.has_program ≡ true
unfolding timeline_map
map_program t s = refl

pub data Event : Type 0 where
  frame : Stamp → Event
  switched : Event

-- The program's timestamps for a sequence of frames and source switches.
unfoldable pub run : Timeline → List Event → List Stamp
run t [] = []
run t (frame s ∷ es) = (timeline_map t s).0 ∷ run (timeline_map t s).1 es
run t (switched ∷ es) = run (timeline_discontinuity t) es

abbrev pub sources : List Event → List Stamp
sources [] = []
sources (frame s ∷ es) = s ∷ sources es
sources (switched ∷ es) = sources es

abbrev pub IncreasingFrom : ℤ → List Stamp → Type 0
IncreasingFrom last [] = Unit
IncreasingFrom last (s ∷ ss) = (last <ℤ s.dts) × IncreasingFrom s.dts ss

abbrev pub Increasing : List Stamp → Type 0
Increasing [] = Unit
Increasing (s ∷ ss) = IncreasingFrom s.dts ss

-- One program frame for each source frame, in order, at the same distance from pts to dts.
abbrev pub SameOffsets : List Stamp → List Stamp → Type 0
SameOffsets [] [] = Unit
SameOffsets [] (y ∷ ys) = ⊥
SameOffsets (x ∷ xs) [] = ⊥
SameOffsets (x ∷ xs) (y ∷ ys) = (y.pts -ℤ y.dts ≡ x.pts -ℤ x.dts) × SameOffsets xs ys

run_from :
    (t : Timeline) (es : List Event)
    → t.has_program ≡ true
    → IncreasingFrom t.last_program_dts (run t es)
unfolding run timeline_discontinuity
run_from t [] h = tt
run_from t (frame s ∷ es) h = (
  map_advances t s h,
  rw (sym (map_last t s)) (run_from (timeline_map t s).1 es (map_program t s)),
)
run_from t (switched ∷ es) h = run_from (timeline_discontinuity t) es h

run_offsets : (t : Timeline) (es : List Event) → SameOffsets (sources es) (run t es)
unfolding run
run_offsets t [] = tt
run_offsets t (frame s ∷ es) = (map_composition t s, run_offsets (timeline_map t s).1 es)
run_offsets t (switched ∷ es) = run_offsets (timeline_discontinuity t) es

-- Across any frames and source switches the program's decoding times strictly increase, and there
-- is one program frame for each source frame, in order, with the source frame's composition
-- offset.
pub run-Increasing :
    (t : Timeline) (es : List Event) → Increasing (run t es) × SameOffsets (sources es) (run t es)
unfolding run
run-Increasing t es = (increasing t es, run_offsets t es)
  where
    increasing : (t : Timeline) (es : List Event) → Increasing (run t es)
    increasing t [] = tt
    increasing t (frame s ∷ es) =
        rw (sym (map_last t s)) (run_from (timeline_map t s).1 es (map_program t s))
    increasing t (switched ∷ es) = increasing (timeline_discontinuity t) es

-- On a fresh timeline the first frame of the program is mapped to 0.
pub map_first : (s : Stamp) → (timeline_map timeline_init s).0.dts ≡ pos 0
unfolding timeline_map anchor resync_clock
map_first s = omega int_laws
