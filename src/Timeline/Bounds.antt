-- ===== src/Timeline/Bounds.antt =====
-- 33-bit source timestamps keep the program's 64-bit timestamps far from an overflow.
use nginx_media.Base.{
  ℕ, suc, ◌+◌, ◌-◌, ◌*◌, ap, ◌^◌, ◌≤◌, ◌<◌, ◌≡◌, refl, List, [], ◌∷◌, true, false, arith, All,
  length, Bool-cases, ◌⊎◌, inl, inr, ◌==◌, ◌&&◌, ◌∙◌,
}
use nginx_media.Base.Int.{ℤ, pos, negsuc, ◌+ℤ◌, ◌≤ℤ◌, leb_ℤ, pos_part, neg_part, int_laws}
use nginx_media.Timeline.{
  Timeline, Stamp, timeline_init, timeline_discontinuity, anchor, resync_clock, timeline_map,
}
use nginx_media.Timeline.Order.{Event, frame, switched, run, sources, anchor_kept, resync_advances}

-- -k ≤ x ≤ k
abbrev pub Within : ℕ → ℤ → Type 0
Within k x = (pos_part x ≤ k) × (neg_part x ≤ k)

-- the range of a 33-bit timestamp, with its negatives
abbrev pub Small : Stamp → Type 0
Small s = Within (2 ^ 33) s.pts × Within (2 ^ 33) s.dts

-- a value that int64_t holds
abbrev pub Fits : Stamp → Type 0
Fits s = Within (2 ^ 63 - 1) s.pts × Within (2 ^ 63 - 1) s.dts

-- one part of an integer is zero
canonical : (a : ℤ) → (pos_part a ≡ 0) ⊎ (neg_part a ≡ 0)
canonical (pos n) = inr refl
canonical (negsuc n) = inl refl

-- What holds after at most `n` frames.
record Near (n : ℕ) (t : Timeline) : Type 0 where
  low : neg_part t.last_program_dts ≡ 0
  high : pos_part t.last_program_dts ≤ n * (2 ^ 34 + 1)
  start : (t.has_program ≡ true) ⊎ ((t.anchored ≡ false) × (t.last_program_dts ≡ pos 0))
  close :
      (t.anchored ≡ false)
      ⊎ ((t.last_program_dts ≤ℤ t.offset +ℤ pos (2 ^ 33))
          × (t.offset ≤ℤ t.last_program_dts +ℤ pos (2 ^ 33)))

module _ (n : ℕ) (t : Timeline) (dts : ℤ) (v : Near n t) (small : Within (2 ^ 33) dts) where
  anchor_near : dts +ℤ (anchor t dts).offset ≤ℤ t.last_program_dts +ℤ pos (2 ^ 34 + 1)
  unfolding anchor
  anchor_near = elim (Bool-cases t.anchored) [
    | inl a ↦
        simp a (elim v.close [
          | inl z ↦ ground (arith, a, z)
          | inr near ↦ omega (int_laws, near.1, small)
        ])
    | inr a ↦ simp a (elim (Bool-cases (t.switches == 0)) [
      | inl z ↦ simp z (omega (int_laws, v.low))
      | inr z ↦ simp z (omega int_laws)
    ])
  ]

  -- before the first frame the clock is not anchored, and the frame is mapped to 0 or 1
  anchor_low : t.anchored ≡ false → pos 0 ≤ℤ dts +ℤ (anchor t dts).offset
  unfolding anchor
  anchor_low a = simp a (elim (Bool-cases (t.switches == 0)) [
    | inl z ↦ simp z (omega int_laws)
    | inr z ↦ simp z (omega (int_laws, v.low))
  ])

  resync_near :
      (t' : Timeline)
      → t'.last_program_dts ≡ t.last_program_dts
      → dts +ℤ t'.offset ≤ℤ t.last_program_dts +ℤ pos (2 ^ 34 + 1)
      → dts +ℤ (resync_clock t' dts).offset ≤ℤ t.last_program_dts +ℤ pos (2 ^ 34 + 1)
  unfolding resync_clock
  resync_near t' e h =
      elim (Bool-cases (t'.has_program && leb_ℤ (dts +ℤ t'.offset) t'.last_program_dts)) [
        | inl b ↦ simp b (omega (int_laws, ap pos_part e, ap neg_part e))
        | inr b ↦ simp b h
      ]

  resync_low :
      (t' : Timeline)
      → t'.last_program_dts ≡ t.last_program_dts
      → pos 0 ≤ℤ dts +ℤ t'.offset
      → pos 0 ≤ℤ dts +ℤ (resync_clock t' dts).offset
  unfolding resync_clock
  resync_low t' e h =
      elim (Bool-cases (t'.has_program && leb_ℤ (dts +ℤ t'.offset) t'.last_program_dts)) [
        | inl b ↦ simp b (omega (int_laws, ap pos_part e, ap neg_part e, v.low))
        | inr b ↦ simp b h
      ]

  mapped : ℤ
  mapped = dts +ℤ (resync_clock (anchor t dts) dts).offset

  mapped_high : mapped ≤ℤ t.last_program_dts +ℤ pos (2 ^ 34 + 1)
  unfolding mapped
  mapped_high = resync_near (anchor t dts) (anchor_kept t dts).0 anchor_near

  mapped_low : pos 0 ≤ℤ mapped
  unfolding mapped
  mapped_low = elim v.start [
    | inl h ↦ omega (
      int_laws,
      v.low,
      ap pos_part (anchor_kept t dts).0,
      ap neg_part (anchor_kept t dts).0,
      resync_advances (anchor t dts) dts ((anchor_kept t dts).1 ∙ h),
    )
    | inr h ↦ resync_low (anchor t dts) (anchor_kept t dts).0 (anchor_low h.0)
  ]

-- One frame's timestamps fit, and so does what the timeline keeps.
map-Near :
    (n : ℕ) (t : Timeline) (s : Stamp)
    → Near n t
    → Small s
    → n < 2 ^ 28
    → Fits (timeline_map t s).0 × Near (suc n) (timeline_map t s).1
unfolding timeline_map mapped
map-Near n t s v small h =
    let low = mapped_low n t s.dts v small.1 in
    let high = mapped_high n t s.dts v small.1 in
    let last = canonical t.last_program_dts in
    let dts = canonical (timeline_map t s).0.dts in
    let pts = canonical (timeline_map t s).0.pts in
    (
      (
        (omega (int_laws, v.high, v.low), omega (int_laws, v.high, v.low)),
        (omega (int_laws, v.high, v.low), omega (int_laws, v.high, v.low)),
      ),
      record {
        low = omega (int_laws);
        high = omega (int_laws, v.high, v.low);
        start = inl refl;
        close = inr (omega int_laws, omega int_laws);
      },
    )

run_from-Fits :
    (n : ℕ) (t : Timeline) (es : List Event)
    → Near n t
    → All Small (sources es)
    → n + length (sources es) ≤ 2 ^ 28
    → All Fits (run t es)
unfolding run timeline_discontinuity
run_from-Fits n t [] v small h = tt
run_from-Fits n t (frame s ∷ es) v small h =
    let (fits, next) = map-Near n t s v small.0 (omega arith) in
    (fits, run_from-Fits (suc n) (timeline_map t s).1 es next small.1 (omega arith))
run_from-Fits n t (switched ∷ es) v small h =
    run_from-Fits n (timeline_discontinuity t) es
      (record { low = v.low; high = v.high; start = restart v.start; close = inl refl }) small h
  where
    restart :
        (t.has_program ≡ true) ⊎ ((t.anchored ≡ false) × (t.last_program_dts ≡ pos 0))
        → (t.has_program ≡ true) ⊎ ((false ≡ false) × (t.last_program_dts ≡ pos 0))
    restart (inl p) = inl p
    restart (inr (a, z)) = inr (refl, z)

-- On a fresh timeline, at most 2^28 frames whose timestamps are 33-bit values or their negatives
-- are mapped to timestamps that fit in 64 bits, whatever source switches are between them.
pub run-Fits :
    (es : List Event)
    → All Small (sources es)
    → length (sources es) ≤ 2 ^ 28
    → All Fits (run timeline_init es)
run-Fits es small h =
    run_from-Fits 0 timeline_init es
      (record { low = refl; high = omega arith; start = inr (refl, refl); close = inl refl }) small
      (omega arith)
