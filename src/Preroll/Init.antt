-- ===== src/Preroll/Init.antt =====
-- `ngx_media_source_preroll_init`.
use native.Mathlib.Decide.{dec_le}
use nginx_media.Base.{
  ℕ, ◌+◌, ◌^◌, ◌≤◌, ◌<◌, ◌≡◌, ◌≢◌, refl, ap, ◌∙◌, Bool, true, false, arith, ok, inc64,
}
use nginx_media.Base.Pow2.{pow2, pow2_lem, pow2_overflow}
use nginx_media.Feed.Init.{ring_of_pow2}
use nginx_media.Preroll.{Preroll, zero_preroll, preroll_init}
use nginx_media.Preroll.Valid.{IsValid}

abbrev pub fresh : ℕ → ℕ → ℕ → Preroll
fresh cap max_units max_bytes = record zero_preroll {
  allocated = true;
  capacity = cap;
  max_units = max_units;
  max_bytes = max_bytes;
}

pub fresh-IsValid :
    (cap j max_units max_bytes : ℕ)
    → cap ≡ 2 ^ j
    → max_units + 1 ≤ cap
    → max_units + 1 < 2 ^ 64
    → IsValid (fresh cap max_units max_bytes)
fresh-IsValid cap j max_units max_bytes e h s = record {
  live = refl;
  ring = ring_of_pow2 cap j e;
  start = refl;
  bounded = omega arith;
  room = omega arith;
  small = s;
  counted = refl;
  byte_limit = omega arith;
  closed = λ e. refl;
}

module _ (alloc : ℕ → Bool) (max_units max_bytes : ℕ) (p : Preroll) where
  init_inv :
      (preroll_init alloc max_units max_bytes p).0 ≡ ok
      → (pow2 (inc64 max_units) ≢ 0)
        × ((preroll_init alloc max_units max_bytes p).1
            ≡ fresh (pow2 (inc64 max_units)) max_units max_bytes)
  unfolding preroll_init
  init_inv h = ground arith

  -- A cache that `ngx_media_source_preroll_init` accepts with a ceiling below 2^64 - 1 units is
  -- well formed and closed.
  pub preroll_init-IsValid :
      (preroll_init alloc max_units max_bytes p).0 ≡ ok
      → max_units + 1 < 2 ^ 64
      → IsValid (preroll_init alloc max_units max_bytes p).1
        × ((preroll_init alloc max_units max_bytes p).1.have_boundary ≡ false)
  preroll_init-IsValid h s =
      let (q, e) = init_inv h in
      let same : inc64 max_units ≡ max_units + 1 = omega arith in
      let small : max_units + 1 ≤ 2 ^ 63 = elim (dec_le (max_units + 1) (2 ^ 63)) [
        | yes le ↦ le
        | no gt ↦ absurd (q (ap pow2 same ∙ pow2_overflow (max_units + 1) (omega arith)))
      ] in
      let (j, power, le, lt) = pow2_lem (max_units + 1) (omega arith) small in
      rw (e, same)
        (
          fresh-IsValid (pow2 (max_units + 1)) j max_units max_bytes power
              (omega (arith, power, le)) s,
          refl,
        )
