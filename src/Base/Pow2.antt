-- ===== src/Base/Pow2.antt =====
-- The loop that rounds a ring's size up to a power of two: `ngx_media_feed_pow2`
-- (src/core/ngx_media_feed.c), which src/core/ngx_media_source.c and
-- src/mpegts/ngx_media_ts_ingest.c repeat word for word.
use nginx_media.Base.{
  ℕ, zero, suc, ◌+◌, ◌-◌, ◌*◌, ◌%◌, ◌^◌, ◌≤◌, ◌<◌, ◌≡◌, refl, arith, ltb, if◌then◌else◌, Bool-cases,
  inl, inr, le→ltb-false, lt→ltb, tests, ap, ◌∙◌,
}
use native.Mathlib.Nat.{pow-suc}
use nginx_media.Base.Mask.{pow-pos}

-- `for (p = 1; p < n; p <<= 1) if (p > ((ngx_uint_t) -1 >> 1)) return 0;`
pow2_loop : ℕ → ℕ → ℕ → ℕ
pow2_loop zero p n = p
pow2_loop (suc fuel) p n =
    let rest = if ltb (2 ^ 63 - 1) p then 0 else pow2_loop fuel (p * 2 % 2 ^ 64) n in
    if ltb p n then rest else p

-- The shift passes bit 63 after 64 rounds, and the guard returns there.
unfoldable pub pow2 : ℕ → ℕ
unfolding pow2_loop
pow2 n = pow2_loop 64 1 n

pow2_loop_lem :
    (fuel k p n : ℕ)
    → p ≡ 2 ^ k
    → k + fuel ≡ 64
    → n ≤ 2 ^ 63
    → p < 2 * n
    → (j : ℕ) × (pow2_loop fuel p n ≡ 2 ^ j) × (n ≤ 2 ^ j) × (2 ^ j < 2 * n)
unfolding pow2_loop
pow2_loop_lem zero k p n e f h small =
    let full : k ≡ 64 = omega arith in absurd (omega (arith, e ∙ ap (λ j. 2 ^ j) full))
pow2_loop_lem (suc fuel) k p n e f h small = elim (Bool-cases (ltb p n)) [
  | inl more ↦
      rw (more, le→ltb-false (2 ^ 63 - 1) p (omega tests))
        (pow2_loop_lem fuel (suc k) (p * 2 % 2 ^ 64) n (omega (tests, pow-suc 2 k)) (omega arith) h
          (omega tests))
  | inr done ↦ (k, rw done e, omega tests, omega tests)
]

-- The smallest power of two that is not below `n`.
pub pow2_lem :
    (n : ℕ) → 0 < n → n ≤ 2 ^ 63 → (j : ℕ) × (pow2 n ≡ 2 ^ j) × (n ≤ 2 ^ j) × (2 ^ j < 2 * n)
unfolding pow2
pow2_lem n pos h = pow2_loop_lem 64 0 1 n refl refl h (omega arith)

-- `p` doubles to bit 63 while it stays below `n`, and the guard returns 0 there.
pow2_loop_overflow : (m p n : ℕ) → p * 2 ^ m ≡ 2 ^ 63 → 2 ^ 63 < n → pow2_loop (suc m) p n ≡ 0
unfolding pow2_loop
pow2_loop_overflow zero p n e h = ground arith
pow2_loop_overflow (suc m) p n e h =
    rw (lt→ltb p n (omega (arith, half)), le→ltb-false (2 ^ 63 - 1) p (omega (arith, half)))
      (pow2_loop_overflow m (p * 2 % 2 ^ 64) n (rw wraps twice) h)
  where
    twice : p * 2 * 2 ^ m ≡ 2 ^ 63
    twice = omega (arith, e, ap (◌*◌ p) (pow-suc 2 m))

    half : p * 2 ≤ 2 ^ 63
    half = grind (arith, twice, pow-pos m)

    wraps : p * 2 % 2 ^ 64 ≡ p * 2
    wraps = omega (arith, half)

-- A size above 2^63 has no power of two in a word, and the answer is 0.
pub pow2_overflow : (n : ℕ) → 2 ^ 63 < n → pow2 n ≡ 0
unfolding pow2
pow2_overflow n h = pow2_loop_overflow 63 1 n refl h
