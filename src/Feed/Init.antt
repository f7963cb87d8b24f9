-- ===== src/Feed/Init.antt =====
-- `ngx_media_feed_init`.
use native.Mathlib.Decide.{dec_le}
use nginx_media.Base.{
  ℕ, ◌-◌, ◌*◌, ◌/◌, ◌%◌, ◌^◌, ◌≤◌, ◌<◌, ◌≡◌, ◌≢◌, refl, sym, ap, ◌∙◌, Bool, true, [], arith, inl,
  inr, ok, bit_and,
}
use nginx_media.Base.Pow2.{pow2, pow2_lem, pow2_overflow}
use nginx_media.Base.Mask.{bit_and_mask}
use nginx_media.Feed.{Feed, Conf, zero_feed, slot_of, slot_size, init}
use nginx_media.Feed.Valid.{IsValid}
use nginx_media.Feed.Log.{Records}

-- A ring whose size is a power of two indexes by the remainder.
pub ring_of_pow2 : (cap j : ℕ) → cap ≡ 2 ^ j → (i : ℕ) → slot_of cap i ≡ i % cap
ring_of_pow2 cap j e i = ap (λ c. bit_and i (c - 1)) e ∙ bit_and_mask j i ∙ ap (λ c. i % c) (sym e)

abbrev pub fresh : ℕ → Conf → Feed
fresh cap conf = record zero_feed {
  allocated = true;
  capacity = cap;
  max_units = conf.max_units;
  max_bytes = conf.max_bytes;
  max_age = conf.max_age;
  generation = 1;
}

fresh-IsValid :
    (cap j : ℕ) (conf : Conf)
    → cap ≡ 2 ^ j
    → 0 < conf.max_units
    → conf.max_units ≤ cap
    → IsValid (fresh cap conf)
fresh-IsValid cap j conf e p h = record {
  live = refl;
  ring = ring_of_pow2 cap j e;
  room = h;
  nonzero = p;
  ordered = omega arith;
  bounded = omega arith;
  small = omega arith;
  counted = refl;
  bytes_small = omega arith;
  idle = λ s a b. refl;
  byte_limit = inr (inl (omega arith));
}

module _ (alloc : ℕ → Bool) (conf : Conf) (f : Feed) where
  -- The three ways to fail, and the one to succeed.
  pub init_ok :
      0 < conf.max_units
      → pow2 conf.max_units ≢ 0
      → pow2 conf.max_units ≤ (2 ^ 64 - 1) / slot_size
      → alloc (pow2 conf.max_units * slot_size) ≡ true
      → init alloc conf f ≡ (ok, fresh (pow2 conf.max_units) conf)
  unfolding init
  init_ok p q h a = ground arith

  init_inv :
      (init alloc conf f).0 ≡ ok
      → (0 < conf.max_units)
        × (pow2 conf.max_units ≢ 0)
        × ((init alloc conf f).1 ≡ fresh (pow2 conf.max_units) conf)
  unfolding init
  init_inv h = ground arith

  -- A feed that the initialisation accepts is well formed and records the empty log.
  pub init-IsValid :
      (init alloc conf f).0 ≡ ok → IsValid (init alloc conf f).1 × Records (init alloc conf f).1 []
  init-IsValid h =
      let (p, q, e) = init_inv h in
      let small : conf.max_units ≤ 2 ^ 63 = elim (dec_le conf.max_units (2 ^ 63)) [
        | yes le ↦ le
        | no gt ↦ absurd (q (pow2_overflow conf.max_units (omega arith)))
      ] in
      let (j, power, le, lt) = pow2_lem conf.max_units p small in
      rw e (
        fresh-IsValid (pow2 conf.max_units) j conf power p (omega (arith, power, le)),
        record { logged = refl; suffix = refl },
      )
