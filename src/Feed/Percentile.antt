-- ===== src/Feed/Percentile.antt =====
-- What `ngx_media_feed_fanout_percentile` says of the delays that were recorded.
use native.Mathlib.Nat.{pow-suc}
use nginx_media.Base.{
  ℕ, zero, suc, ◌+◌, ◌*◌, ◌/◌, ◌%◌, ◌^◌, ◌≤◌, ◌<◌, ◌≡◌, refl, ap, ◌⊎◌, List, [], ◌∷◌, arith, length,
  if◌then◌else◌, ◌==◌, ltb, leb, Bool-cases, inl, inr, lt→ltb, ltb→lt, ltb-false,
}
use nginx_media.Base.Mask.{pow-pos}
use nginx_media.Feed.Hist.{Histogram, empty_hist, record_delay, clamp_delay, bucket_of, bucket_loop}

-- The histogram of a list of delays, the latest first.
pub recorded : List ℕ → Histogram
recorded [] = empty_hist
recorded (d ∷ ds) = record_delay (recorded ds) d

-- The bucket `k` covers the delay, or is the last one, and is the first that covers it.
pub record Bucketed (delay k : ℕ) : Type 0 where
  pub in_range : k ≤ 15
  pub covers : (delay ≤ 2 ^ k) ⊎ (k ≡ 15)
  pub least : (k ≡ 0) ⊎ (2 ^ k < 2 * delay)

-- Where the bucket search ends: the bound covers the delay, or the last bucket is reached.
bucket_loop_lem :
    (fuel bound bucket delay : ℕ)
    → bound ≡ 2 ^ bucket
    → fuel + bucket ≡ 15
    → bound * 2 ^ fuel ≡ 2 ^ 15
    → (bucket ≡ 0) ⊎ (bound < 2 * delay)
    → Bucketed delay (bucket_loop fuel bound bucket delay)
unfolding bucket_loop
bucket_loop_lem zero bound bucket delay e f m l = record {
  in_range = omega arith;
  covers = inr (omega arith);
  least = rw (← e) l;
}
bucket_loop_lem (suc fuel) bound bucket delay e f m l =
    let twice : bound * 2 * 2 ^ fuel ≡ 2 ^ 15 = omega (arith, m, ap (◌*◌ bound) (pow-suc 2 fuel)) in
    let small : bound * 2 ≤ 2 ^ 15 = grind (arith, twice, pow-pos fuel) in
    let wraps : bound * 2 % 2 ^ 64 ≡ bound * 2 = omega (arith, small) in
    let next : bound * 2 ≡ 2 ^ (bucket + 1) = omega (
      arith,
      e,
      pow-suc 2 bucket,
      ap (λ k. 2 ^ k) {x = bucket + 1} {y = suc bucket} (omega arith),
    ) in
    elim (Bool-cases (ltb bound delay)) [
      | inl more ↦
          rw (more, lt→ltb bucket 15 (omega arith), wraps)
            (bucket_loop_lem fuel (bound * 2) (bucket + 1) delay next (omega arith) twice
              (inr (omega (arith, ltb→lt bound delay more))))
      | inr done ↦ rw done (record {
        in_range = omega arith;
        covers = inl (omega (arith, e, ltb-false bound delay done));
        least = rw (← e) l;
      })
    ]

pub bucket_of_lem : (delay : ℕ) → Bucketed delay (bucket_of delay)
unfolding bucket_of
bucket_of_lem delay = bucket_loop_lem 15 1 0 delay refl refl refl (inl refl)

-- How many recorded delays lie in bucket `b`, in the buckets below `i`, and at most at `q`.
abbrev bucket_clamped : ℕ → ℕ
bucket_clamped d = bucket_of (clamp_delay d)

pub in_bucket : ℕ → List ℕ → ℕ
in_bucket b [] = 0
in_bucket b (d ∷ ds) = (if bucket_clamped d == b then 1 else 0) + in_bucket b ds

pub below_bucket : ℕ → List ℕ → ℕ
below_bucket i [] = 0
below_bucket i (d ∷ ds) = (if ltb (bucket_clamped d) i then 1 else 0) + below_bucket i ds

pub at_most : ℕ → List ℕ → ℕ
at_most q [] = 0
at_most q (d ∷ ds) = (if leb d q then 1 else 0) + at_most q ds

-- The number of delays that the percentile asks for, rounded up.
abbrev pub wanted : List ℕ → ℕ → ℕ
wanted ds permille = (length ds * permille + 999) / 1000
