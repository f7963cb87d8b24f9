-- ===== src/Feed/Hist.antt =====
-- The fanout-delay histogram of src/core/ngx_media_feed.c: `ngx_media_feed_hist_record` and
-- `ngx_media_feed_fanout_percentile`.
use nginx_media.Base.{
  ℕ, zero, suc, ◌+◌, ◌-◌, ◌*◌, ◌/◌, ◌%◌, ◌^◌, ◌&&◌, ◌||◌, ltb, leb, ◌==◌, if◌then◌else◌, inc64,
  add64, update,
}

-- NGX_MEDIA_FEED_HIST_BUCKETS
abbrev pub hist_buckets : ℕ
hist_buckets = 16

pub record Histogram : Type 0 where
  pub buckets : ℕ → ℕ
  pub count : ℕ
  pub largest : ℕ

abbrev pub empty_hist : Histogram
empty_hist = record { buckets = λ b. 0; count = 0; largest = 0 }

-- `for (bound = 1; bound < delay && bucket < 15; bound <<= 1) bucket++;` The bucket grows at each
-- round, so 15 rounds are enough.
unfoldable pub bucket_loop : ℕ → ℕ → ℕ → ℕ → ℕ
bucket_loop zero bound bucket delay = bucket
bucket_loop (suc fuel) bound bucket delay =
    let rest = bucket_loop fuel (bound * 2 % 2 ^ 64) (bucket + 1) delay in
    if ltb bound delay && ltb bucket (hist_buckets - 1) then rest else bucket

unfoldable pub bucket_of : ℕ → ℕ
bucket_of delay = bucket_loop 15 1 0 delay

-- A delay above a minute is counted as a minute.
abbrev pub clamp_delay : ℕ → ℕ
clamp_delay delay = if ltb 60000 delay then 60000 else delay

unfoldable pub record_delay : Histogram → ℕ → Histogram
record_delay h delay =
    let d = clamp_delay delay in
    let b = bucket_of d in
    record {
      buckets = update h.buckets b (inc64 (h.buckets b));
      count = inc64 h.count;
      largest = if ltb h.largest d then d else h.largest;
    }

-- `bound = 1; for (b = 0; b < i; b++) bound <<= 1;`
unfoldable pub bound_of : ℕ → ℕ
bound_of zero = 1
bound_of (suc i) = bound_of i * 2 % 2 ^ 64

-- The scan over the buckets from `i` on, with `rest` buckets left.
unfoldable pub scan : Histogram → ℕ → ℕ → ℕ → ℕ → ℕ
scan h zero i seen target = h.largest
scan h (suc rest) i seen target =
    let seen' = add64 seen (h.buckets i) in
    let more = scan h rest (i + 1) seen' target in if leb target seen' then bound_of i else more

unfoldable pub percentile : Histogram → ℕ → ℕ
percentile h permille =
    if h.count == 0 || permille == 0
    then 0
    else let p = if ltb 1000 permille then 1000 else permille in
      let target = (h.count * p + 999) % 2 ^ 64 / 1000 in scan h hist_buckets 0 0 target
