-- ===== src/Ts/Time.antt =====
-- The timestamps that the multiplexer writes are the ones that the demultiplexer reads.
use nginx_media.Base.{ℕ, ◌%◌, ◌^◌, ◌≡◌, List, ◌++◌, arith}
use nginx_media.Ts.{put_ts, pes_ts}

pub pes_ts-put_ts : (prefix v : ℕ) (rest : List ℕ) → pes_ts (put_ts prefix v ++ rest) 0 ≡ v % 2 ^ 33
unfolding put_ts pes_ts
pes_ts-put_ts prefix v rest = omega arith
