-- ===== src/Stream/Switch.antt =====
-- A switch waits for the old source's writers, and announces itself to every consumer.
use nginx_media.Base.{ℕ, ◌≡◌, Option, none, some, inc64}
use nginx_media.Feed.{publish as feed_publish, discontinuity as feed_discontinuity}
use nginx_media.Stream.{Stream}

-- the counters that a switch advances
record SameCounts (s t : Stream) : Type 0 where
  active : t.active ≡ s.active
  generation : t.generation ≡ s.generation
  feed : t.program_feed.generation ≡ s.program_feed.generation
  switches : t.switches ≡ s.switches

-- A counter goes up by one exactly if another source was active.
abbrev pub announced : Option ℕ → ℕ → ℕ
announced none n = n
announced (some o) n = inc64 n

pub record Switched (s : Stream) (i : ℕ) (t : Stream) : Type 0 where
  pub active : t.active ≡ some i
  pub generation : t.generation ≡ announced s.active s.generation
  pub feed : t.program_feed.generation ≡ announced s.active s.program_feed.generation
  pub switches : t.switches ≡ announced s.active s.switches
