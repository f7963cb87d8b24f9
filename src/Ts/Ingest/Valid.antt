-- ===== src/Ts/Ingest/Valid.antt =====
-- The invariant of the ingest queue, and what each operation does to the chunks that it holds.
use nginx_media.Base.{
  ℕ, suc, ◌+◌, ◌-◌, ◌%◌, ◌^◌, ◌≤◌, ◌<◌, ◌≡◌, ap, ap₂, ◌∙◌, true, List, [], ◌∷◌, ◌++◌, length, arith,
  inc64,
}
use nginx_media.Ring.{window, window-cons, window-push_at}
use nginx_media.Ts.Ingest.{Ingest, Chunk, chunk_slot, queued, taken, arrived, dropped}

-- the queued chunks, oldest first
abbrev pub waiting : Ingest → List Chunk
waiting g = window (chunk_slot g.capacity) g.chunks g.tail (g.head - g.tail)

abbrev pub total : List Chunk → ℕ
total [] = 0
total (c ∷ w) = length c.bytes + total w

total-snoc : (w : List Chunk) (c : Chunk) → total (w ++ (c ∷ [])) ≡ total w + length c.bytes
total-snoc [] c = omega arith
total-snoc (x ∷ w) c = omega (arith, total-snoc w c)

pub record IsValid (g : Ingest) : Type 0 where
  pub live : g.allocated ≡ true
  pub ring : (i : ℕ) → chunk_slot g.capacity i ≡ i % g.capacity
  pub room : g.max_chunks ≤ g.capacity
  pub nonzero : 0 < g.max_chunks
  pub ordered : g.tail ≤ g.head
  pub bounded : g.head ≤ g.tail + g.max_chunks
  pub small : g.head < 2 ^ 64
  pub counted : g.bytes ≡ total (waiting g)
  pub within : g.bytes ≤ g.max_bytes
  pub sizes : g.max_bytes + 65536 < 2 ^ 64

module _ (g : Ingest) (v : IsValid g) where
  module _ (more : g.tail < g.head) where
    pub waiting-taken : waiting g ≡ g.chunks (chunk_slot g.capacity g.tail) ∷ waiting (taken g)
    unfolding taken
    waiting-taken =
        window-cons (chunk_slot g.capacity) g.chunks g.tail (g.head - g.tail) (omega arith)
        ∙ ap (◌∷◌ (g.chunks (chunk_slot g.capacity g.tail))) (
            ap₂ (window (chunk_slot g.capacity) g.chunks) {x = g.tail + 1} {y = inc64 g.tail}
              (omega (arith, v.small)) (omega (arith, v.small)))

    pub taken-IsValid : IsValid (taken g)
    unfolding taken
    taken-IsValid = record {
      live = v.live;
      ring = v.ring;
      room = v.room;
      nonzero = v.nonzero;
      ordered = omega (arith, v.small);
      bounded = omega (arith, v.small, v.bounded);
      small = v.small;
      counted = omega (arith, v.counted, v.within, v.sizes, ap total waiting-taken);
      within = omega (arith, v.counted, v.within, v.sizes, ap total waiting-taken);
      sizes = v.sizes;
    }

  module _ (c : Chunk) (place : g.head - g.tail < g.max_chunks)
      (fits : g.bytes + length c.bytes ≤ g.max_bytes) (next : g.head + 1 < 2 ^ 64) where
    pub waiting-queued : waiting (queued g c) ≡ waiting g ++ (c ∷ [])
    unfolding queued
    waiting-queued =
        ap (window (chunk_slot g.capacity) (queued g c).chunks g.tail) {x = inc64 g.head - g.tail}
          {y = suc (g.head - g.tail)} (omega (arith, v.ordered))
        ∙ window-push_at (chunk_slot g.capacity) g.capacity (omega (arith, v.room, v.nonzero))
            v.ring g.chunks c g.tail (g.head - g.tail) g.head (omega (arith, v.ordered))
            (omega (arith, v.room))

    pub queued-IsValid : IsValid (queued g c)
    unfolding queued
    queued-IsValid = record {
      live = v.live;
      ring = v.ring;
      room = v.room;
      nonzero = v.nonzero;
      ordered = omega (arith, v.ordered);
      bounded = omega (arith, v.ordered);
      small = omega arith;
      counted =
          omega (arith, v.counted, v.sizes, ap total waiting-queued, total-snoc (waiting g) c);
      within = omega (arith, v.sizes);
      sizes = v.sizes;
    }

  pub arrived-IsValid : (len now : ℕ) → IsValid (arrived g len now)
  unfolding arrived
  arrived-IsValid len now = record {
    live = v.live;
    ring = v.ring;
    room = v.room;
    nonzero = v.nonzero;
    ordered = v.ordered;
    bounded = v.bounded;
    small = v.small;
    counted = v.counted;
    within = v.within;
    sizes = v.sizes;
  }

  pub dropped-IsValid : (len : ℕ) → IsValid (dropped g len)
  unfolding dropped
  dropped-IsValid len = record {
    live = v.live;
    ring = v.ring;
    room = v.room;
    nonzero = v.nonzero;
    ordered = v.ordered;
    bounded = v.bounded;
    small = v.small;
    counted = v.counted;
    within = v.within;
    sizes = v.sizes;
  }
