-- ===== src/Ts/Ingest/Fifo.antt =====
-- The ingest queue against a list: what is written is handed out once, in order.
use nginx_media.Base.{
  ℕ, ◌+◌, ◌≤◌, ◌≡◌, Bool, true, ◌||◌, List, [], ◌∷◌, ◌++◌, length, take, drop, ltb, leb, ◌==◌, ok,
  error, again, Status, if◌then◌else◌,
}
use nginx_media.Ts.Ingest.{
  Ingest, IngestConf, Chunk, chunk_max, zero_ingest, ingest_write, ingest_read,
}
use nginx_media.Ts.Ingest.Valid.{IsValid, waiting, total}

-- The queue as a list with two ceilings: what a write answers, and the chunks after it.
abbrev pub fifo_write : (ℕ → Bool) → IngestConf → List Chunk → ℕ → List ℕ → ℕ → Status × List Chunk
fifo_write mem conf q session_id p now =
    if (length p == 0) || ltb chunk_max (length p)
    then (error, q)
    else if leb conf.max_chunks (length q) || ltb conf.max_bytes (total q + length p)
    then (again, q)
    else if mem (length p)
    then (ok, q ++ (record { bytes = p; time = now; session_id = session_id } ∷ []))
    else (error, q)

pub data Call : Type 0 where
  -- a chunk of a session at a time
  writes : ℕ → List ℕ → ℕ → Call
  -- a read with room for some chunks
  reads : ℕ → Call

-- The queue with what its callers have been given.
pub record Run : Type 0 where
  pub ingest : Ingest
  pub answers : List Status
  pub received : List Chunk

pub record FifoRun : Type 0 where
  pub chunks : List Chunk
  pub answers : List Status
  pub received : List Chunk

unfoldable pub step : (ℕ → Bool) → Run → Call → Run
step mem s (writes session_id p now) =
    let (answer, g) = ingest_write mem s.ingest session_id p now in
    record s { ingest = g; answers = s.answers ++ (answer ∷ []) }
step mem s (reads n) =
    let (chunks, g) = ingest_read s.ingest n in
    record s { ingest = g; received = s.received ++ chunks }

unfoldable pub run : (ℕ → Bool) → Run → List Call → Run
run mem s [] = s
run mem s (c ∷ cs) = run mem (step mem s c) cs

abbrev pub fifo_step : (ℕ → Bool) → IngestConf → FifoRun → Call → FifoRun
fifo_step mem conf s (writes session_id p now) =
    let (answer, q) = fifo_write mem conf s.chunks session_id p now in
    record s { chunks = q; answers = s.answers ++ (answer ∷ []) }
fifo_step mem conf s (reads n) = record s {
  chunks = drop n s.chunks;
  received = s.received ++ take n s.chunks;
}

abbrev pub fifo_run : (ℕ → Bool) → IngestConf → FifoRun → List Call → FifoRun
fifo_run mem conf s [] = s
fifo_run mem conf s (c ∷ cs) = fifo_run mem conf (fifo_step mem conf s c) cs

-- The queue's state stands for the list, within the ceilings, and its callers have been told the
-- same.
pub record Implements (conf : IngestConf) (s : Run) (a : FifoRun) : Type 0 where
  pub valid : IsValid s.ingest
  pub max_chunks : s.ingest.max_chunks ≡ conf.max_chunks
  pub max_bytes : s.ingest.max_bytes ≡ conf.max_bytes
  pub chunks : waiting s.ingest ≡ a.chunks
  pub answers : s.answers ≡ a.answers
  pub received : s.received ≡ a.received

module _ (conf : IngestConf) where
  -- The queue's part of that.
  record Holds (g : Ingest) (q : List Chunk) : Type 0 where
    valid : IsValid g
    max_chunks : g.max_chunks ≡ conf.max_chunks
    max_bytes : g.max_bytes ≡ conf.max_bytes
    chunks : waiting g ≡ q

  record Written (head : ℕ) (r : Status × Ingest) (a : Status × List Chunk) : Type 0 where
    answer : r.0 ≡ a.0
    holds : Holds r.1 a.1
    small : r.1.head ≤ head + 1

  record Handed (head : ℕ) (r : List Chunk × Ingest) (given rest : List Chunk) : Type 0 where
    given_out : r.0 ≡ given
    holds : Holds r.1 rest
    small : r.1.head ≡ head

  abbrev fresh_queue : ℕ → Ingest
  fresh_queue cap = record zero_ingest {
    allocated = true;
    capacity = cap;
    max_chunks = conf.max_chunks;
    max_bytes = conf.max_bytes;
  }
