-- ===== src/Ts/Ingest.antt =====
-- src/mpegts/ngx_media_ts_ingest.c: the bounded queue between a transport thread and the worker
-- that demultiplexes.
--
-- `Ingest` is `ngx_media_ts_ingest_t` and `Chunk` a chunk of it, its data the bytes that were copied;
-- the chunk array is a function of the index with a flag. Each operation runs under the queue's lock
-- and is one step, so the lock has no field. The pointers that the code tests for NULL are present,
-- apart from the chunk array.
pub mod Valid
pub mod Fifo
mod Tests
use nginx_media.Base.{
  ℕ, zero, suc, ◌+◌, ◌-◌, ◌*◌, ◌/◌, ◌^◌, Bool, true, false, ◌&&◌, ◌||◌, not, List, [], ◌∷◌, length,
  ltb, leb, ◌==◌, if◌then◌else◌, inc64, add64, sub64, update, Status, ok, error, again, bit_and,
}
use nginx_media.Base.Pow2.{pow2}

-- NGX_MEDIA_TS_INGEST_CHUNK_MAX
abbrev pub chunk_max : ℕ
chunk_max = 65536

pub record IngestConf : Type 0 where
  pub max_chunks : ℕ
  pub max_bytes : ℕ

pub record IngestStats : Type 0 where
  pub bytes_in : ℕ
  pub chunks_in : ℕ
  pub bytes_dropped : ℕ
  pub chunks_dropped : ℕ
  pub last_write : ℕ

pub record Chunk : Type 0 where
  pub bytes : List ℕ
  pub time : ℕ
  pub session_id : ℕ

pub record Ingest : Type 0 where
  pub allocated : Bool
  pub chunks : ℕ → Chunk
  pub capacity : ℕ
  pub max_chunks : ℕ
  pub max_bytes : ℕ
  pub head : ℕ
  pub tail : ℕ
  pub bytes : ℕ
  pub stats : IngestStats

abbrev pub zero_ingest : Ingest
zero_ingest = record {
  allocated = false;
  chunks = λ i. record { bytes = []; time = 0; session_id = 0 };
  capacity = 0;
  max_chunks = 0;
  max_bytes = 0;
  head = 0;
  tail = 0;
  bytes = 0;
  stats = record {
    bytes_in = 0;
    chunks_in = 0;
    bytes_dropped = 0;
    chunks_dropped = 0;
    last_write = 0;
  };
}

-- sizeof(ngx_media_ts_ingest_chunk_t) on an LP64 platform
abbrev pub chunk_size : ℕ
chunk_size = 32

-- `mem` says whether ngx_alloc finds that many bytes.
unfoldable pub ingest_init : (ℕ → Bool) → IngestConf → Ingest → Status × Ingest
ingest_init mem conf g =
    let cap = pow2 conf.max_chunks in
    if conf.max_chunks == 0 || conf.max_bytes == 0
    then (error, g)
    else if cap == 0
    then (error, zero_ingest)
    else if ltb ((2 ^ 64 - 1) / chunk_size) cap
    then (error, record zero_ingest { capacity = cap })
    else if mem (cap * chunk_size)
    then (
      ok,
      record zero_ingest {
        allocated = true;
        capacity = cap;
        max_chunks = conf.max_chunks;
        max_bytes = conf.max_bytes;
      },
    )
    else (error, zero_ingest)

-- `ngx_media_ts_ingest_destroy`, which frees what is queued
unfoldable pub ingest_destroy : Ingest → Ingest
ingest_destroy g = if g.allocated then zero_ingest else g

-- `seq & (ingest->capacity - 1)`
abbrev pub chunk_slot : ℕ → ℕ → ℕ
chunk_slot capacity seq = bit_and seq (capacity - 1)

-- `stats.bytes_in += len; stats.chunks_in++; stats.last_write = now`
unfoldable pub arrived : Ingest → ℕ → ℕ → Ingest
arrived g len now = record g {
  stats = record g.stats {
    bytes_in = add64 g.stats.bytes_in len;
    chunks_in = inc64 g.stats.chunks_in;
    last_write = now;
  };
}

-- `stats.chunks_dropped++; stats.bytes_dropped += len`
unfoldable pub dropped : Ingest → ℕ → Ingest
dropped g len = record g {
  stats = record g.stats {
    chunks_dropped = inc64 g.stats.chunks_dropped;
    bytes_dropped = add64 g.stats.bytes_dropped len;
  };
}

-- The test of the ceilings.
unfoldable pub at_ceiling : Ingest → ℕ → Bool
at_ceiling g len = leb g.max_chunks (sub64 g.head g.tail) || ltb g.max_bytes (add64 g.bytes len)

-- The chunk goes into the slot of the head.
unfoldable pub queued : Ingest → Chunk → Ingest
queued g c = record g {
  chunks = update g.chunks (chunk_slot g.capacity g.head) c;
  bytes = add64 g.bytes (length c.bytes);
  head = inc64 g.head;
}

unfoldable pub ingest_write : (ℕ → Bool) → Ingest → ℕ → List ℕ → ℕ → Status × Ingest
ingest_write mem g session_id p now =
    let len = length p in
    let g' = arrived g len now in
    if not g.allocated || (len == 0 || ltb chunk_max len)
    then (error, g)
    else if at_ceiling g' len
    then (again, dropped g' len)
    else if mem len
    then (ok, queued g' (record { bytes = p; time = now; session_id = session_id }))
    else (error, dropped g' len)

-- `bytes -= chunk->len; tail++`
unfoldable pub taken : Ingest → Ingest
taken g = record g {
  bytes = sub64 g.bytes (length (g.chunks (chunk_slot g.capacity g.tail)).bytes);
  tail = inc64 g.tail;
}

-- The loop of `ngx_media_ts_ingest_read`, with the chunks that it hands out.
unfoldable pub read_chunks : ℕ → Ingest → List Chunk × Ingest
read_chunks zero g = ([], g)
read_chunks (suc room) g =
    let (rest, g') = read_chunks room (taken g) in
    if ltb g.tail g.head then (g.chunks (chunk_slot g.capacity g.tail) ∷ rest, g') else ([], g)

-- The room in the caller's array bounds the rounds.
unfoldable pub ingest_read : Ingest → ℕ → List Chunk × Ingest
ingest_read g max_chunks = if g.allocated then read_chunks max_chunks g else ([], g)

-- `ngx_media_ts_ingest_pending`
unfoldable pub ingest_pending : Ingest → ℕ
ingest_pending g = if g.allocated then sub64 g.head g.tail else 0

-- `ngx_media_ts_ingest_release`: the data are freed.
unfoldable pub ingest_release : List Chunk → List Chunk
ingest_release [] = []
ingest_release (c ∷ cs) = record c { bytes = [] } ∷ ingest_release cs
