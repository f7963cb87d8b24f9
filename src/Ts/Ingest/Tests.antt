-- ===== src/Ts/Ingest/Tests.antt =====
-- The ingest queue on small inputs.
use nginx_media.Base.{ℕ, ◌≡◌, refl, Bool, true, List, [], ◌∷◌, ok, again, error}
use nginx_media.Ts.Ingest.{
  Ingest, IngestConf, zero_ingest, ingest_write, ingest_destroy, ingest_pending, at_ceiling,
  arrived, queued,
}
use nginx_media.Ts.Ingest.Fifo.{Call, writes, reads, fifo_run}

abbrev two_chunks : IngestConf
two_chunks = record { max_chunks = 2; max_bytes = 8 }

abbrev mem : ℕ → Bool
mem n = true

abbrev calls : List Call
calls =
    writes 1 (71 ∷ 0 ∷ []) 10
    ∷ writes 1 (72 ∷ []) 11
    ∷ writes 2 (73 ∷ []) 12
    ∷ reads 1
    ∷ writes 2 (74 ∷ 0 ∷ []) 13
    ∷ writes 2 [] 14
    ∷ reads 5
    ∷ []

answers_given :
    (fifo_run mem two_chunks (record { chunks = []; answers = []; received = [] }) calls).answers
    ≡ ok ∷ ok ∷ again ∷ ok ∷ error ∷ []
answers_given = refl

abbrev after_init : Ingest
after_init = record zero_ingest { allocated = true; capacity = 2; max_chunks = 2; max_bytes = 8 }

pending_after_write : ingest_pending (ingest_write mem after_init 1 (71 ∷ []) 10).1 ≡ 1
unfolding ingest_pending ingest_write at_ceiling arrived queued
pending_after_write = refl

pending_after_destroy : ingest_pending (ingest_destroy after_init) ≡ 0
unfolding ingest_pending ingest_destroy
pending_after_destroy = refl
