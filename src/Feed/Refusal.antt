-- ===== src/Feed/Refusal.antt =====
-- When `ngx_media_feed_read` refuses, and what a refusal leaves.
use nginx_media.Base.{
  ℕ, ◌≤◌, ◌<◌, ◌≡◌, ◌≢◌, sym, subst, true, false, arith, ltb, ◌/=◌, Bool-cases, inl, inr, inc64,
}
use nginx_media.Buffer.{Refs}
use nginx_media.Feed.{Feed, Cursor}
use nginx_media.Feed.Read.{
  Outcome, feed_error, overrun, generation_mismatch, ReadResult, refused, read,
}

module _ (f : Feed) (c : Cursor) (mu mb now : ℕ) (r : Refs) where
  read_unallocated : f.allocated ≡ false → read f c mu mb now r ≡ refused feed_error f c r
  unfolding read
  read_unallocated h = ground arith

  -- A cursor of another generation is told so.
  pub read_stale :
      f.allocated ≡ true
      → c.generation ≢ f.generation
      → read f c mu mb now r
        ≡ refused generation_mismatch
            (record f { generation_mismatches = inc64 f.generation_mismatches })
            c
            r
  unfolding read
  read_stale h ne = ground arith

  -- A consumer whose next unit has been evicted is told so, rather than given a later one.
  pub read-overrun :
      f.allocated ≡ true
      → c.generation ≡ f.generation
      → c.next_sequence < f.tail
      → read f c mu mb now r ≡ refused overrun (record f { overruns = inc64 f.overruns }) c r
  unfolding read
  read-overrun h e lt = ground arith

  pub read_ahead :
      f.allocated ≡ true
      → c.generation ≡ f.generation
      → f.tail ≤ c.next_sequence
      → f.head < c.next_sequence
      → read f c mu mb now r
        ≡ refused generation_mismatch
            (record f { generation_mismatches = inc64 f.generation_mismatches })
            c
            r
  unfolding read
  read_ahead h e le lt = ground arith

  -- The cases of a read, as a rule: a refusal leaves the ring and the cursor alone.
  pub read_rule {ℓ} :
      (P : ReadResult → Type ℓ)
      → ((o : Outcome) (n m : ℕ)
          → P (refused o (record f { overruns = n; generation_mismatches = m }) c r))
      → (c.generation ≡ f.generation
          → f.tail ≤ c.next_sequence
          → c.next_sequence ≤ f.head
          → P (read f c mu mb now r))
      → P (read f c mu mb now r)
  read_rule P refusal delivery = elim (Bool-cases f.allocated) [
    | inr off ↦
        subst P (sym (read_unallocated off)) (refusal feed_error f.overruns f.generation_mismatches)
    | inl on ↦ elim (Bool-cases (c.generation /= f.generation)) [
      | inl ne ↦
          subst P (sym (read_stale on (ground arith)))
            (refusal generation_mismatch f.overruns (inc64 f.generation_mismatches))
      | inr same ↦ elim (Bool-cases (ltb c.next_sequence f.tail)) [
        | inl late ↦
            subst P (sym (read-overrun on (ground arith) (ground arith)))
              (refusal overrun (inc64 f.overruns) f.generation_mismatches)
        | inr kept ↦ elim (Bool-cases (ltb f.head c.next_sequence)) [
          | inl beyond ↦
              subst P (sym (read_ahead on (ground arith) (ground arith) (ground arith)))
                (refusal generation_mismatch f.overruns (inc64 f.generation_mismatches))
          | inr within ↦ delivery (ground arith) (ground arith) (ground arith)
        ]
      ]
    ]
  ]
