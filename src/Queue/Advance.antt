-- ===== src/Queue/Advance.antt =====
-- What the transport has accepted is retired, exactly.
use native.Mathlib.Decide.{dec_lt}
use nginx_media.Base.{
  ℕ, zero, suc, ◌+◌, ◌-◌, ◌≤◌, ◌<◌, ◌≡◌, refl, sym, ap, ap₂, ◌∙◌, true, false, arith, drop, inc64,
  add64, leb, if◌then◌else◌, Bool-cases, inl, inr, lt→ltb, le→ltb-false,
}
use nginx_media.Buffer.{Refs}
use nginx_media.Queue.{Queue, retire, retire_loop, synced, advance}
use nginx_media.Queue.Valid.{IsValid, contents, contents-retire, retire-IsValid, IsValid-counters}

record Retired (stop : ℕ) (p q : Queue) : Type 0 where
  valid : IsValid q
  rest : contents q ≡ drop (stop - p.tail) (contents p)
  tail : q.tail ≡ stop
  head : q.head ≡ p.head
  dropped : q.dropped ≡ p.dropped
  resync : q.resync ≡ p.resync

-- one unit more
retire_more :
    (stop : ℕ) (q g : Queue) (r : Refs)
    → IsValid q
    → q.tail < q.head
    → q.tail < stop
    → Retired stop (retire q r).0 g
    → Retired stop q g
unfolding retire
retire_more stop q g r v more below t = record {
  valid = t.valid;
  rest =
      t.rest
      ∙ sym (
          ap (λ k. drop k (contents q)) {y = suc (stop - inc64 q.tail)} (omega (arith, v.small))
          ∙ ap (drop (suc (stop - inc64 q.tail))) (contents-retire q r v more));
  tail = t.tail;
  head = t.head;
  dropped = t.dropped;
  resync = t.resync;
}

loop-Retired :
    (n : ℕ) (stop : ℕ) (q : Queue) (r : Refs)
    → IsValid q
    → n ≡ q.head - q.tail
    → q.tail ≤ stop
    → stop ≤ q.head
    → Retired stop q (retire_loop n stop q r).0
unfolding retire_loop retire
loop-Retired zero stop q r v e t h = record {
  valid = v;
  rest = ap (λ k. drop k (contents q)) {x = 0} (omega (arith, e));
  tail = omega (arith, e);
  head = refl;
  dropped = refl;
  resync = refl;
}
loop-Retired (suc n) stop q r v e t h = elim (dec_lt q.tail stop) [
  | yes more ↦
      simp (lt→ltb q.tail stop more, lt→ltb q.tail q.head (omega (arith, e)))
        (retire_more stop q _ r v (omega (arith, e)) more (
          loop-Retired n stop (retire q r).0 (retire q r).1
            (retire-IsValid q r v (omega (arith, e))) (omega (arith, e, v.small))
            (omega (arith, v.small)) h))
  | no done ↦ simp (le→ltb-false q.tail stop (omega arith)) (record {
    valid = v;
    rest = ap (λ k. drop k (contents q)) {x = 0} (omega arith);
    tail = omega arith;
    head = refl;
    dropped = refl;
    resync = refl;
  })
]

-- What an acknowledged unit leaves.
pub record Advanced (sequence : ℕ) (q g : Queue) : Type 0 where
  pub valid : IsValid g
  pub rest : contents g ≡ drop (sequence + 1 - q.tail) (contents q)
  pub running : g.resync ≡ false
  pub dropped : g.dropped ≡ (if q.resync then add64 q.dropped (sequence - q.tail) else q.dropped)

record Synced (sequence : ℕ) (p q : Queue) : Type 0 where
  valid : IsValid q
  same : contents q ≡ contents p
  tail : q.tail ≡ p.tail
  head : q.head ≡ p.head
  running : q.resync ≡ false
  dropped : q.dropped ≡ (if p.resync then add64 p.dropped (sequence - p.tail) else p.dropped)

synced-Synced :
    (q : Queue) (sequence : ℕ)
    → IsValid q
    → q.tail ≤ sequence
    → sequence < q.head
    → Synced sequence q (synced q sequence)
unfolding synced
synced-Synced q sequence v t h = elim (Bool-cases q.resync) [
  | inl waits ↦
      simp (waits, reached)
        (record {
          valid = IsValid-counters q _ q.pushed false v;
          same = refl;
          tail = refl;
          head = refl;
          running = refl;
          dropped = simp waits (omega (arith, t, h, v.small));
        })
  | inr runs ↦ simp runs (record {
    valid = v;
    same = refl;
    tail = refl;
    head = refl;
    running = runs;
    dropped = simp runs refl;
  })
]
  where
    reached : leb q.tail sequence ≡ true
    reached = ground arith

-- Acknowledging a retained unit of a well-formed queue moves the cursor past it, retires exactly
-- the units up to it, ends the wait for a sync boundary, and counts the units skipped by a wait as
-- dropped.
pub advance-Advanced :
    (q : Queue) (r : Refs) (sequence : ℕ)
    → IsValid q
    → q.tail ≤ sequence
    → sequence < q.head
    → ((advance q r sequence).0 ≡ sequence + 1) × Advanced sequence q (advance q r sequence).1
unfolding advance
advance-Advanced q r sequence v t h =
    let s = synced-Synced q sequence v t h in
    let g =
      loop-Retired (q.head - q.tail) (inc64 sequence) (synced q sequence) r s.valid
        (omega (arith, s.head, s.tail)) (omega (arith, s.tail, v.small))
        (omega (arith, s.head, v.small)) in
    (
      omega (arith, v.small),
      record {
        valid = g.valid;
        rest =
            g.rest ∙ ap₂ drop {y = sequence + 1 - q.tail} (omega (arith, s.tail, v.small)) s.same;
        running = g.resync ∙ s.running;
        dropped = g.dropped ∙ s.dropped;
      },
    )
