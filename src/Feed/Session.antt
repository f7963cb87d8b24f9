-- ===== src/Feed/Session.antt =====
-- A producer and a consumer on one feed, over any schedule of publishes and reads.
use mathlib.Core.List.{append-nil}
use nginx_media.Base.{
  ℕ, ◌+◌, ◌-◌, ◌^◌, ◌≤◌, ◌<◌, ◌≡◌, refl, sym, ap, ap₂, ◌∙◌, List, [], ◌∷◌, ◌++◌, arith, length,
  take, drop, take-append_le, drop-append_le, take-append-drop, drop-drop, length-drop, length-take,
}
use nginx_media.Buffer.{Refs, Frame, payload_len}
use nginx_media.Feed.{Feed, Cursor, publish}
use nginx_media.Feed.Read.{ReadResult, read, Outcome, refused}
use nginx_media.Feed.Valid.{IsValid, IsValid-counters}
use nginx_media.Feed.Log.{Records, publish-Records}
use nginx_media.Feed.Publish.{publish-Published, bytes-publish-le}
use nginx_media.Feed.Refusal.{read_rule}
use nginx_media.Feed.Delivery.{Delivers, read-Delivers}

pub data Event : Type 0 where
  publishes : Frame → ℕ → Event
  reads : ℕ → ℕ → ℕ → Event

-- The feed, the counts, the consumer's cursor, what it has been given, and the log.
pub record Session : Type 0 where
  pub feed : Feed
  pub refs : Refs
  pub cursor : Cursor
  pub received : List Frame
  pub log : List Frame

unfoldable pub step : Session → Event → Session
step s (publishes frame now) =
    let p = publish s.feed s.refs frame now in
    record s { feed = p.1; refs = p.2; log = s.log ++ (frame ∷ []) }
step s (reads mu mb now) =
    let res = read s.feed s.cursor mu mb now s.refs in
    record s {
      feed = res.feed;
      refs = res.refs;
      cursor = res.cursor;
      received = s.received ++ res.frames;
    }

unfoldable pub run : Session → List Event → Session
run s [] = s
run s (e ∷ es) = run (step s e) es

-- What a schedule adds to the feed's sequence number and, at most, to its bytes.
abbrev pub published_units : List Event → ℕ
published_units [] = 0
published_units (publishes frame now ∷ es) = 1 + published_units es
published_units (reads mu mb now ∷ es) = published_units es

abbrev pub published_bytes : List Event → ℕ
published_bytes [] = 0
published_bytes (publishes frame now ∷ es) = payload_len frame.payload + published_bytes es
published_bytes (reads mu mb now ∷ es) = published_bytes es

-- The consumer has received the frames of the log from `start` up to its cursor.
pub record Follows (start : ℕ) (s : Session) : Type 0 where
  pub valid : IsValid s.feed
  pub records : Records s.feed s.log
  pub started : start ≤ s.cursor.next_sequence
  pub reached : s.cursor.next_sequence ≤ s.feed.head
  pub in_order : s.received ≡ take (s.cursor.next_sequence - start) (drop start s.log)

-- The counters cannot wrap while the schedule runs.
pub record Room (s : Session) (es : List Event) : Type 0 where
  pub units : s.feed.head + published_units es < 2 ^ 64
  pub bytes : s.feed.bytes + published_bytes es < 2 ^ 64

module _ (start : ℕ) (s : Session) (i : Follows start s) where
  publish-Follows :
      (frame : Frame) (now : ℕ)
      → s.feed.head + 1 < 2 ^ 64
      → s.feed.bytes + payload_len frame.payload < 2 ^ 64
      → Follows start (step s (publishes frame now))
  unfolding step
  publish-Follows frame now fits bytes =
      let p = (publish-Published s.feed s.refs frame now i.valid fits bytes).1 in
      record {
        valid = p.valid;
        records = publish-Records s.feed s.refs frame now s.log i.valid i.records fits bytes;
        started = i.started;
        reached = omega (arith, p.next_head, i.reached);
        in_order =
            i.in_order
            ∙ sym (
                take-append_le (s.cursor.next_sequence - start) (drop start s.log) (frame ∷ [])
                  (omega (arith, i.records.logged, i.reached, length-drop start s.log)))
            ∙ ap (take (s.cursor.next_sequence - start)) (
                sym (
                  drop-append_le start s.log (frame ∷ [])
                    (omega (arith, i.records.logged, i.reached, i.started))));
      }

  -- What holds of a read's result.
  pub record Served (res : ReadResult) : Type 0 where
    valid : IsValid res.feed
    records : Records res.feed s.log
    started : start ≤ res.cursor.next_sequence
    reached : res.cursor.next_sequence ≤ res.feed.head
    in_order : s.received ++ res.frames ≡ take (res.cursor.next_sequence - start) (drop start s.log)
    bytes : res.feed.bytes ≡ s.feed.bytes
    head : res.feed.head ≡ s.feed.head

  refused-Served :
      (o : Outcome) (n m : ℕ)
      → Served
          (refused o (record s.feed { overruns = n; generation_mismatches = m }) s.cursor s.refs)
  refused-Served o n m = record {
    valid = IsValid-counters s.feed n m s.feed.fanout i.valid;
    records = record { logged = i.records.logged; suffix = i.records.suffix };
    started = i.started;
    reached = i.reached;
    in_order = append-nil s.received ∙ i.in_order;
    bytes = refl;
    head = refl;
  }

  -- A delivered batch continues the received segment.
  delivered_segment :
      (res : ReadResult) (mu mb : ℕ)
      → Delivers s.feed s.cursor mu mb s.log res
      → s.received ++ res.frames ≡ take (res.cursor.next_sequence - start) (drop start s.log)
  delivered_segment res mu mb d =
      let next : start + (s.cursor.next_sequence - start) ≡ s.cursor.next_sequence =
        omega (arith, i.started) in
      let rest : drop s.cursor.next_sequence s.log
          ≡ drop (s.cursor.next_sequence - start) (drop start s.log) =
        sym
          (drop-drop start (s.cursor.next_sequence - start) s.log ∙ ap (λ k. drop k s.log) next) in
      ap₂ ◌++◌ i.in_order (d.from_log ∙ ap (take (length res.frames)) rest)
      ∙ take-append-drop (s.cursor.next_sequence - start) (length res.frames) (drop start s.log)
      ∙ ap (λ k. take k (drop start s.log)) {x = s.cursor.next_sequence - start + length res.frames}
          {y = res.cursor.next_sequence - start} (omega (arith, d.advanced, i.started))

  delivered-Served :
      (res : ReadResult) (mu mb : ℕ) → Delivers s.feed s.cursor mu mb s.log res → Served res
  delivered-Served res mu mb d = record {
    valid =
        rw d.feed_after
          (IsValid-counters s.feed s.feed.overruns s.feed.generation_mismatches d.hist i.valid);
    records = rw d.feed_after (record { logged = i.records.logged; suffix = i.records.suffix });
    started = omega (arith, d.advanced, i.started);
    reached = omega (
      arith,
      d.advanced,
      ap length d.from_log,
      length-take (length res.frames) (drop s.cursor.next_sequence s.log),
      length-drop s.cursor.next_sequence s.log,
      i.records.logged,
      i.reached,
      ap (λ (f : Feed). f.head) d.feed_after,
    );
    in_order = delivered_segment res mu mb d;
    bytes = rw d.feed_after refl;
    head = rw d.feed_after refl;
  }

  read-Served : (mu mb now : ℕ) → Served (read s.feed s.cursor mu mb now s.refs)
  read-Served mu mb now =
      read_rule s.feed s.cursor mu mb now s.refs Served refused-Served (λ same kept got.
        delivered-Served (read s.feed s.cursor mu mb now s.refs) mu mb
          (read-Delivers s.feed s.cursor mu mb now s.refs s.log i.valid i.records same kept got))

  read-Follows : (mu mb now : ℕ) → Follows start (step s (reads mu mb now))
  unfolding step
  read-Follows mu mb now =
      let t = read-Served mu mb now in
      record {
        valid = t.valid;
        records = t.records;
        started = t.started;
        reached = t.reached;
        in_order = t.in_order;
      }

step-Room :
    (start : ℕ) (s : Session) (e : Event) (es : List Event)
    → Follows start s
    → Room s (e ∷ es)
    → Room (step s e) es
unfolding step
step-Room start s (publishes frame now) es i room =
    let p =
      (publish-Published s.feed s.refs frame now i.valid (omega (arith, room.units))
        (omega (arith, room.bytes))).1 in
    record {
      units = omega (arith, room.units, p.next_head);
      bytes = omega (arith, room.bytes, bytes-publish-le i.valid p);
    }
step-Room start s (reads mu mb now) es i room =
    let t = read-Served start s i mu mb now in
    record { units = omega (arith, room.units, t.head); bytes = omega (arith, room.bytes, t.bytes) }

step-Follows :
    (start : ℕ) (s : Session) (e : Event) (es : List Event)
    → Follows start s
    → Room s (e ∷ es)
    → Follows start (step s e)
step-Follows start s (publishes frame now) es i room =
    publish-Follows start s i frame now (omega (arith, room.units)) (omega (arith, room.bytes))
step-Follows start s (reads mu mb now) es i room = read-Follows start s i mu mb now

-- Whatever the schedule of publishes and reads on a well-formed feed, while its counters do not
-- wrap, a consumer has received exactly the frames of the publication log between the position it
-- started from and its cursor: none lost, repeated or reordered, also across refused reads, and
-- the feed stays well formed.
pub run-Follows :
    (es : List Event) (start : ℕ) (s : Session)
    → Follows start s
    → Room s es
    → Follows start (run s es)
unfolding run
run-Follows [] start s i room = i
run-Follows (e ∷ es) start s i room =
    run-Follows es start (step s e) (step-Follows start s e es i room)
      (step-Room start s e es i room)
