-- ===== src/Queue.antt =====
-- src/srt/ngx_media_srt_output_queue.c: the bounded queue of prepared bursts of one SRT
-- destination.
--
-- `Queue` is `ngx_media_srt_queue_t` and `Burst` a unit of it, with the unit array as a function
-- of the index. The payload counts `Refs` pass through every call. The pointers that the code tests
-- for NULL are present, apart from a unit's burst.
pub mod Valid
pub mod Push
pub mod Enqueue
pub mod Sync
pub mod Advance
mod Tests
use nginx_media.Base.{
  ℕ, zero, suc, ◌+◌, ◌-◌, ◌%◌, Bool, true, false, ◌&&◌, ◌||◌, not, Option, none, some, ltb, leb,
  ◌==◌, ◌/=◌, if◌then◌else◌, inc64, add64, sub64, update, Status, ok, error,
}
use nginx_media.Buffer.{Buf, Refs, buf_ref, buf_unref, is_set}

pub record Burst : Type 0 where
  pub burst : Option Buf
  pub len : ℕ
  pub sequence : ℕ
  pub enqueue_msec : ℕ
  pub keyframe : Bool

abbrev pub empty_burst : Burst
empty_burst = record { burst = none; len = 0; sequence = 0; enqueue_msec = 0; keyframe = false }

pub record Queue : Type 0 where
  pub units : ℕ → Burst
  pub capacity : ℕ
  pub max_bytes : ℕ
  pub head : ℕ
  pub tail : ℕ
  pub bytes : ℕ
  pub dropped : ℕ
  pub pushed : ℕ
  pub resync : Bool

-- NGX_MEDIA_SRT_QUEUE_MAX_UNITS
abbrev pub queue_max_units : ℕ
queue_max_units = 256

unfoldable pub queue_init : ℕ → ℕ → Queue
queue_init capacity max_bytes = record {
  units = λ i. empty_burst;
  capacity = if ltb 0 capacity && leb capacity queue_max_units then capacity else queue_max_units;
  max_bytes = max_bytes;
  head = 0;
  tail = 0;
  bytes = 0;
  dropped = 0;
  pushed = 0;
  resync = false;
}

-- `q->tail % q->capacity`
abbrev pub slot_of : ℕ → ℕ → ℕ
slot_of capacity seq = seq % capacity

abbrev pub released : Burst → Burst
released u = record u { burst = none; len = 0 }

-- `if (unit->burst != NULL) bytes -= unit->len;`
abbrev pub less : Burst → ℕ → ℕ
less u bytes = if is_set u.burst then sub64 bytes u.len else bytes

-- `unit->len = 0; tail++`, and the reference given back
unfoldable pub retire : Queue → Refs → Queue × Refs
retire q r =
    let i = slot_of q.capacity q.tail in
    let u = q.units i in
    (
      record q {
        units = update q.units i (released u);
        bytes = less u q.bytes;
        tail = inc64 q.tail;
      },
      buf_unref u.burst r,
    )

unfoldable pub evict : Queue → Refs → Queue × Refs
unfolding retire
evict q r =
    let (gone, r') = retire q r in
    if leb q.head q.tail
    then (q, r)
    else (record gone { dropped = inc64 q.dropped; resync = true }, r')

-- The condition of the loop of `ngx_media_srt_queue_push`, without `tail < head`.
unfoldable pub over_limits : Queue → ℕ → Bool
over_limits q len =
    leb q.capacity (sub64 q.head q.tail)
    || (q.max_bytes /= 0 && ltb q.max_bytes (add64 q.bytes len))

unfoldable pub make_room_loop : ℕ → Queue → Refs → ℕ → Queue × Refs
make_room_loop zero q r len = (q, r)
make_room_loop (suc fuel) q r len =
    let rest = make_room_loop fuel (evict q r).0 (evict q r).1 len in
    if ltb q.tail q.head && over_limits q len then rest else (q, r)

-- Each round evicts one unit, so there are at most `head - tail` rounds.
unfoldable pub make_room : Queue → Refs → ℕ → Queue × Refs
unfolding make_room_loop
make_room q r len = make_room_loop (q.head - q.tail) q r len

-- `if (unit->burst != NULL) { ... tail++; }` on the slot about to be written
unfoldable pub displace : Queue → Refs → Queue × Refs
displace q r =
    let i = slot_of q.capacity q.head in
    let u = q.units i in
    if is_set u.burst
    then (
      record q {
        units = update q.units i (record u { burst = none });
        bytes = sub64 q.bytes u.len;
        dropped = inc64 q.dropped;
        resync = true;
        tail = inc64 q.tail;
      },
      buf_unref u.burst r,
    )
    else (q, r)

unfoldable pub enqueue : Queue → Burst → Queue
enqueue q u = record q {
  units = update q.units (slot_of q.capacity q.head) u;
  bytes = add64 q.bytes u.len;
  head = inc64 q.head;
  pushed = inc64 q.pushed;
}

unfoldable pub push : Queue → Refs → Buf → ℕ → Bool → ℕ → Status × Queue × Refs
unfolding make_room displace enqueue
push q r burst len keyframe now =
    let room = make_room q r len in
    let (ready, r') = displace room.0 room.1 in
    let unit : Burst = record {
      burst = some burst;
      len = len;
      sequence = ready.head;
      enqueue_msec = now;
      keyframe = keyframe;
    } in
    if len == 0
    then (error, q, r)
    else if q.max_bytes /= 0 && ltb q.max_bytes len
    then (ok, record q { dropped = inc64 q.dropped; resync = true }, r)
    else (ok, enqueue ready unit, buf_ref (some burst) r')

-- The first unit from `sequence` on that starts at a sync boundary, or the head.
unfoldable pub sync_loop : ℕ → Queue → ℕ → ℕ
sync_loop zero q sequence = sequence
sync_loop (suc fuel) q sequence =
    let u = q.units (slot_of q.capacity sequence) in
    let rest = sync_loop fuel q (sequence + 1) in
    if ltb sequence q.head
    then (if is_set u.burst && u.keyframe then sequence else rest)
    else sequence

-- `*cursor < tail ? tail : *cursor`
unfoldable pub start_of : Queue → ℕ → ℕ
start_of q cursor = if ltb cursor q.tail then q.tail else cursor

-- After a drop the consumer waits for a sync boundary.
unfoldable pub sequence_of : Queue → ℕ → ℕ
unfolding sync_loop
sequence_of q start = if q.resync then sync_loop (q.head - start) q start else start

-- The two tests for the head, and the unit.
unfoldable pub answer : Queue → ℕ → Option Burst
answer q sequence =
    let u = q.units (slot_of q.capacity sequence) in
    if leb q.head q.tail || leb q.head sequence
    then none
    else if is_set u.burst
    then some u
    else none

unfoldable pub next : Queue → ℕ → Option Burst
unfolding start_of sequence_of answer
next q cursor = answer q (sequence_of q (start_of q cursor))

retire_loop : ℕ → ℕ → Queue → Refs → Queue × Refs
unfolding retire
retire_loop zero stop q r = (q, r)
retire_loop (suc fuel) stop q r =
    let rest = retire_loop fuel stop (retire q r).0 (retire q r).1 in
    if ltb q.tail stop && ltb q.tail q.head then rest else (q, r)

-- A resync has skipped the retained units before `sequence`.
unfoldable pub synced : Queue → ℕ → Queue
synced q sequence =
    if q.resync && leb q.tail sequence
    then record q { dropped = add64 q.dropped (sub64 sequence q.tail); resync = false }
    else q

-- The new cursor, and the queue without what the transport has accepted.
unfoldable pub advance : Queue → Refs → ℕ → ℕ × Queue × Refs
unfolding retire_loop synced
advance q r sequence =
    let stop = inc64 sequence in
    let (rest, r') = retire_loop (q.head - q.tail) stop (synced q sequence) r in (stop, rest, r')

unfoldable pub resync : Queue → Queue
resync q = record q { resync = true }

-- memset to zero
abbrev pub zero_queue : Queue
zero_queue = record {
  units = λ i. empty_burst;
  capacity = 0;
  max_bytes = 0;
  head = 0;
  tail = 0;
  bytes = 0;
  dropped = 0;
  pushed = 0;
  resync = false;
}

-- The slots from `i` on, `n` of them.
unfoldable pub release_bursts : ℕ → ℕ → Queue → Refs → Refs
release_bursts zero i q r = r
release_bursts (suc n) i q r = release_bursts n (i + 1) q (buf_unref (q.units i).burst r)

unfoldable pub queue_destroy : Queue → Refs → Queue × Refs
queue_destroy q r = (zero_queue, release_bursts q.capacity 0 q r)
