-- ===== src/Queue/Tests.antt =====
-- A queue of two units that overruns, and the theorems about it.
use nginx_media.Base.{◌≡◌, refl, true, false, none, arith, ok, inr}
use nginx_media.Buffer.{Buf, Refs}
use nginx_media.Queue.{
  Queue, queue_init, make_room, make_room_loop, over_limits, evict, retire, displace, enqueue, push,
  start_of, sequence_of, sync_loop, answer, next, advance,
}
use nginx_media.Queue.Valid.{IsValid}
use nginx_media.Queue.Enqueue.{Queued, unit_of, push-Queued}
use nginx_media.Queue.Advance.{Advanced, advance-Advanced}

abbrev burst : Buf
burst = record { id = 3; len = 188; capacity = 188 }

abbrev counts : Refs
counts b = 1

abbrev empty : Queue
empty = record {
  units = λ i. record { burst = none; len = 0; sequence = 0; enqueue_msec = 0; keyframe = false };
  capacity = 2;
  max_bytes = 400;
  head = 0;
  tail = 0;
  bytes = 0;
  dropped = 0;
  pushed = 0;
  resync = false;
}

starts_empty : queue_init 2 400 ≡ empty
unfolding queue_init
starts_empty = refl

empty-IsValid : IsValid empty
empty-IsValid = record {
  room = omega arith;
  ordered = omega arith;
  bounded = omega arith;
  small = omega arith;
  counted = refl;
  bytes_small = omega arith;
  held = λ s a b. absurd (omega arith);
  numbered = λ s a b. absurd (omega arith);
  idle = λ s a b. refl;
}

abbrev one : Queue
one = (push empty counts burst 188 true 10).1

one-IsValid : IsValid one
one-IsValid =
    (push-Queued empty counts burst 188 true 10 empty-IsValid (omega arith) (inr (omega arith))
      (omega arith) (omega arith)).1.valid

-- The third burst drives the first one out, and a consumer then waits for a keyframe.
overrun :
    let q = (push (push one counts burst 188 false 20).1 counts burst 188 false 30).1 in
    (q.tail ≡ 1) × (q.dropped ≡ 1) × (next q 0 ≡ none)
unfolding push make_room make_room_loop over_limits evict retire displace enqueue next start_of
    sequence_of sync_loop answer
overrun = (refl, refl, refl)

push-Queued_example :
    ((push empty counts burst 188 true 10).0 ≡ ok)
    × Queued (unit_of empty burst 188 true 10) empty (push empty counts burst 188 true 10).1
push-Queued_example =
    push-Queued empty counts burst 188 true 10 empty-IsValid (omega arith) (inr (omega arith))
      (omega arith) (omega arith)

advance-Advanced_example : ((advance one counts 0).0 ≡ 1) × Advanced 0 one (advance one counts 0).1
unfolding push make_room make_room_loop over_limits evict retire displace enqueue
advance-Advanced_example = advance-Advanced one counts 0 one-IsValid (omega arith) (omega arith)
