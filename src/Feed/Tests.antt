-- ===== src/Feed/Tests.antt =====
-- Runs of the feed on small inputs, and the theorems about it at inputs that exercise the code.
use nginx_media.Base.{ℕ, ◌+◌, ◌≡◌, refl, Bool, true, List, [], ◌∷◌, some, arith, ok}
use nginx_media.Base.Pow2.{pow2}
use nginx_media.Buffer.{Refs, Frame, frame_init, frame_copy, frame_release, buf_ref, buf_unref}
use nginx_media.Feed.{
  Feed, Conf, Cursor, zero_feed, init, evict, over_limits, prune, prune_loop, place, store, publish,
  destroy,
}
use nginx_media.Feed.Read.{read}
use nginx_media.Feed.Valid.{IsValid, contents}
use nginx_media.Feed.Publish.{Published, publish-Published}
use nginx_media.Feed.Log.{Records, publish-Records}
use nginx_media.Feed.Delivery.{Delivers, read-Delivers}
use nginx_media.Feed.Init.{fresh, init-IsValid}
use nginx_media.Feed.Keyframe.{TracksKey, publish-TracksKey}
use nginx_media.Feed.Ownership.{Owns, held, held_frames, read-refs, destroy-refs}
use nginx_media.Feed.Session.{Session, Event, publishes, reads, Follows, run, run-Follows}

abbrev conf : Conf
conf = record { max_units = 2; max_bytes = 10; max_age = 0 }

abbrev enough : ℕ → Bool
enough bytes = true

-- an empty feed of two units
abbrev feed : Feed
feed = fresh 2 conf

abbrev key_frame : Frame
key_frame = record frame_init {
  media_type = 1;
  keyframe = true;
  payload = some (record { id = 7; len = 4; capacity = 4 });
}

abbrev delta_frame : Frame
delta_frame = record frame_init {
  media_type = 1;
  payload = some (record { id = 8; len = 5; capacity = 8 });
}

abbrev counts : Refs
counts b = 1

feed-IsValid : IsValid feed × Records feed []
unfolding init pow2
feed-IsValid = init-IsValid enough conf zero_feed refl

abbrev one : Feed
one = (publish feed counts key_frame 100).1

abbrev two : Feed
two = (publish one (publish feed counts key_frame 100).2 delta_frame 140).1

two_units : (two.tail ≡ 0) × (two.head ≡ 2) × (two.bytes ≡ 9)
unfolding publish prune prune_loop evict over_limits place store frame_copy
two_units = (refl, refl, refl)

-- The third unit drives the first one out, which frees its payload's reference.
third_evicts :
    let p = publish two counts delta_frame 180 in (p.1.tail ≡ 1) × (p.1.bytes ≡ 10) × (p.2 7 ≡ 0)
unfolding publish prune prune_loop evict over_limits place store frame_copy frame_release buf_ref
    buf_unref
third_evicts = (refl, refl, refl)

init-IsValid_example :
    IsValid (init enough conf zero_feed).1 × Records (init enough conf zero_feed).1 []
unfolding init pow2
init-IsValid_example = init-IsValid enough conf zero_feed refl

publish-Published_example :
    ((publish feed counts key_frame 100).0 ≡ ok) × Published feed key_frame 100 one
publish-Published_example =
    publish-Published feed counts key_frame 100 feed-IsValid.0 (omega arith) (omega arith)

publish-Records_example : Records one (key_frame ∷ [])
publish-Records_example =
    publish-Records feed counts key_frame 100 [] feed-IsValid.0 feed-IsValid.1 (omega arith)
      (omega arith)

abbrev start : Cursor
start = record { generation = 1; next_sequence = 0 }

read-Delivers_example : Delivers one start 4 0 (key_frame ∷ []) (read one start 4 0 130 counts)
unfolding publish prune prune_loop evict over_limits place store frame_copy
read-Delivers_example =
    read-Delivers one start 4 0 130 counts (key_frame ∷ []) publish-Published_example.1.valid
      publish-Records_example refl (omega arith) (omega arith)

publish-TracksKey_example : TracksKey one.has_keyframe one.last_keyframe (key_frame ∷ [])
publish-TracksKey_example =
    publish-TracksKey feed counts key_frame 100 [] feed-IsValid.0 feed-IsValid.1 (omega arith)
      (omega arith) tt

feed-Owns : Owns counts (contents feed)
feed-Owns b = (omega arith, omega arith)

read-refs_example :
    let res = read one start 4 0 130 counts in res.refs 7 ≡ 1 + held_frames 7 res.frames
unfolding publish prune prune_loop evict over_limits place store frame_copy
read-refs_example = read-refs one start 4 0 130 counts 7 (omega arith)

destroy-refs_example :
    ((destroy feed counts).1 7 + held 7 (contents feed) ≡ 1) × ((destroy feed counts).0 ≡ zero_feed)
destroy-refs_example = destroy-refs feed counts 7 feed-IsValid.0 feed-Owns

abbrev session : Session
session = record { feed = feed; refs = counts; cursor = start; received = []; log = [] }

session-Follows : Follows 0 session
session-Follows = record {
  valid = feed-IsValid.0;
  records = feed-IsValid.1;
  started = omega arith;
  reached = omega arith;
  in_order = refl;
}

abbrev schedule : List Event
schedule =
    publishes key_frame 100
    ∷ reads 1 0 110
    ∷ publishes delta_frame 120
    ∷ publishes delta_frame 130
    ∷ reads 9 0 150
    ∷ []

run-Follows_example : Follows 0 (run session schedule)
run-Follows_example = run-Follows schedule 0 session session-Follows (omega arith)

abbrev delays : List ℕ
delays = 3 ∷ 0 ∷ 17 ∷ 900 ∷ []
