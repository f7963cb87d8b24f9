-- ===== src/Feed/Keyframe.antt =====
-- The newest retained keyframe, and `ngx_media_feed_resync` to it.
use mathlib.Core.Path.{subst₂}
use nginx_media.Base.{
  ℕ, zero, suc, ◌+◌, ◌-◌, ◌^◌, ◌≤◌, ◌<◌, ◌≡◌, refl, sym, ap, ◌∙◌, ◌⊎◌, inl, inr, Bool, true, false,
  List, [], ◌∷◌, ◌++◌, some, arith, length, length-append, drop, subst, get_elem?, All, All-append,
  drop-append_le, drop-length, get_elem?-append_lt, get_elem?-append_length, Bool-cases, ltb, ◌&&◌,
  ok, if◌then◌else◌,
}
use nginx_media.Buffer.{Refs, Frame, payload_len, frame_copy}
use nginx_media.Feed.{Feed, Cursor, evict, prune_loop, prune, place, store, publish, over_limits}
use nginx_media.Feed.Valid.{IsValid, contents}
use nginx_media.Feed.Log.{Records, frames_of}
use nginx_media.Feed.Publish.{publish-Published}

abbrev pub NotKey : Frame → Type 0
NotKey fr = fr.keyframe ≡ false

-- Sequence number `n` is the newest keyframe of the log.
pub record NewestKey (log : List Frame) (n : ℕ) : Type 0 where
  pub key : Frame
  pub found : get_elem? log n ≡ some key
  pub is_key : key.keyframe ≡ true
  pub before_end : n < length log
  pub newest : All NotKey (drop (n + 1) log)

-- `has_keyframe` and `last_keyframe` say where the newest keyframe of the log is.
abbrev pub TracksKey : Bool → ℕ → List Frame → Type 0
TracksKey true n log = NewestKey log n
TracksKey false n log = All NotKey log

plain-TracksKey :
    (has : Bool) (n : ℕ) (log : List Frame) (frame : Frame)
    → frame.keyframe ≡ false
    → TracksKey has n log
    → TracksKey has n (log ++ (frame ∷ []))
plain-TracksKey true n log frame plain t = record {
  key = t.key;
  found = get_elem?-append_lt log (frame ∷ []) n t.before_end ∙ t.found;
  is_key = t.is_key;
  before_end = omega (arith, t.before_end, length-append log (frame ∷ []));
  newest =
      subst (All NotKey)
        (sym (drop-append_le (n + 1) log (frame ∷ []) (omega (arith, t.before_end))))
        (All-append NotKey (drop (n + 1) log) (frame ∷ []) t.newest (plain, tt));
}
plain-TracksKey false n log frame plain t = All-append NotKey log (frame ∷ []) t (plain, tt)

TracksKey-snoc :
    (has : Bool) (n : ℕ) (log : List Frame) (frame : Frame)
    → TracksKey has n log
    → TracksKey
        (if frame.keyframe then true else has)
        (if frame.keyframe then length log else n)
        (log ++ (frame ∷ []))
TracksKey-snoc has n log frame t =
    let len = length-append log (frame ∷ []) in
    elim (Bool-cases frame.keyframe) [
      | inl key ↦ simp key (record {
        key = frame;
        found = get_elem?-append_length log (frame ∷ []);
        is_key = key;
        before_end = omega (arith, len);
        newest =
            subst (All NotKey)
              (sym (drop-length (length log + 1) (log ++ (frame ∷ [])) (omega (arith, len)))) tt;
      })
      | inr plain ↦ simp plain (plain-TracksKey has n log frame plain t)
    ]

-- Pruning leaves the keyframe's position alone.
prune_loop-keyframe :
    (fuel : ℕ) (f : Feed) (r : Refs) (now incoming : ℕ)
    → let g = (prune_loop fuel f r now incoming).0 in
      (g.has_keyframe ≡ f.has_keyframe)
      × (g.last_keyframe ≡ f.last_keyframe)
      × (g.head ≡ f.head)
      × (g.generation ≡ f.generation)
unfolding prune_loop evict
prune_loop-keyframe zero f r now incoming = (refl, refl, refl, refl)
prune_loop-keyframe (suc fuel) f r now incoming =
    let ih = prune_loop-keyframe fuel (evict f r).0 (evict f r).1 now incoming in
    elim (Bool-cases (ltb f.tail f.head && over_limits f now incoming)) [
      | inl go ↦ simp go ih
      | inr stop ↦ simp stop (refl, refl, refl, refl)
    ]

publish_keyframe :
    (f : Feed) (r : Refs) (frame : Frame) (now : ℕ)
    → (publish f r frame now).0 ≡ ok
    → let g = (publish f r frame now).1 in
      (g.has_keyframe ≡ (if frame.keyframe then true else f.has_keyframe))
      × (g.last_keyframe ≡ (if frame.keyframe then f.head else f.last_keyframe))
unfolding publish place store frame_copy prune
publish_keyframe f r frame now h =
    ground (arith, prune_loop-keyframe (f.head - f.tail) f r now (payload_len frame.payload))

-- On a well-formed feed whose counters do not wrap, the keyframe fields name the newest keyframe
-- of the log after a publish if they did before it.
pub publish-TracksKey :
    (f : Feed) (r : Refs) (frame : Frame) (now : ℕ) (log : List Frame)
    → IsValid f
    → Records f log
    → f.head + 1 < 2 ^ 64
    → f.bytes + payload_len frame.payload < 2 ^ 64
    → TracksKey f.has_keyframe f.last_keyframe log
    → let g = (publish f r frame now).1 in
      TracksKey g.has_keyframe g.last_keyframe (log ++ (frame ∷ []))
publish-TracksKey f r frame now log v rec fits bytes t =
    let (has, last) =
      publish_keyframe f r frame now (publish-Published f r frame now v fits bytes).0 in
    subst₂ (λ h n. TracksKey h n (log ++ (frame ∷ []))) (sym has)
      (sym (last ∙ ap (λ n. if frame.keyframe then n else f.last_keyframe) (sym rec.logged)))
      (TracksKey-snoc f.has_keyframe f.last_keyframe log frame t)

-- Where a consumer resumes: at the newest keyframe of the log if that is retained, and at the head,
-- with no keyframe skipped, if none is.
pub record Resumes (f : Feed) (log : List Frame) (c : Cursor) : Type 0 where
  pub same_generation : c.generation ≡ f.generation
  pub retained : f.tail ≤ c.next_sequence
  pub reached : c.next_sequence ≤ f.head
  pub decodable :
      NewestKey log c.next_sequence
      ⊎ ((c.next_sequence ≡ f.head) × All NotKey (frames_of (contents f)))
