-- ===== src/Feed/Log.antt =====
-- The feed as a bounded view of the log of everything that was ever published.
use mathlib.Core.List.{map-append}
use nginx_media.Base.{
  ℕ, ◌+◌, ◌-◌, ◌^◌, ◌≤◌, ◌<◌, ◌≡◌, sym, ap, ◌∙◌, List, [], ◌∷◌, ◌++◌, map, arith, length, drop,
  drop-drop, drop-append_le, map-drop, length-append,
}
use nginx_media.Buffer.{Refs, Frame, payload_len}
use nginx_media.Ring.{length-window}
use nginx_media.Feed.{Feed, Slot, slot_of, publish}
use nginx_media.Feed.Valid.{IsValid, contents}
use nginx_media.Feed.Prune.{limits, trim, trim-drop}
use nginx_media.Feed.Publish.{Published, publish-Published, new_slot}

abbrev pub frames_of : List Slot → List Frame
frames_of = map (λ s. s.frame)

-- Sequence number `n` is the n-th frame of the log, and the ring holds the numbers from `tail` on.
pub record Records (f : Feed) (log : List Frame) : Type 0 where
  pub logged : length log ≡ f.head
  pub suffix : frames_of (contents f) ≡ drop f.tail log

module _ {f g : Feed} {frame : Frame} {now : ℕ} {log : List Frame} (v : IsValid f)
    (rec : Records f log) (p : Published f frame now g) where
  kept_suffix :
      (k : ℕ)
      → contents g ≡ drop k (contents f) ++ (new_slot frame now ∷ [])
      → f.tail + k ≡ g.tail
      → g.tail ≤ f.head
      → frames_of (contents g) ≡ drop g.tail (log ++ (frame ∷ []))
  kept_suffix k e t h =
      ap frames_of e
      ∙ map-append _ (drop k (contents f)) (new_slot frame now ∷ [])
      ∙ ap (λ u. u ++ (frame ∷ []))
          (map-drop _ k (contents f)
            ∙ ap (drop k) rec.suffix
            ∙ drop-drop f.tail k log
            ∙ ap (λ n. drop n log) t)
      ∙ sym (drop-append_le g.tail log (frame ∷ []) (omega (arith, rec.logged)))

  pub Published-Records : Records g (log ++ (frame ∷ []))
  Published-Records =
      let (k, e, n) = trim-drop (limits f) now (payload_len frame.payload) (contents f) in
      let len_f = length-window (slot_of f.capacity) f.slots f.tail (f.head - f.tail) in
      let len_g = length-window (slot_of g.capacity) g.slots g.tail (g.head - g.tail) in
      let kept : contents g ≡ drop k (contents f) ++ (new_slot frame now ∷ []) =
        p.kept ∙ ap (λ w. w ++ (new_slot frame now ∷ [])) e in
      let len : length (contents g) + k ≡ length (contents f) + 1 = omega (
        arith,
        n,
        ap length p.kept,
        length-append (trim (limits f) now (payload_len frame.payload) (contents f))
            (new_slot frame now ∷ []),
      ) in
      record {
        logged = omega (arith, length-append log (frame ∷ []), rec.logged, p.next_head);
        suffix =
            kept_suffix k kept
              (omega (arith, len, len_f, len_g, v.ordered, p.valid.ordered, p.next_head))
              (omega (arith, len, len_f, len_g, v.ordered, p.valid.ordered, p.next_head));
      }

-- Publishing on a well-formed feed whose counters do not wrap gives the frame the next sequence
-- number: where the feed retained a suffix of a log of frames, it retains a suffix of that log
-- with the frame at its end.
pub publish-Records :
    (f : Feed) (r : Refs) (frame : Frame) (now : ℕ) (log : List Frame)
    → IsValid f
    → Records f log
    → f.head + 1 < 2 ^ 64
    → f.bytes + payload_len frame.payload < 2 ^ 64
    → Records (publish f r frame now).1 (log ++ (frame ∷ []))
publish-Records f r frame now log v rec fits bytes =
    Published-Records v rec (publish-Published f r frame now v fits bytes).1
