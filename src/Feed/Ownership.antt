-- ===== src/Feed/Ownership.antt =====
-- Payload references: the feed holds one for each retained unit, and gives back each one it takes.
use nginx_media.Base.{
  inc64, add64, ℕ, zero, suc, ◌+◌, ◌-◌, ◌^◌, ◌≤◌, ◌<◌, ◌≡◌, refl, ap, List, [], ◌∷◌, Option, none,
  some, arith, if◌then◌else◌, ◌==◌,
}
use nginx_media.Ring.{window}
use nginx_media.Buffer.{Buf, Refs, Frame, payload_len, buf_ref, buf_unref, frame_release}
use nginx_media.Feed.{Feed, Slot, slot_of, evict, destroy, evict_all, zero_feed, Cursor}
use nginx_media.Feed.Hist.{Histogram}
use nginx_media.Feed.Read.{read_loop, read, note_delay, deliver, Taken}
use nginx_media.Feed.Valid.{IsValid, contents, contents-evict, evict-IsValid, left-evict}

-- The references to the buffer `b` that a pointer is, and that a list of units holds.
abbrev pub holds : ℕ → Option Buf → ℕ
holds b none = 0
holds b (some x) = if x.id == b then 1 else 0

abbrev pub held : ℕ → List Slot → ℕ
held b [] = 0
held b (s ∷ w) = holds b s.frame.payload + held b w

-- The count of every buffer covers what the feed holds of it.
abbrev pub Owns : Refs → List Slot → Type 0
Owns r w = (b : ℕ) → (held b w ≤ r b) × (r b < 2 ^ 64)

holds-le : (b : ℕ) (p : Option Buf) → holds b p ≤ 1
holds-le b none = omega arith
holds-le b (some x) = ground arith

buf_ref_lem :
    (p : Option Buf) (r : Refs) (b : ℕ) → r b + 1 < 2 ^ 64 → buf_ref p r b ≡ r b + holds b p
unfolding buf_ref
buf_ref_lem none r b h = omega arith
buf_ref_lem (some x) r b h = ground arith

buf_unref_lem :
    (p : Option Buf) (r : Refs) (b : ℕ)
    → holds b p ≤ r b
    → r b < 2 ^ 64
    → buf_unref p r b + holds b p ≡ r b
unfolding buf_unref
buf_unref_lem none r b h l = omega arith
buf_unref_lem (some x) r b h l = ground arith

module _ (f : Feed) (r : Refs) (v : IsValid f) (more : f.tail < f.head)
    (own : Owns r (contents f)) where
  held-evict :
      (b : ℕ)
      → held b (contents f)
        ≡ holds b (f.slots (slot_of f.capacity f.tail)).frame.payload
          + held b (contents (evict f r).0)
  held-evict b = ap (held b) (contents-evict f r v more)

  -- An eviction gives back the one reference of the unit that it drops.
  refs-evict :
      (b : ℕ) → (evict f r).1 b + held b (contents f) ≡ r b + held b (contents (evict f r).0)
  unfolding evict frame_release
  refs-evict b = omega (
    arith,
    held-evict b,
    (own b).0,
    buf_unref_lem (f.slots (slot_of f.capacity f.tail)).frame.payload r b
        (omega (arith, held-evict b, (own b).0)) (own b).1,
  )

  evict-Owns : Owns (evict f r).1 (contents (evict f r).0)
  evict-Owns b =
      let e = refs-evict b in let h = held-evict b in let o = own b in (omega arith, omega arith)

-- The units of a list of frames, as references.
abbrev pub held_frames : ℕ → List Frame → ℕ
held_frames b [] = 0
held_frames b (x ∷ w) = holds b x.payload + held_frames b w

read_loop-refs :
    (fuel : ℕ) (f : Feed) (mu mb now seq count bytes : ℕ) (h : Histogram) (r : Refs) (b : ℕ)
    → r b + fuel < 2 ^ 64
    → let t = read_loop fuel f mu mb now seq count bytes h r in
      t.refs b ≡ r b + held_frames b t.frames
unfolding read_loop
read_loop-refs zero f mu mb now seq count bytes h r b room = omega arith
read_loop-refs (suc fuel) f mu mb now seq count bytes h r b room =
    let s = f.slots (slot_of f.capacity seq) in
    let r' = buf_ref s.frame.payload r in
    let one : r' b ≡ r b + holds b s.frame.payload =
      buf_ref_lem s.frame.payload r b (omega arith) in
    let few : holds b s.frame.payload ≤ 1 = holds-le b s.frame.payload in
    ground (
      arith,
      one,
      few,
      read_loop-refs fuel f mu mb now (inc64 seq) (inc64 count)
          (add64 bytes (payload_len s.frame.payload)) (note_delay h now s.publish_time) r' b,
    )

deliver_refs :
    (w : List Frame) (f : Feed) (c : Cursor) (t : Taken) (b : ℕ) (r : Refs)
    → t.refs b ≡ r b + held_frames b w
    → (deliver w f c t).refs b ≡ r b + held_frames b (deliver w f c t).frames
deliver_refs [] f c t b r e = e
deliver_refs (x ∷ w) f c t b r e = e

-- A read takes one reference of a payload for each frame with that payload that it hands out, and
-- none when it refuses, while the payload's count does not wrap.
pub read-refs :
    (f : Feed) (c : Cursor) (mu mb now : ℕ) (r : Refs) (b : ℕ)
    → r b + (f.head - c.next_sequence) < 2 ^ 64
    → let res = read f c mu mb now r in res.refs b ≡ r b + held_frames b res.frames
unfolding read
read-refs f c mu mb now r b room =
    let n = f.head - c.next_sequence in
    ground (
      arith,
      deliver_refs (read_loop n f mu mb now c.next_sequence 0 0 f.fanout r).frames f c
          (read_loop n f mu mb now c.next_sequence 0 0 f.fanout r) b r,
      read_loop-refs n f mu mb now c.next_sequence 0 0 f.fanout r b room,
    )

evict_all-refs :
    (n : ℕ) (f : Feed) (r : Refs) (b : ℕ)
    → f.head - f.tail ≡ n
    → IsValid f
    → Owns r (contents f)
    → (evict_all n f r).1 b + held b (contents f) ≡ r b
unfolding evict_all
evict_all-refs zero f r b e v own =
    omega (arith, ap (λ k. held b (window (slot_of f.capacity) f.slots f.tail k)) e)
evict_all-refs (suc n) f r b e v own =
    let more : f.tail < f.head = omega arith in
    omega (
      arith,
      refs-evict f r v more own b,
      evict_all-refs n (evict f r).0 (evict f r).1 b (omega (arith, left-evict f r v more))
          (evict-IsValid f r v more) (evict-Owns f r v more own),
    )

-- Destroying a well-formed feed whose references are counted gives back exactly the references
-- that its retained units hold, and leaves a zeroed feed.
pub destroy-refs :
    (f : Feed) (r : Refs) (b : ℕ)
    → IsValid f
    → Owns r (contents f)
    → ((destroy f r).1 b + held b (contents f) ≡ r b) × ((destroy f r).0 ≡ zero_feed)
unfolding destroy
destroy-refs f r b v own = simp v.live (evict_all-refs (f.head - f.tail) f r b refl v own, refl)
