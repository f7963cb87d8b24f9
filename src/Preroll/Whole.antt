-- ===== src/Preroll/Whole.antt =====
-- The standby cache never holds part of a group of pictures.
use mathlib.Core.List.{append-nil, append_assoc}
use nginx_media.Base.{
  ℕ, zero, suc, ◌+◌, ◌-◌, ◌^◌, ◌<◌, ◌≡◌, ◌≢◌, refl, sym, ap, subst, ◌∙◌, Bool, true, false, ◌&&◌,
  ◌||◌, List, [], ◌∷◌, ◌++◌, arith, All, All-append, Bool-cases, inl, inr,
}
use nginx_media.Buffer.{Refs, Frame, payload_len}
use nginx_media.Ring.{window}
use nginx_media.Preroll.{Preroll, slot_of, is_video, push, replay_loop, replay}
use nginx_media.Preroll.Valid.{IsValid, cached}
use nginx_media.Preroll.Push.{Gop, view, keep, too_large, next, push-Refines, true-ne-false}

abbrev pub is_key : Frame → Bool
is_key f = is_video f && f.keyframe

-- nothing, or a video keyframe and the frames up to the next one
abbrev pub OneGop : List Frame → Type 0
OneGop [] = Unit
OneGop (f ∷ fs) = (is_key f ≡ true) × All (λ g. is_key g ≡ false) fs

OneGop-snoc :
    (fs : List Frame) (f : Frame) → is_key f ≡ false → fs ≢ [] → OneGop fs → OneGop (fs ++ (f ∷ []))
OneGop-snoc [] f k n h = absurd (n refl)
OneGop-snoc (x ∷ fs) f k n h = (h.0, All-append (λ g. is_key g ≡ false) fs (f ∷ []) h.1 (k, tt))

-- What the cache of a source with video holds after the frames of a log.
record Whole (g : Gop) (log : List Frame) : Type 0 where
  suffix : (before : List Frame) × (log ≡ before ++ g.frames)
  group : OneGop g.frames
  open_ : g.open_ ≡ true → g.frames ≢ []
  closed : g.open_ ≡ false → g.frames ≡ []

keep-Whole :
    (m b : ℕ) (fs log : List Frame)
    → ((before : List Frame) × (log ≡ before ++ fs))
    → OneGop fs
    → fs ≢ []
    → Whole (keep m b fs).1 log
keep-Whole m b fs log s g n = elim (Bool-cases (too_large m b fs)) [
  | inl large ↦ simp large (record {
    suffix = (log, sym (append-nil log));
    group = tt;
    open_ = λ e. absurd (ground arith);
    closed = λ e. refl;
  })
  | inr fits ↦
      simp fits
        (record { suffix = s; group = g; open_ = λ e. n; closed = λ e. absurd (ground arith) })
]

snoc-ne_nil : (fs : List Frame) (f : Frame) → fs ++ (f ∷ []) ≢ []
snoc-ne_nil [] f e = cons-ne_nil e
  where
    cons-ne_nil : {x : Frame} {xs : List Frame} → x ∷ xs ≢ []
    cons-ne_nil e = absurd (ground arith)
snoc-ne_nil (x ∷ fs) f e = absurd (ground arith)

or_true : (b : Bool) → (b || true) ≡ true
or_true true = refl
or_true false = refl

next-Whole :
    (m b : ℕ) (g : Gop) (log : List Frame) (f : Frame)
    → Whole g log
    → Whole (next true m b g f).1 (log ++ (f ∷ []))
next-Whole m b g log f w = elim (Bool-cases (is_video f && f.keyframe)) [
  | inl key ↦
      simp key (keep-Whole m b (f ∷ []) (log ++ (f ∷ [])) (log, refl) (key, tt) (snoc-ne_nil [] f))
  | inr other ↦ simp other (elim (Bool-cases g.open_) [
    | inl o ↦ simp o (
        keep-Whole m b (g.frames ++ (f ∷ [])) (log ++ (f ∷ []))
          (
            w.suffix.0,
            ap (λ l. l ++ (f ∷ [])) w.suffix.1 ∙ append_assoc w.suffix.0 g.frames (f ∷ []),
          )
          (OneGop-snoc g.frames f other (w.open_ o) w.group) (snoc-ne_nil g.frames f))
    | inr c ↦
        simp (c, or_true (is_video f))
          (record {
            suffix = (
              log ++ (f ∷ []),
              sym (append-nil (log ++ (f ∷ [])))
                  ∙ ap (λ l. (log ++ (f ∷ [])) ++ l) (sym (w.closed c)),
            );
            group = w.group;
            open_ = w.open_;
            closed = w.closed;
          })
  ])
]

-- The frames of a log, pushed one after the other.
unfoldable pub pushes : Bool → Preroll → Refs → List Frame → Preroll × Refs
pushes has_video p r [] = (p, r)
pushes has_video p r (f ∷ fs) =
    let (status, q, r') = push has_video p r f in pushes has_video q r' fs

replay-cached : (p : Preroll) → replay p ≡ cached p
unfolding replay replay_loop
replay-cached p = loop (p.head - p.tail) p.tail
  where
    loop : (n seq : ℕ) → replay_loop n seq p ≡ window (slot_of p.capacity) p.units seq n
    loop zero seq = refl
    loop (suc n) seq = ap (◌∷◌ (p.units (slot_of p.capacity seq))) (loop n (seq + 1))

empty-cached : (p : Preroll) → IsValid p → p.have_boundary ≡ false → cached p ≡ []
empty-cached p v b =
    let none_left : p.head - p.tail ≡ 0 = omega (arith, v.closed b) in
    ap (window (slot_of p.capacity) p.units p.tail) none_left

empty-Whole : (p : Preroll) → IsValid p → p.have_boundary ≡ false → Whole (view p) []
empty-Whole p v b = record {
  suffix = ([], sym (empty-cached p v b));
  group = subst OneGop (sym (empty-cached p v b)) tt;
  open_ = λ e. absurd (true-ne-false (sym e ∙ b));
  closed = λ e. empty-cached p v b;
}

pushes-Whole :
    (p : Preroll) (r : Refs) (before fs : List Frame)
    → IsValid p
    → Whole (view p) before
    → All (λ f. p.max_bytes + payload_len f.payload < 2 ^ 64) fs
    → let q = (pushes true p r fs).0 in IsValid q × Whole (view q) (before ++ fs)
unfolding pushes
pushes-Whole p r before [] v w small = (v, subst (Whole (view p)) (sym (append-nil before)) w)
pushes-Whole p r before (f ∷ fs) v w small =
    let q = push-Refines true p r f v small.0 in
    let rest =
      pushes-Whole (push true p r f).1 (push true p r f).2 (before ++ (f ∷ [])) fs q.valid
        (subst (λ g. Whole g (before ++ (f ∷ []))) (sym q.seen)
          (next-Whole p.max_units p.max_bytes (view p) before f w))
        (subst (λ m. All (λ f. m + payload_len f.payload < 2 ^ 64) fs) (sym q.shape.max_bytes)
          small.1) in
    (
      rest.0,
      subst (Whole (view (pushes true (push true p r f).1 (push true p r f).2 fs).0))
          (append_assoc before (f ∷ []) fs) rest.1,
    )

-- Push any frames on a well-formed, closed cache of a source with video, while the bytes do not
-- wrap. What a promotion then replays is the end of those frames, and it is either nothing or one
-- video keyframe with all the frames since, no other video keyframe among them.
pub pushes-OneGop :
    (p : Preroll) (r : Refs) (fs : List Frame)
    → IsValid p
    → p.have_boundary ≡ false
    → All (λ f. p.max_bytes + payload_len f.payload < 2 ^ 64) fs
    → ((before : List Frame) × (fs ≡ before ++ replay (pushes true p r fs).0))
      × OneGop (replay (pushes true p r fs).0)
pushes-OneGop p r fs v b small =
    let q = (pushes true p r fs).0 in
    let (valid, w) = pushes-Whole p r [] fs v (empty-Whole p v b) small in
    subst (λ l. ((before : List Frame) × (fs ≡ before ++ l)) × OneGop l) (sym (replay-cached q))
      (w.suffix, w.group)
