-- ===== src/Stream/Single.antt =====
-- At most one source is active, and it is the one that the stream names.
use nginx_media.Base.{
  ℕ, ◌≡◌, refl, sym, ap, ◌∙◌, Bool, true, false, ◌&&◌, not, Option, none, some, List, [], ◌∷◌, ltb,
  ◌==◌, update, Bool-cases, inl, inr, ==→eq, Status, ok, error, again, declined,
}
use nginx_media.Buffer.{Refs, Frame}
use nginx_media.Preroll.{push as preroll_push, replay, ready as preroll_ready}
use nginx_media.Timeline.{timeline_map}
use nginx_media.Feed.{publish as feed_publish}
use nginx_media.Stream.{
  standby, is_activated, is_awaiting, Source, Stream, State, is_at, with_source, written,
  write_program, replay_frames, demote_old, demote, activate, splice, old_writes, switch_now,
  accepts, hold, unleased, promote, waits, resolve_loop, switch_resolve, lease, lease_begin,
  release, lease_end, count_in, publish_active, publish_standby, publish, idle, source_remove,
}

-- the two marks of an active source
abbrev pub shown : Source → Bool × Bool
shown x = (x.active, is_activated x.state)

-- A source carries both marks exactly if the stream names it.
abbrev pub Single : Stream → Type 0
Single s = (j : ℕ) → shown (s.sources j) ≡ (is_at s.active j, is_at s.active j)

record Kept (s t : Stream) : Type 0 where
  active : t.active ≡ s.active
  marks : (j : ℕ) → shown (t.sources j) ≡ shown (s.sources j)

Kept-Single : (s t : Stream) → Kept s t → Single s → Single t
Kept-Single s t k v j = k.marks j ∙ v j ∙ ap (λ a. (is_at a j, is_at a j)) (sym k.active)

Kept-refl : (s : Stream) → Kept s s
Kept-refl s = record { active = refl; marks = λ j. refl }

Kept-trans : {s t u : Stream} → Kept s t → Kept t u → Kept s u
Kept-trans a b = record { active = b.active ∙ a.active; marks = λ j. b.marks j ∙ a.marks j }

update_marks :
    (f : ℕ → Source) (i : ℕ) (x : Source)
    → shown x ≡ shown (f i)
    → (j : ℕ) → shown (update f i x j) ≡ shown (f j)
update_marks f i x e j = elim (Bool-cases (i == j)) [
  | inl same ↦ simp same (e ∙ ap (λ k. shown (f k)) (==→eq i j same))
  | inr other ↦ simp other refl
]

with-Kept :
    (s : Stream) (i : ℕ) (x : Source) → shown x ≡ shown (s.sources i) → Kept s (with_source s i x)
with-Kept s i x e = record { active = refl; marks = update_marks s.sources i x e }

written-Kept : (status : Status) (s : Stream) (r : Refs) (i : ℕ) → Kept s (written status s r i).1.0
unfolding written
written-Kept ok s r i = record { active = refl; marks = update_marks s.sources i _ refl }
written-Kept error s r i = Kept-refl s
written-Kept again s r i = Kept-refl s
written-Kept declined s r i = Kept-refl s

write-Kept :
    (t : State) (i : ℕ) (frame : Frame) (now : ℕ) → Kept t.0 (write_program t i frame now).1.0
unfolding write_program
write-Kept (s, r) i frame now =
    let (stamp, timeline) = timeline_map s.timeline (record { pts = frame.pts; dts = frame.dts }) in
    let (status, feed, r') =
      feed_publish s.program_feed r (record frame { pts = stamp.pts; dts = stamp.dts }) now in
    let k = written-Kept status (record s { timeline = timeline; program_feed = feed }) r' i in
    record { active = k.active; marks = k.marks }

replay-Kept : (fs : List Frame) (t : State) (i now : ℕ) → Kept t.0 (replay_frames fs t i now).0
unfolding replay_frames
replay-Kept [] t i now = Kept-refl t.0
replay-Kept (f ∷ fs) t i now =
    Kept-trans (write-Kept t i f now) (replay-Kept fs (write_program t i f now).1 i now)

splice-Kept : (t : State) (i now : ℕ) → Kept t.0 (splice t i now).0
unfolding splice
splice-Kept (s, r) i now =
    let played = replay_frames (replay (s.sources i).preroll) (s, r) i now in
    Kept-trans (replay-Kept (replay (s.sources i).preroll) (s, r) i now)
      (with-Kept played.0 i _ refl)

-- After a demotion no source is marked.
demote_marks :
    (s : Stream) (a : Option ℕ)
    → s.active ≡ a
    → Single s
    → (j : ℕ) → shown ((demote_old a s).sources j) ≡ (false, false)
unfolding demote_old
demote_marks s none e v j = v j ∙ ap (λ a. (is_at a j, is_at a j)) e
demote_marks s (some o) e v j = elim (Bool-cases (o == j)) [
  | inl same ↦ simp same refl
  | inr other ↦ simp other (v j ∙ ap (λ a. (is_at a j, is_at a j)) e ∙ ap (λ b. (b, b)) other)
]

count_marks : (x : Source) (frame : Frame) (now : ℕ) → shown (count_in x frame now) ≡ shown x
unfolding count_in
count_marks x frame now = refl

activate-Single :
    (s : Stream) (i : ℕ) → ((j : ℕ) → shown (s.sources j) ≡ (false, false)) → Single (activate s i)
unfolding activate
activate-Single s i v j = elim (Bool-cases (i == j)) [
  | inl same ↦ simp same refl
  | inr other ↦ simp other (v j)
]

switch-Single : (t : State) (i now : ℕ) → Single t.0 → Single (switch_now t i now).1.0
unfolding switch_now
switch-Single (s, r) i now v = elim (Bool-cases (is_at s.active i)) [
  | inl at ↦ simp at (Kept-Single s _ (with-Kept s i _ refl) v)
  | inr away ↦ simp away (elim (Bool-cases (old_writes s)) [
    | inl w ↦ simp w v
    | inr w ↦ simp w (
        Kept-Single (activate (demote s) i) _ (splice-Kept (activate (demote s) i, r) i now)
          (activate-Single (demote s) i (demote_marks s s.active refl v)))
  ])
]

-- A source that is not active may be put on hold.
hold-Kept : (s : Stream) (i : ℕ) → Single s → is_at s.active i ≡ false → Kept s (hold s i)
hold-Kept s i v away =
    with-Kept s i _ (ap (λ b. ((s.sources i).active, b)) (sym (ap (λ p. p.1) (v i) ∙ away)))

promote-Single : (t : State) (i : ℕ) → Single t.0 → Single (promote t i).1.0
unfolding promote
promote-Single (s, r) i v = elim (Bool-cases (accepts s i)) [
  | inl a ↦ simp a (elim (Bool-cases (is_at s.active i)) [
    | inl at ↦ simp at (Kept-Single s _ (with-Kept s i _ refl) v)
    | inr away ↦
        let held = Kept-Single s (hold s i) (hold-Kept s i v away) v in
        simp away (elim (Bool-cases (preroll_ready (s.sources i).preroll)) [
          | inl now ↦ simp now (switch-Single (hold s i, r) i (s.sources i).last_media held)
          | inr later ↦ simp later held
        ])
  ])
  | inr a ↦ simp a v
]

resolve-Single : (is : List ℕ) (t : State) → Single t.0 → Single (resolve_loop is t).0
unfolding resolve_loop
resolve-Single [] t v = v
resolve-Single (i ∷ is) (s, r) v = elim (Bool-cases (waits s i)) [
  | inl w ↦ simp w (resolve-Single is _ (switch-Single (s, r) i (s.sources i).last_media v))
  | inr w ↦ simp w (resolve-Single is (s, r) v)
]

release_marks : (x : Source) (r : Refs) → shown (release x r).0 ≡ shown x
unfolding release
release_marks x r = elim (Bool-cases (x.references == 0)) [
  | inl z ↦ simp z refl
  | inr z ↦
      simp z (elim (Bool-cases (x.references == 1)) [ inl o ↦ simp o refl | inr o ↦ simp o refl ])
]

begin-Kept : (s : Stream) (i : ℕ) → Kept s (lease_begin s i).1
unfolding lease_begin lease
begin-Kept s i = elim (Bool-cases (accepts s i)) [
  | inl a ↦ simp a (with-Kept s i _ refl)
  | inr a ↦ simp a (Kept-refl s)
]

end-Kept : (t : State) (i : ℕ) → Kept t.0 (lease_end t i).0
unfolding lease_end
end-Kept (s, r) i = elim (Bool-cases (ltb 0 (s.sources i).writers)) [
  | inl w ↦ simp w (
      with-Kept s i (release (unleased (s.sources i)) r).0
        (release_marks (unleased (s.sources i)) r))
  | inr w ↦ simp w (Kept-refl s)
]

is_at_other : (a : Option ℕ) (i j : ℕ) → is_at a i ≡ true → (i == j) ≡ false → is_at a j ≡ false
is_at_other none i j h n = refl
is_at_other (some k) i j h n = ap (λ m. m == j) (==→eq k i h) ∙ n

idle-Single : (s : Stream) (i : ℕ) → Single s → Single (idle s i)
unfolding idle
idle-Single s i v = elim (Bool-cases (is_at s.active i)) [
  | inl at ↦ simp at (λ j. cleared at j)
  | inr away ↦ simp away v
]
  where
    cleared :
        is_at s.active i ≡ true
        → (j : ℕ)
        → shown (update s.sources i (record (s.sources i) { active = false; state = standby }) j)
          ≡ (false, false)
    cleared at j = elim (Bool-cases (i == j)) [
      | inl same ↦ simp same refl
      | inr other ↦ simp other (v j ∙ ap (λ b. (b, b)) (is_at_other s.active i j at other))
    ]

remove-Single : (t : State) (i : ℕ) → Single t.0 → Single (source_remove t i).0
unfolding source_remove
remove-Single (s, r) i v =
    elim (Bool-cases (((s.sources i).stream == s.self) && not (s.sources i).pending_remove)) [
      | inl here ↦ simp here (
          Kept-Single idled _
            (with-Kept idled i (release (idled.sources i) r).0 (release_marks (idled.sources i) r))
            (idle-Single marked i (Kept-Single s marked (with-Kept s i _ refl) v)))
      | inr gone ↦ simp gone v
    ]
  where
    marked : Stream
    marked = with_source s i (record (s.sources i) { pending_remove = true })

    idled : Stream
    idled = idle marked i

active-Single :
    (t : State) (i : ℕ) (frame : Frame) (now : ℕ)
    → Single t.0
    → Single (publish_active t i frame now).1.0
unfolding publish_active switch_resolve
active-Single (s, r) i frame now v =
    let leased = (lease_begin s i).1 in
    let wrote = (write_program (leased, r) i frame now).1 in
    resolve-Single (lease_end wrote i).0.queue (lease_end wrote i) (
      Kept-Single s (lease_end wrote i).0
        (Kept-trans (begin-Kept s i)
          (Kept-trans (write-Kept (leased, r) i frame now) (end-Kept wrote i)))
        v)

standby-Single :
    (t : State) (i : ℕ) (frame : Frame) (now : ℕ)
    → Single t.0
    → Single (publish_standby t i frame now).1.0
unfolding publish_standby
standby-Single (s, r) i frame now v =
    let x = s.sources i in
    let (status, cached, r') = preroll_push x.has_video x.preroll r frame in
    let kept = with_source s i (record x { preroll = cached }) in
    let held = Kept-Single s kept (with-Kept s i (record x { preroll = cached }) refl) v in
    elim (Bool-cases (is_awaiting x.state && frame.keyframe)) [
      | inl go ↦ simp go (switch-Single (kept, r') i now held)
      | inr stay ↦ simp stay held
    ]

publish-Single :
    (t : State) (i : ℕ) (frame : Frame) (now : ℕ) → Single t.0 → Single (publish t i frame now).1.0
unfolding publish
publish-Single (s, r) i frame now v = elim (Bool-cases (accepts s i)) [
  | inl a ↦
      let counted = with_source s i (count_in (s.sources i) frame now) in
      let start = Kept-Single s counted (with-Kept s i _ (count_marks (s.sources i) frame now)) v in
      simp a (elim (Bool-cases (is_activated (s.sources i).state)) [
        | inl on ↦ simp on (active-Single (counted, r) i frame now start)
        | inr off ↦ simp off (standby-Single (counted, r) i frame now start)
      ])
  | inr a ↦ simp a v
]

-- The calls of a stream's users.
pub data Event : Type 0 where
  published : ℕ → Frame → ℕ → Event
  promoted removed began ended : ℕ → Event

unfoldable pub step : State → Event → State
step t (published i frame now) = (publish t i frame now).1
step t (promoted i) = (promote t i).1
step t (removed i) = source_remove t i
step t (began i) = ((lease_begin t.0 i).1, t.1)
step t (ended i) = lease_end t i

unfoldable pub run : State → List Event → State
run t [] = t
run t (e ∷ es) = run (step t e) es

step-Single : (t : State) (e : Event) → Single t.0 → Single (step t e).0
unfolding step
step-Single t (published i frame now) v = publish-Single t i frame now v
step-Single t (promoted i) v = promote-Single t i v
step-Single t (removed i) v = remove-Single t i v
step-Single t (began i) v = Kept-Single t.0 (lease_begin t.0 i).1 (begin-Kept t.0 i) v
step-Single t (ended i) v = Kept-Single t.0 (lease_end t i).0 (end-Kept t i) v

-- If no source but the one that the stream names as active is marked active or has the active gate
-- state, and that one has both, then this stays so whatever frames are published and whatever
-- sources are promoted, leased or removed, in any order.
pub run-Single : (t : State) (es : List Event) → Single t.0 → Single (run t es).0
unfolding run
run-Single t [] v = v
run-Single t (e ∷ es) v = run-Single (step t e) es (step-Single t e v)
