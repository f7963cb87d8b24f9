-- ===== src/Health/Recovery.antt =====
-- Failure is immediate when the transport closes; recovery waits for the recovery timeout.
use nginx_media.Base.{
  ℕ, ◌≤◌, ◌≡◌, ◌≢◌, refl, sym, ap, ◌∙◌, Bool, true, false, ◌&&◌, ◌||◌, not, leb, ltb, sub64, arith,
  List, [], ◌∷◌, Bool-cases, inl, inr, All, ◌⊎◌,
}
use nginx_media.Base.Int.{ℤ}
use nginx_media.Health.{
  Evidence, Health, required_evidence, covers, transport, media, moves, container, tracks, refresh,
  since, decide, evaluate,
}
use nginx_media.Health.Decision.{evaluate-Decides, evaluate-Shown}

-- What happens to a source between two looks of the selector.
pub data Event : Type 0 where
  opened closed : ℕ → Event
  frame : ℤ → ℕ → Event
  errors : ℕ → ℕ → Event
  compatible : Bool → Event
  evaluated : ℕ → Event

unfoldable pub step : Health → Event → Health
step h (opened now) = transport h true now
step h (closed now) = transport h false now
step h (frame dts now) = media h dts now
step h (errors n now) = container h n now
step h (compatible b) = tracks h b
step h (evaluated now) = evaluate h now

unfoldable pub run : Health → List Event → Health
run h [] = h
run h (e ∷ es) = run (step h e) es

abbrev is_opened : Event → Bool
is_opened (opened now) = true
is_opened _ = false

-- no event of the list opens the transport again
abbrev pub StaysClosed : List Event → Type 0
StaysClosed es = All (λ e. is_opened e ≡ false) es

record Down (h : Health) : Type 0 where
  down : h.evidence.transport_up ≡ false
  required : h.required ≡ required_evidence
  eligible : h.eligible ≡ false

decide_kept :
    (h : Health) (good : Bool) (now : ℕ)
    → ((decide h good now).evidence ≡ h.evidence) × ((decide h good now).required ≡ h.required)
unfolding decide
decide_kept h true now =
    elim (Bool-cases (not h.healthy && leb h.recovery_timeout (sub64 now (since h now)))) [
      | inl c ↦ simp c (refl, refl)
      | inr c ↦ simp c (refl, refl)
    ]
decide_kept h false now = elim (Bool-cases h.healthy) [
  | inl c ↦ simp c (refl, refl)
  | inr c ↦ simp c (refl, refl)
]

evaluate-Down : (h : Health) (now : ℕ) → Down h → Down (evaluate h now)
unfolding evaluate refresh
evaluate-Down h now d =
    let (evidence, required) =
      decide_kept (record h { evidence = refresh h now }) (covers (refresh h now) h.required) now in
    record {
      down = ap (λ (e : Evidence). e.transport_up) evidence ∙ d.down;
      required = required ∙ d.required;
      eligible = elim (Bool-cases (evaluate h now).eligible) [
        | inl e ↦ absurd (true-ne-false (sym (evaluate-Shown h now d.required e).up ∙ d.down))
        | inr e ↦ e
      ];
    }
  where
    true-ne-false : true ≢ false
    true-ne-false e = ground arith

step-Down : (h : Health) (e : Event) → is_opened e ≡ false → Down h → Down (step h e)
unfolding step transport media container tracks
step-Down h (opened now) o d = absurd (ground arith)
step-Down h (closed now) o d = record { down = refl; required = d.required; eligible = refl }
step-Down h (frame dts now) o d = elim (Bool-cases (moves h dts)) [
  | inl c ↦ simp c (record { down = d.down; required = d.required; eligible = d.eligible })
  | inr c ↦ simp c (record { down = d.down; required = d.required; eligible = d.eligible })
]
step-Down h (errors n now) o d = elim (Bool-cases (ltb h.container_errors n)) [
  | inl c ↦ simp c (record { down = d.down; required = d.required; eligible = d.eligible })
  | inr c ↦ simp c d
]
step-Down h (compatible b) o d = record {
  down = d.down;
  required = d.required;
  eligible = d.eligible;
}
step-Down h (evaluated now) o d = evaluate-Down h now d

run-Down : (h : Health) (es : List Event) → StaysClosed es → Down h → Down (run h es)
unfolding run
run-Down h [] o d = d
run-Down h (e ∷ es) o d = run-Down (step h e) es o.1 (step-Down h e o.0 d)

-- From the moment its transport closes a source under the code's required evidence is not
-- eligible, whatever happens until the transport opens again.
pub closed_fails :
    (h : Health) (now : ℕ) (es : List Event)
    → h.required ≡ required_evidence
    → StaysClosed es
    → (run h (closed now ∷ es)).eligible ≡ false
unfolding run step transport
closed_fails h now es r o = (run-Down (step h (closed now)) es o (closed-Down h now r)).eligible
  where
    closed-Down :
        (h : Health) (now : ℕ) → h.required ≡ required_evidence → Down (step h (closed now))
    closed-Down h now r = record { down = refl; required = r; eligible = refl }

-- An evaluation with bad evidence keeps the start of an earlier good stretch while the source is
-- not healthy.
evaluate-keeps :
    (h : Health) (now : ℕ)
    → h.healthy ≡ false
    → covers (refresh h now) h.required ≡ false
    → evaluate h now ≡ record h { evidence = refresh h now; eligible = false }
unfolding evaluate decide
evaluate-keeps h now d bad = rw (bad, d) refl

media-keeps :
    (h : Health) (dts : ℤ) (now : ℕ)
    → ((media h dts now).required ≡ h.required)
      × ((media h dts now).healthy_since ≡ h.healthy_since)
      × ((media h dts now).recovery_timeout ≡ h.recovery_timeout)
unfolding media
media-keeps h dts now = elim (Bool-cases (moves h dts)) [
  | inl c ↦ simp c (refl, refl, refl)
  | inr c ↦ simp c (refl, refl, refl)
]

recovers :
    (h : Health) (now : ℕ)
    → covers (refresh h now) h.required ≡ true
    → h.healthy_since ≢ 0
    → h.recovery_timeout ≤ sub64 now h.healthy_since
    → (evaluate h now).eligible ≡ true
recovers h now g n late =
    let d = evaluate-Decides h now in
    d.eligible ∙ d.healthy ∙ simp g (waited (Bool-cases h.healthy))
  where
    waited :
        (h.healthy ≡ true) ⊎ (h.healthy ≡ false)
        → (h.healthy || leb h.recovery_timeout (sub64 now (since h now))) ≡ true
    waited (inl e) = simp e refl
    waited (inr e) = ground arith

-- Good evidence need not last for the recovery timeout. Take a source that is not healthy and has
-- had a good evaluation since (its `healthy_since` is set). An evaluation then finds bad evidence,
-- a frame arrives, and the next evaluation finds the evidence good and at least the recovery
-- timeout passed since that first good one: the source is eligible at once.
pub recovery_interrupted :
    (h : Health) (bad now : ℕ) (dts : ℤ)
    → h.healthy ≡ false
    → h.healthy_since ≢ 0
    → covers (refresh h bad) h.required ≡ false
    → covers (refresh (run h (evaluated bad ∷ frame dts now ∷ [])) now) h.required ≡ true
    → h.recovery_timeout ≤ sub64 now h.healthy_since
    → (run h (evaluated bad ∷ frame dts now ∷ evaluated now ∷ [])).eligible ≡ true
unfolding run step
recovery_interrupted h bad now dts d n b g late =
    let kept = evaluate-keeps h bad d b in
    let (required, began, timeout) = media-keeps (evaluate h bad) dts now in
    recovers (media (evaluate h bad) dts now) now
      (ap (covers (refresh (media (evaluate h bad) dts now) now))
          (required ∙ ap (λ (k : Health). k.required) kept)
        ∙ g)
      (λ e. n (sym (began ∙ ap (λ (k : Health). k.healthy_since) kept) ∙ e))
      (omega (
        arith,
        late,
        began,
        timeout,
        ap (λ (k : Health). k.healthy_since) kept,
        ap (λ (k : Health). k.recovery_timeout) kept,
      ))
