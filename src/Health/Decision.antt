-- ===== src/Health/Decision.antt =====
-- What one evaluation decides, and what a source that it calls eligible has shown.
use nginx_media.Base.{
  ℕ, ◌≤◌, ◌≡◌, ◌⊎◌, sym, ◌∙◌, refl, ap, Bool, true, false, ◌&&◌, ◌||◌, leb, inc64, sub64, arith,
  Bool-cases, inl, inr,
}
use nginx_media.Health.{
  Evidence, Health, required_evidence, covers, refresh, since, decide, evaluate,
}

-- The verdict in one expression: good evidence keeps a healthy source healthy, and makes another
-- healthy once its recovery timeout is over.
abbrev pub verdict : Health → ℕ → Bool
verdict h now =
    covers (refresh h now) h.required
    && (h.healthy || leb h.recovery_timeout (sub64 now (since h now)))

abbrev changed : Bool → Bool → ℕ → ℕ
changed true true n = n
changed false false n = n
changed true false n = inc64 n
changed false true n = inc64 n

pub record Decides (h : Health) (now : ℕ) (g : Health) : Type 0 where
  pub healthy : g.healthy ≡ verdict h now
  pub eligible : g.eligible ≡ g.healthy
  pub counted : g.transitions ≡ changed h.healthy g.healthy h.transitions

decide-verdict :
    (h : Health) (good : Bool) (now : ℕ)
    → ((decide h good now).healthy
        ≡ (good && (h.healthy || leb h.recovery_timeout (sub64 now (since h now)))))
      × ((decide h good now).eligible ≡ (decide h good now).healthy)
      × ((decide h good now).transitions
          ≡ changed h.healthy (decide h good now).healthy h.transitions)
unfolding decide
decide-verdict h false now = ground arith
decide-verdict h true now = ground arith

pub evaluate-Decides : (h : Health) (now : ℕ) → Decides h now (evaluate h now)
unfolding evaluate
evaluate-Decides h now =
    let e = refresh h now in
    let (healthy, eligible, counted) =
      decide-verdict (record h { evidence = e }) (covers e h.required) now in
    record { healthy = healthy; eligible = eligible; counted = counted }

-- What a source has shown that is called eligible under the required evidence of the code.
pub record Shown (h : Health) (now : ℕ) : Type 0 where
  pub up : h.evidence.transport_up ≡ true
  pub recent : sub64 now h.last_media ≤ h.failure_timeout
  pub advancing : sub64 now h.last_ts_progress ≤ h.failure_timeout
  pub clean :
      (h.evidence.container_valid ≡ true) ⊎ (h.recovery_timeout ≤ sub64 now h.last_container_error)

covers_required :
    (e : Evidence)
    → covers e required_evidence ≡ true
    → (e.transport_up ≡ true)
      × (e.data_flowing ≡ true)
      × (e.container_valid ≡ true)
      × (e.timestamps_advancing ≡ true)
unfolding covers
covers_required e c = ground arith

refresh-Shown :
    (h : Health) (now : ℕ)
    → (refresh h now).transport_up ≡ true
    → (refresh h now).data_flowing ≡ true
    → (refresh h now).container_valid ≡ true
    → (refresh h now).timestamps_advancing ≡ true
    → Shown h now
unfolding refresh
refresh-Shown h now up flowing valid advancing = record {
  up = up;
  recent = ground arith;
  advancing = ground arith;
  clean = elim (Bool-cases h.evidence.container_valid) [
    | inl a ↦ inl a
    | inr a ↦ inr (ground arith)
  ];
}

pub evaluate-Shown :
    (h : Health) (now : ℕ)
    → h.required ≡ required_evidence
    → (evaluate h now).eligible ≡ true
    → Shown h now
evaluate-Shown h now r e =
    let d = evaluate-Decides h now in
    let good : covers (refresh h now) h.required ≡ true =
      and_left _ _ (sym d.healthy ∙ sym d.eligible ∙ e) in
    let (up, flowing, valid, advancing) =
      covers_required (refresh h now) (ap (covers (refresh h now)) (sym r) ∙ good) in
    refresh-Shown h now up flowing valid advancing
  where
    and_left : (a b : Bool) → (a && b) ≡ true → a ≡ true
    and_left true b h = refl
    and_left false b h = h
