-- ===== src/Ring.antt =====
-- What the rings of the program share: an array, an index for each sequence number, and the list
-- of what the live sequence numbers hold.
use native.Mathlib.Nat.{zero-sub, mod-add-mod, mod-eq_of_lt, mod-eq-sub-mod, mod-lt}
use native.Mathlib.Decide.{dec_lt}
use nginx_media.Base.{
  ℕ, zero, suc, ◌+◌, ◌-◌, ◌%◌, ◌<◌, ◌≡◌, ◌≢◌, refl, sym, subst, ap, ap₂, ◌∙◌, List, [], ◌∷◌, ◌++◌,
  arith, length, drop, update,
}

-- Fewer than `cap` steps round a ring of `cap` slots do not come back to the start.
pub mod-ne : (cap a d : ℕ) → 0 < cap → 0 < d → d < cap → (a + d) % cap ≢ a % cap
mod-ne cap a d h p q = elim (dec_lt (a % cap + d) cap) [
  | yes fits ↦ omega (arith, mod-add-mod a cap d, mod-eq_of_lt fits)
  | no wraps ↦ omega (
    arith,
    mod-lt a h,
    mod-add-mod a cap d,
    mod-eq-sub-mod {n = a % cap + d} {m = cap} (omega arith),
    mod-eq_of_lt {n = a % cap + d - cap} {m = cap} (omega (arith, mod-lt a h)),
  )
]

pub idx-ne :
    (idx : ℕ → ℕ) (cap : ℕ)
    → 0 < cap
    → ((i : ℕ) → idx i ≡ i % cap)
    → (a d : ℕ) → 0 < d
    → d < cap
    → idx (a + d) ≢ idx a
idx-ne idx cap room ring a d p q e = mod-ne cap a d room p q (sym (ring (a + d)) ∙ e ∙ ring a)

module _ {ℓ} {A : Type ℓ} (idx : ℕ → ℕ) where
  -- the `n` entries from sequence number `t` on
  abbrev pub window : (ℕ → A) → ℕ → ℕ → List A
  window slots t zero = []
  window slots t (suc n) = slots (idx t) ∷ window slots (t + 1) n

  pub length-window : (slots : ℕ → A) (t n : ℕ) → length (window slots t n) ≡ n
  length-window slots t zero = refl
  length-window slots t (suc n) = ap suc (length-window slots (t + 1) n)

  -- `window` matches on `suc`, the code tests `head > tail`.
  pub window-cons :
      (slots : ℕ → A) (t n : ℕ)
      → 0 < n
      → window slots t n ≡ slots (idx t) ∷ window slots (t + 1) (n - 1)
  window-cons slots t zero h = elim h [ ]
  window-cons slots t (suc n) h = ap (λ k. window slots t (suc k)) (omega arith)

  pub drop-window :
      (slots : ℕ → A) (k t n : ℕ) → drop k (window slots t n) ≡ window slots (t + k) (n - k)
  drop-window slots zero t n = ap₂ (window slots) (omega arith) (omega arith)
  drop-window slots (suc k) t zero = rw zero-sub refl
  drop-window slots (suc k) t (suc n) =
      drop-window slots k (t + 1) n ∙ ap₂ (window slots) (omega arith) (omega arith)

  -- A write to a slot that no live sequence number uses is not seen.
  pub window-update_ne :
      (slots : ℕ → A) (i : ℕ) (x : A) (t n : ℕ)
      → ((d : ℕ) → d < n → i ≢ idx (t + d))
      → window (update slots i x) t n ≡ window slots t n
  window-update_ne slots i x t zero h = refl
  window-update_ne slots i x t (suc n) h =
      ap₂ ◌∷◌ (other (λ e. h 0 (omega arith) (e ∙ ap idx (omega arith)))) (
        window-update_ne slots i x (t + 1) n
          (λ d p e. h (d + 1) (omega arith) (e ∙ ap idx (omega arith))))
    where
      other : i ≢ idx t → update slots i x (idx t) ≡ slots (idx t)
      other ne = ground arith

  -- One more entry at the end.
  pub window-snoc :
      (slots : ℕ → A) (t n : ℕ)
      → window slots t (suc n) ≡ window slots t n ++ (slots (idx (t + n)) ∷ [])
  window-snoc slots t zero = ap (λ i. slots (idx i) ∷ []) (omega arith)
  window-snoc slots t (suc n) = ap (◌∷◌ (slots (idx t))) (
      window-snoc slots (t + 1) n
      ∙ ap (λ i. window slots (t + 1) n ++ (slots (idx i) ∷ [])) (omega arith))

  -- The ring law: indices repeat with period `cap`.
  module _ (cap : ℕ) (room : 0 < cap) (ring : (i : ℕ) → idx i ≡ i % cap) where
    -- Writing just past a window that is not full extends it by that entry.
    pub window-push :
        (slots : ℕ → A) (x : A) (t n : ℕ)
        → n < cap
        → window (update slots (idx (t + n)) x) t (suc n) ≡ window slots t n ++ (x ∷ [])
    window-push slots x t n h =
        window-snoc (update slots (idx (t + n)) x) t n
        ∙ ap₂ (λ w y. w ++ (y ∷ [])) before (ground arith)
      where
        before : window (update slots (idx (t + n)) x) t n ≡ window slots t n
        before = window-update_ne slots (idx (t + n)) x t n (λ d p e.
            idx-ne idx cap room ring (t + d) (n - d) (omega arith) (omega arith)
              (ap idx (omega arith) ∙ e))

    pub window-push_at :
        (slots : ℕ → A) (x : A) (t n h : ℕ)
        → h ≡ t + n
        → n < cap
        → window (update slots (idx h) x) t (suc n) ≡ window slots t n ++ (x ∷ [])
    window-push_at slots x t n h e p =
        subst (λ k. window (update slots (idx k) x) t (suc n) ≡ window slots t n ++ (x ∷ []))
          (sym e) (window-push slots x t n p)

    -- Clearing the oldest slot leaves the younger entries.
    pub window-clear :
        (slots : ℕ → A) (x : A) (t n : ℕ)
        → n < cap
        → window (update slots (idx t) x) (t + 1) n ≡ window slots (t + 1) n
    window-clear slots x t n h = window-update_ne slots (idx t) x (t + 1) n (λ d p e.
        idx-ne idx cap room ring t (d + 1) (omega arith) (omega arith)
          (ap idx (omega arith) ∙ sym e))
