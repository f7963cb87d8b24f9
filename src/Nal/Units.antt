-- ===== src/Nal/Units.antt =====
-- The search for the next unit ends, and what it finds is a unit of the buffer.
use nginx_media.Base.{
  ℕ, zero, suc, ◌+◌, ◌-◌, ◌≤◌, ◌<◌, ◌≡◌, ◌≢◌, ◌⊎◌, refl, sym, ap, subst, ◌∙◌, Bool, true, false,
  not, Option, none, some, List, [], ◌∷◌, length, take, drop, get_or, ◌==◌, Bool-cases,
  Option-cases, inl, inr, arith, length-take, length-drop, drop-drop,
}
use nginx_media.Nal.{
  long_code, short_code, start_code, trim_zeros, extent, extent_of, after_code, pass, found_unit,
  Found, ended, unit, next_loop, iter_next,
}

-- The last byte of a unit is not zero; the empty list is no unit.
abbrev pub ends_in_data : List ℕ → Bool
ends_in_data [] = false
ends_in_data (b ∷ []) = not (b == 0)
ends_in_data (b ∷ c ∷ u) = ends_in_data (c ∷ u)

pub record IsUnit (u : List ℕ) : Type 0 where
  pub data_end : ends_in_data u ≡ true
  pub no_code : start_code u ≡ none

start_code_bound :
    (p : List ℕ) (n len : ℕ) → start_code p ≡ some (n, len) → (3 ≤ len) × (n + len ≤ length p)
unfolding start_code long_code short_code
start_code_bound [] n len h = absurd (ground arith)
start_code_bound (b ∷ p) n len h = elim (Bool-cases (long_code (b ∷ p))) [
  | inl long ↦ ground (arith, h, long)
  | inr long ↦ elim (Bool-cases (short_code (b ∷ p))) [
    | inl short ↦ ground (arith, h, long, short)
    | inr short ↦ elim (Option-cases (start_code p)) [
      | inl e ↦ absurd (ground (arith, h, long, short, e))
      | inr ((n', len'), e) ↦
          let (low, high) = start_code_bound p n' len' e in
          ground (arith, h, long, short, e, low, high)
    ]
  ]
]

pub extent_later :
    (b : ℕ) (p : List ℕ)
    → long_code (b ∷ p) ≡ false
    → short_code (b ∷ p) ≡ false
    → extent (b ∷ p) ≡ suc (extent p)
unfolding start_code
extent_later b p long short = elim (Option-cases (start_code p)) [
  | inl e ↦ ground (arith, long, short, e)
  | inr (at, e) ↦ ground (arith, long, short, e)
]

pub extent-none : (p : List ℕ) → start_code p ≡ none → extent p ≡ length p
extent-none p h = ap (extent_of p) h

extent_le : (p : List ℕ) → extent p ≤ length p
unfolding start_code
extent_le [] = omega arith
extent_le (b ∷ p) = elim (Bool-cases (long_code (b ∷ p))) [
  | inl long ↦ ground (arith, long)
  | inr long ↦ elim (Bool-cases (short_code (b ∷ p))) [
    | inl short ↦ ground (arith, long, short)
    | inr short ↦ omega (arith, extent_later b p long short, extent_le p)
  ]
]

-- A start code in a prefix is one of the whole.
prefix_code :
    (b : ℕ) (p : List ℕ) (m : ℕ)
    → long_code (b ∷ p) ≡ false
    → short_code (b ∷ p) ≡ false
    → (long_code (b ∷ take m p) ≡ false) × (short_code (b ∷ take m p) ≡ false)
unfolding long_code short_code
prefix_code b p zero long short = (refl, refl)
prefix_code b [] (suc m) long short = (refl, refl)
prefix_code b (c ∷ p) (suc zero) long short = (refl, refl)
prefix_code b (c ∷ []) (suc (suc m)) long short = (refl, refl)
prefix_code b (c ∷ d ∷ p) (suc (suc zero)) long short = (refl, ground (arith, short))
prefix_code b (c ∷ d ∷ []) (suc (suc (suc m))) long short = (refl, short)
prefix_code b (c ∷ d ∷ e ∷ p) (suc (suc (suc m))) long short =
    (ground (arith, long), ground (arith, short))

pub prefix_clear : (p : List ℕ) (m : ℕ) → m ≤ extent p → start_code (take m p) ≡ none
unfolding start_code
prefix_clear p zero h = refl
prefix_clear [] (suc m) h = refl
prefix_clear (b ∷ p) (suc m) h = elim (Bool-cases (long_code (b ∷ p))) [
  | inl long ↦ absurd (ground (arith, h, long))
  | inr long ↦ elim (Bool-cases (short_code (b ∷ p))) [
    | inl short ↦ absurd (ground (arith, h, long, short))
    | inr short ↦
        let (long', short') = prefix_code b p m long short in
        let later_le : m ≤ extent p = omega (arith, h, extent_later b p long short) in
        simp (long', short', prefix_clear p m later_le)
  ]
]

-- What is left of `n` bytes ends in a byte that is not zero, unless nothing is left.
trim_lem :
    (p : List ℕ) (n : ℕ)
    → (trim_zeros p n ≤ n) × ((k : ℕ) → trim_zeros p n ≡ suc k → get_or p k 0 ≢ 0)
unfolding trim_zeros
trim_lem p zero = (omega arith, λ k h. absurd (omega arith))
trim_lem p (suc n) =
    let (low, last) = trim_lem p n in
    elim (Bool-cases (get_or p n 0 == 0)) [
      | inl zero_byte ↦
          (ground (arith, low, zero_byte), λ k h. last k (ground (arith, zero_byte, h)))
      | inr data_byte ↦ (
        ground (arith, data_byte),
        λ k h.
            subst (λ j. get_or p j 0 ≢ 0) {x = n} (ground (arith, data_byte, h))
              (ground (arith, data_byte)),
      )
    ]

ends_take : (k : ℕ) (p : List ℕ) → get_or p k 0 ≢ 0 → ends_in_data (take (suc k) p) ≡ true
ends_take k [] h = absurd (h refl)
ends_take zero (b ∷ p) h = ground (arith, h)
ends_take (suc k) (b ∷ []) h = absurd (h refl)
ends_take (suc k) (b ∷ c ∷ p) h = ends_take k (c ∷ p) h

-- One pass leaves fewer bytes, all of them the buffer's, and what it cut out is a unit or empty.
pub record Cut (p nal rest : List ℕ) : Type 0 where
  before : ℕ
  after : ℕ
  inside : before + length nal ≤ after
  progress : 0 < after
  within : after ≤ length p
  nal_bytes : nal ≡ take (length nal) (drop before p)
  rest_bytes : rest ≡ drop after p
  nal_unit : nal ≢ [] → IsUnit nal

ends_trim :
    (q : List ℕ) (t : ℕ)
    → ((k : ℕ) → t ≡ suc k → get_or q k 0 ≢ 0)
    → take t q ≢ []
    → ends_in_data (take t q) ≡ true
ends_trim q zero last h = absurd (h refl)
ends_trim q (suc k) last h = ends_take k q (last k refl)

module _ (p : List ℕ) (n len : ℕ) (found : start_code p ≡ some (n, len)) where
  cut_lem :
      let q : List ℕ = drop (n + len) p in
      Cut p (take (trim_zeros q (extent q)) q) (drop (extent q) q)
  cut_lem =
      let q : List ℕ = drop (n + len) p in
      let t = trim_zeros q (extent q) in
      let (long, inside_p) = start_code_bound p n len found in
      let (short, last) = trim_lem q (extent q) in
      let size : length q ≡ length p - (n + len) = length-drop (n + len) p in
      let low = extent_le q in
      let size_nal : length (take t q) ≡ t = length-take t q ∙ omega (arith, short, low) in
      record {
        before = n + len;
        after = n + len + extent q;
        inside = omega (arith, size_nal, short);
        progress = omega (arith, long);
        within = omega (arith, size, low, inside_p);
        nal_bytes = ap (λ m. take m q) (sym size_nal);
        rest_bytes = drop-drop (n + len) (extent q) p;
        nal_unit =
            λ h. record { data_end = ends_trim q t last h; no_code = prefix_clear q t short };
      }

-- A pass over an empty unit, and a pass over what it left, are one cut.
Cut-later : (p r nal rest : List ℕ) → Cut p [] r → Cut r nal rest → Cut p nal rest
Cut-later p r nal rest v w =
    let size : length r ≡ length p - v.after = ap length v.rest_bytes ∙ length-drop v.after p in
    record {
      before = v.after + w.before;
      after = v.after + w.after;
      inside = omega (arith, w.inside);
      progress = omega (arith, v.progress);
      within = omega (arith, w.within, size, v.within, w.progress);
      nal_bytes =
          w.nal_bytes
          ∙ ap (λ l. take (length nal) (drop w.before l)) v.rest_bytes
          ∙ ap (take (length nal)) (drop-drop v.after w.before p);
      rest_bytes = w.rest_bytes ∙ ap (drop w.after) v.rest_bytes ∙ drop-drop v.after w.after p;
      nal_unit = w.nal_unit;
    }

-- Only empty units are left.
pub data Exhausted : List ℕ → Type 0 where
  no_more : (p : List ℕ) → start_code p ≡ none → Exhausted p
  empty_unit : (p rest : List ℕ) → pass p ≡ some ([], rest) → Exhausted rest → Exhausted p

pub data Search (p : List ℕ) : Found → Type 0 where
  at_end : Exhausted p → Search p ended
  at_unit : (nal rest : List ℕ) → nal ≢ [] → Cut p nal rest → Search p (unit nal rest)

pass_inv :
    (p : List ℕ)
    → ((start_code p ≡ none) × (pass p ≡ none))
      ⊎ ((r : List ℕ × List ℕ) × ((pass p ≡ some r) × Cut p r.0 r.1))
unfolding pass
pass_inv p = elim (Option-cases (start_code p)) [
  | inl e ↦ inl (e, ap (after_code p) e)
  | inr ((n, len), e) ↦
      let q : List ℕ = drop (n + len) p in
      inr (
        (take (trim_zeros q (extent q)) q, drop (extent q) q),
        (ap (after_code p) e, cut_lem p n len e),
      )
]

outcome_later :
    (p rest : List ℕ) (f : Found)
    → pass p ≡ some ([], rest)
    → Cut p [] rest
    → Search rest f
    → Search p f
outcome_later p rest f e v (at_end h) = at_end (empty_unit p rest e h)
outcome_later p rest f e v (at_unit nal rest' h w) =
    at_unit nal rest' h (Cut-later p rest nal rest' v w)

next_loop-Search : (fuel : ℕ) (p : List ℕ) → length p < fuel → Search p (next_loop fuel p)
unfolding next_loop
next_loop-Search zero p h = absurd (omega (arith, h))
next_loop-Search (suc fuel) p h =
    let again = λ (rest : List ℕ). next_loop fuel rest in
    let at : (r : Option (List ℕ × List ℕ))
        → pass p ≡ r
        → Search p (found_unit again r)
        → Search p (next_loop (suc fuel) p) =
      λ r e. subst (λ r'. Search p (found_unit again r')) (sym e) in
    elim (pass_inv p) [
      | inl (none_left, e) ↦ at none e (at_end (no_more p none_left))
      | inr (([], rest), (e, v)) ↦
          let size : length rest ≡ length p - v.after =
            ap length v.rest_bytes ∙ length-drop v.after p in
          let shorter : length rest < fuel = omega (arith, h, size, v.progress, v.within) in
          at (some ([], rest)) e
            (outcome_later p rest (next_loop fuel rest) e v (next_loop-Search fuel rest shorter))
      | inr ((b ∷ nal, rest), (e, v)) ↦
          at (some (b ∷ nal, rest)) e (at_unit (b ∷ nal) rest (λ h. ground (arith, h)) v)
    ]

-- The search for the next unit ends for every buffer. Either only empty units were left, or the
-- result is a unit: bytes of the buffer that are not empty, do not end in zero and hold no start
-- code, and the iterator moves to a later place of the buffer behind them.
pub iter_next-Search : (p : List ℕ) → Search p (iter_next p)
unfolding iter_next
iter_next-Search p = next_loop-Search (suc (length p)) p (omega arith)
