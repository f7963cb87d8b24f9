-- ===== src/Nal/Split.antt =====
-- A stream that is put together from units is taken apart into them.
use nginx_media.Base.{
  ℕ, zero, suc, ◌≡◌, ◌≢◌, refl, sym, ap, subst, ◌∙◌, Bool, true, false, Option, none, some, List,
  [], ◌∷◌, ◌++◌, map, length, take, drop, get_or, All, Bool-cases, Option-cases, inl, inr, arith,
  length-append,
}
use nginx_media.Nal.{
  long_code, short_code, later, start_code, trim_zeros, extent, extent_of, after_code, pass,
  unit_at, found_unit, Found, ended, unit, next_loop, iter_next,
}
use nginx_media.Nal.Units.{IsUnit, ends_in_data}

-- The start code that a writer puts before a unit: the long one or the short one.
abbrev pub code : Bool → List ℕ
code true = 0 ∷ 0 ∷ 0 ∷ 1 ∷ []
code false = 0 ∷ 0 ∷ 1 ∷ []

pub annex_b : List (Bool × List ℕ) → List ℕ
annex_b [] = []
annex_b ((long, u) ∷ us) = code long ++ (u ++ annex_b us)

-- A stream that follows a byte of a unit adds no start code before the unit's end.
clear_append :
    (b : ℕ) (u rest : List ℕ)
    → ends_in_data (b ∷ u) ≡ true
    → long_code (b ∷ u) ≡ false
    → short_code (b ∷ u) ≡ false
    → (long_code (b ∷ (u ++ rest)) ≡ false) × (short_code (b ∷ (u ++ rest)) ≡ false)
unfolding long_code short_code
clear_append b [] rest e long short = (ground (arith, e), ground (arith, e))
clear_append b (c ∷ []) rest e long short = (ground (arith, e), ground (arith, e))
clear_append b (c ∷ d ∷ []) rest e long short = (ground (arith, e), ground (arith, short))
clear_append b (c ∷ d ∷ f ∷ u) rest e long short = (ground (arith, long), ground (arith, short))

-- The first code of a list is found `n` bytes on in a longer one.
abbrev pub shift : ℕ → Option (ℕ × ℕ) → Option (ℕ × ℕ)
shift zero o = o
shift (suc n) o = later (shift n o)

-- A list with no code starts with none, and so does what follows its first byte.
clear_inv :
    (b : ℕ) (u : List ℕ)
    → start_code (b ∷ u) ≡ none
    → (long_code (b ∷ u) ≡ false) × (short_code (b ∷ u) ≡ false) × (start_code u ≡ none)
unfolding start_code
clear_inv b u clear = elim (Bool-cases (long_code (b ∷ u))) [
  | inl long ↦ absurd (ground (arith, clear, long))
  | inr long ↦ elim (Bool-cases (short_code (b ∷ u))) [
    | inl short ↦ absurd (ground (arith, clear, long, short))
    | inr short ↦ elim (Option-cases (start_code u)) [
      | inl none_left ↦ (long, short, none_left)
      | inr (at, e) ↦ absurd (ground (arith, clear, long, short, e))
    ]
  ]
]

module _ (rest : List ℕ) where
  start_code-append :
      (u : List ℕ)
      → ends_in_data u ≡ true
      → start_code u ≡ none
      → start_code (u ++ rest) ≡ shift (length u) (start_code rest)
  unfolding start_code
  start_code-append [] e clear = absurd (ground (arith, e))
  start_code-append (b ∷ []) e clear =
      let (long, short, _) = clear_inv b [] clear in
      let (long', short') = clear_append b [] rest e long short in simp (long', short')
  start_code-append (b ∷ c ∷ u) e clear =
      let (long, short, clear') = clear_inv b (c ∷ u) clear in
      let (long', short') = clear_append b (c ∷ u) rest e long short in
      simp (long', short', start_code-append (c ∷ u) e clear')

shift_at : (n len : ℕ) → shift n (some (0, len)) ≡ some (n, len)
shift_at zero len = refl
shift_at (suc n) len = ap later (shift_at n len)

shift-none : (n : ℕ) → shift n none ≡ none
shift-none zero = refl
shift-none (suc n) = ap later (shift-none n)

-- The length of a start code.
abbrev code_length : Bool → ℕ
code_length true = 4
code_length false = 3

start_code_lem :
    (long : Bool) (q : List ℕ) → start_code (code long ++ q) ≡ some (0, code_length long)
unfolding start_code long_code short_code
start_code_lem true q = ground arith
start_code_lem false [] = refl
start_code_lem false (b ∷ q) = ground arith

last_data :
    (u rest : List ℕ)
    → ends_in_data u ≡ true
    → (k : ℕ) × (length u ≡ suc k) × (get_or (u ++ rest) k 0 ≢ 0)
last_data [] rest e = absurd (ground (arith, e))
last_data (b ∷ []) rest e = (0, refl, ground (arith, e))
last_data (b ∷ c ∷ u) rest e =
    let (k, size, h) = last_data (c ∷ u) rest e in (suc k, ap suc size, h)

trim_data : (u rest : List ℕ) → ends_in_data u ≡ true → trim_zeros (u ++ rest) (length u) ≡ length u
unfolding trim_zeros
trim_data u rest e =
    let (k, size, h) = last_data u rest e in
    subst (λ n. trim_zeros (u ++ rest) n ≡ n) (sym size) (ground (arith, h))

take_whole : (u rest : List ℕ) → take (length u) (u ++ rest) ≡ u
take_whole [] rest = refl
take_whole (b ∷ u) rest = ap (◌∷◌ b) (take_whole u rest)

drop_whole : (u rest : List ℕ) → drop (length u) (u ++ rest) ≡ rest
drop_whole [] rest = refl
drop_whole (b ∷ u) rest = drop_whole u rest

module _ (u : List ℕ) (v : IsUnit u) where
  extent_unit : (us : List (Bool × List ℕ)) → extent (u ++ annex_b us) ≡ length u
  unfolding annex_b start_code
  extent_unit [] =
      ap (extent_of (u ++ [])) (start_code-append [] u v.data_end v.no_code ∙ shift-none (length u))
      ∙ omega (arith, length-append u [])
  extent_unit ((long, w) ∷ us) =
      let rest = annex_b ((long, w) ∷ us) in
      ap (extent_of (u ++ rest)) (
        start_code-append rest u v.data_end v.no_code
        ∙ ap (shift (length u)) (start_code_lem long (w ++ annex_b us))
        ∙ shift_at (length u) (code_length long))

  cut_unit : (us : List (Bool × List ℕ)) → unit_at (u ++ annex_b us) ≡ (u, annex_b us)
  cut_unit us =
      let q = u ++ annex_b us in
      let e = extent_unit us in
      λ i. (
        (ap (λ n. take (trim_zeros q n) q) e
              ∙ ap (λ n. take n q) (trim_data u (annex_b us) v.data_end)
              ∙ take_whole u (annex_b us))
            i,
        (ap (λ n. drop n q) e ∙ drop_whole u (annex_b us)) i,
      )

  pass_unit :
      (long : Bool) (us : List (Bool × List ℕ))
      → pass (annex_b ((long, u) ∷ us)) ≡ some (u, annex_b us)
  unfolding annex_b pass
  pass_unit true us =
      let q = u ++ annex_b us in
      ap (after_code (code true ++ q)) (start_code_lem true q) ∙ ap some (cut_unit us)
  pass_unit false us =
      let q = u ++ annex_b us in
      ap (after_code (code false ++ q)) (start_code_lem false q) ∙ ap some (cut_unit us)

  outcome_unit :
      (again : List ℕ → Found) (rest : List ℕ) → found_unit again (some (u, rest)) ≡ unit u rest
  outcome_unit = by_cases u v.data_end
    where
      by_cases :
          (w : List ℕ)
          → ends_in_data w ≡ true
          → (again : List ℕ → Found) (rest : List ℕ)
          → found_unit again (some (w, rest)) ≡ unit w rest
      by_cases [] e again rest = absurd (ground (arith, e))
      by_cases (b ∷ w) e again rest = refl

-- What a client's loop over the iterator is given: the units, until the iterator has ended.
pub data Reads : List ℕ → List (List ℕ) → Type 0 where
  done : (p : List ℕ) → iter_next p ≡ ended → Reads p []
  more :
      (p u rest : List ℕ) (us : List (List ℕ))
      → iter_next p ≡ unit u rest
      → Reads rest us
      → Reads p (u ∷ us)

-- A stream that is put together from units, each behind a long or a short start code, is read back
-- by the iterator as these units in order, and then ends, if each unit ends in a byte that is not
-- zero and holds no start code.
pub annex_b-Reads :
    (us : List (Bool × List ℕ))
    → All (λ (long, u). IsUnit u) us
    → Reads (annex_b us) (map (λ (long, u). u) us)
unfolding iter_next next_loop pass start_code annex_b
annex_b-Reads [] v = done (annex_b []) refl
annex_b-Reads ((long, u) ∷ us) (v, vs) =
    let p = annex_b ((long, u) ∷ us) in
    more p u (annex_b us) (map (λ (long, u). u) us)
      (ap (found_unit (λ rest. next_loop (length p) rest)) (pass_unit u v long us)
        ∙ outcome_unit u v (λ rest. next_loop (length p) rest) (annex_b us))
      (annex_b-Reads us vs)
