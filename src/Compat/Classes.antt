-- ===== src/Compat/Classes.antt =====
-- What makes a source's tracks incompatible with the program's.
use nginx_media.Base.{
  ℕ, suc, ◌≡◌, refl, sym, ap, ◌∙◌, Bool, true, false, ◌&&◌, ◌||◌, not, Option, none, some, List, [],
  ◌∷◌, length, ltb, ◌==◌, ◌/=◌, Bool-cases, inl, inr, arith,
}
use nginx_media.Compat.{
  Track, Compat, compat_ready, compat_degraded, compat_incompatible, worst, compat_track,
  match_track, match_all, reshape, classify,
}

abbrev pub is_incompatible : Compat → Bool
is_incompatible compat_incompatible = true
is_incompatible _ = false

abbrev pub any_track : (Track → Bool) → List Track → Bool
any_track p [] = false
any_track p (c ∷ cs) = p c || any_track p cs

abbrev pub same_type : Track → Track → Bool
same_type p c = c.media_type == p.media_type

-- a counterpart with another codec
abbrev pub clashes : Track → Track → Bool
clashes p c = same_type p c && (p.codec /= c.codec)

-- no counterpart, or one that clashes
abbrev pub unfit : List Track → Track → Bool
unfit cs p = not (any_track (same_type p) cs) || any_track (clashes p) cs

or_assoc : (a b c : Bool) → ((a || b) || c) ≡ (a || (b || c))
or_assoc true b c = refl
or_assoc false b c = refl

worst_incompatible :
    (a b : Compat) → is_incompatible (worst a b) ≡ (is_incompatible a || is_incompatible b)
unfolding worst
worst_incompatible compat_ready b = refl
worst_incompatible compat_degraded compat_ready = refl
worst_incompatible compat_degraded compat_degraded = refl
worst_incompatible compat_degraded compat_incompatible = refl
worst_incompatible compat_incompatible b = refl

-- Tracks of one type are incompatible exactly if their codecs differ.
track_incompatible :
    (p c : Track) → same_type p c ≡ true → is_incompatible (compat_track p c) ≡ (p.codec /= c.codec)
unfolding compat_track
track_incompatible p c t = ground arith

or_true : (b : Bool) → (b || true) ≡ true
or_true true = refl
or_true false = refl

or_nil : (b : Bool) → (b || false) ≡ b
or_nil true = refl
or_nil false = refl

eq-ne : (a b : ℕ) → (a == b) ≡ true → (a /= b) ≡ false
eq-ne a b h = ground arith

other-ne : (a b : ℕ) → (a == b) ≡ false → (a /= b) ≡ true
other-ne a b h = ground arith

match-found :
    (p : Track) (cs : List Track) (found : Bool) (result : Compat)
    → (match_track p cs found result).0 ≡ (found || any_track (same_type p) cs)
unfolding match_track
match-found p [] found result = sym (or_nil found)
match-found p (c ∷ cs) found result = elim (Bool-cases (same_type p c)) [
  | inl t ↦
      simp (t, eq-ne c.media_type p.media_type t)
        (match-found p cs true (worst result (compat_track p c)) ∙ sym (or_true found))
  | inr o ↦ simp (o, other-ne c.media_type p.media_type o) (match-found p cs found result)
]

match-result :
    (p : Track) (cs : List Track) (found : Bool) (result : Compat)
    → is_incompatible (match_track p cs found result).1
      ≡ (is_incompatible result || any_track (clashes p) cs)
unfolding match_track
match-result p [] found result = sym (or_nil (is_incompatible result))
match-result p (c ∷ cs) found result = elim (Bool-cases (same_type p c)) [
  | inl t ↦
      simp (t, eq-ne c.media_type p.media_type t)
        (match-result p cs true (worst result (compat_track p c))
          ∙ ap (λ b. b || any_track (clashes p) cs)
              (worst_incompatible result (compat_track p c)
                ∙ ap (λ b. is_incompatible result || b) (track_incompatible p c t))
          ∙ or_assoc (is_incompatible result) (p.codec /= c.codec) (any_track (clashes p) cs))
  | inr o ↦ simp (o, other-ne c.media_type p.media_type o) (match-result p cs found result)
]

lost : Option Compat → Bool
lost none = true
lost (some r) = is_incompatible r

match_all-lost :
    (ps cs : List Track) (result : Compat)
    → lost (match_all ps cs result) ≡ (is_incompatible result || any_track (unfit cs) ps)
unfolding match_all lost
match_all-lost [] cs result = sym (or_nil (is_incompatible result))
match_all-lost (p ∷ ps) cs result =
    let f = match-found p cs false result in
    elim (Bool-cases (any_track (same_type p) cs)) [
      | inl found ↦
          simp (f, found)
            (match_all-lost ps cs (match_track p cs false result).1
              ∙ ap (λ b. b || any_track (unfit cs) ps) (match-result p cs false result)
              ∙ or_assoc (is_incompatible result) (any_track (clashes p) cs)
                  (any_track (unfit cs) ps))
      | inr missing ↦ simp (f, missing) (sym (or_true (is_incompatible result)))
    ]

reshape-lost : (n m : ℕ) (r : Option Compat) → is_incompatible (reshape n m r) ≡ lost r
unfolding reshape lost
reshape-lost n m none = refl
reshape-lost n m (some r) = elim (Bool-cases (ltb n m)) [
  | inl more ↦ simp more (worst_incompatible r compat_degraded ∙ or_nil (is_incompatible r))
  | inr same ↦ simp same refl
]

-- A source with a track set is incompatible with a program that has one exactly if some program
-- track has no counterpart of its media type among the source's tracks, or has one with another
-- codec.
pub classify_incompatible :
    (ps cs : List Track) → is_incompatible (classify (some ps) (some cs)) ≡ any_track (unfit cs) ps
unfolding classify
classify_incompatible [] cs = refl
classify_incompatible (p ∷ ps) cs = simp (eq_zero (length ps)) (
    reshape-lost (length (p ∷ ps)) (length cs) (match_all (p ∷ ps) cs compat_ready)
    ∙ match_all-lost (p ∷ ps) cs compat_ready)
  where
    eq_zero : (n : ℕ) → (suc n == 0) ≡ false
    eq_zero n = ground arith
