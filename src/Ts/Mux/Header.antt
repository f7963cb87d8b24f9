-- ===== src/Ts/Mux/Header.antt =====
-- The PES header that the multiplexer writes starts an access unit of the demultiplexer.
use nginx_media.Base.{
  ℕ, ◌-◌, ◌%◌, ◌^◌, ◌≤◌, ◌≡◌, ◌≢◌, refl, sym, ap, ap₂, ◌∙◌, Bool, true, false, List, [], ◌∷◌, ◌++◌,
  length, take, drop, ltb, if◌then◌else◌, arith, length-append,
}
use mathlib.Core.List.{head-eq_of_cons-eq, tail-eq_of_cons-eq}
use nginx_media.Ts.{put_ts, pes_ts}
use nginx_media.Ts.Demux.{Es, Core}
use nginx_media.Ts.Demux.Assembly.{au_append}
use nginx_media.Ts.Demux.Packet.{pes_start, pes_payload, with_pts, with_dts, fresh, no_pes}
use nginx_media.Ts.Mux.Parse.{drop-append_length}

-- The part of a PES that holds its whole header.
pub header_part :
    (hs p rest payload : List ℕ)
    → p ++ rest ≡ hs ++ payload
    → length hs ≤ length p
    → (more : List ℕ) × ((p ≡ hs ++ more) × (more ++ rest ≡ payload))
header_part [] p rest payload e h = (p, (refl, e))
header_part (x ∷ hs) [] rest payload e h = absurd (omega (arith, h))
header_part (x ∷ hs) (y ∷ p) rest payload e h =
    let (more, (same, left)) =
      header_part hs p rest payload (tail-eq_of_cons-eq e) (omega (arith, h)) in
    (more, (ap₂ (λ a l. a ∷ l) (head-eq_of_cons-eq e) same, left))

pub take_whole : (p q : List ℕ) → take (length p) (p ++ q) ≡ p
take_whole [] q = refl
take_whole (a ∷ p) q = ap (◌∷◌ a) (take_whole p q)

pub first_188 : (p q : List ℕ) → length p ≡ 188 → take 188 (p ++ q) ≡ p
first_188 p q h = ap (λ n. take n (p ++ q)) (sym h) ∙ take_whole p q

pub after_188 : (p q : List ℕ) → length p ≡ 188 → drop 188 (p ++ q) ≡ q
after_188 p q h = drop-append_length p q 188 h

-- The timestamps of a frame, as the PES carries them.
pub record Stamped (pts dts : ℕ) (t : Es) : Type 0 where
  pub has_pts : t.has_pts ≡ true
  pub same_pts : t.pts ≡ pts % 2 ^ 33
  pub same_dts : (if t.has_dts then t.dts else t.pts) ≡ dts % 2 ^ 33

-- The header of a PES of no known length, with one timestamp or two.
unfoldable pub header_with : Bool → ℕ → ℕ → List ℕ
header_with same pts dts =
    0
    ∷ 0
    ∷ 1
    ∷ 224
    ∷ 0
    ∷ 0
    ∷ 128
    ∷ (if same then 128 else 192)
    ∷ ((if same then 14 else 19) - 9)
    ∷ (put_ts (if same then 2 else 3) pts ++ (if same then [] else put_ts 1 dts))

pub length-header_with : (same : Bool) (pts dts : ℕ) → length (header_with same pts dts) ≤ 19
unfolding header_with put_ts
length-header_with true pts dts = omega arith
length-header_with false pts dts = omega arith

-- The first part holds the header, since it is the whole PES or long enough.
pub holds_header :
    (hs part rest payload : List ℕ)
    → (rest ≢ [] → 176 ≤ length part)
    → part ++ rest ≡ hs ++ payload
    → length hs ≤ 19
    → length hs ≤ length part
holds_header hs part [] payload many e short =
    omega (arith, ap length e, length-append part [], length-append hs payload)
holds_header hs part (b ∷ rest) payload many e short =
    omega (arith, many (λ h. omega (arith, ap length h)), short)

unfoldable pub begun : Es → List ℕ → Es
begun t p = with_dts (with_pts (fresh t) p) p

-- A track at the start of a PES.
pub record Clean (t t' : Es) : Type 0 where
  pub owner : t'.pid ≡ t.pid
  pub bytes : t'.au ≡ t.au
  pub whole : t'.au_overflow ≡ t.au_overflow
  pub unbounded : t'.pes_remaining ≡ 0

module _ (mem : ℕ → Bool) (i : ℕ) (d : Core) (t : Es) where
  pub started :
      (same : Bool) (pts dts : ℕ) (more : List ℕ)
      → (same ≡ true → pts ≡ dts)
      → (pes_start mem i d t (header_with same pts dts ++ more)
          ≡ au_append mem d (begun t (header_with same pts dts ++ more)) more)
        × Stamped pts dts (begun t (header_with same pts dts ++ more))
        × Clean t (begun t (header_with same pts dts ++ more))
  unfolding header_with put_ts begun pes_start pes_payload pes_ts
  started true pts dts more e =
      let p = header_with true pts dts ++ more in
      let pes : no_pes p ≡ false = ground arith in
      let inside : ltb (length p) 14 ≡ false = ground arith in
      (
        simp (pes, inside) refl,
        record { has_pts = refl; same_pts = omega arith; same_dts = omega (arith, e refl) },
        record { owner = refl; bytes = refl; whole = refl; unbounded = refl },
      )
  started false pts dts more e =
      let p = header_with false pts dts ++ more in
      let pes : no_pes p ≡ false = ground arith in
      let inside : ltb (length p) 19 ≡ false = ground arith in
      let inside' : ltb (length p) 14 ≡ false = ground arith in
      (
        simp (pes, inside, inside') refl,
        record { has_pts = refl; same_pts = omega arith; same_dts = omega arith },
        record { owner = refl; bytes = refl; whole = refl; unbounded = refl },
      )
