-- ===== src/Ts/Mux/Parse.antt =====
-- A packet that is written is read back by the demultiplexer.
use nginx_media.Base.{
  ℕ, zero, suc, ◌+◌, ◌-◌, ◌/◌, ◌%◌, ◌^◌, ◌≤◌, ◌<◌, ◌≡◌, refl, ap, subst, ◌∙◌, Bool, true, false,
  ◌&&◌, Option, none, some, List, [], ◌∷◌, ◌++◌, length, drop, get_or, ltb, leb, ◌==◌, ◌/=◌,
  if◌then◌else◌, arith, length-append,
}
use nginx_media.Ts.Demux.Packet.{
  Parsed, good_packet, parse_packet, packet_pid, packet_afc, packet_pcr,
}
use nginx_media.Ts.Mux.{fill, af_bytes, adaptation, head_bytes, packet_bytes}

-- The fields of a packet, from its first four bytes.
module _ (p : List ℕ) (pid cc : ℕ) (low : pid < 8191) (few : cc < 16)
    (b2 : get_or p 2 0 ≡ pid % 256) where
  no_error :
      (pusi : Bool)
      → get_or p 1 0 ≡ (if pusi then 64 else 0) + pid / 256 % 32
      → (get_or p 1 0 / 128 % 2 == 1) ≡ false
  no_error true b1 = ground (arith, b1)
  no_error false b1 = ground (arith, b1)

  same_pid :
      (pusi : Bool) → get_or p 1 0 ≡ (if pusi then 64 else 0) + pid / 256 % 32 → packet_pid p ≡ pid
  same_pid true b1 = omega (arith, b1, b2, low)
  same_pid false b1 = omega (arith, b1, b2, low)

  same_pusi :
      (pusi : Bool)
      → get_or p 1 0 ≡ (if pusi then 64 else 0) + pid / 256 % 32
      → (get_or p 1 0 / 64 % 2 == 1) ≡ pusi
  same_pusi true b1 = ground (arith, b1)
  same_pusi false b1 = ground (arith, b1)

  module _ (pusi : Bool) (b1 : get_or p 1 0 ≡ (if pusi then 64 else 0) + pid / 256 % 32) where
    not_null : (packet_pid p == 8191) ≡ false
    not_null = ground (arith, same_pid pusi b1, low)

    parse_plain :
        get_or p 3 0 ≡ 16 + cc
        → parse_packet p
          ≡ good_packet (record {
            pid = pid;
            pusi = pusi;
            cc = cc;
            has_payload = true;
            discontinuity = false;
            pcr = none;
            payload = drop 4 p;
          })
    unfolding parse_packet
    parse_plain b3 =
        let clear : (get_or p 3 0 / 64 % 4 /= 0) ≡ false = ground (arith, b3, few) in
        let some_field : (packet_afc p == 0) ≡ false = ground (arith, b3, few) in
        let no_field : (packet_afc p / 2 % 2 == 0) ≡ true = ground (arith, b3, few) in
        let has : (packet_afc p % 2 == 1) ≡ true = ground (arith, b3, few) in
        let counter : get_or p 3 0 % 16 ≡ cc = omega (arith, b3, few) in
        simp (no_error pusi b1, not_null, clear, some_field, no_field)
          (λ i. good_packet (record {
            pid = same_pid pusi b1 i;
            pusi = same_pusi pusi b1 i;
            cc = counter i;
            has_payload = has i;
            discontinuity = false;
            pcr = none;
            payload = if has i then drop 4 p else [];
          }))

    parse_adapted :
        get_or p 3 0 ≡ 48 + cc
        → get_or p 4 0 ≤ 183
        → (ltb 0 (get_or p 4 0) && (get_or p 5 0 / 128 % 2 == 1)) ≡ false
        → parse_packet p
          ≡ good_packet (record {
            pid = pid;
            pusi = pusi;
            cc = cc;
            has_payload = true;
            discontinuity = false;
            pcr = packet_pcr p;
            payload = drop (5 + get_or p 4 0) p;
          })
    unfolding parse_packet
    parse_adapted b3 af same =
        let clear : (get_or p 3 0 / 64 % 4 /= 0) ≡ false = ground (arith, b3, few) in
        let some_field : (packet_afc p == 0) ≡ false = ground (arith, b3, few) in
        let field : (packet_afc p / 2 % 2 == 0) ≡ false = ground (arith, b3, few) in
        let inside : ltb 183 (get_or p 4 0) ≡ false = ground (arith, af) in
        let has : (packet_afc p % 2 == 1) ≡ true = ground (arith, b3, few) in
        let counter : get_or p 3 0 % 16 ≡ cc = omega (arith, b3, few) in
        simp (no_error pusi b1, not_null, clear, some_field, field, inside)
          (λ i. good_packet (record {
            pid = same_pid pusi b1 i;
            pusi = same_pusi pusi b1 i;
            cc = counter i;
            has_payload = has i;
            discontinuity = same i;
            pcr = packet_pcr p;
            payload = if has i then drop (5 + get_or p 4 0) p else [];
          }))

length-fill : (n : ℕ) → length (fill n) ≡ n
length-fill zero = refl
length-fill (suc n) = ap suc (length-fill n)

pub drop-append_length : (xs ys : List ℕ) (n : ℕ) → length xs ≡ n → drop n (xs ++ ys) ≡ ys
drop-append_length [] ys n h = subst (λ m. drop m ys ≡ ys) h refl
drop-append_length (x ∷ xs) ys n h =
    subst (λ m. drop m (x ∷ (xs ++ ys)) ≡ ys) h (drop-append_length xs ys (length xs) refl)

length-adaptation :
    (af : ℕ) (with_pcr : Bool) (base : ℕ)
    → (with_pcr ≡ true → 8 ≤ af)
    → length (adaptation af with_pcr base) ≡ af
length-adaptation zero with_pcr base h = refl
length-adaptation (suc zero) with_pcr base h = refl
length-adaptation (suc (suc n)) true base h = omega (arith, length-fill (n - 6), h refl)
length-adaptation (suc (suc n)) false base h = omega (arith, length-fill n)

-- The PCR that the packet carries.
abbrev pub pcr_of : Bool → ℕ → Option ℕ
pcr_of true base = some base
pcr_of false base = none

abbrev pub read_as : ℕ → ℕ → Bool → Option ℕ → List ℕ → Parsed
read_as pid cc pusi pcr payload = record {
  pid = pid;
  pusi = pusi;
  cc = cc;
  has_payload = true;
  discontinuity = false;
  pcr = pcr;
  payload = payload;
}

module _ (pid cc : ℕ) (pusi : Bool) (base : ℕ) (payload : List ℕ) (low : pid < 8191) (few : cc < 16)
    (small : base < 2 ^ 33) where
  parse_bytes :
      (af : ℕ) (with_pcr : Bool)
      → (with_pcr ≡ true → 8 ≤ af)
      → af ≤ 184
      → parse_packet (head_bytes pid cc pusi af ++ (adaptation af with_pcr base ++ payload))
        ≡ good_packet (read_as pid cc pusi (pcr_of with_pcr base) payload)
  parse_bytes zero true h most = absurd (omega (arith, h refl))
  parse_bytes zero false h most =
      parse_plain (head_bytes pid cc pusi 0 ++ payload) pid cc low few refl pusi refl
        (omega (arith, few))
  parse_bytes (suc zero) true h most = absurd (omega (arith, h refl))
  parse_bytes (suc zero) false h most =
      parse_adapted (head_bytes pid cc pusi 1 ++ (0 ∷ payload)) pid cc low few refl pusi refl
        (omega (arith, few)) (omega arith) refl
  parse_bytes (suc (suc n)) true h most =
      let front = head_bytes pid cc pusi (suc (suc n)) ++ adaptation (suc (suc n)) true base in
      let p = front ++ payload in
      let size : length front ≡ 5 + suc n = omega (arith, length-fill (n - 6), h refl) in
      let some_bytes : ltb 0 (suc n) ≡ true = ground arith in
      let seven : leb 7 (suc n) ≡ true = ground (arith, h refl) in
      let pcr : packet_pcr p ≡ some base =
        simp (some_bytes, seven) (ap some (omega (arith, small))) in
      parse_adapted p pid cc low few refl pusi refl (ground (arith, few)) (omega (arith, most))
        (ground arith)
      ∙ λ i.
          good_packet
            (read_as pid cc pusi (pcr i) (drop-append_length front payload (5 + suc n) size i))
  parse_bytes (suc (suc n)) false h most =
      let front = head_bytes pid cc pusi (suc (suc n)) ++ adaptation (suc (suc n)) false base in
      let p = front ++ payload in
      let size : length front ≡ 5 + suc n = omega (arith, length-fill n) in
      let pcr : packet_pcr p ≡ none = ground arith in
      parse_adapted p pid cc low few refl pusi refl (ground (arith, few)) (omega (arith, most))
        (ground arith)
      ∙ λ i.
          good_packet
            (read_as pid cc pusi (pcr i) (drop-append_length front payload (5 + suc n) size i))

module _ (pid cc : ℕ) (pusi with_pcr : Bool) (base : ℕ) (payload : List ℕ) where
  -- What `payload_capacity` offers fills a packet together with its adaptation field.
  abbrev pub Fits : Type 0
  Fits = length payload + (if with_pcr then 8 else 0) ≤ 184

  af_lem :
      Fits
      → (af_bytes (length payload) with_pcr ≡ 184 - length payload)
        × (with_pcr ≡ true → 8 ≤ 184 - length payload)
  unfolding af_bytes
  af_lem = by_pcr with_pcr
    where
      by_pcr :
          (w : Bool)
          → length payload + (if w then 8 else 0) ≤ 184
          → (af_bytes (length payload) w ≡ 184 - length payload)
            × (w ≡ true → 8 ≤ 184 - length payload)
      by_pcr true h = (ground (arith, h), λ _. omega (arith, h))
      by_pcr false h = (ground (arith, h), λ e. ground (arith, e))

  pub first-packet_bytes : get_or (packet_bytes pid cc pusi with_pcr base payload) 0 0 ≡ 71
  unfolding packet_bytes
  first-packet_bytes = refl

  pub length-packet_bytes : Fits → length (packet_bytes pid cc pusi with_pcr base payload) ≡ 188
  unfolding packet_bytes
  length-packet_bytes h =
      let (size, pcr) = af_lem h in
      let af = af_bytes (length payload) with_pcr in
      let field = length-adaptation af with_pcr (base % 2 ^ 33) (λ e. omega (arith, size, pcr e)) in
      omega (arith, field, size, h, length-append (adaptation af with_pcr (base % 2 ^ 33)) payload)

  pub parse-packet_bytes :
      pid < 8191
      → cc < 16
      → Fits
      → parse_packet (packet_bytes pid cc pusi with_pcr base payload)
        ≡ good_packet (read_as pid cc pusi (pcr_of with_pcr (base % 2 ^ 33)) payload)
  unfolding packet_bytes
  parse-packet_bytes low few h =
      let (size, pcr) = af_lem h in
      parse_bytes pid cc pusi (base % 2 ^ 33) payload low few (omega arith)
        (af_bytes (length payload) with_pcr) with_pcr (λ e. omega (arith, size, pcr e))
        (omega (arith, size))
