-- ===== src/Aac/RoundTrip.antt =====
-- A header that was sent_header is read back.
use nginx_media.Base.{
  ℕ, suc, ◌+◌, ◌-◌, ◌/◌, ◌%◌, ◌≤◌, ◌<◌, ◌≡◌, refl, ap, ◌∙◌, false, some, List, [], ◌∷◌, ◌++◌,
  length, get_or, ◌==◌, Bool-cases, Option-cases, inl, inr, arith, ==→eq,
}
use nginx_media.Aac.{
  Adts, sample_rates, fields, no_sync, adts_parse, rate_index, unfit_adts, header_bytes, adts_write,
}

-- An index that the search finds is the rate's.
rate_index_lem :
    (rs : List ℕ) (i rate k : ℕ)
    → rate_index rs i rate ≡ some k
    → (i ≤ k) × (k < i + length rs) × (get_or rs (k - i) 0 ≡ rate)
unfolding rate_index
rate_index_lem [] i rate k h = absurd (ground arith)
rate_index_lem (r ∷ rs) i rate k h = elim (Bool-cases (r == rate)) [
  | inl found ↦
      let e : i ≡ k = ground (arith, h, found) in
      (
        omega arith,
        omega arith,
        ap (λ j. get_or (r ∷ rs) j 0) {y = 0} (omega arith) ∙ ==→eq r rate found,
      )
  | inr other ↦
      let h' : rate_index rs (i + 1) rate ≡ some k = ground (arith, h, other) in
      let (lo, hi, at) = rate_index_lem rs (i + 1) rate k h' in
      (
        omega arith,
        omega arith,
        ap (λ j. get_or (r ∷ rs) j 0) {y = suc (k - (i + 1))} (omega arith) ∙ at,
      )
]

-- What a successful write has passed.
write_inv :
    (a : Adts) (room : ℕ) (buf : List ℕ)
    → adts_write a room ≡ some buf
    → (unfit_adts a room ≡ false)
      × (index : ℕ) × (rate_index sample_rates 0 a.sample_rate ≡ some index)
      × (buf ≡ header_bytes a index)
unfolding adts_write
write_inv a room buf h = elim (Option-cases (rate_index sample_rates 0 a.sample_rate)) [
  | inl none_found ↦ absurd (ground (arith, h, none_found))
  | inr (index, found) ↦ (ground (arith, h, found), index, found, ground (arith, h, found))
]

parse_fields :
    (p : List ℕ)
    → 7 ≤ length p
    → no_sync p ≡ false
    → (fields p).header_len ≡ 7
    → get_or p 2 0 / 4 % 16 < 13
    → 0 < (fields p).channels
    → 7 ≤ (fields p).frame_len
    → adts_parse p ≡ some (fields p)
unfolding adts_parse
parse_fields p len sync head index channels frame = ground arith

-- The tests of a write, as bounds.
record Fit (a : Adts) (index : ℕ) : Type 0 where
  frame : a.frame_len < 8192
  object_low : 1 ≤ a.object_type
  object_high : a.object_type ≤ 4
  channels_low : 1 ≤ a.channels
  channels_high : a.channels ≤ 7
  index_low : index < 13
  rate : get_or sample_rates index 0 ≡ a.sample_rate

unfit_adts-Fit :
    (a : Adts) (room index : ℕ)
    → unfit_adts a room ≡ false
    → rate_index sample_rates 0 a.sample_rate ≡ some index
    → Fit a index
unfit_adts-Fit a room index h f =
    let (lo, hi, at) = rate_index_lem sample_rates 0 a.sample_rate index f in
    record {
      frame = ground (arith, h);
      object_low = ground (arith, h);
      object_high = ground (arith, h);
      channels_low = ground (arith, h);
      channels_high = ground (arith, h);
      index_low = hi;
      rate = ap (λ k. get_or sample_rates k 0) {x = index} {y = index - 0} (omega arith) ∙ at;
    }

module _ (a : Adts) (index : ℕ) (rest : List ℕ) (v : Fit a index) where
  sent_header : List ℕ
  sent_header = header_bytes a index ++ rest

  same_index : get_or sent_header 2 0 / 4 % 16 ≡ index
  unfolding sent_header
  same_index = omega (arith, v.object_low, v.object_high, v.index_low)

  same_fields : fields sent_header ≡ record a { header_len = 7 }
  unfolding sent_header
  same_fields = λ i. record {
    frame_len = frame i;
    header_len = 7;
    object_type = object i;
    sample_rate = rate i;
    channels = channels i;
  }
    where
      frame : (fields sent_header).frame_len ≡ a.frame_len
      frame = omega (arith, v.frame)

      object : (fields sent_header).object_type ≡ a.object_type
      object = omega (arith, v.object_low, v.object_high, v.index_low)

      rate : (fields sent_header).sample_rate ≡ a.sample_rate
      rate = ap (λ k. get_or sample_rates k 0) same_index ∙ v.rate

      channels : (fields sent_header).channels ≡ a.channels
      channels = omega (arith, v.channels_low, v.channels_high)

  read_back : 7 ≤ a.frame_len → adts_parse sent_header ≡ some (record a { header_len = 7 })
  unfolding sent_header
  read_back h =
      parse_fields sent_header (omega arith) refl refl (omega (arith, same_index, v.index_low))
        (omega (arith, ap (λ (x : Adts). x.channels) same_fields, v.channels_low))
        (omega (arith, ap (λ (x : Adts). x.frame_len) same_fields))
      ∙ ap some same_fields

-- An ADTS header that was written, whatever bytes follow it, is parsed to the values that it was
-- written from, with a header length of 7, if the frame length that it states is at least 7.
pub adts_parse-write :
    (a : Adts) (room : ℕ) (buf rest : List ℕ)
    → adts_write a room ≡ some buf
    → 7 ≤ a.frame_len
    → adts_parse (buf ++ rest) ≡ some (record a { header_len = 7 })
unfolding sent_header
adts_parse-write a room buf rest h len =
    let (fit, index, found, same) = write_inv a room buf h in
    ap (λ b. adts_parse (b ++ rest)) same
    ∙ read_back a index rest (unfit_adts-Fit a room index fit found) len
