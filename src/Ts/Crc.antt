-- ===== src/Ts/Crc.antt =====
-- A section that ends in its checksum has the checksum zero.
use nginx_media.Base.{
  ℕ, zero, suc, ◌*◌, ◌/◌, ◌%◌, ◌^◌, ◌<◌, ◌≡◌, refl, ap, ◌∙◌, bit_xor, List, [], ◌∷◌, ◌++◌, arith,
  ◌==◌, Bool-cases, inl, inr,
}
use nginx_media.Base.Mask.{bit_xor_high, bit_xor_lt}
use nginx_media.Ts.{crc_bit, crc_bits, crc_loop, crc32, crc_bytes}

-- A register whose top bit is clear is only shifted.
crc_bit_low : (crc : ℕ) → crc < 2 ^ 31 → crc_bit crc ≡ crc * 2
unfolding crc_bit
crc_bit_low crc h = ground (arith, h)

crc_bits_low : (crc : ℕ) → crc < 2 ^ 24 → crc_bits 8 crc ≡ crc * 256
unfolding crc_bits
crc_bits_low crc h =
    rw
      (
        crc_bit_low crc (omega (arith, h)),
        crc_bit_low (crc * 2) (omega (arith, h)),
        crc_bit_low (crc * 2 * 2) (omega (arith, h)),
        crc_bit_low (crc * 2 * 2 * 2) (omega (arith, h)),
        crc_bit_low (crc * 2 * 2 * 2 * 2) (omega (arith, h)),
        crc_bit_low (crc * 2 * 2 * 2 * 2 * 2) (omega (arith, h)),
        crc_bit_low (crc * 2 * 2 * 2 * 2 * 2 * 2) (omega (arith, h)),
        crc_bit_low (crc * 2 * 2 * 2 * 2 * 2 * 2 * 2) (omega (arith, h)),
      )
      omega arith

-- The register's own top byte leaves the bytes below it, one place up.
own_byte :
    (crc b : ℕ) (p : List ℕ)
    → crc < 2 ^ 32
    → b ≡ crc / 2 ^ 24 % 256
    → crc_loop (b ∷ p) crc ≡ crc_loop p (crc % 2 ^ 24 * 256)
unfolding crc_loop
own_byte crc b p h own = ap (crc_loop p) (
    ap (λ y. crc_bits 8 (bit_xor crc y)) {y = crc / 2 ^ 24 * 2 ^ 24} (omega (arith, h, own))
    ∙ ap (crc_bits 8) (bit_xor_high 24 crc)
    ∙ crc_bits_low (crc % 2 ^ 24) (omega arith))

own_bytes : (crc : ℕ) → crc < 2 ^ 32 → crc_loop (crc_bytes crc) crc ≡ 0
unfolding crc_loop
own_bytes crc h =
    let r1 = crc % 2 ^ 24 * 256 in
    let r2 = r1 % 2 ^ 24 * 256 in
    let r3 = r2 % 2 ^ 24 * 256 in
    let b1 = crc / 2 ^ 16 % 256 in
    let b2 = crc / 2 ^ 8 % 256 in
    let b3 = crc % 256 in
    own_byte crc (crc / 2 ^ 24 % 256) (b1 ∷ b2 ∷ b3 ∷ []) h refl
    ∙ own_byte r1 b1 (b2 ∷ b3 ∷ []) (omega arith) (omega arith)
    ∙ own_byte r2 b2 (b3 ∷ []) (omega arith) (omega arith)
    ∙ own_byte r3 b3 [] (omega arith) (omega arith)
    ∙ omega arith

crc_loop-append : (p q : List ℕ) (crc : ℕ) → crc_loop (p ++ q) crc ≡ crc_loop q (crc_loop p crc)
unfolding crc_loop
crc_loop-append [] q crc = refl
crc_loop-append (b ∷ p) q crc = crc_loop-append p q _

crc_bit_lt : (crc : ℕ) → crc_bit crc < 2 ^ 32
unfolding crc_bit
crc_bit_lt crc = elim (Bool-cases (crc / 2 ^ 31 % 2 == 1)) [
  | inl top ↦ simp top (bit_xor_lt 32 (crc * 2 % 2 ^ 32) 79764919 (omega arith) (omega arith))
  | inr low ↦ simp low (omega arith)
]

crc_bits_lt : (n crc : ℕ) → crc_bits (suc n) crc < 2 ^ 32
unfolding crc_bits
crc_bits_lt zero crc = crc_bit_lt crc
crc_bits_lt (suc n) crc = crc_bits_lt n (crc_bit crc)

crc_loop_lt : (p : List ℕ) (crc : ℕ) → crc < 2 ^ 32 → crc_loop p crc < 2 ^ 32
unfolding crc_loop
crc_loop_lt [] crc h = h
crc_loop_lt (b ∷ p) crc h = crc_loop_lt p _ (crc_bits_lt 7 _)

-- Bytes that are followed by the four bytes of their checksum have the checksum zero, which is
-- what the demultiplexer tests of a section.
pub crc32_zero : (p : List ℕ) → crc32 (p ++ crc_bytes (crc32 p)) ≡ 0
unfolding crc32
crc32_zero p =
    crc_loop-append p (crc_bytes (crc32 p)) 4294967295
    ∙ own_bytes (crc32 p) (crc_loop_lt p 4294967295 (omega arith))
