-- ===== src/Base/Mask.antt =====
-- `x & (capacity - 1)` is the remainder by a capacity that is a power of two.
use Prim.Native.Nat.{ℕ, zero, suc, ◌+◌, ◌-◌, ◌*◌, ◌/◌, ◌%◌, ◌^◌, ◌≤◌, ◌<◌, min, bit_and}
use Prim.Native.Nat.{digits, differ, bit_xor, bit_xor-bitwise, bit_and-bitwise}
use mathlib.Core.Path.{◌≡◌, refl, sym, ap, ap₂, subst, ◌∙◌}
use native.Mathlib.Nat.{
  pow-suc, pow-succ', mul-add-mod_self_left, mod-eq_of_lt, mod-lt, div-add-mod, div-div-eq-div-mul,
  zero-div, mul_comm, mul_assoc,
}
use native.Mathlib.Omega.{arith}

pub pow-pos : (k : ℕ) → 0 < 2 ^ k
pow-pos zero = omega arith
pow-pos (suc k) = omega (arith, pow-suc 2 k, pow-pos k)

mod_double : (x m : ℕ) → 0 < m → x % (2 * m) ≡ (x / 2) % m * 2 + x % 2
mod_double x m h =
    ap (λ y. y % (2 * m)) sum
    ∙ mul-add-mod_self_left (2 * m) (x / 2 / m) (x / 2 % m * 2 + x % 2)
    ∙ mod-eq_of_lt small
  where
    small : x / 2 % m * 2 + x % 2 < 2 * m
    small = omega (arith, mod-lt (x / 2) h)

    sum : x ≡ 2 * m * (x / 2 / m) + (x / 2 % m * 2 + x % 2)
    sum = omega (arith, div-add-mod (x / 2) m)

halve_mask : (k : ℕ) → (2 ^ suc k - 1) / 2 ≡ 2 ^ k - 1
halve_mask k = omega (arith, pow-pos k, pow-succ' 2 k)

odd_mask : (k : ℕ) → (2 ^ suc k - 1) % 2 ≡ 1
odd_mask k = omega (arith, pow-pos k, pow-succ' 2 k)

-- The recursion that `bit_and` stands for, on a mask: one digit of the mask for each step.
masked : ℕ → ℕ → ℕ → ℕ
masked n k x = digits (λ b. zero) min n x (2 ^ k - 1)

masked_lem : (n k x : ℕ) → x ≤ n → masked n k x ≡ x % 2 ^ k
unfolding masked
masked_lem zero k zero h = sym (mod-eq_of_lt (pow-pos k))
masked_lem (suc n) k zero h = sym (mod-eq_of_lt (pow-pos k))
masked_lem zero k (suc x) h = absurd (omega arith)
masked_lem (suc n) zero (suc x) h = omega (arith, masked_lem n zero (suc x / 2) (omega arith))
masked_lem (suc n) (suc k) (suc x) h =
    rw
      (
        halve_mask k,
        odd_mask k,
        masked_lem n k (suc x / 2) (omega arith),
        pow-succ' 2 k,
        mod_double (suc x) (2 ^ k) (pow-pos k),
      )
      omega arith

pub bit_and_mask : (k x : ℕ) → bit_and x (2 ^ k - 1) ≡ x % 2 ^ k
unfolding masked
bit_and_mask k x = bit_and-bitwise x (2 ^ k - 1) ∙ masked_lem x k x (omega arith)

-- The recursion that `bit_xor` stands for: one digit for each step.
abbrev xored : ℕ → ℕ → ℕ → ℕ
xored n x y = digits (λ b. b) differ n x y

differ_self : (x : ℕ) → differ x x ≡ 0
differ_self zero = refl
differ_self (suc x) = differ_self x

differ_zero : (x : ℕ) → differ x 0 ≡ x
differ_zero zero = refl
differ_zero (suc x) = refl

xored_self : (n x : ℕ) → x ≤ n → xored n x x ≡ 0
xored_self zero zero h = refl
xored_self (suc n) zero h = refl
xored_self zero (suc x) h = absurd (omega arith)
xored_self (suc n) (suc x) h =
    rw (xored_self n (suc x / 2) (omega arith), differ_self (suc x % 2)) refl

-- The digits from place `k` on, and those of half the number from place `k - 1` on.
halve_high : (m x : ℕ) → x / (2 * m) * (2 * m) ≡ x / 2 / m * m * 2
halve_high m x =
    ap (λ q. q * (2 * m)) (sym (div-div-eq-div-mul x 2 m))
    ∙ ap (◌*◌ (x / 2 / m)) (mul_comm 2 m)
    ∙ sym (mul_assoc (x / 2 / m) m 2)

xored_step :
    (n a y b r : ℕ) → xored n a y ≡ r → xored n a (y * 2 / 2) * 2 + differ b (y * 2 % 2) ≡ r * 2 + b
xored_step n a y b r h =
    ap₂ (λ u v. u * 2 + v) (ap (xored n a) {y = y} (omega arith) ∙ h)
      (ap (differ b) {y = 0} (omega arith) ∙ differ_zero b)

xored_high : (n k x : ℕ) → x ≤ n → xored n x (x / 2 ^ k * 2 ^ k) ≡ x % 2 ^ k
xored_high zero k zero h = omega (arith, zero-div (2 ^ k), mod-eq_of_lt (pow-pos k))
xored_high (suc n) k zero h = omega (arith, zero-div (2 ^ k), mod-eq_of_lt (pow-pos k))
xored_high zero k (suc x) h = absurd (omega arith)
xored_high (suc n) zero (suc x) h =
    ap (λ y. xored (suc n) (suc x) y) {y = suc x} (omega arith)
    ∙ xored_self (suc n) (suc x) h
    ∙ omega arith
xored_high (suc n) (suc k) (suc x) h =
    rw (pow-succ' 2 k, mod_double (suc x) (2 ^ k) (pow-pos k))
      (ap (λ y. xored (suc n) (suc x) y) (halve_high (2 ^ k) (suc x))
        ∙ xored_step n (suc x / 2) (suc x / 2 / 2 ^ k * 2 ^ k) (suc x % 2) (suc x / 2 % 2 ^ k)
            (xored_high n k (suc x / 2) (omega arith)))

-- A number loses its digits from place `k` on by the exclusive or with them.
pub bit_xor_high : (k x : ℕ) → bit_xor x (x / 2 ^ k * 2 ^ k) ≡ x % 2 ^ k
bit_xor_high k x = bit_xor-bitwise x (x / 2 ^ k * 2 ^ k) ∙ xored_high x k x (omega arith)

differ_lt : (a b : ℕ) → a < 2 → b < 2 → differ a b < 2
differ_lt zero b h h' = h'
differ_lt (suc a) zero h h' = h
differ_lt (suc a) (suc b) h h' = differ_lt a b (omega (arith, h)) (omega (arith, h'))

xored_lt : (n k x y : ℕ) → x ≤ n → x < 2 ^ k → y < 2 ^ k → xored n x y < 2 ^ k
xored_lt zero k zero y h hx hy = hy
xored_lt (suc n) k zero y h hx hy = hy
xored_lt zero k (suc x) y h hx hy = absurd (omega arith)
xored_lt (suc n) zero (suc x) y h hx hy = absurd (omega arith)
xored_lt (suc n) (suc k) (suc x) y h hx hy =
    let double : 2 ^ suc k ≡ 2 * 2 ^ k = pow-succ' 2 k in
    let halves : xored n (suc x / 2) (y / 2) < 2 ^ k =
      xored_lt n k (suc x / 2) (y / 2) (omega (arith, h)) (omega (arith, hx, double))
        (omega (arith, hy, double)) in
    let low : differ (suc x % 2) (y % 2) < 2 =
      differ_lt (suc x % 2) (y % 2) (omega arith) (omega arith) in
    omega (arith, halves, low, double)

pub bit_xor_lt : (k x y : ℕ) → x < 2 ^ k → y < 2 ^ k → bit_xor x y < 2 ^ k
bit_xor_lt k x y hx hy =
    subst (λ z. z < 2 ^ k) (sym (bit_xor-bitwise x y)) (xored_lt x k x y (omega arith) hx hy)
