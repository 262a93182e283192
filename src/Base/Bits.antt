-- ===== src/Base/Bits.antt =====
-- The digits that a mask keeps: `x & (2 ** (k + w) - 2 ** k)` drops the `k` lowest of `k + w` digits.
use Prim.Native.Nat.{
  ℕ, zero, suc, ◌+◌, ◌-◌, ◌*◌, ◌/◌, ◌%◌, ◌^◌, ◌≤◌, ◌<◌, min, bit_and, bit_and-bitwise, digits,
}
use mathlib.Core.Path.{◌≡◌, refl, sym, ◌∙◌}
use native.Mathlib.Omega.{arith}
use native.Mathlib.Nat.{
  pow-succ', one-le-pow, div-div-eq-div-mul, div-one, zero-div, pow-le-pow_right, mul_assoc,
  mul_comm,
}

abbrev ands : ℕ → ℕ → ℕ → ℕ
ands n x m = digits (λ b. zero) min n x m

power_pos : (k : ℕ) → 1 ≤ 2 ^ k
power_pos k = one-le-pow k 2 (omega arith)

-- A mask of `w` ones keeps every number of `w` digits.
ands-ones : (w n x m : ℕ) → x < 2 ^ w → x ≤ n → m + 1 ≡ 2 ^ w → ands n x m ≡ x
ands-ones w zero x m h k e = omega (arith, k)
ands-ones w (suc n) zero m h k e = refl
ands-ones zero (suc n) (suc x) m h k e = absurd (omega (arith, h))
ands-ones (suc w) (suc n) (suc x) m h k e =
    let p = pow-succ' 2 w in
    let half =
      ands-ones w n (suc x / 2) (m / 2) (omega (arith, h, p)) (omega (arith, k))
        (omega (arith, e, p)) in
    let odd : m % 2 ≡ 1 = omega (arith, e, p) in rw (half, odd) (low_digit (suc x))
  where
    low_digit : (y : ℕ) → y / 2 * 2 + min (y % 2) 1 ≡ y
    low_digit y = ground arith

no_digits : (d : ℕ) → 0 ≡ 0 / d * d
no_digits d = rw (zero-div d) omega arith

shift : (a p r : ℕ) → a * p * 2 + min r 0 ≡ a * (2 * p)
shift a p r = rw (sym (mul_assoc a 2 p), mul_comm a 2, mul_assoc 2 a p) omega arith

-- A mask of `w` digits with `k` zeros at the end drops as many digits.
ands-mask :
    (k w n x m : ℕ) → x < 2 ^ w → x ≤ n → k ≤ w → m + 2 ^ k ≡ 2 ^ w → ands n x m ≡ x / 2 ^ k * 2 ^ k
ands-mask zero w n x m h l b e = rw (ands-ones w n x m h l e, div-one x) omega arith
ands-mask (suc k) w zero zero m h l b e = no_digits (2 ^ suc k)
ands-mask (suc k) w zero (suc x) m h l b e = absurd (omega (arith, l))
ands-mask (suc k) w (suc n) zero m h l b e = no_digits (2 ^ suc k)
ands-mask (suc k) zero (suc n) (suc x) m h l b e = absurd (omega (arith, b))
ands-mask (suc k) (suc w) (suc n) (suc x) m h l b e =
    let p = pow-succ' 2 k in
    let q = pow-succ' 2 w in
    let half =
      ands-mask k w n (suc x / 2) (m / 2) (omega (arith, h, q)) (omega (arith, l))
        (omega (arith, b)) (omega (arith, e, p, q)) in
    let even : m % 2 ≡ 0 = omega (arith, e, p, q) in
    rw (half, even, p, sym (div-div-eq-div-mul (suc x) 2 (2 ^ k)))
      (shift (suc x / 2 / 2 ^ k) (2 ^ k) (suc x % 2))

-- The network of an address under a netmask of `p` ones: the first `p` of 32 digits, and zeros.
pub bit_and-netmask :
    (p x : ℕ)
    → p ≤ 32
    → x < 2 ^ 32
    → bit_and x (2 ^ 32 - 2 ^ (32 - p)) ≡ x / 2 ^ (32 - p) * 2 ^ (32 - p)
bit_and-netmask p x h k =
    let size = pow-le-pow_right {n = 2} (omega arith) {i = 32 - p} {j = 32} (omega arith) in
    bit_and-bitwise x _
    ∙ ands-mask (32 - p) 32 x x (2 ^ 32 - 2 ^ (32 - p)) k (omega arith) (omega arith)
        (omega (arith, size))
