-- ===== src/Base/Bits.antt =====
-- Masks: `bit_and` with ones in the lowest places, and with ones in all but those.
use Prim.Native.Nat.{
  digits, min, bit_and-bitwise, bit_and, ℕ, zero, suc, ◌+◌, ◌-◌, ◌*◌, ◌/◌, ◌%◌, ◌^◌, ◌≤◌, ◌<◌,
}
use native.Mathlib.Nat.{
  two-pow-succ, one-le-pow, pow-le-pow_right, mod-lt, div-add-mod', mul-one, mul-div_cancel,
}
use mathlib.Core.Path.{◌≡◌, ◌∙◌, sym, ap}
use native.Mathlib.Omega.{arith}

-- A number that is past a modulus once.
pub mod_once : (a m r : ℕ) → a ≡ r + m → r < m → a % m ≡ r
mod_once a m r e lt = rw e (grind arith)

pub divided : (a m : ℕ) → a ≡ a / m * m + a % m
divided a m = sym (div-add-mod' a m)

-- A mask of w bits without the lowest k: what is left of `a`, by recursion on its digits.
mask_digits :
    (n w k a q r : ℕ)
    → a ≤ n
    → a < 2 ^ w
    → k ≤ w
    → a ≡ q * 2 ^ k + r
    → r < 2 ^ k
    → digits (λ b. zero) min n a (2 ^ w - 2 ^ k) ≡ q * 2 ^ k
mask_digits zero w k a q r h lt le e rl = omega arith
mask_digits (suc n) w k zero q r h lt le e rl = omega arith
mask_digits (suc n) zero k (suc a) q r h lt le e rl = absurd (omega arith)
mask_digits (suc n) (suc w) zero (suc a) q r h lt le e rl =
    let double = two-pow-succ w in
    let pos = one-le-pow w 2 (omega arith) in
    let half : (2 ^ suc w - 1) / 2 ≡ 2 ^ w - 1 = omega arith in
    let odd : (2 ^ suc w - 1) % 2 ≡ 1 = omega arith in
    let rest : digits (λ b. zero) min n (suc a / 2) (2 ^ w - 1) ≡ suc a / 2 * 1 =
      mask_digits n w zero (suc a / 2) (suc a / 2) 0 (omega arith) (omega arith) (omega arith)
        (omega arith) (omega arith) in
    rw (half, odd, rest) (omega arith)
mask_digits (suc n) (suc w) (suc k) (suc a) q r h lt le e rl =
    let double = two-pow-succ w in
    let double' = two-pow-succ k in
    let mono : 2 ^ k ≤ 2 ^ w = pow-le-pow_right (omega arith) (omega arith) in
    let twice : q * 2 ^ suc k ≡ 2 * (q * 2 ^ k) = ap (λ (t : ℕ). q * t) double' ∙ omega arith in
    let half : (2 ^ suc w - 2 ^ suc k) / 2 ≡ 2 ^ w - 2 ^ k = omega arith in
    let even : (2 ^ suc w - 2 ^ suc k) % 2 ≡ 0 = omega arith in
    let rest : digits (λ b. zero) min n (suc a / 2) (2 ^ w - 2 ^ k) ≡ q * 2 ^ k =
      mask_digits n w k (suc a / 2) q (r / 2) (omega arith) (omega arith) (omega arith)
        (omega arith) (omega arith) in
    rw (half, even, rest) (omega arith)

pub bit_and-mask :
    (w k a q r : ℕ)
    → a < 2 ^ w
    → k ≤ w
    → a ≡ q * 2 ^ k + r
    → r < 2 ^ k
    → bit_and a (2 ^ w - 2 ^ k) ≡ q * 2 ^ k
bit_and-mask w k a q r lt le e rl =
    bit_and-bitwise a (2 ^ w - 2 ^ k) ∙ mask_digits a w k a q r (omega arith) lt le e rl

-- The lowest k digits of `a`.
low_digits :
    (n k a q r : ℕ)
    → a ≤ n
    → a ≡ q * 2 ^ k + r
    → r < 2 ^ k
    → digits (λ b. zero) min n a (2 ^ k - 1) ≡ r
low_digits zero k a q r h e rl = omega arith
low_digits (suc n) k zero q r h e rl = omega arith
low_digits (suc n) zero (suc a) q r h e rl =
    let none : digits (λ b. zero) min n (suc a / 2) 0 ≡ 0 =
      low_digits n zero (suc a / 2) (suc a / 2) 0 (omega arith) (omega arith) (omega arith) in
    rw none (omega arith)
low_digits (suc n) (suc k) (suc a) q r h e rl =
    let double = two-pow-succ k in
    let pos = one-le-pow k 2 (omega arith) in
    let twice : q * 2 ^ suc k ≡ 2 * (q * 2 ^ k) = ap (λ (t : ℕ). q * t) double ∙ omega arith in
    let half : (2 ^ suc k - 1) / 2 ≡ 2 ^ k - 1 = omega arith in
    let odd : (2 ^ suc k - 1) % 2 ≡ 1 = omega arith in
    let rest : digits (λ b. zero) min n (suc a / 2) (2 ^ k - 1) ≡ r / 2 =
      low_digits n k (suc a / 2) q (r / 2) (omega arith) (omega arith) (omega arith) in
    rw (half, odd, rest) (omega arith)

pub bit_and-low : (a k : ℕ) → bit_and a (2 ^ k - 1) ≡ a % 2 ^ k
bit_and-low a k =
    bit_and-bitwise a (2 ^ k - 1)
    ∙ low_digits a k a (a / 2 ^ k) (a % 2 ^ k) (omega arith) (divided a (2 ^ k))
        (mod-lt a (one-le-pow k 2 (omega arith)))

-- A field of m ones from place s on.
field_digits :
    (n m s a h f r : ℕ)
    → a ≤ n
    → a ≡ (h * 2 ^ m + f) * 2 ^ s + r
    → f < 2 ^ m
    → r < 2 ^ s
    → digits (λ b. zero) min n a ((2 ^ m - 1) * 2 ^ s) ≡ f * 2 ^ s
field_digits zero m s a h f r le e fl rl = omega arith
field_digits (suc n) m s zero h f r le e fl rl =
    let one = one-le-pow s 2 (omega arith) in
    let none : (h * 2 ^ m + f) * 2 ^ s ≡ 0 = omega arith in
    let part : f * 2 ^ s ≤ (h * 2 ^ m + f) * 2 ^ s = grind arith in omega arith
field_digits (suc n) m zero (suc a) h f r le e fl rl =
    let whole = low_digits (suc n) m (suc a) h f le (omega arith) fl in
    rw (mul-one (2 ^ m - 1)) (whole ∙ omega arith)
field_digits (suc n) m (suc s) (suc a) h f r le e fl rl =
    let double = two-pow-succ s in
    let twice : (h * 2 ^ m + f) * 2 ^ suc s ≡ 2 * ((h * 2 ^ m + f) * 2 ^ s) =
      ap (λ (t : ℕ). (h * 2 ^ m + f) * t) double ∙ omega arith in
    let mask : (2 ^ m - 1) * 2 ^ suc s ≡ 2 * ((2 ^ m - 1) * 2 ^ s) =
      ap (λ (t : ℕ). (2 ^ m - 1) * t) double ∙ omega arith in
    let out : f * 2 ^ suc s ≡ 2 * (f * 2 ^ s) = ap (λ (t : ℕ). f * t) double ∙ omega arith in
    let half : (2 ^ m - 1) * 2 ^ suc s / 2 ≡ (2 ^ m - 1) * 2 ^ s = omega arith in
    let even : (2 ^ m - 1) * 2 ^ suc s % 2 ≡ 0 = omega arith in
    let rest : digits (λ b. zero) min n (suc a / 2) ((2 ^ m - 1) * 2 ^ s) ≡ f * 2 ^ s =
      field_digits n m s (suc a / 2) h f (r / 2) (omega arith) (omega arith) fl (omega arith) in
    rw (half, even, rest) (omega arith)

-- `(a & (mask << s)) >> s` for a mask of m ones.
pub bit_and-field : (a m s : ℕ) → bit_and a ((2 ^ m - 1) * 2 ^ s) / 2 ^ s ≡ a / 2 ^ s % 2 ^ m
bit_and-field a m s =
    let q = a / 2 ^ s in
    let pos = one-le-pow s 2 (omega arith) in
    let e = divided a (2 ^ s) in
    let e' = divided q (2 ^ m) in
    let masked : bit_and a ((2 ^ m - 1) * 2 ^ s) ≡ q % 2 ^ m * 2 ^ s =
      bit_and-bitwise a ((2 ^ m - 1) * 2 ^ s)
      ∙ field_digits a m s a (q / 2 ^ m) (q % 2 ^ m) (a % 2 ^ s) (omega arith)
          (e ∙ ap (λ (t : ℕ). t * 2 ^ s + a % 2 ^ s) e') (mod-lt q (one-le-pow m 2 (omega arith)))
          (mod-lt a pos) in
    rw masked (mul-div_cancel _ pos)
