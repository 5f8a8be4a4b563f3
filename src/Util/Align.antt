-- ===== src/Util/Align.antt =====
-- The macro ALIGN of boot/util.h, and rounding up.
use native.Mathlib.Nat.{two-pow-succ, one-le-pow, pow-le-pow_right, mod-lt, mul-mod_left}
use midas_util.Base.{ℕ, suc, ◌+◌, ◌-◌, ◌*◌, ◌/◌, ◌%◌, ◌^◌, ◌≤◌, ◌<◌, ◌≡◌, arith}
use midas_util.Base.Bits.{mod_once, divided, bit_and-mask}
use midas_util.Util.{align}

-- The first multiple of `size` from `addr` on.
unfoldable pub round_up : ℕ → ℕ → ℕ
round_up addr size = (addr + (size - 1)) / size * size

-- On words of w bits, with a size of 2^k where k is below w, and where the address and the size
-- add up to at most 2^w, ALIGN rounds the address up to a multiple of the size.
pub align-round_up :
    (w k addr : ℕ) → k < w → addr + 2 ^ k ≤ 2 ^ w → align w addr (2 ^ k) ≡ round_up addr (2 ^ k)
unfolding align round_up
align-round_up w k addr kw fits =
    let pos = one-le-pow k 2 (omega arith) in
    let big : 2 ^ suc k ≤ 2 ^ w = pow-le-pow_right (omega arith) (omega arith) in
    let double = two-pow-succ k in
    let sum = addr + (2 ^ k - 1) in
    let e : (addr + 2 ^ k + 2 ^ w - 1) % 2 ^ w ≡ sum =
      mod_once _ (2 ^ w) sum (omega arith) (omega arith) in
    let m : (2 ^ k + 2 ^ w - 1) % 2 ^ w ≡ 2 ^ k - 1 =
      mod_once _ (2 ^ w) (2 ^ k - 1) (omega arith) (omega arith) in
    let mask : 2 ^ w - 1 - (2 ^ k - 1) ≡ 2 ^ w - 2 ^ k = omega arith in
    rw (e, m, mask)
      (bit_and-mask w k sum (sum / 2 ^ k) (sum % 2 ^ k) (omega arith) (omega arith)
        (divided sum (2 ^ k)) (mod-lt sum pos))

-- What rounding up gives: a multiple of `size`, not below `addr`, and less than `size` above it.
pub round_up_bounds :
    (addr size : ℕ)
    → 0 < size
    → (addr ≤ round_up addr size)
      × (round_up addr size < addr + size)
      × (round_up addr size % size ≡ 0)
unfolding round_up
round_up_bounds addr size pos =
    let sum = addr + (size - 1) in
    let d = divided sum size in
    let m : sum % size < size = mod-lt sum pos in (omega arith, omega arith, mul-mod_left _ _)
