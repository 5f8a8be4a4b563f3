-- ===== src/Gpioutil/Registers.antt =====
-- The four registers of a bank in gpioutil.c, and the fields of its pins.
use native.Mathlib.Nat.{one-le-pow, mod-lt, pow-le-pow_right}
use midas_util.Base.{
  ℕ, ◌+◌, ◌-◌, ◌*◌, ◌/◌, ◌%◌, ◌^◌, ◌≤◌, ◌<◌, ◌≡◌, sym, bit_and, true, some, ok, if◌then◌else◌, ltb,
  arith,
}
use midas_util.Base.Bits.{bit_and-low, bit_and-mask, bit_and-field, divided}
use midas_util.Gpioutil.{Gpio, mapping_for, registers_at, read_port, con, dat, pud, drv}

registers_at_lem :
    (mem : ℕ → ℕ) (start size off : ℕ)
    → off + 16 ≤ size
    → registers_at mem (record { start = start; size = size }) off
      ≡ ok (record {
        con = mem (start + off);
        dat = mem (start + (off + 4));
        pud = mem (start + (off + 8));
        drv = mem (start + (off + 12));
      })
unfolding registers_at
registers_at_lem mem start size off h = ground arith

-- If pages have 2^k bytes with k from 4 to 32, `mmap` succeeds and the address is below 2^32,
-- `read_port` gives the words at the address and the three behind it, and never reads past what
-- it has mapped, also where the words lie in two pages.
pub read_port-registers :
    (mem : ℕ → ℕ) (k addr : ℕ)
    → 4 ≤ k
    → k ≤ 32
    → addr < 2 ^ 32
    → read_port mem true (2 ^ k) addr
      ≡ ok (
          some (record {
            con = mem addr;
            dat = mem (addr + 4);
            pud = mem (addr + 8);
            drv = mem (addr + 12);
          }))
unfolding read_port mapping_for
read_port-registers mem k addr k4 k32 small =
    let pos = one-le-pow k 2 (omega arith) in
    let wide : 2 ^ 4 ≤ 2 ^ k = pow-le-pow_right (omega arith) k4 in
    let narrow : 2 ^ k ≤ 2 ^ 32 = pow-le-pow_right (omega arith) k32 in
    let low = bit_and-low addr k in
    let off = addr % 2 ^ k in
    let off_lt : off < 2 ^ k = mod-lt addr pos in
    let e = divided addr (2 ^ k) in
    let mask : 2 ^ 32 - 1 - (2 ^ k - 1) ≡ 2 ^ 32 - 2 ^ k = omega arith in
    let high = bit_and-mask 32 k addr (addr / 2 ^ k) off small k32 e off_lt in
    let start = addr / 2 ^ k * 2 ^ k in
    let size = if ltb (2 ^ k) (off + 16) then 2 ^ k * 2 else 2 ^ k in
    let fits : off + 16 ≤ size = ground arith in
    rw (low, mask, high, registers_at_lem mem start size off fits)
      (λ i. ok (
        some (record {
          con = mem (sym e i);
          dat = mem ((let s : start + (off + 4) ≡ addr + 4 = omega arith in s) i);
          pud = mem ((let s : start + (off + 8) ≡ addr + 8 = omega arith in s) i);
          drv = mem ((let s : start + (off + 12) ≡ addr + 12 = omega arith in s) i);
        })))

-- A mask of m ones at place s that stays within 32 bits takes those bits out.
field_at :
    (a m s : ℕ)
    → (2 ^ m - 1) * 2 ^ s < 2 ^ 32
    → bit_and a ((2 ^ m - 1) * 2 ^ s % 2 ^ 32) / 2 ^ s ≡ a / 2 ^ s % 2 ^ m
field_at a m s h =
    let e : (2 ^ m - 1) * 2 ^ s % 2 ^ 32 ≡ (2 ^ m - 1) * 2 ^ s = omega arith in
    rw e (bit_and-field a m s)

-- For each of the eight pins of a bank, the macros give the pin's fields of the registers: four
-- bits of CON, one of DAT, two of PUD and of DRV.
pub fields_of_pin :
    (g : Gpio) (x : ℕ)
    → x < 8
    → (con g x ≡ g.con / 2 ^ (x * 4) % 16)
      × (dat g x ≡ g.dat / 2 ^ x % 2)
      × (pud g x ≡ g.pud / 2 ^ (x * 2) % 4)
      × (drv g x ≡ g.drv / 2 ^ (x * 2) % 4)
unfolding con dat pud drv
fields_of_pin g x h =
    let four : 2 ^ (x * 4) ≤ 2 ^ 28 = pow-le-pow_right (omega arith) {j = 28} (omega arith) in
    let one : 2 ^ x ≤ 2 ^ 7 = pow-le-pow_right (omega arith) {j = 7} (omega arith) in
    let two : 2 ^ (x * 2) ≤ 2 ^ 14 = pow-le-pow_right (omega arith) {j = 14} (omega arith) in
    (
      field_at g.con 4 (x * 4) (omega arith),
      field_at g.dat 1 x (omega arith),
      field_at g.pud 2 (x * 2) (omega arith),
      field_at g.drv 2 (x * 2) (omega arith),
    )
