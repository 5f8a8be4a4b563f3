-- ===== src/Gpioutil/Dump.antt =====
-- What `main` of gpioutil.c prints for its table.
use midas_util.Base.{
  Bool, Bytes, if◌then◌else◌, ℕ, zero, suc, ◌+◌, ◌*◌, ◌/◌, ◌%◌, ◌^◌, ◌≤◌, ◌<◌, ◌≡◌, refl, ap, true,
  false, List, [], ◌∷◌, ◌++◌, String, ok, fault, All, arith,
}
use midas_util.Gpioutil.{
  main, with_files, Bank, banks, Gpio, PinLine, pin_line, pin_lines, read_port, dump,
}
use midas_util.Gpioutil.Registers.{read_port-registers, fields_of_pin}

-- The line of a pin, from the four words of memory that begin at `base`.
abbrev pub pin_at : (ℕ → ℕ) → String → ℕ → ℕ → PinLine
pin_at mem name base j = record {
  bank = name;
  pin = j;
  con_value = mem base / 2 ^ (j * 4) % 16;
  dat_value = mem (base + 4) / 2 ^ j % 2;
  pud_value = mem (base + 8) / 2 ^ (j * 2) % 4;
  drv_value = mem (base + 12) / 2 ^ (j * 2) % 4;
}

-- n pins from j on
unfoldable pub pins_at : (ℕ → ℕ) → String → ℕ → ℕ → ℕ → List PinLine
pins_at mem name base zero j = []
pins_at mem name base (suc n) j = pin_at mem name base j ∷ pins_at mem name base n (suc j)

unfoldable pub all_pins : (ℕ → ℕ) → List Bank → List PinLine
all_pins mem [] = []
all_pins mem (b ∷ bs) = pins_at mem b.name b.base b.npins 0 ++ all_pins mem bs

abbrev registers : (ℕ → ℕ) → ℕ → Gpio
registers mem base = record {
  con = mem base;
  dat = mem (base + 4);
  pud = mem (base + 8);
  drv = mem (base + 12);
}

pin_line-pin_at :
    (mem : ℕ → ℕ) (name : String) (base j : ℕ)
    → j < 8
    → pin_line name (registers mem base) j ≡ pin_at mem name base j
pin_line-pin_at mem name base j h =
    let (c, d, p, r) = fields_of_pin (registers mem base) j h in
    λ i. record {
      bank = name;
      pin = j;
      con_value = c i;
      dat_value = d i;
      pud_value = p i;
      drv_value = r i;
    }

pin_lines-pins_at :
    (mem : ℕ → ℕ) (name : String) (base n j : ℕ)
    → n + j ≤ 8
    → pin_lines name (registers mem base) n j ≡ pins_at mem name base n j
unfolding pin_lines pins_at
pin_lines-pins_at mem name base zero j h = refl
pin_lines-pins_at mem name base (suc n) j h = rw (pin_line-pin_at mem name base j (omega arith)) (
    ap (λ (l : List PinLine). pin_at mem name base j ∷ l)
      (pin_lines-pins_at mem name base n (suc j) (omega arith)))

-- Physical addresses have 32 bits, and CON has four bits for each pin.
pub record IsSmall (b : Bank) : Type 0 where
  pub base : b.base < 2 ^ 32
  pub npins : b.npins ≤ 8

dump-all_pins :
    (mem : ℕ → ℕ) (k : ℕ)
    → 4 ≤ k
    → k ≤ 32
    → (bs : List Bank) → All IsSmall bs
    → dump mem true (2 ^ k) bs ≡ ok (all_pins mem bs)
unfolding dump all_pins
dump-all_pins mem k k4 k32 [] s = refl
dump-all_pins mem k k4 k32 (b ∷ bs) (s, ss) = rw (
  read_port-registers mem k b.base k4 k32 s.base,
  dump-all_pins mem k k4 k32 bs ss,
  pin_lines-pins_at mem b.name b.base b.npins 0 (let h = s.npins in omega arith),
)

banks-IsSmall : All IsSmall banks
unfolding banks
banks-IsSmall = omega arith

-- If pages have 2^k bytes with k from 4 to 32, and every `mmap` succeeds, the loop of `main` prints
-- a line for each pin of each bank of the table, in order, with the pin's four bits of the first
-- word at the bank's address, its one bit of the second, and its two bits of the third and of the
-- fourth. If `mmap` fails, it reads through NULL.
dump-banks :
    (mem : ℕ → ℕ) (k : ℕ)
    → 4 ≤ k
    → k ≤ 32
    → (dump mem true (2 ^ k) banks ≡ ok (all_pins mem banks))
      × (dump mem false (2 ^ k) banks ≡ fault)
dump-banks mem k k4 k32 =
    (dump-all_pins mem k k4 k32 banks banks-IsSmall, (unfold dump banks read_port in refl))

-- With an argument, if pages have 2^k bytes with k from 4 to 32, `main` returns 2 if it cannot open
-- /dev/mem, and else 3 if it cannot open the file that the argument names. If it opens both and every
-- `mmap` succeeds, it returns 0 and writes a line for each pin of each bank of its table, in order,
-- with the pin's four bits of the first word at the bank's address, its one bit of the second, and
-- its two bits of the third and of the fourth. If `mmap` fails, it reads through NULL. With no
-- argument it returns 1.
pub main-banks :
    (prog outfile : Bytes) (rest : List Bytes) (mem_opens file_opens maps : Bool) (mem : ℕ → ℕ)
    (k : ℕ)
    → 4 ≤ k
    → k ≤ 32
    → (main (prog ∷ outfile ∷ rest) mem_opens file_opens mem maps (2 ^ k) ≡ (
        if mem_opens
        then if file_opens then if maps then ok (0, all_pins mem banks) else fault else ok (3, [])
        else ok (2, [])))
      × (main (prog ∷ []) mem_opens file_opens mem maps (2 ^ k) ≡ ok (1, []))
unfolding main with_files
main-banks prog outfile rest false file_opens maps mem k k4 k32 = (refl, refl)
main-banks prog outfile rest true false maps mem k k4 k32 = (refl, refl)
main-banks prog outfile rest true true true mem k k4 k32 = (rw ((dump-banks mem k k4 k32).0), refl)
main-banks prog outfile rest true true false mem k k4 k32 = (rw ((dump-banks mem k k4 k32).1), refl)
