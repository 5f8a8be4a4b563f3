-- ===== src/Gpioutil.antt =====
-- gpioutil.c: the registers of the pin banks, read through /dev/mem.
pub mod Registers
pub mod Dump
use midas_util.Base.{
  ℕ, zero, suc, ◌+◌, ◌-◌, ◌*◌, ◌/◌, ◌%◌, ◌^◌, bit_and, Bool, true, false, Option, none, some, List,
  [], ◌∷◌, ◌++◌, Bytes, codes, String, Run, ok, fault, ◌>>=◌, deref, if◌then◌else◌, leb, ltb,
}

-- `struct bank`
pub record Bank : Type 0 where
  pub name : String
  pub base : ℕ
  pub npins : ℕ

-- B1, B2 and B4
abbrev bank1 : String → ℕ → ℕ → Bank
bank1 name base npins = record { name = name; base = 0x11400000 + base; npins = npins }

abbrev bank2 : String → ℕ → ℕ → Bank
bank2 name base npins = record { name = name; base = 0x11000000 + base; npins = npins }

abbrev bank4 : String → ℕ → ℕ → Bank
bank4 name base npins = record { name = name; base = 0x106e0000 + base; npins = npins }

-- The table, up to its entry with no name.
unfoldable pub banks : List Bank
banks =
    bank1 "gpa0" 0 8
    ∷ bank1 "gpa1" 0x20 6
    ∷ bank1 "gpb" 0x40 8
    ∷ bank1 "gpc0" 0x60 5
    ∷ bank1 "gpc1" 0x80 5
    ∷ bank1 "gpd0" 0xa0 4
    ∷ bank1 "gpd1" 0xc0 4
    ∷ bank1 "gpf0" 0x180 8
    ∷ bank1 "gpf1" 0x1a0 8
    ∷ bank1 "gpf2" 0x1c0 8
    ∷ bank1 "gpf3" 0x1e0 6
    ∷ bank1 "gpj0" 0x240 8
    ∷ bank1 "gpj1" 0x260 5
    ∷ bank2 "gpk0" 0x40 7
    ∷ bank2 "gpk1" 0x60 7
    ∷ bank2 "gpk2" 0x80 7
    ∷ bank2 "gpk3" 0xa0 7
    ∷ bank2 "gpl0" 0xc0 7
    ∷ bank2 "gpl1" 0xe0 2
    ∷ bank2 "gpl2" 0x100 8
    ∷ bank2 "gpy0" 0x120 6
    ∷ bank2 "gpy1" 0x140 4
    ∷ bank2 "gpy2" 0x160 6
    ∷ bank2 "gpy3" 0x180 8
    ∷ bank2 "gpy4" 0x1a0 8
    ∷ bank2 "gpy5" 0x1c0 8
    ∷ bank2 "gpy6" 0x1e0 8
    ∷ bank2 "gpm0" 0x260 8
    ∷ bank2 "gpm1" 0x280 7
    ∷ bank2 "gpm2" 0x2a0 5
    ∷ bank2 "gpm3" 0x2c0 8
    ∷ bank2 "gpm4" 0x2e0 8
    ∷ bank2 "gpx0" 0xc00 8
    ∷ bank2 "gpx1" 0xc20 8
    ∷ bank2 "gpx2" 0xc40 8
    ∷ bank2 "gpx3" 0xc60 8
    ∷ record { name = "gpz"; base = 0x3860000; npins = 7 }
    ∷ bank4 "gpv0" 0x0 8
    ∷ bank4 "gpv1" 0x20 8
    ∷ bank4 "gpv2" 0x60 8
    ∷ bank4 "gpv3" 0x80 8
    ∷ bank4 "gpv4" 0xc0 2
    ∷ []

-- `struct gpio`
pub record Gpio : Type 0 where
  pub con : ℕ
  pub dat : ℕ
  pub pud : ℕ
  pub drv : ℕ

-- What is mapped: physical memory from `start` on, `size` bytes.
pub record Mapping : Type 0 where
  pub start : ℕ
  pub size : ℕ

-- a word of the mapping, at an offset; a read past its end is a fault
word_at : (ℕ → ℕ) → Mapping → ℕ → Run ℕ
word_at mem m off = if leb (off + 4) m.size then ok (mem (m.start + off)) else fault

-- the mapping that `read_port` asks for, and the offset of the registers in it
unfoldable pub mapping_for : ℕ → ℕ → Mapping × ℕ
mapping_for page_size addr =
    let offset_in_page = bit_and addr (page_size - 1) in
    (
      record {
        start = bit_and addr (2 ^ 32 - 1 - (page_size - 1));
        size = if ltb page_size (offset_in_page + 16) then page_size * 2 else page_size;
      },
      offset_in_page,
    )

-- `base[0]` to `base[3]`
unfoldable pub registers_at : (ℕ → ℕ) → Mapping → ℕ → Run Gpio
unfolding word_at
registers_at mem m off = do
  con ← word_at mem m off
  dat ← word_at mem m (off + 4)
  pud ← word_at mem m (off + 8)
  drv ← word_at mem m (off + 12)
  ok (record { con = con; dat = dat; pud = pud; drv = drv })

-- `mem` is physical memory, a word at each address; `maps` is whether `mmap` succeeds.
unfoldable pub read_port : (ℕ → ℕ) → Bool → ℕ → ℕ → Run (Option Gpio)
read_port mem maps page_size addr =
    if maps
    then (do let (m, off) = mapping_for page_size addr; g ← registers_at mem m off; ok (some g))
    else ok none

-- The macros CON, DAT, PUD and DRV: a mask shifted up in 32 bits, and the value shifted down.
unfoldable pub con : Gpio → ℕ → ℕ
con g x = bit_and g.con (0xf * 2 ^ (x * 4) % 2 ^ 32) / 2 ^ (x * 4)

unfoldable pub dat : Gpio → ℕ → ℕ
dat g x = bit_and g.dat (1 * 2 ^ x % 2 ^ 32) / 2 ^ x

unfoldable pub pud : Gpio → ℕ → ℕ
pud g x = bit_and g.pud (0x3 * 2 ^ (x * 2) % 2 ^ 32) / 2 ^ (x * 2)

unfoldable pub drv : Gpio → ℕ → ℕ
drv g x = bit_and g.drv (0x3 * 2 ^ (x * 2) % 2 ^ 32) / 2 ^ (x * 2)

-- A line of the output, before it is formatted.
pub record PinLine : Type 0 where
  pub bank : String
  pub pin : ℕ
  pub con_value : ℕ
  pub dat_value : ℕ
  pub pud_value : ℕ
  pub drv_value : ℕ

abbrev pub pin_line : String → Gpio → ℕ → PinLine
pin_line name g j = record {
  bank = name;
  pin = j;
  con_value = con g j;
  dat_value = dat g j;
  pud_value = pud g j;
  drv_value = drv g j;
}

-- `for (int j = 0; j < b->npins; j++)`, n rounds from j on
unfoldable pub pin_lines : String → Gpio → ℕ → ℕ → List PinLine
pin_lines name g zero j = []
pin_lines name g (suc n) j = pin_line name g j ∷ pin_lines name g n (suc j)

-- the loop of `main` over the banks; `read_port` may give NULL, which the macros read through
unfoldable pub dump : (ℕ → ℕ) → Bool → ℕ → List Bank → Run (List PinLine)
dump mem maps page_size [] = ok []
dump mem maps page_size (b ∷ bs) = do
  port ← read_port mem maps page_size b.base
  g ← deref port
  rest ← dump mem maps page_size bs
  ok (pin_lines b.name g b.npins 0 ++ rest)

-- the header line apart, what `main` writes once both files are open, and its code
unfoldable pub with_files : (ℕ → ℕ) → Bool → ℕ → Run (ℕ × List PinLine)
with_files mem maps page_size = do lines ← dump mem maps page_size banks; ok (0, lines)

-- `main` with its arguments, whether /dev/mem and the file for the table can be opened, and the
-- memory. With no arguments at all, not even the program's name, there is no name to open.
unfoldable pub main : List Bytes → Bool → Bool → (ℕ → ℕ) → Bool → ℕ → Run (ℕ × List PinLine)
main (prog ∷ []) mem_opens file_opens mem maps page_size = ok (1, [])
main [] mem_opens file_opens mem maps page_size = if mem_opens then fault else ok (2, [])
main (prog ∷ (outfile ∷ rest)) mem_opens file_opens mem maps page_size =
    let table = with_files mem maps page_size in
    if mem_opens then (if file_opens then table else ok (3, [])) else ok (2, [])
