-- ===== src/Kernel.antt =====
-- boot/kernel.c: the kernel, the ramdisk, where to load them, and the kernel's command line.
pub mod Lines
pub mod Iomem
pub mod Cmdline
mod Tests
use midas_util.Base.{
  ℕ, zero, suc, ◌+◌, ◌-◌, ◌*◌, ◌%◌, ◌^◌, Bool, true, false, ◌&&◌, ◌||◌, Option, none, some, List,
  [], ◌∷◌, ◌++◌, Bytes, codes, Run, ok, fault, ◌>>=◌, deref, length, if◌then◌else◌, leb, ltb, ◌==◌,
  is_some,
}
use midas_util.CString.{is_prefix, skip_spaces, c_string, snprintf}
use midas_util.Config.{GlobalConfig}
use midas_util.Util.{Os, load_file, align}
use midas_util.BootImage.{load_android_zimage, load_android_initrd, load_android_cmdline}

-- what is left in the buffer and in `*len` by the function tried first, or else by `load_file`
unfoldable pub or_file :
    Os → GlobalConfig → Option Bytes → Option (Bytes × ℕ) → Run (Option Bytes × Option ℕ)
or_file os cfg name none = load_file os cfg name
or_file os cfg name (some (buf, len)) = ok (some buf, some len)

unfoldable pub load_zimage : Os → GlobalConfig → Run (Option Bytes × Option ℕ)
unfolding or_file
load_zimage os cfg = do ret ← load_android_zimage os cfg; or_file os cfg cfg.z_image_name ret

unfoldable pub load_ramdisk : Os → GlobalConfig → Run (Option Bytes × Option ℕ)
unfolding or_file
load_ramdisk os cfg = do ret ← load_android_initrd os cfg; or_file os cfg cfg.initramfs_name ret

-- A hexadecimal digit's value.
unfoldable pub hex_digit : ℕ → Option ℕ
hex_digit c =
    if leb b'0' c && leb c b'9'
    then some (c - b'0')
    else if leb b'a' c && leb c b'f'
    then some (c - b'a' + 10)
    else if leb b'A' c && leb c b'F'
    then some (c - b'A' + 10)
    else none

-- the digits in front, their value on top of `acc`, and the rest
unfoldable pub hex_digits : ℕ → Bytes → ℕ × Bytes
unfolding hex_digit
hex_digits acc [] = (acc, [])
hex_digits acc (c ∷ s) = elim (hex_digit c) [
  | none ↦ (acc, c ∷ s)
  | some d ↦ hex_digits (acc * 16 + d) s
]

-- A number must have a digit. It is an `unsigned long long`, held at its greatest value.
unfoldable pub hex_number : Bytes → Option (ℕ × Bytes)
unfolding hex_digits
hex_number [] = none
hex_number (c ∷ s) = elim (hex_digit c) [
  | none ↦ none
  | some d ↦
      (let (v, rest) = hex_digits d s in some (if ltb v (2 ^ 64) then v else 2 ^ 64 - 1, rest))
]

-- `0x` in front of the digits is part of the number.
unfoldable pub after_0x : Bytes → Bytes
after_0x [] = []
after_0x (c ∷ []) = c ∷ []
after_0x (c ∷ (x ∷ [])) = c ∷ x ∷ []
after_0x (c ∷ (x ∷ (d ∷ s))) =
    if c == b'0' && (x == b'x' || x == b'X') && is_some (hex_digit d) then d ∷ s else c ∷ x ∷ d ∷ s

-- `%llx`, with no sign: /proc/iomem prints none.
unfoldable pub scan_llx : Bytes → Option (ℕ × Bytes)
unfolding hex_number after_0x
scan_llx s = hex_number (after_0x (skip_spaces s))

-- What `sscanf(buf, "%llx-%llx : %n", &start, &end, &pos)` finds: fewer than two numbers; or two,
-- with the text at `pos`, which is not written if the colon is missing.
pub data IomemLine : Type 0 where
  other : IomemLine
  range : ℕ → Option Bytes → IomemLine

-- ` : %n` behind the second number
unfoldable pub name_of : Bytes → Option Bytes
name_of [] = none
name_of (c ∷ s) = if c == b':' then some (skip_spaces s) else none

unfoldable pub second_number : ℕ → Bytes → IomemLine
unfolding scan_llx name_of
second_number start [] = other
second_number start (c ∷ s) =
    if c == b'-'
    then elim (scan_llx s) [
      | none ↦ other
      | some (_, rest) ↦ range start (name_of (skip_spaces rest))
    ]
    else other

unfoldable pub scan_line : Bytes → IomemLine
unfolding second_number
scan_line line = elim (scan_llx line) [
  | none ↦ other
  | some (start, rest) ↦ second_number start rest
]

abbrev pub ram_str : Bytes
ram_str = codes "System RAM\n"

abbrev pub text_offset : ℕ
text_offset = 0x8000

-- what the body of the loop finds on a line: the start, if the line names System RAM
unfoldable pub select : IomemLine → Run (Option ℕ)
select other = ok none
select (range start none) = fault
select (range start (some name)) = ok (if is_prefix ram_str name then some start else none)

-- `while (fgets(buf, sizeof(buf), fp) != 0)`, over the lines that `fgets` gives
unfoldable pub find_ram : List Bytes → Run (Option ℕ)
find_ram [] = ok none
find_ram (line ∷ lines) =
    let rest = find_ram lines in
    do found ← select (scan_line line); elim found [ none ↦ rest | some start ↦ ok (some start) ]

unfoldable pub base_of : ℕ → Option ℕ → ℕ
base_of page_size none = 2 ^ 32 - 1
base_of page_size (some start) = align 64 ((start + text_offset) % 2 ^ 64) page_size

-- /proc/iomem, if it can be opened; `(unsigned long)-1` is 2^32 - 1 on the target.
unfoldable pub get_kernel_base_addr : Option (List Bytes) → ℕ → Run ℕ
unfolding base_of
get_kernel_base_addr none page_size = ok (2 ^ 32 - 1)
get_kernel_base_addr (some lines) page_size = do
  start ← find_ram lines
  ok (base_of page_size start)

-- the string at a `char *` that the boot image or the configuration gives
unfoldable pub cmdline_string : Option Bytes → Option Bytes → Run Bytes
cmdline_string (some buf) configured = deref (c_string buf)
cmdline_string none none = ok []
cmdline_string none (some s) = ok s

unfoldable pub format_cmdline : Bytes → Bytes → Bytes
format_cmdline root cmdline =
    let cfglen = length cmdline + (length root + 6 + 1) in
    snprintf cfglen (codes "root=" ++ (root ++ b' ' ∷ cmdline))

unfoldable pub get_cmdline : Os → GlobalConfig → Bytes → Run Bytes
unfolding cmdline_string
get_cmdline os cfg root = do
  image ← load_android_cmdline os cfg
  cmdline ← cmdline_string image cfg.cmdline
  ok (format_cmdline root cmdline)
