-- ===== src/Getdtb/Choice.antt =====
-- Which file `main` of getdtb.c chooses.
use midas_util.Base.{
  ℕ, fault, ltb, false, ◌≤◌, ◌≡◌, Bool, Option, none, some, List, [], ◌∷◌, Bytes, ok, length,
  if◌then◌else◌, arith,
}
use midas_util.Util.{ReadResult, get_bootloader}
use midas_util.Getdtb.{
  Device, devices, find_device, dtb_path, try_dtbs, with_device, with_name, main,
}

-- The first of the files that can be opened.
unfoldable pub first_open : (Bytes → Bool) → Bytes → List Bytes → Option Bytes
first_open opens base [] = none
first_open opens base (dtb ∷ dtbs) =
    if opens (dtb_path base dtb) then some (dtb_path base dtb) else first_open opens base dtbs

-- The names of the table are short.
abbrev IsShort : Bytes → Type 0
IsShort dtb = length dtb ≤ 16

not_ltb : (a b : ℕ) → b ≤ a → ltb a b ≡ false
not_ltb a b h = ground arith

-- If the path of the device's first file has 1024 bytes or more, `main` writes behind its buffer.
main_overrun :
    (opens : Bytes → Bool) (base : Bytes) (proc : Option (List ReadResult)) (stack : Bytes)
    {bl_name dtb : Bytes} {dtbs : List Bytes} {d : Device}
    → get_bootloader proc stack ≡ ok (some bl_name)
    → find_device bl_name devices ≡ some d
    → d.dtbs ≡ dtb ∷ dtbs
    → 1024 ≤ length (dtb_path base dtb)
    → main opens (some base) proc stack ≡ fault
unfolding main with_name with_device try_dtbs
main_overrun opens base proc stack {dtb = dtb} e f g h =
    rw (e, f, g, not_ltb (length (dtb_path base dtb)) 1024 h)
