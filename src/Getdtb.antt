-- ===== src/Getdtb.antt =====
-- getdtb.c: the device tree's file for this machine, by the same search of the kernel's command
-- line as in boot/util.c.
pub mod Choice
mod Tests
use midas_util.Base.{
  ℕ, zero, suc, ◌+◌, Bool, true, false, Option, none, some, List, [], ◌∷◌, ◌++◌, Bytes, codes,
  String, Run, ok, fault, ◌>>=◌, length, if◌then◌else◌, ltb,
}
use midas_util.CString.{strn_eq}
use midas_util.Util.{ReadResult, get_bootloader}

-- `struct device`
pub record Device : Type 0 where
  pub bl_name : Bytes
  pub dtbs : List Bytes

abbrev device : String → String → String → Device
device bl_name first second = record {
  bl_name = codes bl_name;
  dtbs = codes first ∷ codes second ∷ [];
}

-- The table, up to its sentinel.
unfoldable pub devices : List Device
devices =
    device "I9300" "m0" "galaxy-s3-common"
    ∷ device "I9305" "m3" "galaxy-s3-common"
    ∷ device "N7100" "t0-3g" "t0"
    ∷ device "N7105" "t0-lte" "t0"
    ∷ []

-- the loop over the table
unfoldable pub find_device : Bytes → List Device → Option Device
find_device bl_name [] = none
find_device bl_name (d ∷ ds) =
    if strn_eq 5 bl_name d.bl_name then some d else find_device bl_name ds

-- what `strcpy` and the three calls of `strcat` put together
abbrev pub dtb_path : Bytes → Bytes → Bytes
dtb_path base dtb = base ++ (codes "exynos4412-" ++ (dtb ++ codes ".dtb"))

-- The loop over `device->dtbs`, with the paths that can be opened; `buf` has 1024 bytes.
unfoldable pub try_dtbs : (Bytes → Bool) → Bytes → List Bytes → Run (Option Bytes)
try_dtbs opens base [] = ok none
try_dtbs opens base (dtb ∷ dtbs) =
    let rest = try_dtbs opens base dtbs in
    if ltb (length (dtb_path base dtb)) 1024
    then (if opens (dtb_path base dtb) then ok (some (dtb_path base dtb)) else rest)
    else fault

-- the code that is returned, and what is printed
unfoldable pub outcome : Option Bytes → ℕ × Option Bytes
outcome none = (1, none)
outcome (some path) = (0, some path)

unfoldable pub with_device : (Bytes → Bool) → Bytes → Option Device → Run (ℕ × Option Bytes)
unfolding outcome
with_device opens base none = ok (1, none)
with_device opens base (some d) = do path ← try_dtbs opens base d.dtbs; ok (outcome path)

unfoldable pub with_name : (Bytes → Bool) → Bytes → Option Bytes → Run (ℕ × Option Bytes)
with_name opens base none = ok (1, none)
with_name opens base (some bl_name) = with_device opens base (find_device bl_name devices)

-- `argv[1]`, /proc/cmdline if it can be opened, and what `buf` holds at first. The search is the
-- text of `get_bootloader`.
unfoldable pub main :
    (Bytes → Bool) → Option Bytes → Option (List ReadResult) → Bytes → Run (ℕ × Option Bytes)
main opens none proc stack = ok (1, none)
main opens (some base) proc stack = do
  bl_name ← get_bootloader proc stack
  with_name opens base bl_name
