-- ===== src/Getdtb/Tests.antt =====
-- A run of getdtb.c on a small machine, where only the second file can be opened.
use midas_util.Base.{◌≡◌, refl, Bool, some, [], ◌∷◌, Bytes, Option, List, codes}
use midas_util.CString.{str_eq}
use midas_util.Util.{ReadResult, bytes}
use midas_util.Getdtb.{Device}
use midas_util.Getdtb.Choice.{first_open}

abbrev opens : Bytes → Bool
opens path = str_eq path (codes "/dtb/exynos4412-t0.dtb")

abbrev proc : Option (List ReadResult)
proc = some (bytes (codes "x androidboot.bootloader=N7105XX") ∷ [])

abbrev n7105 : Device
n7105 = record { bl_name = codes "N7105"; dtbs = codes "t0-lte" ∷ codes "t0" ∷ [] }

second_opens : first_open opens (codes "/dtb/") n7105.dtbs ≡ some (codes "/dtb/exynos4412-t0.dtb")
unfolding first_open str_eq
second_opens = refl
