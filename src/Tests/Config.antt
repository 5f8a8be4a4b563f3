-- ===== src/Tests/Config.antt =====
-- The configuration's functions and theorems on small inputs.
use midas_util.Base.{
  ℕ, ◌≡◌, ◌↔◌, refl, false, none, some, List, [], ◌∷◌, Bytes, Option, codes, ok, Returns, arith,
}
use midas_util.CString.{strn_eq, strsep_all}
use midas_util.Config.{split, fill, count_delims, empty_config, handler, GlobalConfig}
use midas_util.Config.{DeviceConfig}
use midas_util.Config.Pointers.{ConfigAt, handler_at, empty_config_at}
use midas_util.Ufdt.{Libfdt, Machine, apply_overlays}
use midas_util.Ufdt.Memory.{apply_overlays_at, apply_overlays_at-run_lines}
use midas_util.Tests.Supply.{addresses, addresses-IsSupply}
use midas_util.Config.Split.{array_of}
use midas_util.Config.Valid.{IsValid}
use midas_util.Config.Invariant.{handler-IsValid}
use midas_util.Config.Load.{
  run_lines, Inih, IniLine, entry, Documented, outcome, Accepts, load_config, load_config-Accepts,
  load_config-IsValid,
}

-- No chip is known by any label.
abbrev no_names : Bytes → Option Bytes
no_names label = none

split_two :
    split (codes "I9300,I9305") (codes ",") ≡ ok (array_of (codes "I9300" ∷ codes "I9305" ∷ []), 2)
unfolding split count_delims fill strsep_all strn_eq
split_two = refl

empty-IsValid : IsValid empty_config
empty-IsValid = record { devices = tt; overlays = tt; distinct = tt }

handler-IsValid_example :
    Returns
      (λ r. IsValid r.0)
      (handler no_names empty_config (codes "overlay lcd") (codes "mode") (codes "fixed"))
handler-IsValid_example =
    handler-IsValid no_names (codes "overlay lcd") (codes "mode") (codes "fixed") empty-IsValid

-- inih on a file with one line, `rootdir = /boot` under `[global]`
abbrev one_line : List IniLine
one_line = entry 1 (codes "global") (codes "rootdir") (codes "/boot") ∷ []

abbrev inih_one : Inih
inih_one = record {
  ini_parse = λ file h cfg. outcome h cfg (some one_line);
  lines = λ file. some one_line;
}

inih_one-Documented : Documented inih_one
inih_one-Documented = record { parses = λ file h cfg. refl }

abbrev with_rootdir : GlobalConfig
with_rootdir = record {
  devices = none;
  overlays = [];
  rootdir = some (codes "/boot");
  z_image_name = none;
  initramfs_name = none;
  dtb_folder = none;
  cmdline = none;
  boot_img = none;
  recovery_img = none;
  is_recovery = false;
  is_lpm = false;
}

load_config-Accepts_example :
    (load_config inih_one no_names (codes "midas.ini") ≡ ok (some with_rootdir))
    ↔ Accepts (handler no_names) with_rootdir empty_config one_line
load_config-Accepts_example =
    load_config-Accepts inih_one inih_one-Documented no_names (codes "midas.ini") one_line
      with_rootdir refl (omega arith, tt)

load_config-IsValid_example :
    Returns
      (λ r. (cfg : GlobalConfig) → r ≡ some cfg → IsValid cfg)
      (load_config inih_one no_names (codes "midas.ini"))
load_config-IsValid_example =
    load_config-IsValid inih_one inih_one-Documented no_names (codes "midas.ini")

-- two sections of overlays, the first of them in two parts
abbrev overlay_lines : List IniLine
overlay_lines =
    entry 2 (codes "overlay lcd") (codes "mode") (codes "fixed")
    ∷ entry 5 (codes "overlay modem") (codes "mode") (codes "gpio")
    ∷ entry 8 (codes "overlay lcd") (codes "path") (codes "lcd.dtbo")
    ∷ []

apply_overlays_at-run_lines_example :
    (d : ConfigAt) × (cfg : GlobalConfig) × (e : ℕ) × (run_lines
        (handler_at 4 no_names)
        0
        (empty_config_at (addresses 3))
        overlay_lines
      ≡ ok (d, e))
    × (run_lines (handler no_names) 0 empty_config overlay_lines ≡ ok (cfg, e))
    × (record d.cfg { overlays = cfg.overlays } ≡ cfg)
    × ((fdt : Libfdt) (m : Machine) (dev : DeviceConfig) (buf : Bytes) (size : ℕ)
        → apply_overlays_at fdt 4 m d dev buf size ≡ apply_overlays fdt m cfg dev buf size)
apply_overlays_at-run_lines_example =
    apply_overlays_at-run_lines 4 no_names (addresses 3) overlay_lines (addresses-IsSupply 3)
      (omega arith) (omega arith)
