-- ===== src/Tests/RoundTrip.antt =====
-- `load_config` on the lines of a small configuration file.
use midas_util.Base.{none, ◌≡◌, refl, some, List, [], ◌∷◌, Bytes, Option, codes, ok, arith}
use midas_util.CString.{strn_eq, str_eq}
use midas_util.CString.Tokens.{count}
use midas_util.Config.File.{
  Names, DeviceSection, Mode, fixed, gpio, cmdline, OverlaySection, File, Line, lines_of, config_of,
  DeviceIsNamed, OverlayIsNamed, IsWellFormed,
}
use midas_util.Config.RoundTrip.{Says, load_config-lines_of}
use midas_util.Config.Load.{Inih, IniLine, entry, outcome, load_config}

-- A file with two devices and three overlays.
abbrev one_name : Bytes → Names
one_name name = record { first = name; more = [] }

abbrev i9300 : DeviceSection
i9300 = record {
  codename = codes "i9300";
  name = codes "Galaxy S III";
  models = record { first = codes "I9300"; more = codes "I9308" ∷ [] };
  dtbs = one_name (codes "i9300.dtb");
}

abbrev n7100 : DeviceSection
n7100 = record {
  codename = codes "n7100";
  name = codes "Galaxy Note II";
  models = one_name (codes "N7100");
  dtbs = one_name (codes "n7100.dtb");
}

abbrev overlay : Bytes → Mode → OverlaySection
overlay section mode = record {
  section = section;
  path = codes "lcd.dtbo";
  devices = record { first = codes "i9300"; more = codes "n7100" ∷ [] };
  mode = mode;
}

abbrev two_devices : File
two_devices = record {
  rootdir = codes "/boot";
  z_image = codes "zImage";
  initramfs = codes "ramdisk";
  dtbs = codes "dtb";
  cmdline = codes "console=tty1";
  bootimage = some (codes "boot.img");
  recoveryimage = none;
  first = i9300;
  more = n7100 ∷ [];
  overlays =
      overlay (codes "overlay lcd") fixed
      ∷ overlay (codes "overlay pin") (gpio (codes "gpx1") (codes "3") (codes "1"))
      ∷ overlay (codes "overlay key") (cmdline (codes "lpcharge") (codes "1"))
      ∷ [];
}

-- Every label is that of this chip.
abbrev one_chip : Bytes → Option Bytes
one_chip label = some (codes "gpiochip2")

i9300-DeviceIsNamed : DeviceIsNamed i9300
unfolding str_eq strn_eq count
i9300-DeviceIsNamed = record {
  not_global = refl;
  not_overlay = refl;
  models = (refl, (refl, tt));
  dtbs = (refl, tt);
}

n7100-DeviceIsNamed : DeviceIsNamed n7100
unfolding str_eq strn_eq count
n7100-DeviceIsNamed = record {
  not_global = refl;
  not_overlay = refl;
  models = (refl, tt);
  dtbs = (refl, tt);
}

lcd-OverlayIsNamed : OverlayIsNamed one_chip (overlay (codes "overlay lcd") fixed)
unfolding strn_eq count
lcd-OverlayIsNamed = record { overlay = refl; devices = (refl, (refl, tt)); chip = tt }

pin-OverlayIsNamed :
    OverlayIsNamed one_chip
      (overlay (codes "overlay pin") (gpio (codes "gpx1") (codes "3") (codes "1")))
unfolding strn_eq count
pin-OverlayIsNamed = record {
  overlay = refl;
  devices = (refl, (refl, tt));
  chip = (codes "gpiochip2", refl);
}

key-OverlayIsNamed :
    OverlayIsNamed one_chip (overlay (codes "overlay key") (cmdline (codes "lpcharge") (codes "1")))
unfolding strn_eq count
key-OverlayIsNamed = record { overlay = refl; devices = (refl, (refl, tt)); chip = tt }

two_devices-IsWellFormed : IsWellFormed one_chip two_devices
unfolding str_eq count
two_devices-IsWellFormed = record {
  codenames = (refl, (refl, tt));
  devices = (i9300-DeviceIsNamed, (n7100-DeviceIsNamed, tt));
  devices_differ = ((refl, tt), (tt, tt));
  overlays = (lcd-OverlayIsNamed, (pin-OverlayIsNamed, (key-OverlayIsNamed, tt)));
  overlays_differ = ((refl, (refl, tt)), ((refl, tt), (tt, tt)));
}

-- inih on lines that are all entries
abbrev entries : List Line → List IniLine
entries [] = []
entries ((section, name, value) ∷ ls) = entry 1 section name value ∷ entries ls

entries-Says : (ls : List Line) → Says (entries ls) ls
entries-Says [] = tt
entries-Says ((section, name, value) ∷ ls) = (omega arith, refl, entries-Says ls)

abbrev inih_two : Inih
inih_two = record {
  ini_parse = λ file h cfg. outcome h cfg (some (entries (lines_of two_devices)));
  lines = λ file. some (entries (lines_of two_devices));
}

load_config-lines_of_example :
    load_config inih_two one_chip (codes "midas.ini") ≡ ok (some (config_of one_chip two_devices))
load_config-lines_of_example =
    load_config-lines_of inih_two one_chip (codes "midas.ini") (entries (lines_of two_devices))
      two_devices (record { parses = λ file h cfg. refl }) refl
      (entries-Says (lines_of two_devices)) two_devices-IsWellFormed
