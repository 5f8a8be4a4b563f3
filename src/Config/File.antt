-- ===== src/Config/File.antt =====
-- A configuration file as data: what its sections say, line by line, and the configuration that
-- it means.
use midas_util.Base.{
  ◌≡◌, true, false, Option, none, some, List, [], ◌∷◌, Bytes, codes, String, length, All,
}
use midas_util.Base.Ints.{pos}
use midas_util.CString.{str_eq, strn_eq, atoi}
use midas_util.CString.Tokens.{join, NoneHolds}
use midas_util.Config.{
  DeviceConfig, OverlayMode, mode_fixed, mode_gpio, mode_cmdline, Word, int, str, OverlayCfg,
  GlobalConfig,
}
use midas_util.Config.Split.{array_of}

-- Names with commas between them, at least one.
pub record Names : Type 0 where
  pub first : Bytes
  pub more : List Bytes

abbrev pub all : Names → List Bytes
all n = n.first ∷ n.more

abbrev pub joined : Names → Bytes
joined n = join b',' (all n)

-- A section of a device.
pub record DeviceSection : Type 0 where
  pub codename : Bytes
  pub name : Bytes
  pub models : Names
  pub dtbs : Names

-- When an overlay is to be applied: always; by a pin, of the chip with a label; by a parameter.
pub data Mode : Type 0 where
  fixed : Mode
  gpio : Bytes → Bytes → Bytes → Mode
  cmdline : Bytes → Bytes → Mode

-- The section of an overlay.
pub record OverlaySection : Type 0 where
  pub section : Bytes
  pub path : Bytes
  pub devices : Names
  pub mode : Mode

-- The section `global`, whose boot images may be left out, and the others.
pub record File : Type 0 where
  pub rootdir : Bytes
  pub z_image : Bytes
  pub initramfs : Bytes
  pub dtbs : Bytes
  pub cmdline : Bytes
  pub bootimage : Option Bytes
  pub recoveryimage : Option Bytes
  pub first : DeviceSection
  pub more : List DeviceSection
  pub overlays : List OverlaySection

-- A line: its section, name and value.
abbrev pub Line : Type 0
Line = Bytes × Bytes × Bytes

abbrev pub line : Bytes → String → Bytes → Line
line section key value = (section, codes key, value)

-- a line of `global` that may be left out
abbrev pub global_line : String → Option Bytes → List Line → List Line
global_line key none rest = rest
global_line key (some value) rest = line (codes "global") key value ∷ rest

abbrev pub device_lines : DeviceSection → List Line → List Line
device_lines d rest =
    line d.codename "name" d.name
    ∷ line d.codename "model" (joined d.models)
    ∷ line d.codename "dtbs" (joined d.dtbs)
    ∷ rest

abbrev pub mode_lines : Bytes → Mode → List Line → List Line
mode_lines section fixed rest = line section "mode" (codes "fixed") ∷ rest
mode_lines section (gpio bank pin value) rest =
    line section "mode" (codes "gpio")
    ∷ line section "bank" bank
    ∷ line section "pin" pin
    ∷ line section "value" value
    ∷ rest
mode_lines section (cmdline key value) rest =
    line section "mode" (codes "cmdline")
    ∷ line section "key" key
    ∷ line section "value" value
    ∷ rest

abbrev pub overlay_lines : OverlaySection → List Line → List Line
overlay_lines o rest =
    line o.section "devices" (joined o.devices)
    ∷ line o.section "path" o.path
    ∷ mode_lines o.section o.mode rest

abbrev pub all_device_lines : List DeviceSection → List Line → List Line
all_device_lines [] rest = rest
all_device_lines (d ∷ ds) rest = device_lines d (all_device_lines ds rest)

abbrev pub all_overlay_lines : List OverlaySection → List Line
all_overlay_lines [] = []
all_overlay_lines (o ∷ os) = overlay_lines o (all_overlay_lines os)

abbrev pub codenames : List DeviceSection → List Bytes
codenames [] = []
codenames (d ∷ ds) = d.codename ∷ codenames ds

-- The lines of the file, those of `global` first.
unfoldable pub lines_of : File → List Line
lines_of f =
    line (codes "global") "devices" (join b',' (codenames (f.first ∷ f.more)))
    ∷ line (codes "global") "rootdir" f.rootdir
    ∷ line (codes "global") "zImage" f.z_image
    ∷ line (codes "global") "initramfs" f.initramfs
    ∷ line (codes "global") "dtbs" f.dtbs
    ∷ line (codes "global") "cmdline" f.cmdline
    ∷ global_line "bootimage" f.bootimage (
        global_line "recoveryimage" f.recoveryimage
          (all_device_lines (f.first ∷ f.more) (all_overlay_lines f.overlays)))

abbrev pub device_of : DeviceSection → DeviceConfig
device_of d = record {
  codename = d.codename;
  name = some d.name;
  models = some (array_of (all d.models));
  dtbs = some (array_of (all d.dtbs));
}

abbrev pub devices_of : List DeviceSection → List DeviceConfig
devices_of [] = []
devices_of (d ∷ ds) = device_of d ∷ devices_of ds

-- The chip that a label names, and NULL if there is none.
abbrev pub bank_of : Option Bytes → Word
bank_of none = int (pos 0)
bank_of (some name) = str name

abbrev pub overlay_with : OverlaySection → OverlayMode → Word → Word → Word → OverlayCfg
overlay_with o mode first second third = record {
  devices = array_of (all o.devices);
  ndevices = length (all o.devices);
  path = some o.path;
  name = o.section;
  mode = mode;
  u = record { bank_or_key = first; pin_or_value = second; gpio_value = third };
}

abbrev pub overlay_in : (Bytes → Option Bytes) → OverlaySection → Mode → OverlayCfg
overlay_in gpio_name o fixed = overlay_with o mode_fixed (int (pos 0)) (int (pos 0)) (int (pos 0))
overlay_in gpio_name o (gpio bank pin value) =
    overlay_with o mode_gpio (bank_of (gpio_name bank)) (int (atoi pin)) (int (atoi value))
overlay_in gpio_name o (cmdline key value) =
    overlay_with o mode_cmdline (str key) (str value) (int (pos 0))

abbrev pub overlay_of : (Bytes → Option Bytes) → OverlaySection → OverlayCfg
overlay_of gpio_name o = overlay_in gpio_name o o.mode

abbrev pub overlays_of : (Bytes → Option Bytes) → List OverlaySection → List OverlayCfg
overlays_of gpio_name [] = []
overlays_of gpio_name (o ∷ os) = overlay_of gpio_name o ∷ overlays_of gpio_name os

-- What the file means. The first argument is `get_gpio_name` on the chips of this machine.
unfoldable pub config_of : (Bytes → Option Bytes) → File → GlobalConfig
config_of gpio_name f = record {
  devices = some (devices_of (f.first ∷ f.more));
  overlays = overlays_of gpio_name f.overlays;
  rootdir = some f.rootdir;
  z_image_name = some f.z_image;
  initramfs_name = some f.initramfs;
  dtb_folder = some f.dtbs;
  cmdline = some f.cmdline;
  boot_img = f.bootimage;
  recovery_img = f.recoveryimage;
  is_recovery = false;
  is_lpm = false;
}

abbrev pub NoComma : Names → Type 0
NoComma n = NoneHolds b',' (all n)

pub record DeviceIsNamed (d : DeviceSection) : Type 0 where
  pub not_global : str_eq d.codename (codes "global") ≡ false
  pub not_overlay : strn_eq 7 (codes "overlay") d.codename ≡ false
  pub models : NoComma d.models
  pub dtbs : NoComma d.dtbs

-- The chip that is named is there.
abbrev pub HasChip : (Bytes → Option Bytes) → Mode → Type 0
HasChip gpio_name fixed = Unit {0}
HasChip gpio_name (gpio bank pin value) = (name : Bytes) × (gpio_name bank ≡ some name)
HasChip gpio_name (cmdline key value) = Unit {0}

pub record OverlayIsNamed (gpio_name : Bytes → Option Bytes) (o : OverlaySection) : Type 0 where
  pub overlay : strn_eq 7 (codes "overlay") o.section ≡ true
  pub devices : NoComma o.devices
  pub chip : HasChip gpio_name o.mode

-- No later section has the name of an earlier one.
abbrev pub DevicesDiffer : List DeviceSection → Type 0
DevicesDiffer [] = Unit {0}
DevicesDiffer (d ∷ ds) = All (λ e. str_eq d.codename e.codename ≡ false) ds × DevicesDiffer ds

abbrev pub OverlaysDiffer : List OverlaySection → Type 0
OverlaysDiffer [] = Unit {0}
OverlaysDiffer (o ∷ os) = All (λ p. str_eq p.section o.section ≡ false) os × OverlaysDiffer os

pub record IsWellFormed (gpio_name : Bytes → Option Bytes) (f : File) : Type 0 where
  pub codenames : NoneHolds b',' (codenames (f.first ∷ f.more))
  pub devices : All DeviceIsNamed (f.first ∷ f.more)
  pub devices_differ : DevicesDiffer (f.first ∷ f.more)
  pub overlays : All (OverlayIsNamed gpio_name) f.overlays
  pub overlays_differ : OverlaysDiffer f.overlays
