-- ===== src/Config.antt =====
-- boot/config.h and boot/config.c: the configuration and the handlers that inih calls.
-- `none` stands for NULL in the fields of the zeroed structs, and for memory that was never
-- written in the fields of `DeviceConfig` behind `codename`, which come from `malloc`.
pub mod Split
pub mod File
pub mod ReadDevices
pub mod ReadOverlays
pub mod RoundTrip
pub mod Overlays
pub mod Pointers
pub mod Valid
pub mod Invariant
pub mod Load
use midas_util.Base.{
  ℕ, zero, suc, ◌+◌, ◌-◌, Bool, true, false, Option, none, some, List, [], ◌∷◌, Bytes, codes, Run,
  String, ok, fault, ◌>>=◌, deref, if◌then◌else◌, ltb, length, get_elem?, set, replicate,
}
use midas_util.Base.Ints.{ℤ, pos}
use midas_util.CString.{str_eq, strn_eq, strsep_all, atoi}

-- An array of `char *`; `none` is a NULL entry.
abbrev pub StrArray : Type 0
StrArray = List (Option Bytes)

pub record DeviceConfig : Type 0 where
  pub codename : Bytes
  pub name : Option Bytes
  pub models : Option StrArray
  pub dtbs : Option StrArray

pub data OverlayMode : Type 0 where
  mode_invalid mode_unknown mode_fixed mode_gpio mode_cmdline : OverlayMode

-- A word of the union in `struct overlay_cfg`: zero or a number, or a pointer to a string.
pub data Word : Type 0 where
  int : ℤ → Word
  str : Bytes → Word

-- The union on the 32-bit target: `gpio.bank` and `cmdline.key` share the first word, `gpio.pin`
-- and `cmdline.value` the second; `gpio.value` is the third.
pub record OverlayUnion : Type 0 where
  pub bank_or_key : Word
  pub pin_or_value : Word
  pub gpio_value : Word

pub record OverlayCfg : Type 0 where
  pub devices : StrArray
  pub ndevices : ℕ
  pub path : Option Bytes
  pub name : Bytes
  pub mode : OverlayMode
  pub u : OverlayUnion

pub record GlobalConfig : Type 0 where
  pub devices : Option (List DeviceConfig)
  pub overlays : List OverlayCfg
  pub rootdir : Option Bytes
  pub z_image_name : Option Bytes
  pub initramfs_name : Option Bytes
  pub dtb_folder : Option Bytes
  pub cmdline : Option Bytes
  pub boot_img : Option Bytes
  pub recovery_img : Option Bytes
  pub is_recovery : Bool
  pub is_lpm : Bool

-- `calloc(1, sizeof(*cfg))`
abbrev pub empty_config : GlobalConfig
empty_config = record {
  devices = none;
  overlays = [];
  rootdir = none;
  z_image_name = none;
  initramfs_name = none;
  dtb_folder = none;
  cmdline = none;
  boot_img = none;
  recovery_img = none;
  is_recovery = false;
  is_lpm = false;
}

-- the loop that counts delimiters
unfoldable pub count_delims : Bytes → Bytes → ℕ
count_delims delim [] = 0
count_delims delim (c ∷ s) =
    (if strn_eq (length delim) (c ∷ s) delim then 1 else 0) + count_delims delim s

-- `ret[i] = strdup(token)` for each token, where a slot behind the array is a fault
unfoldable pub fill : ℕ → List Bytes → StrArray → Run StrArray
fill i [] a = ok a
fill i (t ∷ ts) a =
    let rest = fill (suc i) ts (set a i (some t)) in if ltb i (length a) then rest else fault

-- The array, and what is stored in `*sz`. The tokens end at commas, whatever `delim` is.
unfoldable pub split : Bytes → Bytes → Run (StrArray × ℕ)
unfolding count_delims fill
split s delim = do
  let nents = count_delims delim s + 2
  ret ← fill 0 (strsep_all b',' s) (replicate nents none)
  ok (ret, nents - 1)

-- `cfg->devices[i] = malloc(...); cfg->devices[i]->codename = devices[i]` for the first `count`
-- names. The array of `split` holds a string in each of these slots.
unfoldable pub new_devices : ℕ → StrArray → Run (List DeviceConfig)
new_devices zero names = ok []
new_devices (suc n) [] = fault
new_devices (suc n) (codename ∷ names) = do
  c ← deref codename
  rest ← new_devices n names
  ok (record { codename = c; name = none; models = none; dtbs = none } ∷ rest)

-- `strcmp(name, key) == 0`, the macro MATCH
abbrev pub matches : Bytes → String → Bool
matches s key = str_eq s (codes key)

-- The handlers return the changed struct and their `int` as a Boolean.
unfoldable pub handle_global : GlobalConfig → Bytes → Bytes → Run (GlobalConfig × Bool)
handle_global cfg name value =
    if matches name "devices"
    then (do
      (names, count) ← split value (codes ",")
      devices ← new_devices count names
      ok (record cfg { devices = some devices }, true))
    else if matches name "rootdir"
    then ok (record cfg { rootdir = some value }, true)
    else if matches name "zImage"
    then ok (record cfg { z_image_name = some value }, true)
    else if matches name "initramfs"
    then ok (record cfg { initramfs_name = some value }, true)
    else if matches name "dtbs"
    then ok (record cfg { dtb_folder = some value }, true)
    else if matches name "cmdline"
    then ok (record cfg { cmdline = some value }, true)
    else if matches name "bootimage"
    then ok (record cfg { boot_img = some value }, true)
    else if matches name "recoveryimage"
    then ok (record cfg { recovery_img = some value }, true)
    else ok (cfg, false)

unfoldable pub handle_device : DeviceConfig → Bytes → Bytes → Run (DeviceConfig × Bool)
handle_device dev name value =
    if matches name "name"
    then ok (record dev { name = some value }, true)
    else if matches name "model"
    then (do (models, _) ← split value (codes ","); ok (record dev { models = some models }, true))
    else if matches name "dtbs"
    then (do (dtbs, _) ← split value (codes ","); ok (record dev { dtbs = some dtbs }, true))
    else ok (dev, true)

-- `calloc(1, sizeof(*overlay))` with its name
abbrev pub new_overlay : Bytes → OverlayCfg
new_overlay name = record {
  devices = [];
  ndevices = 0;
  path = none;
  name = name;
  mode = mode_unknown;
  u = record { bank_or_key = int (pos 0); pin_or_value = int (pos 0); gpio_value = int (pos 0) };
}

-- `find_or_create_overlay` gives a pointer into the list. Here it gives the list with the overlay
-- in it and the overlay's place.
unfoldable pub find_or_create_overlay : List OverlayCfg → Bytes → List OverlayCfg × ℕ
find_or_create_overlay [] name = (new_overlay name ∷ [], 0)
find_or_create_overlay (o ∷ os) name =
    let (os', i) = find_or_create_overlay os name in
    if str_eq name o.name then (o ∷ os, 0) else (o ∷ os', suc i)

-- The first argument is `get_gpio_name` of boot/gpio.c, on the chips of this machine.
unfoldable pub handle_gpio_overlay :
    (Bytes → Option Bytes) → OverlayCfg → Bytes → Bytes → OverlayCfg × Bool
handle_gpio_overlay gpio_name o key value =
    if matches key "bank"
    then elim (gpio_name value) [
      | none ↦ (o, false)
      | some name ↦ (record o { u = record (o.u) { bank_or_key = str name } }, true)
    ]
    else if matches key "pin"
    then (record o { u = record (o.u) { pin_or_value = int (atoi value) } }, true)
    else if matches key "value"
    then (record o { u = record (o.u) { gpio_value = int (atoi value) } }, true)
    else (o, false)

unfoldable pub handle_cmdline_overlay : OverlayCfg → Bytes → Bytes → OverlayCfg × Bool
handle_cmdline_overlay o key value =
    if matches key "key"
    then (record o { u = record (o.u) { bank_or_key = str value } }, true)
    else if matches key "value"
    then (record o { u = record (o.u) { pin_or_value = str value } }, true)
    else (o, false)

parse_mode : Bytes → OverlayMode
parse_mode value =
    if matches value "fixed"
    then mode_fixed
    else if matches value "gpio"
    then mode_gpio
    else if matches value "cmdline"
    then mode_cmdline
    else mode_invalid

-- the `switch` on the mode, for a key that is not common to all modes
handle_mode_key :
    OverlayMode → (Bytes → Option Bytes) → OverlayCfg → Bytes → Bytes → OverlayCfg × Bool
unfolding handle_gpio_overlay handle_cmdline_overlay
handle_mode_key mode_gpio gpio_name o key value = handle_gpio_overlay gpio_name o key value
handle_mode_key mode_cmdline gpio_name o key value = handle_cmdline_overlay o key value
handle_mode_key _ gpio_name o key value = (o, false)

-- the body of `handle_overlay` on the overlay that was found or created
unfoldable pub update_overlay :
    (Bytes → Option Bytes) → OverlayCfg → Bytes → Bytes → Run (OverlayCfg × Bool)
unfolding handle_mode_key parse_mode
update_overlay gpio_name o key value =
    if matches key "path"
    then ok (record o { path = some value }, true)
    else if matches key "mode"
    then ok (record o { mode = parse_mode value }, true)
    else if matches key "devices"
    then (do
      (devices, ndevices) ← split value (codes ",")
      ok (record o { devices = devices; ndevices = ndevices }, true))
    else ok (handle_mode_key o.mode gpio_name o key value)

unfoldable pub handle_overlay :
    (Bytes → Option Bytes) → GlobalConfig → Bytes → Bytes → Bytes → Run (GlobalConfig × Bool)
handle_overlay gpio_name cfg section key value = do
  let (os, i) = find_or_create_overlay cfg.overlays section
  o ← deref (get_elem? os i)
  (o', r) ← update_overlay gpio_name o key value
  ok (record cfg { overlays = set os i o' }, r)

-- the loop of `handler` over `cfg->devices`
unfoldable pub handle_device_in :
    Bytes → Bytes → Bytes → List DeviceConfig → Run (List DeviceConfig × Bool)
handle_device_in section name value [] = ok ([], false)
handle_device_in section name value (d ∷ ds) =
    let rest = (do (ds', r) ← handle_device_in section name value ds; ok (d ∷ ds', r)) in
    if str_eq d.codename section
    then (do (d', r) ← handle_device d name value; ok (d' ∷ ds, r))
    else rest

unfoldable pub handle_section :
    GlobalConfig → Option (List DeviceConfig) → Bytes → Bytes → Bytes → Run (GlobalConfig × Bool)
handle_section cfg none section name value = ok (cfg, false)
handle_section cfg (some ds) section name value = do
  (ds', r) ← handle_device_in section name value ds
  ok (record cfg { devices = some ds' }, r)

unfoldable pub handler :
    (Bytes → Option Bytes) → GlobalConfig → Bytes → Bytes → Bytes → Run (GlobalConfig × Bool)
handler gpio_name cfg section name value =
    if matches section "global"
    then handle_global cfg name value
    else if strn_eq 7 (codes "overlay") section
    then handle_overlay gpio_name cfg section name value
    else handle_section cfg cfg.devices section name value
