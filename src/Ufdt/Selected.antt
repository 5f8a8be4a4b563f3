-- ===== src/Ufdt/Selected.antt =====
-- `apply_overlays` of boot/ufdt.c with the meaning of each mode: which overlays it applies to the tree.
use midas_util.Base.{
  ◌≡◌, ◌≢◌, ◌∙◌, refl, Bool, true, false, some, List, [], ◌∷◌, ◌++◌, Bytes, codes, ok, ℕ, suc,
}
use midas_util.Base.Ints.{ℤ, pos}
use midas_util.CString.{snprintf, c_string}
use midas_util.Config.{
  str, int, OverlayCfg, mode_fixed, mode_gpio, mode_cmdline, mode_unknown, GlobalConfig,
  DeviceConfig,
}
use midas_util.Config.Valid.{Holds}
use midas_util.Gpio.{failed, gpio_should_apply}
use midas_util.Gpio.Results.{Reads, gpio_should_apply_equal, gpio_should_apply_unequal}
use midas_util.Util.{bytes, overwrite}
use midas_util.Util.Flags.{Flag, util_has_cmdline-Flag}
use midas_util.Ufdt.{Libfdt, Machine, applies, mode_test, apply_overlays}
use midas_util.Ufdt.Overlays.{
  Chosen, none_left, chosen, passed, listed, names_device-listed, apply_overlays-each,
}
use midas_util.Ufdt.Success.{Applied, apply_each-Applied}

-- Whether the mode asks for the overlay on this machine: a fixed one always, one of mode `cmdline` if the
-- kernel's command line gives the parameter such a value, and one of mode `gpio` if the pin has the
-- value that is configured, or its chip cannot be opened.
pub data Asks (m : Machine) (o : OverlayCfg) : Bool → Type 0 where
  always : o.mode ≡ mode_fixed → Asks m o true
  no_mode : o.mode ≡ mode_unknown → Asks m o false
  flag :
      {key val line : Bytes} {c : ℕ} {cs : Bytes} {b : Bool}
      → o.mode ≡ mode_cmdline
      → o.u.bank_or_key ≡ str key
      → o.u.pin_or_value ≡ str val
      → m.proc_cmdline ≡ some (bytes (c ∷ cs) ∷ [])
      → c_string (overwrite 0 (c ∷ cs) m.stack) ≡ some line
      → Flag line key val b
      → Asks m o b
  pin_agrees :
      {bank : Bytes} {pin : ℤ} {fd handle v : ℕ}
      → o.mode ≡ mode_gpio
      → o.u.bank_or_key ≡ str bank
      → o.u.pin_or_value ≡ int pin
      → o.u.gpio_value ≡ int (pos v)
      → Reads m.gpio (record { bank = some bank; pin = pin; value = pos v }) bank fd handle v
      → Asks m o true
  pin_differs :
      {bank : Bytes} {pin value : ℤ} {fd handle v : ℕ}
      → o.mode ≡ mode_gpio
      → o.u.bank_or_key ≡ str bank
      → o.u.pin_or_value ≡ int pin
      → o.u.gpio_value ≡ int value
      → pos v ≢ value
      → Reads m.gpio (record { bank = some bank; pin = pin; value = value }) bank fd handle v
      → Asks m o false
  no_chip :
      {bank : Bytes} {e : ℕ}
      → o.mode ≡ mode_gpio
      → o.u.bank_or_key ≡ str bank
      → m.gpio.open_dev (snprintf 36 (codes "/dev/" ++ bank)) ≡ failed (suc e)
      → Asks m o true

-- The overlay's first `ndevices` names are strings; it is for this device if one of them is the codename.
pub data IsFor (m : Machine) (dev : DeviceConfig) (o : OverlayCfg) : Bool → Type 0 where
  other_device :
      Holds o.ndevices o.devices
      → listed o.ndevices o.devices dev.codename ≡ false
      → IsFor m dev o false
  this_device :
      {b : Bool}
      → Holds o.ndevices o.devices
      → listed o.ndevices o.devices dev.codename ≡ true
      → Asks m o b
      → IsFor m dev o b

mode_test-Asks :
    (m : Machine) (o : OverlayCfg) {b : Bool} → Asks m o b → mode_test m o.mode o.u ≡ ok b
unfolding mode_test gpio_should_apply
mode_test-Asks m o (always e) = rw e
mode_test-Asks m o (no_mode e) = rw e
mode_test-Asks m o (flag {key} {val} {line} {c} {cs} mode k v one text f) =
    rw (mode, k, v, one) (util_has_cmdline-Flag c cs m.stack key val text f)
mode_test-Asks m o (pin_agrees {v = v} mode b p x r) =
    rw (mode, b, p, x, gpio_should_apply_equal 0 r refl)
mode_test-Asks m o (pin_differs {value = value} {v = v} mode b p x d r) =
    rw (mode, b, p, x, gpio_should_apply_unequal 0 r d)
mode_test-Asks m o (no_chip mode b f) = rw (mode, b, f)

applies-IsFor :
    (m : Machine) (dev : DeviceConfig) (o : OverlayCfg) {b : Bool}
    → IsFor m dev o b
    → applies m dev o ≡ ok b
unfolding applies
applies-IsFor m dev o (other_device h l) =
    rw (names_device-listed o.ndevices o.devices dev.codename h, l)
applies-IsFor m dev o (this_device h l a) =
    rw (names_device-listed o.ndevices o.devices dev.codename h, l) (mode_test-Asks m o a)

-- The overlays that are for this device and machine, in the order of the configuration.
pub data Selected (m : Machine) (dev : DeviceConfig)
    : List OverlayCfg → List OverlayCfg → Type 0 where
  no_more : Selected m dev [] []
  taken :
      {o : OverlayCfg} {os sel : List OverlayCfg}
      → IsFor m dev o true
      → Selected m dev os sel
      → Selected m dev (o ∷ os) (o ∷ sel)
  left_out :
      {o : OverlayCfg} {os sel : List OverlayCfg}
      → IsFor m dev o false
      → Selected m dev os sel
      → Selected m dev (o ∷ os) sel

Selected-Chosen :
    (m : Machine) (dev : DeviceConfig) {os sel : List OverlayCfg}
    → Selected m dev os sel
    → Chosen m dev os sel
Selected-Chosen m dev no_more = none_left
Selected-Chosen m dev (taken {o} f s) = chosen (applies-IsFor m dev o f) (Selected-Chosen m dev s)
Selected-Chosen m dev (left_out {o} f s) =
    passed (applies-IsFor m dev o f) (Selected-Chosen m dev s)

-- If it is settled for each configured overlay whether it is for this device and machine (the device is
-- listed, or not; the mode is fixed, or unknown, or a parameter of the command line, which is read at
-- once, has such a value, or not, or the pin can be read and agrees, or not, or its chip cannot be
-- opened), `sel` has those that are, in their order, and each of them can be loaded and applied, from
-- the installed tree to `last`, then `apply_overlays` returns `last` and its size: it applies these
-- overlays, one after the other, and no others.
pub apply_overlays-Selected :
    (fdt : Libfdt) (m : Machine) (cfg : GlobalConfig) (dev : DeviceConfig) (dtb_buf : Bytes)
    (dtb_size : ℕ) {sel : List OverlayCfg} {last : fdt.Blob} {size : ℕ}
    → Selected m dev cfg.overlays sel
    → Applied fdt m cfg last size sel (fdt.install_blob dtb_buf dtb_size, dtb_size)
    → apply_overlays fdt m cfg dev dtb_buf dtb_size ≡ ok (some last, size)
apply_overlays-Selected fdt m cfg dev dtb_buf dtb_size s a =
    apply_overlays-each fdt m cfg dev dtb_buf dtb_size (Selected-Chosen m dev s)
    ∙ apply_each-Applied fdt m cfg a
