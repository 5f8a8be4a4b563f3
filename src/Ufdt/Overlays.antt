-- ===== src/Ufdt/Overlays.antt =====
-- Which overlays `apply_overlays` applies, and in which order.
use midas_util.Base.{
  ℕ, zero, suc, ◌≡◌, refl, Bool, true, false, ◌||◌, Option, none, some, List, [], ◌∷◌, ◌++◌, Bytes,
  codes, Run, ok, fault, ◌>>=◌, Bool-cases, inl, inr,
}
use midas_util.CString.{str_eq, snprintf}
use midas_util.Config.{StrArray, str, OverlayCfg, mode_gpio, GlobalConfig, DeviceConfig}
use midas_util.Config.Valid.{Holds}
use midas_util.Gpio.{failed, gpio_should_apply}
use midas_util.Ufdt.{
  Libfdt, Machine, applies, mode_test, names_device, apply_one, apply_all, apply_overlays,
}

-- The overlays whose test succeeds, in the order of the configuration.
pub data Chosen (m : Machine) (dev : DeviceConfig)
    : List OverlayCfg → List OverlayCfg → Type 0 where
  none_left : Chosen m dev [] []
  chosen :
      {o : OverlayCfg} {os sel : List OverlayCfg}
      → applies m dev o ≡ ok true
      → Chosen m dev os sel
      → Chosen m dev (o ∷ os) (o ∷ sel)
  passed :
      {o : OverlayCfg} {os sel : List OverlayCfg}
      → applies m dev o ≡ ok false
      → Chosen m dev os sel
      → Chosen m dev (o ∷ os) sel

module _ (fdt : Libfdt) where
  open fdt use {Blob, install_blob}

  -- Applying a list of overlays one after the other, whatever they say.
  unfoldable pub apply_each :
      Machine → GlobalConfig → List OverlayCfg → Option Blob × ℕ → Run (Option Blob × ℕ)
  apply_each m cfg [] s = ok s
  apply_each m cfg (o ∷ os) s = do s' ← apply_one fdt m cfg s o; apply_each m cfg os s'

  apply_all-each :
      (m : Machine) (cfg : GlobalConfig) (dev : DeviceConfig) {os sel : List OverlayCfg}
      → Chosen m dev os sel
      → (s : Option Blob × ℕ) → apply_all fdt m cfg dev os s ≡ apply_each m cfg sel s
  unfolding apply_all apply_each
  apply_all-each m cfg dev none_left s = refl
  apply_all-each m cfg dev (chosen {o} {os} {sel} e c) s =
      rw e (later os sel (apply_one fdt m cfg s o) (apply_all-each m cfg dev c))
    where
      later :
          (os sel : List OverlayCfg) (r : Run (Option Blob × ℕ))
          → ((t : Option Blob × ℕ) → apply_all fdt m cfg dev os t ≡ apply_each m cfg sel t)
          → (r >>= λ t. apply_all fdt m cfg dev os t) ≡ (r >>= λ t. apply_each m cfg sel t)
      later os sel (ok t) h = h t
      later os sel fault h = refl
  apply_all-each m cfg dev (passed e c) s = rw e (apply_all-each m cfg dev c s)

  -- If `applies` faults for none of the configured overlays, and `sel` is the list of those for
  -- which it is true, in their order, then `apply_overlays` is `apply_one` for each overlay of
  -- `sel` in turn, on the tree that was installed.
  pub apply_overlays-each :
      (m : Machine) (cfg : GlobalConfig) (dev : DeviceConfig) (dtb_buf : Bytes) (dtb_size : ℕ)
      {sel : List OverlayCfg}
      → Chosen m dev cfg.overlays sel
      → apply_overlays fdt m cfg dev dtb_buf dtb_size
        ≡ apply_each m cfg sel (install_blob dtb_buf dtb_size, dtb_size)
  unfolding apply_overlays
  apply_overlays-each m cfg dev dtb_buf dtb_size c =
      apply_all-each m cfg dev c (install_blob dtb_buf dtb_size, dtb_size)

-- Is the device among the first n names?
unfoldable pub listed : ℕ → StrArray → Bytes → Bool
listed zero a codename = false
listed (suc n) [] codename = false
listed (suc n) (none ∷ a) codename = listed n a codename
listed (suc n) (some s ∷ a) codename = str_eq s codename || listed n a codename

pub names_device-listed :
    (n : ℕ) (a : StrArray) (codename : Bytes)
    → Holds n a
    → names_device n a codename ≡ ok (listed n a codename)
unfolding names_device listed
names_device-listed zero a codename h = refl
names_device-listed (suc n) [] codename h = absurd h
names_device-listed (suc n) (none ∷ a) codename h = absurd h
names_device-listed (suc n) (some s ∷ a) codename h = elim (Bool-cases (str_eq s codename)) [
  | inl e ↦ rw e
  | inr e ↦ rw e (names_device-listed n a codename h)
]

-- An overlay of mode `gpio` that is for this device, and whose chip cannot be opened, is
-- applied: the error code is not 0.
pub applies_gpio_error :
    (m : Machine) (dev : DeviceConfig) (o : OverlayCfg) {bank : Bytes} (e : ℕ)
    → Holds o.ndevices o.devices
    → listed o.ndevices o.devices dev.codename ≡ true
    → o.mode ≡ mode_gpio
    → o.u.bank_or_key ≡ str bank
    → m.gpio.open_dev (snprintf 36 (codes "/dev/" ++ bank)) ≡ failed (suc e)
    → applies m dev o ≡ ok true
unfolding applies mode_test gpio_should_apply
applies_gpio_error m dev o e h l mode b f =
    rw (names_device-listed o.ndevices o.devices dev.codename h, l, mode, b, f)
