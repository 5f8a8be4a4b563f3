-- ===== src/Config/Valid.antt =====
-- Which configurations are valid.
use midas_util.Base.{
  ℕ, zero, suc, ◌≡◌, true, false, Option, none, some, List, [], ◌∷◌, Bytes, codes, All,
}
use midas_util.CString.{str_eq, strn_eq}
use midas_util.Config.{StrArray, DeviceConfig, OverlayCfg, GlobalConfig}

-- The first n entries of an array are strings.
abbrev pub Holds : ℕ → StrArray → Type 0
Holds zero a = Unit {0}
Holds (suc n) [] = ⊥
Holds (suc n) (none ∷ a) = ⊥
Holds (suc n) (some s ∷ a) = Holds n a

-- A NULL stands behind the strings of an array.
abbrev pub Ends : StrArray → Type 0
Ends [] = ⊥
Ends (none ∷ a) = Unit {0}
Ends (some s ∷ a) = Ends a

abbrev pub EndsIfSet : Option StrArray → Type 0
EndsIfSet none = Unit {0}
EndsIfSet (some a) = Ends a

-- The arrays of a device that have been written are NULL-terminated.
pub record DeviceIsValid (d : DeviceConfig) : Type 0 where
  pub models : EndsIfSet d.models
  pub dtbs : EndsIfSet d.dtbs

-- An overlay's section begins with "overlay", and `ndevices` counts strings of its array.
pub record OverlayIsValid (o : OverlayCfg) : Type 0 where
  pub section : strn_eq 7 (codes "overlay") o.name ≡ true
  pub devices : Holds o.ndevices o.devices

-- No overlay of the list has this name.
abbrev pub Fresh : Bytes → List OverlayCfg → Type 0
Fresh name [] = Unit {0}
Fresh name (o ∷ os) = (str_eq name o.name ≡ false) × Fresh name os

-- No two overlays have one name.
abbrev pub Distinct : List OverlayCfg → Type 0
Distinct [] = Unit {0}
Distinct (o ∷ os) = Fresh o.name os × Distinct os

abbrev pub DevicesAreValid : Option (List DeviceConfig) → Type 0
DevicesAreValid none = Unit {0}
DevicesAreValid (some ds) = All DeviceIsValid ds

pub record IsValid (cfg : GlobalConfig) : Type 0 where
  pub devices : DevicesAreValid cfg.devices
  pub overlays : All OverlayIsValid cfg.overlays
  pub distinct : Distinct cfg.overlays
