-- ===== src/Util/Device.antt =====
-- `get_cur_device` and `load_dtb` of boot/util.c: which device and which file they choose.
use midas_util.Base.{
  ℕ, ◌≡◌, refl, Bool, false, ◌||◌, Option, none, some, List, [], ◌∷◌, ◌++◌, Bytes, Run, ok, fault,
  if◌then◌else◌, All, arith, Bool-cases, inl, inr,
}
use midas_util.CString.{strn_eq}
use midas_util.Config.{StrArray, DeviceConfig, GlobalConfig}
use midas_util.Config.Valid.{Ends}
use midas_util.Util.{Os, File, has_model, find_device, try_dtbs, load_dtb, load_blob, dtb_path}

-- The strings in front of the NULL.
abbrev pub strings : StrArray → List Bytes
strings [] = []
strings (none ∷ a) = []
strings (some s ∷ a) = s ∷ strings a

-- Does one of the names agree with the bootloader's in its first five bytes?
unfoldable pub any_model : Bytes → List Bytes → Bool
any_model blname [] = false
any_model blname (m ∷ ms) = strn_eq 5 m blname || any_model blname ms

-- The models of a device were set, to an array that ends.
abbrev pub HasModels : DeviceConfig → Type 0
HasModels d = (a : StrArray) × (d.models ≡ some a) × Ends a

abbrev models_of : Option StrArray → List Bytes
models_of none = []
models_of (some a) = strings a

-- The first device with a model that agrees.
unfoldable pub first_device : Bytes → List DeviceConfig → Option DeviceConfig
first_device blname [] = none
first_device blname (d ∷ ds) =
    if any_model blname (models_of d.models) then some d else first_device blname ds

has_model-any :
    (blname : Bytes) (a : StrArray)
    → Ends a
    → has_model blname a ≡ ok (any_model blname (strings a))
unfolding has_model any_model
has_model-any blname [] e = absurd e
has_model-any blname (none ∷ a) e = refl
has_model-any blname (some m ∷ a) e = elim (Bool-cases (strn_eq 5 m blname)) [
  | inl t ↦ rw t
  | inr t ↦ rw t (has_model-any blname a e)
]

-- If the models of all devices are set, to lists that end with a NULL, the loops of
-- `get_cur_device` give the first device that has a model which agrees with the bootloader's
-- name in its first five bytes, or none if no device has one.
pub find_device-first :
    (blname : Bytes) (ds : List DeviceConfig)
    → All HasModels ds
    → find_device blname ds ≡ ok (first_device blname ds)
unfolding find_device first_device
find_device-first blname [] h = refl
find_device-first blname (d ∷ ds) ((a, e, ends), h) =
    rw (e, has_model-any blname a ends)
      (elim (Bool-cases (any_model blname (strings a))) [
        | inl t ↦ rw t
        | inr t ↦ rw t (find_device-first blname ds h)
      ])

-- If the models of a device are not set, and those of the devices in front of it are but do not
-- agree with the bootloader's name, the loops of `get_cur_device` read memory that was never
-- written.
pub find_device_unset :
    (blname : Bytes) (ds : List DeviceConfig) (d : DeviceConfig) (rest : List DeviceConfig)
    → All HasModels ds
    → first_device blname ds ≡ none
    → d.models ≡ none
    → find_device blname (ds ++ d ∷ rest) ≡ fault
unfolding find_device first_device
find_device_unset blname [] d rest h n u = rw u
find_device_unset blname (e ∷ ds) d rest ((a, q, ends), h) n u =
    rw (q, has_model-any blname a ends)
      (elim (Bool-cases (any_model blname (strings a))) [
        | inl t ↦ absurd (cc (rw (q, t) at n))
        | inr t ↦ rw t (find_device_unset blname ds d rest h (rw (q, t) at n) u)
      ])

-- The first file of the list that can be opened.
unfoldable pub first_open : Os → GlobalConfig → List Bytes → Option File
first_open os cfg [] = none
first_open os cfg (t ∷ ts) = elim (os.open_file (dtb_path cfg t)) [
  | none ↦ first_open os cfg ts
  | some f ↦ some f
]

abbrev pub blob_of : Os → Option File → Run (Option Bytes × Option ℕ)
blob_of os none = ok (none, none)
blob_of os (some f) = load_blob os f

try_dtbs-first :
    (os : Os) (cfg : GlobalConfig) (a : StrArray)
    → Ends a
    → try_dtbs os cfg a ≡ blob_of os (first_open os cfg (strings a))
unfolding try_dtbs first_open
try_dtbs-first os cfg [] e = absurd e
try_dtbs-first os cfg (none ∷ a) e = refl
try_dtbs-first os cfg (some t ∷ a) e = ground (arith, try_dtbs-first os cfg a)

-- If the device's list of device trees ends with a NULL, `load_dtb` loads the first of them that
-- can be opened, and returns NULL if none can.
pub load_dtb-first :
    (os : Os) (cfg : GlobalConfig) (dev : DeviceConfig) {a : StrArray}
    → dev.dtbs ≡ some a
    → Ends a
    → load_dtb os cfg dev ≡ blob_of os (first_open os cfg (strings a))
unfolding load_dtb
load_dtb-first os cfg dev {a} q e = rw q (try_dtbs-first os cfg a e)
