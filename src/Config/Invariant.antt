-- ===== src/Config/Invariant.antt =====
-- The invariant of the configuration, and the handlers of boot/config.c.
use midas_util.Base.{
  ℕ, zero, suc, ◌≡◌, ap, ◌∙◌, sym, true, false, Option, none, some, List, [], ◌∷◌, Bytes, codes,
  length, set, get_elem?, All, Returns, Returns-bind, ok_of_Returns, arith, Bool-cases, inl, inr,
}
use mathlib.Core.Option.{some-injective}
use midas_util.CString.{str_eq, strn_eq, strsep_all}
use midas_util.CString.Compare.{str_eq_iff}
use midas_util.Config.Split.{split_lem, array_of}
use midas_util.Config.Overlays.{get_elem?-find_or_create, update_overlay-name}
use midas_util.Config.{
  DeviceConfig, OverlayCfg, GlobalConfig, find_or_create_overlay, update_overlay, handle_overlay,
  matches, new_devices, handle_global, handle_device, handle_device_in, handle_section, handler,
}
use midas_util.Config.Valid.{
  Holds, Ends, DeviceIsValid, OverlayIsValid, Fresh, Distinct, DevicesAreValid, IsValid,
}

pub Ends-array_of : (ts : List Bytes) → Ends (array_of ts)
Ends-array_of [] = tt
Ends-array_of (t ∷ ts) = Ends-array_of ts

Holds-array_of : (ts : List Bytes) → Holds (length ts) (array_of ts)
Holds-array_of [] = tt
Holds-array_of (t ∷ ts) = Holds-array_of ts

new_devices-array_of :
    (ts : List Bytes) → Returns (All DeviceIsValid) (new_devices (length ts) (array_of ts))
unfolding new_devices
new_devices-array_of [] = tt
new_devices-array_of (t ∷ ts) =
    Returns-bind (All DeviceIsValid) (All DeviceIsValid) (new_devices (length ts) (array_of ts)) _
      (new_devices-array_of ts) λ ds v. (record { models = tt; dtbs = tt }, v)

handle_global-IsValid :
    {cfg : GlobalConfig} (name value : Bytes)
    → IsValid cfg
    → Returns (λ r. IsValid r.0) (handle_global cfg name value)
unfolding handle_global
handle_global-IsValid {cfg} name value v = elim (Bool-cases (matches name "devices")) [
  | inl e ↦
      rw (e, split_lem value)
        (Returns-bind (All DeviceIsValid) (λ r. IsValid r.0) (new_devices _ _) _
          (new_devices-array_of (strsep_all b',' value))
          λ ds w. record { devices = w; overlays = v.overlays; distinct = v.distinct })
  | inr e ↦ rw e (ground arith)
]

handle_device-IsValid :
    {d : DeviceConfig} (name value : Bytes)
    → DeviceIsValid d
    → Returns (λ r. DeviceIsValid r.0) (handle_device d name value)
unfolding handle_device
handle_device-IsValid name value v =
    ground (arith, split_lem value, Ends-array_of (strsep_all b',' value))

handle_device_in-IsValid :
    (section name value : Bytes) (ds : List DeviceConfig)
    → All DeviceIsValid ds
    → Returns (λ r. All DeviceIsValid r.0) (handle_device_in section name value ds)
unfolding handle_device_in
handle_device_in-IsValid section name value [] v = tt
handle_device_in-IsValid section name value (d ∷ ds) (v, vs) =
    elim (Bool-cases (str_eq d.codename section)) [
      | inl e ↦ rw e (
          Returns-bind (λ r. DeviceIsValid r.0) (λ r. All DeviceIsValid r.0)
            (handle_device d name value) _ (handle_device-IsValid name value v) λ r w. (w, vs))
      | inr e ↦ rw e (
          Returns-bind (λ r. All DeviceIsValid r.0) (λ r. All DeviceIsValid r.0)
            (handle_device_in section name value ds) _
            (handle_device_in-IsValid section name value ds vs) λ r w. (v, w))
    ]

update_overlay-IsValid :
    (gpio_name : Bytes → Option Bytes) {o : OverlayCfg} (key value : Bytes)
    → OverlayIsValid o
    → Returns (λ r. OverlayIsValid r.0) (update_overlay gpio_name o key value)
unfolding update_overlay
update_overlay-IsValid gpio_name key value v =
    ground (arith, split_lem value, Holds-array_of (strsep_all b',' value))

-- What `find_or_create_overlay` keeps: all overlays are valid and distinct, and a name that was
-- fresh stays fresh, if it is not the name asked for.
Fresh-find_or_create :
    (os : List OverlayCfg) (name m : Bytes)
    → str_eq m name ≡ false
    → Fresh m os
    → Fresh m (find_or_create_overlay os name).0
unfolding find_or_create_overlay
Fresh-find_or_create [] name m h f = (h, tt)
Fresh-find_or_create (o ∷ os) name m h f = elim (Bool-cases (str_eq name o.name)) [
  | inl e ↦ rw e f
  | inr e ↦ rw e (f.0, Fresh-find_or_create os name m h f.1)
]

str_eq_comm : (a b : Bytes) → str_eq a b ≡ str_eq b a
str_eq_comm a b = ground (arith, str_eq_iff a b, str_eq_iff b a)

Distinct-find_or_create :
    (os : List OverlayCfg) (name : Bytes)
    → Distinct os
    → Distinct (find_or_create_overlay os name).0
unfolding find_or_create_overlay
Distinct-find_or_create [] name h = (tt, tt)
Distinct-find_or_create (o ∷ os) name (f, h) = elim (Bool-cases (str_eq name o.name)) [
  | inl e ↦ rw e (f, h)
  | inr e ↦ rw e (
    Fresh-find_or_create os name o.name (str_eq_comm o.name name ∙ e) f,
    Distinct-find_or_create os name h,
  )
]

All-find_or_create :
    (os : List OverlayCfg) (name : Bytes)
    → strn_eq 7 (codes "overlay") name ≡ true
    → All OverlayIsValid os
    → All OverlayIsValid (find_or_create_overlay os name).0
unfolding find_or_create_overlay
All-find_or_create [] name h v = (record { section = h; devices = tt }, tt)
All-find_or_create (o ∷ os) name h (v, vs) = elim (Bool-cases (str_eq name o.name)) [
  | inl e ↦ rw e (v, vs)
  | inr e ↦ rw e (v, All-find_or_create os name h vs)
]

All-set :
    (os : List OverlayCfg) (i : ℕ) (o' : OverlayCfg)
    → OverlayIsValid o'
    → All OverlayIsValid os
    → All OverlayIsValid (set os i o')
All-set [] i o' v vs = tt
All-set (o ∷ os) zero o' v vs = (v, vs.1)
All-set (o ∷ os) (suc i) o' v vs = (vs.0, All-set os i o' v vs.1)

All-get_elem? :
    (os : List OverlayCfg) (i : ℕ) {o : OverlayCfg}
    → get_elem? os i ≡ some o
    → All OverlayIsValid os
    → OverlayIsValid o
All-get_elem? [] i e vs = absurd (cc)
All-get_elem? (o ∷ os) zero e vs = rw (some-injective _ _ e) at vs.0
All-get_elem? (o ∷ os) (suc i) e vs = All-get_elem? os i e vs.1

-- Writing an overlay of the same name over one changes no names.
Fresh-set :
    (os : List OverlayCfg) (i : ℕ) (o' : OverlayCfg) (m : Bytes) {o : OverlayCfg}
    → get_elem? os i ≡ some o
    → o'.name ≡ o.name
    → Fresh m os
    → Fresh m (set os i o')
Fresh-set [] i o' m e n f = tt
Fresh-set (o ∷ os) zero o' m e n f = (ground arith, f.1)
Fresh-set (o ∷ os) (suc i) o' m e n f = (f.0, Fresh-set os i o' m e n f.1)

Distinct-set :
    (os : List OverlayCfg) (i : ℕ) (o' : OverlayCfg) {o : OverlayCfg}
    → get_elem? os i ≡ some o
    → o'.name ≡ o.name
    → Distinct os
    → Distinct (set os i o')
Distinct-set [] i o' e n h = tt
Distinct-set (p ∷ os) zero o' e n h =
    (rw (n ∙ ap (λ (q : OverlayCfg). q.name) (sym (some-injective _ _ e))) h.0, h.1)
Distinct-set (p ∷ os) (suc i) o' e n h =
    (Fresh-set os i o' p.name e n h.0, Distinct-set os i o' e n h.1)

handle_overlay-IsValid :
    (gpio_name : Bytes → Option Bytes) {cfg : GlobalConfig} (section key value : Bytes)
    → strn_eq 7 (codes "overlay") section ≡ true
    → IsValid cfg
    → Returns (λ r. IsValid r.0) (handle_overlay gpio_name cfg section key value)
handle_overlay-IsValid gpio_name {cfg} section key value s v =
    let os = (find_or_create_overlay cfg.overlays section).0 in
    let i = (find_or_create_overlay cfg.overlays section).1 in
    let got = get_elem?-find_or_create cfg.overlays section in
    let vs = All-find_or_create cfg.overlays section s v.overlays in
    let (r, e, w) =
      ok_of_Returns (λ r. OverlayIsValid r.0) (update_overlay gpio_name _ key value)
        (update_overlay-IsValid gpio_name key value (All-get_elem? os i got vs)) in
    unfold handle_overlay in
    rw (got, e)
      (record {
        devices = v.devices;
        overlays = All-set os i r.0 w vs;
        distinct =
            Distinct-set os i r.0 got (update_overlay-name gpio_name _ key value e)
              (Distinct-find_or_create cfg.overlays section v.distinct);
      })

handle_section-IsValid :
    {cfg : GlobalConfig} (devices : Option (List DeviceConfig)) (section name value : Bytes)
    → IsValid cfg
    → DevicesAreValid devices
    → Returns (λ r. IsValid r.0) (handle_section cfg devices section name value)
unfolding handle_section
handle_section-IsValid none section name value v d = v
handle_section-IsValid (some ds) section name value v d =
    Returns-bind (λ r. All DeviceIsValid r.0) (λ r. IsValid r.0)
      (handle_device_in section name value ds) _ (handle_device_in-IsValid section name value ds d)
      λ r w. record { devices = w; overlays = v.overlays; distinct = v.distinct }

-- On a valid configuration `handler` does not fault, whatever the line holds, and leaves a valid
-- configuration, whether it accepts the line or not.
pub handler-IsValid :
    (gpio_name : Bytes → Option Bytes) {cfg : GlobalConfig} (section name value : Bytes)
    → IsValid cfg
    → Returns (λ r. IsValid r.0) (handler gpio_name cfg section name value)
unfolding handler
handler-IsValid gpio_name {cfg} section name value v =
    elim (Bool-cases (matches section "global")) [
      | inl e ↦ rw e (handle_global-IsValid name value v)
      | inr e ↦ rw e (elim (Bool-cases (strn_eq 7 (codes "overlay") section)) [
        | inl p ↦ rw p (handle_overlay-IsValid gpio_name section name value p v)
        | inr p ↦ rw p (handle_section-IsValid cfg.devices section name value v v.devices)
      ])
    ]
