-- ===== src/Config/Overlays.antt =====
-- The list of overlays of boot/config.c as a map from section names to overlays.
use midas_util.Base.{
  ◌≡◌, refl, ◌∙◌, sym, Bool, Option, none, some, List, [], ◌∷◌, Bytes, ok, set, get_elem?,
  if◌then◌else◌, arith, Bool-cases, inl, inr,
}
use midas_util.CString.{str_eq}
use midas_util.CString.Compare.{eq_of_str_eq, str_eq_iff}
use midas_util.Config.Split.{split_lem}
use midas_util.Config.{
  OverlayCfg, GlobalConfig, new_overlay, find_or_create_overlay, update_overlay, handle_overlay,
}

-- The overlay of a section: the first with its name.
unfoldable pub find_overlay : List OverlayCfg → Bytes → Option OverlayCfg
find_overlay [] name = none
find_overlay (o ∷ os) name = if str_eq name o.name then some o else find_overlay os name

-- The overlay of a section, or a new one.
unfoldable pub overlay_for : List OverlayCfg → Bytes → OverlayCfg
overlay_for os name = elim (find_overlay os name) [ none ↦ new_overlay name | some o ↦ o ]

pub get_elem?-find_or_create :
    (os : List OverlayCfg) (name : Bytes)
    → get_elem? (find_or_create_overlay os name).0 (find_or_create_overlay os name).1
      ≡ some (overlay_for os name)
unfolding find_or_create_overlay find_overlay overlay_for
get_elem?-find_or_create [] name = refl
get_elem?-find_or_create (o ∷ os) name = elim (Bool-cases (str_eq name o.name)) [
  | inl e ↦ rw (e, overlay_for)
  | inr e ↦ rw (e, overlay_for) (get_elem?-find_or_create os name)
]

overlay_for-name : (os : List OverlayCfg) (name : Bytes) → (overlay_for os name).name ≡ name
unfolding overlay_for find_overlay
overlay_for-name [] name = refl
overlay_for-name (o ∷ os) name = elim (Bool-cases (str_eq name o.name)) [
  | inl e ↦ rw (overlay_for, e) (sym (eq_of_str_eq name o.name e))
  | inr e ↦ rw (overlay_for, e) (overlay_for-name os name)
]

find_overlay-set :
    (os : List OverlayCfg) (name m : Bytes) (o' : OverlayCfg)
    → o'.name ≡ name
    → find_overlay (set (find_or_create_overlay os name).0 (find_or_create_overlay os name).1 o') m
      ≡ (if str_eq m name then some o' else find_overlay os m)
unfolding find_or_create_overlay find_overlay
find_overlay-set [] name m o' h = rw h
find_overlay-set (o ∷ os) name m o' h = elim (Bool-cases (str_eq name o.name)) [
  | inl e ↦ rw (e, h) (rw (eq_of_str_eq name o.name e) (ground arith))
  | inr e ↦
      rw (e, find_overlay-set os name m o' h)
        (ground (arith, str_eq_iff m name, str_eq_iff m o.name, str_eq_iff name o.name))
]

pub update_overlay-name :
    (gpio_name : Bytes → Option Bytes) (o : OverlayCfg) (key value : Bytes) {r : OverlayCfg × Bool}
    → update_overlay gpio_name o key value ≡ ok r
    → r.0.name ≡ o.name
unfolding update_overlay
update_overlay-name gpio_name o key value h = ground (arith, split_lem value)

-- If `update_overlay` returns on the overlay of a section, which is a new one if there is none,
-- then `handle_overlay` stores what it returned as the overlay of that section, and leaves the
-- overlays of the other sections as they are.
pub handle_overlay_lookup :
    (gpio_name : Bytes → Option Bytes) (cfg : GlobalConfig) (section key value : Bytes)
    {o' : OverlayCfg} {r : Bool}
    → update_overlay gpio_name (overlay_for cfg.overlays section) key value ≡ ok (o', r)
    → (cfg' : GlobalConfig) × (handle_overlay gpio_name cfg section key value ≡ ok (cfg', r))
      × ((m : Bytes)
          → find_overlay cfg'.overlays m
            ≡ (if str_eq m section then some o' else find_overlay cfg.overlays m))
unfolding handle_overlay
handle_overlay_lookup gpio_name cfg section key value {o'} h = (
  record cfg {
    overlays =
        set (find_or_create_overlay cfg.overlays section).0
          (find_or_create_overlay cfg.overlays section).1 o';
  },
  rw (get_elem?-find_or_create cfg.overlays section, h),
  λ m. find_overlay-set cfg.overlays section m o' (
      update_overlay-name gpio_name (overlay_for cfg.overlays section) key value h
      ∙ overlay_for-name cfg.overlays section),
)
