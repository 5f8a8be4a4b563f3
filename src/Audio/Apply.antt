-- ===== src/Audio/Apply.antt =====
-- `main` of audio/set_paths.c on a well-formed document: which controls it sets.
use midas_util.Base.{
  ℕ, ◌≡◌, refl, ap, Bool, true, false, ◌||◌, Option, none, some, List, [], ◌∷◌, ◌++◌, Bytes, ok,
  arith, if◌then◌else◌, Bool-cases, inl, inr,
}
use midas_util.Base.Ints.{ℤ, nonzero}
use midas_util.CString.{str_eq, atoi}
use midas_util.Audio.{
  XmlEvent, new_widget, MixerCall, set_enum, set_values, matches, apply_widget, apply_paths,
  find_path, widgets_of, finish, main,
}
use midas_util.Audio.Document.{
  DefaultPath, default_ctls_of, IsRoot, Ctl, Device, document, widgets, setting_of,
}
use midas_util.Audio.Devices.{Distinct, settings_of, parse_config-document}

-- The text is a number: `atoi` gives one that is not 0, or it is "0".
unfoldable pub is_number : Bytes → Bool
is_number val = nonzero (atoi val) || matches val "0"

-- The calls for a control of the document: every value of a control that the mixer has is set to
-- the number, or an enum is set by the text.
unfoldable pub ctl_calls : (Bytes → Option ℕ) → Ctl → List MixerCall
ctl_calls mixer (name, val) = elim (mixer name) [
  | none ↦ []
  | some n ↦ if is_number val then set_values name (atoi val) n 0 else set_enum name val ∷ []
]

unfoldable pub calls : (Bytes → Option ℕ) → List Ctl → List MixerCall
calls mixer [] = []
calls mixer (c ∷ cs) = ctl_calls mixer c ++ calls mixer cs

apply_widget-ctl :
    (mixer : Bytes → Option ℕ) (name val : Bytes)
    → apply_widget (new_widget name val) (mixer name) ≡ ctl_calls mixer (name, val)
unfolding apply_widget new_widget ctl_calls is_number
apply_widget-ctl mixer name val = ground arith

apply_paths-widgets :
    (mixer : Bytes → Option ℕ) (cs : List Ctl) → apply_paths mixer (widgets cs) ≡ calls mixer cs
unfolding apply_paths calls
apply_paths-widgets mixer [] = refl
apply_paths-widgets mixer ((name, val) ∷ cs) = rw (apply_paths-widgets mixer cs) (
    ap (λ (l : List MixerCall). l ++ calls mixer cs)
      (unfold new_widget in apply_widget-ctl mixer name val))

-- the first device of this name
unfoldable pub device_named : Bytes → List Device → Option Device
device_named name [] = none
device_named name (d ∷ ds) = if str_eq d.name name then some d else device_named name ds

abbrev pub path_of : Device → Bool → List Ctl
path_of d true = d.on
path_of d false = d.off

abbrev ctls_or_none : Option Device → Bool → List Ctl
ctls_or_none none en = []
ctls_or_none (some d) en = path_of d en

-- the controls of the path that the arguments name; none if there is no such device
unfoldable pub path_chosen : List Device → Bytes → Bool → List Ctl
path_chosen ds name en = ctls_or_none (device_named name ds) en

widgets_of-path : (d : Device) (en : Bool) → widgets_of (setting_of d) en ≡ widgets (path_of d en)
widgets_of-path d true = refl
widgets_of-path d false = refl

find_path-path_chosen :
    (ds : List Device) (name : Bytes) (en : ℤ)
    → find_path (settings_of ds) name en ≡ widgets (path_chosen ds name (nonzero en))
unfolding find_path path_chosen device_named
find_path-path_chosen [] name en = refl
find_path-path_chosen (d ∷ ds) name en = elim (Bool-cases (str_eq d.name name)) [
  | inl t ↦ rw (t, device_named) (widgets_of-path d (nonzero en))
  | inr t ↦ rw (t, device_named) (find_path-path_chosen ds name en)
]

abbrev pub outcome : List MixerCall → List MixerCall → List Ctl → ℕ × List MixerCall
outcome first then_these [] = (2, first)
outcome first then_these (c ∷ cs) = (0, first ++ then_these)

finish-outcome :
    (mixer : Bytes → Option ℕ) (first : List MixerCall) (cs : List Ctl)
    → finish mixer first (widgets cs) ≡ outcome first (calls mixer cs) cs
unfolding finish
finish-outcome mixer first [] = refl
finish-outcome mixer first ((name, val) ∷ cs) =
    ap (λ (l : List MixerCall). (0, first ++ l)) (apply_paths-widgets mixer ((name, val) ∷ cs))

-- On a document of the shape that `document` states (any number of paths of default controls, each with
-- any name or with none, then devices of distinct names, each with a path `on` and then a path `off`),
-- `main` sets the default controls, and behind them those of the path that its arguments name, and
-- returns 0; or it returns 2 after the default controls, if there is no such device or its path has
-- no controls.
pub main-document :
    (mixer : Bytes → Option ℕ) (xml : Bytes → Option (List XmlEvent)) (root : Bytes)
    (defaults : List DefaultPath) (ds : List Device) (file name en : Bytes) (rest : List Bytes)
    → xml file ≡ some (document root defaults ds)
    → IsRoot root
    → Distinct ds
    → main mixer xml (file ∷ name ∷ en ∷ rest)
      ≡ ok (
          outcome
            (calls mixer (default_ctls_of defaults))
            (calls mixer (path_chosen ds name (nonzero (atoi en))))
            (path_chosen ds name (nonzero (atoi en))))
unfolding main
main-document mixer xml root defaults ds file name en rest e r n =
    let cs = default_ctls_of defaults in
    rw
      (
        e,
        parse_config-document root defaults ds r n,
        apply_paths-widgets mixer cs,
        find_path-path_chosen ds name (atoi en),
      )
      (ap ok (finish-outcome mixer (calls mixer cs) (path_chosen ds name (nonzero (atoi en)))))
