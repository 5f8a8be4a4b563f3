-- ===== src/Audio/Devices.antt =====
-- The devices of a document, and the configuration that `parse_config` makes of the whole.
use mathlib.Core.List.{append_assoc, append-nil}
use midas_util.Base.{
  ◌≡◌, refl, ap, ◌∙◌, Bool, true, false, Option, none, some, List, [], ◌∷◌, ◌++◌, Bytes, codes, ok,
  length, All, arith, if◌then◌else◌,
}
use midas_util.Base.Ints.{ℤ, pos, negsuc}
use midas_util.CString.{str_eq}
use midas_util.CString.Compare.{str_eq_refl}
use midas_util.Audio.{
  MixerConfig, Widget, MixerSetting, ListRef, setting, ParserData, find_setting, ref_of, list_for,
  open_list, start_path, config_start, config_end, XmlEvent, start, end, run_events, parse_config,
  attribute, start_device, new_setting,
}
use midas_util.Audio.Document.{
  DefaultPath, default_ctls_of, default_paths, IsRoot, Ctl, Device, ctl_events, path_events,
  device_events, document, widgets, setting_of, state, setting_ctls, filled,
}

find_setting-snoc :
    (ss : List MixerSetting) (s : MixerSetting) (name : Bytes)
    → find_setting ss name ≡ none
    → find_setting (ss ++ s ∷ []) name ≡ (if str_eq s.name name then some (length ss) else none)
unfolding find_setting
find_setting-snoc [] s name h = ground arith
find_setting-snoc (t ∷ ss) s name h = ground (arith, find_setting-snoc ss s name)

-- a path inside a device
path_in_device :
    (ss : List MixerSetting) (s : MixerSetting) (en : Bool) (cs : List Ctl) (ws : List Widget)
    (device : Bytes) (st : ℤ) (rest : List XmlEvent)
    → run_events
        (state (ss ++ s ∷ []) ws (some device) st (some (setting (length ss) en)))
        (ctl_events cs ++ end (codes "path") ∷ rest)
      ≡ run_events (state (ss ++ filled s en cs ∷ []) ws (some device) (negsuc 0) none) rest
unfolding run_events config_end str_eq
path_in_device ss s en cs ws device st rest =
    setting_ctls cs ss s en ws (some device) st (end (codes "path") ∷ rest)

-- `<path name="off">` in a device whose setting is the last one
off_path :
    (ss : List MixerSetting) (s : MixerSetting) (cs : List Ctl) (ws : List Widget) (device : Bytes)
    (rest : List XmlEvent)
    → find_setting (ss ++ s ∷ []) device ≡ some (length ss)
    → run_events (state (ss ++ s ∷ []) ws (some device) (negsuc 0) none) (path_events "off" cs rest)
      ≡ run_events (state (ss ++ filled s false cs ∷ []) ws (some device) (negsuc 0) none) rest
unfolding run_events config_start start_path open_list list_for ref_of attribute str_eq
off_path ss s cs ws device rest e = rw e (path_in_device ss s false cs ws device (pos 0) rest)

-- `<path name="on">` in a device that has no setting yet
on_path :
    (ss : List MixerSetting) (cs : List Ctl) (ws : List Widget) (device : Bytes) (st : ℤ)
    (list : Option ListRef) (rest : List XmlEvent)
    → find_setting ss device ≡ none
    → run_events (state ss ws (some device) st list) (path_events "on" cs rest)
      ≡ run_events
          (state (ss ++ filled (new_setting device) true cs ∷ []) ws (some device) (negsuc 0) none)
          rest
unfolding run_events config_start start_path open_list list_for ref_of attribute str_eq
on_path ss cs ws device st list rest e =
    rw e (path_in_device ss (new_setting device) true cs ws device (pos 1) rest)

device_lem :
    (ss : List MixerSetting) (d : Device) (ws : List Widget) (st : ℤ) (list : Option ListRef)
    (rest : List XmlEvent)
    → find_setting ss d.name ≡ none
    → run_events (state ss ws none st list) (
        start (codes "device") ((codes "name", d.name) ∷ [])
        ∷ path_events "on" d.on (path_events "off" d.off (end (codes "device") ∷ rest)))
      ≡ run_events (state (ss ++ setting_of d ∷ []) ws none (negsuc 0) none) rest
unfolding run_events config_start config_end start_device attribute str_eq
device_lem ss d ws st list rest e =
    let found : find_setting (ss ++ filled (new_setting d.name) true d.on ∷ []) d.name
        ≡ some (length ss) =
      find_setting-snoc ss _ d.name e ∙ rw (str_eq_refl d.name) in
    on_path ss d.on ws d.name st list _ e
    ∙ off_path ss (filled (new_setting d.name) true d.on) d.off ws d.name _ found

-- Each name is unlike those behind it.
abbrev pub Distinct : List Device → Type 0
Distinct [] = Unit {0}
Distinct (d ∷ ds) = All (λ e. str_eq d.name e.name ≡ false) ds × Distinct ds

abbrev pub settings_of : List Device → List MixerSetting
settings_of [] = []
settings_of (d ∷ ds) = setting_of d ∷ settings_of ds

-- No device of the list has a setting yet.
abbrev AllFresh : List MixerSetting → List Device → Type 0
AllFresh ss ds = All (λ (d : Device). find_setting ss d.name ≡ none) ds

AllFresh-snoc :
    (ss : List MixerSetting) (s : MixerSetting) (ds : List Device)
    → AllFresh ss ds
    → All (λ e. str_eq s.name e.name ≡ false) ds
    → AllFresh (ss ++ s ∷ []) ds
AllFresh-snoc ss s [] f n = tt
AllFresh-snoc ss s (d ∷ ds) (f, fs) (n, ns) =
    (find_setting-snoc ss s d.name f ∙ rw n, AllFresh-snoc ss s ds fs ns)

devices_lem :
    (root : Bytes) (ds : List Device) (ss : List MixerSetting) (ws : List Widget) (st : ℤ)
    (list : Option ListRef)
    → IsRoot root
    → AllFresh ss ds
    → Distinct ds
    → (d : ParserData) × (run_events (state ss ws none st list) (device_events ds (end root ∷ []))
        ≡ ok d)
      × (d.cfg ≡ record { settings = ss ++ settings_of ds; default_widgets = ws })
unfolding run_events config_end
devices_lem root [] ss ws st list r f n =
    (state ss ws none st list, rw (r.no_path, r.no_device) refl, rw append-nil refl)
devices_lem root (d ∷ ds) ss ws st list r (f, fs) (n, ns) =
    let (last, e, same) =
      devices_lem root ds (ss ++ setting_of d ∷ []) ws (negsuc 0) none r
        (AllFresh-snoc ss (setting_of d) ds fs n) ns in
    (
      last,
      device_lem ss d ws st list _ f ∙ e,
      same ∙ rw (append_assoc ss (setting_of d ∷ []) (settings_of ds)) refl,
    )

AllFresh-nil : (ds : List Device) → AllFresh [] ds
unfolding find_setting
AllFresh-nil [] = tt
AllFresh-nil (d ∷ ds) = (refl, AllFresh-nil ds)

-- For a document whose root is no path, device or control, with any number of paths of default
-- controls, each with any name or with none, and behind them devices of distinct names, each with a
-- path `on` and then a path `off`, `parse_config` returns the configuration with exactly those: a
-- setting for each device, in order, with the controls of its two paths, and the default controls.
pub parse_config-document :
    (root : Bytes) (defaults : List DefaultPath) (ds : List Device)
    → IsRoot root
    → Distinct ds
    → parse_config (some (document root defaults ds))
      ≡ ok (
          some (record {
            settings = settings_of ds;
            default_widgets = widgets (default_ctls_of defaults);
          }))
unfolding parse_config document run_events config_start
parse_config-document root defaults ds r n =
    let (st, list, e) = default_paths defaults [] (pos 0) none (device_events ds (end root ∷ [])) in
    let (d, f, same) =
      devices_lem root ds [] (widgets (default_ctls_of defaults)) st list r (AllFresh-nil ds) n in
    rw (r.no_path, r.no_device, r.no_ctl, e, f) (ap (λ (c : MixerConfig). ok (some c)) same)
