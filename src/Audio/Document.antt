-- ===== src/Audio/Document.antt =====
-- What `parse_config` makes of a well-formed document: controls in paths, paths in devices.
use mathlib.Core.List.{append_assoc, append-nil}
use midas_util.Base.{
  ◌≡◌, refl, ap, if◌then◌else◌, ◌∙◌, Bool, true, false, Option, none, some, List, [], ◌∷◌, ◌++◌,
  Bytes, codes, String, length, get_elem?-append, set-append,
}
use midas_util.Base.Ints.{ℤ, pos, negsuc}
use midas_util.CString.{str_eq}
use midas_util.Audio.{
  Widget, MixerSetting, ListRef, default, setting, ParserData, start_path, open_list, list_for,
  add_ctl, append_widget, start_ctl, config_start, config_end, add_to, XmlEvent, start, end,
  run_events, new_widget, attribute,
}

-- A control: its name and the text of its value.
abbrev pub Ctl : Type 0
Ctl = Bytes × Bytes

-- A device with the controls of its two paths.
pub record Device : Type 0 where
  pub name : Bytes
  pub on : List Ctl
  pub off : List Ctl

abbrev pub ctl_events : List Ctl → List XmlEvent
ctl_events [] = []
ctl_events ((name, val) ∷ cs) =
    start (codes "ctl") ((codes "name", name) ∷ (codes "val", val) ∷ [])
    ∷ end (codes "ctl")
    ∷ ctl_events cs

abbrev pub path_events : String → List Ctl → List XmlEvent → List XmlEvent
path_events state cs rest =
    start (codes "path") ((codes "name", codes state) ∷ [])
    ∷ (ctl_events cs ++ end (codes "path") ∷ rest)

abbrev pub device_events : List Device → List XmlEvent → List XmlEvent
device_events [] rest = rest
device_events (d ∷ ds) rest =
    start (codes "device") ((codes "name", d.name) ∷ [])
    ∷ path_events "on" d.on (path_events "off" d.off (end (codes "device") ∷ device_events ds rest))

-- A path outside of all devices: its name, if it has one, and its controls.
abbrev pub DefaultPath : Type 0
DefaultPath = Option Bytes × List Ctl

abbrev pub named : Option Bytes → List (Bytes × Bytes)
named none = []
named (some name) = (codes "name", name) ∷ []

abbrev pub default_events : List DefaultPath → List XmlEvent → List XmlEvent
default_events [] rest = rest
default_events ((name, cs) ∷ ps) rest =
    start (codes "path") (named name)
    ∷ (ctl_events cs ++ end (codes "path") ∷ default_events ps rest)

-- The document: in an element of the name `root`, paths outside of all devices, and then the devices.
unfoldable pub document : Bytes → List DefaultPath → List Device → List XmlEvent
document root defaults ds =
    start root [] ∷ default_events defaults (device_events ds (end root ∷ []))

-- The name of the root is none that `config_start` looks for.
pub record IsRoot (root : Bytes) : Type 0 where
  pub no_path : str_eq root (codes "path") ≡ false
  pub no_device : str_eq root (codes "device") ≡ false
  pub no_ctl : str_eq root (codes "ctl") ≡ false

-- the controls of all paths outside of the devices
abbrev pub default_ctls_of : List DefaultPath → List Ctl
default_ctls_of [] = []
default_ctls_of ((name, cs) ∷ ps) = cs ++ default_ctls_of ps

abbrev pub widgets : List Ctl → List Widget
widgets [] = []
widgets ((name, val) ∷ cs) = new_widget name val ∷ widgets cs

abbrev pub setting_of : Device → MixerSetting
setting_of d = record { name = d.name; en_widgets = widgets d.on; dis_widgets = widgets d.off }

abbrev pub state : List MixerSetting → List Widget → Option Bytes → ℤ → Option ListRef → ParserData
state ss ws device st list = record {
  cfg = record { settings = ss; default_widgets = ws };
  cur_device = device;
  cur_state = st;
  cur_widget_list = list;
}

pub default_ctls :
    (cs : List Ctl) (ss : List MixerSetting) (ws : List Widget) (device : Option Bytes) (st : ℤ)
    (rest : List XmlEvent)
    → run_events (state ss ws device st (some default)) (ctl_events cs ++ rest)
      ≡ run_events (state ss (ws ++ widgets cs) device st (some default)) rest
unfolding run_events config_start start_ctl add_ctl append_widget config_end attribute str_eq
default_ctls [] ss ws device st rest = rw append-nil
default_ctls ((name, val) ∷ cs) ss ws device st rest =
    default_ctls cs ss (ws ++ new_widget name val ∷ []) device st rest
    ∙ rw (append_assoc ws (new_widget name val ∷ []) (widgets cs))

pub widgets-append : (cs ds : List Ctl) → widgets (cs ++ ds) ≡ widgets cs ++ widgets ds
widgets-append [] ds = refl
widgets-append (c ∷ cs) ds =
    ap (λ (ws : List Widget). new_widget c.0 c.1 ∷ ws) (widgets-append cs ds)

-- the controls of a path outside of all devices, with a name or without
default_path :
    (name : Option Bytes) (cs : List Ctl) (ws : List Widget) (st : ℤ) (list : Option ListRef)
    (rest : List XmlEvent)
    → (st' : ℤ) × (run_events
          (state [] ws none st list)
          (start (codes "path") (named name) ∷ (ctl_events cs ++ end (codes "path") ∷ rest))
        ≡ run_events (state [] (ws ++ widgets cs) none st' none) rest)
unfolding run_events config_start start_path open_list list_for config_end attribute str_eq
default_path none cs ws st list rest = (negsuc 0, default_ctls cs [] ws none st _)
default_path (some name) cs ws st list rest =
    (negsuc 0, default_ctls cs [] ws none (if str_eq name (codes "on") then pos 1 else pos 0) _)

-- the controls of all of them
pub default_paths :
    (ps : List DefaultPath) (ws : List Widget) (st : ℤ) (list : Option ListRef)
    (rest : List XmlEvent)
    → (st' : ℤ) × (list' : Option ListRef) × (run_events
          (state [] ws none st list)
          (default_events ps rest)
        ≡ run_events (state [] (ws ++ widgets (default_ctls_of ps)) none st' list') rest)
default_paths [] ws st list rest = (st, list, rw append-nil refl)
default_paths ((name, cs) ∷ ps) ws st list rest =
    let (st1, e) = default_path name cs ws st list (default_events ps rest) in
    let (st2, list2, f) = default_paths ps (ws ++ widgets cs) st1 none rest in
    (
      st2,
      list2,
      e
          ∙ f
          ∙ rw
              (
                widgets-append cs (default_ctls_of ps),
                append_assoc ws (widgets cs) (widgets (default_ctls_of ps)),
              )
              refl,
    )

-- the setting once the controls of a path were added to it
abbrev pub filled : MixerSetting → Bool → List Ctl → MixerSetting
filled s true cs = record s { en_widgets = s.en_widgets ++ widgets cs }
filled s false cs = record s { dis_widgets = s.dis_widgets ++ widgets cs }

filled-nil : (s : MixerSetting) (en : Bool) → filled s en [] ≡ s
filled-nil s true = λ i. record s { en_widgets = append-nil s.en_widgets i }
filled-nil s false = λ i. record s { dis_widgets = append-nil s.dis_widgets i }

filled-cons :
    (s : MixerSetting) (en : Bool) (name val : Bytes) (cs : List Ctl)
    → filled (add_to s en (new_widget name val)) en cs ≡ filled s en ((name, val) ∷ cs)
filled-cons s true name val cs = λ i. record s {
  en_widgets = append_assoc s.en_widgets (new_widget name val ∷ []) (widgets cs) i;
}
filled-cons s false name val cs = λ i. record s {
  dis_widgets = append_assoc s.dis_widgets (new_widget name val ∷ []) (widgets cs) i;
}

pub setting_ctls :
    (cs : List Ctl) (pre : List MixerSetting) (s : MixerSetting) (en : Bool) (ws : List Widget)
    (device : Option Bytes) (st : ℤ) (rest : List XmlEvent)
    → run_events
        (state (pre ++ s ∷ []) ws device st (some (setting (length pre) en)))
        (ctl_events cs ++ rest)
      ≡ run_events
          (state (pre ++ filled s en cs ∷ []) ws device st (some (setting (length pre) en)))
          rest
unfolding run_events config_start start_ctl add_ctl append_widget config_end attribute str_eq
setting_ctls [] pre s en ws device st rest = rw (filled-nil s en)
setting_ctls ((name, val) ∷ cs) pre s en ws device st rest =
    rw (get_elem?-append pre s [], set-append pre s (add_to s en (new_widget name val)) [])
      (setting_ctls cs pre (add_to s en (new_widget name val)) en ws device st rest
        ∙ rw (filled-cons s en name val cs))
