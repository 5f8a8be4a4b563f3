-- ===== src/Audio.antt =====
-- audio/mixer.h, audio/xml.c and audio/set_paths.c: mixer paths read from XML and applied to the
-- mixer. A `node_t *` list is the list of its values; `[]` is NULL.
pub mod Parse
pub mod Document
pub mod Devices
pub mod Apply
pub mod Pointers
use midas_util.Base.{
  ℕ, zero, suc, ◌+◌, ◌-◌, Bool, true, false, not, ◌&&◌, Option, none, some, List, [], ◌∷◌, ◌++◌,
  Bytes, codes, String, Run, ok, fault, ◌>>=◌, deref, length, get_elem?, set, if◌then◌else◌, leb,
  ltb, ◌==◌, is_some,
}
use midas_util.Base.Ints.{ℤ, pos, negsuc, nonzero}
use midas_util.CString.{str_eq, atoi}

pub record Widget : Type 0 where
  pub name : Bytes
  pub intval : ℤ
  pub strval : Option Bytes

pub record MixerSetting : Type 0 where
  pub name : Bytes
  pub en_widgets : List Widget
  pub dis_widgets : List Widget

pub record MixerConfig : Type 0 where
  pub settings : List MixerSetting
  pub default_widgets : List Widget

-- A `node_t **`: the default list, or a list of the setting at a place in `settings`.
pub data ListRef : Type 0 where
  default : ListRef
  setting : ℕ → Bool → ListRef

pub record ParserData : Type 0 where
  pub cfg : MixerConfig
  pub cur_device : Option Bytes
  pub cur_state : ℤ
  pub cur_widget_list : Option ListRef

abbrev pub matches : Bytes → String → Bool
matches s key = str_eq s (codes key)

-- the place of the first setting with this name
unfoldable pub find_setting : List MixerSetting → Bytes → Option ℕ
find_setting [] name = none
find_setting (s ∷ ss) name =
    if str_eq s.name name
    then some 0
    else elim (find_setting ss name) [ none ↦ none | some i ↦ some (suc i) ]

-- what `find_list` gives for the device's setting, if there is one
unfoldable pub ref_of : ℤ → Option ℕ → Option ListRef
ref_of state none = none
ref_of state (some i) = some (setting i (nonzero state))

unfoldable pub list_for : MixerConfig → ℤ → Option Bytes → Option ListRef
unfolding ref_of
list_for cfg state none = some default
list_for cfg state (some device) = ref_of state (find_setting cfg.settings device)

abbrev pub find_list : ParserData → Option ListRef
find_list d = list_for d.cfg d.cur_state d.cur_device

-- `&attr`: an attribute's value; the last of several counts
unfoldable pub attribute : String → List (Bytes × Bytes) → Option Bytes
attribute key [] = none
attribute key ((k, v) ∷ rest) = elim (attribute key rest) [
  | none ↦ if matches k key then some v else none
  | some w ↦ some w
]

abbrev pub new_setting : Bytes → MixerSetting
new_setting name = record { name = name; en_widgets = []; dis_widgets = [] }

-- the list of a path, with a new setting at the end if `find_list` gave none; `strdup(NULL)` faults
unfoldable pub open_list : ParserData → Option ListRef → Run ParserData
open_list d (some ref) = ok (record d { cur_widget_list = some ref })
open_list d none = do
  device ← deref d.cur_device
  ok (record d {
    cfg = record (d.cfg) { settings = d.cfg.settings ++ new_setting device ∷ [] };
    cur_widget_list = some (setting (length d.cfg.settings) (nonzero d.cur_state));
  })

abbrev pub open_path : ParserData → Run ParserData
open_path d = open_list d (find_list d)

-- `<path name="...">`
unfoldable pub start_path : ParserData → Option Bytes → Run ParserData
start_path d none = open_path d
start_path d (some name) =
    open_path (record d { cur_state = if matches name "on" then pos 1 else pos 0 })

unfoldable pub new_widget : Bytes → Bytes → Widget
new_widget name val = record {
  name = name;
  intval = atoi val;
  strval = if not (nonzero (atoi val)) && not (matches val "0") then some val else none;
}

abbrev pub widgets_of : MixerSetting → Bool → List Widget
widgets_of s true = s.en_widgets
widgets_of s false = s.dis_widgets

abbrev pub add_to : MixerSetting → Bool → Widget → MixerSetting
add_to s true w = record s { en_widgets = s.en_widgets ++ w ∷ [] }
add_to s false w = record s { dis_widgets = s.dis_widgets ++ w ∷ [] }

-- `listCreate` or `listAppend` through the pointer
unfoldable pub append_widget : MixerConfig → ListRef → Widget → Run MixerConfig
append_widget cfg default w = ok (record cfg { default_widgets = cfg.default_widgets ++ w ∷ [] })
append_widget cfg (setting i en) w = do
  s ← deref (get_elem? cfg.settings i)
  ok (record cfg { settings = set cfg.settings i (add_to s en w) })

-- a control in the list that is current, if one is
unfoldable pub add_ctl : ParserData → Bytes → Bytes → Option ListRef → Run ParserData
add_ctl d name val none = ok d
add_ctl d name val (some ref) = do
  cfg ← append_widget d.cfg ref (new_widget name val)
  ok (record d { cfg = cfg })

-- `<ctl name="..." val="...">`
unfoldable pub start_ctl : ParserData → Option Bytes → Option Bytes → Run ParserData
start_ctl d none val = ok d
start_ctl d (some name) none = ok d
start_ctl d (some name) (some val) = add_ctl d name val d.cur_widget_list

unfoldable pub start_device : ParserData → Option Bytes → ParserData
start_device d none = d
start_device d (some name) = record d { cur_device = some name }

unfoldable pub config_start : ParserData → Bytes → List (Bytes × Bytes) → Run ParserData
unfolding start_device
config_start d elem attr =
    if matches elem "path"
    then start_path d (attribute "name" attr)
    else if matches elem "device"
    then ok (start_device d (attribute "name" attr))
    else if matches elem "ctl"
    then start_ctl d (attribute "name" attr) (attribute "val" attr)
    else ok d

unfoldable pub config_end : ParserData → Bytes → ParserData
config_end d elem =
    if matches elem "path"
    then record d { cur_state = negsuc 0; cur_widget_list = none }
    else if matches elem "device"
    then record d { cur_device = none }
    else d

-- The calls that expat makes for a document, in order.
pub data XmlEvent : Type 0 where
  start : Bytes → List (Bytes × Bytes) → XmlEvent
  end : Bytes → XmlEvent

unfoldable pub run_events : ParserData → List XmlEvent → Run ParserData
run_events d [] = ok d
run_events d (start elem attr ∷ es) = do d' ← config_start d elem attr; run_events d' es
run_events d (end elem ∷ es) = run_events (config_end d elem) es

abbrev pub initial : ParserData
initial = record {
  cfg = record { settings = []; default_widgets = [] };
  cur_device = none;
  cur_state = pos 0;
  cur_widget_list = none;
}

-- `parse_config`, on the calls that expat makes up to the end of the file or an error; `none` if
-- the file cannot be opened or there is no parser
unfoldable pub parse_config : Option (List XmlEvent) → Run (Option MixerConfig)
parse_config none = ok none
parse_config (some es) = do d ← run_events initial es; ok (some d.cfg)

-- A call of tinyalsa that changes a control.
pub data MixerCall : Type 0 where
  set_enum : Bytes → Bytes → MixerCall
  set_value : Bytes → ℕ → ℤ → MixerCall

-- `for (int j = 0; j < mixer_ctl_get_num_values(ctl); j++)`, n rounds from j on
unfoldable pub set_values : Bytes → ℤ → ℕ → ℕ → List MixerCall
set_values name v zero j = []
set_values name v (suc n) j = set_value name j v ∷ set_values name v n (suc j)

-- the body of the loop; the control's number of values, if the mixer has it
unfoldable pub apply_widget : Widget → Option ℕ → List MixerCall
unfolding set_values
apply_widget w none = []
apply_widget w (some n) = elim w.strval [
  | some s ↦ set_enum w.name s ∷ []
  | none ↦ set_values w.name w.intval n 0
]

-- The calls that `apply_paths` makes. The mixer is known by the number of values of each control.
unfoldable pub apply_paths : (Bytes → Option ℕ) → List Widget → List MixerCall
apply_paths mixer [] = []
apply_paths mixer (w ∷ ws) = apply_widget w (mixer w.name) ++ apply_paths mixer ws

-- `[]` is NULL: the path is not there, or its list is empty.
unfoldable pub find_path : List MixerSetting → Bytes → ℤ → List Widget
find_path [] name en = []
find_path (s ∷ ss) name en =
    let rest = find_path ss name en in
    if str_eq s.name name then widgets_of s (nonzero en) else rest

-- what `main` does with the path that was found; a `main` that ends returns 0
unfoldable pub finish : (Bytes → Option ℕ) → List MixerCall → List Widget → ℕ × List MixerCall
finish mixer calls [] = (2, calls)
finish mixer calls (w ∷ ws) = (0, calls ++ apply_paths mixer (w ∷ ws))

-- `main` of audio/set_paths.c: the code and the calls; the arguments behind the program's name
unfoldable pub main :
    (Bytes → Option ℕ) → (Bytes → Option (List XmlEvent)) → List Bytes → Run (ℕ × List MixerCall)
unfolding finish
main mixer xml [] = ok (1, [])
main mixer xml (file ∷ (name ∷ (en ∷ rest))) = do
  parsed ← parse_config (xml file)
  cfg ← deref parsed
  ok (finish mixer (apply_paths mixer cfg.default_widgets) (find_path cfg.settings name (atoi en)))
main mixer xml (file ∷ _) = do parsed ← parse_config (xml file); cfg ← deref parsed; ok (2, [])
