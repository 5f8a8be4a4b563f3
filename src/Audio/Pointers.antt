-- ===== src/Audio/Pointers.antt =====
-- audio/xml.c and audio/set_paths.c on memory: the lists of a `struct mixer_config` as nodes on a heap,
-- and the pointer to the list that a `ctl` goes to. The lists of values in `Audio` are its abstract
-- view. `calloc` and `malloc` give the addresses that an argument lists, two for each element.
pub mod Owned
pub mod Stored
pub mod Search
pub mod Update
pub mod Create
pub mod Elements
pub mod Refines
pub mod Program
use midas_util.Base.{
  ℕ, zero, suc, Bool, true, false, Option, none, some, List, [], ◌∷◌, ◌++◌, Bytes, Run, ok, fault,
  ◌>>=◌, deref, if◌then◌else◌, ◌==◌,
}
use midas_util.Base.Ints.{ℤ, pos, negsuc, nonzero}
use midas_util.CString.{str_eq, atoi}
use midas_util.Llist.{Ptr, null, Heap, list_create, list_append, list_next_audio, list_get}
use midas_util.Audio.{
  Widget, matches, attribute, new_widget, XmlEvent, start, end, MixerCall, apply_widget,
}

-- `struct mixer_setting`
pub record SettingAt : Type 0 where
  pub name : Bytes
  pub en_widgets : Ptr
  pub dis_widgets : Ptr

-- `struct mixer_config`, and what the addresses hold: nodes, settings and widgets.
pub record Memory : Type 0 where
  pub settings : Ptr
  pub default_widgets : Ptr
  pub nodes : Heap Ptr
  pub setting_at : Ptr → Option SettingAt
  pub widget_at : Ptr → Option Widget

-- A `node_t **`: the address of `default_widgets`, or of a list of the setting at an address.
pub data ListAddr : Type 0 where
  default_addr : ListAddr
  field_addr : Ptr → Bool → ListAddr

pub record ParserAt : Type 0 where
  pub mem : Memory
  pub cur_device : Option Bytes
  pub cur_state : ℤ
  pub cur_widget_list : Option ListAddr

-- `*p = x`
unfoldable pub put : {A : Type 0} → (Ptr → Option A) → Ptr → A → Ptr → Option A
put objects p x q = if q == p then some x else objects q

-- the loop of `find_list`
unfoldable pub search_setting : ℕ → Ptr → Bytes → Memory → Run (Option Ptr)
search_setting zero n device m = fault
search_setting (suc k) n device m = do
  (n', _) ← list_next_audio m.settings n m.nodes
  let rest = search_setting k n' device m
  if n' == null then ok none else (do
    (p, _) ← list_get n' m.nodes
    s ← deref (m.setting_at p)
    if str_eq s.name device then ok (some p) else rest)

-- the address of the list in the setting that was found
abbrev pub field_of : ℤ → Option Ptr → Option ListAddr
field_of state none = none
field_of state (some p) = some (field_addr p (nonzero state))

unfoldable pub find_list_at : ℕ → ParserAt → Option Bytes → Run (Option ListAddr)
find_list_at k d none = ok (some default_addr)
find_list_at k d (some device) =
    if d.mem.settings == null
    then ok none
    else (do p ← search_setting k null device d.mem; ok (field_of d.cur_state p))

-- a new setting at an address that `calloc` gave, in a new node of the list
unfoldable pub create_setting : ℕ → Ptr → Ptr → Bytes → Memory → Run Memory
create_setting k new_node new_object name m =
    let objects =
      put m.setting_at new_object (record { name = name; en_widgets = null; dis_widgets = null }) in
    if m.settings == null
    then (do
      (head, nodes) ← list_create new_node new_object m.nodes
      ok (record m { settings = head; nodes = nodes; setting_at = objects }))
    else (do
      (_, nodes) ← list_append k m.settings new_node new_object m.nodes
      ok (record m { nodes = nodes; setting_at = objects }))

unfoldable pub open_list_at : ℕ → Ptr → Ptr → ParserAt → Option ListAddr → Run ParserAt
open_list_at k new_node new_object d (some list) = ok (record d { cur_widget_list = some list })
open_list_at k new_node new_object d none = do
  name ← deref d.cur_device
  m ← create_setting k new_node new_object name d.mem
  ok (record d { mem = m; cur_widget_list = some (field_addr new_object (nonzero d.cur_state)) })

abbrev pub open_path_at : ℕ → Ptr → Ptr → ParserAt → Run ParserAt
open_path_at k new_node new_object d = do
  list ← find_list_at k d d.cur_device
  open_list_at k new_node new_object d list

-- `<path name="...">`
unfoldable pub start_path_at : ℕ → Ptr → Ptr → ParserAt → Option Bytes → Run ParserAt
start_path_at k new_node new_object d none = open_path_at k new_node new_object d
start_path_at k new_node new_object d (some name) =
    open_path_at k new_node new_object
      (record d { cur_state = if matches name "on" then pos 1 else pos 0 })

abbrev pub list_of : SettingAt → Bool → Ptr
list_of s true = s.en_widgets
list_of s false = s.dis_widgets

abbrev pub with_list : SettingAt → Bool → Ptr → SettingAt
with_list s true p = record s { en_widgets = p }
with_list s false p = record s { dis_widgets = p }

-- `*list`
unfoldable pub load_list : Memory → ListAddr → Run Ptr
load_list m default_addr = ok m.default_widgets
load_list m (field_addr p en) = do s ← deref (m.setting_at p); ok (list_of s en)

-- `*list = head`
unfoldable pub store_list : Memory → ListAddr → Ptr → Run Memory
store_list m default_addr head = ok (record m { default_widgets = head })
store_list m (field_addr p en) head = do
  s ← deref (m.setting_at p)
  ok (record m { setting_at = put m.setting_at p (with_list s en head) })

-- a new widget, in a new node of the list
unfoldable pub append_widget_at : ℕ → Ptr → Ptr → Memory → ListAddr → Widget → Run Memory
append_widget_at k new_node new_object m list w = do
  let objects = put m.widget_at new_object w
  head ← load_list m list
  if head == null
      then (do
        (head', nodes) ← list_create new_node new_object m.nodes
        store_list (record m { nodes = nodes; widget_at = objects }) list head')
      else (do
        (_, nodes) ← list_append k head new_node new_object m.nodes
        ok (record m { nodes = nodes; widget_at = objects }))

-- `<ctl name="..." val="...">`, in the list that is current, if one is
unfoldable pub start_ctl_at :
    ℕ → Ptr → Ptr → ParserAt → Option Bytes → Option Bytes → Option ListAddr → Run ParserAt
start_ctl_at k new_node new_object d (some name) (some val) (some list) = do
  m ← append_widget_at k new_node new_object d.mem list (new_widget name val)
  ok (record d { mem = m })
start_ctl_at k new_node new_object d (some name) (some val) none = ok d
start_ctl_at k new_node new_object d (some name) none list = ok d
start_ctl_at k new_node new_object d none val list = ok d

unfoldable pub start_device_at : ParserAt → Option Bytes → ParserAt
start_device_at d none = d
start_device_at d (some name) = record d { cur_device = some name }

unfoldable pub config_start_at :
    ℕ → Ptr → Ptr → ParserAt → Bytes → List (Bytes × Bytes) → Run ParserAt
config_start_at k new_node new_object d elem attr =
    if matches elem "path"
    then start_path_at k new_node new_object d (attribute "name" attr)
    else if matches elem "device"
    then ok (start_device_at d (attribute "name" attr))
    else if matches elem "ctl"
    then start_ctl_at k new_node new_object d (attribute "name" attr) (attribute "val" attr)
        d.cur_widget_list
    else ok d

unfoldable pub config_end_at : ParserAt → Bytes → ParserAt
config_end_at d elem =
    if matches elem "path"
    then record d { cur_state = negsuc 0; cur_widget_list = none }
    else if matches elem "device"
    then record d { cur_device = none }
    else d

-- Two addresses for each start of an element; without any left there is no memory.
unfoldable pub run_events_at : ℕ → List (Ptr × Ptr) → ParserAt → List XmlEvent → Run ParserAt
run_events_at k free d [] = ok d
run_events_at k [] d (start elem attr ∷ es) = fault
run_events_at k ((new_node, new_object) ∷ free) d (start elem attr ∷ es) = do
  d' ← config_start_at k new_node new_object d elem attr
  run_events_at k free d' es
run_events_at k free d (end elem ∷ es) = run_events_at k free (config_end_at d elem) es

abbrev pub initial_at : ParserAt
initial_at = record {
  mem = record {
    settings = null;
    default_widgets = null;
    nodes = λ a. none;
    setting_at = λ a. none;
    widget_at = λ a. none;
  };
  cur_device = none;
  cur_state = pos 0;
  cur_widget_list = none;
}

-- `parse_config`
unfoldable pub parse_config_at : ℕ → List (Ptr × Ptr) → Option (List XmlEvent) → Run (Option Memory)
parse_config_at k free none = ok none
parse_config_at k free (some es) = do d ← run_events_at k free initial_at es; ok (some d.mem)

-- `apply_paths`
unfoldable pub apply_paths_at : ℕ → (Bytes → Option ℕ) → Memory → Ptr → Ptr → Run (List MixerCall)
apply_paths_at zero mixer m head n = fault
apply_paths_at (suc k) mixer m head n = do
  (n', _) ← list_next_audio head n m.nodes
  let rest = apply_paths_at k mixer m head n'
  if n' == null then ok [] else (do
    (p, _) ← list_get n' m.nodes
    w ← deref (m.widget_at p)
    calls ← rest
    ok (apply_widget w (mixer w.name) ++ calls))

-- `find_path`
unfoldable pub find_path_at : ℕ → Memory → Ptr → Bytes → ℤ → Run Ptr
find_path_at zero m n name en = fault
find_path_at (suc k) m n name en = do
  (n', _) ← list_next_audio m.settings n m.nodes
  let rest = find_path_at k m n' name en
  if n' == null then ok null else (do
    (p, _) ← list_get n' m.nodes
    s ← deref (m.setting_at p)
    if str_eq s.name name then ok (list_of s (nonzero en)) else rest)

-- the loop of `main` that prints the names of the paths
unfoldable pub path_names_at : ℕ → Memory → Ptr → Run (List Bytes)
path_names_at zero m n = fault
path_names_at (suc k) m n = do
  (n', _) ← list_next_audio m.settings n m.nodes
  let rest = path_names_at k m n'
  if n' == null then ok [] else (do
    (p, _) ← list_get n' m.nodes
    s ← deref (m.setting_at p)
    names ← rest
    ok (s.name ∷ names))

-- what `main` does with the path that was found
unfoldable pub finish_at :
    ℕ → (Bytes → Option ℕ) → Memory → List MixerCall → Ptr → Run (ℕ × List MixerCall)
finish_at k mixer m calls path =
    if path == null
    then ok (2, calls)
    else (do more ← apply_paths_at k mixer m path null; ok (0, calls ++ more))

-- `main` of audio/set_paths.c, on the arguments behind the program's name
unfoldable pub main_at :
    ℕ
    → List (Ptr × Ptr)
    → (Bytes → Option ℕ)
    → (Bytes → Option (List XmlEvent))
    → List Bytes
    → Run (ℕ × List MixerCall)
main_at k free mixer xml [] = ok (1, [])
main_at k free mixer xml (file ∷ (name ∷ (en ∷ rest))) = do
  parsed ← parse_config_at k free (xml file)
  m ← deref parsed
  calls ← apply_paths_at k mixer m m.default_widgets null
  path ← find_path_at k m null name (atoi en)
  finish_at k mixer m calls path
main_at k free mixer xml (file ∷ _) = do
  parsed ← parse_config_at k free (xml file)
  m ← deref parsed
  _ ← path_names_at k m null
  ok (2, [])
