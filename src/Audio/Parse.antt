-- ===== src/Audio/Parse.antt =====
-- When the parser's pointer into the configuration of audio/xml.c is valid.
use midas_util.Base.{
  ℕ, zero, suc, ◌≡◌, ◌<◌, refl, ap, Option, none, some, List, [], ◌∷◌, ◌++◌, Bytes, ok, ◌>>=◌,
  deref, length, length-append, get_elem?, set, arith, Returns, Returns-bind, ok_of_Returns,
  Bool-cases, Option-cases, inl, inr,
}
use midas_util.Base.Ints.{nonzero}
use midas_util.Audio.{
  Widget, MixerSetting, MixerConfig, ListRef, default, setting, ParserData, find_setting, list_for,
  open_list, add_ctl, open_path, start_path, append_widget, start_ctl, config_start, config_end,
  XmlEvent, start, end, run_events, initial, parse_config, new_widget, matches, attribute,
  start_device, new_setting,
}

-- A list that exists.
abbrev pub RefIsValid : MixerConfig → Option ListRef → Type 0
RefIsValid cfg none = Unit {0}
RefIsValid cfg (some default) = Unit {0}
RefIsValid cfg (some (setting i en)) = i < length cfg.settings

pub record IsValid (d : ParserData) : Type 0 where
  pub list : RefIsValid d.cfg d.cur_widget_list

find_setting-lt :
    (ss : List MixerSetting) (name : Bytes) {i : ℕ} → find_setting ss name ≡ some i → i < length ss
unfolding find_setting
find_setting-lt [] name e = absurd (cc)
find_setting-lt (s ∷ ss) name e = elim (Option-cases (find_setting ss name)) [
  | inl q ↦ ground arith
  | inr (j, q) ↦ (let ih = find_setting-lt ss name q in ground arith)
]

-- `find_list` gives NULL only inside a device.
open_list-IsValid :
    (d : ParserData) (device : Option Bytes)
    → d.cur_device ≡ device
    → Returns IsValid (open_list d (list_for d.cfg d.cur_state device))
unfolding open_list list_for
open_list-IsValid d none e = record { list = tt }
open_list-IsValid d (some device) e = elim (Option-cases (find_setting d.cfg.settings device)) [
  | inl q ↦ rw q (deref_device d.cur_device e)
  | inr (i, q) ↦ rw q (record { list = find_setting-lt d.cfg.settings device q })
]
  where
    deref_device :
        (o : Option Bytes)
        → o ≡ some device
        → Returns IsValid (
            deref o >>= λ name. ok (record d {
              cfg = record (d.cfg) { settings = d.cfg.settings ++ new_setting name ∷ [] };
              cur_widget_list = some (setting (length d.cfg.settings) (nonzero d.cur_state));
            }))
    deref_device none e = absurd (cc)
    deref_device (some name) e = record {
      list = omega (arith, length-append {0} d.cfg.settings (new_setting name ∷ []));
    }

open_path-IsValid : (d : ParserData) → Returns IsValid (open_path d)
open_path-IsValid d = open_list-IsValid d d.cur_device refl

start_path-IsValid : (d : ParserData) (name : Option Bytes) → Returns IsValid (start_path d name)
unfolding start_path
start_path-IsValid d none = open_path-IsValid d
start_path-IsValid d (some name) = open_path-IsValid _

get_elem?-some :
    {A : Type 0} (l : List A) (i : ℕ) → i < length l → (a : A) × (get_elem? l i ≡ some a)
get_elem?-some [] i h = absurd (omega arith)
get_elem?-some (x ∷ l) zero h = (x, refl)
get_elem?-some (x ∷ l) (suc i) h = get_elem?-some l i (omega arith)

length-set : {A : Type 0} (l : List A) (i : ℕ) (v : A) → length (set l i v) ≡ length l
length-set [] i v = refl
length-set (x ∷ l) zero v = refl
length-set (x ∷ l) (suc i) v = ap suc (length-set l i v)

-- A valid pointer stays valid while the lists grow.
append_widget-valid :
    (cfg : MixerConfig) (ref : ListRef) (w : Widget) (other : Option ListRef)
    → RefIsValid cfg (some ref)
    → RefIsValid cfg other
    → Returns (λ c. RefIsValid c other) (append_widget cfg ref w)
unfolding append_widget
append_widget-valid cfg default w none h v = tt
append_widget-valid cfg default w (some default) h v = tt
append_widget-valid cfg default w (some (setting i en)) h v = v
append_widget-valid cfg (setting i en) w other h v =
    let (s, e) = get_elem?-some cfg.settings i h in rw e (still _ other v)
  where
    still :
        (s : MixerSetting) (other : Option ListRef)
        → RefIsValid cfg other
        → RefIsValid (record cfg { settings = set cfg.settings i s }) other
    still s none v = tt
    still s (some default) v = tt
    still s (some (setting j en')) v = omega (arith, length-set cfg.settings i s)

add_ctl-IsValid :
    (d : ParserData) (name val : Bytes) (ref : Option ListRef)
    → IsValid d
    → RefIsValid d.cfg ref
    → Returns IsValid (add_ctl d name val ref)
unfolding add_ctl
add_ctl-IsValid d name val none v r = v
add_ctl-IsValid d name val (some ref) v r =
    Returns-bind (λ c. RefIsValid c d.cur_widget_list) IsValid
      (append_widget d.cfg ref (new_widget name val)) _
      (append_widget-valid d.cfg ref (new_widget name val) d.cur_widget_list r v.list)
      λ c w. record { list = w }

start_ctl-IsValid :
    (d : ParserData) (name val : Option Bytes) → IsValid d → Returns IsValid (start_ctl d name val)
unfolding start_ctl
start_ctl-IsValid d none val v = v
start_ctl-IsValid d (some name) none v = v
start_ctl-IsValid d (some name) (some val) v = add_ctl-IsValid d name val d.cur_widget_list v v.list

-- `config_start` never writes through a pointer that is not valid, and keeps the pointer valid.
config_start-IsValid :
    (d : ParserData) (elem : Bytes) (attr : List (Bytes × Bytes))
    → IsValid d
    → Returns IsValid (config_start d elem attr)
unfolding config_start
config_start-IsValid d elem attr v = elim (Bool-cases (matches elem "path")) [
  | inl e ↦ rw e (start_path-IsValid d (attribute "name" attr))
  | inr e ↦ rw e (elim (Bool-cases (matches elem "device")) [
    | inl f ↦ rw f (device (attribute "name" attr))
    | inr f ↦ rw f (elim (Bool-cases (matches elem "ctl")) [
      | inl g ↦ rw g (start_ctl-IsValid d (attribute "name" attr) (attribute "val" attr) v)
      | inr g ↦ rw g v
    ])
  ])
]
  where
    device : (name : Option Bytes) → IsValid (start_device d name)
    device none = v
    device (some name) = record { list = v.list }

config_end-IsValid : (d : ParserData) (elem : Bytes) → IsValid d → IsValid (config_end d elem)
unfolding config_end
config_end-IsValid d elem v = elim (Bool-cases (matches elem "path")) [
  | inl e ↦ rw e (record { list = tt })
  | inr e ↦ elim (Bool-cases (matches elem "device")) [
    | inl f ↦ rw (e, f) (record { list = v.list })
    | inr f ↦ rw (e, f) v
  ]
]

run_events-IsValid :
    (d : ParserData) (es : List XmlEvent) → IsValid d → Returns IsValid (run_events d es)
unfolding run_events
run_events-IsValid d [] v = v
run_events-IsValid d (start elem attr ∷ es) v =
    let (d', e, w) =
      ok_of_Returns IsValid (config_start d elem attr) (config_start-IsValid d elem attr v) in
    rw e (run_events-IsValid d' es w)
run_events-IsValid d (end elem ∷ es) v =
    run_events-IsValid (config_end d elem) es (config_end-IsValid d elem v)

-- Whatever elements the document has, nested as they may be, `parse_config` does not fault.
pub parse_config_safe :
    (xml : Option (List XmlEvent)) → (cfg : Option MixerConfig) × (parse_config xml ≡ ok cfg)
unfolding parse_config
parse_config_safe none = (none, refl)
parse_config_safe (some es) =
    let (d, e, v) =
      ok_of_Returns IsValid (run_events initial es)
        (run_events-IsValid initial es (record { list = tt })) in
    (some d.cfg, rw e)
