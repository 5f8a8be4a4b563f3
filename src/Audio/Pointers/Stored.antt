-- ===== src/Audio/Pointers/Stored.antt =====
-- What memory holds for a configuration of audio/xml.c.
use midas_util.Base.{
  ℕ, zero, suc, ◌≡◌, ◌≢◌, refl, sym, ◌∙◌, Bool, true, false, Option, none, some, List, [], ◌∷◌,
  ◌++◌, get_elem?, set, arith,
}
use mathlib.Core.Option.{some-injective}
use midas_util.Llist.{Ptr, null}
use midas_util.Llist.Chain.{Cells, end, at_object}
use midas_util.Audio.{Widget, MixerSetting, MixerConfig, widgets_of}
use midas_util.Audio.Pointers.{SettingAt, Memory, list_of}
use midas_util.Audio.Pointers.Owned.{
  settings_tag, default_tag, field_tag, field_tag-injective, Heaps, Owned, Changed, Owned-Changed,
}

-- The nodes point to the widgets of a list.
abbrev pub Point : (Ptr → Option Widget) → Cells Ptr → List Widget → Type 0
Point widget_at [] [] = Unit {0}
Point widget_at [] (w ∷ ws) = ⊥
Point widget_at (c ∷ cs) [] = ⊥
Point widget_at ((_, p) ∷ cs) (w ∷ ws) = (widget_at p ≡ some w) × Point widget_at cs ws

pub record WidgetsAt (u : Heaps) (t : ℕ) (head : Ptr) (ws : List Widget) : Type 0 where
  pub cells : Cells Ptr
  pub nodes : Owned u t head cells
  pub point : Point u.widget_at cells ws

pub record SettingStored (u : Heaps) (setting_at : Ptr → Option SettingAt) (p : Ptr)
    (s : MixerSetting) : Type 0 where
  pub at : SettingAt
  pub stored : setting_at p ≡ some at
  pub name : at.name ≡ s.name
  pub lists : (en : Bool) → WidgetsAt u (field_tag p en) (list_of at en) (widgets_of s en)

pub no_widgets : (u : Heaps) (t : ℕ) → WidgetsAt u t null []
no_widgets u t = record {
  cells = [];
  nodes = record { chain = end; owned = λ a i. absurd (cc); within = omega arith };
  point = tt;
}

-- The nodes point to the settings of a list, each to one of its own.
abbrev pub SettingsAt : Heaps → (Ptr → Option SettingAt) → Cells Ptr → List MixerSetting → Type 0
SettingsAt u setting_at [] [] = Unit {0}
SettingsAt u setting_at [] (s ∷ ss) = ⊥
SettingsAt u setting_at (c ∷ cs) [] = ⊥
SettingsAt u setting_at ((_, p) ∷ cs) (s ∷ ss) =
    SettingStored u setting_at p s × (at_object p cs ≡ false) × SettingsAt u setting_at cs ss

-- The heaps of a memory, with a list for each node and a bound.
abbrev pub heaps_of : Memory → (Ptr → ℕ) → ℕ → Heaps
heaps_of m owner bound = record {
  nodes = m.nodes;
  owner = owner;
  widget_at = m.widget_at;
  bound = bound;
}

pub record Represents (m : Memory) (owner : Ptr → ℕ) (bound : ℕ) (cells : Cells Ptr)
    (cfg : MixerConfig) : Type 0 where
  pub chain : Owned (heaps_of m owner bound) settings_tag m.settings cells
  pub settings : SettingsAt (heaps_of m owner bound) m.setting_at cells cfg.settings
  pub defaults :
      WidgetsAt (heaps_of m owner bound) default_tag m.default_widgets cfg.default_widgets

pub Point-kept :
    {before after : Ptr → Option Widget} (cells : Cells Ptr) (ws : List Widget)
    → ((p : Ptr) (w : Widget) → before p ≡ some w → after p ≡ some w)
    → Point before cells ws
    → Point after cells ws
Point-kept [] [] k s = tt
Point-kept [] (w ∷ ws) k s = absurd s
Point-kept (c ∷ cs) [] k s = absurd s
Point-kept ((a, p) ∷ cs) (w ∷ ws) k (e, s) = (k p w e, Point-kept cs ws k s)

pub Point-snoc :
    (widget_at : Ptr → Option Widget) (a p : Ptr) (w : Widget) (cells : Cells Ptr)
    (ws : List Widget)
    → Point widget_at cells ws
    → widget_at p ≡ some w
    → Point widget_at (cells ++ (a, p) ∷ []) (ws ++ w ∷ [])
Point-snoc f a p w [] [] s e = (e, tt)
Point-snoc f a p w [] (x ∷ ws) s e = absurd s
Point-snoc f a p w (c ∷ cs) [] s e = absurd s
Point-snoc f a p w ((b, q) ∷ cs) (x ∷ ws) (d, s) e = (d, Point-snoc f a p w cs ws s e)

module _ {t : ℕ} {new_node : Ptr} {u v : Heaps} (ch : Changed t new_node u v) where
  pub WidgetsAt-Changed :
      {t' : ℕ} {head : Ptr} {ws : List Widget}
      → t' ≢ t
      → WidgetsAt u t' head ws
      → WidgetsAt v t' head ws
  WidgetsAt-Changed {ws = ws} ne s = record {
    cells = s.cells;
    nodes = Owned-Changed ch ne s.nodes;
    point = Point-kept s.cells ws ch.widgets_kept s.point;
  }

  pub SettingStored-Changed :
      {before after : Ptr → Option SettingAt} {p : Ptr} {s : MixerSetting}
      → ((en : Bool) → field_tag p en ≢ t)
      → after p ≡ before p
      → SettingStored u before p s
      → SettingStored v after p s
  SettingStored-Changed ne same s = record {
    at = s.at;
    stored = same ∙ s.stored;
    name = s.name;
    lists = λ en. WidgetsAt-Changed (ne en) (s.lists en);
  }

  -- Settings whose lists the step does not change.
  pub SettingsAt-Changed :
      {before after : Ptr → Option SettingAt} (cells : Cells Ptr) (ss : List MixerSetting)
      → ((p : Ptr) (en : Bool) → at_object p cells ≡ true → field_tag p en ≢ t)
      → ((p : Ptr) → at_object p cells ≡ true → after p ≡ before p)
      → SettingsAt u before cells ss
      → SettingsAt v after cells ss
  SettingsAt-Changed [] [] ne same s = tt
  SettingsAt-Changed [] (x ∷ ss) ne same s = absurd s
  SettingsAt-Changed (c ∷ cs) [] ne same s = absurd s
  SettingsAt-Changed ((a, p) ∷ cs) (x ∷ ss) ne same (st, apart, s) = (
    SettingStored-Changed (λ en. ne p en (ground arith)) (same p (ground arith)) st,
    apart,
    SettingsAt-Changed cs ss (λ q en i. ne q en (ground arith)) (λ q i. same q (ground arith)) s,
  )

-- The address of the setting in a place.
abbrev pub place_of : Cells Ptr → ℕ → Option Ptr
place_of [] i = none
place_of ((_, p) ∷ cs) zero = some p
place_of ((_, p) ∷ cs) (suc i) = place_of cs i

pub at_place :
    (cells : Cells Ptr) (i : ℕ) {p : Ptr} → place_of cells i ≡ some p → at_object p cells ≡ true
at_place [] i e = absurd (cc)
at_place ((a, q) ∷ cs) zero {p} e = let same : q ≡ p = some-injective _ _ e in ground arith
at_place ((a, q) ∷ cs) (suc i) e = let ih = at_place cs i e in ground arith

pub place_of-snoc :
    (cells : Cells Ptr) (c : Ptr × Ptr) (i : ℕ) {p : Ptr}
    → place_of cells i ≡ some p
    → place_of (cells ++ c ∷ []) i ≡ some p
place_of-snoc [] c i e = absurd (cc)
place_of-snoc ((a, q) ∷ cs) c zero e = e
place_of-snoc ((a, q) ∷ cs) c (suc i) e = place_of-snoc cs c i e

-- The setting in a place.
pub setting_lem :
    (u : Heaps) (setting_at : Ptr → Option SettingAt) (cells : Cells Ptr) (ss : List MixerSetting)
    (i : ℕ) {p : Ptr}
    → place_of cells i ≡ some p
    → SettingsAt u setting_at cells ss
    → (s : MixerSetting) × (get_elem? ss i ≡ some s) × SettingStored u setting_at p s
setting_lem u f [] ss i e st = absurd (cc)
setting_lem u f (c ∷ cs) [] i e st = absurd st
setting_lem u f ((a, q) ∷ cs) (s ∷ ss) zero {p} e (st, apart, rest) =
    let same : q ≡ p = some-injective _ _ e in (s, refl, rw (sym same) st)
setting_lem u f ((a, q) ∷ cs) (s ∷ ss) (suc i) e (st, apart, rest) = setting_lem u f cs ss i e rest

-- A step that changes a list of one setting.
pub SettingsAt-set :
    {new_node : Ptr} {u v : Heaps} {before after : Ptr → Option SettingAt} (p : Ptr) (en : Bool)
    (s' : MixerSetting) (cells : Cells Ptr) (ss : List MixerSetting) (i : ℕ)
    → Changed (field_tag p en) new_node u v
    → ((q : Ptr) → q ≢ p → after q ≡ before q)
    → place_of cells i ≡ some p
    → SettingStored v after p s'
    → SettingsAt u before cells ss
    → SettingsAt v after cells (set ss i s')
SettingsAt-set p en s' [] ss i ch same e st' st = absurd (cc)
SettingsAt-set p en s' (c ∷ cs) [] i ch same e st' st = absurd st
SettingsAt-set p en s' ((a, q) ∷ cs) (s ∷ ss) zero ch same e st' (st, apart, rest) =
    let here : q ≡ p = some-injective _ _ e in
    let other : (r : Ptr) → at_object r cs ≡ true → r ≢ p = (λ r i d. absurd (cc)) in
    (
      rw here st',
      apart,
      SettingsAt-Changed ch cs ss (λ r en' i d. other r i ((field_tag-injective r p en' en d).0))
          (λ r i. same r (other r i)) rest,
    )
SettingsAt-set p en s' ((a, q) ∷ cs) (s ∷ ss) (suc i) ch same e st' (st, apart, rest) =
    let inside = at_place cs i e in
    let other : q ≢ p = (λ d. absurd (cc)) in
    (
      SettingStored-Changed ch (λ en' d. other ((field_tag-injective q p en' en d).0))
          (same q other) st,
      apart,
      SettingsAt-set p en s' cs ss i ch same e st' rest,
    )
