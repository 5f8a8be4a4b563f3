-- ===== src/Audio/Pointers/Create.antt =====
-- A new setting of audio/xml.c on memory.
use midas_util.Base.{
  ℕ, suc, ◌<◌, ◌≡◌, ◌≢◌, refl, sym, ◌∙◌, Bool, true, false, Option, none, some, List, [], ◌∷◌, ok,
  ◌++◌, length, if◌then◌else◌, ◌==◌, arith, Bytes,
}
use midas_util.Llist.{Ptr, null, Heap}
use midas_util.Llist.Chain.{Cells, at_object, at_object-snoc}
use midas_util.Audio.{MixerSetting, MixerConfig, new_setting, widgets_of}
use midas_util.Audio.Pointers.{SettingAt, Memory, put, list_of, create_setting}
use midas_util.Audio.Pointers.Owned.{
  settings_tag, field_tag, Heaps, Appended, first, last, append-Owned, grown,
}
use midas_util.Audio.Pointers.Stored.{
  heaps_of, Represents, WidgetsAt, SettingStored, SettingsAt, WidgetsAt-Changed, SettingsAt-Changed,
  place_of, no_widgets,
}
use midas_util.Audio.Pointers.Update.{IsFree, Uses, put_free, put_self, tag_apart}

in_settings :
    (u : Heaps) (setting_at : Ptr → Option SettingAt) (cells : Cells Ptr) (ss : List MixerSetting)
    (p : Ptr)
    → SettingsAt u setting_at cells ss
    → setting_at p ≡ none
    → at_object p cells ≡ false
in_settings u f [] ss p st e = refl
in_settings u f (c ∷ cs) [] p st e = absurd st
in_settings u f ((a, q) ∷ cs) (s ∷ ss) p (here, apart, rest) e =
    let there = here.stored in
    let other : p ≢ q = (λ d. absurd (cc)) in
    let ih = in_settings u f cs ss p rest e in ground arith

SettingsAt-snoc :
    (u : Heaps) (setting_at : Ptr → Option SettingAt) (a p : Ptr) (s : MixerSetting)
    (cells : Cells Ptr) (ss : List MixerSetting)
    → at_object p cells ≡ false
    → SettingStored u setting_at p s
    → SettingsAt u setting_at cells ss
    → SettingsAt u setting_at (cells ++ (a, p) ∷ []) (ss ++ s ∷ [])
SettingsAt-snoc u f a p s [] [] out new st = (new, refl, tt)
SettingsAt-snoc u f a p s [] (x ∷ ss) out new st = absurd st
SettingsAt-snoc u f a p s (c ∷ cs) [] out new st = absurd st
SettingsAt-snoc u f a p s ((b, q) ∷ cs) (x ∷ ss) out new (here, apart, rest) = (
  here,
  ground (arith, at_object-snoc q cs a p),
  SettingsAt-snoc u f a p s cs ss (ground arith) new rest,
)

-- The new setting's place is the number of the old ones.
place_of-new :
    (u : Heaps) (setting_at : Ptr → Option SettingAt) (a p : Ptr) (cells : Cells Ptr)
    (ss : List MixerSetting)
    → SettingsAt u setting_at cells ss
    → place_of (cells ++ (a, p) ∷ []) (length ss) ≡ some p
place_of-new u f a p [] [] st = refl
place_of-new u f a p [] (x ∷ ss) st = absurd st
place_of-new u f a p (c ∷ cs) [] st = absurd st
place_of-new u f a p (c ∷ cs) (x ∷ ss) (here, apart, rest) = place_of-new u f a p cs ss rest

abbrev empty_setting : Bytes → SettingAt
empty_setting name = record { name = name; en_widgets = null; dis_widgets = null }

lists_empty :
    (u : Heaps) (p : Ptr) (name : Bytes) (en : Bool)
    → WidgetsAt u
        (field_tag p en)
        (list_of (empty_setting name) en)
        (widgets_of (new_setting name) en)
lists_empty u p name true = no_widgets u (field_tag p true)
lists_empty u p name false = no_widgets u (field_tag p false)

module _ (k : ℕ) (new_node new_object : Ptr) (m : Memory) (name : Bytes) where
  create_lem :
      {g : Heap Ptr} {head' : Ptr}
      → Appended k new_node new_object m.settings m.nodes g head'
      → create_setting k new_node new_object name m
        ≡ ok (record m {
          settings = head';
          nodes = g;
          setting_at = put m.setting_at new_object (empty_setting name);
        })
  unfolding create_setting
  create_lem (first t q) = rw (t, q)
  create_lem (last t q) = rw (t, q)

  -- A new setting at the end of the configuration, on memory and on the lists of values.
  pub create_setting_lem :
      {owner : Ptr → ℕ} {bound : ℕ} {cells : Cells Ptr} {cfg : MixerConfig}
      → IsFree m new_node new_object
      → Represents m owner bound cells cfg
      → bound < k
      → (m' : Memory) × (owner' : Ptr → ℕ) × (create_setting k new_node new_object name m ≡ ok m')
        × Represents m' owner'
            (suc bound)
            (cells ++ (new_node, new_object) ∷ [])
            (record cfg { settings = cfg.settings ++ new_setting name ∷ [] })
        × Uses new_node new_object m m'
        × (place_of (cells ++ (new_node, new_object) ∷ []) (length cfg.settings) ≡ some new_object)
  create_setting_lem {owner} {bound} {cells} {cfg} free r fuel =
      let u = heaps_of m owner bound in
      let (g, head', how, o, ch) =
        append-Owned u k settings_tag new_node new_object m.widget_at free.valid free.node
          (λ p w e. e) r.chain (omega arith) in
      let out = in_settings u m.setting_at cells cfg.settings new_object r.settings free.setting in
      let objects = put m.setting_at new_object (empty_setting name) in
      let kept =
        SettingsAt-Changed ch cells cfg.settings (λ p en i e. (tag_apart p en).0 (sym e))
          (λ p i. put_free m.setting_at new_object (empty_setting name) p (λ d. absurd (cc)))
          r.settings in
      (
        record m { settings = head'; nodes = g; setting_at = objects },
        λ a. if a == new_node then settings_tag else owner a,
        create_lem how,
        record {
          chain = o;
          settings =
              SettingsAt-snoc (grown u g settings_tag new_node m.widget_at) objects new_node
                new_object (new_setting name) cells cfg.settings out
                (record {
                  at = empty_setting name;
                  stored = put_self m.setting_at new_object (empty_setting name);
                  name = refl;
                  lists = lists_empty _ new_object name;
                })
                kept;
          defaults = WidgetsAt-Changed ch (λ e. absurd (omega arith)) r.defaults;
        },
        record {
          nodes = ch.free_kept;
          settings = λ p n e. put_free m.setting_at new_object (empty_setting name) p n ∙ e;
          widgets = λ p n e. e;
        },
        place_of-new u m.setting_at new_node new_object cells cfg.settings r.settings,
      )
