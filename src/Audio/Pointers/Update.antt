-- ===== src/Audio/Pointers/Update.antt =====
-- A `ctl` of audio/xml.c on memory.
use midas_util.Base.{
  ℕ, suc, ◌<◌, ◌≡◌, ◌≢◌, refl, sym, ap, ◌∙◌, Bool, true, false, Option, none, some, List, [], ◌∷◌,
  ok, ok-injective, ◌++◌, get_elem?, set, if◌then◌else◌, ◌==◌, arith, Bool-cases, inl, inr,
}
use midas_util.Llist.{Ptr, null, Heap}
use midas_util.Llist.Chain.{Cells}
use midas_util.Audio.{
  Widget, MixerSetting, MixerConfig, ListRef, default, setting, widgets_of, add_to, append_widget,
}
use midas_util.Audio.Pointers.{
  SettingAt, Memory, ListAddr, default_addr, field_addr, put, list_of, with_list, load_list,
  store_list, append_widget_at,
}
use midas_util.Audio.Pointers.Owned.{
  settings_tag, default_tag, field_tag, Heaps, Owned, Changed, Owned-Changed, Appended, first, last,
  append-Owned, grown, field_tag-injective,
}
use midas_util.Audio.Pointers.Stored.{
  heaps_of, Represents, WidgetsAt, SettingStored, WidgetsAt-Changed, SettingsAt-Changed,
  SettingsAt-set, setting_lem, Point-kept, Point-snoc, place_of,
}
use midas_util.Audio.Pointers.Search.{SameList}

-- Addresses that are not in use.
pub record IsFree (m : Memory) (new_node new_object : Ptr) : Type 0 where
  pub valid : new_node ≢ null
  pub node : m.nodes new_node ≡ none
  pub setting : m.setting_at new_object ≡ none
  pub widget : m.widget_at new_object ≡ none

-- A step uses no other addresses than these.
pub record Uses (new_node new_object : Ptr) (before after : Memory) : Type 0 where
  pub nodes : (a : Ptr) → a ≢ new_node → before.nodes a ≡ none → after.nodes a ≡ none
  pub settings : (p : Ptr) → p ≢ new_object → before.setting_at p ≡ none → after.setting_at p ≡ none
  pub widgets : (p : Ptr) → p ≢ new_object → before.widget_at p ≡ none → after.widget_at p ≡ none

pub put_kept :
    {A : Type 0} (f : Ptr → Option A) (p : Ptr) (x : A)
    → f p ≡ none
    → (q : Ptr) (y : A) → f q ≡ some y
    → put f p x q ≡ some y
unfolding put
put_kept f p x e q y e' = elim (Bool-cases (q == p)) [
  | inl t ↦ (let same : q ≡ p = ground arith in absurd (cc))
  | inr t ↦ rw t e'
]

pub put_free :
    {A : Type 0} (f : Ptr → Option A) (p : Ptr) (x : A) (q : Ptr) → q ≢ p → put f p x q ≡ f q
unfolding put
put_free f p x q n = ground arith

pub put_self : {A : Type 0} (f : Ptr → Option A) (p : Ptr) (x : A) → put f p x p ≡ some x
unfolding put
put_self f p x = ground arith

pub tag_apart :
    (p : Ptr) (en : Bool) → (settings_tag ≢ field_tag p en) × (default_tag ≢ field_tag p en)
unfolding field_tag
tag_apart p true = ((λ e. absurd (omega arith)), (λ e. absurd (omega arith)))
tag_apart p false = ((λ e. absurd (omega arith)), (λ e. absurd (omega arith)))

module _ (k : ℕ) (new_node new_object : Ptr) (m : Memory) (w : Widget) where
  append_default_lem :
      {g : Heap Ptr} {head' : Ptr}
      → Appended k new_node new_object m.default_widgets m.nodes g head'
      → append_widget_at k new_node new_object m default_addr w
        ≡ ok (record m {
          default_widgets = head';
          nodes = g;
          widget_at = put m.widget_at new_object w;
        })
  unfolding append_widget_at load_list store_list
  append_default_lem (first t q) = rw (t, q)
  append_default_lem (last t q) = rw (t, q)

  with_same : (s : SettingAt) (en : Bool) → with_list s en (list_of s en) ≡ s
  with_same s true = refl
  with_same s false = refl

  append_field_lem :
      (p : Ptr) (en : Bool) (s : SettingAt) {g : Heap Ptr} {head' : Ptr}
      → m.setting_at p ≡ some s
      → Appended k new_node new_object (list_of s en) m.nodes g head'
      → (after : Ptr → Option SettingAt) × (append_widget_at k new_node new_object m
            (field_addr p en)
            w
          ≡ ok (record m {
            nodes = g;
            setting_at = after;
            widget_at = put m.widget_at new_object w;
          }))
        × (after p ≡ some (with_list s en head'))
        × ((q : Ptr) → q ≢ p → after q ≡ m.setting_at q)
  unfolding append_widget_at load_list store_list
  append_field_lem p en s {head'} e (first t q) = (
    put m.setting_at p (with_list s en head'),
    rw (e, t, q),
    put_self m.setting_at p _,
    put_free m.setting_at p _,
  )
  append_field_lem p en s e (last t q) =
      (m.setting_at, rw (e, t, q), e ∙ ap some (sym (with_same s en)), λ q n. refl)

  module _ (free : IsFree m new_node new_object) {owner : Ptr → ℕ} {bound : ℕ} {cells : Cells Ptr}
      {cfg : MixerConfig} (r : Represents m owner bound cells cfg) (fuel : bound < k) where
    -- the heaps once the widget is in a list
    abbrev later : Heap Ptr → ℕ → Heaps
    later g t = grown (heaps_of m owner bound) g t new_node (put m.widget_at new_object w)

    longer :
        (t : ℕ) {g : Heap Ptr} {head head' : Ptr} {ws : List Widget}
        → (s : WidgetsAt (heaps_of m owner bound) t head ws)
        → Changed t new_node (heaps_of m owner bound) (later g t)
        → Owned (later g t) t head' (s.cells ++ (new_node, new_object) ∷ [])
        → WidgetsAt (later g t) t head' (ws ++ w ∷ [])
    longer t {ws = ws} s ch o = record {
      cells = s.cells ++ (new_node, new_object) ∷ [];
      nodes = o;
      point =
          Point-snoc (put m.widget_at new_object w) new_node new_object w s.cells ws
            (Point-kept s.cells ws ch.widgets_kept s.point) (put_self m.widget_at new_object w);
    }

    default_appended :
        (m' : Memory) × (owner' : Ptr → ℕ) × (append_widget_at k new_node new_object m default_addr
            w
          ≡ ok m')
        × Represents m' owner'
            (suc bound)
            cells
            (record cfg { default_widgets = cfg.default_widgets ++ w ∷ [] })
        × Uses new_node new_object m m'
    default_appended =
        let widgets = put m.widget_at new_object w in
        let (g, head', how, o, ch) =
          append-Owned (heaps_of m owner bound) k default_tag new_node new_object widgets free.valid
            free.node (put_kept m.widget_at new_object w free.widget) r.defaults.nodes
            (omega arith) in
        (
          record m { default_widgets = head'; nodes = g; widget_at = widgets },
          λ a. if a == new_node then default_tag else owner a,
          append_default_lem how,
          record {
            chain = Owned-Changed ch (λ e. absurd (omega arith)) r.chain;
            settings =
                SettingsAt-Changed ch cells cfg.settings (λ p en i e. (tag_apart p en).1 (sym e))
                  (λ p i. refl) r.settings;
            defaults = longer default_tag r.defaults ch o;
          },
          record {
            nodes = ch.free_kept;
            settings = λ p n e. e;
            widgets = λ p n e. put_free m.widget_at new_object w p n ∙ e;
          },
        )

    other_list : (p : Ptr) (en en' : Bool) → en ≢ en' → field_tag p en ≢ field_tag p en'
    other_list p en en' n e = n ((field_tag-injective p p en en' e).1)

    name_kept : (at : SettingAt) (en : Bool) (head' : Ptr) → (with_list at en head').name ≡ at.name
    name_kept at true head' = refl
    name_kept at false head' = refl

    name_added : (s : MixerSetting) (en : Bool) → s.name ≡ (add_to s en w).name
    name_added s true = refl
    name_added s false = refl

    lists_grown :
        {p : Ptr} {s : MixerSetting} (en en' : Bool)
        (st : SettingStored (heaps_of m owner bound) m.setting_at p s) {g : Heap Ptr} {head' : Ptr}
        → Changed (field_tag p en) new_node (heaps_of m owner bound) (later g (field_tag p en))
        → Owned
            (later g (field_tag p en))
            (field_tag p en)
            head'
            ((st.lists en).cells ++ (new_node, new_object) ∷ [])
        → WidgetsAt
            (later g (field_tag p en))
            (field_tag p en')
            (list_of (with_list st.at en head') en')
            (widgets_of (add_to s en w) en')
    lists_grown {p} true true st ch o = longer (field_tag p true) (st.lists true) ch o
    lists_grown {p} true false st ch o =
        WidgetsAt-Changed ch (other_list p false true (λ d. absurd (cc))) (st.lists false)
    lists_grown {p} false true st ch o =
        WidgetsAt-Changed ch (other_list p true false (λ d. absurd (cc))) (st.lists true)
    lists_grown {p} false false st ch o = longer (field_tag p false) (st.lists false) ch o

    -- the setting, once one of its lists has grown
    setting_grown :
        {p : Ptr} {s : MixerSetting} (en : Bool)
        (st : SettingStored (heaps_of m owner bound) m.setting_at p s) {g : Heap Ptr} {head' : Ptr}
        {after : Ptr → Option SettingAt}
        → Changed (field_tag p en) new_node (heaps_of m owner bound) (later g (field_tag p en))
        → Owned
            (later g (field_tag p en))
            (field_tag p en)
            head'
            ((st.lists en).cells ++ (new_node, new_object) ∷ [])
        → after p ≡ some (with_list st.at en head')
        → SettingStored (later g (field_tag p en)) after p (add_to s en w)
    setting_grown {p} en st ch o e = record {
      at = with_list st.at en _;
      stored = e;
      name = name_kept st.at en _ ∙ st.name ∙ name_added _ en;
      lists = λ en'. lists_grown en en' st ch o;
    }

    field_appended :
        (p : Ptr) (en : Bool) (i : ℕ)
        → place_of cells i ≡ some p
        → (s : MixerSetting) × (get_elem? cfg.settings i ≡ some s)
          × ((m' : Memory) × (owner' : Ptr → ℕ) × (append_widget_at k new_node new_object m
                  (field_addr p en)
                  w
                ≡ ok m')
              × Represents m' owner'
                  (suc bound)
                  cells
                  (record cfg { settings = set cfg.settings i (add_to s en w) })
              × Uses new_node new_object m m')
    field_appended p en i at =
        let u = heaps_of m owner bound in
        let (s, here, st) = setting_lem u m.setting_at cells cfg.settings i at r.settings in
        let widgets = put m.widget_at new_object w in
        let (g, head', how, o, ch) =
          append-Owned u k (field_tag p en) new_node new_object widgets free.valid free.node
            (put_kept m.widget_at new_object w free.widget) (st.lists en).nodes (omega arith) in
        let (after, q, changed, others) = append_field_lem p en st.at st.stored how in
        let (apart_settings, apart_default) = tag_apart p en in
        (
          s,
          here,
          (
            record m { nodes = g; setting_at = after; widget_at = widgets },
            λ a. if a == new_node then field_tag p en else owner a,
            q,
            record {
              chain = Owned-Changed ch apart_settings r.chain;
              settings =
                  SettingsAt-set p en (add_to s en w) cells cfg.settings i ch others at
                    (setting_grown en st ch o changed) r.settings;
              defaults = WidgetsAt-Changed ch apart_default r.defaults;
            },
            record {
              nodes = ch.free_kept;
              settings = λ x n e. elim (Bool-cases (x == p)) [
                | inl t ↦ (let same : x ≡ p = ground arith in let there = st.stored in absurd (cc))
                | inr t ↦ (let other : x ≢ p = ground arith in others x other ∙ e)
              ];
              widgets = λ x n e. put_free m.widget_at new_object w x n ∙ e;
            },
          ),
        )

    -- A new widget at the end of the same list, on memory and on the lists of values.
    pub append_widget_at_lem :
        (ref : ListRef) (addr : ListAddr) {cfg' : MixerConfig}
        → SameList cells (some ref) (some addr)
        → append_widget cfg ref w ≡ ok cfg'
        → (m' : Memory) × (owner' : Ptr → ℕ) × (append_widget_at k new_node new_object m addr w
            ≡ ok m')
          × Represents m' owner' (suc bound) cells cfg'
          × Uses new_node new_object m m'
    unfolding append_widget
    append_widget_at_lem default default_addr same e =
        let (m', owner', q, r', uses) = default_appended in
        (m', owner', q, rw (ok-injective e) at r', uses)
    append_widget_at_lem default (field_addr p en) same e = absurd same
    append_widget_at_lem (setting i en) default_addr same e = absurd same
    append_widget_at_lem (setting i en) (field_addr p en') (at, d) e =
        let (s, here, (m', owner', q, r', uses)) = field_appended p en i at in
        (m', owner', rw (sym d) q, rw (ok-injective (rw here at e)) at r', uses)
