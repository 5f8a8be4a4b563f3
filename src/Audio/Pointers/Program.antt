-- ===== src/Audio/Pointers/Program.antt =====
-- audio/set_paths.c on memory and on the lists of values.
use midas_util.Base.{
  ℕ, zero, suc, ◌≤◌, ◌<◌, ◌≡◌, refl, Option, none, some, List, [], ◌∷◌, ok, length, arith,
  Bool-cases, Option-cases, inl, inr, Bytes,
}
use midas_util.Base.Ints.{ℤ, nonzero}
use midas_util.CString.{str_eq, atoi}
use midas_util.Llist.{Ptr, null, list_next_audio}
use midas_util.Llist.Chain.{Cells, Chain, end, link, is_null}
use midas_util.Llist.Visit.{list_next_audio_first, list_get_lem, list_next_audio_lem}
use midas_util.Audio.{
  Widget, MixerSetting, MixerConfig, MixerCall, XmlEvent, apply_paths, find_path, finish, main,
  parse_config,
}
use midas_util.Audio.Pointers.{
  Memory, list_of, apply_paths_at, find_path_at, path_names_at, finish_at, main_at, parse_config_at,
}
use midas_util.Audio.Pointers.Owned.{Heaps, field_tag}
use midas_util.Audio.Pointers.Stored.{Point, SettingsAt, WidgetsAt, no_widgets, heaps_of}
use midas_util.Audio.Pointers.Refines.{parse_config_at_lem}
use midas_util.Llist.Supply.{IsSupply}

module _ (m : Memory) where
  apply_from :
      (k : ℕ) (mixer : Bytes → Option ℕ) (head n : Ptr) (ws : List Widget) {n' : Ptr}
      {cells : Cells Ptr}
      → list_next_audio head n m.nodes ≡ ok (n', m.nodes)
      → Chain m.nodes n' cells
      → Point m.widget_at cells ws
      → length cells < k
      → apply_paths_at k mixer m head n ≡ ok (apply_paths mixer ws)
  unfolding apply_paths_at apply_paths
  apply_from zero mixer head n ws e c s f = absurd (omega arith)
  apply_from (suc k) mixer head n [] e end s f = rw e
  apply_from (suc k) mixer head n (w ∷ ws) e end s f = absurd s
  apply_from (suc k) mixer head n [] e (link h out c) s f = absurd s
  apply_from (suc k) mixer head n (w ∷ ws) e (link {p = a} h out c) (here, s) f = rw (
    e,
    is_null h,
    list_get_lem h,
    here,
    apply_from k mixer head a ws (list_next_audio_lem head h) c s (omega arith),
  )

  names_from :
      (k : ℕ) (u : Heaps) (n : Ptr) (ss : List MixerSetting) {n' : Ptr} {cells : Cells Ptr}
      → list_next_audio m.settings n m.nodes ≡ ok (n', m.nodes)
      → Chain m.nodes n' cells
      → SettingsAt u m.setting_at cells ss
      → length cells < k
      → (names : List Bytes) × (path_names_at k m n ≡ ok names)
  unfolding path_names_at
  names_from zero u n ss e c s f = absurd (omega arith)
  names_from (suc k) u n [] e end s f = ([], rw e)
  names_from (suc k) u n (x ∷ ss) e end s f = absurd s
  names_from (suc k) u n [] e (link h out c) s f = absurd s
  names_from (suc k) u n (x ∷ ss) e (link {p = a} h out c) (here, apart, s) f =
      let (names, q) = names_from k u a ss (list_next_audio_lem m.settings h) c s (omega arith) in
      (here.at.name ∷ names, rw (e, is_null h, list_get_lem h, here.stored, q))

  module _ (owner : Ptr → ℕ) (bound : ℕ) where
    find_path_from :
        (k : ℕ) (n : Ptr) (name : Bytes) (en : ℤ) (ss : List MixerSetting) {n' : Ptr}
        {cells : Cells Ptr}
        → list_next_audio m.settings n m.nodes ≡ ok (n', m.nodes)
        → Chain m.nodes n' cells
        → SettingsAt (heaps_of m owner bound) m.setting_at cells ss
        → length cells < k
        → (path : Ptr) × (t : ℕ) × (find_path_at k m n name en ≡ ok path)
          × WidgetsAt (heaps_of m owner bound) t path (find_path ss name en)
    unfolding find_path_at find_path
    find_path_from zero n name en ss e c s f = absurd (omega arith)
    find_path_from (suc k) n name en [] e end s f = (null, 0, rw e, no_widgets _ 0)
    find_path_from (suc k) n name en (x ∷ ss) e end s f = absurd s
    find_path_from (suc k) n name en [] e (link h out c) s f = absurd s
    find_path_from (suc k) n name en (x ∷ ss) e (link {p = a} {v = p} h out c) (here, apart, s) f =
        elim (Bool-cases (str_eq x.name name)) [
          | inl t ↦ (
            list_of here.at (nonzero en),
            field_tag p (nonzero en),
            rw (e, is_null h, list_get_lem h, here.stored, here.name, t),
            rw t (here.lists (nonzero en)),
          )
          | inr t ↦
              (let (path, tag, q, ws) =
                  find_path_from k a name en ss (list_next_audio_lem m.settings h) c s
                    (omega arith) in
                (
                  path,
                  tag,
                  rw (e, is_null h, list_get_lem h, here.stored, here.name, t) q,
                  rw t ws,
                ))
        ]

    -- `apply_paths` on a list.
    apply_at_lem :
        (k : ℕ) (mixer : Bytes → Option ℕ) {t : ℕ} {head : Ptr} {ws : List Widget}
        → WidgetsAt (heaps_of m owner bound) t head ws
        → bound < k
        → apply_paths_at k mixer m head null ≡ ok (apply_paths mixer ws)
    apply_at_lem k mixer {head = head} {ws = ws} s f =
        let l = s.nodes.within in
        apply_from k mixer head null ws (list_next_audio_first head) s.nodes.chain s.point
          (omega arith)

    finish_at_lem :
        (k : ℕ) (mixer : Bytes → Option ℕ) (calls : List MixerCall) {t : ℕ} {path : Ptr}
        (ws : List Widget)
        → WidgetsAt (heaps_of m owner bound) t path ws
        → bound < k
        → finish_at k mixer m calls path ≡ ok (finish mixer calls ws)
    unfolding finish_at finish
    finish_at_lem k mixer calls ws s f =
        let applied = apply_at_lem k mixer s f in finished ws s.cells s.nodes.chain s.point applied
      where
        finished :
            {path : Ptr} (ws : List Widget) (cells : Cells Ptr)
            → Chain m.nodes path cells
            → Point m.widget_at cells ws
            → apply_paths_at k mixer m path null ≡ ok (apply_paths mixer ws)
            → finish_at k mixer m calls path ≡ ok (finish mixer calls ws)
        finished [] cells end s q = refl
        finished (w ∷ ws) cells end s q = absurd s
        finished [] cells (link h out c) s q = absurd s
        finished (w ∷ ws) cells (link h out c) s q = rw (is_null h, q)

module _ (k : ℕ) (free : List (Ptr × Ptr)) (mixer : Bytes → Option ℕ)
    (xml : Bytes → Option (List XmlEvent)) (v : IsSupply free) where
  paths_lem :
      (file name en : Bytes) (rest : List Bytes) {es : List XmlEvent}
      → xml file ≡ some es
      → length es ≤ length free
      → length es < k
      → main_at k free mixer xml (file ∷ name ∷ en ∷ rest)
        ≡ main mixer xml (file ∷ name ∷ en ∷ rest)
  unfolding main_at main
  paths_lem file name en rest {es} x l b =
      let (m, cfg, owner, bound, cells, q, q', r, f) = parse_config_at_lem k free es v l b in
      let within = r.chain.within in
      let (path, t, found, ws) =
        find_path_from m owner bound k null name (atoi en) cfg.settings
          (list_next_audio_first m.settings) r.chain.chain r.settings (omega arith) in
      rw (x, q, q', apply_at_lem m owner bound k mixer r.defaults f, found)
        (finish_at_lem m owner bound k mixer (apply_paths mixer cfg.default_widgets)
          (find_path cfg.settings name (atoi en)) ws f)

  listing_lem :
      (file : Bytes) {es : List XmlEvent}
      → xml file ≡ some es
      → length es ≤ length free
      → length es < k
      → (m : Memory) × (names : List Bytes) × (cfg : MixerConfig) × (parse_config_at k free
            (xml file)
          ≡ ok (some m))
        × (path_names_at k m null ≡ ok names)
        × (parse_config (xml file) ≡ ok (some cfg))
  listing_lem file {es} x l b =
      let (m, cfg, owner, bound, cells, q, q', r, f) = parse_config_at_lem k free es v l b in
      let within = r.chain.within in
      let (names, n) =
        names_from m k (heaps_of m owner bound) null cfg.settings (list_next_audio_first m.settings)
          r.chain.chain r.settings (omega arith) in
      (m, names, cfg, rw x q, n, rw x q')

  no_file :
      (file : Bytes)
      → xml file ≡ none
      → (parse_config_at k free (xml file) ≡ ok none) × (parse_config (xml file) ≡ ok none)
  unfolding parse_config_at parse_config
  no_file file e = (rw e refl, rw e refl)

  -- If `malloc` and `calloc` give addresses that are not NULL and all different, two for each call
  -- that expat makes for the document that is read, and the loops over lists have fuel for one round
  -- more than there are such calls, then `main` of audio/set_paths.c does on memory, where lists are
  -- nodes that point to settings and widgets, what it does on lists of values: it returns the same
  -- code after the same calls of the mixer, or faults in both.
  pub main_at-main :
      (args : List Bytes)
      → ((file : Bytes) (more : List Bytes) (es : List XmlEvent)
          → args ≡ file ∷ more
          → xml file ≡ some es
          → (length es ≤ length free) × (length es < k))
      → main_at k free mixer xml args ≡ main mixer xml args
  unfolding main_at main
  main_at-main [] enough = refl
  main_at-main (file ∷ []) enough = elim (Option-cases (xml file)) [
    | inl e ↦ (let (a, b) = no_file file e in rw (a, b))
    | inr (es, e) ↦
        (let (l, f) = enough file [] es refl e in
          let (m, names, cfg, a, n, b) = listing_lem file e l f in rw (a, n, b))
  ]
  main_at-main (file ∷ name ∷ []) enough = elim (Option-cases (xml file)) [
    | inl e ↦ (let (a, b) = no_file file e in rw (a, b))
    | inr (es, e) ↦
        (let (l, f) = enough file _ es refl e in
          let (m, names, cfg, a, n, b) = listing_lem file e l f in rw (a, n, b))
  ]
  main_at-main (file ∷ name ∷ en ∷ rest) enough = elim (Option-cases (xml file)) [
    | inl e ↦ (let (a, b) = no_file file e in rw (a, b))
    | inr (es, e) ↦ (let (l, f) = enough file _ es refl e in paths_lem file name en rest e l f)
  ]
