-- ===== src/Audio/Pointers/Search.antt =====
-- `find_list` of audio/xml.c on memory.
use midas_util.Base.{
  ℕ, zero, suc, ◌<◌, ◌≡◌, refl, Option, none, some, List, [], ◌∷◌, ok, ◌++◌, length, arith,
  Bool-cases, inl, inr, Bytes,
}
use midas_util.Base.Ints.{ℤ}
use midas_util.CString.{str_eq}
use midas_util.Llist.{Ptr, null, list_next_audio}
use midas_util.Llist.Chain.{Cells, Chain, Chain-cases, end, link, is_null}
use midas_util.Llist.Visit.{list_next_audio_first, list_get_lem, list_next_audio_lem}
use midas_util.Audio.{
  MixerSetting, MixerConfig, ListRef, default, setting, find_setting, list_for, ref_of,
}
use midas_util.Audio.Pointers.{
  Memory, ParserAt, ListAddr, default_addr, field_addr, search_setting, find_list_at, field_of,
}
use midas_util.Audio.Pointers.Owned.{Heaps}
use midas_util.Audio.Pointers.Stored.{SettingsAt, Represents, place_of, place_of-snoc}

-- Both are the same list, or NULL.
abbrev pub SameList : Cells Ptr → Option ListRef → Option ListAddr → Type 0
SameList cells none none = Unit {0}
SameList cells none (some addr) = ⊥
SameList cells (some ref) none = ⊥
SameList cells (some default) (some default_addr) = Unit {0}
SameList cells (some default) (some (field_addr p en)) = ⊥
SameList cells (some (setting i en)) (some default_addr) = ⊥
SameList cells (some (setting i en)) (some (field_addr p en')) =
    (place_of cells i ≡ some p) × (en ≡ en')

-- New settings do not change which list it is.
pub SameList-snoc :
    (cells : Cells Ptr) (c : Ptr × Ptr) (ref : Option ListRef) (addr : Option ListAddr)
    → SameList cells ref addr
    → SameList (cells ++ c ∷ []) ref addr
SameList-snoc cells c none none s = tt
SameList-snoc cells c none (some addr) s = absurd s
SameList-snoc cells c (some ref) none s = absurd s
SameList-snoc cells c (some default) (some default_addr) s = tt
SameList-snoc cells c (some default) (some (field_addr p en)) s = absurd s
SameList-snoc cells c (some (setting i en)) (some default_addr) s = absurd s
SameList-snoc cells c (some (setting i en)) (some (field_addr p en')) (e, d) =
    (place_of-snoc cells c i e, d)

-- The place that was found, and the address.
abbrev Found : Cells Ptr → Option ℕ → Option Ptr → Type 0
Found cells none none = Unit {0}
Found cells none (some p) = ⊥
Found cells (some i) none = ⊥
Found cells (some i) (some p) = place_of cells i ≡ some p

Found-suc :
    (a q : Ptr) (cells : Cells Ptr) (i : Option ℕ) (p : Option Ptr)
    → Found cells i p
    → Found ((a, q) ∷ cells) (elim i [ none ↦ none | some j ↦ some (suc j) ]) p
Found-suc a q cells none none f = tt
Found-suc a q cells none (some p) f = absurd f
Found-suc a q cells (some i) none f = absurd f
Found-suc a q cells (some i) (some p) f = f

search_setting_lem :
    (m : Memory) (u : Heaps) (k : ℕ) (n : Ptr) (name : Bytes) (ss : List MixerSetting) {n' : Ptr}
    {cells : Cells Ptr}
    → list_next_audio m.settings n m.nodes ≡ ok (n', m.nodes)
    → Chain m.nodes n' cells
    → SettingsAt u m.setting_at cells ss
    → length cells < k
    → (o : Option Ptr) × (search_setting k n name m ≡ ok o) × Found cells (find_setting ss name) o
unfolding search_setting find_setting
search_setting_lem m u zero n name ss e c st f = absurd (omega arith)
search_setting_lem m u (suc k) n name [] e end st f = (none, rw e, tt)
search_setting_lem m u (suc k) n name (s ∷ ss) e end st f = absurd st
search_setting_lem m u (suc k) n name [] e (link h out c) st f = absurd st
search_setting_lem m u (suc k) n name (s ∷ ss) e (link {p = a} {v = p} {xs} h out c)
      (here, apart, rest) f =
    elim (Bool-cases (str_eq s.name name)) [
      | inl t ↦ (some p, rw (e, is_null h, list_get_lem h, here.stored, here.name, t), rw t refl)
      | inr t ↦
          (let (o, q, found) =
              search_setting_lem m u k a name ss (list_next_audio_lem m.settings h) c rest
                (omega arith) in
            (
              o,
              rw (e, is_null h, list_get_lem h, here.stored, here.name, t) q,
              rw t (Found-suc a p xs (find_setting ss name) o found),
            ))
    ]

module _ (k : ℕ) (d : ParserAt) (owner : Ptr → ℕ) (bound : ℕ) (cells : Cells Ptr)
    (cfg : MixerConfig) (r : Represents d.mem owner bound cells cfg) (fuel : bound < k) where
  field_of-SameList :
      (state : ℤ) (i : Option ℕ) (p : Option Ptr)
      → Found cells i p
      → SameList cells (ref_of state i) (field_of state p)
  unfolding ref_of
  field_of-SameList state none none f = tt
  field_of-SameList state none (some p) f = absurd f
  field_of-SameList state (some i) none f = absurd f
  field_of-SameList state (some i) (some p) f = (f, refl)

  no_settings :
      (name : Bytes) (ss : List MixerSetting) (u : Heaps)
      → cells ≡ []
      → SettingsAt u d.mem.setting_at cells ss
      → find_setting ss name ≡ none
  unfolding find_setting
  no_settings name [] u e st = refl
  no_settings name (s ∷ ss) u e st = absurd (rw e at st)

  -- `find_list` gives the same list on memory and on the lists of values.
  pub find_list_at_lem :
      (device : Option Bytes)
      → (addr : Option ListAddr) × (find_list_at k d device ≡ ok addr)
        × SameList cells (list_for cfg d.cur_state device) addr
  unfolding find_list_at list_for
  find_list_at_lem none = (some default_addr, refl, tt)
  find_list_at_lem (some name) =
      let b = r.chain.within in
      elim (Chain-cases r.chain.chain) [
        | inl (e, t) ↦
            (none, rw t, (rw (no_settings name cfg.settings _ e r.settings) (unfold ref_of in tt)))
        | inr (e, t) ↦
            (let (o, q, found) =
                search_setting_lem d.mem _ k null name cfg.settings
                  (list_next_audio_first d.mem.settings) r.chain.chain r.settings (omega arith) in
              (
                field_of d.cur_state o,
                rw (t, q),
                field_of-SameList d.cur_state (find_setting cfg.settings name) o found,
              ))
      ]
