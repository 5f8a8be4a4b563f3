-- ===== src/Config/Pointers.antt =====
-- `handle_overlay` and `handler` of boot/config.c on memory: a list whose nodes point to overlays,
-- which are changed in place. The list of values in `Config` is its abstract view.
pub mod Stored
pub mod Refines
pub mod Fields
pub mod Lines
use midas_util.Base.{
  ℕ, zero, suc, ◌+◌, ◌≤◌, ◌<◌, ◌≡◌, ◌≢◌, refl, sym, ap, ◌∙◌, Bool, true, false, ◌||◌, Option, none,
  some, List, [], ◌∷◌, ◌++◌, Bytes, codes, Run, ok, fault, ◌>>=◌, >>=-eq-ok, deref, length, set,
  get_elem?, set-append, if◌then◌else◌, ◌==◌, arith, Bool-cases, Option-cases, ◌⊎◌, inl, inr,
}
use mathlib.Core.Option.{some-injective}
use midas_util.CString.{str_eq, strn_eq}
use midas_util.Llist.{Ptr, null, Heap, list_create, list_next_boot, list_get, list_append}
use midas_util.Llist.Chain.{Cells, at_cell, Chain, end, link, is_null}
use midas_util.Llist.Append.{list_append-Chain, list_create-Chain}
use midas_util.Llist.Visit.{list_get_lem, list_next_boot_lem}
use midas_util.Config.{
  OverlayCfg, new_overlay, find_or_create_overlay, update_overlay, GlobalConfig, handle_overlay,
  matches, handle_global, handle_section, empty_config,
}
use midas_util.Config.Overlays.{overlay_for, find_overlay, get_elem?-find_or_create}

-- `cfg->overlays`, the nodes of the list, and the overlays that they point to.
pub record Memory : Type 0 where
  pub head : Ptr
  pub nodes : Heap Ptr
  pub objects : Ptr → Option OverlayCfg

-- `*p = o`
unfoldable pub put : (Ptr → Option OverlayCfg) → Ptr → OverlayCfg → Ptr → Option OverlayCfg
put objects p o q = if q == p then some o else objects q

-- the loop of `find_or_create_overlay`
unfoldable pub search_overlay : ℕ → Ptr → Bytes → Memory → Run (Option Ptr)
search_overlay zero n name m = fault
search_overlay (suc k) n name m =
    let rest = (do (n', _) ← list_next_boot m.head n m.nodes; search_overlay k n' name m) in
    if n == null then ok none else (do
      (p, _) ← list_get n m.nodes
      o ← deref (m.objects p)
      if str_eq name o.name then ok (some p) else rest)

-- a new overlay at an address that `calloc` gave, in a new node of the list
unfoldable pub create_overlay : ℕ → Ptr → Ptr → Bytes → Memory → Run (Ptr × Memory)
create_overlay k new_node new_object name m =
    let objects = put m.objects new_object (new_overlay name) in
    if m.head == null
    then (do
      (head, nodes) ← list_create new_node new_object m.nodes
      ok (new_object, record { head = head; nodes = nodes; objects = objects }))
    else (do
      (_, nodes) ← list_append k m.head new_node new_object m.nodes
      ok (new_object, record m { nodes = nodes; objects = objects }))

found_or_created : ℕ → Ptr → Ptr → Bytes → Memory → Option Ptr → Run (Ptr × Memory)
found_or_created k new_node new_object name m (some p) = ok (p, m)
found_or_created k new_node new_object name m none = create_overlay k new_node new_object name m

-- `handle_overlay`, up to its returned flag
unfoldable pub handle_overlay_at :
    ℕ → Ptr → Ptr → (Bytes → Option Bytes) → Bytes → Bytes → Bytes → Memory → Run (Memory × Bool)
unfolding found_or_created
handle_overlay_at k new_node new_object gpio_name section key value m = do
  found ← search_overlay k m.head section m
  (p, m') ← found_or_created k new_node new_object section m found
  o ← deref (m'.objects p)
  (o', r) ← update_overlay gpio_name o key value
  ok (record m' { objects = put m'.objects p o' }, r)

-- The configuration on memory; its field `overlays` is not used, and stays `[]`. `free` holds
-- the addresses that `malloc` and `calloc` will give, two for each line.
pub record ConfigAt : Type 0 where
  pub cfg : GlobalConfig
  pub mem : Memory
  pub free : List (Ptr × Ptr)

unfoldable pub overlay_line :
    ℕ
    → (Bytes → Option Bytes)
    → ConfigAt
    → List (Ptr × Ptr)
    → Bytes
    → Bytes
    → Bytes
    → Run (ConfigAt × Bool)
overlay_line k gpio_name d [] section name value = fault
overlay_line k gpio_name d ((new_node, new_object) ∷ free) section name value = do
  (m, r) ← handle_overlay_at k new_node new_object gpio_name section name value d.mem
  ok (record d { mem = m; free = free }, r)

-- `handler`
unfoldable pub handler_at :
    ℕ → (Bytes → Option Bytes) → ConfigAt → Bytes → Bytes → Bytes → Run (ConfigAt × Bool)
unfolding overlay_line
handler_at k gpio_name d section name value =
    if matches section "global"
    then (do (cfg, r) ← handle_global d.cfg name value; ok (record d { cfg = cfg }, r))
    else if strn_eq 7 (codes "overlay") section
    then overlay_line k gpio_name d d.free section name value
    else (do
      (cfg, r) ← handle_section d.cfg d.cfg.devices section name value
      ok (record d { cfg = cfg }, r))

abbrev pub empty_config_at : List (Ptr × Ptr) → ConfigAt
empty_config_at free = record {
  cfg = empty_config;
  mem = record { head = null; nodes = λ a. none; objects = λ a. none };
  free = free;
}
