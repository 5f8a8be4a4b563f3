-- ===== src/Config/Pointers/Refines.antt =====
-- `handle_overlay` of boot/config.c on memory and on the list of values.
use midas_util.Base.{
  ◌⊎◌, refl, ℕ, ◌≤◌, ◌<◌, ◌≡◌, ◌≢◌, ap, ◌∙◌, Bool, false, Option, some, List, [], ◌∷◌, ◌++◌, Bytes,
  ok, >>=-eq-ok, length, set, set-append, arith, Option-cases, inl, inr,
}
use midas_util.Llist.{Ptr, null, Heap}
use midas_util.Llist.Chain.{at_object, Cells, at_cell, Chain, Chain-cases}
use midas_util.Llist.Append.{list_append-Chain, list_create-Chain}
use midas_util.Config.{
  OverlayCfg, new_overlay, find_or_create_overlay, update_overlay, GlobalConfig, handle_overlay,
}
use midas_util.Config.Overlays.{overlay_for, get_elem?-find_or_create}
use midas_util.Config.Pointers.{Memory, put, create_overlay, handle_overlay_at}
use midas_util.Config.Pointers.Stored.{
  Represents, address_of, search_overlay_lem, Stored-put, Stored-snoc, found_lem, missing_lem,
}
use mathlib.Core.Path.{subst}

-- Addresses that `calloc` gives: not NULL, and not in use.
pub record IsFresh (cells : Cells Ptr) (new_node new_object : Ptr) : Type 0 where
  pub node_valid : new_node ≢ null
  pub node_unused : at_cell new_node cells ≡ false
  pub object_unused : at_object new_object cells ≡ false

create_overlay_lem :
    (k : ℕ) (new_node new_object : Ptr) (name : Bytes) (m : Memory) (cells : Cells Ptr)
    → Chain m.nodes m.head cells
    → IsFresh cells new_node new_object
    → length cells ≤ k
    → (head : Ptr) × (nodes : Heap Ptr) × (create_overlay k new_node new_object name m
        ≡ ok (
          new_object,
          record {
            head = head;
            nodes = nodes;
            objects = put m.objects new_object (new_overlay name);
          },
        ))
      × Chain nodes head (cells ++ (new_node, new_object) ∷ [])
unfolding create_overlay
create_overlay_lem k new_node new_object name m cells chain f b = elim (Chain-cases chain) [
  | inl (e, t) ↦
      (let (nodes, q, c, _) = list_create-Chain m.nodes new_node new_object f.node_valid in
        (new_node, nodes, rw (t, q), rw e c))
  | inr (e, t) ↦
      (let (nodes, q, c, same) =
          list_append-Chain k new_node new_object chain e f.node_unused f.node_valid b in
        (m.head, nodes, rw (t, q), c))
]

put_self :
    (objects : Ptr → Option OverlayCfg) (p : Ptr) (o : OverlayCfg) → put objects p o p ≡ some o
unfolding put
put_self objects p o = ground arith

module _ (k : ℕ) (new_node new_object : Ptr) (gpio_name : Bytes → Option Bytes)
    (section key value : Bytes) where
  -- The list has the same nodes as before, or a new one at its end.
  abbrev pub Grown : Cells Ptr → Cells Ptr → Type 0
  Grown cells cells' = (cells' ≡ cells) ⊎ (cells' ≡ cells ++ (new_node, new_object) ∷ [])

  update_at-Represents :
      {m : Memory} {cells : Cells Ptr} {os : List OverlayCfg} {o' : OverlayCfg} {r : Bool}
      → Represents m cells os
      → IsFresh cells new_node new_object
      → length cells < k
      → update_overlay gpio_name (overlay_for os section) key value ≡ ok (o', r)
      → (m' : Memory) × (cells' : Cells Ptr) × (handle_overlay_at k new_node new_object gpio_name
            section key value m
          ≡ ok (m', r))
        × Represents m' cells'
            (set (find_or_create_overlay os section).0 (find_or_create_overlay os section).1 o')
        × Grown cells cells'
  unfolding handle_overlay_at
  update_at-Represents {m} {cells} {os} {o'} {r} p f b u =
      let found = search_overlay_lem m k section os p.chain p.stored b in
      elim (Option-cases (address_of cells os section)) [
        | inr (a, e) ↦
            (let (here, used, stored) = found_lem m.objects cells os section o' p.stored e in
              (
                record m { objects = put m.objects a o' },
                cells,
                rw (found, e, here, u),
                record { chain = p.chain; stored = stored },
                inl refl,
              ))
        | inl e ↦
            (let (place, fresh) = missing_lem cells os section m.objects p.stored e in
              let (head, nodes, q, chain) =
                create_overlay_lem k new_node new_object section m cells p.chain f (omega arith) in
              let created = put m.objects new_object (new_overlay section) in
              let there =
                Stored-put m.objects new_object (new_overlay section) cells os p.stored
                  f.object_unused in
              let changed = Stored-put created new_object o' cells os there f.object_unused in
              (
                record { head = head; nodes = nodes; objects = put created new_object o' },
                cells ++ (new_node, new_object) ∷ [],
                rw (
                  found,
                  e,
                  q,
                  put_self m.objects new_object (new_overlay section),
                  rw fresh at u,
                ),
                record {
                  chain = chain;
                  stored =
                      rw (place, set-append os (new_overlay section) o' [])
                        (Stored-snoc (put created new_object o') new_node new_object o' cells os
                          changed (put_self created new_object o') f.object_unused);
                },
                inr refl,
              ))
      ]

  pub handle_overlay_at-Grown :
      (cfg : GlobalConfig) {cfg' : GlobalConfig} {m : Memory} {cells : Cells Ptr} {r : Bool}
      → Represents m cells cfg.overlays
      → IsFresh cells new_node new_object
      → length cells < k
      → handle_overlay gpio_name cfg section key value ≡ ok (cfg', r)
      → (m' : Memory) × (cells' : Cells Ptr) × (handle_overlay_at k new_node new_object gpio_name
            section key value m
          ≡ ok (m', r))
        × Represents m' cells' cfg'.overlays
        × Grown cells cells'
        × (cfg' ≡ record cfg { overlays = cfg'.overlays })
  unfolding handle_overlay
  handle_overlay_at-Grown cfg {cfg'} {r = r} p f b h =
      let h' = rw (get_elem?-find_or_create cfg.overlays section) at h in
      let ((o', r'), u, e) =
        >>=-eq-ok (update_overlay gpio_name (overlay_for cfg.overlays section) key value) _ h' in
      let (m', cells', q, p', grown) = update_at-Represents p f b u in
      let flag : r' ≡ r = cc in
      let list : set (find_or_create_overlay cfg.overlays section).0
            (find_or_create_overlay cfg.overlays section).1 o'
          ≡ cfg'.overlays =
        cc in
      (
        m',
        cells',
        q ∙ ap (λ (x : Bool). ok (m', x)) flag,
        subst (λ (l : List OverlayCfg). Represents m' cells' l) list p',
        grown,
        cc,
      )

  -- On memory that represents the configuration's list of overlays, with fresh addresses for a new
  -- node and a new overlay, and fuel for one round more than the list has nodes: where
  -- `handle_overlay` on the list of values returns, so does the code on memory, with the same flag,
  -- and leaves memory that represents the new list.
  pub handle_overlay_at-Represents :
      (cfg : GlobalConfig) {cfg' : GlobalConfig} {m : Memory} {cells : Cells Ptr} {r : Bool}
      → Represents m cells cfg.overlays
      → IsFresh cells new_node new_object
      → length cells < k
      → handle_overlay gpio_name cfg section key value ≡ ok (cfg', r)
      → (m' : Memory) × (cells' : Cells Ptr) × (handle_overlay_at k new_node new_object gpio_name
            section key value m
          ≡ ok (m', r))
        × Represents m' cells' cfg'.overlays
  handle_overlay_at-Represents cfg p f b h =
      let (m', cells', q, p', grown, rest) = handle_overlay_at-Grown cfg p f b h in
      (m', cells', q, p')
