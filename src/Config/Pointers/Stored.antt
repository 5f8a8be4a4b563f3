-- ===== src/Config/Pointers/Stored.antt =====
-- What memory holds for a list of overlays, and where the search of boot/config.c ends in it.
use midas_util.Base.{
  ℕ, zero, suc, ◌<◌, ◌≡◌, refl, sym, true, false, Option, none, some, List, [], ◌∷◌, ◌++◌, Bytes,
  ok, length, set, if◌then◌else◌, arith, Bool-cases, inl, inr,
}
use mathlib.Core.Option.{some-injective}
use midas_util.CString.{str_eq}
use midas_util.Llist.{Ptr}
use midas_util.Llist.Chain.{at_object, at_object-snoc, Cells, Chain, end, link, is_null}
use midas_util.Llist.Visit.{list_get_lem, list_next_boot_lem}
use midas_util.Config.{OverlayCfg, new_overlay, find_or_create_overlay}
use midas_util.Config.Overlays.{overlay_for, find_overlay}
use midas_util.Config.Pointers.{Memory, put, search_overlay}

-- The nodes point to the overlays of a list, each to one of its own.
abbrev pub Stored : (Ptr → Option OverlayCfg) → Cells Ptr → List OverlayCfg → Type 0
Stored objects [] [] = Unit {0}
Stored objects [] (o ∷ os) = ⊥
Stored objects (c ∷ cs) [] = ⊥
Stored objects ((_, p) ∷ cs) (o ∷ os) =
    (objects p ≡ some o) × (at_object p cs ≡ false) × Stored objects cs os

pub record Represents (m : Memory) (cells : Cells Ptr) (os : List OverlayCfg) : Type 0 where
  pub chain : Chain m.nodes m.head cells
  pub stored : Stored m.objects cells os

unfoldable pub address_of : Cells Ptr → List OverlayCfg → Bytes → Option Ptr
address_of [] os name = none
address_of (c ∷ cs) [] name = none
address_of ((_, p) ∷ cs) (o ∷ os) name =
    if str_eq name o.name then some p else address_of cs os name

pub search_overlay_lem :
    (m : Memory) (k : ℕ) (name : Bytes) (os : List OverlayCfg) {n : Ptr} {cells : Cells Ptr}
    → Chain m.nodes n cells
    → Stored m.objects cells os
    → length cells < k
    → search_overlay k n name m ≡ ok (address_of cells os name)
unfolding search_overlay address_of
search_overlay_lem m zero name os c s f = absurd (omega arith)
search_overlay_lem m (suc k) name os end s f = refl
search_overlay_lem m (suc k) name [] (link h out c) s f = absurd s
search_overlay_lem m (suc k) name (o ∷ os) (link {p} {v} h out c) (st, apart, s) f =
    rw (is_null h, list_get_lem h, st)
      (elim (Bool-cases (str_eq name o.name)) [
        | inl t ↦ rw t
        | inr t ↦
            rw (t, list_next_boot_lem m.head h) (search_overlay_lem m k name os c s (omega arith))
      ])

pub Stored-put :
    (objects : Ptr → Option OverlayCfg) (p : Ptr) (o : OverlayCfg) (cells : Cells Ptr)
    (os : List OverlayCfg)
    → Stored objects cells os
    → at_object p cells ≡ false
    → Stored (put objects p o) cells os
unfolding put
Stored-put objects p o [] [] s a = tt
Stored-put objects p o [] (o' ∷ os) s a = absurd s
Stored-put objects p o (c ∷ cs) [] s a = absurd s
Stored-put objects p o ((q, p') ∷ cs) (o' ∷ os) (st, apart, s) a =
    (ground arith, apart, Stored-put objects p o cs os s (ground arith))

pub Stored-snoc :
    (objects : Ptr → Option OverlayCfg) (q p : Ptr) (o : OverlayCfg) (cells : Cells Ptr)
    (os : List OverlayCfg)
    → Stored objects cells os
    → objects p ≡ some o
    → at_object p cells ≡ false
    → Stored objects (cells ++ (q, p) ∷ []) (os ++ o ∷ [])
Stored-snoc objects q p o [] [] s e a = (e, refl, tt)
Stored-snoc objects q p o [] (o' ∷ os) s e a = absurd s
Stored-snoc objects q p o (c ∷ cs) [] s e a = absurd s
Stored-snoc objects q p o ((q', p') ∷ cs) (o' ∷ os) (st, apart, s) e a = (
  st,
  ground (arith, at_object-snoc p' cs q p),
  Stored-snoc objects q p o cs os s e (ground arith),
)

-- The address where the search ends is that of the overlay in `find_or_create_overlay`'s place.
pub found_lem :
    (objects : Ptr → Option OverlayCfg) (cells : Cells Ptr) (os : List OverlayCfg) (name : Bytes)
    (o' : OverlayCfg) {p : Ptr}
    → Stored objects cells os
    → address_of cells os name ≡ some p
    → (objects p ≡ some (overlay_for os name))
      × (at_object p cells ≡ true)
      × Stored
          (put objects p o')
          cells
          (set (find_or_create_overlay os name).0 (find_or_create_overlay os name).1 o')
unfolding address_of find_or_create_overlay overlay_for find_overlay put
found_lem objects [] os name o' s e = absurd (cc)
found_lem objects (c ∷ cs) [] name o' s e = absurd s
found_lem objects ((q, p') ∷ cs) (o ∷ os) name o' {p} (st, apart, s) e =
    elim (Bool-cases (str_eq name o.name)) [
      | inl t ↦
          (let same : p' ≡ p = some-injective _ _ (rw t at e) in
            rw (sym same, t, overlay_for)
              (st, ground arith, (ground arith, apart, Stored-put objects p' o' cs os s apart)))
      | inr t ↦
          (let (a, b, d) = found_lem objects cs os name o' s (rw t at e) in
            rw (t, overlay_for) (a, ground arith, (ground arith, apart, d)))
    ]

-- No overlay has the name: `find_or_create_overlay` puts a new one at the end.
pub missing_lem :
    (cells : Cells Ptr) (os : List OverlayCfg) (name : Bytes) (objects : Ptr → Option OverlayCfg)
    → Stored objects cells os
    → address_of cells os name ≡ none
    → (find_or_create_overlay os name ≡ (os ++ new_overlay name ∷ [], length os))
      × (overlay_for os name ≡ new_overlay name)
unfolding address_of find_or_create_overlay overlay_for find_overlay
missing_lem [] [] name objects s e = (refl, refl)
missing_lem [] (o ∷ os) name objects s e = absurd s
missing_lem (c ∷ cs) [] name objects s e = absurd s
missing_lem ((q, p) ∷ cs) (o ∷ os) name objects (st, apart, s) e =
    elim (Bool-cases (str_eq name o.name)) [
      | inl t ↦ absurd (cc (rw t at e))
      | inr t ↦
          (let (a, b) = missing_lem cs os name objects s (rw t at e) in
            rw (t, overlay_for, a) (refl, b))
    ]
