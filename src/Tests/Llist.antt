-- ===== src/Tests/Llist.antt =====
-- The list's theorems on a heap with two nodes.
use midas_util.Base.{
  ℕ, zero, suc, ◌≡◌, ◌≢◌, ◌↔◌, refl, false, none, some, [], ◌∷◌, ◌++◌, ok, if◌then◌else◌, arith,
}
use midas_util.Llist.{Ptr, null, node, Heap, list_append, list_free, visit_boot}
use midas_util.Llist.Chain.{Cells, values, at_cell, Chain, link, end}
use midas_util.Llist.Append.{list_append-Chain}
use midas_util.Llist.Termination.{visit_boot_terminates}
use midas_util.Llist.Free.{list_free-Without}

-- 7 at address 1, in front of 9 at address 2
abbrev heap : Heap ℕ
heap zero = none
heap (suc zero) = some (node 2 7)
heap (suc (suc zero)) = some (node null 9)
heap _ = none

abbrev cells : Cells ℕ
cells = (1, 7) ∷ (2, 9) ∷ []

one_null : 1 ≢ null
one_null e = absurd (omega arith)

two_null : 2 ≢ null
two_null e = absurd (omega arith)

three_null : 3 ≢ null
three_null e = absurd (omega arith)

two_nodes : Chain heap 1 cells
two_nodes =
    link (record { valid = one_null; stored = refl }) refl
      (link (record { valid = two_null; stored = refl }) refl end)

some_cells : cells ≢ []
some_cells e = absurd (cc)

list_append-Chain_example :
    (g : Heap ℕ) × (list_append 2 1 3 5 heap ≡ ok (tt, g))
    × Chain g 1 (cells ++ (3, 5) ∷ [])
    × ((a : Ptr) → at_cell a cells ≡ false → a ≢ 3 → g a ≡ heap a)
list_append-Chain_example =
    list_append-Chain 2 3 5 two_nodes some_cells refl three_null (omega arith)

visit_boot_terminates_example :
    ((k : ℕ) × (visit_boot k 1 1 heap ≡ ok (7 ∷ 9 ∷ [], heap)))
    ↔ ((xs : Cells ℕ) × Chain heap 1 xs × (values xs ≡ 7 ∷ 9 ∷ []) × (heap ≡ heap))
visit_boot_terminates_example = visit_boot_terminates 1 1 heap heap (7 ∷ 9 ∷ [])

list_free-Without_example :
    (g : Heap ℕ) × (list_free 2 1 heap ≡ ok (tt, g))
    × ((a : Ptr) → g a ≡ (if at_cell a cells then none else heap a))
list_free-Without_example = list_free-Without 2 two_nodes some_cells (omega arith)
