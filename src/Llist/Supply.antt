-- ===== src/Llist/Supply.antt =====
-- The addresses that `malloc` and `calloc` give to a program that makes lists and never frees: for a
-- new element a node, and what the node points to.
use midas_util.Base.{◌≢◌, List, [], ◌∷◌, All}
use midas_util.Llist.{Ptr, null}

-- Addresses that are all different.
abbrev pub Differ : List (Ptr × Ptr) → Type 0
Differ [] = Unit {0}
Differ ((a, p) ∷ rest) = All (λ (b, q). (b ≢ a) × (q ≢ p)) rest × Differ rest

pub record IsSupply (free : List (Ptr × Ptr)) : Type 0 where
  pub valid : All (λ (a, p). a ≢ null) free
  pub differ : Differ free
