-- ===== src/Llist/Free.antt =====
-- `listFree`.
use midas_util.Base.{
  ℕ, zero, suc, ◌<◌, ◌≤◌, ◌≡◌, ◌≢◌, refl, false, none, [], ◌∷◌, ok, length, arith, if◌then◌else◌,
}
use midas_util.Llist.{Ptr, Heap, write, free_nodes, list_free}
use midas_util.Llist.Chain.{
  Cells, at_cell, Holds, Chain, end, link, is_null, load_lem, free_lem, Chain-write,
}

module _ {A : Type 0} where
  free_nodes_lem :
      {h : Heap A} (k : ℕ) {p q : Ptr} {v : A} {xs : Cells A}
      → Holds h p q v
      → at_cell p xs ≡ false
      → Chain h q xs
      → length xs < k
      → (g : Heap A) × (free_nodes k p q h ≡ ok (tt, g))
        × ((a : Ptr) → g a ≡ (if at_cell a ((p, v) ∷ xs) then none else h a))
  unfolding free_nodes write
  free_nodes_lem zero s out c f = absurd (omega arith)
  free_nodes_lem {h} (suc k) {p} s out end f = (write h p none, free_lem s, λ a. ground arith)
  free_nodes_lem {h} (suc k) {p} s out (link {p = q} {q = r} {v = w} s' out' c) f =
      let t : Holds (write h p none) q r w = record {
        valid = s'.valid;
        stored = ((let e = s'.stored in ground arith));
      } in
      let c' = Chain-write p none c (ground arith) in
      let (g, e, gone) = free_nodes_lem {h = write h p none} k {p = q} t out' c' (omega arith) in
      (g, rw (is_null s', free_lem s, load_lem t) e, λ a. ground (arith, gone a))

  -- On a list that is not empty, with fuel of at least its length, `listFree` does not fault, so
  -- it frees no node twice; it frees each node of the list, and nothing else.
  pub list_free-Without :
      {h : Heap A} {head : Ptr} {xs : Cells A} (k : ℕ)
      → Chain h head xs
      → xs ≢ []
      → length xs ≤ k
      → (g : Heap A) × (list_free k head h ≡ ok (tt, g))
        × ((a : Ptr) → g a ≡ (if at_cell a xs then none else h a))
  unfolding list_free
  list_free-Without k end some_node f = absurd (some_node refl)
  list_free-Without k (link {p} {q} s out c) some_node f =
      let (g, e, gone) = free_nodes_lem k s out c (omega arith) in (g, rw (load_lem s) e, gone)
