-- ===== src/Llist/Append.antt =====
-- `listCreate` and `listAppend`.
use midas_util.Base.{
  ℕ, zero, suc, ◌<◌, ◌≤◌, ◌≡◌, ◌≢◌, refl, ◌∙◌, true, false, ◌||◌, some, [], ◌∷◌, ◌++◌, ok, length,
  arith, ◌==◌,
}
use midas_util.Llist.{
  Ptr, null, Node, node, Heap, write, assign, last_node, list_create, list_append,
}
use midas_util.Llist.Chain.{Cells, at_cell, Holds, Chain, end, link, is_null, load_lem}

module _ {A : Type 0} where
  -- the last node behind one at `p` with value `v`
  abbrev tail_at : Ptr → Cells A → Ptr
  tail_at p [] = p
  tail_at p ((q, _) ∷ xs) = tail_at q xs

  abbrev tail_val : A → Cells A → A
  tail_val v [] = v
  tail_val v ((_, w) ∷ xs) = tail_val w xs

  tail_at-cell : (p : Ptr) (v : A) (xs : Cells A) → at_cell (tail_at p xs) ((p, v) ∷ xs) ≡ true
  tail_at-cell p v [] = ground arith
  tail_at-cell p v ((q, w) ∷ xs) = let ih = tail_at-cell q w xs in ground arith

  pub at_cell-snoc :
      (a p : Ptr) (v : A) (xs : Cells A)
      → at_cell a (xs ++ (p, v) ∷ []) ≡ (at_cell a xs || (a == p))
  at_cell-snoc a p v [] = ground arith
  at_cell-snoc a p v ((q, w) ∷ xs) = ground (arith, at_cell-snoc a p v xs)

  last_node_lem :
      {h : Heap A} (k : ℕ) {p q : Ptr} {v : A} {xs : Cells A}
      → Holds h p q v
      → Chain h q xs
      → length xs < k
      → last_node k p h ≡ ok (tail_at p xs, h)
  unfolding last_node
  last_node_lem zero s c f = absurd (omega arith)
  last_node_lem (suc k) s end f = rw (load_lem s)
  last_node_lem (suc k) s (link t out c) f =
      rw (load_lem s, is_null t) (last_node_lem k t c (omega arith))

  -- what the heap holds at the tail
  tail_Holds :
      {h : Heap A} {p q : Ptr} {v : A} {xs : Cells A}
      → Holds h p q v
      → Chain h q xs
      → Holds h (tail_at p xs) null (tail_val v xs)
  tail_Holds s end = s
  tail_Holds {p} s (link {p = q} t out c) = tail_Holds {p = q} t c

  -- A heap with a new last node behind the tail, and the other nodes of the list unchanged.
  relink :
      {h g : Heap A} (new : Ptr) (what : A) {p q : Ptr} {v : A} {xs : Cells A}
      → Holds h p q v
      → at_cell p xs ≡ false
      → Chain h q xs
      → at_cell new ((p, v) ∷ xs) ≡ false
      → Holds g new null what
      → g (tail_at p xs) ≡ some (node new (tail_val v xs))
      → ((a : Ptr) → at_cell a ((p, v) ∷ xs) ≡ true → a ≢ tail_at p xs → g a ≡ h a)
      → Chain g p (((p, v) ∷ xs) ++ (new, what) ∷ [])
  relink new what {p} s out end fresh n t same =
      link (record { valid = s.valid; stored = t }) (ground arith) (link n refl end)
  relink new what {p} {v} s out (link {p = q} {v = w} {xs} s' out' c) fresh n t same =
      let inside = tail_at-cell q w xs in
      let ne : p ≢ tail_at q xs = (λ e. absurd (cc)) in
      link (record { valid = s.valid; stored = same p (ground arith) ne ∙ s.stored })
        (rw (at_cell-snoc p new what ((q, w) ∷ xs)) (ground arith))
        (relink new what {p = q} s' out' c (ground arith) n t (λ a i. same a (ground arith)))

  assign-ok :
      (p : Ptr) (n : Node A) (h : Heap A) → p ≢ null → assign p n h ≡ ok (tt, write h p (some n))
  unfolding assign
  assign-ok p n h ne = let b : (p == null) ≡ false = ground arith in rw b

  -- `listCreate` makes a list of one value, and changes no other address.
  pub list_create-Chain :
      (h : Heap A) (head : Ptr) (val : A)
      → head ≢ null
      → (g : Heap A) × (list_create head val h ≡ ok (head, g))
        × Chain g head ((head, val) ∷ [])
        × ((a : Ptr) → a ≢ head → g a ≡ h a)
  unfolding list_create assign write
  list_create-Chain h head val ne = (
    write h head (some (node null val)),
    ground arith,
    link (record { valid = ne; stored = ground arith }) refl end,
    λ a n. ground arith,
  )

  append_heap : Heap A → Ptr → A → Ptr → A → Heap A
  append_heap h tail v new what =
      write (write h new (some (node null what))) tail (some (node new v))

  list_append_lem :
      {h : Heap A} {p q : Ptr} {v : A} {xs : Cells A} (k : ℕ) (new : Ptr) (what : A)
      → Holds h p q v
      → Chain h q xs
      → at_cell new ((p, v) ∷ xs) ≡ false
      → new ≢ null
      → length xs < k
      → list_append k p new what h ≡ ok (tt, append_heap h (tail_at p xs) (tail_val v xs) new what)
  unfolding list_append append_heap
  list_append_lem {h} {p} {v} {xs} k new what s c fresh ne f =
      let inside = tail_at-cell p v xs in
      let apart : tail_at p xs ≢ new = (λ e. absurd (cc)) in
      let t = tail_Holds s c in
      let t' : Holds (write h new (some (node null what))) (tail_at p xs) null (tail_val v xs) =
        record {
          valid = t.valid;
          stored = (unfold write in (let st = t.stored in ground arith));
        } in
      rw (last_node_lem k s c f, assign-ok new (node null what) h ne, load_lem t')
        (assign-ok (tail_at p xs) (node new (tail_val v xs)) _ t.valid)

  -- On a list that is not empty, with a new node at an address that is neither NULL nor in the
  -- list, and fuel of at least the list's length, `listAppend` puts its value behind the last
  -- one, and changes no address but those of the list and of the new node.
  pub list_append-Chain :
      {h : Heap A} {head : Ptr} {xs : Cells A} (k : ℕ) (new : Ptr) (what : A)
      → Chain h head xs
      → xs ≢ []
      → at_cell new xs ≡ false
      → new ≢ null
      → length xs ≤ k
      → (g : Heap A) × (list_append k head new what h ≡ ok (tt, g))
        × Chain g head (xs ++ (new, what) ∷ [])
        × ((a : Ptr) → at_cell a xs ≡ false → a ≢ new → g a ≡ h a)
  list_append-Chain k new what end some_node fresh ne f = absurd (some_node refl)
  list_append-Chain {h} k new what (link {p} {q} {v} {xs} s out c) some_node fresh ne f =
      let inside = tail_at-cell p v xs in
      let apart : tail_at p xs ≢ new = (λ e. absurd (cc)) in
      (
        append_heap h (tail_at p xs) (tail_val v xs) new what,
        list_append_lem k new what s c fresh ne (omega arith),
        unfold append_heap write in
            relink new what s out c fresh (record { valid = ne; stored = ground arith })
              (ground arith) (λ a i n. ground arith),
        unfold append_heap write in
            λ a o n. (let away : a ≢ tail_at p xs = (λ e. absurd (cc)) in ground arith),
      )
