-- ===== src/Llist/Chain.antt =====
-- When a heap holds a list: the nodes from a pointer on, at different addresses, up to NULL.
use midas_util.Base.{
  ◌⊎◌, inl, inr, ◌≡◌, ◌≢◌, refl, Bool, true, false, ◌||◌, Option, none, some, List, [], ◌∷◌, ◌++◌,
  ok, ◌==◌, arith,
}
use midas_util.Llist.{Ptr, null, Node, node, Heap, write, load, free}

-- Address and value of each node.
abbrev pub Cells : Type 0 → Type 0
Cells A = List (Ptr × A)

module _ {A : Type 0} where
  abbrev pub at_cell : Ptr → Cells A → Bool
  at_cell a [] = false
  at_cell a ((p, _) ∷ xs) = (a == p) || at_cell a xs

  abbrev pub values : Cells A → List A
  values [] = []
  values ((_, v) ∷ xs) = v ∷ values xs

  -- `p` is the address of a node with this successor and value.
  pub record Holds (h : Heap A) (p q : Ptr) (v : A) : Type 0 where
    pub valid : p ≢ null
    pub stored : h p ≡ some (node q v)

  pub data Chain (h : Heap A) : Ptr → Cells A → Type 0 where
    end : Chain h null []
    link :
        {p q : Ptr} {v : A} {xs : Cells A}
        → Holds h p q v
        → at_cell p xs ≡ false
        → Chain h q xs
        → Chain h p ((p, v) ∷ xs)

  module _ {h : Heap A} {p q : Ptr} {v : A} (s : Holds h p q v) where
    pub is_null : (p == null) ≡ false
    is_null = let ne = s.valid in ground arith

    pub load_lem : load p h ≡ ok (node q v, h)
    unfolding load
    load_lem = rw (is_null, s.stored)

    pub free_lem : free p h ≡ ok (tt, write h p none)
    unfolding free
    free_lem = rw load_lem refl

  -- A list does not notice a change elsewhere.
  pub Chain-same :
      {h g : Heap A} {p : Ptr} {xs : Cells A}
      → Chain h p xs
      → ((a : Ptr) → at_cell a xs ≡ true → g a ≡ h a)
      → Chain g p xs
  Chain-same end same = end
  Chain-same (link {p} s out c) same =
      link (record { valid = s.valid; stored = (let e = same p (ground arith) in rw e s.stored) })
        out (Chain-same c λ a i. same a (ground arith))

  pub Chain-write :
      {h : Heap A} {p : Ptr} {xs : Cells A} (a : Ptr) (c : Option (Node A))
      → Chain h p xs
      → at_cell a xs ≡ false
      → Chain (write h a c) p xs
  unfolding write
  Chain-write a c s out = Chain-same s (ground arith)

  -- A list is empty if its pointer is NULL.
  pub Chain-cases :
      {h : Heap A} {p : Ptr} {xs : Cells A}
      → Chain h p xs
      → ((xs ≡ []) × ((p == null) ≡ true)) ⊎ ((xs ≢ []) × ((p == null) ≡ false))
  Chain-cases end = inl (refl, refl)
  Chain-cases (link s out c) = inr ((λ e. absurd (cc)), is_null s)

-- Does a node point there?
abbrev pub at_object : Ptr → Cells Ptr → Bool
at_object a [] = false
at_object a ((_, p) ∷ cs) = (a == p) || at_object a cs

pub at_object-snoc :
    (a : Ptr) (cs : Cells Ptr) (q p : Ptr)
    → at_object a (cs ++ (q, p) ∷ []) ≡ (at_object a cs || (a == p))
at_object-snoc a [] q p = ground arith
at_object-snoc a ((q', p') ∷ cs) q p = ground (arith, at_object-snoc a cs q p)
