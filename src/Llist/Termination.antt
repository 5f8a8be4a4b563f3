-- ===== src/Llist/Termination.antt =====
-- When the loop of boot/ over a list of boot/llist.c ends.
use midas_util.Base.{
  ℕ, zero, suc, ◌≤◌, ◌≡◌, ◌≢◌, ◌↔◌, refl, sym, ap, ◌∙◌, Bool-cases, Option-cases, inl, inr, true,
  false, none, List, [], ◌∷◌, Run, ok, fault, length, arith, ◌==◌,
}
use mathlib.Core.Option.{some-injective}
use midas_util.Llist.{Ptr, null, Node, Heap, and_then, pure, visit_boot, list_get, load}
use midas_util.Llist.Chain.{Cells, at_cell, values, Holds, Chain, end, link}
use midas_util.Llist.Visit.{visit_boot-values, list_get_lem, list_next_boot_lem}

module _ {A : Type 0} where
  -- what a round of the loop returns, with the rest's result
  round-eq-ok :
      {v : A} (rest : Run (List A × Heap A)) {vs : List A} {g : Heap A}
      → and_then rest (λ ws. pure (v ∷ ws)) ≡ ok (vs, g)
      → (ws : List A) × (rest ≡ ok (ws, g)) × (v ∷ ws ≡ vs)
  round-eq-ok fault e = absurd (cc)
  round-eq-ok (ok (ws, g')) e = (ws, cc, cc)

  list_get_empty : (h : Heap A) (n : Ptr) → (n == null) ≡ false → h n ≡ none → list_get n h ≡ fault
  unfolding list_get load
  list_get_empty h n t e = rw (t, e)

module _ {A : Type 0} {h : Heap A} where
  same_node : {p q q' : Ptr} {v v' : A} → Holds h p q v → Holds h p q' v' → q ≡ q'
  same_node s t = ap (λ (n : Node A). n.next) (some-injective _ _ (sym s.stored ∙ t.stored))

  -- All chains from an address have the same length.
  length_unique :
      {p p' : Ptr} {xs ys : Cells A} → Chain h p xs → Chain h p' ys → p ≡ p' → length xs ≡ length ys
  length_unique end end e = refl
  length_unique end (link t out d) e = absurd (t.valid (sym e))
  length_unique (link s out c) end e = absurd (s.valid e)
  length_unique (link {p} {q} {v} s out c) (link {p = p'} {q = q'} {v = v'} t out' d) e =
      let s' : Holds h p' q v = rw e at s in ap suc (length_unique c d (same_node s' t))

  -- An address of a chain starts a chain that is not longer.
  suffix :
      {q : Ptr} {xs : Cells A} (p : Ptr)
      → Chain h q xs
      → at_cell p xs ≡ true
      → (ys : Cells A) × Chain h p ys × (length ys ≤ length xs)
  suffix p end i = absurd (cc)
  suffix p (link {p = q} {v} {xs} s out c) i = elim (Bool-cases (p == q)) [
    | inl t ↦ (let e : p ≡ q = ground arith in ((q, v) ∷ xs, rw e (link s out c), omega arith))
    | inr t ↦ (let (ys, d, l) = suffix p c (ground arith) in (ys, d, omega arith))
  ]

  -- A chain behind a node does not come back to the node.
  no_return :
      {p q : Ptr} {v : A} {xs : Cells A} → Holds h p q v → Chain h q xs → at_cell p xs ≡ false
  no_return {p} {q} {v} {xs} s c = elim (Bool-cases (at_cell p xs)) [
    | inl t ↦ (let (ys, d, l) = suffix p c t in absurd (longer d refl l))
    | inr t ↦ t
  ]
    where
      longer : {p' : Ptr} {ys : Cells A} → Chain h p' ys → p ≡ p' → length ys ≤ length xs → ⊥
      longer end e l = s.valid e
      longer {p'} (link t out d) e l =
          let s' : Holds h p' q v = rw e at s in
          let same = length_unique c d (same_node s' t) in absurd (omega arith)

  ended-Chain :
      (k : ℕ) (head n : Ptr) {vs : List A} {g : Heap A}
      → visit_boot k head n h ≡ ok (vs, g)
      → (xs : Cells A) × Chain h n xs × (values xs ≡ vs) × (g ≡ h)
  unfolding visit_boot
  ended-Chain zero head n e = absurd (cc)
  ended-Chain (suc k) head n e = elim (Bool-cases (n == null)) [
    | inl t ↦
        (let at_end : n ≡ null = ground arith in let e' = rw t at e in ([], rw at_end end, cc, cc))
    | inr t ↦ elim (Option-cases (h n)) [
      | inl empty ↦ absurd (cc (rw (t, list_get_empty h n t empty) at e))
      | inr (m, there) ↦
          (let valid : n ≢ null = ground arith in
            let s : Holds h n m.next m.val = record { valid = valid; stored = there } in
            let (ws, e', front) =
              round-eq-ok (visit_boot k head m.next h)
                (rw (t, list_get_lem s, list_next_boot_lem head s) at e) in
            let (xs, c, same, kept) = ended-Chain k head m.next e' in
            (
              (n, m.val) ∷ xs,
              link s (no_return s c) c,
              ap (λ (l : List A). m.val ∷ l) same ∙ front,
              kept,
            ))
    ]
  ]

-- The loop of boot/ over a list, started at any pointer, ends after some number of rounds, without
-- a fault and with the values `vs`, if and only if the pointers from there on are a chain of finitely
-- many nodes, at different addresses, up to NULL, that holds `vs`; and then it changes nothing.
pub visit_boot_terminates :
    {A : Type 0} (head n : Ptr) (h g : Heap A) (vs : List A)
    → ((k : ℕ) × (visit_boot k head n h ≡ ok (vs, g)))
      ↔ ((xs : Cells A) × Chain h n xs × (values xs ≡ vs) × (g ≡ h))
visit_boot_terminates head n h g vs = (
  (λ (k, e). ended-Chain k head n e),
  (λ (xs, c, same, kept). (
    suc (length xs),
    visit_boot-values (suc (length xs)) head c (omega arith) ∙ ap ok (rw (same, kept)),
  )),
)
