-- ===== src/Audio/Pointers/Owned.antt =====
-- Lists of audio/xml.c that share a heap: each node belongs to one list.
use midas_util.Base.{
  ℕ, suc, ◌+◌, ◌*◌, ◌≤◌, ◌≡◌, ◌≢◌, refl, sym, ◌∙◌, Bool, true, false, Option, none, some, [], ◌∷◌,
  ◌++◌, ok, length, length-append, if◌then◌else◌, ◌==◌, arith, Bool-cases, inl, inr,
}
use midas_util.Llist.{Ptr, null, Heap, list_create, list_append}
use midas_util.Llist.Append.{at_cell-snoc, list_create-Chain, list_append-Chain}
use midas_util.Llist.Chain.{Cells, at_cell, Chain, Chain-same, Chain-cases, end, link}
use midas_util.Audio.{Widget}

-- The list that a node belongs to, as a number: of the settings, of the default widgets, or a list
-- of the setting at an address.
abbrev pub settings_tag : ℕ
settings_tag = 0

abbrev pub default_tag : ℕ
default_tag = 1

unfoldable pub field_tag : Ptr → Bool → ℕ
field_tag p en = if en then 2 * p + 2 else 2 * p + 3

pub field_tag-injective :
    (p q : Ptr) (en en' : Bool) → field_tag p en ≡ field_tag q en' → (p ≡ q) × (en ≡ en')
unfolding field_tag
field_tag-injective p q true true e = (omega arith, refl)
field_tag-injective p q true false e = absurd (omega arith)
field_tag-injective p q false true e = absurd (omega arith)
field_tag-injective p q false false e = (omega arith, refl)

-- The nodes, the list that each belongs to, the widgets, and a bound on the lists' lengths.
pub record Heaps : Type 0 where
  pub nodes : Heap Ptr
  pub owner : Ptr → ℕ
  pub widget_at : Ptr → Option Widget
  pub bound : ℕ

pub record Owned (u : Heaps) (t : ℕ) (head : Ptr) (cells : Cells Ptr) : Type 0 where
  pub chain : Chain u.nodes head cells
  pub owned : (a : Ptr) → at_cell a cells ≡ true → u.owner a ≡ t
  pub within : length cells ≤ u.bound

-- What a step may change: nodes of one list, and addresses that were free.
pub record Changed (t : ℕ) (new_node : Ptr) (u v : Heaps) : Type 0 where
  pub nodes_kept : (a : Ptr) → u.nodes a ≢ none → u.owner a ≢ t → v.nodes a ≡ u.nodes a
  pub owner_kept : (a : Ptr) → u.nodes a ≢ none → v.owner a ≡ u.owner a
  pub widgets_kept : (p : Ptr) (w : Widget) → u.widget_at p ≡ some w → v.widget_at p ≡ some w
  pub free_kept : (a : Ptr) → a ≢ new_node → u.nodes a ≡ none → v.nodes a ≡ none
  pub bound_kept : u.bound ≤ v.bound

in-Chain :
    {nodes : Heap Ptr} {p : Ptr} {cells : Cells Ptr} (a : Ptr)
    → Chain nodes p cells
    → at_cell a cells ≡ true
    → nodes a ≢ none
in-Chain a end i e = absurd (cc)
in-Chain {nodes} a (link {p} s out c) i e = elim (Bool-cases (a == p)) [
  | inl t ↦ (let same : a ≡ p = ground arith in let st = s.stored in absurd (cc))
  | inr t ↦ in-Chain a c (ground arith) e
]

-- A list that the step does not change.
pub Owned-Changed :
    {t t' : ℕ} {new_node : Ptr} {u v : Heaps} {head : Ptr} {cells : Cells Ptr}
    → Changed t new_node u v
    → t' ≢ t
    → Owned u t' head cells
    → Owned v t' head cells
Owned-Changed {t} {t'} ch ne o = record {
  chain =
      Chain-same o.chain
        (λ a i. ch.nodes_kept a (in-Chain a o.chain i) (λ e. ne (sym (o.owned a i) ∙ e)));
  owned = λ a i. ch.owner_kept a (in-Chain a o.chain i) ∙ o.owned a i;
  within = (let b = ch.bound_kept in let l = o.within in omega arith);
}

-- The heaps once a list has a new node.
abbrev pub grown : Heaps → Heap Ptr → ℕ → Ptr → (Ptr → Option Widget) → Heaps
grown u g t new widgets = record {
  nodes = g;
  owner = λ a. if a == new then t else u.owner a;
  widget_at = widgets;
  bound = suc u.bound;
}

-- What `listCreate` or `listAppend` returns for a list that starts at `head`.
pub data Appended (k : ℕ) (new what head : Ptr) (h g : Heap Ptr) : Ptr → Type 0 where
  first :
      (head == null) ≡ true
      → list_create new what h ≡ ok (new, g)
      → Appended k new what head h g new
  last :
      (head == null) ≡ false
      → list_append k head new what h ≡ ok (tt, g)
      → Appended k new what head h g head

module _ (u : Heaps) (k : ℕ) (t : ℕ) (new what : Ptr) (widgets : Ptr → Option Widget)
    (valid : new ≢ null) (unused : u.nodes new ≡ none)
    (more : (p : Ptr) (w : Widget) → u.widget_at p ≡ some w → widgets p ≡ some w) where
  grown-Changed :
      (g : Heap Ptr)
      → ((a : Ptr) → u.owner a ≢ t → a ≢ new → g a ≡ u.nodes a)
      → ((a : Ptr) → a ≢ new → u.nodes a ≡ none → g a ≡ none)
      → Changed t new u (grown u g t new widgets)
  grown-Changed g same free = record {
    nodes_kept = λ a st n. same a n (λ e. st (rw e unused));
    owner_kept = λ a st. (let apart : a ≢ new = (λ e. st (rw e unused)) in ground arith);
    widgets_kept = more;
    free_kept = free;
    bound_kept = omega arith;
  }

  not_in :
      {head : Ptr} {cells : Cells Ptr} (a : Ptr)
      → Chain u.nodes head cells
      → u.nodes a ≡ none
      → at_cell a cells ≡ false
  not_in {cells = cells} a c e = elim (Bool-cases (at_cell a cells)) [
    | inl i ↦ absurd (in-Chain a c i e)
    | inr i ↦ i
  ]

  not-Owned :
      {head : Ptr} {cells : Cells Ptr} (a : Ptr)
      → Owned u t head cells
      → u.owner a ≢ t
      → at_cell a cells ≡ false
  not-Owned {cells = cells} a o n = elim (Bool-cases (at_cell a cells)) [
    | inl i ↦ absurd (n (o.owned a i))
    | inr i ↦ i
  ]

  grown-Owned :
      (g : Heap Ptr) {head head' : Ptr} {cells : Cells Ptr}
      → Owned u t head cells
      → Chain g head' (cells ++ (new, what) ∷ [])
      → Owned (grown u g t new widgets) t head' (cells ++ (new, what) ∷ [])
  grown-Owned g {cells = cells} o c = record {
    chain = c;
    owned = λ a i.
        (let snoc = at_cell-snoc a new what cells in
          elim (Bool-cases (at_cell a cells)) [
            | inl j ↦ (let e = o.owned a j in ground arith)
            | inr j ↦ ground arith
          ]);
    within = (let l = o.within in omega (arith, length-append {0} cells ((new, what) ∷ [])));
  }

  pub append-Owned :
      {head : Ptr} {cells : Cells Ptr}
      → Owned u t head cells
      → u.bound ≤ k
      → (g : Heap Ptr) × (head' : Ptr) × Appended k new what head u.nodes g head'
        × Owned (grown u g t new widgets) t head' (cells ++ (new, what) ∷ [])
        × Changed t new u (grown u g t new widgets)
  append-Owned {head} {cells} o b = elim (Chain-cases o.chain) [
    | inl (e, n) ↦
        (let (g, q, c, same) = list_create-Chain u.nodes new what valid in
          (
            g,
            new,
            first n q,
            grown-Owned g o (rw e c),
            grown-Changed g (λ a ne apart. same a apart) (λ a apart em. same a apart ∙ em),
          ))
    | inr (e, n) ↦
        (let l = o.within in
          let (g, q, c, same) =
            list_append-Chain k new what o.chain e (not_in new o.chain unused) valid
              (omega arith) in
          (
            g,
            head,
            last n q,
            grown-Owned g o c,
            grown-Changed g (λ a ne apart. same a (not-Owned a o ne) apart)
                (λ a apart em. same a (not_in a o.chain em) apart ∙ em),
          ))
  ]
