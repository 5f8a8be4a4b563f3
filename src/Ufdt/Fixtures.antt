-- ===== src/Ufdt/Fixtures.antt =====
-- A device tree for tests: its size, the nodes below its root, and the values of their properties.
use midas_util.Base.{
  ◌∙◌, Option-cases, take, leb, ◌&&◌, ◌-◌, ◌≤◌, ℕ, ◌+◌, ◌<◌, ◌≡◌, refl, ap, Bool, true, false,
  Option, none, some, List, [], ◌∷◌, Bytes, length, if◌then◌else◌, ◌==◌, arith, Bool-cases, inl,
  inr, ◌⊎◌,
}
use midas_util.Base.Ints.{ℤ, pos, negsuc}
use midas_util.CString.{str_eq}
use midas_util.CString.Compare.{str_eq_refl, eq_of_str_eq}
use midas_util.Ufdt.{Libfdt, not_found}
use midas_util.Ufdt.Space.{padded, node_space, prop_space, SpaceLaws}
use midas_util.Ufdt.Values.{Values, put_value, be32, ValueLaws}

pub record Tree : Type 0 where
  pub size : ℕ
  pub used : ℕ
  pub nodes : List Bytes
  pub values : Values

-- A node's offset is the number of nodes that are older.
abbrev offset_in : List Bytes → Bytes → ℤ
offset_in [] name = not_found
offset_in (n ∷ ns) name = if str_eq n name then pos (length ns) else offset_in ns name

abbrev name_at : List Bytes → ℕ → Option Bytes
name_at [] off = none
name_at (n ∷ ns) off = if off == length ns then some n else name_at ns off

abbrev value_at : Values → Option Bytes → Bytes → Option Bytes
value_at v none prop = none
value_at v (some node) prop = v node prop

abbrev found : Option Bytes → Bool × ℤ
found none = (false, not_found)
found (some val) = (true, pos (length val))

-- the space of a value that was there, and that of a new one
abbrev old_space : Option Bytes → ℕ
old_space none = 0
old_space (some old) = padded (length old)

abbrev new_space : Option Bytes → Bytes → ℕ → ℕ
new_space none prop len = prop_space prop len
new_space (some old) prop len = padded len

-- FDT_ERR_BADOFFSET, FDT_ERR_NOSPACE and FDT_ERR_EXISTS
abbrev bad_offset : ℤ
bad_offset = negsuc 3

abbrev no_space : ℤ
no_space = negsuc 2

abbrev exists_already : ℤ
exists_already = negsuc 1

-- the tree with a value, and with so many bytes in use
abbrev put : Tree → Bytes → Bytes → Bytes → ℕ → ℕ → Tree
put t node prop val len n = record t {
  used = n;
  values = put_value node prop (take len val) t.values;
}

abbrev store : Tree → Option Bytes → Bytes → Bytes → ℕ → ℤ × Tree
store t none prop val len = (bad_offset, t)
store t (some node) prop val len =
    let old = t.values node prop in
    if leb (t.used + new_space old prop len) (t.size + old_space old)
    then (pos 0, put t node prop val len (t.used + new_space old prop len - old_space old))
    else (no_space, t)

abbrev store_at : Tree → ℤ → Bytes → Bytes → ℕ → ℤ × Tree
store_at t (pos off) prop val len = store t (name_at t.nodes off) prop val len
store_at t (negsuc n) prop val len = (bad_offset, t)

abbrev add_at : Tree → Bytes → ℤ → ℤ × Tree
add_at t node (pos off) = (exists_already, t)
add_at t node (negsuc n) =
    if leb (t.used + node_space node) t.size
    then (
      pos (length t.nodes),
      record t { used = t.used + node_space node; nodes = node ∷ t.nodes },
    )
    else (no_space, t)

-- the memory of this machine
abbrev pub limit : ℕ
limit = 0x100000

abbrev lookup_at : Tree → ℤ → Bytes → Bool × ℤ
lookup_at t (pos off) prop = found (value_at t.values (name_at t.nodes off) prop)
lookup_at t (negsuc n) prop = (false, not_found)

abbrev pub fresh_tree : ℕ → Tree
fresh_tree n = record { size = n; used = n; nodes = []; values = λ node prop. none }

abbrev pub trees : Libfdt
trees = record {
  Blob = Tree;
  install_blob = λ buf n. some (fresh_tree n);
  apply_overlay = λ hdr n buf sz. some (fresh_tree (n + sz));
  totalsize = λ t. t.size;
  set_totalsize = λ t n. record t { size = n };
  realloc = λ t n. if leb t.size n && leb n limit then some t else none;
  subnode_offset = λ t node. offset_in t.nodes node;
  add_subnode = λ t node. add_at t node (offset_in t.nodes node);
  get_property = lookup_at;
  setprop = store_at;
  setprop_cell = λ t off prop val. store_at t off prop (be32 val) 4;
}

offset_in_found :
    (ns : List Bytes) (name : Bytes)
    → (offset_in ns name ≡ not_found) ⊎ ((off : ℕ) × (offset_in ns name ≡ pos off))
offset_in_found [] name = inl refl
offset_in_found (n ∷ ns) name = elim (Bool-cases (str_eq n name)) [
  | inl e ↦ inr (length ns, rw e)
  | inr e ↦ rw e (offset_in_found ns name)
]

lookup_at_found :
    (o : Option Bytes) → (found o ≡ (false, not_found)) ⊎ ((n : ℕ) × (found o ≡ (true, pos n)))
lookup_at_found none = inl refl
lookup_at_found (some val) = inr (length val, refl)

offset_in-lt :
    (ns : List Bytes) (name : Bytes) (off : ℕ) → offset_in ns name ≡ pos off → off < length ns
offset_in-lt [] name off e = absurd (cc)
offset_in-lt (n ∷ ns) name off e = elim (Bool-cases (str_eq n name)) [
  | inl t ↦ (let same : length ns ≡ off = cc (rw t at e) in omega arith)
  | inr t ↦ (let lt = offset_in-lt ns name off (rw t at e) in omega arith)
]

name_at-offset_in :
    (ns : List Bytes) (name : Bytes) (off : ℕ)
    → offset_in ns name ≡ pos off
    → name_at ns off ≡ some name
name_at-offset_in [] name off e = absurd (cc)
name_at-offset_in (n ∷ ns) name off e = elim (Bool-cases (str_eq n name)) [
  | inl t ↦
      (let same : length ns ≡ off = cc (rw t at e) in
        let here : (off == length ns) ≡ true = ground arith in
        rw here (ap some (eq_of_str_eq n name t)))
  | inr t ↦
      (let lt = offset_in-lt ns name off (rw t at e) in
        let behind : (off == length ns) ≡ false = ground arith in
        rw behind (name_at-offset_in ns name off (rw t at e)))
]

realloc-same : (t t' : Tree) (n : ℕ) → trees.realloc t n ≡ some t' → t' ≡ t
realloc-same t t' n e = elim (Bool-cases (leb t.size n && leb n limit)) [
  | inl c ↦ cc (rw c at e)
  | inr c ↦ absurd (cc (rw c at e))
]

add_at-pos :
    (t : Tree) (node : Bytes) (at : ℤ) (off : ℕ)
    → (add_at t node at).0 ≡ pos off
    → (length t.nodes ≡ off)
      × ((add_at t node at).1
          ≡ record t { used = t.used + node_space node; nodes = node ∷ t.nodes })
add_at-pos t node (pos k) off e = absurd (cc)
add_at-pos t node (negsuc k) off e = elim (Bool-cases (leb (t.used + node_space node) t.size)) [
  | inl c ↦ (cc (rw c at e), rw c refl)
  | inr c ↦ absurd (cc (rw c at e))
]

offset_in-new : (ns : List Bytes) (node : Bytes) → offset_in (node ∷ ns) node ≡ pos (length ns)
offset_in-new ns node = rw (str_eq_refl node) refl

store-values :
    (t : Tree) (node prop val : Bytes) (len : ℕ)
    → (store t (some node) prop val len).0 ≡ pos 0
    → (store t (some node) prop val len).1.values ≡ put_value node prop (take len val) t.values
store-values t node prop val len e =
    elim (Bool-cases (
      leb (t.used + new_space (t.values node prop) prop len)
        (t.size + old_space (t.values node prop)))) [
          | inl c ↦ rw c refl
          | inr c ↦ absurd (cc (rw c at e))
        ]

pub trees-ValueLaws : ValueLaws trees (λ t. t.values)
trees-ValueLaws = record {
  says-set_totalsize = λ t n. refl;
  says-realloc = λ t t' n e. ap (λ (x : Tree). x.values) (realloc-same t t' n e);
  says-add_subnode = λ t node off e. ap (λ (x : Tree). x.values) (add_at-pos t node _ off e).1;
  subnode_offset-set_totalsize = λ t n node. refl;
  subnode_offset-realloc =
      λ t t' n node e. ap (λ (x : Tree). offset_in x.nodes node) (realloc-same t t' n e);
  subnode_offset-add_subnode = λ t node off e.
      (let (same, b) = add_at-pos t node _ off e in
        ap (λ (x : Tree). offset_in x.nodes node) b ∙ offset_in-new t.nodes node ∙ ap pos same);
  says-setprop = λ t node off prop val len at e.
      (let here = name_at-offset_in t.nodes node off at in
        rw here (store-values t node prop val len (rw here at e)));
  setprop_cell-setprop = λ t off prop val. refl;
}

store-new :
    (t : Tree) (node prop val : Bytes) (len : ℕ)
    → found (t.values node prop) ≡ (false, not_found)
    → t.used ≤ t.size
    → t.used + prop_space prop len ≤ t.size
    → (t' : Tree) × (store t (some node) prop val len ≡ (pos 0, t'))
      × (leb t'.used t'.size ≡ true)
      × (t'.used ≤ t.used + prop_space prop len)
      × (t'.size ≡ t.size)
store-new t node prop val len e u r = elim (Option-cases (t.values node prop)) [
  | inl q ↦
      (let c : leb (t.used + prop_space prop len) (t.size + 0) ≡ true = ground arith in
        let d : leb (t.used + prop_space prop len - 0) t.size ≡ true = ground arith in
        (
          put t node prop val len (t.used + prop_space prop len - 0),
          rw (q, c) refl,
          d,
          omega arith,
          refl,
        ))
  | inr (old, q) ↦ absurd (cc (rw q at e))
]

store-old :
    (t : Tree) (node prop val : Bytes) (len n : ℕ)
    → found (t.values node prop) ≡ (true, pos n)
    → t.used ≤ t.size
    → t.used + padded len ≤ t.size + padded n
    → (t' : Tree) × (store t (some node) prop val len ≡ (pos 0, t'))
      × (leb t'.used t'.size ≡ true)
      × (t'.used ≤ t.used + padded len - padded n)
      × (t'.size ≡ t.size)
store-old t node prop val len n e u r = elim (Option-cases (t.values node prop)) [
  | inl q ↦ absurd (cc (rw q at e))
  | inr (old, q) ↦
      (let same : length old ≡ n = cc (rw q at e) in
        let pads = ap padded same in
        let c : leb (t.used + padded len) (t.size + padded (length old)) ≡ true = ground arith in
        let d : leb (t.used + padded len - padded (length old)) t.size ≡ true = ground arith in
        (
          put t node prop val len (t.used + padded len - padded (length old)),
          rw (q, c) refl,
          d,
          omega arith,
          refl,
        ))
]

lookup_at-size :
    (t : Tree) (n : ℕ) (off : ℤ) (prop : Bytes)
    → lookup_at (record t { size = n }) off prop ≡ lookup_at t off prop
lookup_at-size t n (pos off) prop = refl
lookup_at-size t n (negsuc k) prop = refl

pub trees-SpaceLaws : SpaceLaws trees
trees-SpaceLaws = record {
  is_valid = λ t. leb t.used t.size;
  used = λ t. t.used;
  memory = limit;
  memory_bound = omega arith;
  set_totalsize_fits = λ t n v u w. (ground arith, refl, refl);
  realloc_fits = λ t n v s m.
      (let c : leb t.size n && leb n limit ≡ true = ground arith in
        (t, rw c refl, v, refl, refl, λ node. refl, λ off prop. refl));
  subnode_offset-set_totalsize = λ t n node. refl;
  get_property-set_totalsize = λ t n off prop. lookup_at-size t n off prop;
  subnode_offset_valid = λ t node v. offset_in_found t.nodes node;
  add_subnode_fits = λ t node v e r.
      (let c : leb (t.used + node_space node) t.size ≡ true = ground arith in
        (
          length t.nodes,
          record t { used = t.used + node_space node; nodes = node ∷ t.nodes },
          rw (e, c) refl,
          c,
          omega arith,
          refl,
          offset_in-new t.nodes node,
        ));
  get_property_valid = λ t node off prop v at. lookup_at_found _;
  setprop_new = λ t node off prop val len v at e le r.
      (let here = name_at-offset_in t.nodes node off at in
        rw here (store-new t node prop val len (rw here at e) (ground arith) r));
  setprop_old = λ t node off prop val len n v at e le r.
      (let here = name_at-offset_in t.nodes node off at in
        rw here (store-old t node prop val len n (rw here at e) (ground arith) r));
  setprop_cell-setprop = λ t off prop val. refl;
}

pub trees_valid : (t : Tree) → leb t.used t.size ≡ true → trees-SpaceLaws.is_valid t ≡ true
unfolding trees-SpaceLaws
trees_valid t h = h

pub trees_used : (t : Tree) → trees-SpaceLaws.used t ≡ t.used
unfolding trees-SpaceLaws
trees_used t = refl

pub trees_memory : trees-SpaceLaws.memory ≡ limit
unfolding trees-SpaceLaws
trees_memory = refl
