-- ===== src/Ufdt/Values.antt =====
-- What a device tree says, and what the setters of boot/ufdt.c change of it.
use midas_util.Base.{
  ℕ, zero, suc, ◌+◌, ◌/◌, ◌%◌, ◌^◌, ◌≡◌, refl, ap, sym, ◌∙◌, ◌&&◌, Option, none, some, [], ◌∷◌,
  take, Bytes, ltb, if◌then◌else◌, Bool-cases, Option-cases, inl, inr,
}
use midas_util.Base.Ints.{ℤ, pos, negsuc, eqb}
use midas_util.CString.{str_eq}
use midas_util.Ufdt.{
  Libfdt, success, setup_with, set_in_node, grow_and_set, finish_setup, size_with, setup_dtb_prop,
  setup_dtb_prop_int, not_found, fdt_node_len,
}

-- The value of a property of a node below the root, if it is there.
abbrev pub Values : Type 0
Values = Bytes → Bytes → Option Bytes

-- The values, once a property was set.
unfoldable pub put_value : Bytes → Bytes → Bytes → Values → Values
put_value node prop val v node' prop' =
    if str_eq node' node && str_eq prop' prop then some val else v node' prop'

-- A cell, as `fdt_setprop_cell` stores it: four bytes, the highest first.
unfoldable pub be32 : ℕ → Bytes
be32 n = n / 2 ^ 24 % 256 ∷ n / 2 ^ 16 % 256 ∷ n / 2 ^ 8 % 256 ∷ n % 256 ∷ []

-- What libfdt.h documents of the values, where `says` reads them off a tree: a new node has an offset
-- at which it is found; setting a property in the node found at an offset, if it succeeds, sets that
-- property to the first `len` bytes of the value; `fdt_setprop_cell` sets the four bytes of a number;
-- and nothing else changes a value or a node's place.
pub record ValueLaws (fdt : Libfdt) (says : fdt.Blob → Values) : Type 0 where
  pub says-set_totalsize : (b : fdt.Blob) (n : ℕ) → says (fdt.set_totalsize b n) ≡ says b
  pub says-realloc : (b b' : fdt.Blob) (n : ℕ) → fdt.realloc b n ≡ some b' → says b' ≡ says b
  pub says-add_subnode :
      (b : fdt.Blob) (node : Bytes) (off : ℕ)
      → (fdt.add_subnode b node).0 ≡ pos off
      → says (fdt.add_subnode b node).1 ≡ says b
  pub subnode_offset-set_totalsize :
      (b : fdt.Blob) (n : ℕ) (node : Bytes)
      → fdt.subnode_offset (fdt.set_totalsize b n) node ≡ fdt.subnode_offset b node
  pub subnode_offset-realloc :
      (b b' : fdt.Blob) (n : ℕ) (node : Bytes)
      → fdt.realloc b n ≡ some b'
      → fdt.subnode_offset b' node ≡ fdt.subnode_offset b node
  pub subnode_offset-add_subnode :
      (b : fdt.Blob) (node : Bytes) (off : ℕ)
      → (fdt.add_subnode b node).0 ≡ pos off
      → fdt.subnode_offset (fdt.add_subnode b node).1 node ≡ pos off
  pub says-setprop :
      (b : fdt.Blob) (node : Bytes) (off : ℕ) (prop val : Bytes) (len : ℕ)
      → fdt.subnode_offset b node ≡ pos off
      → (fdt.setprop b (pos off) prop val len).0 ≡ pos 0
      → says (fdt.setprop b (pos off) prop val len).1 ≡ put_value node prop (take len val) (says b)
  pub setprop_cell-setprop :
      (b : fdt.Blob) (off : ℤ) (prop : Bytes) (val : ℕ)
      → fdt.setprop_cell b off prop val ≡ fdt.setprop b off prop (be32 val) 4

-- If `fdt_setprop_cell` is `fdt_setprop` of four bytes, then `setup_dtb_prop_int` is `setup_dtb_prop`
-- of four bytes.
pub setup_dtb_prop_int-setup_dtb_prop :
    (fdt : Libfdt)
    → ((b : fdt.Blob) (off : ℤ) (prop : Bytes) (val : ℕ)
        → fdt.setprop_cell b off prop val ≡ fdt.setprop b off prop (be32 val) 4)
    → (dtb : fdt.Blob) (size : ℕ) (node prop : Bytes) (val : ℕ)
    → setup_dtb_prop_int fdt dtb size node prop val
      ≡ setup_dtb_prop fdt dtb size node prop (be32 val) 4
unfolding setup_dtb_prop_int setup_dtb_prop
setup_dtb_prop_int-setup_dtb_prop fdt same dtb size node prop val =
    λ i. setup_with fdt (λ off buf. same buf off prop val i) dtb size node prop 4

module _ (fdt : Libfdt) (says : fdt.Blob → Values) (laws : ValueLaws fdt says) where
  open fdt use {Blob, totalsize, set_totalsize, realloc, add_subnode, subnode_offset}

  finish_setup-success :
      (kept : Option Blob) (sz : ℕ) (r : ℤ × Blob) {b : Blob} {n : ℕ}
      → finish_setup fdt kept sz r ≡ success b n
      → (r.0 ≡ pos 0) × (r.1 ≡ b)
  unfolding finish_setup
  finish_setup-success kept sz (pos zero, buf) e = (refl, cc)
  finish_setup-success kept sz (pos (suc k), buf) e = absurd (cc)
  finish_setup-success kept sz (negsuc k, buf) e = absurd (cc)

  module _ (set : ℤ → Blob → ℤ × Blob) (node prop val : Bytes)
      (sets : (off : ℕ) (b : Blob)
        → subnode_offset b node ≡ pos off
        → (set (pos off) b).0 ≡ pos 0
        → says (set (pos off) b).1 ≡ put_value node prop val (says b)) where
    grow_and_set-says :
        (off : ℕ) (kept : Option Blob) (buf : Blob) (sz : ℕ) {b : Blob} {n : ℕ}
        → subnode_offset buf node ≡ pos off
        → grow_and_set fdt (set (pos off)) kept buf sz ≡ success b n
        → says b ≡ put_value node prop val (says buf)
    unfolding grow_and_set
    grow_and_set-says off kept buf sz at e = elim (Bool-cases (ltb (totalsize buf) sz)) [
      | inl t ↦ elim (Option-cases (realloc (set_totalsize buf sz) sz)) [
        | inl none_left ↦ absurd (cc (rw (t, none_left) at e))
        | inr (buf', r) ↦
            (let (zero_code, same) =
                finish_setup-success none sz (set (pos off) buf') (rw (t, r) at e) in
              let moved = laws.subnode_offset-realloc (set_totalsize buf sz) buf' sz node r in
              let told = laws.subnode_offset-set_totalsize buf sz node in
              let kept_values =
                laws.says-realloc (set_totalsize buf sz) buf' sz r
                ∙ laws.says-set_totalsize buf sz in
              ap says (sym same)
              ∙ sets off buf' (moved ∙ told ∙ at) zero_code
              ∙ ap (put_value node prop val) kept_values)
      ]
      | inr t ↦
          (let (zero_code, same) = finish_setup-success kept sz (set (pos off) buf) (rw t at e) in
            ap says (sym same) ∙ sets off buf at zero_code)
    ]

    set_in_node-says :
        (len : ℕ) (kept : Option Blob) (off : ℤ) (buf : Blob) (sz : ℕ) {b : Blob} {n : ℕ}
        → subnode_offset buf node ≡ off
        → set_in_node fdt set prop len kept (off, buf) sz ≡ success b n
        → says b ≡ put_value node prop val (says buf)
    unfolding set_in_node
    set_in_node-says len kept (negsuc k) buf sz at e = absurd (cc)
    set_in_node-says len kept (pos off) buf sz at e =
        elim (Option-cases (size_with fdt prop len sz (fdt.get_property buf (pos off) prop))) [
          | inl q ↦ absurd (cc (rw q at e))
          | inr (sz', q) ↦ grow_and_set-says off kept buf sz' at (rw q at e)
        ]

    added-says :
        (len : ℕ) (buf : Blob) (sz : ℕ) {b : Blob} {n : ℕ} (off : ℤ)
        → (add_subnode buf node).0 ≡ off
        → set_in_node fdt set prop len none (off, (add_subnode buf node).1) sz ≡ success b n
        → says b ≡ put_value node prop val (says buf)
    added-says len buf sz (negsuc k) a e = absurd (unfold set_in_node in cc)
    added-says len buf sz (pos off) a e =
        set_in_node-says len none (pos off) (add_subnode buf node).1 sz
          (laws.subnode_offset-add_subnode buf node off a) e
        ∙ ap (put_value node prop val) (laws.says-add_subnode buf node off a)

    setup_with-says :
        (dtb : Blob) (size : ℕ) (len : ℕ) {b : Blob} {n : ℕ}
        → setup_with fdt set dtb size node prop len ≡ success b n
        → says b ≡ put_value node prop val (says dtb)
    unfolding setup_with
    setup_with-says dtb size len e = elim (Bool-cases (eqb (subnode_offset dtb node) not_found)) [
      | inl t ↦
          (let sz = (size + fdt_node_len node) % 2 ^ 32 in
            elim (Option-cases (realloc (set_totalsize dtb sz) sz)) [
              | inl q ↦ absurd (cc (rw (t, q) at e))
              | inr (buf, q) ↦
                  added-says len buf sz (add_subnode buf node).0 refl (rw (t, q) at e)
                  ∙ ap (put_value node prop val) (
                      laws.says-realloc (set_totalsize dtb sz) buf sz q
                      ∙ laws.says-set_totalsize dtb sz)
            ])
      | inr t ↦ set_in_node-says len (some dtb) (subnode_offset dtb node) dtb size refl (rw t at e)
    ]

  -- If libfdt treats the values of properties as it is documented to, and `setup_dtb_prop` succeeds,
  -- then the tree that it stores has the value's first `len` bytes in the node's property, and all other
  -- values are those of the old tree.
  pub setup_dtb_prop-says :
      (dtb : Blob) (size : ℕ) (node prop val : Bytes) (len : ℕ) {b : Blob} {n : ℕ}
      → setup_dtb_prop fdt dtb size node prop val len ≡ success b n
      → says b ≡ put_value node prop (take len val) (says dtb)
  unfolding setup_dtb_prop
  setup_dtb_prop-says dtb size node prop val len =
      setup_with-says (λ off buf. fdt.setprop buf off prop val len) node prop (take len val)
        (λ off buf at. laws.says-setprop buf node off prop val len at) dtb size len

  -- The same of `setup_dtb_prop_int`, with the number in four bytes, the highest first.
  pub setup_dtb_prop_int-says :
      (dtb : Blob) (size : ℕ) (node prop : Bytes) (val : ℕ) {b : Blob} {n : ℕ}
      → setup_dtb_prop_int fdt dtb size node prop val ≡ success b n
      → says b ≡ put_value node prop (be32 val) (says dtb)
  unfolding be32
  setup_dtb_prop_int-says dtb size node prop val e =
      setup_dtb_prop-says dtb size node prop (be32 val) 4 (
        sym (setup_dtb_prop_int-setup_dtb_prop fdt laws.setprop_cell-setprop dtb size node prop val)
        ∙ e)
