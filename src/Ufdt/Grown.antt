-- ===== src/Ufdt/Grown.antt =====
-- The setters of boot/ufdt.c make the room that libfdt needs.
use midas_util.Base.{
  ℕ, ◌+◌, ◌%◌, ◌^◌, ◌≤◌, ◌≡◌, ap, sym, ◌∙◌, true, false, none, some, Bytes, length, arith, inl, inr,
}
use mathlib.Core.Path.{subst}
use midas_util.Base.Ints.{ℤ, pos, eqb}
use midas_util.Ufdt.{
  Libfdt, SetupResult, success, not_found, set_in_node, setup_with, fdt_node_len, setup_dtb_prop,
  setup_dtb_prop_int,
}
use midas_util.Ufdt.Values.{be32, setup_dtb_prop_int-setup_dtb_prop}
use midas_util.Ufdt.Space.{node_space, prop_space, SpaceLaws, fdt_node_len-space}
use midas_util.Ufdt.Room.{IsGrown, in_node}

module _ (fdt : Libfdt) (laws : SpaceLaws fdt) where
  open fdt use {Blob, totalsize, set_totalsize, realloc, subnode_offset, get_property}
  open laws use {is_valid, used, memory}

  setup_with_added :
      (set : ℤ → Blob → ℤ × Blob) (dtb : Blob) (size : ℕ) (node prop : Bytes) (len : ℕ) {off : ℕ}
      {b b' : Blob} {r : SetupResult Blob}
      → subnode_offset dtb node ≡ not_found
      → realloc
          (set_totalsize dtb ((size + fdt_node_len node) % 2 ^ 32))
          ((size + fdt_node_len node) % 2 ^ 32)
        ≡ some b
      → fdt.add_subnode b node ≡ (pos off, b')
      → set_in_node fdt set prop len none (pos off, b') ((size + fdt_node_len node) % 2 ^ 32) ≡ r
      → setup_with fdt set dtb size node prop len ≡ r
  unfolding setup_with
  setup_with_added set dtb size node prop len e q a f =
      rw (e, q)
        (ap
            (λ (c : ℤ × Blob).
              set_in_node fdt set prop len none c ((size + fdt_node_len node) % 2 ^ 32))
            a
          ∙ f)

  node_added :
      (set : ℤ → Blob → ℤ × Blob) (dtb : Blob) (size : ℕ) (node prop : Bytes) (len : ℕ) {sz off : ℕ}
      {b b' : Blob} {r : SetupResult Blob}
      → subnode_offset dtb node ≡ not_found
      → (size + fdt_node_len node) % 2 ^ 32 ≡ sz
      → realloc (set_totalsize dtb sz) sz ≡ some b
      → fdt.add_subnode b node ≡ (pos off, b')
      → set_in_node fdt set prop len none (pos off, b') sz ≡ r
      → setup_with fdt set dtb size node prop len ≡ r
  node_added set dtb size node prop len {sz} {off} {b} {b'} {r} e w q a f =
      computed (subst (λ (k : ℕ). realloc (set_totalsize dtb k) k ≡ some b) (sym w) q)
        (subst (λ (k : ℕ). set_in_node fdt set prop len none (pos off, b') k ≡ r) (sym w) f)
    where
      computed :
          realloc
              (set_totalsize dtb ((size + fdt_node_len node) % 2 ^ 32))
              ((size + fdt_node_len node) % 2 ^ 32)
            ≡ some b
          → set_in_node fdt set prop len none (pos off, b') ((size + fdt_node_len node) % 2 ^ 32)
            ≡ r
          → setup_with fdt set dtb size node prop len ≡ r
      computed q f = setup_with_added set dtb size node prop len e q a f

  node_found :
      (set : ℤ → Blob → ℤ × Blob) (dtb : Blob) (size : ℕ) (node prop : Bytes) (len : ℕ) {off : ℕ}
      {r : SetupResult Blob}
      → subnode_offset dtb node ≡ pos off
      → set_in_node fdt set prop len (some dtb) (pos off, dtb) size ≡ r
      → setup_with fdt set dtb size node prop len ≡ r
  unfolding setup_with
  node_found set dtb size node prop len e f =
      let found : eqb (subnode_offset dtb node) not_found ≡ false = rw e in
      rw found (ap (λ (c : ℤ). set_in_node fdt set prop len (some dtb) (c, dtb) size) e ∙ f)

  pub setup_dtb_prop-IsGrown :
      (dtb : Blob) (size : ℕ) (node prop val : Bytes) (len : ℕ)
      → is_valid dtb ≡ true
      → used dtb ≤ size
      → size + (node_space node + prop_space prop len) ≤ memory
      → len ≤ length val
      → (t : Blob) × (n : ℕ) × (setup_dtb_prop fdt dtb size node prop val len ≡ success t n)
        × IsGrown fdt laws size (node_space node + prop_space prop len) t n
  unfolding setup_dtb_prop
  setup_dtb_prop-IsGrown dtb size node prop val len v u m readable =
      let mb = laws.memory_bound in
      let l = fdt_node_len-space node (omega arith) in
      let sz = size + node_space node in
      let w : (size + node_space node) % 2 ^ 32 ≡ sz = omega arith in
      elim (laws.subnode_offset_valid dtb node v) [
        | inl e ↦
            (let (v1, u1, s1) = laws.set_totalsize_fits dtb sz v (omega arith) (omega arith) in
              let (b2, q, v2, u2, s2, same, props) =
                laws.realloc_fits (set_totalsize dtb sz) sz v1 (omega arith) (omega arith) in
              let (off, b3, a, v3, u3, s3, at) =
                laws.add_subnode_fits b2 node v2
                  (same node ∙ laws.subnode_offset-set_totalsize dtb sz node ∙ e) (omega arith) in
              let (t, n, r, g) =
                in_node fdt laws node prop val len readable off none b3 sz v3 at (omega arith)
                  (omega arith) in
              let low = g.not_less in
              let high = g.not_more in
              (
                t,
                n,
                node_added _ dtb size node prop len e (ap (λ (k : ℕ). (size + k) % 2 ^ 32) l ∙ w) q
                    a r,
                record {
                  valid = g.valid;
                  used_le = g.used_le;
                  fits = g.fits;
                  not_less = omega arith;
                  not_more = omega arith;
                },
              ))
        | inr (off, e) ↦
            (let (t, n, r, g) =
                in_node fdt laws node prop val len readable off (some dtb) dtb size v e u
                  (omega arith) in
              let high = g.not_more in
              (
                t,
                n,
                node_found _ dtb size node prop len e r,
                record {
                  valid = g.valid;
                  used_le = g.used_le;
                  fits = g.fits;
                  not_less = g.not_less;
                  not_more = omega arith;
                },
              ))
      ]

  -- The same of `setup_dtb_prop_int`, with four bytes.
  pub setup_dtb_prop_int-IsGrown :
      (dtb : Blob) (size : ℕ) (node prop : Bytes) (val : ℕ)
      → is_valid dtb ≡ true
      → used dtb ≤ size
      → size + (node_space node + prop_space prop 4) ≤ memory
      → (t : Blob) × (n : ℕ) × (setup_dtb_prop_int fdt dtb size node prop val ≡ success t n)
        × IsGrown fdt laws size (node_space node + prop_space prop 4) t n
  unfolding be32
  setup_dtb_prop_int-IsGrown dtb size node prop val v u m =
      let (t, n, q, g) =
        setup_dtb_prop-IsGrown dtb size node prop (be32 val) 4 v u m (omega arith) in
      (
        t,
        n,
        setup_dtb_prop_int-setup_dtb_prop fdt laws.setprop_cell-setprop dtb size node prop val ∙ q,
        g,
      )
