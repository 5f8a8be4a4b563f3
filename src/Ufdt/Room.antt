-- ===== src/Ufdt/Room.antt =====
-- Setting a property in a node that is there, in boot/ufdt.c: it makes room enough.
use midas_util.Base.{
  ℕ, ◌+◌, ◌-◌, ◌%◌, ◌^◌, ◌≤◌, ◌<◌, ◌≡◌, refl, ◌∙◌, true, Option, some, Bytes, length, arith, ltb,
  Bool-cases, inl, inr,
}
use midas_util.Base.Ints.{ℤ, pos}
use midas_util.Ufdt.{Libfdt, success, finish_setup, grow_and_set, size_with, set_in_node}
use midas_util.Ufdt.Space.{
  padded, prop_space, SpaceLaws, padded_bounds, padded_sum, padded_le, tag_align-padded,
  fdt_prop_len-space,
}

module _ (fdt : Libfdt) (laws : SpaceLaws fdt) where
  open fdt use {Blob, totalsize, set_totalsize, realloc, subnode_offset, get_property}
  open laws use {is_valid, used, memory}

  -- The tree that a setter leaves, with the size that it stores: the size has not shrunk, has grown by
  -- at most `more`, and the tree is valid, within that size and within the size in its header.
  pub record IsGrown (size more : ℕ) (t : Blob) (n : ℕ) : Type 0 where
    pub valid : is_valid t ≡ true
    pub used_le : used t ≤ n
    pub fits : n ≤ totalsize t
    pub not_less : size ≤ n
    pub not_more : n ≤ size + more

  -- Where the size is `sz`, a tree with the same content has room.
  pub record HasRoom (node : Bytes) (off : ℕ) (b : Blob) (sz : ℕ) (prop : Bytes) (t : Blob)
      : Type 0 where
    pub valid : is_valid t ≡ true
    pub same_used : used t ≡ used b
    pub at : subnode_offset t node ≡ pos off
    pub same_property : get_property t (pos off) prop ≡ get_property b (pos off) prop
    pub room : sz ≤ totalsize t

  module _ (node prop val : Bytes) (len : ℕ) (readable : len ≤ length val) where
    abbrev pub set_it : ℤ → Blob → ℤ × Blob
    set_it off b = fdt.setprop b off prop val len

    abbrev Sets : ℕ → Blob → ℕ → ℕ → Type 0
    Sets off b sz' n =
        (t : Blob)
        → HasRoom node off b n prop t
        → (t' : Blob) × (set_it (pos off) t ≡ (pos 0, t'))
          × (is_valid t' ≡ true)
          × (used t' ≤ sz')
          × (totalsize t' ≡ totalsize t)

    sized :
        (off : ℕ) (b : Blob) (sz : ℕ)
        → is_valid b ≡ true
        → subnode_offset b node ≡ pos off
        → used b ≤ sz
        → sz + prop_space prop len ≤ memory
        → (sz' : ℕ) × (size_with fdt prop len sz (get_property b (pos off) prop) ≡ some sz')
          × (sz ≤ sz')
          × (sz' ≤ sz + prop_space prop len)
          × Sets off b sz' sz'
    unfolding size_with
    sized off b sz v at u m =
        let mb = laws.memory_bound in
        let (low, high) = padded_bounds len in
        elim (laws.get_property_valid b node off prop v at) [
          | inl e ↦
              (let l = fdt_prop_len-space prop len (omega arith) in
                let w : (sz + prop_space prop len) % 2 ^ 32 ≡ sz + prop_space prop len =
                  omega arith in
                (
                  sz + prop_space prop len,
                  rw (e, l, w),
                  omega arith,
                  omega arith,
                  λ t r.
                      (let su = r.same_used in
                        let room = r.room in
                        let (t', q, v', u', s) =
                          laws.setprop_new t node off prop val len r.valid r.at
                            (r.same_property ∙ e) readable (omega arith) in
                        (t', q, v', omega arith, s)),
                ))
          | inr (n, e) ↦ elim (Bool-cases (ltb n len)) [
            | inl c ↦
                (let lt : n < len = ground arith in
                  let sum = padded_sum n len lt in
                  let (low', high') = padded_bounds (len - n) in
                  let le = padded_le (len - n) len (omega arith) in
                  let l = tag_align-padded (len - n) (omega arith) in
                  let w : (sz + padded (len - n)) % 2 ^ 32 ≡ sz + padded (len - n) = omega arith in
                  (
                    sz + padded (len - n),
                    rw (e, c, l, w),
                    omega arith,
                    omega arith,
                    λ t r.
                        (let su = r.same_used in
                          let room = r.room in
                          let (t', q, v', u', s) =
                            laws.setprop_old t node off prop val len n r.valid r.at
                              (r.same_property ∙ e) readable (omega arith) in
                          (t', q, v', omega arith, s)),
                  ))
            | inr c ↦
                (let ge : len ≤ n = ground arith in
                  let le = padded_le len n ge in
                  (
                    sz,
                    rw (e, c),
                    omega arith,
                    omega arith,
                    λ t r.
                        (let su = r.same_used in
                          let room = r.room in
                          let (t', q, v', u', s) =
                            laws.setprop_old t node off prop val len n r.valid r.at
                              (r.same_property ∙ e) readable (omega arith) in
                          (t', q, v', omega arith, s)),
                  ))
          ]
        ]

    grown :
        (off : ℕ) (kept : Option Blob) (b : Blob) (sz : ℕ)
        → is_valid b ≡ true
        → subnode_offset b node ≡ pos off
        → used b ≤ sz
        → sz ≤ memory
        → Sets off b sz sz
        → (t : Blob) × (grow_and_set fdt (set_it (pos off)) kept b sz ≡ success t sz)
          × (is_valid t ≡ true)
          × (used t ≤ sz)
          × (sz ≤ totalsize t)
    unfolding grow_and_set finish_setup
    grown off kept b sz v at u m sets =
        let mb = laws.memory_bound in
        elim (Bool-cases (ltb (totalsize b) sz)) [
          | inl c ↦
              (let (v1, u1, s1) = laws.set_totalsize_fits b sz v u (omega arith) in
                let (b2, q, v2, u2, s2, same, props) =
                  laws.realloc_fits (set_totalsize b sz) sz v1 (omega arith) m in
                let (t, set, vt, ut, st) = sets b2 (record {
                  valid = v2;
                  same_used = u2 ∙ u1;
                  at = same node ∙ laws.subnode_offset-set_totalsize b sz node ∙ at;
                  same_property =
                      props (pos off) prop ∙ laws.get_property-set_totalsize b sz (pos off) prop;
                  room = omega arith;
                }) in
                (t, rw (c, q, set), vt, ut, omega arith))
          | inr c ↦
              (let enough : sz ≤ totalsize b = ground arith in
                let (t, set, vt, ut, st) = sets b (record {
                  valid = v;
                  same_used = refl;
                  at = at;
                  same_property = refl;
                  room = enough;
                }) in
                (t, rw (c, set), vt, ut, omega arith))
        ]

    pub in_node :
        (off : ℕ) (kept : Option Blob) (b : Blob) (sz : ℕ)
        → is_valid b ≡ true
        → subnode_offset b node ≡ pos off
        → used b ≤ sz
        → sz + prop_space prop len ≤ memory
        → (t : Blob) × (n : ℕ) × (set_in_node fdt set_it prop len kept (pos off, b) sz
            ≡ success t n)
          × IsGrown sz (prop_space prop len) t n
    unfolding set_in_node
    in_node off kept b sz v at u m =
        let (sz', e, low, high, sets) = sized off b sz v at u m in
        let (t, q, vt, ut, st) = grown off kept b sz' v at (omega arith) (omega arith) sets in
        (
          t,
          sz',
          rw (e, q),
          record { valid = vt; used_le = ut; fits = st; not_less = low; not_more = high },
        )
