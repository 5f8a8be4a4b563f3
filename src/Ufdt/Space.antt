-- ===== src/Ufdt/Space.antt =====
-- The room that nodes and properties take in a device tree, and what libfdt does where there is room.
use midas_util.Base.{
  ℕ, ◌+◌, ◌-◌, ◌^◌, ◌≤◌, ◌<◌, ◌≡◌, Bool, true, false, some, Bytes, length, arith, ◌⊎◌,
}
use midas_util.Base.Ints.{ℤ, pos}
use midas_util.Util.Align.{round_up, align-round_up}
use midas_util.Ufdt.{Libfdt, not_found, fdt_node_len, fdt_prop_len, tag_align}
use midas_util.Ufdt.Values.{be32}

-- In the format of a device tree, names and values are padded to a multiple of four bytes.
abbrev pub padded : ℕ → ℕ
padded n = round_up n 4

-- A node takes two tags and its name; a property takes its header, its value, and its name among the
-- strings.
abbrev pub node_space : Bytes → ℕ
node_space name = 8 + padded (length name + 1)

abbrev pub prop_space : Bytes → ℕ → ℕ
prop_space prop len = 12 + padded len + (length prop + 1)

-- What libfdt is documented to do on a valid tree, where `used` is the number of bytes of its structure,
-- its strings and its header: a node can be added if its name is not there yet, and a property can be
-- set in a node that is there, where the size in the header leaves room for it, else the calls may fail.
-- `realloc` gives up to `memory` bytes, and keeps the content.
pub record SpaceLaws (fdt : Libfdt) : Type 0 where
  pub is_valid : fdt.Blob → Bool
  pub used : fdt.Blob → ℕ
  pub memory : ℕ
  pub memory_bound : memory < 2 ^ 32
  pub set_totalsize_fits :
      (b : fdt.Blob) (n : ℕ)
      → is_valid b ≡ true
      → used b ≤ n
      → n < 2 ^ 32
      → (is_valid (fdt.set_totalsize b n) ≡ true)
        × (used (fdt.set_totalsize b n) ≡ used b)
        × (fdt.totalsize (fdt.set_totalsize b n) ≡ n)
  pub realloc_fits :
      (b : fdt.Blob) (n : ℕ)
      → is_valid b ≡ true
      → fdt.totalsize b ≤ n
      → n ≤ memory
      → (b' : fdt.Blob) × (fdt.realloc b n ≡ some b')
        × (is_valid b' ≡ true)
        × (used b' ≡ used b)
        × (fdt.totalsize b' ≡ fdt.totalsize b)
        × ((node : Bytes) → fdt.subnode_offset b' node ≡ fdt.subnode_offset b node)
        × ((off : ℤ) (prop : Bytes) → fdt.get_property b' off prop ≡ fdt.get_property b off prop)
  pub subnode_offset-set_totalsize :
      (b : fdt.Blob) (n : ℕ) (node : Bytes)
      → fdt.subnode_offset (fdt.set_totalsize b n) node ≡ fdt.subnode_offset b node
  pub get_property-set_totalsize :
      (b : fdt.Blob) (n : ℕ) (off : ℤ) (prop : Bytes)
      → fdt.get_property (fdt.set_totalsize b n) off prop ≡ fdt.get_property b off prop
  pub subnode_offset_valid :
      (b : fdt.Blob) (node : Bytes)
      → is_valid b ≡ true
      → (fdt.subnode_offset b node ≡ not_found)
        ⊎ ((off : ℕ) × (fdt.subnode_offset b node ≡ pos off))
  pub add_subnode_fits :
      (b : fdt.Blob) (node : Bytes)
      → is_valid b ≡ true
      → fdt.subnode_offset b node ≡ not_found
      → used b + node_space node ≤ fdt.totalsize b
      → (off : ℕ) × (b' : fdt.Blob) × (fdt.add_subnode b node ≡ (pos off, b'))
        × (is_valid b' ≡ true)
        × (used b' ≤ used b + node_space node)
        × (fdt.totalsize b' ≡ fdt.totalsize b)
        × (fdt.subnode_offset b' node ≡ pos off)
  pub get_property_valid :
      (b : fdt.Blob) (node : Bytes) (off : ℕ) (prop : Bytes)
      → is_valid b ≡ true
      → fdt.subnode_offset b node ≡ pos off
      → (fdt.get_property b (pos off) prop ≡ (false, not_found))
        ⊎ ((n : ℕ) × (fdt.get_property b (pos off) prop ≡ (true, pos n)))
  pub setprop_new :
      (b : fdt.Blob) (node : Bytes) (off : ℕ) (prop val : Bytes) (len : ℕ)
      → is_valid b ≡ true
      → fdt.subnode_offset b node ≡ pos off
      → fdt.get_property b (pos off) prop ≡ (false, not_found)
      → len ≤ length val
      → used b + prop_space prop len ≤ fdt.totalsize b
      → (b' : fdt.Blob) × (fdt.setprop b (pos off) prop val len ≡ (pos 0, b'))
        × (is_valid b' ≡ true)
        × (used b' ≤ used b + prop_space prop len)
        × (fdt.totalsize b' ≡ fdt.totalsize b)
  pub setprop_old :
      (b : fdt.Blob) (node : Bytes) (off : ℕ) (prop val : Bytes) (len n : ℕ)
      → is_valid b ≡ true
      → fdt.subnode_offset b node ≡ pos off
      → fdt.get_property b (pos off) prop ≡ (true, pos n)
      → len ≤ length val
      → used b + padded len ≤ fdt.totalsize b + padded n
      → (b' : fdt.Blob) × (fdt.setprop b (pos off) prop val len ≡ (pos 0, b'))
        × (is_valid b' ≡ true)
        × (used b' ≤ used b + padded len - padded n)
        × (fdt.totalsize b' ≡ fdt.totalsize b)
  pub setprop_cell-setprop :
      (b : fdt.Blob) (off : ℤ) (prop : Bytes) (val : ℕ)
      → fdt.setprop_cell b off prop val ≡ fdt.setprop b off prop (be32 val) 4

pub tag_align-padded : (n : ℕ) → n + 4 ≤ 2 ^ 32 → tag_align n ≡ padded n
unfolding tag_align
tag_align-padded n h = align-round_up 32 2 n (omega arith) h

pub padded_bounds : (n : ℕ) → (n ≤ padded n) × (padded n ≤ n + 3)
unfolding round_up
padded_bounds n = (omega arith, omega arith)

pub padded_sum : (a b : ℕ) → a < b → padded b ≤ padded a + padded (b - a)
unfolding round_up
padded_sum a b h = omega arith

pub padded_le : (a b : ℕ) → a ≤ b → padded a ≤ padded b
unfolding round_up
padded_le a b h = omega arith

pub fdt_node_len-space :
    (name : Bytes) → node_space name < 2 ^ 32 → fdt_node_len name ≡ node_space name
unfolding fdt_node_len
fdt_node_len-space name h =
    let (low, high) = padded_bounds (length name + 1) in
    rw (tag_align-padded (length name + 1) (omega arith)) (omega arith)

pub fdt_prop_len-space :
    (prop : Bytes) (len : ℕ)
    → prop_space prop len < 2 ^ 32
    → fdt_prop_len prop len ≡ prop_space prop len
unfolding fdt_prop_len
fdt_prop_len-space prop len h =
    let (low, high) = padded_bounds len in rw (tag_align-padded len (omega arith)) (omega arith)
