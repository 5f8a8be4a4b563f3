-- ===== src/Ufdt/Tests.antt =====
-- The setters of a property on device trees that check their room.
use midas_util.Base.{◌≡◌, refl, none, some, codes, ◌∷◌, []}
use midas_util.Util.{align}
use midas_util.Util.Align.{round_up}
use midas_util.Ufdt.{
  success, error, enomem, setup_dtb_prop, setup_with, set_in_node, size_with, grow_and_set,
  finish_setup, fdt_node_len, fdt_prop_len, tag_align,
}
use midas_util.CString.{str_eq}
use midas_util.Ufdt.Values.{put_value}
use midas_util.Ufdt.Fixtures.{trees, fresh_tree}

-- The node, its property of three bytes and their names take 41 bytes.
set_bootargs :
    setup_dtb_prop trees (fresh_tree 100) 100 (codes "chosen") (codes "bootargs") (codes "ro\0") 3
    ≡ success
        (record {
          size = 141;
          used = 141;
          nodes = codes "chosen" ∷ [];
          values = put_value (codes "chosen") (codes "bootargs") (codes "ro\0") (λ node prop. none);
        })
        141
unfolding setup_dtb_prop setup_with set_in_node size_with grow_and_set finish_setup fdt_node_len
    fdt_prop_len tag_align align round_up str_eq
set_bootargs = refl

-- There is no memory for a tree of more than a megabyte: the caller keeps the buffer.
no_memory :
    setup_dtb_prop trees
      (fresh_tree 1048576)
      1048576
      (codes "chosen")
      (codes "bootargs")
      (codes "ro\0")
      3
    ≡ error enomem (some (record (fresh_tree 1048576) { size = 1048592 }))
unfolding setup_dtb_prop setup_with fdt_node_len tag_align align
no_memory = refl
