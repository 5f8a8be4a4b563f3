-- ===== src/Main/Fixtures.antt =====
-- A device tree and a kernel for tests.
use midas_util.Base.{ℕ, ◌+◌, true, false, some, [], ◌∷◌, ◌++◌, Bytes, codes, replicate}
use midas_util.Base.Ints.{pos, negsuc}
use midas_util.Util
use midas_util.Util.{Os, bytes, overwrite, dtb_path, percent_s}
use midas_util.Ufdt.{Libfdt}

-- A device tree that is its size.
abbrev pub sizes : Libfdt
sizes = record {
  Blob = ℕ;
  install_blob = λ buf n. some n;
  apply_overlay = λ hdr n buf sz. some (n + sz);
  totalsize = λ b. b;
  set_totalsize = λ b n. n;
  realloc = λ b n. some b;
  subnode_offset = λ b node. negsuc 0;
  add_subnode = λ b node. (pos 8, b);
  get_property = λ b off prop. (false, negsuc 0);
  setprop = λ b off prop val len. (pos 0, b);
  setprop_cell = λ b off prop val. (pos 0, b);
}

-- a kernel of 52 bytes, which stands in every file
abbrev pub kernel : Bytes
kernel =
    replicate 36 0 ++ (0x18 ∷ 0x28 ∷ 0x6f ∷ 0x01 ∷ 0 ∷ 0 ∷ 0 ∷ 0 ∷ 0x34 ∷ 0 ∷ 0 ∷ 0 ∷ replicate 4 0)

abbrev pub kernel_file : Util.File
kernel_file = record { seek_end = some 52; seek_set = true; reads = bytes kernel ∷ [] }

abbrev pub os : Os
os = record { open_file = λ path. some kernel_file; malloc = λ n. some (replicate n 0) }

-- A boot image with that kernel and a ramdisk of 16 bytes, in pages of 2048 bytes.
abbrev pub small_ramdisk : Bytes
small_ramdisk = replicate 16 7

abbrev pub image_header : Bytes
image_header =
    codes "ANDROID!"
    ++ (0x34 ∷ replicate 7 0
        ++ (16 ∷ replicate 19 0
            ++ (0 ∷ 8 ∷ 0 ∷ 0 ∷ replicate 24 0 ++ (codes "quiet" ++ replicate 1979 0))))

abbrev pub image : Bytes
image = image_header ++ (kernel ++ (replicate 1996 0 ++ small_ramdisk))

abbrev pub image_file : Util.File
image_file = record { seek_end = some 4112; seek_set = true; reads = bytes image ∷ [] }

-- Every path opens the image.
abbrev pub image_os : Os
image_os = record { open_file = λ path. some image_file; malloc = λ n. some (replicate n 0) }
