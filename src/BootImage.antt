-- ===== src/BootImage.antt =====
-- boot/bootimg.h and boot/bootimage.c: Android boot images. Numbers are 32 bits wide and
-- little-endian, as on the target.
pub mod Version
pub mod Zimage
pub mod Initrd
pub mod Cmdline
pub mod Parts
use midas_util.Base.{
  ℕ, ◌+◌, ◌-◌, ◌*◌, ◌/◌, ◌%◌, ◌^◌, bit_and, Bool, true, false, Option, none, some, [], ◌∷◌, ◌++◌,
  Bytes, codes, Run, ok, fault, ◌>>=◌, deref, length, take, drop, get_or, if◌then◌else◌, leb, ltb,
}
use midas_util.CString.{is_prefix}
use midas_util.Config.{GlobalConfig}
use midas_util.Util.{Os, load_file, align}

-- the bytes of a field
unfoldable pub field_at : ℕ → ℕ → Bytes → Bytes
field_at off n b = take n (drop off b)

-- a `uint32_t` in memory
unfoldable pub le32 : ℕ → Bytes → ℕ
le32 off b =
    let c = drop off b in
    get_or c 0 0 % 256
    + get_or c 1 0 % 256 * 2 ^ 8
    + get_or c 2 0 % 256 * 2 ^ 16
    + get_or c 3 0 % 256 * 2 ^ 24

-- `struct boot_img_hdr`
pub record BootImgHdr : Type 0 where
  pub magic : Bytes
  pub kernel_size : ℕ
  pub kernel_addr : ℕ
  pub ramdisk_size : ℕ
  pub ramdisk_addr : ℕ
  pub second_size : ℕ
  pub second_addr : ℕ
  pub tags_addr : ℕ
  pub page_size : ℕ
  pub unused : ℕ
  pub os_version : ℕ
  pub name : Bytes
  pub cmdline : Bytes
  pub id : Bytes
  pub extra_cmdline : Bytes

abbrev pub header_size : ℕ
header_size = 1632

-- `(struct boot_img_hdr *)buf`
unfoldable pub header_of : Bytes → BootImgHdr
header_of b = record {
  magic = field_at 0 8 b;
  kernel_size = le32 8 b;
  kernel_addr = le32 12 b;
  ramdisk_size = le32 16 b;
  ramdisk_addr = le32 20 b;
  second_size = le32 24 b;
  second_addr = le32 28 b;
  tags_addr = le32 32 b;
  page_size = le32 36 b;
  unused = le32 40 b;
  os_version = le32 44 b;
  name = field_at 48 16 b;
  cmdline = field_at 64 512 b;
  id = field_at 576 32 b;
  extra_cmdline = field_at 608 1024 b;
}

-- what `show_android_info` prints
pub record AndroidInfo : Type 0 where
  pub ver_a : ℕ
  pub ver_b : ℕ
  pub ver_c : ℕ
  pub patch_y : ℕ
  pub patch_m : ℕ

abbrev pub lvl_mask : ℕ
lvl_mask = 2 ^ 11 - 1

abbrev pub month_mask : ℕ
month_mask = 2 ^ 4 - 1

abbrev pub ver_mask : ℕ
ver_mask = 2 ^ 7 - 1

pub show_android_info : ℕ → AndroidInfo
show_android_info os_version =
    let ver_a = os_version / 2 ^ 11 in
    let patch_y = bit_and os_version lvl_mask in
    record {
      ver_a = ver_a / 2 ^ 7 / 2 ^ 7;
      ver_b = bit_and (ver_a / 2 ^ 7) ver_mask;
      ver_c = bit_and ver_a ver_mask;
      patch_y = patch_y / 2 ^ 4 + 2000;
      patch_m = bit_and patch_y month_mask;
    }

-- the checks on a file that was loaded, or not
unfoldable pub validate : Option Bytes → Option ℕ → Run (Option (Bytes × ℕ))
validate none len = ok none
validate (some buf) len = do
  n ← deref len
  ok (
      if ltb n header_size
      then none
      else if is_prefix (codes "ANDROID!") buf
      then some (buf, n)
      else none)

unfoldable pub image_named : Os → GlobalConfig → Option Bytes → Run (Option (Bytes × ℕ))
unfolding validate
image_named os cfg none = ok none
image_named os cfg (some name) = do (buf, len) ← load_file os cfg (some name); validate buf len

-- The image with its header, and its size; `none` for NULL.
unfoldable pub load_and_validate_bootimg : Os → GlobalConfig → Run (Option (Bytes × ℕ))
unfolding image_named
load_and_validate_bootimg os cfg =
    image_named os cfg (if cfg.is_recovery then cfg.recovery_img else cfg.boot_img)

-- `memcpy(ret, &buf[off], n)` into a new buffer of n bytes
copy_out : Bytes → ℕ → ℕ → Run Bytes
copy_out buf off n = if leb (off + n) (length buf) then ok (take n (drop off buf)) else fault

-- from the comparison with the size on: `end` is the end address as the code computes it
unfoldable pub copy_part : Os → Bytes × ℕ → ℕ → ℕ → ℕ → Run (Option (Bytes × ℕ))
unfolding copy_out
copy_part os (buf, bootimg_size) off n end =
    if ltb bootimg_size end then ok none else elim (os.malloc n) [
      | none ↦ ok none
      | some junk ↦ (do data' ← copy_out buf off n; ok (some (data', n)))
    ]

unfoldable pub zimage_of : Os → Bytes × ℕ → Run (Option (Bytes × ℕ))
zimage_of os (buf, size) =
    let h = header_of buf in
    copy_part os (buf, size) h.page_size h.kernel_size ((h.kernel_size + h.page_size) % 2 ^ 32)

-- The kernel and its length; `none` for NULL, when `*len` is not written.
unfoldable pub load_android_zimage : Os → GlobalConfig → Run (Option (Bytes × ℕ))
load_android_zimage os cfg = do
  image ← load_and_validate_bootimg os cfg
  elim image [ none ↦ ok none | some img ↦ zimage_of os img ]

unfoldable pub initrd_of : Os → Bytes × ℕ → Run (Option (Bytes × ℕ))
initrd_of os (buf, size) =
    let h = header_of buf in
    let off = (align 32 h.kernel_size h.page_size + h.page_size) % 2 ^ 32 in
    copy_part os (buf, size) off h.ramdisk_size ((off + h.ramdisk_size) % 2 ^ 32)

unfoldable pub load_android_initrd : Os → GlobalConfig → Run (Option (Bytes × ℕ))
load_android_initrd os cfg = do
  image ← load_and_validate_bootimg os cfg
  elim image [ none ↦ ok none | some img ↦ initrd_of os img ]

-- the two `memcpy`s into the zeroed buffer of 1536 bytes
unfoldable pub cmdline_of : Bytes × ℕ → Bytes
cmdline_of (buf, size) = let h = header_of buf in h.cmdline ++ h.extra_cmdline

unfoldable pub load_android_cmdline : Os → GlobalConfig → Run (Option Bytes)
load_android_cmdline os cfg = do
  image ← load_and_validate_bootimg os cfg
  ok (elim image [ none ↦ none | some img ↦ some (cmdline_of img) ])
