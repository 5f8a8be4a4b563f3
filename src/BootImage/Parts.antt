-- ===== src/BootImage/Parts.antt =====
-- What the three loaders of boot/bootimage.c take from a valid image.
use midas_util.Base.{
  ℕ, ◌+◌, ◌^◌, ◌≤◌, ◌<◌, ◌≡◌, ◌∙◌, true, false, some, Option, Bytes, codes, ok, length, drop,
  if◌then◌else◌, leb, ltb, arith, length-take, length-drop,
}
use midas_util.CString.{is_prefix, c_string}
use midas_util.Config.{GlobalConfig}
use midas_util.Util.{Os}
use midas_util.Util.Stored.{Holds, file_path, load_file-Holds}
use midas_util.BootImage.{
  header_of, header_size, field_at, zimage_of, initrd_of, cmdline_of, image_named,
  load_and_validate_bootimg, load_android_zimage, load_android_initrd, load_android_cmdline,
  validate,
}
use midas_util.BootImage.Zimage.{zimage_of-in_bounds}
use midas_util.BootImage.Initrd.{initrd_offset, initrd_of-in_bounds}
use midas_util.BootImage.Cmdline.{cmdline_of-first}

-- The kernel stands behind the first page, the ramdisk behind the pages of the kernel.
abbrev pub kernel_in : Bytes → Bytes
kernel_in image = field_at (header_of image).page_size (header_of image).kernel_size image

abbrev pub ramdisk_in : Bytes → Bytes
ramdisk_in image = field_at (initrd_offset image) (header_of image).ramdisk_size image

-- An image with a header, whose parts lie within it, and memory for the parts.
pub record IsImage (os : Os) (image : Bytes) : Type 0 where
  pub long : header_size ≤ length image
  pub small : length image < 2 ^ 32
  pub magic : is_prefix (codes "ANDROID!") image ≡ true
  pub page_bits : ℕ
  pub narrow : page_bits < 32
  pub page_size : (header_of image).page_size ≡ 2 ^ page_bits
  pub kernel_inside : (header_of image).page_size + (header_of image).kernel_size ≤ length image
  pub ramdisk_inside : initrd_offset image + (header_of image).ramdisk_size ≤ length image
  pub kernel_junk : Bytes
  pub kernel_room : os.malloc (header_of image).kernel_size ≡ some kernel_junk
  pub ramdisk_junk : Bytes
  pub ramdisk_room : os.malloc (header_of image).ramdisk_size ≡ some ramdisk_junk

length-field_at : (off n : ℕ) (b : Bytes) → off + n ≤ length b → length (field_at off n b) ≡ n
unfolding field_at
length-field_at off n b h = omega (arith, length-take {0} n (drop off b), length-drop {0} off b)

-- the image that is asked for
abbrev pub image_name : GlobalConfig → Option Bytes
image_name cfg = if cfg.is_recovery then cfg.recovery_img else cfg.boot_img

long_enough : (a b : ℕ) → a ≤ b → ltb b a ≡ false
long_enough a b h = ground arith

inside : (a b : ℕ) → a ≤ b → leb a b ≡ true
inside a b h = ground arith

module _ (os : Os) (cfg : GlobalConfig) {name image : Bytes} (named : image_name cfg ≡ some name)
    (stored : Holds os (file_path cfg (some name)) image) (is : IsImage os image) where
  load_and_validate_bootimg-IsImage :
      load_and_validate_bootimg os cfg ≡ ok (some (image, length image))
  unfolding load_and_validate_bootimg image_named validate
  load_and_validate_bootimg-IsImage = rw (
    named,
    load_file-Holds os cfg (some name) stored,
    long_enough header_size (length image) is.long,
    is.magic,
  )

  zimage_of-IsImage :
      zimage_of os (image, length image) ≡ ok (some (kernel_in image, length (kernel_in image)))
  zimage_of-IsImage =
      let h = header_of image in
      zimage_of-in_bounds os image (let k = is.kernel_inside in let m = is.small in omega arith)
      ∙ rw (
        inside (h.page_size + h.kernel_size) (length image) is.kernel_inside,
        is.kernel_room,
        length-field_at h.page_size h.kernel_size image is.kernel_inside,
      )

  initrd_of-IsImage :
      initrd_of os (image, length image) ≡ ok (some (ramdisk_in image, length (ramdisk_in image)))
  initrd_of-IsImage =
      let h = header_of image in
      let k = is.kernel_inside in
      let m = is.small in
      let r = is.ramdisk_inside in
      let p = is.page_size in
      initrd_of-in_bounds os image is.page_bits is.narrow is.page_size (omega arith) (omega arith)
      ∙ rw (
        inside (initrd_offset image + h.ramdisk_size) (length image) is.ramdisk_inside,
        is.ramdisk_room,
        length-field_at (initrd_offset image) h.ramdisk_size image is.ramdisk_inside,
      )

  -- If the configuration names a boot image for the mode, normal or recovery, its file can be read,
  -- has the header's bytes and fewer than 2^32, begins with the magic, and has pages of a power of two
  -- below 2^32, the kernel and the ramdisk lie within it, and `malloc` gives memory for both, then the
  -- loaders return the kernel, which stands behind the first page, the ramdisk, which stands behind
  -- the kernel's last page, each with its length, and a buffer that holds the string of the header's
  -- first command line, if that has a NUL.
  pub load_android-IsImage :
      (load_android_zimage os cfg ≡ ok (some (kernel_in image, length (kernel_in image))))
      × (load_android_initrd os cfg ≡ ok (some (ramdisk_in image, length (ramdisk_in image))))
      × (load_android_cmdline os cfg ≡ ok (some (cmdline_of (image, length image))))
      × ((args : Bytes)
          → c_string (header_of image).cmdline ≡ some args
          → c_string (cmdline_of (image, length image)) ≡ some args)
  unfolding load_android_zimage load_android_initrd load_android_cmdline
  load_android-IsImage = (
    rw load_and_validate_bootimg-IsImage zimage_of-IsImage,
    rw load_and_validate_bootimg-IsImage initrd_of-IsImage,
    rw load_and_validate_bootimg-IsImage,
    λ args e. cmdline_of-first image (length image) e,
  )
