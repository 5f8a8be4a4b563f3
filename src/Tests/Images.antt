-- ===== src/Tests/Images.antt =====
-- The theorems about boot images and the kernel's command line at small inputs.
use midas_util.Base.{
  ◌+◌, ◌%◌, ◌^◌, ◌<◌, ◌≤◌, ◌≡◌, refl, none, some, [], ◌∷◌, ◌++◌, Bytes, codes, ok, fault, length,
  if◌then◌else◌, leb, arith, replicate,
}
use mathlib.Core.Option
use midas_util.CString.{c_string}
use midas_util.Util.{Os}
use midas_util.Util.Align.{round_up}
use midas_util.BootImage.{
  header_of, le32, field_at, zimage_of, initrd_of, AndroidInfo, show_android_info,
}
use midas_util.BootImage.Version.{pack_version, InRange, show_android_info-pack}
use midas_util.BootImage.Zimage.{zimage_of-in_bounds, zimage_of_wraps}
use midas_util.BootImage.Initrd.{initrd_offset, initrd_of-in_bounds, initrd_of_wraps}

abbrev os : Os
os = record { open_file = λ path. none; malloc = λ n. some [] }

-- Android 8.1.0, with the patches of May 2018
abbrev oreo : AndroidInfo
oreo = record { ver_a = 8; ver_b = 1; ver_c = 0; patch_y = 2018; patch_m = 5 }

oreo-InRange : InRange oreo
oreo-InRange = record {
  b = omega arith;
  c = omega arith;
  since = omega arith;
  until = omega arith;
  month = omega arith;
}

show_android_info-pack_example : show_android_info (pack_version oreo) ≡ oreo
show_android_info-pack_example = show_android_info-pack oreo oreo-InRange

-- the beginning of an image with these lengths of kernel and ramdisk and pages of 32 bytes
abbrev image : Bytes → Bytes → Bytes
image kernel ramdisk =
    codes "ANDROID!"
    ++ (kernel
        ++ (replicate 4 0 ++ (ramdisk ++ (replicate 16 0 ++ (32 ∷ 0 ∷ 0 ∷ 0 ∷ replicate 60 7)))))

abbrev small : Bytes
small = image (16 ∷ 0 ∷ 0 ∷ 0 ∷ []) (8 ∷ 0 ∷ 0 ∷ 0 ∷ [])

-- a kernel of 2 ^ 32 - 16 bytes
abbrev huge_kernel : Bytes
huge_kernel = image (240 ∷ 255 ∷ 255 ∷ 255 ∷ []) (8 ∷ 0 ∷ 0 ∷ 0 ∷ [])

-- a ramdisk of 2 ^ 32 - 16 bytes
abbrev huge_ramdisk : Bytes
huge_ramdisk = image (16 ∷ 0 ∷ 0 ∷ 0 ∷ []) (240 ∷ 255 ∷ 255 ∷ 255 ∷ [])

small_kernel_end : (header_of small).page_size + (header_of small).kernel_size < 2 ^ 32
unfolding header_of le32
small_kernel_end = omega arith

zimage_of-in_bounds_example :
    zimage_of os (small, length small)
    ≡ ok (
        if leb ((header_of small).page_size + (header_of small).kernel_size) (length small)
        then Option.map
            (λ (junk : Bytes). (
              field_at (header_of small).page_size (header_of small).kernel_size small,
              (header_of small).kernel_size,
            ))
            (os.malloc (header_of small).kernel_size)
        else none)
zimage_of-in_bounds_example = zimage_of-in_bounds os small small_kernel_end

huge_kernel_end :
    (2 ^ 32 ≤ (header_of huge_kernel).kernel_size + (header_of huge_kernel).page_size)
    × (((header_of huge_kernel).kernel_size + (header_of huge_kernel).page_size) % 2 ^ 32
        ≤ length huge_kernel)
unfolding header_of le32
huge_kernel_end = (omega arith, omega arith)

zimage_of_wraps_example : zimage_of os (huge_kernel, length huge_kernel) ≡ fault
zimage_of_wraps_example =
    zimage_of_wraps os huge_kernel huge_kernel_end.0 huge_kernel_end.1 (omega arith) refl

pages_of_32 : (header_of small).page_size ≡ 2 ^ 5
unfolding header_of le32
pages_of_32 = refl

small_kernel_fits : (header_of small).kernel_size + 2 ^ 5 ≤ 2 ^ 32
unfolding header_of le32
small_kernel_fits = omega arith

small_ramdisk_end : initrd_offset small + (header_of small).ramdisk_size < 2 ^ 32
unfolding header_of le32 initrd_offset round_up
small_ramdisk_end = omega arith

initrd_of-in_bounds_example :
    initrd_of os (small, length small)
    ≡ ok (
        if leb (initrd_offset small + (header_of small).ramdisk_size) (length small)
        then Option.map
            (λ (junk : Bytes). (
              field_at (initrd_offset small) (header_of small).ramdisk_size small,
              (header_of small).ramdisk_size,
            ))
            (os.malloc (header_of small).ramdisk_size)
        else none)
initrd_of-in_bounds_example =
    initrd_of-in_bounds os small 5 (omega arith) pages_of_32 small_kernel_fits small_ramdisk_end

huge_pages : (header_of huge_ramdisk).page_size ≡ 2 ^ 5
unfolding header_of le32
huge_pages = refl

huge_kernel_fits : (header_of huge_ramdisk).kernel_size + 2 ^ 5 ≤ 2 ^ 32
unfolding header_of le32
huge_kernel_fits = omega arith

huge_ramdisk_end :
    (initrd_offset huge_ramdisk < 2 ^ 32)
    × (2 ^ 32 ≤ initrd_offset huge_ramdisk + (header_of huge_ramdisk).ramdisk_size)
    × ((initrd_offset huge_ramdisk + (header_of huge_ramdisk).ramdisk_size) % 2 ^ 32
        ≤ length huge_ramdisk)
unfolding header_of le32 initrd_offset round_up
huge_ramdisk_end = (omega arith, omega arith, omega arith)

initrd_of_wraps_example : initrd_of os (huge_ramdisk, length huge_ramdisk) ≡ fault
initrd_of_wraps_example =
    initrd_of_wraps os huge_ramdisk 5 (omega arith) huge_pages huge_kernel_fits huge_ramdisk_end.0
      huge_ramdisk_end.1 huge_ramdisk_end.2 (omega arith) refl

-- an image whose command line is "ro", with a NUL behind it and more in the second part
abbrev with_cmdline : Bytes
with_cmdline = replicate 64 0 ++ (codes "ro" ++ (0 ∷ replicate 541 7 ++ codes "rest"))

first_part : c_string (header_of with_cmdline).cmdline ≡ some (codes "ro")
unfolding c_string header_of field_at
first_part = refl
