-- ===== src/BootImage/Zimage.antt =====
-- The kernel in a boot image.
use midas_util.Base.{
  ℕ, ◌+◌, ◌%◌, ◌^◌, ◌≤◌, ◌<◌, ◌≡◌, none, some, Bytes, ok, fault, length, if◌then◌else◌, leb, arith,
}
use mathlib.Core.Option
use midas_util.Util.{Os}
use midas_util.BootImage.{header_of, zimage_of, copy_part, field_at}

-- A part whose end address does not wrap is copied from the image, or refused.
pub copy_part_lem :
    (os : Os) (buf : Bytes) (off n : ℕ)
    → copy_part os (buf, length buf) off n (off + n)
      ≡ ok (
          if leb (off + n) (length buf)
          then Option.map (λ (junk : Bytes). (field_at off n buf, n)) (os.malloc n)
          else none)
unfolding copy_part field_at
copy_part_lem os buf off n = ground arith

-- A part that does not lie in the image, behind an end address that does, is read out of bounds.
pub copy_part_wraps :
    (os : Os) (buf : Bytes) (off n end : ℕ) {junk : Bytes}
    → end ≤ length buf
    → length buf < off + n
    → os.malloc n ≡ some junk
    → copy_part os (buf, length buf) off n end ≡ fault
unfolding copy_part
copy_part_wraps os buf off n end h k m = ground arith

-- Where the end address of the kernel does not overflow, `load_android_zimage` copies the kernel
-- of a valid image if it lies within the image and `malloc` does not fail, and returns NULL if
-- not; it does not read out of bounds.
pub zimage_of-in_bounds :
    (os : Os) (buf : Bytes)
    → (header_of buf).page_size + (header_of buf).kernel_size < 2 ^ 32
    → zimage_of os (buf, length buf)
      ≡ ok (
          if leb ((header_of buf).page_size + (header_of buf).kernel_size) (length buf)
          then Option.map
              (λ (junk : Bytes). (
                field_at (header_of buf).page_size (header_of buf).kernel_size buf,
                (header_of buf).kernel_size,
              ))
              (os.malloc (header_of buf).kernel_size)
          else none)
unfolding zimage_of
zimage_of-in_bounds os buf h =
    let page = (header_of buf).page_size in
    let n = (header_of buf).kernel_size in
    let e : (n + page) % 2 ^ 32 ≡ page + n = omega arith in rw e (copy_part_lem os buf page n)

-- Where the end address of the kernel overflows to one within the image, the image is shorter
-- than 2^32 bytes and `malloc` does not fail, `load_android_zimage` reads out of bounds.
pub zimage_of_wraps :
    (os : Os) (buf : Bytes) {junk : Bytes}
    → 2 ^ 32 ≤ (header_of buf).kernel_size + (header_of buf).page_size
    → ((header_of buf).kernel_size + (header_of buf).page_size) % 2 ^ 32 ≤ length buf
    → length buf < 2 ^ 32
    → os.malloc (header_of buf).kernel_size ≡ some junk
    → zimage_of os (buf, length buf) ≡ fault
unfolding zimage_of
zimage_of_wraps os buf wraps passes size m =
    copy_part_wraps os buf (header_of buf).page_size (header_of buf).kernel_size _ passes
      (omega arith) m
