-- ===== src/BootImage/Initrd.antt =====
-- The ramdisk in a boot image.
use mathlib.Core.Option
use midas_util.Base.{
  ℕ, ◌+◌, ◌%◌, ◌^◌, ◌≤◌, ◌<◌, ◌≡◌, none, some, Bytes, ok, fault, length, if◌then◌else◌, leb, arith,
}
use midas_util.Util.{Os, align}
use midas_util.Util.Align.{align-round_up, round_up}
use midas_util.BootImage.{header_of, initrd_of, field_at}
use midas_util.BootImage.Zimage.{copy_part_lem, copy_part_wraps}

-- Where a ramdisk stands that follows the pages of the header and the kernel.
unfoldable pub initrd_offset : Bytes → ℕ
initrd_offset buf =
    round_up (header_of buf).kernel_size (header_of buf).page_size + (header_of buf).page_size

module _ (os : Os) (buf : Bytes) (k : ℕ) (narrow : k < 32)
    (page : (header_of buf).page_size ≡ 2 ^ k)
    (fits : (header_of buf).kernel_size + 2 ^ k ≤ 2 ^ 32) where
  offset_lem :
      align 32 (header_of buf).kernel_size (header_of buf).page_size
      ≡ round_up (header_of buf).kernel_size (header_of buf).page_size
  offset_lem = rw page (align-round_up 32 k (header_of buf).kernel_size narrow fits)

  -- Where the page size is a power of two and neither the aligned size of the kernel nor the end
  -- address of the ramdisk overflows, `load_android_initrd` copies the ramdisk, which begins
  -- with the first page behind the kernel, if it lies within the image and `malloc` does not
  -- fail, and returns NULL if not; it does not read out of bounds.
  pub initrd_of-in_bounds :
      initrd_offset buf + (header_of buf).ramdisk_size < 2 ^ 32
      → initrd_of os (buf, length buf)
        ≡ ok (
            if leb (initrd_offset buf + (header_of buf).ramdisk_size) (length buf)
            then Option.map
                (λ (junk : Bytes). (
                  field_at (initrd_offset buf) (header_of buf).ramdisk_size buf,
                  (header_of buf).ramdisk_size,
                ))
                (os.malloc (header_of buf).ramdisk_size)
            else none)
  unfolding initrd_of initrd_offset
  initrd_of-in_bounds h =
      let off =
        round_up (header_of buf).kernel_size (header_of buf).page_size
        + (header_of buf).page_size in
      let e : off % 2 ^ 32 ≡ off = omega arith in
      let m : (off + (header_of buf).ramdisk_size) % 2 ^ 32 ≡ off + (header_of buf).ramdisk_size =
        omega arith in
      rw (offset_lem, e, m) (copy_part_lem os buf off (header_of buf).ramdisk_size)

  -- Where the page size is a power of two, the offset of the ramdisk does not overflow but its
  -- end address does, to one within the image, the image is shorter than 2^32 bytes and `malloc`
  -- does not fail, `load_android_initrd` reads out of bounds.
  pub initrd_of_wraps :
      {junk : Bytes}
      → initrd_offset buf < 2 ^ 32
      → 2 ^ 32 ≤ initrd_offset buf + (header_of buf).ramdisk_size
      → (initrd_offset buf + (header_of buf).ramdisk_size) % 2 ^ 32 ≤ length buf
      → length buf < 2 ^ 32
      → os.malloc (header_of buf).ramdisk_size ≡ some junk
      → initrd_of os (buf, length buf) ≡ fault
  unfolding initrd_of initrd_offset
  initrd_of_wraps narrow_offset wraps passes size m =
      let off =
        round_up (header_of buf).kernel_size (header_of buf).page_size
        + (header_of buf).page_size in
      let e : off % 2 ^ 32 ≡ off = omega arith in
      rw (offset_lem, e)
        (copy_part_wraps os buf off (header_of buf).ramdisk_size _ passes (omega arith) m)
