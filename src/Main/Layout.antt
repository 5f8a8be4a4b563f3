-- ===== src/Main/Layout.antt =====
-- The segments that `main` hands to kexec.
use native.Mathlib.Nat.{one-le-pow}
use midas_util.Base.{ℕ, ◌+◌, ◌*◌, ◌%◌, ◌^◌, ◌≤◌, ◌<◌, ◌≡◌, arith}
use midas_util.Util.{align}
use midas_util.Util.Align.{align-round_up, round_up_bounds}
use midas_util.Main.{Segment, Placement, place}

-- Segment a ends where segment b begins, or before.
abbrev pub Before : Segment → Segment → Type 0
Before a b = a.mem + a.memsz ≤ b.mem

-- A segment has room for its buffer.
abbrev pub HasRoom : Segment → Type 0
HasRoom s = s.bufsz ≤ s.memsz

-- What the placement promises, for a kernel of `zimage_len` bytes.
pub record IsPlaced (zimage_len : ℕ) (p : Placement) : Type 0 where
  pub kernel_first : p.kernel.mem + p.kernel.memsz + zimage_len * 4 ≤ p.ramdisk.mem
  pub ramdisk_second : Before p.ramdisk p.dtb
  pub kernel_room : HasRoom p.kernel
  pub ramdisk_room : HasRoom p.ramdisk
  pub dtb_room : HasRoom p.dtb
  pub start_told : p.rd_start ≡ p.ramdisk.mem
  pub end_told : p.rd_end ≡ p.ramdisk.mem + p.ramdisk.memsz

module _ (k addr zimagesz zimage_len rdsz dtbsz : ℕ) (page : k < 32)
    (fits : addr + zimagesz + zimage_len * 4 + rdsz + dtbsz + 4 * 2 ^ k ≤ 2 ^ 32) where
  aligned :
      (n : ℕ) → n + 2 ^ k ≤ 2 ^ 32 → (n ≤ align 32 n (2 ^ k)) × (align 32 n (2 ^ k) < n + 2 ^ k)
  aligned n h =
      let b = round_up_bounds n (2 ^ k) (one-le-pow k 2 (omega arith)) in
      rw (align-round_up 32 k n page h) (b.0, b.1)

  -- If the page size is 2^k with k below 32, and the address, the sizes, four times the kernel's
  -- length and four pages add up to at most 2^32, then the kernel, the space for decompression,
  -- the ramdisk and the device tree follow one another without overlap; each segment has room
  -- for its buffer; and the device tree is told the ramdisk's start and end.
  pub place-IsPlaced : IsPlaced zimage_len (place (2 ^ k) addr zimagesz zimage_len rdsz dtbsz)
  unfolding place
  place-IsPlaced =
      let z = aligned zimagesz (omega arith) in
      let r = aligned rdsz (omega arith) in
      let d = aligned dtbsz (omega arith) in
      let four : zimage_len * 4 % 2 ^ 32 ≡ zimage_len * 4 = omega arith in
      let b = aligned (zimage_len * 4) (omega arith) in rw four (omega arith)
