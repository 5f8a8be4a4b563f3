-- ===== src/BootImage/Version.antt =====
-- The version word of a boot image.
use midas_util.Base.{ℕ, ◌+◌, ◌-◌, ◌*◌, ◌/◌, ◌%◌, ◌^◌, ◌≤◌, ◌<◌, ◌≡◌, bit_and, arith}
use midas_util.Base.Bits.{bit_and-low}
use midas_util.BootImage.{AndroidInfo, show_android_info, lvl_mask, month_mask, ver_mask}

-- The packing that boot/bootimg.h documents.
unfoldable pub pack_version : AndroidInfo → ℕ
pack_version i =
    (i.ver_a * 2 ^ 14 + i.ver_b * 2 ^ 7 + i.ver_c) * 2 ^ 11
    + ((i.patch_y - 2000) * 2 ^ 4 + i.patch_m)

pub record InRange (i : AndroidInfo) : Type 0 where
  pub b : i.ver_b < 2 ^ 7
  pub c : i.ver_c < 2 ^ 7
  pub since : 2000 ≤ i.patch_y
  pub until : i.patch_y < 2000 + 2 ^ 7
  pub month : i.patch_m < 2 ^ 4

-- `show_android_info` reads back the version and the patch level that were packed, if each part
-- fits its field.
pub show_android_info-pack : (i : AndroidInfo) → InRange i → show_android_info (pack_version i) ≡ i
unfolding show_android_info pack_version
show_android_info-pack i h =
    let word = pack_version i in
    let lvl = bit_and word lvl_mask in
    let l : lvl ≡ word % 2 ^ 11 = bit_and-low word 11 in
    let m : bit_and lvl month_mask ≡ lvl % 2 ^ 4 = bit_and-low lvl 4 in
    let b : bit_and (word / 2 ^ 11 / 2 ^ 7) ver_mask ≡ word / 2 ^ 11 / 2 ^ 7 % 2 ^ 7 =
      bit_and-low (word / 2 ^ 11 / 2 ^ 7) 7 in
    let c : bit_and (word / 2 ^ 11) ver_mask ≡ word / 2 ^ 11 % 2 ^ 7 =
      bit_and-low (word / 2 ^ 11) 7 in
    let a : word / 2 ^ 11 / 2 ^ 7 / 2 ^ 7 ≡ i.ver_a = omega (arith, h.b, h.c) in
    let b' : bit_and (word / 2 ^ 11 / 2 ^ 7) ver_mask ≡ i.ver_b = omega (arith, h.b, h.c) in
    let c' : bit_and (word / 2 ^ 11) ver_mask ≡ i.ver_c = omega (arith, h.b, h.c) in
    let y : lvl / 2 ^ 4 + 2000 ≡ i.patch_y = omega (arith, h.b) in
    let m' : bit_and lvl month_mask ≡ i.patch_m = omega (arith, h.b) in
    λ j. record { ver_a = a j; ver_b = b' j; ver_c = c' j; patch_y = y j; patch_m = m' j }
