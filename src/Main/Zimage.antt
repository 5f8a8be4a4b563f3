-- ===== src/Main/Zimage.antt =====
-- What `check_zimage` accepts.
use midas_util.Base.{ℕ, ◌+◌, ◌-◌, ◌%◌, ◌^◌, ◌≤◌, ◌≡◌, some, Bytes, ok, arith, ◌↔◌}
use midas_util.BootImage.{le32}
use midas_util.Main.{check_zimage}

-- The length that the header states, end minus start in 32 bits.
abbrev pub stated_length : Bytes → ℕ
stated_length b = (le32 44 b + 2 ^ 32 - le32 40 b) % 2 ^ 32

-- `check_zimage` returns a length exactly for a file of at least 0x34 bytes that holds the magic
-- number and is not shorter than its header states; the length is the stated one.
pub check_zimage_iff :
    (b : Bytes) (sz n : ℕ)
    → (check_zimage (some b) sz ≡ ok (some n))
      ↔ ((0x34 ≤ sz) × (le32 36 b ≡ 0x016f2818) × (stated_length b ≤ sz) × (n ≡ stated_length b))
unfolding check_zimage
check_zimage_iff b sz n = ground arith
