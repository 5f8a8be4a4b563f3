-- ===== src/BootImage/Cmdline.antt =====
-- The command line in a boot image.
use midas_util.Base.{ℕ, ◌≡◌, some, [], ◌∷◌, ◌++◌, Bytes, ◌==◌, Bool-cases, inl, inr, Option-cases}
use midas_util.CString.{c_string}
use midas_util.BootImage.{header_of, cmdline_of}

-- What stands behind the first NUL of a buffer does not matter.
pub c_string-first : (a b : Bytes) {s : Bytes} → c_string a ≡ some s → c_string (a ++ b) ≡ some s
unfolding c_string
c_string-first [] b e = absurd (cc)
c_string-first (c ∷ a) b e = elim (Bool-cases (c == 0)) [
  | inl z ↦ rw z (rw z at e)
  | inr z ↦ elim (Option-cases (c_string a)) [
    | inl n ↦ absurd (cc (rw (z, n) at e))
    | inr (t, q) ↦ rw (z, c_string-first a b q) (rw (z, q) at e)
  ]
]

-- If the first part of the command line has its NUL, the string that `load_android_cmdline`
-- returns is that part up to the NUL: the second part is never seen.
pub cmdline_of-first :
    (buf : Bytes) (size : ℕ) {s : Bytes}
    → c_string (header_of buf).cmdline ≡ some s
    → c_string (cmdline_of (buf, size)) ≡ some s
unfolding cmdline_of
cmdline_of-first buf size e = c_string-first (header_of buf).cmdline (header_of buf).extra_cmdline e
