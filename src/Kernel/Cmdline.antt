-- ===== src/Kernel/Cmdline.antt =====
-- `get_cmdline` of boot/kernel.c.
use midas_util.Base.{ap, ◌≡◌, some, ◌∷◌, ◌++◌, Bytes, codes, ok, length-append, take_all, arith}
use midas_util.CString.{snprintf, c_string}
use midas_util.Config.{GlobalConfig}
use midas_util.Util.{Os}
use midas_util.BootImage.{load_android_cmdline}
use midas_util.Kernel.{format_cmdline, get_cmdline}

-- The buffer of `get_cmdline` holds the whole of `root=<root> <cmdline>`: nothing is cut off.
pub format_cmdline_lem :
    (root cmdline : Bytes) → format_cmdline root cmdline ≡ codes "root=" ++ (root ++ b' ' ∷ cmdline)
unfolding format_cmdline snprintf
format_cmdline_lem root cmdline =
    take_all _ _ (omega (arith, length-append {0} root (b' ' ∷ cmdline)))

-- If a boot image was loaded and its command line is the string `s`, `get_cmdline` returns
-- `root=`, the root device, a space and `s`, with nothing cut off.
pub get_cmdline-image :
    (os : Os) (cfg : GlobalConfig) (root : Bytes) {buf s : Bytes}
    → load_android_cmdline os cfg ≡ ok (some buf)
    → c_string buf ≡ some s
    → get_cmdline os cfg root ≡ ok (codes "root=" ++ (root ++ b' ' ∷ s))
unfolding get_cmdline
get_cmdline-image os cfg root {s} e c = rw (e, c) (ap ok (format_cmdline_lem root s))
