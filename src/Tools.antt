-- ===== src/Tools.antt =====
-- blank.c and reboot.c. What the kernel does is a parameter.
pub mod Blank
mod Tests
use midas_util.Base.{ℕ, List, [], ◌∷◌, Bytes, if◌then◌else◌}
use midas_util.Base.Ints.{ℤ, pos, negsuc, negative}

-- The argument of `FBIOBLANK`, from linux/fb.h.
pub data Blanking : Type 0 where
  unblank : Blanking
  normal : Blanking

-- The calls of blank.c, on a state of the machine.
pub record Screen : Type 1 where
  pub State : Type 0
  -- `open("/dev/fb0", O_RDWR)`
  pub open_fb : State → ℤ × State
  -- `ioctl(fd, FBIOBLANK, ...)`
  pub ioctl_blank : ℤ → Blanking → State → ℤ × State
  pub close : ℤ → State → State

module _ (screen : Screen) where
  open screen use {State, open_fb, ioctl_blank, close}

  -- from the second `ioctl` on
  unfoldable pub blank_off : ℤ × State → ℤ × State
  blank_off (fd, s) =
      let (ret, s') = ioctl_blank fd unblank s in
      if negative ret then (pos 3, s') else (pos 0, close fd s')

  -- from the first `ioctl` on
  unfoldable pub blank_on : ℤ × State → ℤ × State
  blank_on (fd, s) =
      let (ret, s') = ioctl_blank fd normal s in
      if negative ret then (pos 2, s') else blank_off (fd, s')

  -- `main` of blank.c: the code that it returns, and the state
  unfoldable pub blank : State → ℤ × State
  blank s = let (fd, s') = open_fb s in if negative fd then (pos 1, s') else blank_on (fd, s')

-- The system calls of reboot.c.
pub data Call : Type 0 where
  sync : Call
  restart : Bytes → Call

-- `main` of reboot.c: its code, and the calls that it makes
unfoldable pub reboot : List Bytes → ℤ × List Call
reboot (prog ∷ (mode ∷ rest)) = (pos 0, sync ∷ restart mode ∷ [])
reboot _ = (pos 1, sync ∷ [])
