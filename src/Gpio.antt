-- ===== src/Gpio.antt =====
-- boot/gpio.c. The answers of the kernel (`opendir`, `openat`, the three `ioctl`s) are arguments;
-- each function also returns the number of descriptors and directories that are open at its end.
pub mod Balance
pub mod Results
use midas_util.Base.{
  ℕ, suc, ◌+◌, ◌-◌, Bool, true, false, Option, none, some, List, [], ◌∷◌, ◌++◌, Bytes, codes,
  if◌then◌else◌, ◌==◌, leb,
}
use midas_util.Base.Ints.{ℤ, pos, negsuc, neg, eqb}
use midas_util.CString.{str_eq, is_prefix, strstr, snprintf}

-- `struct gpiochip_info`, as the ioctl fills it
pub record ChipInfo : Type 0 where
  pub name : Bytes
  pub label : Bytes

-- An entry of /dev: its name, whether it can be opened, and what GPIO_GET_CHIPINFO_IOCTL answers.
pub record DirEntry : Type 0 where
  pub d_name : Bytes
  pub opens : Bool
  pub info : Option ChipInfo

-- what the loop does with one entry: go on, or return
pub data Visit : Type 0 where
  next : Visit
  give : Option Bytes → Visit

-- `strstr(ent->d_name, "gpiochip") == ent->d_name`
abbrev pub at_start : Option ℕ → Bool
at_start none = false
at_start (some i) = i == 0

visit_info : Bytes → Option ChipInfo → Visit
visit_info label none = give none
visit_info label (some i) = if str_eq label i.label then give (some i.name) else next

pub visit : Bytes → DirEntry → Visit
unfolding visit_info
visit label ent =
    if at_start (strstr ent.d_name (codes "gpiochip"))
    then (if ent.opens then visit_info label ent.info else give none)
    else next

-- Descriptors opened by the body of the loop and those that it closes again: an entry whose chip
-- answers is closed by `close(fd)`, one whose ioctl fails at `err_ioctl`.
pub opened : DirEntry → ℕ
opened ent =
    if at_start (strstr ent.d_name (codes "gpiochip")) then (if ent.opens then 1 else 0) else 0

closed_info : Option ChipInfo → ℕ
closed_info none = 1
closed_info (some i) = 1

pub closed : DirEntry → ℕ
unfolding closed_info
closed ent =
    if at_start (strstr ent.d_name (codes "gpiochip"))
    then (if ent.opens then closed_info ent.info else 0)
    else 0

-- `while ((ent = readdir(dir)) != NULL)`; every way out closes the directory
pub scan : Bytes → List DirEntry → ℕ → Option Bytes × ℕ
unfolding visit opened closed
scan label [] fds = (none, fds - 1)
scan label (ent ∷ ents) fds =
    let fds' = fds + opened ent - closed ent in
    let rest = scan label ents fds' in
    elim (visit label ent) [ next ↦ rest | give r ↦ (r, fds' - 1) ]

unfoldable pub get_gpio_name : Option (List DirEntry) → Bytes → ℕ → Option Bytes × ℕ
unfolding scan
get_gpio_name none label fds = (none, fds)
get_gpio_name (some ents) label fds = scan label ents (fds + 1)

-- `struct gpio_overlay_cfg`
pub record GpioOverlayCfg : Type 0 where
  pub bank : Option Bytes
  pub pin : ℤ
  pub value : ℤ

-- The answer of a system call: a value, or `errno`.
pub data Sys (A : Type 0) : Type 0 where
  done : A → Sys A
  failed : ℕ → Sys A

-- The kernel as `gpio_should_apply` sees it: opening a path, the descriptor of the line handle for
-- a pin, the value of the line, and the `errno` that an earlier call left.
pub record GpioDev : Type 0 where
  pub open_dev : Bytes → Sys ℕ
  pub line_handle : ℕ → ℤ → Sys ℤ
  pub line_values : ℤ → Sys ℕ
  pub errno : ℕ

abbrev einval : ℤ
einval = negsuc 21

truth : Bool → ℤ
truth true = pos 1
truth false = pos 0

-- `ret = ioctl(req.fd, GPIOHANDLE_GET_LINE_VALUES_IOCTL, &data)` and what follows; the two
-- `close` calls stand in front of the test
compare_line : GpioOverlayCfg → Sys ℕ → ℤ
unfolding truth
compare_line cfg (failed e) = neg e
compare_line cfg (done v) = truth (eqb (pos v) cfg.value)

-- `req.fd <= 0`
abbrev not_positive : ℤ → Bool
not_positive (pos n) = n == 0
not_positive (negsuc n) = true

with_handle : GpioDev → GpioOverlayCfg → Sys ℤ → ℕ → ℤ × ℕ
unfolding compare_line
with_handle dev cfg (failed e) fds = (neg e, fds - 1)
with_handle dev cfg (done fd) fds =
    if not_positive fd
    then (neg dev.errno, fds - 1)
    else (compare_line cfg (dev.line_values fd), fds + 1 - 1 - 1)

with_chip : GpioDev → GpioOverlayCfg → Sys ℕ → ℕ → ℤ × ℕ
unfolding with_handle
with_chip dev cfg (failed e) fds = (neg e, fds)
with_chip dev cfg (done fd) fds = with_handle dev cfg (dev.line_handle fd cfg.pin) (fds + 1)

unfoldable pub gpio_should_apply : GpioDev → GpioOverlayCfg → ℕ → ℤ × ℕ
unfolding with_chip
gpio_should_apply dev cfg fds = elim cfg.bank [
  | none ↦ (einval, fds)
  | some bank ↦ with_chip dev cfg (dev.open_dev (snprintf 36 (codes "/dev/" ++ bank))) fds
]
