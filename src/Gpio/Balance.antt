-- ===== src/Gpio/Balance.antt =====
-- The descriptors that the functions of boot/gpio.c open and close.
use midas_util.Base.{ℕ, ◌+◌, ◌≡◌, refl, Option, none, some, List, [], ◌∷◌, Bytes, arith}
use midas_util.Gpio.{
  DirEntry, opened, closed, scan, get_gpio_name, GpioDev, GpioOverlayCfg, gpio_should_apply,
}

closed-opened : (ent : DirEntry) → closed ent ≡ opened ent
unfolding closed opened
closed-opened ent = ground arith

scan-fds : (label : Bytes) (ents : List DirEntry) (fds : ℕ) → (scan label ents (fds + 1)).1 ≡ fds
unfolding scan
scan-fds label [] fds = omega arith
scan-fds label (ent ∷ ents) fds = ground (arith, closed-opened ent, scan-fds label ents fds)

-- `get_gpio_name` leaves as many descriptors open as it found, on every way out.
pub get_gpio_name-fds :
    (dir : Option (List DirEntry)) (label : Bytes) (fds : ℕ) → (get_gpio_name dir label fds).1 ≡ fds
unfolding get_gpio_name
get_gpio_name-fds none label fds = refl
get_gpio_name-fds (some ents) label fds = scan-fds label ents fds

-- `gpio_should_apply` leaves as many descriptors open as it found, on every way out.
pub gpio_should_apply-fds :
    (dev : GpioDev) (cfg : GpioOverlayCfg) (fds : ℕ) → (gpio_should_apply dev cfg fds).1 ≡ fds
unfolding gpio_should_apply
gpio_should_apply-fds dev cfg fds = ground arith
