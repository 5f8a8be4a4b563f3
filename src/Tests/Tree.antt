-- ===== src/Tests/Tree.antt =====
-- The theorems about the device tree, the pins and `main` at small inputs.
use midas_util.Base.{
  ℕ, ◌^◌, ◌≤◌, ◌≡◌, ◌↔◌, refl, true, false, none, some, List, [], ◌∷◌, Bytes, Option, codes, ok,
  arith,
}
use midas_util.Base.Ints.{pos}
use midas_util.CString.{str_eq}
use midas_util.Config.{DeviceConfig, OverlayCfg, mode_gpio, int, str, OverlayMode}
use midas_util.Gpio.{
  DirEntry, GpioDev, GpioOverlayCfg, failed, done, get_gpio_name, gpio_should_apply,
}
use midas_util.Gpio.Results.{Search, get_gpio_name-Search, Reads, gpio_should_apply_one}
use midas_util.Ufdt.{Machine, applies}
use midas_util.Ufdt.Overlays.{listed, applies_gpio_error}
use midas_util.BootImage.{le32}
use midas_util.Main.{check_zimage, place}
use midas_util.Main.Fixtures.{kernel}
use midas_util.Main.Zimage.{stated_length, check_zimage_iff}
use midas_util.Main.Layout.{IsPlaced, place-IsPlaced}

-- /dev with a file that cannot be opened, a chip with another label, and the chip looked for
abbrev chips : List DirEntry
chips =
    record { d_name = codes "gpiochip0"; opens = false; info = none }
    ∷ record {
      d_name = codes "gpiochip1";
      opens = true;
      info = some (record { name = codes "gpiochip1"; label = codes "gpa0" });
    }
    ∷ record {
      d_name = codes "gpiochip2";
      opens = true;
      info = some (record { name = codes "gpiochip2"; label = codes "gpx1" });
    }
    ∷ []

get_gpio_name-Search_example :
    (r : Option Bytes) × Search (codes "gpx1") chips r
    × (get_gpio_name (some chips) (codes "gpx1") 3 ≡ (r, 3))
    × (get_gpio_name none (codes "gpx1") 3 ≡ (none, 3))
get_gpio_name-Search_example = get_gpio_name-Search (codes "gpx1") chips 3

-- a pin that reads 1
abbrev high : GpioDev
high = record {
  open_dev = λ path. done 5;
  line_handle = λ fd pin. done (pos 6);
  line_values = λ fd. done 1;
  errno = 0;
}

abbrev pin_cfg : GpioOverlayCfg
pin_cfg = record { bank = some (codes "gpiochip1"); pin = pos 3; value = pos 1 }

gpio_should_apply_one_example :
    ((gpio_should_apply high pin_cfg 3).1 ≡ 3)
    × (((gpio_should_apply high pin_cfg 3).0 ≡ pos 1) ↔ (
        (bank : Bytes) × (fd handle v : ℕ) × Reads high pin_cfg bank fd handle v
        × (pin_cfg.value ≡ pos v)))
gpio_should_apply_one_example = gpio_should_apply_one high pin_cfg 3

-- chips that cannot be opened: ENOENT
abbrev no_chips : GpioDev
no_chips = record {
  open_dev = λ path. failed 2;
  line_handle = λ fd pin. failed 9;
  line_values = λ fd. failed 9;
  errno = 0;
}

abbrev machine : Machine
machine = record {
  os = record { open_file = λ path. none; malloc = λ n. none };
  proc_cmdline = none;
  stack = [];
  gpio = no_chips;
  address = λ s. pos 4096;
}

abbrev overlay : OverlayMode → OverlayCfg
overlay mode = record {
  devices = some (codes "i9300") ∷ none ∷ [];
  ndevices = 1;
  path = some (codes "lcd.dtbo");
  name = codes "overlay lcd";
  mode = mode;
  u = record {
    bank_or_key = str (codes "gpiochip1");
    pin_or_value = int (pos 3);
    gpio_value = int (pos 1);
  };
}

abbrev i9300 : DeviceConfig
i9300 = record { codename = codes "i9300"; name = none; models = none; dtbs = none }

abbrev n7100 : DeviceConfig
n7100 = record { codename = codes "n7100"; name = none; models = none; dtbs = none }

its_device : listed 1 (overlay mode_gpio).devices (codes "i9300") ≡ true
unfolding listed str_eq
its_device = refl

applies_gpio_error_example : applies machine i9300 (overlay mode_gpio) ≡ ok true
applies_gpio_error_example =
    applies_gpio_error machine i9300 (overlay mode_gpio) 1 tt its_device refl refl refl

check_zimage_iff_example : (check_zimage (some kernel) 60 ≡ ok (some 52)) ↔ (
    (0x34 ≤ 60)
    × (le32 36 kernel ≡ 0x016f2818)
    × (stated_length kernel ≤ 60)
    × (52 ≡ stated_length kernel))
check_zimage_iff_example = check_zimage_iff kernel 60 52

place-IsPlaced_example : IsPlaced 5000000 (place (2 ^ 12) 0x40008000 5000001 5000000 900000 70000)
place-IsPlaced_example =
    place-IsPlaced 12 0x40008000 5000001 5000000 900000 70000 (omega arith) (omega arith)
