-- ===== src/Ufdt.antt =====
-- boot/ufdt.c: overlays and properties of the device tree. libfdt and libufdt are a parameter: a
-- device tree is an abstract value, and each call that the file makes is a field.
pub mod Success
pub mod Overlays
pub mod Values
pub mod Space
pub mod Room
pub mod Grown
pub mod Selected
pub mod Memory
pub mod Fixtures
mod Tests
use midas_util.Base.{
  ℕ, zero, suc, ◌+◌, ◌-◌, ◌*◌, ◌%◌, ◌^◌, Bool, true, false, not, ◌&&◌, ◌||◌, Option, none, some,
  List, [], ◌∷◌, ◌++◌, Bytes, codes, Run, ok, fault, ◌>>=◌, deref, length, if◌then◌else◌, leb, ltb,
  ◌==◌,
}
use midas_util.Base.Ints.{ℤ, pos, negsuc, nonzero, negative, eqb}
use midas_util.CString.{str_eq}
use midas_util.Config.{
  StrArray, Word, int, str, OverlayUnion, OverlayCfg, OverlayMode, mode_invalid, mode_unknown,
  mode_fixed, mode_gpio, mode_cmdline, GlobalConfig, DeviceConfig,
}
use midas_util.Gpio.{GpioDev, GpioOverlayCfg, gpio_should_apply}
use midas_util.Util.{Os, ReadResult, bytes, util_has_cmdline, load_overlay, align}

-- The calls of libufdt, of libfdt, and of `realloc` on a device tree. `none` is NULL. `setprop` gets
-- what lies at the pointer to the value, and the number of bytes to store.
pub record Libfdt : Type 1 where
  pub Blob : Type 0
  pub install_blob : Bytes → ℕ → Option Blob
  pub apply_overlay : Option Blob → ℕ → Bytes → ℕ → Option Blob
  pub totalsize : Blob → ℕ
  pub set_totalsize : Blob → ℕ → Blob
  pub realloc : Blob → ℕ → Option Blob
  pub subnode_offset : Blob → Bytes → ℤ
  pub add_subnode : Blob → Bytes → ℤ × Blob
  pub get_property : Blob → ℤ → Bytes → Bool × ℤ
  pub setprop : Blob → ℤ → Bytes → Bytes → ℕ → ℤ × Blob
  pub setprop_cell : Blob → ℤ → Bytes → ℕ → ℤ × Blob

-- The machine: files, the kernel's command line, the stack that `util_has_cmdline` reads into, the
-- pins, and where a string lies when its pointer is read as a number.
pub record Machine : Type 0 where
  pub os : Os
  pub proc_cmdline : Option (List ReadResult)
  pub stack : Bytes
  pub gpio : GpioDev
  pub address : Bytes → ℤ

-- a word of the union read as `char *`: NULL, a string, or a fault when it is used
pub data CharPtr : Type 0 where
  null wild : CharPtr
  text : Bytes → CharPtr

char_ptr : Word → CharPtr
char_ptr (int n) = if nonzero n then wild else null
char_ptr (str s) = text s

word_int : Machine → Word → ℤ
word_int m (int n) = n
word_int m (str s) = m.address s

-- `gpio_should_apply(&o->u.gpio)`; a bank that is no string is formatted as one
gpio_test : Machine → OverlayUnion → CharPtr → Run Bool
unfolding word_int
gpio_test m u wild = fault
gpio_test m u null = ok (
    nonzero
      (gpio_should_apply m.gpio
        (record { bank = none; pin = word_int m u.pin_or_value; value = word_int m u.gpio_value })
        0).0)
gpio_test m u (text bank) = ok (
    nonzero
      (gpio_should_apply m.gpio
        (record {
          bank = some bank;
          pin = word_int m u.pin_or_value;
          value = word_int m u.gpio_value;
        })
        0).0)

reads_some : Option (List ReadResult) → Bool
reads_some (some (bytes (c ∷ cs) ∷ rs)) = true
reads_some _ = false

-- `util_has_cmdline(o->u.cmdline.key, o->u.cmdline.value)`: the key is used once something was
-- read, the value once the key was found, which is what a search for the empty value tells.
cmdline_test : Machine → CharPtr → CharPtr → Run Bool
unfolding reads_some
cmdline_test m (text key) (text val) = util_has_cmdline m.proc_cmdline m.stack key val
cmdline_test m (text key) _ = do
  found ← util_has_cmdline m.proc_cmdline m.stack key []
  if found then fault else ok false
cmdline_test m _ _ = if reads_some m.proc_cmdline then fault else ok false

-- the `switch` on the mode: is the overlay to be applied?
unfoldable pub mode_test : Machine → OverlayMode → OverlayUnion → Run Bool
unfolding gpio_test cmdline_test char_ptr
mode_test m mode_fixed u = ok true
mode_test m mode_gpio u = gpio_test m u (char_ptr u.bank_or_key)
mode_test m mode_cmdline u = cmdline_test m (char_ptr u.bank_or_key) (char_ptr u.pin_or_value)
mode_test m _ u = ok false

-- the loop over the first n entries of `o->devices`
unfoldable pub names_device : ℕ → StrArray → Bytes → Run Bool
names_device zero a codename = ok false
names_device (suc n) [] codename = fault
names_device (suc n) (d ∷ a) codename =
    let rest = names_device n a codename in
    do s ← deref d; if str_eq s codename then ok true else rest

-- `should_apply`, and the `switch` behind it
unfoldable pub applies : Machine → DeviceConfig → OverlayCfg → Run Bool
applies m dev o = do
  listed ← names_device o.ndevices o.devices dev.codename
  if listed then mode_test m o.mode o.u else ok false

module _ (fdt : Libfdt) where
  open fdt use {Blob, install_blob, apply_overlay, totalsize}

  -- The device tree in hand and its size; a failed `ufdt_apply_overlay` gives NULL, and
  -- `fdt_totalsize` reads its header then.
  unfoldable pub apply_loaded : Option Blob × ℕ → Option Bytes × Option ℕ → Run (Option Blob × ℕ)
  apply_loaded (hdr, size) (none, _) = ok (hdr, size)
  apply_loaded (hdr, size) (some buf, len) = do
    sz ← deref len
    new ← deref (apply_overlay hdr size buf sz)
    ok (some new, totalsize new)

  unfoldable pub apply_one :
      Machine → GlobalConfig → Option Blob × ℕ → OverlayCfg → Run (Option Blob × ℕ)
  apply_one m cfg s o = do loaded ← load_overlay m.os cfg o; apply_loaded s loaded

  -- the loop over `cfg->overlays`
  unfoldable pub apply_all :
      Machine
      → GlobalConfig
      → DeviceConfig
      → List OverlayCfg
      → Option Blob × ℕ
      → Run (Option Blob × ℕ)
  apply_all m cfg dev [] s = ok s
  apply_all m cfg dev (o ∷ os) s = do
    test ← applies m dev o
    s' ← (if test then apply_one m cfg s o else ok s)
    apply_all m cfg dev os s'

  unfoldable pub apply_overlays :
      Machine → GlobalConfig → DeviceConfig → Bytes → ℕ → Run (Option Blob × ℕ)
  apply_overlays m cfg dev dtb_buf dtb_size =
      apply_all m cfg dev cfg.overlays (install_blob dtb_buf dtb_size, dtb_size)

-- FDT_TAGALIGN: up to a multiple of FDT_TAGSIZE, which is 4
unfoldable pub tag_align : ℕ → ℕ
tag_align x = align 32 x 4

-- Sizes are `int`, `off_t`, `size_t` and `uint32_t`, all of 32 bits: a number is what the 32 bits say
-- as an unsigned word, and a sum wraps.
-- a `struct fdt_node_header` has 4 bytes, a `struct fdt_property` 12
unfoldable pub fdt_node_len : Bytes → ℕ
fdt_node_len name = (4 + tag_align (length name + 1) + 4) % 2 ^ 32

unfoldable pub fdt_prop_len : Bytes → ℕ → ℕ
fdt_prop_len name len = (length name + 1 + 12 + tag_align len) % 2 ^ 32

-- What the two setters leave: success with the tree and its size; or an error code, with the
-- caller's tree, or `none` if `realloc` has taken it and the caller's pointer dangles.
pub data SetupResult (Blob : Type 0) : Type 0 where
  success : Blob → ℕ → SetupResult Blob
  error : ℤ → Option Blob → SetupResult Blob

abbrev pub einval : ℤ
einval = negsuc 21

abbrev pub enomem : ℤ
enomem = negsuc 11

abbrev pub not_found : ℤ
not_found = negsuc 0

module _ (fdt : Libfdt) where
  open fdt use {
    Blob, totalsize, set_totalsize, realloc, subnode_offset, add_subnode, get_property, setprop,
    setprop_cell,
  }

  -- The calls change a tree in place, so the caller's tree too, if it is still the one in hand.
  unfoldable pub in_place : Option Blob → Blob → Option Blob
  in_place none buf = none
  in_place (some old) buf = some buf

  -- `fdt_setprop(...)` and what follows; `kept` is the caller's tree
  unfoldable pub finish_setup : Option Blob → ℕ → ℤ × Blob → SetupResult Blob
  finish_setup kept sz (r, buf) =
      if nonzero r then error einval (in_place kept buf) else success buf sz

  -- from the comparison with `fdt_totalsize` on
  unfoldable pub grow_and_set : (Blob → ℤ × Blob) → Option Blob → Blob → ℕ → SetupResult Blob
  unfolding finish_setup in_place
  grow_and_set set kept buf sz =
      if ltb (totalsize buf) sz
      then elim (realloc (set_totalsize buf sz) sz) [
        | none ↦ error enomem (in_place kept (set_totalsize buf sz))
        | some buf' ↦ finish_setup none sz (set buf')
      ]
      else finish_setup kept sz (set buf)

  -- the size once the property has room, from what `fdt_get_property` gave
  unfoldable pub size_with : Bytes → ℕ → ℕ → Bool × ℤ → Option ℕ
  size_with prop len sz (false, r) =
      if eqb r not_found then some ((sz + fdt_prop_len prop len) % 2 ^ 32) else none
  size_with prop len sz (true, pos n) =
      some (if ltb n len then (sz + tag_align (len - n)) % 2 ^ 32 else sz)
  size_with prop len sz (true, negsuc n) = some sz

  -- from `fdt_get_property` on, in the node at `off`
  unfoldable pub set_in_node :
      (ℤ → Blob → ℤ × Blob) → Bytes → ℕ → Option Blob → ℤ × Blob → ℕ → SetupResult Blob
  unfolding grow_and_set size_with
  set_in_node set prop len kept (off, buf) sz =
      if negative off
      then error einval kept
      else elim (size_with prop len sz (get_property buf off prop)) [
        | none ↦ error einval kept
        | some sz' ↦ grow_and_set (set off) kept buf sz'
      ]

  -- The text that `setup_dtb_prop` and `setup_dtb_prop_int` share: they differ in the length and
  -- in the last call.
  unfoldable pub setup_with :
      (ℤ → Blob → ℤ × Blob) → Blob → ℕ → Bytes → Bytes → ℕ → SetupResult Blob
  unfolding set_in_node
  setup_with set dtb size node prop len =
      let sz = (size + fdt_node_len node) % 2 ^ 32 in
      if eqb (subnode_offset dtb node) not_found
      then elim (realloc (set_totalsize dtb sz) sz) [
        | none ↦ error enomem (some (set_totalsize dtb sz))
        | some buf ↦ set_in_node set prop len none (add_subnode buf node) sz
      ]
      else set_in_node set prop len (some dtb) (subnode_offset dtb node, dtb) size

  unfoldable pub setup_dtb_prop : Blob → ℕ → Bytes → Bytes → Bytes → ℕ → SetupResult Blob
  setup_dtb_prop dtb size node prop val len =
      setup_with (λ off buf. setprop buf off prop val len) dtb size node prop len

  unfoldable pub setup_dtb_prop_int : Blob → ℕ → Bytes → Bytes → ℕ → SetupResult Blob
  setup_dtb_prop_int dtb size node prop val =
      setup_with (λ off buf. setprop_cell buf off prop val) dtb size node prop 4
