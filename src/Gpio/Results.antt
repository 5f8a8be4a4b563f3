-- ===== src/Gpio/Results.antt =====
-- What the functions of boot/gpio.c return.
use midas_util.Base.{
  ◌∙◌, ap, ℕ, zero, suc, ◌+◌, ◌-◌, ◌≡◌, ◌≢◌, refl, ◌↔◌, inl, inr, true, false, Option, none, some,
  List, [], ◌∷◌, ◌++◌, Bytes, codes, arith, if◌then◌else◌, ◌==◌, Bool-cases, Option-cases,
}
use midas_util.Base.Ints.{ℤ, pos, negsuc, neg, eqb}
use midas_util.CString.{str_eq, is_prefix, strstr, shift, snprintf}
use midas_util.CString.Compare.{eq_of_str_eq}
use midas_util.Gpio.{
  ChipInfo, DirEntry, at_start, visit, visit_info, opened, closed, scan, get_gpio_name, next,
  GpioDev, GpioOverlayCfg, Sys, done, failed, truth, compare_line, with_handle, with_chip,
  gpio_should_apply,
}
use midas_util.Gpio.Balance.{get_gpio_name-fds, gpio_should_apply-fds}

abbrev pub chip_prefix : Bytes
chip_prefix = codes "gpiochip"

-- The chip that an entry of /dev is, if it can be opened and answers.
unfoldable pub answer : DirEntry → Option ChipInfo
answer e = if e.opens then e.info else none

-- How the search for a label goes over the entries of /dev, and what it gives.
pub data Search (label : Bytes) : List DirEntry → Option Bytes → Type 0 where
  nothing : Search label [] none
  no_chip :
      {e : DirEntry} {es : List DirEntry} {r : Option Bytes}
      → is_prefix chip_prefix e.d_name ≡ false
      → Search label es r
      → Search label (e ∷ es) r
  other :
      {e : DirEntry} {es : List DirEntry} {r : Option Bytes} {i : ChipInfo}
      → is_prefix chip_prefix e.d_name ≡ true
      → answer e ≡ some i
      → str_eq label i.label ≡ false
      → Search label es r
      → Search label (e ∷ es) r
  no_answer :
      {e : DirEntry} {es : List DirEntry}
      → is_prefix chip_prefix e.d_name ≡ true
      → answer e ≡ none
      → Search label (e ∷ es) none
  match :
      {e : DirEntry} {es : List DirEntry} {i : ChipInfo}
      → is_prefix chip_prefix e.d_name ≡ true
      → answer e ≡ some i
      → label ≡ i.label
      → Search label (e ∷ es) (some i.name)

at_start-shift : (o : Option ℕ) → at_start (shift o) ≡ false
unfolding shift
at_start-shift none = refl
at_start-shift (some i) = ground arith

-- `strstr(s, key) == s` says that s begins with key.
at_start-strstr : (s key : Bytes) → at_start (strstr s key) ≡ is_prefix key s
unfolding strstr
at_start-strstr [] key = ground arith
at_start-strstr (c ∷ s) key = ground (arith, at_start-shift (strstr s key))

visit_no_chip :
    (label : Bytes) (e : DirEntry) → is_prefix chip_prefix e.d_name ≡ false → visit label e ≡ next
unfolding visit
visit_no_chip label e h = rw (at_start-strstr e.d_name chip_prefix, h)

visit_chip :
    (label : Bytes) (e : DirEntry)
    → is_prefix chip_prefix e.d_name ≡ true
    → visit label e ≡ visit_info label (answer e)
unfolding visit answer visit_info
visit_chip label e h = rw (at_start-strstr e.d_name chip_prefix, h) (ground arith)

scan-Search :
    (label : Bytes) (ents : List DirEntry) (fds : ℕ)
    → (r : Option Bytes) × Search label ents r × ((scan label ents fds).0 ≡ r)
unfolding scan visit_info
scan-Search label [] fds = (none, nothing, refl)
scan-Search label (e ∷ es) fds =
    let (r, s, q) = scan-Search label es (fds + opened e - closed e) in
    elim (Bool-cases (is_prefix chip_prefix e.d_name)) [
      | inl chip ↦ (elim (Option-cases (answer e)) [
        | inl n ↦ (none, no_answer chip n, rw (visit_chip label e chip, n, scan))
        | inr (i, a) ↦ elim (Bool-cases (str_eq label i.label)) [
          | inl t ↦ (
            some i.name,
            match chip a (eq_of_str_eq label i.label t),
            rw (visit_chip label e chip, a, t, scan, visit_info),
          )
          | inr f ↦ (r, other chip a f s, rw (visit_chip label e chip, a, f, scan, visit_info) q)
        ]
      ])
      | inr no_prefix ↦ (r, no_chip no_prefix s, rw (visit_no_chip label e no_prefix, scan) q)
    ]

-- `get_gpio_name` gives NULL if /dev cannot be opened. Else the first chip among its entries that
-- does not answer, or has the label, decides: it gives NULL, or the name of that chip; with no such
-- chip it gives NULL. On every way out it leaves as many descriptors open as it found.
pub get_gpio_name-Search :
    (label : Bytes) (ents : List DirEntry) (fds : ℕ)
    → (r : Option Bytes) × Search label ents r
      × (get_gpio_name (some ents) label fds ≡ (r, fds))
      × (get_gpio_name none label fds ≡ (none, fds))
unfolding get_gpio_name
get_gpio_name-Search label ents fds =
    let (r, s, q) = scan-Search label ents (fds + 1) in
    (r, s, λ i. (q i, get_gpio_name-fds (some ents) label fds i), refl)

-- `gpio_should_apply` can be told the pin's value.
pub record Reads (dev : GpioDev) (cfg : GpioOverlayCfg) (bank : Bytes) (fd handle v : ℕ)
    : Type 0 where
  pub bank_set : cfg.bank ≡ some bank
  pub opened : dev.open_dev (snprintf 36 (codes "/dev/" ++ bank)) ≡ done fd
  pub line : dev.line_handle fd cfg.pin ≡ done (pos (suc handle))
  pub value : dev.line_values (pos (suc handle)) ≡ done v

neg-ne-one : (n : ℕ) → neg n ≢ pos 1
neg-ne-one zero e = absurd (cc)
neg-ne-one (suc n) e = absurd (cc)

compare_line-one :
    (cfg : GpioOverlayCfg) (s : Sys ℕ)
    → compare_line cfg s ≡ pos 1
    → (v : ℕ) × (s ≡ done v) × (cfg.value ≡ pos v)
unfolding compare_line truth
compare_line-one cfg (failed e) h = absurd (neg-ne-one e h)
compare_line-one cfg (done v) h = (v, refl, value cfg.value h)
  where
    value : (x : ℤ) → truth (eqb (pos v) x) ≡ pos 1 → x ≡ pos v
    value (pos n) h = ground arith
    value (negsuc n) h = absurd (cc)

with_handle-one :
    (dev : GpioDev) (cfg : GpioOverlayCfg) (s : Sys ℤ) (fds : ℕ)
    → (with_handle dev cfg s fds).0 ≡ pos 1
    → (handle v : ℕ) × (s ≡ done (pos (suc handle)))
      × (dev.line_values (pos (suc handle)) ≡ done v)
      × (cfg.value ≡ pos v)
unfolding with_handle
with_handle-one dev cfg (failed e) fds h = absurd (neg-ne-one e h)
with_handle-one dev cfg (done (negsuc n)) fds h = absurd (neg-ne-one dev.errno h)
with_handle-one dev cfg (done (pos zero)) fds h = absurd (neg-ne-one dev.errno h)
with_handle-one dev cfg (done (pos (suc handle))) fds h =
    let positive : (suc handle == 0) ≡ false = ground arith in
    let (v, e, q) = compare_line-one cfg (dev.line_values (pos (suc handle))) (rw positive at h) in
    (handle, v, refl, e, q)

with_chip-one :
    (dev : GpioDev) (cfg : GpioOverlayCfg) (s : Sys ℕ) (fds : ℕ)
    → (with_chip dev cfg s fds).0 ≡ pos 1
    → (fd handle v : ℕ) × (s ≡ done fd)
      × (dev.line_handle fd cfg.pin ≡ done (pos (suc handle)))
      × (dev.line_values (pos (suc handle)) ≡ done v)
      × (cfg.value ≡ pos v)
unfolding with_chip
with_chip-one dev cfg (failed e) fds h = absurd (neg-ne-one e h)
with_chip-one dev cfg (done fd) fds h =
    let (handle, v, a, b, c) = with_handle-one dev cfg (dev.line_handle fd cfg.pin) (fds + 1) h in
    (fd, handle, v, refl, a, b, c)

should_apply-one :
    (dev : GpioDev) (cfg : GpioOverlayCfg) (fds : ℕ) (b : Option Bytes)
    → cfg.bank ≡ b
    → (gpio_should_apply dev cfg fds).0 ≡ pos 1
    → (bank : Bytes) × (fd handle v : ℕ) × Reads dev cfg bank fd handle v × (cfg.value ≡ pos v)
unfolding gpio_should_apply
should_apply-one dev cfg fds none e h = absurd (cc (rw e at h))
should_apply-one dev cfg fds (some bank) e h =
    let (fd, handle, v, a, b, c, d) =
      with_chip-one dev cfg (dev.open_dev (snprintf 36 (codes "/dev/" ++ bank))) fds (rw e at h) in
    (bank, fd, handle, v, record { bank_set = e; opened = a; line = b; value = c }, d)

Reads-gpio_should_apply :
    {dev : GpioDev} {cfg : GpioOverlayCfg} {bank : Bytes} {fd handle v : ℕ} (fds : ℕ)
    → Reads dev cfg bank fd handle v
    → gpio_should_apply dev cfg fds ≡ (truth (eqb (pos v) cfg.value), fds)
unfolding gpio_should_apply with_chip with_handle compare_line
Reads-gpio_should_apply fds r = rw (r.bank_set, r.opened, r.line, r.value) (ground arith)

matching : (v : ℕ) → truth (eqb (pos v) (pos v)) ≡ pos 1
unfolding truth
matching v = ground arith

pub gpio_should_apply_equal :
    {dev : GpioDev} {cfg : GpioOverlayCfg} {bank : Bytes} {fd handle v : ℕ} (fds : ℕ)
    → Reads dev cfg bank fd handle v
    → cfg.value ≡ pos v
    → gpio_should_apply dev cfg fds ≡ (pos 1, fds)
gpio_should_apply_equal {v = v} fds r e =
    Reads-gpio_should_apply fds r ∙ rw e (ap (λ (n : ℤ). (n, fds)) (matching v))

differing : (v : ℕ) (x : ℤ) → pos v ≢ x → truth (eqb (pos v) x) ≡ pos 0
unfolding truth
differing v (pos n) h = elim (Bool-cases (v == n)) [
  | inl t ↦ (let same : v ≡ n = ground arith in absurd (h (ap pos same)))
  | inr f ↦ rw f refl
]
differing v (negsuc n) h = refl

pub gpio_should_apply_unequal :
    {dev : GpioDev} {cfg : GpioOverlayCfg} {bank : Bytes} {fd handle v : ℕ} (fds : ℕ)
    → Reads dev cfg bank fd handle v
    → pos v ≢ cfg.value
    → gpio_should_apply dev cfg fds ≡ (pos 0, fds)
gpio_should_apply_unequal {cfg = cfg} {v = v} fds r h =
    Reads-gpio_should_apply fds r ∙ ap (λ (n : ℤ). (n, fds)) (differing v cfg.value h)

-- `gpio_should_apply` returns 1 exactly if a bank is set, its chip can be opened, gives a handle
-- above 0 for the pin, and the handle gives the value that is configured. Whatever it returns, it
-- leaves as many descriptors open as it found.
pub gpio_should_apply_one :
    (dev : GpioDev) (cfg : GpioOverlayCfg) (fds : ℕ)
    → ((gpio_should_apply dev cfg fds).1 ≡ fds)
      × (((gpio_should_apply dev cfg fds).0 ≡ pos 1) ↔ (
          (bank : Bytes) × (fd handle v : ℕ) × Reads dev cfg bank fd handle v
          × (cfg.value ≡ pos v)))
gpio_should_apply_one dev cfg fds = (
  gpio_should_apply-fds dev cfg fds,
  (
    should_apply-one dev cfg fds cfg.bank refl,
    λ (bank, fd, handle, v, r, e). rw (Reads-gpio_should_apply fds r, e) (matching v),
  ),
)
