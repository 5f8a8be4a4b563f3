-- ===== src/Config/ReadOverlays.antt =====
-- `handler` on the lines of the sections of overlays in turn.
use mathlib.Core.List.{append_assoc, append-nil}
use midas_util.Base.{
  ◌≡◌, refl, ◌∙◌, true, false, Option, List, [], ◌∷◌, ◌++◌, Bytes, codes, ok, All, length,
  get_elem?-append, set-append, arith,
}
use midas_util.CString.{str_eq, strn_eq}
use midas_util.CString.Compare.{str_eq_refl}
use midas_util.Base.Ints.{pos}
use midas_util.Config.Split.{array_of}
use midas_util.Config.Valid.{Fresh}
use midas_util.Config.File.{
  all, joined, Mode, OverlaySection, OverlayIsNamed, OverlaysDiffer, HasChip, File, Line,
  mode_lines, overlay_lines, all_overlay_lines, overlay_with, overlay_in, overlay_of, overlays_of,
}
use midas_util.Config.ReadDevices.{read_all, reading, split-join}
use midas_util.Config.{
  DeviceConfig, OverlayCfg, OverlayMode, mode_unknown, mode_gpio, mode_cmdline, int, str, Word,
  new_overlay, find_or_create_overlay, update_overlay, handle_overlay, handler,
}

not_global : (s : Bytes) → strn_eq 7 (codes "overlay") s ≡ true → str_eq s (codes "global") ≡ false
unfolding strn_eq str_eq
not_global [] h = absurd (cc)
not_global (c ∷ s) h = ground arith

find_or_create_overlay-end :
    (os : List OverlayCfg) (name : Bytes)
    → Fresh name os
    → find_or_create_overlay os name ≡ (os ++ new_overlay name ∷ [], length os)
unfolding find_or_create_overlay
find_or_create_overlay-end [] name h = refl
find_or_create_overlay-end (o ∷ os) name (h, hs) = rw (h, find_or_create_overlay-end os name hs)

find_or_create_overlay-last :
    (os : List OverlayCfg) (o : OverlayCfg)
    → Fresh o.name os
    → find_or_create_overlay (os ++ o ∷ []) o.name ≡ (os ++ o ∷ [], length os)
unfolding find_or_create_overlay
find_or_create_overlay-last [] o h = rw (str_eq_refl o.name)
find_or_create_overlay-last (p ∷ os) o (h, hs) = rw (h, find_or_create_overlay-last os o hs)

module _ (gpio_name : Bytes → Option Bytes) (f : File) (ds : List DeviceConfig) where
  module _ (pre : List OverlayCfg) (o : OverlaySection) (is_named : OverlayIsNamed gpio_name o)
      (others : Fresh o.section pre) where
    read_first_line :
        {p : OverlayCfg} (name value : Bytes) (rest : List Line)
        → update_overlay gpio_name (new_overlay o.section) name value ≡ ok (p, true)
        → read_all gpio_name (reading f ds pre) ((o.section, name, value) ∷ rest)
          ≡ read_all gpio_name (reading f ds (pre ++ p ∷ [])) rest
    unfolding read_all handler handle_overlay
    read_first_line {p} name value rest h = rw (
      not_global o.section is_named.overlay,
      is_named.overlay,
      find_or_create_overlay-end pre o.section others,
      get_elem?-append pre (new_overlay o.section) [],
      h,
      set-append pre (new_overlay o.section) p [],
    )

    read_line :
        (p : OverlayCfg) {q : OverlayCfg} (name value : Bytes) (rest : List Line)
        → p.name ≡ o.section
        → update_overlay gpio_name p name value ≡ ok (q, true)
        → read_all gpio_name (reading f ds (pre ++ p ∷ [])) ((o.section, name, value) ∷ rest)
          ≡ read_all gpio_name (reading f ds (pre ++ q ∷ [])) rest
    unfolding read_all handler handle_overlay
    read_line p {q} name value rest e h = rw (
      not_global o.section is_named.overlay,
      is_named.overlay,
      ← e,
      find_or_create_overlay-last pre p (rw (← e) at others),
      get_elem?-append pre p [],
      h,
      set-append pre p q [],
    )

    -- The overlay before its mode is read.
    abbrev started : OverlayMode → Word → Word → OverlayCfg
    started mode first second = overlay_with o mode first second (int (pos 0))

    read_mode :
        (mode : Mode) (rest : List Line)
        → HasChip gpio_name mode
        → read_all gpio_name
            (reading f ds (pre ++ started mode_unknown (int (pos 0)) (int (pos 0)) ∷ []))
            (mode_lines o.section mode rest)
          ≡ read_all gpio_name (reading f ds (pre ++ overlay_in gpio_name o mode ∷ [])) rest
    unfolding update_overlay str_eq
    read_mode Mode.fixed rest chip = read_line _ (codes "mode") (codes "fixed") rest refl refl
    read_mode (Mode.gpio bank pin value) rest (name, chip) =
        read_line _ (codes "mode") (codes "gpio") _ refl refl
        ∙ read_line (started mode_gpio (int (pos 0)) (int (pos 0)))
            {q = started mode_gpio (str name) (int (pos 0))} (codes "bank") bank _ refl (rw chip)
        ∙ read_line _ (codes "pin") pin _ refl refl
        ∙ read_line _ (codes "value") value rest refl refl
        ∙ rw chip
    read_mode (Mode.cmdline key value) rest chip =
        read_line _ (codes "mode") (codes "cmdline") _ refl refl
        ∙ read_line (started mode_cmdline (int (pos 0)) (int (pos 0))) (codes "key") key _ refl refl
        ∙ read_line (started mode_cmdline (str key) (int (pos 0))) (codes "value") value rest refl
            refl

    read_overlay :
        (rest : List Line)
        → read_all gpio_name (reading f ds pre) (overlay_lines o rest)
          ≡ read_all gpio_name (reading f ds (pre ++ overlay_of gpio_name o ∷ [])) rest
    unfolding update_overlay str_eq
    read_overlay rest =
        read_first_line {p = listed} (codes "devices") (joined o.devices) _
          (rw (split-join o.devices.first o.devices.more is_named.devices))
        ∙ read_line listed (codes "path") o.path _ refl refl
        ∙ read_mode o.mode rest is_named.chip
      where
        listed : OverlayCfg
        listed = record (new_overlay o.section) {
          devices = array_of (all o.devices);
          ndevices = length (all o.devices);
        }

  Fresh-snoc :
      (name : Bytes) (os : List OverlayCfg) (o : OverlayCfg)
      → Fresh name os
      → str_eq name o.name ≡ false
      → Fresh name (os ++ o ∷ [])
  Fresh-snoc name [] o h e = (e, tt)
  Fresh-snoc name (p ∷ os) o (h, hs) e = (h, Fresh-snoc name os o hs e)

  overlay_in-name :
      (o : OverlaySection) (mode : Mode) → (overlay_in gpio_name o mode).name ≡ o.section
  overlay_in-name o Mode.fixed = refl
  overlay_in-name o (Mode.gpio bank pin value) = refl
  overlay_in-name o (Mode.cmdline key value) = refl

  differ-snoc :
      (pre : List OverlayCfg) (o : OverlaySection) (os : List OverlaySection)
      → All (λ p. Fresh p.section pre) os
      → All (λ p. str_eq p.section o.section ≡ false) os
      → All (λ p. Fresh p.section (pre ++ overlay_of gpio_name o ∷ [])) os
  differ-snoc pre o [] v w = tt
  differ-snoc pre o (p ∷ os) (v, vs) (w, ws) = (
    Fresh-snoc p.section pre (overlay_of gpio_name o) v (rw (overlay_in-name o o.mode) w),
    differ-snoc pre o os vs ws,
  )

  pub read_overlays :
      (pre : List OverlayCfg) (os : List OverlaySection)
      → All (OverlayIsNamed gpio_name) os
      → OverlaysDiffer os
      → All (λ p. Fresh p.section pre) os
      → read_all gpio_name (reading f ds pre) (all_overlay_lines os)
        ≡ ok (reading f ds (pre ++ overlays_of gpio_name os))
  unfolding read_all
  read_overlays pre [] n v w = rw (append-nil pre)
  read_overlays pre (o ∷ os) (n, ns) (v, vs) (w, ws) =
      read_overlay pre o n w (all_overlay_lines os)
      ∙ rw append_assoc at
          (read_overlays (pre ++ overlay_of gpio_name o ∷ []) os ns vs (differ-snoc pre o os ws v))
