-- ===== src/Config/RoundTrip.antt =====
-- `load_config` of boot/config.c on a file that is well-formed.
use midas_util.Base.{
  ◌≤◌, ◌≡◌, ap, ◌∙◌, Bool-cases, inl, inr, Option, some, List, [], ◌∷◌, Bytes, ok, >>=-eq-ok, All,
  arith,
}
use midas_util.Config.{GlobalConfig, empty_config, handler}
use midas_util.Config.Load.{
  Inih, IniLine, entry, bad, Documented, Accepts, end, next, Numbered, load_config,
  load_config-Accepts,
}
use midas_util.Config.File.{
  File, Line, all_overlay_lines, lines_of, devices_of, config_of, IsWellFormed,
}
use midas_util.Config.ReadDevices.{read_all, read_global, read_devices}
use midas_util.Config.ReadOverlays.{read_overlays}

-- inih finds these lines, numbered from 1; a file may have other lines between them that say nothing.
abbrev pub Says : List IniLine → List Line → Type 0
Says [] [] = Unit {0}
Says (entry n section name value ∷ is) (l ∷ ls) =
    (1 ≤ n) × ((section, name, value) ≡ l) × Says is ls
Says _ _ = ⊥

Says-Numbered : (is : List IniLine) (ls : List Line) → Says is ls → Numbered is
Says-Numbered [] ls s = tt
Says-Numbered (bad n ∷ is) ls s = absurd s
Says-Numbered (entry n section name value ∷ is) [] s = absurd s
Says-Numbered (entry n section name value ∷ is) (l ∷ ls) (p, e, s) = (p, Says-Numbered is ls s)

Says-Accepts :
    (gpio_name : Bytes → Option Bytes) {last : GlobalConfig} (cfg : GlobalConfig)
    (is : List IniLine) (ls : List Line)
    → Says is ls
    → read_all gpio_name cfg ls ≡ ok last
    → Accepts (handler gpio_name) last cfg is
unfolding read_all
Says-Accepts g cfg [] [] s h = end (ground arith)
Says-Accepts g cfg [] (l ∷ ls) s h = absurd s
Says-Accepts g cfg (bad n ∷ is) ls s h = absurd s
Says-Accepts g cfg (entry n section name value ∷ is) [] s h = absurd s
Says-Accepts g {last} cfg (entry n section name value ∷ is) (l ∷ ls) (p, e, s) h =
    let (r, q, later) = >>=-eq-ok (handler g cfg section name value) _ (rw (← e) at h) in
    elim (Bool-cases r.1) [
      | inl t ↦ next (q ∙ ap (λ b. ok (r.0, b)) t) (Says-Accepts g r.0 is ls s (rw t at later))
      | inr f ↦ absurd (ground arith)
    ]

all_fresh : {A : Type 0} (xs : List A) → All (λ x. Unit {0}) xs
all_fresh [] = tt
all_fresh (x ∷ xs) = (tt, all_fresh xs)

read-lines_of :
    (gpio_name : Bytes → Option Bytes) (f : File)
    → IsWellFormed gpio_name f
    → read_all gpio_name empty_config (lines_of f) ≡ ok (config_of gpio_name f)
unfolding lines_of config_of
read-lines_of g f w =
    read_global g f _ w.codenames
    ∙ read_devices g f [] (f.first ∷ f.more) [] (all_overlay_lines f.overlays) w.devices
        w.devices_differ (all_fresh (f.first ∷ f.more))
    ∙ read_overlays g f (devices_of (f.first ∷ f.more)) [] f.overlays w.overlays w.overlays_differ
        (all_fresh f.overlays)

-- If inih behaves as documented and finds in the file the lines of a well-formed configuration
-- file, then `load_config` returns the configuration that the file means. A file is well-formed if
-- no name in a list holds a comma, no codename is `global` or begins with "overlay", the names of
-- the overlays' sections begin with "overlay", no two devices have one codename and no two overlays
-- have one section, and the chips that are named are there.
pub load_config-lines_of :
    (ini : Inih) (gpio_name : Bytes → Option Bytes) (file : Bytes) (is : List IniLine) (f : File)
    → Documented ini
    → ini.lines file ≡ some is
    → Says is (lines_of f)
    → IsWellFormed gpio_name f
    → load_config ini gpio_name file ≡ ok (some (config_of gpio_name f))
load_config-lines_of ini g file is f doc opens says w =
    (load_config-Accepts ini doc g file is (config_of g f) opens
        (Says-Numbered is (lines_of f) says)).1
      (Says-Accepts g empty_config is (lines_of f) says (read-lines_of g f w))
