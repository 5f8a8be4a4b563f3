-- ===== src/Config/Pointers/Fields.antt =====
-- The handlers of boot/config.c that do not use the list of overlays.
use midas_util.Base.{
  ◌≡◌, refl, Bool, true, false, Option, none, some, List, ok, fault, ◌>>=◌, if◌then◌else◌, Bytes,
  Run, codes,
}
use midas_util.Config.{
  OverlayCfg, GlobalConfig, DeviceConfig, handle_global, handle_section, handle_device_in, matches,
  split, new_devices,
}

-- A result with another list of overlays.
unfoldable pub with_overlays :
    List OverlayCfg → Run (GlobalConfig × Bool) → Run (GlobalConfig × Bool)
with_overlays os fault = fault
with_overlays os (ok (cfg, r)) = ok (record cfg { overlays = os }, r)

module _ (os : List OverlayCfg) where
  if_both :
      (b : Bool) {x y : Run (GlobalConfig × Bool)} (x' y' : Run (GlobalConfig × Bool))
      → x ≡ with_overlays os x'
      → y ≡ with_overlays os y'
      → (if b then x else y) ≡ with_overlays os (if b then x' else y')
  if_both true x' y' p q = p
  if_both false x' y' p q = q

  bind_both :
      {A : Type 0} (m : Run A) (f g : A → Run (GlobalConfig × Bool))
      → ((a : A) → f a ≡ with_overlays os (g a))
      → (m >>= f) ≡ with_overlays os (m >>= g)
  unfolding with_overlays
  bind_both fault f g e = refl
  bind_both (ok a) f g e = e a

  -- `handle_global` and the part of `handler` on devices do not read or write the list of overlays.
  pub handle_global-overlays :
      (cfg : GlobalConfig) (name value : Bytes)
      → handle_global (record cfg { overlays = os }) name value
        ≡ with_overlays os (handle_global cfg name value)
  unfolding handle_global with_overlays
  handle_global-overlays cfg name value =
      if_both (matches name "devices") _ _
        (bind_both (split value (codes ",")) _ _
          λ (names, count). bind_both (new_devices count names) _ _ λ devices. refl)
        (if_both (matches name "rootdir") _ _ refl (
          if_both (matches name "zImage") _ _ refl (
            if_both (matches name "initramfs") _ _ refl (
              if_both (matches name "dtbs") _ _ refl (
                if_both (matches name "cmdline") _ _ refl (
                  if_both (matches name "bootimage") _ _ refl
                    (if_both (matches name "recoveryimage") _ _ refl refl)))))))

  pub handle_section-overlays :
      (cfg : GlobalConfig) (ds : Option (List DeviceConfig)) (section name value : Bytes)
      → handle_section (record cfg { overlays = os }) ds section name value
        ≡ with_overlays os (handle_section cfg ds section name value)
  unfolding handle_section with_overlays
  handle_section-overlays cfg none section name value = refl
  handle_section-overlays cfg (some ds) section name value =
      bind_both (handle_device_in section name value ds) _ _ λ (ds', r). refl

  pub with_overlays-ok :
      (x : Run (GlobalConfig × Bool)) {cfg : GlobalConfig} {r : Bool}
      → with_overlays os x ≡ ok (cfg, r)
      → (c : GlobalConfig) × (x ≡ ok (c, r)) × (record c { overlays = os } ≡ cfg)
  unfolding with_overlays
  with_overlays-ok fault e = absurd (cc)
  with_overlays-ok (ok (c, r')) e = (c, cc, cc)
