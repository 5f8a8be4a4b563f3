-- ===== src/Config/ReadDevices.antt =====
-- `handler` on the lines of a configuration file in turn: the section `global` and the devices.
use mathlib.Core.List.{append_assoc}
use midas_util.Base.{
  ◌≡◌, refl, ap, ◌∙◌, Bool, true, false, Option, none, some, List, [], ◌∷◌, ◌++◌, Bytes, codes, Run,
  ok, fault, ◌>>=◌, if◌then◌else◌, All, length,
}
use midas_util.CString.{str_eq}
use midas_util.CString.Compare.{str_eq_refl}
use midas_util.CString.Tokens.{join, NoneHolds, strsep_all-join}
use midas_util.Config.Split.{array_of, split_lem}
use midas_util.Config.File.{
  all, joined, DeviceSection, DeviceIsNamed, DevicesDiffer, File, Line, line, global_line,
  device_lines, all_device_lines, codenames, device_of, devices_of,
}
use midas_util.Config.{
  DeviceConfig, OverlayCfg, GlobalConfig, empty_config, split, new_devices, handle_global,
  handle_device, handle_device_in, handle_section, handler,
}

-- The handler on each line; a line that it refuses ends in `fault`.
unfoldable pub read_all : (Bytes → Option Bytes) → GlobalConfig → List Line → Run GlobalConfig
read_all gpio_name cfg [] = ok cfg
read_all gpio_name cfg ((section, name, value) ∷ ls) = do
  (cfg', r) ← handler gpio_name cfg section name value
  if r then read_all gpio_name cfg' ls else fault

-- What `global` says, with the devices and the overlays that were read.
abbrev pub reading : File → List DeviceConfig → List OverlayCfg → GlobalConfig
reading f ds os = record {
  devices = some ds;
  overlays = os;
  rootdir = some f.rootdir;
  z_image_name = some f.z_image;
  initramfs_name = some f.initramfs;
  dtb_folder = some f.dtbs;
  cmdline = some f.cmdline;
  boot_img = f.bootimage;
  recovery_img = f.recoveryimage;
  is_recovery = false;
  is_lpm = false;
}

pub split-join :
    (t : Bytes) (ts : List Bytes)
    → NoneHolds b',' (t ∷ ts)
    → split (join b',' (t ∷ ts)) (codes ",") ≡ ok (array_of (t ∷ ts), length (t ∷ ts))
split-join t ts h =
    split_lem (join b',' (t ∷ ts))
    ∙ ap (λ (us : List Bytes). ok (array_of us, length us)) (strsep_all-join b',' t ts h)

abbrev named : Bytes → DeviceConfig
named c = record { codename = c; name = none; models = none; dtbs = none }

abbrev all_named : List DeviceSection → List DeviceConfig
all_named [] = []
all_named (d ∷ ds) = named d.codename ∷ all_named ds

new_devices-codenames :
    (ds : List DeviceSection)
    → new_devices (length (codenames ds)) (array_of (codenames ds)) ≡ ok (all_named ds)
unfolding new_devices
new_devices-codenames [] = refl
new_devices-codenames (d ∷ ds) = rw (new_devices-codenames ds)

module _ (gpio_name : Bytes → Option Bytes) (f : File) where
  read_images :
      (cfg : GlobalConfig) (b r : Option Bytes) (rest : List Line)
      → read_all gpio_name
          (record cfg { boot_img = none; recovery_img = none })
          (global_line "bootimage" b (global_line "recoveryimage" r rest))
        ≡ read_all gpio_name (record cfg { boot_img = b; recovery_img = r }) rest
  unfolding read_all handler handle_global str_eq
  read_images cfg none none rest = refl
  read_images cfg none (some r) rest = refl
  read_images cfg (some b) none rest = refl
  read_images cfg (some b) (some r) rest = refl

  pub read_global :
      (rest : List Line)
      → NoneHolds b',' (codenames (f.first ∷ f.more))
      → read_all gpio_name empty_config (
          line (codes "global") "devices" (join b',' (codenames (f.first ∷ f.more)))
          ∷ line (codes "global") "rootdir" f.rootdir
          ∷ line (codes "global") "zImage" f.z_image
          ∷ line (codes "global") "initramfs" f.initramfs
          ∷ line (codes "global") "dtbs" f.dtbs
          ∷ line (codes "global") "cmdline" f.cmdline
          ∷ global_line "bootimage" f.bootimage (global_line "recoveryimage" f.recoveryimage rest))
        ≡ read_all gpio_name (reading f (all_named (f.first ∷ f.more)) []) rest
  unfolding read_all handler handle_global str_eq
  read_global rest h =
      rw
        (split-join f.first.codename (codenames f.more) h, new_devices-codenames (f.first ∷ f.more))
        (read_images (reading f (all_named (f.first ∷ f.more)) []) f.bootimage f.recoveryimage rest)

  -- the loop finds the device behind others
  handle_device_in-append :
      (pre post : List DeviceConfig) (d : DeviceConfig) {d' : DeviceConfig} {r : Bool}
      (name value : Bytes)
      → All (λ e. str_eq e.codename d.codename ≡ false) pre
      → handle_device d name value ≡ ok (d', r)
      → handle_device_in d.codename name value (pre ++ d ∷ post) ≡ ok (pre ++ d' ∷ post, r)
  unfolding handle_device_in
  handle_device_in-append [] post d name value others h = rw (str_eq_refl d.codename, h)
  handle_device_in-append (e ∷ pre) post d name value (other, others) h =
      rw (other, handle_device_in-append pre post d name value others h)

  module _ (pre post : List DeviceConfig) (os : List OverlayCfg) (d : DeviceSection)
      (is_named : DeviceIsNamed d)
      (others : All (λ e. str_eq e.codename d.codename ≡ false) pre) where
    read_device_line :
        (dev : DeviceConfig) {dev' : DeviceConfig} (name value : Bytes) (rest : List Line)
        → dev.codename ≡ d.codename
        → handle_device dev name value ≡ ok (dev', true)
        → read_all gpio_name (reading f (pre ++ dev ∷ post) os) ((d.codename, name, value) ∷ rest)
          ≡ read_all gpio_name (reading f (pre ++ dev' ∷ post) os) rest
    unfolding read_all handler handle_section
    read_device_line dev name value rest e h = rw (
      is_named.not_global,
      is_named.not_overlay,
      ← e,
      handle_device_in-append pre post dev name value (rw (← e) at others) h,
    )

    read_device :
        (rest : List Line)
        → read_all gpio_name (reading f (pre ++ named d.codename ∷ post) os) (device_lines d rest)
          ≡ read_all gpio_name (reading f (pre ++ device_of d ∷ post) os) rest
    unfolding handle_device str_eq
    read_device rest =
        read_device_line (named d.codename) (codes "name") d.name _ refl refl
        ∙ read_device_line with_name {dev' = with_models} (codes "model") (joined d.models) _ refl
            (rw (split-join d.models.first d.models.more is_named.models))
        ∙ read_device_line with_models {dev' = device_of d} (codes "dtbs") (joined d.dtbs) rest refl
            (rw (split-join d.dtbs.first d.dtbs.more is_named.dtbs))
      where
        with_name : DeviceConfig
        with_name = record (named d.codename) { name = some d.name }

        with_models : DeviceConfig
        with_models = record with_name { models = some (array_of (all d.models)) }

  All-snoc {ℓ κ} :
      {A : Type ℓ} (P : A → Type κ) (xs : List A) (x : A) → All P xs → P x → All P (xs ++ x ∷ [])
  All-snoc P [] x v p = (p, tt)
  All-snoc P (y ∷ xs) x (q, v) p = (q, All-snoc P xs x v p)

  differ-snoc :
      (pre : List DeviceConfig) (d : DeviceSection) (ds : List DeviceSection)
      → All (λ e. All (λ c. str_eq c.codename e.codename ≡ false) pre) ds
      → All (λ e. str_eq d.codename e.codename ≡ false) ds
      → All (λ e. All (λ c. str_eq c.codename e.codename ≡ false) (pre ++ device_of d ∷ [])) ds
  differ-snoc pre d [] v w = tt
  differ-snoc pre d (e ∷ ds) (v, vs) (w, ws) = (All-snoc _ pre _ v w, differ-snoc pre d ds vs ws)

  pub read_devices :
      (pre : List DeviceConfig) (ds : List DeviceSection) (os : List OverlayCfg) (rest : List Line)
      → All DeviceIsNamed ds
      → DevicesDiffer ds
      → All (λ e. All (λ c. str_eq c.codename e.codename ≡ false) pre) ds
      → read_all gpio_name (reading f (pre ++ all_named ds) os) (all_device_lines ds rest)
        ≡ read_all gpio_name (reading f (pre ++ devices_of ds) os) rest
  read_devices pre [] os rest n v w = refl
  read_devices pre (d ∷ ds) os rest (n, ns) (v, vs) (w, ws) =
      read_device pre (all_named ds) os d n w (all_device_lines ds rest)
      ∙ rw (append_assoc, append_assoc) at
          (read_devices (pre ++ device_of d ∷ []) ds os rest ns vs (differ-snoc pre d ds ws v))
