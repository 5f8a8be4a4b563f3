-- ===== src/Main/Loading.antt =====
-- `main` of boot/main.c on a machine that is ready, up to the files that it loads.
use midas_util.Base.{
  Bool, true, if◌then◌else◌, ap, ◌≡◌, refl, false, some, List, [], ◌∷◌, codes, ok, length, take,
  String, All,
}
use midas_util.Config.Invariant.{Ends-array_of}
use midas_util.Config.Split.{array_of}
use midas_util.Config.File.{DeviceSection, all, config_of, device_of, devices_of}
use midas_util.Util.{get_cur_device}
use midas_util.Util.Cmdline.{get_bootloader_found}
use midas_util.Util.Device.{HasModels, find_device-first}
use midas_util.Util.Stored.{load_file-Holds, load_dtb-FirstHolds}
use midas_util.BootImage.{
  load_and_validate_bootimg, load_android_zimage, load_android_initrd, load_android_cmdline,
}
use midas_util.Kernel.{load_zimage, load_ramdisk, get_cmdline}
use midas_util.Ufdt.{Libfdt}
use midas_util.Ufdt.Overlays.{apply_overlays-each}
use midas_util.Ufdt.Success.{apply_each-Applied}
use midas_util.Util.Flags.{Flag, util_has_cmdline-Flag}
use midas_util.BootImage.Parts.{load_android-IsImage}
use midas_util.Kernel.Cmdline.{format_cmdline_lem, get_cmdline-image}
use midas_util.Main.Ready.{
  Contents, cfg, proc_line, cmdline, IsProcLine, IsSource, in_files, in_image, IsStored,
}
use midas_util.Main.{go, lift, label_name, World, Loaded, load_all, with_flags, has}

module _ (fdt : Libfdt) (w : World) (s : Contents fdt w) where
  open fdt use {Blob}

  has-Flag :
      (key val : String) {b : Bool}
      → IsProcLine fdt w s
      → Flag (proc_line fdt w s) (codes key) (codes val) b
      → has w key val ≡ ok b
  unfolding has
  has-Flag key val p f = rw p.at_once (
      util_has_cmdline-Flag s.first_byte s.more_bytes w.machine.stack (codes key) (codes val) p.text
        f)

  low_mode :
      IsProcLine fdt w s
      → (charger : Bool) → s.charger ≡ charger
      → (if charger then go true else lift (has w "lpcharge" "1"))
        ≡ go (if charger then true else s.low)
  low_mode p true e = refl
  low_mode p false e = ap lift (has-Flag "lpcharge" "1" p (p.lpcharge e))

  pub with_flags-IsProcLine :
      IsProcLine fdt w s → with_flags w (config_of (label_name w) s.file) ≡ go (cfg fdt w s)
  unfolding with_flags
  with_flags-IsProcLine p = rw (
    has-Flag "bootmode" "2" p p.bootmode,
    has-Flag "androidboot.mode" "charger" p p.mode,
    low_mode p s.charger refl,
  )

  devices_of-HasModels : (ds : List DeviceSection) → All HasModels (devices_of ds)
  devices_of-HasModels [] = tt
  devices_of-HasModels (d ∷ ds) =
      ((array_of (all d.models), refl, Ends-array_of (all d.models)), devices_of-HasModels ds)

  pub get_cur_device-IsStored :
      IsProcLine fdt w s
      → IsStored fdt w s
      → get_cur_device w.machine.proc_cmdline w.machine.stack (cfg fdt w s)
        ≡ ok (some (device_of s.device))
  unfolding get_cur_device config_of
  get_cur_device-IsStored p f = rw (
    p.at_once,
    get_bootloader_found s.first_byte s.more_bytes [] w.machine.stack s.pre s.bootloader p.text
        p.first p.room,
    find_device-first (take 5 s.bootloader) (devices_of (s.file.first ∷ s.file.more))
        (devices_of-HasModels (s.file.first ∷ s.file.more)),
    f.device,
  )

  abbrev pub loaded : Loaded fdt
  loaded = record {
    zimage = some s.kernel;
    zimagesz = length s.kernel;
    rdsz = length s.ramdisk;
    dtb = some s.tree;
    dtbsz = s.size;
  }

  load_zimage-IsSource :
      IsSource fdt w s
      → load_zimage w.machine.os (cfg fdt w s) ≡ ok (some s.kernel, some (length s.kernel))
  unfolding load_zimage load_android_zimage load_and_validate_bootimg
  load_zimage-IsSource (in_files none_named kernel ramdisk args) =
      rw none_named (load_file-Holds w.machine.os (cfg fdt w s) (cfg fdt w s).z_image_name kernel)
  load_zimage-IsSource (in_image name image named stored is kernel ramdisk args) =
      rw (kernel, (load_android-IsImage w.machine.os (cfg fdt w s) named stored is).0)

  load_ramdisk-IsSource :
      IsSource fdt w s
      → load_ramdisk w.machine.os (cfg fdt w s) ≡ ok (some s.ramdisk, some (length s.ramdisk))
  unfolding load_ramdisk load_android_initrd load_and_validate_bootimg
  load_ramdisk-IsSource (in_files none_named kernel ramdisk args) =
      rw none_named
        (load_file-Holds w.machine.os (cfg fdt w s) (cfg fdt w s).initramfs_name ramdisk)
  load_ramdisk-IsSource (in_image name image named stored is kernel ramdisk args) =
      rw (ramdisk, (load_android-IsImage w.machine.os (cfg fdt w s) named stored is).1)

  pub get_cmdline-IsSource :
      IsSource fdt w s → get_cmdline w.machine.os (cfg fdt w s) s.root ≡ ok (cmdline fdt w s)
  unfolding get_cmdline load_android_cmdline load_and_validate_bootimg config_of
  get_cmdline-IsSource (in_files none_named kernel ramdisk args) =
      rw (none_named, args) (ap ok (format_cmdline_lem s.root s.file.cmdline))
  get_cmdline-IsSource (in_image name image named stored is kernel ramdisk args) =
      let (_, _, loads, string) = load_android-IsImage w.machine.os (cfg fdt w s) named stored is in
      get_cmdline-image w.machine.os (cfg fdt w s) s.root loads (string s.kernel_args args)

  pub load_all-IsStored :
      IsStored fdt w s → load_all fdt w (cfg fdt w s) (device_of s.device) ≡ go loaded
  unfolding load_all
  load_all-IsStored f = rw (
    load_zimage-IsSource f.source,
    load_ramdisk-IsSource f.source,
    load_dtb-FirstHolds w.machine.os (cfg fdt w s) (device_of s.device) (all s.device.dtbs) refl
        f.raw_tree,
    apply_overlays-each fdt w.machine (cfg fdt w s) (device_of s.device) s.raw_tree
        (length s.raw_tree) f.chosen,
    apply_each-Applied fdt w.machine (cfg fdt w s) f.applied,
  )
