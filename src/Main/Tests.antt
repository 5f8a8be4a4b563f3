-- ===== src/Main/Tests.antt =====
-- A whole run of `main` on a small machine.
use midas_util.Base.{ℕ, ◌≡◌, refl, true, false, none, some, [], ◌∷◌, codes, ok, replicate}
use midas_util.Base.Ints.{pos}
use midas_util.CString.{str_eq, strn_eq, is_prefix, shift, strstr, c_string, snprintf, skip_spaces}
use midas_util.Config.{GlobalConfig, DeviceConfig}
use midas_util.Config.Load.{load_config}
use midas_util.Gpio.{failed}
use midas_util.Util.{
  bytes, align, overwrite, read_blob, read_into, load_blob, percent_s, load_path, load_file,
  dtb_path, try_dtbs, load_dtb, bootloader_at, scan_bootloader, get_bootloader, cut, match_at,
  scan_cmdline, util_has_cmdline, has_model, find_device, device_named, get_cur_device,
}
use midas_util.BootImage.{
  le32, load_and_validate_bootimg, validate, image_named, load_android_zimage, load_android_initrd,
  load_android_cmdline,
}
use midas_util.Kernel.{
  load_zimage, load_ramdisk, or_file, hex_digit, hex_digits, hex_number, after_0x, scan_llx,
  name_of, second_number, scan_line, select, find_ram, base_of, get_kernel_base_addr,
  cmdline_string, format_cmdline, get_cmdline,
}
use midas_util.Ufdt.{
  apply_all, apply_overlays, tag_align, fdt_node_len, fdt_prop_len, finish_setup, in_place,
  grow_and_set, size_with, set_in_node, setup_with, setup_dtb_prop, setup_dtb_prop_int,
}
use midas_util.Main.{
  World, Handover, exit, main, Loaded, go, place, check_zimage, checked_size, header_checks,
  decompress_buf, with_flags, has, after_setup, load_all, hand_over, told_start, told_end, set_end,
  set_start, place_kernel, prepare, boot,
}
use midas_util.Main.Boot.{IsChecked, boot-IsChecked}
use midas_util.Main.Codes.{Stops, main-Stops}
use midas_util.Main.Fixtures.{sizes, os}

abbrev i9300 : DeviceConfig
i9300 = record {
  codename = codes "i9300";
  name = some (codes "S3");
  models = some (some (codes "I9300") ∷ none ∷ []);
  dtbs = some (some (codes "m0.dtb") ∷ none ∷ []);
}

abbrev config : GlobalConfig
config = record {
  devices = some (i9300 ∷ []);
  overlays = [];
  rootdir = some (codes "/b");
  z_image_name = some (codes "z");
  initramfs_name = some (codes "r");
  dtb_folder = some (codes "d");
  cmdline = some (codes "q");
  boot_img = none;
  recovery_img = none;
  is_recovery = false;
  is_lpm = false;
}

abbrev world : World
world = record {
  args = codes "midasboot" ∷ codes "c" ∷ codes "r" ∷ [];
  uid = 0;
  ini = record { ini_parse = λ f h cfg. ok (config, pos 0); lines = λ f. none };
  dev = none;
  machine = record {
    os = os;
    proc_cmdline = some (bytes (codes "x androidboot.bootloader=I9300XX") ∷ []);
    stack = replicate 48 0;
    gpio = record {
      open_dev = λ path. failed 2;
      line_handle = λ fd pin. failed 9;
      line_values = λ fd. failed 9;
      errno = 0;
    };
    address = λ s. pos 4096;
  };
  iomem = some (codes "40000000-bf6fffff : System RAM\n" ∷ []);
  page_size = 4096;
  kexec_loads = true;
}

abbrev handed_over : Handover sizes
handed_over = record {
  entry = 0x40008000;
  placement = place 4096 0x40008000 52 52 52 201;
  tree = 201;
}

run_boot : boot sizes world ≡ go handed_over
unfolding str_eq strn_eq is_prefix shift strstr c_string snprintf skip_spaces load_config align
    overwrite read_blob read_into load_blob percent_s load_path load_file dtb_path try_dtbs load_dtb
    bootloader_at scan_bootloader get_bootloader cut match_at scan_cmdline util_has_cmdline
    has_model find_device device_named get_cur_device le32 load_and_validate_bootimg validate
    image_named load_android_zimage load_android_initrd load_android_cmdline load_zimage
    load_ramdisk or_file hex_digit hex_digits hex_number after_0x scan_llx name_of second_number
    scan_line select find_ram base_of get_kernel_base_addr cmdline_string format_cmdline get_cmdline
    apply_all apply_overlays tag_align fdt_node_len fdt_prop_len finish_setup in_place grow_and_set
    size_with set_in_node setup_with setup_dtb_prop setup_dtb_prop_int place check_zimage
    checked_size header_checks decompress_buf with_flags has after_setup load_all hand_over
    told_start told_end set_end set_start place_kernel prepare boot
run_boot = refl

boot-IsChecked_example :
    (world.uid ≡ 0)
    × (cfg : GlobalConfig) × (dev : DeviceConfig) × (l : Loaded sizes) × (load_all sizes world cfg
          dev
        ≡ go l)
    × IsChecked sizes world l handed_over
boot-IsChecked_example = boot-IsChecked sizes world run_boot

main-Stops_example :
    ((c : ℕ) → main sizes world ≡ exit c → Stops sizes world c)
    × ((c : ℕ)
        → main sizes world ≡ go c
        → (c ≡ 5) × (world.kexec_loads ≡ true) × (h : Handover sizes) × (boot sizes world ≡ go h))
main-Stops_example = main-Stops sizes world
