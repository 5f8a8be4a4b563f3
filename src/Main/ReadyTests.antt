-- ===== src/Main/ReadyTests.antt =====
-- This machine is ready, and boots.
use midas_util.Base.{
  length, ◌≡◌, refl, true, some, List, [], ◌∷◌, ◌++◌, Bytes, codes, ok, replicate, arith,
}
use midas_util.CString.{str_eq, strn_eq, is_prefix, shift, strstr, c_string, skip_spaces}
use midas_util.CString.Tokens.{count}
use midas_util.CString.Find.{Absent, Lacks}
use midas_util.Config.File.{
  Line, lines_of, config_of, DeviceIsNamed, device_of, OverlayIsNamed, IsWellFormed, overlay_of,
}
use midas_util.Config.RoundTrip.{Says}
use midas_util.Util.{overwrite}
use midas_util.Util.Align.{round_up}
use midas_util.Util.Blob.{eof, piece}
use midas_util.Util.Cmdline.{bootloader_key}
use midas_util.Util.Device.{first_device, any_model, first_open}
use midas_util.Util.Stored.{IsRead, Holds}
use midas_util.BootImage.{le32}
use midas_util.Kernel.Lines.{IsPrinted, hex_value}
use midas_util.Ufdt.Selected.{IsFor, this_device, always, taken, no_more, apply_overlays-Selected}
use midas_util.Ufdt.{apply_overlays, applies, names_device, mode_test}
use midas_util.Ufdt.Overlays.{listed, chosen, none_left}
use midas_util.Ufdt.Success.{apply, all_applied}
use midas_util.Main.{label_name, Handover, boot, main, go}
use midas_util.Main.Ready.{
  cfg, IsConfig, cmdline, proc_line, IsProcLine, IsSource, in_image, IsStored, IsPlaceable,
  IsSettable, IsReady, IsBooted,
}
use midas_util.Main.Runs.{boot-IsReady}
use midas_util.Main.Fixtures.{image, image_file, image_os}
use midas_util.Ufdt.Fixtures.{
  trees, trees_valid, trees_used, trees_memory, trees-SpaceLaws, trees-ValueLaws,
}
use midas_util.BootImage.Parts.{IsImage, image_name, kernel_in, ramdisk_in, load_android-IsImage}
use midas_util.BootImage.Initrd.{initrd_offset}
use midas_util.BootImage.{
  header_of, field_at, cmdline_of, load_android_zimage, load_android_initrd, load_android_cmdline,
}
use midas_util.Config.{GlobalConfig}
use midas_util.Util.Flags.{Flag, there, not_there}
use midas_util.Main.Told.{IsTold, boot-IsTold}
use midas_util.Main.ReadyWorld.{i9300, lcd, ini_file, entries, ram, world, contents}

image_file-IsRead : IsRead image_os image_file image
image_file-IsRead = record {
  seek_end = refl;
  seek_set = refl;
  reads = piece eof;
  junk = replicate 4112 0;
  allocated = refl;
  room = refl;
}

image_everywhere : (path : Bytes) → Holds image_os path image
image_everywhere path = record { file = image_file; opens = refl; is_read = image_file-IsRead }

image-IsImage : IsImage image_os image
unfolding is_prefix header_of le32 initrd_offset round_up
image-IsImage = record {
  long = omega arith;
  small = omega arith;
  magic = refl;
  page_bits = 11;
  narrow = omega arith;
  page_size = refl;
  kernel_inside = omega arith;
  ramdisk_inside = omega arith;
  kernel_junk = replicate 52 0;
  kernel_room = refl;
  ramdisk_junk = replicate 16 0;
  ramdisk_room = refl;
}

entries-Says : (ls : List Line) → Says (entries ls) ls
entries-Says [] = tt
entries-Says ((section, name, value) ∷ ls) = (omega arith, refl, entries-Says ls)

i9300-DeviceIsNamed : DeviceIsNamed i9300
unfolding str_eq strn_eq count
i9300-DeviceIsNamed = record {
  not_global = refl;
  not_overlay = refl;
  models = (refl, tt);
  dtbs = (refl, tt);
}

lcd-OverlayIsNamed : OverlayIsNamed (label_name world) lcd
unfolding strn_eq count
lcd-OverlayIsNamed = record { overlay = refl; devices = (refl, tt); chip = tt }

ini_file-IsWellFormed : IsWellFormed (label_name world) ini_file
unfolding count
ini_file-IsWellFormed = record {
  codenames = (refl, tt);
  devices = (i9300-DeviceIsNamed, tt);
  devices_differ = (tt, tt);
  overlays = (lcd-OverlayIsNamed, tt);
  overlays_differ = (tt, tt);
}

contents-IsConfig : IsConfig trees world contents
contents-IsConfig = record {
  args = refl;
  documented = record { parses = λ file h cfg. refl };
  opens = refl;
  says = entries-Says (lines_of ini_file);
  well_formed = ini_file-IsWellFormed;
}

key-Absent : Absent bootloader_key (codes "x bootmode=2 ") (bootloader_key ++ codes "I9300XX")
unfolding is_prefix
key-Absent = grind arith

mode-Absent :
    Absent (codes "bootmode") (codes "x ") (codes "bootmode=2 androidboot.bootloader=I9300XX")
unfolding is_prefix
mode-Absent = grind arith

no_equals : Lacks b'=' (codes "bootmode")
no_equals = grind arith

asks_recovery : Flag (proc_line trees world contents) (codes "bootmode") (codes "2") true
unfolding is_prefix
asks_recovery =
    there (codes "x ") (codes "2") (codes "androidboot.bootloader=I9300XX") refl mode-Absent
      no_equals (refl, tt) (refl, tt)

contents-IsProcLine : IsProcLine trees world contents
unfolding c_string overwrite strstr is_prefix shift
contents-IsProcLine = record {
  at_once = refl;
  text = refl;
  bootmode = asks_recovery;
  mode = not_there refl;
  lpcharge = λ no. not_there refl;
  first = key-Absent;
  room = omega arith;
}

lcd-applies : applies world.machine (device_of i9300) (overlay_of (label_name world) lcd) ≡ ok true
unfolding applies names_device mode_test str_eq
lcd-applies = refl

contents-IsSource : IsSource trees world contents
unfolding config_of header_of le32 field_at initrd_offset round_up c_string
contents-IsSource =
    in_image (codes "rec") image refl (image_everywhere _) image-IsImage refl refl refl

contents-IsStored : IsStored trees world contents
unfolding first_device any_model strn_eq first_open config_of
contents-IsStored = record {
  device = refl;
  source = contents-IsSource;
  raw_tree = record { file = image_file; opens = refl; is_read = image_file-IsRead };
  chosen = chosen lcd-applies none_left;
  applied = apply (image_everywhere _) refl all_applied;
}

ram-IsPrinted : IsPrinted ram
unfolding hex_value
ram-IsPrinted = record {
  start_digits = omega arith;
  start_bound = omega arith;
  end_digits = omega arith;
  end_bound = omega arith;
}

contents-IsPlaceable : IsPlaceable trees world contents
unfolding is_prefix skip_spaces hex_value round_up le32
contents-IsPlaceable = record {
  iomem = refl;
  printed = tt;
  others = tt;
  ram_printed = ram-IsPrinted;
  names = refl;
  page_size = refl;
  narrow = omega arith;
  no_overflow = omega arith;
  fits = omega arith;
  long = omega arith;
  magic = refl;
  stated = omega arith;
}

contents-IsSettable : IsSettable trees world contents
unfolding round_up
contents-IsSettable = record {
  laws = trees-SpaceLaws;
  valid = trees_valid _ refl;
  within = rw trees_used (omega arith);
  room = rw trees_memory (omega arith);
}

contents-IsReady : IsReady trees world contents
contents-IsReady = record {
  is_root = refl;
  config = contents-IsConfig;
  line = contents-IsProcLine;
  files = contents-IsStored;
  memory = contents-IsPlaceable;
  tree = contents-IsSettable;
}

boot-IsReady_example :
    (h : Handover trees) × (boot trees world ≡ go h)
    × IsBooted trees world contents h
    × (world.kexec_loads ≡ true → main trees world ≡ go 5)
boot-IsReady_example = boot-IsReady trees world contents contents-IsReady

boot-IsTold_example :
    (h : Handover trees) × (boot trees world ≡ go h)
    × IsTold contents.tree.values h.tree.values (cmdline trees world contents) h.placement
boot-IsTold_example =
    boot-IsTold trees world contents (λ t. t.values) trees-ValueLaws contents-IsReady

lcd-IsFor : IsFor world.machine (device_of i9300) (overlay_of (label_name world) lcd) true
unfolding listed str_eq
lcd-IsFor = this_device tt refl (always refl)

apply_overlays-Selected_example :
    apply_overlays trees world.machine
      (cfg trees world contents)
      (device_of i9300)
      image
      (length image)
    ≡ ok (some contents.tree, contents.size)
unfolding config_of
apply_overlays-Selected_example =
    apply_overlays-Selected trees world.machine (cfg trees world contents) (device_of i9300) image
      (length image) (taken lcd-IsFor no_more) contents-IsStored.applied

abbrev mode_cfg : GlobalConfig
mode_cfg = cfg trees world contents

mode_named : image_name mode_cfg ≡ some (codes "rec")
unfolding config_of
mode_named = refl

load_android-IsImage_example :
    (load_android_zimage image_os mode_cfg ≡ ok (some (kernel_in image, length (kernel_in image))))
    × (load_android_initrd image_os mode_cfg
        ≡ ok (some (ramdisk_in image, length (ramdisk_in image))))
    × (load_android_cmdline image_os mode_cfg ≡ ok (some (cmdline_of (image, length image))))
    × ((args : Bytes)
        → c_string (header_of image).cmdline ≡ some args
        → c_string (cmdline_of (image, length image)) ≡ some args)
load_android-IsImage_example =
    load_android-IsImage image_os mode_cfg mode_named (image_everywhere _) image-IsImage
