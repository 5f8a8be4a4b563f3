-- ===== src/Main/ReadyWorld.antt =====
-- A machine with a configuration file, a kernel, a device tree and one overlay.
use midas_util.Base.{true, false, none, some, List, [], ◌∷◌, Bytes, codes, replicate}
use midas_util.Base.Ints.{pos}
use midas_util.Gpio.{failed}
use midas_util.Config.Load.{Inih, IniLine, entry, outcome}
use midas_util.Config.File.{
  Names, DeviceSection, fixed, OverlaySection, File, Line, lines_of, overlay_of,
}
use midas_util.Util.{bytes}
use midas_util.Kernel.Lines.{Entry, iomem_line}
use midas_util.Main.{label_name, World}
use midas_util.Ufdt.Fixtures.{trees, fresh_tree}
use midas_util.Main.Ready.{Contents}
use midas_util.Main.Fixtures.{kernel, small_ramdisk, image, image_os}

abbrev pub one_name : Bytes → Names
one_name name = record { first = name; more = [] }

abbrev pub i9300 : DeviceSection
i9300 = record {
  codename = codes "i9300";
  name = codes "S3";
  models = one_name (codes "I9300");
  dtbs = one_name (codes "m0.dtb");
}

abbrev pub lcd : OverlaySection
lcd = record {
  section = codes "overlay lcd";
  path = codes "lcd.dtbo";
  devices = one_name (codes "i9300");
  mode = fixed;
}

abbrev pub ini_file : File
ini_file = record {
  rootdir = codes "/b";
  z_image = codes "z";
  initramfs = codes "r";
  dtbs = codes "d";
  cmdline = codes "q";
  bootimage = none;
  recoveryimage = some (codes "rec");
  first = i9300;
  more = [];
  overlays = lcd ∷ [];
}

-- inih on lines that are all entries
abbrev pub entries : List Line → List IniLine
entries [] = []
entries ((section, name, value) ∷ ls) = entry 1 section name value ∷ entries ls

abbrev pub ini : Inih
ini = record {
  ini_parse = λ file h cfg. outcome h cfg (some (entries (lines_of ini_file)));
  lines = λ file. some (entries (lines_of ini_file));
}

-- from 0x40000000 to 0xbf6fffff
abbrev pub ram : Entry
ram = record {
  indent = 0;
  start_first = 4;
  start_more = 0 ∷ 0 ∷ 0 ∷ 0 ∷ 0 ∷ 0 ∷ 0 ∷ [];
  end_first = 11;
  end_more = 15 ∷ 6 ∷ 15 ∷ 15 ∷ 15 ∷ 15 ∷ 15 ∷ [];
  name = codes "System RAM\n";
}

abbrev pub read_line : Bytes
read_line = codes " bootmode=2 androidboot.bootloader=I9300XX"

abbrev pub world : World
world = record {
  args = codes "midasboot" ∷ codes "c" ∷ codes "mmc" ∷ [];
  uid = 0;
  ini = ini;
  dev = none;
  machine = record {
    os = image_os;
    proc_cmdline = some (bytes (b'x' ∷ read_line) ∷ []);
    stack = replicate 64 0;
    gpio = record {
      open_dev = λ path. failed 2;
      line_handle = λ fd pin. failed 9;
      line_values = λ fd. failed 9;
      errno = 0;
    };
    address = λ s. pos 4096;
  };
  iomem = some (iomem_line ram ∷ []);
  page_size = 4096;
  kexec_loads = true;
}

abbrev pub contents : Contents trees world
contents = record {
  prog = codes "midasboot";
  config = codes "c";
  root = codes "mmc";
  more_args = [];
  ini_lines = entries (lines_of ini_file);
  file = ini_file;
  first_byte = b'x';
  more_bytes = read_line;
  pre = codes "x bootmode=2 ";
  bootloader = codes "I9300XX";
  device = i9300;
  kernel = kernel;
  ramdisk = small_ramdisk;
  kernel_args = codes "quiet";
  recovery = true;
  charger = false;
  low = false;
  raw_tree = image;
  ranges = [];
  ram = ram;
  more_ranges = [];
  page_bits = 12;
  selected = overlay_of (label_name world) lcd ∷ [];
  tree = fresh_tree 8224;
  size = 8224;
}
