-- ===== src/Main/Ready.antt =====
-- A machine that boot/main.c can boot, and what it hands over then.
use midas_util.Base.{
  Bool, true, false, if◌then◌else◌, ℕ, ◌+◌, ◌-◌, ◌^◌, ◌≤◌, ◌<◌, ◌≡◌, true, false, none, some, List,
  [], ◌∷◌, ◌++◌, map, Bytes, codes, length, take, All,
}
use midas_util.CString.{c_string}
use midas_util.CString.Find.{Absent}
use midas_util.Config.{GlobalConfig, OverlayCfg}
use midas_util.Config.Load.{IniLine, Documented}
use midas_util.Config.File.{
  File, DeviceSection, all, lines_of, config_of, device_of, devices_of, IsWellFormed,
}
use midas_util.Config.RoundTrip.{Says}
use midas_util.Util.{bytes, overwrite}
use midas_util.Util.Align.{round_up}
use midas_util.Util.Cmdline.{bootloader_key}
use midas_util.Util.Device.{first_device}
use midas_util.Util.Stored.{Holds, FirstHolds, file_path}
use midas_util.BootImage.{le32}
use midas_util.Kernel.{text_offset}
use midas_util.Kernel.Lines.{Entry, IsPrinted, start_of, iomem_line}
use midas_util.Kernel.Iomem.{names_ram}
use midas_util.Ufdt.{Libfdt, setup_dtb_prop, setup_dtb_prop_int, success}
use midas_util.Ufdt.Overlays.{Chosen}
use midas_util.Ufdt.Success.{Applied}
use midas_util.Ufdt.Space.{SpaceLaws, node_space, prop_space}
use midas_util.Util.Flags.{Flag}
use midas_util.BootImage.{header_of}
use midas_util.BootImage.Parts.{IsImage, kernel_in, ramdisk_in, image_name}
use midas_util.Main.Zimage.{stated_length}
use midas_util.Main.{World, Handover, place, label_name}

module _ (fdt : Libfdt) (w : World) where
  open fdt use {Blob, install_blob}

  -- What lies on the machine: the arguments, the lines of the configuration file and what they
  -- say, the kernel's command line in front of and behind the bootloader's name, the device's section,
  -- the kernel, its arguments and the ramdisk, the modes that are asked for, the device tree's file,
  -- the ranges of /proc/iomem, the overlays that are applied, and the tree they give.
  pub record Contents : Type 0 where
    pub prog : Bytes
    pub config : Bytes
    pub root : Bytes
    pub more_args : List Bytes
    pub ini_lines : List IniLine
    pub file : File
    pub first_byte : ℕ
    pub more_bytes : Bytes
    pub pre : Bytes
    pub bootloader : Bytes
    pub device : DeviceSection
    pub kernel : Bytes
    pub ramdisk : Bytes
    pub kernel_args : Bytes
    pub recovery : Bool
    pub charger : Bool
    pub low : Bool
    pub raw_tree : Bytes
    pub ranges : List Entry
    pub ram : Entry
    pub more_ranges : List Bytes
    pub page_bits : ℕ
    pub selected : List OverlayCfg
    pub tree : Blob
    pub size : ℕ

  module _ (s : Contents) where
    -- The configuration, with the modes that the command line asks for.
    abbrev pub cfg : GlobalConfig
    cfg = record (config_of (label_name w) s.file) {
      is_recovery = s.recovery;
      is_lpm = if s.charger then true else s.low;
    }

    abbrev pub proc_line : Bytes
    proc_line = s.pre ++ (bootloader_key ++ s.bootloader)

    -- Where the kernel goes, and the command line that it gets.
    abbrev pub address : ℕ
    address = round_up (start_of s.ram + text_offset) (2 ^ s.page_bits)

    abbrev pub cmdline : Bytes
    cmdline = codes "root=" ++ (s.root ++ b' ' ∷ s.kernel_args)

    -- The command line is read at once, into a buffer that is large enough; it asks for the modes, and
    -- names the bootloader. The last parameter is looked for only if the one before is not there.
    pub record IsProcLine : Type 0 where
      pub at_once : w.machine.proc_cmdline ≡ some (bytes (s.first_byte ∷ s.more_bytes) ∷ [])
      pub text :
          c_string (overwrite 0 (s.first_byte ∷ s.more_bytes) w.machine.stack) ≡ some proc_line
      pub bootmode : Flag proc_line (codes "bootmode") (codes "2") s.recovery
      pub mode : Flag proc_line (codes "androidboot.mode") (codes "charger") s.charger
      pub lpcharge : s.charger ≡ false → Flag proc_line (codes "lpcharge") (codes "1") s.low
      pub first : Absent bootloader_key s.pre (bootloader_key ++ s.bootloader)
      pub room : length s.pre + 28 < length w.machine.stack

    -- The configuration file is the first argument and well-formed.
    pub record IsConfig : Type 0 where
      pub args : w.args ≡ s.prog ∷ s.config ∷ s.root ∷ s.more_args
      pub documented : Documented w.ini
      pub opens : w.ini.lines s.config ≡ some s.ini_lines
      pub says : Says s.ini_lines (lines_of s.file)
      pub well_formed : IsWellFormed (label_name w) s.file

    -- The kernel, the ramdisk and the kernel's arguments come from the files that the configuration names,
    -- if it names no image for this mode, or from the image that it names.
    pub data IsSource : Type 0 where
      in_files :
          image_name cfg ≡ none
          → Holds w.machine.os (file_path cfg cfg.z_image_name) s.kernel
          → Holds w.machine.os (file_path cfg cfg.initramfs_name) s.ramdisk
          → s.kernel_args ≡ s.file.cmdline
          → IsSource
      in_image :
          (name image : Bytes)
          → image_name cfg ≡ some name
          → Holds w.machine.os (file_path cfg (some name)) image
          → IsImage w.machine.os image
          → s.kernel ≡ kernel_in image
          → s.ramdisk ≡ ramdisk_in image
          → c_string (header_of image).cmdline ≡ some s.kernel_args
          → IsSource

    -- The first device whose models agree is the one with this section; kernel, ramdisk and its first
    -- device tree that can be opened are there, and so are the overlays that apply, and can be applied.
    pub record IsStored : Type 0 where
      pub device :
          first_device (take 5 s.bootloader) (devices_of (s.file.first ∷ s.file.more))
          ≡ some (device_of s.device)
      pub source : IsSource
      pub raw_tree : FirstHolds w.machine.os cfg (all s.device.dtbs) s.raw_tree
      pub chosen : Chosen w.machine (device_of s.device) cfg.overlays s.selected
      pub applied :
          Applied fdt w.machine cfg s.tree s.size s.selected
            (install_blob s.raw_tree (length s.raw_tree), length s.raw_tree)

    -- /proc/iomem names memory, whose start and a page more fit in 32 bits, and the kernel is one.
    pub record IsPlaceable : Type 0 where
      pub iomem : w.iomem ≡ some (map iomem_line s.ranges ++ iomem_line s.ram ∷ s.more_ranges)
      pub printed : All IsPrinted s.ranges
      pub others : All (λ e. names_ram e ≡ false) s.ranges
      pub ram_printed : IsPrinted s.ram
      pub names : names_ram s.ram ≡ true
      pub page_size : w.page_size ≡ 2 ^ s.page_bits
      pub narrow : s.page_bits < 32
      pub no_overflow : start_of s.ram + text_offset + 2 ^ s.page_bits ≤ 2 ^ 64
      pub fits : address < 2 ^ 32 - 1
      pub long : 0x34 ≤ length s.kernel
      pub magic : le32 36 s.kernel ≡ 0x016f2818
      pub stated : stated_length s.kernel ≤ length s.kernel

    -- The bytes that the setters may need in the tree.
    abbrev pub tree_space : ℕ
    tree_space =
        node_space (codes "chosen")
        + prop_space (codes "bootargs") (length cmdline + 1)
        + (node_space (codes "chosen") + prop_space (codes "linux,initrd-start") 4)
        + (node_space (codes "chosen") + prop_space (codes "linux,initrd-end") 4)

    -- libfdt is as documented, the tree with the overlays is valid and lies within its size, and there is
    -- memory for what the setters add.
    pub record IsSettable : Type 0 where
      pub laws : SpaceLaws fdt
      pub valid : laws.is_valid s.tree ≡ true
      pub within : laws.used s.tree ≤ s.size
      pub room : s.size + tree_space ≤ laws.memory

    pub record IsReady : Type 0 where
      pub is_root : w.uid ≡ 0
      pub config : IsConfig
      pub line : IsProcLine
      pub files : IsStored
      pub memory : IsPlaceable
      pub tree : IsSettable

    -- What is handed over: the tree got the command line and the ramdisk's place, one after the other,
    -- and the segments are placed by its last size.
    pub record IsBooted (h : Handover fdt) : Type 0 where
      pub with_args : Blob
      pub args_size : ℕ
      pub with_start : Blob
      pub start_size : ℕ
      pub last_size : ℕ
      pub bootargs :
          setup_dtb_prop fdt s.tree s.size
            (codes "chosen")
            (codes "bootargs")
            (cmdline ++ 0 ∷ [])
            (length cmdline + 1)
          ≡ success with_args args_size
      pub start :
          setup_dtb_prop_int fdt with_args args_size
            (codes "chosen")
            (codes "linux,initrd-start")
            h.placement.rd_start
          ≡ success with_start start_size
      pub end :
          setup_dtb_prop_int fdt with_start start_size
            (codes "chosen")
            (codes "linux,initrd-end")
            h.placement.rd_end
          ≡ success h.tree last_size
      pub entry : h.entry ≡ address
      pub placed :
          h.placement
          ≡ place w.page_size address
              (length s.kernel)
              (stated_length s.kernel)
              (length s.ramdisk)
              last_size
