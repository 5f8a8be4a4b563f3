-- ===== src/Main.antt =====
-- boot/main.c: `main` of the boot loader, from the arguments to kexec.
pub mod Layout
pub mod Zimage
pub mod Steps
pub mod Boot
pub mod Codes
pub mod Ready
pub mod Loading
pub mod Runs
pub mod Told
pub mod Fixtures
mod ReadyWorld
mod ReadyTests
mod Tests
use midas_util.Base.{
  ℕ, zero, suc, ◌+◌, ◌-◌, ◌*◌, ◌%◌, ◌^◌, Bool, true, false, not, ◌&&◌, ◌||◌, Option, none, some,
  List, [], ◌∷◌, ◌++◌, Bytes, codes, String, Run, ok, fault, deref, length, if◌then◌else◌, leb, ltb,
  ◌==◌,
}
use midas_util.Config.{GlobalConfig, DeviceConfig}
use midas_util.Config.Load.{Inih, load_config}
use midas_util.Gpio.{DirEntry, get_gpio_name}
use midas_util.Util.{Os, align, get_cur_device, load_dtb, util_has_cmdline}
use midas_util.BootImage.{le32}
use midas_util.Kernel.{load_zimage, load_ramdisk, get_cmdline, get_kernel_base_addr}
use midas_util.Ufdt.{
  Libfdt, Machine, SetupResult, success, error, apply_overlays, setup_dtb_prop, setup_dtb_prop_int,
}

-- The checks on `struct zimage_header`, whose magic stands at byte 36, its start at 40 and its end
-- at 44. `none` is -1.
unfoldable pub checked_size : ℕ → ℕ → Option ℕ
checked_size sz actual_sz =
    if ltb sz actual_sz then none else if ltb actual_sz sz then some actual_sz else some sz

unfoldable pub header_checks : Bytes → ℕ → Option ℕ
unfolding checked_size
header_checks zimage sz =
    if le32 36 zimage == 0x016f2818
    then checked_size sz ((le32 44 zimage + 2 ^ 32 - le32 40 zimage) % 2 ^ 32)
    else none

-- `check_zimage`; NULL with a size that is large enough is read
unfoldable pub check_zimage : Option Bytes → ℕ → Run (Option ℕ)
unfolding header_checks
check_zimage zimage sz =
    if ltb sz 0x34 then ok none else elim zimage [ none ↦ fault | some b ↦ ok (header_checks b sz) ]

-- `struct kexec_segment`, its buffer apart
pub record Segment : Type 0 where
  pub bufsz : ℕ
  pub mem : ℕ
  pub memsz : ℕ

abbrev pub add32 : ℕ → ℕ → ℕ
add32 a b = (a + b) % 2 ^ 32

-- The addresses and sizes that `main` computes, on a machine with addresses of 32 bits.
pub record Placement : Type 0 where
  pub rd_start : ℕ
  pub rd_end : ℕ
  pub kernel : Segment
  pub ramdisk : Segment
  pub dtb : Segment

-- `ALIGN(zimage_len * 4, getpagesize())`
unfoldable pub decompress_buf : ℕ → ℕ → ℕ
decompress_buf page zimage_len = align 32 (zimage_len * 4 % 2 ^ 32) page

-- In order: the page size, `addr`, `zimagesz`, `zimage_len`, `rdsz` and `dtbsz`.
unfoldable pub place : ℕ → ℕ → ℕ → ℕ → ℕ → ℕ → Placement
unfolding decompress_buf
place page addr zimagesz zimage_len rdsz dtbsz =
    let aligned_zsz = align 32 zimagesz page in
    let aligned_rdsz = align 32 rdsz page in
    let rd = add32 (add32 addr aligned_zsz) (decompress_buf page zimage_len) in
    record {
      rd_start = rd;
      rd_end = add32 rd aligned_rdsz;
      kernel = record { bufsz = zimagesz; mem = addr; memsz = aligned_zsz };
      ramdisk = record { bufsz = rdsz; mem = rd; memsz = aligned_rdsz };
      dtb = record { bufsz = dtbsz; mem = add32 rd aligned_rdsz; memsz = align 32 dtbsz page };
    }

-- The run of `main`: it goes on, returns a code, or faults.
pub data Exec (A : Type 0) : Type 0 where
  go : A → Exec A
  exit : ℕ → Exec A
  crash : Exec A

infixl 5 ◌>>=◌
abbrev pub ◌>>=◌ : {A B : Type 0} → Exec A → (A → Exec B) → Exec B
go a >>= f = f a
exit code >>= f = exit code
crash >>= f = crash

infixl 5 ◌>>◌
abbrev pub ◌>>◌ : {B : Type 0} → Exec (Unit {0}) → Exec B → Exec B
m >> k = m >>= λ _. k

abbrev pub lift : {A : Type 0} → Run A → Exec A
lift (ok a) = go a
lift fault = crash

-- `if (...) return code;`
abbrev pub exit_if : ℕ → Bool → Exec (Unit {0})
exit_if code true = exit code
exit_if code false = go tt

-- a value, or `return code;` for NULL
abbrev pub or_exit : {A : Type 0} → ℕ → Option A → Exec A
or_exit code none = exit code
or_exit code (some a) = go a

-- What `main` is run with: its arguments, `getuid()`, inih, /dev, the machine, the lines of
-- /proc/iomem, `getpagesize()`, and whether `kexec_load` succeeds.
pub record World : Type 0 where
  pub args : List Bytes
  pub uid : ℕ
  pub ini : Inih
  pub dev : Option (List DirEntry)
  pub machine : Machine
  pub iomem : Option (List Bytes)
  pub page_size : ℕ
  pub kexec_loads : Bool

-- `get_gpio_name` on the chips of this machine
abbrev pub label_name : World → Bytes → Option Bytes
label_name w label = (get_gpio_name w.dev label 0).0

-- `argv[1]` and `argv[2]`
abbrev pub two_args : List Bytes → Exec (Bytes × Bytes)
two_args (prog ∷ (config ∷ (root ∷ rest))) = go (config, root)
two_args _ = exit 1

unfoldable pub has : World → String → String → Run Bool
has w key value = util_has_cmdline w.machine.proc_cmdline w.machine.stack (codes key) (codes value)

-- the flags that come from the kernel's command line
unfoldable pub with_flags : World → GlobalConfig → Exec GlobalConfig
unfolding has
with_flags w cfg = do
  recovery ← lift (has w "bootmode" "2")
  charger ← lift (has w "androidboot.mode" "charger")
  lpm ← (if charger then go true else lift (has w "lpcharge" "1"))
  go (record cfg { is_recovery = recovery; is_lpm = lpm })

-- The state that the files left: the kernel and its size, the ramdisk's size, the device tree.
pub record Loaded (fdt : Libfdt) : Type 0 where
  pub zimage : Option Bytes
  pub zimagesz : ℕ
  pub rdsz : ℕ
  pub dtb : Option (fdt.Blob)
  pub dtbsz : ℕ

-- What is handed to kexec.
pub record Handover (fdt : Libfdt) : Type 0 where
  pub entry : ℕ
  pub placement : Placement
  pub tree : fdt.Blob

module _ (fdt : Libfdt) where
  open fdt use {Blob}

  -- `main` ignores what the setters return, and goes on with what they left.
  unfoldable pub after_setup : ℕ → SetupResult Blob → Option Blob × ℕ
  after_setup size (success b n) = (some b, n)
  after_setup size (error code kept) = (kept, size)

  -- from `load_zimage` to `apply_overlays`; a size that was never written is a fault
  unfoldable pub load_all : World → GlobalConfig → DeviceConfig → Exec (Loaded fdt)
  load_all w cfg dev = do
    (zimage, zlen) ← lift (load_zimage w.machine.os cfg)
    zimagesz ← lift (deref zlen)
    (ramdisk, rdlen) ← lift (load_ramdisk w.machine.os cfg)
    rdsz ← lift (deref rdlen)
    (buf, dtblen) ← lift (load_dtb w.machine.os cfg dev)
    raw ← or_exit 3 buf
    len ← lift (deref dtblen)
    (dtb, dtbsz) ← lift (apply_overlays fdt w.machine cfg dev raw len)
    go (record { zimage = zimage; zimagesz = zimagesz; rdsz = rdsz; dtb = dtb; dtbsz = dtbsz })

  -- the segments, once the tree has its last size
  unfoldable pub hand_over : World → ℕ → Loaded fdt → ℕ → Option Blob × ℕ → Exec (Handover fdt)
  hand_over w addr l zimage_len (dtb, dtbsz) = do
    t ← lift (deref dtb)
    go (record {
      entry = addr;
      placement = place w.page_size addr l.zimagesz zimage_len l.rdsz dtbsz;
      tree = t;
    })

  -- the addresses of the ramdisk do not depend on the tree's size
  unfoldable pub told_start : World → ℕ → Loaded fdt → ℕ → ℕ
  told_start w addr l zimage_len = (place w.page_size addr l.zimagesz zimage_len l.rdsz 0).rd_start

  unfoldable pub told_end : World → ℕ → Loaded fdt → ℕ → ℕ
  told_end w addr l zimage_len = (place w.page_size addr l.zimagesz zimage_len l.rdsz 0).rd_end

  -- `setup_dtb_prop_int(..., "linux,initrd-end", rd_end)` and what follows
  unfoldable pub set_end : World → ℕ → Loaded fdt → ℕ → Option Blob × ℕ → Exec (Handover fdt)
  unfolding after_setup told_end
  set_end w addr l zimage_len (dtb, dtbsz) = do
    t ← lift (deref dtb)
    hand_over w addr l zimage_len (
        after_setup dtbsz (
          setup_dtb_prop_int fdt t dtbsz (codes "chosen") (codes "linux,initrd-end")
            (told_end w addr l zimage_len)))

  -- `setup_dtb_prop_int(..., "linux,initrd-start", rd_start)` and what follows
  unfoldable pub set_start : World → ℕ → Loaded fdt → ℕ → Option Blob × ℕ → Exec (Handover fdt)
  unfolding after_setup told_start
  set_start w addr l zimage_len (dtb, dtbsz) = do
    t ← lift (deref dtb)
    set_end w addr l zimage_len (
        after_setup dtbsz (
          setup_dtb_prop_int fdt t dtbsz (codes "chosen") (codes "linux,initrd-start")
            (told_start w addr l zimage_len)))

  -- from `get_kernel_base_addr` on
  unfoldable pub place_kernel : World → Loaded fdt → Option Blob × ℕ → Exec (Handover fdt)
  place_kernel w l tree = do
    base ← lift (get_kernel_base_addr w.iomem w.page_size)
    let addr = base % 2 ^ 32
    exit_if 4 (addr == 2 ^ 32 - 1)
    checked ← lift (check_zimage l.zimage l.zimagesz)
    zimage_len ← or_exit 4 checked
    set_start w addr l zimage_len tree

  -- from `get_cmdline` to the call of kexec
  unfoldable pub prepare : World → GlobalConfig → Bytes → Loaded fdt → Exec (Handover fdt)
  unfolding after_setup
  prepare w cfg root l = do
    cmdline ← lift (get_cmdline w.machine.os cfg root)
    t ← lift (deref l.dtb)
    place_kernel w l (
        after_setup l.dtbsz (
          setup_dtb_prop fdt t l.dtbsz (codes "chosen") (codes "bootargs") (cmdline ++ 0 ∷ [])
            (length cmdline + 1)))

  -- up to the call of kexec, what is handed over
  unfoldable pub boot : World → Exec (Handover fdt)
  boot w = do
    (config, root) ← two_args w.args
    exit_if 1 (not (w.uid == 0))
    loaded ← lift (load_config w.ini (label_name w) config)
    cfg0 ← or_exit 1 loaded
    cfg ← with_flags w cfg0
    found ← lift (get_cur_device w.machine.proc_cmdline w.machine.stack cfg)
    dev ← or_exit 2 found
    name ← lift (deref dev.name)
    l ← load_all w cfg dev
    prepare w cfg root l

  -- The code that `main` returns; 5 if the machine did not reboot into the new kernel.
  unfoldable pub main : World → Exec ℕ
  main w = do h ← boot w; exit_if 4 (not w.kexec_loads); go 5
