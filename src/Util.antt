-- ===== src/Util.antt =====
-- boot/util.c and the macro ALIGN of boot/util.h: the kernel's command line, the device that this
-- machine is, and the loading of files. The kernel's answers are arguments: what each `read`
-- returns, which paths can be opened, and what `malloc` returns.
pub mod Stored
pub mod Blob
pub mod Device
pub mod Cmdline
pub mod Flags
pub mod Align
use midas_util.Base.{
  ℕ, zero, suc, ◌+◌, ◌-◌, ◌%◌, ◌^◌, bit_and, Bool, true, false, Option, none, some, List, [], ◌∷◌,
  ◌++◌, Bytes, codes, Run, ok, fault, ◌>>=◌, deref, length, take, drop, if◌then◌else◌, leb, ltb,
}
use midas_util.CString.{strn_eq, strstr, c_string, snprintf}
use midas_util.Config.{StrArray, DeviceConfig, OverlayCfg, GlobalConfig}

-- `ALIGN(addr, size)` on words of w bits; a word of w bits is ~x at 2^w - 1 - x.
unfoldable pub align : ℕ → ℕ → ℕ → ℕ
align w addr size =
    bit_and ((addr + size + 2 ^ w - 1) % 2 ^ w) (2 ^ w - 1 - (size + 2 ^ w - 1) % 2 ^ w)

-- one answer of `read`; no bytes at the end of the file
pub data ReadResult : Type 0 where
  bytes : Bytes → ReadResult
  failed : ReadResult

-- An open file: the answers of the two calls of `lseek`, and of the calls of `read` in turn. Behind
-- the last of them stands the end of the file.
pub record File : Type 0 where
  pub seek_end : Option ℕ
  pub seek_set : Bool
  pub reads : List ReadResult

-- The kernel and the allocator: which paths can be opened, and what `malloc(n)` returns, NULL or a
-- buffer with whatever stood in that memory.
pub record Os : Type 0 where
  pub open_file : Bytes → Option File
  pub malloc : ℕ → Option Bytes

-- a write into a buffer, from an offset on
unfoldable pub overwrite : ℕ → Bytes → Bytes → Bytes
overwrite off chunk buf = take off buf ++ (chunk ++ drop (off + length chunk) buf)

-- `while ((ret = read(fd, cur, 4096)) > 0) cur += ret;` and whether it ended with `ret == 0`
unfoldable pub read_blob : List ReadResult → ℕ → Bytes → Run (Bool × Bytes)
unfolding overwrite
read_blob [] cur buf = ok (true, buf)
read_blob (failed ∷ rs) cur buf = ok (false, buf)
read_blob (bytes [] ∷ rs) cur buf = ok (true, buf)
read_blob (bytes (c ∷ cs) ∷ rs) cur buf =
    let rest = read_blob rs (cur + length (c ∷ cs)) (overwrite cur (c ∷ cs) buf) in
    if leb (cur + length (c ∷ cs)) (length buf) then rest else fault

-- from `malloc` on: the buffer, or NULL, and what stands in `*dtbsz`
unfoldable pub read_into : List ReadResult → ℕ → Option Bytes → Run (Option Bytes × Option ℕ)
unfolding read_blob
read_into rs n none = ok (none, some n)
read_into rs n (some junk) = do
  (done, buf) ← read_blob rs 0 junk
  ok (if done then some buf else none, some n)

unfoldable pub load_blob : Os → File → Run (Option Bytes × Option ℕ)
unfolding read_into
load_blob os f = elim f.seek_end [
  | none ↦ ok (none, none)
  | some n ↦ if f.seek_set then read_into f.reads n (os.malloc n) else ok (none, some n)
]

-- `%s`: the C library prints NULL as "(null)"
unfoldable pub percent_s : Option Bytes → Bytes
percent_s none = codes "(null)"
percent_s (some s) = s

unfoldable pub load_path : Os → Bytes → Run (Option Bytes × Option ℕ)
load_path os path = elim (os.open_file (snprintf 255 path)) [
  | none ↦ ok (none, none)
  | some f ↦ load_blob os f
]

unfoldable pub load_overlay : Os → GlobalConfig → OverlayCfg → Run (Option Bytes × Option ℕ)
unfolding load_path percent_s
load_overlay os cfg o =
    load_path os
      (percent_s cfg.rootdir ++ b'/' ∷ (percent_s cfg.dtb_folder ++ b'/' ∷ percent_s o.path))

unfoldable pub load_file : Os → GlobalConfig → Option Bytes → Run (Option Bytes × Option ℕ)
unfolding load_path percent_s
load_file os cfg file = load_path os (percent_s cfg.rootdir ++ b'/' ∷ percent_s file)

unfoldable pub dtb_path : GlobalConfig → Bytes → Bytes
unfolding percent_s
dtb_path cfg dtb =
    snprintf 255 (percent_s cfg.rootdir ++ b'/' ∷ (percent_s cfg.dtb_folder ++ b'/' ∷ dtb))

-- the loop over `dev->dtbs`; an array with no NULL is read past its end
unfoldable pub try_dtbs : Os → GlobalConfig → StrArray → Run (Option Bytes × Option ℕ)
unfolding dtb_path
try_dtbs os cfg [] = fault
try_dtbs os cfg (none ∷ a) = ok (none, none)
try_dtbs os cfg (some dtb ∷ a) =
    let rest = try_dtbs os cfg a in
    elim (os.open_file (dtb_path cfg dtb)) [ none ↦ rest | some f ↦ load_blob os f ]

unfoldable pub load_dtb : Os → GlobalConfig → DeviceConfig → Run (Option Bytes × Option ℕ)
load_dtb os cfg dev = do dtbs ← deref dev.dtbs; try_dtbs os cfg dtbs

-- `bl_name = strstr(bl_name, "=") + 1; bl_name[5] = 0;` and the copy of the string there; `i` is
-- where the parameter begins in the buffer's string s, n the size of the buffer.
unfoldable pub bootloader_at : ℕ → Bytes → ℕ → Run Bytes
bootloader_at n s i = do
  j ← deref (strstr (drop i s) (codes "="))
  let off = i + j + 1
  if ltb (off + 5) n then ok (take 5 (drop off s)) else fault

-- the loop of `get_bootloader`; a buffer with no NUL is read past its end
unfoldable pub scan_bootloader : List ReadResult → Bytes → Run (Option Bytes)
unfolding bootloader_at
scan_bootloader [] buf = ok none
scan_bootloader (failed ∷ rs) buf = ok none
scan_bootloader (bytes [] ∷ rs) buf = ok none
scan_bootloader (bytes (c ∷ cs) ∷ rs) buf =
    let buf' = overwrite 0 (c ∷ cs) buf in
    let rest = scan_bootloader rs buf' in
    do
      s ← deref (c_string buf')
      elim (strstr s (codes "androidboot.bootloader=")) [
        | none ↦ rest
        | some i ↦ (do name ← bootloader_at (length buf) s i; ok (some name))
      ]

-- `/proc/cmdline`, if it can be opened, and what the buffer on the stack holds at first
unfoldable pub get_bootloader : Option (List ReadResult) → Bytes → Run (Option Bytes)
get_bootloader none stack = ok none
get_bootloader (some rs) stack = scan_bootloader rs stack

-- The string at an offset, once the byte at k is NUL.
unfoldable pub cut : Bytes → ℕ → ℕ → Bytes
cut s off k = if ltb k off then drop off s else take (k - off) (drop off s)

-- one round on a string that holds the key at i: does the value match?
unfoldable pub match_at : Bytes → Bytes → ℕ → Run Bool
unfolding cut
match_at val s i = do
  j ← deref (strstr (drop i s) (codes "="))
  k ← deref (strstr s (codes " "))
  ok (strn_eq (length val) (cut s (i + j + 1) k) val)

-- the loop of `util_has_cmdline`
unfoldable pub scan_cmdline : Bytes → Bytes → List ReadResult → Bytes → Run Bool
unfolding match_at
scan_cmdline key val [] buf = ok false
scan_cmdline key val (failed ∷ rs) buf = ok false
scan_cmdline key val (bytes [] ∷ rs) buf = ok false
scan_cmdline key val (bytes (c ∷ cs) ∷ rs) buf =
    let buf' = overwrite 0 (c ∷ cs) buf in
    let rest = scan_cmdline key val rs buf' in
    do
      s ← deref (c_string buf')
      elim (strstr s key) [
        | none ↦ rest
        | some i ↦ (do found ← match_at val s i; if found then ok true else rest)
      ]

unfoldable pub util_has_cmdline : Option (List ReadResult) → Bytes → Bytes → Bytes → Run Bool
util_has_cmdline none stack key val = ok false
util_has_cmdline (some rs) stack key val = scan_cmdline key val rs stack

-- the inner loop of `get_cur_device`, over `ret->models`
unfoldable pub has_model : Bytes → StrArray → Run Bool
has_model blname [] = fault
has_model blname (none ∷ a) = ok false
has_model blname (some m ∷ a) =
    let rest = has_model blname a in if strn_eq 5 m blname then ok true else rest

-- the outer loop; `models` of a device that no `model` line set is memory never written
unfoldable pub find_device : Bytes → List DeviceConfig → Run (Option DeviceConfig)
unfolding has_model
find_device blname [] = ok none
find_device blname (d ∷ ds) =
    let rest = find_device blname ds in
    do models ← deref d.models; found ← has_model blname models; if found then ok (some d) else rest

-- `cfg->devices` is NULL if the configuration has no `devices` line.
unfoldable pub device_named : Option (List DeviceConfig) → Option Bytes → Run (Option DeviceConfig)
unfolding find_device
device_named devices none = ok none
device_named devices (some blname) = do ds ← deref devices; find_device blname ds

unfoldable pub get_cur_device :
    Option (List ReadResult) → Bytes → GlobalConfig → Run (Option DeviceConfig)
unfolding device_named
get_cur_device proc stack cfg = do
  blname ← get_bootloader proc stack
  device_named cfg.devices blname
