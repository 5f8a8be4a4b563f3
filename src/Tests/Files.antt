-- ===== src/Tests/Files.antt =====
-- The theorems about files, the command line and the registers at small inputs.
use midas_util.Base.{
  ◌^◌, ◌≡◌, refl, true, none, some, List, [], ◌∷◌, ◌++◌, Bytes, Option, codes, ok, fault, arith,
  replicate,
}
use midas_util.CString.{strn_eq, c_string, is_prefix}
use midas_util.CString.Find.{Absent, Lacks}
use midas_util.Config.{DeviceConfig, StrArray}
use midas_util.Util.{
  Os, File, ReadResult, bytes, load_blob, find_device, get_bootloader, util_has_cmdline, overwrite,
}
use midas_util.Util.Blob.{Reads, eof, piece, load_blob-content}
use midas_util.Util.Device.{
  HasModels, any_model, first_device, find_device-first, find_device_unset,
}
use midas_util.Util.Flags.{Flag, there, util_has_cmdline-Flag}
use midas_util.Util.Cmdline.{bootloader_key, get_bootloader_found, util_has_cmdline_no_space}
use midas_util.Gpioutil.Dump.{all_pins, main-banks}
use midas_util.Gpioutil.{main, banks}

-- a file of three bytes, read in two pieces
abbrev file : File
file = record {
  seek_end = some 3;
  seek_set = true;
  reads = bytes (codes "ab") ∷ bytes (codes "c") ∷ [];
}

-- The allocator gives zeroes; every path opens that file.
abbrev os : Os
os = record { open_file = λ path. some file; malloc = λ n. some (replicate n 0) }

file_reads : Reads file.reads (codes "abc")
file_reads = piece (piece eof)

load_blob-content_example : load_blob os file ≡ ok (some (codes "abc"), some 3)
load_blob-content_example = load_blob-content os file file_reads refl 3 refl refl refl refl

abbrev device : Bytes → Option StrArray → DeviceConfig
device codename models = record {
  codename = codename;
  name = none;
  models = models;
  dtbs = some (some (codes "m0.dtb") ∷ none ∷ []);
}

abbrev i9300 : DeviceConfig
i9300 = device (codes "i9300") (some (some (codes "I9300") ∷ none ∷ []))

abbrev n7100 : DeviceConfig
n7100 = device (codes "n7100") (some (some (codes "N7100") ∷ none ∷ []))

abbrev unset : DeviceConfig
unset = device (codes "i9305") none

i9300_models : HasModels i9300
i9300_models = (some (codes "I9300") ∷ none ∷ [], refl, tt)

n7100_models : HasModels n7100
n7100_models = (some (codes "N7100") ∷ none ∷ [], refl, tt)

find_device-first_example :
    find_device (codes "N7100") (i9300 ∷ n7100 ∷ [])
    ≡ ok (first_device (codes "N7100") (i9300 ∷ n7100 ∷ []))
find_device-first_example =
    find_device-first (codes "N7100") (i9300 ∷ n7100 ∷ []) (i9300_models, (n7100_models, tt))

find_device_unset_example : find_device (codes "N7100") (i9300 ∷ unset ∷ n7100 ∷ []) ≡ fault
unfolding first_device any_model strn_eq
find_device_unset_example =
    find_device_unset (codes "N7100") (i9300 ∷ []) unset (n7100 ∷ []) (i9300_models, tt) refl refl

main-banks_example :
    (main (codes "gpioutil" ∷ codes "pins" ∷ []) true true (λ a. a) true (2 ^ 12)
      ≡ ok (0, all_pins (λ a. a) banks))
    × (main (codes "gpioutil" ∷ []) true true (λ a. a) true (2 ^ 12) ≡ ok (1, []))
main-banks_example =
    main-banks (codes "gpioutil") (codes "pins") [] true true true (λ a. a) 12 (omega arith)
      (omega arith)

-- what one `read` of the command line gives, and the buffer on the stack
abbrev first_read : Bytes
first_read = codes " bootmode=2 androidboot.bootloader=I9300XXUGNA8"

abbrev stack : Bytes
stack = replicate 64 0

abbrev one_read : Option (List ReadResult)
one_read = some (bytes (b'x' ∷ first_read) ∷ [])

the_line :
    c_string (overwrite 0 (b'x' ∷ first_read) stack)
    ≡ some (codes "x bootmode=2 " ++ (bootloader_key ++ codes "I9300XXUGNA8"))
unfolding c_string overwrite
the_line = refl

key-Absent : Absent bootloader_key (codes "x bootmode=2 ") (bootloader_key ++ codes "I9300XXUGNA8")
unfolding is_prefix
key-Absent = grind arith

get_bootloader_found_example : get_bootloader one_read stack ≡ ok (some (codes "I9300"))
get_bootloader_found_example =
    get_bootloader_found b'x' first_read [] stack (codes "x bootmode=2 ") (codes "I9300XXUGNA8")
      the_line key-Absent (omega arith)

mode-Absent : Absent (codes "bootmode") (codes "x ") (codes "bootmode=2 y")
unfolding is_prefix
mode-Absent = grind arith

no_equals : Lacks b'=' (codes "bootmode")
no_equals = grind arith

two_words :
    c_string (overwrite 0 (b'x' ∷ codes " bootmode=2 y") stack) ≡ some (codes "x bootmode=2 y")
unfolding c_string overwrite
two_words = refl

recovery-Flag : Flag (codes "x bootmode=2 y") (codes "bootmode") (codes "2") true
unfolding is_prefix
recovery-Flag =
    there (codes "x ") (codes "2") (codes "y") refl mode-Absent no_equals (refl, tt) (refl, tt)

util_has_cmdline-Flag_example :
    util_has_cmdline
      (some (bytes (b'x' ∷ codes " bootmode=2 y") ∷ []))
      stack
      (codes "bootmode")
      (codes "2")
    ≡ ok true
util_has_cmdline-Flag_example =
    util_has_cmdline-Flag b'x' (codes " bootmode=2 y") stack (codes "bootmode") (codes "2")
      two_words recovery-Flag

one_word : c_string (overwrite 0 (b'b' ∷ codes "ootmode=2") stack) ≡ some (codes "bootmode=2")
unfolding c_string overwrite
one_word = refl

no_space : Lacks b' ' (codes "bootmode=2")
no_space = grind arith

util_has_cmdline_no_space_example :
    util_has_cmdline
      (some (bytes (b'b' ∷ codes "ootmode=2") ∷ []))
      stack
      (codes "bootmode")
      (codes "2")
    ≡ fault
util_has_cmdline_no_space_example =
    util_has_cmdline_no_space b'b' (codes "ootmode=2") [] stack [] (codes "bootmode") (codes "2")
      (codes "2") one_word tt no_equals no_space
