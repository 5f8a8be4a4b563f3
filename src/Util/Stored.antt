-- ===== src/Util/Stored.antt =====
-- Files that can be loaded, and the functions of boot/util.c on them.
use midas_util.Base.{
  ℕ, ◌≡◌, refl, ap, ◌∙◌, true, false, Option, none, some, List, [], ◌∷◌, ◌++◌, Bytes, ok, length,
  arith,
}
use midas_util.CString.{snprintf, strstr, c_string}
use midas_util.Config.{GlobalConfig, DeviceConfig, OverlayCfg}
use midas_util.Config.Split.{array_of}
use midas_util.Config.Invariant.{Ends-array_of}
use midas_util.Util.{
  Os, File, bytes, overwrite, load_blob, load_path, load_file, load_overlay, load_dtb, percent_s,
  util_has_cmdline, scan_cmdline,
}
use midas_util.Util.Blob.{Reads, load_blob-content}
use midas_util.Util.Device.{strings, first_open, load_dtb-first}

-- The file can be read from its start to its end, and there is memory for its content.
pub record IsRead (os : Os) (f : File) (content : Bytes) : Type 0 where
  pub seek_end : f.seek_end ≡ some (length content)
  pub seek_set : f.seek_set ≡ true
  pub reads : Reads f.reads content
  pub junk : Bytes
  pub allocated : os.malloc (length content) ≡ some junk
  pub room : length junk ≡ length content

-- Such a file lies at the path.
pub record Holds (os : Os) (path content : Bytes) : Type 0 where
  pub file : File
  pub opens : os.open_file (snprintf 255 path) ≡ some file
  pub is_read : IsRead os file content

pub load_blob-IsRead :
    (os : Os) (f : File) {content : Bytes}
    → IsRead os f content
    → load_blob os f ≡ ok (some content, some (length content))
load_blob-IsRead os f {content} h =
    load_blob-content os f h.reads h.seek_set (length content) h.seek_end h.allocated h.room refl

load_path-Holds :
    (os : Os) (path : Bytes) {content : Bytes}
    → Holds os path content
    → load_path os path ≡ ok (some content, some (length content))
unfolding load_path
load_path-Holds os path h = rw (load_path, h.opens) (load_blob-IsRead os h.file h.is_read)

-- Where the files of the configuration lie.
abbrev pub file_path : GlobalConfig → Option Bytes → Bytes
file_path cfg name = percent_s cfg.rootdir ++ b'/' ∷ percent_s name

pub load_file-Holds :
    (os : Os) (cfg : GlobalConfig) (name : Option Bytes) {content : Bytes}
    → Holds os (file_path cfg name) content
    → load_file os cfg name ≡ ok (some content, some (length content))
unfolding load_file
load_file-Holds os cfg name h = load_path-Holds os (file_path cfg name) h

abbrev pub overlay_path : GlobalConfig → OverlayCfg → Bytes
overlay_path cfg o =
    percent_s cfg.rootdir ++ b'/' ∷ (percent_s cfg.dtb_folder ++ b'/' ∷ percent_s o.path)

pub load_overlay-Holds :
    (os : Os) (cfg : GlobalConfig) (o : OverlayCfg) {content : Bytes}
    → Holds os (overlay_path cfg o) content
    → load_overlay os cfg o ≡ ok (some content, some (length content))
unfolding load_overlay
load_overlay-Holds os cfg o h = load_path-Holds os (overlay_path cfg o) h

strings-array_of : (ts : List Bytes) → strings (array_of ts) ≡ ts
strings-array_of [] = refl
strings-array_of (t ∷ ts) = ap (◌∷◌ t) (strings-array_of ts)

-- The first file of the list that can be opened has this content.
pub record FirstHolds (os : Os) (cfg : GlobalConfig) (ts : List Bytes) (content : Bytes)
    : Type 0 where
  pub file : File
  pub opens : first_open os cfg ts ≡ some file
  pub is_read : IsRead os file content

pub load_dtb-FirstHolds :
    (os : Os) (cfg : GlobalConfig) (dev : DeviceConfig) (ts : List Bytes) {content : Bytes}
    → dev.dtbs ≡ some (array_of ts)
    → FirstHolds os cfg ts content
    → load_dtb os cfg dev ≡ ok (some content, some (length content))
load_dtb-FirstHolds os cfg dev ts e h =
    load_dtb-first os cfg dev e (Ends-array_of ts)
    ∙ rw (strings-array_of ts, h.opens) (load_blob-IsRead os h.file h.is_read)

-- A line that is read at once and does not hold the key.
pub util_has_cmdline_absent :
    (c : ℕ) (cs stack key val : Bytes) {line : Bytes}
    → c_string (overwrite 0 (c ∷ cs) stack) ≡ some line
    → strstr line key ≡ none
    → util_has_cmdline (some (bytes (c ∷ cs) ∷ [])) stack key val ≡ ok false
unfolding util_has_cmdline scan_cmdline
util_has_cmdline_absent c cs stack key val e n = ground arith
