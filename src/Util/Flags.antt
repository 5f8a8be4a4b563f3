-- ===== src/Util/Flags.antt =====
-- What `util_has_cmdline` of boot/util.c answers on a command line that one `read` gives.
use midas_util.Base.{
  ◌≡◌, refl, ap, ◌∙◌, Bool, true, false, none, some, [], ◌∷◌, ◌++◌, Bytes, ok, if◌then◌else◌, ℕ,
}
use midas_util.CString.{strstr, c_string, is_prefix}
use midas_util.CString.Find.{Absent, Lacks}
use midas_util.Util.{bytes, overwrite, util_has_cmdline, scan_cmdline}
use midas_util.Util.Cmdline.{util_has_cmdline_word, util_has_cmdline_behind}
use midas_util.Util.Stored.{util_has_cmdline_absent}

-- Whether the line gives the parameter a value that begins with `val`: the key is not there, or it
-- is, with a value that ends at a space, or it is, behind a space, with any value.
pub data Flag (line key val : Bytes) : Bool → Type 0 where
  not_there : strstr line key ≡ none → Flag line key val false
  there :
      (pre word more : Bytes)
      → line ≡ pre ++ (key ++ b'=' ∷ (word ++ b' ' ∷ more))
      → Absent key pre (key ++ b'=' ∷ (word ++ b' ' ∷ more))
      → Lacks b'=' key
      → Lacks b' ' word
      → Lacks b' ' val
      → Flag line key val (is_prefix val word)
  behind :
      (start more value : Bytes)
      → line ≡ (start ++ b' ' ∷ more) ++ (key ++ b'=' ∷ value)
      → Absent key (start ++ b' ' ∷ more) (key ++ b'=' ∷ value)
      → Lacks b'=' key
      → Lacks b' ' start
      → Flag line key val (is_prefix val value)

answer : (b : Bool) {r : Bool} → b ≡ r → (if b then ok true else ok false) ≡ ok r
answer true e = ap ok e
answer false e = ap ok e

-- If the first `read` gives a command line, and the second its end, then `util_has_cmdline` returns
-- false where the key is not on the line; where the key is there, with no equals sign of its own and
-- one behind it, it tells whether the value begins with `val`: the value is a word that ends at a
-- space, and `val` has no space, or a space stands in front of the key, and the value is all the rest.
pub util_has_cmdline-Flag :
    (c : ℕ) (cs stack key val : Bytes) {line : Bytes} {b : Bool}
    → c_string (overwrite 0 (c ∷ cs) stack) ≡ some line
    → Flag line key val b
    → util_has_cmdline (some (bytes (c ∷ cs) ∷ [])) stack key val ≡ ok b
util_has_cmdline-Flag c cs stack key val e (not_there n) =
    util_has_cmdline_absent c cs stack key val e n
util_has_cmdline-Flag c cs stack key val e (there pre word more l first no_equals lw lv) =
    util_has_cmdline_word c cs [] stack pre key (word ++ b' ' ∷ more) val (e ∙ ap some l) first
      no_equals word more refl lw lv
    ∙ (unfold scan_cmdline in answer (is_prefix val word) refl)
util_has_cmdline-Flag c cs stack key val e (behind start more value l first no_equals ls) =
    util_has_cmdline_behind c cs [] stack (start ++ b' ' ∷ more) key value val (e ∙ ap some l) first
      no_equals start more refl ls
    ∙ (unfold scan_cmdline in answer (is_prefix val value) refl)
