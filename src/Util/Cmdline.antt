-- ===== src/Util/Cmdline.antt =====
-- What `get_bootloader` and `util_has_cmdline` of boot/util.c read on the kernel's command line.
use mathlib.Core.List.{append_assoc}
use midas_util.Base.{
  ℕ, suc, ◌+◌, ◌-◌, ◌<◌, ◌≡◌, refl, ap, sym, ◌∙◌, true, false, some, List, [], ◌∷◌, ◌++◌, Bytes,
  codes, ok, fault, ◌>>=◌, if◌then◌else◌, length, length-append, take, drop, take-append,
  drop-append, ltb, lt→ltb, arith, inl, inr, ◌⊎◌,
}
use midas_util.CString.{strstr, c_string, is_prefix}
use midas_util.CString.Compare.{strn_eq-is_prefix}
use midas_util.CString.Find.{
  Absent, strstr-append, Lacks, strstr-Lacks, strstr-Lacks-append, strstr-split,
}
use midas_util.Util.{
  ReadResult, bytes, overwrite, scan_bootloader, bootloader_at, get_bootloader, scan_cmdline,
  match_at, cut, util_has_cmdline,
}

abbrev pub bootloader_key : Bytes
bootloader_key = codes "androidboot.bootloader="

drop-behind : (p : Bytes) (n : ℕ) (s : Bytes) → drop (length p + n) (p ++ s) ≡ drop n s
drop-behind [] n s = ap (λ (k : ℕ). drop k s) (omega arith)
drop-behind (c ∷ p) n s =
    let e : suc (length p) + n ≡ suc (length p + n) = omega arith in rw e (drop-behind p n s)

equals_at : (rest : Bytes) → strstr (bootloader_key ++ rest) (codes "=") ≡ some 22
unfolding strstr
equals_at rest = refl

bootloader_at_lem :
    (n : ℕ) (pre rest : Bytes)
    → length pre + 28 < n
    → bootloader_at n (pre ++ (bootloader_key ++ rest)) (length pre) ≡ ok (take 5 rest)
unfolding bootloader_at
bootloader_at_lem n pre rest h =
    rw
      (
        drop-append pre (bootloader_key ++ rest),
        equals_at rest,
        lt→ltb (length pre + 22 + 1 + 5) n (omega arith),
      )
      (ap (λ (t : Bytes). ok (take 5 t))
        (ap (λ (k : ℕ). drop k (pre ++ (bootloader_key ++ rest))) (omega arith)
          ∙ drop-behind pre 23 (bootloader_key ++ rest)))

scan_bootloader_step :
    (c : ℕ) (cs : Bytes) (rs : List ReadResult) (stack : Bytes) {s : Bytes} {i : ℕ} {name : Bytes}
    → c_string (overwrite 0 (c ∷ cs) stack) ≡ some s
    → strstr s bootloader_key ≡ some i
    → bootloader_at (length stack) s i ≡ ok name
    → scan_bootloader (bytes (c ∷ cs) ∷ rs) stack ≡ ok (some name)
unfolding scan_bootloader
scan_bootloader_step c cs rs stack e f g = ground arith

-- If what the first `read` put into the buffer holds the parameter, and the place of the NUL
-- behind five bytes of its value lies in the buffer, `get_bootloader` returns the first five
-- bytes of the value.
pub get_bootloader_found :
    (c : ℕ) (cs : Bytes) (rs : List ReadResult) (stack pre rest : Bytes)
    → c_string (overwrite 0 (c ∷ cs) stack) ≡ some (pre ++ (bootloader_key ++ rest))
    → Absent bootloader_key pre (bootloader_key ++ rest)
    → length pre + 28 < length stack
    → get_bootloader (some (bytes (c ∷ cs) ∷ rs)) stack ≡ ok (some (take 5 rest))
unfolding get_bootloader
get_bootloader_found c cs rs stack pre rest e a h =
    scan_bootloader_step c cs rs stack e (strstr-append bootloader_key pre rest a)
      (bootloader_at_lem (length stack) pre rest h)

cut_before : (s : Bytes) (off k : ℕ) → k < off → cut s off k ≡ drop off s
unfolding cut
cut_before s off k h = rw (lt→ltb k off h)

cut_behind : (s : Bytes) (off n : ℕ) → cut s off (off + n) ≡ take n (drop off s)
unfolding cut
cut_behind s off n =
    let e : ltb (off + n) off ≡ false = ground arith in
    let m : off + n - off ≡ n = omega arith in rw (e, m)

-- Where the value has no space in it, a prefix test does not look past the first space.
is_prefix-word :
    (val word more : Bytes)
    → Lacks b' ' val
    → is_prefix val (word ++ b' ' ∷ more) ≡ is_prefix val word
unfolding is_prefix
is_prefix-word [] word more l = refl
is_prefix-word (v ∷ val) [] more (n, l) = ground arith
is_prefix-word (v ∷ val) (c ∷ word) more (n, l) = rw (is_prefix-word val word more l)

-- The text in front of the value of a parameter, its key and its `=` included.
abbrev before : Bytes → Bytes → Bytes
before pre key = pre ++ (key ++ b'=' ∷ [])

before-append : (pre key value : Bytes) → pre ++ (key ++ b'=' ∷ value) ≡ before pre key ++ value
before-append pre key value =
    ap (λ (t : Bytes). pre ++ t) (sym (append_assoc key (b'=' ∷ []) value))
    ∙ sym (append_assoc pre (key ++ b'=' ∷ []) value)

length-before : (pre key : Bytes) → length (before pre key) ≡ length pre + length key + 1
length-before pre key =
    omega (arith, length-append {0} pre (key ++ b'=' ∷ []), length-append {0} key (b'=' ∷ []))

cut_value :
    (pre key word more val : Bytes) (k : ℕ)
    → Lacks b' ' val
    → (k < length (before pre key)) ⊎ (k ≡ length (before pre key) + length word)
    → is_prefix val (cut (before pre key ++ (word ++ b' ' ∷ more)) (length pre + length key + 1) k)
      ≡ is_prefix val word
cut_value pre key word more val k l (inl h) =
    rw
      (
        ← length-before pre key,
        cut_before (before pre key ++ (word ++ b' ' ∷ more)) _ k h,
        drop-append (before pre key) (word ++ b' ' ∷ more),
      )
      (is_prefix-word val word more l)
cut_value pre key word more val k l (inr h) = rw (
  ← length-before pre key,
  h,
  cut_behind (before pre key ++ (word ++ b' ' ∷ more)) _ (length word),
  drop-append (before pre key) (word ++ b' ' ∷ more),
  take-append word (b' ' ∷ more),
)

-- One round on a string that holds the key, then `=`, a word and a space: it tests whether the
-- value begins with `val`.
match_at-word :
    (pre key word more val : Bytes)
    → Lacks b'=' key
    → Lacks b' ' word
    → Lacks b' ' val
    → match_at val (pre ++ (key ++ b'=' ∷ (word ++ b' ' ∷ more))) (length pre)
      ≡ ok (is_prefix val word)
unfolding match_at
match_at-word pre key word more val lk lw lv =
    let value = word ++ b' ' ∷ more in
    let (k, q, o) = strstr-split b' ' (before pre key) word lw more in
    rw (
      drop-append pre (key ++ b'=' ∷ value),
      strstr-Lacks-append b'=' key value lk,
      before-append pre key value,
      q,
      strn_eq-is_prefix val (cut (before pre key ++ value) (length pre + length key + 1) k),
      cut_value pre key word more val k lv o,
    )

-- One round on a string that holds a space in front of the key.
match_at-behind :
    (pre more key value val : Bytes)
    → Lacks b'=' key
    → Lacks b' ' pre
    → match_at val ((pre ++ b' ' ∷ more) ++ (key ++ b'=' ∷ value)) (length (pre ++ b' ' ∷ more))
      ≡ ok (is_prefix val value)
unfolding match_at
match_at-behind pre more key value val lk lp =
    let first = pre ++ b' ' ∷ more in
    let space : strstr (before first key ++ value) (b' ' ∷ []) ≡ some (length pre) =
      rw (← before-append first key value, append_assoc pre (b' ' ∷ more) (key ++ b'=' ∷ value))
        (strstr-Lacks-append b' ' pre (more ++ (key ++ b'=' ∷ value)) lp) in
    let inside : length pre < length (before first key) =
      omega (arith, length-before first key, length-append {0} pre (b' ' ∷ more)) in
    rw
      (
        drop-append first (key ++ b'=' ∷ value),
        strstr-Lacks-append b'=' key value lk,
        before-append first key value,
        space,
        strn_eq-is_prefix val
            (cut (before first key ++ value) (length first + length key + 1) (length pre)),
        ← length-before first key,
        cut_before (before first key ++ value) (length (before first key)) (length pre) inside,
        drop-append (before first key) value,
      )
      refl

-- With no space anywhere on the line, the search for one gives NULL, which is written through.
match_at-no_space :
    (pre key value val : Bytes)
    → Lacks b'=' key
    → Lacks b' ' (pre ++ (key ++ b'=' ∷ value))
    → match_at val (pre ++ (key ++ b'=' ∷ value)) (length pre) ≡ fault
unfolding match_at
match_at-no_space pre key value val lk l = rw (
  drop-append pre (key ++ b'=' ∷ value),
  strstr-Lacks-append b'=' key value lk,
  strstr-Lacks b' ' (pre ++ (key ++ b'=' ∷ value)) l,
)

scan_cmdline_step :
    (key val : Bytes) (c : ℕ) (cs : Bytes) (rs : List ReadResult) (stack : Bytes) {s : Bytes}
    {i : ℕ}
    → c_string (overwrite 0 (c ∷ cs) stack) ≡ some s
    → strstr s key ≡ some i
    → scan_cmdline key val (bytes (c ∷ cs) ∷ rs) stack ≡ (
        match_at val s i >>= λ found.
        if found then ok true else scan_cmdline key val rs (overwrite 0 (c ∷ cs) stack))
unfolding scan_cmdline
scan_cmdline_step key val c cs rs stack e f = ground arith

module _ (c : ℕ) (cs : Bytes) (rs : List ReadResult) (stack pre key value val : Bytes)
    (read : c_string (overwrite 0 (c ∷ cs) stack) ≡ some (pre ++ (key ++ b'=' ∷ value)))
    (first : Absent key pre (key ++ b'=' ∷ value)) (no_equals : Lacks b'=' key) where
  -- If what the first `read` put into the buffer holds the key, with an equals sign behind it
  -- and a value that ends at a space, and neither the key holds an equals sign nor `val` a
  -- space, then `util_has_cmdline` returns true if the value begins with `val`, and else goes on
  -- with what is read next.
  pub util_has_cmdline_word :
      (word more : Bytes)
      → value ≡ word ++ b' ' ∷ more
      → Lacks b' ' word
      → Lacks b' ' val
      → util_has_cmdline (some (bytes (c ∷ cs) ∷ rs)) stack key val ≡ (
          if is_prefix val word
          then ok true
          else scan_cmdline key val rs (overwrite 0 (c ∷ cs) stack))
  unfolding util_has_cmdline
  util_has_cmdline_word word more e lw lv = rw (
    scan_cmdline_step key val c cs rs stack read (strstr-append key pre (b'=' ∷ value) first),
    e,
    match_at-word pre key word more val no_equals lw lv,
  )

  -- If what the first `read` put into the buffer holds the key, with an equals sign behind it,
  -- and no space at all, `util_has_cmdline` writes through NULL.
  pub util_has_cmdline_no_space :
      Lacks b' ' (pre ++ (key ++ b'=' ∷ value))
      → util_has_cmdline (some (bytes (c ∷ cs) ∷ rs)) stack key val ≡ fault
  unfolding util_has_cmdline
  util_has_cmdline_no_space l = rw (
    scan_cmdline_step key val c cs rs stack read (strstr-append key pre (b'=' ∷ value) first),
    match_at-no_space pre key value val no_equals l,
  )

  -- If there is a space in front of the key, whatever follows is the value.
  pub util_has_cmdline_behind :
      (start more : Bytes)
      → pre ≡ start ++ b' ' ∷ more
      → Lacks b' ' start
      → util_has_cmdline (some (bytes (c ∷ cs) ∷ rs)) stack key val ≡ (
          if is_prefix val value
          then ok true
          else scan_cmdline key val rs (overwrite 0 (c ∷ cs) stack))
  unfolding util_has_cmdline
  util_has_cmdline_behind start more e l = rw (
    scan_cmdline_step key val c cs rs stack read (strstr-append key pre (b'=' ∷ value) first),
    e,
    match_at-behind start more key value val no_equals l,
  )
