-- ===== src/CString.antt =====
-- The string functions of the C library that the program calls, on strings without their NUL.
pub mod Find
pub mod Tokens
pub mod Compare
use Prim.Native.Nat.{min}
use midas_util.Base.{
  ℕ, zero, suc, ◌+◌, ◌-◌, ◌*◌, ◌^◌, Bool, true, false, ◌&&◌, ◌||◌, Option, none, some, List, [],
  ◌∷◌, Bytes, take, if◌then◌else◌, ◌==◌, leb,
}
use midas_util.Base.Ints.{ℤ, pos, neg}

-- `strcmp(a, b) == 0`
unfoldable pub str_eq : Bytes → Bytes → Bool
str_eq [] [] = true
str_eq [] (y ∷ ys) = false
str_eq (x ∷ xs) [] = false
str_eq (x ∷ xs) (y ∷ ys) = x == y && str_eq xs ys

-- `strncmp(a, b, n) == 0`
unfoldable pub strn_eq : ℕ → Bytes → Bytes → Bool
strn_eq zero a b = true
strn_eq (suc n) [] [] = true
strn_eq (suc n) [] (y ∷ ys) = false
strn_eq (suc n) (x ∷ xs) [] = false
strn_eq (suc n) (x ∷ xs) (y ∷ ys) = x == y && strn_eq n xs ys

unfoldable pub is_prefix : Bytes → Bytes → Bool
is_prefix [] s = true
is_prefix (c ∷ cs) [] = false
is_prefix (c ∷ cs) (d ∷ ds) = c == d && is_prefix cs ds

unfoldable pub shift : Option ℕ → Option ℕ
shift none = none
shift (some i) = some (suc i)

-- `strstr(s, key)`, as an offset into `s`
unfoldable pub strstr : Bytes → Bytes → Option ℕ
unfolding is_prefix shift
strstr [] key = if is_prefix key [] then some 0 else none
strstr (c ∷ s) key = if is_prefix key (c ∷ s) then some 0 else shift (strstr s key)

-- The string in a buffer: the bytes before the first NUL; `none` if the buffer holds no NUL.
unfoldable pub c_string : Bytes → Option Bytes
c_string [] = none
c_string (b ∷ bs) =
    if b == 0 then some [] else elim (c_string bs) [ none ↦ none | some s ↦ some (b ∷ s) ]

-- what `snprintf(path, n, ...)` leaves in `path`: at most n - 1 bytes of the text
unfoldable pub snprintf : ℕ → Bytes → Bytes
snprintf n text = take (n - 1) text

-- the head of the first token goes in front of the tokens of the rest
cons_token : ℕ → List Bytes → List Bytes
cons_token c [] = (c ∷ []) ∷ []
cons_token c (t ∷ ts) = (c ∷ t) ∷ ts

-- all tokens of a loop over `strsep(&string, delim)` with a delimiter of one byte
unfoldable pub strsep_all : ℕ → Bytes → List Bytes
unfolding cons_token
strsep_all d [] = [] ∷ []
strsep_all d (c ∷ s) = let rest = strsep_all d s in if c == d then [] ∷ rest else cons_token c rest

unfoldable pub is_space : ℕ → Bool
is_space c = c == b' ' || (leb 9 c && leb c 13)

unfoldable pub skip_spaces : Bytes → Bytes
unfolding is_space
skip_spaces [] = []
skip_spaces (c ∷ s) = let rest = skip_spaces s in if is_space c then rest else c ∷ s

is_digit : ℕ → Bool
is_digit c = leb b'0' c && leb c b'9'

digits_value : ℕ → Bytes → ℕ
unfolding is_digit
digits_value acc [] = acc
digits_value acc (c ∷ s) =
    let rest = digits_value (acc * 10 + (c - b'0')) s in if is_digit c then rest else acc

signed_value : Bytes → ℤ
unfolding digits_value
signed_value [] = pos 0
signed_value (c ∷ s) =
    if c == b'-'
    then neg (min (digits_value 0 s) (2 ^ 31))
    else if c == b'+'
    then pos (min (digits_value 0 s) (2 ^ 31 - 1))
    else pos (min (digits_value 0 (c ∷ s)) (2 ^ 31 - 1))

-- `atoi`, which is `strtol` in base ten: a `long` of 32 bits, held at its ends
unfoldable pub atoi : Bytes → ℤ
unfolding signed_value skip_spaces
atoi s = signed_value (skip_spaces s)
