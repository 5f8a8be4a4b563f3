-- ===== src/CString/Compare.antt =====
-- Comparison of strings and prefixes.
use mathlib.Core.Path.{ap₂}
use midas_util.Base.{ℕ, zero, suc, ◌≡◌, refl, ◌↔◌, true, ◌∷◌, [], ◌++◌, Bytes, length, take, arith}
use midas_util.CString.{str_eq, strn_eq, is_prefix}

pub str_eq_refl : (s : Bytes) → str_eq s s ≡ true
unfolding str_eq
str_eq_refl [] = refl
str_eq_refl (c ∷ s) = ground (arith, str_eq_refl s)

pub eq_of_str_eq : (a b : Bytes) → str_eq a b ≡ true → a ≡ b
unfolding str_eq
eq_of_str_eq [] [] h = refl
eq_of_str_eq [] (y ∷ b) h = cc
eq_of_str_eq (x ∷ a) [] h = cc
eq_of_str_eq (x ∷ a) (y ∷ b) h = ground (arith, eq_of_str_eq a b)

pub str_eq_iff : (a b : Bytes) → (str_eq a b ≡ true) ↔ (a ≡ b)
str_eq_iff a b = (eq_of_str_eq a b, λ e. rw e (str_eq_refl b))

-- Comparing n bytes is comparing the first n bytes.
pub strn_eq-take : (n : ℕ) (a b : Bytes) → strn_eq n a b ≡ str_eq (take n a) (take n b)
unfolding strn_eq str_eq
strn_eq-take zero a b = refl
strn_eq-take (suc n) [] [] = refl
strn_eq-take (suc n) [] (y ∷ b) = refl
strn_eq-take (suc n) (x ∷ a) [] = refl
strn_eq-take (suc n) (x ∷ a) (y ∷ b) = rw (strn_eq-take n a b)

pub is_prefix-append : (a b : Bytes) → is_prefix a (a ++ b) ≡ true
unfolding is_prefix
is_prefix-append [] b = refl
is_prefix-append (x ∷ a) b = ground (arith, is_prefix-append a b)

-- `strncmp(s, key, strlen(key)) == 0` says that s begins with key.
pub strn_eq-is_prefix : (key s : Bytes) → strn_eq (length key) s key ≡ is_prefix key s
unfolding strn_eq is_prefix
strn_eq-is_prefix [] s = refl
strn_eq-is_prefix (x ∷ key) [] = refl
strn_eq-is_prefix (x ∷ key) (y ∷ s) = ground (arith, strn_eq-is_prefix key s)

pub eq_of_is_prefix : (key s : Bytes) → is_prefix key s ≡ true → (rest : Bytes) × (s ≡ key ++ rest)
unfolding is_prefix
eq_of_is_prefix [] s h = (s, refl)
eq_of_is_prefix (x ∷ key) [] h = absurd (cc)
eq_of_is_prefix (x ∷ key) (y ∷ s) h =
    let (rest, e) = eq_of_is_prefix key s (ground arith) in
    (rest, ap₂ (λ (c : ℕ) (l : Bytes). c ∷ l) (ground arith) e)
