-- ===== src/CString/Find.antt =====
-- The first place where the key of `strstr` begins, and strings in buffers.
use midas_util.Base.{
  ℕ, suc, ◌+◌, ◌<◌, ◌≡◌, ◌≢◌, ◌⊎◌, refl, false, none, some, [], ◌∷◌, ◌++◌, Bytes, length, arith,
  ◌==◌, Bool-cases, inl, inr,
}
use midas_util.CString.{is_prefix, strstr, shift, c_string}
use midas_util.CString.Compare.{is_prefix-append}

-- The key begins nowhere in front of the end of `pre` in `pre ++ rest`.
abbrev pub Absent : Bytes → Bytes → Bytes → Type 0
Absent key [] rest = Unit {0}
Absent key (c ∷ pre) rest = (is_prefix key (c ∷ (pre ++ rest)) ≡ false) × Absent key pre rest

-- Where the key begins right behind `pre` and nowhere before, its offset is the length of `pre`.
pub strstr-append :
    (key pre rest : Bytes)
    → Absent key pre (key ++ rest)
    → strstr (pre ++ (key ++ rest)) key ≡ some (length pre)
unfolding strstr shift
strstr-append [] [] [] a = refl
strstr-append [] [] (c ∷ rest) a = refl
strstr-append (k ∷ key) [] rest a = rw (is_prefix-append (k ∷ key) rest)
strstr-append key (c ∷ pre) rest (h, a) = rw (h, strstr-append key pre rest a)

-- A buffer that holds a string, its NUL and anything behind it.
abbrev pub NoNul : Bytes → Type 0
NoNul [] = Unit {0}
NoNul (c ∷ s) = (c ≢ 0) × NoNul s

pub c_string-append : (s rest : Bytes) → NoNul s → c_string (s ++ 0 ∷ rest) ≡ some s
unfolding c_string
c_string-append [] rest h = refl
c_string-append (c ∷ s) rest (h, hs) = ground (arith, c_string-append s rest hs)

-- A byte does not stand in a string.
abbrev pub Lacks : ℕ → Bytes → Type 0
Lacks d [] = Unit {0}
Lacks d (c ∷ s) = ((d == c) ≡ false) × Lacks d s

pub strstr-Lacks : (d : ℕ) (s : Bytes) → Lacks d s → strstr s (d ∷ []) ≡ none
unfolding strstr shift is_prefix
strstr-Lacks d [] l = refl
strstr-Lacks d (c ∷ s) (n, l) = rw (n, strstr-Lacks d s l)

pub strstr-Lacks-append :
    (d : ℕ) (s t : Bytes) → Lacks d s → strstr (s ++ d ∷ t) (d ∷ []) ≡ some (length s)
unfolding strstr shift is_prefix
strstr-Lacks-append d [] t l = ground arith
strstr-Lacks-append d (c ∷ s) t (n, l) = rw (n, strstr-Lacks-append d s t l)

-- The first place of a byte is in front of the string's second half, or in it.
pub strstr-split :
    (d : ℕ) (s t : Bytes)
    → Lacks d t
    → (more : Bytes)
    → (k : ℕ) × (strstr (s ++ (t ++ d ∷ more)) (d ∷ []) ≡ some k)
      × ((k < length s) ⊎ (k ≡ length s + length t))
unfolding strstr shift is_prefix
strstr-split d [] t l more = (length t, strstr-Lacks-append d t more l, inr (omega arith))
strstr-split d (c ∷ s) t l more = elim (Bool-cases (d == c)) [
  | inl e ↦ (0, rw e, inl (omega arith))
  | inr e ↦ (let (k, q, o) = strstr-split d s t l more in (suc k, rw (e, q), after k o))
]
  where
    after :
        (k : ℕ)
        → (k < length s) ⊎ (k ≡ length s + length t)
        → (suc k < length (c ∷ s)) ⊎ (suc k ≡ length (c ∷ s) + length t)
    after k (inl h) = inl (omega arith)
    after k (inr h) = inr (omega arith)
