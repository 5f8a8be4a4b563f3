-- ===== src/Config/Split.antt =====
-- `split` of boot/config.c: the array and what is stored in it.
use mathlib.Core.List.{append_assoc}
use midas_util.Base.{
  ℕ, zero, suc, ◌+◌, ◌≤◌, ◌<◌, ◌≡◌, refl, ap, Option, none, some, List, [], ◌∷◌, ◌++◌, map, Bytes,
  codes, ok, fault, length, set, set-append, replicate, length-append, length-replicate, ltb, arith,
  lt→ltb, ltb→lt, Bool-cases, inl, inr,
}
use midas_util.CString.{strn_eq, strsep_all}
use midas_util.CString.Tokens.{
  count, length-strsep_all, join, join-strsep_all, NoneHolds, NoneHolds-strsep_all,
}
use midas_util.Config.{StrArray, count_delims, fill, split}

-- An array that holds the strings `ts` and a NULL behind them.
abbrev pub array_of : List Bytes → StrArray
array_of ts = map some ts ++ none ∷ []

length-snoc {ℓ} : {A : Type ℓ} (pre : List A) (x : A) → length (pre ++ x ∷ []) ≡ suc (length pre)
length-snoc [] x = refl
length-snoc (p ∷ pre) x = ap suc (length-snoc pre x)

fill-append :
    (ts : List Bytes) (pre slots rest : StrArray)
    → length slots ≡ length ts
    → fill (length pre) ts (pre ++ (slots ++ rest)) ≡ ok (pre ++ (map some ts ++ rest))
unfolding fill
fill-append [] pre [] rest h = refl
fill-append [] pre (s ∷ slots) rest h = absurd (omega arith)
fill-append (t ∷ ts) pre [] rest h = absurd (omega arith)
fill-append (t ∷ ts) pre (s ∷ slots) rest h =
    rw
      (
        lt→ltb (length pre) (length (pre ++ s ∷ (slots ++ rest)))
            (omega (arith, length-append {0} pre (s ∷ (slots ++ rest)))),
        set-append pre s (some t) (slots ++ rest),
      )
      (rw (length-snoc pre (some t), append_assoc, append_assoc) at
        (fill-append ts (pre ++ some t ∷ []) slots rest (omega arith)))

length-set {ℓ} : {A : Type ℓ} (xs : List A) (i : ℕ) (v : A) → length (set xs i v) ≡ length xs
length-set [] i v = refl
length-set (x ∷ xs) zero v = refl
length-set (x ∷ xs) (suc i) v = ap suc (length-set xs i v)

replicate-suc : (n : ℕ) → replicate {A = Option Bytes} (suc n) none ≡ replicate n none ++ none ∷ []
replicate-suc zero = refl
replicate-suc (suc n) = ap (◌∷◌ none) (replicate-suc n)

-- Fewer slots than strings: the loop writes behind the array.
fill_overrun :
    (ts : List Bytes) (i : ℕ) (a : StrArray)
    → length a < i + length ts
    → i ≤ length a
    → fill i ts a ≡ fault
unfolding fill
fill_overrun [] i a h g = absurd (omega arith)
fill_overrun (t ∷ ts) i a h g = elim (Bool-cases (ltb i (length a))) [
  | inl e ↦ rw e (
      fill_overrun ts (suc i) (set a i (some t)) (omega (arith, length-set {0} a i (some t)))
        (omega (arith, length-set {0} a i (some t), ltb→lt i (length a) e)))
  | inr e ↦ rw e
]

count_delims-comma : (s : Bytes) → count_delims (codes ",") s ≡ count b',' s
unfolding count_delims count strn_eq
count_delims-comma [] = refl
count_delims-comma (c ∷ s) = ground (arith, count_delims-comma s)

pub split_lem :
    (s : Bytes)
    → split s (codes ",") ≡ ok (array_of (strsep_all b',' s), length (strsep_all b',' s))
unfolding split
split_lem s =
    let ts = strsep_all b',' s in
    let n : suc (length ts) ≡ count b',' s + 2 = omega (arith, length-strsep_all b',' s) in
    let filled =
      fill-append ts [] (replicate (length ts) none) (none ∷ []) (length-replicate _ _) in
    rw (count_delims-comma s, ← n, replicate-suc (length ts), filled)
      (ap (λ (k : ℕ). ok (array_of ts, k)) (omega arith))

-- For a comma as delimiter `split` does not fault; the array holds the pieces of the string
-- between its commas and a NULL behind them, and `*sz` is the number of pieces. Joined by commas
-- the pieces are the string again, and none of them holds a comma.
pub split_comma :
    (s : Bytes)
    → (ts : List Bytes) × (split s (codes ",") ≡ ok (array_of ts, length ts))
      × (join b',' ts ≡ s)
      × NoneHolds b',' ts
split_comma s =
    (strsep_all b',' s, split_lem s, join-strsep_all b',' s, NoneHolds-strsep_all b',' s)

-- If the string holds at least two more commas than it holds the delimiter, `split` writes
-- behind its array.
pub split_overrun :
    (s delim : Bytes) → count_delims delim s + 1 < count b',' s → split s delim ≡ fault
unfolding split
split_overrun s delim h = rw (
    fill_overrun (strsep_all b',' s) 0 (replicate (count_delims delim s + 2) none)
      (omega (
        arith,
        length-strsep_all b',' s,
        length-replicate {0} {A = Option Bytes} (count_delims delim s + 2) none,
      ))
      (omega arith))
