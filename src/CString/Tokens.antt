-- ===== src/CString/Tokens.antt =====
-- The tokens of `strsep`, between delimiters.
use midas_util.Base.{
  ℕ, suc, ◌+◌, ◌≡◌, ◌≢◌, ap, ◌∙◌, false, Bool-cases, inl, inr, refl, List, [], ◌∷◌, ◌++◌, Bytes,
  length, arith, ◌==◌, if◌then◌else◌,
}
use midas_util.CString.{strsep_all, cons_token}

-- the tokens with the delimiter between them
unfoldable pub join : ℕ → List Bytes → Bytes
join d [] = []
join d (t ∷ []) = t
join d (t ∷ (u ∷ ts)) = t ++ d ∷ join d (u ∷ ts)

unfoldable pub count : ℕ → Bytes → ℕ
count d [] = 0
count d (c ∷ s) = (if c == d then 1 else 0) + count d s

pub length-strsep_all : (d : ℕ) (s : Bytes) → length (strsep_all d s) ≡ suc (count d s)
unfolding strsep_all count cons_token
length-strsep_all d [] = refl
length-strsep_all d (c ∷ s) =
    ground (arith, length-strsep_all d s, length-cons_token c (strsep_all d s))
  where
    length-cons_token :
        (b : ℕ) (ts : List Bytes)
        → length ts ≡ suc (count d s)
        → length (cons_token b ts) ≡ length ts
    length-cons_token b [] h = absurd (omega arith)
    length-cons_token b (t ∷ ts) h = refl

-- No token of the list holds the delimiter.
abbrev pub NoneHolds : ℕ → List Bytes → Type 0
NoneHolds d [] = Unit {0}
NoneHolds d (t ∷ ts) = (count d t ≡ 0) × NoneHolds d ts

join-cons_token : (d c : ℕ) (ts : List Bytes) → ts ≢ [] → join d (cons_token c ts) ≡ c ∷ join d ts
unfolding join cons_token
join-cons_token d c [] h = absurd (h refl)
join-cons_token d c (t ∷ []) h = refl
join-cons_token d c (t ∷ (u ∷ ts)) h = refl

strsep_all-ne-nil : (d : ℕ) (s : Bytes) → strsep_all d s ≢ []
strsep_all-ne-nil d s e = absurd (omega (arith, length-strsep_all d s, ap length e))

join-nil-cons : (d : ℕ) (ts : List Bytes) → ts ≢ [] → join d ([] ∷ ts) ≡ d ∷ join d ts
unfolding join
join-nil-cons d [] h = absurd (h refl)
join-nil-cons d (t ∷ ts) h = refl

-- Joined by the delimiter, the tokens are the string.
pub join-strsep_all : (d : ℕ) (s : Bytes) → join d (strsep_all d s) ≡ s
unfolding strsep_all
join-strsep_all d [] = unfold join in refl
join-strsep_all d (c ∷ s) = elim (Bool-cases (c == d)) [
  | inl e ↦
      rw (e, join-nil-cons d _ (strsep_all-ne-nil d s), join-strsep_all d s)
        (ap (λ (b : ℕ). b ∷ s) (ground arith))
  | inr e ↦ rw (e, join-cons_token d c _ (strsep_all-ne-nil d s), join-strsep_all d s)
]

NoneHolds-cons_token :
    (d c : ℕ) (ts : List Bytes) → (c == d) ≡ false → NoneHolds d ts → NoneHolds d (cons_token c ts)
unfolding cons_token count
NoneHolds-cons_token d c [] h a = ground arith
NoneHolds-cons_token d c (t ∷ ts) h a = (ground arith, a.1)

pub NoneHolds-strsep_all : (d : ℕ) (s : Bytes) → NoneHolds d (strsep_all d s)
unfolding strsep_all count
NoneHolds-strsep_all d [] = (refl, tt)
NoneHolds-strsep_all d (c ∷ s) = elim (Bool-cases (c == d)) [
  | inl e ↦ rw e (refl, NoneHolds-strsep_all d s)
  | inr e ↦ rw e (NoneHolds-cons_token d c (strsep_all d s) e (NoneHolds-strsep_all d s))
]

strsep_all-token : (d : ℕ) (t : Bytes) → count d t ≡ 0 → strsep_all d t ≡ t ∷ []
unfolding strsep_all count cons_token
strsep_all-token d [] h = refl
strsep_all-token d (c ∷ t) h = elim (Bool-cases (c == d)) [
  | inl e ↦ absurd (omega (arith, rw e at h))
  | inr e ↦ rw (e, strsep_all-token d t (ground arith))
]

strsep_all-append :
    (d : ℕ) (t s : Bytes) → count d t ≡ 0 → strsep_all d (t ++ d ∷ s) ≡ t ∷ strsep_all d s
unfolding strsep_all count cons_token
strsep_all-append d [] s h = ground arith
strsep_all-append d (c ∷ t) s h = elim (Bool-cases (c == d)) [
  | inl e ↦ absurd (omega (arith, rw e at h))
  | inr e ↦ rw (e, strsep_all-append d t s (ground arith))
]

-- Texts that do not hold the delimiter are the tokens of the string that joins them.
pub strsep_all-join :
    (d : ℕ) (t : Bytes) (ts : List Bytes)
    → NoneHolds d (t ∷ ts)
    → strsep_all d (join d (t ∷ ts)) ≡ t ∷ ts
unfolding join
strsep_all-join d t [] (h, hs) = strsep_all-token d t h
strsep_all-join d t (u ∷ ts) (h, hs) =
    strsep_all-append d t (join d (u ∷ ts)) h
    ∙ ap (λ (l : List Bytes). t ∷ l) (strsep_all-join d u ts hs)
