-- ===== src/Main/Steps.antt =====
-- How a run of `main` goes on or stops: what the steps of `Exec` tell of it.
use midas_util.Base.{
  ℕ, ◌≡◌, ◌≢◌, refl, ap, Bool, true, false, not, Option, none, some, Run, ok, fault, arith, ◌==◌,
  ◌⊎◌, inl, inr,
}
use midas_util.Main.{Exec, go, exit, crash, ◌>>=◌, lift, exit_if, or_exit}

pub >>=-eq-go :
    {A B : Type 0} (m : Exec A) (f : A → Exec B) {b : B}
    → (m >>= f) ≡ go b
    → (a : A) × (m ≡ go a) × (f a ≡ go b)
>>=-eq-go (go a) f h = (a, refl, h)
>>=-eq-go (exit code) f h = absurd (cc)
>>=-eq-go crash f h = absurd (cc)

pub lift-eq-go : {A : Type 0} (m : Run A) {a : A} → lift m ≡ go a → m ≡ ok a
lift-eq-go (ok a) h = ap ok (cc)
lift-eq-go fault h = absurd (cc)

pub or_exit-eq-go :
    {A : Type 0} (code : ℕ) (o : Option A) {a : A} → or_exit code o ≡ go a → o ≡ some a
or_exit-eq-go code none h = absurd (cc)
or_exit-eq-go code (some a) h = ap some (cc)

pub exit_if-eq-go : (code : ℕ) (b : Bool) → exit_if code b ≡ go tt → b ≡ false
exit_if-eq-go code true h = absurd (cc)
exit_if-eq-go code false h = refl

pub ne_of_test : (x y : ℕ) → (x == y) ≡ false → x ≢ y
ne_of_test x y h = ground arith

pub not_eq_false : (x : ℕ) → not (x == 0) ≡ false → x ≡ 0
not_eq_false x h = ground arith

pub >>=-eq-exit :
    {A B : Type 0} (m : Exec A) (f : A → Exec B) {c : ℕ}
    → (m >>= f) ≡ exit c
    → (m ≡ exit c) ⊎ ((a : A) × (m ≡ go a) × (f a ≡ exit c))
>>=-eq-exit (go a) f h = inr (a, refl, h)
>>=-eq-exit (exit code) f h = inl (ap exit (cc))
>>=-eq-exit crash f h = absurd (cc)

-- A run that comes from the library's functions does not stop.
pub lift->>= :
    {A B : Type 0} (m : Run A) (f : A → Exec B) {c : ℕ}
    → (lift m >>= f) ≡ exit c
    → (a : A) × (m ≡ ok a) × (f a ≡ exit c)
lift->>= (ok a) f h = (a, refl, h)
lift->>= fault f h = absurd (cc)

pub or_exit->>= :
    {A B : Type 0} (code : ℕ) (o : Option A) (f : A → Exec B) {c : ℕ}
    → (or_exit code o >>= f) ≡ exit c
    → ((o ≡ none) × (c ≡ code)) ⊎ ((a : A) × (o ≡ some a) × (f a ≡ exit c))
or_exit->>= code none f h = inl (refl, cc)
or_exit->>= code (some a) f h = inr (a, refl, h)

pub exit_if->>= :
    {B : Type 0} (code : ℕ) (b : Bool) (k : Exec B) {c : ℕ}
    → (exit_if code b >>= λ _. k) ≡ exit c
    → ((b ≡ true) × (c ≡ code)) ⊎ ((b ≡ false) × (k ≡ exit c))
exit_if->>= code true k h = inl (refl, cc)
exit_if->>= code false k h = inr (refl, h)
