-- ===== src/Config/Load.antt =====
-- `load_config` of boot/config.c. inih is a parameter: what it is documented to do with a file is
-- the field `parses`.
use midas_util.Base.{
  ℕ, zero, suc, ◌≤◌, ◌≡◌, ap, ◌∙◌, sym, Bool, true, Option, none, some, List, [], ◌∷◌, Bytes, Run,
  ok, fault, ◌>>=◌, Returns, ok_of_Returns, >>=-eq-ok, if◌then◌else◌, arith, Bool-cases, inl, inr,
  ◌↔◌,
}
use mathlib.Core.Option.{some-injective}
use midas_util.Base.Ints.{ℤ, pos, negsuc, negative, nonzero}
use midas_util.Config.{GlobalConfig, empty_config, handler}
use midas_util.Config.Valid.{IsValid}
use midas_util.Config.Invariant.{handler-IsValid}

-- A handler that inih calls with the user's pointer, the section, the name and the value.
abbrev pub Handler : Type 0
Handler = GlobalConfig → Bytes → Bytes → Bytes → Run (GlobalConfig × Bool)

-- What inih reads in a file, line by line: an entry, or a line that is none.
pub data IniLine : Type 0 where
  entry : ℕ → Bytes → Bytes → Bytes → IniLine
  bad : ℕ → IniLine

-- the number of the first line that failed stays
abbrev pub first_error : ℕ → ℕ → ℕ
first_error zero line = line
first_error (suc e) line = suc e

-- ini.h: the handler is called for each entry, and parsing goes on after an error; the result is 0
-- or the number of the first line that is malformed or that the handler refuses.
unfoldable pub run_lines :
    {U : Type 0} → (U → Bytes → Bytes → Bytes → Run (U × Bool)) → ℕ → U → List IniLine → Run (U × ℕ)
run_lines h e cfg [] = ok (cfg, e)
run_lines h e cfg (bad n ∷ ls) = run_lines h (first_error e n) cfg ls
run_lines h e cfg (entry n section name value ∷ ls) = do
  (cfg', r) ← h cfg section name value
  run_lines h (if r then e else first_error e n) cfg' ls

-- `ini_parse`, and what a file holds; `none` if it cannot be opened.
pub record Inih : Type 0 where
  pub ini_parse : Bytes → Handler → GlobalConfig → Run (GlobalConfig × ℤ)
  pub lines : Bytes → Option (List IniLine)

-- ini.h on the result of `ini_parse`: -1 for a file that cannot be opened.
abbrev pub outcome : Handler → GlobalConfig → Option (List IniLine) → Run (GlobalConfig × ℤ)
outcome h cfg none = ok (cfg, negsuc 0)
outcome h cfg (some ls) = do (cfg', e) ← run_lines h 0 cfg ls; ok (cfg', pos e)

pub record Documented (ini : Inih) : Type 0 where
  pub parses :
      (file : Bytes) (h : Handler) (cfg : GlobalConfig)
      → ini.ini_parse file h cfg ≡ outcome h cfg (ini.lines file)

unfoldable pub load_config : Inih → (Bytes → Option Bytes) → Bytes → Run (Option GlobalConfig)
load_config ini gpio_name file = do
  (cfg, ret) ← ini.ini_parse file (handler gpio_name) empty_config
  ok (if negative ret then none else if nonzero ret then none else some cfg)

-- Every line is an entry, and the handler accepts each in turn, from `cfg` to `last`.
pub data Accepts (h : Handler) (last : GlobalConfig) : GlobalConfig → List IniLine → Type 0 where
  end : {cfg : GlobalConfig} → cfg ≡ last → Accepts h last cfg []
  next :
      {cfg cfg' : GlobalConfig} {n : ℕ} {section name value : Bytes} {ls : List IniLine}
      → h cfg section name value ≡ ok (cfg', true)
      → Accepts h last cfg' ls
      → Accepts h last cfg (entry n section name value ∷ ls)

-- Lines are counted from 1.
abbrev pub Numbered : List IniLine → Type 0
Numbered [] = Unit {0}
Numbered (bad n ∷ ls) = (1 ≤ n) × Numbered ls
Numbered (entry n _ _ _ ∷ ls) = (1 ≤ n) × Numbered ls

pub run_lines-IsValid :
    (gpio_name : Bytes → Option Bytes) (e : ℕ) (cfg : GlobalConfig) (ls : List IniLine)
    → IsValid cfg
    → Returns (λ r. IsValid r.0) (run_lines (handler gpio_name) e cfg ls)
unfolding run_lines
run_lines-IsValid g e cfg [] v = v
run_lines-IsValid g e cfg (bad n ∷ ls) v = run_lines-IsValid g (first_error e n) cfg ls v
run_lines-IsValid g e cfg (entry n section name value ∷ ls) v =
    let (r, q, w) = ok_of_Returns (λ r. IsValid r.0) _ (handler-IsValid g section name value v) in
    rw q (run_lines-IsValid g (if r.1 then e else first_error e n) r.0 ls w)

-- An error once seen is returned.
run_lines-suc :
    (h : Handler) (e : ℕ) (cfg last : GlobalConfig) (ls : List IniLine)
    → run_lines h (suc e) cfg ls ≡ ok (last, 0)
    → ⊥
unfolding run_lines
run_lines-suc h e cfg last [] q = absurd (ground arith)
run_lines-suc h e cfg last (bad n ∷ ls) q = run_lines-suc h e cfg last ls q
run_lines-suc h e cfg last (entry n section name value ∷ ls) q =
    let (r, p, later) = >>=-eq-ok (h cfg section name value) _ q in
    elim (Bool-cases r.1) [
      | inl t ↦ run_lines-suc h e r.0 last ls (rw t at later)
      | inr f ↦ run_lines-suc h e r.0 last ls (rw f at later)
    ]

run_lines-Accepts :
    (h : Handler) (cfg last : GlobalConfig) (ls : List IniLine)
    → Numbered ls
    → run_lines h 0 cfg ls ≡ ok (last, 0)
    → Accepts h last cfg ls
unfolding run_lines
run_lines-Accepts h cfg last [] num q = end (ground arith)
run_lines-Accepts h cfg last (bad zero ∷ ls) num q = absurd (omega arith)
run_lines-Accepts h cfg last (bad (suc n) ∷ ls) num q = absurd (run_lines-suc h n cfg last ls q)
run_lines-Accepts h cfg last (entry zero section name value ∷ ls) num q = absurd (omega arith)
run_lines-Accepts h cfg last (entry (suc n) section name value ∷ ls) num q =
    let (r, p, later) = >>=-eq-ok (h cfg section name value) _ q in
    elim (Bool-cases r.1) [
      | inl t ↦
          next (rw p (ap (λ (b : Bool). ok (r.0, b)) t))
            (run_lines-Accepts h r.0 last ls num.1 (rw t at later))
      | inr f ↦ absurd (run_lines-suc h n r.0 last ls (rw f at later))
    ]

Accepts-run_lines :
    (h : Handler) {last cfg : GlobalConfig} {ls : List IniLine}
    → Accepts h last cfg ls
    → run_lines h 0 cfg ls ≡ ok (last, 0)
unfolding run_lines
Accepts-run_lines h (end e) = rw e
Accepts-run_lines h (next e a) = rw e (Accepts-run_lines h a)

ok_none-ne-ok_some :
    {cfg : GlobalConfig} {A : Type 0}
    → ◌≡◌ {A = Run (Option GlobalConfig)} (ok none) (ok (some cfg))
    → A
ok_none-ne-ok_some h = absurd (cc)

outcome-load :
    (r : Run (GlobalConfig × ℤ)) {cfg : GlobalConfig}
    → (r >>= λ (c, ret). ok (if negative ret then none else if nonzero ret then none else some c))
      ≡ ok (some cfg)
    → r ≡ ok (cfg, pos 0)
outcome-load fault h = absurd (cc)
outcome-load (ok (c, pos zero)) h = ground arith
outcome-load (ok (c, pos (suc n))) h = ok_none-ne-ok_some h
outcome-load (ok (c, negsuc n)) h = ok_none-ne-ok_some h

outcome-zero :
    (h : Handler) (ls : List IniLine) {last : GlobalConfig}
    → outcome h empty_config (some ls) ≡ ok (last, pos 0)
    → run_lines h 0 empty_config ls ≡ ok (last, 0)
outcome-zero h ls q =
    let (r, p, later) = >>=-eq-ok (run_lines h 0 empty_config ls) _ q in p ∙ ground arith

pub empty-IsValid : IsValid empty_config
empty-IsValid = record { devices = tt; overlays = tt; distinct = tt }

IsValid-of :
    (last : GlobalConfig) (e : ℕ)
    → IsValid last
    → (cfg : GlobalConfig) → (if nonzero (pos e) then none else some last) ≡ some cfg
    → IsValid cfg
IsValid-of last zero v cfg q = rw (some-injective _ _ q) at v
IsValid-of last (suc e) v cfg q = absurd (cc)

module _ (ini : Inih) (doc : Documented ini) (gpio_name : Bytes → Option Bytes) (file : Bytes) where
  -- If inih behaves as documented and opens the file, whose lines are numbered from 1, then
  -- `load_config` returns a configuration exactly when the handler accepts every line in turn;
  -- the configuration is what the handler made of the lines.
  pub load_config-Accepts :
      (ls : List IniLine) (cfg : GlobalConfig)
      → ini.lines file ≡ some ls
      → Numbered ls
      → (load_config ini gpio_name file ≡ ok (some cfg))
        ↔ Accepts (handler gpio_name) cfg empty_config ls
  unfolding load_config
  load_config-Accepts ls cfg opens num = (
    λ q. run_lines-Accepts (handler gpio_name) empty_config cfg ls num (
        outcome-zero (handler gpio_name) ls (
          rw opens at (sym (doc.parses file (handler gpio_name) empty_config) ∙ outcome-load _ q))),
    λ a. rw (
      doc.parses file (handler gpio_name) empty_config,
      opens,
      Accepts-run_lines (handler gpio_name) a,
    ),
  )

  -- If inih behaves as documented, `load_config` does not fault, whatever the file holds, and a
  -- configuration that it returns is valid.
  pub load_config-IsValid :
      Returns
        (λ r. (cfg : GlobalConfig) → r ≡ some cfg → IsValid cfg)
        (load_config ini gpio_name file)
  unfolding load_config
  load_config-IsValid = rw (doc.parses file (handler gpio_name) empty_config) (go (ini.lines file))
    where
      go :
          (o : Option (List IniLine))
          → Returns
              (λ r. (cfg : GlobalConfig) → r ≡ some cfg → IsValid cfg)
              (do
                (cfg, ret) ← outcome (handler gpio_name) empty_config o
                ok (if negative ret then none else if nonzero ret then none else some cfg))
      go none = λ cfg e. absurd (cc)
      go (some ls) =
          let (r, q, w) =
            ok_of_Returns (λ r. IsValid r.0) _
              (run_lines-IsValid gpio_name 0 empty_config ls empty-IsValid) in
          rw q (λ cfg e. IsValid-of r.0 r.1 w cfg e)
