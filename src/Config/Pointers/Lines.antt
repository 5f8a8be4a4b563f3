-- ===== src/Config/Pointers/Lines.antt =====
-- The lines of a configuration file on memory and on the list of values.
use midas_util.Base.{
  ℕ, suc, ◌+◌, ◌≤◌, ◌<◌, ◌≡◌, ◌≢◌, refl, sym, ap, ◌∙◌, Bool, Option, List, [], ◌∷◌, ok, ◌++◌,
  >>=-eq-ok, ok-injective, length, length-append, if◌then◌else◌, arith, Bool-cases, inl, inr, Bytes,
  Run, All, codes,
}
use mathlib.Core.Path.{subst}
use midas_util.CString.{strn_eq}
use midas_util.Llist.{Ptr, null}
use midas_util.Llist.Chain.{Cells, at_object-snoc, end}
use midas_util.Llist.Append.{at_cell-snoc}
use midas_util.Llist.Supply.{Differ, IsSupply}
use midas_util.Config.{
  OverlayCfg, GlobalConfig, empty_config, handler, handle_global, handle_section, handle_overlay,
  matches,
}
use midas_util.Config.Load.{IniLine, entry, bad, run_lines, first_error}
use midas_util.Config.Pointers.{ConfigAt, overlay_line, handler_at, empty_config_at}
use midas_util.Config.Pointers.Stored.{Represents}
use midas_util.Config.Pointers.Refines.{IsFresh, handle_overlay_at-Grown}
use midas_util.Config.Pointers.Fields.{
  with_overlays, handle_global-overlays, handle_section-overlays, with_overlays-ok,
}

-- All addresses are free.
abbrev pub AllFresh : Cells Ptr → List (Ptr × Ptr) → Type 0
AllFresh cells free = All (λ (a, p). IsFresh cells a p) free

AllFresh-snoc :
    (a p : Ptr) (cells : Cells Ptr) (free : List (Ptr × Ptr))
    → All (λ (b, q). (b ≢ a) × (q ≢ p)) free
    → AllFresh cells free
    → AllFresh (cells ++ (a, p) ∷ []) free
AllFresh-snoc a p cells [] d f = tt
AllFresh-snoc a p cells ((b, q) ∷ free) ((nb, nq), d) (f, fs) =
    let e = f.node_unused in
    let e' = f.object_unused in
    (
      record {
        node_valid = f.node_valid;
        node_unused = at_cell-snoc b a p cells ∙ ground arith;
        object_unused = at_object-snoc q cells a p ∙ ground arith;
      },
      AllFresh-snoc a p cells free d fs,
    )

-- The configuration on memory and on the list of values.
pub record Same (n : ℕ) (d : ConfigAt) (cfg : GlobalConfig) : Type 0 where
  pub cells : Cells Ptr
  pub mem : Represents d.mem cells cfg.overlays
  pub rest : record d.cfg { overlays = cfg.overlays } ≡ cfg
  pub fresh : AllFresh cells d.free
  pub differ : Differ d.free
  pub within : length cells ≤ n

handle_global_lem :
    (n : ℕ) (d : ConfigAt) (cfg : GlobalConfig) (s : Same n d cfg) {cfg' : GlobalConfig} {r : Bool}
    (f : GlobalConfig → Run (GlobalConfig × Bool))
    → ((os : List OverlayCfg) (c : GlobalConfig)
        → f (record c { overlays = os }) ≡ with_overlays os (f c))
    → f cfg ≡ ok (cfg', r)
    → (c : GlobalConfig) × (f d.cfg ≡ ok (c, r)) × Same n (record d { cfg = c }) cfg'
handle_global_lem n d cfg s {cfg'} {r} f commutes e =
    let (c, q, same) =
      with_overlays-ok cfg.overlays (f d.cfg)
        (sym (commutes cfg.overlays d.cfg) ∙ ap f s.rest ∙ e) in
    let os : cfg'.overlays ≡ cfg.overlays = ap (λ (x : GlobalConfig). x.overlays) (sym same) in
    (
      c,
      q,
      record {
        cells = s.cells;
        mem = subst (λ (l : List OverlayCfg). Represents d.mem s.cells l) (sym os) s.mem;
        rest = ap (λ (l : List OverlayCfg). record c { overlays = l }) os ∙ same;
        fresh = s.fresh;
        differ = s.differ;
        within = s.within;
      },
    )

module _ (k : ℕ) (gpio_name : Bytes → Option Bytes) where
  -- A line of an overlay.
  overlay_lem :
      (n : ℕ) (d : ConfigAt) (cfg : GlobalConfig) (section name value : Bytes)
      (free : List (Ptr × Ptr)) {cfg' : GlobalConfig} {r : Bool}
      → Same n d cfg
      → d.free ≡ free
      → 1 ≤ length free
      → n < k
      → handle_overlay gpio_name cfg section name value ≡ ok (cfg', r)
      → (d' : ConfigAt) × (overlay_line k gpio_name d free section name value ≡ ok (d', r))
        × Same (suc n) d' cfg'
        × (length free ≤ suc (length d'.free))
  unfolding overlay_line
  overlay_lem n d cfg section name value [] s e l b h = absurd (omega arith)
  overlay_lem n d cfg section name value ((a, p) ∷ free) {cfg'} s e l b h =
      let (fresh, more) = rw e at s.fresh in
      let (apart, differ) = rw e at s.differ in
      let w = s.within in
      let (m', cells', q, r', grown, rest) =
        handle_overlay_at-Grown k a p gpio_name section name value cfg s.mem fresh (omega arith)
          h in
      (
        record d { mem = m'; free = free },
        rw q,
        record {
          cells = cells';
          mem = r';
          rest = ap (λ (c : GlobalConfig). record c { overlays = cfg'.overlays }) s.rest ∙ sym rest;
          fresh = elim grown [
            | inl same ↦ rw same more
            | inr same ↦ rw same (AllFresh-snoc a p s.cells free apart more)
          ];
          differ = differ;
          within = elim grown [
            | inl same ↦ rw same (omega arith)
            | inr same ↦ rw same (omega (arith, length-append {0} s.cells ((a, p) ∷ [])))
          ];
        },
        omega arith,
      )

  -- `handler` on memory does what it does on the list of values.
  handler_at_lem :
      (n : ℕ) (d : ConfigAt) (cfg : GlobalConfig) (section name value : Bytes) {cfg' : GlobalConfig}
      {r : Bool}
      → Same n d cfg
      → 1 ≤ length d.free
      → n < k
      → handler gpio_name cfg section name value ≡ ok (cfg', r)
      → (d' : ConfigAt) × (handler_at k gpio_name d section name value ≡ ok (d', r))
        × Same (suc n) d' cfg'
        × (length d.free ≤ suc (length d'.free))
  unfolding handler handler_at
  handler_at_lem n d cfg section name value s l b e = elim (Bool-cases (matches section "global")) [
    | inl t ↦
        (let (c, q, s') =
            handle_global_lem n d cfg s (λ c. handle_global c name value)
              (λ os c. handle_global-overlays os c name value) (rw t at e) in
          (record d { cfg = c }, rw (t, q), later s', omega arith))
    | inr t ↦ elim (Bool-cases (strn_eq 7 (codes "overlay") section)) [
      | inl o ↦
          rw (t, o) (overlay_lem n d cfg section name value d.free s refl l b (rw (t, o) at e))
      | inr o ↦
          (let (c, q, s') =
              handle_global_lem n d cfg s (λ c. handle_section c c.devices section name value)
                (λ os c. handle_section-overlays os c c.devices section name value)
                (rw (t, o) at e) in
            (record d { cfg = c }, rw (t, o, q), later s', omega arith))
    ]
  ]
    where
      later : {d' : ConfigAt} {c : GlobalConfig} → Same n d' c → Same (suc n) d' c
      later s = record {
        cells = s.cells;
        mem = s.mem;
        rest = s.rest;
        fresh = s.fresh;
        differ = s.differ;
        within = (let w = s.within in omega arith);
      }

  -- inih calls the handler on memory for the same lines.
  pub run_lines_lem :
      (n e : ℕ) (d : ConfigAt) (cfg : GlobalConfig) (ls : List IniLine) {cfg' : GlobalConfig}
      {e' : ℕ}
      → Same n d cfg
      → length ls ≤ length d.free
      → n + length ls ≤ k
      → run_lines (handler gpio_name) e cfg ls ≡ ok (cfg', e')
      → (d' : ConfigAt) × (n' : ℕ) × (run_lines (handler_at k gpio_name) e d ls ≡ ok (d', e'))
        × Same n' d' cfg'
        × (n' ≤ n + length ls)
  unfolding run_lines
  run_lines_lem n e d cfg [] s l b q =
      let same = ok-injective q in
      (
        d,
        n,
        ap (λ (x : GlobalConfig × ℕ). ok (d, x.1)) same,
        rw (ap (λ (x : GlobalConfig × ℕ). x.0) same) at s,
        omega arith,
      )
  run_lines_lem n e d cfg (bad m ∷ ls) s l b q =
      let (d', n', q', s', w) =
        run_lines_lem n (first_error e m) d cfg ls s (omega arith) (omega arith) q in
      (d', n', q', s', omega arith)
  run_lines_lem n e d cfg (entry m section name value ∷ ls) s l b q =
      let ((c, r), first, later) = >>=-eq-ok (handler gpio_name cfg section name value) _ q in
      let (d1, q1, s1, fewer) =
        handler_at_lem n d cfg section name value s (omega arith) (omega arith) first in
      let (d', n', q', s', w) =
        run_lines_lem (suc n) (if r then e else first_error e m) d1 c ls s1 (omega arith)
          (omega arith) later in
      (d', n', rw q1 q', s', omega arith)

AllFresh-nil : (free : List (Ptr × Ptr)) → All (λ (a, p). a ≢ null) free → AllFresh [] free
AllFresh-nil [] v = tt
AllFresh-nil ((a, p) ∷ free) (n, v) =
    (record { node_valid = n; node_unused = refl; object_unused = refl }, AllFresh-nil free v)

pub empty_config_at-Same :
    (free : List (Ptr × Ptr)) → IsSupply free → Same 0 (empty_config_at free) empty_config
empty_config_at-Same free v = record {
  cells = [];
  mem = record { chain = end; stored = tt };
  rest = refl;
  fresh = AllFresh-nil free v.valid;
  differ = v.differ;
  within = omega arith;
}
