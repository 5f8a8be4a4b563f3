-- ===== src/Ufdt/Memory.antt =====
-- `apply_overlays` of boot/ufdt.c on the list in memory that boot/config.c made.
use midas_util.Base.{
  ℕ, zero, suc, ◌≤◌, ◌<◌, ◌≡◌, refl, ap, ◌∙◌, ◌==◌, Option, List, [], ◌∷◌, ok, fault, ◌>>=◌, deref,
  length, if◌then◌else◌, arith, inl, inr, Bytes, Run, ok_of_Returns,
}
use midas_util.Llist.{Ptr, null, list_get, list_next_boot}
use midas_util.Llist.Chain.{Cells, Chain, Chain-cases, end, link, is_null}
use midas_util.Llist.Supply.{IsSupply}
use midas_util.Llist.Visit.{list_get_lem, list_next_boot_lem}
use midas_util.Config.{OverlayCfg, GlobalConfig, DeviceConfig, empty_config, handler}
use midas_util.Config.Load.{IniLine, run_lines, run_lines-IsValid, empty-IsValid}
use midas_util.Config.Valid.{IsValid}
use midas_util.Config.Pointers.{ConfigAt, handler_at, empty_config_at}
use midas_util.Config.Pointers.Stored.{Represents, Stored}
use midas_util.Config.Pointers.Lines.{empty_config_at-Same, run_lines_lem}
use midas_util.Util.{load_overlay}
use midas_util.Ufdt.{Libfdt, Machine, applies, apply_one, apply_all, apply_overlays}

module _ (fdt : Libfdt) where
  open fdt use {Blob, install_blob}

  -- the loop over `cfg->overlays`
  unfoldable pub apply_all_at :
      ℕ → Machine → ConfigAt → DeviceConfig → Ptr → Option Blob × ℕ → Run (Option Blob × ℕ)
  apply_all_at zero m d dev n s = fault
  apply_all_at (suc k) m d dev n s = if n == null then ok s else (do
    (p, _) ← list_get n d.mem.nodes
    o ← deref (d.mem.objects p)
    test ← applies m dev o
    s' ← (if test then apply_one fdt m d.cfg s o else ok s)
    (n', _) ← list_next_boot d.mem.head n d.mem.nodes
    apply_all_at k m d dev n' s')

  unfoldable pub apply_overlays_at :
      ℕ → Machine → ConfigAt → DeviceConfig → Bytes → ℕ → Run (Option Blob × ℕ)
  apply_overlays_at k m d dev dtb_buf dtb_size =
      let hdr = install_blob dtb_buf dtb_size in
      if d.mem.head == null
      then ok (hdr, dtb_size)
      else apply_all_at k m d dev d.mem.head (hdr, dtb_size)

  bind_same :
      {A B : Type 0} (m : Run A) (f g : A → Run B) → ((a : A) → f a ≡ g a) → (m >>= f) ≡ (m >>= g)
  bind_same fault f g e = refl
  bind_same (ok a) f g e = e a

  module _ (m : Machine) (dev : DeviceConfig) (d : ConfigAt) (cfg : GlobalConfig)
      (rest : record d.cfg { overlays = cfg.overlays } ≡ cfg) where
    -- Loading an overlay does not read the list.
    apply_one_same :
        (s : Option Blob × ℕ) (o : OverlayCfg) → apply_one fdt m d.cfg s o ≡ apply_one fdt m cfg s o
    unfolding apply_one load_overlay
    apply_one_same s o = ap (λ (c : GlobalConfig). apply_one fdt m c s o) rest

    apply_all_at_lem :
        (k : ℕ) (os : List OverlayCfg) {n : Ptr} {cells : Cells Ptr} (s : Option Blob × ℕ)
        → Chain d.mem.nodes n cells
        → Stored d.mem.objects cells os
        → length cells < k
        → apply_all_at k m d dev n s ≡ apply_all fdt m cfg dev os s
    unfolding apply_all_at apply_all
    apply_all_at_lem zero os s c st f = absurd (omega arith)
    apply_all_at_lem (suc k) [] s end st f = refl
    apply_all_at_lem (suc k) (o ∷ os) s end st f = absurd st
    apply_all_at_lem (suc k) [] s (link h out c) st f = absurd st
    apply_all_at_lem (suc k) (o ∷ os) s (link {q} h out c) (here, apart, st) f =
        rw (is_null h, list_get_lem h, here, list_next_boot_lem d.mem.head h)
          (bind_same (applies m dev o) _ _ λ test.
            ap
              (λ (r : Run (Option Blob × ℕ)).
                (if test then r else ok s) >>= λ s'. apply_all_at k m d dev q s')
              (apply_one_same s o)
            ∙ bind_same (if test then apply_one fdt m cfg s o else ok s) _ _
                λ s'. apply_all_at_lem k os s' c st (omega arith))

    apply_overlays_at_lem :
        (k : ℕ) (cells : Cells Ptr) (buf : Bytes) (size : ℕ)
        → Represents d.mem cells cfg.overlays
        → length cells < k
        → apply_overlays_at k m d dev buf size ≡ apply_overlays fdt m cfg dev buf size
    unfolding apply_overlays_at apply_overlays
    apply_overlays_at_lem k cells buf size r f = elim (Chain-cases r.chain) [
      | inl (e, t) ↦ rw t (nothing (install_blob buf size, size) cells cfg.overlays r.stored e)
      | inr (e, t) ↦
          rw t (apply_all_at_lem k cfg.overlays (install_blob buf size, size) r.chain r.stored f)
    ]
      where
        nothing :
            (s : Option Blob × ℕ) (cells : Cells Ptr) (os : List OverlayCfg)
            → Stored d.mem.objects cells os
            → cells ≡ []
            → ok s ≡ apply_all fdt m cfg dev os s
        nothing s [] [] st e = unfold apply_all in refl
        nothing s [] (o ∷ os) st e = absurd st
        nothing s (c ∷ cells) os st e = absurd (cc)

-- What inih's calls of the handler make of the lines of a file, on memory and on the list of values:
-- if `calloc` and `malloc` give addresses that are not NULL and all different, two for each line, and
-- the loops over the list have fuel for one round more than there are lines, then both runs return,
-- with the same number of the first line that is refused, and with the same configuration, but for
-- the list; and on every machine, for every device and device tree, `apply_overlays` does with the
-- list in memory what it does with the list of values, faults included.
pub apply_overlays_at-run_lines :
    (k : ℕ) (gpio_name : Bytes → Option Bytes) (free : List (Ptr × Ptr)) (ls : List IniLine)
    → IsSupply free
    → length ls ≤ length free
    → length ls < k
    → (d : ConfigAt) × (cfg : GlobalConfig) × (e : ℕ) × (run_lines
          (handler_at k gpio_name)
          0
          (empty_config_at free)
          ls
        ≡ ok (d, e))
      × (run_lines (handler gpio_name) 0 empty_config ls ≡ ok (cfg, e))
      × (record d.cfg { overlays = cfg.overlays } ≡ cfg)
      × ((fdt : Libfdt) (m : Machine) (dev : DeviceConfig) (buf : Bytes) (size : ℕ)
          → apply_overlays_at fdt k m d dev buf size ≡ apply_overlays fdt m cfg dev buf size)
apply_overlays_at-run_lines k gpio_name free ls v l b =
    let ((cfg, e), q, w) =
      ok_of_Returns (λ r. IsValid r.0) _
        (run_lines-IsValid gpio_name 0 empty_config ls empty-IsValid) in
    let (d, n, q', s, le) =
      run_lines_lem k gpio_name 0 0 (empty_config_at free) empty_config ls
        (empty_config_at-Same free v) l (omega arith) q in
    let bound = s.within in
    (
      d,
      cfg,
      e,
      q',
      q,
      s.rest,
      λ fdt m dev buf size.
          apply_overlays_at_lem fdt m dev d cfg s.rest k s.cells buf size s.mem (omega arith),
    )
