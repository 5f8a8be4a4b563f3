-- ===== src/Main/Boot.antt =====
-- `main` of boot/main.c, up to the call of kexec.
use midas_util.Base.{
  ℕ, ◌-◌, ◌≡◌, ◌≢◌, ◌∙◌, sym, ap, not, Option, none, some, Bytes, ok, deref, ◌==◌, ◌%◌, ◌^◌,
}
use midas_util.Config.{GlobalConfig, DeviceConfig}
use midas_util.Config.Load.{load_config}
use midas_util.Util.{get_cur_device}
use midas_util.Kernel.{get_cmdline, get_kernel_base_addr}
use midas_util.Ufdt.{Libfdt}
use midas_util.Main.{
  go, lift, exit_if, or_exit, World, Loaded, Handover, place, check_zimage, hand_over, set_start,
  set_end, place_kernel, prepare, boot, load_all, with_flags, two_args, label_name,
}
use midas_util.Main.Steps.{
  >>=-eq-go, lift-eq-go, or_exit-eq-go, exit_if-eq-go, ne_of_test, not_eq_false,
}

module _ (fdt : Libfdt) where
  open fdt use {Blob}

  hand_over-place :
      (w : World) (addr : ℕ) (l : Loaded fdt) (zimage_len : ℕ) (tree : Option Blob × ℕ)
      {h : Handover fdt}
      → hand_over fdt w addr l zimage_len tree ≡ go h
      → (h.entry ≡ addr)
        × (h.placement ≡ place w.page_size addr l.zimagesz zimage_len l.rdsz tree.1)
  unfolding hand_over
  hand_over-place w addr l zimage_len (none, n) e = absurd (cc)
  hand_over-place w addr l zimage_len (some t, n) {h} e = (cc, cc)

  set_end-place :
      (w : World) (addr : ℕ) (l : Loaded fdt) (zimage_len : ℕ) (tree : Option Blob × ℕ)
      {h : Handover fdt}
      → set_end fdt w addr l zimage_len tree ≡ go h
      → (n : ℕ) × (h.entry ≡ addr)
        × (h.placement ≡ place w.page_size addr l.zimagesz zimage_len l.rdsz n)
  unfolding set_end
  set_end-place w addr l zimage_len (none, n) e = absurd (cc)
  set_end-place w addr l zimage_len (some t, n) e =
      let (a, b) = hand_over-place w addr l zimage_len _ e in (_, a, b)

  set_start-place :
      (w : World) (addr : ℕ) (l : Loaded fdt) (zimage_len : ℕ) (tree : Option Blob × ℕ)
      {h : Handover fdt}
      → set_start fdt w addr l zimage_len tree ≡ go h
      → (n : ℕ) × (h.entry ≡ addr)
        × (h.placement ≡ place w.page_size addr l.zimagesz zimage_len l.rdsz n)
  unfolding set_start
  set_start-place w addr l zimage_len (none, n) e = absurd (cc)
  set_start-place w addr l zimage_len (some t, n) e = set_end-place w addr l zimage_len _ e

  -- What the call of kexec rests on: the kernel passed its check, the address is valid, and the
  -- segments are placed by the sizes that were loaded.
  pub record IsChecked (w : World) (l : Loaded fdt) (h : Handover fdt) : Type 0 where
    pub zimage_len : ℕ
    pub dtbsz : ℕ
    pub checked : check_zimage l.zimage l.zimagesz ≡ ok (some zimage_len)
    pub entry : h.entry ≢ 2 ^ 32 - 1
    pub placed : h.placement ≡ place w.page_size h.entry l.zimagesz zimage_len l.rdsz dtbsz

  place_kernel-IsChecked :
      (w : World) (l : Loaded fdt) (tree : Option Blob × ℕ) {h : Handover fdt}
      → place_kernel fdt w l tree ≡ go h
      → IsChecked w l h
  unfolding place_kernel
  place_kernel-IsChecked w l tree {h} e =
      let (base, q, e1) = >>=-eq-go (lift (get_kernel_base_addr w.iomem w.page_size)) _ e in
      let (_, q2, e2) = >>=-eq-go (exit_if 4 (base % 2 ^ 32 == 2 ^ 32 - 1)) _ e1 in
      let (checked, q3, e3) = >>=-eq-go (lift (check_zimage l.zimage l.zimagesz)) _ e2 in
      let (zimage_len, q4, e4) = >>=-eq-go (or_exit 4 checked) _ e3 in
      let (n, a, b) = set_start-place w (base % 2 ^ 32) l zimage_len tree e4 in
      let valid = exit_if-eq-go 4 (base % 2 ^ 32 == 2 ^ 32 - 1) q2 in
      record {
        zimage_len = zimage_len;
        dtbsz = n;
        checked =
            lift-eq-go (check_zimage l.zimage l.zimagesz) q3 ∙ ap ok (or_exit-eq-go 4 checked q4);
        entry = λ u. ne_of_test (base % 2 ^ 32) (2 ^ 32 - 1) valid (sym a ∙ u);
        placed = b ∙ ap (λ (x : ℕ). place w.page_size x l.zimagesz zimage_len l.rdsz n) (sym a);
      }

  prepare-IsChecked :
      (w : World) (cfg : GlobalConfig) (root : Bytes) (l : Loaded fdt) {h : Handover fdt}
      → prepare fdt w cfg root l ≡ go h
      → IsChecked w l h
  unfolding prepare
  prepare-IsChecked w cfg root l e =
      let (cmdline, q, e1) = >>=-eq-go (lift (get_cmdline w.machine.os cfg root)) _ e in
      let (t, q1, e2) = >>=-eq-go (lift (deref l.dtb)) _ e1 in place_kernel-IsChecked w l _ e2

  -- If `boot` gets to the call of kexec, it runs as root, `load_all` loaded the files for some
  -- configuration and device, `check_zimage` accepted the kernel, the entry address is not the
  -- error value 2^32 - 1, and the segments are those of `place` for the entry address, the sizes
  -- that were loaded, the checked length of the kernel and some size of the device tree.
  pub boot-IsChecked :
      (w : World) {h : Handover fdt}
      → boot fdt w ≡ go h
      → (w.uid ≡ 0)
        × (cfg : GlobalConfig) × (dev : DeviceConfig) × (l : Loaded fdt) × (load_all fdt w cfg dev
            ≡ go l)
        × IsChecked w l h
  unfolding boot
  boot-IsChecked w e =
      let (args, q0, e0) = >>=-eq-go (two_args w.args) _ e in
      let (_, q1, e1) = >>=-eq-go (exit_if 1 (not (w.uid == 0))) _ e0 in
      let (loaded, q2, e2) = >>=-eq-go (lift (load_config w.ini (label_name w) args.0)) _ e1 in
      let (cfg0, q3, e3) = >>=-eq-go (or_exit 1 loaded) _ e2 in
      let (cfg, q4, e4) = >>=-eq-go (with_flags w cfg0) _ e3 in
      let (found, q5, e5) =
        >>=-eq-go (lift (get_cur_device w.machine.proc_cmdline w.machine.stack cfg)) _ e4 in
      let (dev, q6, e6) = >>=-eq-go (or_exit 2 found) _ e5 in
      let (name, q7, e7) = >>=-eq-go (lift (deref dev.name)) _ e6 in
      let (l, q8, e8) = >>=-eq-go (load_all fdt w cfg dev) _ e7 in
      (
        not_eq_false w.uid (exit_if-eq-go 1 (not (w.uid == 0)) q1),
        cfg,
        dev,
        l,
        q8,
        prepare-IsChecked w cfg args.1 l e8,
      )
