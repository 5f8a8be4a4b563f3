-- ===== src/Main/Codes.antt =====
-- The codes that `main` of boot/main.c returns.
use midas_util.Base.{
  ℕ, ◌≡◌, ◌≢◌, ◌<◌, ◌∙◌, ap, Bool, true, false, not, Option, none, some, List, [], ◌∷◌, Bytes, Run,
  ok, fault, deref, if◌then◌else◌, arith, ◌==◌, ◌%◌, ◌^◌, ◌-◌, length, inl, inr,
}
use midas_util.Config.{GlobalConfig, DeviceConfig}
use midas_util.Config.Load.{load_config}
use midas_util.Util.{get_cur_device, load_dtb}
use midas_util.Kernel.{get_cmdline, get_kernel_base_addr, load_zimage, load_ramdisk}
use midas_util.Ufdt.{Libfdt, apply_overlays}
use midas_util.Main.{
  go, exit, ◌>>=◌, lift, exit_if, World, Loaded, Handover, has, check_zimage, hand_over, set_start,
  set_end, place_kernel, prepare, boot, main, load_all, with_flags, two_args, label_name,
}
use midas_util.Main.Steps.{
  >>=-eq-go, exit_if-eq-go, >>=-eq-exit, lift->>=, or_exit->>=, exit_if->>=,
}

module _ (fdt : Libfdt) (w : World) where
  open fdt use {Blob}

  -- The configuration that the first argument names, with the flags of the kernel's command line.
  abbrev pub IsConfigured : GlobalConfig → Type 0
  IsConfigured cfg =
      (config : Bytes) × (root : Bytes) × (cfg0 : GlobalConfig) × (two_args w.args
        ≡ go (config, root))
      × (load_config w.ini (label_name w) config ≡ ok (some cfg0))
      × (with_flags w cfg0 ≡ go cfg)

  -- The device that this configuration has for this machine.
  abbrev pub IsFound : GlobalConfig → DeviceConfig → Type 0
  IsFound cfg dev =
      IsConfigured cfg × (get_cur_device w.machine.proc_cmdline w.machine.stack cfg ≡ ok (some dev))

  -- Why `main` stops, and with which code.
  pub data Stops : ℕ → Type 0 where
    usage : length w.args < 3 → Stops 1
    not_root : w.uid ≢ 0 → Stops 1
    no_config :
        (config root : Bytes)
        → two_args w.args ≡ go (config, root)
        → load_config w.ini (label_name w) config ≡ ok none
        → Stops 1
    no_device :
        (cfg : GlobalConfig)
        → IsConfigured cfg
        → get_cur_device w.machine.proc_cmdline w.machine.stack cfg ≡ ok none
        → Stops 2
    no_dtb :
        (cfg : GlobalConfig) (dev : DeviceConfig) (n : Option ℕ)
        → IsFound cfg dev
        → load_dtb w.machine.os cfg dev ≡ ok (none, n)
        → Stops 3
    no_address :
        (base : ℕ)
        → get_kernel_base_addr w.iomem w.page_size ≡ ok base
        → base % 2 ^ 32 ≡ 2 ^ 32 - 1
        → Stops 4
    bad_zimage :
        (cfg : GlobalConfig) (dev : DeviceConfig) (l : Loaded fdt)
        → IsFound cfg dev
        → load_all fdt w cfg dev ≡ go l
        → check_zimage l.zimage l.zimagesz ≡ ok none
        → Stops 4
    no_kexec : (h : Handover fdt) → boot fdt w ≡ go h → w.kexec_loads ≡ false → Stops 4

  two_args-exit : (args : List Bytes) {c : ℕ} → two_args args ≡ exit c → (length args < 3) × (c ≡ 1)
  two_args-exit [] h = (omega arith, cc)
  two_args-exit (a ∷ []) h = (omega arith, cc)
  two_args-exit (a ∷ (b ∷ [])) h = (omega arith, cc)
  two_args-exit (a ∷ (b ∷ (c ∷ args))) h = absurd (cc)

  lift-exit : {A : Type 0} (m : Run A) {c : ℕ} → lift m ≡ exit c → ⊥
  lift-exit (ok a) h = absurd (cc)
  lift-exit fault h = absurd (cc)

  with_flags-exit : (cfg : GlobalConfig) {c : ℕ} → with_flags w cfg ≡ exit c → ⊥
  unfolding with_flags
  with_flags-exit cfg h =
      let (recovery, p, h1) = lift->>= (has w "bootmode" "2") _ h in
      let (charger, q, h2) = lift->>= (has w "androidboot.mode" "charger") _ h1 in
      elim (>>=-eq-exit (if charger then go true else lift (has w "lpcharge" "1")) _ h2) [
        | inl e ↦ lpm charger e
        | inr (a, e, h3) ↦ absurd (cc)
      ]
    where
      lpm :
          (charger : Bool) {c : ℕ}
          → (if charger then go true else lift (has w "lpcharge" "1")) ≡ exit c
          → ⊥
      lpm true e = absurd (cc)
      lpm false e = lift-exit (has w "lpcharge" "1") e

  load_all-exit :
      (cfg : GlobalConfig) (dev : DeviceConfig) {c : ℕ}
      → IsFound cfg dev
      → load_all fdt w cfg dev ≡ exit c
      → Stops c
  unfolding load_all
  load_all-exit cfg dev is h =
      let (z, p, h1) = lift->>= (load_zimage w.machine.os cfg) _ h in
      let (zimagesz, p1, h2) = lift->>= (deref z.1) _ h1 in
      let (r, p2, h3) = lift->>= (load_ramdisk w.machine.os cfg) _ h2 in
      let (rdsz, p3, h4) = lift->>= (deref r.1) _ h3 in
      let (b, p4, h5) = lift->>= (load_dtb w.machine.os cfg dev) _ h4 in
      elim (or_exit->>= 3 b.0 _ h5) [
        | inl (e, code) ↦
            rw code (no_dtb cfg dev b.1 is (p4 ∙ ap (λ (x : Option Bytes). ok (x, b.1)) e))
        | inr (raw, e, h6) ↦
            let (len, p5, h7) = lift->>= (deref b.1) _ h6 in
            let (t, p6, h8) = lift->>= (apply_overlays fdt w.machine cfg dev raw len) _ h7 in
            absurd (cc)
      ]

  hand_over-exit :
      (addr : ℕ) (l : Loaded fdt) (n : ℕ) (tree : Option Blob × ℕ) {c : ℕ}
      → hand_over fdt w addr l n tree ≡ exit c
      → ⊥
  unfolding hand_over
  hand_over-exit addr l n (none, k) h = absurd (cc)
  hand_over-exit addr l n (some t, k) h = absurd (cc)

  set_end-exit :
      (addr : ℕ) (l : Loaded fdt) (n : ℕ) (tree : Option Blob × ℕ) {c : ℕ}
      → set_end fdt w addr l n tree ≡ exit c
      → ⊥
  unfolding set_end
  set_end-exit addr l n (none, k) h = absurd (cc)
  set_end-exit addr l n (some t, k) h = hand_over-exit addr l n _ h

  set_start-exit :
      (addr : ℕ) (l : Loaded fdt) (n : ℕ) (tree : Option Blob × ℕ) {c : ℕ}
      → set_start fdt w addr l n tree ≡ exit c
      → ⊥
  unfolding set_start
  set_start-exit addr l n (none, k) h = absurd (cc)
  set_start-exit addr l n (some t, k) h = set_end-exit addr l n _ h

  true_of_not : (b : Bool) → not b ≡ false → b ≡ true
  true_of_not b h = ground arith

  eq_of_test : (x y : ℕ) → (x == y) ≡ true → x ≡ y
  eq_of_test x y h = ground arith

  module _ (cfg : GlobalConfig) (dev : DeviceConfig) (l : Loaded fdt) (is : IsFound cfg dev)
      (all : load_all fdt w cfg dev ≡ go l) where
    place_kernel-exit :
        (tree : Option Blob × ℕ) {c : ℕ} → place_kernel fdt w l tree ≡ exit c → Stops c
    unfolding place_kernel
    place_kernel-exit tree h =
        let (base, p, h1) = lift->>= (get_kernel_base_addr w.iomem w.page_size) _ h in
        elim (exit_if->>= 4 (base % 2 ^ 32 == 2 ^ 32 - 1) _ h1) [
          | inl (e, code) ↦ rw code (no_address base p (eq_of_test (base % 2 ^ 32) (2 ^ 32 - 1) e))
          | inr (e, h2) ↦
              let (checked, p1, h3) = lift->>= (check_zimage l.zimage l.zimagesz) _ h2 in
              elim (or_exit->>= 4 checked _ h3) [
                | inl (q, code) ↦ rw code (bad_zimage cfg dev l is all (p1 ∙ ap ok q))
                | inr (n, q, h4) ↦ absurd (set_start-exit (base % 2 ^ 32) l n tree h4)
              ]
        ]

    prepare-exit : (root : Bytes) {c : ℕ} → prepare fdt w cfg root l ≡ exit c → Stops c
    unfolding prepare
    prepare-exit root h =
        let (cmdline, p, h1) = lift->>= (get_cmdline w.machine.os cfg root) _ h in
        let (t, p1, h2) = lift->>= (deref l.dtb) _ h1 in place_kernel-exit _ h2

  with_device-exit :
      (cfg : GlobalConfig) (dev : DeviceConfig) (root : Bytes) {c : ℕ}
      → IsFound cfg dev
      → (lift (deref dev.name) >>= λ _. load_all fdt w cfg dev >>= λ l. prepare fdt w cfg root l)
        ≡ exit c
      → Stops c
  with_device-exit cfg dev root is h =
      let (name, p, h1) = lift->>= (deref dev.name) _ h in
      elim (>>=-eq-exit (load_all fdt w cfg dev) _ h1) [
        | inl e ↦ load_all-exit cfg dev is e
        | inr (l, e, h2) ↦ prepare-exit cfg dev l is e root h2
      ]

  boot-exit : {c : ℕ} → boot fdt w ≡ exit c → Stops c
  unfolding boot
  boot-exit h = elim (>>=-eq-exit (two_args w.args) _ h) [
    | inl e ↦ let (few, code) = two_args-exit w.args e in rw code (usage few)
    | inr (a, p, h1) ↦ elim (exit_if->>= 1 (not (w.uid == 0)) _ h1) [
      | inl (e, code) ↦ rw code (not_root (ground arith))
      | inr (e, h2) ↦
          let (loaded, p1, h3) = lift->>= (load_config w.ini (label_name w) a.0) _ h2 in
          elim (or_exit->>= 1 loaded _ h3) [
            | inl (q, code) ↦ rw code (no_config a.0 a.1 p (p1 ∙ ap ok q))
            | inr (cfg0, q, h4) ↦ elim (>>=-eq-exit (with_flags w cfg0) _ h4) [
              | inl e4 ↦ absurd (with_flags-exit cfg0 e4)
              | inr (cfg, e4, h5) ↦
                  let (found, p2, h6) =
                    lift->>= (get_cur_device w.machine.proc_cmdline w.machine.stack cfg) _ h5 in
                  elim (or_exit->>= 2 found _ h6) [
                    | inl (q2, code) ↦
                        rw code
                          (no_device cfg (a.0, a.1, cfg0, p, p1 ∙ ap ok q, e4) (p2 ∙ ap ok q2))
                    | inr (dev, q2, h7) ↦
                        with_device-exit cfg dev a.1
                          ((a.0, a.1, cfg0, p, p1 ∙ ap ok q, e4), p2 ∙ ap ok q2) h7
                  ]
            ]
          ]
    ]
  ]

  -- If `main` stops with a code, the code tells why: 1 for fewer than two arguments, for a user who
  -- is not root, or if `load_config` returned NULL on the file of the first argument; 2 if
  -- `get_cur_device` found no device in the configuration; 3 if `load_dtb` returned NULL for the
  -- device that was found; 4 if the address of the kernel
  -- is the error value in 32 bits, if `check_zimage` refused the kernel that was loaded, or if
  -- `kexec_load` failed. If it gets behind the reboot, its code is 5, `boot` prepared everything
  -- and `kexec_load` succeeded.
  pub main-Stops :
      ((c : ℕ) → main fdt w ≡ exit c → Stops c)
      × ((c : ℕ)
          → main fdt w ≡ go c
          → (c ≡ 5) × (w.kexec_loads ≡ true) × (h : Handover fdt) × (boot fdt w ≡ go h))
  unfolding main
  main-Stops = (
    λ c e. elim (>>=-eq-exit (boot fdt w) _ e) [
      | inl p ↦ boot-exit p
      | inr (h, p, e1) ↦ elim (exit_if->>= 4 (not w.kexec_loads) _ e1) [
        | inl (q, code) ↦ rw code (no_kexec h p (ground arith))
        | inr (q, e2) ↦ absurd (cc)
      ]
    ],
    λ c e.
        let (h, p, e1) = >>=-eq-go (boot fdt w) _ e in
        let (_, q, e2) = >>=-eq-go (exit_if 4 (not w.kexec_loads)) _ e1 in
        (cc, true_of_not w.kexec_loads (exit_if-eq-go 4 (not w.kexec_loads) q), h, p),
  )
