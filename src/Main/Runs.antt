-- ===== src/Main/Runs.antt =====
-- A whole run of `main` of boot/main.c, from the files and the command line to the call of kexec.
use midas_util.Base.{
  length-append, ℕ, ◌+◌, ◌-◌, ◌^◌, ◌%◌, ◌<◌, ◌≡◌, refl, true, false, not, some, [], ◌∷◌, ◌++◌,
  codes, ok, length, arith, ◌==◌,
}
use midas_util.Config.RoundTrip.{load_config-lines_of}
use midas_util.Kernel.{get_kernel_base_addr}
use midas_util.Kernel.Iomem.{get_kernel_base_addr-iomem}
use midas_util.Ufdt.{Libfdt, setup_dtb_prop, success}
use midas_util.Ufdt.Space.{node_space, prop_space}
use midas_util.Ufdt.Room.{IsGrown}
use midas_util.Ufdt.Grown.{setup_dtb_prop-IsGrown, setup_dtb_prop_int-IsGrown}
use midas_util.Main.Ready.{
  Contents, cfg, address, cmdline, IsPlaceable, IsSettable, IsReady, IsBooted,
}
use midas_util.Main.Zimage.{stated_length, check_zimage_iff}
use midas_util.Main.{
  go, exit_if, two_args, World, Handover, place, check_zimage, hand_over, after_setup, set_start,
  set_end, told_start, told_end, place_kernel, prepare, boot, main, label_name, told_start,
}
use midas_util.Main.Loading.{
  loaded, with_flags-IsProcLine, get_cur_device-IsStored, load_all-IsStored, get_cmdline-IsSource,
}

module _ (fdt : Libfdt) (w : World) (s : Contents fdt w) where
  open fdt use {Blob}

  get_kernel_base_addr-IsPlaceable :
      IsPlaceable fdt w s → get_kernel_base_addr w.iomem w.page_size ≡ ok (address fdt w s)
  get_kernel_base_addr-IsPlaceable p =
      rw (p.iomem, p.page_size)
        ((get_kernel_base_addr-iomem s.ranges s.ram s.more_ranges s.page_bits p.printed p.others
          p.ram_printed p.names p.narrow p.no_overflow).0)

  check_zimage-IsPlaceable :
      IsPlaceable fdt w s
      → check_zimage (some s.kernel) (length s.kernel) ≡ ok (some (stated_length s.kernel))
  check_zimage-IsPlaceable p =
      (check_zimage_iff s.kernel (length s.kernel) (stated_length s.kernel)).1
        (p.long, p.magic, p.stated, refl)

  kept_address : (a : ℕ) → a < 2 ^ 32 - 1 → (a % 2 ^ 32 ≡ a) × ((a == 2 ^ 32 - 1) ≡ false)
  kept_address a h = (omega arith, ground arith)

  set_start-IsBooted :
      (r : IsSettable fdt w s) (t : Blob) (n : ℕ)
      → IsGrown fdt r.laws s.size
          (node_space (codes "chosen")
            + prop_space (codes "bootargs") (length (cmdline fdt w s) + 1))
          t
          n
      → setup_dtb_prop fdt s.tree s.size
          (codes "chosen")
          (codes "bootargs")
          ((cmdline fdt w s) ++ 0 ∷ [])
          (length (cmdline fdt w s) + 1)
        ≡ success t n
      → (h : Handover fdt) × (set_start fdt w
            (address fdt w s)
            (loaded fdt w s)
            (stated_length s.kernel)
            (some t, n)
          ≡ go h)
        × IsBooted fdt w s h
  unfolding set_start set_end hand_over after_setup told_start told_end place
  set_start-IsBooted r t n g e =
      let at_start = told_start fdt w (address fdt w s) (loaded fdt w s) (stated_length s.kernel) in
      let at_end = told_end fdt w (address fdt w s) (loaded fdt w s) (stated_length s.kernel) in
      let room = r.room in
      let high = g.not_more in
      let (t2, n2, e2, g2) =
        setup_dtb_prop_int-IsGrown fdt r.laws t n (codes "chosen") (codes "linux,initrd-start")
          at_start g.valid g.used_le (omega arith) in
      let high2 = g2.not_more in
      let (t3, n3, e3, g3) =
        setup_dtb_prop_int-IsGrown fdt r.laws t2 n2 (codes "chosen") (codes "linux,initrd-end")
          at_end g2.valid g2.used_le (omega arith) in
      (
        record {
          entry = (address fdt w s);
          placement =
              place w.page_size (address fdt w s) (length s.kernel) (stated_length s.kernel)
                (length s.ramdisk) n3;
          tree = t3;
        },
        rw (e2, e3),
        record {
          with_args = t;
          args_size = n;
          with_start = t2;
          start_size = n2;
          last_size = n3;
          bootargs = e;
          start = e2;
          end = e3;
          entry = refl;
          placed = refl;
        },
      )

  prepare-IsBooted :
      IsReady fdt w s
      → (h : Handover fdt) × (prepare fdt w (cfg fdt w s) s.root (loaded fdt w s) ≡ go h)
        × IsBooted fdt w s h
  unfolding prepare place_kernel after_setup
  prepare-IsBooted r =
      let room = r.tree.room in
      let (t, n, e, g) =
        setup_dtb_prop-IsGrown fdt r.tree.laws s.tree s.size (codes "chosen") (codes "bootargs")
          ((cmdline fdt w s) ++ 0 ∷ []) (length (cmdline fdt w s) + 1) r.tree.valid r.tree.within
          (omega arith) (omega (arith, length-append {0} (cmdline fdt w s) (0 ∷ []))) in
      let (h, q, b) = set_start-IsBooted r.tree t n g e in
      let (same, valid) = kept_address (address fdt w s) r.memory.fits in
      (
        h,
        rw
            (
              get_cmdline-IsSource fdt w s r.files.source,
              e,
              get_kernel_base_addr-IsPlaceable r.memory,
              same,
              valid,
              check_zimage-IsPlaceable r.memory,
            )
            q,
        b,
      )

  both_args :
      w.args ≡ s.prog ∷ s.config ∷ s.root ∷ s.more_args → two_args w.args ≡ go (s.config, s.root)
  both_args e = rw e

  root_passes : w.uid ≡ 0 → exit_if 1 (not (w.uid == 0)) ≡ go tt
  root_passes e = rw e

  -- If `main` is run as root on a well-formed configuration file, which inih reads as documented,
  -- the kernel's command line is read at once and names the bootloader, its parameters for the modes
  -- are not there or have a value that ends at a space or stands behind one, the first device of that
  -- bootloader has a device tree that can be opened, the tree and the overlays that apply are there,
  -- can be read and can be applied, the kernel and the ramdisk are the files that the configuration
  -- names, or the parts of a valid boot image, if it names one for the mode, normal or recovery, that
  -- the command line asks for, the kernel's header is valid, /proc/iomem names memory that is low
  -- enough, pages have fewer than 2^32 bytes, libfdt does what it is documented to do on valid trees
  -- with room enough, the tree is valid and lies within its size, and there is memory for it and for
  -- the space of three nodes and properties more, then `boot` gets to the call of kexec. The entry is
  -- the start of memory and 0x8000, rounded up to a page; the segments are placed by the sizes of the
  -- kernel and the ramdisk, the kernel's stated length and the tree's last size; and the tree is the
  -- one with the overlays, after the setters wrote the command line, with the arguments from the
  -- configuration or from the image, and the start and the end of the ramdisk into it. Behind that
  -- `main` returns 5 if `kexec_load` succeeds.
  pub boot-IsReady :
      IsReady fdt w s
      → (h : Handover fdt) × (boot fdt w ≡ go h)
        × IsBooted fdt w s h
        × (w.kexec_loads ≡ true → main fdt w ≡ go 5)
  unfolding boot main
  boot-IsReady r =
      let (h, q, b) = prepare-IsBooted r in
      let c = r.config in
      let booted : boot fdt w ≡ go h =
        rw
          (
            both_args c.args,
            root_passes r.is_root,
            load_config-lines_of w.ini (label_name w) s.config s.ini_lines s.file c.documented
                c.opens c.says c.well_formed,
            with_flags-IsProcLine fdt w s r.line,
            get_cur_device-IsStored fdt w s r.line r.files,
            load_all-IsStored fdt w s r.files,
          )
          q in
      (h, booted, b, λ k. rw (booted, k))
