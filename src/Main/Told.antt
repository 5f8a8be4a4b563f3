-- ===== src/Main/Told.antt =====
-- What the kernel is told in the device tree that `main` of boot/main.c hands over.
use midas_util.Base.{
  take, take_all, length, length-append, ◌+◌, arith, Bool-cases, inl, inr, ℕ, ◌≡◌, refl, ap, ◌∙◌,
  false, some, [], ◌∷◌, ◌++◌, Bytes, codes,
}
use midas_util.CString.{str_eq}
use midas_util.Ufdt.{Libfdt}
use midas_util.Ufdt.Values.{
  Values, ValueLaws, put_value, be32, setup_dtb_prop-says, setup_dtb_prop_int-says,
}
use midas_util.Main.Ready.{Contents, cmdline, IsReady, IsBooted}
use midas_util.Main.Runs.{boot-IsReady}
use midas_util.Main.{World, Handover, Placement, go, boot, place, add32}

-- The tree has the command line, and the place where the ramdisk is loaded; apart from these three
-- properties of the node `chosen` it is as it was.
pub record IsTold (old new : Values) (cmdline : Bytes) (p : Placement) : Type 0 where
  pub bootargs : new (codes "chosen") (codes "bootargs") ≡ some (cmdline ++ 0 ∷ [])
  pub start : new (codes "chosen") (codes "linux,initrd-start") ≡ some (be32 p.ramdisk.mem)
  pub end :
      new (codes "chosen") (codes "linux,initrd-end")
      ≡ some (be32 (add32 p.ramdisk.mem p.ramdisk.memsz))
  pub others :
      (node prop : Bytes) → str_eq node (codes "chosen") ≡ false → new node prop ≡ old node prop
  pub rest :
      (node prop : Bytes)
      → str_eq prop (codes "bootargs") ≡ false
      → str_eq prop (codes "linux,initrd-start") ≡ false
      → str_eq prop (codes "linux,initrd-end") ≡ false
      → new node prop ≡ old node prop

three_puts :
    (v : Values) (a b c : Bytes)
    → (let w = put_value (codes "chosen") (codes "linux,initrd-end") c (
          put_value
            (codes "chosen")
            (codes "linux,initrd-start")
            b
            (put_value (codes "chosen") (codes "bootargs") a v)) in
        (w (codes "chosen") (codes "bootargs") ≡ some a)
        × (w (codes "chosen") (codes "linux,initrd-start") ≡ some b)
        × (w (codes "chosen") (codes "linux,initrd-end") ≡ some c)
        × ((node prop : Bytes) → str_eq node (codes "chosen") ≡ false → w node prop ≡ v node prop)
        × ((node prop : Bytes)
            → str_eq prop (codes "bootargs") ≡ false
            → str_eq prop (codes "linux,initrd-start") ≡ false
            → str_eq prop (codes "linux,initrd-end") ≡ false
            → w node prop ≡ v node prop))
unfolding put_value str_eq
three_puts v a b c = (
  refl,
  refl,
  refl,
  λ node prop e. rw e,
  λ node prop p q r. elim (Bool-cases (str_eq node (codes "chosen"))) [
    | inl t ↦ rw (t, p, q, r)
    | inr t ↦ rw t
  ],
)

-- The bytes of a string and of its NUL.
whole_string : (s : Bytes) → take (length s + 1) (s ++ 0 ∷ []) ≡ s ++ 0 ∷ []
whole_string s = take_all (length s + 1) (s ++ 0 ∷ []) (omega (arith, length-append {0} s (0 ∷ [])))

module _ (fdt : Libfdt) (w : World) (s : Contents fdt w) (says : fdt.Blob → Values)
    (laws : ValueLaws fdt says) where
  all_puts :
      {h : Handover fdt}
      → IsBooted fdt w s h
      → says h.tree
        ≡ put_value (codes "chosen") (codes "linux,initrd-end") (be32 h.placement.rd_end) (
            put_value (codes "chosen") (codes "linux,initrd-start") (be32 h.placement.rd_start) (
              put_value
                (codes "chosen")
                (codes "bootargs")
                ((cmdline fdt w s) ++ 0 ∷ [])
                (says s.tree)))
  all_puts b =
      setup_dtb_prop_int-says fdt says laws b.with_start b.start_size (codes "chosen")
        (codes "linux,initrd-end") _ b.end
      ∙ ap (put_value (codes "chosen") (codes "linux,initrd-end") _) (
          setup_dtb_prop_int-says fdt says laws b.with_args b.args_size (codes "chosen")
            (codes "linux,initrd-start") _ b.start
          ∙ ap (put_value (codes "chosen") (codes "linux,initrd-start") _) (
              setup_dtb_prop-says fdt says laws s.tree s.size (codes "chosen") (codes "bootargs")
                ((cmdline fdt w s) ++ 0 ∷ []) _ b.bootargs
              ∙ ap (λ (v : Bytes). put_value (codes "chosen") (codes "bootargs") v (says s.tree))
                  (whole_string (cmdline fdt w s))))

  told_segment :
      {h : Handover fdt}
      → IsBooted fdt w s h
      → (h.placement.rd_start ≡ h.placement.ramdisk.mem)
        × (h.placement.rd_end ≡ add32 h.placement.ramdisk.mem h.placement.ramdisk.memsz)
  told_segment b = rw b.placed (unfold place in (refl, refl))

  IsBooted-IsTold :
      {h : Handover fdt}
      → IsBooted fdt w s h
      → IsTold (says s.tree) (says h.tree) (cmdline fdt w s) h.placement
  IsBooted-IsTold {h} b =
      let (args, from, to, others, rest) =
        three_puts (says s.tree) ((cmdline fdt w s) ++ 0 ∷ []) (be32 h.placement.rd_start)
          (be32 h.placement.rd_end) in
      let (start, end) = told_segment b in
      let e = all_puts b in
      record {
        bootargs = rw e args;
        start = rw e (from ∙ ap (λ (n : ℕ). some (be32 n)) start);
        end = rw e (to ∙ ap (λ (n : ℕ). some (be32 n)) end);
        others = λ node prop no. rw e (others node prop no);
        rest = λ node prop a b c. rw e (rest node prop a b c);
      }

  -- If the machine is ready, as `boot-IsReady` asks, and libfdt treats the values of properties as
  -- it is documented to, then `boot` gets to the call of kexec, and the tree that is handed over says
  -- of the node `chosen`: `bootargs` is the kernel's command line with a NUL, `linux,initrd-start` is
  -- the address of the ramdisk's segment, and `linux,initrd-end` that address and the segment's size,
  -- in 32 bits, both in four bytes with the highest first. All other properties, of this and of all
  -- other nodes, are those of the tree with the overlays.
  pub boot-IsTold :
      IsReady fdt w s
      → (h : Handover fdt) × (boot fdt w ≡ go h)
        × IsTold (says s.tree) (says h.tree) (cmdline fdt w s) h.placement
  boot-IsTold r = let (h, q, b, _) = boot-IsReady fdt w s r in (h, q, IsBooted-IsTold b)
