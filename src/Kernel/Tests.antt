-- ===== src/Kernel/Tests.antt =====
-- The kernel's address and command line at small inputs.
use midas_util.Base.{
  ◌+◌, ◌^◌, ◌≡◌, refl, map, some, [], ◌∷◌, ◌++◌, codes, ok, arith, ◌-◌, true, false,
}
use midas_util.CString.{skip_spaces, is_prefix}
use midas_util.Util.Align.{round_up}
use midas_util.Kernel.{get_kernel_base_addr, text_offset}
use midas_util.Kernel.Lines.{Entry, IsPrinted, start_of, iomem_line, hex_value}
use midas_util.Kernel.Iomem.{names_ram, get_kernel_base_addr-iomem}

-- a range from 0x10000000 to 0x1000ffff
abbrev device : Entry
device = record {
  indent = 0;
  start_first = 1;
  start_more = 0 ∷ 0 ∷ 0 ∷ 0 ∷ 0 ∷ 0 ∷ 0 ∷ [];
  end_first = 1;
  end_more = 0 ∷ 0 ∷ 0 ∷ 15 ∷ 15 ∷ 15 ∷ 15 ∷ [];
  name = codes "chipid\n";
}

-- from 0x40000000 to 0xbf6fffff
abbrev ram : Entry
ram = record {
  indent = 0;
  start_first = 4;
  start_more = 0 ∷ 0 ∷ 0 ∷ 0 ∷ 0 ∷ 0 ∷ 0 ∷ [];
  end_first = 11;
  end_more = 15 ∷ 6 ∷ 15 ∷ 15 ∷ 15 ∷ 15 ∷ 15 ∷ [];
  name = codes "System RAM\n";
}

device-IsPrinted : IsPrinted device
unfolding hex_value
device-IsPrinted = record {
  start_digits = omega arith;
  start_bound = omega arith;
  end_digits = omega arith;
  end_bound = omega arith;
}

ram-IsPrinted : IsPrinted ram
unfolding hex_value
ram-IsPrinted = record {
  start_digits = omega arith;
  start_bound = omega arith;
  end_digits = omega arith;
  end_bound = omega arith;
}

device_other : names_ram device ≡ false
unfolding skip_spaces is_prefix
device_other = refl

ram_found : names_ram ram ≡ true
unfolding skip_spaces is_prefix
ram_found = refl

ram_start : start_of ram ≡ 0x40000000
unfolding hex_value
ram_start = refl

get_kernel_base_addr-iomem_example :
    (get_kernel_base_addr (some (map iomem_line (device ∷ []) ++ iomem_line ram ∷ [])) (2 ^ 12)
      ≡ ok (round_up (start_of ram + text_offset) (2 ^ 12)))
    × (get_kernel_base_addr (some (map iomem_line (device ∷ []))) (2 ^ 12) ≡ ok (2 ^ 32 - 1))
get_kernel_base_addr-iomem_example =
    get_kernel_base_addr-iomem (device ∷ []) ram [] 12 (device-IsPrinted, tt) (device_other, tt)
      ram-IsPrinted ram_found (omega arith) (omega (arith, ram_start))
