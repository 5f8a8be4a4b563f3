-- ===== src/Kernel/Iomem.antt =====
-- Where the kernel is loaded.
use midas_util.Base.{
  ℕ, ◌+◌, ◌%◌, ◌^◌, ◌≤◌, ◌<◌, ◌≡◌, refl, ap, ◌∙◌, ◌-◌, Bool, true, false, map, if◌then◌else◌, none,
  some, List, [], ◌∷◌, ◌++◌, Bytes, ok, All, arith,
}
use native.Mathlib.Nat.{one-le-pow}
use midas_util.Util.Align.{align-round_up, round_up}
use midas_util.CString.{is_prefix, skip_spaces}
use midas_util.Kernel.{
  select, scan_line, find_ram, base_of, get_kernel_base_addr, text_offset, ram_str,
}
use midas_util.Kernel.Lines.{Entry, IsPrinted, start_of, iomem_line, scan_line-iomem_line}

find_ram-first :
    (before : List Bytes) (line : Bytes) (rest : List Bytes) {start : ℕ}
    → All (λ l. select (scan_line l) ≡ ok none) before
    → select (scan_line line) ≡ ok (some start)
    → find_ram (before ++ line ∷ rest) ≡ ok (some start)
unfolding find_ram
find_ram-first [] line rest h e = rw e
find_ram-first (l ∷ before) line rest (n, h) e = rw n (find_ram-first before line rest h e)

-- If the first line of /proc/iomem that names System RAM starts at `start`, and nothing
-- overflows, `get_kernel_base_addr` returns `start` and 0x8000, rounded up to a page of 2^k
-- bytes.
pub get_kernel_base_addr-first :
    (before : List Bytes) (line : Bytes) (rest : List Bytes) (k : ℕ) {start : ℕ}
    → All (λ l. select (scan_line l) ≡ ok none) before
    → select (scan_line line) ≡ ok (some start)
    → k < 32
    → start + text_offset + 2 ^ k ≤ 2 ^ 64
    → get_kernel_base_addr (some (before ++ line ∷ rest)) (2 ^ k)
      ≡ ok (round_up (start + text_offset) (2 ^ k))
unfolding get_kernel_base_addr
get_kernel_base_addr-first before line rest k {start} h e kw fits =
    let pos = one-le-pow k 2 (omega arith) in
    let m : (start + text_offset) % 2 ^ 64 ≡ start + text_offset = omega arith in
    rw (find_ram-first before line rest h e, m)
      (ap ok (align-round_up 64 k (start + text_offset) (omega arith) fits))

-- The name of the range begins with the text that `get_kernel_base_addr` looks for.
abbrev pub names_ram : Entry → Bool
names_ram e = is_prefix ram_str (skip_spaces e.name)

select-iomem_line :
    (e : Entry)
    → IsPrinted e
    → select (scan_line (iomem_line e)) ≡ ok (if names_ram e then some (start_of e) else none)
unfolding select
select-iomem_line e p = rw (scan_line-iomem_line e p)

select-others :
    (es : List Entry)
    → All IsPrinted es
    → All (λ e. names_ram e ≡ false) es
    → All (λ l. select (scan_line l) ≡ ok none) (map iomem_line es)
select-others [] p n = tt
select-others (e ∷ es) (p, ps) (n, ns) = (select-iomem_line e p ∙ rw n, select-others es ps ns)

find_ram-none :
    (lines : List Bytes)
    → All (λ l. select (scan_line l) ≡ ok none) lines
    → find_ram lines ≡ ok none
unfolding find_ram
find_ram-none [] h = refl
find_ram-none (l ∷ lines) (n, h) = rw n (find_ram-none lines h)

-- On lines that the kernel has printed, with pages of 2^k bytes: if the ranges in front of one that
-- is named System RAM are not, and nothing overflows, `get_kernel_base_addr` returns the start of
-- that range and 0x8000, rounded up to a page. If no range is named System RAM, it returns
-- 2^32 - 1.
pub get_kernel_base_addr-iomem :
    (before : List Entry) (ram : Entry) (rest : List Bytes) (k : ℕ)
    → All IsPrinted before
    → All (λ e. names_ram e ≡ false) before
    → IsPrinted ram
    → names_ram ram ≡ true
    → k < 32
    → start_of ram + text_offset + 2 ^ k ≤ 2 ^ 64
    → (get_kernel_base_addr (some (map iomem_line before ++ iomem_line ram ∷ rest)) (2 ^ k)
        ≡ ok (round_up (start_of ram + text_offset) (2 ^ k)))
      × (get_kernel_base_addr (some (map iomem_line before)) (2 ^ k) ≡ ok (2 ^ 32 - 1))
unfolding get_kernel_base_addr base_of
get_kernel_base_addr-iomem before ram rest k ps ns p n narrow fits =
    let others = select-others before ps ns in
    (
      get_kernel_base_addr-first (map iomem_line before) (iomem_line ram) rest k others
          (select-iomem_line ram p ∙ rw n) narrow fits,
      rw (find_ram-none (map iomem_line before) others),
    )
