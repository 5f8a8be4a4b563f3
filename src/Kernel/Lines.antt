-- ===== src/Kernel/Lines.antt =====
-- The lines of /proc/iomem, as the kernel writes them, and what `sscanf` finds on them.
use midas_util.Base.{
  ℕ, zero, suc, ◌+◌, ◌-◌, ◌*◌, ◌^◌, ◌<◌, ◌≡◌, refl, ap, ◌∙◌, false, none, some, List, [], ◌∷◌, ◌++◌,
  Bytes, All, replicate, arith, if◌then◌else◌, ltb, ◌==◌,
}
use midas_util.CString.{skip_spaces, is_space}
use midas_util.Kernel.{
  hex_digit, hex_digits, hex_number, after_0x, scan_llx, range, name_of, second_number, scan_line,
}

-- A hexadecimal digit, as the kernel prints it.
unfoldable pub hex_char : ℕ → ℕ
hex_char d = if ltb d 10 then b'0' + d else b'a' + d - 10

unfoldable pub hex_text : List ℕ → Bytes
hex_text [] = []
hex_text (d ∷ ds) = hex_char d ∷ hex_text ds

-- the number that digits stand for, behind those of `acc`
unfoldable pub hex_value : ℕ → List ℕ → ℕ
hex_value acc [] = acc
hex_value acc (d ∷ ds) = hex_value (acc * 16 + d) ds

abbrev pub IsDigit : ℕ → Type 0
IsDigit d = d < 16

hex_digit-hex_char : (d : ℕ) → IsDigit d → hex_digit (hex_char d) ≡ some d
unfolding hex_digit hex_char
hex_digit-hex_char d h = ground arith

hex_char_no_x :
    (d : ℕ) → IsDigit d → ((hex_char d == b'x') ≡ false) × ((hex_char d == b'X') ≡ false)
unfolding hex_char
hex_char_no_x d h = (ground arith, ground arith)

hex_char_no_space : (d : ℕ) → IsDigit d → is_space (hex_char d) ≡ false
unfolding hex_char is_space
hex_char_no_space d h = ground arith

-- Behind the digits stands a byte that is none.
hex_digits-hex_text :
    (acc : ℕ) (ds : List ℕ) (c : ℕ) (rest : Bytes)
    → All IsDigit ds
    → hex_digit c ≡ none
    → hex_digits acc (hex_text ds ++ c ∷ rest) ≡ (hex_value acc ds, c ∷ rest)
unfolding hex_digits hex_text hex_value
hex_digits-hex_text acc [] c rest h n = rw (n, hex_digits)
hex_digits-hex_text acc (d ∷ ds) c rest (h, hs) n =
    rw (hex_digit-hex_char d h, hex_digits) (hex_digits-hex_text (acc * 16 + d) ds c rest hs n)

-- A byte that ends a number.
record EndsNumber (c : ℕ) : Type 0 where
  pub no_digit : hex_digit c ≡ none
  pub no_x : (c == b'x') ≡ false
  pub no_x_capital : (c == b'X') ≡ false

after_0x_second :
    (c x : ℕ) (rest : Bytes)
    → (x == b'x') ≡ false
    → (x == b'X') ≡ false
    → after_0x (c ∷ x ∷ rest) ≡ c ∷ x ∷ rest
unfolding after_0x
after_0x_second c x [] n n' = refl
after_0x_second c x (d ∷ rest) n n' = rw (n, n') (ground arith)

after_0x-hex_text :
    (d : ℕ) (ds : List ℕ) (c : ℕ) (rest : Bytes)
    → All IsDigit ds
    → EndsNumber c
    → after_0x (hex_text (d ∷ ds) ++ c ∷ rest) ≡ hex_text (d ∷ ds) ++ c ∷ rest
unfolding hex_text
after_0x-hex_text d [] c rest h e = after_0x_second (hex_char d) c rest e.no_x e.no_x_capital
after_0x-hex_text d (d' ∷ ds) c rest (h, hs) e =
    after_0x_second (hex_char d) (hex_char d') _ (hex_char_no_x d' h).0 (hex_char_no_x d' h).1

skip_spaces-hex_char :
    (d : ℕ) (s : Bytes) → IsDigit d → skip_spaces (hex_char d ∷ s) ≡ hex_char d ∷ s
unfolding skip_spaces
skip_spaces-hex_char d s h = rw (hex_char_no_space d h)

hex_number-hex_text :
    (d : ℕ) (ds : List ℕ) (c : ℕ) (rest : Bytes)
    → All IsDigit (d ∷ ds)
    → EndsNumber c
    → hex_value 0 (d ∷ ds) < 2 ^ 64
    → hex_number (hex_text (d ∷ ds) ++ c ∷ rest) ≡ some (hex_value 0 (d ∷ ds), c ∷ rest)
unfolding hex_number hex_text hex_value
hex_number-hex_text d ds c rest (h, hs) e b =
    rw (hex_digit-hex_char d h, hex_digits-hex_text d ds c rest hs e.no_digit, hex_number)
      (ground arith)

scan_llx-hex_text :
    (n d : ℕ) (ds : List ℕ) (c : ℕ) (rest : Bytes)
    → All IsDigit (d ∷ ds)
    → EndsNumber c
    → hex_value 0 (d ∷ ds) < 2 ^ 64
    → scan_llx (replicate n b' ' ++ (hex_text (d ∷ ds) ++ c ∷ rest))
      ≡ some (hex_value 0 (d ∷ ds), c ∷ rest)
unfolding scan_llx skip_spaces hex_text hex_value
scan_llx-hex_text (suc n) d ds c rest h e b = scan_llx-hex_text n d ds c rest h e b
scan_llx-hex_text zero d ds c rest (h, hs) e b =
    rw (skip_spaces-hex_char d (hex_text ds ++ c ∷ rest) h) (
      ap hex_number (after_0x-hex_text d ds c rest hs e)
      ∙ hex_number-hex_text d ds c rest (h, hs) e b)

-- A range of /proc/iomem: how far its line is indented, the digits of its bounds, at least one
-- each, and its name with the end of the line.
pub record Entry : Type 0 where
  pub indent : ℕ
  pub start_first : ℕ
  pub start_more : List ℕ
  pub end_first : ℕ
  pub end_more : List ℕ
  pub name : Bytes

-- The digits are digits, and the bounds have 64 bits.
pub record IsPrinted (e : Entry) : Type 0 where
  pub start_digits : All IsDigit (e.start_first ∷ e.start_more)
  pub start_bound : hex_value 0 (e.start_first ∷ e.start_more) < 2 ^ 64
  pub end_digits : All IsDigit (e.end_first ∷ e.end_more)
  pub end_bound : hex_value 0 (e.end_first ∷ e.end_more) < 2 ^ 64

abbrev pub start_of : Entry → ℕ
start_of e = hex_value 0 (e.start_first ∷ e.start_more)

unfoldable pub iomem_line : Entry → Bytes
iomem_line e =
    replicate e.indent b' '
    ++ (hex_text (e.start_first ∷ e.start_more)
        ++ b'-' ∷ (hex_text (e.end_first ∷ e.end_more) ++ b' ' ∷ b':' ∷ b' ' ∷ e.name))

dash_ends : EndsNumber b'-'
unfolding hex_digit
dash_ends = record { no_digit = refl; no_x = refl; no_x_capital = refl }

space_ends : EndsNumber b' '
unfolding hex_digit
space_ends = record { no_digit = refl; no_x = refl; no_x_capital = refl }

second_number-hex_text :
    (start d : ℕ) (ds : List ℕ) (name : Bytes)
    → All IsDigit (d ∷ ds)
    → hex_value 0 (d ∷ ds) < 2 ^ 64
    → second_number start (b'-' ∷ (hex_text (d ∷ ds) ++ b' ' ∷ b':' ∷ b' ' ∷ name))
      ≡ range start (some (skip_spaces name))
unfolding second_number name_of skip_spaces is_space
second_number-hex_text start d ds name h b =
    rw (scan_llx-hex_text 0 d ds b' ' (b':' ∷ b' ' ∷ name) h space_ends b, second_number)

pub scan_line-iomem_line :
    (e : Entry)
    → IsPrinted e
    → scan_line (iomem_line e) ≡ range (start_of e) (some (skip_spaces e.name))
unfolding scan_line iomem_line
scan_line-iomem_line e p =
    rw
      (
        scan_llx-hex_text e.indent e.start_first e.start_more b'-' _ p.start_digits dash_ends
            p.start_bound,
        scan_line,
      )
      (second_number-hex_text (start_of e) e.end_first e.end_more e.name p.end_digits p.end_bound)
