-- ===== src/Common/Decimal.antt =====
-- `%d` of printf and scanf, and `atoi`.
pub mod RoundTrip
use Prim.Native.Nat.{ℕ, zero, suc, ◌+◌, ◌-◌, ◌*◌, ◌/◌, ◌%◌, ◌^◌, min}
use mathlib.Core.Bool.{Bool, true, false}
use mathlib.Core.Option.{Option, none, some}
use mathlib.Core.List.{[], ◌∷◌, ◌++◌}
use system_programing.Common.Tests.{◌==◌, ltb, if◌then◌else◌}
use system_programing.Common.Text.{Bytes, is_space, is_digit}
use system_programing.Common.Int.{ℤ, pos, negsuc, wrap32}

-- The digits of `n`, the most significant first; `n < fuel` is enough.
unfoldable pub print_digits : ℕ → ℕ → Bytes
print_digits zero n = []
print_digits (suc f) n =
    let more = print_digits f (n / 10) ++ (48 + n % 10) ∷ [] in
    if ltb n 10 then (48 + n) ∷ [] else more

unfoldable pub print_nat : ℕ → Bytes
print_nat n = print_digits (suc n) n

-- `%d` of printf
unfoldable pub print_int : ℤ → Bytes
print_int (pos n) = print_nat n
print_int (negsuc n) = b'-' ∷ print_nat (suc n)

unfoldable pub skip_space : Bytes → Bytes
skip_space [] = []
skip_space (c ∷ s) = if is_space c then skip_space s else c ∷ s

-- The value of the leading digits after a value `acc`, and what follows them.
unfoldable pub read_digits : Bytes → ℕ → ℕ × Bytes
read_digits [] acc = (acc, [])
read_digits (c ∷ s) acc =
    let rest = read_digits s (acc * 10 + (c - 48)) in if is_digit c then rest else (acc, c ∷ s)

-- `strtol` stops at the ends of `long`; the conversion to `int` keeps the low 32 bits.
abbrev pub to_int : Bool → ℕ → ℤ
to_int false n = wrap32 (pos (min n (2 ^ 63 - 1)))
to_int true zero = pos 0
to_int true (suc n) = wrap32 (negsuc (min n (2 ^ 63 - 1)))

-- A number after its sign; `none` if no digit is there.
unfoldable pub read_unsigned : Bool → Bytes → Option (ℤ × Bytes)
read_unsigned minus [] = none
read_unsigned minus (c ∷ s) =
    if is_digit c
    then (let (n, rest) = read_digits (c ∷ s) 0 in some (to_int minus n, rest))
    else none

unfoldable pub read_signed : Bytes → Option (ℤ × Bytes)
read_signed [] = none
read_signed (c ∷ s) =
    if c == b'-'
    then read_unsigned true s
    else if c == b'+'
    then read_unsigned false s
    else read_unsigned false (c ∷ s)

-- `%d` of scanf
unfoldable pub scan_int : Bytes → Option (ℤ × Bytes)
scan_int s = read_signed (skip_space s)

-- `atoi`: 0 where there is no number
unfoldable pub atoi : Bytes → ℤ
atoi s = elim (scan_int s) [ none ↦ pos 0 | some (v, rest) ↦ v ]
