-- ===== src/Common/Text.antt =====
-- C strings as lists of byte codes, without the closing NUL.
use Prim.Native.Nat.{ℕ}
use Prim.Native.Char.{code}
use Prim.Native.String.{String}
use mathlib.Core.Bool.{Bool, true, false, ◌&&◌, ◌||◌}
use mathlib.Core.Option.{Option, none, some}
use mathlib.Core.List.{List, [], ◌∷◌}
use system_programing.Common.Tests.{◌==◌, leb, if◌then◌else◌}

abbrev pub Bytes : Type 0
Bytes = List ℕ

abbrev pub codes : String → Bytes
codes String.[] = []
codes (String.◌∷◌ c s) = code c ∷ codes s

-- `strcmp(s, t) == 0`
abbrev pub str_eq : Bytes → Bytes → Bool
str_eq [] [] = true
str_eq [] (d ∷ t) = false
str_eq (c ∷ s) [] = false
str_eq (c ∷ s) (d ∷ t) = c == d && str_eq s t

abbrev pub newline : ℕ
newline = 10

abbrev pub space : ℕ
space = 32

-- `isspace` in the C locale
abbrev pub is_space : ℕ → Bool
is_space c = c == 32 || (leb 9 c && leb c 13)

abbrev pub is_digit : ℕ → Bool
is_digit c = leb 48 c && leb c 57

-- `strtok`: skip delimiters, then take bytes up to the next one, which is overwritten by a NUL.
-- The result is the token with what the next call goes on from, or `none` for the null pointer.
unfoldable pub skip_delims : (ℕ → Bool) → Bytes → Bytes
skip_delims delim [] = []
skip_delims delim (c ∷ s) = if delim c then skip_delims delim s else c ∷ s

unfoldable pub take_token : (ℕ → Bool) → Bytes → Bytes × Bytes
take_token delim [] = ([], [])
take_token delim (c ∷ s) =
    let (token, rest) = take_token delim s in if delim c then ([], s) else (c ∷ token, rest)

abbrev pub token_of : (ℕ → Bool) → Bytes → Option (Bytes × Bytes)
token_of delim [] = none
token_of delim (c ∷ s) = some (take_token delim (c ∷ s))

unfoldable pub strtok : (ℕ → Bool) → Bytes → Option (Bytes × Bytes)
strtok delim s = token_of delim (skip_delims delim s)
