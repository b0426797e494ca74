-- ===== src/Shell/Parse.antt =====
-- prj1/20191630/phase3/myshell.c: from a command line to the arguments of its pipeline.
pub mod Words
pub mod Background
mod Tests
use system_programing.Common.{
  ℕ, zero, suc, ◌+◌, ◌∷◌, [], ◌++◌, List, Bool, true, false, Option, none, some, ◌==◌, ◌||◌, ltb,
  if◌then◌else◌, length, ◌>>=◌,
}
use system_programing.Common.Int.{pos}
use system_programing.Common.Decimal.{print_int}
use system_programing.Common.Text.{Bytes, codes, str_eq, newline, space, strtok}

abbrev pub is_space_char : ℕ → Bool
is_space_char c = c == space

-- The delimiters " \'\"" of all words but the first.
abbrev pub is_quote_or_space : ℕ → Bool
is_quote_or_space c = c == space || (c == 39 || c == 34)

-- `strtok(NULL, " \'\"")` up to the null pointer, `fuel` times at most.
unfoldable pub more_words : ℕ → Bytes → List Bytes
more_words zero s = []
more_words (suc fuel) s = elim (strtok is_quote_or_space s) [
  | none ↦ []
  | some (word, rest) ↦ word ∷ more_words fuel rest
]

-- `ls` and `grep` get a further argument.
unfoldable pub add_color : Bytes → List Bytes → List Bytes
add_color name words =
    if str_eq name (codes "ls") || str_eq name (codes "grep")
    then words ++ codes "--color=auto" ∷ []
    else words

-- The arguments of one command of the pipeline. `none`: without a word `result[0]` is the null
-- pointer, and `strcmp` crashes. A call of `strtok` consumes a byte, so the fuel is enough.
unfoldable pub parse_words : Bytes → Option (List Bytes)
parse_words s = do
  (name, rest) ← strtok is_space_char s
  some (add_color name (name ∷ more_words (length rest) rest))

-- `strstr(pipe_command, "|")`: what stands before it, and what behind it.
unfoldable pub cut_pipe : Bytes → Bytes × Option Bytes
cut_pipe [] = ([], none)
cut_pipe (c ∷ s) =
    let (before, behind) = cut_pipe s in if c == b'|' then ([], some s) else (c ∷ before, behind)

abbrev pub max_pipeline : ℕ
max_pipeline = 10

-- The `do` loop; the arguments in order. `none` is a crash, a write past `args`, which has MAX_PIPELINE
-- places, or that the fuel is spent.
unfoldable pub parse_pipe : ℕ → ℕ → Bytes → Option (List (List Bytes))
parse_pipe zero pipe_count s = none
parse_pipe (suc fuel) pipe_count s =
    let cut = cut_pipe s in
    parse_words cut.0 >>= λ words. elim (ltb pipe_count max_pipeline) [
      | false ↦ none
      | true ↦ elim cut.1 [
        | none ↦ some (words ∷ [])
        | some next ↦ parse_pipe fuel (pipe_count + 1) next >>= λ args. some (words ∷ args)
      ]
    ]

-- `args` and `pipe_count`; each command but the last has a `|` behind it.
unfoldable pub parse_command : Bytes → Option (List (List Bytes))
parse_command command = parse_pipe (suc (length command)) 0 command

-- `strchr(cur, '&')`: what stands before it, if it is there.
unfoldable pub before_ampersand : Bytes → Option Bytes
before_ampersand [] = none
before_ampersand (c ∷ s) =
    let rest = before_ampersand s >>= λ t. some (c ∷ t) in if c == b'&' then some [] else rest

-- The answer and the arguments that are left. An argument that begins with `&` ends the list; one
-- with `&` further on is cut there, and the later arguments stay.
unfoldable pub parse_bg_command : List Bytes → Bool × List Bytes
parse_bg_command [] = (false, [])
parse_bg_command (cur ∷ args) =
    let rest = parse_bg_command args in
    elim (before_ampersand cur) [
      | none ↦ (rest.0, cur ∷ rest.1)
      | some [] ↦ (true, [])
      | some (c ∷ s) ↦ (true, (c ∷ s) ∷ args)
    ]

-- What a command that is built in does.
pub data Builtin : Type 0 where
  not_builtin : Builtin
  change_directory : (path : Option Bytes) → Builtin
  quit : Builtin
  print_history : (lines : List Bytes) → Builtin

-- `%d\t%s\n`
unfoldable pub history_lines : ℕ → List Bytes → List Bytes
history_lines i [] = []
history_lines i (command ∷ history) =
    (print_int (pos (i + 1)) ++ 9 ∷ command ++ newline ∷ []) ∷ history_lines (i + 1) history

abbrev pub first_arg : List Bytes → Option Bytes
first_arg [] = none
first_arg (a ∷ args) = some a

-- `none`: without an argument `strcmp` reads through the null pointer.
unfoldable pub execute_excp_command : List Bytes → List Bytes → Option Builtin
execute_excp_command history [] = none
execute_excp_command history (name ∷ args) = some (
    if str_eq name (codes "cd")
    then change_directory (first_arg args)
    else if str_eq name (codes "exit")
    then quit
    else if str_eq name (codes "history")
    then print_history (history_lines 0 history)
    else not_builtin)
