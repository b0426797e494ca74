-- ===== src/Shell/History.antt =====
-- prj1/20191630/phase3/myshell.c: the command history and its file.
pub mod RoundTrip
mod Tests
use system_programing.Common.{
  ℕ, zero, suc, ◌+◌, ◌∷◌, [], ◌++◌, List, Bool, true, false, Option, none, some, ◌==◌, ◌||◌,
  if◌then◌else◌, length,
}
use system_programing.Common.Text.{Bytes, str_eq, newline}

-- `command_history` with `history_count` entries, and the text of .bash_history. An allocation
-- does not fail.
pub record History : Type 0 where
  pub command_history : List Bytes
  pub file : Bytes

-- `command_history[history_count - 1]`, where there is one.
unfoldable pub last_command : List Bytes → Option Bytes
last_command [] = none
last_command (c ∷ cs) = elim (last_command cs) [ none ↦ some c | some d ↦ some d ]

unfoldable pub is_repeated : Bytes → List Bytes → Bool
is_repeated command history = elim (last_command history) [
  | none ↦ false
  | some c ↦ str_eq command c
]

-- `fprintf(fp, "\n%s", command)` at the end of the file, if the flag is set.
unfoldable pub add_command_history : Bytes → Bool → History → History
add_command_history command write_file h =
    if is_repeated command h.command_history then h else record {
      command_history = h.command_history ++ command ∷ [];
      file = if write_file then h.file ++ newline ∷ command else h.file;
    }

-- `fgets` of at most `n` bytes: the line with its newline, and what is left to read, or `none` once
-- the end of the file has been met.
unfoldable pub fgets : ℕ → Bytes → Bytes × Option Bytes
fgets zero text = ([], some text)
fgets (suc n) [] = ([], none)
fgets (suc n) (c ∷ text) =
    let (line, rest) = fgets n text in
    if c == newline then (c ∷ [], some text) else (c ∷ line, rest)

-- `command[strcspn(command, "\n")] = 0`
unfoldable pub chomp : Bytes → Bytes
chomp [] = []
chomp (c ∷ s) = let rest = chomp s in if c == newline then [] else c ∷ rest

-- `command[0] == '\n' || command[0] == 0`
unfoldable pub is_blank_line : Bytes → Bool
is_blank_line [] = true
is_blank_line (c ∷ s) = c == newline

-- Where nothing is left, `fgets` leaves the buffer as it was.
unfoldable pub buffer_after : Bytes → Bytes → Bytes
buffer_after command [] = command
buffer_after command (c ∷ line) = c ∷ line

-- The body of the loop behind `fgets`: the buffer and the history.
unfoldable pub remember : Bytes → History → Bytes × History
remember command h =
    if is_blank_line command
    then (command, h)
    else (chomp command, add_command_history (chomp command) false h)

-- MAX_COMMAND_LENGTH - 1
abbrev pub max_line : ℕ
max_line = 8191

-- The loop until `feof`; `none` says that it still runs after that many rounds.
unfoldable pub read_loop : ℕ → Bytes → Bytes → History → Option History
read_loop zero command text h = none
read_loop (suc fuel) command text h =
    let r = fgets max_line text in
    let next = remember (buffer_after command r.0) h in
    elim r.1 [ none ↦ some next.1 | some rest ↦ read_loop fuel next.0 rest next.1 ]

-- Each round but the last reads a byte.
unfoldable pub read_bash_history : Bytes → Option History
read_bash_history text =
    read_loop (suc (length text)) [] text (record { command_history = []; file = text })
