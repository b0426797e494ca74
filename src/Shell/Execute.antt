-- ===== src/Shell/Execute.antt =====
-- prj1/20191630/phase3/myshell.c: `execute_command`. `fork`, `execvp` and the pipes are outside: `pid`
-- is what `fork` returns to the shell, and what is to run is kept in the result.
mod Tests
use system_programing.Common.{ℕ, Bool, true, false, List, [], ◌∷◌, Option, none, some, ◌>>=◌}
use system_programing.Common.Text.{Bytes}
use system_programing.Shell.Jobs.{Shell, create_bg_process}
use system_programing.Shell.Handlers.{process_background_command}
use system_programing.Shell.Parse.{Builtin, not_builtin, parse_bg_command, execute_excp_command}

-- What a command line has come to: a job command, or the processes of the commands before the last
-- one of the pipeline, and behind them a built-in command or a process for the last one.
pub data Executed : Type 0 where
  job_command : Executed
  built_in : (before : List (List Bytes)) → Builtin → Executed
  started : (before : List (List Bytes)) (args : List Bytes) (background : Bool) → Executed

-- The commands before the last one of a pipeline, and the last.
unfoldable pub split_last : List Bytes → List (List Bytes) → List (List Bytes) × List Bytes
split_last a [] = ([], a)
split_last a (b ∷ args) = let r = split_last b args in (a ∷ r.0, r.1)

-- The parent behind `fork`. A foreground process is waited for, and the shell keeps its state.
unfoldable pub parent :
    Shell → ℕ → Bytes → List (List Bytes) → List Bytes → Bool → Option (Executed × Shell)
parent s pid command before args true =
    create_bg_process (record s { current_pid = pid }) pid command false >>= λ s'.
    some (started before args true, s')
parent s pid command before args false =
    some (started before args false, record s { current_pid = pid })

unfoldable pub launch :
    Shell
    → List Bytes
    → ℕ
    → Bytes
    → List (List Bytes)
    → Bool × List Bytes
    → Builtin
    → Option (Executed × Shell)
launch s history pid command before bg not_builtin = parent s pid command before bg.1 bg.0
launch s history pid command before bg b = some (built_in before b, s)

-- `fuel` and `stopped` are those of the job commands; `none` is a crash, or no command at all.
unfoldable pub execute_command :
    ℕ → Bool → ℕ → List Bytes → Shell → Bytes → List (List Bytes) → Option (Executed × Shell)
execute_command fuel stopped pid history s command [] = none
execute_command fuel stopped pid history s command (first ∷ args) = do
  (done, s') ← process_background_command fuel stopped s first
  let (before, last) = split_last first args
  let bg = parse_bg_command last
  elim done [
    | true ↦ some (job_command, s')
    | false ↦ execute_excp_command history bg.1 >>= λ b. launch s' history pid command before bg b
  ]
