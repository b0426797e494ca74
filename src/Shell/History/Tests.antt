-- ===== src/Shell/History/Tests.antt =====
-- prj1/20191630/phase3/myshell.c: the history of a short session.
use system_programing.Common.{◌≡◌, refl, arith, List, [], ◌∷◌, some}
use system_programing.Common.Text.{Bytes, codes}
use system_programing.Shell.History.{
  last_command, is_repeated, add_command_history, read_bash_history,
}
use system_programing.Shell.History.RoundTrip.{typed, no_history, read_bash_history-typed}

abbrev session : List Bytes
session = codes "ls" ∷ codes "ls" ∷ codes "cd /" ∷ []

-- The repetition is dropped.
session_run : (typed session no_history).command_history ≡ codes "ls" ∷ codes "cd /" ∷ []
unfolding last_command is_repeated add_command_history
session_run = refl

read_bash_history-typed_example :
    read_bash_history (typed session no_history).file ≡ some (typed session no_history)
read_bash_history-typed_example = read_bash_history-typed session (ground arith)
