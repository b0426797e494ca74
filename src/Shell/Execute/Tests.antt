-- ===== src/Shell/Execute/Tests.antt =====
-- prj1/20191630/phase3/myshell.c: commands that a shell without jobs executes.
use system_programing.Common.{◌≡◌, refl, false, [], ◌∷◌, none, some, ◌>>=◌}
use system_programing.Common.Text.{codes}
use system_programing.Shell.Jobs.{Shell}
use system_programing.Shell.Handlers.{process_background_command}
use system_programing.Shell.Parse.{quit, parse_bg_command, before_ampersand, execute_excp_command}
use system_programing.Shell.Execute.{built_in, started, split_last, execute_command, launch, parent}

abbrev idle : Shell
idle = record {
  cell = λ p. none;
  fresh = 0;
  first_job = none;
  last_job = none;
  curruent_job_id = 1;
  current_pid = 0;
  current_command = [];
  output = [];
  signals = [];
}

exit_run :
    (execute_command 9 false 7 [] idle (codes "exit") ((codes "exit" ∷ []) ∷ []) >>= λ r. some r.0)
    ≡ some (built_in [] quit)
unfolding execute_command split_last launch parse_bg_command before_ampersand execute_excp_command
    process_background_command
exit_run = refl

pipe_run :
    (execute_command 9 false 7 [] idle (codes "ls|wc") ((codes "ls" ∷ []) ∷ (codes "wc" ∷ []) ∷ [])
      >>= λ r. some r.0)
    ≡ some (started ((codes "ls" ∷ []) ∷ []) (codes "wc" ∷ []) false)
unfolding execute_command split_last launch parent parse_bg_command before_ampersand
    execute_excp_command process_background_command
pipe_run = refl
