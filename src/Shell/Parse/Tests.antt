-- ===== src/Shell/Parse/Tests.antt =====
-- prj1/20191630/phase3/myshell.c: the parser on small command lines, and the theorems at them.
use system_programing.Common.{◌≡◌, refl, arith, true, false, [], ◌∷◌, map, none, some}
use system_programing.Common.Text.{codes, strtok, skip_delims, take_token}
use system_programing.Shell.Parse.{
  parse_command, parse_bg_command, parse_pipe, parse_words, more_words, cut_pipe, add_color,
  execute_excp_command, print_history, quit, history_lines, not_builtin, before_ampersand,
}
use system_programing.Shell.Parse.Words.{
  Command, piped, args_of, parse_command-piped, parse_command_blank,
}

abbrev list_files : Command
list_files = (codes "ls", codes "-l" ∷ [])

abbrev count_lines : Command
count_lines = (codes "wc", [])

quoted_run :
    parse_command (codes "grep 'a b'")
    ≡ some ((codes "grep" ∷ codes "a" ∷ codes "b" ∷ codes "--color=auto" ∷ []) ∷ [])
unfolding parse_command parse_pipe parse_words more_words cut_pipe add_color strtok skip_delims
    take_token
quoted_run = refl

background_runs :
    (parse_bg_command (codes "sleep" ∷ codes "9" ∷ codes "&" ∷ [])
      ≡ (true, codes "sleep" ∷ codes "9" ∷ []))
    × (parse_bg_command (codes "ls&" ∷ codes "-l" ∷ []) ≡ (true, codes "ls" ∷ codes "-l" ∷ []))
    × (parse_bg_command (codes "ls" ∷ []) ≡ (false, codes "ls" ∷ []))
unfolding parse_bg_command before_ampersand
background_runs = (refl, refl, refl)

builtin_runs :
    (execute_excp_command [] (codes "exit" ∷ []) ≡ some quit)
    × (execute_excp_command [] (codes "history" ∷ []) ≡ some (print_history []))
    × (execute_excp_command [] (codes "ls" ∷ []) ≡ some not_builtin)
    × (execute_excp_command [] [] ≡ none)
unfolding execute_excp_command history_lines
builtin_runs = (refl, refl, refl, refl)

parse_command-piped_example :
    parse_command (piped list_files (count_lines ∷ []))
    ≡ some (map args_of (list_files ∷ count_lines ∷ []))
parse_command-piped_example = parse_command-piped list_files (count_lines ∷ []) (ground arith)

parse_command_blank_example : parse_command (codes "  ") ≡ none
parse_command_blank_example = parse_command_blank (codes "  ") (refl, (refl, tt))
