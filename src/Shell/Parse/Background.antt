-- ===== src/Shell/Parse/Background.antt =====
-- prj1/20191630/phase3/myshell.c: the search for `&` in the arguments.
use system_programing.Common.{◌≡◌, ◌≢◌, refl, arith, true, List, [], ◌∷◌, ◌++◌, none, some, All}
use system_programing.Common.Text.{Bytes}
use system_programing.Shell.Parse.{before_ampersand, parse_bg_command}

abbrev pub HasNone : Bytes → Type 0
HasNone s = All (λ c. c ≢ b'&') s

before_ampersand-none : (s : Bytes) → HasNone s → before_ampersand s ≡ none
unfolding before_ampersand
before_ampersand-none [] a = refl
before_ampersand-none (c ∷ s) a = let rest = before_ampersand-none s a.1 in ground arith

before_ampersand-some : (s t : Bytes) → HasNone s → before_ampersand (s ++ b'&' ∷ t) ≡ some s
unfolding before_ampersand
before_ampersand-some [] t a = refl
before_ampersand-some (c ∷ s) t a = let rest = before_ampersand-some s t a.1 in ground arith

-- What is left of an argument with `&`, before the later arguments.
abbrev pub cut_args : Bytes → List Bytes → List Bytes
cut_args [] zs = []
cut_args (c ∷ s) zs = (c ∷ s) ∷ zs

here :
    (s t : Bytes) (zs : List Bytes)
    → HasNone s
    → parse_bg_command ((s ++ b'&' ∷ t) ∷ zs) ≡ (true, cut_args s zs)
unfolding parse_bg_command
here [] t zs a = let e = before_ampersand-some [] t a in ground arith
here (c ∷ s) t zs a = let e = before_ampersand-some (c ∷ s) t a in ground arith

-- At the first argument with an `&` parse_bg_command answers that the command is in the background:
-- the arguments end before it if it begins with `&`, and else it is cut there and the later ones stay.
pub parse_bg_command-first :
    (xs : List Bytes) (s t : Bytes) (zs : List Bytes)
    → All HasNone xs
    → HasNone s
    → parse_bg_command (xs ++ (s ++ b'&' ∷ t) ∷ zs) ≡ (true, xs ++ cut_args s zs)
unfolding parse_bg_command
parse_bg_command-first [] s t zs a b = here s t zs b
parse_bg_command-first (x ∷ xs) s t zs a b =
    let e = before_ampersand-none x a.0 in
    let rest = parse_bg_command-first xs s t zs a.1 b in ground arith
