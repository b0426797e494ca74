-- ===== src/Shell/Parse/Words.antt =====
-- prj1/20191630/phase3/myshell.c: what the parser makes of a pipeline of words.
use system_programing.Common.{
  ℕ, zero, suc, ◌+◌, ltb, if◌then◌else◌, ◌≤◌, ◌<◌, ◌≡◌, ◌≢◌, refl, ap, ◌∙◌, arith, Bool, true,
  false, List, [], ◌∷◌, ◌++◌, map, none, some, length, length-append, All, All-append, All-map,
  ◌>>=◌,
}
use system_programing.Common.Text.{Bytes, space, strtok, skip_delims, take_token}
use system_programing.Shell.Parse.{
  is_space_char, is_quote_or_space, more_words, add_color, parse_words, cut_pipe, parse_pipe,
  max_pipeline, parse_command,
}

-- No space, quote or `|`.
abbrev pub IsPlain : ℕ → Type 0
IsPlain c = (c ≢ 32) × (c ≢ 39) × (c ≢ 34) × (c ≢ 124)

abbrev pub IsWord : Bytes → Type 0
IsWord w = (0 < length w) × All IsPlain w

-- Words, each behind a space.
abbrev pub spaced : List Bytes → Bytes
spaced [] = []
spaced (w ∷ ws) = space ∷ w ++ spaced ws

abbrev rest_of : List Bytes → Bytes
rest_of [] = []
rest_of (w ∷ ws) = w ++ spaced ws

-- A delimiter test that lets the bytes of a word pass and stops at a space.
abbrev Splits : (ℕ → Bool) → Type 0
Splits delim = ((c : ℕ) → IsPlain c → delim c ≡ false) × (delim space ≡ true)

take_token-word :
    (delim : ℕ → Bool) (w : Bytes) (ws : List Bytes)
    → Splits delim
    → All IsPlain w
    → take_token delim (w ++ spaced ws) ≡ (w, rest_of ws)
unfolding take_token
take_token-word delim [] [] d a = refl
take_token-word delim [] (v ∷ ws) d a = let e = d.1 in ground arith
take_token-word delim (c ∷ w) ws d a =
    let e = d.0 c a.0 in let rest = take_token-word delim w ws d a.1 in ground arith

strtok-word :
    (delim : ℕ → Bool) (w : Bytes) (ws : List Bytes)
    → Splits delim
    → IsWord w
    → strtok delim (w ++ spaced ws) ≡ some (w, rest_of ws)
unfolding strtok skip_delims
strtok-word delim [] ws d a = absurd (omega (arith, a.0))
strtok-word delim (c ∷ w) ws d a =
    let e = d.0 c a.1.0 in rw e (ap some (take_token-word delim (c ∷ w) ws d a.1))

more_words-words :
    (fuel : ℕ) (ws : List Bytes)
    → All IsWord ws
    → length ws ≤ fuel
    → more_words fuel (rest_of ws) ≡ ws
unfolding more_words
more_words-words zero [] a l = refl
more_words-words zero (w ∷ ws) a l = absurd (omega arith)
more_words-words (suc fuel) [] a l = unfold strtok skip_delims in refl
more_words-words (suc fuel) (w ∷ ws) a l =
    let first = strtok-word is_quote_or_space w ws ((λ c p. ground arith), refl) a.0 in
    let rest = more_words-words fuel ws a.1 (omega arith) in ground arith

length-rest_of : (ws : List Bytes) → All IsWord ws → length ws ≤ length (rest_of ws)
length-rest_of [] a = omega arith
length-rest_of (w ∷ []) a = omega (arith, a.0.0, length-append w [])
length-rest_of (w ∷ v ∷ ws) a =
    omega (arith, a.0.0, length-append w (spaced (v ∷ ws)), length-rest_of (v ∷ ws) a.1)

-- A command: its name and its arguments.
abbrev pub Command : Type 0
Command = Bytes × List Bytes

abbrev pub IsCommandLine : Command → Type 0
IsCommandLine c = IsWord c.0 × All IsWord c.1

abbrev pub text_of : Command → Bytes
text_of c = c.0 ++ spaced c.1

abbrev pub args_of : Command → List Bytes
args_of c = add_color c.0 (c.0 ∷ c.1)

parse_words-text_of : (c : Command) → IsCommandLine c → parse_words (text_of c) ≡ some (args_of c)
unfolding parse_words
parse_words-text_of c a =
    let first = strtok-word is_space_char c.0 c.1 ((λ b p. ground arith), refl) a.0 in
    let more = more_words-words (length (rest_of c.1)) c.1 a.1 (length-rest_of c.1 a.1) in
    rw (first, ◌>>=◌, more) refl

no_pipe : (ws : List Bytes) → All IsWord ws → All (λ c. c ≢ 124) (spaced ws)
no_pipe [] a = tt
no_pipe (w ∷ ws) a = (
  ground arith,
  All-append (λ c. c ≢ 124) w (spaced ws)
      (All-map IsPlain IsPlain (λ c. c ≢ 124) (λ c p q. p.3) w a.0.1 a.0.1) (no_pipe ws a.1),
)

no_pipe_text : (c : Command) → IsCommandLine c → All (λ b. b ≢ 124) (text_of c)
no_pipe_text c a = (no_pipe (c.0 ∷ c.1) (a.0, a.1)).1

cut_pipe-last : (s : Bytes) → All (λ b. b ≢ 124) s → cut_pipe s ≡ (s, none)
unfolding cut_pipe
cut_pipe-last [] a = refl
cut_pipe-last (c ∷ s) a = let rest = cut_pipe-last s a.1 in ground arith

cut_pipe-next : (s t : Bytes) → All (λ b. b ≢ 124) s → cut_pipe (s ++ b'|' ∷ t) ≡ (s, some t)
unfolding cut_pipe
cut_pipe-next [] t a = refl
cut_pipe-next (c ∷ s) t a = let rest = cut_pipe-next s t a.1 in ground arith

-- The commands with `|` between them.
abbrev pub piped : Command → List Command → Bytes
piped c [] = text_of c
piped c (d ∷ cs) = text_of c ++ b'|' ∷ piped d cs

length-piped : (c : Command) (cs : List Command) → length cs ≤ length (piped c cs)
length-piped c [] = omega arith
length-piped c (d ∷ cs) =
    omega (arith, length-append (text_of c) (b'|' ∷ piped d cs), length-piped d cs)

parse_pipe-piped :
    (fuel pipe_count : ℕ) (c : Command) (cs : List Command)
    → All IsCommandLine (c ∷ cs)
    → length cs < fuel
    → parse_pipe fuel pipe_count (piped c cs)
      ≡ (if ltb (pipe_count + length cs) max_pipeline then some (map args_of (c ∷ cs)) else none)
unfolding parse_pipe
parse_pipe-piped zero pipe_count c cs a l = absurd (omega arith)
parse_pipe-piped (suc fuel) pipe_count c [] a l =
    let cut = cut_pipe-last (text_of c) (no_pipe_text c a.0) in
    let words = parse_words-text_of c a.0 in ground arith
parse_pipe-piped (suc fuel) pipe_count c (d ∷ cs) a l =
    let cut = cut_pipe-next (text_of c) (piped d cs) (no_pipe_text c a.0) in
    let words = parse_words-text_of c a.0 in
    let rest = parse_pipe-piped fuel (pipe_count + 1) d cs a.1 (omega arith) in ground arith

-- For commands of words without spaces, quotes and `|`, with single spaces between the words and `|`
-- between the commands: up to MAX_PIPELINE of them, parse_command ends and gives for each command its
-- words in order, with the further argument --color=auto for ls and grep; with more, it writes past
-- `args`.
pub parse_command-piped :
    (c : Command) (cs : List Command)
    → All IsCommandLine (c ∷ cs)
    → parse_command (piped c cs)
      ≡ (if ltb (length cs) max_pipeline then some (map args_of (c ∷ cs)) else none)
unfolding parse_command
parse_command-piped c cs a =
    let first : 0 + length cs ≡ length cs = omega arith in
    parse_pipe-piped (suc (length (piped c cs))) 0 c cs a (omega (arith, length-piped c cs))
    ∙ ap (λ n. if ltb n max_pipeline then some (map args_of (c ∷ cs)) else none) first

skip_delims-spaces : (s : Bytes) → All (λ c. c ≡ space) s → skip_delims is_space_char s ≡ []
unfolding skip_delims
skip_delims-spaces [] a = refl
skip_delims-spaces (c ∷ s) a = let rest = skip_delims-spaces s a.1 in ground arith

strtok-spaces : (s : Bytes) → All (λ c. c ≡ space) s → strtok is_space_char s ≡ none
unfolding strtok
strtok-spaces s a = rw (skip_delims-spaces s a) refl

-- A command line of spaces alone crashes parse_command, before main can pass it over.
pub parse_command_blank : (s : Bytes) → All (λ c. c ≡ space) s → parse_command s ≡ none
unfolding parse_command parse_pipe parse_words
parse_command_blank s a =
    let cut =
      cut_pipe-last s
        (All-map (λ c. c ≡ space) (λ c. c ≡ space) (λ c. c ≢ 124) (λ c p q. ground arith) s a a) in
    let word = strtok-spaces s a in ground arith
