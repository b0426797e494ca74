-- ===== src/Shell/History/RoundTrip.antt =====
-- prj1/20191630/phase3/myshell.c: the history that a new shell reads from .bash_history.
use system_programing.Common.{
  ℕ, zero, suc, ◌≤◌, ◌<◌, ◌≡◌, ◌≢◌, refl, sym, ap, subst, ◌∙◌, arith, true, false, Bool-cases, inl,
  inr, List, [], ◌∷◌, ◌++◌, append_assoc, append-nil, none, some, ◌==◌, length, length-append, All,
  All-append,
}
use system_programing.Common.Text.{Bytes, newline}
use system_programing.Shell.History.{
  History, is_repeated, add_command_history, fgets, chomp, is_blank_line, buffer_after, remember,
  max_line, read_loop, read_bash_history,
}

-- A command as main hands it on: not empty, without a newline, and shorter than the buffer.
abbrev pub IsCommand : Bytes → Type 0
IsCommand s = (0 < length s) × All (λ c. c ≢ newline) s × (length s < max_line)

-- The text that the commands leave in the file.
abbrev file_of : List Bytes → Bytes
file_of [] = []
file_of (c ∷ cs) = newline ∷ c ++ file_of cs

-- No command is added behind an equal one.
abbrev Fresh : List Bytes → List Bytes → Type 0
Fresh before [] = Unit
Fresh before (c ∷ cs) = (is_repeated c before ≡ false) × Fresh (before ++ c ∷ []) cs

Fresh-snoc :
    (before cs : List Bytes) (c : Bytes)
    → Fresh before cs
    → is_repeated c (before ++ cs) ≡ false
    → Fresh before (cs ++ c ∷ [])
Fresh-snoc before [] c f e = (subst (λ l. is_repeated c l ≡ false) (append-nil before) e, tt)
Fresh-snoc before (d ∷ cs) c f e = (
  f.0,
  Fresh-snoc (before ++ d ∷ []) cs c f.1
      (subst (λ l. is_repeated c l ≡ false) (sym (append_assoc before (d ∷ []) cs)) e),
)

file_of-snoc : (cs : List Bytes) (c : Bytes) → file_of (cs ++ c ∷ []) ≡ file_of cs ++ newline ∷ c
file_of-snoc [] c = ap (λ t. newline ∷ t) (append-nil c)
file_of-snoc (d ∷ cs) c =
    ap (λ t. newline ∷ t)
      (ap (λ t. d ++ t) (file_of-snoc cs c) ∙ sym (append_assoc d (file_of cs) (newline ∷ c)))

fgets-end : (n : ℕ) (c : Bytes) → All (λ b. b ≢ newline) c → length c < n → fgets n c ≡ (c, none)
unfolding fgets
fgets-end zero c a l = absurd (omega arith)
fgets-end (suc n) [] a l = refl
fgets-end (suc n) (b ∷ c) a l = let rest = fgets-end n c a.1 (omega arith) in ground arith

fgets-line :
    (n : ℕ) (c text : Bytes)
    → All (λ b. b ≢ newline) c
    → length c < n
    → fgets n (c ++ newline ∷ text) ≡ (c ++ newline ∷ [], some text)
unfolding fgets
fgets-line zero c text a l = absurd (omega arith)
fgets-line (suc n) [] text a l = refl
fgets-line (suc n) (b ∷ c) text a l =
    let rest = fgets-line n c text a.1 (omega arith) in ground arith

chomp_lem : (c text : Bytes) → All (λ b. b ≢ newline) c → chomp (c ++ newline ∷ text) ≡ c
unfolding chomp
chomp_lem [] text a = refl
chomp_lem (b ∷ c) text a = let rest = chomp_lem c text a.1 in ground arith

chomp_id : (c : Bytes) → All (λ b. b ≢ newline) c → chomp c ≡ c
unfolding chomp
chomp_id [] a = refl
chomp_id (b ∷ c) a = let rest = chomp_id c a.1 in ground arith

abbrev with_command : History → Bytes → History
with_command h c = record h { command_history = h.command_history ++ c ∷ [] }

-- A line of the file is added.
remember-add :
    (c command rest : Bytes) (h : History)
    → IsCommand c
    → chomp (c ++ rest) ≡ c
    → is_repeated c h.command_history ≡ false
    → (remember (buffer_after command (c ++ rest)) h) ≡ (c, with_command h c)
unfolding remember buffer_after is_blank_line add_command_history
remember-add [] command rest h k e f = absurd (omega (arith, k.0))
remember-add (b ∷ c) command rest h k e f =
    let not_blank : (b == newline) ≡ false = ground arith in rw (e, f, not_blank) refl

-- The loop from the start of a command's line on.
read_loop-commands :
    (fuel : ℕ) (command c : Bytes) (cs : List Bytes) (h : History)
    → length cs < fuel
    → All IsCommand (c ∷ cs)
    → Fresh h.command_history (c ∷ cs)
    → read_loop fuel command (c ++ file_of cs) h
      ≡ some (record h { command_history = h.command_history ++ c ∷ cs })
unfolding read_loop
read_loop-commands zero command c cs h l a f = absurd (omega arith)
read_loop-commands (suc fuel) command c [] h l a f =
    let line = ap (fgets max_line) (append-nil c) ∙ fgets-end max_line c a.0.1 a.0.2 in
    let kept = remember-add c command [] h a.0 (ap chomp (append-nil c) ∙ chomp_id c a.0.1) f.0 in
    let all =
      subst (λ t. remember (buffer_after command t) h ≡ (c, with_command h c)) (append-nil c)
        kept in
    ground arith
read_loop-commands (suc fuel) command c (d ∷ cs) h l a f =
    let line = fgets-line max_line c (d ++ file_of cs) a.0.1 a.0.2 in
    let kept = remember-add c command (newline ∷ []) h a.0 (chomp_lem c [] a.0.1) f.0 in
    let rest = read_loop-commands fuel c d cs (with_command h c) (omega arith) a.1 f.1 in
    let whole = append_assoc h.command_history (c ∷ []) (d ∷ cs) in ground arith

length-file_of : (cs : List Bytes) → length cs ≤ length (file_of cs)
length-file_of [] = omega arith
length-file_of (c ∷ cs) = omega (arith, length-file_of cs, length-append c (file_of cs))

read-file_of :
    (cs : List Bytes)
    → All IsCommand cs
    → Fresh [] cs
    → read_bash_history (file_of cs) ≡ some (record { command_history = cs; file = file_of cs })
unfolding read_bash_history read_loop fgets buffer_after remember is_blank_line
read-file_of [] a f = refl
read-file_of (c ∷ cs) a f =
    read_loop-commands (suc (length (c ++ file_of cs))) (newline ∷ []) c cs
      (record { command_history = []; file = file_of (c ∷ cs) })
      (omega (arith, length-file_of cs, length-append c (file_of cs))) a f

-- The state that the commands of a session leave, from a new history.
abbrev pub typed : List Bytes → History → History
typed [] h = h
typed (c ∷ cs) h = typed cs (add_command_history c true h)

record Recorded (h : History) : Type 0 where
  file : h.file ≡ file_of h.command_history
  fresh : Fresh [] h.command_history
  commands : All IsCommand h.command_history

add_command_history-Recorded :
    (c : Bytes) (h : History) → IsCommand c → Recorded h → Recorded (add_command_history c true h)
unfolding add_command_history
add_command_history-Recorded c h k r = elim (Bool-cases (is_repeated c h.command_history)) [
  | inl again ↦ rw again r
  | inr new ↦ rw new (record {
    file = ap (λ t. t ++ newline ∷ c) r.file ∙ sym (file_of-snoc h.command_history c);
    fresh = Fresh-snoc [] h.command_history c r.fresh new;
    commands = All-append IsCommand h.command_history (c ∷ []) r.commands (k, tt);
  })
]

typed-Recorded :
    (cs : List Bytes) (h : History) → All IsCommand cs → Recorded h → Recorded (typed cs h)
typed-Recorded [] h a r = r
typed-Recorded (c ∷ cs) h a r =
    typed-Recorded cs (add_command_history c true h) a.1 (add_command_history-Recorded c h a.0 r)

abbrev pub no_history : History
no_history = record { command_history = []; file = [] }

-- From no history and an empty .bash_history, after any commands that are not empty, without a
-- newline and shorter than the buffer, read_bash_history reads from the file the very history that
-- the shell held, repetitions dropped, and ends.
pub read_bash_history-typed :
    (cs : List Bytes)
    → All IsCommand cs
    → read_bash_history (typed cs no_history).file ≡ some (typed cs no_history)
read_bash_history-typed cs a =
    let r = typed-Recorded cs no_history a (record { file = refl; fresh = tt; commands = tt }) in
    let h = typed cs no_history in
    ap read_bash_history r.file
    ∙ read-file_of h.command_history r.commands r.fresh
    ∙ ap (λ t. some (record { command_history = h.command_history; file = t })) (sym r.file)
