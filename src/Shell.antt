-- ===== src/Shell.antt =====
-- cmd_parse of shell.c. The command is its bytes without the terminator; a pointer into it is its
-- offset, and what is read there is the rest from there, since cmd_parse writes only behind the byte
-- it reads next. `mem` is what the buffer holds in the end, by offset. Places of argv past its sixteen
-- are the memory behind it. The loop over the words takes fuel; `none` is fuel that ran out.
pub mod Words
mod Tests
use ukernel.Prelude.{
  ℕ, zero, suc, ◌+◌, Bool, Option, none, some, List, [], ◌∷◌, ltb, ◌==◌, if◌then◌else◌, update,
}

abbrev pub max_arg_nr : ℕ
max_arg_nr = 16

-- while(*next == token) next++;
unfoldable pub skip_token : (token next : ℕ) → List ℕ → ℕ × List ℕ
skip_token token next [] = (next, [])
skip_token token next (c ∷ s) =
    let rest = skip_token token (next + 1) s in if c == token then rest else (next, c ∷ s)

-- while (*next && *next != token) next++;
unfoldable pub skip_word : (token next : ℕ) → List ℕ → ℕ × List ℕ
skip_word token next [] = (next, [])
skip_word token next (c ∷ s) =
    let rest = skip_word token (next + 1) s in if c == token then (next, c ∷ s) else rest

-- if (*next) *next++ = 0;
unfoldable pub end_word : ℕ × List ℕ → (ℕ → ℕ) → (ℕ × List ℕ) × (ℕ → ℕ)
end_word (next, []) mem = ((next, []), mem)
end_word (next, c ∷ s) mem = ((next + 1, s), update mem next 0)

-- what cmd_parse leaves: its answer, where `none` is -1, argv and the buffer
pub record Parse : Type 0 where
  pub answer : Option ℕ
  pub argv : ℕ → Option ℕ
  pub mem : ℕ → ℕ

-- from `*next == 0`, or from the write to argv[argc] to the end of the body
unfoldable pub take_word :
    ((next : ℕ) (s : List ℕ) (argc : ℕ) (argv : ℕ → Option ℕ) (mem : ℕ → ℕ) → Option Parse)
    → (token : ℕ) → ℕ × List ℕ
    → (argc : ℕ) (argv : ℕ → Option ℕ) (mem : ℕ → ℕ) → Option Parse
take_word more token (next, []) argc argv mem =
    some (record { answer = some argc; argv = argv; mem = mem })
take_word more token (next, c ∷ s) argc argv mem =
    let argv' = update argv argc (some next) in
    let ((next', s'), mem') = end_word (skip_word token next (c ∷ s)) mem in
    if ltb max_arg_nr argc
    then some (record { answer = none; argv = argv'; mem = mem' })
    else more next' s' (argc + 1) argv' mem'

-- while(*next)
unfoldable pub parse_words :
    (fuel token next : ℕ) (s : List ℕ) (argc : ℕ) (argv : ℕ → Option ℕ) (mem : ℕ → ℕ) → Option Parse
parse_words zero token next s argc argv mem = none
parse_words (suc fuel) token next [] argc argv mem =
    some (record { answer = some argc; argv = argv; mem = mem })
parse_words (suc fuel) token next (c ∷ s) argc argv mem =
    take_word (parse_words fuel token) token (skip_token token next (c ∷ s)) argc argv mem

-- The sixteen places of argv are set to NULL first.
unfoldable pub cmd_parse :
    (fuel token : ℕ) → List ℕ → (argv : ℕ → Option ℕ) (mem : ℕ → ℕ) → Option Parse
cmd_parse fuel token cmd_str argv mem =
    parse_words fuel token 0 cmd_str 0 (λ i. if ltb i max_arg_nr then none else argv i) mem
