-- ===== src/Shell/Tests.antt =====
-- cmd_parse of shell.c at concrete inputs.
use ukernel.Prelude.{ℕ, ◌≤◌, ◌<◌, ◌≡◌, arith, none, some, List, [], ◌∷◌, get_elem?}
use ukernel.Shell.{Parse, cmd_parse}
use ukernel.Shell.Words.{cmd_parse-starts, starts}

abbrev space : ℕ
space = b' '

-- "ls  x "
abbrev ls_x : List ℕ
ls_x = b'l' ∷ b's' ∷ b' ' ∷ b' ' ∷ b'x' ∷ b' ' ∷ []

cmd_parse-starts_example :
    (p : Parse) × (cmd_parse 7 space ls_x (λ i. none) (λ i. 0) ≡ some p)
    × (p.answer ≡ some 2)
    × ((i : ℕ) → i < 2 → i ≤ 17 → p.argv i ≡ get_elem? (0 ∷ 4 ∷ []) i)
unfolding starts
cmd_parse-starts_example = cmd_parse-starts 7 space ls_x (λ i. none) (λ i. 0) (omega arith)
