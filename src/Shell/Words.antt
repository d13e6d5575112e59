-- ===== src/Shell/Words.antt =====
-- The words of a command, and that cmd_parse of shell.c finds them.
use ukernel.Prelude.{
  ℕ, zero, suc, ◌+◌, ◌≤◌, ◌<◌, ◌≡◌, refl, sym, ap, ◌∙◌, inl, inr, Bool, true, false, arith, Option,
  none, some, List, [], ◌∷◌, ltb, leb, ◌==◌, if◌then◌else◌, update, update_here, update_away,
  length, get_elem?, Bool-cases,
}
use ukernel.Shell.{
  skip_token, skip_word, end_word, Parse, take_word, parse_words, cmd_parse, max_arg_nr,
}

-- The offsets at which words start; `inside` says whether the byte before belongs to a word.
unfoldable pub starts : (token : ℕ) (inside : Bool) (at : ℕ) → List ℕ → List ℕ
starts token inside at [] = []
starts token inside at (c ∷ s) =
    let gap = starts token false (at + 1) s in
    let word = starts token true (at + 1) s in
    if c == token then gap else if inside then word else at ∷ word

module _ (token at c : ℕ) (s : List ℕ) where
  starts_token :
      (inside : Bool)
      → (c == token) ≡ true
      → starts token inside at (c ∷ s) ≡ starts token false (at + 1) s
  unfolding starts
  starts_token inside e = rw e refl

  starts_first :
      (c == token) ≡ false → starts token false at (c ∷ s) ≡ at ∷ starts token true (at + 1) s
  unfolding starts
  starts_first n = rw n refl

  starts_inside : (c == token) ≡ false → starts token true at (c ∷ s) ≡ starts token true (at + 1) s
  unfolding starts
  starts_inside n = rw n refl

-- What skipping tokens leaves: the same words, the first of them in front.
record Skipped (token next : ℕ) (s : List ℕ) (out : ℕ × List ℕ) : Type 0 where
  same : starts token false out.0 out.1 ≡ starts token false next s
  short : length out.1 ≤ length s
  word : (c : ℕ) (t : List ℕ) → out.1 ≡ c ∷ t → (c == token) ≡ false

behind_token :
    (token next c : ℕ) (s : List ℕ) (out : ℕ × List ℕ)
    → (c == token) ≡ true
    → Skipped token (next + 1) s out
    → Skipped token next (c ∷ s) out
behind_token token next c s out e rest = record {
  same = rest.same ∙ sym (starts_token token next c s false e);
  short = omega (arith, rest.short);
  word = rest.word;
}

abbrev first : List ℕ → ℕ → ℕ
first [] d = d
first (c ∷ s) d = c

skip_token-Skipped : (token next : ℕ) (s : List ℕ) → Skipped token next s (skip_token token next s)
unfolding skip_token
skip_token-Skipped token next [] = record {
  same = refl;
  short = omega arith;
  word = λ c t e. absurd (ground arith);
}
skip_token-Skipped token next (d ∷ s) = elim (Bool-cases (d == token)) [
  | inl e ↦ rw e (
      behind_token token next d s (skip_token token (next + 1) s) e
        (skip_token-Skipped token (next + 1) s))
  | inr n ↦ rw n (record {
    same = refl;
    short = omega arith;
    word = λ c t q. let head : d ≡ c = ap (λ l. first l 0) q in rw (sym head) n;
  })
]

-- What stands behind a word: the words after it.
after_word :
    (token next : ℕ) (s : List ℕ) (mem : ℕ → ℕ)
    → (starts token false
          (end_word (skip_word token next s) mem).0.0
          (end_word (skip_word token next s) mem).0.1
        ≡ starts token true next s)
      × (length (end_word (skip_word token next s) mem).0.1 ≤ length s)
unfolding skip_word end_word starts
after_word token next [] mem = (refl, omega arith)
after_word token next (c ∷ s) mem = elim (Bool-cases (c == token)) [
  | inl e ↦ rw e (refl, omega arith)
  | inr n ↦
      let (same, short) = after_word token (next + 1) s mem in rw n (same, omega (arith, short))
]

starts_end : (token : ℕ) (inside : Bool) (at : ℕ) → starts token inside at [] ≡ []
unfolding starts
starts_end token inside at = refl

skip_word_inside :
    (token next c : ℕ) (s : List ℕ)
    → (c == token) ≡ false
    → skip_word token next (c ∷ s) ≡ skip_word token (next + 1) s
unfolding skip_word
skip_word_inside token next c s n = rw n refl

-- What the loop of cmd_parse leaves, from `argc` words on, with `words` to come.
pub record Parsed (argc : ℕ) (words : List ℕ) (argv : ℕ → Option ℕ) (p : Parse) : Type 0 where
  pub answer :
      p.answer ≡ (if leb (argc + length words) 17 then some (argc + length words) else none)
  pub new : (i : ℕ) → i < length words → argc + i ≤ 17 → p.argv (argc + i) ≡ get_elem? words i
  pub old : (i : ℕ) → i < argc → p.argv i ≡ argv i

-- No word is left.
no_word :
    (argc : ℕ) (argv : ℕ → Option ℕ) (mem : ℕ → ℕ)
    → argc ≤ 17
    → Parsed argc [] argv (record { answer = some argc; argv = argv; mem = mem })
no_word argc argv mem few = record {
  answer =
      let z : argc + 0 ≡ argc = omega arith in
      let fits : leb argc 17 ≡ true = ground arith in rw (z, fits) refl;
  new = λ i below. absurd (omega arith);
  old = λ i below. refl;
}

-- A word too many.
word_too_many :
    (argc next : ℕ) (words : List ℕ) (argv : ℕ → Option ℕ) (mem : ℕ → ℕ)
    → argc ≡ 17
    → Parsed argc
        (next ∷ words)
        argv
        (record { answer = none; argv = update argv argc (some next); mem = mem })
word_too_many argc next words argv mem full = record {
  answer = let over : leb (argc + suc (length words)) 17 ≡ false = ground arith in rw over refl;
  new = λ i below fits.
      let z : i ≡ 0 = omega arith in
      let at : argc + i ≡ argc = omega arith in rw (at, z) (update_here argv argc (some next));
  old = λ i below. update_away argv argc (some next) i (λ e. omega arith);
}

-- One word more in front.
word_more :
    (argc next : ℕ) (words : List ℕ) (argv : ℕ → Option ℕ) (p : Parse)
    → Parsed (argc + 1) words (update argv argc (some next)) p
    → Parsed argc (next ∷ words) argv p
word_more argc next words argv p rest = record {
  answer =
      let sum : argc + 1 + length words ≡ argc + suc (length words) = omega arith in
      rw sum at rest.answer;
  new = λ i below fits. at_index i below fits;
  old =
      λ i below. rest.old i (omega arith) ∙ update_away argv argc (some next) i (λ e. omega arith);
}
  where
    at_index :
        (i : ℕ)
        → i < suc (length words)
        → argc + i ≤ 17
        → p.argv (argc + i) ≡ get_elem? (next ∷ words) i
    at_index zero below fits =
        let z : argc + 0 ≡ argc = omega arith in
        ap p.argv z ∙ rest.old argc (omega arith) ∙ update_here argv argc (some next)
    at_index (suc i) below fits =
        let z : argc + suc i ≡ argc + 1 + i = omega arith in
        ap p.argv z ∙ rest.new i (omega arith) (omega arith)

-- The loop from a position on does what it should, if it is given a command short enough.
abbrev Sound :
    (fuel token : ℕ)
    → ((next : ℕ) (s : List ℕ) (argc : ℕ) (argv : ℕ → Option ℕ) (mem : ℕ → ℕ) → Option Parse)
    → Type 0
Sound fuel token more =
    (next : ℕ) (s : List ℕ) (argc : ℕ) (argv : ℕ → Option ℕ) (mem : ℕ → ℕ)
    → length s < fuel
    → argc ≤ 17
    → (p : Parse) × (more next s argc argv mem ≡ some p)
      × Parsed argc (starts token false next s) argv p

take_word_lem :
    (more : (next : ℕ) (s : List ℕ) (argc : ℕ) (argv : ℕ → Option ℕ) (mem : ℕ → ℕ) → Option Parse)
    (token next : ℕ) (s : List ℕ) (argc : ℕ) (argv : ℕ → Option ℕ) (mem : ℕ → ℕ) (fuel : ℕ)
    → Sound fuel token more
    → length s ≤ fuel
    → argc ≤ 17
    → (out : ℕ × List ℕ) → Skipped token next s out
    → (p : Parse) × (take_word more token out argc argv mem ≡ some p)
      × Parsed argc (starts token false next s) argv p
unfolding take_word
take_word_lem more token next s argc argv mem fuel each fits few (n, []) skipped = (
  record { answer = some argc; argv = argv; mem = mem },
  refl,
  rw (sym skipped.same ∙ starts_end token false n) (no_word argc argv mem few),
)
take_word_lem more token next s argc argv mem fuel each fits few (n, d ∷ t) skipped =
    let other = skipped.word d t refl in
    let (same, short) = after_word token (n + 1) t mem in
    let ended = end_word (skip_word token (n + 1) t) mem in
    let argv' = update argv argc (some n) in
    let words : starts token false next s ≡ n ∷ starts token true (n + 1) t =
      sym skipped.same ∙ starts_first token n d t other in
    elim (Bool-cases (ltb max_arg_nr argc)) [
      | inl e ↦ (
        record { answer = none; argv = argv'; mem = ended.1 },
        rw (skip_word_inside token n d t other, e) refl,
        rw words (word_too_many argc n (starts token true (n + 1) t) argv ended.1 (ground arith)),
      )
      | inr m ↦
          let (p, run, rest) =
            each ended.0.0 ended.0.1 (argc + 1) argv' ended.1 (omega (arith, short, skipped.short))
              (ground arith) in
          (
            p,
            rw (skip_word_inside token n d t other, m) run,
            rw words (word_more argc n (starts token true (n + 1) t) argv p (rw same at rest)),
          )
    ]

parse_words_lem : (fuel token : ℕ) → Sound fuel token (parse_words fuel token)
unfolding parse_words
parse_words_lem zero token next s argc argv mem fits few = absurd (omega arith)
parse_words_lem (suc fuel) token next [] argc argv mem fits few = (
  record { answer = some argc; argv = argv; mem = mem },
  refl,
  rw (starts_end token false next) (no_word argc argv mem few),
)
parse_words_lem (suc fuel) token next (c ∷ s) argc argv mem fits few =
    take_word_lem (parse_words fuel token) token next (c ∷ s) argc argv mem fuel
      (parse_words_lem fuel token) (omega arith) few (skip_token token next (c ∷ s))
      (skip_token-Skipped token next (c ∷ s))

-- With more fuel than the command has bytes, cmd_parse returns the number of words if there are at
-- most 17, and -1 otherwise, and the places of argv from 0 to 17 that there are words for hold the
-- offsets at which the words start: with 17 words or more it writes argv[16], past the 16 places.
pub cmd_parse-starts :
    (fuel token : ℕ) (cmd : List ℕ) (argv : ℕ → Option ℕ) (mem : ℕ → ℕ)
    → length cmd < fuel
    → (p : Parse) × (cmd_parse fuel token cmd argv mem ≡ some p)
      × (p.answer ≡ (
          if leb (length (starts token false 0 cmd)) 17
          then some (length (starts token false 0 cmd))
          else none))
      × ((i : ℕ)
          → i < length (starts token false 0 cmd)
          → i ≤ 17
          → p.argv i ≡ get_elem? (starts token false 0 cmd) i)
unfolding cmd_parse
cmd_parse-starts fuel token cmd argv mem fits =
    let (p, run, left) =
      parse_words_lem fuel token 0 cmd 0 (λ i. if ltb i max_arg_nr then none else argv i) mem fits
        (omega arith) in
    let words = starts token false 0 cmd in
    let none_yet : 0 + length words ≡ length words = omega arith in
    (
      p,
      run,
      rw none_yet at left.answer,
      λ i below small.
          let z : i ≡ 0 + i = omega arith in ap p.argv z ∙ left.new i below (omega arith),
    )
