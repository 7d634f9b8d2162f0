-- ===== src/Cli/Options/Spans.antt =====
-- The two readers of an option, the one for its span and the one for its value, agree.
use surfwright.Base.{
  ℕ, zero, suc, ◌≤◌, true, false, ◌||◌, ◌≡◌, refl, ◌∙◌, inl, inr, ◌⊎◌, List, [], ◌∷◌, ◌++◌, arith,
  length, drop, ap, Text, lit, text_eq, starts_with, Bool-cases,
}
use surfwright.Cli.Options.{
  end_of_options, has_dash, takes_value, parse_option_token_span, valid_value, not_valid,
  next_value, inline_value, parse_global_option_value, parse_command_path, path_loop,
}

-- What the reader of the value does at an argument from which the option has a span.
abbrev pub Reads : Text → Text → List Text → ℕ → Type 0
Reads token name rest zero =
    (text_eq token name ≡ false)
    × (parse_global_option_value (token ∷ rest) name ≡ parse_global_option_value rest name)
Reads token name rest (suc zero) =
    ((text_eq token name ≡ true) × (parse_global_option_value (token ∷ rest) name ≡ not_valid))
    ⊎ ((text_eq token name ≡ false)
        × (starts_with (name ++ lit "=") token ≡ true)
        × (parse_global_option_value (token ∷ rest) name
            ≡ inline_value (drop (length (name ++ lit "=")) token)))
Reads token name rest (suc (suc zero)) =
    (text_eq token name ≡ true)
    × (next : Text) × (more : List Text) × (rest ≡ next ∷ more)
    × (parse_global_option_value (token ∷ rest) name ≡ valid_value next)
Reads token name rest (suc (suc (suc more))) = ⊥

takes_value-next_value :
    (rest : List Text)
    → ((takes_value rest ≡ false) × (next_value rest ≡ not_valid))
      ⊎ ((takes_value rest ≡ true)
          × (next : Text) × (more : List Text) × (rest ≡ next ∷ more)
          × (next_value rest ≡ valid_value next))
takes_value-next_value [] = inl (refl, refl)
takes_value-next_value (next ∷ more) =
    elim (Bool-cases (text_eq next end_of_options || has_dash next)) [
      | inl q ↦ inl (ground arith, rw q refl)
      | inr q ↦ inr (ground arith, next, more, refl, rw q refl)
    ]

-- At an argument that is not `--`, the span of an option and the reader of its value agree. A span of
-- 0: the argument is not the option, and its value is looked for behind it. A span of 1: the argument
-- is the option and the reader finds no valid value, or the argument goes on behind the option with
-- `=`, and the reader takes what follows that. A span of 2: the argument is the option and the reader
-- takes the next one. There is no other span, and none reaches past the arguments.
pub parse_option_token_span-value :
    (token name : Text) (rest : List Text)
    → text_eq token end_of_options ≡ false
    → (parse_option_token_span (token ∷ rest) name ≤ length (token ∷ rest))
      × Reads token name rest (parse_option_token_span (token ∷ rest) name)
unfolding parse_option_token_span parse_global_option_value
parse_option_token_span-value token name rest h = elim (Bool-cases (text_eq token name)) [
  | inl named ↦
      let behind : parse_global_option_value (token ∷ rest) name ≡ next_value rest =
        rw (h, named) refl in
      elim (takes_value-next_value rest) [
        | inl (bare, reads) ↦ rw (h, named, bare) (omega arith, inl (named, behind ∙ reads))
        | inr (taken, next, more, split, reads) ↦
            rw (h, named, taken)
              (
                let two = ap length split in omega (arith, two),
                (named, next, more, split, behind ∙ reads),
              )
      ]
  | inr other ↦ elim (Bool-cases (starts_with (name ++ lit "=") token)) [
    | inl joined ↦
        let inline : parse_global_option_value (token ∷ rest) name
            ≡ inline_value (drop (length (name ++ lit "=")) token) =
          rw (h, other, joined) refl in
        rw (h, other, joined) (omega arith, inr (other, joined, inline))
    | inr apart ↦
        let behind : parse_global_option_value (token ∷ rest) name
            ≡ parse_global_option_value rest name =
          rw (h, other, apart) refl in
        rw (h, other, apart) (omega arith, (other, behind))
  ]
]

path_loop_full : (a : Text) (out argv : List Text) → length (path_loop (a ∷ out) argv) ≤ 1
unfolding path_loop
path_loop_full a out [] = omega arith
path_loop_full a out (token ∷ []) = ground arith
path_loop_full a out (token ∷ next ∷ rest) =
    ground (arith, path_loop_full a out (next ∷ rest), path_loop_full a out rest)

path_loop_short : (argv : List Text) → length (path_loop [] argv) ≤ 2
unfolding path_loop
path_loop_short [] = omega arith
path_loop_short (token ∷ []) = ground arith
path_loop_short (token ∷ next ∷ rest) = ground (
  arith,
  path_loop_short (next ∷ rest),
  path_loop_short rest,
  path_loop_full token [] (next ∷ rest),
)

-- A command path has at most two tokens, for every argument list.
pub parse_command_path-length : (argv : List Text) → length (parse_command_path argv) ≤ 2
unfolding parse_command_path
parse_command_path-length argv = path_loop_short argv
