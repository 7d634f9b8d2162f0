-- ===== src/Cli/Options/Tests.antt =====
-- src/cli/options.ts: tests, and the theorems at concrete arguments.
use surfwright.Base.{◌≤◌, ◌≡◌, refl, List, [], ◌∷◌, length, Text, lit, text_eq, starts_with}
use surfwright.Cli.Options.{parse_option_token_span, parse_command_path, path_loop, first_span}
use surfwright.Cli.Options.Spans.{Reads, parse_option_token_span-value}

abbrev arguments : List Text
arguments = lit "--session" ∷ lit "s-1" ∷ lit "target" ∷ lit "click" ∷ lit "--nth" ∷ lit "2" ∷ []

two_words : parse_command_path arguments ≡ lit "target" ∷ lit "click" ∷ []
unfolding parse_command_path path_loop first_span parse_option_token_span text_eq starts_with
two_words = refl

parse_option_token_span-value_example :
    (parse_option_token_span arguments (lit "--session") ≤ length arguments)
    × Reads
        (lit "--session")
        (lit "--session")
        (lit "s-1" ∷ lit "target" ∷ lit "click" ∷ lit "--nth" ∷ lit "2" ∷ [])
        (parse_option_token_span arguments (lit "--session"))
unfolding text_eq
parse_option_token_span-value_example =
    parse_option_token_span-value (lit "--session") (lit "--session")
      (lit "s-1" ∷ lit "target" ∷ lit "click" ∷ lit "--nth" ∷ lit "2" ∷ []) refl
