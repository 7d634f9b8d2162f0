-- ===== src/Cli/CommandPath/Tests.antt =====
-- src/cli/command-path.ts, the theorem at concrete arguments.
use surfwright.Base.{
  ◌≤◌, ◌≡◌, refl, true, some, List, [], ◌∷◌, length, Text, lit, text_eq, starts_with, Member, here,
  there,
}
use surfwright.Cli.Options.{first_span, parse_option_token_span}
use surfwright.Cli.CommandPath.{
  resolve_argv_command_path, resolve_argv_command_id, join_dots, path_or_head, find_path,
  manifest_paths, is_path_prefix, candidates, collect, depth, longest_first, insert_path,
}
use surfwright.Cli.CommandPath.Longest.{resolve_argv_command_path_longest}

abbrev arguments : List Text
arguments = lit "--session" ∷ lit "s-1" ∷ lit "target" ∷ lit "click" ∷ lit "--nth" ∷ lit "2" ∷ []

abbrev commands : List (List Text)
commands = (lit "target" ∷ []) ∷ (lit "target" ∷ lit "click" ∷ []) ∷ (lit "open" ∷ []) ∷ []

resolve_argv_command_path_longest_example :
    Member (resolve_argv_command_path commands arguments) (manifest_paths commands)
    × (is_path_prefix (candidates commands arguments) (resolve_argv_command_path commands arguments)
        ≡ true)
    × (2 ≤ length (resolve_argv_command_path commands arguments))
unfolding candidates collect depth manifest_paths longest_first insert_path is_path_prefix
    first_span parse_option_token_span text_eq starts_with
resolve_argv_command_path_longest_example =
    resolve_argv_command_path_longest commands arguments (lit "target" ∷ lit "click" ∷ []) refl
      (there here) refl

names_the_command : resolve_argv_command_id commands arguments ≡ some (lit "target.click")
unfolding resolve_argv_command_id join_dots resolve_argv_command_path path_or_head find_path
    candidates collect depth manifest_paths longest_first insert_path is_path_prefix first_span
    parse_option_token_span text_eq starts_with
names_the_command = refl
