-- ===== src/Cli/Options.antt =====
-- src/cli/options.ts. An argument list with an index is the list of the arguments from the index on;
-- the callers start at index 2, behind the program's two.
pub mod Spans
mod Tests
use surfwright.Base.{
  ℕ, suc, ◌+◌, Bool, true, false, not, ◌&&◌, ◌||◌, Option, none, some, List, [], ◌∷◌, ◌++◌,
  if◌then◌else◌, ltb, leb, length, drop, any, Text, lit, text_eq, starts_with,
}

abbrev pub end_of_options : Text
end_of_options = lit "--"

abbrev pub has_dash : Text → Bool
has_dash token = starts_with (lit "-") token

-- `typeof next === "string" && next !== "--" && !next.startsWith("-")`
abbrev pub takes_value : List Text → Bool
takes_value [] = false
takes_value (next ∷ rest) = not (text_eq next end_of_options) && not (has_dash next)

-- Past the end, where the source has no token to read and no caller goes, the span is 0.
unfoldable pub parse_option_token_span : List Text → Text → ℕ
parse_option_token_span [] name = 0
parse_option_token_span (token ∷ rest) name =
    if text_eq token end_of_options
    then 0
    else if text_eq token name
    then (if takes_value rest then 2 else 1)
    else if starts_with (name ++ lit "=") token
    then 1
    else 0

pub record OptionValue : Type 0 where
  pub found : Bool
  pub valid : Bool
  pub value : Option Text

abbrev pub not_found : OptionValue
not_found = record { found = false; valid = false; value = none }

abbrev pub not_valid : OptionValue
not_valid = record { found = true; valid = false; value = none }

abbrev pub valid_value : Text → OptionValue
valid_value v = record { found = true; valid = true; value = some v }

abbrev pub next_value : List Text → OptionValue
next_value [] = not_valid
next_value (next ∷ rest) =
    if text_eq next end_of_options || has_dash next then not_valid else valid_value next

abbrev pub inline_value : Text → OptionValue
inline_value [] = not_valid
inline_value (c ∷ value) = valid_value (c ∷ value)

unfoldable pub parse_global_option_value : List Text → Text → OptionValue
parse_global_option_value [] name = not_found
parse_global_option_value (token ∷ rest) name =
    if text_eq token end_of_options
    then not_found
    else if text_eq token name
    then next_value rest
    else if starts_with (name ++ lit "=") token
    then inline_value (drop (length (name ++ lit "=")) token)
    else parse_global_option_value rest name

abbrev pub global_path_options : List Text
global_path_options =
    lit "--session"
    ∷ lit "--agent-id"
    ∷ lit "--workspace"
    ∷ lit "--output-shape"
    ∷ lit "--browser-executable"
    ∷ []

abbrev pub output_flags : List Text
output_flags = lit "--json" ∷ lit "--no-json" ∷ lit "--pretty" ∷ []

-- The loop over option names that stops at the first span above 0.
unfoldable pub first_span : List Text → List Text → ℕ
first_span [] argv = 0
first_span (name ∷ names) argv =
    if ltb 0 (parse_option_token_span argv name)
    then parse_option_token_span argv name
    else first_span names argv

abbrev pub includes : List Text → Text → Bool
includes names token = any (λ name. text_eq name token) names

abbrev pub commands_with_subcommand : List Text
commands_with_subcommand =
    lit "target"
    ∷ lit "session"
    ∷ lit "state"
    ∷ lit "workspace"
    ∷ lit "extension"
    ∷ lit "network"
    ∷ lit "skill"
    ∷ []

-- What follows once `token` was pushed: `rest` is the path that the loop goes on to find.
abbrev path_after : List Text → Text → List Text → List Text
path_after [] token rest =
    if includes commands_with_subcommand token then token ∷ rest else token ∷ []
path_after (first ∷ more) token rest = token ∷ []

-- The loop of `parseCommandPath`: what it adds to the tokens `out` that it holds.
path_loop : List Text → List Text → List Text
path_loop out [] = []
path_loop out (token ∷ []) =
    if text_eq token end_of_options
    then []
    else if ltb 0 (first_span global_path_options (token ∷ []))
    then []
    else if includes output_flags token
    then []
    else if has_dash token
    then []
    else token ∷ []
path_loop out (token ∷ next ∷ rest) =
    let skip_one = path_loop out (next ∷ rest) in
    let skip_two = path_loop out rest in
    let pushed = path_loop (out ++ token ∷ []) (next ∷ rest) in
    let span = first_span global_path_options (token ∷ next ∷ rest) in
    if text_eq token end_of_options
    then []
    else if ltb 1 span
    then skip_two
    else if ltb 0 span || includes output_flags token
    then skip_one
    else if has_dash token
    then []
    else path_after out token pushed

unfoldable pub parse_command_path : List Text → List Text
unfolding path_loop
parse_command_path argv = path_loop [] argv
