-- ===== src/Cli/CommandPath.antt =====
-- src/cli/command-path.ts. The command manifest, a table, is a parameter: the list of the commands'
-- usage paths.
pub mod Longest
mod Tests
use surfwright.Base.{
  ℕ, suc, ◌+◌, max, Bool, true, false, not, ◌&&◌, ◌||◌, Option, none, some, List, [], ◌∷◌, ◌++◌,
  if◌then◌else◌, ltb, leb, ◌==◌, length, take, keep, any, Text, text_eq,
}
use surfwright.Cli.Options.{
  end_of_options, has_dash, first_span, global_path_options, output_flags, includes,
}

abbrev pub is_nil {ℓ} : {A : Type ℓ} → List A → Bool
is_nil [] = true
is_nil (x ∷ xs) = false

-- The loop of `collectCommandCandidateTokens` when it holds `held` tokens: those that it adds.
collect : ℕ → ℕ → List Text → List Text
collect most held [] = []
collect most held (token ∷ []) =
    if text_eq token end_of_options
    then []
    else if ltb 0 (first_span global_path_options (token ∷ []))
    then []
    else if includes output_flags token
    then []
    else if has_dash token
    then []
    else token ∷ []
collect most held (token ∷ next ∷ rest) =
    let skip_one = collect most held (next ∷ rest) in
    let skip_two = collect most held rest in
    let more = collect most (held + 1) (next ∷ rest) in
    let span = first_span global_path_options (token ∷ next ∷ rest) in
    if text_eq token end_of_options
    then []
    else if ltb 1 span
    then skip_two
    else if ltb 0 span || includes output_flags token
    then skip_one
    else if has_dash token
    then (if held == 0 then skip_one else [])
    else if leb most (held + 1)
    then token ∷ []
    else token ∷ more

-- `isPathPrefix(candidate, manifestPath)`
pub is_path_prefix : List Text → List Text → Bool
is_path_prefix candidate [] = true
is_path_prefix [] (part ∷ parts) = false
is_path_prefix (token ∷ tokens) (part ∷ parts) = text_eq token part && is_path_prefix tokens parts

-- The stable sort by falling length.
insert_path : List Text → List (List Text) → List (List Text)
insert_path p [] = p ∷ []
insert_path p (q ∷ qs) = if leb (length q) (length p) then p ∷ q ∷ qs else q ∷ insert_path p qs

longest_first : List (List Text) → List (List Text)
longest_first [] = []
longest_first (p ∷ ps) = insert_path p (longest_first ps)

pub manifest_paths : List (List Text) → List (List Text)
manifest_paths usages = longest_first (keep (λ p. not (is_nil p)) usages)

depth : List (List Text) → ℕ
depth [] = 1
depth (p ∷ ps) = max (length p) (depth ps)

abbrev head_is : Text → List Text → Bool
head_is token [] = false
head_is token (root ∷ rest) = text_eq root token

roots_with_subcommands : List (List Text) → Text → Bool
roots_with_subcommands paths token = any (λ p. ltb 1 (length p) && head_is token p) paths

find_path : List Text → List (List Text) → Option (List Text)
find_path candidate [] = none
find_path candidate (p ∷ ps) = if is_path_prefix candidate p then some p else find_path candidate ps

pub candidates : List (List Text) → List Text → List Text
candidates usages argv = collect (depth (manifest_paths usages) + 2) 0 argv

path_or_head : List (List Text) → List Text → Option (List Text) → List Text
path_or_head paths candidate (some p) = p
path_or_head paths [] none = []
path_or_head paths (first ∷ rest) none =
    if leb 1 (length rest) && roots_with_subcommands paths first
    then take 2 (first ∷ rest)
    else first ∷ []

-- An empty candidate matches no path, since the paths are not empty.
pub resolve_argv_command_path : List (List Text) → List Text → List Text
resolve_argv_command_path usages argv =
    let candidate = candidates usages argv in
    let paths = manifest_paths usages in path_or_head paths candidate (find_path candidate paths)

-- `path.join(".")`
join_dots : List Text → Text
join_dots [] = []
join_dots (part ∷ []) = part
join_dots (part ∷ next ∷ rest) = part ++ (b'.' ∷ join_dots (next ∷ rest))

pub resolve_argv_command_id : List (List Text) → List Text → Option Text
resolve_argv_command_id usages argv =
    let path = resolve_argv_command_path usages argv in
    if is_nil path then none else some (join_dots path)
