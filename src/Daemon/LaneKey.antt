-- ===== src/Daemon/LaneKey.antt =====
-- src/core/daemon/domain/lane-key-resolver.ts. `origin_of` stands for the URL parser: the lower-case
-- origin of a text that is a URL. The command manifest is a parameter, as in Cli.CommandPath.
pub mod Hash
pub mod Sources
pub mod OpenInput
mod Tests
use surfwright.Base.{
  ℕ, zero, suc, ◌+◌, ◌-◌, ◌*◌, ◌/◌, ◌%◌, ◌^◌, bit_xor, Bool, true, false, not, ◌&&◌, ◌||◌, Option,
  none, some, List, [], ◌∷◌, ◌++◌, if◌then◌else◌, ltb, leb, ◌==◌, length, replicate, Text, lit,
  text_eq, trim, to_lower, is_blank,
}
use surfwright.Cli.Options.{
  OptionValue, end_of_options, has_dash, parse_option_token_span, parse_global_option_value,
  first_span, global_path_options, output_flags, includes,
}
use surfwright.Cli.CommandPath.{resolve_argv_command_path}

pub data DaemonLaneSource : Type 0 where
  session_id cdp_origin control : DaemonLaneSource

pub data DaemonLaneFamily : Type 0 where
  open_page run session_attach target control : DaemonLaneFamily

pub record DaemonLaneResolution : Type 0 where
  pub lane_key : Text
  pub source : DaemonLaneSource
  pub family : DaemonLaneFamily

abbrev pub default_control_lane_key : Text
default_control_lane_key = lit "control:default"

abbrev pub open_options_with_values : List Text
open_options_with_values =
    lit "--profile"
    ∷ lit "--reuse"
    ∷ lit "--download-out-dir"
    ∷ lit "--wait-until"
    ∷ lit "--assert-url-prefix"
    ∷ lit "--assert-selector"
    ∷ lit "--assert-text"
    ∷ lit "--browser-mode"
    ∷ lit "--isolation"
    ∷ lit "--ensure-session"
    ∷ lit "--timeout-ms"
    ∷ lit "--fields"
    ∷ []

abbrev trimmed_value : Option Text → Option Text
trimmed_value none = none
trimmed_value (some v) = if is_blank (trim v) then none else some (trim v)

-- `!found || !valid` leaves no value.
pub valid_option_value : List Text → Text → Option Text
valid_option_value argv name =
    let parsed = parse_global_option_value argv name in
    if not parsed.found || not parsed.valid then none else trimmed_value parsed.value

-- `hash ^= c; hash = Math.imul(hash, 16777619)`, as the unsigned word.
pub hash_word : ℕ → Text → ℕ
hash_word hash [] = hash
hash_word hash (c ∷ value) = hash_word ((bit_xor hash c * 16777619) % 2 ^ 32) value

abbrev pub hex_digit : ℕ → ℕ
hex_digit d = if ltb d 10 then 48 + d else 87 + d

-- `toString(16)`: the digits of a number below 16 ^ fuel.
pub to_hex : ℕ → ℕ → Text
to_hex zero n = []
to_hex (suc fuel) n =
    let high = to_hex fuel (n / 16) in
    if ltb n 16 then hex_digit n ∷ [] else high ++ hex_digit (n % 16) ∷ []

abbrev pub pad_start : ℕ → ℕ → Text → Text
pad_start width c t = replicate (width - length t) c ++ t

pub hash_origin_token : Text → Text
hash_origin_token value = pad_start 8 b'0' (to_hex 8 (hash_word 2166136261 value))

abbrev second_is : Text → List Text → Bool
second_is name [] = false
second_is name (second ∷ rest) = text_eq second name

pub family_of : List Text → DaemonLaneFamily
family_of [] = control
family_of (first ∷ rest) =
    if text_eq first (lit "open")
    then open_page
    else if text_eq first (lit "run")
    then run
    else if text_eq first (lit "session") && second_is (lit "attach") rest
    then session_attach
    else if text_eq first (lit "target")
    then target
    else control

pub command_family : List (List Text) → List Text → DaemonLaneFamily
command_family usages argv = family_of (resolve_argv_command_path usages argv)

-- The arguments from the command on; `none` for index -1.
pub command_start : List Text → Option (List Text)
command_start [] = none
command_start (token ∷ []) =
    if text_eq token end_of_options
    then none
    else if ltb 0 (first_span global_path_options (token ∷ []))
    then none
    else if includes output_flags token
    then none
    else some (token ∷ [])
command_start (token ∷ next ∷ rest) =
    let skip_one = command_start (next ∷ rest) in
    let skip_two = command_start rest in
    let span = first_span global_path_options (token ∷ next ∷ rest) in
    if text_eq token end_of_options
    then none
    else if ltb 1 span
    then skip_two
    else if ltb 0 span || includes output_flags token
    then skip_one
    else some (token ∷ next ∷ rest)

-- The loop of `firstOpenInputToken` behind the command. A flag is skipped whether known or not.
pub open_input : List Text → Option Text
open_input [] = none
open_input (token ∷ []) =
    if text_eq token end_of_options then none else if not (has_dash token) then some token else none
open_input (token ∷ next ∷ rest) =
    let skip_one = open_input (next ∷ rest) in
    let skip_two = open_input rest in
    if text_eq token end_of_options
    then none
    else if not (has_dash token)
    then some token
    else if ltb 1 (first_span open_options_with_values (token ∷ next ∷ rest))
    then skip_two
    else skip_one

abbrev input_of : Option (List Text) → Option Text
input_of none = none
input_of (some []) = none
input_of (some (token ∷ rest)) = if text_eq token (lit "open") then open_input rest else none

pub first_open_input_token : List Text → Option Text
first_open_input_token argv = input_of (command_start argv)

module _ (origin_of : Text → Option Text) where
  pub origin_lane_key : Text → Text
  origin_lane_key input = elim (origin_of input) [
    | some origin ↦ lit "origin:url:" ++ hash_origin_token (to_lower origin)
    | none ↦ lit "origin:urltoken:" ++ hash_origin_token (to_lower input)
  ]

  -- An empty input counts as none.
  pub open_origin_lane_key : List Text → Option Text
  open_origin_lane_key argv = elim (first_open_input_token argv) [
    | none ↦ none
    | some input ↦ if is_blank input then none else some (origin_lane_key input)
  ]

pub control_lane_key : List Text → Text
control_lane_key argv = elim (valid_option_value argv (lit "--agent-id")) [
  | none ↦ default_control_lane_key
  | some agent ↦ lit "control:agent:" ++ hash_origin_token (to_lower agent)
]

abbrev pub or_else {ℓ} : {A : Type ℓ} → Option A → Option A → Option A
or_else none other = other
or_else (some a) other = some a

abbrev pub is_attach : DaemonLaneFamily → Bool
is_attach session_attach = true
is_attach _ = false

abbrev pub is_open : DaemonLaneFamily → Bool
is_open open_page = true
is_open _ = false

abbrev pub opens_or_runs : DaemonLaneFamily → Bool
opens_or_runs open_page = true
opens_or_runs run = true
opens_or_runs _ = false

abbrev pub when_some {ℓ} : {A : Type ℓ} → Bool → Option A → Option A
when_some true o = o
when_some false o = none

abbrev pub only_shared : Option Text → Option Text
only_shared none = none
only_shared (some v) = if text_eq (to_lower v) (lit "shared") then some v else none

abbrev pub lane_of : DaemonLaneFamily → DaemonLaneSource → Text → DaemonLaneResolution
lane_of family source key = record { lane_key = key; source = source; family = family }

-- The cases in the order of the source: session, attach, profile, shared isolation, open, control.
-- The arguments: session, attached origin, profile, shared isolation, lane of an `open`.
pub choose_lane :
    DaemonLaneFamily
    → (session cdp profile shared open_lane : Option Text) → Text
    → DaemonLaneResolution
choose_lane family (some id) cdp profile shared open_lane rest =
    lane_of family session_id (lit "session:" ++ id)
choose_lane family none (some cdp) profile shared open_lane rest =
    lane_of family cdp_origin (lit "origin:" ++ hash_origin_token cdp)
choose_lane family none none (some profile) shared open_lane rest =
    lane_of family cdp_origin (lit "origin:profile:" ++ to_lower profile)
choose_lane family none none none (some shared) open_lane rest =
    lane_of family cdp_origin (lit "origin:shared")
choose_lane family none none none none (some key) rest = lane_of family cdp_origin key
choose_lane family none none none none none rest = lane_of family DaemonLaneSource.control rest

pub resolve_daemon_lane_key :
    List (List Text) → (Text → Option Text) → List Text → DaemonLaneResolution
resolve_daemon_lane_key usages origin_of argv =
    let family = command_family usages argv in
    choose_lane family
      (or_else (valid_option_value argv (lit "--session"))
        (valid_option_value argv (lit "--session-id")))
      (when_some (is_attach family) (valid_option_value argv (lit "--cdp")))
      (when_some (opens_or_runs family) (valid_option_value argv (lit "--profile")))
      (when_some (opens_or_runs family) (only_shared (valid_option_value argv (lit "--isolation"))))
      (when_some (is_open family) (open_origin_lane_key origin_of argv)) (control_lane_key argv)
