-- ===== src/Daemon/LaneKey/OpenInput.antt =====
-- The input of an `open`, where a global option stands behind the command.
use surfwright.Base.{
  inl, inr, Bool-cases, false, not, ◌≡◌, refl, some, List, [], ◌∷◌, if◌then◌else◌, Text, lit,
  text_eq, starts_with, ap, ◌∙◌, text_eq-true,
}
use surfwright.Cli.Options.{has_dash, end_of_options, parse_option_token_span, first_span}
use surfwright.Daemon.LaneKey.{
  open_options_with_values, open_input, command_start, input_of, first_open_input_token,
}

dash_free-word : (token : Text) → has_dash token ≡ false → text_eq token end_of_options ≡ false
unfolding starts_with
dash_free-word token h = elim (Bool-cases (text_eq token end_of_options)) [
  | inr e ↦ e
  | inl e ↦
      let same = text_eq-true token end_of_options e in
      absurd (let no : ⊥ = cc (ap has_dash same) in no)
]

-- The first argument with no dash is the input.
open_input_word :
    (token : Text) (rest : List Text)
    → has_dash token ≡ false
    → open_input (token ∷ rest) ≡ some token
unfolding open_input
open_input_word token [] h = rw (dash_free-word token h, if◌then◌else◌) (rw (h, not) refl)
open_input_word token (next ∷ rest) h =
    rw (dash_free-word token h, if◌then◌else◌) (rw (h, not) refl)

-- `--agent-id` is not among the options whose values an `open` skips.
agent_id_span :
    (agent : Text) (rest : List Text)
    → first_span open_options_with_values (lit "--agent-id" ∷ agent ∷ rest) ≡ 0
unfolding first_span parse_option_token_span text_eq starts_with
agent_id_span agent rest = refl

open_input-agent_id :
    (agent : Text) (rest : List Text)
    → open_input (lit "--agent-id" ∷ agent ∷ rest) ≡ open_input (agent ∷ rest)
unfolding open_input text_eq starts_with
open_input-agent_id agent rest = rw (agent_id_span agent rest) refl

open_start :
    (next : Text) (rest : List Text)
    → command_start (lit "open" ∷ next ∷ rest) ≡ some (lit "open" ∷ next ∷ rest)
unfolding command_start first_span parse_option_token_span text_eq starts_with
open_start next rest = refl

-- Where `--agent-id` stands directly behind `open`, its value, if it begins with no dash, is
-- taken for the input of the `open`, whatever page and options follow it.
pub first_open_input_token-agent_id :
    (agent : Text) (rest : List Text)
    → has_dash agent ≡ false
    → first_open_input_token (lit "open" ∷ lit "--agent-id" ∷ agent ∷ rest) ≡ some agent
unfolding first_open_input_token text_eq
first_open_input_token-agent_id agent rest h =
    ap input_of (open_start (lit "--agent-id") (agent ∷ rest))
    ∙ open_input-agent_id agent rest
    ∙ open_input_word agent rest h
