-- ===== src/Daemon/LaneKey/Tests.antt =====
-- src/core/daemon/domain/lane-key-resolver.ts: tests, and the theorems at concrete arguments.
use surfwright.Base.{
  ◌<◌, ◌^◌, ◌≡◌, ◌↔◌, refl, true, Option, none, some, List, [], ◌∷◌, length, Text, lit, text_eq,
  starts_with, trim, trim_start,
}
use surfwright.Cli.Options.{parse_global_option_value}
use surfwright.Daemon.LaneKey.{
  session_id, hash_word, hash_origin_token, valid_option_value, first_open_input_token,
  resolve_daemon_lane_key,
}
use surfwright.Daemon.LaneKey.Hash.{hex_value, hash_origin_token_digits}
use surfwright.Daemon.LaneKey.Sources.{
  prefix_of, resolve_daemon_lane_key_prefix, resolve_daemon_lane_key_disjoint,
  resolve_daemon_lane_key_session,
}
use surfwright.Daemon.LaneKey.OpenInput.{first_open_input_token-agent_id}

abbrev commands : List (List Text)
commands = (lit "open" ∷ []) ∷ (lit "target" ∷ []) ∷ []

abbrev no_url : Text → Option Text
no_url t = none

abbrev in_session : List Text
in_session = lit "target" ∷ lit "--session" ∷ lit "s-1" ∷ []

abbrev opens : List Text
opens = lit "open" ∷ lit "example" ∷ []

hash_origin_token_digits_example :
    (length (hash_origin_token (lit "a")) ≡ 8)
    × (hex_value 0 (hash_origin_token (lit "a")) ≡ hash_word 2166136261 (lit "a"))
    × (hash_word 2166136261 (lit "a") < 2 ^ 32)
    × ((hash_origin_token (lit "a") ≡ hash_origin_token (lit "b"))
        ↔ (hash_word 2166136261 (lit "a") ≡ hash_word 2166136261 (lit "b")))
hash_origin_token_digits_example = hash_origin_token_digits (lit "a") (lit "b")

resolve_daemon_lane_key_prefix_example :
    starts_with
      (prefix_of (resolve_daemon_lane_key commands no_url opens).source)
      (resolve_daemon_lane_key commands no_url opens).lane_key
    ≡ true
resolve_daemon_lane_key_prefix_example = resolve_daemon_lane_key_prefix commands no_url opens

resolve_daemon_lane_key_disjoint_example :
    (resolve_daemon_lane_key commands no_url in_session).source
    ≡ (resolve_daemon_lane_key commands no_url in_session).source
resolve_daemon_lane_key_disjoint_example =
    resolve_daemon_lane_key_disjoint commands no_url in_session in_session refl

named : valid_option_value in_session (lit "--session") ≡ some (lit "s-1")
unfolding valid_option_value parse_global_option_value text_eq starts_with trim trim_start
named = refl

resolve_daemon_lane_key_session_example :
    (((resolve_daemon_lane_key commands no_url in_session).lane_key
        ≡ (resolve_daemon_lane_key commands no_url in_session).lane_key)
      ↔ (lit "s-1" ≡ lit "s-1"))
    × ((resolve_daemon_lane_key commands no_url in_session).source ≡ session_id)
    × ((other : List Text)
        → ¬ ((resolve_daemon_lane_key commands no_url other).source ≡ session_id)
        → ¬ (
            (resolve_daemon_lane_key commands no_url in_session).lane_key
            ≡ (resolve_daemon_lane_key commands no_url other).lane_key))
resolve_daemon_lane_key_session_example =
    resolve_daemon_lane_key_session commands no_url in_session in_session (lit "s-1") (lit "s-1")
      named named

first_open_input_token-agent_id_example :
    first_open_input_token
      (lit "open" ∷ lit "--agent-id" ∷ lit "bot" ∷ lit "https://example.com" ∷ [])
    ≡ some (lit "bot")
unfolding starts_with
first_open_input_token-agent_id_example =
    first_open_input_token-agent_id (lit "bot") (lit "https://example.com" ∷ []) refl
