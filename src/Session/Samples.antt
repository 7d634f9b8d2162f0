-- ===== src/Session/Samples.antt =====
-- What the tests share: a clock that writes a time as the one character of its number, and a session.
use surfwright.Base.{ℕ, refl, Option, none, some, [], ◌∷◌, Text, lit}
use surfwright.Session.Hygiene.{Calendar, SessionState, managed, persistent, headless}

abbrev parse_clock : Text → Option ℕ
parse_clock [] = none
parse_clock (c ∷ t) = some c

abbrev pub clock : Calendar
clock = record {
  parse = parse_clock;
  to_iso = λ t. t ∷ [];
  parse-empty = refl;
  parse-to_iso = λ t h. refl;
}

abbrev pub worker : SessionState
worker = record {
  session_id = "s-1";
  kind = managed;
  policy = persistent;
  browser_mode = headless;
  cdp_origin = lit "http://127.0.0.1:9222";
  debug_port = some 9222;
  user_data_dir = some (lit "/profiles/s-1");
  profile = none;
  browser_executable_path = none;
  browser_pid = some 77;
  owner_id = none;
  lease_expires_at = none;
  lease_ttl_ms = some 5;
  managed_unreachable_since = some (3 ∷ []);
  managed_unreachable_count = 1;
  extension_set_fingerprint = none;
  applied_extensions = [];
  created_at = 1 ∷ [];
  last_seen_at = 2 ∷ [];
}
