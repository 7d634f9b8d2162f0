-- ===== src/Session/Normalize/Tests.antt =====
-- src/core/session/app/state-normalizer.ts, its theorem at a concrete value.
use surfwright.Base.{ℕ, ◌≡◌, refl, none, some, arith, lit, text_eq}
use surfwright.Base.Json.{Json, str, obj, field, done, property, filled_text, get_field}
use surfwright.Session.Hygiene.{SessionState, attached}
use surfwright.Session.Hygiene.Lease.{Bounded}
use surfwright.Session.Samples.{clock}
use surfwright.Session.Normalize.{Defaults, normalize_session_state, session_of}
use surfwright.Session.Normalize.Shape.{OfKind, normalize_session_state-shape}

abbrev defaults : Defaults
defaults = record {
  default_user_data_dir = λ id. lit "/profiles";
  infer_debug_port = λ origin. none;
  agent_id = none;
  env_ttl = 120000;
}

abbrev saved : Json
saved = obj (
    field (lit "kind") (str (lit "attached")) (field (lit "cdpOrigin") (str (lit "http://h")) done))

abbrev session : SessionState
session = session_of clock 5 defaults "s-1" saved (lit "http://h") attached

normalize_session_state-shape_example :
    (session.session_id ≡ "s-1")
    × (filled_text (property (lit "cdpOrigin") saved) ≡ some session.cdp_origin)
    × OfKind session.kind session
    × ((ttl : ℕ) × (session.lease_ttl_ms ≡ some ttl) × Bounded ttl)
unfolding normalize_session_state session_of get_field text_eq
normalize_session_state-shape_example =
    normalize_session_state-shape clock 5 defaults "s-1" saved session (omega arith, omega arith)
      refl
