-- ===== src/Session/Hygiene/Tests.antt =====
-- src/core/session/domain/hygiene.ts: tests, and its theorems at concrete inputs.
use surfwright.Base.{◌≤◌, ◌≡◌, ◌⊎◌, refl, true, none, some, [], ◌∷◌, length, lit, trim, trim_start}
use surfwright.Session.Hygiene.{
  is_agent_id, normalize_agent_id, agent_id_of, cleaned, trim_boundary_dots_and_dashes,
  drop_boundary, collapse, with_session_heartbeat, has_session_lease_expired,
  with_session_heartbeat_pure, normalize_session_lease_ttl_ms, clamped_ttl,
  session_default_lease_ttl_ms, lease_expiry_iso,
}
use surfwright.Session.Samples.{clock, worker}
use surfwright.Session.Hygiene.AgentId.{normalize_agent_id_stable}

cleans : normalize_agent_id (lit " my agent!! ") ≡ some (lit "my-agent")
unfolding normalize_agent_id agent_id_of cleaned trim_boundary_dots_and_dashes drop_boundary
    collapse trim trim_start
cleans = refl

normalize_agent_id_stable_example :
    ((is_agent_id (lit "my-agent") ≡ true)
      × ((lit "my-agent" ≡ trim (lit " my agent!! ")) ⊎ (length (lit "my-agent") ≤ 64)))
    × (normalize_agent_id (lit "my-agent") ≡ some (lit "my-agent"))
normalize_agent_id_stable_example =
    normalize_agent_id_stable (lit " my agent!! ") (lit "my-agent") cleans

expires :
    has_session_lease_expired clock 90
      (with_session_heartbeat clock 90 none 120000 worker (some (100 ∷ [])))
      60100
    ≡ true
unfolding has_session_lease_expired with_session_heartbeat with_session_heartbeat_pure
    normalize_session_lease_ttl_ms clamped_ttl session_default_lease_ttl_ms lease_expiry_iso
expires = refl
