-- ===== src/Session/Hygiene/Lease.antt =====
-- src/core/session/domain/hygiene.ts and app/hygiene.ts: what a heartbeat gives a session, and when
-- its lease ends.
use surfwright.Base.{ℕ, ◌≤◌, ◌≡◌, Option, some, arith, Text, Option-cases, inl, inr}
use surfwright.Base.Json.{Number, finite, negative, not_finite}
use surfwright.Session.Hygiene.{
  min_session_lease_ttl_ms, max_session_lease_ttl_ms, SessionPolicy, ephemeral, persistent,
  Calendar, clamped_ttl, normalize_session_lease_ttl_ms, session_default_lease_ttl_ms, get_or,
  observed_time,
}

-- A time to live within the limits.
abbrev pub Bounded : ℕ → Type 0
Bounded ttl = (min_session_lease_ttl_ms ≤ ttl) × (ttl ≤ max_session_lease_ttl_ms)

clamped_ttl-Bounded : (n ttl : ℕ) → clamped_ttl n ≡ some ttl → Bounded ttl
unfolding clamped_ttl
clamped_ttl-Bounded n ttl e = ground arith

pub normalize_session_lease_ttl_ms-Bounded :
    (n : Number) (d : ℕ) → Bounded d → Bounded (get_or (normalize_session_lease_ttl_ms n) d)
unfolding normalize_session_lease_ttl_ms
normalize_session_lease_ttl_ms-Bounded (finite n exact) d h = elim (Option-cases (clamped_ttl n)) [
  | inl e ↦ rw e h
  | inr (ttl, e) ↦ rw e (clamped_ttl-Bounded n ttl e)
]
normalize_session_lease_ttl_ms-Bounded negative d h = h
normalize_session_lease_ttl_ms-Bounded not_finite d h = h

pub session_default_lease_ttl_ms-Bounded :
    (env_ttl : ℕ) (policy : SessionPolicy)
    → Bounded env_ttl
    → Bounded (session_default_lease_ttl_ms env_ttl policy)
unfolding session_default_lease_ttl_ms
session_default_lease_ttl_ms-Bounded env_ttl ephemeral h = ground arith
session_default_lease_ttl_ms-Bounded env_ttl persistent h = ground arith

module _ (calendar : Calendar) where
  open calendar use {parse, to_iso, parse-empty, parse-to_iso}

  -- The moment from which a lease counts: the time observed, where it parses, or that of the call.
  abbrev pub anchor : ℕ → Option Text → ℕ
  anchor now observed = get_or (parse (observed_time calendar now observed)) now
