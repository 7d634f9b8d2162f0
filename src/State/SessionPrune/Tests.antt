-- ===== src/State/SessionPrune/Tests.antt =====
-- src/core/state/infra/maintenance-session-prune.ts, its theorems at a state with one session, whose
-- endpoint answers no probe and which missed one before.
use surfwright.Base.{
  ◌+◌, ◌≡◌, refl, true, false, none, some, [], ◌∷◌, length, lookup, if◌then◌else◌, text_eq, insert,
  erase, decimal,
}
use surfwright.Session.Hygiene.{has_session_lease_expired}
use surfwright.Session.Samples.{clock, worker}
use surfwright.State.SessionPrune.{
  World, Sessions, PruneOptions, session_prune_internal, snapshot_ids, probes_of, active_of,
  prune_loop, visit, by_probe, unreachable, probe_all, pid_is_alive, session_fingerprint, join,
  reachability_timeout, stop_signals,
}
use surfwright.State.SessionPrune.Effect.{verdict, listed, session_prune_internal-verdict}
use surfwright.State.SessionPrune.Counts.{session_prune_internal-summary}

abbrev world : World
world = record {
  calendar = clock;
  probe_time = 10;
  now = 11;
  env_owner = none;
  env_ttl = 120000;
  is_cdp_endpoint_alive = λ origin timeout. false;
  process_exists = λ pid. true;
  sort_by_id = λ sessions. sessions;
}

abbrev options : PruneOptions
options = record {
  timeout_ms = 1000;
  drop_managed_unreachable = false;
  drop_attached_unreachable = false;
}

abbrev one_session : Sessions
one_session = record { sessions = ("s-1", worker) ∷ []; active_session_id = some "s-1" }

-- The second missed probe removes the session, and its process gets the signal.
removes :
    ((session_prune_internal world options one_session one_session).0.sessions ≡ [])
    × ((session_prune_internal world options one_session one_session).2 ≡ 77 ∷ [])
unfolding session_prune_internal prune_loop visit by_probe unreachable probe_all pid_is_alive
    session_fingerprint join reachability_timeout stop_signals has_session_lease_expired lookup
    insert erase text_eq decimal
removes = (refl, refl)

session_prune_internal-verdict_example :
    (let after = (session_prune_internal world options one_session one_session).0 in
      let probes = probes_of world options one_session in
      (lookup "s-1" after.sessions ≡ (
        if listed world options "s-1" (snapshot_ids world one_session)
        then verdict world options (lookup "s-1" probes) (lookup "s-1" one_session.sessions)
        else lookup "s-1" one_session.sessions))
      × (after.active_session_id ≡ active_of world one_session.active_session_id after.sessions))
unfolding lookup
session_prune_internal-verdict_example =
    session_prune_internal-verdict world options one_session one_session "s-1" (refl, tt) (refl, tt)

session_prune_internal-summary_example :
    (let (after, summary, signals) = session_prune_internal world options one_session one_session in
      (summary.kept + summary.removed ≡ length one_session.sessions)
      × (summary.kept ≡ length after.sessions)
      × (summary.tally.managed_unreachable
          ≡ summary.tally.managed_by_grace + summary.tally.managed_by_flag))
session_prune_internal-summary_example =
    session_prune_internal-summary world options one_session one_session
