-- ===== src/State/SessionPrune.antt =====
-- src/core/state/infra/maintenance-session-prune.ts, sessionPruneInternal. The probe of an endpoint,
-- the test of a process, the sort by id and the clock are parameters; the probes run at one time
-- and the change of the state at another. The signals sent are the list `stopped`.
pub mod Effect
pub mod Counts
mod Tests
use surfwright.Base.{
  ℕ, suc, ◌+◌, min, max, String, Bool, true, false, not, ◌&&◌, ◌||◌, ◌≡◌, Option, none, some, List,
  [], ◌∷◌, ◌++◌, map, if◌then◌else◌, leb, ◌==◌, length, Text, lit, text_eq, decimal, lookup, insert,
  erase,
}
use surfwright.Session.Hygiene.{
  SessionKind, managed, attached, SessionState, Calendar, get_or, has_session_lease_expired,
  with_session_heartbeat,
}

abbrev pub cdp_healthcheck_timeout_ms : ℕ
cdp_healthcheck_timeout_ms = 600

abbrev pub session_prune_reachability_timeout_cap_ms : ℕ
session_prune_reachability_timeout_cap_ms = 1500

-- The part of the saved state that is read and written here.
pub record Sessions : Type 0 where
  pub sessions : List (String × SessionState)
  pub active_session_id : Option String

pub record Probe : Type 0 where
  pub fingerprint : Text
  pub reachable : Bool

pub record PruneOptions : Type 0 where
  pub timeout_ms : ℕ
  pub drop_managed_unreachable : Bool
  pub drop_attached_unreachable : Bool

pub record Tally : Type 0 where
  pub by_lease_expired : ℕ
  pub attached_unreachable : ℕ
  pub managed_unreachable : ℕ
  pub managed_by_grace : ℕ
  pub managed_by_flag : ℕ
  pub repaired_managed_pid : ℕ

pub record Applied : Type 0 where
  pub sessions : List (String × SessionState)
  pub tally : Tally
  pub to_stop : List SessionState

pub record Summary : Type 0 where
  pub active_session_id : Option String
  pub scanned : ℕ
  pub kept : ℕ
  pub removed : ℕ
  pub tally : Tally

-- What the code asks of the machine around it.
pub record World : Type 0 where
  pub calendar : Calendar
  pub probe_time : ℕ
  pub now : ℕ
  pub env_owner : Option Text
  pub env_ttl : ℕ
  pub is_cdp_endpoint_alive : Text → ℕ → Bool
  pub process_exists : ℕ → Bool
  pub sort_by_id : List SessionState → List SessionState

abbrev kind_text : SessionKind → Text
kind_text managed = lit "managed"
kind_text attached = lit "attached"

abbrev number_text : Option ℕ → Text
number_text none = []
number_text (some n) = decimal n

join : List Text → Text
join [] = []
join (t ∷ []) = t
join (t ∷ u ∷ ts) = t ++ (b'|' ∷ join (u ∷ ts))

unfoldable pub session_fingerprint : SessionState → Text
unfolding join
session_fingerprint session = join (
    kind_text session.kind
    ∷ session.cdp_origin
    ∷ number_text session.debug_port
    ∷ get_or session.user_data_dir []
    ∷ number_text session.browser_pid
    ∷ session.last_seen_at
    ∷ [])

unfoldable pub reachability_timeout : ℕ → ℕ
reachability_timeout timeout =
    max cdp_healthcheck_timeout_ms (min timeout session_prune_reachability_timeout_cap_ms)

abbrev empty_tally : Tally
empty_tally = record {
  by_lease_expired = 0;
  attached_unreachable = 0;
  managed_unreachable = 0;
  managed_by_grace = 0;
  managed_by_flag = 0;
  repaired_managed_pid = 0;
}

-- `removed` of the summary.
abbrev pub removed_of : Tally → ℕ
removed_of t = t.by_lease_expired + t.attached_unreachable + t.managed_unreachable

module _ (world : World) where
  open world use {
    calendar, probe_time, now, env_owner, env_ttl, is_cdp_endpoint_alive, process_exists,
    sort_by_id,
  }

  unfoldable pub pid_is_alive : Option ℕ → Bool
  pid_is_alive none = false
  pid_is_alive (some pid) = if leb pid 0 then false else process_exists pid

  abbrev probe_of : ℕ → SessionState → Probe
  probe_of timeout session = record {
    fingerprint = session_fingerprint session;
    reachable = is_cdp_endpoint_alive session.cdp_origin (max cdp_healthcheck_timeout_ms timeout);
  }

  -- The first loop: an expired session is not probed.
  unfoldable pub probe_all : ℕ → List SessionState → List (String × Probe) → List (String × Probe)
  probe_all timeout [] probes = probes
  probe_all timeout (session ∷ rest) probes = probe_all timeout rest (
      if has_session_lease_expired calendar probe_time session probe_time
      then probes
      else insert session.session_id (probe_of timeout session) probes)

  abbrev changed : Option Probe → SessionState → Bool
  changed none session = false
  changed (some probe) session = not (text_eq probe.fingerprint (session_fingerprint session))

  abbrev stop_if_managed : SessionState → List SessionState → List SessionState
  stop_if_managed session to_stop = elim session.kind [
    | managed ↦ to_stop ++ (session ∷ [])
    | attached ↦ to_stop
  ]

  abbrev remove_expired : Applied → String → SessionState → Applied
  remove_expired a id session = record a {
    sessions = erase id a.sessions;
    tally = record a.tally { by_lease_expired = suc a.tally.by_lease_expired };
    to_stop = stop_if_managed session a.to_stop;
  }

  abbrev remove_attached : Applied → String → Applied
  remove_attached a id = record a {
    sessions = erase id a.sessions;
    tally = record a.tally { attached_unreachable = suc a.tally.attached_unreachable };
  }

  -- `browserPid: null` where the process is gone.
  abbrev has_pid : Option ℕ → Bool
  has_pid none = false
  has_pid (some pid) = true

  abbrev repairs : SessionState → Bool
  repairs session = not (pid_is_alive session.browser_pid) && has_pid session.browser_pid

  abbrev repair_pid : Applied → String → SessionState → Applied
  repair_pid a id session =
      if repairs session
      then record a {
        sessions = insert id (record session { browser_pid = none }) a.sessions;
        tally = record a.tally { repaired_managed_pid = suc a.tally.repaired_managed_pid };
      }
      else a

  abbrev suspected : SessionState → SessionState
  suspected session = record session {
    managed_unreachable_since =
        some (get_or session.managed_unreachable_since (calendar.to_iso now));
    managed_unreachable_count = suc session.managed_unreachable_count;
  }

  -- `{ ...state.sessions[sessionId], ... }`, of what `repair_pid` has left there.
  abbrev suspect : Applied → String → SessionState → Applied
  suspect a id session = record a {
    sessions = insert id (suspected (get_or (lookup id a.sessions) session)) a.sessions;
  }

  abbrev drop_managed : PruneOptions → Applied → String → SessionState → Applied
  drop_managed options a id session = record a {
    sessions = erase id a.sessions;
    tally = record a.tally {
      managed_unreachable = suc a.tally.managed_unreachable;
      managed_by_grace =
          a.tally.managed_by_grace + (if options.drop_managed_unreachable then 0 else 1);
      managed_by_flag =
          a.tally.managed_by_flag + (if options.drop_managed_unreachable then 1 else 0);
    };
    to_stop = a.to_stop ++ (session ∷ []);
  }

  abbrev should_drop : PruneOptions → SessionState → Bool
  should_drop options session =
      options.drop_managed_unreachable || leb 2 (suc session.managed_unreachable_count)

  unreachable : PruneOptions → Applied → String → SessionState → SessionKind → Applied
  unreachable options a id session attached =
      if options.drop_attached_unreachable then remove_attached a id else a
  unreachable options a id session managed =
      if should_drop options session
      then drop_managed options (repair_pid a id session) id session
      else suspect (repair_pid a id session) id session

  abbrev keep_alive : Applied → String → SessionState → Applied
  keep_alive a id session = record a {
    sessions =
        insert id (with_session_heartbeat calendar now env_owner env_ttl session none) a.sessions;
  }

  by_probe : PruneOptions → Option Probe → Applied → String → SessionState → Applied
  by_probe options none a id session = a
  by_probe options (some probe) a id session =
      if probe.reachable
      then keep_alive a id session
      else unreachable options a id session session.kind

  visit : PruneOptions → Option Probe → Applied → String → Option SessionState → Applied
  visit options probe a id none = a
  visit options probe a id (some session) =
      if changed probe session
      then a
      else if has_session_lease_expired calendar now session now
      then remove_expired a id session
      else by_probe options probe a id session

  -- The second loop, on the state as it is by then.
  unfoldable pub prune_loop : PruneOptions → List (String × Probe) → List String → Applied → Applied
  unfolding visit by_probe unreachable
  prune_loop options probes [] a = a
  prune_loop options probes (id ∷ ids) a =
      prune_loop options probes ids (visit options (lookup id probes) a id (lookup id a.sessions))

  unfoldable pub active_of : Option String → List (String × SessionState) → Option String
  active_of none sessions = none
  active_of (some id) sessions = elim (lookup id sessions) [ none ↦ none | some session ↦ some id ]

  -- stopManagedSessionProcess, by the process that gets a SIGTERM.
  abbrev stop_signal : SessionState → List ℕ
  stop_signal session = elim session.kind [
    | attached ↦ []
    | managed ↦
        if pid_is_alive session.browser_pid
        then elim session.browser_pid [ none ↦ [] | some pid ↦ pid ∷ [] ]
        else []
  ]

  stop_signals : List SessionState → List ℕ
  stop_signals [] = []
  stop_signals (session ∷ rest) = stop_signal session ++ stop_signals rest

  abbrev values : List (String × SessionState) → List SessionState
  values [] = []
  values ((id, session) ∷ rest) = session ∷ values rest

  abbrev summary_of : ℕ → Option String → Applied → Summary
  summary_of scanned active a = record {
    active_session_id = active;
    scanned = scanned;
    kept = length a.sessions;
    removed = removed_of a.tally;
    tally = a.tally;
  }

  abbrev snapshot_sessions : Sessions → List SessionState
  snapshot_sessions snapshot = sort_by_id (values snapshot.sessions)

  abbrev pub snapshot_ids : Sessions → List String
  snapshot_ids snapshot =
      map (λ (session : SessionState). session.session_id) (snapshot_sessions snapshot)

  abbrev pub probes_of : PruneOptions → Sessions → List (String × Probe)
  probes_of options snapshot =
      probe_all (reachability_timeout options.timeout_ms) (snapshot_sessions snapshot) []

  -- The state that is read first, and the state that is then changed: the change, the summary and
  -- the signals.
  unfoldable pub session_prune_internal :
      PruneOptions → Sessions → Sessions → Sessions × Summary × List ℕ
  unfolding stop_signals
  session_prune_internal options snapshot state =
      let probes = probes_of options snapshot in
      let ids = snapshot_ids snapshot in
      let start : Applied = record {
        sessions = state.sessions;
        tally = empty_tally;
        to_stop = [];
      } in
      let a = prune_loop options probes ids start in
      let active = active_of state.active_session_id a.sessions in
      let after : Sessions = record { sessions = a.sessions; active_session_id = active } in
      (after, summary_of (length ids) active a, stop_signals a.to_stop)
