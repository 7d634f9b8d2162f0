-- ===== src/State/IdleParking.antt =====
-- src/core/state/infra/session-idle-parking.ts, and killManagedBrowserProcessTree of
-- src/core/browser.ts. The clock, the platform, the order of ids and the answers of the probes of
-- processes are parameters: one answer per process at the scan and one when the state changes, and for
-- each session that is stopped the answers of its polls. The signals sent are part of the result.
pub mod Signals
pub mod Counts
pub mod Parking
pub mod Order
mod Tests
use surfwright.Base.{
  ℕ, suc, ◌+◌, ◌*◌, String, Bool, true, false, not, ◌&&◌, ◌||◌, Option, none, some, List, [], ◌∷◌,
  ◌++◌, any, map, if◌then◌else◌, ltb, leb, length, lookup, insert, str_eq, keep,
}
use surfwright.Session.Hygiene.{SessionKind, managed, attached, SessionState, Calendar}
use surfwright.Base.Json.{Number, finite, negative, not_finite}
use surfwright.State.DiskEntries.{sort}
use surfwright.State.DiskOptions.{Parsed, ok, query_invalid, ◌>>=◌}

abbrev pub default_idle_managed_process_ttl_ms : ℕ
default_idle_managed_process_ttl_ms = 30 * 60 * 1000

abbrev pub min_idle_managed_process_ttl_ms : ℕ
min_idle_managed_process_ttl_ms = 60 * 1000

abbrev pub max_idle_managed_process_ttl_ms : ℕ
max_idle_managed_process_ttl_ms = 30 * 24 * 60 * 60 * 1000

abbrev pub default_idle_managed_process_sweep_cap : ℕ
default_idle_managed_process_sweep_cap = 6

abbrev pub max_idle_managed_process_sweep_cap : ℕ
max_idle_managed_process_sweep_cap = 200

pub data Signal : Type 0 where
  sigterm sigkill : Signal

-- What a signal is sent to: a process, or the group that it leads, of which the number is negative.
pub data Target : Type 0 where
  process process_group : ℕ → Target

-- What the probes of one process answer: the first, those of the grace period, one behind it, those
-- behind the kill, and the last.
pub record Polls : Type 0 where
  pub first : Bool
  pub grace : List Bool
  pub after_grace : Bool
  pub after_kill : List Bool
  pub last : Bool

pub record Machine : Type 0 where
  pub calendar : Calendar
  pub now : ℕ
  pub exists_at_scan : ℕ → Bool
  pub exists_at_end : ℕ → Bool
  pub polls : SessionState → Polls
  pub windows : Bool
  pub locale_less : String → String → Bool

pub record Config : Type 0 where
  pub idle_ttl_ms : ℕ
  pub sweep_cap : ℕ

pub record Scan : Type 0 where
  pub scanned_managed : ℕ
  pub idle_eligible : ℕ
  pub candidates : List SessionState

pub record Shutdowns : Type 0 where
  pub requested : ℕ
  pub succeeded : ℕ
  pub failed : ℕ
  pub signals : List (Target × Signal)

pub record Parked : Type 0 where
  pub sessions : List (String × SessionState)
  pub count : ℕ

pub record ParkResult : Type 0 where
  pub config : Config
  pub scan : Scan
  pub shutdowns : Shutdowns
  pub parked : Parked

-- `pidIsAlive`.
abbrev pub alive_by : (ℕ → Bool) → Option ℕ → Bool
alive_by process_exists none = false
alive_by process_exists (some pid) = not (leb pid 0) && process_exists pid

-- A poll loop ends where an answer is no.
abbrev pub found_dead : List Bool → Bool
found_dead = any not

-- Off Windows the group first, so that the processes that the browser has started end with it.
unfoldable pub kill_managed_browser_process_tree : Bool → ℕ → Signal → List (Target × Signal)
kill_managed_browser_process_tree windows pid signal =
    if leb pid 0
    then []
    else if windows
    then (process pid, signal) ∷ []
    else (process_group pid, signal) ∷ (process pid, signal) ∷ []

abbrev stop_running : Bool → ℕ → Polls → Bool × List (Target × Signal)
stop_running windows pid polls =
    if found_dead polls.grace || not polls.after_grace
    then (true, kill_managed_browser_process_tree windows pid sigterm)
    else (
      found_dead polls.after_kill || not polls.last,
      kill_managed_browser_process_tree windows pid sigterm
          ++ kill_managed_browser_process_tree windows pid sigkill,
    )

-- Whether the process has stopped, and the signals that it was sent.
unfoldable pub stop_managed_session_process_strict :
    Bool → Option ℕ → Polls → Bool × List (Target × Signal)
stop_managed_session_process_strict windows none polls = (true, [])
stop_managed_session_process_strict windows (some pid) polls =
    if not (leb pid 0) && polls.first then stop_running windows pid polls else (true, [])

unfoldable pub parse_optional_positive_int_in_range : Option Number → String → ℕ → ℕ → ℕ → Parsed ℕ
parse_optional_positive_int_in_range none name low high fallback = ok fallback
parse_optional_positive_int_in_range (some (finite n exact)) name low high fallback =
    if not exact || ltb n low || ltb high n then query_invalid name low high else ok n
parse_optional_positive_int_in_range (some _) name low high fallback = query_invalid name low high

unfoldable pub parse_idle_managed_process_config : Option Number → Option Number → Parsed Config
parse_idle_managed_process_config idle_ttl_ms sweep_cap = do
  ttl ←
      parse_optional_positive_int_in_range idle_ttl_ms "idle-ttl-ms" min_idle_managed_process_ttl_ms
        max_idle_managed_process_ttl_ms default_idle_managed_process_ttl_ms
  cap ←
      parse_optional_positive_int_in_range sweep_cap "sweep-cap" 1
        max_idle_managed_process_sweep_cap default_idle_managed_process_sweep_cap
  ok record { idle_ttl_ms = ttl; sweep_cap = cap }

-- `new Set`: of ids alike the first.
abbrev pub set_of : List String → List String → List String
set_of [] set = set
set_of (id ∷ ids) set = set_of ids (if any (str_eq id) set then set else set ++ (id ∷ []))

abbrev pub is_managed : SessionKind → Bool
is_managed managed = true
is_managed attached = false

module _ (machine : Machine) where
  open machine use {calendar, now, exists_at_scan, exists_at_end, polls, windows, locale_less}

  -- Seen at a time that is known, and not since the idle time began.
  abbrev pub idle_at : Config → Option ℕ → Bool
  idle_at config none = false
  idle_at config (some last_seen) = not (ltb now (last_seen + config.idle_ttl_ms))

  abbrev pub is_eligible : Config → SessionState → Bool
  is_eligible config session =
      idle_at config (calendar.parse session.last_seen_at)
      && alive_by exists_at_scan session.browser_pid

  abbrev add_candidate : Config → SessionState → List SessionState → List SessionState
  add_candidate config session candidates =
      if ltb (length candidates) config.sweep_cap then candidates ++ (session ∷ []) else candidates

  unfoldable pub scan_session : Config → SessionState → Scan → Scan
  scan_session config session s =
      let counted : Scan = record s { scanned_managed = suc s.scanned_managed } in
      if is_managed session.kind
      then if is_eligible config session
        then record counted {
          idle_eligible = suc s.idle_eligible;
          candidates = add_candidate config session s.candidates;
        }
        else counted
      else s

  unfoldable pub scan_all : Config → List SessionState → Scan → Scan
  scan_all config [] s = s
  scan_all config (session ∷ sessions) s = scan_all config sessions (scan_session config session s)

  unfoldable pub shut_down : List SessionState → Shutdowns → Shutdowns
  shut_down [] s = s
  shut_down (session ∷ sessions) s =
      let (stopped, sent) =
        stop_managed_session_process_strict windows session.browser_pid (polls session) in
      shut_down sessions record {
        requested = suc s.requested;
        succeeded = if stopped then suc s.succeeded else s.succeeded;
        failed = if stopped then s.failed else suc s.failed;
        signals = s.signals ++ sent;
      }

  -- A session whose process has ended keeps no number of one.
  unfoldable pub park : String → Option SessionState → Parked → Parked
  park session_id none p = p
  park session_id (some session) p =
      if not (is_managed session.kind) || alive_by exists_at_end session.browser_pid
      then p
      else elim session.browser_pid [
        | none ↦ p
        | some pid ↦ record {
          sessions = insert session_id (record session { browser_pid = none }) p.sessions;
          count = suc p.count;
        }
      ]

  unfoldable pub park_all : List String → Parked → Parked
  park_all [] p = p
  park_all (session_id ∷ ids) p = park_all ids (park session_id (lookup session_id p.sessions) p)

  abbrev by_id : SessionState → SessionState → Bool
  by_id a b = locale_less a.session_id b.session_id

  -- The sessions of a state by their ids.
  unfoldable pub sort_by_id : List (String × SessionState) → List SessionState
  sort_by_id snapshot = sort by_id (map (λ (e : String × SessionState). e.1) snapshot)

  abbrev pub scan_of : Config → List (String × SessionState) → Scan
  scan_of config snapshot =
      scan_all config (sort_by_id snapshot)
        record { scanned_managed = 0; idle_eligible = 0; candidates = [] }

  -- With the sessions as they are read at first, and as they are when the state is changed.
  unfoldable pub park_idle :
      Config → List (String × SessionState) → List (String × SessionState) → ParkResult
  park_idle config snapshot current =
      let scan = scan_of config snapshot in
      record {
        config = config;
        scan = scan;
        shutdowns =
            shut_down scan.candidates
              record { requested = 0; succeeded = 0; failed = 0; signals = [] };
        parked =
            park_all (set_of (map (λ (s : SessionState). s.session_id) scan.candidates) [])
              record { sessions = current; count = 0 };
      }

  unfoldable pub session_park_idle_managed_processes :
      Option Number
      → Option Number
      → List (String × SessionState)
      → List (String × SessionState)
      → Parsed ParkResult
  session_park_idle_managed_processes idle_ttl_ms sweep_cap snapshot current = do
    config ← parse_idle_managed_process_config idle_ttl_ms sweep_cap
    ok (park_idle config snapshot current)
