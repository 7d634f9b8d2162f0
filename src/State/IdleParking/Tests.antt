-- ===== src/State/IdleParking/Tests.antt =====
-- src/core/state/infra/session-idle-parking.ts: tests, and its theorems at concrete inputs.
use surfwright.Base.{
  String, true, false, not, ◌==◌, ◌≡◌, refl, none, some, List, [], ◌∷◌, All, lookup,
}
use surfwright.Base.Json.{finite}
use surfwright.Session.Hygiene.{SessionState, attached}
use surfwright.Session.Samples.{clock, worker}
use surfwright.State.DiskOptions.{ok}
use surfwright.State.DiskEntries.{sort, place}
use surfwright.State.IdleParking.{
  Machine, Config, sigterm, sigkill, park_idle, session_park_idle_managed_processes,
  parse_idle_managed_process_config, parse_optional_positive_int_in_range, scan_all, scan_session,
  shut_down, stop_managed_session_process_strict, process, process_group,
  kill_managed_browser_process_tree, sort_by_id,
}
use surfwright.State.IdleParking.Counts.{Counted, session_park_idle_managed_processes-counts}
use surfwright.State.IdleParking.Signals.{Idle, park_idle-signals}
use surfwright.State.IdleParking.Parking.{Kept, park_idle-Kept}

-- Process 77 ignores the first signal and ends by the second.
abbrev machine : Machine
machine = record {
  calendar = clock;
  now = 3600000;
  exists_at_scan = λ pid. true;
  exists_at_end = λ pid. not (pid == 77);
  polls = λ session. record {
    first = true;
    grace = true ∷ true ∷ [];
    after_grace = true;
    after_kill = true ∷ false ∷ [];
    last = false;
  };
  windows = false;
  locale_less = λ a b. false;
}

abbrev sessions : List (String × SessionState)
sessions = ("s-1", worker) ∷ ("s-2", record worker { session_id = "s-2"; kind = attached }) ∷ []

abbrev config : Config
config = record { idle_ttl_ms = 60000; sweep_cap = 6 }

sends_both :
    (park_idle machine config sessions sessions).shutdowns.signals
    ≡ (process_group 77, sigterm)
      ∷ (process 77, sigterm)
      ∷ (process_group 77, sigkill)
      ∷ (process 77, sigkill)
      ∷ []
unfolding park_idle scan_all scan_session shut_down stop_managed_session_process_strict
    kill_managed_browser_process_tree sort_by_id sort place
sends_both = refl

is_accepted :
    session_park_idle_managed_processes machine (some (finite 60000 true)) none sessions sessions
    ≡ ok (park_idle machine config sessions sessions)
unfolding session_park_idle_managed_processes parse_idle_managed_process_config
    parse_optional_positive_int_in_range
is_accepted = refl

session_park_idle_managed_processes-counts_example :
    Counted machine sessions (park_idle machine config sessions sessions)
session_park_idle_managed_processes-counts_example =
    session_park_idle_managed_processes-counts machine (some (finite 60000 true)) none sessions
      sessions (park_idle machine config sessions sessions) is_accepted

park_idle-signals_example :
    All
      (Idle machine config (worker ∷ record worker { session_id = "s-2"; kind = attached } ∷ []))
      (park_idle machine config sessions sessions).shutdowns.signals
park_idle-signals_example = park_idle-signals machine config sessions sessions

park_idle-Kept_example :
    Kept machine
      (lookup "s-1" sessions)
      (lookup "s-1" (park_idle machine config sessions sessions).parked.sessions)
park_idle-Kept_example = park_idle-Kept machine config sessions sessions "s-1"
