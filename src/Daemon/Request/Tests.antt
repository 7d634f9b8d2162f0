-- ===== src/Daemon/Request/Tests.antt =====
-- src/core/daemon/app/worker-request-orchestrator.ts: its theorems at concrete requests. The parser
-- here reads every line as the request to shut down.
use surfwright.Base.{◌≡◌, ◌⊎◌, ◌↔◌, ◌&&◌, true, false, Option, none, some, List, [], Text, lit}
use surfwright.Base.Json.{Json, str, obj, field, done, property}
use surfwright.Daemon.LaneKey.{DaemonLaneResolution}
use surfwright.Daemon.Request.{
  OrchestratedResponse, RunOutcome, other_error, orchestrate_daemon_worker_request,
}
use surfwright.Daemon.Request.Authority.{
  OnRun, Authorized, orchestrate_daemon_worker_request-token,
  orchestrate_daemon_worker_request-shutdown,
}

abbrev commands : List (List Text)
commands = []

abbrev no_url : Text → Option Text
no_url t = none

abbrev parse_stop : Text → Option Json
parse_stop line = some (
    obj (field (lit "token") (str (lit "secret")) (field (lit "kind") (str (lit "shutdown")) done)))

abbrev fails : List Text → DaemonLaneResolution → RunOutcome
fails argv lane = other_error

orchestrate_daemon_worker_request-token_example :
    ((request : Json) × Authorized commands no_url parse_stop
        (lit "secret")
        (parse_stop [])
        request)
    ⊎ ((r : OrchestratedResponse) × ((on_run : OnRun commands no_url parse_stop)
          → orchestrate_daemon_worker_request commands no_url parse_stop on_run (lit "secret") []
            ≡ r)
        × (r.shutdown_after_write ≡ false)
        × (r.schedule_idle_after_write ≡ false))
orchestrate_daemon_worker_request-token_example =
    orchestrate_daemon_worker_request-token commands no_url parse_stop (lit "secret") []

orchestrate_daemon_worker_request-shutdown_example :
    (let r = orchestrate_daemon_worker_request commands no_url parse_stop fails (lit "secret") [] in
      ((r.shutdown_after_write ≡ true) ↔ (
        (request : Json) × Authorized commands no_url parse_stop
          (lit "secret")
          (parse_stop [])
          request
        × (property (lit "kind") request ≡ some (str (lit "shutdown")))))
      × ((r.shutdown_after_write && r.schedule_idle_after_write) ≡ false))
orchestrate_daemon_worker_request-shutdown_example =
    orchestrate_daemon_worker_request-shutdown commands no_url parse_stop fails (lit "secret") []
