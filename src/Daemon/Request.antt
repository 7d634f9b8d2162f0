-- ===== src/Daemon/Request.antt =====
-- src/core/daemon/app/worker-request-orchestrator.ts: one request line of a client, and its answer.
-- The JSON parser, and what the run of a command comes to, are parameters.
pub mod Authority
mod Tests
use surfwright.Base.{
  ℕ, String, Bool, true, false, ◌≡◌, Option, none, some, List, [], ◌∷◌, if◌then◌else◌, drop, Text,
  lit, text_eq,
}
use surfwright.Base.Json.{Json, null, bool, num, str, arr, obj, Items, end, item, property}
use surfwright.Daemon.Scheduler.{DaemonQueueError, QueueErrorCode}
use surfwright.Daemon.LaneKey.{DaemonLaneResolution, resolve_daemon_lane_key}

pub record RunResult : Type 0 where
  pub code : ℕ
  pub stdout : Text
  pub stderr : Text

-- What `onRun` does: it returns, it throws a queue error with its message, or something else.
pub data RunOutcome : Type 0 where
  returned : RunResult → RunOutcome
  queue_error : DaemonQueueError → Text → RunOutcome
  other_error : RunOutcome

pub data ErrorCode : Type 0 where
  daemon_request_invalid daemon_token_invalid daemon_run_failed : ErrorCode
  daemon_queue : QueueErrorCode → ErrorCode

-- What a queue error adds to an error; `retryable` is true exactly there.
pub record QueueRecovery : Type 0 where
  pub phase : Text
  pub strategy : Text
  pub next_command : Text
  pub required_fields : List Text
  pub hints : List Text
  pub queue_scope : Text
  pub queue_wait_ms : Option ℕ
  pub queue_depth : ℕ
  pub lane_queue_depth : ℕ
  pub retry_after_ms : ℕ

pub data DaemonWorkerResponse : Type 0 where
  pong shutdown : DaemonWorkerResponse
  ran : ℕ → Text → Text → DaemonWorkerResponse
  failed : ErrorCode → Text → Option QueueRecovery → DaemonWorkerResponse

pub record OrchestratedResponse : Type 0 where
  pub response : DaemonWorkerResponse
  pub shutdown_after_write : Bool
  pub schedule_idle_after_write : Bool

abbrev pub is_text : Text → Option Json → Bool
is_text expected (some (str t)) = text_eq t expected
is_text expected _ = false

abbrev and_texts : Text → Option (List Text) → Option (List Text)
and_texts t none = none
and_texts t (some ts) = some (t ∷ ts)

-- An array whose entries are all texts.
texts_of : Items → Option (List Text)
texts_of end = some []
texts_of (item (str t) rest) = and_texts t (texts_of rest)
texts_of (item other rest) = none

unfoldable pub argv_of : Option Json → Option (List Text)
unfolding texts_of
argv_of (some (arr vs)) = texts_of vs
argv_of _ = none

-- An error that the worker neither ends nor waits on.
abbrev refused : ErrorCode → String → OrchestratedResponse
refused code message = record {
  response = failed code (lit message) none;
  shutdown_after_write = false;
  schedule_idle_after_write = false;
}

abbrev queue_recovery : Text → DaemonQueueError → QueueRecovery
queue_recovery queue_scope error = record {
  phase = lit "daemon_queue";
  strategy = lit "retry-after-backoff";
  next_command = lit "surfwright <same-command>";
  required_fields = lit "queueScope" ∷ lit "retryAfterMs" ∷ [];
  hints =
      lit "Retry the same command after a short backoff"
      ∷ lit "Reduce parallel commands sharing the same session/profile/agent lane"
      ∷ lit "If continuity is required while diagnosing daemon load, retry with SURFWRIGHT_DAEMON=0"
      ∷ [];
  queue_scope = queue_scope;
  queue_wait_ms = error.queue_wait_ms;
  queue_depth = error.queue_depth;
  lane_queue_depth = error.lane_queue_depth;
  retry_after_ms = error.retry_after_ms;
}

-- A lane key that is empty was not given.
abbrev queue_scope_of : Text → Text → Text
queue_scope_of [] lane_key = lane_key
queue_scope_of (c ∷ key) lane_key = c ∷ key

abbrev run_response : DaemonLaneResolution → RunOutcome → DaemonWorkerResponse
run_response lane (returned result) = ran result.code result.stdout result.stderr
run_response lane (queue_error error message) =
    failed (daemon_queue error.code) message
      (some (queue_recovery (queue_scope_of (lit error.lane_key) lane.lane_key) error))
run_response lane other_error =
    failed daemon_run_failed (lit "daemon failed to execute command") none

-- `typeof value === "object"`, and not null.
abbrev is_object : Json → Bool
is_object (arr vs) = true
is_object (obj fields) = true
is_object _ = false

module _ (usages : List (List Text)) (origin_of : Text → Option Text)
    (parse : Text → Option Json) where
  abbrev run_argv :
      (List Text → DaemonLaneResolution → RunOutcome) → Option (List Text) → OrchestratedResponse
  run_argv on_run none = refused daemon_request_invalid "run request requires argv string array"
  run_argv on_run (some argv) =
      let lane = resolve_daemon_lane_key usages origin_of (drop 2 argv) in
      record {
        response = run_response lane (on_run argv lane);
        shutdown_after_write = false;
        schedule_idle_after_write = true;
      }

  -- A request with the token, by its kind.
  by_kind : (List Text → DaemonLaneResolution → RunOutcome) → Json → OrchestratedResponse
  by_kind on_run request =
      let kind = property (lit "kind") request in
      if is_text (lit "ping") kind
      then record {
        response = pong;
        shutdown_after_write = false;
        schedule_idle_after_write = true;
      }
      else if is_text (lit "shutdown") kind
      then record {
        response = shutdown;
        shutdown_after_write = true;
        schedule_idle_after_write = false;
      }
      else if is_text (lit "run") kind
      then run_argv on_run (argv_of (property (lit "argv") request))
      else refused daemon_request_invalid "unsupported request kind"

  answer :
      (List Text → DaemonLaneResolution → RunOutcome) → Text → Option Json → OrchestratedResponse
  answer on_run token none = refused daemon_request_invalid "request must be JSON"
  answer on_run token (some request) =
      if is_object request
      then (if is_text token (property (lit "token") request)
          then by_kind on_run request
          else refused daemon_token_invalid "token mismatch")
      else refused daemon_request_invalid "request payload must be object"

  unfoldable pub orchestrate_daemon_worker_request :
      (List Text → DaemonLaneResolution → RunOutcome) → Text → Text → OrchestratedResponse
  unfolding answer by_kind
  orchestrate_daemon_worker_request on_run expected_token raw_request_line =
      answer on_run expected_token (parse raw_request_line)
