-- ===== src/Daemon/Request/Authority.antt =====
-- src/core/daemon/app/worker-request-orchestrator.ts: what a request without the token can do.
use surfwright.Base.{
  true, false, ◌&&◌, ◌≡◌, ◌⊎◌, ◌↔◌, ◌∙◌, refl, sym, ap, Option, none, some, List, Text, lit,
  text_eq, text_eq-true, text_eq_refl, Bool-cases, Option-cases, inl, inr,
}
use surfwright.Base.Json.{Json, null, bool, num, str, arr, obj, property}
use surfwright.Daemon.LaneKey.{DaemonLaneResolution}
use surfwright.Daemon.Request.{
  RunOutcome, OrchestratedResponse, pong, daemon_request_invalid, daemon_token_invalid, is_text,
  argv_of, refused, run_argv, by_kind, is_object, answer, orchestrate_daemon_worker_request,
}

is_text-str :
    (expected : Text) (o : Option Json) → is_text expected o ≡ true → o ≡ some (str expected)
is_text-str expected none h = cc
is_text-str expected (some null) h = cc
is_text-str expected (some (bool b)) h = cc
is_text-str expected (some (num n)) h = cc
is_text-str expected (some (arr vs)) h = cc
is_text-str expected (some (obj fs)) h = cc
is_text-str expected (some (str t)) h = ap (λ (u : Text). some (str u)) (text_eq-true t expected h)

module _ (usages : List (List Text)) (origin_of : Text → Option Text)
    (parse : Text → Option Json) where
  abbrev pub OnRun : Type 0
  OnRun = List Text → DaemonLaneResolution → RunOutcome

  -- What is parsed is JSON whose token is the worker's.
  abbrev pub Authorized : Text → Option Json → Json → Type 0
  Authorized token parsed request =
      (parsed ≡ some request) × (property (lit "token") request ≡ some (str token))

  -- An answer that leaves the worker as it is.
  abbrev Inert : OrchestratedResponse → Type 0
  Inert r = (r.shutdown_after_write ≡ false) × (r.schedule_idle_after_write ≡ false)

  abbrev Refused : Text → Option Json → Type 0
  Refused token parsed =
      (r : OrchestratedResponse) × ((on_run : OnRun)
        → answer usages origin_of parse on_run token parsed ≡ r)
      × Inert r

  answer-token :
      (token : Text) (request : Json)
      → (property (lit "token") request ≡ some (str token)) ⊎ Refused token (some request)
  unfolding answer
  answer-token token request = elim (Bool-cases (is_object request)) [
    | inr q ↦ inr (
      refused daemon_request_invalid "request payload must be object",
      λ on_run. rw q refl,
      (refl, refl),
    )
    | inl q ↦ elim (Bool-cases (is_text token (property (lit "token") request))) [
      | inl p ↦ inl (is_text-str token (property (lit "token") request) p)
      | inr p ↦
          inr
            (refused daemon_token_invalid "token mismatch", λ on_run. rw (q, p) refl, (refl, refl))
    ]
  ]

  run_argv_runs :
      (on_run : OnRun) (o : Option (List Text))
      → (run_argv usages origin_of parse on_run o).shutdown_after_write ≡ false
  run_argv_runs on_run none = refl
  run_argv_runs on_run (some argv) = refl

  -- Shutdown is the meaning of a flag, where the other flag is not set with it.
  abbrev ShutsDown : OrchestratedResponse → Type 0 → Type 0
  ShutsDown r Asked =
      ((r.shutdown_after_write ≡ true) ↔ Asked)
      × ((r.shutdown_after_write && r.schedule_idle_after_write) ≡ false)

  never :
      (r : OrchestratedResponse) (Asked : Type 0)
      → r.shutdown_after_write ≡ false
      → (Asked → true ≡ false)
      → ShutsDown r Asked
  never r Asked h unasked = (
    (
      λ e. absurd (let clash : true ≡ false = sym e ∙ h in cc),
      λ a. absurd (let clash = unasked a in cc),
    ),
    rw h refl,
  )

  by_kind-ShutsDown :
      (on_run : OnRun) (request : Json)
      → ShutsDown
          (by_kind usages origin_of parse on_run request)
          (property (lit "kind") request ≡ some (str (lit "shutdown")))
  unfolding by_kind text_eq
  by_kind-ShutsDown on_run request =
      let kind = property (lit "kind") request in
      let Asked = kind ≡ some (str (lit "shutdown")) in
      elim (Bool-cases (is_text (lit "ping") kind)) [
        | inl p ↦
            (let unasked : Asked → true ≡ false = λ a. sym p ∙ rw a refl in
              rw p (
                never
                  (record {
                    response = pong;
                    shutdown_after_write = false;
                    schedule_idle_after_write = true;
                  })
                  Asked refl unasked))
        | inr p ↦ elim (Bool-cases (is_text (lit "shutdown") kind)) [
          | inl q ↦ rw (p, q) ((λ _. is_text-str (lit "shutdown") kind q, λ _. refl), refl)
          | inr q ↦
              (let unasked : Asked → true ≡ false = λ a. sym (rw a refl) ∙ q in
                let argv = argv_of (property (lit "argv") request) in
                elim (Bool-cases (is_text (lit "run") kind)) [
                  | inl s ↦
                      (let r = run_argv usages origin_of parse on_run argv in
                        rw (p, q, s) (never r Asked (run_argv_runs on_run argv) unasked))
                  | inr s ↦
                      (let r = refused daemon_request_invalid "unsupported request kind" in
                        rw (p, q, s) (never r Asked refl unasked))
                ])
        ]
      ]

  property-is_object :
      (key : Text) (request v : Json) → property key request ≡ some v → is_object request ≡ true
  property-is_object key null v e = cc
  property-is_object key (bool b) v e = cc
  property-is_object key (num n) v e = cc
  property-is_object key (str t) v e = cc
  property-is_object key (arr vs) v e = refl
  property-is_object key (obj fs) v e = refl

  answer-ShutsDown :
      (on_run : OnRun) (token : Text) (request : Json)
      → ShutsDown (answer usages origin_of parse on_run token (some request)) (
          (property (lit "token") request ≡ some (str token))
          × (property (lit "kind") request ≡ some (str (lit "shutdown"))))
  unfolding answer
  answer-ShutsDown on_run token request =
      let given = property (lit "token") request in
      let Asked =
        (given ≡ some (str token))
        × (property (lit "kind") request ≡ some (str (lit "shutdown"))) in
      elim (Bool-cases (is_object request)) [
        | inr q ↦
            (let unasked : Asked → true ≡ false =
                λ (has, k). sym (property-is_object (lit "token") request (str token) has) ∙ q in
              rw q (
                never (refused daemon_request_invalid "request payload must be object") Asked refl
                  unasked))
        | inl q ↦ elim (Bool-cases (is_text token given)) [
          | inr p ↦
              (let unasked : Asked → true ≡ false =
                  λ (has, k). sym (rw has (text_eq_refl token)) ∙ p in
                rw (q, p)
                  (never (refused daemon_token_invalid "token mismatch") Asked refl unasked))
          | inl p ↦
              (let ((f, g), both) = by_kind-ShutsDown on_run request in
                let has = is_text-str token given p in
                rw (q, p) ((λ e. (has, f e), λ (_, k). g k), both))
        ]
      ]

  parsed-ShutsDown :
      (on_run : OnRun) (token : Text) (parsed : Option Json)
      → ShutsDown (answer usages origin_of parse on_run token parsed) (
          (request : Json) × Authorized token parsed request
          × (property (lit "kind") request ≡ some (str (lit "shutdown"))))
  unfolding answer
  parsed-ShutsDown on_run token none =
      let Asked =
        (request : Json) × Authorized token none request
        × (property (lit "kind") request ≡ some (str (lit "shutdown"))) in
      let unasked : Asked → true ≡ false = λ (request, (e, has), k). absurd (cc) in
      never (answer usages origin_of parse on_run token none) Asked refl unasked
  parsed-ShutsDown on_run token (some request) =
      let ((f, g), both) = answer-ShutsDown on_run token request in
      let back =
        λ (asked : (r : Json) × Authorized token (some request) r
            × (property (lit "kind") r ≡ some (str (lit "shutdown")))).
          (let (r, (e, has), kind) = asked in
            let same : request ≡ r = cc in g (rw same (has, kind))) in
      ((λ h. (let (has, kind) = f h in (request, (refl, has), kind)), back), both)

  -- A request line without the worker's token (one that is no JSON, no object, or has another
  -- token) is answered the same whatever a run would do, so no command is run for it, and the
  -- answer neither shuts the worker down nor restarts its idle timer. Every other line is JSON with
  -- the token.
  pub orchestrate_daemon_worker_request-token :
      (token line : Text)
      → ((request : Json) × Authorized token (parse line) request)
        ⊎ ((r : OrchestratedResponse) × ((on_run : OnRun)
              → orchestrate_daemon_worker_request usages origin_of parse on_run token line ≡ r)
            × (r.shutdown_after_write ≡ false)
            × (r.schedule_idle_after_write ≡ false))
  unfolding orchestrate_daemon_worker_request answer
  orchestrate_daemon_worker_request-token token line = elim (Option-cases (parse line)) [
    | inl e ↦
        inr (refused daemon_request_invalid "request must be JSON", λ on_run. rw e refl, refl, refl)
    | inr (request, e) ↦ elim (answer-token token request) [
      | inl has ↦ inl (request, (e, has))
      | inr (r, same, (down, idle)) ↦ inr (r, λ on_run. rw e (same on_run), down, idle)
    ]
  ]

  -- An answer shuts the worker down after it is written exactly when the line is JSON with the
  -- worker's token and the kind "shutdown"; and it then does not restart the idle timer.
  pub orchestrate_daemon_worker_request-shutdown :
      (on_run : OnRun) (token line : Text)
      → (let r = orchestrate_daemon_worker_request usages origin_of parse on_run token line in
          ((r.shutdown_after_write ≡ true) ↔ (
            (request : Json) × Authorized token (parse line) request
            × (property (lit "kind") request ≡ some (str (lit "shutdown")))))
          × ((r.shutdown_after_write && r.schedule_idle_after_write) ≡ false))
  unfolding orchestrate_daemon_worker_request
  orchestrate_daemon_worker_request-shutdown on_run token line =
      parsed-ShutsDown on_run token (parse line)
