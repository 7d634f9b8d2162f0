-- ===== src/State/IdleParking/Signals.antt =====
-- src/core/state/infra/session-idle-parking.ts: to which processes a signal goes.
use surfwright.Base.{
  ℕ, suc, String, Bool, true, false, not, ◌&&◌, ◌||◌, ◌≡◌, refl, Option, none, some, List, [], ◌∷◌,
  ◌++◌, map, if◌then◌else◌, ltb, leb, length, All, All-append, Member, here, there, Bool-cases, inl,
  inr,
}
use surfwright.Session.Hygiene.{SessionState}
use surfwright.State.IdleParking.{
  Machine, Config, Scan, Shutdowns, Signal, Polls, is_managed, is_eligible, scan_session, scan_all,
  shut_down, park_idle, stop_managed_session_process_strict, found_dead, Target, process,
  process_group, kill_managed_browser_process_tree, sigterm, sigkill, sort_by_id,
}
use surfwright.State.IdleParking.Order.{sort_by_id-Member}

-- A process, or off Windows the group that it leads.
abbrev pub Reaches : Bool → Option ℕ → Target → Type 0
Reaches windows browser_pid (process pid) = browser_pid ≡ some pid
Reaches windows browser_pid (process_group pid) = (windows ≡ false) × (browser_pid ≡ some pid)

-- The process or the group of a session that is managed, was seen last before the idle time began, and
-- ran at the scan.
abbrev pub Idle : Machine → Config → List SessionState → Target × Signal → Type 0
Idle machine config sessions (target, signal) =
    (session : SessionState) × Member session sessions
    × (is_managed session.kind ≡ true)
    × (is_eligible machine config session ≡ true)
    × Reaches machine.windows session.browser_pid target

kill_signals :
    (windows : Bool) (pid : ℕ) (signal : Signal)
    → All
        (λ (sent : Target × Signal). Reaches windows (some pid) sent.0)
        (kill_managed_browser_process_tree windows pid signal)
unfolding kill_managed_browser_process_tree
kill_signals windows pid signal = elim (Bool-cases (leb pid 0)) [
  | inl q ↦ rw q tt
  | inr q ↦ elim (Bool-cases windows) [
    | inl r ↦ rw (q, r) (refl, tt)
    | inr r ↦ rw (q, r) ((refl, refl), (refl, tt))
  ]
]

stop_signals :
    (windows : Bool) (browser_pid : Option ℕ) (polls : Polls)
    → All
        (λ (sent : Target × Signal). Reaches windows browser_pid sent.0)
        (stop_managed_session_process_strict windows browser_pid polls).1
unfolding stop_managed_session_process_strict
stop_signals windows none polls = tt
stop_signals windows (some pid) polls = elim (Bool-cases (not (leb pid 0) && polls.first)) [
  | inr q ↦ rw q tt
  | inl q ↦ elim (Bool-cases (found_dead polls.grace || not polls.after_grace)) [
    | inl r ↦ rw (q, r) (kill_signals windows pid sigterm)
    | inr r ↦
        rw (q, r)
          (All-append (λ (sent : Target × Signal). Reaches windows (some pid) sent.0)
            (kill_managed_browser_process_tree windows pid sigterm)
            (kill_managed_browser_process_tree windows pid sigkill)
            (kill_signals windows pid sigterm) (kill_signals windows pid sigkill))
  ]
]

All-map {ℓ κ} :
    {A : Type ℓ} (P Q : A → Type κ) (xs : List A) → ((x : A) → P x → Q x) → All P xs → All Q xs
All-map P Q [] f h = tt
All-map P Q (x ∷ xs) f (p, h) = (f x p, All-map P Q xs f h)

All-Member {ℓ} : {A : Type ℓ} (xs : List A) → All (λ x. Member x xs) xs
All-Member [] = tt
All-Member (x ∷ xs) =
    (here, All-map (λ y. Member y xs) (λ y. Member y (x ∷ xs)) xs (λ y m. there m) (All-Member xs))

module _ (machine : Machine) (config : Config) (all_sessions : List SessionState) where
  abbrev Chosen : SessionState → Type 0
  Chosen session =
      Member session all_sessions
      × (is_managed session.kind ≡ true)
      × (is_eligible machine config session ≡ true)

  scan_session-Chosen :
      (session : SessionState) (s : Scan)
      → Member session all_sessions
      → All Chosen s.candidates
      → All Chosen (scan_session machine config session s).candidates
  unfolding scan_session
  scan_session-Chosen session s m h = elim (Bool-cases (is_managed session.kind)) [
    | inr q ↦ rw q h
    | inl q ↦ elim (Bool-cases (is_eligible machine config session)) [
      | inr r ↦ rw (q, r) h
      | inl r ↦ elim (Bool-cases (ltb (length s.candidates) config.sweep_cap)) [
        | inr full ↦ rw (q, r, full) h
        | inl free ↦
            rw (q, r, free) (All-append Chosen s.candidates (session ∷ []) h ((m, q, r), tt))
      ]
    ]
  ]

  scan_all-Chosen :
      (sessions : List SessionState) (s : Scan)
      → All (λ session. Member session all_sessions) sessions
      → All Chosen s.candidates
      → All Chosen (scan_all machine config sessions s).candidates
  unfolding scan_all
  scan_all-Chosen [] s m h = h
  scan_all-Chosen (session ∷ sessions) s (here_in, m) h =
      scan_all-Chosen sessions (scan_session machine config session s) m
        (scan_session-Chosen session s here_in h)

  shut_down-Idle :
      (sessions : List SessionState) (s : Shutdowns)
      → All Chosen sessions
      → All (Idle machine config all_sessions) s.signals
      → All (Idle machine config all_sessions) (shut_down machine sessions s).signals
  unfolding shut_down
  shut_down-Idle [] s h k = k
  shut_down-Idle (session ∷ sessions) s ((m, q, r), h) k =
      let outcome =
        stop_managed_session_process_strict machine.windows session.browser_pid
          (machine.polls session) in
      let sent =
        All-map (λ (x : Target × Signal). Reaches machine.windows session.browser_pid x.0)
          (Idle machine config all_sessions) outcome.1 (λ x e. (session, m, q, r, e))
          (stop_signals machine.windows session.browser_pid (machine.polls session)) in
      let next : Shutdowns = record {
        requested = suc s.requested;
        succeeded = if outcome.0 then suc s.succeeded else s.succeeded;
        failed = if outcome.0 then s.failed else suc s.failed;
        signals = s.signals ++ outcome.1;
      } in
      shut_down-Idle sessions next h
        (All-append (Idle machine config all_sessions) s.signals outcome.1 k sent)

-- Every signal goes to the process of a session of the snapshot, or off Windows to the group that the
-- process leads, and the session is managed, was last seen at a known time at least the idle time ago,
-- and its process ran at the scan.
pub park_idle-signals :
    (machine : Machine) (config : Config) (snapshot current : List (String × SessionState))
    → All
        (Idle machine config (map (λ (e : String × SessionState). e.1) snapshot))
        (park_idle machine config snapshot current).shutdowns.signals
unfolding park_idle
park_idle-signals machine config snapshot current =
    let all = map (λ (e : String × SessionState). e.1) snapshot in
    let sessions = sort_by_id machine snapshot in
    let none_yet : Scan = record { scanned_managed = 0; idle_eligible = 0; candidates = [] } in
    let scan = scan_all machine config sessions none_yet in
    shut_down-Idle machine config all scan.candidates
      record { requested = 0; succeeded = 0; failed = 0; signals = [] }
      (scan_all-Chosen machine config all sessions none_yet
        (All-map (λ x. Member x sessions) (λ x. Member x all) sessions
          (sort_by_id-Member machine snapshot) (All-Member sessions))
        tt)
      tt
