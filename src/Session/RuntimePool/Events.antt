-- ===== src/Session/RuntimePool/Events.antt =====
-- src/core/session/infra/runtime-pool.ts: histories of a pool, by what happens one after the other.
use surfwright.Base.{ℕ, zero, suc, String, Bool, false, Option, none, some, List, [], ◌∷◌}
use surfwright.Session.RuntimePool.{RuntimeEntry, Pool, PoolLimits, absent}
use surfwright.Session.RuntimePool.Connections.{connection_done, serve}
use surfwright.Session.RuntimePool.Calls.{
  acquire, release, handle_timeout, after_cancel, drain_cold_entries_on_memory_pressure, close_done,
  continue_with,
}

-- What happens next: a call of a client, or the end of a wait, by its place in its list.
pub data Event : Type 0 where
  acquires : Option String → String → Event
  releases : ℕ → Event
  times_out : String → Event
  memory_pressure : ℕ → Event
  connects : ℕ → Bool → Event
  resumes : ℕ → Event
  closes : ℕ → Bool → Event
  continues : ℕ → Event
  cancels : ℕ → Bool → Event

abbrev pub beside {ℓ} : {A : Type ℓ} → A → Option (A × List A) → Option (A × List A)
beside x none = none
beside x (some (y, rest)) = some (y, x ∷ rest)

-- The element at a place, and the others.
abbrev pub pick {ℓ} : {A : Type ℓ} → ℕ → List A → Option (A × List A)
pick place [] = none
pick zero (x ∷ xs) = some (x, xs)
pick (suc place) (x ∷ xs) = beside x (pick place xs)

-- An event of a place that is not there is no event.
unfoldable pub happens : PoolLimits → ℕ → Event → Pool → Pool
happens limits now (acquires session_id cdp_origin) p = acquire limits session_id cdp_origin now p
happens limits now (releases place) p = elim (pick place p.leases) [
  | none ↦ p
  | some (lease, rest) ↦ release limits lease now (record p { leases = rest })
]
happens limits now (times_out key) p = handle_timeout limits key p
happens limits now (memory_pressure count) p = drain_cold_entries_on_memory_pressure limits count p
happens limits now (connects place ok) p = elim (pick place p.connecting) [
  | none ↦ p
  | some (id, rest) ↦ connection_done id ok (record p { connecting = rest })
]
happens limits now (resumes place) p = elim (pick place p.resuming) [
  | none ↦ p
  | some ((waiter, ok), rest) ↦
      serve now ok (p.heap waiter.entry).browser waiter (record p { resuming = rest })
]
happens limits now (closes place ok) p = elim (pick place p.closing) [
  | none ↦ p
  | some ((id, after), rest) ↦ close_done limits id after ok (record p { closing = rest })
]
happens limits now (continues place) p = elim (pick place p.continuing) [
  | none ↦ p
  | some (after, rest) ↦ continue_with limits after now (record p { continuing = rest })
]
happens limits now (cancels place cancelled) p = elim (pick place p.cancelling) [
  | none ↦ p
  | some (id, rest) ↦ after_cancel limits id cancelled (record p { cancelling = rest })
]

abbrev pub empty_entry : RuntimeEntry
empty_entry = record {
  key = "";
  session_id = "";
  cdp_origin = "";
  state = absent;
  browser = none;
  borrow_count = 0;
  timeout_strikes = 0;
  last_used_at = 0;
  is_warming = false;
}

abbrev pub create_session_runtime_pool : Pool
create_session_runtime_pool = record {
  heap = λ j. empty_entry;
  next_entry = 0;
  next_browser = 0;
  next_lease = 0;
  entries = [];
  leases = [];
  closed_browsers = [];
  waiters = [];
  resuming = [];
  connecting = [];
  closing = [];
  continuing = [];
  cancelling = [];
  outcomes = [];
}

-- The pool after a history of events, the last first, each with its time.
unfoldable pub history : PoolLimits → List (ℕ × Event) → Pool
history limits [] = create_session_runtime_pool
history limits ((now, event) ∷ earlier) = happens limits now event (history limits earlier)
