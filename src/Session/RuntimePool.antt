-- ===== src/Session/RuntimePool.antt =====
-- src/core/session/infra/runtime-pool.ts, createSessionRuntimePool. Entries are objects that leases
-- hold on to, so they live in a heap by number, and the Map is `entries`. The code between two waits
-- (for a connection, a close, a cancellation) is one function; what waits is in `connecting`,
-- `closing` and `cancelling`, and goes on by an event. What has waited is in `resuming`, the acquires
-- whose connection has settled, and in `continuing`, what stands behind the close of an entry, also
-- where nothing had to be closed; it goes on by events of its own, so that others can come first. A browser is named by its entry and the number of its connection. Metrics
-- are not modelled, and of a lease that is not pooled only that it was asked for.
pub mod Connections
pub mod Calls
pub mod Events
pub mod Safety
pub mod Failures
pub mod Eviction
mod Tests
use surfwright.Base.{
  ℕ, zero, suc, ◌+◌, ◌-◌, String, Bool, true, false, not, ◌&&◌, ◌||◌, Option, none, some, List, [],
  ◌∷◌, ◌++◌, if◌then◌else◌, ltb, leb, ◌==◌, length, keep, take, lookup, insert, erase, str_eq,
  append_string,
}

pub data PoolState : Type 0 where
  absent warming ready degraded draining closed : PoolState

pub record RuntimeEntry : Type 0 where
  pub key : String
  pub session_id : String
  pub cdp_origin : String
  pub state : PoolState
  pub browser : Option ℕ
  pub borrow_count : ℕ
  pub timeout_strikes : ℕ
  pub last_used_at : ℕ
  pub is_warming : Bool

-- `resumed` and `was_open` are notes for the theorems: whether it was given behind a wait, and to a
-- browser whose close had not been started.
pub record Lease : Type 0 where
  pub number : ℕ
  pub entry : ℕ
  pub browser : ℕ
  pub resumed : Bool
  pub was_open : Bool

-- Who waits for an entry's connection: the acquire of a degraded entry has a handler of its own.
pub record Waiter : Type 0 where
  pub entry : ℕ
  pub rewarms : Bool

-- What runs behind the wait for the close of an entry.
pub data Continuation : Type 0 where
  nothing : Continuation
  threshold : ℕ → Continuation
  create : String → String → String → Continuation
  drain_rest : List ℕ → Continuation

pub data Outcome : Type 0 where
  session_mismatch warm_failed missing_browser invalid_transition uncached close_failed : Outcome
  leased : ℕ → Outcome

pub record Pool : Type 0 where
  pub heap : ℕ → RuntimeEntry
  pub next_entry : ℕ
  pub next_browser : ℕ
  pub next_lease : ℕ
  pub entries : List (String × ℕ)
  pub leases : List Lease
  pub closed_browsers : List (ℕ × ℕ)
  pub waiters : List Waiter
  pub resuming : List (Waiter × Bool)
  pub connecting : List ℕ
  pub closing : List (ℕ × Continuation)
  pub continuing : List Continuation
  pub cancelling : List ℕ
  pub outcomes : List Outcome

pub record PoolLimits : Type 0 where
  pub max_entries : ℕ
  pub timeout_hard_close_threshold : ℕ

abbrev pub allowed_transition : PoolState → PoolState → Bool
allowed_transition absent warming = true
allowed_transition warming ready = true
allowed_transition warming absent = true
allowed_transition ready degraded = true
allowed_transition degraded warming = true
allowed_transition degraded closed = true
allowed_transition ready draining = true
allowed_transition degraded draining = true
allowed_transition draining closed = true
allowed_transition closed absent = true
allowed_transition _ _ = false

abbrev pub same_state : PoolState → PoolState → Bool
same_state absent absent = true
same_state warming warming = true
same_state ready ready = true
same_state degraded degraded = true
same_state draining draining = true
same_state closed closed = true
same_state _ _ = false

abbrev pub is_ready : PoolState → Bool
is_ready ready = true
is_ready _ = false

abbrev pub is_draining : PoolState → Bool
is_draining draining = true
is_draining _ = false

-- `transition`; `none` is its throw.
abbrev pub transition : RuntimeEntry → PoolState → Option RuntimeEntry
transition entry next =
    if same_state entry.state next || allowed_transition entry.state next
    then some (record entry { state = next })
    else none

abbrev pub put : ℕ → RuntimeEntry → Pool → Pool
put id entry p = record p { heap = λ j. if id == j then entry else p.heap j }

abbrev pub log : Outcome → Pool → Pool
log outcome p = record p { outcomes = outcome ∷ p.outcomes }

-- A transition on the heap, with what follows; a throw ends the call.
abbrev pub moved : ℕ → PoolState → (Pool → Pool) → Pool → Pool
moved id next rest p = elim (transition (p.heap id) next) [
  | none ↦ log invalid_transition p
  | some entry ↦ rest (put id entry p)
]

unfoldable pub pool_key : String → String
pool_key session_id = append_string "session:" session_id

-- An id that is missing or blank is `none`; others come trimmed.
unfoldable pub session_authority : Option String → String → String
session_authority (some session_id) cdp_origin = session_id
session_authority none cdp_origin = append_string "origin:" cdp_origin

abbrev pub clear_entry : RuntimeEntry → RuntimeEntry
clear_entry entry = record entry { browser = none; is_warming = false; state = absent }

-- `finalizeClosedEntry`, with what follows.
unfoldable pub finalize_closed_entry : ℕ → (Pool → Pool) → Pool → Pool
finalize_closed_entry id rest p =
    moved id closed
      (λ q.
        rest (record (put id (clear_entry (q.heap id)) q) {
          entries = erase (q.heap id).key q.entries;
        }))
      p

-- Whether the close of a browser was started.
abbrev pub is_closed : ℕ → ℕ → List (ℕ × ℕ) → Bool
is_closed id browser [] = false
is_closed id browser ((j, b) ∷ rest) = ((j == id) && (b == browser)) || is_closed id browser rest

abbrev pub is_idle_draining : RuntimeEntry → Bool
is_idle_draining entry = is_draining entry.state && leb entry.borrow_count 0

-- The `browser.close()` of an entry is started; what follows waits for it.
abbrev pub start_close : ℕ → ℕ → Continuation → Pool → Pool
start_close id browser after p = record p {
  closed_browsers = (id, browser) ∷ p.closed_browsers;
  closing = p.closing ++ ((id, after) ∷ []);
}

-- A wait has ended.
abbrev pub goes_on : Continuation → Pool → Pool
goes_on after p = record p { continuing = p.continuing ++ (after ∷ []) }

-- `closeDrainingEntryIfIdle`, and what waits for it.
unfoldable pub close_draining_entry_if_idle : ℕ → Continuation → Pool → Pool
close_draining_entry_if_idle id after p =
    if is_idle_draining (p.heap id)
    then elim (p.heap id).browser [
      | none ↦ finalize_closed_entry id (goes_on after) p
      | some browser ↦ start_close id browser after p
    ]
    else goes_on after p
