-- ===== src/Session/RuntimePool/Tests.antt =====
-- src/core/session/infra/runtime-pool.ts: its theorems at concrete inputs.
use surfwright.Base.{
  ℕ, ◌≡◌, ◌⊎◌, refl, true, false, none, some, List, [], ◌∷◌, arith, All, lookup, insert, erase,
  append_string, String, Bool,
}
use surfwright.Session.RuntimePool.{
  close_draining_entry_if_idle, finalize_closed_entry, pool_key, session_authority, Lease, Pool,
  PoolLimits, is_closed, warming, degraded, invalid_transition,
}
use surfwright.Session.RuntimePool.Connections.{
  connection_done, choose_idle_lru_eviction_candidate, is_idle_ready, serve, entry_lease,
  create_entry, choose_candidate, older,
}
use surfwright.Session.RuntimePool.Calls.{
  after_cancel, acquire, acquire_new, acquire_entry, release, close_done, continue_with,
}
use surfwright.Session.RuntimePool.Events.{
  happens, Event, acquires, connects, resumes, continues, releases, times_out, cancels, closes,
  history, empty_entry, create_session_runtime_pool,
}
use surfwright.Session.RuntimePool.Safety.{holds}
use surfwright.Session.RuntimePool.Safety.Leases.{history-leases}
use surfwright.Session.RuntimePool.Failures.{
  connection_done-rewarm_fails, after_cancel-drops_browser,
}
use surfwright.Session.RuntimePool.Eviction.{Held, Idle, choose_idle_lru_eviction_candidate-least}

abbrev limits : PoolLimits
limits = record { max_entries = 1; timeout_hard_close_threshold = 1 }

-- One session is used, a second evicts it, and its command times out.
abbrev events : List (ℕ × Event)
events =
    (60, cancels 0 false)
    ∷ (50, times_out "session:b")
    ∷ (41, resumes 0)
    ∷ (40, connects 0 true)
    ∷ (37, continues 1)
    ∷ (35, closes 0 true)
    ∷ (30, acquires (some "b") "http://b")
    ∷ (20, releases 0)
    ∷ (11, resumes 0)
    ∷ (10, connects 0 true)
    ∷ (5, acquires (some "a") "http://a")
    ∷ []

history-leases_example :
    (let p = history limits events in
      All
        (λ lease.
          (is_closed lease.entry lease.browser p.closed_browsers ≡ false)
          ⊎ ((lease.resumed ≡ true) × (lease.was_open ≡ false)))
        p.leases
      × ((id : ℕ) → (p.heap id).borrow_count ≡ holds id p.leases))
history-leases_example = history-leases limits events

abbrev rewarming : Pool
rewarming = record create_session_runtime_pool {
  heap = λ j. record empty_entry { key = "session:a"; state = warming; is_warming = true };
  entries = ("session:a", 0) ∷ [];
  waiters = record { entry = 0; rewarms = true } ∷ [];
}

connection_done-rewarm_fails_example :
    (happens limits 9 (resumes 0) (connection_done 0 false rewarming)).outcomes
    ≡ invalid_transition ∷ []
connection_done-rewarm_fails_example = connection_done-rewarm_fails limits 0 9 rewarming refl refl

abbrev struck : Pool
struck = record create_session_runtime_pool {
  heap = λ j. record empty_entry {
    key = "session:a";
    state = degraded;
    browser = some 0;
    timeout_strikes = 2;
  };
  entries = ("session:a", 0) ∷ [];
}

after_cancel-drops_browser_example :
    (let q = after_cancel limits 0 true struck in
      (lookup "session:a" q.entries ≡ none)
      × ((q.heap 0).browser ≡ none)
      × (q.closed_browsers ≡ [])
      × (q.closing ≡ []))
unfolding lookup
after_cancel-drops_browser_example =
    after_cancel-drops_browser limits 0 struck refl (omega arith) (refl, tt)

choose_idle_lru_eviction_candidate-least_example :
    (let p = history limits events in
      let chosen = choose_idle_lru_eviction_candidate p in
      Idle p.heap chosen
      × All
          (λ (e : String × ℕ). is_idle_ready (p.heap e.1) ≡ true → Held p.heap (some e.1) chosen)
          p.entries)
choose_idle_lru_eviction_candidate-least_example =
    choose_idle_lru_eviction_candidate-least (history limits events)

-- Two sessions fill the pool; a third is asked for twice, and both calls evict an entry.
abbrev twice : List (ℕ × Event)
twice =
    (92, continues 2)
    ∷ (91, continues 2)
    ∷ (90, closes 0 true)
    ∷ (80, closes 0 true)
    ∷ (70, acquires (some "c") "http://c")
    ∷ (60, acquires (some "c") "http://c")
    ∷ (50, releases 0)
    ∷ (41, resumes 0)
    ∷ (40, connects 0 true)
    ∷ (30, acquires (some "b") "http://b")
    ∷ (20, releases 0)
    ∷ (11, resumes 0)
    ∷ (10, connects 0 true)
    ∷ (5, acquires (some "a") "http://a")
    ∷ []

abbrev two_entries : PoolLimits
two_entries = record { max_entries = 2; timeout_hard_close_threshold = 1 }

abbrev ids : List (String × ℕ) → List ℕ
ids [] = []
ids ((key, id) ∷ rest) = id ∷ ids rest

-- Both connect, and the Map has only the later one.
creates_twice :
    (let p = history two_entries twice in (p.connecting ≡ 2 ∷ 3 ∷ []) × (ids p.entries ≡ 3 ∷ []))
unfolding history happens acquire acquire_new acquire_entry release connection_done serve
    entry_lease create_entry choose_idle_lru_eviction_candidate choose_candidate older
    close_draining_entry_if_idle close_done continue_with finalize_closed_entry pool_key
    session_authority lookup insert erase append_string
creates_twice = (refl, refl)

-- The connection of a session settles, and before the acquire that waits for it goes on, a second
-- session evicts the entry, which nobody borrows yet.
abbrev too_late : List (ℕ × Event)
too_late =
    (10, resumes 0)
    ∷ (10, acquires (some "b") "http://b")
    ∷ (10, connects 0 true)
    ∷ (5, acquires (some "a") "http://a")
    ∷ []

abbrev were_open : List Lease → List Bool
were_open [] = []
were_open (lease ∷ leases) = lease.was_open ∷ were_open leases

-- The lease that is then given has a browser whose close was started.
lends_closed :
    (let p = history limits too_late in
      (p.closed_browsers ≡ (0, 0) ∷ []) × (were_open p.leases ≡ false ∷ []))
unfolding history happens acquire acquire_new acquire_entry connection_done serve entry_lease
    create_entry choose_idle_lru_eviction_candidate choose_candidate older
    close_draining_entry_if_idle pool_key session_authority lookup insert append_string
lends_closed = (refl, refl)
