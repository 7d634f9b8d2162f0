-- ===== src/Session/RuntimePool/Connections.antt =====
-- src/core/session/infra/runtime-pool.ts: new entries, leases, the choice of an entry to evict, and
-- what follows a connection.
use surfwright.Base.{
  ℕ, suc, ◌+◌, String, Bool, true, false, not, ◌&&◌, Option, none, some, List, [], ◌∷◌, ◌++◌,
  if◌then◌else◌, ltb, leb, ◌==◌, keep, map, insert, erase,
}
use surfwright.Session.RuntimePool.{
  PoolState, RuntimeEntry, Waiter, Pool, is_ready, transition, put, log, moved,
  finalize_closed_entry, absent, warming, ready, degraded, warm_failed, missing_browser, leased,
  is_closed, Outcome,
}

-- `entries.set` of a new entry, and the start of its connection.
unfoldable pub create_entry : String → String → String → ℕ → Pool → Pool
create_entry key session_id cdp_origin now p = record p {
  heap = λ j.
      if p.next_entry == j
      then record {
        key = key;
        session_id = session_id;
        cdp_origin = cdp_origin;
        state = warming;
        browser = none;
        borrow_count = 0;
        timeout_strikes = 0;
        last_used_at = now;
        is_warming = true;
      }
      else p.heap j;
  next_entry = suc p.next_entry;
  entries = insert key p.next_entry p.entries;
  waiters = p.waiters ++ (record { entry = p.next_entry; rewarms = false } ∷ []);
  connecting = p.connecting ++ (p.next_entry ∷ []);
}

-- `entryLease` of an entry with its browser.
unfoldable pub entry_lease : ℕ → ℕ → Bool → ℕ → Pool → Pool
entry_lease id browser resumed now p =
    let entry = p.heap id in
    record (put id (record entry { borrow_count = entry.borrow_count + 1; last_used_at = now }) p) {
      next_lease = suc p.next_lease;
      leases =
          record {
            number = p.next_lease;
            entry = id;
            browser = browser;
            resumed = resumed;
            was_open = not (is_closed id browser p.closed_browsers);
          }
          ∷ p.leases;
      outcomes = leased p.next_lease ∷ p.outcomes;
    }

-- The oldest of the ready entries that nobody borrows; of two alike the first.
unfoldable pub older : (ℕ → RuntimeEntry) → ℕ → Option ℕ → Option ℕ
older heap id none = some id
older heap id (some best) =
    if ltb (heap id).last_used_at (heap best).last_used_at then some id else some best

abbrev pub is_idle_ready : RuntimeEntry → Bool
is_idle_ready entry = is_ready entry.state && leb entry.borrow_count 0

unfoldable pub choose_candidate : (ℕ → RuntimeEntry) → List (String × ℕ) → Option ℕ → Option ℕ
choose_candidate heap [] best = best
choose_candidate heap ((key, id) ∷ rest) best =
    choose_candidate heap rest (if is_idle_ready (heap id) then older heap id best else best)

unfoldable pub choose_idle_lru_eviction_candidate : Pool → Option ℕ
choose_idle_lru_eviction_candidate p = choose_candidate p.heap p.entries none

-- An acquire of a degraded entry: the entry warms again.
abbrev pub rewarm : ℕ → Pool → Pool
rewarm id p =
    moved id warming
      (λ q. record (put id (record (q.heap id) { is_warming = true }) q) {
        waiters = q.waiters ++ (record { entry = id; rewarms = true } ∷ []);
        connecting = q.connecting ++ (id ∷ []);
      })
      p

abbrev pub join_waiters : ℕ → Pool → Pool
join_waiters id p = record p {
  waiters = p.waiters ++ (record { entry = id; rewarms = false } ∷ []);
}

-- The entry's state where its connection failed; a degraded entry closes at once.
abbrev pub failed_state : PoolState → PoolState
failed_state warming = absent
failed_state degraded = absent
failed_state other = other

abbrev pub forgets : PoolState → Bool
forgets warming = true
forgets degraded = true
forgets _ = false

-- The acquire of a degraded entry has a handler of its own, whose transition to closed is that with
-- which `finalizeClosedEntry` begins, and which throws the error again.
abbrev pub acquire_failed : Outcome → Waiter → Pool → Pool
acquire_failed error waiter p =
    if waiter.rewarms then finalize_closed_entry waiter.entry (log error) p else log error p

-- An acquire behind its wait, with the browser that the entry has by then.
unfoldable pub serve : ℕ → Bool → Option ℕ → Waiter → Pool → Pool
serve now true (some browser) waiter p = entry_lease waiter.entry browser true now p
serve now true none waiter p = acquire_failed missing_browser waiter p
serve now false browser waiter p = acquire_failed warm_failed waiter p

abbrev pub waits_for : ℕ → Waiter → Bool
waits_for id waiter = waiter.entry == id

-- Those that wait for a connection, with how it ended.
abbrev pub settled : ℕ → Bool → List Waiter → List (Waiter × Bool)
settled id ok waiters = map (λ w. (w, ok)) (keep (waits_for id) waiters)

-- `warmingPromise` settles.
abbrev pub settle_waiters : ℕ → Bool → Pool → Pool
settle_waiters id ok p = record p {
  waiters = keep (λ w. not (waits_for id w)) p.waiters;
  resuming = p.resuming ++ settled id ok p.waiters;
}

unfoldable pub warm_fails : ℕ → Pool → Pool
warm_fails id p =
    let entry = p.heap id in
    settle_waiters id false
      (record (put id (record entry { state = failed_state entry.state; is_warming = false }) p) {
        entries = if forgets entry.state then erase entry.key p.entries else p.entries;
      })

-- The connection is there, or failed.
unfoldable pub connection_done : ℕ → Bool → Pool → Pool
connection_done id false p = warm_fails id p
connection_done id true p =
    let warmed = record (p.heap id) { browser = some p.next_browser; timeout_strikes = 0 } in
    let q = record (put id warmed p) { next_browser = suc p.next_browser } in
    elim (transition warmed ready) [
      | none ↦ warm_fails id q
      | some entry ↦ settle_waiters id true (put id (record entry { is_warming = false }) q)
    ]
