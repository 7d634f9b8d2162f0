-- ===== src/Session/RuntimePool/Calls.antt =====
-- src/core/session/infra/runtime-pool.ts: the operations that the pool offers, between their waits.
use surfwright.Base.{
  ℕ, suc, ◌-◌, String, Bool, true, false, ◌&&◌, Option, none, some, List, [], ◌∷◌, ◌++◌,
  if◌then◌else◌, ltb, leb, length, take, lookup, str_eq,
}
use surfwright.Session.RuntimePool.{
  PoolState, RuntimeEntry, Lease, Continuation, Pool, PoolLimits, is_ready, put, log, moved,
  pool_key, session_authority, finalize_closed_entry, close_draining_entry_if_idle, goes_on, absent,
  warming, ready, degraded, draining, closed, nothing, threshold, create, drain_rest,
  session_mismatch, uncached, close_failed,
}
use surfwright.Session.RuntimePool.Connections.{
  create_entry, entry_lease, is_idle_ready, choose_idle_lru_eviction_candidate, rewarm,
  join_waiters,
}

module _ (limits : PoolLimits) where
  -- Behind the look at the Map: eviction, and a new entry.
  unfoldable pub acquire_new : String → String → String → ℕ → Pool → Pool
  acquire_new key session_id cdp_origin now p =
      if ltb (length p.entries) limits.max_entries
      then create_entry key session_id cdp_origin now p
      else elim (choose_idle_lru_eviction_candidate p) [
        | none ↦ log uncached p
        | some id ↦
            moved id draining (close_draining_entry_if_idle id (create key session_id cdp_origin)) p
      ]

  -- By the state of the entry that the Map has, and its browser.
  unfoldable pub acquire_entry :
      String → String → String → ℕ → ℕ → PoolState → Option ℕ → Pool → Pool
  acquire_entry key session_id cdp_origin now id ready (some browser) p =
      entry_lease id browser false now p
  acquire_entry key session_id cdp_origin now id ready none p =
      acquire_new key session_id cdp_origin now p
  acquire_entry key session_id cdp_origin now id warming browser p =
      if (p.heap id).is_warming
      then join_waiters id p
      else acquire_new key session_id cdp_origin now p
  acquire_entry key session_id cdp_origin now id degraded browser p = rewarm id p
  acquire_entry key session_id cdp_origin now id draining browser p = log uncached p
  acquire_entry key session_id cdp_origin now id closed browser p =
      finalize_closed_entry id (acquire_new key session_id cdp_origin now) p
  acquire_entry key session_id cdp_origin now id absent browser p =
      acquire_new key session_id cdp_origin now p

  abbrev pub matches : RuntimeEntry → String → String → Bool
  matches entry session_id cdp_origin =
      str_eq entry.session_id session_id && str_eq entry.cdp_origin cdp_origin

  -- `acquire`, up to its first wait.
  unfoldable pub acquire : Option String → String → ℕ → Pool → Pool
  acquire requested cdp_origin now p =
      let session_id = session_authority requested cdp_origin in
      let key = pool_key session_id in
      elim (lookup key p.entries) [
        | none ↦ acquire_new key session_id cdp_origin now p
        | some id ↦
            if matches (p.heap id) session_id cdp_origin
            then acquire_entry key session_id cdp_origin now id (p.heap id).state
                (p.heap id).browser p
            else log session_mismatch p
      ]

  -- The release of a lease that was not released before.
  unfoldable pub release : Lease → ℕ → Pool → Pool
  release lease now p =
      let entry = p.heap lease.entry in
      close_draining_entry_if_idle lease.entry nothing (
        put lease.entry (record entry { borrow_count = entry.borrow_count - 1; last_used_at = now })
          p)

  -- `handleTimeout`, up to the wait for the cancellation.
  abbrev pub degrade : RuntimeEntry → RuntimeEntry
  degrade entry = if is_ready entry.state then record entry { state = degraded } else entry

  unfoldable pub handle_timeout : String → Pool → Pool
  handle_timeout key p = elim (lookup key p.entries) [
    | none ↦ p
    | some id ↦
        let entry = degrade (p.heap id) in
        record (put id (record entry { timeout_strikes = suc entry.timeout_strikes }) p) {
          cancelling = p.cancelling ++ (id ∷ []);
        }
  ]

  -- Ready and degraded entries drain.
  abbrev pub drain : PoolState → PoolState
  drain ready = draining
  drain degraded = draining
  drain other = other

  unfoldable pub threshold_close : ℕ → PoolState → Pool → Pool
  threshold_close id ready p = moved id draining (close_draining_entry_if_idle id nothing) p
  threshold_close id degraded p = finalize_closed_entry id (λ q. q) p
  threshold_close id state p = close_draining_entry_if_idle id nothing p

  unfoldable pub check_threshold : ℕ → Pool → Pool
  check_threshold id p =
      if leb limits.timeout_hard_close_threshold (p.heap id).timeout_strikes
      then threshold_close id (p.heap id).state p
      else p

  -- `handleTimeout` behind the cancellation.
  unfoldable pub after_cancel : ℕ → Bool → Pool → Pool
  after_cancel id true p = check_threshold id p
  after_cancel id false p =
      let entry = p.heap id in
      close_draining_entry_if_idle id (threshold id)
        (put id (record entry { state = drain entry.state }) p)

  -- `drainColdEntriesOnMemoryPressure`, from an entry on.
  unfoldable pub drain_cold : List ℕ → Pool → Pool
  drain_cold [] p = p
  drain_cold (id ∷ ids) p = moved id draining (close_draining_entry_if_idle id (drain_rest ids)) p

  abbrev pub oldest_first : (ℕ → RuntimeEntry) → ℕ → List ℕ → List ℕ
  oldest_first heap id [] = id ∷ []
  oldest_first heap id (other ∷ rest) =
      if ltb (heap other).last_used_at (heap id).last_used_at
      then other ∷ oldest_first heap id rest
      else id ∷ other ∷ rest

  unfoldable pub cold_entries : (ℕ → RuntimeEntry) → List (String × ℕ) → List ℕ
  cold_entries heap [] = []
  cold_entries heap ((key, id) ∷ rest) =
      let others = cold_entries heap rest in
      if is_idle_ready (heap id) then oldest_first heap id others else others

  unfoldable pub drain_cold_entries_on_memory_pressure : ℕ → Pool → Pool
  drain_cold_entries_on_memory_pressure max_to_drain p =
      drain_cold (take max_to_drain (cold_entries p.heap p.entries)) p

  unfoldable pub continue_with : Continuation → ℕ → Pool → Pool
  continue_with nothing now p = p
  continue_with (threshold id) now p = check_threshold id p
  continue_with (create key session_id cdp_origin) now p =
      create_entry key session_id cdp_origin now p
  continue_with (drain_rest ids) now p = drain_cold ids p

  -- A close is done, or failed.
  unfoldable pub close_done : ℕ → Continuation → Bool → Pool → Pool
  close_done id after true p = finalize_closed_entry id (goes_on after) p
  close_done id after false p = log close_failed p
