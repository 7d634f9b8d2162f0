-- ===== src/Session/RuntimePool/Safety/Leases.antt =====
-- src/core/session/infra/runtime-pool.ts: what every history of the pool promises to the holders of leases.
use surfwright.Base.{ℕ, ◌≡◌, ◌⊎◌, true, false, List, All}
use surfwright.Session.RuntimePool.{PoolLimits, is_closed}
use surfwright.Session.RuntimePool.Events.{Event, history}
use surfwright.Session.RuntimePool.Safety.{holds}
use surfwright.Session.RuntimePool.Safety.Called.{history-Inv}

-- After every history of calls, connections, closes and cancellations, of any limits: the pool has not
-- started to close the browser of a lease that is held, unless the lease was given to an acquire that
-- had waited for a connection, and the close was started before it was given; and each entry's borrow
-- count is the number of its leases that are held.
pub history-leases :
    (limits : PoolLimits) (events : List (ℕ × Event))
    → (let p = history limits events in
        All
          (λ lease.
            (is_closed lease.entry lease.browser p.closed_browsers ≡ false)
            ⊎ ((lease.resumed ≡ true) × (lease.was_open ≡ false)))
          p.leases
        × ((id : ℕ) → (p.heap id).borrow_count ≡ holds id p.leases))
history-leases limits events = let inv = history-Inv limits events in (inv.leases_open, inv.counted)
