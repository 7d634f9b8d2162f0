-- ===== src/State/StateLock/Calls.antt =====
-- src/core/state/infra/state-lock.ts: calls of withStateFileLock in several processes, turn by turn.
use surfwright.Base.{ℕ, ◌+◌, Bool, false, Option, none, List, [], ◌∷◌, if◌then◌else◌, ◌==◌}
use surfwright.State.StateLock.{
  LockFile, LockLimits, Phase, outside, holding, returned, gone, waiting, turn,
}

pub record LockWorld : Type 0 where
  pub file : Option LockFile
  pub phases : ℕ → Phase
  pub is_alive : ℕ → Bool

-- A call begins, takes a turn, or has done its work; a process ends.
pub data Event : Type 0 where
  enters : ℕ → ℕ → Event
  turns : ℕ → ℕ → Event
  settles : ℕ → Event
  dies : ℕ → Event

abbrev pub put_phase : ℕ → Phase → LockWorld → LockWorld
put_phase call phase w = record w { phases = λ j. if call == j then phase else w.phases j }

module _ (limits : LockLimits) (pid : ℕ → ℕ) where
  unfoldable pub enter : ℕ → ℕ → Phase → LockWorld → LockWorld
  enter call now outside w = put_phase call (waiting (now + limits.timeout_ms)) w
  enter call now phase w = w

  unfoldable pub take_turn : ℕ → ℕ → Phase → LockWorld → LockWorld
  take_turn call now (waiting deadline) w =
      let after = turn limits.stale_ms w.is_alive (pid call) now deadline w.file in
      record (put_phase call after.1 w) { file = after.0 }
  take_turn call now phase w = w

  -- `releaseLock`, behind the work.
  unfoldable pub release_lock : ℕ → Phase → LockWorld → LockWorld
  release_lock call holding w = record (put_phase call returned w) { file = none }
  release_lock call phase w = w

  -- The calls of a process that is dead do nothing.
  unfoldable pub happens : Event → LockWorld → LockWorld
  happens (enters call now) w =
      if w.is_alive (pid call) then enter call now (w.phases call) w else w
  happens (turns call now) w =
      if w.is_alive (pid call) then take_turn call now (w.phases call) w else w
  happens (settles call) w =
      if w.is_alive (pid call) then release_lock call (w.phases call) w else w
  happens (dies process) w = record w {
    phases = λ j. if pid j == process then gone else w.phases j;
    is_alive = λ p. if p == process then false else w.is_alive p;
  }

  -- The world after a history of events, the last first.
  unfoldable pub history : LockWorld → List Event → LockWorld
  history w [] = w
  history w (event ∷ earlier) = happens event (history w earlier)
