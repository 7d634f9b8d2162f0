-- ===== src/State/StateLock/Tests.antt =====
-- src/core/state/infra/state-lock.ts: its theorems at concrete inputs.
use surfwright.Base.{ℕ, true, false, ◌≡◌, refl, none, some, List, [], ◌∷◌, arith}
use surfwright.State.StateLock.{
  LockFile, LockLimits, outside, timed_out, waiting, turn, parse_lock_owner_pid, last_turn,
  clear_stale_lock, judge_lock,
}
use surfwright.State.StateLock.Calls.{
  LockWorld, Event, enters, turns, history, happens, enter, take_turn,
}
use surfwright.State.StateLock.Exclusion.{is_holding, turn-live_owner}
use surfwright.State.StateLock.Histories.{history-exclusive}
use surfwright.State.StateLock.Recovery.{turn-dead_owner}
use surfwright.State.StateLock.Race.{cut_history, left_locked, race, cut_history-race}

abbrev limits : LockLimits
limits = record { timeout_ms = 5000; stale_ms = 20000 }

abbrev lock_of_7 : LockFile
lock_of_7 = record { owner = some 7; created = some 100; modified = some 100 }

abbrev start : LockWorld
start = record { file = none; phases = λ c. outside; is_alive = λ p. true }

-- Call 1 holds the lock, and call 2 has found it locked.
abbrev events : List Event
events = turns 2 40 ∷ enters 2 30 ∷ turns 1 20 ∷ enters 1 10 ∷ []

held_by_1 : is_holding ((history limits (λ c. c) start events).phases 1) ≡ true
unfolding history happens enter take_turn turn parse_lock_owner_pid last_turn clear_stale_lock
    judge_lock
held_by_1 = refl

history-exclusive_example :
    (let one : ℕ = 1 in one ≡ 1)
    × (parse_lock_owner_pid (history limits (λ c. c) start events).file ≡ some 1)
history-exclusive_example =
    history-exclusive limits (λ c. c) start events 1 1 (λ c. refl) held_by_1 held_by_1

turn-live_owner_example :
    turn 20000 (λ p. true) 5 90000 95000 (some lock_of_7) ≡ (some lock_of_7, waiting 95000)
unfolding parse_lock_owner_pid
turn-live_owner_example =
    turn-live_owner 20000 (λ p. true) 5 7 90000 95000 (some lock_of_7) refl refl

turn-dead_owner_example : turn 20000 (λ p. false) 5 95000 95000 (some lock_of_7) ≡ (none, timed_out)
unfolding parse_lock_owner_pid
turn-dead_owner_example =
    turn-dead_owner 20000 (λ p. false) 5 7 95000 95000 (some lock_of_7) refl refl

cut_history-race_example :
    (let after =
        (cut_history limits (λ c. c) (left_locked 7 5000 lock_of_7) (race 1 2 200)).world in
      (is_holding (after.phases 1) ≡ true) × (is_holding (after.phases 2) ≡ true))
cut_history-race_example =
    cut_history-race limits (λ c. c) 1 2 7 5000 200 lock_of_7 (λ h. omega (arith, h))
      (λ h. omega (arith, h)) (λ h. omega (arith, h)) (omega arith)
