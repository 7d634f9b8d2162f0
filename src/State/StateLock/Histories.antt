-- ===== src/State/StateLock/Histories.antt =====
-- src/core/state/infra/state-lock.ts: in every history of turns, at most one call holds the lock.
use surfwright.Base.{
  ℕ, ◌+◌, Bool, true, false, ◌≡◌, ◌≢◌, ◌⊎◌, refl, sym, subst, ap, ◌∙◌, Option, some, List, [], ◌∷◌,
  arith, if◌then◌else◌, leb, ◌==◌, Bool-cases, inl, inr,
}
use surfwright.State.StateLock.{
  LockFile, LockLimits, Phase, outside, holding, timed_out, returned, gone, waiting, turn,
  parse_lock_owner_pid,
}
use surfwright.State.StateLock.Calls.{
  LockWorld, Event, enters, turns, settles, dies, put_phase, enter, take_turn, release_lock,
  happens, history,
}
use surfwright.State.StateLock.Exclusion.{is_holding, turn-live_owner, turn-holds}

pub record Exclusive (pid : ℕ → ℕ) (file : Option LockFile) (phases : ℕ → Phase)
    (is_alive : ℕ → Bool) : Type 0 where
  pub owns : (c : ℕ) → is_holding (phases c) ≡ true → parse_lock_owner_pid file ≡ some (pid c)
  pub lives : (c : ℕ) → is_holding (phases c) ≡ true → is_alive (pid c) ≡ true
  pub alone : (a b : ℕ) → is_holding (phases a) ≡ true → is_holding (phases b) ≡ true → a ≡ b

abbrev pub Held : (ℕ → ℕ) → LockWorld → Type 0
Held pid w = Exclusive pid w.file w.phases w.is_alive

-- Behind a change of one call's phase, who holds is that call in its new phase, or held before.
put_phase-holding :
    (call : ℕ) (phase : Phase) (phases : ℕ → Phase) (j : ℕ)
    → is_holding (if call == j then phase else phases j) ≡ true
    → ((call ≡ j) × (is_holding phase ≡ true)) ⊎ ((call ≢ j) × (is_holding (phases j) ≡ true))
put_phase-holding call phase phases j h = elim (Bool-cases (call == j)) [
  | inl q ↦ inl (ground arith, rw q at h)
  | inr q ↦ inr ((λ same. ground arith), rw q at h)
]

refused-phase :
    (b : Bool) (deadline : ℕ) → is_holding (if b then timed_out else waiting deadline) ≡ false
refused-phase true deadline = refl
refused-phase false deadline = refl

module _ (limits : LockLimits) (pid : ℕ → ℕ) where
  -- A call that leaves its phase for one in which it does not hold, where the file stays.
  put_phase-Held :
      (call : ℕ) (phase : Phase) (w : LockWorld)
      → is_holding phase ≡ false
      → Held pid w
      → Held pid (put_phase call phase w)
  put_phase-Held call phase w free held =
      let before = λ (j : ℕ) (h : is_holding (if call == j then phase else w.phases j) ≡ true).
        elim (put_phase-holding call phase w.phases j h) as (λ x. is_holding (w.phases j) ≡ true) [
          | inl (_, now) ↦ absurd (cc)
          | inr (_, old) ↦ old
        ] in
      record {
        owns = λ c h. held.owns c (before c h);
        lives = λ c h. held.lives c (before c h);
        alone = λ a b h k. held.alone a b (before a h) (before b k);
      }

  enter-Held :
      (call now : ℕ) (phase : Phase) (w : LockWorld)
      → Held pid w
      → Held pid (enter limits pid call now phase w)
  unfolding enter
  enter-Held call now outside w held =
      put_phase-Held call (waiting (now + limits.timeout_ms)) w refl held
  enter-Held call now holding w held = held
  enter-Held call now timed_out w held = held
  enter-Held call now returned w held = held
  enter-Held call now gone w held = held
  enter-Held call now (waiting deadline) w held = held

  turn-Held :
      (call now deadline : ℕ) (w : LockWorld)
      → w.is_alive (pid call) ≡ true
      → Held pid w
      → (let after = turn limits.stale_ms w.is_alive (pid call) now deadline w.file in
          Held pid (record (put_phase call after.1 w) { file = after.0 }))
  turn-Held call now deadline w alive held =
      let after = turn limits.stale_ms w.is_alive (pid call) now deadline w.file in
      let kept = λ (j : ℕ) (h : is_holding (w.phases j) ≡ true).
        turn-live_owner limits.stale_ms w.is_alive (pid call) (pid j) now deadline w.file
          (held.owns j h) (held.lives j h) in
      let refused = λ (j : ℕ) (h : is_holding (w.phases j) ≡ true).
        ap (λ (r : Option LockFile × Phase). is_holding r.1) (kept j h)
        ∙ refused-phase (leb deadline now) deadline in
      let owned = turn-holds limits.stale_ms w.is_alive (pid call) now deadline w.file in
      record {
        owns = λ c h. elim (put_phase-holding call after.1 w.phases c h) [
          | inl (same, here) ↦
              subst (λ k. parse_lock_owner_pid after.0 ≡ some (pid k)) same (owned here)
          | inr (_, old) ↦
              ap (λ (r : Option LockFile × Phase). parse_lock_owner_pid r.0) (kept c old)
              ∙ held.owns c old
        ];
        lives = λ c h. elim (put_phase-holding call after.1 w.phases c h) [
          | inl (same, _) ↦ subst (λ k. w.is_alive (pid k) ≡ true) same alive
          | inr (_, old) ↦ held.lives c old
        ];
        alone = λ a b h k. elim (put_phase-holding call after.1 w.phases a h) [
          | inl (p, here) ↦ elim (put_phase-holding call after.1 w.phases b k) [
            | inl (q, _) ↦ sym p ∙ q
            | inr (_, old) ↦ absurd (let no : true ≡ false = sym here ∙ refused b old in cc)
          ]
          | inr (_, old) ↦ elim (put_phase-holding call after.1 w.phases b k) [
            | inl (_, here) ↦ absurd (let no : true ≡ false = sym here ∙ refused a old in cc)
            | inr (_, other) ↦ held.alone a b old other
          ]
        ];
      }

  take_turn-Held :
      (call now : ℕ) (phase : Phase) (w : LockWorld)
      → w.is_alive (pid call) ≡ true
      → Held pid w
      → Held pid (take_turn limits pid call now phase w)
  unfolding take_turn
  take_turn-Held call now (waiting deadline) w alive held = turn-Held call now deadline w alive held
  take_turn-Held call now outside w alive held = held
  take_turn-Held call now holding w alive held = held
  take_turn-Held call now timed_out w alive held = held
  take_turn-Held call now returned w alive held = held
  take_turn-Held call now gone w alive held = held

  -- The holder leaves, so nobody holds.
  release_lock-Held :
      (call : ℕ) (phase : Phase) (w : LockWorld)
      → w.phases call ≡ phase
      → Held pid w
      → Held pid (release_lock limits pid call phase w)
  unfolding release_lock
  release_lock-Held call holding w e held =
      let nobody = λ (j : ℕ) (h : is_holding (if call == j then returned else w.phases j) ≡ true).
        elim (put_phase-holding call returned w.phases j h) as (λ x. ⊥) [
          | inl (_, now) ↦ cc
          | inr (differs, old) ↦ differs (held.alone call j (ap is_holding e) old)
        ] in
      record {
        owns = λ c h. absurd (nobody c h);
        lives = λ c h. absurd (nobody c h);
        alone = λ a b h k. absurd (nobody a h);
      }
  release_lock-Held call outside w e held = held
  release_lock-Held call timed_out w e held = held
  release_lock-Held call returned w e held = held
  release_lock-Held call gone w e held = held
  release_lock-Held call (waiting deadline) w e held = held

  -- A call that holds behind the end of a process is of another process.
  survivor :
      (process : ℕ) (w : LockWorld) (j : ℕ)
      → is_holding (if pid j == process then gone else w.phases j) ≡ true
      → ((pid j == process) ≡ false) × (is_holding (w.phases j) ≡ true)
  survivor process w j h = elim (Bool-cases (pid j == process)) [
    | inl q ↦ absurd (let gone_holds : is_holding gone ≡ true = rw q at h in cc)
    | inr q ↦ (q, rw q at h)
  ]

  dies-Held :
      (process : ℕ) (w : LockWorld) → Held pid w → Held pid (happens limits pid (dies process) w)
  unfolding happens
  dies-Held process w held = record {
    owns = λ c h. held.owns c (survivor process w c h).1;
    lives = λ c h. (let (other, old) = survivor process w c h in rw other (held.lives c old));
    alone = λ a b h k. held.alone a b (survivor process w a h).1 (survivor process w b k).1;
  }

  happens-Held :
      (event : Event) (w : LockWorld) → Held pid w → Held pid (happens limits pid event w)
  unfolding happens
  happens-Held (enters call now) w held = elim (Bool-cases (w.is_alive (pid call))) [
    | inl q ↦ rw q (enter-Held call now (w.phases call) w held)
    | inr q ↦ rw q held
  ]
  happens-Held (turns call now) w held = elim (Bool-cases (w.is_alive (pid call))) [
    | inl q ↦ rw q (take_turn-Held call now (w.phases call) w q held)
    | inr q ↦ rw q held
  ]
  happens-Held (settles call) w held = elim (Bool-cases (w.is_alive (pid call))) [
    | inl q ↦ rw q (release_lock-Held call (w.phases call) w refl held)
    | inr q ↦ rw q held
  ]
  happens-Held (dies process) w held = dies-Held process w held

  history-Held :
      (w : LockWorld) (events : List Event) → Held pid w → Held pid (history limits pid w events)
  unfolding history
  history-Held w [] held = held
  history-Held w (event ∷ earlier) held =
      happens-Held event (history limits pid w earlier) (history-Held w earlier held)

-- From a world in which no call holds the lock, after every history of calls, whole turns and ends of
-- processes: of the calls whose process lives, at most one holds the lock, and the lock file names its
-- process.
pub history-exclusive :
    (limits : LockLimits) (pid : ℕ → ℕ) (w : LockWorld) (events : List Event) (a b : ℕ)
    → ((c : ℕ) → is_holding (w.phases c) ≡ false)
    → (let after = history limits pid w events in
        is_holding (after.phases a) ≡ true
        → is_holding (after.phases b) ≡ true
        → (a ≡ b) × (parse_lock_owner_pid after.file ≡ some (pid a)))
history-exclusive limits pid w events a b free h k =
    let nobody = λ (c : ℕ) (x : is_holding (w.phases c) ≡ true). sym x ∙ free c in
    let first : Held pid w = record {
      owns = λ c x. absurd (let no : true ≡ false = nobody c x in cc);
      lives = λ c x. absurd (let no : true ≡ false = nobody c x in cc);
      alone = λ c d x y. absurd (let no : true ≡ false = nobody c x in cc);
    } in
    let held = history-Held limits pid w events first in (held.alone a b h k, held.owns a h)
