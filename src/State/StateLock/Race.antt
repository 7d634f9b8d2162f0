-- ===== src/State/StateLock/Race.antt =====
-- src/core/state/infra/state-lock.ts: turns of two processes that are cut between the verdict on a stale
-- lock and its unlink.
use surfwright.Base.{
  ℕ, ◌<◌, Bool, true, false, not, ◌&&◌, ◌||◌, ◌≡◌, ◌≢◌, refl, sym, subst, ap, ◌∙◌, none, some, List,
  [], ◌∷◌, arith, if◌then◌else◌, leb, ◌==◌, keep, Bool-cases, inl, inr,
}
use surfwright.State.StateLock.{
  LockFile, LockLimits, Phase, holding, timed_out, waiting, turn, judge_lock, parse_lock_owner_pid,
}
use surfwright.State.StateLock.Calls.{
  LockWorld, Event, enters, turns, settles, dies, put_phase, happens, take_turn,
}
use surfwright.State.StateLock.Exclusion.{is_holding}
use surfwright.State.StateLock.Recovery.{judge_lock-dead}

-- The calls that have come to an unlink, and have not done it.
pub record Cut : Type 0 where
  pub world : LockWorld
  pub unlinking : List ℕ

pub data CutEvent : Type 0 where
  whole : Event → CutEvent
  judges : ℕ → ℕ → CutEvent
  unlinks : ℕ → ℕ → CutEvent

abbrev has : ℕ → List ℕ → Bool
has call [] = false
has call (c ∷ calls) = (c == call) || has call calls

module _ (limits : LockLimits) (pid : ℕ → ℕ) where
  -- The verdict and the unlink are one synchronous run of a process, which does nothing else between.
  abbrev in_unlink : ℕ → List ℕ → Bool
  in_unlink process [] = false
  in_unlink process (c ∷ calls) = (pid c == process) || in_unlink process calls

  abbrev is_cut : Event → List ℕ → Bool
  is_cut (enters call now) calls = in_unlink (pid call) calls
  is_cut (turns call now) calls = in_unlink (pid call) calls
  is_cut (settles call) calls = in_unlink (pid call) calls
  is_cut (dies process) calls = false

  -- A turn up to its unlink, if it comes to one.
  unfoldable pub judge : ℕ → ℕ → Phase → Cut → Cut
  judge call now (waiting deadline) c =
      if judge_lock limits.stale_ms c.world.is_alive now c.world.file
      then record c { unlinking = call ∷ c.unlinking }
      else c
  judge call now phase c = c

  -- The unlink, and the rest of the turn, which does not find a lock.
  unfoldable pub unlink : ℕ → ℕ → Phase → LockWorld → LockWorld
  unlink call now (waiting deadline) w =
      record (put_phase call (if leb deadline now then timed_out else waiting deadline) w) {
        file = none;
      }
  unlink call now phase w = w

  unfoldable pub cut_happens : CutEvent → Cut → Cut
  cut_happens (whole event) c =
      if is_cut event c.unlinking then c else record c { world = happens limits pid event c.world }
  cut_happens (judges call now) c =
      if c.world.is_alive (pid call) && not (in_unlink (pid call) c.unlinking)
      then judge call now (c.world.phases call) c
      else c
  cut_happens (unlinks call now) c =
      if has call c.unlinking && c.world.is_alive (pid call)
      then record {
        world = unlink call now (c.world.phases call) c.world;
        unlinking = keep (λ other. not (other == call)) c.unlinking;
      }
      else c

  unfoldable pub cut_history : Cut → List CutEvent → Cut
  cut_history c [] = c
  cut_history c (event ∷ earlier) = cut_happens event (cut_history c earlier)

-- Every call waits, and the lock is of a process that has ended.
abbrev pub left_locked : ℕ → ℕ → LockFile → Cut
left_locked owner deadline file = record {
  world = record {
    file = some (record file { owner = some owner });
    phases = λ j. waiting deadline;
    is_alive = λ p. not (p == owner);
  };
  unlinking = [];
}

-- Both find the lock stale; one removes it and creates its own, then the other removes that.
abbrev pub race : ℕ → ℕ → ℕ → List CutEvent
race a b now =
    whole (turns a now)
    ∷ unlinks a now
    ∷ whole (turns b now)
    ∷ unlinks b now
    ∷ judges b now
    ∷ judges a now
    ∷ []

==-refl : (a : ℕ) → (a == a) ≡ true
==-refl a = elim (Bool-cases (a == a)) [
  | inl q ↦ q
  | inr q ↦ absurd (let no : ⊥ = ground arith in no)
]

==-differ : (a b : ℕ) → a ≢ b → (a == b) ≡ false
==-differ a b h = elim (Bool-cases (a == b)) [ inl q ↦ absurd (h (ground arith)) | inr q ↦ q ]

owned_by :
    (file : LockFile) (owner : ℕ)
    → parse_lock_owner_pid (some (record file { owner = some owner })) ≡ some owner
unfolding parse_lock_owner_pid
owned_by file owner = refl

module _ (limits : LockLimits) (pid : ℕ → ℕ) (call now deadline : ℕ) (c : Cut) where
  judges-step :
      c.world.phases call ≡ waiting deadline
      → c.world.is_alive (pid call) ≡ true
      → in_unlink limits pid (pid call) c.unlinking ≡ false
      → judge_lock limits.stale_ms c.world.is_alive now c.world.file ≡ true
      → cut_happens limits pid (judges call now) c ≡ record c { unlinking = call ∷ c.unlinking }
  unfolding cut_happens judge
  judges-step waits alive free stale = rw alive (rw free (rw waits (rw stale refl)))

  -- Before the deadline.
  abbrev unlinked : Cut
  unlinked = record {
    world = record (put_phase call (waiting deadline) c.world) { file = none };
    unlinking = keep (λ other. not (other == call)) c.unlinking;
  }

  unlinks-step :
      c.world.phases call ≡ waiting deadline
      → c.world.is_alive (pid call) ≡ true
      → has call c.unlinking ≡ true
      → leb deadline now ≡ false
      → cut_happens limits pid (unlinks call now) c ≡ unlinked
  unfolding cut_happens unlink
  unlinks-step waits alive cut early = rw cut (rw alive (rw (unlink, waits) (rw early refl)))

  abbrev created : Cut
  created = record c {
    world = record (put_phase call holding c.world) {
      file = some record { owner = some (pid call); created = some now; modified = some now };
    };
  }

  creates-step :
      c.world.phases call ≡ waiting deadline
      → c.world.is_alive (pid call) ≡ true
      → in_unlink limits pid (pid call) c.unlinking ≡ false
      → c.world.file ≡ none
      → cut_happens limits pid (whole (turns call now)) c ≡ created
  unfolding cut_happens happens take_turn turn
  creates-step waits alive uncut free = rw uncut (rw alive (rw (take_turn, waits) (rw free refl)))

cut_history-next :
    (limits : LockLimits) (pid : ℕ → ℕ) (first : Cut) (event : CutEvent) (earlier : List CutEvent)
    {mid last : Cut}
    → cut_history limits pid first earlier ≡ mid
    → cut_happens limits pid event mid ≡ last
    → cut_history limits pid first (event ∷ earlier) ≡ last
unfolding cut_history
cut_history-next limits pid first event earlier h k = ap (cut_happens limits pid event) h ∙ k

-- If two calls of different processes that live wait before their deadline, and the lock is of a
-- process that has ended, turns that are cut between the verdict and the unlink lead to a state in which both hold it.
pub cut_history-race :
    (limits : LockLimits) (pid : ℕ → ℕ) (a b owner deadline now : ℕ) (file : LockFile)
    → pid a ≢ pid b
    → pid a ≢ owner
    → pid b ≢ owner
    → now < deadline
    → (let after =
          (cut_history limits pid (left_locked owner deadline file) (race a b now)).world in
        (is_holding (after.phases a) ≡ true) × (is_holding (after.phases b) ≡ true))
unfolding cut_history
cut_history-race limits pid a b owner deadline now file differ other_a other_b early =
    let aa = ==-refl a in
    let bb = ==-refl b in
    let ab = ==-differ a b (λ h. differ (ap pid h)) in
    let ba = ==-differ b a (λ h. differ (ap pid (sym h))) in
    let apart = ==-differ (pid a) (pid b) differ in
    let living = λ (c : ℕ) (h : pid c ≢ owner). ap not (==-differ (pid c) owner h) in
    let live_a = living a other_a in
    let live_b = living b other_b in
    let soon : leb deadline now ≡ false = ground arith in
    let stale =
      judge_lock-dead limits.stale_ms (λ p. not (p == owner)) owner now
        (some (record file { owner = some owner })) (owned_by file owner)
        (ap not (==-refl owner)) in
    let step = cut_happens limits pid in
    let c0 = left_locked owner deadline file in
    let c1 : Cut = record c0 { unlinking = a ∷ [] } in
    let c2 : Cut = record c0 { unlinking = b ∷ a ∷ [] } in
    let c3 : Cut = record (unlinked limits pid b now deadline c2) { unlinking = a ∷ [] } in
    let c4 = created limits pid b now deadline c3 in
    let c5 : Cut = record (unlinked limits pid a now deadline c4) { unlinking = [] } in
    let c6 = created limits pid a now deadline c5 in
    let e1 : step (judges a now) c0 ≡ c1 =
      judges-step limits pid a now deadline c0 refl live_a refl stale in
    let e2 : step (judges b now) c1 ≡ c2 =
      judges-step limits pid b now deadline c1 refl live_b (rw apart refl) stale in
    let e3 : step (unlinks b now) c2 ≡ c3 =
      unlinks-step limits pid b now deadline c2 refl live_b (rw bb refl) soon
      ∙ rw bb (rw ab refl) in
    let e4 : step (whole (turns b now)) c3 ≡ c4 =
      creates-step limits pid b now deadline c3 (rw bb refl) live_b (rw apart refl) refl in
    let e5 : step (unlinks a now) c4 ≡ c5 =
      unlinks-step limits pid a now deadline c4 (rw ba refl) live_a (rw aa refl) soon
      ∙ rw aa refl in
    let e6 : step (whole (turns a now)) c5 ≡ c6 =
      creates-step limits pid a now deadline c5 (rw aa refl) live_a refl refl in
    let start : cut_history limits pid c0 [] ≡ c0 = refl in
    let l0 : List CutEvent = [] in
    let h1 = cut_history-next limits pid c0 (judges a now) l0 start e1 in
    let l1 = judges a now ∷ l0 in
    let h2 = cut_history-next limits pid c0 (judges b now) l1 h1 e2 in
    let l2 = judges b now ∷ l1 in
    let h3 = cut_history-next limits pid c0 (unlinks b now) l2 h2 e3 in
    let l3 = unlinks b now ∷ l2 in
    let h4 = cut_history-next limits pid c0 (whole (turns b now)) l3 h3 e4 in
    let l4 = whole (turns b now) ∷ l3 in
    let h5 = cut_history-next limits pid c0 (unlinks a now) l4 h4 e5 in
    let l5 = unlinks a now ∷ l4 in
    let h6 = cut_history-next limits pid c0 (whole (turns a now)) l5 h5 e6 in
    let Both = λ (c : Cut).
      (is_holding (c.world.phases a) ≡ true) × (is_holding (c.world.phases b) ≡ true) in
    subst Both (sym h6) (rw aa refl, rw ab (rw bb refl))
