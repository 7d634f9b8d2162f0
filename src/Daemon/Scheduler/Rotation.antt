-- ===== src/Daemon/Scheduler/Rotation.antt =====
-- `nextRunnableLaneKey`: what the scan over the lanes finds.
use native.Mathlib.Nat.{mod-lt, mod-eq_of_lt, add-mod_right}
use surfwright.Base.{
  ℕ, zero, suc, ◌+◌, ◌-◌, ◌%◌, ◌<◌, String, true, false, ◌≡◌, inl, inr, Option, none, some, List,
  [], ◌∷◌, arith, length, get_elem?, lookup, keys, Bool-cases, Option-cases, lookup-index, leb,
  if◌then◌else◌, subst, ◌∙◌,
}
use surfwright.Daemon.Scheduler.{
  LaneState, Scheduler, is_empty, is_runnable, runnable_at, scan, next_runnable_lane_key,
}

runnable_at-some :
    (lanes : List (String × LaneState)) (i : ℕ) (k : String)
    → runnable_at lanes i ≡ some k
    → (lane : LaneState) × (lookup k lanes ≡ some lane) × (is_runnable lane ≡ true)
unfolding runnable_at
runnable_at-some lanes i k e = elim (Option-cases (get_elem? (keys lanes) i)) [
  | inl gone ↦ absurd (let no_key : ⊥ = ground arith in no_key)
  | inr (j, found) ↦ elim (Option-cases (lookup j lanes)) [
    | inl gone ↦ absurd (let no_lane : ⊥ = ground arith in no_lane)
    | inr (lane, here) ↦ let same : j ≡ k = ground arith in (lane, rw (← same) here, ground arith)
  ]
]

-- A runnable lane is seen at its index.
runnable_at-lookup :
    (lanes : List (String × LaneState)) (i : ℕ) (k : String) (lane : LaneState)
    → get_elem? (keys lanes) i ≡ some k
    → lookup k lanes ≡ some lane
    → runnable_at lanes i ≡ none
    → is_runnable lane ≡ false
unfolding runnable_at
runnable_at-lookup lanes i k lane at here e = ground arith

-- The scan finds a lane `d` places on, passes none that is runnable, and the new cursor is behind
-- the lane.
abbrev pub Found : List (String × LaneState) → ℕ → ℕ → ℕ → String → ℕ → Type 0
Found lanes start left offset k c =
    (d : ℕ) × (d < left)
    × (c ≡ (start + (offset + d)) % length lanes + 1)
    × (runnable_at lanes ((start + (offset + d)) % length lanes) ≡ some k)
    × ((e : ℕ) → e < d → runnable_at lanes ((start + (offset + e)) % length lanes) ≡ none)

module _ (lanes : List (String × LaneState)) (start : ℕ) where
  abbrev at_offset : ℕ → Option String
  at_offset o = runnable_at lanes ((start + o) % length lanes)

  later : (P : ℕ → Type 0) (offset d : ℕ) → P (offset + 1 + d) → P (offset + suc d)
  later P offset d h = subst P (omega arith) h

  now : (P : ℕ → Type 0) (offset : ℕ) → P offset → P (offset + 0)
  now P offset h = subst P (omega arith) h

  before :
      (offset : ℕ) (d : ℕ)
      → at_offset offset ≡ none
      → ((e : ℕ) → e < d → at_offset (offset + 1 + e) ≡ none)
      → (e : ℕ) → e < suc d
      → at_offset (offset + e) ≡ none
  before offset d here rest zero h = now (λ o. at_offset o ≡ none) offset here
  before offset d here rest (suc e) h =
      later (λ o. at_offset o ≡ none) offset e (rest e (omega arith))

  scan-Found :
      (left offset : ℕ) (k : String) (c : ℕ)
      → scan lanes start left offset ≡ some (k, c)
      → Found lanes start left offset k c
  unfolding scan
  scan-Found zero offset k c e = cc
  scan-Found (suc left) offset k c e = elim (Option-cases (at_offset offset)) [
    | inl passed ↦
        let (d, lt, cursor, here, rest) =
          scan-Found left (offset + 1) k c (rw (passed, scan) at e) in
        (
          suc d,
          omega arith,
          later (λ o. c ≡ (start + o) % length lanes + 1) offset d cursor,
          later (λ o. at_offset o ≡ some k) offset d here,
          before offset d passed rest,
        )
    | inr (j, hit) ↦
        let same : j ≡ k = ground arith in
        let cursor : c ≡ (start + offset) % length lanes + 1 = ground arith in
        (
          0,
          omega arith,
          now (λ o. c ≡ (start + o) % length lanes + 1) offset cursor,
          now (λ o. at_offset o ≡ some k) offset (rw (← same) hit),
          λ x h. absurd (omega arith),
        )
  ]

  scan-none :
      (left offset : ℕ)
      → scan lanes start left offset ≡ none
      → (d : ℕ) → d < left
      → at_offset (offset + d) ≡ none
  unfolding scan
  scan-none zero offset e d h = absurd (omega arith)
  scan-none (suc left) offset e d h = elim (Option-cases (at_offset offset)) [
    | inl passed ↦
        before offset left passed (scan-none left (offset + 1) (rw (passed, scan) at e)) d h
    | inr (j, hit) ↦ absurd (let no_hit : ⊥ = ground arith in no_hit)
  ]

-- Every index is met within one turn.
turn : (start n i : ℕ) → start < n → i < n → (d : ℕ) × (d < n) × ((start + (0 + d)) % n ≡ i)
turn start n i hs hi = elim (Bool-cases (leb start i)) [
  | inl after ↦ (
    i - start,
    ground arith,
    (let sum : start + (0 + (i - start)) ≡ i = ground arith in rw sum (mod-eq_of_lt hi)),
  )
  | inr wraps ↦ (
    i + n - start,
    ground arith,
    (let sum : start + (0 + (i + n - start)) ≡ i + n = ground arith in
        rw sum (add-mod_right i n ∙ mod-eq_of_lt hi)),
  )
]

-- No lane is found exactly when none could run.
pub none-runnable :
    (s : Scheduler)
    → next_runnable_lane_key s ≡ none
    → (k : String) (lane : LaneState) → lookup k s.lanes ≡ some lane
    → is_runnable lane ≡ false
unfolding next_runnable_lane_key
none-runnable s e k lane here =
    let (i, lt, at) = lookup-index s.lanes k lane here in
    let n = length s.lanes in
    let (d, below, hit) = turn (s.cursor % n) n i (mod-lt s.cursor (omega arith)) lt in
    runnable_at-lookup s.lanes i k lane at here (
      subst (λ j. runnable_at s.lanes j ≡ none) hit
        (scan-none s.lanes (s.cursor % n) n 0 (scanned s.lanes (omega arith) e) d below))
  where
    scanned :
        (lanes : List (String × LaneState))
        → 0 < length lanes
        → (if is_empty lanes then none else scan lanes (s.cursor % length lanes) (length lanes) 0)
          ≡ none
        → scan lanes (s.cursor % length lanes) (length lanes) 0 ≡ none
    scanned [] h e = absurd (omega arith)
    scanned (x ∷ xs) h e = e

-- The lane that is found is runnable.
pub some-runnable :
    (s : Scheduler) (k : String) (c : ℕ)
    → next_runnable_lane_key s ≡ some (k, c)
    → (lane : LaneState) × (lookup k s.lanes ≡ some lane) × (is_runnable lane ≡ true)
unfolding next_runnable_lane_key
some-runnable s k c e = found s.lanes e
  where
    found :
        (lanes : List (String × LaneState))
        → (if is_empty lanes then none else scan lanes (s.cursor % length lanes) (length lanes) 0)
          ≡ some (k, c)
        → (lane : LaneState) × (lookup k lanes ≡ some lane) × (is_runnable lane ≡ true)
    found [] e = cc
    found (x ∷ xs) e =
        let (d, _, _, here, _) =
          scan-Found (x ∷ xs) (s.cursor % length (x ∷ xs)) (length (x ∷ xs)) 0 k c e in
        runnable_at-some (x ∷ xs) ((s.cursor % length (x ∷ xs) + (0 + d)) % length (x ∷ xs)) k here

-- A lane that is found is the first runnable one in cyclic order from the cursor: the places from
-- the cursor up to it hold no runnable lane, and the new cursor is the place behind it.
pub next_runnable_lane_key-Found :
    (s : Scheduler) (k : String) (c : ℕ)
    → next_runnable_lane_key s ≡ some (k, c)
    → Found s.lanes (s.cursor % length s.lanes) (length s.lanes) 0 k c
unfolding next_runnable_lane_key
next_runnable_lane_key-Found s k c e = found s.lanes e
  where
    found :
        (lanes : List (String × LaneState))
        → (if is_empty lanes then none else scan lanes (s.cursor % length lanes) (length lanes) 0)
          ≡ some (k, c)
        → Found lanes (s.cursor % length lanes) (length lanes) 0 k c
    found [] e = cc
    found (x ∷ xs) e = scan-Found (x ∷ xs) (s.cursor % length (x ∷ xs)) (length (x ∷ xs)) 0 k c e
