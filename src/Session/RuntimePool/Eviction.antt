-- ===== src/Session/RuntimePool/Eviction.antt =====
-- src/core/session/infra/runtime-pool.ts: which entry chooseIdleLruEvictionCandidate chooses.
use surfwright.Base.{
  ℕ, ◌≤◌, String, true, ◌≡◌, refl, sym, subst, Option, none, some, List, [], ◌∷◌, arith, ltb,
  Bool-cases, inl, inr, All,
}
use surfwright.Session.RuntimePool.{RuntimeEntry, Pool}
use surfwright.Session.RuntimePool.Connections.{
  older, is_idle_ready, choose_candidate, choose_idle_lru_eviction_candidate,
}

module _ (heap : ℕ → RuntimeEntry) where
  -- A candidate that is considered leaves a choice that is at most as young.
  abbrev pub Held : Option ℕ → Option ℕ → Type 0
  Held none result = Unit
  Held (some best) none = ⊥
  Held (some best) (some id) = (heap id).last_used_at ≤ (heap best).last_used_at

  -- The candidate is idle.
  abbrev pub Idle : Option ℕ → Type 0
  Idle none = Unit
  Idle (some id) = is_idle_ready (heap id) ≡ true

  older-Idle :
      (id : ℕ) (best : Option ℕ)
      → is_idle_ready (heap id) ≡ true
      → Idle best
      → Idle (older heap id best)
  unfolding older
  older-Idle id none h k = h
  older-Idle id (some best) h k = ground arith

  choose_candidate-Idle :
      (entries : List (String × ℕ)) (best : Option ℕ)
      → Idle best
      → Idle (choose_candidate heap entries best)
  unfolding choose_candidate
  choose_candidate-Idle [] best h = h
  choose_candidate-Idle ((key, id) ∷ rest) best h = elim (Bool-cases (is_idle_ready (heap id))) [
    | inl q ↦ rw q (choose_candidate-Idle rest (older heap id best) (older-Idle id best q h))
    | inr q ↦ rw q (choose_candidate-Idle rest best h)
  ]

  Held-trans : (a b c : Option ℕ) → Held a b → Held b c → Held a c
  Held-trans none b c h k = tt
  Held-trans (some a) none c h k = elim h [ ]
  Held-trans (some a) (some b) none h k = elim k [ ]
  Held-trans (some a) (some b) (some c) h k = omega (arith, h, k)

  older-Held :
      (id : ℕ) (best : Option ℕ)
      → Held best (older heap id best) × Held (some id) (older heap id best)
  unfolding older
  older-Held id none = (tt, omega arith)
  older-Held id (some best) =
      elim (Bool-cases (ltb (heap id).last_used_at (heap best).last_used_at)) [
        | inl q ↦ rw q (ground arith, omega arith)
        | inr q ↦ rw q (omega arith, ground arith)
      ]

  choose_candidate-Held :
      (entries : List (String × ℕ)) (best : Option ℕ)
      → Held best (choose_candidate heap entries best)
  unfolding choose_candidate
  choose_candidate-Held [] none = tt
  choose_candidate-Held [] (some best) = omega arith
  choose_candidate-Held ((key, id) ∷ rest) best = elim (Bool-cases (is_idle_ready (heap id))) [
    | inl q ↦
        (let next = older heap id best in
          rw q (
            Held-trans best next (choose_candidate heap rest next) (older-Held id best).0
              (choose_candidate-Held rest next)))
    | inr q ↦ rw q (choose_candidate-Held rest best)
  ]

  -- Every idle entry is at most as old as the choice.
  choose_candidate-least :
      (entries : List (String × ℕ)) (best : Option ℕ)
      → All
          (λ (e : String × ℕ).
            is_idle_ready (heap e.1) ≡ true → Held (some e.1) (choose_candidate heap entries best))
          entries
  unfolding choose_candidate
  choose_candidate-least [] best = tt
  choose_candidate-least ((key, id) ∷ rest) best =
      let whole = choose_candidate heap ((key, id) ∷ rest) best in
      let Least = λ (c : Option ℕ).
        All (λ (e : String × ℕ). is_idle_ready (heap e.1) ≡ true → Held (some e.1) c)
          ((key, id) ∷ rest) in
      elim (Bool-cases (is_idle_ready (heap id))) [
        | inl q ↦
            (let next = older heap id best in
              let chosen = choose_candidate heap rest next in
              let step : whole ≡ chosen = rw q refl in
              let here =
                Held-trans (some id) next chosen (older-Held id best).1
                  (choose_candidate-Held rest next) in
              subst Least (sym step) (λ h. here, choose_candidate-least rest next))
        | inr q ↦
            (let step : whole ≡ choose_candidate heap rest best = rw q refl in
              subst Least (sym step) (λ h. cc, choose_candidate-least rest best))
      ]

-- The choice for an eviction is ready and has no borrower, and of the entries in the Map that are so,
-- none was used before it; without a choice, there is no such entry.
pub choose_idle_lru_eviction_candidate-least :
    (p : Pool)
    → (let chosen = choose_idle_lru_eviction_candidate p in
        Idle p.heap chosen
        × All
            (λ (e : String × ℕ). is_idle_ready (p.heap e.1) ≡ true → Held p.heap (some e.1) chosen)
            p.entries)
unfolding choose_idle_lru_eviction_candidate
choose_idle_lru_eviction_candidate-least p =
    (choose_candidate-Idle p.heap p.entries none tt, choose_candidate-least p.heap p.entries none)
