-- ===== src/Session/RuntimePool/Safety/Moves.antt =====
-- src/core/session/infra/runtime-pool.ts: transitions, closes and finalizations keep the invariant.
use surfwright.Base.{
  ℕ, ◌≤◌, ◌<◌, Bool, true, false, ◌||◌, ◌≡◌, ◌⊎◌, refl, sym, subst, List, arith, if◌then◌else◌,
  ◌==◌, Bool-cases, Option-cases, inl, inr, AllValues-erase, erase,
}
use surfwright.Session.RuntimePool.{
  PoolState, absent, warming, ready, degraded, draining, closed, RuntimeEntry, Pool, put, moved,
  log, allowed_transition, same_state, finalize_closed_entry, clear_entry,
  close_draining_entry_if_idle, is_idle_draining, is_draining, Continuation, goes_on,
  invalid_transition,
}
use surfwright.Session.RuntimePool.Safety.{
  Sound, Blank, Inv, at_put, at_put_twice, put-Inv, start_close-Inv, holds,
}

-- What goes on with a pool in order, leaves one in order.
abbrev pub Keeps : (Pool → Pool) → Type 0
Keeps rest = (p : Pool) → Inv p → Inv (rest p)

abbrev pub is_closed_state : PoolState → Bool
is_closed_state closed = true
is_closed_state _ = false

draining_stays :
    (next : PoolState)
    → is_closed_state next ≡ false
    → (same_state draining next || allowed_transition draining next) ≡ true
    → next ≡ draining
draining_stays absent n h = cc
draining_stays warming n h = cc
draining_stays ready n h = cc
draining_stays degraded n h = cc
draining_stays draining n h = refl
draining_stays closed n h = cc

transition-Sound :
    (next_browser id : ℕ) (closed_browsers : List (ℕ × ℕ)) (entry : RuntimeEntry) (next : PoolState)
    → is_closed_state next ≡ false
    → (same_state entry.state next || allowed_transition entry.state next) ≡ true
    → Sound next_browser closed_browsers id entry
    → Sound next_browser closed_browsers id (record entry { state = next })
transition-Sound next_browser id closed_browsers entry next n h sound browser e = (
  (sound browser e).0,
  λ c. draining_stays next n (
      subst (λ (s : PoolState). (same_state s next || allowed_transition s next) ≡ true)
        ((sound browser e).1 c) h),
)

pub moved-allowed :
    (id : ℕ) (next : PoolState) (rest : Pool → Pool) (p : Pool)
    → (same_state (p.heap id).state next || allowed_transition (p.heap id).state next) ≡ true
    → moved id next rest p ≡ rest (put id (record (p.heap id) { state = next }) p)
moved-allowed id next rest p q = rw (moved, q) refl

pub moved-cases :
    (id : ℕ) (next : PoolState) (rest : Pool → Pool) (p : Pool)
    → (moved id next rest p ≡ log invalid_transition p)
      ⊎ (((same_state (p.heap id).state next || allowed_transition (p.heap id).state next) ≡ true)
          × (moved id next rest p ≡ rest (put id (record (p.heap id) { state = next }) p)))
moved-cases id next rest p =
    elim (Bool-cases
      (same_state (p.heap id).state next || allowed_transition (p.heap id).state next)) [
        | inr q ↦ inl (rw (moved, q) refl)
        | inl q ↦ inr (q, moved-allowed id next rest p q)
      ]

-- A transition that is allowed, but one to closed.
pub transition-Inv :
    (id : ℕ) (next : PoolState) (p : Pool)
    → is_closed_state next ≡ false
    → (same_state (p.heap id).state next || allowed_transition (p.heap id).state next) ≡ true
    → Inv p
    → Inv (put id (record (p.heap id) { state = next }) p)
transition-Inv id next p n allowed inv =
    let entry = p.heap id in
    put-Inv id (record entry { state = next }) p inv refl
      (transition-Sound p.next_browser id p.closed_browsers entry next n allowed (inv.sound id))
      (λ h. (inv.blank id h).0)

pub moved-Inv :
    (id : ℕ) (next : PoolState) (rest : Pool → Pool) (p : Pool)
    → is_closed_state next ≡ false
    → Keeps rest
    → Inv p
    → Inv (moved id next rest p)
moved-Inv id next rest p n keeps inv = elim (moved-cases id next rest p) [
  | inl e ↦ subst Inv (sym e) inv
  | inr (q, e) ↦
      subst Inv (sym e)
        (keeps (put id (record (p.heap id) { state = next }) p) (transition-Inv id next p n q inv))
]

-- The end of an entry's life: in between it is closed and keeps its browser, then it has none.
pub finalize-Inv :
    (id : ℕ) (rest : Pool → Pool) (p : Pool)
    → Keeps rest
    → Inv p
    → Inv (finalize_closed_entry id rest p)
unfolding finalize_closed_entry
finalize-Inv id rest p keeps inv =
    let continued : Pool → Pool = λ q.
      rest (record (put id (clear_entry (q.heap id)) q) {
        entries = erase (q.heap id).key q.entries;
      }) in
    let entry = p.heap id in
    let mid : ℕ → RuntimeEntry =
      λ j. if id == j then record entry { state = closed } else p.heap j in
    let borrows =
      at_put (λ j e. e.borrow_count ≡ holds j p.leases) p.heap id (record entry { state = closed })
        (inv.counted id) inv.counted in
    let end = clear_entry (mid id) in
    let last : ℕ → RuntimeEntry = λ j. if id == j then end else mid j in
    let entries = erase (mid id).key p.entries in
    let after : Pool = record p { heap = last; entries = entries } in
    let sound_end : Sound p.next_browser p.closed_browsers id end = λ b e. cc in
    let blank_end : p.next_entry ≤ id → Blank end =
      λ h. (refl, omega (arith, borrows id, inv.counted id, (inv.blank id h).1)) in
    let kept : Inv after = record {
      counted = at_put (λ j e. e.borrow_count ≡ holds j p.leases) mid id end (borrows id) borrows;
      sound =
          at_put_twice (Sound p.next_browser p.closed_browsers) p.heap id
            (record entry { state = closed }) end sound_end inv.sound;
      blank =
          at_put_twice (λ j e. p.next_entry ≤ j → Blank e) p.heap id
            (record entry { state = closed }) end blank_end inv.blank;
      leases_open = inv.leases_open;
      past = inv.past;
      listed = AllValues-erase (λ j. j < p.next_entry) (mid id).key p.entries inv.listed;
      awaited = inv.awaited;
    } in
    elim (moved-cases id closed continued p) [
      | inl e ↦ subst Inv (sym e) inv
      | inr (q, e) ↦ subst Inv (sym e) (keeps after kept)
    ]

is_draining-eq : (s : PoolState) → is_draining s ≡ true → s ≡ draining
is_draining-eq absent h = cc
is_draining-eq warming h = cc
is_draining-eq ready h = cc
is_draining-eq degraded h = cc
is_draining-eq draining h = refl
is_draining-eq closed h = cc

pub goes_on-Inv : (after : Continuation) → Keeps (goes_on after)
goes_on-Inv after p inv = record {
  counted = inv.counted;
  sound = inv.sound;
  blank = inv.blank;
  leases_open = inv.leases_open;
  past = inv.past;
  listed = inv.listed;
  awaited = inv.awaited;
}

pub close_if_idle-Inv :
    (id : ℕ) (after : Continuation) (p : Pool)
    → Inv p
    → Inv (close_draining_entry_if_idle id after p)
unfolding close_draining_entry_if_idle
close_if_idle-Inv id after p inv =
    let entry = p.heap id in
    elim (Bool-cases (is_idle_draining entry)) [
      | inr q ↦ rw q (goes_on-Inv after p inv)
      | inl q ↦
          (let drains : is_draining entry.state ≡ true = ground arith in
            let idle : entry.borrow_count ≡ 0 = ground arith in
            elim (Option-cases entry.browser) [
              | inl e ↦ rw (q, e) (finalize-Inv id (goes_on after) p (goes_on-Inv after) inv)
              | inr (b, e) ↦
                  rw (q, e)
                    (start_close-Inv id b after p inv (is_draining-eq entry.state drains) idle e)
            ])
    ]
