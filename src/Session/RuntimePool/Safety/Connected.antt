-- ===== src/Session/RuntimePool/Safety/Connected.antt =====
-- src/core/session/infra/runtime-pool.ts: what follows a connection keeps the invariant.
use surfwright.Base.{
  ℕ, suc, ◌≤◌, ◌<◌, String, Bool, true, false, ◌||◌, ◌≡◌, refl, sym, ap, ◌∙◌, some, arith,
  if◌then◌else◌, ◌==◌, Bool-cases, inl, inr, AllValues-erase, erase,
}
use surfwright.Session.RuntimePool.{ready, RuntimeEntry, Pool, put, same_state, allowed_transition}
use surfwright.Session.RuntimePool.Connections.{failed_state, forgets, warm_fails, connection_done}
use surfwright.Session.RuntimePool.Safety.{Sound, Blank, Inv, at_put, put-Inv, holds}
use surfwright.Session.RuntimePool.Safety.Moves.{Keeps}

erased-Inv :
    (b : Bool) (key : String) (p : Pool)
    → Inv p
    → Inv (record p { entries = if b then erase key p.entries else p.entries })
erased-Inv true key p inv = record {
  counted = inv.counted;
  sound = inv.sound;
  blank = inv.blank;
  leases_open = inv.leases_open;
  past = inv.past;
  listed = AllValues-erase (λ j. j < p.next_entry) key p.entries inv.listed;
  awaited = inv.awaited;
}
erased-Inv false key p inv = inv

pub warm_fails-Inv : (id : ℕ) → Keeps (warm_fails id)
unfolding warm_fails
warm_fails-Inv id p inv =
    let entry = p.heap id in
    let failed = record entry { state = failed_state entry.state; is_warming = false } in
    let sound : Sound p.next_browser p.closed_browsers id failed =
      λ b e. ((inv.sound id b e).0, λ c. ap failed_state ((inv.sound id b e).1 c)) in
    let marked = put-Inv id failed p inv refl sound (λ h. (inv.blank id h).0) in
    let kept = erased-Inv (forgets entry.state) entry.key (put id failed p) marked in
    record {
      counted = kept.counted;
      sound = kept.sound;
      blank = kept.blank;
      leases_open = kept.leases_open;
      past = kept.past;
      listed = kept.listed;
      awaited = kept.awaited;
    }

-- The entry has the new browser, in whatever state.
abbrev connected : ℕ → RuntimeEntry → Pool → Pool
connected id entry p = record (put id entry p) { next_browser = suc p.next_browser }

fresh_Sound :
    (id : ℕ) (entry : RuntimeEntry) (p : Pool)
    → Inv p
    → entry.browser ≡ some p.next_browser
    → Sound (suc p.next_browser) p.closed_browsers id entry
fresh_Sound id entry p inv has b e =
    let n = p.next_browser in
    let is_new : b ≡ n = (let both : some b ≡ some n = sym e ∙ has in cc) in
    (
      omega (arith, is_new),
      λ c. absurd (let past : b < n = inv.past id b c in omega (arith, is_new)),
    )

pub put_here : (id : ℕ) (a b : RuntimeEntry) → (if id == id then a else b) ≡ a
put_here id a b = elim (Bool-cases (id == id)) [
  | inl q ↦ rw q refl
  | inr q ↦ absurd (let no : ⊥ = ground arith in no)
]

connected-Inv :
    (id : ℕ) (entry : RuntimeEntry) (p : Pool)
    → Inv p
    → id < p.next_entry
    → entry.browser ≡ some p.next_browser
    → entry.borrow_count ≡ (p.heap id).borrow_count
    → Inv (connected id entry p)
connected-Inv id entry p inv known has same =
    let n = p.next_browser in
    let counted : entry.borrow_count ≡ holds id p.leases = omega (arith, same, inv.counted id) in
    let old_sound : (j : ℕ) → Sound (suc n) p.closed_browsers j (p.heap j) =
      λ j b e. (omega (arith, (inv.sound j b e).0), (inv.sound j b e).1) in
    record {
      counted =
          at_put (λ j (e : RuntimeEntry). e.borrow_count ≡ holds j p.leases) p.heap id entry counted
            inv.counted;
      sound =
          at_put (Sound (suc n) p.closed_browsers) p.heap id entry (fresh_Sound id entry p inv has)
            old_sound;
      blank =
          at_put (λ j (e : RuntimeEntry). p.next_entry ≤ j → Blank e) p.heap id entry
            (λ h. absurd (omega arith)) inv.blank;
      leases_open = inv.leases_open;
      past = λ j b c. omega (arith, inv.past j b c);
      listed = inv.listed;
      awaited = inv.awaited;
    }

pub connection_done-Inv :
    (id : ℕ) (ok : Bool) (p : Pool) → id < p.next_entry → Inv p → Inv (connection_done id ok p)
unfolding connection_done
connection_done-Inv id false p known inv = warm_fails-Inv id p inv
connection_done-Inv id true p known inv =
    let entry = p.heap id in
    let warmed = record entry { browser = some p.next_browser; timeout_strikes = 0 } in
    let q = connected id warmed p in
    let q_inv = connected-Inv id warmed p inv known refl refl in
    elim (Bool-cases (same_state entry.state ready || allowed_transition entry.state ready)) [
      | inr e ↦ rw (connection_done, e) (warm_fails-Inv id q q_inv)
      | inl e ↦
          (let lent = record warmed { state = ready; is_warming = false } in
            let r = put id lent q in
            let borrows =
              at_put (λ j (x : RuntimeEntry). x.borrow_count ≡ (p.heap j).borrow_count) p.heap id
                warmed refl (λ j. refl) in
            let r_inv : Inv r =
              put-Inv id lent q q_inv (sym (borrows id)) (fresh_Sound id lent p inv refl)
                (λ h. absurd (omega arith)) in
            rw (connection_done, e)
              (record {
                counted = r_inv.counted;
                sound = r_inv.sound;
                blank = r_inv.blank;
                leases_open = r_inv.leases_open;
                past = r_inv.past;
                listed = r_inv.listed;
                awaited = r_inv.awaited;
              }))
    ]
