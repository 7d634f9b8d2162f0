-- ===== src/Session/RuntimePool/Safety/Borrowed.antt =====
-- src/core/session/infra/runtime-pool.ts: new entries, leases, their release and connections keep the
-- invariant.
use surfwright.Base.{
  ℕ, zero, suc, ◌+◌, ◌-◌, ◌≤◌, ◌<◌, String, Bool, true, false, not, ◌⊎◌, ◌≡◌, refl, sym, subst, ap,
  ◌∙◌, Option, none, some, List, [], ◌∷◌, arith, ◌==◌, bit, Bool-cases, inl, inr, All, All-append,
  AllValues, AllValues-insert,
}
use surfwright.Session.RuntimePool.{
  warming, ready, draining, RuntimeEntry, Lease, Waiter, Pool, put, log, warm_failed,
  missing_browser, is_closed, Outcome,
}
use surfwright.Session.RuntimePool.Connections.{create_entry, entry_lease, serve, acquire_failed}
use surfwright.Session.RuntimePool.Events.{pick, beside}
use surfwright.Session.RuntimePool.Safety.{Sound, Blank, Open, Inv, at_put, holds}
use surfwright.Session.RuntimePool.Safety.Moves.{Keeps, finalize-Inv}

-- A ready entry's browser is open.
pub ready_open :
    (p : Pool) (id b : ℕ)
    → Inv p
    → (p.heap id).state ≡ ready
    → (p.heap id).browser ≡ some b
    → is_closed id b p.closed_browsers ≡ false
ready_open p id b inv is_ready has = elim (Bool-cases (is_closed id b p.closed_browsers)) [
  | inr q ↦ q
  | inl q ↦ (let clash : ready ≡ draining = sym is_ready ∙ (inv.sound id b has).1 q in absurd (cc))
]

pub entry_lease-Inv :
    (id b : ℕ) (resumed : Bool) (now : ℕ) (p : Pool)
    → Inv p
    → (p.heap id).browser ≡ some b
    → (is_closed id b p.closed_browsers ≡ false) ⊎ (resumed ≡ true)
    → Inv (entry_lease id b resumed now p)
unfolding entry_lease
entry_lease-Inv id b resumed now p inv has at_once =
    let is_open : (is_closed id b p.closed_browsers ≡ false)
        ⊎ ((resumed ≡ true) × (not (is_closed id b p.closed_browsers) ≡ false)) =
      elim (Bool-cases (is_closed id b p.closed_browsers)) [
        | inr q ↦ inl q
        | inl q ↦ inr (elim at_once [ inl r ↦ absurd (ground arith) | inr r ↦ r ], rw q refl)
      ] in
    let entry = record (p.heap id) {
      borrow_count = (p.heap id).borrow_count + 1;
      last_used_at = now;
    } in
    let no_blank : p.next_entry ≤ id → Blank entry =
      λ h. absurd (let clash : none ≡ some b = sym (inv.blank id h).0 ∙ has in cc) in
    record {
      counted = λ j. elim (Bool-cases (id == j)) [
        | inl q ↦
            (let same : id ≡ j = ground arith in
              let was : (p.heap id).borrow_count ≡ holds j p.leases =
                subst (λ k. (p.heap id).borrow_count ≡ holds k p.leases) same (inv.counted id) in
              rw q (omega (arith, was)))
        | inr q ↦ rw q (omega (arith, inv.counted j))
      ];
      sound =
          at_put (Sound p.next_browser p.closed_browsers) p.heap id entry (inv.sound id) inv.sound;
      blank = at_put (λ j e. p.next_entry ≤ j → Blank e) p.heap id entry no_blank inv.blank;
      leases_open = (is_open, inv.leases_open);
      past = inv.past;
      listed = inv.listed;
      awaited = inv.awaited;
    }

AllValues-weaken :
    (n : ℕ) (m : List (String × ℕ)) → AllValues (λ j. j < n) m → AllValues (λ j. j < suc n) m
AllValues-weaken n [] h = tt
AllValues-weaken n ((k, v) ∷ m) (first, rest) = (omega arith, AllValues-weaken n m rest)

All-weaken : (n : ℕ) (ids : List ℕ) → All (λ j. j < n) ids → All (λ j. j < suc n) ids
All-weaken n [] h = tt
All-weaken n (j ∷ ids) (first, rest) = (omega arith, All-weaken n ids rest)

pub create_entry-Inv :
    (key session_id cdp_origin : String) (now : ℕ)
    → Keeps (create_entry key session_id cdp_origin now)
unfolding create_entry
create_entry-Inv key session_id cdp_origin now p inv =
    let n = p.next_entry in
    let q = create_entry key session_id cdp_origin now p in
    let fresh = inv.blank n (omega arith) in
    let entry : RuntimeEntry = record {
      key = key;
      session_id = session_id;
      cdp_origin = cdp_origin;
      state = warming;
      browser = none;
      borrow_count = 0;
      timeout_strikes = 0;
      last_used_at = now;
      is_warming = true;
    } in
    let unheld : entry.borrow_count ≡ holds n p.leases = omega (arith, fresh.1, inv.counted n) in
    let sound_new : Sound p.next_browser p.closed_browsers n entry = λ b e. cc in
    let used : suc n ≤ n → Blank entry = λ h. absurd (omega arith) in
    record {
      counted = at_put (λ j e. e.borrow_count ≡ holds j p.leases) p.heap n entry unheld inv.counted;
      sound = at_put (Sound p.next_browser p.closed_browsers) p.heap n entry sound_new inv.sound;
      blank =
          at_put (λ j e. suc n ≤ j → Blank e) p.heap n entry used
            (λ j h. inv.blank j (omega arith));
      leases_open = inv.leases_open;
      past = inv.past;
      listed =
          AllValues-insert (λ j. j < suc n) key n p.entries (omega arith)
            (AllValues-weaken n p.entries inv.listed);
      awaited =
          All-append (λ j. j < suc n) p.connecting (n ∷ []) (All-weaken n p.connecting inv.awaited)
            (omega arith, tt);
    }

beside-eq {ℓ} :
    {A : Type ℓ} (x y : A) (o : Option (A × List A)) (rest : List A)
    → beside x o ≡ some (y, rest)
    → (others : List A) × (o ≡ some (y, others)) × (rest ≡ x ∷ others)
beside-eq x y none rest e = cc
beside-eq x y (some (z, others)) rest e = (others, cc, cc)

pub pick-holds :
    (place : ℕ) (leases : List Lease) (lease : Lease) (rest : List Lease) (j : ℕ)
    → pick place leases ≡ some (lease, rest)
    → holds j leases ≡ bit (lease.entry == j) + holds j rest
pick-holds place [] lease rest j e = cc
pick-holds zero (x ∷ xs) lease rest j e = let same : x ∷ xs ≡ lease ∷ rest = cc in ap (holds j) same
pick-holds (suc place) (x ∷ xs) lease rest j e =
    let (others, found, split) = beside-eq x lease (pick place xs) rest e in
    let ih = pick-holds place xs lease others j found in rw split (omega (arith, ih))

pub pick-All {ℓ κ} :
    {A : Type ℓ} (P : A → Type κ) (place : ℕ) (xs : List A) (x : A) (rest : List A)
    → pick place xs ≡ some (x, rest)
    → All P xs
    → P x × All P rest
pick-All P place [] x rest e h = cc
pick-All P zero (y ∷ ys) x rest e h = let same : y ∷ ys ≡ x ∷ rest = cc in subst (All P) same h
pick-All P (suc place) (y ∷ ys) x rest e (first, all) =
    let (others, found, split) = beside-eq y x (pick place ys) rest e in
    let (here, kept) = pick-All P place ys x others found all in
    (here, subst (All P) (sym split) (first, kept))

-- The count of a lease that is given back.
pub returned-Inv :
    (lease : Lease) (rest : List Lease) (now place : ℕ) (p : Pool)
    → Inv p
    → pick place p.leases ≡ some (lease, rest)
    → (let entry = p.heap lease.entry in
        Inv (
          put lease.entry
            (record entry { borrow_count = entry.borrow_count - 1; last_used_at = now })
            (record p { leases = rest })))
returned-Inv lease rest now place p inv e =
    let id = lease.entry in
    let entry = record (p.heap id) {
      borrow_count = (p.heap id).borrow_count - 1;
      last_used_at = now;
    } in
    let splits = λ (j : ℕ). pick-holds place p.leases lease rest j e in
    let kept = pick-All (Open p.closed_browsers) place p.leases lease rest e inv.leases_open in
    record {
      counted = λ j. elim (Bool-cases (id == j)) [
        | inl q ↦
            (let same : id ≡ j = ground arith in
              let was : (p.heap id).borrow_count ≡ holds j p.leases =
                subst (λ k. (p.heap id).borrow_count ≡ holds k p.leases) same (inv.counted id) in
              let split : holds j p.leases ≡ 1 + holds j rest = rw q at (splits j) in
              rw q (omega (arith, was, split)))
        | inr q ↦
            (let split : holds j p.leases ≡ 0 + holds j rest = rw q at (splits j) in
              rw q (omega (arith, inv.counted j, split)))
      ];
      sound =
          at_put (Sound p.next_browser p.closed_browsers) p.heap id entry (inv.sound id) inv.sound;
      blank =
          at_put (λ j (e : RuntimeEntry). p.next_entry ≤ j → Blank e) p.heap id entry
            (λ h. ((inv.blank id h).0, omega (arith, (inv.blank id h).1))) inv.blank;
      leases_open = kept.1;
      past = inv.past;
      listed = inv.listed;
      awaited = inv.awaited;
    }

acquire_failed-Inv : (error : Outcome) (waiter : Waiter) → Keeps (acquire_failed error waiter)
acquire_failed-Inv error waiter p inv = elim (Bool-cases waiter.rewarms) [
  | inl q ↦ rw q (finalize-Inv waiter.entry (log error) p (λ q' h. h) inv)
  | inr q ↦ rw q inv
]

-- An acquire that goes on behind its wait, whatever has become of the entry.
pub serve-Inv :
    (now : ℕ) (ok : Bool) (waiter : Waiter) (browser : Option ℕ) (p : Pool)
    → (p.heap waiter.entry).browser ≡ browser
    → Inv p
    → Inv (serve now ok browser waiter p)
unfolding serve
serve-Inv now true waiter (some browser) p has inv =
    entry_lease-Inv waiter.entry browser true now p inv has (inr refl)
serve-Inv now true waiter none p has inv = acquire_failed-Inv missing_browser waiter p inv
serve-Inv now false waiter browser p has inv = acquire_failed-Inv warm_failed waiter p inv
