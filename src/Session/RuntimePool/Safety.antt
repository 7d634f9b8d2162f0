-- ===== src/Session/RuntimePool/Safety.antt =====
-- src/core/session/infra/runtime-pool.ts: the invariant of the pool, and what keeps it.
pub mod Moves
pub mod Borrowed
pub mod Connected
pub mod Called
pub mod Leases
use surfwright.Base.{
  ℕ, zero, suc, ◌+◌, ◌≤◌, ◌<◌, String, Bool, true, false, ◌&&◌, ◌||◌, ◌≡◌, ◌⊎◌, refl, sym, subst,
  ◌∙◌, Option, none, some, List, [], ◌∷◌, ◌++◌, arith, if◌then◌else◌, ltb, leb, ◌==◌, bit,
  Bool-cases, inl, inr, All, AllValues,
}
use surfwright.Session.RuntimePool.{
  Continuation, PoolState, draining, RuntimeEntry, Lease, Pool, put, start_close, is_closed,
}

-- The leases that an entry has given and not got back.
abbrev pub holds : ℕ → List Lease → ℕ
holds id [] = 0
holds id (lease ∷ leases) = bit (lease.entry == id) + holds id leases

-- The browser of an entry is of an earlier connection, and if it is closed, the entry drains.
abbrev pub Sound : ℕ → List (ℕ × ℕ) → ℕ → RuntimeEntry → Type 0
Sound next closed_browsers id entry =
    (browser : ℕ)
    → entry.browser ≡ some browser
    → (browser < next) × (is_closed id browser closed_browsers ≡ true → entry.state ≡ draining)

-- The browser of a lease is not closed, or was so already when the lease was given behind a wait.
abbrev pub Open : List (ℕ × ℕ) → Lease → Type 0
Open closed_browsers lease =
    (is_closed lease.entry lease.browser closed_browsers ≡ false)
    ⊎ ((lease.resumed ≡ true) × (lease.was_open ≡ false))

-- A number that is not given out yet.
abbrev pub Blank : RuntimeEntry → Type 0
Blank entry = (entry.browser ≡ none) × (entry.borrow_count ≡ 0)

pub record Core (heap : ℕ → RuntimeEntry) (next_entry next_browser : ℕ)
    (entries : List (String × ℕ)) (leases : List Lease) (closed_browsers : List (ℕ × ℕ))
    (connecting : List ℕ) : Type 0 where
  pub counted : (j : ℕ) → (heap j).borrow_count ≡ holds j leases
  pub sound : (j : ℕ) → Sound next_browser closed_browsers j (heap j)
  pub blank : (j : ℕ) → next_entry ≤ j → Blank (heap j)
  pub leases_open : All (Open closed_browsers) leases
  pub past : (j b : ℕ) → is_closed j b closed_browsers ≡ true → b < next_browser
  pub listed : AllValues (λ id. id < next_entry) entries
  pub awaited : All (λ id. id < next_entry) connecting

abbrev pub Inv : Pool → Type 0
Inv p = Core p.heap p.next_entry p.next_browser p.entries p.leases p.closed_browsers p.connecting

-- A property of every entry, at a heap with one entry changed.
pub at_put {κ} :
    (P : ℕ → RuntimeEntry → Type κ) (heap : ℕ → RuntimeEntry) (id : ℕ) (entry : RuntimeEntry)
    → P id entry
    → ((j : ℕ) → P j (heap j))
    → (j : ℕ) → P j (if id == j then entry else heap j)
at_put P heap id entry here others j = elim (Bool-cases (id == j)) [
  | inl q ↦ (let same : id ≡ j = ground arith in rw q (subst (λ k. P k entry) same here))
  | inr q ↦ rw q (others j)
]

-- The same, where it is changed twice.
pub at_put_twice {κ} :
    (P : ℕ → RuntimeEntry → Type κ) (heap : ℕ → RuntimeEntry) (id : ℕ) (mid entry : RuntimeEntry)
    → P id entry
    → ((j : ℕ) → P j (heap j))
    → (j : ℕ) → P j (if id == j then entry else if id == j then mid else heap j)
at_put_twice P heap id mid entry here others j = elim (Bool-cases (id == j)) [
  | inl q ↦ (let same : id ≡ j = ground arith in rw q (subst (λ k. P k entry) same here))
  | inr q ↦ rw q (others j)
]

-- A write to an entry that keeps its borrows.
pub put-Inv :
    (id : ℕ) (entry : RuntimeEntry) (p : Pool)
    → Inv p
    → entry.borrow_count ≡ (p.heap id).borrow_count
    → Sound p.next_browser p.closed_browsers id entry
    → (p.next_entry ≤ id → entry.browser ≡ none)
    → Inv (put id entry p)
put-Inv id entry p inv same sound blank =
    let Counted = λ (j : ℕ) (e : RuntimeEntry). e.borrow_count ≡ holds j p.leases in
    let counted : entry.borrow_count ≡ holds id p.leases = omega (arith, same, inv.counted id) in
    let empty : p.next_entry ≤ id → Blank entry =
      λ h. (blank h, omega (arith, same, (inv.blank id h).1)) in
    record {
      counted = at_put Counted p.heap id entry counted inv.counted;
      sound = at_put (Sound p.next_browser p.closed_browsers) p.heap id entry sound inv.sound;
      blank = at_put (λ j e. p.next_entry ≤ j → Blank e) p.heap id entry empty inv.blank;
      leases_open = inv.leases_open;
      past = inv.past;
      listed = inv.listed;
      awaited = inv.awaited;
    }

-- Nobody holds a lease of an entry that is not borrowed.
none_held :
    (id b : ℕ) (leases : List Lease) (closed_browsers : List (ℕ × ℕ))
    → holds id leases ≡ 0
    → All (Open closed_browsers) leases
    → All (Open ((id, b) ∷ closed_browsers)) leases
none_held id b [] closed_browsers h all_open = tt
none_held id b (lease ∷ leases) closed_browsers h (first, rest) =
    let later = none_held id b leases closed_browsers (ground arith) rest in
    elim first [ inl is_open ↦ (inl (ground arith), later) | inr note ↦ (inr note, later) ]

is_closed-cons :
    (id b j browser : ℕ) (rest : List (ℕ × ℕ))
    → is_closed j browser ((id, b) ∷ rest) ≡ true
    → ((id ≡ j) × (b ≡ browser)) ⊎ (is_closed j browser rest ≡ true)
is_closed-cons id b j browser rest h = elim (Bool-cases ((id == j) && (b == browser))) [
  | inl q ↦ inl (ground arith, ground arith)
  | inr q ↦ inr (rw q at h)
]

-- The start of a close, of an entry that drains and that nobody borrows.
pub start_close-Inv :
    (id b : ℕ) (after : Continuation) (p : Pool)
    → Inv p
    → (p.heap id).state ≡ draining
    → (p.heap id).borrow_count ≡ 0
    → (p.heap id).browser ≡ some b
    → Inv (start_close id b after p)
start_close-Inv id b after p inv drains idle has = record {
  counted = inv.counted;
  sound = λ j browser e. (
    (inv.sound j browser e).0,
    λ h. elim (is_closed-cons id b j browser p.closed_browsers h) [
      | inl (same, _) ↦ subst (λ k. (p.heap k).state ≡ draining) same drains
      | inr old ↦ (inv.sound j browser e).1 old
    ],
  );
  blank = inv.blank;
  leases_open =
      none_held id b p.leases p.closed_browsers (sym (inv.counted id) ∙ idle) inv.leases_open;
  past = λ j browser h. elim (is_closed-cons id b j browser p.closed_browsers h) [
    | inl (_, same) ↦ subst (λ k. k < p.next_browser) same (inv.sound id b has).0
    | inr old ↦ inv.past j browser old
  ];
  listed = inv.listed;
  awaited = inv.awaited;
}
