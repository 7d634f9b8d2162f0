-- ===== src/State/IdleParking/Order.antt =====
-- src/core/state/infra/session-idle-parking.ts: the sort by id loses and adds no session.
use surfwright.Base.{
  suc, String, Bool, ◌≡◌, refl, ◌∙◌, sym, subst, List, [], ◌∷◌, arith, map, length, Member,
  Member-cases, here, there, Bool-cases, inl, inr,
}
use surfwright.Session.Hygiene.{SessionState}
use surfwright.State.DiskEntries.{place, sort}
use surfwright.State.IdleParking.{Machine, sort_by_id}

module _ {ℓ} {A : Type ℓ} (before : A → A → Bool) where
  length-place : (a : A) (xs : List A) → length (place before a xs) ≡ suc (length xs)
  unfolding place
  length-place a [] = refl
  length-place a (b ∷ bs) = elim (Bool-cases (before b a)) [
    | inl q ↦ rw q (omega (arith, length-place a bs))
    | inr q ↦ rw q refl
  ]

  length-sort : (xs : List A) → length (sort before xs) ≡ length xs
  unfolding sort
  length-sort [] = refl
  length-sort (a ∷ xs) = omega (arith, length-place a (sort before xs), length-sort xs)

  place-Member : (x a : A) (xs : List A) → Member x (place before a xs) → Member x (a ∷ xs)
  unfolding place
  place-Member x a [] m = m
  place-Member x a (b ∷ bs) m = elim (Bool-cases (before b a)) [
    | inr q ↦ rw q at m
    | inl q ↦
        (let placed : Member x (b ∷ place before a bs) = rw q at m in
          elim (Member-cases placed) [
            | inl same ↦ there (subst (λ y. Member y (b ∷ bs)) (sym same) here)
            | inr k ↦ elim (Member-cases (place-Member x a bs k)) [
              | inl same ↦ subst (λ y. Member y (a ∷ b ∷ bs)) (sym same) here
              | inr deep ↦ there (there deep)
            ]
          ])
  ]

  sort-Member : (x : A) (xs : List A) → Member x (sort before xs) → Member x xs
  unfolding sort
  sort-Member x [] m = m
  sort-Member x (a ∷ xs) m = elim (Member-cases (place-Member x a (sort before xs) m)) [
    | inl same ↦ subst (λ y. Member y (a ∷ xs)) (sym same) here
    | inr k ↦ there (sort-Member x xs k)
  ]

length-map :
    (snapshot : List (String × SessionState))
    → length (map (λ (e : String × SessionState). e.1) snapshot) ≡ length snapshot
length-map [] = refl
length-map (e ∷ snapshot) = omega (arith, length-map snapshot)

pub length-sort_by_id :
    (machine : Machine) (snapshot : List (String × SessionState))
    → length (sort_by_id machine snapshot) ≡ length snapshot
unfolding sort_by_id
length-sort_by_id machine snapshot = length-sort _ _ ∙ length-map snapshot

pub sort_by_id-Member :
    (machine : Machine) (snapshot : List (String × SessionState)) (session : SessionState)
    → Member session (sort_by_id machine snapshot)
    → Member session (map (λ (e : String × SessionState). e.1) snapshot)
unfolding sort_by_id
sort_by_id-Member machine snapshot session m = sort-Member _ session _ m
