-- ===== src/State/NetworkArtifacts/Marks.antt =====
-- src/core/state/repo/network-artifact-repo.ts: entries that a loop marks for removal, and the others.
use surfwright.Base.{
  ℕ, zero, suc, ◌+◌, ◌≤◌, String, Bool, true, false, ◌||◌, ◌≡◌, refl, ap, ◌∙◌, Option, none, some,
  List, [], ◌∷◌, ◌++◌, arith, length, keep, drop, eq_iff, Bool-cases, inl, inr, All,
}
use surfwright.State.NetworkArtifacts.{Artifact, Removal, has_id, set_add, is_kept, for_each}

-- Whatever id is in the first is in the second.
abbrev pub Within : List String → List String → Type 0
Within ids more = (id : String) → has_id id ids ≡ true → has_id id more ≡ true

has_id-append :
    (id : String) (xs ys : List String) → has_id id (xs ++ ys) ≡ has_id id xs || has_id id ys
has_id-append id [] ys = refl
has_id-append id (x ∷ xs) ys = ground (arith, has_id-append id xs ys)

pub has_id-set_add :
    (id j : String) (ids : List String) → has_id j ids ≡ true → has_id j (set_add id ids) ≡ true
has_id-set_add id j ids h = elim (Bool-cases (has_id id ids)) [
  | inl q ↦ rw q h
  | inr q ↦ rw q (has_id-append j ids (id ∷ []) ∙ ground (arith, h))
]

pub has_id-set_add_self : (id : String) (ids : List String) → has_id id (set_add id ids) ≡ true
has_id-set_add_self id ids = elim (Bool-cases (has_id id ids)) [
  | inl q ↦ rw q q
  | inr q ↦ rw q (has_id-append id ids (id ∷ []) ∙ ground (arith, eq_iff id id))
]

-- What a later list of ids keeps, an earlier one keeps too.
pub kept_before :
    (ids more : List String) (a : Artifact)
    → Within ids more
    → is_kept more a ≡ true
    → is_kept ids a ≡ true
kept_before ids more a w h = elim (Bool-cases (has_id a.artifact_id ids)) [
  | inl q ↦ absurd (
      let there : has_id a.artifact_id more ≡ true = w a.artifact_id q in
      let no : ⊥ = ground (arith, there, h) in no)
  | inr q ↦ rw q refl
]

pub keep-left :
    (ids more : List String) (xs : List Artifact)
    → Within ids more
    → keep (is_kept more) (keep (is_kept ids) xs) ≡ keep (is_kept more) xs
keep-left ids more [] w = refl
keep-left ids more (a ∷ xs) w = elim (Bool-cases (is_kept more a)) [
  | inl q ↦ rw (kept_before ids more a w q) (rw q (ap (λ rest. a ∷ rest) (keep-left ids more xs w)))
  | inr q ↦ elim (Bool-cases (is_kept ids a)) [
    | inl r ↦ rw r (rw q (keep-left ids more xs w))
    | inr r ↦ rw r (rw q (keep-left ids more xs w))
  ]
]

-- Those that a test is for are to be removed.
abbrev pub Marked : (Artifact → Bool) → List String → List Artifact → Type 0
Marked test ids entries = All (λ a. test a ≡ true → has_id a.artifact_id ids ≡ true) entries

pub Marked-kept :
    (test : Artifact → Bool) (ids more : List String) (entries : List Artifact)
    → Within ids more
    → Marked test ids entries
    → All (λ a. test a ≡ false) (keep (is_kept more) entries)
Marked-kept test ids more [] w m = tt
Marked-kept test ids more (a ∷ rest) w (h, m) = elim (Bool-cases (is_kept more a)) [
  | inr q ↦ rw q (Marked-kept test ids more rest w m)
  | inl q ↦
      (let passed : test a ≡ false = elim (Bool-cases (test a)) [
        | inr fails ↦ fails
        | inl holds ↦
            absurd
              (let there = w a.artifact_id (h holds) in let no : ⊥ = ground (arith, there, q) in no)
      ] in
        rw q (passed, Marked-kept test ids more rest w m))
]

module _ (visit : Artifact → Removal → Removal)
    (grows : (a : Artifact) (r : Removal) → Within r.remove_ids (visit a r).remove_ids) where
  pub for_each-Within :
      (entries : List Artifact) (r : Removal)
      → Within r.remove_ids (for_each visit entries r).remove_ids
  unfolding for_each
  for_each-Within [] r id h = h
  for_each-Within (a ∷ rest) r id h = for_each-Within rest (visit a r) id (grows a r id h)

  pub for_each-Marked :
      (test : Artifact → Bool) (entries : List Artifact) (r : Removal)
      → ((a : Artifact) (q : Removal)
          → test a ≡ true
          → has_id a.artifact_id (visit a q).remove_ids ≡ true)
      → Marked test (for_each visit entries r).remove_ids entries
  unfolding for_each
  for_each-Marked test [] r marks = tt
  for_each-Marked test (a ∷ rest) r marks = (
    (λ h. for_each-Within rest (visit a r) a.artifact_id (marks a r h)),
    for_each-Marked test rest (visit a r) marks,
  )

-- At most so many, or any number without a limit.
abbrev pub AtMost : Option ℕ → ℕ → Type 0
AtMost none n = Unit
AtMost (some most) n = n ≤ most

abbrev pub total_bytes : List Artifact → ℕ
total_bytes [] = 0
total_bytes (a ∷ rest) = a.bytes + total_bytes rest

pub length-keep-drop :
    (p : Artifact → Bool) (n : ℕ) (xs : List Artifact)
    → length (keep p xs) ≤ n + length (keep p (drop n xs))
length-keep-drop p zero xs = omega arith
length-keep-drop p (suc n) [] = omega arith
length-keep-drop p (suc n) (x ∷ xs) = elim (Bool-cases (p x)) [
  | inl q ↦ rw q (omega (arith, length-keep-drop p n xs))
  | inr q ↦ rw q (omega (arith, length-keep-drop p n xs))
]

pub length-impossible : (xs : List Artifact) → All (λ a. true ≡ false) xs → length xs ≡ 0
length-impossible [] h = refl
length-impossible (x ∷ xs) (never, h) = cc
