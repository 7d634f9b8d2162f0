-- ===== src/Target/SnapshotDiff/Counts.antt =====
-- src/core/target/infra/utils/target-snapshot-diff.ts: how often each element is added and removed.
use surfwright.Base.{
  ℕ, zero, suc, ◌+◌, ◌-◌, Bool, true, false, ◌||◌, ◌≡◌, refl, sym, subst, ap, ◌∙◌, List, [], ◌∷◌,
  ◌++◌, arith, if◌then◌else◌, replicate, bit, Text, text_eq, text_eq-true, text_eq_refl, Bool-cases,
  inl, inr,
}
use surfwright.Target.SnapshotDiff.{insert_sorted, sort_by, bump, tally, count_of, extras, diff_by}

text_eq-differ : (s t u : Text) → text_eq s t ≡ false → s ≡ u → text_eq t u ≡ false
text_eq-differ s t u h e = elim (Bool-cases (text_eq t u)) [
  | inr q ↦ q
  | inl q ↦
      (let same : s ≡ t = e ∙ sym (text_eq-true t u q) in
        let no : true ≡ false = sym (text_eq_refl t) ∙ subst (λ v. text_eq v t ≡ false) same h in
        cc)
]

module _ {ℓ} {A : Type ℓ} (key : A → Text) where
  -- How many elements of a list have a key.
  abbrev pub occurrences : Text → List A → ℕ
  occurrences k [] = 0
  occurrences k (x ∷ xs) = bit (text_eq (key x) k) + occurrences k xs

  occurrences-append :
      (k : Text) (xs ys : List A) → occurrences k (xs ++ ys) ≡ occurrences k xs + occurrences k ys
  occurrences-append k [] ys = omega arith
  occurrences-append k (x ∷ xs) ys = omega (arith, occurrences-append k xs ys)

  occurrences-replicate :
      (k : Text) (n : ℕ) (x : A)
      → occurrences k (replicate n x) ≡ (if text_eq (key x) k then n else 0)
  occurrences-replicate k zero x = ground arith
  occurrences-replicate k (suc n) x = ground (arith, occurrences-replicate k n x)

  occurrences-insert_sorted :
      (before : A → A → Bool) (k : Text) (x : A) (xs : List A)
      → occurrences k (insert_sorted before x xs) ≡ bit (text_eq (key x) k) + occurrences k xs
  unfolding insert_sorted
  occurrences-insert_sorted before k x [] = refl
  occurrences-insert_sorted before k x (y ∷ ys) = elim (Bool-cases (before y x)) [
    | inl q ↦ rw q (omega (arith, occurrences-insert_sorted before k x ys))
    | inr q ↦ rw q refl
  ]

  occurrences-sort_by :
      (before : A → A → Bool) (k : Text) (xs : List A)
      → occurrences k (sort_by before xs) ≡ occurrences k xs
  unfolding sort_by
  occurrences-sort_by before k [] = refl
  occurrences-sort_by before k (x ∷ xs) = omega (
    arith,
    occurrences-insert_sorted before k x (sort_by before xs),
    occurrences-sort_by before k xs,
  )

  abbrev has_key : Text → List (Text × (A × ℕ)) → Bool
  has_key k [] = false
  has_key k ((j, e) ∷ m) = text_eq j k || has_key k m

  -- Every entry has its element's key, and no key stands twice.
  abbrev Keyed : List (Text × (A × ℕ)) → Type 0
  Keyed [] = Unit
  Keyed ((j, (y, n)) ∷ m) = (key y ≡ j) × (has_key j m ≡ false) × Keyed m

  count_of-bump :
      (k : Text) (x : A) (m : List (Text × (A × ℕ)))
      → count_of key k (bump key x m) ≡ bit (text_eq (key x) k) + count_of key k m
  unfolding count_of bump
  count_of-bump k x [] = ground arith
  count_of-bump k x ((j, (y, n)) ∷ m) = elim (Bool-cases (text_eq j (key x))) [
    | inl q ↦ (let same = text_eq-true j (key x) q in rw q (rw (sym same) (ground arith)))
    | inr q ↦
        (let ih = count_of-bump k x m in
          rw q (elim (Bool-cases (text_eq j k)) [
            | inl r ↦
                (let same = text_eq-true j k r in
                  let differs : text_eq (key x) k ≡ false = text_eq-differ j (key x) k q same in
                  rw (r, differs) (omega arith))
            | inr r ↦ rw r ih
          ]))
  ]

  has_key-bump :
      (k : Text) (x : A) (m : List (Text × (A × ℕ)))
      → has_key k (bump key x m) ≡ text_eq (key x) k || has_key k m
  unfolding bump
  has_key-bump k x [] = refl
  has_key-bump k x ((j, (y, n)) ∷ m) = elim (Bool-cases (text_eq j (key x))) [
    | inl q ↦ (let same = text_eq-true j (key x) q in rw q (rw (sym same) (ground arith)))
    | inr q ↦ rw q (ground (arith, has_key-bump k x m))
  ]

  bump-Keyed : (x : A) (m : List (Text × (A × ℕ))) → Keyed m → Keyed (bump key x m)
  unfolding bump
  bump-Keyed x [] h = (refl, refl, tt)
  bump-Keyed x ((j, (y, n)) ∷ m) (named, fresh, rest) = elim (Bool-cases (text_eq j (key x))) [
    | inl q ↦ rw q (named, fresh, rest)
    | inr q ↦
        (let other : text_eq (key x) j ≡ false = text_eq-differ j (key x) j q refl in
          rw q (named, has_key-bump j x m ∙ rw other fresh, bump-Keyed x m rest))
  ]

  tally-Keyed : (xs : List A) (m : List (Text × (A × ℕ))) → Keyed m → Keyed (tally key m xs)
  unfolding tally
  tally-Keyed [] m h = h
  tally-Keyed (x ∷ xs) m h = tally-Keyed xs (bump key x m) (bump-Keyed x m h)

  count_of-tally :
      (k : Text) (xs : List A) (m : List (Text × (A × ℕ)))
      → count_of key k (tally key m xs) ≡ count_of key k m + occurrences k xs
  unfolding tally
  count_of-tally k [] m = omega arith
  count_of-tally k (x ∷ xs) m =
      omega (arith, count_of-tally k xs (bump key x m), count_of-bump k x m)

  occurrences-extras_none :
      (k : Text) (other m : List (Text × (A × ℕ)))
      → Keyed m
      → has_key k m ≡ false
      → occurrences k (extras key other m) ≡ 0
  unfolding extras
  occurrences-extras_none k other [] h absent = refl
  occurrences-extras_none k other ((j, (y, n)) ∷ m) (named, fresh, rest) absent =
      let more = n - count_of key j other in
      let differs : text_eq (key y) k ≡ false = rw named (ground (arith, absent)) in
      let none_here : occurrences k (replicate more y) ≡ 0 =
        occurrences-replicate k more y ∙ rw differs refl in
      let ih = occurrences-extras_none k other m rest (ground (arith, absent)) in
      omega (arith, occurrences-append k (replicate more y) (extras key other m), none_here, ih)

  occurrences-extras :
      (k : Text) (other m : List (Text × (A × ℕ)))
      → Keyed m
      → occurrences k (extras key other m) ≡ count_of key k m - count_of key k other
  unfolding extras count_of
  occurrences-extras k other [] h = omega arith
  occurrences-extras k other ((j, (y, n)) ∷ m) (named, fresh, rest) =
      let more = n - count_of key j other in
      let split = occurrences-append k (replicate more y) (extras key other m) in
      let here = occurrences-replicate k more y in
      elim (Bool-cases (text_eq j k)) [
        | inl q ↦
            (let same = text_eq-true j k q in
              let absent = occurrences-extras_none j other m rest fresh in
              let none_behind = subst (λ v. occurrences v (extras key other m) ≡ 0) same absent in
              let as_many : occurrences k (replicate more y) ≡ more = here ∙ rw named (rw q refl) in
              let of_k = ap (λ v. n - count_of key v other) same in
              rw q (omega (arith, split, none_behind, as_many, of_k)))
        | inr q ↦
            (let ih = occurrences-extras k other m rest in
              let none_here : occurrences k (replicate more y) ≡ 0 = here ∙ rw named (rw q refl) in
              rw q (omega (arith, split, none_here, ih)))
      ]

  -- The difference of two lists, under any order: of the elements with a key, as many are added as the
  -- second list has more than the first, and as many removed as it has less.
  pub diff_by-occurrences :
      (before : A → A → Bool) (a b : List A) (k : Text)
      → (let d = diff_by key before a b in
          (occurrences k d.removed ≡ occurrences k a - occurrences k b)
          × (occurrences k d.added ≡ occurrences k b - occurrences k a))
  unfolding diff_by count_of
  diff_by-occurrences before a b k =
      let a_map = tally key [] a in
      let b_map = tally key [] b in
      let counted_a = count_of-tally k a [] in
      let counted_b = count_of-tally k b [] in
      let removed = occurrences-extras k b_map a_map (tally-Keyed a [] tt) in
      let added = occurrences-extras k a_map b_map (tally-Keyed b [] tt) in
      (
        omega (
          arith,
          occurrences-sort_by before k (extras key b_map a_map),
          counted_a,
          counted_b,
          removed,
        ),
        omega (
          arith,
          occurrences-sort_by before k (extras key a_map b_map),
          counted_a,
          counted_b,
          added,
        ),
      )
