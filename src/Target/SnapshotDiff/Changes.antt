-- ===== src/Target/SnapshotDiff/Changes.antt =====
-- src/core/target/infra/utils/target-snapshot-diff.ts: what the flags of a report say.
use surfwright.Base.{
  ◌+◌, Bool, true, false, ◌≡◌, ◌↔◌, refl, List, [], ◌∷◌, arith, length, bit, Text, text_eq_refl,
  to_lower,
}
use surfwright.Target.SnapshotDiff.{
  Snapshot, diff_by, is_changed, normalize_list, normalize_links, link_key, text_before,
  diff_multiset, diff_links, target_snapshot_diff,
}
use surfwright.Target.SnapshotDiff.Counts.{occurrences, diff_by-occurrences}

module _ {ℓ} {A : Type ℓ} (key : A → Text) where
  -- Two lists with the same elements, by their keys, each as often.
  abbrev pub SameElements : List A → List A → Type 0
  SameElements a b = (k : Text) → occurrences key k a ≡ occurrences key k b

  -- A list in which nothing occurs is empty.
  length-none : (xs : List A) → ((k : Text) → occurrences key k xs ≡ 0) → length xs ≡ 0
  length-none [] h = refl
  length-none (x ∷ xs) h =
      let here = text_eq_refl (key x) in
      let no : bit true + occurrences key (key x) xs ≡ 0 = rw here at (h (key x)) in
      absurd (omega (arith, no))

  occurrences-none : (xs : List A) → length xs ≡ 0 → (k : Text) → occurrences key k xs ≡ 0
  occurrences-none [] h k = refl
  occurrences-none (x ∷ xs) h k = absurd (omega (arith, h))

  is_changed-SameElements :
      (before : A → A → Bool) (a b : List A)
      → (is_changed (diff_by key before a b) ≡ false) ↔ SameElements a b
  is_changed-SameElements before a b =
      let d = diff_by key before a b in
      let counts = diff_by-occurrences key before a b in
      (
        λ h k.
            (let no_added : length d.added ≡ 0 = ground (arith, h) in
              let no_removed : length d.removed ≡ 0 = ground (arith, h) in
              omega (
                arith,
                (counts k).0,
                (counts k).1,
                occurrences-none d.added no_added k,
                occurrences-none d.removed no_removed k,
              )),
        λ same.
            (let no_removed = length-none d.removed (λ k. omega (arith, (counts k).0, same k)) in
              let no_added = length-none d.added (λ k. omega (arith, (counts k).1, same k)) in
              ground (arith, no_removed, no_added)),
      )

-- The report of two snapshots says that headings, buttons or links have not changed exactly where both
-- have the same ones, cleaned and each as often, in whatever order. Links are told apart by their keys.
pub target_snapshot_diff-unchanged :
    (locale_before : Text → Text → Bool) (a b : Snapshot)
    → (let report = target_snapshot_diff locale_before a b in
        ((report.headings_changed ≡ false)
          ↔ SameElements (λ t. t) (normalize_list a.headings) (normalize_list b.headings))
        × ((report.buttons_changed ≡ false)
            ↔ SameElements (λ t. t) (normalize_list a.buttons) (normalize_list b.buttons))
        × ((report.links_changed ≡ false)
            ↔ SameElements link_key (normalize_links a.links) (normalize_links b.links)))
unfolding target_snapshot_diff diff_multiset diff_links
target_snapshot_diff-unchanged locale_before a b =
    let as_text = is_changed-SameElements (λ t. t) text_before in
    let as_link =
      is_changed-SameElements link_key
        (λ x y. locale_before (to_lower (link_key x)) (to_lower (link_key y))) in
    (
      as_text (normalize_list a.headings) (normalize_list b.headings),
      as_text (normalize_list a.buttons) (normalize_list b.buttons),
      as_link (normalize_links a.links) (normalize_links b.links),
    )
