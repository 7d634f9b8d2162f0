-- ===== src/Base/Maps.antt =====
-- A JavaScript `Map` or plain object with text keys, as an association list in insertion order: a
-- write to a present key keeps its place, a new key goes last.
use Prim.Native.Nat.{ℕ, suc, ◌+◌, ◌<◌}
use Prim.Native.String.{String}
use mathlib.Core.Path.{◌≡◌, refl, subst, ap}
use mathlib.Core.Bool.{false}
use mathlib.Core.List.{List, [], ◌∷◌}
use mathlib.Core.Option.{Option, none, some}
use native.Mathlib.Omega.{arith}
use text.Mathlib.Text.{◌==◌}
use text.Mathlib.TextEquality.{eq_iff}
use mathlib.Core.Logic.{inl, inr}
use surfwright.Base.Tests.{if◌then◌else◌, Bool-cases}
use surfwright.Base.Lists.{length, get_elem?}

module _ {ℓ} {V : Type ℓ} where
  unfoldable pub lookup : String → List (String × V) → Option V
  lookup key [] = none
  lookup key ((name, value) ∷ rest) = if name == key then some value else lookup key rest

  unfoldable pub insert : String → V → List (String × V) → List (String × V)
  insert key new [] = (key, new) ∷ []
  insert key new ((name, old) ∷ rest) =
      if name == key then (name, new) ∷ rest else (name, old) ∷ insert key new rest

  unfoldable pub erase : String → List (String × V) → List (String × V)
  erase key [] = []
  erase key ((name, value) ∷ rest) = if name == key then rest else (name, value) ∷ erase key rest

  abbrev pub keys : List (String × V) → List String
  keys [] = []
  keys ((name, value) ∷ rest) = name ∷ keys rest

  -- A write is read back under its key, and hides nothing else.
  pub lookup-insert :
      (key other : String) (new : V) (rest : List (String × V))
      → lookup other (insert key new rest) ≡ (if key == other then some new else lookup other rest)
  unfolding lookup insert
  lookup-insert key other new ((name, old) ∷ rest) =
      let ih = lookup-insert key other new rest in
      ground (arith, ih, eq_iff name other, eq_iff key other, eq_iff name key)
  lookup-insert key other new [] = refl

  pub lookup-insert_self :
      (k : String) (v : V) (m : List (String × V)) → lookup k (insert k v m) ≡ some v
  lookup-insert_self k v m = ground (arith, lookup-insert k k v m, eq_iff k k)

  pub length-keys : (m : List (String × V)) → length (keys m) ≡ length m
  length-keys [] = refl
  length-keys ((k, v) ∷ m) = omega (arith, length-keys m)

  -- Erasing another key changes no binding, also where keys repeat.
  pub lookup-erase_ne :
      (k j : String) (m : List (String × V)) → (k == j) ≡ false → lookup j (erase k m) ≡ lookup j m
  unfolding lookup erase
  lookup-erase_ne k j [] h = refl
  lookup-erase_ne k j ((i, w) ∷ m) h =
      ground (arith, eq_iff k j, eq_iff i k, eq_iff i j, lookup-erase_ne k j m h)

  -- No key twice.
  abbrev pub Distinct : List (String × V) → Type ℓ
  Distinct [] = Unit
  Distinct ((k, v) ∷ m) = (lookup k m ≡ none) × Distinct m

  pub insert-Distinct :
      (k : String) (v : V) (m : List (String × V)) → Distinct m → Distinct (insert k v m)
  unfolding insert lookup
  insert-Distinct k v [] d = (refl, tt)
  insert-Distinct k v ((j, w) ∷ m) (h, d) =
      ground (arith, eq_iff j k, eq_iff k j, lookup-insert k j v m, insert-Distinct k v m d)

  lookup-erase-none :
      (k j : String) (m : List (String × V)) → lookup j m ≡ none → lookup j (erase k m) ≡ none
  unfolding lookup erase
  lookup-erase-none k j [] h = refl
  lookup-erase-none k j ((i, w) ∷ m) h = ground (arith, lookup-erase-none k j m)

  pub erase-Distinct : (k : String) (m : List (String × V)) → Distinct m → Distinct (erase k m)
  unfolding erase
  erase-Distinct k [] d = tt
  erase-Distinct k ((j, w) ∷ m) (h, d) =
      ground (arith, erase-Distinct k m d, lookup-erase-none k j m h)

  pub lookup-erase_self :
      (k : String) (m : List (String × V)) → Distinct m → lookup k (erase k m) ≡ none
  unfolding lookup erase
  lookup-erase_self k [] d = refl
  lookup-erase_self k ((j, w) ∷ m) (h, d) = ground (arith, eq_iff j k, lookup-erase_self k m d)

  pub length-erase :
      (k : String) (v : V) (m : List (String × V))
      → lookup k m ≡ some v
      → suc (length (erase k m)) ≡ length m
  unfolding lookup erase
  length-erase k v [] e = cc
  length-erase k v ((j, w) ∷ m) e = ground (arith, length-erase k v m)

  pub length-insert_old :
      (k : String) (v new : V) (m : List (String × V))
      → lookup k m ≡ some v
      → length (insert k new m) ≡ length m
  unfolding lookup insert
  length-insert_old k v new [] e = cc
  length-insert_old k v new ((j, w) ∷ m) e = ground (arith, length-insert_old k v new m)

  -- A bound key stands at an index.
  pub lookup-index :
      (m : List (String × V)) (k : String) (v : V)
      → lookup k m ≡ some v
      → (i : ℕ) × (i < length m) × (get_elem? (keys m) i ≡ some k)
  unfolding lookup
  lookup-index [] k v e = cc
  lookup-index ((j, w) ∷ m) k v e = elim (Bool-cases (j == k)) [
    | inl same ↦ (0, omega arith, ap some ((eq_iff j k).0 same))
    | inr other ↦
        let (i, lt, at) = lookup-index m k v (rw (other, lookup) at e) in (suc i, omega arith, at)
  ]

-- A sum over the values, and a predicate on every binding.
module _ {ℓ} {V : Type ℓ} (f : V → ℕ) where
  unfoldable pub total : List (String × V) → ℕ
  total [] = 0
  total ((k, v) ∷ m) = f v + total m

  pub total-insert_new :
      (k : String) (v : V) (m : List (String × V))
      → lookup k m ≡ none
      → total (insert k v m) ≡ total m + f v
  unfolding total lookup insert
  total-insert_new k v [] h = omega arith
  total-insert_new k v ((j, w) ∷ m) h = ground (arith, total-insert_new k v m)

  pub total-insert_old :
      (k : String) (v w : V) (m : List (String × V))
      → lookup k m ≡ some w
      → total (insert k v m) + f w ≡ total m + f v
  unfolding total lookup insert
  total-insert_old k v w [] h = cc
  total-insert_old k v w ((j, u) ∷ m) h = ground (arith, total-insert_old k v w m)

  pub total-erase :
      (k : String) (w : V) (m : List (String × V))
      → lookup k m ≡ some w
      → total (erase k m) + f w ≡ total m
  unfolding total lookup erase
  total-erase k w [] h = cc
  total-erase k w ((j, u) ∷ m) h = ground (arith, total-erase k w m)

-- What holds of every binding that a lookup can see.
abbrev pub AllBound {ℓ κ} : {V : Type ℓ} → (String → V → Type κ) → List (String × V) → Type (ℓ ⊔ κ)
AllBound {V} P m = (k : String) (v : V) → lookup k m ≡ some v → P k v

module _ {ℓ κ} {V : Type ℓ} (P : String → V → Type κ) where
  pub AllBound-insert :
      (k : String) (v : V) (m : List (String × V))
      → P k v
      → AllBound P m
      → AllBound P (insert k v m)
  AllBound-insert k v m h a j w e = elim (Bool-cases (k == j)) [
    | inl same ↦
        let found : v ≡ w = ground (arith, lookup-insert k j v m) in
        subst (λ i. P i w) ((eq_iff k j).0 same) (subst (P k) found h)
    | inr other ↦ a j w (ground (arith, lookup-insert k j v m))
  ]

  pub AllBound-erase :
      (k : String) (m : List (String × V)) → Distinct m → AllBound P m → AllBound P (erase k m)
  AllBound-erase k m d a j w e = elim (Bool-cases (k == j)) [
    | inl same ↦ absurd (let no : ⊥ = ground (arith, eq_iff k j, lookup-erase_self k m d) in no)
    | inr other ↦ a j w (ground (arith, lookup-erase_ne k j m other))
  ]

-- A predicate on every value.
module _ {ℓ κ} {V : Type ℓ} (P : V → Type κ) where
  abbrev pub AllValues : List (String × V) → Type κ
  AllValues [] = Unit
  AllValues ((k, v) ∷ m) = P v × AllValues m

  pub AllValues-insert :
      (k : String) (v : V) (m : List (String × V)) → P v → AllValues m → AllValues (insert k v m)
  unfolding insert
  AllValues-insert k v [] h all = (h, tt)
  AllValues-insert k v ((j, w) ∷ m) h (first, rest) = elim (Bool-cases (j == k)) [
    | inl q ↦ rw q (h, rest)
    | inr q ↦ rw q (first, AllValues-insert k v m h rest)
  ]

  pub AllValues-erase : (k : String) (m : List (String × V)) → AllValues m → AllValues (erase k m)
  unfolding erase
  AllValues-erase k [] all = tt
  AllValues-erase k ((j, w) ∷ m) (first, rest) = elim (Bool-cases (j == k)) [
    | inl q ↦ rw q rest
    | inr q ↦ rw q (first, AllValues-erase k m rest)
  ]

  pub AllValues-lookup :
      (k : String) (v : V) (m : List (String × V)) → AllValues m → lookup k m ≡ some v → P v
  unfolding lookup
  AllValues-lookup k v [] all e = cc
  AllValues-lookup k v ((j, w) ∷ m) (first, rest) e = elim (Bool-cases (j == k)) [
    | inl q ↦
        (let found : some w ≡ some v = rw q at e in let same : w ≡ v = cc in subst P same first)
    | inr q ↦ AllValues-lookup k v m rest (rw q at e)
  ]
