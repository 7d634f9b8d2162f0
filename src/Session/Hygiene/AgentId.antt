-- ===== src/Session/Hygiene/AgentId.antt =====
-- src/core/session/domain/hygiene.ts, normalizeAgentId: what an owner's id consists of.
use surfwright.Base.{
  ℕ, zero, suc, ◌≤◌, Bool, true, false, ◌≡◌, refl, subst, ◌∙◌, ◌⊎◌, some, [], ◌∷◌, map, reverse,
  arith, ◌==◌, length, take, all, Text, is_space, trim_start, trim, and-true, Bool-cases, inl, inr,
  length-take-le,
}
use surfwright.Session.Hygiene.{
  is_agent_char, is_boundary, drop_boundary, trim_boundary_dots_and_dashes, dash_for, collapse,
  is_agent_id, cleaned, shortened, agent_id_of, normalize_agent_id,
}
use mathlib.Core.List.{reverse_aux, reverse-reverse}

all-reverse_aux :
    (p : ℕ → Bool) (s t : Text) → all p s ≡ true → all p t ≡ true → all p (reverse_aux s t) ≡ true
all-reverse_aux p [] t h k = k
all-reverse_aux p (c ∷ s) t h k =
    let (head, tail) = and-true (p c) (all p s) h in all-reverse_aux p s (c ∷ t) tail (rw head k)

all-reverse : (p : ℕ → Bool) (t : Text) → all p t ≡ true → all p (reverse t) ≡ true
all-reverse p t h = all-reverse_aux p t [] h refl

all-take : (p : ℕ → Bool) (n : ℕ) (t : Text) → all p t ≡ true → all p (take n t) ≡ true
all-take p zero t h = refl
all-take p (suc n) [] h = refl
all-take p (suc n) (c ∷ t) h = ground (arith, all-take p n t)

all-trim_start : (p : ℕ → Bool) (t : Text) → all p t ≡ true → all p (trim_start t) ≡ true
unfolding trim_start
all-trim_start p [] h = refl
all-trim_start p (c ∷ t) h =
    let (head, tail) = and-true (p c) (all p t) h in
    let rest = all-trim_start p t tail in
    elim (Bool-cases (is_space c)) [ inl e ↦ rw e rest | inr e ↦ rw e h ]

dash_for-is_agent_char : (c : ℕ) → is_agent_char (dash_for c) ≡ true
dash_for-is_agent_char c = elim (Bool-cases (is_agent_char c)) [
  | inl e ↦ rw e e
  | inr e ↦ rw e refl
]

all-map-dash_for : (t : Text) → all is_agent_char (map dash_for t) ≡ true
all-map-dash_for [] = refl
all-map-dash_for (c ∷ t) = rw (dash_for-is_agent_char c) (all-map-dash_for t)

all-collapse :
    (p : ℕ → Bool) (after : Bool) (t : Text) → all p t ≡ true → all p (collapse after t) ≡ true
unfolding collapse
all-collapse p after [] h = refl
all-collapse p after (c ∷ t) h =
    let (head, tail) = and-true (p c) (all p t) h in
    let dashes = all-collapse p true t tail in
    let others = all-collapse p false t tail in
    elim (Bool-cases (c == 45)) [
      | inr e ↦ rw (e, head) others
      | inl e ↦ elim (Bool-cases after) [
        | inl q ↦ rw (e, q) dashes
        | inr q ↦ rw (e, q, head) dashes
      ]
    ]

all-drop_boundary : (p : ℕ → Bool) (t : Text) → all p t ≡ true → all p (drop_boundary t) ≡ true
unfolding drop_boundary
all-drop_boundary p [] h = refl
all-drop_boundary p (c ∷ t) h =
    let (head, tail) = and-true (p c) (all p t) h in
    let rest = all-drop_boundary p t tail in
    elim (Bool-cases (is_boundary c)) [ inl e ↦ rw e rest | inr e ↦ rw e h ]

all-trim : (p : ℕ → Bool) (t : Text) → all p t ≡ true → all p (trim t) ≡ true
unfolding trim
all-trim p t h =
    let front = all-reverse p (trim_start t) (all-trim_start p t h) in
    let back = all-trim_start p (reverse (trim_start t)) front in
    all-reverse p (trim_start (reverse (trim_start t))) back

all-trim_boundary :
    (p : ℕ → Bool) (t : Text) → all p t ≡ true → all p (trim_boundary_dots_and_dashes t) ≡ true
unfolding trim_boundary_dots_and_dashes
all-trim_boundary p t h =
    let front = all-reverse p (drop_boundary t) (all-drop_boundary p t h) in
    let back = all-drop_boundary p (reverse (drop_boundary t)) front in
    all-reverse p (drop_boundary (reverse (drop_boundary t))) back

all-cleaned : (t : Text) → all is_agent_char (cleaned t) ≡ true
unfolding cleaned
all-cleaned t =
    let p = is_agent_char in
    let collapsed = all-collapse p false (map dash_for t) (all-map-dash_for t) in
    let trimmed = all-trim p (collapse false (map dash_for t)) collapsed in
    all-trim_boundary p (trim (collapse false (map dash_for t))) trimmed

-- No character of an agent's id is one that trim removes.
is_agent_char-is_space : (c : ℕ) → is_agent_char c ≡ true → is_space c ≡ false
is_agent_char-is_space c h = ground arith

trim_start_agent : (t : Text) → all is_agent_char t ≡ true → trim_start t ≡ t
unfolding trim_start
trim_start_agent [] h = refl
trim_start_agent (c ∷ t) h =
    let (head, tail) = and-true (is_agent_char c) (all is_agent_char t) h in
    rw (is_agent_char-is_space c head) refl

trim_agent : (t : Text) → all is_agent_char t ≡ true → trim t ≡ t
unfolding trim
trim_agent t h =
    let back = trim_start_agent (reverse t) (all-reverse is_agent_char t h) in
    rw (trim_start_agent t h, back) (reverse-reverse t)

-- What an id is: not empty, of the characters of the pattern, and short unless it was so given.
abbrev WellFormed : Text → Text → Type 0
WellFormed value id = (is_agent_id id ≡ true) × ((id ≡ value) ⊎ (length id ≤ 64))

shortened-WellFormed :
    (value t id : Text) → all is_agent_char t ≡ true → shortened t ≡ some id → WellFormed value id
shortened-WellFormed value [] id h e = cc
shortened-WellFormed value (c ∷ t) id h e =
    let same : take 64 (c ∷ t) ≡ id = cc in
    let chars = all-take is_agent_char 64 (c ∷ t) h in
    let short = length-take-le 64 (c ∷ t) in subst (WellFormed value) same (chars, inr short)

agent_id_of-WellFormed : (value id : Text) → agent_id_of value ≡ some id → WellFormed value id
unfolding agent_id_of
agent_id_of-WellFormed [] id e = cc
agent_id_of-WellFormed (c ∷ t) id e = elim (Bool-cases (is_agent_id (c ∷ t))) [
  | inl q ↦
      (let branch : some (c ∷ t) ≡ agent_id_of (c ∷ t) = rw q refl in
        let same : c ∷ t ≡ id = cc in subst (WellFormed (c ∷ t)) same (q, inl refl))
  | inr q ↦
      (let branch : shortened (cleaned (c ∷ t)) ≡ agent_id_of (c ∷ t) = rw q refl in
        shortened-WellFormed (c ∷ t) (cleaned (c ∷ t)) id (all-cleaned (c ∷ t)) (branch ∙ e))
]

agent_id_of_stable : (id : Text) → is_agent_id id ≡ true → agent_id_of (trim id) ≡ some id
unfolding agent_id_of
agent_id_of_stable [] h = cc
agent_id_of_stable (c ∷ t) h = rw (trim_agent (c ∷ t) h, h) refl

-- An owner's id that normalizeAgentId returns for any input is not empty, has only the letters,
-- digits, dots, underscores and dashes of its pattern, is the trimmed input or has at most 64
-- characters, and is returned unchanged when it is normalized again.
pub normalize_agent_id_stable :
    (input id : Text)
    → normalize_agent_id input ≡ some id
    → ((is_agent_id id ≡ true) × ((id ≡ trim input) ⊎ (length id ≤ 64)))
      × (normalize_agent_id id ≡ some id)
unfolding normalize_agent_id
normalize_agent_id_stable input id e =
    let shape = agent_id_of-WellFormed (trim input) id e in (shape, agent_id_of_stable id (shape.0))
