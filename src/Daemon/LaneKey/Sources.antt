-- ===== src/Daemon/LaneKey/Sources.antt =====
-- What a lane key says of its source, and when two requests share a lane.
use mathlib.Core.List.{tail}
use surfwright.Base.{
  ℕ, Bool, true, false, ◌≡◌, refl, inl, inr, Option, none, some, List, [], ◌∷◌, ◌++◌, arith,
  if◌then◌else◌, Text, lit, starts_with, Bool-cases, Option-cases, sym, ap, subst, ◌∙◌, ◌↔◌,
  is_blank,
}
use surfwright.Daemon.LaneKey.{
  DaemonLaneSource, session_id, cdp_origin, DaemonLaneFamily, DaemonLaneResolution, lane_of,
  choose_lane, resolve_daemon_lane_key, control_lane_key, origin_lane_key, open_origin_lane_key,
  first_open_input_token, valid_option_value, is_open, when_some, command_family,
}

abbrev pub prefix_of : DaemonLaneSource → Text
prefix_of session_id = lit "session:"
prefix_of cdp_origin = lit "origin:"
prefix_of DaemonLaneSource.control = lit "control:"

control_lane_key_prefix :
    (argv : List Text) → starts_with (lit "control:") (control_lane_key argv) ≡ true
unfolding control_lane_key starts_with
control_lane_key_prefix argv = elim (Option-cases (valid_option_value argv (lit "--agent-id"))) [
  | inl e ↦ rw (e, control_lane_key) refl
  | inr (a, e) ↦ rw (e, control_lane_key) refl
]

origin_lane_key_prefix :
    (origin_of : Text → Option Text) (input : Text)
    → starts_with (lit "origin:") (origin_lane_key origin_of input) ≡ true
unfolding origin_lane_key starts_with
origin_lane_key_prefix origin_of input = elim (Option-cases (origin_of input)) [
  | inl e ↦ rw (e, origin_lane_key) refl
  | inr (a, e) ↦ rw (e, origin_lane_key) refl
]

-- What `some` lane of an `open` looks like.
abbrev OriginKey : Option Text → Type 0
OriginKey none = Unit {0}
OriginKey (some key) = starts_with (lit "origin:") key ≡ true

open_origin_lane_key_prefix :
    (origin_of : Text → Option Text) (argv : List Text)
    → OriginKey (open_origin_lane_key origin_of argv)
unfolding open_origin_lane_key
open_origin_lane_key_prefix origin_of argv = elim (Option-cases (first_open_input_token argv)) [
  | inl e ↦ rw (e, open_origin_lane_key) tt
  | inr (input, e) ↦ elim (Bool-cases (is_blank input)) [
    | inl blank ↦ rw (e, open_origin_lane_key) (rw (blank, if◌then◌else◌) tt)
    | inr full ↦
        rw (e, open_origin_lane_key)
          (rw (full, if◌then◌else◌) (origin_lane_key_prefix origin_of input))
  ]
]

abbrev Marked : DaemonLaneResolution → Type 0
Marked r = starts_with (prefix_of r.source) r.lane_key ≡ true

choose_lane-Marked :
    (family : DaemonLaneFamily) (session cdp profile shared open_lane : Option Text) (rest : Text)
    → OriginKey open_lane
    → starts_with (lit "control:") rest ≡ true
    → Marked (choose_lane family session cdp profile shared open_lane rest)
unfolding choose_lane starts_with
choose_lane-Marked family (some id) cdp profile shared open_lane rest o c = refl
choose_lane-Marked family none (some cdp) profile shared open_lane rest o c = refl
choose_lane-Marked family none none (some profile) shared open_lane rest o c = refl
choose_lane-Marked family none none none (some shared) open_lane rest o c = refl
choose_lane-Marked family none none none none (some key) rest o c = o
choose_lane-Marked family none none none none none rest o c = c

when_open-OriginKey : (b : Bool) (o : Option Text) → OriginKey o → OriginKey (when_some b o)
when_open-OriginKey true o h = h
when_open-OriginKey false o h = tt

-- Whatever the arguments, the lane key begins with the word of its source: `session:`, `origin:` or
-- `control:`.
pub resolve_daemon_lane_key_prefix :
    (usages : List (List Text)) (origin_of : Text → Option Text) (argv : List Text)
    → let r = resolve_daemon_lane_key usages origin_of argv in
      starts_with (prefix_of r.source) r.lane_key ≡ true
unfolding resolve_daemon_lane_key
resolve_daemon_lane_key_prefix usages origin_of argv =
    let family = command_family usages argv in
    choose_lane-Marked family _ _ _ _ _ _
      (when_open-OriginKey (is_open family) _ (open_origin_lane_key_prefix origin_of argv))
      (control_lane_key_prefix argv)

abbrev initial : DaemonLaneSource → ℕ
initial session_id = b's'
initial cdp_origin = b'o'
initial DaemonLaneSource.control = b'c'

initial_of_prefix :
    (a : DaemonLaneSource) (c : ℕ) (key : Text)
    → starts_with (prefix_of a) (c ∷ key) ≡ true
    → c ≡ initial a
unfolding starts_with
initial_of_prefix session_id c key h = ground arith
initial_of_prefix cdp_origin c key h = ground arith
initial_of_prefix DaemonLaneSource.control c key h = ground arith

not_empty : (a : DaemonLaneSource) → starts_with (prefix_of a) [] ≡ false
unfolding starts_with
not_empty session_id = refl
not_empty _ = refl

prefix_unique :
    (a b : DaemonLaneSource) (key : Text)
    → starts_with (prefix_of a) key ≡ true
    → starts_with (prefix_of b) key ≡ true
    → a ≡ b
prefix_unique a b [] h k = cc (not_empty a)
prefix_unique a b (c ∷ key) h k =
    let p = initial_of_prefix a c key h in let q = initial_of_prefix b c key k in ground arith

-- Two requests whose lanes come from different sources never share a lane.
pub resolve_daemon_lane_key_disjoint :
    (usages : List (List Text)) (origin_of : Text → Option Text) (argv argv' : List Text)
    → (resolve_daemon_lane_key usages origin_of argv).lane_key
      ≡ (resolve_daemon_lane_key usages origin_of argv').lane_key
    → (resolve_daemon_lane_key usages origin_of argv).source
      ≡ (resolve_daemon_lane_key usages origin_of argv').source
resolve_daemon_lane_key_disjoint usages origin_of argv argv' same =
    prefix_unique _ _ _ (resolve_daemon_lane_key_prefix usages origin_of argv) (
      subst
        (λ k.
          starts_with (prefix_of (resolve_daemon_lane_key usages origin_of argv').source) k ≡ true)
        (sym same) (resolve_daemon_lane_key_prefix usages origin_of argv'))

append_cancel : (p s t : Text) → p ++ s ≡ p ++ t → s ≡ t
append_cancel [] s t e = e
append_cancel (c ∷ p) s t e = append_cancel p s t (ap tail e)

-- The lane of a request that names a session depends on that name alone.
session_lane :
    (usages : List (List Text)) (origin_of : Text → Option Text) (argv : List Text) (id : Text)
    → valid_option_value argv (lit "--session") ≡ some id
    → resolve_daemon_lane_key usages origin_of argv
      ≡ lane_of (command_family usages argv) session_id (lit "session:" ++ id)
unfolding resolve_daemon_lane_key choose_lane
session_lane usages origin_of argv id e = rw e refl

-- Two requests that name a session by `--session` share a lane exactly when they name the same one,
-- whatever their commands and other options are; their lane is one of a session, and no request
-- whose lane has another source shares it.
pub resolve_daemon_lane_key_session :
    (usages : List (List Text)) (origin_of : Text → Option Text) (argv argv' : List Text)
    (id id' : Text)
    → valid_option_value argv (lit "--session") ≡ some id
    → valid_option_value argv' (lit "--session") ≡ some id'
    → let r = resolve_daemon_lane_key usages origin_of argv in
      let r' = resolve_daemon_lane_key usages origin_of argv' in
      ((r.lane_key ≡ r'.lane_key) ↔ (id ≡ id'))
      × (r.source ≡ session_id)
      × ((other : List Text)
          → ¬ ((resolve_daemon_lane_key usages origin_of other).source ≡ session_id)
          → ¬ (r.lane_key ≡ (resolve_daemon_lane_key usages origin_of other).lane_key))
resolve_daemon_lane_key_session usages origin_of argv argv' id id' e e' =
    let lane = session_lane usages origin_of argv id e in
    let lane' = session_lane usages origin_of argv' id' e' in
    (
      (
        λ same.
            append_cancel (lit "session:") id id'
              (sym (ap (λ r. r.lane_key) lane) ∙ same ∙ ap (λ r. r.lane_key) lane'),
        λ same.
            ap (λ r. r.lane_key) lane
            ∙ ap (λ i. lit "session:" ++ i) same
            ∙ sym (ap (λ r. r.lane_key) lane'),
      ),
      ap (λ r. r.source) lane,
      λ other foreign same. foreign (
          sym (resolve_daemon_lane_key_disjoint usages origin_of argv other same)
          ∙ ap (λ r. r.source) lane),
    )
