-- ===== src/Base/Texts.antt =====
-- JavaScript strings as their code units. Letters beyond ASCII have no lower case here.
use Prim.Native.Nat.{ℕ, zero, suc, ◌+◌, ◌/◌, ◌%◌}
use Prim.Native.Char.{code}
use Prim.Native.String.{String}
use mathlib.Core.Path.{◌≡◌, refl}
use mathlib.Core.Logic.{◌↔◌}
use mathlib.Core.Bool.{Bool, true, false, ◌&&◌, ◌||◌}
use mathlib.Core.List.{List, [], ◌∷◌, ◌++◌, map, reverse}
use native.Mathlib.Omega.{arith}
use surfwright.Base.Tests.{ltb, leb, ◌==◌, if◌then◌else◌}

abbrev pub Text : Type 0
Text = List ℕ

-- The code units of an ASCII literal.
abbrev pub lit : String → Text
lit String.[] = []
lit (String.◌∷◌ c s) = code c ∷ lit s

unfoldable pub text_eq : Text → Text → Bool
text_eq [] [] = true
text_eq [] (d ∷ t) = false
text_eq (c ∷ s) [] = false
text_eq (c ∷ s) (d ∷ t) = (c == d) && text_eq s t

pub text_eq-true : (s t : Text) → text_eq s t ≡ true → s ≡ t
unfolding text_eq
text_eq-true [] [] h = refl
text_eq-true [] (d ∷ t) h = cc
text_eq-true (c ∷ s) [] h = cc
text_eq-true (c ∷ s) (d ∷ t) h =
    let rest : text_eq s t ≡ true = ground arith in
    let tail = text_eq-true s t rest in let head : c ≡ d = ground arith in cc

pub text_eq_refl : (s : Text) → text_eq s s ≡ true
unfolding text_eq
text_eq_refl [] = refl
text_eq_refl (c ∷ s) = ground (arith, text_eq_refl s)

pub text_eq_iff : (s t : Text) → (text_eq s t ≡ true) ↔ (s ≡ t)
text_eq_iff s t = (text_eq-true s t, λ e. rw e (text_eq_refl t))

-- `text.startsWith(prefix)`, the prefix first.
unfoldable pub starts_with : Text → Text → Bool
starts_with [] t = true
starts_with (c ∷ p) [] = false
starts_with (c ∷ p) (d ∷ t) = (c == d) && starts_with p t

pub starts_with-append : (p t : Text) → starts_with p (p ++ t) ≡ true
unfolding starts_with
starts_with-append [] t = refl
starts_with-append (c ∷ p) t = ground (arith, starts_with-append p t)

-- What `trim` removes.
abbrev pub is_space : ℕ → Bool
is_space c =
    (leb 9 c && leb c 13)
    || (c == 32)
    || (c == 160)
    || (c == 0x1680)
    || (leb 0x2000 c && leb c 0x200a)
    || (c == 0x2028)
    || (c == 0x2029)
    || (c == 0x202f)
    || (c == 0x205f)
    || (c == 0x3000)
    || (c == 0xfeff)

unfoldable pub trim_start : Text → Text
trim_start [] = []
trim_start (c ∷ t) = if is_space c then trim_start t else c ∷ t

unfoldable pub trim : Text → Text
unfolding trim_start
trim t = reverse (trim_start (reverse (trim_start t)))

abbrev pub lower_code : ℕ → ℕ
lower_code c = if leb b'A' c && leb c b'Z' then c + 32 else c

unfoldable pub to_lower : Text → Text
to_lower t = map lower_code t

abbrev pub is_blank : Text → Bool
is_blank [] = true
is_blank (c ∷ t) = false

-- One string behind another.
unfoldable pub append_string : String → String → String
append_string String.[] t = t
append_string (String.◌∷◌ c s) t = String.◌∷◌ c (append_string s t)

-- The decimal digits of a number, `String(n)`: a number has no more digits than it counts ones.
abbrev digits_of : ℕ → ℕ → Text
digits_of zero n = []
digits_of (suc fuel) n = elim (ltb n 10) [
  | true ↦ (48 + n) ∷ []
  | false ↦ digits_of fuel (n / 10) ++ ((48 + n % 10) ∷ [])
]

unfoldable pub decimal : ℕ → Text
decimal n = digits_of (suc n) n
