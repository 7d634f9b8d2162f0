-- ===== src/Daemon/LaneKey/Hash.antt =====
-- `hashOriginToken`: eight hexadecimal digits that stand for the 32-bit hash.
use surfwright.Base.{
  ℕ, zero, suc, ◌+◌, ◌-◌, ◌*◌, ◌/◌, ◌%◌, ◌^◌, ◌≤◌, ◌<◌, ◌≡◌, refl, ◌↔◌, inl, inr, [], ◌∷◌, ◌++◌,
  arith, if◌then◌else◌, ltb, length, length-append, replicate, Text, bit_xor, Bool-cases, ltb→lt,
  sym, ap, ◌∙◌,
}
use surfwright.Daemon.LaneKey.{hash_word, hex_digit, to_hex, pad_start, hash_origin_token}

abbrev pub digit_value : ℕ → ℕ
digit_value c = if ltb c 58 then c - 48 else c - 87

-- Reading hexadecimal digits.
abbrev pub hex_value : ℕ → Text → ℕ
hex_value acc [] = acc
hex_value acc (c ∷ t) = hex_value (acc * 16 + digit_value c) t

hex_value-snoc :
    (acc : ℕ) (s : Text) (c : ℕ)
    → hex_value acc (s ++ c ∷ []) ≡ hex_value acc s * 16 + digit_value c
hex_value-snoc acc [] c = refl
hex_value-snoc acc (d ∷ s) c = hex_value-snoc (acc * 16 + digit_value d) s c

digit_value-hex_digit : (d : ℕ) → d < 16 → digit_value (hex_digit d) ≡ d
digit_value-hex_digit d h = ground arith

-- What `fuel` digits can stand for.
abbrev capacity : ℕ → ℕ
capacity zero = 1
capacity (suc fuel) = 16 * capacity fuel

hex_value-to_hex : (fuel n : ℕ) → n < capacity fuel → hex_value 0 (to_hex fuel n) ≡ n
unfolding to_hex
hex_value-to_hex zero n h = omega arith
hex_value-to_hex (suc fuel) n h = elim (Bool-cases (ltb n 16)) [
  | inl small ↦
      rw (small, if◌then◌else◌)
        (let d = digit_value-hex_digit n (ltb→lt n 16 small) in omega (arith, d))
  | inr big ↦
      rw (big, if◌then◌else◌)
        (hex_value-snoc 0 (to_hex fuel (n / 16)) (hex_digit (n % 16))
          ∙ (let ih = hex_value-to_hex fuel (n / 16) (omega arith) in
              let d = digit_value-hex_digit (n % 16) (omega arith) in omega (arith, ih, d)))
]

length-to_hex : (fuel n : ℕ) → length (to_hex fuel n) ≤ fuel
unfolding to_hex
length-to_hex zero n = omega arith
length-to_hex (suc fuel) n = ground (
  arith,
  length-to_hex fuel (n / 16),
  length-append (to_hex fuel (n / 16)) (hex_digit (n % 16) ∷ []),
)

hex_value-zeros : (n : ℕ) (t : Text) → hex_value 0 (replicate n b'0' ++ t) ≡ hex_value 0 t
hex_value-zeros zero t = refl
hex_value-zeros (suc n) t = hex_value-zeros n t

length-pad_start :
    (width : ℕ) (c : ℕ) (t : Text) → length t ≤ width → length (pad_start width c t) ≡ width
length-pad_start width c t h =
    omega (arith, length-append (replicate (width - length t) c) t, length-zeros (width - length t))
  where
    length-zeros : (n : ℕ) → length (replicate n c) ≡ n
    length-zeros zero = refl
    length-zeros (suc n) = ap suc (length-zeros n)

hash_word_bound : (hash : ℕ) (t : Text) → hash < 2 ^ 32 → hash_word hash t < 2 ^ 32
unfolding hash_word
hash_word_bound hash [] h = h
hash_word_bound hash (c ∷ t) h =
    hash_word_bound ((bit_xor hash c * 16777619) % 2 ^ 32) t (omega arith)

-- A token is always eight digits long, and stands for the 32-bit hash of its text; so two texts have
-- one token exactly when their hashes are equal.
pub hash_origin_token_digits :
    (s t : Text)
    → (length (hash_origin_token s) ≡ 8)
      × (hex_value 0 (hash_origin_token s) ≡ hash_word 2166136261 s)
      × (hash_word 2166136261 s < 2 ^ 32)
      × ((hash_origin_token s ≡ hash_origin_token t)
          ↔ (hash_word 2166136261 s ≡ hash_word 2166136261 t))
unfolding hash_origin_token
hash_origin_token_digits s t = (
  length-pad_start 8 b'0' (to_hex 8 (hash_word 2166136261 s)) (length-to_hex 8 _),
  value s,
  bound s,
  (
    λ e. sym (value s) ∙ ap (hex_value 0) e ∙ value t,
    λ e. ap (λ h. pad_start 8 b'0' (to_hex 8 h)) e,
  ),
)
  where
    bound : (u : Text) → hash_word 2166136261 u < 2 ^ 32
    bound u = hash_word_bound 2166136261 u (omega arith)

    value : (u : Text) → hex_value 0 (hash_origin_token u) ≡ hash_word 2166136261 u
    value u =
        hex_value-zeros (8 - length (to_hex 8 (hash_word 2166136261 u))) _
        ∙ hex_value-to_hex 8 _ (bound u)
