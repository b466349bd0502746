-- ===== src/StaticFiles/Decoding.antt =====
-- `percent_decode` of src/http_static.cpp.
use libasyik.Common.{
  ℕ, ◌/◌, ◌%◌, ◌≤◌, ◌<◌, ◌≡◌, refl, ap, ◌∙◌, ◌≢◌, inl, inr, [], ◌∷◌, Bool, false, ◌==◌,
  if◌then◌else◌, Bool-cases, Option-cases, length, Bytes, digit, digit_value-digit, arith,
}
use libasyik.StaticFiles.{hex_pair, percent_decode}

-- A text with some bytes kept as they are and the others written as '%' and two digits.
abbrev pub percent_encode : (kept : ℕ → Bool) → Bytes → Bytes
percent_encode kept [] = []
percent_encode kept (c ∷ s) =
    let rest = percent_encode kept s in
    if kept c then c ∷ rest else 37 ∷ digit (c / 16) ∷ digit (c % 16) ∷ rest

abbrev pub AllBytes : Bytes → Type 0
AllBytes [] = Unit
AllBytes (c ∷ s) = (c < 256) × AllBytes s

percent_decode-plain : (c : ℕ) (s : Bytes) → c ≢ 37 → percent_decode (c ∷ s) ≡ c ∷ percent_decode s
unfolding percent_decode
percent_decode-plain c [] n = refl
percent_decode-plain c (a ∷ []) n = refl
percent_decode-plain c (a ∷ b ∷ s) n = ground (arith, n)

percent_decode-escape :
    (c : ℕ) (s : Bytes)
    → c < 256
    → percent_decode (37 ∷ digit (c / 16) ∷ digit (c % 16) ∷ s) ≡ c ∷ percent_decode s
unfolding percent_decode hex_pair
percent_decode-escape c s h =
    rw (digit_value-digit (c / 16) (omega arith), digit_value-digit (c % 16) (omega arith))
      (ap (λ b. b ∷ percent_decode s) (omega arith))

-- A text of bytes in which any bytes but '%' are kept and the others are written as escapes is
-- decoded to what it was.
pub percent_decode-encode :
    (kept : ℕ → Bool) (s : Bytes)
    → kept 37 ≡ false
    → AllBytes s
    → percent_decode (percent_encode kept s) ≡ s
unfolding percent_decode
percent_decode-encode kept [] h b = refl
percent_decode-encode kept (c ∷ s) h (b, bs) = elim (Bool-cases (kept c)) [
  | inl e ↦ rw e (
      percent_decode-plain c (percent_encode kept s) (λ same. cc (ap kept same, e, h))
      ∙ ap (◌∷◌ c) (percent_decode-encode kept s h bs))
  | inr e ↦ rw e (
      percent_decode-escape c (percent_encode kept s) b
      ∙ ap (◌∷◌ c) (percent_decode-encode kept s h bs))
]

-- Decoding never makes a text longer.
pub length-percent_decode : (s : Bytes) → length (percent_decode s) ≤ length s
unfolding percent_decode
length-percent_decode [] = omega arith
length-percent_decode (c ∷ []) = omega arith
length-percent_decode (c ∷ a ∷ []) = omega arith
length-percent_decode (c ∷ a ∷ b ∷ s) =
    let skipped = length-percent_decode s in
    let next = length-percent_decode (a ∷ b ∷ s) in
    elim (Bool-cases (c == 37)) [
      | inl e ↦ elim (Option-cases (hex_pair a b)) [
        | inl n ↦ rw (e, n) (omega (arith, next))
        | inr (byte, n) ↦ rw (e, n) (omega (arith, skipped))
      ]
      | inr e ↦ rw e (omega (arith, next))
    ]
