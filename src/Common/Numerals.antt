-- ===== src/Common/Numerals.antt =====
-- That a number written as text is read back.
use Prim.Native.Nat.{ℕ, zero, suc, ◌+◌, ◌-◌, ◌*◌, ◌/◌, ◌%◌, ◌≤◌, ◌<◌}
use mathlib.Core.Path.{◌≡◌, refl, sym, ap, ◌∙◌}
use mathlib.Core.Logic.{◌≢◌, inl, inr}
use mathlib.Core.Bool.{Bool, true, false, ◌&&◌}
use mathlib.Core.Option.{Option, none, some}
use mathlib.Core.Option
use mathlib.Core.List.{[], ◌∷◌, ◌++◌}
use native.Mathlib.Omega.{arith}
use native.Mathlib.Nat.{div-lt_self, div-add-mod', mod-lt}
use libasyik.Common.Tests.{ltb, leb, Bool-cases}
use libasyik.Common.Text.{Bytes, has_byte, has_byte-append}
use libasyik.Common.Int.{pos}
use libasyik.Common.Digits.{
  digit, digits, to_string, digit_value, read_digits, starts_with_digit, read_sign, stoll, ll_max,
}

-- Reading the digits of a base from the left.
decode : (base n : ℕ) → Bytes → ℕ
decode base n [] = n
decode base n (c ∷ s) = decode base (n * base + Option.get_or (digit_value c) 0) s

decode-append :
    (base n c : ℕ) (s : Bytes)
    → decode base n (s ++ c ∷ []) ≡ decode base n s * base + Option.get_or (digit_value c) 0
unfolding decode
decode-append base n c [] = refl
decode-append base n c (a ∷ s) = decode-append base (n * base + Option.get_or (digit_value a) 0) c s

pub digit_value-digit : (d : ℕ) → d < 16 → digit_value (digit d) ≡ some d
unfolding digit_value
digit_value-digit d h = ground arith

module _ (base : ℕ) (lo : 2 ≤ base) (hi : base ≤ 16) where
  smaller : (fuel n : ℕ) → n < suc fuel → base ≤ n → n / base < fuel
  smaller fuel n h h' =
      let shrinks : n / base < n = div-lt_self {n = n} {k = base} (omega arith) (omega arith) in
      omega (arith, shrinks)

  digits_small : (fuel n : ℕ) → ltb n base ≡ true → digits base (suc fuel) n ≡ digit n ∷ []
  unfolding digits
  digits_small fuel n e = rw e refl

  digits_large :
      (fuel n : ℕ)
      → ltb n base ≡ false
      → digits base (suc fuel) n ≡ digits base fuel (n / base) ++ digit (n % base) ∷ []
  unfolding digits
  digits_large fuel n e = rw e refl

  last_digit : (n : ℕ) → digit_value (digit (n % base)) ≡ some (n % base)
  last_digit n =
      let small : n % base < base = mod-lt n (omega arith) in
      digit_value-digit (n % base) (omega (arith, small))

  decode-digits : (fuel n : ℕ) → n < fuel → decode base 0 (digits base fuel n) ≡ n
  unfolding decode
  decode-digits zero n h = omega arith
  decode-digits (suc fuel) n h = elim (Bool-cases (ltb n base)) [
    | inl e ↦ rw (digits_small fuel n e) (one_digit e)
    | inr e ↦
        rw
          (
            digits_large fuel n e,
            decode-append base 0 (digit (n % base)) (digits base fuel (n / base)),
            decode-digits fuel (n / base) (smaller fuel n h (ground arith)),
            last_digit n,
          )
          (div-add-mod' n base)
  ]
    where
      one_digit : ltb n base ≡ true → decode base 0 (digit n ∷ []) ≡ n
      one_digit e = rw (digit_value-digit n (ground arith)) (omega arith)

  -- A byte that is no digit does not occur.
  pub digits-has_byte :
      (c fuel n : ℕ) → ((d : ℕ) → d < 16 → c ≢ digit d) → has_byte c (digits base fuel n) ≡ false
  unfolding has_byte digits
  digits-has_byte c zero n h = refl
  digits-has_byte c (suc fuel) n h = elim (Bool-cases (ltb n base)) [
    | inl e ↦ rw e (ground (arith, h n (ground arith)))
    | inr e ↦
        let small : n % base < base = mod-lt n (omega arith) in
        rw e (
          has_byte-append c (digit (n % base)) (digits base fuel (n / base))
            (digits-has_byte c fuel (n / base) h) (h (n % base) (omega (arith, small))))
  ]

  pub digits-injective : (m n : ℕ) → digits base (suc m) m ≡ digits base (suc n) n → m ≡ n
  digits-injective m n e =
      sym (decode-digits (suc m) m (omega arith))
      ∙ ap (decode base 0) e
      ∙ decode-digits (suc n) n (omega arith)

-- Decimal digits only.
all_decimal : Bytes → Bool
all_decimal [] = true
all_decimal (c ∷ s) = leb 48 c && leb c 57 && all_decimal s

all_decimal-append :
    (s : Bytes) (c : ℕ) → all_decimal s ≡ true → 48 ≤ c → c ≤ 57 → all_decimal (s ++ c ∷ []) ≡ true
unfolding all_decimal
all_decimal-append [] c h lo hi = ground arith
all_decimal-append (a ∷ s) c h lo hi = ground (arith, all_decimal-append s c)

all_decimal-digits : (fuel n : ℕ) → all_decimal (digits 10 fuel n) ≡ true
unfolding digits all_decimal
all_decimal-digits zero n = refl
all_decimal-digits (suc fuel) n = elim (Bool-cases (ltb n 10)) [
  | inl e ↦ rw e (ground arith)
  | inr e ↦ rw e (
      all_decimal-append (digits 10 fuel (n / 10)) (digit (n % 10))
        (all_decimal-digits fuel (n / 10)) (ground arith) (ground arith))
]

read_digits-append :
    (n c : ℕ) (s : Bytes)
    → all_decimal s ≡ true
    → 48 ≤ c
    → c ≤ 57
    → read_digits n (s ++ c ∷ []) ≡ read_digits n s * 10 + (c - 48)
unfolding all_decimal read_digits
read_digits-append n c [] h lo hi = ground arith
read_digits-append n c (a ∷ s) h lo hi = ground (arith, read_digits-append (n * 10 + (a - 48)) c s)

read_digits-digits : (fuel n : ℕ) → n < fuel → read_digits 0 (digits 10 fuel n) ≡ n
unfolding digits read_digits
read_digits-digits zero n h = omega arith
read_digits-digits (suc fuel) n h = elim (Bool-cases (ltb n 10)) [
  | inl e ↦ rw e (ground arith)
  | inr e ↦
      rw
        (
          e,
          read_digits-append 0 (digit (n % 10)) (digits 10 fuel (n / 10))
              (all_decimal-digits fuel (n / 10)) (ground arith) (ground arith),
          read_digits-digits fuel (n / 10) (ground arith),
        )
        (ground arith)
]

starts-append : (s t : Bytes) → starts_with_digit s ≡ true → starts_with_digit (s ++ t) ≡ true
unfolding starts_with_digit
starts-append [] t h = ground arith
starts-append (a ∷ s) t h = h

starts-digits : (fuel n : ℕ) → n < fuel → starts_with_digit (digits 10 fuel n) ≡ true
unfolding digits starts_with_digit
starts-digits zero n h = ground arith
starts-digits (suc fuel) n h = elim (Bool-cases (ltb n 10)) [
  | inl e ↦ rw e (ground arith)
  | inr e ↦ rw e (
      starts-append (digits 10 fuel (n / 10)) (digit (n % 10) ∷ [])
        (starts-digits fuel (n / 10) (ground arith)))
]

stoll_of_digits :
    (s : Bytes)
    → starts_with_digit s ≡ true
    → read_digits 0 s ≤ ll_max
    → stoll s ≡ some (pos (read_digits 0 s))
unfolding starts_with_digit stoll read_sign
stoll_of_digits [] h small = ground arith
stoll_of_digits (c ∷ s) h small = ground arith

-- A number that fits is read back as it was written.
pub stoll-to_string : (n : ℕ) → n ≤ ll_max → stoll (to_string n) ≡ some (pos n)
stoll-to_string n h =
    let same = read_digits-digits (suc n) n (omega arith) in
    stoll_of_digits (to_string n) (starts-digits (suc n) n (omega arith)) (omega (arith, same))
    ∙ ap (λ m. some (pos m)) same

-- Nor is there anything but digits.
pub to_string-has_byte :
    (c n : ℕ) → ((d : ℕ) → d < 16 → c ≢ digit d) → has_byte c (to_string n) ≡ false
to_string-has_byte c n h = digits-has_byte 10 (omega arith) (omega arith) c (suc n) n h

pub to_string-nonempty : (n : ℕ) → to_string n ≢ []
unfolding starts_with_digit
to_string-nonempty n e =
    let starts = starts-digits (suc n) n (omega arith) in
    ground (arith, starts, ap starts_with_digit e)
