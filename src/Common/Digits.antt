-- ===== src/Common/Digits.antt =====
-- Numbers as text, as the C++ standard library writes and reads them.
use Prim.Native.Nat.{ℕ, zero, suc, ◌+◌, ◌-◌, ◌*◌, ◌/◌, ◌%◌}
use mathlib.Core.Bool.{Bool, false, ◌&&◌, ◌||◌}
use mathlib.Core.Option.{Option, none, some}
use mathlib.Core.List.{[], ◌∷◌, ◌++◌}
use libasyik.Common.Tests.{ltb, leb, ◌==◌, if◌then◌else◌}
use libasyik.Common.Text.{Bytes}
use libasyik.Common.Int.{ℤ, pos, negsuc}

abbrev pub digit : ℕ → ℕ
digit d = if ltb d 10 then 48 + d else 87 + d

-- The digits of a number; the fuel `suc n` is enough for every base above 1.
unfoldable pub digits : (base fuel n : ℕ) → Bytes
digits base zero n = []
digits base (suc fuel) n =
    let front = digits base fuel (n / base) in
    if ltb n base then digit n ∷ [] else front ++ digit (n % base) ∷ []

-- `std::to_string`
abbrev pub to_string : ℕ → Bytes
to_string n = digits 10 (suc n) n

-- `isxdigit` and the digit's value.
unfoldable pub digit_value : ℕ → Option ℕ
digit_value c =
    if leb 48 c && leb c 57
    then some (c - 48)
    else if leb 65 c && leb c 70
    then some (c - 55)
    else if leb 97 c && leb c 102
    then some (c - 87)
    else none

-- The value of the digits read so far, with that of the decimal digits that follow.
unfoldable pub read_digits : ℕ → Bytes → ℕ
read_digits n [] = n
read_digits n (c ∷ s) =
    let rest = read_digits (n * 10 + (c - 48)) s in if leb 48 c && leb c 57 then rest else n

unfoldable pub starts_with_digit : Bytes → Bool
starts_with_digit [] = false
starts_with_digit (c ∷ s) = leb 48 c && leb c 57

abbrev pub ll_max : ℕ
ll_max = 9223372036854775807

-- What follows the sign.
unfoldable pub read_sign : Bytes → Option ℤ
read_sign [] = none
read_sign (c ∷ s) =
    if c == 45
    then (if starts_with_digit s && leb (read_digits 0 s) (ll_max + 1)
        then some (elim (read_digits 0 s) [ zero ↦ pos 0 | suc n ↦ negsuc n ])
        else none)
    else (let t = if c == 43 then s else c ∷ s in
        if starts_with_digit t && leb (read_digits 0 t) ll_max
        then some (pos (read_digits 0 t))
        else none)

abbrev pub is_space : ℕ → Bool
is_space c = c == 32 || (leb 9 c && leb c 13)

-- `std::stoll`; `none` is either of its exceptions.
unfoldable pub stoll : Bytes → Option ℤ
stoll [] = none
stoll (c ∷ s) = let rest = stoll s in if is_space c then rest else read_sign (c ∷ s)
