-- ===== src/Common/Text.antt =====
-- A std::string as the list of its bytes, with the searches and comparisons that the code makes.
use Prim.Native.Nat.{ℕ}
use Prim.Native.Char.{code}
use Prim.Native.String.{String}
use mathlib.Core.Path.{◌≡◌, refl, ap}
use mathlib.Core.Logic.{◌≢◌}
use mathlib.Core.Bool.{Bool, true, false, ◌&&◌}
use mathlib.Core.List.{List, [], ◌∷◌, ◌++◌}
use native.Mathlib.Omega.{arith}
use libasyik.Common.Tests.{◌==◌, ==_refl, if◌then◌else◌}

abbrev pub Bytes : Type 0
Bytes = List ℕ

-- The bytes of an ASCII literal.
abbrev pub codes : String → Bytes
codes String.[] = []
codes (String.◌∷◌ c s) = code c ∷ codes s

unfoldable pub bytes_eq : Bytes → Bytes → Bool
bytes_eq [] [] = true
bytes_eq [] (b ∷ t) = false
bytes_eq (a ∷ s) [] = false
bytes_eq (a ∷ s) (b ∷ t) = a == b && bytes_eq s t

pub bytes_eq_refl : (s : Bytes) → bytes_eq s s ≡ true
unfolding bytes_eq
bytes_eq_refl [] = refl
bytes_eq_refl (a ∷ s) = ground (arith, bytes_eq_refl s)

pub eq_of_bytes_eq : (s t : Bytes) → bytes_eq s t ≡ true → s ≡ t
unfolding bytes_eq
eq_of_bytes_eq [] [] h = refl
eq_of_bytes_eq [] (b ∷ t) h = ground arith
eq_of_bytes_eq (a ∷ s) [] h = ground arith
eq_of_bytes_eq (a ∷ s) (b ∷ t) h = ground (arith, eq_of_bytes_eq s t)

-- `t.compare(0, p.size(), p) == 0`: the text t begins with p.
unfoldable pub begins_with : Bytes → Bytes → Bool
begins_with [] t = true
begins_with (a ∷ p) [] = false
begins_with (a ∷ p) (b ∷ t) = a == b && begins_with p t

pub begins_with-append : (p t : Bytes) → begins_with p (p ++ t) ≡ true
unfolding begins_with
begins_with-append [] t = refl
begins_with-append (a ∷ p) t = ground (arith, begins_with-append p t)

-- `s.find(c) != npos`
unfoldable pub has_byte : ℕ → Bytes → Bool
has_byte c [] = false
has_byte c (a ∷ s) = if a == c then true else has_byte c s

-- What stands in front of the first c, or all of the text: `s.erase(s.find(c))`.
unfoldable pub before : ℕ → Bytes → Bytes
before c [] = []
before c (a ∷ s) = if a == c then [] else a ∷ before c s

-- What stands behind the first c; nothing if there is none.
unfoldable pub behind : ℕ → Bytes → Bytes
behind c [] = []
behind c (a ∷ s) = if a == c then s else behind c s

-- `s.back() == c`, false of the empty text.
unfoldable pub ends_in : ℕ → Bytes → Bool
ends_in c [] = false
ends_in c (a ∷ []) = a == c
ends_in c (a ∷ b ∷ s) = ends_in c (b ∷ s)

-- `s.pop_back()`
unfoldable pub pop_back : Bytes → Bytes
pop_back [] = []
pop_back (a ∷ []) = []
pop_back (a ∷ b ∷ s) = a ∷ pop_back (b ∷ s)

pub before_of_absent : (c : ℕ) (s : Bytes) → has_byte c s ≡ false → before c s ≡ s
unfolding has_byte before
before_of_absent c [] h = refl
before_of_absent c (a ∷ s) h = ground (arith, before_of_absent c s)

pub before-append : (c : ℕ) (s t : Bytes) → before c (s ++ c ∷ t) ≡ before c s
unfolding before
before-append c [] t = ground arith
before-append c (a ∷ s) t = ground (arith, before-append c s t)

pub behind-append : (c : ℕ) (s t : Bytes) → has_byte c s ≡ false → behind c (s ++ c ∷ t) ≡ t
unfolding has_byte behind
behind-append c [] t h = ground arith
behind-append c (a ∷ s) t h = ground (arith, behind-append c s t)

pub before-behind : (c : ℕ) (s : Bytes) → has_byte c s ≡ true → before c s ++ c ∷ behind c s ≡ s
unfolding has_byte before behind
before-behind c [] h = ground arith
before-behind c (a ∷ s) h = ground (arith, before-behind c s)

pub has_byte-before : (c : ℕ) (s : Bytes) → has_byte c (before c s) ≡ false
unfolding has_byte before
has_byte-before c [] = refl
has_byte-before c (a ∷ s) = ground (arith, has_byte-before c s)

pub ends_in-append : (c : ℕ) (s : Bytes) → ends_in c (s ++ c ∷ []) ≡ true
unfolding ends_in
ends_in-append c [] = ==_refl c
ends_in-append c (a ∷ []) = ==_refl c
ends_in-append c (a ∷ b ∷ s) = ends_in-append c (b ∷ s)

pub pop_back-append : (c : ℕ) (s : Bytes) → pop_back (s ++ c ∷ []) ≡ s
unfolding pop_back
pop_back-append c [] = refl
pop_back-append c (a ∷ []) = refl
pop_back-append c (a ∷ b ∷ s) = ap (◌∷◌ a) (pop_back-append c (b ∷ s))

pub has_byte-append :
    (c d : ℕ) (s : Bytes) → has_byte c s ≡ false → c ≢ d → has_byte c (s ++ d ∷ []) ≡ false
unfolding has_byte
has_byte-append c d [] h n = ground arith
has_byte-append c d (a ∷ s) h n = ground (arith, has_byte-append c d s)

pub has_byte-append_mid : (c : ℕ) (s t : Bytes) → has_byte c (s ++ c ∷ t) ≡ true
unfolding has_byte
has_byte-append_mid c [] t = ground arith
has_byte-append_mid c (a ∷ s) t = ground (arith, has_byte-append_mid c s t)
