-- ===== src/StaticFiles/Etag.antt =====
-- The entity tags of src/http_static.cpp.
use libasyik.Common.{
  ℕ, suc, ◌<◌, ◌≡◌, sym, ap, ◌∙◌, ℤ, pos, negsuc, [], ◌∷◌, ◌++◌, false, before, behind, has_byte,
  before-append, before_of_absent, behind-append, pop_back, drop, pop_back-append, digits-has_byte,
  digits-injective, arith,
}
use libasyik.StaticFiles.{unsigned_64, hex, make_etag}

-- The numbers of a `long long`.
abbrev pub IsLongLong : ℤ → Type 0
IsLongLong (pos n) = n < 9223372036854775808
IsLongLong (negsuc n) = n < 9223372036854775808

unsigned_64-injective :
    (a b : ℤ) → IsLongLong a → IsLongLong b → unsigned_64 a ≡ unsigned_64 b → a ≡ b
unfolding unsigned_64
unsigned_64-injective (pos m) (pos n) h h' e = ap pos (omega arith)
unsigned_64-injective (pos m) (negsuc n) h h' e = absurd (omega arith)
unsigned_64-injective (negsuc m) (pos n) h h' e = absurd (omega arith)
unsigned_64-injective (negsuc m) (negsuc n) h h' e = ap negsuc (omega arith)

no_dash : (n : ℕ) → has_byte 45 (hex n) ≡ false
no_dash n = digits-has_byte 16 (omega arith) (omega arith) 45 (suc n) n (λ d h. ground arith)

-- The two numbers can be told from the tag.
before_dash : (m n : ℕ) → before 45 (hex m ++ 45 ∷ (hex n ++ 34 ∷ [])) ≡ hex m
before_dash m n =
    before-append 45 (hex m) (hex n ++ 34 ∷ []) ∙ before_of_absent 45 (hex m) (no_dash m)

behind_dash : (m n : ℕ) → pop_back (behind 45 (hex m ++ 45 ∷ (hex n ++ 34 ∷ []))) ≡ hex n
behind_dash m n =
    ap pop_back (behind-append 45 (hex m) (hex n ++ 34 ∷ []) (no_dash m))
    ∙ pop_back-append 34 (hex n)

-- Tags made of 64-bit numbers are equal only if the times of modification and the sizes are.
pub make_etag-injective :
    (m n m' n' : ℤ)
    → IsLongLong m
    → IsLongLong n
    → IsLongLong m'
    → IsLongLong n'
    → make_etag m n ≡ make_etag m' n'
    → (m ≡ m') × (n ≡ n')
unfolding make_etag
make_etag-injective m n m' n' hm hn hm' hn' e =
    let u = unsigned_64 in
    let same = ap (drop 1) e in
    (
      unsigned_64-injective m m' hm hm' (
          digits-injective 16 (omega arith) (omega arith) (u m) (u m')
            (sym (before_dash (u m) (u n)) ∙ ap (before 45) same ∙ before_dash (u m') (u n'))),
      unsigned_64-injective n n' hn hn' (
          digits-injective 16 (omega arith) (omega arith) (u n) (u n') (
            sym (behind_dash (u m) (u n))
            ∙ ap (λ s. pop_back (behind 45 s)) same
            ∙ behind_dash (u m') (u n'))),
    )
