-- ===== src/Digest/Section.antt =====
-- `findSection` of include/libasyik/internal/digestauth.hpp: the view that it makes of a match.
use libasyik.Common.{
  some, Option, ℕ, ◌+◌, ◌-◌, ◌%◌, ◌≤◌, ◌<◌, ◌≡◌, ◌⊎◌, refl, sym, ap, ◌∙◌, inl, inr, [], ◌∷◌, ◌++◌,
  append_assoc, true, false, Bool-cases, length, length-append, take, drop, take-append_self,
  drop-append_self, Bytes, begins_with, arith,
}
use mathlib.Core.Option
use libasyik.Digest.{find_section, size_mod, quote_at, trim_quotes, view_text}

-- What the expression matches: one byte or more, inside a header that fits in memory.
pub record IsMatch (header : Bytes) (first size : ℕ) : Type 0 where
  pub nonempty : 0 < size
  pub inside : first + size ≤ length header
  pub fits : length header < size_mod

-- Trimming leaves a part of the match, unless the match is one quote alone.
trim_quotes_inside :
    (header : Bytes) (first size : ℕ)
    → IsMatch header first size
    → (1 < size) ⊎ (quote_at first header ≡ false)
    → let (offset, size') = trim_quotes header first size in
      (first ≤ offset) × (offset + size' ≤ first + size)
unfolding trim_quotes
trim_quotes_inside header first size m several = elim (Bool-cases (quote_at first header)) [
  | inl f ↦ elim (Bool-cases (quote_at (first + size - 1) header)) [
    | inl b ↦ rw (f, b) (ground (arith, m.fits, m.inside, m.nonempty))
    | inr b ↦ rw (f, b) (ground (arith, m.fits, m.inside, m.nonempty))
  ]
  | inr f ↦ elim (Bool-cases (quote_at (first + size - 1) header)) [
    | inl b ↦ rw (f, b) (omega arith, omega (arith, m.fits, m.inside, m.nonempty))
    | inr b ↦ rw (f, b) (omega arith, omega (arith, m.fits, m.inside, m.nonempty))
  ]
]

-- For a match of one byte that is a quote, in a header whose length fits in 64 bits, the size
-- wraps around to 2^64 - 1.
trim_quotes_wraps :
    (header : Bytes) (first : ℕ)
    → IsMatch header first 1
    → quote_at first header ≡ true
    → trim_quotes header first 1 ≡ (first + 1, size_mod - 1)
unfolding trim_quotes
trim_quotes_wraps header first m quoted =
    let same : first + 1 - 1 ≡ first = omega arith in
    let again : quote_at (first + 1 - 1) header ≡ true =
      ap (λ i. quote_at i header) same ∙ quoted in
    rw (again, quoted) refl

at_quote : (pre post : Bytes) → quote_at (length pre) (pre ++ 34 ∷ post) ≡ true
unfolding quote_at begins_with
at_quote pre post = rw (drop-append_self pre (34 ∷ post)) refl

after_quote : (pre rest : Bytes) → drop (length pre + 1) (pre ++ 34 ∷ rest) ≡ rest
after_quote pre rest =
    let place : length pre + 1 ≡ length (pre ++ 34 ∷ []) =
      omega (arith, length-append pre (34 ∷ [])) in
    ap (λ i. drop i (pre ++ 34 ∷ rest)) place
    ∙ ap (drop (length (pre ++ 34 ∷ []))) (sym (append_assoc pre (34 ∷ []) rest))
    ∙ drop-append_self (pre ++ 34 ∷ []) rest

end_quote :
    (pre v post : Bytes)
    → quote_at (length pre + (length v + 2) - 1) (pre ++ 34 ∷ (v ++ 34 ∷ post)) ≡ true
end_quote pre v post =
    let place : length pre + (length v + 2) - 1 ≡ length (pre ++ 34 ∷ v) =
      omega (arith, length-append pre (34 ∷ v)) in
    ap (λ i. quote_at i (pre ++ 34 ∷ (v ++ 34 ∷ post))) place
    ∙ ap (quote_at (length (pre ++ 34 ∷ v))) (sym (append_assoc pre (34 ∷ v) (34 ∷ post)))
    ∙ at_quote (pre ++ 34 ∷ v) post

-- A value between quotes anywhere in a header whose length fits in 64 bits is read as the text
-- between the quotes.
trim_quotes_quoted :
    (pre v post : Bytes)
    → length (pre ++ 34 ∷ (v ++ 34 ∷ post)) < size_mod
    → let header = pre ++ 34 ∷ (v ++ 34 ∷ post) in
      view_text header (trim_quotes header (length pre) (length v + 2)) ≡ v
unfolding trim_quotes
trim_quotes_quoted pre v post fits =
    let whole = length-append pre (34 ∷ (v ++ 34 ∷ post)) in
    let value = length-append v (34 ∷ post) in
    let size : ((length v + 2 + size_mod - 1) % size_mod + size_mod - 1) % size_mod ≡ length v =
      omega (arith, whole, value, fits) in
    rw (end_quote pre v post, at_quote pre (v ++ 34 ∷ post))
      (ap (λ n. take n (drop (length pre + 1) (pre ++ 34 ∷ (v ++ 34 ∷ post)))) size
        ∙ ap (take (length v)) (after_quote pre (v ++ 34 ∷ post))
        ∙ take-append_self v (34 ∷ post))

-- Where the search for a key matches from one quote to another, as it does for a value between
-- quotes that has no comma, in a header whose length fits in 64 bits, the value of the key is the
-- text between these quotes.
pub find_section_quoted :
    (section : (key header : Bytes) → Option (ℕ × ℕ)) (key pre v post : Bytes)
    → let header = pre ++ 34 ∷ (v ++ 34 ∷ post) in
      length header < size_mod
      → section key header ≡ some (length pre, length v + 2)
      → Option.map (view_text header) (find_section section key header) ≡ some v
unfolding find_section
find_section_quoted section key pre v post fits matched =
    rw (find_section, matched) (ap (λ t. some t) (trim_quotes_quoted pre v post fits))
