-- ===== src/StaticFiles/Handler/Ranges.antt =====
-- The byte ranges that src/http_static.cpp accepts.
use libasyik.Common.{
  ℕ, zero, suc, ◌-◌, ◌≤◌, ◌<◌, ◌≡◌, refl, ap, ◌∙◌, ◌≢◌, inl, inr, ℤ, pos, negsuc, Option, none,
  some, [], ◌∷◌, ◌++◌, true, false, ltb, leb, ◌&&◌, if◌then◌else◌, lt→ltb, Bool-cases, Option-cases,
  ◌>>=◌, drop, Bytes, codes, bytes_eq, eq_of_bytes_eq, begins_with, has_byte, has_byte-append_mid,
  before, behind, before-append, before_of_absent, behind-append, stoll, to_string, ll_max,
  stoll-to_string, to_string-has_byte, to_string-nonempty, arith,
}
use libasyik.StaticFiles.{StaticFileConfig}
use libasyik.StaticFiles.Handler.{checked_bounds, suffix_bounds, range_bounds, requested_range}

abbrev pub Inside : ℕ → Option (ℕ × ℕ) → Type 0
Inside fsize none = Unit
Inside fsize (some (a, b)) = (a ≤ b) × (b < fsize)

checked_bounds-Inside : (x y : ℤ) (fsize : ℕ) → Inside fsize (checked_bounds x y fsize)
unfolding checked_bounds
checked_bounds-Inside (pos a) (pos b) fsize = elim (Bool-cases (ltb b fsize && leb a b)) [
  | inl e ↦ rw e (ground arith)
  | inr e ↦ rw e tt
]
checked_bounds-Inside (pos a) (negsuc b) fsize = tt
checked_bounds-Inside (negsuc a) y fsize = tt

suffix_bounds-Inside : (x : ℤ) (fsize : ℕ) → 0 < fsize → Inside fsize (suffix_bounds x fsize)
unfolding suffix_bounds
suffix_bounds-Inside (pos zero) fsize h = tt
suffix_bounds-Inside (pos (suc n)) fsize h = ground arith
suffix_bounds-Inside (negsuc n) fsize h = tt

range_bounds-Inside : (s t : Bytes) (fsize : ℕ) → 0 < fsize → Inside fsize (range_bounds s t fsize)
unfolding range_bounds
range_bounds-Inside [] t fsize h = elim (Option-cases (stoll t)) [
  | inl e ↦ rw e tt
  | inr (n, e) ↦ rw e (suffix_bounds-Inside n fsize h)
]
range_bounds-Inside (c ∷ s) t fsize h = elim (Option-cases (stoll (c ∷ s))) [
  | inl e ↦ rw e tt
  | inr (a, e) ↦ elim (Option-cases (if bytes_eq t [] then some (pos (fsize - 1)) else stoll t)) [
    | inl f ↦ rw (e, f) tt
    | inr (b, f) ↦ rw (e, f) (checked_bounds-Inside a b fsize)
  ]
]

-- A range that is accepted starts no later than it ends and ends inside the file, whatever the
-- header.
pub requested_range-Inside :
    (cfg : StaticFileConfig) (range_hdr : Bytes) (fsize : ℕ)
    → Inside fsize (requested_range cfg range_hdr fsize)
unfolding requested_range
requested_range-Inside cfg hdr fsize =
    let spec = drop 6 hdr in
    elim (Bool-cases
      (cfg.enable_range && ltb 0 fsize && begins_with (codes "bytes=") hdr && has_byte 45 spec)) [
        | inl e ↦ rw e (range_bounds-Inside (before 45 spec) (behind 45 spec) fsize (positive e))
        | inr e ↦ rw e tt
      ]
  where
    positive :
        cfg.enable_range
            && ltb 0 fsize
            && begins_with (codes "bytes=") hdr
            && has_byte 45 (drop 6 hdr)
          ≡ true
        → 0 < fsize
    positive e = ground arith

no_dash : (n : ℕ) → has_byte 45 (to_string n) ≡ false
no_dash n = to_string-has_byte 45 n (λ d h. ground arith)

-- The header of a range by its two texts.
abbrev pub range_header : (s t : Bytes) → Bytes
range_header s t = codes "bytes=" ++ (s ++ 45 ∷ t)

requested_range_lem :
    (cfg : StaticFileConfig) (s t : Bytes) (fsize : ℕ)
    → cfg.enable_range ≡ true
    → 0 < fsize
    → has_byte 45 s ≡ false
    → requested_range cfg (range_header s t) fsize ≡ range_bounds s t fsize
unfolding requested_range begins_with
requested_range_lem cfg s t fsize on h n =
    rw
      (
        on,
        lt→ltb 0 fsize h,
        has_byte-append_mid 45 s t,
        before-append 45 s t,
        before_of_absent 45 s n,
        behind-append 45 s t n,
      )
      refl

range_bounds_lem :
    (s t : Bytes) (fsize : ℕ)
    → s ≢ []
    → range_bounds s t fsize ≡ (
        stoll s >>= λ a. (if bytes_eq t [] then some (pos (fsize - 1)) else stoll t) >>= λ b.
        checked_bounds a b fsize)
unfolding range_bounds
range_bounds_lem [] t fsize n = absurd (n refl)
range_bounds_lem (c ∷ s) t fsize n = refl

written : (n : ℕ) → bytes_eq (to_string n) [] ≡ false
written n = elim (Bool-cases (bytes_eq (to_string n) [])) [
  | inl e ↦ absurd (to_string-nonempty n (eq_of_bytes_eq (to_string n) [] e))
  | inr e ↦ e
]

checked_bounds_lem :
    (a b fsize : ℕ) → a ≤ b → b < fsize → checked_bounds (pos a) (pos b) fsize ≡ some (a, b)
unfolding checked_bounds
checked_bounds_lem a b fsize h h' =
    let e : ltb b fsize && leb a b ≡ true = ground arith in rw e refl

suffix_bounds_lem :
    (n fsize : ℕ) → 0 < n → n ≤ fsize → suffix_bounds (pos n) fsize ≡ some (fsize - n, fsize - 1)
unfolding suffix_bounds
suffix_bounds_lem zero fsize h h' = absurd (omega (arith, h))
suffix_bounds_lem (suc n) fsize h h' = elim (Bool-cases (leb fsize (suc n))) [
  | inl e ↦ let all : 0 ≡ fsize - suc n = ground arith in rw e (ap (λ a. some (a, fsize - 1)) all)
  | inr e ↦ rw e refl
]

-- The headers of ranges inside a file, with the first byte and the last: from a to b, from a to the
-- end, and the last n bytes.
pub data RangeHeader (fsize : ℕ) : Bytes → ℕ → ℕ → Type 0 where
  closed :
      (a b : ℕ)
      → a ≤ b
      → b < fsize
      → RangeHeader fsize (range_header (to_string a) (to_string b)) a b
  open_ended : (a : ℕ) → a < fsize → RangeHeader fsize (range_header (to_string a) []) a (fsize - 1)
  suffix :
      (n : ℕ)
      → 0 < n
      → n ≤ fsize
      → RangeHeader fsize (range_header [] (to_string n)) (fsize - n) (fsize - 1)

module _ (cfg : StaticFileConfig) (fsize : ℕ) (on : cfg.enable_range ≡ true)
    (some_bytes : 0 < fsize) (small : fsize ≤ ll_max) where
  -- With ranges enabled, for a file that is not empty and whose size fits in 63 bits, the header
  -- of a range from a to b inside the file is read as that range.
  requested_range-closed :
      (a b : ℕ)
      → a ≤ b
      → b < fsize
      → requested_range cfg (range_header (to_string a) (to_string b)) fsize ≡ some (a, b)
  requested_range-closed a b h h' =
      requested_range_lem cfg (to_string a) (to_string b) fsize on some_bytes (no_dash a)
      ∙ range_bounds_lem (to_string a) (to_string b) fsize (to_string-nonempty a)
      ∙ rw (stoll-to_string a (omega arith), written b, stoll-to_string b (omega arith))
          (checked_bounds_lem a b fsize h h')

  -- With ranges enabled, for a file that is not empty and whose size fits in 63 bits, the header
  -- of an open range from a byte inside the file is read as the range to the end.
  requested_range-open :
      (a : ℕ)
      → a < fsize
      → requested_range cfg (range_header (to_string a) []) fsize ≡ some (a, fsize - 1)
  unfolding bytes_eq
  requested_range-open a h =
      requested_range_lem cfg (to_string a) [] fsize on some_bytes (no_dash a)
      ∙ range_bounds_lem (to_string a) [] fsize (to_string-nonempty a)
      ∙ rw (stoll-to_string a (omega arith))
          (checked_bounds_lem a (fsize - 1) fsize (omega arith) (omega arith))

  -- With ranges enabled, for a file that is not empty and whose size fits in 63 bits, the header
  -- of the last n bytes, n positive and at most the size, is read as the range of these.
  requested_range-suffix :
      (n : ℕ)
      → 0 < n
      → n ≤ fsize
      → requested_range cfg (range_header [] (to_string n)) fsize ≡ some (fsize - n, fsize - 1)
  unfolding has_byte range_bounds
  requested_range-suffix n h h' =
      requested_range_lem cfg [] (to_string n) fsize on some_bytes refl
      ∙ rw (stoll-to_string n (omega arith)) (suffix_bounds_lem n fsize h h')

  -- With ranges enabled, for a file that is not empty and whose size fits in 63 bits, the header
  -- of a range from a to b inside the file, of an open range from a byte inside it, or of its
  -- last n bytes, n positive and at most the size, is read as the first and the last byte of that
  -- range.
  pub requested_range-RangeHeader :
      (range_hdr : Bytes) (a b : ℕ)
      → RangeHeader fsize range_hdr a b
      → requested_range cfg range_hdr fsize ≡ some (a, b)
  requested_range-RangeHeader range_hdr a b (closed _ _ h h') = requested_range-closed a b h h'
  requested_range-RangeHeader range_hdr a b (open_ended _ h) = requested_range-open a h
  requested_range-RangeHeader range_hdr a b (suffix n h h') = requested_range-suffix n h h'
