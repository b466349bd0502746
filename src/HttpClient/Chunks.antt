-- ===== src/HttpClient/Chunks.antt =====
-- The search for the boundary of a multipart response does not depend on how it arrives.
use libasyik.Common.{
  ℕ, zero, suc, ◌≡◌, ◌≤◌, ◌<◌, refl, sym, ap, ◌∙◌, inl, inr, Option, none, some, List, [], ◌∷◌,
  ◌++◌, Bool, true, false, ◌&&◌, ◌==◌, length, drop, Bytes, begins_with, arith, Bool-cases,
  Option-cases, append-nil, append_assoc, bytes_eq, length-append,
}
use mathlib.Core.Option
use libasyik.HttpClient.Multipart.{
  after_first, is_found, boundary_line, terminate_line, crlf, Found, find_multipart_boundary,
}

begins_long : (p s : Bytes) → begins_with p s ≡ true → length p ≤ length s
unfolding begins_with
begins_long [] s h = omega arith
begins_long (a ∷ p) [] h = absurd (cc h)
begins_long (a ∷ p) (b ∷ s) h = ground (arith, begins_long p s)

begins_stable : (p s t : Bytes) → length p ≤ length s → begins_with p (s ++ t) ≡ begins_with p s
unfolding begins_with
begins_stable [] s t h = refl
begins_stable (a ∷ p) [] t h = absurd (omega (arith, h))
begins_stable (a ∷ p) (b ∷ s) t h = ap (◌&&◌ (a == b)) (begins_stable p s t (omega (arith, h)))

pub drop_stable : (n : ℕ) (s t : Bytes) → n ≤ length s → drop n (s ++ t) ≡ drop n s ++ t
drop_stable zero s t h = refl
drop_stable (suc n) [] t h = absurd (omega (arith, h))
drop_stable (suc n) (x ∷ s) t h = drop_stable n s t (omega (arith, h))

pub after_first_here :
    (line : Bytes) (c : ℕ) (s : Bytes)
    → begins_with line (c ∷ s) ≡ true
    → after_first line (c ∷ s) ≡ some (drop (length line) (c ∷ s))
unfolding after_first
after_first_here line c s e = rw e refl

pub after_first_there :
    (line : Bytes) (c : ℕ) (s : Bytes)
    → begins_with line (c ∷ s) ≡ false
    → after_first line (c ∷ s) ≡ after_first line s
unfolding after_first
after_first_there line c s e = rw e refl

after_first_long : (line s r : Bytes) → after_first line s ≡ some r → length line ≤ length s
after_first_long [] s r h = omega arith
after_first_long (a ∷ line) [] r h = absurd (unfold after_first bytes_eq in cc h)
after_first_long (a ∷ line) (c ∷ s) r h = elim (Bool-cases (begins_with (a ∷ line) (c ∷ s))) [
  | inl e ↦ begins_long (a ∷ line) (c ∷ s) e
  | inr e ↦
      omega (arith, after_first_long (a ∷ line) s r (sym (after_first_there (a ∷ line) c s e) ∙ h))
]

-- A line that is found is found at the same place when more comes.
after_first_stable :
    (line s t r : Bytes)
    → 0 < length line
    → after_first line s ≡ some r
    → after_first line (s ++ t) ≡ some (r ++ t)
after_first_stable [] s t r nonempty h = absurd (omega (arith, nonempty))
after_first_stable (a ∷ line) [] t r nonempty h = absurd (unfold after_first bytes_eq in cc h)
after_first_stable (a ∷ line) (c ∷ s) t r nonempty h =
    let long = after_first_long (a ∷ line) (c ∷ s) r h in
    let same = begins_stable (a ∷ line) (c ∷ s) t long in
    elim (Bool-cases (begins_with (a ∷ line) (c ∷ s))) [
      | inl e ↦
          after_first_here (a ∷ line) c (s ++ t) (same ∙ e)
          ∙ ap some (drop_stable (length (a ∷ line)) (c ∷ s) t long)
          ∙ ap (Option.map (λ x. x ++ t)) (sym (after_first_here (a ∷ line) c s e) ∙ h)
      | inr e ↦
          after_first_there (a ∷ line) c (s ++ t) (same ∙ e)
          ∙ after_first_stable (a ∷ line) s t r nonempty
              (sym (after_first_there (a ∷ line) c s e) ∙ h)
    ]

absent_before :
    (line s t : Bytes)
    → 0 < length line
    → is_found (after_first line (s ++ t)) ≡ false
    → is_found (after_first line s) ≡ false
absent_before line s t nonempty h = elim (Option-cases (after_first line s)) [
  | inl e ↦ ap is_found e
  | inr (r, e) ↦ absurd (cc (sym (ap is_found (after_first_stable line s t r nonempty e)) ∙ h))
]

-- All that a stream still brings.
abbrev pub bytes_of : List Bytes → Bytes
bytes_of [] = []
bytes_of (b ∷ stream) = b ++ bytes_of stream

-- What a search tells: whether there is a part, and what follows the boundary.
abbrev pub told : Option Found → Option (Bool × Bytes)
told f = Option.map (λ (x : Found). (x.more, x.buffer ++ bytes_of x.stream)) f

abbrev a_part : Option Bytes → Option (Bool × Bytes)
a_part r = Option.map (λ (x : Bytes). (true, x)) r

pub line_nonempty : (b t : Bytes) (c : ℕ) → 0 < length (b ++ (c ∷ t))
line_nonempty b t c = omega (arith, length-append b (c ∷ t))

pub find_here :
    (boundary buffer rest : Bytes) (stream : List Bytes)
    → after_first (boundary_line boundary) buffer ≡ some rest
    → find_multipart_boundary boundary stream buffer
      ≡ some (record { more = true; buffer = rest; stream = stream })
unfolding find_multipart_boundary
find_here boundary buffer rest [] e = rw (find_multipart_boundary, e) refl
find_here boundary buffer rest (b ∷ stream) e = rw (find_multipart_boundary, e) refl

pub find_stop :
    (boundary buffer : Bytes) (stream : List Bytes)
    → after_first (boundary_line boundary) buffer ≡ none
    → is_found (after_first (terminate_line boundary) buffer) ≡ true
    → find_multipart_boundary boundary stream buffer
      ≡ some (record { more = false; buffer = buffer; stream = stream })
unfolding find_multipart_boundary
find_stop boundary buffer [] e f = rw (find_multipart_boundary, e, f) refl
find_stop boundary buffer (b ∷ stream) e f = rw (find_multipart_boundary, e, f) refl

pub find_ended :
    (boundary buffer : Bytes)
    → after_first (boundary_line boundary) buffer ≡ none
    → is_found (after_first (terminate_line boundary) buffer) ≡ false
    → find_multipart_boundary boundary [] buffer ≡ none
unfolding find_multipart_boundary
find_ended boundary buffer e f = rw (find_multipart_boundary, e, f) refl

pub find_on :
    (boundary buffer b : Bytes) (stream : List Bytes)
    → after_first (boundary_line boundary) buffer ≡ none
    → is_found (after_first (terminate_line boundary) buffer) ≡ false
    → find_multipart_boundary boundary (b ∷ stream) buffer
      ≡ find_multipart_boundary boundary stream (buffer ++ b)
unfolding find_multipart_boundary
find_on boundary buffer b stream e f = rw (find_multipart_boundary, e, f) refl

-- Where the end of the parts does not stand in what the buffer holds and the stream brings, the
-- search for a boundary finds what a search of all these bytes at once finds, and leaves what
-- follows it, or fails where that does, however the bytes are cut into pieces.
pub find_multipart_boundary-after_first :
    (boundary : Bytes) (stream : List Bytes) (buffer : Bytes)
    → is_found (after_first (terminate_line boundary) (buffer ++ bytes_of stream)) ≡ false
    → told (find_multipart_boundary boundary stream buffer)
      ≡ Option.map
          (λ (x : Bytes). (true, x))
          (after_first (boundary_line boundary) (buffer ++ bytes_of stream))
find_multipart_boundary-after_first boundary [] buffer absent =
    let none_there =
      absent_before (terminate_line boundary) buffer [] (line_nonempty boundary (45 ∷ crlf) 45)
        absent in
    let whole = ap (λ x. a_part (after_first (boundary_line boundary) x)) (append-nil buffer) in
    elim (Option-cases (after_first (boundary_line boundary) buffer)) [
      | inl e ↦ ap told (find_ended boundary buffer e none_there) ∙ sym (whole ∙ ap a_part e)
      | inr (r, e) ↦
          ap told (find_here boundary buffer r [] e)
          ∙ ap (λ x. some (true, x)) (append-nil r)
          ∙ sym (whole ∙ ap a_part e)
    ]
find_multipart_boundary-after_first boundary (b ∷ stream) buffer absent =
    let none_there =
      absent_before (terminate_line boundary) buffer (bytes_of (b ∷ stream))
        (line_nonempty boundary (45 ∷ crlf) 45) absent in
    elim (Option-cases (after_first (boundary_line boundary) buffer)) [
      | inl e ↦
          let next = append_assoc buffer b (bytes_of stream) in
          let ih =
            find_multipart_boundary-after_first boundary stream (buffer ++ b)
              (ap (λ x. is_found (after_first (terminate_line boundary) x)) next ∙ absent) in
          ap told (find_on boundary buffer b stream e none_there)
          ∙ ih
          ∙ ap (λ x. a_part (after_first (boundary_line boundary) x)) next
      | inr (r, e) ↦
          ap told (find_here boundary buffer r (b ∷ stream) e)
          ∙ ap a_part (
              sym (
                after_first_stable (boundary_line boundary) buffer (bytes_of (b ∷ stream)) r
                  (line_nonempty boundary (10 ∷ []) 13) e))
    ]
