-- ===== src/HttpClient/Parts.antt =====
-- The loop over the parts of a multipart response in include/libasyik/http.hpp ends.
use libasyik.Common.{
  ℕ, zero, suc, ◌+◌, ◌≡◌, ◌≤◌, ◌<◌, refl, sym, ap, ◌∙◌, subst, inl, inr, Option, none, some, List,
  [], ◌∷◌, ◌++◌, Bool, true, not, length, drop, Bytes, begins_with, bytes_eq, arith, Bool-cases,
  Option-cases, if-intro, length-append,
}
use mathlib.Core.Option
use libasyik.HttpClient.Multipart.{
  after_first, is_found, boundary_line, terminate_line, Found, find_multipart_boundary,
}
use libasyik.HttpClient.Chunks.{
  find_here, find_stop, find_ended, find_on, line_nonempty, after_first_here, after_first_there,
}
use libasyik.HttpClient.{
  PartRead, part_failed, no_content_length, part, Exception, network_error, no_length,
  callback_error, take_part, take_found, read_parts, left_over,
}

drop_short : (n : ℕ) (s : Bytes) → length (drop n s) ≤ length s
drop_short zero s = omega arith
drop_short (suc n) [] = omega arith
drop_short (suc n) (x ∷ s) = omega (arith, drop_short n s)

after_first_short :
    (line s r : Bytes) → 0 < length line → after_first line s ≡ some r → length r < length s
after_first_short [] s r nonempty h = absurd (omega (arith, nonempty))
after_first_short (a ∷ line) [] r nonempty h = absurd (unfold after_first bytes_eq in cc h)
after_first_short (a ∷ line) (c ∷ s) r nonempty h =
    elim (Bool-cases (begins_with (a ∷ line) (c ∷ s))) [
      | inl e ↦
          let same : drop (length line) s ≡ r =
            ap (λ o. Option.get_or o []) (sym (after_first_here (a ∷ line) c s e) ∙ h) in
          omega (arith, drop_short (length line) s, ap length same)
      | inr e ↦ omega (
        arith,
        after_first_short (a ∷ line) s r nonempty (sym (after_first_there (a ∷ line) c s e) ∙ h),
      )
    ]

pub left_over_add :
    (b : Bytes) (stream : List Bytes) → left_over b stream ≡ length b + left_over [] stream
left_over_add b [] = omega arith
left_over_add b (x ∷ stream) = omega (arith, left_over_add b stream)

-- A part that is found leaves less to read.
abbrev IsLess : ℕ → Option Found → Type 0
IsLess n none = Unit
IsLess n (some f) = f.more ≡ true → left_over f.buffer f.stream < n

here-IsLess :
    (boundary buffer r : Bytes) (stream : List Bytes)
    → after_first (boundary_line boundary) buffer ≡ some r
    → IsLess (left_over buffer stream) (find_multipart_boundary boundary stream buffer)
here-IsLess boundary buffer r stream e =
    subst (IsLess (left_over buffer stream)) (sym (find_here boundary buffer r stream e)) (λ _.
      omega (
        arith,
        left_over_add r stream,
        left_over_add buffer stream,
        after_first_short (boundary_line boundary) buffer r (line_nonempty boundary (10 ∷ []) 13) e,
      ))

stop-IsLess :
    (boundary buffer : Bytes) (stream : List Bytes)
    → after_first (boundary_line boundary) buffer ≡ none
    → is_found (after_first (terminate_line boundary) buffer) ≡ true
    → IsLess (left_over buffer stream) (find_multipart_boundary boundary stream buffer)
stop-IsLess boundary buffer stream e t =
    subst (IsLess (left_over buffer stream)) (sym (find_stop boundary buffer stream e t))
      (λ h. absurd (cc h))

find-IsLess :
    (boundary : Bytes) (stream : List Bytes) (buffer : Bytes)
    → IsLess (left_over buffer stream) (find_multipart_boundary boundary stream buffer)
find-IsLess boundary [] buffer = elim (Option-cases (after_first (boundary_line boundary) buffer)) [
  | inl e ↦ elim (Bool-cases (is_found (after_first (terminate_line boundary) buffer))) [
    | inl t ↦ stop-IsLess boundary buffer [] e t
    | inr t ↦ subst (IsLess (left_over buffer [])) (sym (find_ended boundary buffer e t)) tt
  ]
  | inr (r, e) ↦ here-IsLess boundary buffer r [] e
]
find-IsLess boundary (b ∷ stream) buffer =
    elim (Option-cases (after_first (boundary_line boundary) buffer)) [
      | inl e ↦ elim (Bool-cases (is_found (after_first (terminate_line boundary) buffer))) [
        | inl t ↦ stop-IsLess boundary buffer (b ∷ stream) e t
        | inr t ↦
            let size : left_over (buffer ++ b) stream ≡ left_over buffer (b ∷ stream) = omega (
              arith,
              left_over_add (buffer ++ b) stream,
              left_over_add buffer stream,
              length-append buffer b,
            ) in
            subst (IsLess (left_over buffer (b ∷ stream)))
              (sym (find_on boundary buffer b stream e t))
              (subst (λ n. IsLess n (find_multipart_boundary boundary stream (buffer ++ b))) size
                (find-IsLess boundary stream (buffer ++ b)))
      ]
      | inr (r, e) ↦ here-IsLess boundary buffer r (b ∷ stream) e
    ]

-- Reading a part gives back no more than there was.
unfoldable pub Shrinks : ((status : ℕ) (buffer : Bytes) (stream : List Bytes) → PartRead) → Type 0
Shrinks read_part =
    (status : ℕ) (buffer : Bytes) (stream : List Bytes) (body buffer' : Bytes)
    (stream' : List Bytes)
    → read_part status buffer stream ≡ part body buffer' stream'
    → left_over buffer' stream' ≤ left_over buffer stream

module _ (read_part : (status : ℕ) (buffer : Bytes) (stream : List Bytes) → PartRead)
    (callback : Bytes → Bool) where
  abbrev Ends : Option (List Bytes × Option Exception) → Type 0
  Ends o = (r : List Bytes × Option Exception) × (o ≡ some r)

  part-Ends :
      (again : Bytes → List Bytes → Option (List Bytes × Option Exception)) (p : PartRead)
      → ((body buffer : Bytes) (stream : List Bytes)
          → p ≡ part body buffer stream
          → Ends (again buffer stream))
      → Ends (take_part read_part callback again p)
  part-Ends again part_failed h = (([], some network_error), refl)
  part-Ends again no_content_length h = (([], some no_length), refl)
  part-Ends again (part body buffer stream) h =
      let (r, e) = h body buffer stream refl in
      if-intro Ends (callback body) (λ _. ((body ∷ r.0, r.1), rw e refl))
        (λ _. ((body ∷ [], some callback_error), refl))

  found-Ends :
      (status n : ℕ) (again : Bytes → List Bytes → Option (List Bytes × Option Exception))
      (o : Option Found)
      → Shrinks read_part
      → IsLess n o
      → ((buffer : Bytes) (stream : List Bytes)
          → left_over buffer stream < n
          → Ends (again buffer stream))
      → Ends (take_found read_part callback status again o)
  unfolding Shrinks
  found-Ends status n again none shrinks less h = (([], some network_error), refl)
  found-Ends status n again (some found) shrinks less h =
      if-intro Ends (not found.more) (λ _. (([], none), refl))
        (λ m. part-Ends again (read_part status found.buffer found.stream) (λ body buffer stream e.
          h buffer stream (
            omega (
              arith,
              shrinks status found.buffer found.stream body buffer stream e,
              less (ground (arith, m)),
            ))))

  -- With fuel for every byte the loop comes to its end.
  pub read_parts_ends :
      (fuel status : ℕ) (boundary buffer : Bytes) (stream : List Bytes)
      → Shrinks read_part
      → left_over buffer stream < fuel
      → (r : List Bytes × Option Exception) × (read_parts read_part callback fuel status boundary
            buffer stream
          ≡ some r)
  unfolding read_parts
  read_parts_ends zero status boundary buffer stream shrinks enough = absurd (omega (arith, enough))
  read_parts_ends (suc fuel) status boundary buffer stream shrinks enough =
      found-Ends status (left_over buffer stream)
        (read_parts read_part callback fuel status boundary)
        (find_multipart_boundary boundary stream buffer) shrinks
        (find-IsLess boundary stream buffer)
        (λ b s less. read_parts_ends fuel status boundary b s shrinks (omega (arith, less, enough)))
