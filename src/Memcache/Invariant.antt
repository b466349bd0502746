-- ===== src/Memcache/Invariant.antt =====
-- The representation invariant of the cache of include/libasyik/memcache.hpp: deadlines fall from
-- segment to segment and stay within a lifetime and a segment's width of the clock, and no key
-- stands twice.
use libasyik.Common.{
  ℕ, suc, ◌+◌, ◌≤◌, ◌≡◌, sym, ◌∙◌, inl, inr, false, some, arith, ◌==◌, Option-cases, Bool-cases,
}
use libasyik.Memcache.{
  MapList, expiry_ms, segment_ms, youngest_segment, prune, holder, remove_all, emplace_in,
  remove_in, put, touch, refresh, visit, find_live, get, insert,
}
use libasyik.Memcache.Segments.{
  Under, Under-mono, Front, youngest_segment-Front, youngest_segment_bounds, prune-Under,
  remove_all-Under, emplace_in-Under, remove_in-Under,
}
use libasyik.Memcache.Copies.{
  copies, copies-remove_all, copies-emplace_in, copies-remove_in-le, copies-prune,
  copies-assign_live, assign_live-Under, copies-Front, copies_moved,
}

pub record IsValid {ℓ} {K V : Type ℓ} (dec : Discrete K) (expiry segments now : ℕ) (m : MapList K V)
    : Type ℓ where
  pub ordered : Under (suc (now + expiry_ms expiry + segment_ms expiry segments)) m
  pub unique : (k : K) → copies dec k m ≤ 1

module _ {ℓ} {K V : Type ℓ} (dec : Discrete K) (expiry segments : ℕ) where
  pub IsValid_later :
      {now later : ℕ} {m : MapList K V}
      → now ≤ later
      → IsValid dec expiry segments now m
      → IsValid dec expiry segments later m
  IsValid_later {m = m} h v = record {
    ordered = Under-mono _ _ m (omega arith) v.ordered;
    unique = v.unique;
  }

  module _ (now : ℕ) (m : MapList K V) (v : IsValid dec expiry segments now m) where
    youngest_segment-Under :
        Under
          (suc (now + expiry_ms expiry + segment_ms expiry segments))
          (youngest_segment expiry segments now m).1
    youngest_segment-Under = elim (youngest_segment-Front expiry segments now _ m v.ordered) [
      | inl (s, r, e, e') ↦ rw (e' ∙ sym e) v.ordered
      | inr (e, w) ↦
          rw e (omega (arith, youngest_segment_bounds expiry segments now m v.ordered), w)
    ]

    youngest_segment-copies :
        (j : K) → copies dec j (youngest_segment expiry segments now m).1 ≡ copies dec j m
    youngest_segment-copies j =
        copies-Front dec _ _ m j (youngest_segment-Front expiry segments now _ m v.ordered)

    pub remove_all-IsValid : (k : K) → IsValid dec expiry segments now (remove_all dec k m)
    remove_all-IsValid k = record {
      ordered = remove_all-Under dec k _ m v.ordered;
      unique = λ j. ground (arith, copies-remove_all dec k j m, v.unique j);
    }

    pub prune-IsValid : (t : ℕ) → IsValid dec expiry segments now (prune t m)
    prune-IsValid t = record {
      ordered = prune-Under t _ m v.ordered;
      unique = λ j. omega (arith, copies-prune dec t j m, v.unique j);
    }

    refresh-IsValid :
        (k : K) (d : ℕ) (w : V)
        → holder dec k m ≡ some (d, w)
        → IsValid dec expiry segments now (refresh dec expiry segments now k d w m)
    unfolding refresh
    refresh-IsValid k d w h =
        let y = (youngest_segment expiry segments now m).0 in
        let m' = (youngest_segment expiry segments now m).1 in
        let front = youngest_segment-Front expiry segments now _ m v.ordered in
        elim (Bool-cases (y == d)) [
          | inl t ↦ rw t (record {
            ordered = youngest_segment-Under;
            unique = λ j. omega (arith, youngest_segment-copies j, v.unique j);
          })
          | inr t ↦ rw t (record {
            ordered =
                remove_in-Under dec d k _ _
                  (emplace_in-Under dec y k w _ m' youngest_segment-Under);
            unique = λ j. moved j y m' front t (dec j k);
          })
        ]
      where
        moved :
            (j : K) (y : ℕ) (m' : MapList K V)
            → Front y m' m
            → (y == d) ≡ false
            → Dec (j ≡ k)
            → copies dec j (remove_in dec d k (emplace_in dec y k w m')) ≤ 1
        moved j y m' f t (yes p) =
            rw p (copies_moved dec y d _ k w m' m v.ordered f h (v.unique k) (ground arith))
        moved j y m' f t (no p) = ground (
          arith,
          copies-remove_in-le dec d k j (emplace_in dec y k w m'),
          copies-emplace_in dec y k j w m',
          copies-Front dec y m' m j f,
          v.unique j,
        )

  pub insert-IsValid :
      (now : ℕ) (k : K) (w : V) (m : MapList K V)
      → IsValid dec expiry segments now m
      → IsValid dec expiry segments now (insert dec expiry segments now k w m)
  unfolding insert
  insert-IsValid now k w m v =
      let m₀ = remove_all dec k m in
      let v₀ = remove_all-IsValid now m v k in
      record {
        ordered = emplace_in-Under dec _ k w _ _ (youngest_segment-Under now m₀ v₀);
        unique = λ j. ground (
          arith,
          copies-emplace_in dec (youngest_segment expiry segments now m₀).0 k j w
              (youngest_segment expiry segments now m₀).1,
          youngest_segment-copies now m₀ v₀ j,
          copies-remove_all dec k j m,
          v.unique j,
        );
      }

  pub touch-IsValid :
      (t₁ t₂ : ℕ) (k : K) (m : MapList K V)
      → IsValid dec expiry segments t₂ m
      → IsValid dec expiry segments t₂ (touch dec expiry segments t₁ t₂ k m).1
  unfolding touch
  touch-IsValid t₁ t₂ k m v = elim (Option-cases (holder dec k (prune t₁ m))) [
    | inl e ↦ rw (e, touch) (prune-IsValid t₂ m v t₁)
    | inr ((d, w), e) ↦
        rw (e, touch) (refresh-IsValid t₂ (prune t₁ m) (prune-IsValid t₂ m v t₁) k d w e)
  ]

  pub get-IsValid :
      (t₁ t₂ : ℕ) (k : K) (m : MapList K V)
      → IsValid dec expiry segments t₂ m
      → IsValid dec expiry segments t₂ (get dec expiry segments t₁ t₂ k m).1
  unfolding get
  get-IsValid t₁ t₂ k m v = touch-IsValid t₁ t₂ k m v

  pub put-IsValid :
      (now : ℕ) (k : K) (w : V) (m : MapList K V)
      → IsValid dec expiry segments now m
      → IsValid dec expiry segments now (put dec expiry segments now k w m)
  unfolding put
  put-IsValid now k w m v = insert-IsValid now k w m v

  pub visit-IsValid :
      (now t : ℕ) (k : K) (f : V → V) (m : MapList K V)
      → IsValid dec expiry segments now m
      → IsValid dec expiry segments now (visit dec t k f m).1
  unfolding visit
  visit-IsValid now t k f m v = elim (Option-cases (find_live dec t k m)) [
    | inl e ↦ rw (e, visit) v
    | inr (w, e) ↦
        rw (e, visit)
          (record {
            ordered = assign_live-Under dec t k (f w) _ m v.ordered;
            unique = λ j. omega (arith, copies-assign_live dec t k j (f w) m, v.unique j);
          })
  ]
