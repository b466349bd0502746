-- ===== src/Memcache/View.antt =====
-- What a client of the cache (include/libasyik/memcache.hpp) can see: each key with its value and
-- the deadline of the segment that holds it. Every operation is described on that view.
use libasyik.Common.{
  ℕ, suc, ◌≡◌, refl, sym, if_pos, if_neg, ==_iff, ◌∙◌, inl, inr, ite, Bool, true, false, Option,
  none, some, [], ◌∷◌, arith, ltb, ◌==◌, if◌then◌else◌, Option-cases, Bool-cases,
}
use libasyik.Memcache.{
  MapList, find, youngest_segment, prune, find_live, remove_all, holder, emplace_in, remove_in,
  insert, put, refresh, touch,
}
use libasyik.Memcache.Segments.{
  Under, youngest_segment-Front, Front, holder-Under, holder_moved, holder-remove_all,
  holder-emplace_in, survives, holder_expired, holder-prune, prune-Under, remove_all-Under,
}

abbrev pub value {ℓ} : {V : Type ℓ} → Option (ℕ × V) → Option V
value none = none
value (some (d, v)) = some v

-- The deadline that an entry stored at `now` gets.
abbrev pub deadline {ℓ} : {K V : Type ℓ} (expiry segments now : ℕ) → MapList K V → ℕ
deadline expiry segments now m = (youngest_segment expiry segments now m).0

ite_twice {ℓ κ} :
    {P : Type κ} {A : Type ℓ} (d : Dec P) (x y z : A) → ite d x (ite d y z) ≡ ite d x z
ite_twice (yes p) x y z = refl
ite_twice (no p) x y z = refl

module _ {ℓ} {K V : Type ℓ} (dec : Discrete K) where
  -- The search that stops at the first expired segment finds the entry exactly if its deadline
  -- has not passed.
  pub find_live-holder :
      (now b : ℕ) (k : K) (m : MapList K V)
      → Under b m
      → find_live dec now k m ≡ value (survives now (holder dec k m))
  unfolding find_live holder
  find_live-holder now b k [] u = refl
  find_live-holder now b k ((d, s) ∷ m) u = elim (Bool-cases (ltb d now)) [
    | inl old ↦
        rw (old, holder_expired dec now (suc d) k ((d, s) ∷ m) (omega arith, u.1) (ground arith))
    | inr new ↦ rw new (elim (Option-cases (find dec k s)) [
      | inl e ↦ rw (e, holder) (find_live-holder now d k m u.1)
      | inr (v, e) ↦ rw (e, holder) (rw new)
    ])
  ]

  module _ (expiry segments : ℕ) where
    -- An entry that is not in the list goes to the front segment.
    holder_new :
        (d : ℕ) (m' : MapList K V) (k j : K) (v : V) (m : MapList K V)
        → Front d m' m
        → holder dec k m ≡ none
        → holder dec j (emplace_in dec d k v m') ≡ ite (dec j k) (some (d, v)) (holder dec j m)
    unfolding holder find
    holder_new d m' k j v m (inl (s, r, e, e')) h =
        rw (e', e) (holder-emplace_in dec d k j v s r (ground (arith, e, h)))
    holder_new d m' k j v m (inr (e, w)) h = rw e (holder-emplace_in dec d k j v [] m refl)

    -- The key's entry written out is the view as it is.
    holder_self :
        (k j : K) {e : ℕ × V} (m : MapList K V)
        → holder dec k m ≡ some e
        → holder dec j m ≡ ite (dec j k) (some e) (holder dec j m)
    holder_self k j m h = elim (dec j k) [ yes p ↦ rw (if_pos _ p, p) h | no p ↦ rw (if_neg _ p) ]

    holder_same :
        (y : ℕ) (m' : MapList K V) (k j : K) (d : ℕ) (v : V) (m : MapList K V)
        → Front y m' m
        → holder dec k m ≡ some (d, v)
        → (b : Bool) → (y == d) ≡ b
        → holder dec j (if b then m' else remove_in dec d k (emplace_in dec y k v m'))
          ≡ ite (dec j k) (some (y, v)) (holder dec j m)
    unfolding holder find
    holder_same y m' k j d v m (inl (s, r, e, e')) h true t =
        rw (e' ∙ sym e, (==_iff y d).0 t) (holder_self k j m h)
    holder_same y m' k j d v m (inl (s, r, e, e')) h false t =
        rw (e', e) (holder_moved dec y d k j v s r (ground (arith, e, h)) (ground arith))
    holder_same y m' k j d v m (inr (e, w)) h true t =
        absurd (omega (arith, holder-Under dec y k m w h, (==_iff y d).0 t))
    holder_same y m' k j d v m (inr (e, w)) h false t =
        rw e (holder_moved dec y d k j v [] m refl (ground arith))

    -- A put stores the value with its deadline, and every other key keeps its entry.
    pub holder-put :
        (now b : ℕ) (k j : K) (v : V) (m : MapList K V)
        → Under b m
        → holder dec j (put dec expiry segments now k v m)
          ≡ ite
              (dec j k)
              (some (deadline expiry segments now (remove_all dec k m), v))
              (holder dec j m)
    unfolding put insert
    holder-put now b k j v m u =
        let front =
          youngest_segment-Front expiry segments now b (remove_all dec k m)
            (remove_all-Under dec k b m u) in
        let gone = holder-remove_all dec k k m ∙ if_pos (dec k k) refl _ _ in
        holder_new _ _ k j v (remove_all dec k m) front gone
        ∙ rw (holder-remove_all dec k j m) (ite_twice (dec j k) _ _ _)

    -- What `touch` leaves: nothing that expired before t₁, and a live key in the front segment.
    pub holder-touch_miss :
        (t₁ t₂ b : ℕ) (k j : K) (m : MapList K V)
        → Under b m
        → survives t₁ (holder dec k m) ≡ none
        → (touch dec expiry segments t₁ t₂ k m ≡ (none, prune t₁ m))
          × (holder dec j (prune t₁ m) ≡ survives t₁ (holder dec j m))
    unfolding touch
    holder-touch_miss t₁ t₂ b k j m u h =
        (rw (holder-prune dec t₁ b k m u ∙ h, touch), holder-prune dec t₁ b j m u)

    pub holder-touch_hit :
        (t₁ t₂ b : ℕ) (k j : K) (m : MapList K V) {d : ℕ} {v : V}
        → Under b m
        → survives t₁ (holder dec k m) ≡ some (d, v)
        → let (r, m') = touch dec expiry segments t₁ t₂ k m in
          (r ≡ some v)
          × (holder dec j m'
              ≡ ite
                  (dec j k)
                  (some (deadline expiry segments t₂ (prune t₁ m), v))
                  (survives t₁ (holder dec j m)))
    unfolding touch refresh
    holder-touch_hit t₁ t₂ b k j m {d} {v} u h =
        let u' = prune-Under t₁ b m u in
        let there = holder-prune dec t₁ b k m u ∙ h in
        (
          rw (there, touch),
          rw (there, touch, ← holder-prune dec t₁ b j m u)
              (holder_same _ _ k j d v (prune t₁ m)
                (youngest_segment-Front expiry segments t₂ b (prune t₁ m) u') there _ refl),
        )
