-- ===== src/Sql/Sharing.antt =====
-- Whatever the fibers and the health check of include/libasyik/sql.hpp do in turn, no connection
-- is lost and none has two owners.
use libasyik.Common.{
  ℕ, suc, ◌+◌, ◌≡◌, ◌≤◌, refl, ap, subst, inl, inr, Option, some, List, [], ◌∷◌, ◌++◌, true, false,
  ◌==◌, ==_iff, length, length-append, arith, Bool-cases,
}
use mathlib.Core.Option
use libasyik.Sql.{
  SqlPool, make_sql_pool, get_session, remove, give_back, start_check, take_front, passed, renewed,
  put_checked, count, owners, Step, gets, gives, checks, takes, keeps, fails, renews, Reach, here,
  step,
}

count-append : (c : ℕ) (xs ys : List ℕ) → count c (xs ++ ys) ≡ count c xs + count c ys
unfolding count
count-append c [] ys = omega arith
count-append c (x ∷ xs) ys = omega (arith, count-append c xs ys)

remove_same : (c : ℕ) (xs : List ℕ) (x : ℕ) → (x == c) ≡ true → remove c (x ∷ xs) ≡ xs
unfolding remove
remove_same c xs x e = rw e refl

remove_other :
    (c : ℕ) (xs : List ℕ) (x : ℕ) → (x == c) ≡ false → remove c (x ∷ xs) ≡ x ∷ remove c xs
unfolding remove
remove_other c xs x e = rw e refl

length-remove : (c : ℕ) (xs : List ℕ) → 1 ≤ count c xs → suc (length (remove c xs)) ≡ length xs
unfolding count
length-remove c [] h = absurd (omega (arith, h))
length-remove c (x ∷ xs) h = elim (Bool-cases (x == c)) [
  | inl e ↦ ap (λ l. suc (length l)) (remove_same c xs x e)
  | inr e ↦
      omega (arith, ap length (remove_other c xs x e), length-remove c xs (ground (arith, h, e)))
]

count-remove :
    (d c : ℕ) (xs : List ℕ) → 1 ≤ count c xs → count d (remove c xs) + count d (c ∷ []) ≡ count d xs
unfolding count
count-remove d c [] h = absurd (omega (arith, h))
count-remove d c (x ∷ xs) h = elim (Bool-cases (x == c)) [
  | inl e ↦ ground (arith, ap (count d) (remove_same c xs x e), e)
  | inr e ↦
      ground
        (arith, ap (count d) (remove_other c xs x e), count-remove d c xs (ground (arith, h, e)))
]

-- The connections that there are.
pub total : SqlPool → ℕ
total p = length p.soci_sessions + length p.leased + length p.sessions + length p.in_hand

-- There are n of them, and each has one owner.
pub record IsShared (n : ℕ) (p : SqlPool) : Type 0 where
  pub all_there : total p ≡ n
  pub one_owner : (c : ℕ) → owners c p ≤ 1

get_session-IsShared :
    (n c : ℕ) (p q : SqlPool) → get_session p ≡ some (c, q) → IsShared n p → IsShared n q
unfolding get_session total owners count
get_session-IsShared n c p q e s = from p.soci_sessions p.leased p.sessions p.in_hand e s
  where
    from :
        (xs ls ss hs : List ℕ)
        → get_session (record { soci_sessions = xs; leased = ls; sessions = ss; in_hand = hs })
          ≡ some (c, q)
        → IsShared n (record { soci_sessions = xs; leased = ls; sessions = ss; in_hand = hs })
        → IsShared n q
    from [] ls ss hs e s = absurd (cc e)
    from (x ∷ xs) ls ss hs e s =
        let moved : record { soci_sessions = xs; leased = x ∷ ls; sessions = ss; in_hand = hs }
            ≡ q =
          ap (λ (o : Option (ℕ × SqlPool)). (Option.get_or o (c, q)).1) e in
        subst (IsShared n) moved (record {
          all_there = omega (arith, s.all_there);
          one_owner = λ d. omega (arith, s.one_owner d);
        })

give_back-IsShared :
    (n c : ℕ) (p : SqlPool) → 1 ≤ count c p.leased → IsShared n p → IsShared n (give_back c p)
unfolding give_back total owners
give_back-IsShared n c p h s = record {
  all_there =
      omega
        (arith, s.all_there, length-append p.soci_sessions (c ∷ []), length-remove c p.leased h);
  one_owner = λ d.
      omega (
        arith,
        s.one_owner d,
        count-append d p.soci_sessions (c ∷ []),
        count-remove d c p.leased h,
      );
}

start_check-IsShared :
    (n : ℕ) (p : SqlPool)
    → p.sessions ≡ []
    → p.in_hand ≡ []
    → IsShared n p
    → IsShared n (start_check p)
unfolding start_check total owners count
start_check-IsShared n p e f s = record {
  all_there = omega (arith, s.all_there, ap length e, ap length f);
  one_owner = λ d. omega (arith, s.one_owner d, ap (count d) e, ap (count d) f);
}

take_front-IsShared :
    (n : ℕ) (p : SqlPool) → p.in_hand ≡ [] → IsShared n p → IsShared n (take_front p)
unfolding take_front total owners count
take_front-IsShared n p f s = from p.soci_sessions p.leased p.sessions p.in_hand f s
  where
    from :
        (xs ls ss hs : List ℕ)
        → hs ≡ []
        → IsShared n (record { soci_sessions = xs; leased = ls; sessions = ss; in_hand = hs })
        → IsShared n
            (take_front (record { soci_sessions = xs; leased = ls; sessions = ss; in_hand = hs }))
    from xs ls [] hs f s = s
    from xs ls (x ∷ ss) hs f s = record {
      all_there = omega (arith, s.all_there, ap length f);
      one_owner = λ d. omega (arith, s.one_owner d, ap (count d) f);
    }

put_checked-IsShared :
    (n c : ℕ) (p : SqlPool) → p.in_hand ≡ c ∷ [] → IsShared n p → IsShared n (put_checked passed p)
unfolding put_checked total owners count
put_checked-IsShared n c p f s = record {
  all_there = omega (arith, s.all_there, length-append p.soci_sessions p.in_hand);
  one_owner = λ d. omega (arith, s.one_owner d, count-append d p.soci_sessions p.in_hand);
}

renewed-IsShared :
    (n c x : ℕ) (p : SqlPool)
    → p.in_hand ≡ c ∷ []
    → owners x p ≡ 0
    → IsShared n p
    → IsShared n (put_checked (renewed x) p)
unfolding put_checked total owners count
renewed-IsShared n c x p f fresh s = record {
  all_there = omega (arith, s.all_there, length-append p.soci_sessions (x ∷ []), ap length f);
  one_owner = λ d. elim (Bool-cases (x == d)) [
    | inl e ↦ ground (
      arith,
      e,
      subst (λ y. owners y p ≡ 0) ((==_iff x d).0 e) fresh,
      count-append d p.soci_sessions (x ∷ []),
    )
    | inr e ↦ ground (arith, e, s.one_owner d, count-append d p.soci_sessions (x ∷ []))
  ];
}

Step-IsShared : (n : ℕ) (p q : SqlPool) → Step p q → IsShared n p → IsShared n q
unfolding put_checked
Step-IsShared n p q (gets c e) s = get_session-IsShared n c p q e s
Step-IsShared n p q (gives c h) s = give_back-IsShared n c p h s
Step-IsShared n p q (checks e f) s = start_check-IsShared n p e f s
Step-IsShared n p q (takes f) s = take_front-IsShared n p f s
Step-IsShared n p q (keeps c f) s = put_checked-IsShared n c p f s
Step-IsShared n p q (fails c f) s = put_checked-IsShared n c p f s
Step-IsShared n p q (renews c d f fresh) s = renewed-IsShared n c d p f fresh s

reach-IsShared : (n : ℕ) (p q : SqlPool) → Reach p q → IsShared n p → IsShared n q
reach-IsShared n p q (here) s = s
reach-IsShared n p q (step r t) s = Step-IsShared n _ q t (reach-IsShared n p _ r s)

-- From a pool of different connections, after any interleaving of sessions that are got and given
-- back with the steps of the health check, as many connections are there as at the start, and
-- none has two owners.
pub Reach-IsShared :
    (connections : List ℕ) (p : SqlPool)
    → ((c : ℕ) → count c connections ≤ 1)
    → Reach (make_sql_pool connections) p
    → IsShared (length connections) p
unfolding make_sql_pool total owners count
Reach-IsShared connections p different r =
    reach-IsShared (length connections) (make_sql_pool connections) p r
      (record { all_there = omega arith; one_owner = λ c. omega (arith, different c) })
