-- ===== src/Sql.antt =====
-- include/libasyik/sql.hpp and src/sql.cpp: the pool of sessions and its health check, the
-- transactions, and the notifications of a session. SOCI and libpq are parameters; a connection
-- is a number. What runs between two locks of the pool is one `Step`.
pub mod Sharing
pub mod Transactions
pub mod Notifications
pub mod Connection
mod Tests
use libasyik.Common.{
  ℕ, zero, suc, ◌+◌, ◌≡◌, ◌≤◌, Option, none, some, List, [], ◌∷◌, ◌++◌, Bool, true, false, not,
  ◌&&◌, if◌then◌else◌, ◌==◌, Bytes, bytes_eq,
}

-- The pool, and who has the connections that are not in it: the sessions that were handed out,
-- and the health check, which takes the whole list and has one of them in its hand.
pub record SqlPool : Type 0 where
  pub soci_sessions : List ℕ
  pub leased : List ℕ
  pub sessions : List ℕ
  pub in_hand : List ℕ

unfoldable pub make_sql_pool : (connections : List ℕ) → SqlPool
make_sql_pool connections = record {
  soci_sessions = connections;
  leased = [];
  sessions = [];
  in_hand = [];
}

-- `get_session`: `none` where it waits.
unfoldable pub get_session : SqlPool → Option (ℕ × SqlPool)
get_session p = elim p.soci_sessions [
  | [] ↦ none
  | c ∷ rest ↦ some (
    c,
    record {
      soci_sessions = rest;
      leased = c ∷ p.leased;
      sessions = p.sessions;
      in_hand = p.in_hand;
    },
  )
]

unfoldable pub remove : ℕ → List ℕ → List ℕ
remove c [] = []
remove c (x ∷ xs) = let rest = remove c xs in if x == c then xs else x ∷ rest

-- The destructor of a session.
unfoldable pub give_back : ℕ → SqlPool → SqlPool
give_back c p = record {
  soci_sessions = p.soci_sessions ++ (c ∷ []);
  leased = remove c p.leased;
  sessions = p.sessions;
  in_hand = p.in_hand;
}

-- `std::move(p->soci_sessions)`, when a period is over.
unfoldable pub start_check : SqlPool → SqlPool
start_check p = record {
  soci_sessions = [];
  leased = p.leased;
  sessions = p.soci_sessions;
  in_hand = [];
}

-- The front of the list, with the lock given up.
unfoldable pub take_front : SqlPool → SqlPool
take_front p = elim p.sessions [
  | [] ↦ p
  | c ∷ rest ↦ record {
    soci_sessions = p.soci_sessions;
    leased = p.leased;
    sessions = rest;
    in_hand = c ∷ [];
  }
]

-- What follows the test of the connection in hand: it passed, it failed and a new one is made,
-- or that failed too.
pub data Checked : Type 0 where
  passed renewal_failed : Checked
  renewed : ℕ → Checked

unfoldable pub put_checked : Checked → SqlPool → SqlPool
put_checked r p = record {
  soci_sessions =
      p.soci_sessions
      ++ (elim r [ passed ↦ p.in_hand | renewal_failed ↦ p.in_hand | renewed c ↦ c ∷ [] ]);
  leased = p.leased;
  sessions = p.sessions;
  in_hand = [];
}

-- Whether a connection is among some.
unfoldable pub count : ℕ → List ℕ → ℕ
count c [] = 0
count c (x ∷ xs) = (if x == c then 1 else 0) + count c xs

unfoldable pub owners : ℕ → SqlPool → ℕ
owners c p = count c p.soci_sessions + count c p.leased + count c p.sessions + count c p.in_hand

-- The steps of the fibers and of the thread that checks.
pub data Step : SqlPool → SqlPool → Type 0 where
  gets : {p q : SqlPool} (c : ℕ) → get_session p ≡ some (c, q) → Step p q
  gives : {p : SqlPool} (c : ℕ) → 1 ≤ count c p.leased → Step p (give_back c p)
  checks : {p : SqlPool} → p.sessions ≡ [] → p.in_hand ≡ [] → Step p (start_check p)
  takes : {p : SqlPool} → p.in_hand ≡ [] → Step p (take_front p)
  keeps : {p : SqlPool} (c : ℕ) → p.in_hand ≡ c ∷ [] → Step p (put_checked passed p)
  fails : {p : SqlPool} (c : ℕ) → p.in_hand ≡ c ∷ [] → Step p (put_checked renewal_failed p)
  renews :
      {p : SqlPool} (c d : ℕ)
      → p.in_hand ≡ c ∷ []
      → owners d p ≡ 0
      → Step p (put_checked (renewed d) p)

pub data Reach (start : SqlPool) : SqlPool → Type 0 where
  here : Reach start start
  step : {p q : SqlPool} → Reach start p → Step p q → Reach start q
