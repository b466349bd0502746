-- ===== src/Sql/Transactions.antt =====
-- `sql_transaction` of include/libasyik/sql.hpp over the database's side of a session. Each
-- command may throw; then the database is left as it is.
use libasyik.Common.{
  ◌≡◌, refl, sym, ap, ◌∙◌, Option, none, some, List, [], ◌∷◌, Bool, true, false, if◌then◌else◌,
}

pub data Command : Type 0 where
  begin commit rollback : Command

-- Whether a transaction is open in the database after a command.
unfoldable pub execute : Command → (succeeds is_open : Bool) → Bool
execute c false is_open = is_open
execute begin true is_open = true
execute commit true is_open = false
execute rollback true is_open = false

pub record SqlTransaction : Type 0 where
  pub handled : Bool
  pub is_open : Bool

-- The constructor; `none` is its exception.
unfoldable pub sql_transaction : (succeeds is_open : Bool) → Option SqlTransaction
sql_transaction false is_open = none
sql_transaction true is_open =
    some (record { handled = false; is_open = execute begin true is_open })

-- `begin`, `commit` and `rollback`.
unfoldable pub call : Command → (succeeds : Bool) → SqlTransaction → SqlTransaction
call begin succeeds t = record { handled = false; is_open = execute begin succeeds t.is_open }
call commit succeeds t = record {
  handled = if succeeds then true else t.handled;
  is_open = execute commit succeeds t.is_open;
}
call rollback succeeds t = record {
  handled = if succeeds then true else t.handled;
  is_open = execute rollback succeeds t.is_open;
}

unfoldable pub calls : List (Command × Bool) → SqlTransaction → SqlTransaction
calls [] t = t
calls ((c, succeeds) ∷ cs) t = calls cs (call c succeeds t)

-- The destructor, which is noexcept: an exception of its rollback ends the program.
pub data Destroyed : Type 0 where
  terminated : Destroyed
  left : (is_open : Bool) → Destroyed

unfoldable pub destroy : (succeeds : Bool) → SqlTransaction → Destroyed
destroy succeeds t =
    if t.handled
    then left t.is_open
    else if succeeds
    then left (execute rollback true t.is_open)
    else terminated

-- A transaction that counts as handled is not open.
Settled : SqlTransaction → Type 0
Settled t = t.handled ≡ true → t.is_open ≡ false

call-Settled :
    (c : Command) (succeeds : Bool) (t : SqlTransaction) → Settled t → Settled (call c succeeds t)
unfolding Settled call execute
call-Settled begin succeeds t s h = absurd (cc h)
call-Settled commit true t s h = refl
call-Settled commit false t s h = s h
call-Settled rollback true t s h = refl
call-Settled rollback false t s h = s h

calls-Settled : (cs : List (Command × Bool)) (t : SqlTransaction) → Settled t → Settled (calls cs t)
unfolding calls
calls-Settled [] t s = s
calls-Settled ((c, succeeds) ∷ cs) t s =
    calls-Settled cs (call c succeeds t) (call-Settled c succeeds t s)

abbrev open_of : Destroyed → Bool
open_of terminated = false
open_of (left b) = b

left_closed :
    (handled is_open succeeds b : Bool)
    → (handled ≡ true → is_open ≡ false)
    → (if handled then left is_open else if succeeds then left false else terminated) ≡ left b
    → b ≡ false
left_closed true is_open succeeds b s h = sym (ap open_of h) ∙ s refl
left_closed false is_open true b s h = sym (ap open_of h)
left_closed false is_open false b s h = absurd (cc h)

destroy-Settled :
    (succeeds : Bool) (t : SqlTransaction) (b : Bool)
    → Settled t
    → destroy succeeds t ≡ left b
    → b ≡ false
unfolding Settled destroy execute
destroy-Settled succeeds t b s h = left_closed t.handled t.is_open succeeds b s h

-- After any calls of a transaction, of which any may throw, a destructor that does not end the
-- program leaves no transaction open.
pub destroy-calls :
    (was_open succeeds b : Bool) (t : SqlTransaction) (cs : List (Command × Bool))
    → sql_transaction true was_open ≡ some t
    → destroy succeeds (calls cs t) ≡ left b
    → b ≡ false
unfolding sql_transaction execute Settled
destroy-calls was_open succeeds b t cs made h =
    let handled_of =
      λ (o : Option SqlTransaction). elim o as (λ _. Bool) [ none ↦ true | some t ↦ t.handled ] in
    let new : t.handled ≡ false = sym (ap handled_of made) in
    destroy-Settled succeeds (calls cs t) b (calls-Settled cs t (λ e. absurd (cc (sym e ∙ new)))) h
