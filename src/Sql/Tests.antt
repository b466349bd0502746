-- ===== src/Sql/Tests.antt =====
-- Runs of the code of include/libasyik/sql.hpp and src/sql.cpp, and their theorems at concrete
-- inputs.
use libasyik.Common.{
  not, ℕ, none, ◌++◌, ◌&&◌, if◌then◌else◌, ◌≡◌, ◌≤◌, refl, List, [], ◌∷◌, true, false, codes,
  bytes_eq, arith,
}
use libasyik.Sql.{
  SqlPool, make_sql_pool, get_session, give_back, remove, start_check, take_front, put_checked,
  count, owners, gets, checks, takes, renews, Reach, here, step,
}
use libasyik.Sql.Sharing.{IsShared, Reach-IsShared}
use libasyik.Sql.Transactions.{
  commit, execute, sql_transaction, call, calls, terminated, destroy, destroy-calls,
}
use libasyik.Sql.Connection
use libasyik.Sql.Connection.{
  Connection, arrives, locks, reads, returns, watcher_wakes, Event, has_lock, dispatch,
  use_connection, unlock, watch_connection, lock, happen, query, query_rows, run_listen_command,
  arrived, new_connection, is_free, run-arrived,
}
use libasyik.Sql.Notifications.{
  find, erase, sql_session, listen, unlisten, unlisten_all, hand_out, dispatch_notifications, Call,
  listens, unlistens, apply, after, registered, find-after,
}

program : Unit {0}
unfolding make_sql_pool get_session give_back remove start_check take_front put_checked count owners
    execute sql_transaction call calls destroy find erase sql_session listen unlisten unlisten_all
    hand_out dispatch_notifications apply after bytes_eq
program = tt

two : List ℕ
two = 1 ∷ 2 ∷ []

pool : SqlPool
unfolding program two
pool = make_sql_pool two

-- One connection is handed out; the other fails its check, and a new one takes its place.
used : SqlPool
used = record { soci_sessions = 2 ∷ []; leased = 1 ∷ []; sessions = []; in_hand = [] }

checked : SqlPool
checked = record { soci_sessions = 3 ∷ []; leased = 1 ∷ []; sessions = []; in_hand = [] }

reached : Reach pool checked
unfolding program two pool used checked
reached =
    step (step (step (step (here) (gets {q = used} 1 refl)) (checks refl refl)) (takes refl))
      (renews 2 3 refl refl)

different : (c : ℕ) → count c two ≤ 1
unfolding program two
different c = ground arith

Reach-IsShared_example : IsShared 2 checked
unfolding program two pool
Reach-IsShared_example = Reach-IsShared two checked different reached

-- A commit that throws, and a rollback that throws after it, end the program.
terminates_run :
    destroy false (call commit false (record { handled = false; is_open = true })) ≡ terminated
unfolding program
terminates_run = refl

destroy-calls_example : false ≡ false
unfolding program
destroy-calls_example =
    destroy-calls false true false (record { handled = false; is_open = true })
      ((commit, false) ∷ []) refl refl

history : List (Call ℕ)
history = unlistens (codes "b") ∷ listens (codes "a") 7 true ∷ listens (codes "b") 5 true ∷ []

dispatch_run :
    dispatch_notifications ((codes "b", codes "x") ∷ (codes "a", codes "y") ∷ []) (after history)
    ≡ (7, (codes "a", codes "y")) ∷ []
unfolding program history
dispatch_run = refl

find-after_example :
    find (codes "a") (after history).notify_handlers ≡ registered history (codes "a")
find-after_example = find-after history (codes "a")

-- A notification that a query reads is dispatched once, when it returns; one whose query throws
-- waits for the watcher, also when a command of LISTEN comes between.
events : List Event
unfolding query query_rows run_listen_command
events =
    (arrives (codes "a", codes "1") ∷ query 1 true)
    ++ ((arrives (codes "b", codes "2") ∷ query_rows 2 false)
        ++ (run_listen_command 3 ++ (watcher_wakes false ∷ [])))

connection_run : Connection.run events (new_connection true) ≡ record {
  conn_mtx = none;
  notify_running = true;
  on_socket = [];
  read = [];
  dispatched = (codes "a", codes "1") ∷ (codes "b", codes "2") ∷ [];
}
unfolding program events Connection.run has_lock dispatch use_connection unlock watch_connection
    lock happen new_connection
connection_run = refl

run-arrived_example :
    let c = Connection.run events (new_connection true) in
    (c.dispatched ++ (c.read ++ c.on_socket) ≡ arrived events)
    × ((happen (watcher_wakes false) c).dispatched ≡ (
        if is_free c.conn_mtx && c.notify_running && not false
        then arrived events
        else c.dispatched))
run-arrived_example = run-arrived events true false
