-- ===== src/Sql/Connection.antt =====
-- Who uses the connection of a session in include/libasyik/sql.hpp and src/sql.cpp: the queries,
-- which run on workers under `conn_mtx`, and the watcher of notifications, which tries the lock. A
-- notification stands on the socket until a use of the connection reads it, then in the queue of
-- libpq until `dispatch_notifications` takes it from there.
use libasyik.Common.{
  ℕ, ◌≡◌, refl, sym, ap, ◌∙◌, Option, none, some, List, [], ◌∷◌, ◌++◌, Bool, true, false, not, ◌&&◌,
  if◌then◌else◌, if-intro, inl, inr, Bool-cases, ◌==◌, append-nil, append_assoc, Bytes,
}

-- A notification, by its channel and payload.
abbrev pub Notification : Type 0
Notification = Bytes × Bytes

pub record Connection : Type 0 where
  pub conn_mtx : Option ℕ
  pub notify_running : Bool
  pub on_socket : List Notification
  pub read : List Notification
  pub dispatched : List Notification

-- What happens to a connection: a query of `query`, `query_rows`, `begin`, `commit` or `rollback`
-- takes the lock, reads, and ends, with an exception or not; the watcher wakes, and its reading
-- finds the connection lost or not.
pub data Event : Type 0 where
  arrives : Notification → Event
  locks : (worker : ℕ) → Event
  reads : (worker : ℕ) → Event
  returns : (worker : ℕ) (succeeds : Bool) → Event
  watcher_wakes : (lost : Bool) → Event

unfoldable pub has_lock : ℕ → Option ℕ → Bool
has_lock worker none = false
has_lock worker (some w) = w == worker

unfoldable pub dispatch : Connection → Connection
dispatch c =
    if c.notify_running then record c { read = []; dispatched = c.dispatched ++ c.read } else c

-- A use of the connection reads what stands on the socket.
unfoldable pub use_connection : Connection → Connection
use_connection c = record c { on_socket = []; read = c.read ++ c.on_socket }

unfoldable pub unlock : Connection → Connection
unlock c = record c { conn_mtx = none }

-- The watcher: while a query holds the lock, it only waits again. A connection that is lost ends
-- it; what its last reading may have brought, which nothing dispatches, counts as on the socket.
unfoldable pub watch_connection : Option ℕ → (lost : Bool) → Connection → Connection
watch_connection (some worker) lost c = c
watch_connection none lost c =
    if c.notify_running
    then (if lost then record c { notify_running = false } else dispatch (use_connection c))
    else c

-- A worker that does not get the lock goes on waiting for it.
unfoldable pub lock : Option ℕ → (worker : ℕ) → Connection → Connection
lock none worker c = record c { conn_mtx = some worker }
lock (some w) worker c = c

unfoldable pub happen : Event → Connection → Connection
happen (arrives n) c = record c { on_socket = c.on_socket ++ (n ∷ []) }
happen (locks worker) c = lock c.conn_mtx worker c
happen (reads worker) c = if has_lock worker c.conn_mtx then use_connection c else c
happen (returns worker succeeds) c =
    if has_lock worker c.conn_mtx then unlock (if succeeds then dispatch c else c) else c
happen (watcher_wakes lost) c = watch_connection c.conn_mtx lost c

unfoldable pub run : List Event → Connection → Connection
run [] c = c
run (e ∷ es) c = run es (happen e c)

-- A query on its worker, and a query for rows: while others may come between.
unfoldable pub query : (worker : ℕ) (succeeds : Bool) → List Event
query worker succeeds = locks worker ∷ reads worker ∷ returns worker succeeds ∷ []

unfoldable pub query_rows : (worker : ℕ) (succeeds : Bool) → List Event
query_rows worker succeeds = query worker succeeds

-- `begin`, `commit` and `rollback` are queries as well; a LISTEN or UNLISTEN does not dispatch.
unfoldable pub run_listen_command : (worker : ℕ) → List Event
run_listen_command worker = locks worker ∷ reads worker ∷ returns worker false ∷ []

pub arrived : List Event → List Notification
arrived [] = []
arrived (arrives n ∷ es) = n ∷ arrived es
arrived (locks w ∷ es) = arrived es
arrived (reads w ∷ es) = arrived es
arrived (returns w b ∷ es) = arrived es
arrived (watcher_wakes lost ∷ es) = arrived es

-- All notifications of a connection, the oldest first.
all_of : Connection → List Notification
all_of c = c.dispatched ++ (c.read ++ c.on_socket)

dispatch_all : (c : Connection) → all_of (dispatch c) ≡ all_of c
unfolding all_of dispatch
dispatch_all c =
    if-intro
      (λ (d : Connection).
        d.dispatched ++ (d.read ++ d.on_socket) ≡ c.dispatched ++ (c.read ++ c.on_socket))
      c.notify_running (λ _. append_assoc c.dispatched c.read c.on_socket) (λ _. refl)

use_all : (c : Connection) → all_of (use_connection c) ≡ all_of c
unfolding all_of use_connection
use_all c = ap (λ x. c.dispatched ++ x) (append-nil (c.read ++ c.on_socket))

watch_all :
    (o : Option ℕ) (lost : Bool) (c : Connection) → all_of (watch_connection o lost c) ≡ all_of c
unfolding watch_connection all_of
watch_all (some w) lost c = refl
watch_all none lost c =
    if-intro (λ (d : Connection). all_of d ≡ all_of c) c.notify_running
      (λ _.
        if-intro (λ (d : Connection). all_of d ≡ all_of c) lost (λ _. refl)
          (λ _. dispatch_all (use_connection c) ∙ use_all c))
      (λ _. refl)

lock_all : (o : Option ℕ) (w : ℕ) (c : Connection) → all_of (lock o w c) ≡ all_of c
unfolding lock all_of
lock_all none w c = refl
lock_all (some v) w c = refl

unlock_all : (c : Connection) → all_of (unlock c) ≡ all_of c
unfolding unlock all_of
unlock_all c = refl

happen_all : (e : Event) (c : Connection) → all_of (happen e c) ≡ all_of c ++ arrived (e ∷ [])
unfolding happen arrived all_of
happen_all (arrives n) c = sym (
    append_assoc c.dispatched (c.read ++ c.on_socket) (n ∷ [])
    ∙ ap (λ x. c.dispatched ++ x) (append_assoc c.read c.on_socket (n ∷ [])))
happen_all (locks w) c = lock_all c.conn_mtx w c ∙ sym (append-nil (all_of c))
happen_all (reads w) c =
    if-intro (λ (d : Connection). all_of d ≡ all_of c ++ []) (has_lock w c.conn_mtx)
      (λ _. use_all c ∙ sym (append-nil (all_of c))) (λ _. sym (append-nil (all_of c)))
happen_all (returns w succeeds) c =
    if-intro (λ (d : Connection). all_of d ≡ all_of c ++ []) (has_lock w c.conn_mtx)
      (λ _.
        unlock_all (if succeeds then dispatch c else c)
        ∙ if-intro (λ (d : Connection). all_of d ≡ all_of c ++ []) succeeds
            (λ _. dispatch_all c ∙ sym (append-nil (all_of c))) (λ _. sym (append-nil (all_of c))))
      (λ _. sym (append-nil (all_of c)))
happen_all (watcher_wakes lost) c = watch_all c.conn_mtx lost c ∙ sym (append-nil (all_of c))

arrived_more : (e : Event) (es : List Event) → arrived (e ∷ []) ++ arrived es ≡ arrived (e ∷ es)
unfolding arrived
arrived_more (arrives n) es = refl
arrived_more (locks w) es = refl
arrived_more (reads w) es = refl
arrived_more (returns w b) es = refl
arrived_more (watcher_wakes lost) es = refl

run_all : (es : List Event) (c : Connection) → all_of (run es c) ≡ all_of c ++ arrived es
unfolding run arrived
run_all [] c = sym (append-nil (all_of c))
run_all (e ∷ es) c =
    run_all es (happen e c)
    ∙ ap (λ x. x ++ arrived es) (happen_all e c)
    ∙ append_assoc (all_of c) (arrived (e ∷ [])) (arrived es)
    ∙ ap (λ x. all_of c ++ x) (arrived_more e es)

unfoldable pub new_connection : (notify_running : Bool) → Connection
new_connection running = record {
  conn_mtx = none;
  notify_running = running;
  on_socket = [];
  read = [];
  dispatched = [];
}

unfoldable pub is_free : Option ℕ → Bool
is_free none = true
is_free (some worker) = false

watcher_dispatches :
    (o : Option ℕ) (lost : Bool) (c : Connection)
    → (watch_connection o lost c).dispatched
      ≡ (if is_free o && c.notify_running && not lost then all_of c else c.dispatched)
unfolding watch_connection dispatch use_connection all_of is_free
watcher_dispatches none true c = elim (Bool-cases c.notify_running) [
  | inl e ↦ rw (watch_connection, e) refl
  | inr e ↦ rw (watch_connection, e) refl
]
watcher_dispatches none false c = elim (Bool-cases c.notify_running) [
  | inl e ↦ rw (watch_connection, dispatch, e) refl
  | inr e ↦ rw (watch_connection, dispatch, e) refl
]
watcher_dispatches (some w) lost c = refl

-- After any interleaving of queries, of which any may throw, with the watcher, which may find the
-- connection lost, the notifications that were dispatched, those that libpq has read and those on
-- the socket are all that arrived, in their order; and a watcher that wakes leaves all that
-- arrived dispatched if it watches, no query has the connection and the connection is not lost,
-- else it dispatches nothing.
pub run-arrived :
    (es : List Event) (running lost : Bool)
    → let c = run es (new_connection running) in
      (c.dispatched ++ (c.read ++ c.on_socket) ≡ arrived es)
      × ((happen (watcher_wakes lost) c).dispatched ≡ (
          if is_free c.conn_mtx && c.notify_running && not lost then arrived es else c.dispatched))
unfolding happen new_connection all_of
run-arrived es running lost =
    let c = run es (new_connection running) in
    let whole : all_of c ≡ arrived es = run_all es (new_connection running) in
    (
      whole,
      watcher_dispatches c.conn_mtx lost c
          ∙ ap (λ x. if is_free c.conn_mtx && c.notify_running && not lost then x else c.dispatched)
              whole,
    )
