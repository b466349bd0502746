-- ===== src/Sql/Notifications.antt =====
-- The notifications of a session in src/sql.cpp: which handler a channel has, and the watcher of
-- the socket. `watchable` says that there is a socket of PostgreSQL to watch.
use libasyik.Common.{
  ℕ, suc, ◌-◌, if-intro, ◌≡◌, refl, sym, ap, ◌∙◌, inl, inr, Option, none, some, List, [], ◌∷◌, Bool,
  true, false, not, ◌&&◌, if◌then◌else◌, Bytes, bytes_eq, bytes_eq_refl, eq_of_bytes_eq, Bool-cases,
}

-- `unordered_map<std::string, notify_handler_t>` as an association list.
module _ {H : Type 0} where
  unfoldable pub find : Bytes → List (Bytes × H) → Option H
  find channel [] = none
  find channel ((key, h) ∷ m) = if bytes_eq key channel then some h else find channel m

  unfoldable pub erase : Bytes → List (Bytes × H) → List (Bytes × H)
  erase channel [] = []
  erase channel ((key, h) ∷ m) =
      let rest = erase channel m in if bytes_eq key channel then rest else (key, h) ∷ rest

  abbrev pub is_empty : List (Bytes × H) → Bool
  is_empty [] = true
  is_empty (x ∷ m) = false

-- A session: its handlers, the socket it watches and whether it does. `waits` says how many waits
-- for the socket or the timer stand.
pub record SqlSession (H : Type 0) : Type 0 where
  pub notify_handlers : List (Bytes × H)
  pub has_stream : Bool
  pub notify_running : Bool
  pub waits : ℕ

-- The end of a wait: it was cancelled, a query has the connection, the connection is lost, or
-- there is input.
pub data Ready : Type 0 where
  cancelled busy lost : Ready
  input : List (Bytes × Bytes) → Ready

module _ {H : Type 0} where
  unfoldable pub sql_session : SqlSession H
  sql_session = record {
    notify_handlers = [];
    has_stream = false;
    notify_running = false;
    waits = 0;
  }

  unfoldable pub listen : (channel : Bytes) → H → (watchable : Bool) → SqlSession H → SqlSession H
  listen channel handler watchable s = record {
    notify_handlers = (channel, handler) ∷ erase channel s.notify_handlers;
    has_stream = if watchable then true else s.has_stream;
    notify_running = if watchable then true else s.notify_running;
    waits = if watchable && not s.notify_running then suc s.waits else s.waits;
  }

  -- The waits are cancelled.
  unfoldable pub unlisten_all : SqlSession H → SqlSession H
  unlisten_all s = record {
    notify_handlers = [];
    has_stream = false;
    notify_running = false;
    waits = 0;
  }

  unfoldable pub unlisten : (channel : Bytes) → SqlSession H → SqlSession H
  unlisten channel s =
      let handlers = erase channel s.notify_handlers in
      if is_empty handlers then unlisten_all s else record {
        notify_handlers = handlers;
        has_stream = s.has_stream;
        notify_running = s.notify_running;
        waits = s.waits;
      }

  -- What the notifications that libpq has are handed to.
  unfoldable pub hand_out : List (Bytes × H) → List (Bytes × Bytes) → List (H × (Bytes × Bytes))
  hand_out handlers [] = []
  hand_out handlers ((channel, payload) ∷ ns) =
      let rest = hand_out handlers ns in
      elim (find channel handlers) [ none ↦ rest | some h ↦ (h, (channel, payload)) ∷ rest ]

  unfoldable pub dispatch_notifications :
      List (Bytes × Bytes) → SqlSession H → List (H × (Bytes × Bytes))
  dispatch_notifications ns s = if s.notify_running then hand_out s.notify_handlers ns else []

  unfoldable pub watch : Ready → SqlSession H → List (H × (Bytes × Bytes)) × SqlSession H
  watch cancelled s = (
    [],
    record {
      notify_handlers = s.notify_handlers;
      has_stream = s.has_stream;
      notify_running = false;
      waits = s.waits;
    },
  )
  watch busy s = ([], s)
  watch lost s = (
    [],
    record {
      notify_handlers = s.notify_handlers;
      has_stream = s.has_stream;
      notify_running = false;
      waits = s.waits - 1;
    },
  )
  watch (input ns) s = (
    dispatch_notifications ns s,
    record {
      notify_handlers = s.notify_handlers;
      has_stream = s.has_stream;
      notify_running = s.notify_running;
      waits = if s.has_stream && s.notify_running then s.waits else s.waits - 1;
    },
  )

-- The calls of a client on a session.
pub data Call (H : Type 0) : Type 0 where
  listens : (channel : Bytes) → H → (watchable : Bool) → Call H
  unlistens : (channel : Bytes) → Call H
  unlistens_all : Call H

bytes_eq_trans : (a b c : Bytes) → bytes_eq a b ≡ true → bytes_eq a c ≡ bytes_eq b c
bytes_eq_trans a b c e = ap (λ x. bytes_eq x c) (eq_of_bytes_eq a b e)

differ :
    (c key channel : Bytes)
    → bytes_eq key c ≡ false
    → bytes_eq key channel ≡ true
    → bytes_eq c channel ≡ false
differ c key channel e q = elim (Bool-cases (bytes_eq c channel)) [
  | inl k ↦
      let channel_c : bytes_eq channel c ≡ true =
        ap (bytes_eq channel) (eq_of_bytes_eq c channel k) ∙ bytes_eq_refl channel in
      absurd (cc (sym e ∙ bytes_eq_trans key channel c q ∙ channel_c))
  | inr k ↦ k
]

find_empty :
    {H : Type 0} (channel : Bytes) (m : List (Bytes × H))
    → is_empty m ≡ true
    → find channel m ≡ none
unfolding find
find_empty channel [] e = refl
find_empty channel (x ∷ m) e = absurd (cc e)

module _ {H : Type 0} where
  unfoldable pub apply : Call H → SqlSession H → SqlSession H
  apply (listens channel handler watchable) s = listen channel handler watchable s
  apply (unlistens channel) s = unlisten channel s
  apply unlistens_all s = unlisten_all s

  -- A history, the last call first.
  unfoldable pub after : List (Call H) → SqlSession H
  after [] = sql_session
  after (c ∷ cs) = apply c (after cs)

  -- The handler that the last call about a channel gives it.
  pub registered : List (Call H) → Bytes → Option H
  registered [] channel = none
  registered (listens c h watchable ∷ cs) channel =
      if bytes_eq c channel then some h else registered cs channel
  registered (unlistens c ∷ cs) channel = if bytes_eq c channel then none else registered cs channel
  registered (unlistens_all ∷ cs) channel = none

  find-erase :
      (c channel : Bytes) (m : List (Bytes × H))
      → find channel (erase c m) ≡ (if bytes_eq c channel then none else find channel m)
  unfolding find erase
  find-erase c channel [] = elim (Bool-cases (bytes_eq c channel)) [
    | inl e ↦ rw e refl
    | inr e ↦ rw e refl
  ]
  find-erase c channel ((key, h) ∷ m) = elim (Bool-cases (bytes_eq key c)) [
    | inl e ↦ elim (Bool-cases (bytes_eq c channel)) [
      | inl k ↦ rw (e, k) (find-erase c channel m ∙ rw k refl)
      | inr k ↦ rw (e, k, bytes_eq_trans key c channel e ∙ k) (find-erase c channel m ∙ rw k refl)
    ]
    | inr e ↦ elim (Bool-cases (bytes_eq key channel)) [
      | inl q ↦ rw (e, q, differ c key channel e q) refl
      | inr q ↦ rw (e, q) (find-erase c channel m)
    ]
  ]

  -- After any history of calls a session has for every channel the handler of the last call about
  -- it: of the last listen, if no unlisten of the channel or of all follows it, else none.
  pub find-after :
      (cs : List (Call H)) (channel : Bytes)
      → find channel (after cs).notify_handlers ≡ registered cs channel
  unfolding after apply listen unlisten unlisten_all find registered sql_session
  find-after [] channel = refl
  find-after (listens c h watchable ∷ cs) channel = elim (Bool-cases (bytes_eq c channel)) [
    | inl e ↦ rw e refl
    | inr e ↦ rw (e, find-erase c channel (after cs).notify_handlers, e) (find-after cs channel)
  ]
  find-after (unlistens c ∷ cs) channel =
      let m = (after cs).notify_handlers in
      let found : find channel (erase c m)
          ≡ (if bytes_eq c channel then none else registered cs channel) =
        find-erase c channel m
        ∙ ap (λ r. if bytes_eq c channel then none else r) (find-after cs channel) in
      if-intro
        (λ (s : SqlSession H).
          find channel s.notify_handlers
          ≡ (if bytes_eq c channel then none else registered cs channel))
        (is_empty (erase c m)) (λ e. sym (find_empty channel (erase c m) e) ∙ found) (λ _. found)
  find-after (unlistens_all ∷ cs) channel = refl
