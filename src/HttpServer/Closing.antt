-- ===== src/HttpServer/Closing.antt =====
-- What a server knows of its connections over its life, and what `close` reaches.
use libasyik.Common.{
  ℕ, ◌≡◌, refl, sym, ap, subst, ◌∙◌, inl, inr, none, some, List, [], ◌∷◌, ◌++◌, Bool, true, false,
  not, ◌&&◌, ◌||◌, if◌then◌else◌, ◌==◌, arith, Bool-cases, map, ==_iff, if-intro,
}
use libasyik.HttpServer.{
  HttpServer, unexpired, Closed, closed_socket, closed_websocket, close_all, register_connection,
  start_accept, close,
}

unfoldable pub is_in : ℕ → List ℕ → Bool
is_in c [] = false
is_in c (x ∷ xs) = x == c || is_in c xs

is_in-append : (c : ℕ) (xs ys : List ℕ) → is_in c (xs ++ ys) ≡ (is_in c xs || is_in c ys)
unfolding is_in
is_in-append c [] ys = refl
is_in-append c (x ∷ xs) ys = ground (arith, is_in-append c xs ys)

same :
    (live : ℕ → Bool) (x : ℕ) (xs : List ℕ)
    → is_in x (unexpired live xs) ≡ (live x && is_in x xs)
    → is_in x (unexpired live (x ∷ xs)) ≡ (live x && is_in x (x ∷ xs))
unfolding is_in unexpired
same live x xs h = elim (Bool-cases (live x)) [
  | inl l ↦ rw l (ground arith)
  | inr l ↦ rw l (h ∙ rw l refl)
]

is_in-unexpired :
    (live : ℕ → Bool) (c : ℕ) (xs : List ℕ) → is_in c (unexpired live xs) ≡ (live c && is_in c xs)
unfolding is_in unexpired
is_in-unexpired live c [] = ground arith
is_in-unexpired live c (x ∷ xs) = elim (Bool-cases (x == c)) [
  | inl e ↦
      subst (λ y. is_in y (unexpired live (x ∷ xs)) ≡ (live y && is_in y (x ∷ xs)))
        ((==_iff x c).0 e) (same live x xs (is_in-unexpired live x xs))
  | inr e ↦ ground (arith, e, is_in-unexpired live c xs)
]

-- What happens to a server: a connection that arrives, one that ends, an error of the acceptor,
-- a call of close().
pub data Event : Type 0 where
  arrives ends : ℕ → Event
  acceptor_fails closes : Event

abbrev pub id_of : Closed → ℕ
id_of (closed_socket c) = c
id_of (closed_websocket c) = c

unfoldable pub ids : List Closed → List ℕ
ids [] = []
ids (c ∷ cs) = id_of c ∷ ids cs

is_in-ids :
    (is_websocket : ℕ → Bool) (c : ℕ) (xs : List ℕ)
    → is_in c (ids (close_all is_websocket xs)) ≡ is_in c xs
unfolding ids close_all is_in
is_in-ids is_websocket c [] = refl
is_in-ids is_websocket c (x ∷ xs) = elim (Bool-cases (is_websocket x)) [
  | inl e ↦ rw e (ground (arith, is_in-ids is_websocket c xs))
  | inr e ↦ rw e (ground (arith, is_in-ids is_websocket c xs))
]

arrived :
    (c d : ℕ) (l a t : Bool)
    → (d == c || l) ≡ true
    → (l ≡ true → (a || t) ≡ true)
    → (((d == c || l) && a || is_in d (c ∷ [])) || t) ≡ true
unfolding is_in
arrived c d true a t h k = ground (arith, k refl)
arrived c d false a t h k = ground arith

-- A server, the connections that there are, and those that close() has closed.
pub record World (R H W : Type 0) : Type 0 where
  pub server : HttpServer R H W
  pub live : ℕ → Bool
  pub told : List ℕ

module _ {R H W : Type 0} (is_websocket : ℕ → Bool) where
  -- A connection that arrives at a server that does not accept is none.
  unfoldable pub happen : World R H W → Event → World R H W
  happen w (arrives c) =
      if w.server.accepting
      then record {
        server = start_accept (λ x. x == c || w.live x) true (some c) w.server;
        live = λ x. x == c || w.live x;
        told = w.told;
      }
      else w
  happen w (ends c) = record {
    server = w.server;
    live = λ x. not (x == c) && w.live x;
    told = w.told;
  }
  happen w acceptor_fails = record {
    server = start_accept w.live true none w.server;
    live = w.live;
    told = w.told;
  }
  happen w closes =
      let (done, s) = close w.live is_websocket w.server in
      record { server = s; live = w.live; told = ids done ++ w.told }

  unfoldable pub run : World R H W → List Event → World R H W
  run w [] = w
  run w (e ∷ es) = run (happen w e) es

  -- Every connection is known to the server, or was closed.
  unfoldable pub Known : World R H W → Type 0
  Known w =
      (c : ℕ) → w.live c ≡ true → (is_in c w.server.active_connections || is_in c w.told) ≡ true

  happen-Known : (w : World R H W) (e : Event) → Known w → Known (happen w e)
  unfolding Known happen start_accept register_connection close
  happen-Known w (arrives c) k =
      if-intro
        (λ (v : World R H W).
          (d : ℕ)
          → v.live d ≡ true
          → (is_in d v.server.active_connections || is_in d v.told) ≡ true)
        w.server.accepting
        (λ _ d h.
          rw
            (
              is_in-append d (unexpired (λ x. x == c || w.live x) w.server.active_connections)
                  (c ∷ []),
              is_in-unexpired (λ x. x == c || w.live x) d w.server.active_connections,
            )
            (arrived c d (w.live d) (is_in d w.server.active_connections) (is_in d w.told) h (k d)))
        (λ _. k)
  happen-Known w (ends c) k = λ d h. k d (ground arith)
  happen-Known w acceptor_fails k = k
  happen-Known w closes k = λ d h.
      rw
        (
          is_in-append d
              (ids (close_all is_websocket (unexpired w.live w.server.active_connections))) w.told,
          is_in-ids is_websocket d (unexpired w.live w.server.active_connections),
          is_in-unexpired w.live d w.server.active_connections,
        )
        (ground (arith, h, k d h))

  run-Known : (w : World R H W) (es : List Event) → Known w → Known (run w es)
  unfolding run
  run-Known w [] k = k
  run-Known w (e ∷ es) k = run-Known (happen w e) es (happen-Known w e k)

  -- For a server that knows all its connections, after any sequence of arrivals, ends, errors and
  -- calls of close, and then a call of close, every connection that is live has been closed.
  pub run-closes :
      (w : World R H W) (es : List Event) (c : ℕ)
      → Known w
      → (run w (es ++ (closes ∷ []))).live c ≡ true
      → is_in c (run w (es ++ (closes ∷ []))).told ≡ true
  unfolding run Known happen close is_in
  run-closes w [] c k h = happen-Known w closes k c h
  run-closes w (e ∷ es) c k h = run-closes (happen w e) es c (happen-Known w e k) h

  deaf : (w : World R H W) (c : ℕ) → w.server.accepting ≡ false → happen w (arrives c) ≡ w
  unfolding happen
  deaf w c h = if-intro (λ v. v ≡ w) w.server.accepting (λ e. absurd (cc (sym e ∙ h))) (λ _. refl)

  run_deaf :
      (w : World R H W) (cs : List ℕ) → w.server.accepting ≡ false → run w (map arrives cs) ≡ w
  unfolding run
  run_deaf w [] h = refl
  run_deaf w (c ∷ cs) h = ap (λ v. run v (map arrives cs)) (deaf w c h) ∙ run_deaf w cs h

  -- After one error of the acceptor no later arrival changes the server.
  run-acceptor_fails :
      (w : World R H W) (cs : List ℕ)
      → run w (acceptor_fails ∷ map arrives cs)
        ≡ record { server = record w.server { accepting = false }; live = w.live; told = w.told }
  unfolding run happen start_accept
  run-acceptor_fails w cs = run_deaf (happen w acceptor_fails) cs refl

  arrives_live :
      (w : World R H W) (c x : ℕ)
      → w.server.accepting ≡ true
      → ((happen w (arrives x)).server.accepting ≡ true)
        × ((happen w (arrives x)).live c ≡ (c == x || w.live c))
  unfolding happen start_accept register_connection
  arrives_live w c x h =
      if-intro
        (λ (v : World R H W). (v.server.accepting ≡ true) × (v.live c ≡ (c == x || w.live c)))
        w.server.accepting (λ _. (h, refl)) (λ e. absurd (cc (sym h ∙ e)))

  run_live :
      (w : World R H W) (cs : List ℕ) (c : ℕ)
      → w.server.accepting ≡ true
      → (w.live c || is_in c cs) ≡ true
      → (run w (map arrives cs)).live c ≡ true
  unfolding run is_in
  run_live w [] c a m = ground arith
  run_live w (x ∷ cs) c a m =
      let (a', l) = arrives_live w c x a in
      run_live (happen w (arrives x)) cs c a' (rw l (ground (arith, m)))

  -- For a server that accepts and knows all its connections, every connection of a sequence that
  -- arrives without an error is live at its end, and the server knows it or has closed it.
  run-arrives :
      (w : World R H W) (cs : List ℕ) (c : ℕ)
      → Known w
      → w.server.accepting ≡ true
      → is_in c cs ≡ true
      → let w' = run w (map arrives cs) in
        (w'.live c ≡ true) × ((is_in c w'.server.active_connections || is_in c w'.told) ≡ true)
  run-arrives w cs c k a m =
      let l = run_live w cs c a (ground (arith, m)) in
      (l, unfold Known in run-Known w (map arrives cs) k c l)
