-- ===== src/HttpServer/Answers.antt =====
-- What the loop of a connection answers, in which order, and when it warns.
use libasyik.Common.{
  ℕ, suc, ◌≡◌, refl, ap, ◌∙◌, Option, none, some, List, [], ◌∷◌, ◌++◌, append_assoc, Bool, true,
  false, if◌then◌else◌, if-intro, take, Bytes,
}
use libasyik.RouteTable.{Route}
use libasyik.HttpServer.{HttpServer}
use libasyik.HttpServer.Connection.{
  Error, Request, Response, Handled, threw_not_found, threw, Incoming, received, read_failed,
  unreadable_target, Left, finished, wrote, shut_down, default_response, prepared, refused, settle,
  find_http_route, respond, serve_requests, outputs, leave, start,
}

-- All responses but the last leave the connection open.
pub KeptOpen : (need_eof : Response → Bool) → List Response → Type 0
KeptOpen need_eof [] = Unit
KeptOpen need_eof (r ∷ []) = Unit
KeptOpen need_eof (r ∷ s ∷ rs) = (need_eof r ≡ false) × KeptOpen need_eof (s ∷ rs)

keep_open :
    (need_eof : Response → Bool) (r : Response) (rs : List Response)
    → need_eof r ≡ false
    → KeptOpen need_eof rs
    → KeptOpen need_eof (r ∷ rs)
unfolding KeptOpen
keep_open need_eof r [] h k = tt
keep_open need_eof r (s ∷ rs) h k = (h, k)

outputs-append : (rs ss : List Response) → outputs (rs ++ ss) ≡ outputs rs ++ outputs ss
unfolding outputs
outputs-append [] ss = refl
outputs-append (r ∷ rs) ss = ap (λ os. wrote r ∷ os) (outputs-append rs ss)

module _ {R H W : Type 0} (iequals : Bytes → Bytes → Bool)
    (regex_search : R → Bytes → Option (List Bytes)) (version : Bytes)
    (call : H → Request → List Bytes → Response → Handled) (need_eof : Response → Bool) where
  -- What the requests of a connection are answered by, one each.
  unfoldable pub answers : List (Incoming (HttpServer R H W)) → List Response
  answers [] = []
  answers (read_failed e ∷ more) = []
  answers (unreadable_target ∷ more) = []
  answers (received req leftover sent server ∷ more) =
      (respond iequals regex_search version call req server).0 ∷ answers more

  abbrev pub written : Bool → List (Incoming (HttpServer R H W)) → List Response
  written safe incoming =
      (serve_requests iequals regex_search version call need_eof safe incoming).0

  -- A first part of the answers.
  pub IsPart : List Response → List (Incoming (HttpServer R H W)) → Type 0
  IsPart rs incoming = KeptOpen need_eof rs × ((n : ℕ) × (rs ≡ take n (answers incoming)))

  written-IsPart :
      (safe : Bool) (incoming : List (Incoming (HttpServer R H W)))
      → IsPart (written safe incoming) incoming
  unfolding IsPart serve_requests KeptOpen answers
  written-IsPart safe [] = (tt, (0, refl))
  written-IsPart safe (read_failed e ∷ more) = (tt, (0, refl))
  written-IsPart safe (unreadable_target ∷ more) = (tt, (0, refl))
  written-IsPart safe (received req leftover (some e) server ∷ more) =
      let P =
        λ (x : List Response × Left W). IsPart x.0 (received req leftover (some e) server ∷ more) in
      let nothing : IsPart [] (received req leftover (some e) server ∷ more) = (tt, (0, refl)) in
      if-intro P req.is_upgrade (λ _. nothing)
        (λ _.
          if-intro P (respond iequals regex_search version call req server).1 (λ _. nothing)
            (λ _. nothing))
  written-IsPart safe (received req leftover none server ∷ more) =
      let P =
        λ (x : List Response × Left W). IsPart x.0 (received req leftover none server ∷ more) in
      let nothing : IsPart [] (received req leftover none server ∷ more) = (tt, (0, refl)) in
      let res = (respond iequals regex_search version call req server).0 in
      let (kept, (n, e)) = written-IsPart true more in
      if-intro P req.is_upgrade (λ _. nothing)
        (λ _.
          if-intro P (respond iequals regex_search version call req server).1 (λ _. nothing)
            (λ _.
              if-intro P (need_eof res) (λ _. (tt, (1, refl)))
                (λ h.
                  (keep_open need_eof res (written true more) h kept, (suc n, ap (◌∷◌ res) e)))))

  -- Whatever is read and whichever writes fail, the responses that a connection writes are the
  -- answers to the first of its requests, one each and in their order, and all but the last leave
  -- the connection open.
  pub serve_requests-answers :
      (safe : Bool) (incoming : List (Incoming (HttpServer R H W)))
      → KeptOpen need_eof (written safe incoming)
        × ((n : ℕ) × (written safe incoming ≡ take n (answers incoming)))
  unfolding IsPart
  serve_requests-answers = written-IsPart

  -- Requests that are answered and leave the connection open.
  unfoldable pub AreKept : List (Incoming (HttpServer R H W)) → Type 0
  AreKept [] = Unit
  AreKept (read_failed e ∷ more) = ⊥
  AreKept (unreadable_target ∷ more) = ⊥
  AreKept (received req leftover (some e) server ∷ more) = ⊥
  AreKept (received req leftover none server ∷ more) =
      (req.is_upgrade ≡ false)
      × ((respond iequals regex_search version call req server).1 ≡ false)
      × (need_eof (respond iequals regex_search version call req server).0 ≡ false)
      × AreKept more

  unfoldable pub some_are : List (Incoming (HttpServer R H W)) → (before : Bool) → Bool
  some_are [] before = before
  some_are (_ ∷ _) before = true

  answered_stays : (before : List (Incoming (HttpServer R H W))) → some_are before true ≡ true
  unfolding some_are
  answered_stays [] = refl
  answered_stays (_ ∷ _) = refl

  -- After such requests the loop goes on where they end.
  pub serve_requests-AreKept :
      (safe : Bool) (before more : List (Incoming (HttpServer R H W)))
      → AreKept before
      → serve_requests iequals regex_search version call need_eof safe (before ++ more) ≡ (
        answers before ++ written (some_are before safe) more,
        (serve_requests iequals regex_search version call need_eof (some_are before safe) more).1,
      )
  unfolding serve_requests AreKept some_are answers
  serve_requests-AreKept safe [] more k = refl
  serve_requests-AreKept safe (read_failed x ∷ before) more k = absurd k
  serve_requests-AreKept safe (unreadable_target ∷ before) more k = absurd k
  serve_requests-AreKept safe (received req leftover (some x) server ∷ before) more k = absurd k
  serve_requests-AreKept safe (received req leftover none server ∷ before) more
        (plain, own, kept, k) =
      rw
        (
          serve_requests,
          serve_requests-AreKept true before more k,
          own,
          kept,
          plain,
          answered_stays before,
        )
        refl

  -- The ways in which a request comes to an error, with its status and what was prepared so far.
  pub data Failing (req : Request) : Option (HttpServer R H W) → ℕ → Response → Type 0 where
    no_server : Failing req none 500 (prepared version req default_response)
    no_route :
        (s : HttpServer R H W)
        → find_http_route iequals regex_search req s ≡ none
        → Failing req (some s) 404 (prepared version req default_response)
    handler_failed :
        (s : HttpServer R H W) (route : Route R H) (args : List Bytes) (res : Response)
        (missing : Bool)
        → find_http_route iequals regex_search req s ≡ some (route, args)
        → call route.handler req args (prepared version req default_response) ≡ record {
          response = res;
          manual_response = false;
          ending = if missing then threw_not_found else threw;
        }
        → Failing req (some s) (if missing then 404 else 500) res

  respond-Failing :
      (req : Request) (server : Option (HttpServer R H W)) (status : ℕ) (res : Response)
      → Failing req server status res
      → respond iequals regex_search version call req server ≡ (refused status res, false)
  unfolding respond settle
  respond-Failing req server status res (no_server) = refl
  respond-Failing req server status res (no_route s e) = rw (respond, e) refl
  respond-Failing req server status res (handler_failed s route args res' missing e h) =
      by_missing missing h
    where
      by_missing :
          (missing : Bool)
          → call route.handler req args (prepared version req default_response) ≡ record {
            response = res';
            manual_response = false;
            ending = if missing then threw_not_found else threw;
          }
          → respond iequals regex_search version call req (some s)
            ≡ (refused (if missing then 404 else 500) res', false)
      by_missing true h = rw (respond, e) (ap settle h)
      by_missing false h = rw (respond, e) (ap settle h)

  -- Where a response that does not keep the connection alive needs its end, and the handshake and
  -- the writes of responses succeed: after any requests that were answered and left the
  -- connection open, a request without upgrade for which there is no server, no route or a
  -- handler that throws without having taken over the response is answered, after the answers to
  -- those, by 500, 404, or 404 or 500 by what was thrown, with an empty body, the server and the
  -- content type that were prepared and a connection that is not kept alive, and the connection
  -- is shut down whatever follows.
  pub start-Failing :
      (before more : List (Incoming (HttpServer R H W))) (req : Request) (leftover : Bool)
      (server : Option (HttpServer R H W)) (status : ℕ) (res : Response)
      (refused_sent : Option Error)
      → ((r : Response) → r.keep_alive ≡ false → need_eof r ≡ true)
      → AreKept before
      → req.is_upgrade ≡ false
      → Failing req server status res
      → start iequals regex_search version call need_eof none refused_sent
          (before ++ (received req leftover none server ∷ more))
        ≡ outputs (answers before)
          ++ (wrote (record {
            result = status;
            body = [];
            server = res.server;
            content_type = res.content_type;
            keep_alive = false;
          })
              ∷ shut_down
              ∷ [])
  unfolding start serve_requests outputs leave
  start-Failing before more req leftover server status res refused_sent closes kept plain f =
      let failing = received req leftover none server ∷ more in
      let safe = some_are before false in
      let ends : serve_requests iequals regex_search version call need_eof safe failing
          ≡ (refused status res ∷ [], finished) =
        rw
          (
            serve_requests,
            respond-Failing req server status res f,
            plain,
            closes (refused status res) refl,
          )
          refl in
      let serves = serve_requests-AreKept false before failing kept in
      ap
        (λ (x : List Response × Left W).
          outputs x.0 ++ leave iequals regex_search version call need_eof refused_sent x.1)
        (serves ∙ ap (λ (x : List Response × Left W). (answers before ++ x.0, x.1)) ends)
      ∙ ap (λ os. os ++ (shut_down ∷ []))
          (outputs-append (answers before) (refused status res ∷ []))
      ∙ append_assoc (outputs (answers before)) (wrote (refused status res) ∷ []) (shut_down ∷ [])
