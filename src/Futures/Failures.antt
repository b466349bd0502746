-- ===== src/Futures/Failures.antt =====
-- How the errors of the network end a connection of the server: `http_connection::start` of
-- include/libasyik/http.hpp, with the exceptions that its futures throw.
use libasyik.Common.{
  ◌≡◌, refl, Option, none, some, List, [], ◌∷◌, ◌++◌, Bool, true, false, append-nil, if◌then◌else◌,
  Bytes,
}
use libasyik.HttpServer.{HttpServer}
use libasyik.HttpServer.Connection.{
  Error, overflow_error, already_closed_error, other_error, Request, Response, Handled, Ending,
  threw_not_found, threw, Incoming, read_failed, thrown, Output, wrote, shut_down, warned,
  serve_requests, outputs, too_large, leave, start,
}
use libasyik.HttpServer.Answers.{answers, AreKept, some_are, serve_requests-AreKept}
use libasyik.Futures.{
  ErrorClass, not_found_error, is_a, derives, parent, place, ErrorCode, CodeName, Codes, Exception,
  asyik_set_error,
}
use libasyik.Futures
use libasyik.Futures.Classes.{
  Group, too_slow, header_too_large, body_too_large, gone, group, group_class, group_text,
  group_exception, AreDistinct, asyik_set_error_named,
}

-- The `catch` clauses after the loop, in their order; `what` is the text of an exception.
unfoldable pub caught : (what : Exception → Bytes) → Exception → Error
caught what e =
    if is_a e.error_class Futures.overflow_error
    then overflow_error (what e)
    else if is_a e.error_class Futures.already_closed_error
    then already_closed_error
    else other_error

-- The `catch` clauses around a handler.
unfoldable pub handler_ending : Exception → Ending
handler_ending e = if is_a e.error_class not_found_error then threw_not_found else threw

-- The response 413, after which the connection is shut down.
refusal : (what : Exception → Bytes) → Exception → List Output
refusal what e =
    wrote
      (record { result = 413; body = what e; server = []; content_type = []; keep_alive = false })
    ∷ shut_down
    ∷ []

-- What is written and logged, by the error, by whether a request was answered before, and by how
-- the write of the response 413 fails.
pub group_outputs :
    (what : Exception → Bytes)
    → Exception
    → Group
    → (refused_sent : Option Error) (answered : Bool) → List Output
group_outputs what e too_slow sent answered = warned other_error ∷ []
group_outputs what e header_too_large none answered = refusal what e
group_outputs what e header_too_large (some x) answered = []
group_outputs what e body_too_large none answered = refusal what e
group_outputs what e body_too_large (some x) answered = []
group_outputs what e gone sent true = []
group_outputs what e gone sent false = warned already_closed_error ∷ []

module _ {R H W : Type 0} (iequals : Bytes → Bytes → Bool)
    (regex_search : R → Bytes → Option (List Bytes)) (version : Bytes)
    (call : H → Request → List Bytes → Response → Handled) (need_eof : Response → Bool) where
  -- For codes that are told apart, a connection whose handshake succeeds, whose requests were
  -- answered and left it open, and whose next read then fails with a named code, writes the
  -- answers to these requests, and then: for a header or a body that is too large the response
  -- 413 with the text of the exception, and is shut down, or does nothing more if this write
  -- fails; for a peer that is gone nothing if a request was answered, else a warning; for a time
  -- that ran out a warning.
  pub start_named :
      (cs : Codes) (what : Exception → Bytes) (n : CodeName)
      (before more : List (Incoming (HttpServer R H W))) (refused_sent : Option Error)
      → AreDistinct cs
      → AreKept iequals regex_search version call need_eof before
      → start iequals regex_search version call need_eof none refused_sent
          (before ++ (read_failed (caught what (asyik_set_error cs (cs.named n))) ∷ more))
        ≡ outputs (answers iequals regex_search version call need_eof before)
          ++ group_outputs what
              (group_exception (cs.named n) (group n))
              (group n)
              refused_sent
              (some_are iequals regex_search version call need_eof before false)
  unfolding start leave caught is_a derives parent place group_exception group_class group_text
      group_outputs refusal serve_requests too_large
  start_named cs what n before more refused_sent d k =
      let e = group_exception (cs.named n) (group n) in
      let served =
        serve_requests-AreKept iequals regex_search version call need_eof false before
          (read_failed (caught what e) ∷ more) k in
      rw
        (
          asyik_set_error_named cs d n,
          served,
          append-nil (answers iequals regex_search version call need_eof before),
          by_group what (cs.named n) (group n) refused_sent
              (some_are iequals regex_search version call need_eof before false),
        )
        refl
    where
      by_group :
          (what : Exception → Bytes) (ec : ErrorCode) (g : Group) (sent : Option Error)
          (answered : Bool)
          → leave {W = W} iequals regex_search version call need_eof sent
              (thrown (caught what (group_exception ec g)) answered)
            ≡ group_outputs what (group_exception ec g) g sent answered
      by_group what ec too_slow sent answered = refl
      by_group what ec header_too_large none answered = refl
      by_group what ec header_too_large (some x) answered = refl
      by_group what ec body_too_large none answered = refl
      by_group what ec body_too_large (some x) answered = refl
      by_group what ec gone sent true = refl
      by_group what ec gone sent false = refl
