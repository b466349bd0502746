-- ===== src/Futures/Tests.antt =====
-- Runs of include/libasyik/error.hpp and of the errors of futures, and their theorem at a concrete
-- input: codes with the numbers of their places, and a server without routes.
use libasyik.Common.{
  ◌≡◌, refl, Option, none, List, [], ◌∷◌, ◌++◌, true, false, Bytes, codes, bytes_eq,
}
use libasyik.HttpServer.{HttpServer}
use libasyik.HttpServer.Connection.{
  Request, Response, Handled, returned, Incoming, received, read_failed, respond, outputs, start,
}
use libasyik.HttpServer.Answers.{answers, AreKept, some_are}
use libasyik.Futures.{
  network_error, overflow_error, tls_verify_error, input_error, is_a, derives, parent, place,
  same_code, header_limit, Codes, asyik_set_error, is_code, raise,
}
use libasyik.Futures.Classes.{AreDistinct, name_place, group, group_exception}
use libasyik.Futures.Failures.{caught, group_outputs, start_named}

program : Unit {0}
unfolding is_a derives parent place same_code is_code raise asyik_set_error caught respond
program = tt

verify_run : is_a tls_verify_error network_error ≡ true
unfolding program
verify_run = refl

overflow_run :
    (is_a overflow_error network_error ≡ false) × (is_a overflow_error input_error ≡ true)
unfolding program
overflow_run = (refl, refl)

numbered : Codes
numbered = record {
  named = λ n. record { category = 1; value = name_place n };
  ssl_category = 2;
  stream_category = 3;
  message = λ ec. [];
}

numbered-AreDistinct : AreDistinct numbered
unfolding program AreDistinct numbered
numbered-AreDistinct a b = refl

call : Unit {0} → Request → List Bytes → Response → Handled
call h req args res = record { response = res; manual_response = false; ending = returned }

search : Unit {0} → Bytes → Option (List Bytes)
search re target = none

kept : Incoming (HttpServer (Unit {0}) (Unit {0}) (Unit {0}))
kept =
    received
      (record { method = codes "GET"; target = codes "/"; keep_alive = true; is_upgrade = false })
      false none none

kept-AreKept : AreKept bytes_eq search (codes "v") call (λ r. false) (kept ∷ [])
unfolding program AreKept kept
kept-AreKept = (refl, refl, refl, tt)

start_named_example :
    start bytes_eq search
      (codes "v")
      call
      (λ r. false)
      none
      none
      ((kept ∷ [])
        ++ (read_failed
              (caught (λ e. e.text) (asyik_set_error numbered (numbered.named header_limit)))
            ∷ []))
    ≡ outputs (answers bytes_eq search (codes "v") call (λ r. false) (kept ∷ []))
      ++ group_outputs
          (λ e. e.text)
          (group_exception (numbered.named header_limit) (group header_limit))
          (group header_limit)
          none
          (some_are bytes_eq search (codes "v") call (λ r. false) (kept ∷ []) false)
start_named_example =
    start_named bytes_eq search (codes "v") call (λ r. false) numbered (λ e. e.text) header_limit
      (kept ∷ []) [] none numbered-AreDistinct kept-AreKept
