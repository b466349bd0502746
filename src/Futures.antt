-- ===== src/Futures.antt =====
-- include/libasyik/error.hpp, and what
-- include/libasyik/internal/detail/use_fiber_future_impl.hpp puts into the promise of a future: the
-- classes of the exceptions, the exception that an error of the network becomes, and the handlers
-- that end an operation.
pub mod Classes
pub mod Failures
mod Tests
use libasyik.Common.{
  ℕ, zero, suc, Option, none, some, Bool, true, false, ◌&&◌, ◌||◌, ◌++◌, if◌then◌else◌, ◌==◌, Bytes,
  codes,
}

-- The classes of include/libasyik/error.hpp, with the one of Boost that they derive from.
pub data ErrorClass : Type 0 where
  system_error io_error network_error network_timeout_error network_unreachable_error : ErrorClass
  network_expired_error tls_error tls_handshake_error tls_verify_error file_error : ErrorClass
  resource_error input_error invalid_input_error out_of_range_error not_found_error : ErrorClass
  unexpected_input_error overflow_error unexpected_error already_expired_error : ErrorClass
  already_closed_error already_exists_error timeout_error service_terminated_error : ErrorClass

unfoldable pub parent : ErrorClass → Option ErrorClass
parent system_error = none
parent io_error = some system_error
parent network_error = some io_error
parent network_timeout_error = some network_error
parent network_unreachable_error = some network_error
parent network_expired_error = some network_error
parent tls_error = some network_error
parent tls_handshake_error = some tls_error
parent tls_verify_error = some tls_handshake_error
parent file_error = some io_error
parent resource_error = some io_error
parent input_error = some system_error
parent invalid_input_error = some input_error
parent out_of_range_error = some input_error
parent not_found_error = some input_error
parent unexpected_input_error = some input_error
parent overflow_error = some input_error
parent unexpected_error = some system_error
parent already_expired_error = some system_error
parent already_closed_error = some system_error
parent already_exists_error = some system_error
parent timeout_error = some system_error
parent service_terminated_error = some system_error

-- Whether two classes are the same, by their place in the list.
unfoldable pub place : ErrorClass → ℕ
place system_error = 0
place io_error = 1
place network_error = 2
place network_timeout_error = 3
place network_unreachable_error = 4
place network_expired_error = 5
place tls_error = 6
place tls_handshake_error = 7
place tls_verify_error = 8
place file_error = 9
place resource_error = 10
place input_error = 11
place invalid_input_error = 12
place out_of_range_error = 13
place not_found_error = 14
place unexpected_input_error = 15
place overflow_error = 16
place unexpected_error = 17
place already_expired_error = 18
place already_closed_error = 19
place already_exists_error = 20
place timeout_error = 21
place service_terminated_error = 22

-- Whether a class is reached from one in at most so many steps up.
unfoldable pub derives : Option ErrorClass → ErrorClass → ℕ → Bool
derives none d n = false
derives (some c) d zero = false
derives (some c) d (suc n) = (place c == place d) || derives (parent c) d n

-- Whether `catch (d&)` catches an exception of the class `c`: the longest chain has six classes.
unfoldable pub is_a : (c d : ErrorClass) → Bool
is_a c d = derives (some c) d 6

-- An error_code of Boost.System, and the codes that the source names.
pub record ErrorCode : Type 0 where
  pub category : ℕ
  pub value : ℕ

unfoldable pub same_code : ErrorCode → ErrorCode → Bool
same_code a b = (a.category == b.category) && (a.value == b.value)

pub data CodeName : Type 0 where
  timed_out operation_aborted beast_timeout header_limit body_limit buffer_overflow : CodeName
  message_too_big end_of_stream stream_truncated connection_reset closed eof : CodeName

-- An exception as it is made, from its class, the code and the text of its constructor.
pub record Exception : Type 0 where
  pub error_class : ErrorClass
  pub code : ErrorCode
  pub text : Bytes

pub data Outcome {ℓ} (A : Type ℓ) : Type ℓ where
  value : A → Outcome A
  exception : Exception → Outcome A

-- The end of an operation, by its signature: with its results alone, or after an error.
pub data Completion {ℓ} (A : Type ℓ) : Type ℓ where
  ends : A → Completion A
  ends_with_code : ErrorCode → A → Completion A
  ends_with_exception : Option Exception → A → Completion A

-- The codes with their numbers, the categories of OpenSSL, and the text of a code, which are those
-- of the libraries.
pub record Codes : Type 0 where
  pub named : CodeName → ErrorCode
  pub ssl_category : ℕ
  pub stream_category : ℕ
  pub message : ErrorCode → Bytes

module _ (cs : Codes) where
  unfoldable pub is_code : ErrorCode → CodeName → Bool
  is_code ec n = same_code ec (cs.named n)

  -- The tests of `asyik_set_error`, in their order, for the codes that the error is.
  unfoldable pub raise : (is : CodeName → Bool) → ErrorCode → Exception
  raise is ec =
      if is timed_out || is operation_aborted || is beast_timeout
      then record {
        error_class = network_timeout_error;
        code = ec;
        text = codes "[asyik::network_timeout_error]timeout error during http::async_read";
      }
      else if is header_limit
      then record {
        error_class = overflow_error;
        code = ec;
        text = codes "[asyik::overflow_error]incoming request header size is too large";
      }
      else if is body_limit || is buffer_overflow || is message_too_big
      then record {
        error_class = overflow_error;
        code = ec;
        text = codes "[asyik::overflow_error]incoming request body size is too large";
      }
      else if is end_of_stream || is stream_truncated || is connection_reset || is closed || is eof
      then record {
        error_class = already_closed_error;
        code = ec;
        text = codes "[asyik::already_closed_error]end of stream or network connection closed";
      }
      else if (ec.category == cs.ssl_category) || (ec.category == cs.stream_category)
      then record {
        error_class = tls_error;
        code = ec;
        text = codes "[asyik::tls_error]" ++ cs.message ec;
      }
      else record { error_class = system_error; code = ec; text = cs.message ec }

  unfoldable pub asyik_set_error : ErrorCode → Exception
  asyik_set_error ec = raise (is_code ec) ec

  -- The handlers that end an operation, by its signature.
  module _ {ℓ} {A : Type ℓ} where
    unfoldable pub handler_1 : A → Outcome A
    handler_1 arg = value arg

    -- `failed` is the test of an error_code for an error.
    unfoldable pub handler_ec_1 : (failed : ErrorCode → Bool) → ErrorCode → A → Outcome A
    handler_ec_1 failed ec arg = if failed ec then exception (asyik_set_error ec) else value arg

    unfoldable pub handler_ex_1 : Option Exception → A → Outcome A
    handler_ex_1 (some ex) arg = exception ex
    handler_ex_1 none arg = value arg

    -- The selection of the handler by the signature of the operation.
    unfoldable pub handle : (failed : ErrorCode → Bool) → Completion A → Outcome A
    handle failed (ends arg) = handler_1 arg
    handle failed (ends_with_code ec arg) = handler_ec_1 failed ec arg
    handle failed (ends_with_exception ex arg) = handler_ex_1 ex arg
