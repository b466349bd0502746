-- ===== src/Futures/Classes.antt =====
-- Which exception each named error of the network becomes.
use libasyik.Common.{ℕ, suc, some, ◌≡◌, refl, ap, ◌∙◌, true, ◌==◌, Bytes, codes}
use libasyik.Futures.{
  ErrorClass, system_error, io_error, network_error, network_timeout_error,
  network_unreachable_error, network_expired_error, tls_error, tls_handshake_error,
  tls_verify_error, file_error, resource_error, input_error, invalid_input_error,
  out_of_range_error, not_found_error, unexpected_input_error, overflow_error, unexpected_error,
  already_expired_error, already_closed_error, already_exists_error, timeout_error,
  service_terminated_error, derives, parent, place, ErrorCode, same_code, CodeName, timed_out,
  operation_aborted, beast_timeout, header_limit, body_limit, buffer_overflow, message_too_big,
  end_of_stream, stream_truncated, connection_reset, closed, eof, Exception, Codes, is_code, raise,
  asyik_set_error, is_a,
}

-- What a named code says of a connection.
pub data Group : Type 0 where
  too_slow header_too_large body_too_large gone : Group

pub group : CodeName → Group
group timed_out = too_slow
group operation_aborted = too_slow
group beast_timeout = too_slow
group header_limit = header_too_large
group body_limit = body_too_large
group buffer_overflow = body_too_large
group message_too_big = body_too_large
group end_of_stream = gone
group stream_truncated = gone
group connection_reset = gone
group closed = gone
group eof = gone

unfoldable pub name_place : CodeName → ℕ
name_place timed_out = 0
name_place operation_aborted = 1
name_place beast_timeout = 2
name_place header_limit = 3
name_place body_limit = 4
name_place buffer_overflow = 5
name_place message_too_big = 6
name_place end_of_stream = 7
name_place stream_truncated = 8
name_place connection_reset = 9
name_place closed = 10
name_place eof = 11

-- No two names stand for the same code.
unfoldable pub AreDistinct : Codes → Type 0
AreDistinct cs =
    (a b : CodeName) → same_code (cs.named a) (cs.named b) ≡ (name_place a == name_place b)

unfoldable pub group_class : Group → ErrorClass
group_class too_slow = network_timeout_error
group_class header_too_large = overflow_error
group_class body_too_large = overflow_error
group_class gone = already_closed_error

unfoldable pub group_text : Group → Bytes
group_text too_slow = codes "[asyik::network_timeout_error]timeout error during http::async_read"
group_text header_too_large =
    codes "[asyik::overflow_error]incoming request header size is too large"
group_text body_too_large = codes "[asyik::overflow_error]incoming request body size is too large"
group_text gone = codes "[asyik::already_closed_error]end of stream or network connection closed"

unfoldable pub group_exception : ErrorCode → Group → Exception
group_exception ec g = record { error_class = group_class g; code = ec; text = group_text g }

raise_named :
    (cs : Codes) (n : CodeName) (ec : ErrorCode)
    → raise cs (λ m. name_place n == name_place m) ec ≡ group_exception ec (group n)
unfolding raise group group_class group_text group_exception name_place
raise_named cs timed_out ec = refl
raise_named cs operation_aborted ec = refl
raise_named cs beast_timeout ec = refl
raise_named cs header_limit ec = refl
raise_named cs body_limit ec = refl
raise_named cs buffer_overflow ec = refl
raise_named cs message_too_big ec = refl
raise_named cs end_of_stream ec = refl
raise_named cs stream_truncated ec = refl
raise_named cs connection_reset ec = refl
raise_named cs closed ec = refl
raise_named cs eof ec = refl

pub asyik_set_error_named :
    (cs : Codes)
    → AreDistinct cs
    → (n : CodeName) → asyik_set_error cs (cs.named n) ≡ group_exception (cs.named n) (group n)
unfolding asyik_set_error AreDistinct is_code
asyik_set_error_named cs d n =
    ap (λ is. raise cs is (cs.named n)) (λ i m. d n m i) ∙ raise_named cs n (cs.named n)

-- Six steps up are enough, and they lead every class to the one of Boost.
pub is_a_enough :
    (c d : ErrorClass) (n : ℕ)
    → (derives (some c) d (suc (suc (suc (suc (suc (suc n)))))) ≡ is_a c d)
      × (is_a c system_error ≡ true)
unfolding is_a derives parent place
is_a_enough system_error d n = (refl, refl)
is_a_enough io_error d n = (refl, refl)
is_a_enough network_error d n = (refl, refl)
is_a_enough network_timeout_error d n = (refl, refl)
is_a_enough network_unreachable_error d n = (refl, refl)
is_a_enough network_expired_error d n = (refl, refl)
is_a_enough tls_error d n = (refl, refl)
is_a_enough tls_handshake_error d n = (refl, refl)
is_a_enough tls_verify_error d n = (refl, refl)
is_a_enough file_error d n = (refl, refl)
is_a_enough resource_error d n = (refl, refl)
is_a_enough input_error d n = (refl, refl)
is_a_enough invalid_input_error d n = (refl, refl)
is_a_enough out_of_range_error d n = (refl, refl)
is_a_enough not_found_error d n = (refl, refl)
is_a_enough unexpected_input_error d n = (refl, refl)
is_a_enough overflow_error d n = (refl, refl)
is_a_enough unexpected_error d n = (refl, refl)
is_a_enough already_expired_error d n = (refl, refl)
is_a_enough already_closed_error d n = (refl, refl)
is_a_enough already_exists_error d n = (refl, refl)
is_a_enough timeout_error d n = (refl, refl)
is_a_enough service_terminated_error d n = (refl, refl)
