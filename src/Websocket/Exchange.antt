-- ===== src/Websocket/Exchange.antt =====
-- What one side of a websocket sends, and what the other reads of it.
use libasyik.Common.{
  ℕ, ◌≡◌, refl, ap, sym, ◌∙◌, Option, List, [], ◌∷◌, ◌++◌, Bool, true, false, ◌≤◌, map, append-nil,
  append_assoc, length, drop, Bytes, codes,
}
use libasyik.Futures.{unexpected_error, ErrorCode, Exception, Outcome, value, exception}
use libasyik.Websocket.Stream.{Stream, IsReadable, Reads, deliver, deliver_write, deliver_option}
use libasyik.Websocket.{
  Timeout, StreamCall, Message, Websocket, send_string, write_basic_buffer, set_timeout,
  set_keepalive_pings, set_idle_timeout, get_string, read_basic_buffer,
}

-- The calls of a program on an open websocket.
pub data Sending : Type 0 where
  sends_string sends_buffer : Bytes → Sending
  sets_keepalive_pings : Bool → Sending
  sets_idle_timeout : ℕ → Sending

unfoldable pub send : Sending → Websocket → Websocket
send (sends_string s) ws = send_string s ws
send (sends_buffer b) ws = write_basic_buffer b ws
send (sets_keepalive_pings b) ws = set_keepalive_pings b ws
send (sets_idle_timeout t) ws = set_idle_timeout t ws

unfoldable pub send_all : List Sending → Websocket → Websocket
send_all [] ws = ws
send_all (s ∷ ss) ws = send_all ss (send s ws)

-- The messages that are sent, by their kind.
unfoldable pub messages : List Sending → List Message
messages [] = []
messages (sends_string s ∷ ss) = record { is_binary = false; payload = s } ∷ messages ss
messages (sends_buffer b ∷ ss) = record { is_binary = true; payload = b } ∷ messages ss
messages (sets_keepalive_pings b ∷ ss) = messages ss
messages (sets_idle_timeout t ∷ ss) = messages ss

module _ {ℓ} {S : Type ℓ} (apply : StreamCall → S → List Message × S) {kind : S → Bool}
    (laws : Stream S kind apply) where
  delivered :
      (ss : List Sending) (ws : Websocket) (s : S)
      → deliver apply (send_all ss ws).calls s ≡ deliver apply ws.calls s ++ messages ss
  unfolding send_all send send_string write_basic_buffer set_keepalive_pings set_idle_timeout
      set_timeout messages
  delivered [] ws s = sym (append-nil (deliver apply ws.calls s))
  delivered (sends_string t ∷ ss) ws s =
      delivered ss (send (sends_string t) ws) s
      ∙ ap (λ d. d ++ messages ss) (deliver_write apply laws ws.calls false t s)
      ∙ append_assoc (deliver apply ws.calls s) (record { is_binary = false; payload = t } ∷ [])
          (messages ss)
  delivered (sends_buffer b ∷ ss) ws s =
      delivered ss (send (sends_buffer b) ws) s
      ∙ ap (λ d. d ++ messages ss) (deliver_write apply laws ws.calls true b s)
      ∙ append_assoc (deliver apply ws.calls s) (record { is_binary = true; payload = b } ∷ [])
          (messages ss)
  delivered (sets_keepalive_pings b ∷ ss) ws s =
      delivered ss (send (sets_keepalive_pings b) ws) s
      ∙ ap (λ d. d ++ messages ss)
          (deliver_option apply laws ws.calls
            (record { keep_alive_pings = b; idle_timeout = ws.timeout.idle_timeout }) s)
  delivered (sets_idle_timeout t ∷ ss) ws s =
      delivered ss (send (sets_idle_timeout t) ws) s
      ∙ ap (λ d. d ++ messages ss)
          (deliver_option apply laws ws.calls
            (record { keep_alive_pings = ws.timeout.keep_alive_pings; idle_timeout = t }) s)

-- The exception for a binary message that is read as a string.
unfoldable pub unexpected_binary : (shut_down : ErrorCode) → Exception
unexpected_binary shut_down = record {
  error_class = unexpected_error;
  code = shut_down;
  text = codes "unexpected binary message when get_string()";
}

-- What comes back as strings, and in a buffer, of what was sent.
pub strings : (shut_down : ErrorCode) → List Sending → List (Outcome Bytes)
strings shut_down [] = []
strings shut_down (sends_string s ∷ ss) = value s ∷ strings shut_down ss
strings shut_down (sends_buffer b ∷ ss) =
    exception (unexpected_binary shut_down) ∷ strings shut_down ss
strings shut_down (sets_keepalive_pings b ∷ ss) = strings shut_down ss
strings shut_down (sets_idle_timeout t ∷ ss) = strings shut_down ss

pub buffers : Bytes → List Sending → List (Outcome (ℕ × Bytes))
buffers b [] = []
buffers b (sends_string s ∷ ss) = value (length s, s ++ drop (length s) b) ∷ buffers b ss
buffers b (sends_buffer s ∷ ss) = value (length s, s ++ drop (length s) b) ∷ buffers b ss
buffers b (sets_keepalive_pings p ∷ ss) = buffers b ss
buffers b (sets_idle_timeout t ∷ ss) = buffers b ss

unfoldable pub AllFit : (size : ℕ) → List Sending → Type 0
AllFit size [] = Unit
AllFit size (sends_string s ∷ ss) = (length s ≤ size) × AllFit size ss
AllFit size (sends_buffer s ∷ ss) = (length s ≤ size) × AllFit size ss
AllFit size (sets_keepalive_pings b ∷ ss) = AllFit size ss
AllFit size (sets_idle_timeout t ∷ ss) = AllFit size ss

-- All messages can be read.
unfoldable pub AllReadable : (is_utf8 : Bytes → Bool) → List Message → Type 0
AllReadable is_utf8 [] = Unit
AllReadable is_utf8 (m ∷ ms) = IsReadable is_utf8 m × AllReadable is_utf8 ms

module _ (is_utf8 : Bytes → Bool) (async_read : Option ℕ → Message → Outcome Bytes)
    (reads : Reads is_utf8 async_read) (shut_down : ErrorCode) where
  strings_read :
      (ss : List Sending)
      → AllReadable is_utf8 (messages ss)
      → map (get_string async_read shut_down) (messages ss) ≡ strings shut_down ss
  unfolding get_string messages strings unexpected_binary AllReadable
  strings_read [] r = refl
  strings_read (sends_string s ∷ ss) (r, rs) =
      rw (get_string, reads.unlimited (record { is_binary = false; payload = s }) r)
        (ap (◌∷◌ (value s)) (strings_read ss rs))
  strings_read (sends_buffer b ∷ ss) (r, rs) =
      rw (get_string, reads.unlimited (record { is_binary = true; payload = b }) r)
        (ap (◌∷◌ (exception (unexpected_binary shut_down))) (strings_read ss rs))
  strings_read (sets_keepalive_pings b ∷ ss) r = strings_read ss r
  strings_read (sets_idle_timeout t ∷ ss) r = strings_read ss r

  read_basic_buffer-fitting :
      (b : Bytes) (m : Message)
      → IsReadable is_utf8 m
      → length m.payload ≤ length b
      → read_basic_buffer async_read b m
        ≡ value (length m.payload, m.payload ++ drop (length m.payload) b)
  unfolding read_basic_buffer
  read_basic_buffer-fitting b m r fit =
      rw (read_basic_buffer, reads.fitting (length b) m r fit) refl

  buffers_read :
      (b : Bytes) (ss : List Sending)
      → AllFit (length b) ss
      → AllReadable is_utf8 (messages ss)
      → map (read_basic_buffer async_read b) (messages ss) ≡ buffers b ss
  unfolding AllFit messages buffers AllReadable
  buffers_read b [] fit r = refl
  buffers_read b (sends_string s ∷ ss) (fit, fits) (r, rs) = λ i.
      read_basic_buffer-fitting b (record { is_binary = false; payload = s }) r fit i
      ∷ buffers_read b ss fits rs i
  buffers_read b (sends_buffer s ∷ ss) (fit, fits) (r, rs) = λ i.
      read_basic_buffer-fitting b (record { is_binary = true; payload = s }) r fit i
      ∷ buffers_read b ss fits rs i
  buffers_read b (sets_keepalive_pings p ∷ ss) fits r = buffers_read b ss fits r
  buffers_read b (sets_idle_timeout t ∷ ss) fits r = buffers_read b ss fits r

  -- For a stream whose writes have the kind that was last set on it, and reads that give back a
  -- message that has room, is at most 16 MiB and is UTF-8 if it is a text: such messages of two
  -- kinds that are sent in any order, with options set between them, are read on the other side
  -- in this order. As strings, the texts come back and a binary message is an exception; into a
  -- buffer that has room for each, every message of either kind comes back, with its length and
  -- with the rest of the buffer unchanged.
  pub send_all-read :
      {S : Type 0} (kind : S → Bool) (apply : StreamCall → S → List Message × S)
      → Stream S kind apply
      → (opt : Timeout) (ss : List Sending) (b : Bytes) (s : S) → AllFit (length b) ss
      → AllReadable is_utf8 (messages ss)
      → let arrived = deliver apply (send_all ss (record { timeout = opt; calls = [] })).calls s in
        (map (get_string async_read shut_down) arrived ≡ strings shut_down ss)
        × (map (read_basic_buffer async_read b) arrived ≡ buffers b ss)
  unfolding deliver
  send_all-read kind apply laws opt ss b s fit readable =
      rw (delivered apply laws ss (record { timeout = opt; calls = [] }) s)
        (strings_read ss readable, buffers_read b ss fit readable)
