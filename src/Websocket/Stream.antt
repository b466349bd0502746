-- ===== src/Websocket/Stream.antt =====
-- What the code of include/libasyik/http_websocket.hpp relies on in a stream of Beast: what its
-- calls send to the other side, and what is read there.
use libasyik.Common.{
  ℕ, ◌≡◌, refl, ap, sym, ◌∙◌, Option, none, some, List, [], ◌∷◌, ◌++◌, Bool, true, false, ◌≤◌,
  append-nil, append_assoc, length, Bytes,
}
use libasyik.Futures.{Outcome, value}
use libasyik.Websocket.{Timeout, StreamCall, set_binary, async_write, set_option, Message}

-- What one call on a stream sends: a message has the kind that the stream is set to when it is
-- written, which lasts until it is set again. `S` is the state of a stream, `kind` whether it
-- writes binary messages, `apply` a call, with the messages that leave.
pub record Stream {ℓ} (S : Type ℓ) (kind : S → Bool) (apply : StreamCall → S → List Message × S)
    : Type ℓ where
  pub of_binary :
      (b : Bool) (s : S) → ((apply (set_binary b) s).0 ≡ []) × (kind (apply (set_binary b) s).1 ≡ b)
  pub of_write :
      (p : Bytes) (s : S)
      → (apply (async_write p) s).0 ≡ record { is_binary = kind s; payload = p } ∷ []
  pub of_option : (o : Timeout) (s : S) → (apply (set_option o) s).0 ≡ []

-- The default of `read_message_max`, in bytes.
abbrev pub read_message_max : ℕ
read_message_max = 16777216

-- A message that Beast lets pass; `is_utf8` is its test of texts.
unfoldable pub IsReadable : (is_utf8 : Bytes → Bool) → Message → Type 0
IsReadable is_utf8 m =
    (length m.payload ≤ read_message_max) × (m.is_binary ≡ false → is_utf8 m.payload ≡ true)

-- A read gives the bytes of such a message that has room.
pub record Reads (is_utf8 : Bytes → Bool) (async_read : Option ℕ → Message → Outcome Bytes)
    : Type 0 where
  pub unlimited : (m : Message) → IsReadable is_utf8 m → async_read none m ≡ value m.payload
  pub fitting :
      (n : ℕ) (m : Message)
      → IsReadable is_utf8 m
      → length m.payload ≤ n
      → async_read (some n) m ≡ value m.payload

module _ {ℓ} {S : Type ℓ} (apply : StreamCall → S → List Message × S) where
  -- What leaves, and the state after, by calls in their order.
  unfoldable pub deliver : List StreamCall → S → List Message
  deliver [] s = []
  deliver (c ∷ cs) s = (apply c s).0 ++ deliver cs (apply c s).1

  after : List StreamCall → S → S
  after [] s = s
  after (c ∷ cs) s = after cs (apply c s).1

  deliver-append :
      (cs more : List StreamCall) (s : S)
      → deliver (cs ++ more) s ≡ deliver cs s ++ deliver more (after cs s)
  unfolding deliver after
  deliver-append [] more s = refl
  deliver-append (c ∷ cs) more s =
      ap (λ d. (apply c s).0 ++ d) (deliver-append cs more (apply c s).1)
      ∙ sym (
          append_assoc (apply c s).0 (deliver cs (apply c s).1)
            (deliver more (after cs (apply c s).1)))

  module _ {kind : S → Bool} (laws : Stream S kind apply) where
    pub deliver_write :
        (cs : List StreamCall) (b : Bool) (p : Bytes) (s : S)
        → deliver (cs ++ (set_binary b ∷ async_write p ∷ [])) s
          ≡ deliver cs s ++ (record { is_binary = b; payload = p } ∷ [])
    unfolding deliver
    deliver_write cs b p s =
        let t = after cs s in
        let (nothing, set) = laws.of_binary b t in
        deliver-append cs (set_binary b ∷ async_write p ∷ []) s
        ∙ ap
            (λ d.
              deliver cs s ++ (d ++ ((apply (async_write p) (apply (set_binary b) t).1).0 ++ [])))
            nothing
        ∙ ap (λ d. deliver cs s ++ (d ++ [])) (laws.of_write p (apply (set_binary b) t).1)
        ∙ ap (λ k. deliver cs s ++ (record { is_binary = k; payload = p } ∷ [])) set

    pub deliver_option :
        (cs : List StreamCall) (o : Timeout) (s : S)
        → deliver (cs ++ (set_option o ∷ [])) s ≡ deliver cs s
    unfolding deliver
    deliver_option cs o s =
        deliver-append cs (set_option o ∷ []) s
        ∙ ap (λ d. deliver cs s ++ (d ++ [])) (laws.of_option o (after cs s))
        ∙ append-nil (deliver cs s)
