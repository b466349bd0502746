-- ===== src/Websocket/Opening.antt =====
-- The order in which a websocket is opened, and what its handshake asks for.
use libasyik.Common.{
  made, IsMade, made-first, nothing_made, ℕ, ◌≡◌, ◌≢◌, refl, sym, ap, ◌∙◌, subst, inl, inr, Option,
  none, some, List, [], ◌∷◌, Bool, true, false, if◌then◌else◌, Bytes, bytes_eq,
}
use libasyik.HttpClient.Address.{Url, UrlScheme, http_analyze_url}
use libasyik.Websocket.{
  OpenCall, client_handshake, async_handshake, or_slash, is_default_port, with_port, handshake_ssl,
  make_websocket_connection_ssl, make_websocket_connection,
}

-- A handshake is not another call.
made-later :
    (succeeds : OpenCall → Bool) (a t : Bytes) (d : OpenCall) (ds : List OpenCall)
    → (async_handshake a t ≢ d)
    → IsMade (async_handshake a t) (made succeeds (d ∷ ds)).0
    → (succeeds d ≡ true) × IsMade (async_handshake a t) (made succeeds ds).0
made-later succeeds a t d ds other m = elim (made-first succeeds (async_handshake a t) d ds m) [
  | inl e ↦ absurd (other e)
  | inr n ↦ n
]

or_slash-nonempty : (target : Bytes) → or_slash target ≢ []
unfolding or_slash bytes_eq
or_slash-nonempty [] = λ e. absurd (cc e)
or_slash-nonempty (x ∷ xs) = λ e. absurd (cc e)

handshake_parts :
    (b : Bool) (a t h k x : Bytes)
    → async_handshake a t ≡ (if b then async_handshake h x else async_handshake k x)
    → (t ≡ x) × (a ≡ (if b then h else k))
handshake_parts true a t h k x e = (cc e, cc e)
handshake_parts false a t h k x e = (cc e, cc e)

opened_ssl :
    (parse_uri : Bytes → Option Url) (succeeds : OpenCall → Bool) (url : Bytes) (timeout : ℕ)
    (scheme : UrlScheme)
    → http_analyze_url parse_uri url ≡ some scheme
    → scheme.is_ssl ≡ true
    → make_websocket_connection parse_uri succeeds url timeout
      ≡ some (made succeeds (make_websocket_connection_ssl timeout scheme))
unfolding make_websocket_connection
opened_ssl parse_uri succeeds url timeout scheme read ssl =
    rw (make_websocket_connection, read, ssl) refl

sent_ssl :
    (succeeds : OpenCall → Bool) (timeout : ℕ) (scheme : UrlScheme) (a t : Bytes)
    → IsMade (async_handshake a t) (made succeeds (make_websocket_connection_ssl timeout scheme)).0
    → (succeeds (client_handshake scheme.host) ≡ true)
      × (async_handshake a t ≡ handshake_ssl scheme)
unfolding make_websocket_connection_ssl
sent_ssl succeeds timeout scheme a t m =
    let (_, m1) = made-later succeeds a t _ _ (λ e. absurd (cc e)) m in
    let (_, m2) = made-later succeeds a t _ _ (λ e. absurd (cc e)) m1 in
    let (_, m3) = made-later succeeds a t _ _ (λ e. absurd (cc e)) m2 in
    let (secure, m4) = made-later succeeds a t _ _ (λ e. absurd (cc e)) m3 in
    let (_, m5) = made-later succeeds a t _ _ (λ e. absurd (cc e)) m4 in
    let (_, m6) = made-later succeeds a t _ _ (λ e. absurd (cc e)) m5 in
    let (_, m7) = made-later succeeds a t _ _ (λ e. absurd (cc e)) m6 in
    elim (made-first succeeds (async_handshake a t) (handshake_ssl scheme) [] m7) [
      | inl e ↦ (secure, e)
      | inr n ↦ absurd (nothing_made succeeds (async_handshake a t) n.1)
    ]

-- For an address of a scheme with TLS, whatever calls succeed: where the handshake of the
-- websocket is made, the handshake of TLS for the host of the address has succeeded before it,
-- and the handshake asks for a target that is not empty, of that host, with the port unless it is
-- 80 or 443.
pub make_websocket_connection-secure :
    (parse_uri : Bytes → Option Url) (succeeds : OpenCall → Bool) (url : Bytes) (timeout : ℕ)
    (scheme : UrlScheme) (calls : List OpenCall) (done : Bool) (a t : Bytes)
    → http_analyze_url parse_uri url ≡ some scheme
    → scheme.is_ssl ≡ true
    → make_websocket_connection parse_uri succeeds url timeout ≡ some (calls, done)
    → IsMade (async_handshake a t) calls
    → (succeeds (client_handshake scheme.host) ≡ true)
      × (t ≢ [])
      × (a ≡ (if is_default_port scheme then scheme.host else with_port scheme))
unfolding make_websocket_connection handshake_ssl
make_websocket_connection-secure parse_uri succeeds url timeout scheme calls done a t read ssl is
      m =
    let same =
      ap (λ o. elim o [ none ↦ [] | some r ↦ r.0 ])
        (sym (opened_ssl parse_uri succeeds url timeout scheme read ssl) ∙ is) in
    let (secure, e) =
      sent_ssl succeeds timeout scheme a t (subst (IsMade (async_handshake a t)) (sym same) m) in
    let (target, host) =
      handshake_parts (is_default_port scheme) a t scheme.host (with_port scheme)
        (or_slash scheme.target) e in
    (secure, (λ n. or_slash-nonempty scheme.target (sym target ∙ n)), host)
