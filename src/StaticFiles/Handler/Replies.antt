-- ===== src/StaticFiles/Handler/Replies.antt =====
-- What the handler of src/http_static.cpp answers for a file that it has found.
use libasyik.Common.{
  ℕ, ◌+◌, ◌-◌, ◌≤◌, ◌<◌, ◌≡◌, refl, sym, ap, ◌∙◌, subst, ◌≢◌, ◌↔◌, inl, inr, ℤ, pos, pos_part,
  Option, none, some, List, [], ◌∷◌, Bool, true, false, ◌&&◌, ◌||◌, ltb, if◌then◌else◌, Bool-cases,
  Option-cases, if-intro, length, take, drop, Bytes, codes, bytes_eq, bytes_eq_refl, eq_of_bytes_eq,
  arith,
}
use mathlib.Core.Option
use mathlib.Core.Path.{ap₂}
use libasyik.StaticFiles.{FileInfo, FileSystem, StaticFileConfig, Clock, make_etag, read_file_range}
use libasyik.StaticFiles.Etag.{IsLongLong, make_etag-injective}
use libasyik.StaticFiles.Reading.{Reads, read_file_range_lem}
use libasyik.StaticFiles.Handler.{
  Request, Reply, etag_matches, date_covers, not_modified, requested_range, send_range, send_file,
  serve,
}
use libasyik.StaticFiles.Handler.Ranges.{Inside, requested_range-Inside}

-- The status and the body for a file of these bytes, with the range that is asked for.
abbrev pub expected : Bytes → Option (ℕ × ℕ) → ℕ × Option Bytes
expected bytes none = (200, some bytes)
expected bytes (some (a, b)) = (206, some (take (b - a + 1) (drop a bytes)))

empty_of : (s : Bytes) → length s ≡ 0 → s ≡ []
empty_of [] h = refl
empty_of (b ∷ s) h = absurd (omega (arith, h))

take_all {ℓ} : {A : Type ℓ} (xs : List A) → take (length xs) xs ≡ xs
take_all [] = refl
take_all (x ∷ xs) = ap (◌∷◌ x) (take_all xs)

module _ {F Tm : Type 0} (fs : FileSystem F) (clock : Clock Tm) (cfg : StaticFileConfig)
    (path : Bytes) (st : FileInfo) (bytes : Bytes) where
  module _ (fd : F) (opens : fs.open_file path ≡ some fd)
      (seeks : (offset : ℕ) → fs.lseek fd offset ≡ true) (reads : Reads fs fd bytes)
      (sized : st.size ≡ length bytes) where
    send_range_lem :
        (a b : ℕ)
        → a ≤ b
        → b < st.size
        → let reply = send_range fs clock cfg path st a b in
          ◌≡◌ {A = ℕ × Option Bytes} (reply.status, reply.body) (expected bytes (some (a, b)))
    unfolding send_range
    send_range_lem a b h h' =
        rw
          (
            send_range,
            read_file_range_lem fs fd bytes reads path a (b - a + 1) opens (seeks a) (omega arith),
          )
          refl

    send_file_lem :
        let reply = send_file fs clock cfg path st in
        ◌≡◌ {A = ℕ × Option Bytes} (reply.status, reply.body) (expected bytes none)
    unfolding send_file
    send_file_lem = rw (send_file, whole) refl
      where
        whole : (if ltb 0 st.size then read_file_range fs path 0 st.size else some []) ≡ some bytes
        whole =
            if-intro (λ o. o ≡ some bytes) (ltb 0 st.size)
              (λ e.
                read_file_range_lem fs fd bytes reads path 0 st.size opens (seeks 0) (omega arith)
                ∙ ap some (ap (λ n. take n bytes) sized ∙ take_all bytes))
              (λ e. ap some (sym (empty_of bytes (ground (arith, sized)))))

    -- For a file that can be opened and read, whose size is that of its bytes, when the request
    -- is not answered by 304: the reply is 200 with all the bytes, or, for a range that can be
    -- read and lies in the file, 206 with exactly the bytes of that range; a Range that is
    -- malformed counts as none.
    pub serve_lem :
        (request : Request)
        → not_modified clock cfg request st ≡ none
        → let reply = serve fs clock cfg request path st in
          ◌≡◌ {A = ℕ × Option Bytes}
            (reply.status, reply.body)
            (expected bytes (requested_range cfg (request.headers (codes "Range")) st.size))
    unfolding serve
    serve_lem request changed =
        elim (Option-cases (requested_range cfg (request.headers (codes "Range")) st.size)) [
          | inl e ↦ rw (serve, changed, e) send_file_lem
          | inr ((a, b), e) ↦
              let (h, h') =
                subst (Inside st.size) e
                  (requested_range-Inside cfg (request.headers (codes "Range")) st.size) in
              rw (serve, changed, e) (send_range_lem a b h h')
        ]

and_false : (b : Bool) → b && false ≡ false
and_false true = refl
and_false false = refl

or_false : (b : Bool) → b || false ≡ b
or_false true = refl
or_false false = refl

etag_matches_lem :
    (request : Request) (m : ℤ) (n : ℕ) (m' : ℤ) (n' : ℕ)
    → request.headers (codes "If-None-Match") ≡ make_etag m (pos n)
    → etag_matches request (make_etag m' (pos n'))
      ≡ bytes_eq (make_etag m (pos n)) (make_etag m' (pos n'))
unfolding etag_matches make_etag bytes_eq
etag_matches_lem request m n m' n' inm = rw (etag_matches, inm) (or_false _)

module _ {Tm : Type 0} (clock : Clock Tm) (cfg : StaticFileConfig) (request : Request)
    (st : FileInfo) where
  etag_hit :
      cfg.enable_etag ≡ true
      → etag_matches request (make_etag st.mtime (pos st.size)) ≡ true
      → Option.map (λ (r : Reply). r.status) (not_modified clock cfg request st) ≡ some 304
  unfolding not_modified
  etag_hit on e = rw (on, e) refl

  etag_miss :
      etag_matches request (make_etag st.mtime (pos st.size)) ≡ false
      → request.headers (codes "If-Modified-Since") ≡ []
      → not_modified clock cfg request st ≡ none
  unfolding not_modified date_covers bytes_eq
  etag_miss e ims = rw (e, ims, and_false cfg.enable_etag, and_false cfg.enable_last_modified) refl

  -- With tags enabled, for numbers of 64 bits, a request by a tag that the server made, without a
  -- date, is answered by 304 if and only if time of modification and size are those of the tag.
  not_modified-etag :
      (mtime : ℤ) (size : ℕ)
      → cfg.enable_etag ≡ true
      → request.headers (codes "If-None-Match") ≡ make_etag mtime (pos size)
      → request.headers (codes "If-Modified-Since") ≡ []
      → IsLongLong mtime
      → IsLongLong (pos size)
      → IsLongLong st.mtime
      → IsLongLong (pos st.size)
      → (not_modified clock cfg request st ≢ none) ↔ ((mtime ≡ st.mtime) × (size ≡ st.size))
  unfolding not_modified
  not_modified-etag mtime size on inm ims h h' h'' h''' =
      let matches = etag_matches_lem request mtime size st.mtime st.size inm in
      elim (Bool-cases (etag_matches request (make_etag st.mtime (pos st.size)))) [
        | inl e ↦
            let (p, q) =
              make_etag-injective mtime (pos size) st.mtime (pos st.size) h h' h'' h'''
                (eq_of_bytes_eq _ _ (sym matches ∙ e)) in
            (λ n. (p, ap pos_part q), λ same n. cc (etag_hit on e, n))
        | inr e ↦
            (λ n. absurd (n (etag_miss e ims)), λ (p, q). absurd (differ p q (sym matches ∙ e)))
      ]
    where
      differ :
          mtime ≡ st.mtime
          → size ≡ st.size
          → ¬ (bytes_eq (make_etag mtime (pos size)) (make_etag st.mtime (pos st.size)) ≡ false)
      differ p q e = cc (
        ap₂ (λ m n. bytes_eq (make_etag mtime (pos size)) (make_etag m (pos n))) p q,
        bytes_eq_refl (make_etag mtime (pos size)),
        e,
      )

  -- With dates enabled, a date that covers the time of modification is answered by 304, whatever
  -- tag the request names.
  not_modified-date :
      cfg.enable_last_modified ≡ true
      → date_covers clock request st.mtime ≡ true
      → Option.map (λ (r : Reply). r.status) (not_modified clock cfg request st) ≡ some 304
  unfolding not_modified
  not_modified-date on covers =
      if-intro (λ o. Option.map (λ (r : Reply). r.status) o ≡ some 304)
        (cfg.enable_etag && etag_matches request (make_etag st.mtime (pos st.size))) (λ e. refl)
        (λ e. rw (on, covers) refl)
