-- ===== src/StaticFiles/Handler/Containment.antt =====
-- Which files the handler of src/http_static.cpp serves: none outside of its root.
use libasyik.Common.{
  ◌≡◌, refl, ◌⊎◌, inl, inr, some, ◌++◌, true, ◌||◌, Bool-cases, if-intro, Option-cases, Bytes,
  bytes_eq, eq_of_bytes_eq, begins_with, has_byte, pop_back, arith,
}
use libasyik.StaticFiles.{FileInfo, FileSystem, StaticFileConfig, Clock}
use libasyik.StaticFiles.Handler.{
  Request, Reply, Located, refused, located, regular_file, index_of, locate, serve, handle,
  sub_target, subpath, with_slash, not_found, forbidden, bad_request,
}

module _ {F : Type 0} (fs : FileSystem F) (root : Bytes) where
  -- A file may be served: the system has resolved its path, the path lies in the root or is that of
  -- the root, and the system says that it is a regular file. A refusal is one of three.
  abbrev pub Permitted : Located → Type 0
  Permitted (refused reply) = (reply ≡ not_found) ⊎ ((reply ≡ forbidden) ⊎ (reply ≡ bad_request))
  Permitted (located path st) =
      ((asked : Bytes) × (fs.realpath asked ≡ some path))
      × ((begins_with root path ≡ true) ⊎ (path ≡ pop_back root))
      × (fs.stat path ≡ some st)
      × (st.is_regular ≡ true)

  regular_file-Permitted :
      (path : Bytes) (st : FileInfo) (asked : Bytes)
      → fs.realpath asked ≡ some path
      → (begins_with root path ≡ true) ⊎ (path ≡ pop_back root)
      → fs.stat path ≡ some st
      → Permitted (regular_file fs root path st)
  unfolding regular_file
  regular_file-Permitted path st asked resolved inside there =
      if-intro Permitted st.is_regular (λ e. ((asked, resolved), inside, there, e))
        (λ e. inr (inl refl))

  index_of-Permitted : (index_file path : Bytes) → Permitted (index_of fs root index_file path)
  unfolding index_of
  index_of-Permitted index_file path =
      elim (Option-cases (fs.realpath (with_slash path ++ index_file))) [
        | inl e ↦ rw (index_of, e) (inl refl)
        | inr (path', e) ↦ elim (Bool-cases (begins_with root path')) [
          | inl i ↦ elim (Option-cases (fs.stat path')) [
            | inl f ↦ rw (index_of, e, i, f) (inl refl)
            | inr (st, f) ↦
                rw (index_of, e, i, f)
                  (if-intro Permitted st.is_dir (λ d. inr (inl refl))
                    (λ d.
                      regular_file-Permitted path' st (with_slash path ++ index_file) e (inl i) f))
          ]
          | inr i ↦ rw (index_of, e, i) (inr (inl refl))
        ]
      ]

  inside_cases :
      (path : Bytes)
      → begins_with root path || bytes_eq path (pop_back root) ≡ true
      → (begins_with root path ≡ true) ⊎ (path ≡ pop_back root)
  inside_cases path e = elim (Bool-cases (begins_with root path)) [
    | inl i ↦ inl i
    | inr i ↦ inr (eq_of_bytes_eq path (pop_back root) (ground arith))
  ]

  -- Whatever the target is, with '..', links or a directory's index: the file that is found for it
  -- may be served.
  pub locate-Permitted : (index_file target : Bytes) → Permitted (locate fs root index_file target)
  unfolding locate
  locate-Permitted index_file target = elim (Bool-cases (has_byte 0 target)) [
    | inl z ↦ rw (locate, z) (inr (inr refl))
    | inr z ↦ elim (Option-cases (fs.realpath (root ++ subpath target))) [
      | inl e ↦ rw (locate, z, e) (inl refl)
      | inr (path, e) ↦ elim (Bool-cases (begins_with root path || bytes_eq path (pop_back root))) [
        | inl i ↦ elim (Option-cases (fs.stat path)) [
          | inl f ↦ rw (locate, z, e, i, f) (inl refl)
          | inr (st, f) ↦
              rw (locate, z, e, i, f)
                (if-intro Permitted st.is_dir (λ d. index_of-Permitted index_file path)
                  (λ d.
                    regular_file-Permitted path st (root ++ subpath target) e (inside_cases path i)
                      f))
        ]
        | inr i ↦ rw (locate, z, e, i) (inr (inl refl))
      ]
    ]
  ]

module _ {F Tm : Type 0} (fs : FileSystem F) (clock : Clock Tm) (cfg : StaticFileConfig) where
  -- A refusal, or an answer from a file that may be served.
  abbrev pub Answered : (root : Bytes) → Request → Reply → Type 0
  Answered root request reply =
      ((reply ≡ not_found) ⊎ ((reply ≡ forbidden) ⊎ (reply ≡ bad_request)))
      ⊎ ((path : Bytes) × (st : FileInfo) × Permitted fs root (located path st)
          × (reply ≡ serve fs clock cfg request path st))

  abbrev answer : Request → Located → Reply
  answer request (refused reply) = reply
  answer request (located path st) = serve fs clock cfg request path st

  answer-Answered :
      (root : Bytes) (request : Request) (found : Located)
      → Permitted fs root found
      → Answered root request (answer request found)
  answer-Answered root request (refused reply) p = inl p
  answer-Answered root request (located path st) p = inr (path, st, p, refl)

  -- Whatever the request and the file system, the handler refuses with 404, 403 or 400, or it
  -- answers from a file whose resolved path lies in the canonical root, or is that of the root,
  -- and which the system says is a regular file.
  pub handle-Answered :
      (url_prefix root : Bytes) (request : Request)
      → Answered root request (handle fs clock cfg url_prefix root request)
  unfolding handle
  handle-Answered url_prefix root request =
      let target = sub_target url_prefix request.target in
      answer-Answered root request (locate fs root cfg.index_file target)
        (locate-Permitted fs root cfg.index_file target)
