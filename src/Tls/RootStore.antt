-- ===== src/Tls/RootStore.antt =====
-- `load_windows_root_store` of src/tls_win_certstore.cpp: the trusted roots of Windows are copied
-- into the store of a context. `C` is an encoded certificate and `X` one that OpenSSL has read;
-- `d2i_X509` reads it, and `add_cert` adds it to a store, which stays as it is for one it has.
use libasyik.Common.{◌≡◌, ap, ◌∙◌, Option, none, some, List, [], ◌∷◌, ◌++◌, Bool, true}

module _ {C X S : Type 0} (d2i_X509 : C → Option X) (add_cert : X → S → S) where
  -- What is done with a certificate that was read, or not.
  unfoldable pub add_read : Option X → S → S
  add_read none store = store
  add_read (some x509) store = add_cert x509 store

  unfoldable pub add_all : List C → S → S
  add_all [] store = store
  add_all (cert ∷ certs) store = add_all certs (add_read (d2i_X509 cert) store)

  -- `none` where the store of the system cannot be opened.
  unfoldable pub load_windows_root_store : Option (List C) → S → S
  load_windows_root_store none store = store
  load_windows_root_store (some certs) store = add_all certs store

module _ {C X S : Type 0} (d2i_X509 : C → Option X) (add_cert : X → S → S) (trusts : X → S → Bool)
    (added : (x : X) (s : S) → trusts x (add_cert x s) ≡ true)
    (grows : (x y : X) (s : S) → trusts x s ≡ true → trusts x (add_cert y s) ≡ true) where
  add_read_grows :
      (x : X) (o : Option X) (s : S)
      → trusts x s ≡ true
      → trusts x (add_read d2i_X509 add_cert o s) ≡ true
  unfolding add_read
  add_read_grows x none s h = h
  add_read_grows x (some y) s h = grows x y s h

  add_all_grows :
      (x : X) (certs : List C) (s : S)
      → trusts x s ≡ true
      → trusts x (add_all d2i_X509 add_cert certs s) ≡ true
  unfolding add_all
  add_all_grows x [] s h = h
  add_all_grows x (c ∷ cs) s h =
      add_all_grows x cs (add_read d2i_X509 add_cert (d2i_X509 c) s)
        (add_read_grows x (d2i_X509 c) s h)

  -- A root of the system that OpenSSL can read is trusted, wherever it stands among the others.
  trusts-load_windows_root_store :
      (before after : List C) (c : C) (x : X) (s : S)
      → d2i_X509 c ≡ some x
      → trusts x (load_windows_root_store d2i_X509 add_cert (some (before ++ (c ∷ after))) s) ≡ true
  unfolding load_windows_root_store add_all add_read
  trusts-load_windows_root_store [] after c x s e =
      add_all_grows x after (add_read d2i_X509 add_cert (d2i_X509 c) s)
        (ap (λ o. trusts x (add_read d2i_X509 add_cert o s)) e ∙ added x s)
  trusts-load_windows_root_store (b ∷ before) after c x s e =
      trusts-load_windows_root_store before after c x (add_read d2i_X509 add_cert (d2i_X509 b) s) e
