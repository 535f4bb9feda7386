-- ===== src/Oidc/SigningKey/Laws.antt =====
-- All servers of a cluster sign with the key of its secret.
use kubauth.Base.{◌≡◌, refl, sym, ap, ◌∙◌, String, some, [], ◌∷◌, Dict, lookup}
use kubauth.Proto.{Result, ok, err, bind_inv, ok-injective}
use kubauth.Ucrd.Authenticator.{Fetch, found, absent, failed}
use kubauth.Oidc.SigningKey.{
  KeyLibrary, KeyHolder, labelled, parse_block, load, secret_for, generate, use_loaded,
  store_generated, ensure_jwt_signing_key,
}

module _ {K : Type 0} (lib : KeyLibrary K) where
  -- What is encoded is decoded, for PEM blocks of the type that is written and for RSA keys.
  abbrev pub DecodesPem : Type 0
  DecodesPem =
      (bytes pem : String)
      → lib.encode_pem "RSA PRIVATE KEY" bytes ≡ ok pem
      → lib.decode_pem pem ≡ some ("RSA PRIVATE KEY", bytes)

  abbrev pub ParsesPkcs1 : Type 0
  ParsesPkcs1 = (key : K) → lib.parse_pkcs1 (lib.marshal_pkcs1 key) ≡ ok key

  labelled-ok {ℓ} :
      {A : Type ℓ} (text : String) (r : Result A) (a : A) → labelled text r ≡ ok a → r ≡ ok a
  labelled-ok text (ok b) a e = e
  labelled-ok text (err b) a e = cc

  abbrev new_secret : String → String → Dict String
  new_secret kid pem = ("key.pem", pem) ∷ ("kid", kid) ∷ []

  load-new_secret :
      DecodesPem
      → ParsesPkcs1
      → (key : K) (kid pem : String)
      → lib.encode_pem "RSA PRIVATE KEY" (lib.marshal_pkcs1 key) ≡ ok pem
      → load lib (new_secret kid pem) ≡ ok (key, kid)
  unfolding load parse_block lookup
  load-new_secret decodes parses key kid pem e = rw (decodes _ pem e) (rw (parses key) refl)

  -- A generated secret is loaded as its key.
  generate-load :
      DecodesPem
      → ParsesPkcs1
      → (key : K) (kid : String) (entries : Dict String) → generate lib ≡ ok (key, kid, entries)
      → load lib entries ≡ ok (key, kid)
  unfolding generate secret_for
  generate-load decodes parses key kid entries made =
      let (made_key, _, rest) =
        bind_inv (labelled "failed to generate RSA key: " lib.generate_key)
          (λ (k : K). secret_for lib k (lib.new_uuid 0)) (key, kid, entries) made in
      let (pem, encoded, last) =
        bind_inv
          (labelled "failed to encode PEM: "
            (lib.encode_pem "RSA PRIVATE KEY" (lib.marshal_pkcs1 made_key)))
          (λ (text : String). ok (made_key, lib.new_uuid 0, new_secret (lib.new_uuid 0) text))
          (key, kid, entries) rest in
      let same = ok-injective last in
      ap (load lib) (sym (ap (λ (p : K × String × Dict String). p.2) same))
      ∙ (load-new_secret decodes parses made_key (lib.new_uuid 0) pem
            (labelled-ok "failed to encode PEM: " _ pem encoded)
          ∙ ap (λ (p : K × String × Dict String). ok (p.0, p.1)) same)

  -- What a run that succeeds leaves: any other server that starts then takes the same key and identifier,
  -- and leaves the secret.
  abbrev pub Shared : Fetch (Dict String) × KeyHolder K × Result (Unit {0}) → Type 0
  Shared out =
      out.2 ≡ ok tt
      → (create : Result (Unit {0})) (other : KeyHolder K)
      → ensure_jwt_signing_key lib create other out.0 ≡ (out.0, out.1, ok tt)

  loaded-Shared :
      (entries : Dict String) (s : KeyHolder K) (l : Result (K × String))
      → load lib entries ≡ l
      → Shared (use_loaded lib entries s l)
  unfolding ensure_jwt_signing_key use_loaded
  loaded-Shared entries s (ok (key, kid)) e good create other = ap (use_loaded lib entries other) e
  loaded-Shared entries s (err text) e good create other = cc

  generated-Shared :
      DecodesPem
      → ParsesPkcs1
      → (create : Result (Unit {0})) (s : KeyHolder K) (g : Result (K × String × Dict String))
      → generate lib ≡ g
      → Shared (store_generated lib create s g)
  unfolding ensure_jwt_signing_key use_loaded store_generated
  generated-Shared decodes parses (ok _) s (ok (key, kid, entries)) e good create other =
      ap (use_loaded lib entries other) (generate-load decodes parses key kid entries e)
  generated-Shared decodes parses (err text) s (ok (key, kid, entries)) e good create other = cc
  generated-Shared decodes parses c s (err text) e good create other = cc

  -- Where PEM blocks of type RSA PRIVATE KEY and RSA keys are decoded as they were encoded: after a run that succeeds, which has
  -- loaded the key of the secret or made both, every server that starts gets the same key and identifier
  -- and leaves the secret as it is.
  pub ensure-Shared :
      DecodesPem
      → ParsesPkcs1
      → (create : Result (Unit {0})) (s : KeyHolder K) (secret : Fetch (Dict String))
      → Shared (ensure_jwt_signing_key lib create s secret)
  unfolding ensure_jwt_signing_key
  ensure-Shared decodes parses create s (found entries) =
      loaded-Shared entries s (load lib entries) refl
  ensure-Shared decodes parses create s absent =
      generated-Shared decodes parses create s (generate lib) refl
  ensure-Shared decodes parses create s (failed e) = λ good c other. cc
