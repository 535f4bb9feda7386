-- ===== src/Oidc/SigningKey.antt =====
-- `ensureJwtSigningKey` of cmd/oidc/oidcserver/oidcserver.go, on the secret of the cluster. RSA, PEM and
-- UUIDs are the record `KeyLibrary`. The name of the secret is left out of the texts of errors.
pub mod Laws
mod Tests
use kubauth.Base.{ℕ, String, Option, none, some, [], ◌∷◌, ◌<>◌, ◌==◌, if◌then◌else◌, Dict, lookup}
use kubauth.Proto.{Result, ok, err, ◌>>=◌}
use kubauth.Ucrd.Authenticator.{Fetch, found, absent, failed}

-- Private keys, their encodings, and PEM blocks, which have a type and bytes. A PKCS8 key of another
-- kind than RSA is `none`. `new_uuid n` is the UUID of the `n`-th call in a run, each a new one.
pub record KeyLibrary (K : Type 0) : Type 0 where
  pub generate_key : Result K
  pub marshal_pkcs1 : K → String
  pub parse_pkcs1 : String → Result K
  pub parse_pkcs8 : String → Result (Option K)
  pub encode_pem : String → String → Result String
  pub decode_pem : String → Option (String × String)
  pub new_uuid : ℕ → String

-- The key of the server, if it has one yet, and its identifier.
pub record KeyHolder (K : Type 0) : Type 0 where
  pub private_key : Option K
  pub key_id : String

abbrev pub labelled {ℓ} : {A : Type ℓ} → String → Result A → Result A
labelled text (ok a) = ok a
labelled text (err e) = err (text <> e)

abbrev pub if_some {ℓ} : {A : Type ℓ} → String → Option A → Result A
if_some text none = err text
if_some text (some a) = ok a

module _ {K : Type 0} (lib : KeyLibrary K) where
  unfoldable pub parse_block : String × String → Result K
  parse_block (type, bytes) =
      if type == "RSA PRIVATE KEY"
      then labelled "failed parsing PKCS1 private key from secret: " (lib.parse_pkcs1 bytes)
      else if type == "PRIVATE KEY"
      then labelled "failed parsing PKCS8 private key from secret: " (lib.parse_pkcs8 bytes)
        >>= if_some "unsupported private key type in secret"
      else err ("unsupported PEM block type in secret: " <> type)

  -- The key and the identifier of a secret.
  unfoldable pub load : Dict String → Result (K × String)
  unfolding parse_block
  load entries = if_some "secret missing required data keys" (lookup "key.pem" entries) >>= λ pem.
      if_some "secret missing required data keys" (lookup "kid" entries) >>= λ kid.
      if_some "failed to decode PEM from secret" (lib.decode_pem pem) >>= λ block.
      parse_block block >>= λ key. ok (key, kid)

  -- The secret for a key and its identifier.
  unfoldable pub secret_for : K → String → Result (K × String × Dict String)
  secret_for key kid =
      labelled "failed to encode PEM: " (lib.encode_pem "RSA PRIVATE KEY" (lib.marshal_pkcs1 key))
      >>= λ pem. ok (key, kid, ("key.pem", pem) ∷ ("kid", kid) ∷ [])

  -- A new key, a new identifier, and the secret for them.
  unfoldable pub generate : Result (K × String × Dict String)
  unfolding secret_for
  generate = labelled "failed to generate RSA key: " lib.generate_key >>= λ key.
      secret_for key (lib.new_uuid 0)

  -- The secret after the call, the server, and the error.
  unfoldable pub use_loaded :
      Dict String
      → KeyHolder K
      → Result (K × String)
      → Fetch (Dict String) × KeyHolder K × Result (Unit {0})
  use_loaded entries s (ok (key, kid)) =
      (found entries, record s { private_key = some key; key_id = kid }, ok tt)
  use_loaded entries s (err e) = (found entries, s, err e)

  unfoldable pub store_generated :
      Result (Unit {0})
      → KeyHolder K
      → Result (K × String × Dict String)
      → Fetch (Dict String) × KeyHolder K × Result (Unit {0})
  store_generated create s (err e) = (absent, s, err e)
  store_generated (err e) s (ok (key, kid, entries)) =
      (absent, s, err ("failed creating secret: " <> e))
  store_generated (ok _) s (ok (key, kid, entries)) =
      (found entries, record s { private_key = some key; key_id = kid }, ok tt)

  unfoldable pub ensure_jwt_signing_key :
      Result (Unit {0})
      → KeyHolder K
      → Fetch (Dict String)
      → Fetch (Dict String) × KeyHolder K × Result (Unit {0})
  unfolding use_loaded store_generated load generate
  ensure_jwt_signing_key create s (found entries) = use_loaded entries s (load entries)
  ensure_jwt_signing_key create s (failed e) =
      (failed e, s, err ("failed to load JWT signing key: " <> e))
  ensure_jwt_signing_key create s absent = store_generated create s generate
